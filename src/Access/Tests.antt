-- ===== src/Access/Tests.antt =====
-- Concrete users for access, and the theorems at them.
use daydream.Base.{ℕ, arith, ◌≡◌, refl, ◌↔◌, true, false, [], ◌∷◌, none, some, ◌==◌, if◌then◌else◌}
use daydream.Access.{Security, Account, Seclevel, checkconfaccess, isaccess}
use daydream.Access.Refresh.{MayEnter, checkconfaccess_iff}

abbrev level : ℕ → ℕ → ℕ → Seclevel
level n acc1 acc2 = record {
  sec_seclevel = n;
  sec_fileratio = 3;
  sec_byteratio = 3;
  sec_pagespercall = 5;
  sec_dailytime = 60;
  sec_conferenceacc1 = acc1;
  sec_conferenceacc2 = acc2;
  sec_accessbits1 = 6;
  sec_accessbits2 = 0;
}

-- Two presets; user 7 has an own file.
abbrev presets : Security
presets = record {
  secs = level 10 1 0 ∷ level 100 5 2 ∷ level 0 0 0 ∷ [];
  security_dat = λ slot. if slot == 7 then some (level 10 0 1) else none;
}

abbrev account : ℕ → ℕ → Account
account slot seclevel = record {
  user_account_id = slot;
  user_securitylevel = seclevel;
  user_fileratio = 0;
  user_byteratio = 0;
  user_dailytimelimit = 0;
  user_conferenceacc1 = 0;
  user_conferenceacc2 = 0;
}

by_preset : (checkconfaccess presets 3 (account 1 100)).1 ≡ true
unfolding checkconfaccess
by_preset = refl

second_word : (checkconfaccess presets 34 (account 1 100)).1 ≡ true
unfolding checkconfaccess
second_word = refl

own_file : (checkconfaccess presets 1 (account 7 100)).1 ≡ false
unfolding checkconfaccess
own_file = refl

no_preset : (checkconfaccess presets 1 (account 1 50)).1 ≡ false
unfolding checkconfaccess
no_preset = refl

access_flag :
    (isaccess presets 1 6 (record { user = account 1 100; pages = 0; access1 = 6; access2 = 0 })).1
    ≡ true
unfolding isaccess
access_flag = refl

checkconfaccess_iff_example :
    ((checkconfaccess presets 33 (account 7 100)).1 ≡ true) ↔ MayEnter presets (account 7 100) 33
checkconfaccess_iff_example =
    checkconfaccess_iff presets 33 (account 7 100) (omega arith) (omega arith)
