-- ===== src/Menu/Tests.antt =====
-- A user without rights, and the theorem at him.
use daydream.Base.{ℕ, suc, ◌≡◌, refl, [], ◌∷◌, none}
use daydream.Base.CString.{Str}
use daydream.Access.{has_bit, Security, Seclevel, Account}
use daydream.Menu.{cmd_who, cmd_tag_confs, cmd_ver, Action, Desk, primitive_docmd}
use daydream.Menu.Rights.{Stays, primitive_docmd-Stays, right_of}

abbrev account : Account
account = record {
  user_account_id = 1;
  user_securitylevel = 10;
  user_fileratio = 0;
  user_byteratio = 0;
  user_dailytimelimit = 0;
  user_conferenceacc1 = 0;
  user_conferenceacc2 = 0;
}

abbrev level : Seclevel
level = record {
  sec_seclevel = 10;
  sec_fileratio = 1;
  sec_byteratio = 1;
  sec_dailytime = 60;
  sec_pagespercall = 3;
  sec_accessbits1 = 1;
  sec_accessbits2 = 0;
  sec_conferenceacc1 = 1;
  sec_conferenceacc2 = 0;
}

abbrev presets : Security
presets = record { secs = level ∷ []; security_dat = λ i. none }

-- Who may download files and no more.
abbrev desk : Desk ℕ
desk = record {
  caller = record { user = account; pages = 3; access1 = 1; access2 = 0 };
  user_toggles = 0;
  rest = 0;
}

-- Every function counts its call.
abbrev count : Action → Str → Desk ℕ → Desk ℕ × ℕ
count action params d = (record d { rest = suc d.rest }, 0)

version_shown : (primitive_docmd presets count (λ d. 1) [] cmd_ver [] none desk).0.rest ≡ 1
unfolding primitive_docmd
version_shown = refl

-- The right to download opens the choice of conferences.
conferences_chosen :
    (primitive_docmd presets count (λ d. 1) [] cmd_tag_confs [] none desk).0.rest ≡ 1
unfolding primitive_docmd
conferences_chosen = refl

primitive_docmd-Stays_example :
    Stays desk (primitive_docmd presets count (λ d. 1) [] cmd_who [] none desk)
primitive_docmd-Stays_example =
    primitive_docmd-Stays presets count (λ d. 1) [] cmd_who [] none desk
      (unfold right_of has_bit in refl)
