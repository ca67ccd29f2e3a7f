-- ===== src/Join/Tests.antt =====
-- A user who joins conferences and changes bases, and the theorems at these calls.
use daydream.Base.{
  ℕ, ◌%◌, ◌^◌, ◌<◌, ◌≡◌, refl, ◌≢◌, ◌↔◌, Bool, true, false, ◌&&◌, List, [], ◌∷◌, Option, none, some,
  arith, ◌==◌, if◌then◌else◌,
}
use daydream.Base.CString.{Str, codes}
use daydream.Access.{Security, checkconfaccess}
use daydream.Conference.{MsgBase, Conference, findconf}
use daydream.Join.{Reader, JoinFlags, key_of, enter_base, prevbase, joinconf, join_first_open}
use daydream.Join.Pointers.{enter_base-back}
use daydream.Access.Refresh.{MayEnter}
use daydream.Join.Allowed.{IsFirst, HasPassword, joinconf_iff}
use daydream.Join.Entry.{refused_user, joinconf-refused, joinconf-joined}

abbrev base : ℕ → MsgBase
base n = record { msgbase_number = n; msgbase_name = codes "general" }

abbrev area : ℕ → Str → List MsgBase → Conference
area n passwd bases = record {
  conf = record {
    conf_number = n;
    conf_path = codes "/c/";
    conf_msgbases = 2;
    conf_passwd = passwd;
  };
  msgbases = bases;
}

abbrev open_area : Conference
open_area = area 1 [] (base 1 ∷ base 2 ∷ [])

abbrev secret_area : Conference
secret_area = area 2 (codes "Sesame") (base 1 ∷ [])

abbrev areas : List Conference
areas = open_area ∷ secret_area ∷ area 3 [] [] ∷ []

-- Level 10 may enter conferences 1 and 2.
abbrev presets : Security
presets = record {
  secs =
      record {
        sec_seclevel = 10;
        sec_fileratio = 0;
        sec_byteratio = 0;
        sec_pagespercall = 5;
        sec_dailytime = 60;
        sec_conferenceacc1 = 3;
        sec_conferenceacc2 = 0;
        sec_accessbits1 = 6;
        sec_accessbits2 = 0;
      }
      ∷ [];
  security_dat = λ slot. none;
}

abbrev reader : Reader
reader = record {
  user = record {
    user_account_id = 1;
    user_securitylevel = 10;
    user_fileratio = 0;
    user_byteratio = 0;
    user_dailytimelimit = 0;
    user_conferenceacc1 = 0;
    user_conferenceacc2 = 0;
  };
  user_joinconference = 1;
  conference = open_area;
  current_msgbase = some (base 1);
  lrp = 5;
  lsp = 6;
  oldlrp = 3;
  oldlsp = 4;
  lowest = 1;
  highest = 9;
  lrp_open = some (codes "/c/", 1);
  files = record { lrp_file = λ k slot. (3, 4); ptr_file = λ k. (1, 9); can_write = λ k. true };
}

abbrev no_flags : JoinFlags
no_flags = record { jc_shutup = false; jc_quick = false; jc_noupdate = false }

typed_password : (joinconf presets areas reader (some 2) no_flags (codes "sesame" ∷ [])).1 ≡ true
unfolding joinconf checkconfaccess daydream.Base.CString.strcase_eq daydream.Base.CString.tolower
typed_password = refl

wrong_password : (joinconf presets areas reader (some 2) no_flags (codes "open" ∷ [])).1 ≡ false
unfolding joinconf checkconfaccess daydream.Base.CString.strcase_eq daydream.Base.CString.tolower
wrong_password = refl

no_access : (joinconf presets areas reader (some 3) no_flags []).1 ≡ false
unfolding joinconf checkconfaccess
no_access = refl

asked : (joinconf presets areas reader none no_flags (codes "l" ∷ codes "1" ∷ [])).1 ≡ true
unfolding joinconf daydream.Base.CString.strcase_eq daydream.Base.CString.tolower
    daydream.Text.Numbers.strtol daydream.Base.CString.isspace checkconfaccess
asked = refl

next_skips : (join_first_open presets areas (area 3 [] [] ∷ open_area ∷ []) reader []).1 ≡ true
unfolding join_first_open checkconfaccess
next_skips = refl

-- Base 0 is below base 1, so the base is asked for.
below_first : (prevbase reader (base 1) (codes "2" ∷ [])).0.current_msgbase ≡ some (base 2)
unfolding prevbase daydream.Base.CString.strcase_eq daydream.Base.CString.tolower
    daydream.Text.Numbers.strtol daydream.Base.CString.isspace
below_first = refl

enter_base-back_example :
    let s =
      (enter_base (record (enter_base reader (base 2)).0 { lrp = 70; lsp = 80 }) (base 1)).0 in
    (s.lrp ≡ 5) × (s.lsp ≡ 6)
enter_base-back_example =
    enter_base-back reader (base 1) (base 2) 70 80 (λ k. refl) refl (unfold key_of in refl)
      (omega arith) (omega arith) (omega arith)

joinconf_iff_example :
    ((joinconf presets areas reader (some 2) no_flags (codes "sesame" ∷ [])).1 ≡ true) ↔ (
      (mc : Conference) × IsFirst areas 2 mc
      × MayEnter presets reader.user 2
      × HasPassword mc.conf.conf_passwd no_flags (codes "sesame" ∷ []))
joinconf_iff_example =
    joinconf_iff presets areas reader 2 no_flags (codes "sesame" ∷ []) (omega arith) (omega arith)

joinconf-refused_example :
    (joinconf presets areas reader (some 2) no_flags (codes "open" ∷ [])).0
    ≡ record reader { user = refused_user presets areas reader.user 2 }
joinconf-refused_example =
    joinconf-refused presets areas reader 2 no_flags (codes "open" ∷ []) wrong_password

joinconf-joined_example :
    let r' = (joinconf presets areas reader (some 2) no_flags (codes "sesame" ∷ [])).0 in
    (findconf areas 2 ≡ some r'.conference)
    × (r'.user_joinconference ≡ r'.conference.conf.conf_number % 2 ^ 8)
joinconf-joined_example =
    joinconf-joined presets areas reader 2 no_flags (codes "sesame" ∷ []) typed_password
