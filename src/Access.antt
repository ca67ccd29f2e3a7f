-- ===== src/Access.antt =====
-- Security levels and conference access, main/access.c. A user's own file `security.dat` comes before
-- the preset of the security level. Shift counts are taken modulo 64, as the machine does where C
-- leaves them undefined.
pub mod Refresh
mod Tests
use daydream.Base.{
  ℕ, ◌+◌, ◌-◌, ◌/◌, ◌%◌, ◌^◌, ◌≡◌, refl, Bool, true, false, List, [], ◌∷◌, Option, none, some, ltb,
  ◌==◌, if◌then◌else◌,
}

-- `struct DD_Seclevel`
pub record Seclevel : Type 0 where
  pub sec_seclevel : ℕ
  pub sec_fileratio : ℕ
  pub sec_byteratio : ℕ
  pub sec_pagespercall : ℕ
  pub sec_dailytime : ℕ
  pub sec_conferenceacc1 : ℕ
  pub sec_conferenceacc2 : ℕ
  pub sec_accessbits1 : ℕ
  pub sec_accessbits2 : ℕ

-- The fields of `struct userbase` that access depends on, and those that a refresh sets.
pub record Account : Type 0 where
  pub user_account_id : ℕ
  pub user_securitylevel : ℕ
  pub user_fileratio : ℕ
  pub user_byteratio : ℕ
  pub user_dailytimelimit : ℕ
  pub user_conferenceacc1 : ℕ
  pub user_conferenceacc2 : ℕ

-- The presets `secs`, up to the entry of level 0, and the record in a user's `security.dat`, if there is
-- one of full size.
pub record Security : Type 0 where
  pub secs : List Seclevel
  pub security_dat : ℕ → Option Seclevel

unfoldable pub apply_security : Account → Seclevel → Account
apply_security ub s = record ub {
  user_fileratio = s.sec_fileratio;
  user_byteratio = s.sec_byteratio;
  user_dailytimelimit = s.sec_dailytime;
  user_conferenceacc1 = s.sec_conferenceacc1;
  user_conferenceacc2 = s.sec_conferenceacc2;
}

-- The loop of `get_preset_security`: the first preset of the level.
unfoldable pub find_preset : List Seclevel → ℕ → Option Seclevel
find_preset [] level = none
find_preset (s ∷ rest) level =
    if s.sec_seclevel == 0
    then none
    else if s.sec_seclevel == level
    then some s
    else find_preset rest level

granted : Account → Option Seclevel → Account × Option Seclevel
unfolding apply_security
granted ub none = (ub, none)
granted ub (some s) = (apply_security ub s, some s)

unfoldable pub get_preset_security : Security → Account → Account × Option Seclevel
unfolding find_preset granted
get_preset_security sec ub = granted ub (find_preset sec.secs ub.user_securitylevel)

from_file : Security → Account → Option Seclevel → Account × Option Seclevel
unfolding granted get_preset_security
from_file sec ub none = get_preset_security sec ub
from_file sec ub (some s) = granted ub (some s)

-- The refreshed user and the record that the pages and access bits are taken from; `none` is 0.
unfoldable pub get_security : Security → Account → Account × Option Seclevel
unfolding from_file
get_security sec ub = from_file sec ub (sec.security_dat ub.user_account_id)

-- `bits & (1L << n)`
unfoldable pub has_bit : ℕ → ℕ → Bool
has_bit bits n = bits / 2 ^ (n % 64) % 2 == 1

-- The access bit of conference `confn` in the two words; `confn - 1` is -1 for conference 0.
unfoldable pub conference_bit : Account → ℕ → Bool
unfolding has_bit
conference_bit ub confn =
    if confn == 0
    then has_bit ub.user_conferenceacc1 63
    else if ltb (confn - 1) 32
    then has_bit ub.user_conferenceacc1 (confn - 1)
    else has_bit ub.user_conferenceacc2 (confn - 1 - 32)

bit_if_granted : ℕ → Account × Option Seclevel → Account × Bool
unfolding conference_bit
bit_if_granted confn (ub, none) = (ub, false)
bit_if_granted confn (ub, some s) = (ub, conference_bit ub confn)

unfoldable pub checkconfaccess : Security → ℕ → Account → Account × Bool
unfolding get_security bit_if_granted
checkconfaccess sec confn ub = bit_if_granted confn (get_security sec ub)

-- The globals that `getsec` sets.
pub record Caller : Type 0 where
  pub user : Account
  pub pages : ℕ
  pub access1 : ℕ
  pub access2 : ℕ

set_caller : Caller → Account × Option Seclevel → Caller × Bool
set_caller c (ub, none) = (record c { user = ub }, false)
set_caller c (ub, some s) = (
  record {
    user = ub;
    pages = s.sec_pagespercall;
    access1 = s.sec_accessbits1;
    access2 = s.sec_accessbits2;
  },
  true,
)

unfoldable pub getsec : Security → Caller → Caller × Bool
unfolding get_security set_caller
getsec sec c = set_caller c (get_security sec c.user)

-- The bits are an argument, which the caller reads before the refresh.
unfoldable pub isaccess : Security → ℕ → ℕ → Caller → Caller × Bool
unfolding getsec has_bit
isaccess sec flag accint c =
    let (c', known) = getsec sec c in (c', if known then has_bit accint flag else false)
