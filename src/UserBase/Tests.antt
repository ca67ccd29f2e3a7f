-- ===== src/UserBase/Tests.antt =====
-- A file of three users, and the theorems at it.
use daydream.Base.{ℕ, ◌≡◌, ◌≢◌, refl, List, [], ◌∷◌, some, arith, ◌<◌}
use daydream.Base.CString.{Str, codes, tolower}
use daydream.UserBase.{
  UserEntry, getubentbyid, writeubent, findusername, findusername_wildcard, account,
}
use daydream.UserBase.Numbers.{IsIndexed, writeubent-IsIndexed}

abbrev entry : ℕ → Str → ℕ → UserEntry
entry id handle toggles = record {
  user_account_id = id;
  user_realname = codes "Some One";
  user_handle = handle;
  user_toggles = toggles;
}

-- The second user is deleted.
abbrev file : List UserEntry
file = entry 0 (codes "sysop") 0 ∷ entry 1 (codes "bo") 0x40000000 ∷ entry 2 (codes "Bo") 0 ∷ []

found : findusername (some file) (codes "BO") ≡ some 2
unfolding findusername tolower
found = refl

-- The pattern does not matter: the first user is offered.
wild : findusername_wildcard (some file) 1 (codes "b*") ≡ account 0
unfolding findusername_wildcard tolower
wild = refl

writeubent-IsIndexed_example :
    (file' : List UserEntry) × (writeubent (some file) (entry 3 (codes "new") 0) ≡ some file')
    × IsIndexed 0 file'
    × (getubentbyid (some file') 3 ≡ some (entry 3 (codes "new") 0))
    × ((x : ℕ) → x ≢ 3 → x < 3 → getubentbyid (some file') x ≡ getubentbyid (some file) x)
writeubent-IsIndexed_example =
    writeubent-IsIndexed file (entry 3 (codes "new") 0) (omega arith) (refl, (refl, (refl, tt)))
