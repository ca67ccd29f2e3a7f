-- ===== src/UserBase.antt =====
-- The file of users, main/user.c, and the search of users by name of main/misc.c. The file is the list of
-- its whole records; of a record only the fields that are read here are kept.
pub mod Numbers
mod Tests
use daydream.Base.{
  ℕ, zero, suc, ◌*◌, ◌^◌, ◌/◌, ◌%◌, Bool, true, false, ◌||◌, List, [], ◌∷◌, Option, none, some,
  ◌==◌, if◌then◌else◌, get_elem?,
}
use daydream.Base.CString.{Str, codes, strcase_eq, strncase_eq}
use daydream.Glob.{iswilds}

-- `struct userbase`
pub record UserEntry : Type 0 where
  pub user_account_id : ℕ
  pub user_realname : Str
  pub user_handle : Str
  pub user_toggles : ℕ

-- What a hole in the file reads as.
abbrev pub zero_entry : UserEntry
zero_entry = record { user_account_id = 0; user_realname = []; user_handle = []; user_toggles = 0 }

-- `(user_toggles & UBENT_STAT_MASK) == UBENT_STAT_DELETED`, bits 30 and 31.
unfoldable pub is_deleted : UserEntry → Bool
is_deleted u = u.user_toggles / 2 ^ 30 % 4 == 1

unfoldable pub has_name : Str → UserEntry → Bool
unfolding strncase_eq
has_name name u = strncase_eq u.user_realname name 25 || strncase_eq u.user_handle name 25

-- `none` is a file that cannot be opened.
unfoldable pub getubentbyid : Option (List UserEntry) → ℕ → Option UserEntry
getubentbyid none id = none
getubentbyid (some file) id = get_elem? file id

unfoldable pub find_name : Str → List UserEntry → Option UserEntry
unfolding is_deleted has_name
find_name name [] = none
find_name name (user ∷ file) =
    let rest = find_name name file in
    if is_deleted user then rest else if has_name name user then some user else rest

unfoldable pub getubentbyname : Option (List UserEntry) → Str → Option UserEntry
unfolding find_name
getubentbyname none name = none
getubentbyname (some file) name = find_name name file

-- `lseek` and `safe_write` of a record, behind the end of the file too.
unfoldable pub write_at : List UserEntry → ℕ → UserEntry → List UserEntry
write_at [] zero user = user ∷ []
write_at [] (suc id) user = zero_entry ∷ write_at [] id user
write_at (u ∷ file) zero user = user ∷ file
write_at (u ∷ file) (suc id) user = u ∷ write_at file id user

-- The file that is left; `none` is the result -1.
unfoldable pub writeubent : Option (List UserEntry) → UserEntry → Option (List UserEntry)
unfolding write_at
writeubent none user = none
writeubent (some file) user = some (write_at file user.user_account_id user)

unfoldable pub account_of : Option UserEntry → Option ℕ
account_of none = none
account_of (some user) = some user.user_account_id

-- `none` is the result -1.
unfoldable pub findusername : Option (List UserEntry) → Str → Option ℕ
unfolding account_of getubentbyname
findusername file name =
    if strcase_eq name (codes "sysop") then some 0 else account_of (getubentbyname file name)

-- The number, or the results -1 and -2.
pub data Wild : Type 0 where
  not_found refused : Wild
  account : ℕ → Wild

to_wild : Option ℕ → Wild
to_wild none = not_found
to_wild (some id) = account id

-- The loop over `getubentbyid`, which ends at the first user who is not deleted; `key` is the answer of
-- `HotKey`.
ask_first : ℕ → List UserEntry → Wild
unfolding is_deleted
ask_first key [] = not_found
ask_first key (user ∷ file) =
    let rest = ask_first key file in
    if is_deleted user then rest else if key == 1 then account user.user_account_id else refused

ask_file : ℕ → Option (List UserEntry) → Wild
unfolding ask_first
ask_file key none = not_found
ask_file key (some file) = ask_first key file

unfoldable pub findusername_wildcard : Option (List UserEntry) → ℕ → Str → Wild
unfolding to_wild ask_file findusername iswilds
findusername_wildcard file key name =
    if strcase_eq name (codes "sysop")
    then account 0
    else if iswilds name
    then ask_file key file
    else to_wild (findusername file name)
