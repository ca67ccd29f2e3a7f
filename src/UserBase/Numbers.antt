-- ===== src/UserBase/Numbers.antt =====
-- Users and their account numbers, which are the places of their records.
use daydream.Base.{
  ℕ, zero, suc, ◌+◌, ◌≤◌, ◌<◌, ◌≡◌, ◌≢◌, refl, ap, true, false, List, [], ◌∷◌, Option, none, some,
  arith, length, get_elem?, inl, inr, Bool-cases,
}
use mathlib.Core.Path.{subst}
use daydream.Base.CString.{Str, codes, strcase_eq}
use daydream.UserBase.{
  UserEntry, is_deleted, has_name, getubentbyid, find_name, write_at, writeubent, findusername,
  account_of,
}

-- The record of number `k + i` stands at place `i`.
abbrev pub IsIndexed : ℕ → List UserEntry → Type 0
IsIndexed k [] = Unit
IsIndexed k (u ∷ file) = (u.user_account_id ≡ k) × IsIndexed (suc k) file

get_elem?-write_at-eq :
    (file : List UserEntry) (id : ℕ) (user : UserEntry)
    → get_elem? (write_at file id user) id ≡ some user
unfolding write_at
get_elem?-write_at-eq [] zero user = refl
get_elem?-write_at-eq [] (suc id) user = get_elem?-write_at-eq [] id user
get_elem?-write_at-eq (u ∷ file) zero user = refl
get_elem?-write_at-eq (u ∷ file) (suc id) user = get_elem?-write_at-eq file id user

get_elem?-write_at-ne :
    (file : List UserEntry) (id x : ℕ) (user : UserEntry)
    → x ≢ id
    → x < length file
    → get_elem? (write_at file id user) x ≡ get_elem? file x
unfolding write_at
get_elem?-write_at-ne [] id x user ne h = absurd (omega arith)
get_elem?-write_at-ne (u ∷ file) zero zero user ne h = absurd (ne refl)
get_elem?-write_at-ne (u ∷ file) zero (suc x) user ne h = refl
get_elem?-write_at-ne (u ∷ file) (suc id) zero user ne h = refl
get_elem?-write_at-ne (u ∷ file) (suc id) (suc x) user ne h =
    get_elem?-write_at-ne file id x user (λ e. ne (ap suc e)) (omega arith)

write_at-IsIndexed :
    (k : ℕ) (file : List UserEntry) (id : ℕ) (user : UserEntry)
    → id ≤ length file
    → user.user_account_id ≡ k + id
    → IsIndexed k file
    → IsIndexed k (write_at file id user)
unfolding write_at
write_at-IsIndexed k [] zero user fits at h = (omega arith, tt)
write_at-IsIndexed k [] (suc id) user fits at h = absurd (omega arith)
write_at-IsIndexed k (u ∷ file) zero user fits at h = (omega arith, h.1)
write_at-IsIndexed k (u ∷ file) (suc id) user fits at h =
    (h.0, write_at-IsIndexed (suc k) file id user (omega arith) (omega arith) h.1)

-- A record written at a number up to the number of records leaves the records at the places of their
-- numbers; it is read back by its number, and the others are as before.
pub writeubent-IsIndexed :
    (file : List UserEntry) (user : UserEntry)
    → user.user_account_id ≤ length file
    → IsIndexed 0 file
    → (file' : List UserEntry) × (writeubent (some file) user ≡ some file')
      × IsIndexed 0 file'
      × (getubentbyid (some file') user.user_account_id ≡ some user)
      × ((x : ℕ)
          → x ≢ user.user_account_id
          → x < length file
          → getubentbyid (some file') x ≡ getubentbyid (some file) x)
unfolding writeubent getubentbyid
writeubent-IsIndexed file user fits h = (
  write_at file user.user_account_id user,
  refl,
  write_at-IsIndexed 0 file user.user_account_id user fits (omega arith) h,
  get_elem?-write_at-eq file user.user_account_id user,
  λ x ne lt. get_elem?-write_at-ne file user.user_account_id x user ne lt,
)

-- An active user of that name at the place of the number, which place `k` counts from.
abbrev pub Names : ℕ → List UserEntry → Str → UserEntry → Type 0
Names k file name u =
    (i : ℕ) × (u.user_account_id ≡ k + i)
    × (get_elem? file i ≡ some u)
    × (is_deleted u ≡ false)
    × (has_name name u ≡ true)

further :
    (k : ℕ) (file : List UserEntry) (name : Str) (u user : UserEntry)
    → Names (suc k) file name u
    → Names k (user ∷ file) name u
further k file name u user (i, at, got, active, named) = (suc i, omega arith, got, active, named)

find_name-IsIndexed :
    (k : ℕ) (file : List UserEntry) (name : Str) (u : UserEntry)
    → IsIndexed k file
    → find_name name file ≡ some u
    → Names k file name u
unfolding find_name
find_name-IsIndexed k [] name u h e = cc e
find_name-IsIndexed k (user ∷ file) name u h e = elim (Bool-cases (is_deleted user)) [
  | inl deleted ↦
      further k file name u user (find_name-IsIndexed (suc k) file name u h.1 (rw deleted at e))
  | inr active ↦ elim (Bool-cases (has_name name user)) [
    | inl named ↦
        let same : some user ≡ some u = rw (active, named) at e in
        subst (Names k (user ∷ file) name) (cc same) (0, omega (arith, h.0), refl, active, named)
    | inr other ↦
        further k file name u user
          (find_name-IsIndexed (suc k) file name u h.1 (rw (active, other) at e))
  ]
]

some_eq : {a b : ℕ} → some a ≡ some b → a ≡ b
some_eq e = cc e

numbered :
    (file : List UserEntry) (name : Str) (id : ℕ)
    → IsIndexed 0 file
    → (found : Option UserEntry) → find_name name file ≡ found
    → account_of found ≡ some id
    → (u : UserEntry) × (get_elem? file id ≡ some u)
      × (is_deleted u ≡ false)
      × (has_name name u ≡ true)
unfolding account_of
numbered file name id h none same e = cc e
numbered file name id h (some u) same e =
    let (i, at, got, active, named) = find_name-IsIndexed 0 file name u h same in
    let place : i ≡ id = omega (arith, at, some_eq e) in
    (u, subst (λ x. get_elem? file x ≡ some u) place got, active, named)

-- The number that `findusername` gives for a name other than `sysop` is that of an active user who bears
-- the name, whom `getubentbyid` finds by it, if the records stand at the places of their numbers.
findusername-getubentbyid :
    (file : List UserEntry) (name : Str) (id : ℕ)
    → IsIndexed 0 file
    → strcase_eq name (codes "sysop") ≡ false
    → findusername (some file) name ≡ some id
    → (u : UserEntry) × (getubentbyid (some file) id ≡ some u)
      × (is_deleted u ≡ false)
      × (has_name name u ≡ true)
unfolding findusername getubentbyid
findusername-getubentbyid file name id h other e =
    numbered file name id h (find_name name file) refl (rw other at e)
