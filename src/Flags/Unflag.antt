-- ===== src/Flags/Unflag.antt =====
-- What `unflagfile` removes, and that no file is tagged twice.
use daydream.Base.{
  ℕ, ◌+◌, ◌≤◌, ◌≡◌, refl, Bool, false, not, List, [], ◌∷◌, ◌++◌, arith, length, filter, All,
  take-all,
}
use daydream.Base.CString.{Str, strcase_eq, strlcpy}
use daydream.Glob.{wildcmp}
use daydream.Flags.{FFlag, User, Tags, new_flag, isfiletagged, unflag, unflagfile, addtag}
use daydream.Flags.Count.{addtag-cases}

unflag-filter :
    (fs : List FFlag) (pat : Str)
    → (unflag fs pat).0 ≡ filter (λ f. not (wildcmp f.f_filename pat)) fs
unfolding unflag
unflag-filter [] pat = refl
unflag-filter (f ∷ fs) pat = ground (arith, unflag-filter fs pat)

unflag-count :
    (fs : List FFlag) (pat : Str) → length (unflag fs pat).0 + (unflag fs pat).1 ≡ length fs
unfolding unflag
unflag-count [] pat = refl
unflag-count (f ∷ fs) pat = ground (arith, unflag-count fs pat)

-- `unflagfile` keeps, in order, the files whose names the pattern does not match, and returns the
-- number of the others.
unflagfile_lem :
    (t : Tags) (pat : Str)
    → ((unflagfile t pat).0.flaggedfiles
        ≡ filter (λ f. not (wildcmp f.f_filename pat)) t.flaggedfiles)
      × (length (unflagfile t pat).0.flaggedfiles + (unflagfile t pat).1 ≡ length t.flaggedfiles)
unfolding unflagfile
unflagfile_lem t pat = (unflag-filter t.flaggedfiles pat, unflag-count t.flaggedfiles pat)

abbrev pub Differs : Str → FFlag → Type 0
Differs file f = strcase_eq f.f_filename file ≡ false

-- No two files of the list have names that are equal up to case.
abbrev pub IsDistinct : List FFlag → Type 0
IsDistinct [] = Unit
IsDistinct (f ∷ fs) = All (λ g. strcase_eq f.f_filename g.f_filename ≡ false) fs × IsDistinct fs

isfiletagged→Differs :
    (fs : List FFlag) (file : Str) → isfiletagged fs file ≡ false → All (Differs file) fs
unfolding isfiletagged
isfiletagged→Differs [] file h = tt
isfiletagged→Differs (f ∷ fs) file h = ground (arith, isfiletagged→Differs fs file)

All-snoc {ℓ κ} :
    {A : Type ℓ} (P : A → Type κ) (xs : List A) (x : A) → All P xs → P x → All P (xs ++ x ∷ [])
All-snoc P [] x h p = (p, tt)
All-snoc P (y ∷ ys) x h p = (h.0, All-snoc P ys x h.1 p)

IsDistinct-snoc :
    (fs : List FFlag) (g : FFlag)
    → IsDistinct fs
    → All (Differs g.f_filename) fs
    → IsDistinct (fs ++ g ∷ [])
IsDistinct-snoc [] g d h = (tt, tt)
IsDistinct-snoc (f ∷ fs) g d h = (
  All-snoc (λ x. strcase_eq f.f_filename x.f_filename ≡ false) fs g d.0 h.0,
  IsDistinct-snoc fs g d.1 h.1,
)

-- `addtag` never tags a file twice, up to case, if names fit the field.
pub addtag-IsDistinct :
    (u : User) (t : Tags) (path file : Str) (conf size flags : ℕ)
    → length file ≤ 255
    → IsDistinct t.flaggedfiles
    → IsDistinct (addtag u t path file conf size flags).0.flaggedfiles
unfolding new_flag strlcpy
addtag-IsDistinct u t path file conf size flags fits d =
    addtag-cases (λ s. IsDistinct s.flaggedfiles) u t path file conf size flags d
      λ free.
        IsDistinct-snoc t.flaggedfiles (new_flag path file conf size flags) d
          (rw (take-all 255 file fits) (isfiletagged→Differs t.flaggedfiles file free))

All-filter {ℓ κ} :
    {A : Type ℓ} (P : A → Type κ) (p : A → Bool) (xs : List A) → All P xs → All P (filter p xs)
All-filter P p [] h = tt
All-filter P p (x ∷ xs) h = ground (arith, All-filter P p xs h.1)

IsDistinct-filter : (p : FFlag → Bool) (fs : List FFlag) → IsDistinct fs → IsDistinct (filter p fs)
IsDistinct-filter p [] d = tt
IsDistinct-filter p (f ∷ fs) d = ground (
  arith,
  IsDistinct-filter p fs d.1,
  All-filter (λ g. strcase_eq f.f_filename g.f_filename ≡ false) p fs d.0,
)

pub unflagfile-IsDistinct :
    (t : Tags) (pat : Str)
    → IsDistinct t.flaggedfiles
    → IsDistinct (unflagfile t pat).0.flaggedfiles
unflagfile-IsDistinct t pat d =
    rw (unflagfile_lem t pat).0
      (IsDistinct-filter (λ f. not (wildcmp f.f_filename pat)) t.flaggedfiles d)
