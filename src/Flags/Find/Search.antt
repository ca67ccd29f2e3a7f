-- ===== src/Flags/Find/Search.antt =====
-- What the search through the file areas tags.
use daydream.Base.{
  ℕ, ◌+◌, ◌≡◌, ◌≢◌, refl, ap, Bool, true, false, not, ◌&&◌, ◌||◌, List, [], ◌∷◌, ◌++◌, Option, none,
  some, arith, All, inl, inr, Option-cases, if◌then◌else◌, any, length, ◌≤◌, ◌==◌, ◌%◌, ◌^◌,
}
use daydream.Base.CString.{Str, strcase_eq}
use daydream.Glob.{wildcmp, iswilds}
use daydream.Text.Paths.{slash}
use daydream.Flags.{User, Tags, Result, tagged, addtag, file_ratio, byte_ratio}
use daydream.Flags.Count.{addtag-IsCounted}
use daydream.Flags.Unflag.{addtag-IsDistinct}
use daydream.Flags.Session.{IsValid}
use daydream.Flags.Find.{
  FileSystem, Area, attribute, is_dots, isfreedl, stat_under, first_path, paths, flagsingle,
  flag_matching, flag_equal, tag_found, flag_directory, flag_paths, flag_rest, flagfile, is_tagged,
}

if_cases {ℓ κ} :
    {A : Type ℓ} (P : A → Type κ) (b : Bool) {x y : A} → P x → P y → P (if b then x else y)
if_cases P true p q = p
if_cases P false p q = q

module _ (fs : FileSystem) (origdir : Str) (area : Area) where
  -- A file is taken from the first path of the list under which it, or its lower-case copy, stands.
  first_path-first :
      (ps : List Str) (file path : Str) (size : ℕ)
      → first_path fs origdir area ps file ≡ some (path, size)
      → (before after : List Str) × (ps ≡ before ++ path ∷ after)
        × All (λ p. stat_under fs origdir area p file ≡ none) before
        × (stat_under fs origdir area path file ≡ some size)
  unfolding first_path
  first_path-first [] file path size h = ground arith
  first_path-first (p ∷ ps) file path size h =
      elim (Option-cases (stat_under fs origdir area p file)) [
        | inr (n, e) ↦ ([], ps, ground arith, tt, ground arith)
        | inl e ↦
            let (before, after, split, missing, found) =
              first_path-first ps file path size (ground arith) in
            (p ∷ before, after, ap (◌∷◌ p) split, (e, missing), found)
      ]

  -- In a conference whose files are all free no file is refused for a ratio.
  flagsingle-free_area :
      (u : User) (t : Tags) (file : Str)
      → attribute area.conf_attributes 0 ≡ true
      → ((flagsingle fs origdir area u t file).1 ≢ some file_ratio)
        × ((flagsingle fs origdir area u t file).1 ≢ some byte_ratio)
  unfolding flagsingle tag_found addtag
  flagsingle-free_area u t file h = (λ e. ground arith, λ e. ground arith)

  -- What every tag keeps, `flagsingle` keeps.
  module _ {ℓ} (P : Tags → Type ℓ) (Name : Str → Type 0)
      (keep : (u : User) (t : Tags) (path file : Str) (conf size flags : ℕ)
        → Name file
        → P t
        → P (addtag u t path file conf size flags).0) where
    tag_found-keeps :
        (u : User) (t : Tags) (file : Str) (found : Option (Str × ℕ))
        → Name file
        → P t
        → P (tag_found fs origdir area u t file found).0
    unfolding tag_found
    tag_found-keeps u t file none named p = p
    tag_found-keeps u t file (some (path, size)) named p =
        keep u t path file area.conf_number (size % 2 ^ 32)
          (if isfreedl fs origdir area file == 0 then 0 else 1) named p

    pub flagsingle-keeps :
        (u : User) (t : Tags) (file : Str)
        → Name file
        → P t
        → P (flagsingle fs origdir area u t file).0
    unfolding flagsingle
    flagsingle-keeps u t file named p =
        if_cases (λ (r : Tags × Option Result). P r.0)
          (any (λ c. c == slash) file || is_dots fs origdir area file) p
          (tag_found-keeps u t file (first_path fs origdir area (paths fs origdir area) file) named
            p)

    flag_matching-keeps :
        (u : User) (t : Tags) (files : ℕ) (names : List Str) (file : Str)
        → All Name names
        → P t
        → P (flag_matching fs origdir area u t files names file).0
    unfolding flag_matching
    flag_matching-keeps u t files [] file named p = p
    flag_matching-keeps u t files (name ∷ names) file named p =
        let hit = not (is_dots fs origdir area name) && wildcmp name file in
        let (t', r) = flagsingle fs origdir area u t name in
        flag_matching-keeps u (if hit then t' else t)
          (if hit && is_tagged fs origdir area r then files + 1 else files) names file named.1
          (if_cases P (not (is_dots fs origdir area name) && wildcmp name file)
            (flagsingle-keeps u t name named.0 p) p)

    flag_equal-keeps :
        (u : User) (t : Tags) (files : ℕ) (names : List Str) (file : Str)
        → All Name names
        → P t
        → P (flag_equal fs origdir area u t files names file).0
    unfolding flag_equal
    flag_equal-keeps u t files [] file named p = p
    flag_equal-keeps u t files (name ∷ names) file named p =
        if_cases (λ (r : Tags × ℕ). P r.0)
          (not (is_dots fs origdir area name) && strcase_eq name file)
          (flagsingle-keeps u t name named.0 p) (flag_equal-keeps u t files names file named.1 p)

    module _
        (fits : (path : Str) (names : List Str)
          → fs.entries path ≡ some names
          → All Name names) where
      flag_directory-keeps :
          (wildmode : Bool) (u : User) (t : Tags) (files : ℕ) (entries : Option (List Str))
          (file : Str)
          → ((names : List Str) → entries ≡ some names → All Name names)
          → P t
          → P (flag_directory fs origdir area wildmode u t files entries file).0
      unfolding flag_directory
      flag_directory-keeps wildmode u t files none file named p = p
      flag_directory-keeps true u t files (some names) file named p =
          flag_matching-keeps u t files names file (named names refl) p
      flag_directory-keeps false u t files (some names) file named p =
          flag_equal-keeps u t files names file (named names refl) p

      flag_paths-keeps :
          (wildmode : Bool) (u : User) (t : Tags) (files : ℕ) (ps : List Str) (file : Str)
          → P t
          → P (flag_paths fs origdir area wildmode u t files ps file).0
      unfolding flag_paths
      flag_paths-keeps wildmode u t files [] file p = p
      flag_paths-keeps wildmode u t files (path ∷ ps) file p =
          let (t', files') =
            flag_directory fs origdir area wildmode u t files (fs.entries path) file in
          flag_paths-keeps wildmode u t' files' ps file
            (flag_directory-keeps wildmode u t files (fs.entries path) file (fits path) p)

      flag_rest-keeps :
          (u : User) (t : Tags) (r : Option Result) (file : Str)
          → P t
          → P (flag_rest fs origdir area u t r file).0
      unfolding flag_rest
      flag_rest-keeps u t (some tagged) file p = p
      flag_rest-keeps u t (some _) file p = p
      flag_rest-keeps u t none file p =
          flag_paths-keeps (not (attribute area.conf_attributes 6) && iswilds file) u t 0
            (paths fs origdir area) file p

      -- What every single tag keeps, a call of `flagfile` keeps, wildcards and all.
      pub flagfile-keeps :
          (u : User) (t : Tags) (file : Str)
          → Name file
          → P t
          → P (flagfile fs origdir area u t file).0
      unfolding flagfile
      flagfile-keeps u t file named p =
          flag_rest-keeps u _ (flagsingle fs origdir area u t file).1 file
            (flagsingle-keeps u t file named p)

-- If the names that directories list fit a tag's name field, a call of `flagfile` leaves the counters
-- those of the list, and no file tagged twice.
pub flagfile-IsValid :
    (fs : FileSystem) (origdir : Str) (area : Area) (u : User) (t : Tags) (file : Str)
    → ((path : Str) (names : List Str)
        → fs.entries path ≡ some names
        → All (λ name. length name ≤ 255) names)
    → length file ≤ 255
    → IsValid t
    → IsValid (flagfile fs origdir area u t file).0
flagfile-IsValid fs origdir area u t file fits named v =
    flagfile-keeps fs origdir area IsValid (λ name. length name ≤ 255)
      (λ u' t' path f conf size flags short valid. record {
        counted = addtag-IsCounted u' t' path f conf size flags valid.counted;
        distinct = addtag-IsDistinct u' t' path f conf size flags short valid.distinct;
      })
      fits u t file named v
