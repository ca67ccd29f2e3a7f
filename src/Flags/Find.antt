-- ===== src/Flags/Find.antt =====
-- Finding a file to tag: `isfreedl`, `flagsingle` and `flagfile` of main/tagedit.c. The file system is
-- a parameter: what a path holds, how long it is, and what a directory lists.
pub mod Search
use daydream.Base.{
  ℕ, suc, ◌+◌, ◌/◌, ◌%◌, ◌^◌, Bool, true, false, not, ◌&&◌, ◌||◌, List, [], ◌∷◌, ◌++◌, Option, none,
  some, ◌==◌, if◌then◌else◌, any, length, map,
}
use daydream.Base.CString.{Str, codes, tolower, str_eq, strcase_eq, strlcpy}
use daydream.Glob.{wildcmp, iswilds}
use daydream.Text.Lines.{read_lines}
use daydream.Text.Paths.{slash}
use daydream.Flags.{User, Tags, Result, tagged, free_leech, addtag}

pub record FileSystem : Type 0 where
  pub contents : Str → Option Str
  pub file_size : Str → Option ℕ
  pub entries : Str → Option (List Str)

-- The fields of the current conference that the tag editor reads.
pub record Area : Type 0 where
  pub conf_number : ℕ
  pub conf_path : Str
  pub conf_attributes : ℕ

-- `attributes & (1L << bit)`
unfoldable pub attribute : ℕ → ℕ → Bool
attribute attributes bit = attributes / 2 ^ bit % 2 == 1

-- `while (fgetsnolf(buf, n, fp))` over a file, which is left out if it cannot be opened.
unfoldable pub file_lines : FileSystem → ℕ → Str → List Str
file_lines fs n path = elim (fs.contents path) [
  | none ↦ []
  | some bytes ↦ read_lines (suc (length bytes)) n bytes
]

-- `snprintf` of a directory and a name into a buffer of `n` bytes
unfoldable pub beside : ℕ → Str → Str → Str
unfolding strlcpy
beside n dir name = strlcpy (dir ++ name) n

module _ (fs : FileSystem) (origdir : Str) (area : Area) where
  listed_free : Str → Str → Bool
  listed_free dir file =
      any (wildcmp file) (file_lines fs 250 (beside 300 dir (codes "/data/freedownloads.dat")))

  unfoldable pub isfreedl : Str → ℕ
  unfolding attribute listed_free beside file_lines
  isfreedl file =
      if attribute area.conf_attributes 0
      then 2
      else if listed_free area.conf_path file
      then 1
      else if listed_free origdir file
      then 1
      else 0

  is_dots : Str → Bool
  unfolding str_eq
  is_dots name = str_eq (codes ".") name || str_eq (codes "..") name

  -- `file` or, if it is not all lower case, its lower-case copy under the path.
  unfoldable pub stat_under : Str → Str → Option ℕ
  unfolding beside
  stat_under path file =
      let lonam = map tolower (strlcpy file 256) in
      elim (fs.file_size (beside 512 path file)) [
        | some size ↦ some size
        | none ↦ if str_eq lonam file then none else fs.file_size (beside 512 path lonam)
      ]

  -- The first path of the list that has the file, and the size.
  unfoldable pub first_path : List Str → Str → Option (Str × ℕ)
  unfolding stat_under
  first_path [] file = none
  first_path (path ∷ rest) file = elim (stat_under path file) [
    | some size ↦ some (path, size)
    | none ↦ first_path rest file
  ]

  unfoldable pub paths : List Str
  unfolding beside file_lines
  paths = file_lines fs 512 (beside 512 area.conf_path (codes "/data/paths.dat"))

  -- The tag for the file that was found; `none` stands for -1, no such file.
  unfoldable pub tag_found : User → Tags → Str → Option (Str × ℕ) → Tags × Option Result
  unfolding isfreedl
  tag_found u t file none = (t, none)
  tag_found u t file (some (path, size)) =
      let (t', r) =
        addtag u t path file area.conf_number (size % 2 ^ 32)
          (if isfreedl file == 0 then 0 else 1) in
      (t', some r)

  unfoldable pub flagsingle : User → Tags → Str → Tags × Option Result
  unfolding is_dots first_path tag_found paths
  flagsingle u t file =
      if any (λ c. c == slash) file || is_dots file
      then (t, none)
      else tag_found u t file (first_path paths file)

  -- `r == 0 || r == 4`
  abbrev pub is_tagged : Option Result → Bool
  is_tagged (some tagged) = true
  is_tagged (some free_leech) = true
  is_tagged _ = false

  -- The `readdir` loop with wildcards: each entry that matches is tried.
  unfoldable pub flag_matching : User → Tags → ℕ → List Str → Str → Tags × ℕ
  unfolding is_dots
  flag_matching u t files [] file = (t, files)
  flag_matching u t files (name ∷ names) file =
      let (t', r) = flagsingle u t name in
      let hit = not (is_dots name) && wildcmp name file in
      flag_matching u (if hit then t' else t) (if hit && is_tagged r then files + 1 else files)
        names file

  -- And without: the first entry that is equal up to case.
  unfoldable pub flag_equal : User → Tags → ℕ → List Str → Str → Tags × ℕ
  unfolding is_dots
  flag_equal u t files [] file = (t, files)
  flag_equal u t files (name ∷ names) file =
      if not (is_dots name) && strcase_eq name file
      then (let (t', r) = flagsingle u t name in (t', if is_tagged r then files + 1 else files))
      else flag_equal u t files names file

  unfoldable pub flag_directory : Bool → User → Tags → ℕ → Option (List Str) → Str → Tags × ℕ
  unfolding flag_matching flag_equal
  flag_directory wildmode u t files none file = (t, files)
  flag_directory wildmode u t files (some names) file =
      if wildmode then flag_matching u t files names file else flag_equal u t files names file

  unfoldable pub flag_paths : Bool → User → Tags → ℕ → List Str → Str → Tags × ℕ
  unfolding flag_directory
  flag_paths wildmode u t files [] file = (t, files)
  flag_paths wildmode u t files (path ∷ rest) file =
      let (t', files') = flag_directory wildmode u t files (fs.entries path) file in
      flag_paths wildmode u t' files' rest file

  -- `flagfile` behind its call of `flagsingle`
  unfoldable pub flag_rest : User → Tags → Option Result → Str → Tags × ℕ
  unfolding flag_paths attribute iswilds paths
  flag_rest u t (some tagged) file = (t, 1)
  flag_rest u t (some free_leech) file = (t, 1)
  flag_rest u t (some _) file = (t, 0)
  flag_rest u t none file =
      flag_paths (not (attribute area.conf_attributes 6) && iswilds file) u t 0 paths file

  unfoldable pub flagfile : User → Tags → Str → Tags × ℕ
  unfolding flagsingle flag_rest
  flagfile u t file = let (t', r) = flagsingle u t file in flag_rest u t' r file
