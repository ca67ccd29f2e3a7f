-- ===== src/Flags.antt =====
-- The list of files tagged for download, main/tagedit.c: the counters, the ratio checks, adding and
-- removing. A `uint16_t` counter is a number below 2 ^ 16, an `int` or `uint32_t` its bit pattern
-- below 2 ^ 32, and arithmetic wraps as the source's does on a machine with 32-bit `int`.
pub mod Count
pub mod Ratio
pub mod Unflag
pub mod Session
pub mod Times
pub mod Find
mod Tests
use daydream.Base.{
  ℕ, zero, suc, ◌+◌, ◌-◌, ◌*◌, ◌%◌, ◌^◌, Bool, true, false, not, ◌&&◌, ◌||◌, List, [], ◌∷◌, ◌++◌,
  ltb, ◌==◌, if◌then◌else◌, any,
}
use daydream.Base.CString.{Str, strcase_eq, strlcpy}
use daydream.Glob.{wildcmp}

-- `struct FFlag`, less its list links.
pub record FFlag : Type 0 where
  pub f_filename : Str
  pub f_path : Str
  pub f_size : ℕ
  pub f_conf : ℕ
  pub f_flags : ℕ

-- The fields of `struct userbase` that the ratio checks read.
pub record User : Type 0 where
  pub user_ulbytes : ℕ
  pub user_dlbytes : ℕ
  pub user_freedlbytes : ℕ
  pub user_ulfiles : ℕ
  pub user_dlfiles : ℕ
  pub user_freedlfiles : ℕ
  pub user_fileratio : ℕ
  pub user_byteratio : ℕ

pub record Counts : Type 0 where
  pub filestagged : ℕ
  pub bytestagged : ℕ
  pub ffilestagged : ℕ
  pub fbytestagged : ℕ

-- The globals of the tag editor; `flaggedfiles` is the doubly linked list, from its head on.
pub record Tags : Type 0 where
  pub counts : Counts
  pub flaggedfiles : List FFlag

abbrev pub path_max : ℕ
path_max = 4096

-- `flags & FLAG_FREE`
unfoldable pub is_free : ℕ → Bool
is_free flags = flags % 2 == 1

-- An `int` in 64-bit unsigned arithmetic.
unfoldable pub sign_extend : ℕ → ℕ
sign_extend n = if ltb n (2 ^ 31) then n else n + 2 ^ 64 - 2 ^ 32

unfoldable pub no_counts : Counts
no_counts = record { filestagged = 0; bytestagged = 0; ffilestagged = 0; fbytestagged = 0 }

unfoldable pub count_file : Counts → ℕ → Bool → Counts
count_file c size free = record {
  filestagged = (c.filestagged + 1) % 2 ^ 16;
  bytestagged = (c.bytestagged + size) % 2 ^ 32;
  ffilestagged = if free then (c.ffilestagged + 1) % 2 ^ 16 else c.ffilestagged;
  fbytestagged = if free then (c.fbytestagged + size) % 2 ^ 32 else c.fbytestagged;
}

-- The loop of `recountfiles`.
unfoldable pub recount : Counts → List FFlag → Counts
recount c [] = c
recount c (f ∷ fs) = recount (count_file c f.f_size (is_free f.f_flags)) fs

unfoldable pub recountfiles : Tags → Tags
recountfiles t = record t { counts = recount no_counts t.flaggedfiles }

unfoldable pub isfiletagged : List FFlag → Str → Bool
isfiletagged files fn = any (λ f. strcase_eq f.f_filename fn) files

-- The first ratio check of `addtag`; its `int` difference is moved to the other side.
unfoldable pub over_file_ratio : User → Counts → Bool
over_file_ratio u c =
    not (u.user_fileratio == 0)
    && ltb (u.user_fileratio * u.user_ulfiles + u.user_freedlfiles + c.ffilestagged)
        (u.user_dlfiles + 1 + c.filestagged)

-- The second one, in 64-bit unsigned arithmetic.
unfoldable pub over_byte_ratio : User → Counts → ℕ → Bool
unfolding sign_extend
over_byte_ratio u c size =
    not (u.user_byteratio == 0)
    && ltb ((u.user_byteratio * u.user_ulbytes + u.user_freedlbytes) % 2 ^ 64) (
        (u.user_dlbytes
          + sign_extend size
          + sign_extend c.bytestagged
          + (2 ^ 64 - sign_extend c.fbytestagged))
        % 2 ^ 64)

-- 0: tagged, 1: file ratio, 2: byte ratio, 3: already tagged, 4: tagged as a free download.
pub data Result : Type 0 where
  tagged file_ratio byte_ratio already_tagged free_leech : Result

unfoldable pub new_flag : Str → Str → ℕ → ℕ → ℕ → FFlag
new_flag path file conf size flags = record {
  f_filename = strlcpy file 256;
  f_path = strlcpy path path_max;
  f_size = size % 2 ^ 32;
  f_conf = conf % 2 ^ 16;
  f_flags = flags % 2 ^ 32;
}

unfoldable pub addtag : User → Tags → Str → Str → ℕ → ℕ → ℕ → Tags × Result
unfolding over_file_ratio over_byte_ratio isfiletagged is_free
addtag u t path file conf size flags =
    let free = is_free flags in
    if not free && over_file_ratio u t.counts
    then (t, file_ratio)
    else if not free && over_byte_ratio u t.counts size
    then (t, byte_ratio)
    else if isfiletagged t.flaggedfiles file
    then (t, already_tagged)
    else (
      record {
        counts = count_file t.counts size free;
        flaggedfiles = t.flaggedfiles ++ new_flag path file conf size flags ∷ [];
      },
      if free then free_leech else tagged,
    )

-- The loop of `unflagfile`: the files that stay, and how many were removed.
unfoldable pub unflag : List FFlag → Str → List FFlag × ℕ
unflag [] pat = ([], 0)
unflag (f ∷ fs) pat =
    let (kept, cnt) = unflag fs pat in
    if wildcmp f.f_filename pat then (kept, cnt + 1) else (f ∷ kept, cnt)

unfoldable pub unflagfile : Tags → Str → Tags × ℕ
unfolding unflag recountfiles
unflagfile t pat =
    let (kept, cnt) = unflag t.flaggedfiles pat in
    (recountfiles (record t { flaggedfiles = kept }), cnt)
