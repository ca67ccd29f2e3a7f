-- ===== src/Text.antt =====
-- The text helpers of main/misc.c and the path helper of lib/libddcommon.c, on C strings as byte
-- lists. A result `none` that a source function cannot give stands for a read before the buffer.
pub mod Tokens
pub mod Lines
pub mod Numbers
pub mod Paths
mod Tests
use daydream.Base.{
  ℕ, ◌+◌, ltb, Bool, true, false, [], ◌∷◌, ◌++◌, Option, none, some, ◌==◌, leb, if◌then◌else◌,
  length,
}
use daydream.Base.CString.{Str, isspace}
use mathlib.Core.List.{reverse}

abbrev pub space : ℕ
space = 32

-- `while (*s == ' ') s--;` on the text read backwards
pub step_back : Str → Option Str
step_back [] = none
step_back (c ∷ before) = if c == space then step_back before else some (reverse (c ∷ before))

unfoldable pub removespaces : Str → Option Str
unfolding step_back
removespaces [] = some []
removespaces (c ∷ strh) = step_back (reverse (c ∷ strh))

unfoldable pub skip_spaces : Str → Str
skip_spaces [] = []
skip_spaces (c ∷ src) = if isspace c then skip_spaces src else c ∷ src

-- `for (end = src; *end && !isspace(*end); end++)`: the token and the text at `end`
unfoldable pub split_token : Str → Str × Str
split_token [] = ([], [])
split_token (c ∷ src) =
    let (token, end) = split_token src in if isspace c then ([], c ∷ src) else (c ∷ token, end)

-- What a token read leaves: the destination buffer, the text at `end`, and the return value.
pub record Token : Type 0 where
  pub dest : Str
  pub end : Str
  pub size : ℕ

-- The NULL arguments of `strtoken` give an empty destination and 1.
unfoldable pub strtoken : Option Str → ℕ → Token
unfolding skip_spaces split_token
strtoken none n = record { dest = []; end = []; size = 1 }
strtoken (some src) n =
    let (token, end) = split_token (skip_spaces src) in
    if leb n (length token)
    then record { dest = []; end = end; size = length token }
    else record { dest = token; end = end; size = length token + 1 }

-- The destination buffer and the return value.
unfoldable pub strspace : Option Str → ℕ → Str × ℕ
unfolding skip_spaces split_token
strspace none n = ([], 1)
strspace (some src) n =
    let (token, end) = split_token (skip_spaces src) in
    if leb n (length token) then ([], length token) else (token, length token + 1)

is_empty : Str → Bool
is_empty [] = true
is_empty (c ∷ s) = false

-- The destination buffer and the text behind the token, or NULL.
unfoldable pub strspa : Option Str → ℕ → Str × Option Str
unfolding strtoken is_empty
strspa src n =
    let t = strtoken src n in
    if ltb n t.size
    then (t.dest, none)
    else if is_empty t.dest
    then (t.dest, none)
    else (t.dest, some t.end)
