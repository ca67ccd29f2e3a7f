-- ===== src/Base/CString.antt =====
-- C strings as lists of non-zero bytes without the final NUL, and the functions of the C library on
-- them that the program calls (in the C locale).
use Prim.Native.Char.{code}
use Prim.Native.String.{String}
use daydream.Base.Tests.{leb, ◌==◌, if◌then◌else◌}
use daydream.Base.Lists.{take, length, take-all}
use Prim.Native.Nat.{ℕ, ◌+◌, ◌-◌, ◌<◌}
use mathlib.Core.Path.{◌≡◌, refl}
use mathlib.Core.Bool.{Bool, true, false, ◌&&◌, ◌||◌}
use mathlib.Core.List.{List, [], ◌∷◌, ◌++◌, map}
use native.Mathlib.Omega.{arith}

abbrev pub Str : Type 0
Str = List ℕ

-- The code points of a text; its bytes, as it is ASCII.
abbrev pub codes : String → Str
codes String.[] = []
codes (String.◌∷◌ c s) = code c ∷ codes s

unfoldable pub tolower : ℕ → ℕ
tolower c = if leb b'A' c && leb c b'Z' then c + 32 else c

unfoldable pub toupper : ℕ → ℕ
toupper c = if leb b'a' c && leb c b'z' then c - 32 else c

-- Space, \t, \n, \v, \f and \r.
unfoldable pub isspace : ℕ → Bool
isspace c = c == 32 || leb 9 c && leb c 13

unfoldable pub isdigit : ℕ → Bool
isdigit c = leb b'0' c && leb c b'9'

-- `!strcmp(a, b)`
unfoldable pub str_eq : Str → Str → Bool
str_eq [] [] = true
str_eq [] (y ∷ ys) = false
str_eq (x ∷ xs) [] = false
str_eq (x ∷ xs) (y ∷ ys) = x == y && str_eq xs ys

-- `!strcasecmp(a, b)`
unfoldable pub strcase_eq : Str → Str → Bool
unfolding str_eq
strcase_eq a b = str_eq (map tolower a) (map tolower b)

-- `!strncasecmp(a, b, n)`
unfoldable pub strncase_eq : Str → Str → ℕ → Bool
unfolding strcase_eq
strncase_eq a b n = strcase_eq (take n a) (take n b)

-- The text that `strlcpy(dst, src, size)` leaves in `dst`, for a positive size.
unfoldable pub strlcpy : Str → ℕ → Str
strlcpy src size = take (size - 1) src

pub strlcpy-fits : (src : Str) (size : ℕ) → length src < size → strlcpy src size ≡ src
unfolding strlcpy
strlcpy-fits src size h = take-all (size - 1) src (omega arith)

pub str_eq→eq : (a b : Str) → str_eq a b ≡ true → a ≡ b
unfolding str_eq
str_eq→eq [] [] h = refl
str_eq→eq [] (y ∷ ys) h = ground arith
str_eq→eq (x ∷ xs) [] h = ground arith
str_eq→eq (x ∷ xs) (y ∷ ys) h = ground (arith, str_eq→eq xs ys)

pub str_eq_refl : (a : Str) → str_eq a a ≡ true
unfolding str_eq
str_eq_refl [] = refl
str_eq_refl (x ∷ xs) = ground (arith, str_eq_refl xs)

pub strcase_eq_refl : (a : Str) → strcase_eq a a ≡ true
unfolding strcase_eq
strcase_eq_refl a = str_eq_refl (map tolower a)

pub strcase_eq→eq : (a b : Str) → strcase_eq a b ≡ true → map tolower a ≡ map tolower b
unfolding strcase_eq
strcase_eq→eq a b h = str_eq→eq (map tolower a) (map tolower b) h

-- The text that `strlcat(dst, src, size)` leaves in `dst`, where the old text and its NUL fit.
unfoldable pub strlcat : Str → Str → ℕ → Str
strlcat dst src size = take (size - 1) (dst ++ src)
