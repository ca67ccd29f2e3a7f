-- ===== src/Text/Numbers.antt =====
-- Numbers in texts: `str2uint` of main/misc.c over the C library's `strtol` in base 10. A `long` has
-- 64 bits and an `int` has 32.
use daydream.Base.{
  ℕ, zero, suc, ◌+◌, ◌-◌, ◌*◌, ◌/◌, ◌%◌, ◌^◌, ◌≤◌, ◌<◌, ◌≡◌, refl, sym, ◌∙◌, Bool, true, false, not,
  ◌&&◌, ◌||◌, [], ◌∷◌, ◌++◌, arith, ltb, leb, ◌==◌, if◌then◌else◌, min, inl, inr, Bool-cases,
}
use daydream.Base.CString.{Str, isspace, isdigit}
use daydream.Text.{skip_spaces, is_empty}
use mathlib.Core.List.{append_assoc, append-nil}

-- What `strtol` gives: the sign, the magnitude cut to what a `long` holds, and the text at `endptr`.
pub record Strtol : Type 0 where
  pub negative : Bool
  pub magnitude : ℕ
  pub endptr : Str

pub read_digits : ℕ → Str → ℕ × Str
read_digits acc [] = (acc, [])
read_digits acc (c ∷ s) = if isdigit c then read_digits (acc * 10 + (c - 48)) s else (acc, c ∷ s)

abbrev no_number : Str → Strtol
no_number src = record { negative = false; magnitude = 0; endptr = src }

pub unsigned_part : Bool → Str → Str → Strtol
unfolding read_digits
unsigned_part negative src [] = no_number src
unsigned_part negative src (c ∷ s) =
    let (value, rest) = read_digits 0 (c ∷ s) in
    if isdigit c
    then record {
      negative = negative;
      magnitude = min value (if negative then 2 ^ 63 else 2 ^ 63 - 1);
      endptr = rest;
    }
    else no_number src

pub signed_part : Str → Str → Strtol
unfolding unsigned_part
signed_part src [] = no_number src
signed_part src (c ∷ s) =
    if c == b'-'
    then unsigned_part true src s
    else if c == b'+'
    then unsigned_part false src s
    else unsigned_part false src (c ∷ s)

unfoldable pub strtol : Str → Strtol
unfolding signed_part skip_spaces isdigit
strtol src = signed_part src (skip_spaces src)

-- The call of `abort`, the result -1, or the number.
pub data Uint : Type 0 where
  aborted bad : Uint
  ok : ℕ → Uint

-- `(int) n < 0`
abbrev int_negative : ℕ → Bool
int_negative n = leb (2 ^ 31) (n % 2 ^ 32)

in_range : Strtol → ℕ → ℕ → Uint
in_range r low high =
    if r.negative && (r.magnitude == 2 ^ 63)
      || (not r.negative && (r.magnitude == 2 ^ 63 - 1) || r.negative && ltb 0 r.magnitude)
    then bad
    else if ltb r.magnitude low || ltb high r.magnitude
    then bad
    else ok r.magnitude

unfoldable pub str2uint : Str → ℕ → ℕ → Uint
unfolding in_range is_empty
str2uint src low high =
    if int_negative high || int_negative low
    then aborted
    else if is_empty src || not (is_empty (strtol src).endptr)
    then bad
    else in_range (strtol src) low high

-- An accepted number is within the bounds that the caller gives.
pub str2uint-bounds :
    (src : Str) (low high n : ℕ) → str2uint src low high ≡ ok n → (low ≤ n) × (n ≤ high)
unfolding str2uint
str2uint-bounds src low high n h = ground arith

-- The decimal digits of a number, as `%d` prints it.
decimal_from : ℕ → ℕ → Str
decimal_from zero n = []
decimal_from (suc fuel) n =
    let high = decimal_from fuel (n / 10) ++ (48 + n % 10) ∷ [] in
    if ltb n 10 then (48 + n) ∷ [] else high

unfoldable pub decimal : ℕ → Str
unfolding decimal_from
decimal n = decimal_from (suc n) n

read_digits-nil : (n : ℕ) → read_digits n [] ≡ (n, [])
unfolding read_digits
read_digits-nil n = refl

read_digits-decimal :
    (fuel n : ℕ) (t : Str) → n < fuel → read_digits 0 (decimal_from fuel n ++ t) ≡ read_digits n t
unfolding read_digits decimal_from isdigit
read_digits-decimal zero n t h = absurd (omega arith)
read_digits-decimal (suc fuel) n t h = elim (Bool-cases (ltb n 10)) [
  | inl small ↦ ground arith
  | inr large ↦
      rw (large, append_assoc (decimal_from fuel (n / 10)) ((48 + n % 10) ∷ []) t)
        (read_digits-decimal fuel (n / 10) ((48 + n % 10) ∷ t) (ground arith) ∙ ground arith)
]

-- The first byte is a digit.
decimal-head :
    (fuel n : ℕ)
    → n < fuel
    → (c : ℕ) × (s : Str) × (decimal_from fuel n ≡ c ∷ s) × (48 ≤ c) × (c ≤ 57)
unfolding decimal_from
decimal-head zero n h = absurd (omega arith)
decimal-head (suc fuel) n h = elim (Bool-cases (ltb n 10)) [
  | inl small ↦ (48 + n, [], rw small, ground arith, ground arith)
  | inr large ↦
      let (c, s, e, low, high) = decimal-head fuel (n / 10) (ground arith) in
      (c, s ++ (48 + n % 10) ∷ [], rw (large, e), low, high)
]

strtol-digits :
    (c n : ℕ) (s : Str)
    → 48 ≤ c
    → c ≤ 57
    → read_digits 0 (c ∷ s) ≡ (n, [])
    → strtol (c ∷ s) ≡ record { negative = false; magnitude = min n (2 ^ 63 - 1); endptr = [] }
unfolding strtol isspace
strtol-digits c n s low high r = ground arith

-- What `str2uint` makes of the number that `strtol` reads from a whole text.
str2uint-digits :
    (c n low high : ℕ) (s : Str)
    → strtol (c ∷ s) ≡ record { negative = false; magnitude = min n (2 ^ 63 - 1); endptr = [] }
    → low < 2 ^ 31
    → high < 2 ^ 31
    → str2uint (c ∷ s) low high ≡ (if leb low n && leb n high then ok n else bad)
unfolding str2uint
str2uint-digits c n low high s e l h = ground arith

-- Any number that is printed in decimal is read back if it is within the bounds, and is refused if it is not,
-- also one too large for a `long`, where the bounds are numbers of an `int`.
pub str2uint-decimal :
    (n low high : ℕ)
    → low < 2 ^ 31
    → high < 2 ^ 31
    → str2uint (decimal n) low high ≡ (if leb low n && leb n high then ok n else bad)
unfolding decimal
str2uint-decimal n low high l h =
    let (c, s, e, low_digit, high_digit) = decimal-head (suc n) n (omega arith) in
    let read : read_digits 0 (decimal_from (suc n) n) ≡ (n, []) =
      rw (sym (append-nil (decimal_from (suc n) n)))
        (read_digits-decimal (suc n) n [] (omega arith) ∙ read_digits-nil n) in
    rw e
      (str2uint-digits c n low high s (strtol-digits c n s low_digit high_digit (rw e at read)) l h)
