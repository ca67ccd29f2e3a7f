-- ===== src/Text/Paths.antt =====
-- Trailing spaces (`removespaces`), the last component of a path (`filepart`), both of main/misc.c,
-- and the joining of two paths (`pathcat2` of lib/libddcommon.c).
use daydream.Base.{
  ℕ, zero, suc, ◌+◌, ◌≡◌, refl, ap, ◌∙◌, ◌≢◌, [], ◌∷◌, ◌++◌, Option, none, some, arith, leb, ltb,
  ◌==◌, if◌then◌else◌, length, length-append, All,
}
use daydream.Base.CString.{Str}
use daydream.Text.{space, step_back, removespaces}
use mathlib.Core.Path.{◌≡⟨◌⟩◌, ◌∎}
use mathlib.Core.List.{reverse, reverse-cons, reverse-append, reverse-reverse, append_assoc}

abbrev pub slash : ℕ
slash = b'/'

-- What follows the last slash, `strrchr(pathname, '/') + 1`.
pub after_slash : Str → Option Str
after_slash [] = none
after_slash (c ∷ s) = elim (after_slash s) [
  | some rest ↦ some rest
  | none ↦ if c == slash then some s else none
]

unfoldable pub filepart : Str → Str
unfolding after_slash
filepart pathname = elim (after_slash pathname) [ some name ↦ name | none ↦ pathname ]

abbrev pub NoSlash : Str → Type 0
NoSlash = All λ c. c ≢ slash

after_slash-none : (s : Str) → NoSlash s → after_slash s ≡ none
unfolding after_slash
after_slash-none [] h = refl
after_slash-none (c ∷ s) h = ground (arith, after_slash-none s h.1)

after_slash-append : (dir name : Str) → NoSlash name → after_slash (dir ++ slash ∷ name) ≡ some name
unfolding after_slash
after_slash-append [] name h = ground (arith, after_slash-none name h)
after_slash-append (c ∷ dir) name h = ground (arith, after_slash-append dir name h)

-- The last component of a path is what follows its last slash, and a name without a slash is its
-- own last component.
filepart_lem :
    (dir name : Str)
    → NoSlash name
    → (filepart (dir ++ slash ∷ name) ≡ name) × (filepart name ≡ name)
unfolding filepart
filepart_lem dir name h =
    (rw (filepart, after_slash-append dir name h), rw (filepart, after_slash-none name h))

abbrev pub spaces : ℕ → Str
spaces zero = []
spaces (suc k) = space ∷ spaces k

step_back-spaces : (k : ℕ) (t : Str) → step_back (spaces k ++ t) ≡ step_back t
unfolding step_back
step_back-spaces zero t = refl
step_back-spaces (suc k) t = step_back-spaces k t

step_back-blank : (k : ℕ) → step_back (spaces k) ≡ none
unfolding step_back
step_back-blank zero = refl
step_back-blank (suc k) = step_back-blank k

spaces-snoc : (k : ℕ) → spaces k ++ space ∷ [] ≡ spaces (suc k)
spaces-snoc zero = refl
spaces-snoc (suc k) = ap (◌∷◌ space) (spaces-snoc k)

reverse-spaces : (k : ℕ) → reverse (spaces k) ≡ spaces k
reverse-spaces zero = refl
reverse-spaces (suc k) =
    reverse-append (space ∷ []) (spaces k) ∙ (rw (reverse-spaces k) (spaces-snoc k))

removespaces-step_back : (c : ℕ) (s : Str) → removespaces (c ∷ s) ≡ step_back (reverse (c ∷ s))
unfolding removespaces
removespaces-step_back c s = refl

removes : (t s : Str) → s ≢ [] → step_back (reverse s) ≡ some t → removespaces s ≡ some t
unfolding removespaces
removes t [] n h = absurd (n refl)
removes t (c ∷ s) n h = h

append-ne-nil : (t : Str) (c : ℕ) (s : Str) → t ++ c ∷ s ≢ []
append-ne-nil [] c s = λ e. cc
append-ne-nil (x ∷ t) c s = λ e. cc

-- A text that ends in a byte other than a space, with spaces behind it, loses exactly these.
removespaces-spaces :
    (t : Str) (c k : ℕ) → c ≢ space → removespaces (t ++ c ∷ spaces k) ≡ some (t ++ c ∷ [])
unfolding step_back
removespaces-spaces t c k h =
    removes (t ++ c ∷ []) (t ++ c ∷ spaces k) (append-ne-nil t c (spaces k)) (
      step_back (reverse (t ++ c ∷ spaces k))
      ≡⟨ ap step_back (reverse-append t (c ∷ spaces k)) ⟩
        step_back (reverse (c ∷ spaces k) ++ reverse t)
      ≡⟨ rw (reverse-cons c (spaces k), reverse-spaces k)
          (ap step_back (append_assoc (spaces k) (c ∷ []) (reverse t))) ⟩
        step_back (spaces k ++ c ∷ reverse t)
      ≡⟨ step_back-spaces k (c ∷ reverse t) ⟩ step_back (c ∷ reverse t)
      ≡⟨ ground arith ⟩ some (reverse (c ∷ reverse t))
      ≡⟨ rw (reverse-cons c (reverse t), reverse-reverse t) refl ⟩ some (t ++ c ∷ []) ∎)

-- A non-empty text of spaces alone makes the loop run below the start of the buffer.
removespaces-blank : (k : ℕ) → removespaces (spaces (suc k)) ≡ none
unfolding removespaces
removespaces-blank k = ap step_back (reverse-spaces (suc k)) ∙ step_back-blank (suc k)

-- The buffer, the error ENAMETOOLONG, or a read of `buf[-1]`.
pub data Joined : Type 0 where
  joined : Str → Joined
  too_long fault : Joined

last_byte : Str → Option ℕ
last_byte [] = none
last_byte (c ∷ []) = some c
last_byte (c ∷ d ∷ s) = last_byte (d ∷ s)

-- `strlcat` of the second path, with the test of its return value
append_path : ℕ → Str → Str → Joined
append_path buflen buf s2 =
    if leb buflen (length buf + length s2) then too_long else joined (buf ++ s2)

unfoldable pub pathcat2 : ℕ → Str → Str → Joined
unfolding last_byte append_path
pathcat2 buflen s1 s2 = if leb buflen (length s1) then too_long else elim (last_byte s1) [
  | none ↦ fault
  | some c ↦
      if c == slash
      then append_path buflen s1 s2
      else if leb buflen (length s1 + 1)
      then too_long
      else append_path buflen (s1 ++ slash ∷ []) s2
]

last_byte-append : (d : Str) (c : ℕ) → last_byte (d ++ c ∷ []) ≡ some c
unfolding last_byte
last_byte-append [] c = refl
last_byte-append (x ∷ []) c = refl
last_byte-append (x ∷ y ∷ d) c = last_byte-append (y ∷ d) c

-- The first path, a slash unless it ends in one, and the second path.
abbrev pub whole : Str → ℕ → Str → Str
whole d c s2 = (if c == slash then d ++ c ∷ [] else (d ++ c ∷ []) ++ slash ∷ []) ++ s2

-- A non-empty first path (`d` and its last byte `c`) is joined to the second with one slash between
-- them if the result and its NUL fit the buffer, and otherwise the call fails.
pathcat2-whole :
    (buflen c : ℕ) (d s2 : Str)
    → pathcat2 buflen (d ++ c ∷ []) s2
      ≡ (if ltb (length (whole d c s2)) buflen then joined (whole d c s2) else too_long)
unfolding pathcat2
pathcat2-whole buflen c d s2 = ground (
  arith,
  last_byte-append d c,
  length-append {0} (d ++ c ∷ []) s2,
  length-append {0} (d ++ c ∷ []) (slash ∷ []),
  length-append {0} ((d ++ c ∷ []) ++ slash ∷ []) s2,
)
