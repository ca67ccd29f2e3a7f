-- ===== src/Reader/Width.antt =====
-- The width of a line on the screen, `strlena` of main/readmsgs.c, which leaves out escape sequences.
use daydream.Base.{
  ℕ, zero, suc, ◌+◌, ◌≤◌, ◌<◌, ◌≡◌, ◌≢◌, refl, sym, ap, ◌∙◌, Bool, true, false, [], ◌∷◌, ◌++◌,
  Option, none, some, arith, ◌==◌, ◌&&◌, if◌then◌else◌, any, length, All, Bool-cases, Option-cases,
  inl, inr, length-append, some-injective,
}
use daydream.Base.CString.{Str, codes}

abbrev finals : Str
finals = codes "@AbBcCdDgGHiIJKLmMnPRSTXZ"

unfoldable pub is_final : ℕ → Bool
is_final c = any (λ f. f == c) finals

-- The text behind the first final byte, one byte behind what `strpbrk` gives.
unfoldable pub behind_final : Str → Option Str
unfolding is_final
behind_final [] = none
behind_final (c ∷ s) = if is_final c then some s else behind_final s

-- Where an escape sequence begins: the text behind it, if it ends.
unfoldable pub escape : Str → Option (Option Str)
unfolding behind_final
escape [] = none
escape (c ∷ []) = none
escape (c ∷ (d ∷ s)) = if c == 27 && (d == b'[') then some (behind_final s) else none

-- The loop, for at most so many steps.
unfoldable pub strlena_from : ℕ → Str → ℕ
unfolding escape
strlena_from zero s = 0
strlena_from (suc fuel) [] = 0
strlena_from (suc fuel) (c ∷ s) = elim (escape (c ∷ s)) [
  | none ↦ suc (strlena_from fuel s)
  | some none ↦ length (c ∷ s)
  | some (some t) ↦ strlena_from fuel t
]

unfoldable pub strlena : Str → ℕ
unfolding strlena_from
strlena s = strlena_from (length s) s

behind_final-shorter : (s t : Str) → behind_final s ≡ some t → length t < length s
unfolding behind_final
behind_final-shorter [] t e = absurd (ground arith)
behind_final-shorter (c ∷ s) t e = elim (Bool-cases (is_final c)) [
  | inl last ↦
      let same : length s ≡ length t = ap length (some-injective (simp last at e)) in
      omega (arith, same)
  | inr other ↦ omega (arith, behind_final-shorter s t (simp other at e))
]

escape-shorter : (s t : Str) → escape s ≡ some (some t) → length t < length s
unfolding escape
escape-shorter [] t e = absurd (ground arith)
escape-shorter (c ∷ []) t e = absurd (ground arith)
escape-shorter (c ∷ (d ∷ s)) t e = elim (Bool-cases (c == 27 && (d == b'['))) [
  | inl begins ↦ omega (arith, behind_final-shorter s t (some-injective (simp begins at e)))
  | inr other ↦ absurd (ground (arith, simp other at e))
]

abbrev branch : ℕ → ℕ → Str → Option (Option Str) → ℕ
branch f c s none = suc (strlena_from f s)
branch f c s (some none) = length (c ∷ s)
branch f c s (some (some t)) = strlena_from f t

branch_is :
    (f c : ℕ) (s : Str) (o : Option (Option Str))
    → (elim o as (λ o. ℕ) [
      | none ↦ suc (strlena_from f s)
      | some none ↦ length (c ∷ s)
      | some (some t) ↦ strlena_from f t
    ])
      ≡ branch f c s o
branch_is f c s none = refl
branch_is f c s (some none) = refl
branch_is f c s (some (some t)) = refl

strlena_from-suc :
    (f c : ℕ) (s : Str) → strlena_from (suc f) (c ∷ s) ≡ branch f c s (escape (c ∷ s))
unfolding strlena_from
strlena_from-suc f c s = branch_is f c s (escape (c ∷ s))

strlena_from-step :
    (f c : ℕ) (s : Str) (o : Option (Option Str))
    → escape (c ∷ s) ≡ o
    → strlena_from (suc f) (c ∷ s) ≡ branch f c s o
strlena_from-step f c s o e = strlena_from-suc f c s ∙ ap (branch f c s) e

-- More steps than bytes change nothing.
strlena_from-enough :
    (f g : ℕ) (s : Str) → length s ≤ f → length s ≤ g → strlena_from f s ≡ strlena_from g s
strlena_from-enough zero zero s lf lg = refl
strlena_from-enough zero (suc g) [] lf lg = unfold strlena_from in refl
strlena_from-enough zero (suc g) (c ∷ s) lf lg = absurd (omega arith)
strlena_from-enough (suc f) zero [] lf lg = unfold strlena_from in refl
strlena_from-enough (suc f) zero (c ∷ s) lf lg = absurd (omega arith)
strlena_from-enough (suc f) (suc g) [] lf lg = unfold strlena_from in refl
strlena_from-enough (suc f) (suc g) (c ∷ s) lf lg =
    let plain = strlena_from-enough f g s (omega arith) (omega arith) in
    elim (Option-cases (escape (c ∷ s))) [
      | inl none_there ↦
          strlena_from-step f c s none none_there
          ∙ omega (arith, plain)
          ∙ sym (strlena_from-step g c s none none_there)
      | inr (o, begins) ↦ elim (Option-cases o) [
        | inl open_end ↦
            let whole : escape (c ∷ s) ≡ some none = begins ∙ ap some open_end in
            strlena_from-step f c s (some none) whole
            ∙ sym (strlena_from-step g c s (some none) whole)
        | inr (t, ends) ↦
            let whole : escape (c ∷ s) ≡ some (some t) = begins ∙ ap some ends in
            let less = escape-shorter (c ∷ s) t whole in
            strlena_from-step f c s (some (some t)) whole
            ∙ strlena_from-enough f g t (omega (arith, less)) (omega (arith, less))
            ∙ sym (strlena_from-step g c s (some (some t)) whole)
      ]
    ]

behind_final-append :
    (params t : Str) (f : ℕ)
    → All (λ c. is_final c ≡ false) params
    → is_final f ≡ true
    → behind_final (params ++ f ∷ t) ≡ some t
unfolding behind_final
behind_final-append [] t f h e = simp e refl
behind_final-append (c ∷ params) t f h e = simp h.0 (behind_final-append params t f h.1 e)

escape-none : (c : ℕ) (s : Str) → c ≢ 27 → escape (c ∷ s) ≡ none
unfolding escape
escape-none c [] h = refl
escape-none c (d ∷ s) h =
    let other : (c == 27 && (d == b'[')) ≡ false = ground (arith, h) in simp other refl

-- An escape sequence with its parameters and final byte has no width; text without escapes has a place for
-- each byte.
strlena-escape :
    (plain params t : Str) (f : ℕ)
    → All (λ c. c ≢ 27) plain
    → All (λ c. is_final c ≡ false) params
    → is_final f ≡ true
    → strlena (plain ++ (27 ∷ b'[' ∷ (params ++ f ∷ t))) ≡ length plain + strlena t
unfolding strlena
strlena-escape [] params t f h k e =
    let s = params ++ f ∷ t in
    let long : length s ≡ length params + suc (length t) = length-append params (f ∷ t) in
    let begins : escape (27 ∷ b'[' ∷ s) ≡ some (some t) =
      unfold escape in ap some (behind_final-append params t f k e) in
    let taken : strlena_from (suc (suc (length s))) (27 ∷ b'[' ∷ s) ≡ strlena_from (length t) t =
      strlena_from-step (suc (length s)) 27 (b'[' ∷ s) (some (some t)) begins
      ∙ strlena_from-enough (suc (length s)) (length t) t (omega (arith, long)) (omega arith) in
    omega (arith, taken)
strlena-escape (c ∷ plain) params t f h k e =
    let rest = plain ++ (27 ∷ b'[' ∷ (params ++ f ∷ t)) in
    let one = strlena_from-step (length rest) c rest none (escape-none c rest h.0) in
    omega (arith, one, strlena-escape plain params t f h.1 k e)

-- Two visible bytes, a colour, and one more.
coloured : strlena (codes "ab" ++ (27 ∷ codes "[1;31mc")) ≡ 3
unfolding strlena
coloured = refl
