-- ===== src/Selection/Tokens.antt =====
-- The tokens of a line: one for each byte is enough.
use daydream.Base.{
  ℕ, zero, suc, ◌+◌, ◌≤◌, ◌<◌, ◌≡◌, refl, ap, Bool, true, false, List, [], ◌∷◌, some, arith, ltb,
  leb, if◌then◌else◌, length, inl, inr, Bool-cases,
}
use daydream.Base.CString.{Str, isspace}
use daydream.Text.{strtoken, skip_spaces, split_token}
use daydream.Selection.{tokens_from, or_save, tokens}

length-skip_spaces : (s : Str) → length (skip_spaces s) ≤ length s
unfolding skip_spaces
length-skip_spaces [] = omega arith
length-skip_spaces (c ∷ s) = elim (Bool-cases (isspace c)) [
  | inl space ↦ simp space (omega (arith, length-skip_spaces s))
  | inr other ↦ simp other (omega arith)
]

length-split_token : (s : Str) → length (split_token s).0 + length (split_token s).1 ≡ length s
unfolding split_token
length-split_token [] = refl
length-split_token (c ∷ s) = elim (Bool-cases (isspace c)) [
  | inl space ↦ simp space (omega arith)
  | inr other ↦ simp other (omega (arith, length-split_token s))
]

-- A token that has a byte, or is too long, is taken off the line.
strtoken-shorter :
    (s : Str) (n : ℕ)
    → (ltb n (strtoken (some s) n).size ≡ true → length (strtoken (some s) n).end < length s)
      × (0 < length (strtoken (some s) n).dest → length (strtoken (some s) n).end < length s)
unfolding strtoken
strtoken-shorter s n =
    let parts = length-split_token (skip_spaces s) in
    let less = length-skip_spaces s in
    elim (Bool-cases (leb n (length (split_token (skip_spaces s)).0))) [
      | inl long ↦ simp long (
        λ big.
            positive n (length (split_token (skip_spaces s)).0) _ (length s) big
              (omega (arith, parts, less)),
        λ full. absurd (omega arith),
      )
      | inr fits ↦
          simp fits
            (λ big. absurd (ground (arith, fits, big)), λ full. omega (arith, parts, less, full))
    ]
  where
    positive : (n k e l : ℕ) → ltb n k ≡ true → k + e ≤ l → e < l
    positive n k e l big le = ground arith

same_step :
    (b : Bool) (d : Str) (r s : List Str)
    → (b ≡ true → r ≡ s)
    → (0 < length d → r ≡ s)
    → (if b then r else elim d as (λ d. List Str) [ [] ↦ [] | c ∷ tok ↦ (c ∷ tok) ∷ r ])
      ≡ (if b then s else elim d as (λ d. List Str) [ [] ↦ [] | c ∷ tok ↦ (c ∷ tok) ∷ s ])
same_step true d r s h k = h refl
same_step false [] r s h k = refl
same_step false (c ∷ tok) r s h k = ap (◌∷◌ (c ∷ tok)) (k (omega arith))

tokens_from-enough :
    (f g : ℕ) (s : Str) → length s < f → length s < g → tokens_from f s ≡ tokens_from g s
unfolding tokens_from
tokens_from-enough zero g s lf lg = absurd (omega arith)
tokens_from-enough (suc f) zero s lf lg = absurd (omega arith)
tokens_from-enough (suc f) (suc g) s lf lg =
    let t = strtoken (some s) 90 in
    let less = strtoken-shorter s 90 in
    same_step (ltb 90 t.size) t.dest (tokens_from f t.end) (tokens_from g t.end)
      (λ big.
        tokens_from-enough f g t.end (omega (arith, less.0 big, lf))
          (omega (arith, less.0 big, lg)))
      (λ full.
        tokens_from-enough f g t.end (omega (arith, less.1 full, lf))
          (omega (arith, less.1 full, lg)))

-- With any fuel above the length of the line its tokens are the same, so the loop ends with the line.
tokens-enough :
    (inp : Str) (fuel : ℕ)
    → length (or_save inp) < fuel
    → tokens_from fuel (or_save inp) ≡ tokens inp
unfolding tokens
tokens-enough inp fuel h =
    tokens_from-enough fuel (suc (length (or_save inp))) (or_save inp) h (omega arith)
