-- ===== src/Glob/Matches.antt =====
-- What it means for a name to match a wildcard pattern, with no search order in it.
use daydream.Base.{ℕ, ◌≡◌, refl, ◌≢◌, [], ◌∷◌, arith}
use daydream.Base.CString.{Str, tolower}

abbrev star : ℕ
star = b'*'

abbrev question : ℕ
question = b'?'

-- A star stands for any run of bytes, a question mark for any byte, and any other byte for itself
-- up to case.
pub data Matches : Str → Str → Type 0 where
  done : Matches [] []
  same :
      {c n : ℕ} {pat nam : Str}
      → c ≢ star
      → tolower n ≡ tolower c
      → Matches pat nam
      → Matches (c ∷ pat) (n ∷ nam)
  one : {c n : ℕ} {pat nam : Str} → c ≡ question → Matches pat nam → Matches (c ∷ pat) (n ∷ nam)
  leave : {c : ℕ} {pat nam : Str} → c ≡ star → Matches pat nam → Matches (c ∷ pat) nam
  eat : {c n : ℕ} {pat nam : Str} → c ≡ star → Matches (c ∷ pat) nam → Matches (c ∷ pat) (n ∷ nam)

-- No byte of the name is a star.
abbrev pub IsPlain : Str → Type 0
IsPlain [] = Unit
IsPlain (n ∷ nam) = (n ≢ star) × IsPlain nam

abbrev pub NoQuestion : Str → Type 0
NoQuestion [] = Unit
NoQuestion (c ∷ pat) = c ≢ question

-- No question mark follows a star directly.
abbrev pub IsOrderly : Str → Type 0
IsOrderly [] = Unit
IsOrderly (c ∷ pat) = (c ≡ star → NoQuestion pat) × IsOrderly pat

pub star_takes_all : (nam : Str) → Matches (star ∷ []) nam
star_takes_all [] = leave refl done
star_takes_all (n ∷ nam) = eat refl (star_takes_all nam)

pub Matches-two_stars : {pat nam : Str} → Matches (star ∷ star ∷ pat) nam → Matches (star ∷ pat) nam
Matches-two_stars (same p _ _) = absurd (p refl)
Matches-two_stars (one e _) = absurd (omega arith)
Matches-two_stars (leave e d) = d
Matches-two_stars (eat e d) = eat refl (Matches-two_stars d)

-- What a match of a non-empty pattern and a non-empty name rests on.
pub Matches-literal :
    {c n : ℕ} {pat nam : Str}
    → Matches (c ∷ pat) (n ∷ nam)
    → c ≢ star
    → c ≢ question
    → tolower n ≡ tolower c
Matches-literal (same _ e d) p q = e
Matches-literal (one e d) p q = absurd (q e)
Matches-literal (leave e d) p q = absurd (p e)
Matches-literal (eat e d) p q = absurd (p e)

pub Matches-rest :
    {c n : ℕ} {pat nam : Str} → Matches (c ∷ pat) (n ∷ nam) → c ≢ star → Matches pat nam
Matches-rest (same _ e d) p = d
Matches-rest (one e d) p = d
Matches-rest (leave e d) p = absurd (p e)
Matches-rest (eat e d) p = absurd (p e)

pub Matches-end : {c : ℕ} {pat : Str} → Matches (c ∷ pat) [] → (c ≡ star) × Matches pat []
Matches-end (leave e d) = (e, d)
