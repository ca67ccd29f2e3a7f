-- ===== src/Glob/Limits.antt =====
-- Where `wildcmp` leaves the wildcard relation: a star in the name, and `*?` in the pattern.
use daydream.Base.{ℕ, ◌≡◌, refl, ◌≢◌, Bool, false, ◌∷◌, [], arith, ◌==◌}
use daydream.Base.CString.{Str, tolower}
use daydream.Glob.{star, question, suffix_loop, wildcmp_from, wildcmp}
use daydream.Glob.Matches.{Matches, one, leave, star_takes_all}

abbrev pub NoQuestionMark : Str → Type 0
NoQuestionMark [] = Unit
NoQuestionMark (n ∷ nam) = (n ≢ question) × NoQuestionMark nam

tolower-question : (n : ℕ) → n ≢ question → (tolower n == tolower question) ≡ false
unfolding tolower
tolower-question n p = ground arith

suffix_loop-question :
    (again : Str → Bool) (nam : Str) → NoQuestionMark nam → suffix_loop question again nam ≡ false
unfolding suffix_loop
suffix_loop-question again [] p = refl
suffix_loop-question again (n ∷ nam) p =
    ground (arith, suffix_loop-question again nam p.1, tolower-question n p.0)

-- A pattern that starts with `*?` is refused for every name without a star and a question mark at
-- its start and without a question mark further on, although such a name matches it whenever the
-- rest of the pattern matches the rest of the name.
wildcmp-star-question :
    (n : ℕ) (nam pat : Str)
    → n ≢ star
    → NoQuestionMark (n ∷ nam)
    → Matches pat nam
    → (wildcmp (n ∷ nam) (star ∷ question ∷ pat) ≡ false)
      × Matches (star ∷ question ∷ pat) (n ∷ nam)
unfolding wildcmp wildcmp_from tolower
wildcmp-star-question n nam pat p q d = (
  ground (arith, suffix_loop-question (wildcmp_from (question ∷ pat) 0) (n ∷ nam) q),
  leave refl (one refl d),
)

-- The pattern `*` is refused for every name of two bytes or more that starts with a star.
wildcmp-star_in_name :
    (n : ℕ) (nam : Str)
    → (wildcmp (star ∷ n ∷ nam) (star ∷ []) ≡ false) × Matches (star ∷ []) (star ∷ n ∷ nam)
unfolding wildcmp wildcmp_from tolower
wildcmp-star_in_name n nam = (refl, star_takes_all (star ∷ n ∷ nam))
