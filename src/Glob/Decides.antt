-- ===== src/Glob/Decides.antt =====
-- `wildcmp` decides the wildcard relation.
use daydream.Base.{
  ℕ, zero, suc, ◌≡◌, refl, ◌≢◌, ◌<◌, ◌↔◌, inl, inr, Bool, true, ◌||◌, [], ◌∷◌, ◌==◌, arith,
  Bool-cases, ==→eq,
}
use daydream.Base.CString.{Str, tolower}
use daydream.Glob.{star, question, suffix_loop, wildcmp_from, wildcmp}
use daydream.Glob.Matches.{
  Matches, done, same, one, leave, eat, IsPlain, NoQuestion, IsOrderly, star_takes_all,
  Matches-two_stars, Matches-literal, Matches-rest, Matches-end,
}

-- Only a star folds to a star.
tolower-star : (n : ℕ) → tolower n ≡ tolower star → n ≡ star
unfolding tolower
tolower-star n e = ground arith

module _ (c : ℕ) (pat : Str) (again : Str → Bool) (literal : c ≢ star) (known : c ≢ question)
    (ih : (p : Str) → IsPlain p → (again p ≡ true) ↔ Matches (c ∷ pat) p) where
  suffix_loop→Matches :
      (nam : Str) → IsPlain nam → suffix_loop c again nam ≡ true → Matches (star ∷ c ∷ pat) nam
  unfolding suffix_loop
  suffix_loop→Matches [] plain h = cc
  suffix_loop→Matches (n ∷ nam) plain h = elim (Bool-cases (suffix_loop c again nam)) [
    | inl later ↦ eat refl (suffix_loop→Matches nam plain.1 later)
    | inr none ↦ leave refl ((ih (n ∷ nam) plain).0 (ground arith))
  ]

  Matches→suffix_loop :
      (nam : Str) → IsPlain nam → Matches (star ∷ c ∷ pat) nam → suffix_loop c again nam ≡ true
  unfolding suffix_loop
  Matches→suffix_loop [] plain d = absurd (literal (Matches-end (Matches-end d).1).0)
  Matches→suffix_loop (n ∷ nam) plain (same p _ _) = absurd (p refl)
  Matches→suffix_loop (n ∷ nam) plain (one e _) = absurd (omega arith)
  Matches→suffix_loop (n ∷ nam) plain (leave e d) =
      ground (arith, Matches-literal d literal known, (ih (n ∷ nam) plain).1 d)
  Matches→suffix_loop (n ∷ nam) plain (eat e d) = ground (arith, Matches→suffix_loop nam plain.1 d)

-- In mode 1 a star has just been read.
abbrev behind : ℕ → Str → Str
behind zero pat = pat
behind (suc mode) pat = star ∷ pat

abbrev Follows : ℕ → Str → Type 0
Follows zero pat = Unit
Follows (suc mode) pat = NoQuestion pat

-- A byte that passes the test of the loop is not held against a star.
module _ (c n : ℕ) (plain : n ≢ star) (hit : (tolower n == tolower c || c == question) ≡ true) where
  hit-literal : c ≢ star
  hit-literal s = ground (arith, tolower-star n, s)

  hit-Matches : {pat nam : Str} → Matches pat nam → Matches (c ∷ pat) (n ∷ nam)
  hit-Matches d = elim (Bool-cases (c == question)) [
    | inl q ↦ one (==→eq c question q) d
    | inr q ↦ same hit-literal (ground arith) d
  ]

wildcmp_from_iff :
    (pat : Str) (mode : ℕ) (nam : Str)
    → mode < 2
    → Follows mode pat
    → IsOrderly pat
    → IsPlain nam
    → (wildcmp_from pat mode nam ≡ true) ↔ Matches (behind mode pat) nam
unfolding wildcmp_from
wildcmp_from_iff [] zero [] m f o plain = (λ _. done, λ _. refl)
wildcmp_from_iff [] zero (n ∷ nam) m f o plain = (λ h. cc, λ d. elim d [ ])
wildcmp_from_iff (c ∷ pat) zero [] m f o plain = elim (Bool-cases (c == star)) [
  | inl e ↦
      let is_star = ==→eq c star e in
      rw is_star (wildcmp_from_iff pat 1 [] (omega arith) (o.0 is_star) o.1 tt)
  | inr e ↦ rw e (λ h. cc, λ d. absurd (ground (arith, (Matches-end d).0)))
]
wildcmp_from_iff (c ∷ pat) zero (n ∷ nam) m f o plain =
    elim (Bool-cases (tolower n == tolower c || c == question)) [
      | inl e ↦
          let ih = wildcmp_from_iff pat 0 nam (omega arith) tt o.1 plain.1 in
          rw e (
            λ h. hit-Matches c n plain.0 e (ih.0 h),
            λ d. ih.1 (Matches-rest d (hit-literal c n plain.0 e)),
          )
      | inr e ↦ elim (Bool-cases (c == star)) [
        | inl s ↦
            let is_star = ==→eq c star s in
            let ih = wildcmp_from_iff pat 1 (n ∷ nam) (omega arith) (o.0 is_star) o.1 plain in
            rw (e, s, is_star) ih
        | inr s ↦ rw (e, s) (λ h. cc, λ d. ground (arith, Matches-literal d))
      ]
    ]
wildcmp_from_iff [] (suc mode) nam m f o plain = (λ _. star_takes_all nam, λ _. refl)
wildcmp_from_iff (c ∷ pat) (suc zero) nam m f o plain = elim (Bool-cases (c == star)) [
  | inl s ↦
      let is_star = ==→eq c star s in
      let ih = wildcmp_from_iff pat 1 nam (omega arith) (o.0 is_star) o.1 plain in
      rw (s, is_star) (λ h. leave refl (ih.0 h), λ d. ih.1 (Matches-two_stars d))
  | inr s ↦
      let ih =
        λ (p : Str) (q : IsPlain p). wildcmp_from_iff (c ∷ pat) zero p (omega arith) tt o q in
      let literal : c ≢ star = ground arith in
      rw s (
        suffix_loop→Matches c pat (wildcmp_from (c ∷ pat) zero) literal f ih nam plain,
        Matches→suffix_loop c pat (wildcmp_from (c ∷ pat) zero) literal f ih nam plain,
      )
]
wildcmp_from_iff (c ∷ pat) (suc (suc mode)) nam m f o plain = absurd (omega arith)

-- For a name without a star and a pattern without a question mark directly behind a star, `wildcmp`
-- answers 1 exactly if the name matches the pattern.
pub wildcmp_iff :
    (nam pat : Str) → IsPlain nam → IsOrderly pat → (wildcmp nam pat ≡ true) ↔ Matches pat nam
unfolding wildcmp
wildcmp_iff nam pat plain o = wildcmp_from_iff pat 0 nam (omega arith) tt o plain
