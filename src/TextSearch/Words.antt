-- ===== src/TextSearch/Words.antt =====
-- What is searched for: quoted texts, and what occurs in a message.
use daydream.Base.{
  ℕ, ◌≡◌, refl, sym, ap, ◌∙◌, Bool, true, false, ◌&&◌, [], ◌∷◌, ◌++◌, some, arith, ◌==◌,
  if◌then◌else◌, inl, inr, Bool-cases, ◌↔◌, ==→eq, ==_refl,
}
use daydream.Base.CString.{Str, isspace}
use daydream.Text.{skip_spaces}
use daydream.TextSearch.{
  is_quote, plain_from, quoted2plain, handle_params, starts_with, strstr, simple_search,
  shrink_spaces,
}

-- Each byte in double quotes, and a double quote in single ones.
unfoldable pub quoted : Str → Str
quoted [] = []
quoted (c ∷ t) = let rest = quoted t in if c == 34 then 39 ∷ 34 ∷ 39 ∷ rest else 34 ∷ c ∷ 34 ∷ rest

and_false : (b : Bool) → (b && false) ≡ false
and_false b = ground arith

-- A byte in double quotes.
plain_from-inside :
    (c : ℕ) (s : Str)
    → (34 == c) ≡ false
    → plain_from 34 (c ∷ s) ≡ (c ∷ (plain_from 34 s).0, (plain_from 34 s).1)
unfolding plain_from
plain_from-inside c s other = simp (other, and_false (isspace c), and_false (is_quote c)) refl

other_way : (c : ℕ) → (c == 34) ≡ false → (34 == c) ≡ false
other_way c other = ground arith

open_double : (s : Str) → plain_from 0 (34 ∷ s) ≡ plain_from 34 s
unfolding plain_from is_quote isspace
open_double s = refl

close_double : (s : Str) → plain_from 34 (34 ∷ s) ≡ plain_from 0 s
unfolding plain_from is_quote isspace
close_double s = refl

double_in_single :
    (s : Str) → plain_from 0 (39 ∷ 34 ∷ 39 ∷ s) ≡ (34 ∷ (plain_from 0 s).0, (plain_from 0 s).1)
unfolding plain_from is_quote isspace
double_in_single s = refl

plain_from-quoted : (t : Str) → plain_from 0 (quoted t) ≡ (t, [])
unfolding quoted
plain_from-quoted [] = unfold plain_from in refl
plain_from-quoted (c ∷ t) = elim (Bool-cases (c == 34)) [
  | inl quote ↦ simp quote (
      double_in_single (quoted t)
      ∙ ap (λ (r : Str × Str). (34 ∷ r.0, r.1)) (plain_from-quoted t)
      ∙ ap (λ d. (d ∷ t, [])) (sym (==→eq c 34 quote)))
  | inr other ↦ simp other (
      open_double (c ∷ 34 ∷ quoted t)
      ∙ plain_from-inside c (34 ∷ quoted t) (other_way c other)
      ∙ ap (λ (r : Str × Str). (c ∷ r.0, r.1)) (close_double (quoted t) ∙ plain_from-quoted t))
]

skip_spaces-quoted : (t : Str) → skip_spaces (quoted t) ≡ quoted t
unfolding quoted skip_spaces isspace
skip_spaces-quoted [] = refl
skip_spaces-quoted (c ∷ t) = elim (Bool-cases (c == 34)) [
  | inl quote ↦ simp quote refl
  | inr other ↦ simp other refl
]

-- Every text can be searched for: the parameters that quote its bytes give the text.
handle_params-quoted : (t : Str) → handle_params (some (quoted t)) ≡ t
unfolding handle_params quoted2plain
handle_params-quoted t =
    ap (λ s. (plain_from 0 s).0) (skip_spaces-quoted t)
    ∙ ap (λ (r : Str × Str). r.0) (plain_from-quoted t)

starts_with→prefix :
    (pattern s : Str) → starts_with pattern s ≡ true → (post : Str) × (s ≡ pattern ++ post)
unfolding starts_with
starts_with→prefix [] s h = (s, refl)
starts_with→prefix (c ∷ pattern) [] h = absurd (ground arith)
starts_with→prefix (c ∷ pattern) (d ∷ s) h =
    let (post, e) = starts_with→prefix pattern s (ground arith) in
    let same : c ≡ d = ground arith in (post, cc (e, same))

starts_with-append : (pattern post : Str) → starts_with pattern (pattern ++ post) ≡ true
unfolding starts_with
starts_with-append [] post = refl
starts_with-append (c ∷ pattern) post = simp (==_refl c) (starts_with-append pattern post)

strstr→occurs :
    (s pattern : Str)
    → strstr s pattern ≡ true
    → (pre : Str) × (post : Str) × (s ≡ pre ++ (pattern ++ post))
unfolding strstr
strstr→occurs [] pattern h = let (post, e) = starts_with→prefix pattern [] h in ([], post, e)
strstr→occurs (c ∷ s) pattern h = elim (Bool-cases (starts_with pattern (c ∷ s))) [
  | inl here ↦ let (post, e) = starts_with→prefix pattern (c ∷ s) here in ([], post, e)
  | inr later ↦
      let (pre, post, e) = strstr→occurs s pattern (simp later at h) in
      (c ∷ pre, post, ap (◌∷◌ c) e)
]

strstr-prefix : (pattern s : Str) → starts_with pattern s ≡ true → strstr s pattern ≡ true
unfolding strstr
strstr-prefix pattern [] h = h
strstr-prefix pattern (c ∷ s) h = simp h refl

strstr-append : (pre pattern post : Str) → strstr (pre ++ (pattern ++ post)) pattern ≡ true
unfolding strstr
strstr-append [] pattern post =
    strstr-prefix pattern (pattern ++ post) (starts_with-append pattern post)
strstr-append (c ∷ pre) pattern post = ground (arith, strstr-append pre pattern post)

-- A message is found exactly if the text searched for occurs in it, after runs of spaces in the message
-- are cut to one byte and letters made small.
pub simple_search_iff :
    (search_str contents : Str)
    → (simple_search search_str (some contents) ≡ true)
      ↔ ((pre : Str) × (post : Str) × (shrink_spaces contents ≡ pre ++ (search_str ++ post)))
unfolding simple_search
simple_search_iff search_str contents = (
  strstr→occurs (shrink_spaces contents) search_str,
  λ (pre, post, e). ap (λ s. strstr s search_str) e ∙ strstr-append pre search_str post,
)
