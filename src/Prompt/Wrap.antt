-- ===== src/Prompt/Wrap.antt =====
-- The word that is wrapped to the next line.
use daydream.Base.{
  ℕ, ◌<◌, ◌≡◌, refl, sym, ap, ◌∙◌, ◌≢◌, [], ◌∷◌, ◌++◌, ◌==◌, Option, none, some, arith, inl, inr,
  Bool-cases, ==→eq,
}
use mathlib.Core.Path.{subst}
use mathlib.Core.List.{append_assoc}
use daydream.Base.CString.{Str}
use daydream.Prompt.{Memory, PromptFlags, entered, edit}
use daydream.Prompt.Session.{Agrees, edit-Agrees}
use daydream.Prompt.Cursor.{
  Outcome, editing, text_entered, whole, split_word, wrap_word, type_text, edit_text, Holds, Shows,
  line,
}

whole-append : (left right : Str) → whole left right ≡ whole left [] ++ right
whole-append [] right = refl
whole-append (c ∷ left) right =
    whole-append left (c ∷ right)
    ∙ sym (append_assoc (whole left []) (c ∷ []) right)
    ∙ ap (λ t. t ++ right) (sym (whole-append left (c ∷ [])))

split_word-whole :
    (left word l w : Str) → split_word left word ≡ some (l, w) → whole l (32 ∷ w) ≡ whole left word
unfolding split_word
split_word-whole [] word l w h = cc
split_word-whole (c ∷ []) word l w h = cc
split_word-whole (c ∷ d ∷ left) word l w h = elim (Bool-cases (c == 32)) [
  | inl e ↦ let same : some (d ∷ left, word) ≡ some (l, w) = rw e at h in cc (same, ==→eq c 32 e)
  | inr e ↦ split_word-whole (d ∷ left) (c ∷ word) l w (rw e at h)
]

-- The two lines with a space between them.
wrap_word-whole :
    (left : Str) (c : ℕ) (o : Option (Str × Str)) (s w : Str)
    → split_word left [] ≡ o
    → wrap_word (record { left = left; right = [] }) c o ≡ text_entered s w
    → s ++ 32 ∷ w ≡ whole left [] ++ c ∷ []
unfolding wrap_word
wrap_word-whole left c none s w e h = cc
wrap_word-whole left c (some (l, word)) s w e h =
    let main : whole l [] ++ (32 ∷ word ++ c ∷ []) ≡ whole left [] ++ c ∷ [] =
      sym (append_assoc (whole l []) (32 ∷ word) (c ∷ []))
      ∙ ap (λ t. t ++ c ∷ [])
          (sym (whole-append l (32 ∷ word)) ∙ split_word-whole left [] l word e) in
    cc main

edit_text-wraps :
    (flags : PromptFlags) (len : ℕ) (left right : Str) (c : ℕ) (s w : Str)
    → edit_text flags len (record { left = left; right = right }) c ≡ text_entered s w
    → w ≢ []
    → s ++ 32 ∷ w ≡ whole left right ++ c ∷ []
unfolding edit_text type_text
edit_text-wraps flags len left [] c s w h ne =
    ground (arith, wrap_word-whole left c (split_word left []) s w refl)
edit_text-wraps flags len left (d ∷ right) c s w h ne = ground arith

-- The two lines that a key makes of one.
agreed-wraps :
    (outer : Memory) (len : ℕ) (b' : Memory) (w line : Str) (o : Outcome)
    → ((s w' : Str) → o ≡ text_entered s w' → w' ≢ [] → s ++ 32 ∷ w' ≡ line)
    → w ≢ []
    → Agrees outer len (entered b' w) o
    → (s : Str) × Holds b' s × (s ++ 32 ∷ w ≡ line)
agreed-wraps outer len b' w line (editing z) law ne h = absurd h
agreed-wraps outer len b' w line (text_entered s w') law ne h =
    (s, h.0, subst (λ v. s ++ 32 ∷ v ≡ line) (sym h.1) (law s w' refl (subst (λ v. v ≢ []) h.1 ne)))

-- Word wrap loses nothing: where a key leaves a word for the next line, the line that is entered, a space
-- and that word are the line before and the key.
pub edit-wraps :
    (flags : PromptFlags) (outer : Memory) (len : ℕ) (b : Memory) (left right : Str) (c : ℕ)
    (b' : Memory) (w : Str)
    → len < 80
    → Shows outer len b left right
    → edit flags len (line b left right) c ≡ entered b' w
    → w ≢ []
    → (s : Str) × Holds b' s × (s ++ 32 ∷ w ≡ whole left right ++ c ∷ [])
edit-wraps flags outer len b left right c b' w small shown h ne =
    agreed-wraps outer len b' w (whole left right ++ c ∷ [])
      (edit_text flags len (record { left = left; right = right }) c)
      (λ s w'. edit_text-wraps flags len left right c s w') ne
      (subst
        (λ t. Agrees outer len t (edit_text flags len (record { left = left; right = right }) c)) h
        (edit-Agrees outer len flags b left right c (inr small) shown))
