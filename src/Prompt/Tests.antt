-- ===== src/Prompt/Tests.antt =====
-- Short prompts, and the theorems at them.
use daydream.Base.{
  inr, ℕ, true, false, if◌then◌else◌, ◌==◌, ◌≡◌, refl, List, [], ◌∷◌, ◌++◌, Option, none, some,
  arith,
}
use daydream.Base.CString.{Str, codes}
use daydream.Prompt.{Memory, PromptFlags, edit, string_at, prompt, write}
use daydream.Prompt.Cursor.{Holds, Shows, prompt_text}
use daydream.Prompt.Whole.{Returns, prompt-prompt_text}
use daydream.Prompt.Wrap.{edit-wraps}

abbrev empty : Memory
empty = λ x. 0

abbrev wrapping : PromptFlags
wrapping = record { prompt_file = false; prompt_wrap = true }

-- `abd`, left, `c`, end of the line.
abbrev keys : List ℕ
keys = b'a' ∷ b'b' ∷ b'd' ∷ 253 ∷ b'c' ∷ 13 ∷ []

abbrev entered_text : Option (Memory × Str) → Option Str
entered_text none = none
entered_text (some (b, w)) = some (string_at 9 b 0)

typed_line : entered_text (prompt false wrapping 8 empty 0 [] keys) ≡ some (codes "abcd")
unfolding prompt string_at
typed_line = refl

-- The line is full, so `x` goes to the next line with the last word.
abbrev full_line : List ℕ
full_line = codes "ab cd"

abbrev next_line : Option (Memory × Str) → Option Str
next_line none = none
next_line (some (b, w)) = some w

wrapped :
    next_line (prompt false wrapping 5 empty 0 [] (full_line ++ b'x' ∷ [])) ≡ some (codes "cdx")
unfolding prompt string_at
wrapped = refl

deleted :
    entered_text (prompt false wrapping 8 empty 0 [] (codes "abc" ++ 253 ∷ 8 ∷ 10 ∷ []))
    ≡ some (codes "ac")
unfolding prompt string_at
deleted = refl

prompt-prompt_text_example :
    Returns empty 8
      (prompt false wrapping 8 empty 0 (codes "to ") keys)
      (prompt_text wrapping 8 [] (codes "to ") keys)
prompt-prompt_text_example =
    prompt-prompt_text false wrapping 8 empty [] (codes "to ") keys (omega arith)
      (inr (omega arith)) (omega arith) (omega arith) (omega arith) (omega arith)

abbrev a_b : Memory
a_b x = if x == 0 then b'a' else if x == 1 then 32 else if x == 2 then b'b' else 0

a_b-Shows : Shows a_b 3 a_b (b'b' ∷ 32 ∷ b'a' ∷ []) []
a_b-Shows = record {
  before = (refl, (refl, (refl, tt)));
  after = tt;
  fits = omega arith;
  left_text = omega arith;
  right_text = tt;
  ended = refl;
  beyond = λ x lt. refl;
}

edit-wraps_example : (s : Str) × Holds (write a_b 1 0) s × (s ++ 32 ∷ codes "bc" ≡ codes "a bc")
edit-wraps_example =
    edit-wraps wrapping a_b 3 a_b (b'b' ∷ 32 ∷ b'a' ∷ []) [] b'c' (write a_b 1 0) (codes "bc")
      (omega arith) a_b-Shows (unfold edit string_at in refl) (λ e. cc)
