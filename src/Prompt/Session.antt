-- ===== src/Prompt/Session.antt =====
-- A whole prompt: what is entered, and which bytes are touched.
use daydream.Base.{
  ℕ, zero, suc, ◌+◌, ◌-◌, ◌<◌, ◌≡◌, refl, sym, ap, ◌∙◌, Bool, true, false, ◌&&◌, ◌||◌, not, [], ◌∷◌,
  ◌⊎◌, ◌++◌, Option, none, some, arith, ltb, ◌==◌, if◌then◌else◌, length, take, inl, inr,
  Bool-cases, take-all, length-append,
}
use mathlib.Core.Path.{subst}
use daydream.Base.CString.{Str}
use daydream.Prompt.{
  Memory, write, PromptFlags, Typed, going, entered, last_space, wrap_line, string_at, backspace,
  type_key, edit,
}
use daydream.Prompt.Bytes.{write-eq, write-ne}
use daydream.Prompt.Steps.{move_left-Shown, move_right-Shown, insert_key-Shown, backspace-Shown}
use daydream.Prompt.Cursor.{
  Outcome, editing, text_entered, whole, split_word, wrap_word, type_text, edit_text, Before, After,
  NoNul, Holds, Shows, line, Before-ext, After-ext, After-whole, length-whole, NoNul-whole,
  delete_left, move_left, move_right,
}

-- Word wrap is off, or the line is one whose words fit `wrapbuf`.
abbrev pub WrapsWithin : PromptFlags → ℕ → Type 0
WrapsWithin flags len = (flags.prompt_wrap ≡ false) ⊎ (len < 80)

within_small :
    (flags : PromptFlags) (len : ℕ) (end_of_line : Bool)
    → WrapsWithin flags len
    → (flags.prompt_wrap && end_of_line) ≡ true
    → len < 80
within_small flags len end_of_line (inl off) e = absurd (ground arith)
within_small flags len end_of_line (inr small) e = small

ne_zero : (n : ℕ) → (suc n == 0) ≡ false
ne_zero n = ground arith

pub string_at-After :
    (n : ℕ) (b : Memory) (k : ℕ) (s : Str)
    → After b k s
    → NoNul s
    → length s < n
    → b (k + length s) ≡ 0
    → string_at n b k ≡ s
unfolding string_at
string_at-After zero b k s h t f e = absurd (omega arith)
string_at-After (suc n) b k [] h t f e = ground arith
string_at-After (suc n) b k (c ∷ s) h t f e =
    ground (arith, string_at-After n b (suc k) s h.1 t.1 (omega arith))

module _ (outer : Memory) (len : ℕ) where
  -- The variables and the abstract line agree, or both have entered the same text, with the same start of
  -- the next line; bytes behind `len` are those of `outer`.
  abbrev pub Agrees : Typed → Outcome → Type 0
  Agrees (going l) (editing z) =
      (b : Memory) × (l ≡ line b z.left z.right) × Shows outer len b z.left z.right
  Agrees (going l) (text_entered s w) = ⊥
  Agrees (entered b w) (editing z) = ⊥
  Agrees (entered b w) (text_entered s w') =
      Holds b s × (w ≡ w') × ((x : ℕ) → len < x → b x ≡ outer x)

  if-Agrees :
      (c c' : Bool) (p q : Typed) (p' q' : Outcome)
      → c ≡ c'
      → (c ≡ true → Agrees p p')
      → (c ≡ false → Agrees q q')
      → Agrees (if c then p else q) (if c' then p' else q')
  if-Agrees true true p q p' q' e h k = h refl
  if-Agrees true false p q p' q' e h k = cc
  if-Agrees false true p q p' q' e h k = cc
  if-Agrees false false p q p' q' e h k = k refl

  enter-Agrees :
      (b : Memory) (left right : Str)
      → Shows outer len b left right
      → Agrees
          (entered (write b (length left + length right) 0) [])
          (text_entered (whole left right) [])
  enter-Agrees b left right s =
      let n = length left + length right in
      let b' = write b n 0 in
      (
        (
          After-whole b' left right
              (Before-ext b b' left (λ x lt. write-ne b n 0 x (omega arith)) s.before)
              (After-ext b b' (length left) (length left) right
                (λ x y low high same.
                  let e : y ≡ x = omega arith in rw e (write-ne b n 0 x (omega arith)))
                s.after),
          NoNul-whole left right s.left_text s.right_text,
          rw (length-whole left right) (write-eq b n 0),
        ),
        refl,
        λ x lt. write-ne b n 0 x (omega (arith, s.fits)) ∙ s.beyond x lt,
      )

  -- The space that was found splits the line.
  abbrev Splits : Memory → ℕ → Option ℕ → Option (Str × Str) → Type 0
  Splits b total none none = Unit
  Splits b total none (some p) = ⊥
  Splits b total (some s) none = ⊥
  Splits b total (some s) (some (left, word)) =
      (s ≡ length left)
      × Before b left
      × After b (suc (length left)) word
      × NoNul left
      × NoNul word
      × (suc (length left) + length word ≡ total)

  last_space-Splits :
      (b : Memory) (c : ℕ) (left word : Str)
      → Before b (c ∷ left)
      → NoNul (c ∷ left)
      → After b (suc (length left)) word
      → NoNul word
      → Splits b
          (suc (length left) + length word)
          (last_space b (length left))
          (split_word (c ∷ left) word)
  unfolding last_space split_word
  last_space-Splits b c [] word h t k u = tt
  last_space-Splits b c (d ∷ left) word h t k u = elim (Bool-cases (c == 32)) [
    | inl e ↦ rw (h.0, e) (refl, h.1, k, t.1, u, refl)
    | inr e ↦
        rw (h.0, e)
          (subst (λ n. Splits b n (last_space b (length left)) (split_word (d ∷ left) (c ∷ word)))
            (omega arith) (last_space-Splits b d left (c ∷ word) h.1 t.1 (h.0, k) (t.0, u)))
  ]

  -- Both parts of a line that is split at the place behind `l`.
  split_line-Agrees :
      (b : Memory) (l w : Str) (c : ℕ)
      → len < 80
      → b len ≡ 0
      → ((x : ℕ) → len < x → b x ≡ outer x)
      → Splits b len (some (length l)) (some (l, w))
      → Agrees
          (entered
            (write b (length l) 0)
            (take 79 (string_at 79 (write b (length l) 0) (suc (length l)) ++ c ∷ [])))
          (text_entered (whole l []) (w ++ c ∷ []))
  split_line-Agrees b l w c small ended beyond (_, before, after, text, word, total) =
      let b' = write b (length l) 0 in
      let after' : After b' (suc (length l)) w =
        After-ext b b' (suc (length l)) (suc (length l)) w
          (λ x y low high same.
            let e : y ≡ x = omega arith in rw e (write-ne b (length l) 0 x (omega arith)))
          after in
      let end : b' (suc (length l) + length w) ≡ 0 =
        rw total (write-ne b (length l) 0 len (omega arith) ∙ ended) in
      (
        (
          After-whole b' l []
              (Before-ext b b' l (λ x lt. write-ne b (length l) 0 x (omega arith)) before) tt,
          NoNul-whole l [] text tt,
          rw (length-whole l []) (ground (arith, write-eq b (length l) 0)),
        ),
        rw (string_at-After 79 b' (suc (length l)) w after' word (omega arith) end)
            (take-all 79 (w ++ c ∷ []) (omega (arith, length-append {0} w (c ∷ [])))),
        λ x lt. write-ne b (length l) 0 x (omega arith) ∙ beyond x lt,
      )

  wrap_line-Agrees :
      (b : Memory) (left : Str) (c : ℕ) (s : Option ℕ) (p : Option (Str × Str))
      → len < 80
      → Shows outer len b left []
      → Splits b len s p
      → Agrees (wrap_line (line b left []) c s) (wrap_word (record { left = left; right = [] }) c p)
  unfolding wrap_line wrap_word
  wrap_line-Agrees b left c none none small shown h = (b, refl, shown)
  wrap_line-Agrees b left c none (some p) small shown h = absurd h
  wrap_line-Agrees b left c (some s) none small shown h = absurd h
  wrap_line-Agrees b left c (some s) (some (l, w)) small shown h =
      subst
        (λ t.
          Agrees (entered (write b t 0) (take 79 (string_at 79 (write b t 0) (suc t) ++ c ∷ [])))
            (text_entered (whole l []) (w ++ c ∷ [])))
        (sym h.0)
        (split_line-Agrees b l w c small shown.ended shown.beyond (refl, h.1, h.2, h.3, h.4, h.5))

  -- The key that finds the line full.
  full_line-Agrees :
      (b : Memory) (left : Str) (c : ℕ)
      → len < 80
      → length left ≡ len
      → Shows outer len b left []
      → Agrees
          (wrap_line (line b left []) c (last_space b (length left)))
          (wrap_word (record { left = left; right = [] }) c (split_word left []))
  unfolding last_space split_word
  full_line-Agrees b [] c small full shown = wrap_line-Agrees b [] c none none small shown tt
  full_line-Agrees b (d ∷ left) c small full shown =
      let nul : b (suc (length left)) ≡ 0 = ap b full ∙ shown.ended in
      rw nul (
        wrap_line-Agrees b (d ∷ left) c (last_space b (length left)) (split_word (d ∷ left) [])
          small shown
          (subst (λ n. Splits b n (last_space b (length left)) (split_word (d ∷ left) []))
            (omega arith) (last_space-Splits b d left [] shown.before shown.left_text tt tt)))

  full-Agrees :
      (flags : PromptFlags) (b : Memory) (left right : Str) (c : ℕ)
      → WrapsWithin flags len
      → length left + length right ≡ len
      → Shows outer len b left right
      → Agrees
          (if flags.prompt_wrap && (length left + length right == length left)
            then wrap_line (line b left right) c (last_space b (length left))
            else going (line b left right))
          (if flags.prompt_wrap && (length right == 0)
            then wrap_word (record { left = left; right = right }) c (split_word left [])
            else editing (record { left = left; right = right }))
  full-Agrees flags b left [] c small full shown =
      if-Agrees (flags.prompt_wrap && (length left + 0 == length left)) (flags.prompt_wrap && true)
        _ _ _ _ (ground arith)
        (λ e. full_line-Agrees b left c (within_small flags len _ small e) (omega arith) shown)
        (λ e. (b, refl, shown))
  full-Agrees flags b left (d ∷ right) c small full shown =
      if-Agrees (flags.prompt_wrap && (length left + length (d ∷ right) == length left))
        (flags.prompt_wrap && (length (d ∷ right) == 0)) _ _ _ _ (ground arith)
        (λ e. absurd (ground arith)) (λ e. (b, refl, shown))

  type_key-Agrees :
      (flags : PromptFlags) (b : Memory) (left right : Str) (c : ℕ)
      → WrapsWithin flags len
      → Shows outer len b left right
      → Agrees
          (type_key flags len (line b left right) c)
          (type_text flags len (record { left = left; right = right }) c)
  unfolding type_key type_text
  type_key-Agrees flags b left right c small shown =
      if-Agrees (flags.prompt_file && (c == b'/' || (c == 92))) _ _ _ _ _ refl
        (λ e. (b, refl, shown))
        (λ e.
          if-Agrees (not (length left + length right == len)) _ _ _ _ _ refl
            (λ room.
              if-Agrees (ltb 31 c) _ _ _ _ _ refl
                (λ text.
                  insert_key-Shown outer len b c left right (ground arith)
                    (ground (arith, shown.fits)) shown)
                (λ other. (b, refl, shown)))
            (λ full. full-Agrees flags b left right c small (ground arith) shown))

  backspace-Agrees :
      (b : Memory) (left right : Str)
      → Shows outer len b left right
      → Agrees
          (going (backspace len (line b left right)))
          (editing (delete_left (record { left = left; right = right })))
  unfolding delete_left
  backspace-Agrees b [] right shown = (b, (unfold backspace in refl), shown)
  backspace-Agrees b (c ∷ left) right shown = backspace-Shown outer len b c left right shown

  cursor_left-Agrees :
      (b : Memory) (left right : Str)
      → Shows outer len b left right
      → Agrees
          (if length left == 0
            then going (line b left right)
            else going (record (line b left right) { j = length left - 1 }))
          (editing (move_left (record { left = left; right = right })))
  unfolding move_left
  cursor_left-Agrees b [] right shown = (b, refl, shown)
  cursor_left-Agrees b (c ∷ left) right shown =
      rw (ne_zero (length left)) (b, ground arith, move_left-Shown outer len b c left right shown)

  cursor_right-Agrees :
      (b : Memory) (left right : Str)
      → Shows outer len b left right
      → Agrees
          (if length left == length left + length right
            then going (line b left right)
            else going (record (line b left right) { j = suc (length left) }))
          (editing (move_right (record { left = left; right = right })))
  unfolding move_right
  cursor_right-Agrees b left [] shown =
      let at_end : (length left == length left + 0) ≡ true = ground arith in
      rw at_end (b, refl, shown)
  cursor_right-Agrees b left (c ∷ right) shown =
      let more : (length left == length left + suc (length right)) ≡ false = ground arith in
      rw more (b, ground arith, move_right-Shown outer len b c left right shown)

  pub edit-Agrees :
      (flags : PromptFlags) (b : Memory) (left right : Str) (c : ℕ)
      → WrapsWithin flags len
      → Shows outer len b left right
      → Agrees
          (edit flags len (line b left right) c)
          (edit_text flags len (record { left = left; right = right }) c)
  unfolding edit edit_text
  edit-Agrees flags b left right c small shown =
      if-Agrees (c == 13 || (c == 10)) _ _ _ _ _ refl (λ e. enter-Agrees b left right shown)
        (λ e.
          if-Agrees (c == 8 || (c == 127)) _ _ _ _ _ refl (λ e. backspace-Agrees b left right shown)
            (λ e.
              if-Agrees (c == 253) _ _ _ _ _ refl (λ e. cursor_left-Agrees b left right shown)
                (λ e.
                  if-Agrees (c == 252) _ _ _ _ _ refl (λ e. cursor_right-Agrees b left right shown)
                    (λ e.
                      if-Agrees (c == 250 || (c == 251) || (c == 0)) _ _ _ _ _ refl
                        (λ e. (b, refl, shown))
                        (λ e. type_key-Agrees flags b left right c small shown)))))
