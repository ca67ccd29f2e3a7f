-- ===== src/Prompt/Cursor.antt =====
-- A line of text with a cursor, the editor that `Prompt` promises, and what it means that the buffer holds
-- such a line.
use daydream.Base.{
  take, ◌-◌, ℕ, suc, ◌+◌, ◌≤◌, ◌<◌, ◌≡◌, ◌≢◌, ◌&&◌, ◌||◌, not, List, [], ◌∷◌, ◌++◌, Option, none,
  some, arith, ltb, ◌==◌, if◌then◌else◌, length, All, sym, ap, ◌∙◌, inl, inr, Bool-cases, ==→eq,
}
use daydream.Base.CString.{Str}
use daydream.Prompt.{Memory, Line, PromptFlags}

-- The text before the cursor, last byte first, and the text from the cursor on.
pub record Cursor : Type 0 where
  pub left : Str
  pub right : Str

-- The text of a line.
abbrev pub whole : Str → Str → Str
whole [] right = right
whole (c ∷ left) right = whole left (c ∷ right)

-- The last word before the cursor, unless it is at the start, and what stands before its space.
unfoldable pub split_word : Str → Str → Option (Str × Str)
split_word [] word = none
split_word (c ∷ []) word = none
split_word (c ∷ d ∷ left) word =
    if c == 32 then some (d ∷ left, word) else split_word (d ∷ left) (c ∷ word)

-- A line that is edited, or the text that is entered with the start of the next line.
pub data Outcome : Type 0 where
  editing : Cursor → Outcome
  text_entered : Str → Str → Outcome

unfoldable pub wrap_word : Cursor → ℕ → Option (Str × Str) → Outcome
wrap_word z c none = editing z
wrap_word z c (some (left, word)) = text_entered (whole left []) (word ++ c ∷ [])

unfoldable pub move_left : Cursor → Cursor
move_left z = elim z.left [ [] ↦ z | c ∷ left ↦ record { left = left; right = c ∷ z.right } ]

unfoldable pub move_right : Cursor → Cursor
move_right z = elim z.right [ [] ↦ z | c ∷ right ↦ record { left = c ∷ z.left; right = right } ]

unfoldable pub delete_left : Cursor → Cursor
delete_left z = elim z.left [ [] ↦ z | c ∷ left ↦ record { left = left; right = z.right } ]

unfoldable pub type_text : PromptFlags → ℕ → Cursor → ℕ → Outcome
unfolding wrap_word split_word
type_text flags len z c =
    if flags.prompt_file && (c == b'/' || (c == 92))
    then editing z
    else if not (length z.left + length z.right == len)
    then (if ltb 31 c then editing (record { left = c ∷ z.left; right = z.right }) else editing z)
    else if flags.prompt_wrap && (length z.right == 0)
    then wrap_word z c (split_word z.left [])
    else editing z

-- What a key does to a line.
unfoldable pub edit_text : PromptFlags → ℕ → Cursor → ℕ → Outcome
unfolding type_text delete_left move_left move_right
edit_text flags len z c =
    if c == 13 || (c == 10)
    then text_entered (whole z.left z.right) []
    else if c == 8 || (c == 127)
    then editing (delete_left z)
    else if c == 253
    then editing (move_left z)
    else if c == 252
    then editing (move_right z)
    else if c == 250 || (c == 251) || (c == 0)
    then editing z
    else type_text flags len z c

unfoldable pub session : PromptFlags → ℕ → Outcome → List ℕ → Option (Str × Str)
unfolding edit_text
session flags len (text_entered text next) keys = some (text, next)
session flags len (editing z) [] = none
session flags len (editing z) (c ∷ keys) = session flags len (edit_text flags len z c) keys

-- The cursor behind a text.
abbrev pub start : Str → Outcome
start s = editing (record { left = whole s []; right = [] })

abbrev pub keep_next : Str → Option (Str × Str) → Option (Str × Str)
keep_next next none = none
keep_next next (some (s, _)) = some (s, next)

-- A prompt for a text, with the word that was wrapped before.
unfoldable pub prompt_text : PromptFlags → ℕ → Str → Str → List ℕ → Option (Str × Str)
unfolding session
prompt_text flags len s [] keys = session flags len (start s) keys
prompt_text flags len s (c ∷ next) keys =
    if flags.prompt_wrap
    then session flags len (start (take (len - 1) (c ∷ next))) keys
    else keep_next (c ∷ next) (session flags len (start s) keys)

-- The bytes before the cursor, last byte first, and those from `k` on.
abbrev pub Before : Memory → Str → Type 0
Before b [] = Unit
Before b (c ∷ s) = (b (length s) ≡ c) × Before b s

abbrev pub After : Memory → ℕ → Str → Type 0
After b k [] = Unit
After b k (c ∷ s) = (b k ≡ c) × After b (suc k) s

-- No byte of a text ends it.
abbrev pub NoNul : Str → Type 0
NoNul = All λ c. c ≢ 0

-- The buffer holds the text as a C string.
abbrev pub Holds : Memory → Str → Type 0
Holds b s = After b 0 s × NoNul s × (b (length s) ≡ 0)

-- The buffer holds the line; the byte behind the longest line is NUL, and those behind it are the ones
-- of `outer`.
pub record Shows (outer : Memory) (len : ℕ) (b : Memory) (left right : Str) : Type 0 where
  pub before : Before b left
  pub after : After b (length left) right
  pub fits : length left + length right ≤ len
  pub left_text : NoNul left
  pub right_text : NoNul right
  pub ended : b len ≡ 0
  pub beyond : (x : ℕ) → len < x → b x ≡ outer x

-- The variables for such a buffer.
abbrev pub line : Memory → Str → Str → Line
line b left right = record { buffer = b; i = length left + length right; j = length left }

-- Bytes that agree show the same text.
pub Before-ext :
    (b b' : Memory) (s : Str) → ((x : ℕ) → x < length s → b' x ≡ b x) → Before b s → Before b' s
Before-ext b b' [] e h = tt
Before-ext b b' (c ∷ s) e h =
    (e (length s) (omega arith) ∙ h.0, Before-ext b b' s (λ x lt. e x (omega arith)) h.1)

-- A text that moves from `k` to `k'` with its bytes.
pub After-ext :
    (b b' : Memory) (k k' : ℕ) (s : Str)
    → ((x y : ℕ) → k ≤ x → x < k + length s → x + k' ≡ y + k → b' y ≡ b x)
    → After b k s
    → After b' k' s
After-ext b b' k k' [] e h = tt
After-ext b b' k k' (c ∷ s) e h = (
  e k k' (omega arith) (omega arith) (omega arith) ∙ h.0,
  After-ext b b' (suc k) (suc k') s
      (λ x y low high same. e x y (omega arith) (omega arith) (omega arith)) h.1,
)

pub After-ne-zero :
    (b : Memory) (k : ℕ) (s : Str)
    → After b k s
    → NoNul s
    → (x : ℕ) → k ≤ x
    → x < k + length s
    → b x ≢ 0
After-ne-zero b k [] h n x low high = absurd (omega arith)
After-ne-zero b k (c ∷ s) h n x low high = elim (Bool-cases (x == k)) [
  | inl e ↦ λ z. n.0 (sym h.0 ∙ ap b (sym (==→eq x k e)) ∙ z)
  | inr e ↦ After-ne-zero b (suc k) s h.1 n.1 x (ground arith) (omega arith)
]

-- The two parts of a line make up its text.
pub After-whole :
    (b : Memory) (left right : Str)
    → Before b left
    → After b (length left) right
    → After b 0 (whole left right)
After-whole b [] right h k = k
After-whole b (c ∷ left) right h k = After-whole b left (c ∷ right) h.1 (h.0, k)

pub length-whole : (left right : Str) → length (whole left right) ≡ length left + length right
length-whole [] right = omega arith
length-whole (c ∷ left) right = omega (arith, length-whole left (c ∷ right))

pub NoNul-whole : (left right : Str) → NoNul left → NoNul right → NoNul (whole left right)
NoNul-whole [] right h k = k
NoNul-whole (c ∷ left) right h k = NoNul-whole left (c ∷ right) h.1 (h.0, k)
