-- ===== src/Prompt/Whole.antt =====
-- The prompt from its call to its return, and the wrapped word.
use daydream.Base.{
  ℕ, zero, suc, ◌+◌, ◌-◌, ◌≤◌, ◌<◌, ◌≡◌, refl, sym, ◌∙◌, Bool, true, false, List, [], ◌∷◌, Option,
  none, some, arith, length, take, if◌then◌else◌, length-take,
}
use mathlib.Core.Path.{subst}
use daydream.Base.CString.{Str}
use daydream.Prompt.{
  Memory, write, copy_in, PromptFlags, Typed, going, entered, edit, prompt_loop, prompt_line,
  prompt, with_wrapbuf,
}
use daydream.Prompt.Bytes.{write-eq, write-ne}
use daydream.Prompt.Session.{WrapsWithin, Agrees, edit-Agrees}
use daydream.Prompt.Cursor.{
  Outcome, editing, text_entered, whole, edit_text, session, start, keep_next, prompt_text, Before,
  After, NoNul, Holds, length-whole, NoNul-whole,
}

module _ (outer : Memory) (len : ℕ) where
  -- Both return 0, or the buffer holds the text that is entered, `wrapbuf` the same, and the bytes behind
  -- `len` are those of `outer`.
  abbrev pub Returns : Option (Memory × Str) → Option (Str × Str) → Type 0
  Returns none none = Unit
  Returns none (some p) = ⊥
  Returns (some p) none = ⊥
  Returns (some (b, w)) (some (s, w')) = Holds b s × (w ≡ w') × ((x : ℕ) → len < x → b x ≡ outer x)

  prompt_loop-Returns :
      (flags : PromptFlags) (l : Typed) (o : Outcome) (keys : List ℕ)
      → WrapsWithin flags len
      → Agrees outer len l o
      → Returns (prompt_loop flags len l keys) (session flags len o keys)
  unfolding prompt_loop session
  prompt_loop-Returns flags (going l) (editing z) [] small h = tt
  prompt_loop-Returns flags (going l) (editing z) (c ∷ keys) small (b, same, shown) =
      prompt_loop-Returns flags (edit flags len l c) (edit_text flags len z c) keys small (
        subst (λ l. Agrees outer len (edit flags len l c) (edit_text flags len z c)) (sym same)
          (edit-Agrees outer len flags b z.left z.right c small shown))
  prompt_loop-Returns flags (going l) (text_entered s w) keys small h = absurd h
  prompt_loop-Returns flags (entered b w) (editing z) keys small h = absurd h
  prompt_loop-Returns flags (entered b w) (text_entered s w') keys small h = h

  Before-whole :
      (b : Memory) (s left : Str)
      → Before b left
      → After b (length left) s
      → Before b (whole s left)
  Before-whole b [] left h k = h
  Before-whole b (c ∷ s) left h k = Before-whole b s (c ∷ left) (k.0, h) k.1

  -- A prompt that starts behind a text.
  start-Returns :
      (flags : PromptFlags) (b : Memory) (s : Str) (keys : List ℕ)
      → WrapsWithin flags len
      → After b 0 s
      → NoNul s
      → length s ≤ len
      → b len ≡ 0
      → ((x : ℕ) → len < x → b x ≡ outer x)
      → Returns
          (prompt_loop flags len (going (record { buffer = b; i = length s; j = length s })) keys)
          (session flags len (start s) keys)
  start-Returns flags b s keys small text plain fits ended beyond =
      let same : length (whole s []) ≡ length s = omega (arith, length-whole s []) in
      prompt_loop-Returns flags (going (record { buffer = b; i = length s; j = length s }))
        (start s) keys small
        (
          b,
          ground (arith, same),
          record {
            before = Before-whole b s [] tt text;
            after = tt;
            fits = omega (arith, same);
            left_text = NoNul-whole s [] plain tt;
            right_text = tt;
            ended = ended;
            beyond = beyond;
          },
        )

copy_in-above : (n : ℕ) (b : Memory) (k x : ℕ) (s : Str) → k + n < x → copy_in n b k s x ≡ b x
unfolding copy_in
copy_in-above zero b k x s h = write-ne b k 0 x (omega arith)
copy_in-above (suc n) b k x [] h = write-ne b k 0 x (omega arith)
copy_in-above (suc n) b k x (c ∷ s) h =
    copy_in-above n (write b k c) (suc k) x s (omega arith) ∙ write-ne b k c x (omega arith)

copy_in-below : (n : ℕ) (b : Memory) (k x : ℕ) (s : Str) → x < k → copy_in n b k s x ≡ b x
unfolding copy_in
copy_in-below zero b k x s h = write-ne b k 0 x (omega arith)
copy_in-below (suc n) b k x [] h = write-ne b k 0 x (omega arith)
copy_in-below (suc n) b k x (c ∷ s) h =
    copy_in-below n (write b k c) (suc k) x s (omega arith) ∙ write-ne b k c x (omega arith)

copy_in-After : (n : ℕ) (b : Memory) (k : ℕ) (s : Str) → After (copy_in n b k s) k (take n s)
unfolding copy_in
copy_in-After zero b k s = tt
copy_in-After (suc n) b k [] = tt
copy_in-After (suc n) b k (c ∷ s) = (
  copy_in-below n (write b k c) (suc k) k s (omega arith) ∙ write-eq b k c,
  copy_in-After n (write b k c) (suc k) s,
)

NoNul-take : (n : ℕ) (s : Str) → NoNul s → NoNul (take n s)
NoNul-take zero s h = tt
NoNul-take (suc n) [] h = tt
NoNul-take (suc n) (c ∷ s) h = (h.0, NoNul-take n s h.1)

if-Returns :
    (outer : Memory) (len : ℕ) (c : Bool) (p q : Option (Memory × Str)) (p' q' : Option (Str × Str))
    → Returns outer len p p'
    → Returns outer len q q'
    → Returns outer len (if c then p else q) (if c then p' else q')
if-Returns outer len true p q p' q' h k = h
if-Returns outer len false p q p' q' h k = k

with_wrapbuf-Returns :
    (outer : Memory) (len : ℕ) (w : Str) (r : Option (Memory × Str)) (t : Option (Str × Str))
    → Returns outer len r t
    → Returns outer len (with_wrapbuf w r) (keep_next w t)
unfolding with_wrapbuf
with_wrapbuf-Returns outer len w none none h = tt
with_wrapbuf-Returns outer len w none (some p) h = absurd h
with_wrapbuf-Returns outer len w (some p) none h = absurd h
with_wrapbuf-Returns outer len w (some p) (some q) h = (h.0, refl, h.2)

prompt_line-prompt_text :
    (flags : PromptFlags) (len : ℕ) (b : Memory) (s wrapbuf : Str) (keys : List ℕ)
    → 0 < len
    → WrapsWithin flags len
    → Holds b s
    → length s ≤ len
    → b len ≡ 0
    → NoNul wrapbuf
    → Returns b len
        (prompt_line flags len b (length s) wrapbuf keys)
        (prompt_text flags len s wrapbuf keys)
unfolding prompt_line prompt_text
prompt_line-prompt_text flags len b s [] keys low small (text, plain, _) fits ended next =
    start-Returns b len flags b s keys small text plain fits ended (λ x lt. refl)
prompt_line-prompt_text flags len b s (c ∷ w) keys low small (text, plain, _) fits ended next =
    if-Returns b len flags.prompt_wrap _ _ _ _
      (start-Returns b len flags (copy_in (len - 1) b 0 (c ∷ w)) (take (len - 1) (c ∷ w)) keys small
        (copy_in-After (len - 1) b 0 (c ∷ w)) (NoNul-take (len - 1) (c ∷ w) next)
        (omega (arith, length-take {0} (len - 1) (c ∷ w)))
        (copy_in-above (len - 1) b 0 len (c ∷ w) (omega arith) ∙ ended)
        (λ x lt. copy_in-above (len - 1) b 0 x (c ∷ w) (omega arith)))
      (with_wrapbuf-Returns b len (c ∷ w)
        (prompt_loop flags len (going (record { buffer = b; i = length s; j = length s })) keys)
        (session flags len (start s) keys)
        (start-Returns b len flags b s keys small text plain fits ended (λ x lt. refl)))

-- `Prompt` is an editor of a line with a cursor: for a buffer that holds a text of at most `len` bytes, with
-- NUL at `len`, and any keys, it returns 0 or leaves the text that the editor gives, as a C string, and the
-- start of the next line in `wrapbuf`; no byte behind `len` changes. `len` is positive, and with PROMPT_WRAP
-- below 80, as `wrapbuf` has 80 bytes; where the program runs without a caller, it returns 0.
pub prompt-prompt_text :
    (bgmode : Bool) (flags : PromptFlags) (len : ℕ) (b : Memory) (s wrapbuf : Str) (keys : List ℕ)
    → 0 < len
    → WrapsWithin flags len
    → Holds b s
    → length s ≤ len
    → b len ≡ 0
    → NoNul wrapbuf
    → Returns b len
        (prompt bgmode flags len b (length s) wrapbuf keys)
        (if bgmode then none else prompt_text flags len s wrapbuf keys)
unfolding prompt
prompt-prompt_text bgmode flags len b s wrapbuf keys low small holds fits ended next =
    if-Returns b len bgmode _ _ _ _ tt
      (prompt_line-prompt_text flags len b s wrapbuf keys low small holds fits ended next)
