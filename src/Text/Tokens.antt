-- ===== src/Text/Tokens.antt =====
-- `strtoken` and `strspa` of main/misc.c split a text at white space; the loop over `strspa` that
-- their callers run (main/tagedit.c, main/olm.c) reads the words of a line.
use daydream.Base.{
  ℕ, zero, suc, ◌≤◌, ◌<◌, ◌≡◌, refl, ap, true, false, List, [], ◌∷◌, ◌++◌, Option, none, some,
  arith, length, All,
}
use daydream.Base.CString.{Str, isspace}
use daydream.Text.{space, skip_spaces, split_token, strspa}

abbrev pub AllSpace : Str → Type 0
AllSpace = All λ c. isspace c ≡ true

abbrev pub NoSpace : Str → Type 0
NoSpace = All λ c. isspace c ≡ false

-- A word: at least one byte, and no white space.
abbrev pub IsWord : Str → Type 0
IsWord [] = ⊥
IsWord (c ∷ w) = NoSpace (c ∷ w)

-- The text ends, or goes on with white space.
abbrev pub IsBreak : Str → Type 0
IsBreak [] = Unit
IsBreak (c ∷ r) = isspace c ≡ true

skip_spaces-append : (ws s : Str) → AllSpace ws → skip_spaces (ws ++ s) ≡ skip_spaces s
unfolding skip_spaces
skip_spaces-append [] s h = refl
skip_spaces-append (c ∷ ws) s h = ground (arith, skip_spaces-append ws s h.1)

skip_spaces-word : (w r : Str) → IsWord w → skip_spaces (w ++ r) ≡ w ++ r
unfolding skip_spaces
skip_spaces-word [] r h = absurd h
skip_spaces-word (c ∷ w) r h = ground arith

split_token-append : (w r : Str) → NoSpace w → IsBreak r → split_token (w ++ r) ≡ (w, r)
unfolding split_token
split_token-append [] [] h b = refl
split_token-append [] (c ∷ r) h b = ground arith
split_token-append (c ∷ w) r h b = ground (arith, split_token-append w r h.1 b)

skip_spaces-blank : (ws : Str) → AllSpace ws → skip_spaces ws ≡ []
unfolding skip_spaces
skip_spaces-blank [] h = refl
skip_spaces-blank (c ∷ ws) h = ground (arith, skip_spaces-blank ws h.1)

NoSpace-of_word : (w : Str) → IsWord w → NoSpace w
NoSpace-of_word [] h = absurd h
NoSpace-of_word (c ∷ w) h = h

-- Behind white space, a word that fits the buffer of `n` bytes is read whole, and the text at its
-- end is returned.
pub strspa-word :
    (n : ℕ) (ws w r : Str)
    → AllSpace ws
    → IsWord w
    → IsBreak r
    → length w < n
    → strspa (some (ws ++ (w ++ r))) n ≡ (w, some r)
unfolding strspa
strspa-word n ws [] r h word b fits = absurd word
strspa-word n ws (c ∷ w) r h word b fits = ground (
  arith,
  skip_spaces-append ws (c ∷ w ++ r) h,
  skip_spaces-word (c ∷ w) r word,
  split_token-append (c ∷ w) r word b,
)

-- A word that does not fit the buffer ends the reading.
strspa-long :
    (n : ℕ) (ws w r : Str)
    → AllSpace ws
    → IsWord w
    → IsBreak r
    → n ≤ length w
    → strspa (some (ws ++ (w ++ r))) n ≡ ([], none)
unfolding strspa
strspa-long n ws w r h word b long = ground (
  arith,
  skip_spaces-append ws (w ++ r) h,
  skip_spaces-word w r word,
  split_token-append w r (NoSpace-of_word w word) b,
)

pub strspa-blank : (n : ℕ) (ws : Str) → AllSpace ws → strspa (some ws) n ≡ ([], none)
unfolding strspa split_token
strspa-blank n ws h = ground (arith, skip_spaces-blank ws h)

-- `while ((src = strspa(src, buf, n)))`, with the words that it passes. Each round consumes a byte.
pub next_words : (Str → List Str) → Str × Option Str → List Str
next_words rest (word, none) = []
next_words rest (word, some src) = word ∷ rest src

unfoldable pub words : ℕ → Str → ℕ → List Str
unfolding next_words
words zero src n = []
words (suc fuel) src n = next_words (λ s. words fuel s n) (strspa (some src) n)

-- The words, each behind a space.
abbrev pub spread : List Str → Str
spread [] = []
spread (w ∷ ws) = space ∷ w ++ spread ws

IsBreak-spread : (ws : List Str) → IsBreak (spread ws)
unfolding isspace
IsBreak-spread [] = tt
IsBreak-spread (w ∷ ws) = refl

space_is_space : AllSpace (space ∷ [])
unfolding isspace
space_is_space = (refl, tt)

-- With fuel above the number of words the loop reads back any list of words that fit the buffer.
words-spread :
    (fuel n : ℕ) (ws : List Str)
    → length ws < fuel
    → All (λ w. IsWord w × (length w < n)) ws
    → words fuel (spread ws) n ≡ ws
unfolding words
words-spread zero n ws f h = absurd (omega arith)
words-spread (suc fuel) n [] f h = rw (strspa-blank n [] tt)
words-spread (suc fuel) n (w ∷ ws) f h =
    rw (strspa-word n (space ∷ []) w (spread ws) space_is_space h.0.0 (IsBreak-spread ws) h.0.1)
      (ap (◌∷◌ w) (words-spread fuel n ws (omega arith) h.1))
