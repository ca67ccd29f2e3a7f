-- ===== src/Prompt.antt =====
-- Line input, `Prompt` of main/prompt.c, over the keys that `HotKey` returns with HOT_CURSOR; at the end of
-- the list the carrier is lost. The flag PROMPT_MAIN (history, messages, hot keys) and the echo are left out.
pub mod Cursor
pub mod Bytes
pub mod Steps
pub mod Session
pub mod Whole
pub mod Wrap
mod Tests
use daydream.Base.{
  ℕ, zero, suc, ◌+◌, ◌-◌, Bool, true, false, ◌&&◌, ◌||◌, List, [], ◌∷◌, ◌++◌, Option, none, some,
  ltb, ◌==◌, if◌then◌else◌, take, length, not,
}
use daydream.Base.CString.{Str}

-- The bytes from the start of the buffer on.
abbrev pub Memory : Type 0
Memory = ℕ → ℕ

unfoldable pub write : Memory → ℕ → ℕ → Memory
write b k v = λ x. if x == k then v else b x

-- The local variables: `i` is the length of the line, `j` the place of the cursor.
pub record Line : Type 0 where
  pub buffer : Memory
  pub i : ℕ
  pub j : ℕ

pub record PromptFlags : Type 0 where
  pub prompt_file : Bool
  pub prompt_wrap : Bool

-- `strlcpy(&b[d], &b[d + 1], n + 1)`, which copies upwards.
unfoldable pub copy_down : ℕ → Memory → ℕ → Memory
unfolding write
copy_down zero b d = write b d 0
copy_down (suc n) b d =
    let rest = copy_down n (write b d (b (suc d))) (suc d) in
    if b (suc d) == 0 then write b d 0 else rest

-- `while (kalake != j)`, with the number of rounds.
unfoldable pub shift_up : ℕ → Memory → ℕ → Memory
unfolding write
shift_up zero b kalake = b
shift_up (suc n) b kalake = shift_up n (write b kalake (b (kalake - 1))) (kalake - 1)

-- The string at `k`, at most `n` bytes of it.
unfoldable pub string_at : ℕ → Memory → ℕ → Str
string_at zero b k = []
string_at (suc n) b k = if b k == 0 then [] else b k ∷ string_at n b (suc k)

unfoldable pub insert_key : Line → ℕ → Line
unfolding shift_up write
insert_key l pala =
    if l.i == l.j
    then record { buffer = write l.buffer l.j pala; i = suc l.i; j = l.j + 1 }
    else record {
      buffer = write (shift_up (l.i - l.j) (write l.buffer (suc l.i) 0) l.i) l.j pala;
      i = suc l.i;
      j = suc l.j;
    }

unfoldable pub backspace : ℕ → Line → Line
unfolding copy_down write
backspace len l =
    if l.j == 0
    then l
    else if l.i == l.j
    then record { buffer = write l.buffer (l.i - 1) 0; i = l.i - 1; j = l.j - 1 }
    else record { buffer = copy_down (len - 1) l.buffer (l.j - 1); i = l.i - 1; j = l.j - 1 }

-- `while (s != buffer)`: the last space, the first byte not looked at.
unfoldable pub last_space : Memory → ℕ → Option ℕ
last_space b zero = none
last_space b (suc s) = if b (suc s) == 32 then some (suc s) else last_space b s

-- The line goes on, or is entered, with what is left in `wrapbuf`.
pub data Typed : Type 0 where
  going : Line → Typed
  entered : Memory → Str → Typed

unfoldable pub wrap_line : Line → ℕ → Option ℕ → Typed
unfolding write string_at
wrap_line l pala none = going l
wrap_line l pala (some s) =
    entered (write l.buffer s 0) (take 79 (string_at 79 (write l.buffer s 0) (suc s) ++ pala ∷ []))

-- The last case of the `switch`.
unfoldable pub type_key : PromptFlags → ℕ → Line → ℕ → Typed
unfolding insert_key wrap_line last_space
type_key flags len l pala =
    if flags.prompt_file && (pala == b'/' || (pala == 92))
    then going l
    else if not (l.i == len)
    then (if ltb 31 pala then going (insert_key l pala) else going l)
    else if flags.prompt_wrap && (l.i == l.j)
    then wrap_line l pala (last_space l.buffer l.j)
    else going l

-- The `switch`.
unfoldable pub edit : PromptFlags → ℕ → Line → ℕ → Typed
unfolding type_key backspace write
edit flags len l pala =
    if pala == 13 || (pala == 10)
    then entered (write l.buffer l.i 0) []
    else if pala == 8 || (pala == 127)
    then going (backspace len l)
    else if pala == 253
    then (if l.j == 0 then going l else going (record l { j = l.j - 1 }))
    else if pala == 252
    then (if l.j == l.i then going l else going (record l { j = suc l.j }))
    else if pala == 250 || (pala == 251) || (pala == 0)
    then going l
    else type_key flags len l pala

-- `while (jatka)`; `none` is the return value 0.
unfoldable pub prompt_loop : PromptFlags → ℕ → Typed → List ℕ → Option (Memory × Str)
unfolding edit
prompt_loop flags len (entered b wrapbuf) keys = some (b, wrapbuf)
prompt_loop flags len (going l) [] = none
prompt_loop flags len (going l) (pala ∷ keys) = prompt_loop flags len (edit flags len l pala) keys

-- `strlcpy(buffer, s, len)`
unfoldable pub copy_in : ℕ → Memory → ℕ → Str → Memory
unfolding write
copy_in zero b k s = write b k 0
copy_in (suc n) b k [] = write b k 0
copy_in (suc n) b k (c ∷ s) = copy_in n (write b k c) (suc k) s

-- A prompt without PROMPT_WRAP leaves `wrapbuf` alone.
unfoldable pub with_wrapbuf : Str → Option (Memory × Str) → Option (Memory × Str)
with_wrapbuf wrapbuf none = none
with_wrapbuf wrapbuf (some (b, _)) = some (b, wrapbuf)

-- What follows the test of `bgmode`, with what `wrapbuf` holds, for a buffer that holds a text of `held` bytes.
unfoldable pub prompt_line : PromptFlags → ℕ → Memory → ℕ → Str → List ℕ → Option (Memory × Str)
unfolding prompt_loop copy_in with_wrapbuf
prompt_line flags len b held [] keys =
    prompt_loop flags len (going (record { buffer = b; i = held; j = held })) keys
prompt_line flags len b held (c ∷ wrapbuf) keys =
    if flags.prompt_wrap
    then prompt_loop flags len
        (going (record {
          buffer = copy_in (len - 1) b 0 (c ∷ wrapbuf);
          i = length (take (len - 1) (c ∷ wrapbuf));
          j = length (take (len - 1) (c ∷ wrapbuf));
        }))
        keys
    else with_wrapbuf (c ∷ wrapbuf)
        (prompt_loop flags len (going (record { buffer = b; i = held; j = held })) keys)

-- `Prompt(buffer, len, flags)`; `bgmode` says that there is no caller.
unfoldable pub prompt : Bool → PromptFlags → ℕ → Memory → ℕ → Str → List ℕ → Option (Memory × Str)
unfolding prompt_line
prompt bgmode flags len b held wrapbuf keys =
    let asked = prompt_line flags len b held wrapbuf keys in if bgmode then none else asked
