-- ===== src/Stream/Whole.antt =====
-- When the transfers return, and with what.
use daydream.Base.{
  ℕ, zero, suc, ◌-◌, ◌≤◌, ◌<◌, ◌≡◌, ap, sym, ◌∙◌, ◌≢◌, List, [], ◌∷◌, ◌++◌, arith, length, take,
  drop, min, length-take, length-drop, take-append-drop,
}
use mathlib.Core.List.{append-nil, append_assoc}
use daydream.Base.CString.{Str}
use daydream.Stream.{
  Call, interrupted, failed, moved, finished, write_loop, safe_write, read_loop, safe_read,
}

-- No call fails.
abbrev pub NoneFails : List Call → Type 0
NoneFails [] = Unit
NoneFails (interrupted ∷ calls) = NoneFails calls
NoneFails (failed ∷ calls) = ⊥
NoneFails (moved n ∷ calls) = NoneFails calls

-- The calls that move a byte at least.
abbrev pub moves : List Call → ℕ
moves [] = 0
moves (interrupted ∷ calls) = moves calls
moves (failed ∷ calls) = moves calls
moves (moved zero ∷ calls) = moves calls
moves (moved (suc n) ∷ calls) = suc (moves calls)

-- A piece and the rest of the buffer behind what was sent.
sent-piece : (sent buf : Str) (n : ℕ) → (sent ++ take n buf) ++ drop n buf ≡ sent ++ buf
sent-piece sent buf n =
    append_assoc sent (take n buf) (drop n buf) ∙ ap (λ t. sent ++ t) (take-append-drop n buf)

write_loop-finished :
    (sent : Str) (calls : List Call) (buf : Str)
    → NoneFails calls
    → length buf ≤ moves calls
    → write_loop sent calls buf ≡ finished (sent ++ buf)
unfolding write_loop
write_loop-finished sent calls [] h m = ap finished (sym (append-nil sent))
write_loop-finished sent [] (c ∷ buf) h m = absurd (omega arith)
write_loop-finished sent (interrupted ∷ calls) (c ∷ buf) h m =
    write_loop-finished sent calls (c ∷ buf) h m
write_loop-finished sent (failed ∷ calls) (c ∷ buf) h m = absurd h
write_loop-finished sent (moved zero ∷ calls) (c ∷ buf) h m =
    write_loop-finished (sent ++ []) calls (c ∷ buf) h m ∙ ap finished (sent-piece sent (c ∷ buf) 0)
write_loop-finished sent (moved (suc n) ∷ calls) (c ∷ buf) h m =
    write_loop-finished (sent ++ take (suc n) (c ∷ buf)) calls (drop (suc n) (c ∷ buf)) h
      (omega (arith, length-drop (suc n) (c ∷ buf)))
    ∙ ap finished (sent-piece sent (c ∷ buf) (suc n))

-- `safe_write` writes the whole buffer, in order, across short writes and interruptions, if no call
-- fails and there are as many calls that write something as there are bytes.
pub safe_write-finished :
    (calls : List Call) (buf : Str)
    → NoneFails calls
    → length buf ≤ moves calls
    → safe_write calls buf ≡ finished buf
unfolding safe_write
safe_write-finished calls buf h m = write_loop-finished [] calls buf h m

read_loop-short :
    (got : Str) (calls : List Call) (source : Str) (buflen : ℕ) (result : Str)
    → length source < buflen
    → read_loop got calls source buflen ≢ finished result
unfolding read_loop
read_loop-short got calls source zero result h = absurd (omega arith)
read_loop-short got [] source (suc buflen) result h = λ e. ground arith
read_loop-short got (interrupted ∷ calls) source (suc buflen) result h =
    read_loop-short got calls source (suc buflen) result h
read_loop-short got (failed ∷ calls) source (suc buflen) result h = λ e. ground arith
read_loop-short got (moved n ∷ calls) source (suc buflen) result h =
    let piece = take (min n (suc buflen)) source in
    read_loop-short (got ++ piece) calls (drop (length piece) source) (suc buflen - length piece)
      result
      (omega (arith, length-take (min n (suc buflen)) source, length-drop (length piece) source))

-- `safe_read` never returns a count if the file has fewer bytes left than were asked for, whatever the
-- calls of `read` return: at the end of the file they return 0, and the loop goes on.
safe_read-short :
    (calls : List Call) (source : Str) (buflen : ℕ) (result : Str)
    → length source < buflen
    → safe_read calls source buflen ≢ finished result
unfolding safe_read
safe_read-short calls source buflen result h = read_loop-short [] calls source buflen result h
