-- ===== src/Stream.antt =====
-- Whole transfers over calls that move a part, `safe_read` and `safe_write` of lib/libddcommon.c. What the
-- calls of `read` and `write` return is given as a list; if it ends first, the loop is still going.
pub mod Whole
mod Tests
use daydream.Base.{ℕ, zero, suc, ◌-◌, List, [], ◌∷◌, ◌++◌, length, take, drop, min}
use daydream.Base.CString.{Str}

-- What a call returns: -1 with EINTR, -1 with another error, or a count. A call moves no more than was
-- asked for, and a `read` no more than there is.
pub data Call : Type 0 where
  interrupted failed : Call
  moved : ℕ → Call

-- The loop has returned the bytes moved with what is left of the source, returned -1, or not returned.
pub data Transfer : Type 0 where
  finished : Str → Transfer
  refused unfinished : Transfer

-- `sent` are the bytes written before.
unfoldable pub write_loop : Str → List Call → Str → Transfer
write_loop sent calls [] = finished sent
write_loop sent [] (c ∷ buf) = unfinished
write_loop sent (interrupted ∷ calls) (c ∷ buf) = write_loop sent calls (c ∷ buf)
write_loop sent (failed ∷ calls) (c ∷ buf) = refused
write_loop sent (moved n ∷ calls) (c ∷ buf) =
    write_loop (sent ++ take n (c ∷ buf)) calls (drop n (c ∷ buf))

unfoldable pub safe_write : List Call → Str → Transfer
unfolding write_loop
safe_write calls buf = write_loop [] calls buf

-- `got` are the bytes read before, `source` the bytes behind them; `buflen` more are asked for.
unfoldable pub read_loop : Str → List Call → Str → ℕ → Transfer
read_loop got calls source zero = finished got
read_loop got [] source (suc buflen) = unfinished
read_loop got (interrupted ∷ calls) source (suc buflen) = read_loop got calls source (suc buflen)
read_loop got (failed ∷ calls) source (suc buflen) = refused
read_loop got (moved n ∷ calls) source (suc buflen) =
    let piece = take (min n (suc buflen)) source in
    read_loop (got ++ piece) calls (drop (length piece) source) (suc buflen - length piece)

unfoldable pub safe_read : List Call → Str → ℕ → Transfer
unfolding read_loop
safe_read calls source buflen = read_loop [] calls source buflen
