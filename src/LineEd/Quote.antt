-- ===== src/LineEd/Quote.antt =====
-- A reply: the line editor starts with the lines of the message that is answered.
use daydream.Base.{
  ℕ, suc, ◌+◌, ◌-◌, ◌*◌, ◌%◌, ◌≤◌, ◌<◌, ◌≡◌, refl, sym, ap, ◌∙◌, true, false, ◌||◌, List, [], ◌∷◌,
  Option, none, some, arith, length, take, All, ◌==◌, leb, length-take,
}
use mathlib.Core.Path.{subst}
use daydream.Base.CString.{Str}
use daydream.LineEd.{Rows, put, quote_lines, quote, next_row, edit_loop, lineed, Editing}
use daydream.LineEd.Rows.{lines_from, put-eq, put-ne, take-lines_from}
use daydream.LineEd.Draft.{draft_loop, next_line}
use daydream.LineEd.Commands.{Agrees, Holds, next_row-Agrees}
use daydream.LineEd.Session.{edit_loop-Agrees}

abbrev filled : Rows → ℕ → List Str → Rows
filled rows k [] = rows
filled rows k (l ∷ ls) = filled (put rows k l) (suc k) ls

quote_lines-filled :
    (rows : Rows) (k bufsize count : ℕ) (ls : List Str)
    → 80 * length ls ≤ bufsize
    → All (λ l. length l < 78) ls
    → quote_lines rows k bufsize count ls ≡ (filled rows k ls, some (count + length ls))
unfolding quote_lines
quote_lines-filled rows k bufsize count [] fits short = ground arith
quote_lines-filled rows k bufsize count (l ∷ ls) fits (h, short) =
    let rest =
      quote_lines-filled (put rows k l) (suc k) (bufsize - 80) (suc count) ls (omega arith) short in
    let room : (bufsize == 0 || leb bufsize (length l)) ≡ false = ground arith in
    let size : suc count + length ls ≡ count + suc (length ls) = omega arith in
    rw room (rest ∙ ap (λ n. (filled (put rows k l) (suc k) ls, some n)) size)

filled-below : (rows : Rows) (k x : ℕ) (ls : List Str) → x < k → filled rows k ls x ≡ rows x
filled-below rows k x [] h = refl
filled-below rows k x (l ∷ ls) h =
    filled-below (put rows k l) (suc k) x ls (omega arith) ∙ put-ne rows k x l (omega arith)

lines_from-filled :
    (rows : Rows) (k : ℕ) (ls : List Str) → lines_from (filled rows k ls) k (length ls) ≡ ls
lines_from-filled rows k [] = refl
lines_from-filled rows k (l ∷ ls) =
    let head : filled (put rows k l) (suc k) ls k ≡ l =
      filled-below (put rows k l) (suc k) k ls (omega arith) ∙ put-eq rows k l in
    cc (head, lines_from-filled (put rows k l) (suc k) ls)

quote-filled :
    (buffer : Rows) (bufsize : ℕ) (q : Str) (qs : List Str)
    → bufsize % 80 ≡ 0
    → 80 * length (q ∷ qs) ≤ bufsize
    → All (λ l. length l < 78) (q ∷ qs)
    → quote (some (q ∷ qs)) buffer 0 bufsize ≡ (filled buffer 0 (q ∷ qs), some (suc (length qs)))
unfolding quote
quote-filled buffer bufsize q qs whole fits short = rw whole (
    quote_lines-filled buffer 0 bufsize 0 (q ∷ qs) fits short
    ∙ ap (λ n. (filled buffer 0 (q ∷ qs), some n)) (omega arith))

-- A reply starts with the quoted lines but the last, which the first line typed overwrites: for a message
-- of 1 to 495 lines of at most 77 bytes that fit the buffer, of whole rows, the line editor goes on as the
-- editor of a list of lines does from these.
pub lineed-quoted :
    (cfg_lineedchar screen : ℕ) (buffer : Rows) (bufsize : ℕ) (q : Str) (qs : List Str)
    (keys : List ℕ) (answers : List Str)
    → bufsize % 80 ≡ 0
    → 80 * length (q ∷ qs) ≤ bufsize
    → length (q ∷ qs) ≤ 495
    → All (λ l. length l < 78) (q ∷ qs)
    → Agrees
        (lineed (some (q ∷ qs)) cfg_lineedchar screen buffer bufsize true keys answers)
        (draft_loop cfg_lineedchar screen (next_line (take (length qs) (q ∷ qs)) keys) answers)
unfolding lineed quote
lineed-quoted cfg_lineedchar screen buffer bufsize q qs keys answers whole fits few short =
    let file : Option (List Str) = some (q ∷ qs) in
    let text : List Str = take (length qs) (q ∷ qs) in
    let e : Editing = record {
      rows = filled buffer 0 (q ∷ qs);
      row = some (suc (length qs));
      s = none;
      keys = keys;
    } in
    let size : length qs ≡ length text = omega (arith, length-take (length qs) (q ∷ qs)) in
    let read : quote file buffer 0 bufsize ≡ (e.rows, some (suc (length qs))) =
      quote-filled buffer bufsize q qs whole fits short in
    let lines : lines_from e.rows 0 (length qs) ≡ text =
      sym (take-lines_from e.rows 0 (length qs) (suc (length qs)) (omega arith))
      ∙ ap (take (length qs)) (lines_from-filled buffer 0 (q ∷ qs)) in
    let start : Holds e text keys = record {
      next = ap (λ n. some (suc n)) size;
      lines = subst (λ n. lines_from e.rows 0 n ≡ text) size lines;
      small = omega (arith, size);
      same_keys = refl;
    } in
    let turn : Agrees (next_row e (some (suc (length qs)))) (next_line text keys) =
      subst (λ n. Agrees (next_row e (some (suc n))) (next_line text keys)) (sym size)
        (next_row-Agrees e text keys start) in
    subst
      (λ r.
        Agrees
          (edit_loop file cfg_lineedchar screen
            (next_row (record { rows = r.0; row = r.1; s = none; keys = keys }) r.1) answers)
          (draft_loop cfg_lineedchar screen (next_line text keys) answers))
      (sym read)
      (edit_loop-Agrees file cfg_lineedchar screen (next_row e (some (suc (length qs))))
        (next_line text keys) answers turn)
