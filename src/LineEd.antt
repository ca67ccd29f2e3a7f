-- ===== src/LineEd.antt =====
-- The line editor, `lineed` of main/lineed.c. The buffer is a function from the rows of 80 bytes to the
-- strings they hold. What each call of `Prompt` leaves in its buffer is a list of answers; at its end the
-- carrier is lost. `keys` is what the calls of `HotKey` return, then 0. Output is left out.
pub mod Rows
pub mod Draft
pub mod Commands
pub mod Ranges
pub mod Session
pub mod Quote
mod Tests
use daydream.Base.{
  ℕ, zero, suc, ◌+◌, ◌-◌, ◌%◌, ◌*◌, ◌^◌, Bool, true, false, ◌&&◌, ◌||◌, List, [], ◌∷◌, Option, none,
  some, ltb, leb, ◌==◌, if◌then◌else◌, length,
}
use daydream.Base.CString.{Str, codes, strcase_eq}
use daydream.Text.Numbers.{Uint, aborted, bad, ok, Strtol, strtol, str2uint}

abbrev pub Rows : Type 0
Rows = ℕ → Str

unfoldable pub put : Rows → ℕ → Str → Rows
put rows k s = λ x. if x == k then s else rows x

-- `memmove` of `n` rows.
unfoldable pub move_rows : Rows → ℕ → ℕ → ℕ → Rows
move_rows rows to from n = λ k. if leb to k && ltb k (to + n) then rows (k - to + from) else rows k

-- The calls of `Prompt`, by what is asked for: a row of the text, a command, the two numbers of
-- `delete_lines`, the number and the new text of a row to edit, the place to insert at.
pub data Asked : Type 0 where
  a_line a_command first_row row_number insert_place : Asked
  last_row new_text : ℕ → Asked

-- The local variables; `none` is the row -1. `s` is the row it points to, if it is set.
pub record Editing : Type 0 where
  pub rows : Rows
  pub row : Option ℕ
  pub s : Option ℕ
  pub keys : List ℕ

-- Waiting for an answer, or what happened: 0 for a lost carrier or an abort, the number of rows for a
-- save, a negative number of rows, or a write outside the buffer or `abort`.
pub data Turn : Type 0 where
  waiting : Asked → Editing → Turn
  abandoned negative broken : Turn
  saved : ℕ → Rows → Turn

pub data Letter : Type 0 where
  abort_it commands delete edit resume attach insert list save quote_it other : Letter

unfoldable pub letter_of : Str → Letter
letter_of t =
    if strcase_eq t (codes "a")
    then abort_it
    else if strcase_eq t (codes "c")
    then commands
    else if strcase_eq t (codes "d")
    then delete
    else if strcase_eq t (codes "e")
    then edit
    else if strcase_eq t (codes "r")
    then resume
    else if strcase_eq t (codes "f")
    then attach
    else if strcase_eq t (codes "i")
    then insert
    else if strcase_eq t (codes "l")
    then list
    else if strcase_eq t (codes "s")
    then save
    else if strcase_eq t (codes "q")
    then quote_it
    else other

-- An `int`; `none` is a negative one.
unfoldable pub atoi : Str → Option ℕ
atoi t =
    let n = strtol t in
    let i = (if n.negative then 2 ^ 32 - n.magnitude % 2 ^ 32 else n.magnitude) % 2 ^ 32 in
    if leb (2 ^ 31) i then none else some i

-- The list of `i` rows from row `j` on, with `lcount` rows to the next question, if any: the keys that
-- are left, and the row of `s`.
unfoldable pub listed : ℕ → ℕ → ℕ → Option ℕ → List ℕ → Option ℕ → List ℕ × Option ℕ
listed screen zero j lcount keys s = (keys, s)
listed screen (suc i) j none keys s = listed screen i (suc j) none keys (some j)
listed screen (suc i) j (some zero) keys s = listed screen i (suc j) none keys (some j)
listed screen (suc i) j (some (suc (suc l))) keys s =
    listed screen i (suc j) (some (suc l)) keys (some j)
listed screen (suc i) j (some (suc zero)) [] s = listed screen i (suc j) (some screen) [] (some j)
listed screen (suc i) j (some (suc zero)) (hot ∷ keys) s =
    let every = listed screen i (suc j) none keys (some j) in
    let more = listed screen i (suc j) (some screen) keys (some j) in
    if hot == b'N' || (hot == b'n')
    then (keys, some j)
    else if hot == b'C' || (hot == b'c')
    then every
    else more

-- The end of `delete_lines`: the rows and their number, for two numbers of rows in any order.
unfoldable pub delete_rows : Rows → ℕ → ℕ → ℕ → Rows × ℕ
unfolding move_rows
delete_rows rows nrows first last =
    if ltb last first
    then (move_rows rows (last - 1) first (nrows - first), nrows - (first - last + 1))
    else (move_rows rows (first - 1) last (nrows - last), nrows - (last - first + 1))

-- The loop of `quote`.
unfoldable pub quote_lines : Rows → ℕ → ℕ → ℕ → List Str → Rows × Option ℕ
unfolding put
quote_lines rows buffer bufsize count [] = (rows, some count)
quote_lines rows buffer bufsize count (input ∷ inputs) =
    let rest = quote_lines (put rows buffer input) (suc buffer) (bufsize - 80) (suc count) inputs in
    if bufsize == 0 || leb bufsize (length input) then (rows, none) else rest

-- `quote`, with the lines that `fgetsnolf` gives of the file, if there is one.
unfoldable pub quote : Option (List Str) → Rows → ℕ → ℕ → Rows × Option ℕ
unfolding quote_lines
quote none rows buffer bufsize = (rows, none)
quote (some inputs) rows buffer bufsize =
    if bufsize % 80 == 0 then quote_lines rows buffer bufsize 0 inputs else (rows, none)

-- `while (row != 495)` up to its `Prompt`.
unfoldable pub next_row : Editing → Option ℕ → Turn
unfolding put
next_row e none = broken
next_row e (some zero) = broken
next_row e (some (suc n)) =
    if n == 494
    then waiting a_command e
    else if ltb n 500
    then waiting a_line (record e { rows = put e.rows n []; s = some n })
    else broken

-- `*buffer` for the row before `row`.
unfoldable pub write_row : Editing → Option ℕ → Str → Rows
unfolding put
write_row e none t = e.rows
write_row e (some row) t = put e.rows (row - 1) t

unfoldable pub next_number : Option ℕ → Option ℕ
next_number none = some 0
next_number (some row) = some (suc row)

unfoldable pub line_mark : ℕ → Str
line_mark c = if c == 0 then [] else c ∷ []

unfoldable pub ends_typing : ℕ → Str → Bool
unfolding line_mark strcase_eq
ends_typing cfg_lineedchar [] = true
ends_typing cfg_lineedchar (c ∷ t) = strcase_eq (line_mark cfg_lineedchar) (c ∷ t)

unfoldable pub line_typed : ℕ → Editing → Str → Turn
unfolding ends_typing next_row write_row next_number
line_typed cfg_lineedchar e t =
    if ends_typing cfg_lineedchar t
    then waiting a_command (record e { rows = write_row e e.row t })
    else next_row (record e { rows = write_row e e.row t; row = next_number e.row })
        (next_number e.row)

unfoldable pub sure_abort : Editing → List ℕ → Turn
sure_abort e [] = abandoned
sure_abort e (i ∷ keys) =
    if i == 0 || (i == 1) then abandoned else waiting a_command (record e { keys = keys })

unfoldable pub list_rows : ℕ → Editing → Option ℕ → Turn
unfolding listed
list_rows screen e none = broken
list_rows screen e (some zero) = broken
list_rows screen e (some (suc n)) =
    let (keys, s) = listed screen n 0 (some screen) e.keys e.s in
    waiting a_command (record e { keys = keys; s = s })

unfoldable pub save_rows : Editing → Option ℕ → Turn
save_rows e none = negative
save_rows e (some zero) = negative
save_rows e (some (suc n)) = saved n e.rows

unfoldable pub quote_row : Option (List Str) → Editing → Option ℕ → Turn
unfolding quote
quote_row file e none = broken
quote_row file e (some k) =
    let (rows, row) = quote file e.rows k (length (e.rows k)) in
    waiting a_command (record e { rows = rows; row = row })

unfoldable pub insert_row : Editing → Option ℕ → Turn
insert_row e none = waiting insert_place e
insert_row e (some row) = if ltb row 495 then waiting insert_place e else waiting a_command e

-- The command loop for one command.
unfoldable pub obey : Option (List Str) → ℕ → Letter → Editing → Turn
unfolding sure_abort list_rows save_rows quote_row insert_row next_row
obey file screen abort_it e = sure_abort e e.keys
obey file screen commands e = waiting a_command e
obey file screen delete e = waiting first_row e
obey file screen edit e = waiting row_number e
obey file screen resume e = next_row e e.row
obey file screen attach e = waiting a_command e
obey file screen insert e = insert_row e e.row
obey file screen list e = list_rows screen e e.row
obey file screen save e = save_rows e e.row
obey file screen quote_it e = quote_row file e e.s
obey file screen other e = waiting a_command e

-- A number of `delete_lines`; `abort` is the end for the row -1.
unfoldable pub with_uint : (ℕ → Turn) → Editing → Uint → Turn
with_uint continue e aborted = broken
with_uint continue e bad = waiting a_command e
with_uint continue e (ok n) = continue n

unfoldable pub delete_range : Editing → ℕ → ℕ → ℕ → Turn
unfolding delete_rows
delete_range e nrows first last =
    let (rows, row) = delete_rows e.rows nrows first last in
    waiting a_command (record e { rows = rows; row = some row })

unfoldable pub row_given : Editing → Option ℕ → Str → (ℕ → ℕ → Turn) → Turn
unfolding with_uint str2uint
row_given e none t continue = broken
row_given e (some nrows) t continue = with_uint (continue nrows) e (str2uint t 1 nrows)

unfoldable pub edit_number : Editing → Option ℕ → Option ℕ → Turn
edit_number e none i = waiting a_command e
edit_number e (some row) none = waiting a_command e
edit_number e (some row) (some i) =
    if ltb i 1 || ltb (row - 1) i
    then waiting a_command e
    else waiting (new_text (i - 1)) (record e { s = some (i - 1) })

module _ (file : Option (List Str)) (cfg_lineedchar screen : ℕ) where
  -- What follows an answer, up to the next `Prompt`.
  unfoldable pub answered : Asked → Editing → Str → Turn
  unfolding line_typed obey letter_of row_given delete_range edit_number atoi put
  answered a_line e t = line_typed cfg_lineedchar e t
  answered a_command e t = obey file screen (letter_of t) e
  answered first_row e t = row_given e e.row t (λ nrows first. waiting (last_row first) e)
  answered (last_row first) e t =
      row_given e e.row t (λ nrows last. delete_range e nrows first last)
  answered row_number e t = edit_number e e.row (atoi t)
  answered (new_text k) e t = waiting a_command (record e { rows = put e.rows k t })
  answered insert_place e t = waiting a_command e

  unfoldable pub edit_loop : Turn → List Str → Turn
  unfolding answered
  edit_loop (waiting p e) [] = abandoned
  edit_loop (waiting p e) (t ∷ ts) = edit_loop (answered p e t) ts
  edit_loop abandoned ts = abandoned
  edit_loop negative ts = negative
  edit_loop broken ts = broken
  edit_loop (saved n rows) ts = saved n rows

  -- `lineed(buffer, bufsize, mode, msg)`
  unfoldable pub lineed : Rows → ℕ → Bool → List ℕ → List Str → Turn
  unfolding edit_loop next_row quote
  lineed buffer bufsize mode keys answers =
      let (rows, row) = if mode then quote file buffer 0 bufsize else (buffer, some 1) in
      edit_loop (next_row (record { rows = rows; row = row; s = none; keys = keys }) row) answers
