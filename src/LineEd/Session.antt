-- ===== src/LineEd/Session.antt =====
-- The line editor and the editor of a list of lines, side by side.
use daydream.Base.{ℕ, refl, false, List, [], ◌∷◌, Option, none, some, arith, length}
use mathlib.Core.Path.{subst}
use daydream.Base.CString.{Str}
use daydream.LineEd.{
  Asked, a_line, a_command, first_row, last_row, row_number, new_text, insert_place, letter_of,
  atoi, Rows, Editing, Turn, waiting, abandoned, negative, broken, saved, next_row, answered,
  edit_loop, lineed, delete_range,
}
use daydream.LineEd.Draft.{
  Draft, drafting, dropped, lost, kept, cut_range, replied, draft_loop, compose,
}
use daydream.LineEd.Commands.{Fits, Holds, Agrees, line_typed-Agrees, obey-Agrees}
use daydream.LineEd.Ranges.{edit_number-Agrees, row_given-Agrees, set-Holds, delete_range-Agrees}

module _ (file : Option (List Str)) (cfg_lineedchar screen : ℕ) where
  answered-Agrees :
      (p : Asked) (e : Editing) (text : List Str) (keys : List ℕ) (t : Str)
      → Fits p (length text)
      → Holds e text keys
      → Agrees
          (answered file cfg_lineedchar screen p e t)
          (replied cfg_lineedchar screen p text keys t)
  unfolding answered replied
  answered-Agrees a_line e text keys t room h =
      line_typed-Agrees cfg_lineedchar e text keys t room h
  answered-Agrees a_command e text keys t fits h =
      obey-Agrees file screen (letter_of t) e text keys h
  answered-Agrees first_row e text keys t fits h =
      row_given-Agrees e text keys t (λ nrows first. waiting (last_row first) e)
        (λ first. drafting (last_row first) text keys) h (λ n low high. (refl, (low, high), h))
  answered-Agrees (last_row first) e text keys t (low, high) h =
      row_given-Agrees e text keys t (λ nrows last. delete_range e nrows first last)
        (cut_range text keys first) h
        (λ last low' high'. delete_range-Agrees e text keys first last h low high low' high')
  answered-Agrees row_number e text keys t fits h = edit_number-Agrees e text keys (atoi t) h
  answered-Agrees (new_text k) e text keys t fits h = (refl, tt, set-Holds e text keys k t h)
  answered-Agrees insert_place e text keys t fits h = (refl, tt, h)

  pub edit_loop-Agrees :
      (r : Turn) (d : Draft) (ts : List Str)
      → Agrees r d
      → Agrees (edit_loop file cfg_lineedchar screen r ts) (draft_loop cfg_lineedchar screen d ts)
  unfolding edit_loop draft_loop
  edit_loop-Agrees r lost ts h = tt
  edit_loop-Agrees (waiting p e) (drafting q text keys) [] h = tt
  edit_loop-Agrees (waiting p e) (drafting q text keys) (t ∷ ts) h =
      let both : Agrees (answered file cfg_lineedchar screen p e t)
          (replied cfg_lineedchar screen q text keys t) =
        subst
          (λ q.
            Agrees (answered file cfg_lineedchar screen p e t)
              (replied cfg_lineedchar screen q text keys t))
          h.0 (answered-Agrees p e text keys t h.1 h.2) in
      edit_loop-Agrees (answered file cfg_lineedchar screen p e t)
        (replied cfg_lineedchar screen q text keys t) ts both
  edit_loop-Agrees abandoned (drafting q text keys) ts h = absurd h
  edit_loop-Agrees negative (drafting q text keys) ts h = absurd h
  edit_loop-Agrees broken (drafting q text keys) ts h = absurd h
  edit_loop-Agrees (saved n rows) (drafting q text keys) ts h = absurd h
  edit_loop-Agrees (waiting p e) dropped ts h = absurd h
  edit_loop-Agrees negative dropped ts h = absurd h
  edit_loop-Agrees broken dropped ts h = absurd h
  edit_loop-Agrees (saved n rows) dropped ts h = absurd h
  edit_loop-Agrees (waiting p e) (kept text) ts h = absurd h
  edit_loop-Agrees abandoned (kept text) ts h = absurd h
  edit_loop-Agrees negative (kept text) ts h = absurd h
  edit_loop-Agrees broken (kept text) ts h = absurd h
  edit_loop-Agrees abandoned dropped ts h = tt
  edit_loop-Agrees (saved n rows) (kept text) ts h = h

  -- Without a message to quote, the line editor is an editor of a list of lines, whatever is typed: it
  -- returns 0 where that one drops its text, and where that one keeps a text it returns the number of its
  -- lines, which are the first rows of the buffer. Nothing is said of a text that is lost: by a quote, or by
  -- the deletion of all the lines together with the one not typed yet.
  pub lineed-compose :
      (buffer : Rows) (bufsize : ℕ) (keys : List ℕ) (answers : List Str)
      → Agrees
          (lineed file cfg_lineedchar screen buffer bufsize false keys answers)
          (compose cfg_lineedchar screen keys answers)
  unfolding lineed compose next_row
  lineed-compose buffer bufsize keys answers =
      edit_loop-Agrees
        (next_row (record { rows = buffer; row = some 1; s = none; keys = keys }) (some 1))
        (drafting a_line [] keys) answers
        (
          refl,
          omega arith,
          record { next = refl; lines = refl; small = omega arith; same_keys = refl },
        )
