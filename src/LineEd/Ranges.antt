-- ===== src/LineEd/Ranges.antt =====
-- The two editors at the numbers of lines: the line to edit and the lines to delete.
use daydream.Base.{
  ℕ, suc, ◌+◌, ◌-◌, ◌≤◌, ◌≡◌, refl, sym, ap, ◌∙◌, ◌||◌, List, ◌++◌, Option, none, some, arith,
  length, take, drop, set, ◌==◌, ltb, inl, inr, Bool-cases,
}
use mathlib.Core.Path.{subst}
use daydream.Base.CString.{Str}
use daydream.Text.Numbers.{Uint, aborted, bad, ok, str2uint, str2uint-bounds}
use daydream.LineEd.{
  a_command, Rows, put, move_rows, Editing, Turn, waiting, delete_rows, row_given, edit_number,
  with_uint, delete_range,
}
use daydream.LineEd.Rows.{
  lines_from, length-lines_from, lines_from-put, lines_from-move_rows, lines_from-move_rows-below,
}
use daydream.LineEd.Draft.{Draft, cut, cut_range, with_row, edit_of}
use daydream.LineEd.Commands.{Holds, Agrees, if-Agrees, at_row, at_row-Holds}

pub edit_number-Agrees :
    (e : Editing) (text : List Str) (keys : List ℕ) (i : Option ℕ)
    → Holds e text keys
    → Agrees (edit_number e e.row i) (edit_of text keys i)
unfolding edit_number edit_of
edit_number-Agrees e text keys none h = rw h.next (refl, tt, at_row-Holds e text keys h)
edit_number-Agrees e text keys (some i) h =
    let size : suc (length text) - 1 ≡ length text = omega arith in
    rw (h.next, size)
      (if-Agrees (ltb i 1 || ltb (length text) i) _ _ _ _
        (λ outside. (refl, tt, at_row-Holds e text keys h))
        (λ inside. (
          refl,
          ground arith,
          record { next = refl; lines = h.lines; small = h.small; same_keys = h.same_keys },
        )))

-- A number of a row is one of the text, or of the line not typed yet.
pub with_uint-Agrees :
    (e : Editing) (text : List Str) (keys : List ℕ) (t : Str) (f : ℕ → ℕ → Turn) (g : ℕ → Draft)
    → Holds e text keys
    → ((n : ℕ) → 1 ≤ n → n ≤ suc (length text) → Agrees (f (suc (length text)) n) (g n))
    → (u : Uint) → str2uint t 1 (suc (length text)) ≡ u
    → Agrees (with_uint (f (suc (length text))) e u) (with_row g text keys u)
unfolding with_uint with_row
with_uint-Agrees e text keys t f g h law aborted same = tt
with_uint-Agrees e text keys t f g h law bad same = (refl, tt, h)
with_uint-Agrees e text keys t f g h law (ok n) same =
    let (low, high) = str2uint-bounds t 1 (suc (length text)) n same in law n low high

pub row_given-Agrees :
    (e : Editing) (text : List Str) (keys : List ℕ) (t : Str) (f : ℕ → ℕ → Turn) (g : ℕ → Draft)
    → Holds e text keys
    → ((n : ℕ) → 1 ≤ n → n ≤ suc (length text) → Agrees (f (suc (length text)) n) (g n))
    → Agrees (row_given e e.row t f) (with_row g text keys (str2uint t 1 (suc (length text))))
unfolding row_given
row_given-Agrees e text keys t f g h law = rw h.next (
    with_uint-Agrees (at_row e text) text keys t f g (at_row-Holds e text keys h) law
      (str2uint t 1 (suc (length text))) refl)

pub rows-Holds :
    (e : Editing) (rows : Rows) (r n : ℕ) (text : List Str) (keys : List ℕ)
    → e.keys ≡ keys
    → lines_from rows 0 n ≡ text
    → r ≡ suc n
    → n ≤ 494
    → Holds (record e { rows = rows; row = some r }) text keys
rows-Holds e rows r n text keys same lines at small =
    let size : n ≡ length text = sym (length-lines_from rows 0 n) ∙ ap (length {0}) lines in
    record {
      next = ap some (omega (arith, at, size));
      lines = subst (λ n. lines_from rows 0 n ≡ text) size lines;
      small = omega (arith, size);
      same_keys = same;
    }

pub set-Holds :
    (e : Editing) (text : List Str) (keys : List ℕ) (k : ℕ) (t : Str)
    → Holds e text keys
    → Holds (record e { rows = put e.rows k t }) (set text k t) keys
set-Holds e text keys k t h =
    let at : 0 + k ≡ k = omega arith in
    let lines : lines_from (put e.rows k t) 0 (length text) ≡ set text k t =
      subst (λ x. lines_from (put e.rows x t) 0 (length text) ≡ set text k t) at
        (lines_from-put e.rows 0 (length text) k t ∙ ap (λ l. set l k t) h.lines) in
    let size : length text ≡ length (set text k t) =
      sym (length-lines_from (put e.rows k t) 0 (length text)) ∙ ap (length {0}) lines in
    record {
      next = h.next ∙ ap (λ n. some (suc n)) size;
      lines = subst (λ n. lines_from (put e.rows k t) 0 n ≡ set text k t) size lines;
      small = omega (arith, size, h.small);
      same_keys = h.same_keys;
    }

-- The rows that `delete_lines` leaves, for numbers in order.
pub cut-Agrees :
    (e : Editing) (text : List Str) (keys : List ℕ) (first last : ℕ)
    → Holds e text keys
    → 1 ≤ first
    → first ≤ last
    → last ≤ suc (length text)
    → Agrees
        (waiting a_command (record e {
          rows = move_rows e.rows (first - 1) last (suc (length text) - last);
          row = some (suc (length text) - (last - first + 1));
        }))
        (cut text keys first last)
unfolding cut
cut-Agrees e text keys first last h low le high = elim (Bool-cases (ltb (length text) last)) [
  | inl open_line ↦ rw open_line (elim (Bool-cases (first == 1)) [
    | inl one ↦ rw one tt
    | inr more ↦ rw more (
      refl,
      tt,
      rows-Holds e (move_rows e.rows (first - 1) last (suc (length text) - last))
          (suc (length text) - (last - first + 1)) (first - 2) (take (first - 2) text) keys
          h.same_keys
          (lines_from-move_rows-below e.rows (first - 1) last (suc (length text) - last)
              (length text) (first - 2) (omega arith) (ground arith)
            ∙ ap (take (first - 2)) h.lines)
          (ground arith) (ground (arith, h.small)),
    )
  ])
  | inr typed ↦ rw typed (
    refl,
    tt,
    rows-Holds e (move_rows e.rows (first - 1) last (suc (length text) - last))
        (suc (length text) - (last - first + 1)) (length text - (last - (first - 1)))
        (take (first - 1) text ++ drop last text) keys h.same_keys
        (lines_from-move_rows e.rows (first - 1) last (length text) (suc (length text) - last)
            (omega arith) (ground arith) (omega arith)
          ∙ ap (λ l. take (first - 1) l ++ drop last l) h.lines)
        (ground arith) (ground (arith, h.small)),
  )
]

pub delete_range-Agrees :
    (e : Editing) (text : List Str) (keys : List ℕ) (first last : ℕ)
    → Holds e text keys
    → 1 ≤ first
    → first ≤ suc (length text)
    → 1 ≤ last
    → last ≤ suc (length text)
    → Agrees (delete_range e (suc (length text)) first last) (cut_range text keys first last)
unfolding delete_range delete_rows cut_range
delete_range-Agrees e text keys first last h low high low' high' =
    elim (Bool-cases (ltb last first)) [
      | inl swapped ↦ rw swapped (cut-Agrees e text keys last first h low' (ground arith) high)
      | inr ordered ↦ rw ordered (cut-Agrees e text keys first last h low (ground arith) high')
    ]
