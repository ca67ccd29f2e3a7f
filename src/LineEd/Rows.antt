-- ===== src/LineEd/Rows.antt =====
-- The first rows of the buffer as a list of lines.
use daydream.Base.{
  ℕ, zero, suc, ◌+◌, ◌-◌, ◌≤◌, ◌<◌, ◌≡◌, ◌≢◌, refl, sym, ap, ◌∙◌, List, [], ◌∷◌, ◌++◌, length, take,
  drop, set, arith,
}
use daydream.Base.CString.{Str}
use mathlib.Core.Path.{subst}
use daydream.LineEd.{Rows, put, move_rows}

-- The `n` rows from row `k` on.
abbrev pub lines_from : Rows → ℕ → ℕ → List Str
lines_from rows k zero = []
lines_from rows k (suc n) = rows k ∷ lines_from rows (suc k) n

pub length-lines_from : (rows : Rows) (k n : ℕ) → length (lines_from rows k n) ≡ n
length-lines_from rows k zero = refl
length-lines_from rows k (suc n) = ap suc (length-lines_from rows (suc k) n)

pub put-eq : (rows : Rows) (k : ℕ) (t : Str) → put rows k t k ≡ t
unfolding put
put-eq rows k t = ground arith

pub put-ne : (rows : Rows) (k x : ℕ) (t : Str) → x ≢ k → put rows k t x ≡ rows x
unfolding put
put-ne rows k x t h = ground arith

next_rows :
    (rows rows' : Rows) (k j x : ℕ)
    → rows (k + suc x) ≡ rows' (j + suc x)
    → rows (suc k + x) ≡ rows' (suc j + x)
next_rows rows rows' k j x h =
    let at_k : k + suc x ≡ suc k + x = omega arith in
    let at_j : j + suc x ≡ suc j + x = omega arith in cc (h, at_k, at_j)

-- Rows that agree from `k` to `k + n` on, at a distance.
pub lines_from_ext :
    (rows rows' : Rows) (k j n : ℕ)
    → ((x : ℕ) → x < n → rows (k + x) ≡ rows' (j + x))
    → lines_from rows k n ≡ lines_from rows' j n
lines_from_ext rows rows' k j zero h = refl
lines_from_ext rows rows' k j (suc n) h =
    let at_k : k + 0 ≡ k = omega arith in
    let at_j : j + 0 ≡ j = omega arith in
    let head : rows k ≡ rows' j = cc (h 0 (omega arith), at_k, at_j) in
    let tail : lines_from rows (suc k) n ≡ lines_from rows' (suc j) n =
      lines_from_ext rows rows' (suc k) (suc j) n
        (λ x lt. next_rows rows rows' k j x (h (suc x) (omega arith))) in
    cc (head, tail)

pub lines_from-append :
    (rows : Rows) (k m n : ℕ)
    → lines_from rows k (m + n) ≡ lines_from rows k m ++ lines_from rows (k + m) n
lines_from-append rows k zero n =
    let at_k : k + 0 ≡ k = omega arith in let at_n : 0 + n ≡ n = omega arith in cc (at_k, at_n)
lines_from-append rows k (suc m) n =
    let at_k : k + suc m ≡ suc k + m = omega arith in
    let size : suc m + n ≡ suc (m + n) = omega arith in
    let tail : lines_from rows (suc k) (m + n)
        ≡ lines_from rows (suc k) m ++ lines_from rows (suc k + m) n =
      lines_from-append rows (suc k) m n in
    cc (at_k, size, tail)

-- The rows up to `m` of the rows up to `n`.
pub take-lines_from :
    (rows : Rows) (k m n : ℕ) → m ≤ n → take m (lines_from rows k n) ≡ lines_from rows k m
take-lines_from rows k zero n h = refl
take-lines_from rows k (suc m) zero h = absurd (omega arith)
take-lines_from rows k (suc m) (suc n) h =
    ap (◌∷◌ (rows k)) (take-lines_from rows (suc k) m n (omega arith))

pub drop-lines_from :
    (rows : Rows) (k m n : ℕ) → drop m (lines_from rows k n) ≡ lines_from rows (k + m) (n - m)
drop-lines_from rows k zero n =
    let at_k : k + 0 ≡ k = omega arith in let at_n : n - 0 ≡ n = omega arith in cc (at_k, at_n)
drop-lines_from rows k (suc m) zero = let at_n : 0 - suc m ≡ 0 = omega arith in cc at_n
drop-lines_from rows k (suc m) (suc n) =
    let at_k : k + suc m ≡ suc k + m = omega arith in
    let size : suc n - suc m ≡ n - m = omega arith in
    cc (at_k, size, drop-lines_from rows (suc k) m n)

pub lines_from-put-above :
    (rows : Rows) (k n j : ℕ) (t : Str)
    → k + n ≤ j
    → lines_from (put rows j t) k n ≡ lines_from rows k n
lines_from-put-above rows k n j t h =
    lines_from_ext (put rows j t) rows k k n (λ x lt. put-ne rows j (k + x) t (omega arith))

-- The row that is written behind the others.
pub lines_from-put-next :
    (rows : Rows) (n : ℕ) (t : Str)
    → lines_from (put rows n t) 0 (suc n) ≡ lines_from rows 0 n ++ t ∷ []
lines_from-put-next rows n t =
    let size : n + 1 ≡ suc n = omega arith in
    let next : 0 + n ≡ n = omega arith in
    cc (
      size,
      next,
      lines_from-append (put rows n t) 0 n 1,
      lines_from-put-above rows 0 n n t (omega arith),
      put-eq rows n t,
    )

lines_from-put-first :
    (rows : Rows) (k n : ℕ) (t : Str)
    → lines_from (put rows k t) k (suc n) ≡ t ∷ lines_from rows (suc k) n
lines_from-put-first rows k n t =
    let tail : lines_from (put rows k t) (suc k) n ≡ lines_from rows (suc k) n =
      lines_from_ext (put rows k t) rows (suc k) (suc k) n
        (λ x lt. put-ne rows k (suc k + x) t (omega arith)) in
    cc (tail, put-eq rows k t)

pub lines_from-put :
    (rows : Rows) (k n j : ℕ) (t : Str)
    → lines_from (put rows (k + j) t) k n ≡ set (lines_from rows k n) j t
lines_from-put rows k zero j t = refl
lines_from-put rows k (suc n) zero t =
    let at_k : k ≡ k + 0 = omega arith in
    subst (λ x. lines_from (put rows x t) k (suc n) ≡ t ∷ lines_from rows (suc k) n) at_k
      (lines_from-put-first rows k n t)
lines_from-put rows k (suc n) (suc j) t =
    let tail : lines_from (put rows (suc k + j) t) (suc k) n ≡ set (lines_from rows (suc k) n) j t =
      lines_from-put rows (suc k) n j t in
    let head : put rows (suc k + j) t k ≡ rows k = put-ne rows (suc k + j) k t (omega arith) in
    let at_k : suc k + j ≡ k + suc j = omega arith in
    let both : lines_from (put rows (suc k + j) t) k (suc n)
        ≡ rows k ∷ set (lines_from rows (suc k) n) j t =
      cc (head, tail) in
    subst (λ x. lines_from (put rows x t) k (suc n) ≡ rows k ∷ set (lines_from rows (suc k) n) j t)
      at_k both

move_rows-below : (rows : Rows) (to from n x : ℕ) → x < to → move_rows rows to from n x ≡ rows x
unfolding move_rows
move_rows-below rows to from n x h = ground arith

move_rows-moved :
    (rows : Rows) (to from n x : ℕ) → x < n → move_rows rows to from n (to + x) ≡ rows (from + x)
unfolding move_rows
move_rows-moved rows to from n x h =
    let same : to + x - to + from ≡ from + x = omega arith in ground (arith, same)

zero_left : (rows rows' : Rows) (x : ℕ) → rows x ≡ rows' x → rows (0 + x) ≡ rows' (0 + x)
zero_left rows rows' x h = let same : 0 + x ≡ x = omega arith in cc (same, h)

-- The rows from `to` up to `from` are taken out of the first `n`.
pub lines_from-move_rows :
    (rows : Rows) (to from n m : ℕ)
    → to ≤ from
    → from ≤ n
    → n - from ≤ m
    → lines_from (move_rows rows to from m) 0 (n - (from - to))
      ≡ take to (lines_from rows 0 n) ++ drop from (lines_from rows 0 n)
lines_from-move_rows rows to from n m le fits enough =
    let size : n - (from - to) ≡ to + (n - from) = omega arith in
    let moved = move_rows rows to from m in
    let split : lines_from moved 0 (to + (n - from))
        ≡ lines_from moved 0 to ++ lines_from moved (0 + to) (n - from) =
      lines_from-append moved 0 to (n - from) in
    let at_to : 0 + to ≡ to = omega arith in
    let at_from : 0 + from ≡ from = omega arith in
    let kept : lines_from moved 0 to ≡ lines_from rows 0 to =
      lines_from_ext moved rows 0 0 to
        (λ x lt. zero_left moved rows x (move_rows-below rows to from m x lt)) in
    let shifted : lines_from moved to (n - from) ≡ lines_from rows from (n - from) =
      lines_from_ext moved rows to from (n - from)
        (λ x lt. move_rows-moved rows to from m x (omega arith)) in
    let before : take to (lines_from rows 0 n) ≡ lines_from rows 0 to =
      take-lines_from rows 0 to n (omega arith) in
    let behind : drop from (lines_from rows 0 n) ≡ lines_from rows from (n - from) =
      cc (at_from, drop-lines_from rows 0 from n) in
    cc (size, at_to, split, kept, shifted, before, behind)

-- The rows before those that are moved.
pub lines_from-move_rows-below :
    (rows : Rows) (to from m n k : ℕ)
    → k ≤ to
    → k ≤ n
    → lines_from (move_rows rows to from m) 0 k ≡ take k (lines_from rows 0 n)
lines_from-move_rows-below rows to from m n k le fits =
    lines_from_ext (move_rows rows to from m) rows 0 0 k (λ x lt.
      zero_left (move_rows rows to from m) rows x (move_rows-below rows to from m x (omega arith)))
    ∙ sym (take-lines_from rows 0 k n fits)
