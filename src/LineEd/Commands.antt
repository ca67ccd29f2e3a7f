-- ===== src/LineEd/Commands.antt =====
-- The line editor and the editor of a list of lines at the commands and at a typed line.
use daydream.Base.{
  ℕ, zero, suc, ◌-◌, ◌≤◌, ◌<◌, ◌≡◌, refl, sym, ap, ◌∙◌, Bool, true, false, ◌||◌, List, [], ◌∷◌,
  ◌++◌, Option, none, some, arith, length, ◌==◌, ltb, if◌then◌else◌, length-append,
}
use mathlib.Core.Path.{subst}
use daydream.Base.CString.{Str}
use daydream.LineEd.{
  Asked, a_line, last_row, new_text, Letter, abort_it, commands, delete, edit, resume, attach,
  insert, list, save, quote_it, other, listed, ends_typing, put, Editing, Turn, waiting, abandoned,
  saved, next_row, line_typed, obey, write_row, next_number, sure_abort, list_rows, save_rows,
  insert_row,
}
use daydream.LineEd.Rows.{lines_from, lines_from-put-above, lines_from-put-next}
use daydream.LineEd.Draft.{
  Draft, drafting, dropped, lost, kept, next_line, confirm, keep_or_insert, drafted, line_drafted,
}

-- What a call of `Prompt` knows of the number of lines.
abbrev pub Fits : Asked → ℕ → Type 0
Fits a_line n = n < 494
Fits (last_row first) n = (1 ≤ first) × (first ≤ suc n)
Fits (new_text k) n = k < n
Fits _ n = Unit

-- The first rows of the buffer are the text, and `row` is the next one.
pub record Holds (e : Editing) (text : List Str) (keys : List ℕ) : Type 0 where
  pub next : e.row ≡ some (suc (length text))
  pub lines : lines_from e.rows 0 (length text) ≡ text
  pub small : length text ≤ 494
  pub same_keys : e.keys ≡ keys

abbrev pub Agrees : Turn → Draft → Type 0
Agrees t lost = Unit
Agrees (waiting p e) (drafting q text keys) = (p ≡ q) × Fits p (length text) × Holds e text keys
Agrees abandoned dropped = Unit
Agrees (saved n rows) (kept text) = (n ≡ length text) × (lines_from rows 0 n ≡ text)
Agrees _ _ = ⊥

pub if-Agrees :
    (c : Bool) (t u : Turn) (d f : Draft)
    → (c ≡ true → Agrees t d)
    → (c ≡ false → Agrees u f)
    → Agrees (if c then t else u) (if c then d else f)
if-Agrees true t u d f h k = h refl
if-Agrees false t u d f h k = k refl

pub next_row-Agrees :
    (e : Editing) (text : List Str) (keys : List ℕ)
    → Holds e text keys
    → Agrees (next_row e (some (suc (length text)))) (next_line text keys)
unfolding next_row next_line
next_row-Agrees e text keys h =
    if-Agrees (length text == 494) _ _ _ _ (λ full. (refl, tt, h))
      (λ more.
        let room : ltb (length text) 500 ≡ true = ground (arith, h.small) in
        rw room (
          refl,
          ground (arith, h.small),
          record {
            next = h.next;
            lines =
                lines_from-put-above e.rows 0 (length text) (length text) [] (omega arith)
                ∙ h.lines;
            small = h.small;
            same_keys = h.same_keys;
          },
        ))

abbrev pub at_row : Editing → List Str → Editing
at_row e text = record e { row = some (suc (length text)) }

pub at_row-Holds :
    (e : Editing) (text : List Str) (keys : List ℕ)
    → Holds e text keys
    → Holds (at_row e text) text keys
at_row-Holds e text keys h = record {
  next = refl;
  lines = h.lines;
  small = h.small;
  same_keys = h.same_keys;
}

-- A row that is written behind the text, or that ends the typing.
pub written :
    (e : Editing) (text : List Str) (keys : List ℕ) (t : Str)
    → Holds e text keys
    → lines_from (put e.rows (suc (length text) - 1) t) 0 (length text) ≡ text
written e text keys t h =
    lines_from-put-above e.rows 0 (length text) (suc (length text) - 1) t (omega arith) ∙ h.lines

pub appended :
    (e : Editing) (text : List Str) (keys : List ℕ) (t : Str)
    → Holds e text keys
    → lines_from (put e.rows (suc (length text) - 1) t) 0 (suc (length text)) ≡ text ++ t ∷ []
appended e text keys t h =
    let at : length text ≡ suc (length text) - 1 = omega arith in
    subst (λ x. lines_from (put e.rows x t) 0 (suc (length text)) ≡ text ++ t ∷ []) at
      (lines_from-put-next e.rows (length text) t ∙ ap (λ l. l ++ t ∷ []) h.lines)

pub line_typed-Agrees :
    (c : ℕ) (e : Editing) (text : List Str) (keys : List ℕ) (t : Str)
    → length text < 494
    → Holds e text keys
    → Agrees (line_typed c e t) (line_drafted c text keys t)
unfolding line_typed line_drafted write_row next_number
line_typed-Agrees c e text keys t room h = rw h.next (
    if-Agrees (ends_typing c t) _ _ _ _
      (λ done. (
        refl,
        tt,
        record {
          next = refl;
          lines = written e text keys t h;
          small = h.small;
          same_keys = h.same_keys;
        },
      ))
      (λ more.
        let size : suc (length text) ≡ length (text ++ t ∷ []) =
          omega (arith, length-append text (t ∷ [])) in
        let after = record e {
          rows = put e.rows (suc (length text) - 1) t;
          row = some (suc (suc (length text)));
        } in
        subst (λ n. Agrees (next_row after (some (suc n))) (next_line (text ++ t ∷ []) keys))
          (sym size)
          (next_row-Agrees after (text ++ t ∷ []) keys (record {
            next = ap (λ n. some (suc n)) size;
            lines =
                subst (λ n. lines_from after.rows 0 n ≡ text ++ t ∷ []) size
                  (appended e text keys t h);
            small = omega (arith, size);
            same_keys = h.same_keys;
          }))))

pub listed-keys :
    (screen n j j' : ℕ) (lcount : Option ℕ) (keys : List ℕ) (s s' : Option ℕ)
    → (listed screen n j lcount keys s).0 ≡ (listed screen n j' lcount keys s').0
unfolding listed
listed-keys screen zero j j' lcount keys s s' = refl
listed-keys screen (suc n) j j' none keys s s' =
    listed-keys screen n (suc j) (suc j') none keys (some j) (some j')
listed-keys screen (suc n) j j' (some zero) keys s s' =
    listed-keys screen n (suc j) (suc j') none keys (some j) (some j')
listed-keys screen (suc n) j j' (some (suc (suc l))) keys s s' =
    listed-keys screen n (suc j) (suc j') (some (suc l)) keys (some j) (some j')
listed-keys screen (suc n) j j' (some (suc zero)) [] s s' =
    listed-keys screen n (suc j) (suc j') (some screen) [] (some j) (some j')
listed-keys screen (suc n) j j' (some (suc zero)) (hot ∷ keys) s s' = ground (
  arith,
  listed-keys screen n (suc j) (suc j') none keys (some j) (some j'),
  listed-keys screen n (suc j) (suc j') (some screen) keys (some j) (some j'),
)

pub sure_abort-Agrees :
    (e : Editing) (text : List Str) (keys : List ℕ)
    → Holds e text keys
    → Agrees (sure_abort e keys) (confirm text keys)
unfolding sure_abort confirm
sure_abort-Agrees e text [] h = tt
sure_abort-Agrees e text (i ∷ keys) h =
    if-Agrees (i == 0 || (i == 1)) _ _ _ _ (λ gone. tt)
      (λ stays.
        (refl, tt, record { next = h.next; lines = h.lines; small = h.small; same_keys = refl }))

pub obey-Agrees :
    (file : Option (List Str)) (screen : ℕ) (l : Letter) (e : Editing) (text : List Str)
    (keys : List ℕ)
    → Holds e text keys
    → Agrees (obey file screen l e) (drafted screen l text keys)
unfolding obey drafted list_rows save_rows insert_row keep_or_insert
obey-Agrees file screen abort_it e text keys h = rw h.same_keys (sure_abort-Agrees e text keys h)
obey-Agrees file screen commands e text keys h = (refl, tt, h)
obey-Agrees file screen delete e text keys h = (refl, tt, h)
obey-Agrees file screen edit e text keys h = (refl, tt, h)
obey-Agrees file screen resume e text keys h =
    rw h.next (next_row-Agrees (at_row e text) text keys (at_row-Holds e text keys h))
obey-Agrees file screen attach e text keys h = (refl, tt, h)
obey-Agrees file screen insert e text keys h = rw h.next (
    if-Agrees (ltb (suc (length text)) 495) _ _ _ _ (λ few. (refl, tt, at_row-Holds e text keys h))
      (λ many. (refl, tt, at_row-Holds e text keys h)))
obey-Agrees file screen list e text keys h = rw h.next (
  refl,
  tt,
  record {
    next = refl;
    lines = h.lines;
    small = h.small;
    same_keys =
        listed-keys screen (length text) 0 0 (some screen) e.keys e.s none
        ∙ ap (λ k. (listed screen (length text) 0 (some screen) k none).0) h.same_keys;
  },
)
obey-Agrees file screen save e text keys h = rw h.next (refl, h.lines)
obey-Agrees file screen quote_it e text keys h = tt
obey-Agrees file screen other e text keys h = (refl, tt, h)
