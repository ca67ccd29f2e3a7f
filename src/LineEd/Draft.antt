-- ===== src/LineEd/Draft.antt =====
-- The line editor as an editor of a list of lines.
use daydream.Base.{
  ℕ, suc, ◌-◌, ◌||◌, List, [], ◌∷◌, ◌++◌, Option, none, some, ◌==◌, ltb, if◌then◌else◌, length,
  take, drop, set,
}
use daydream.Base.CString.{Str}
use daydream.Text.Numbers.{Uint, aborted, bad, ok, str2uint}
use daydream.LineEd.{
  Asked, a_line, a_command, first_row, last_row, row_number, new_text, insert_place, Letter,
  abort_it, commands, delete, edit, resume, attach, insert, list, save, quote_it, other, letter_of,
  atoi, listed, ends_typing,
}

-- The text and the answers to come of `HotKey`, or the end. What follows `lost` is not said.
pub data Draft : Type 0 where
  drafting : Asked → List Str → List ℕ → Draft
  dropped lost : Draft
  kept : List Str → Draft

-- 494 lines are the most.
unfoldable pub next_line : List Str → List ℕ → Draft
next_line text keys =
    if length text == 494 then drafting a_command text keys else drafting a_line text keys

-- The lines from `first` to `last` are taken out. If `last` is the line not typed yet, the line before
-- `first` goes as well, and the draft is lost where there is none.
unfoldable pub cut : List Str → List ℕ → ℕ → ℕ → Draft
cut text keys first last =
    if ltb (length text) last
    then (if first == 1 then lost else drafting a_command (take (first - 2) text) keys)
    else drafting a_command (take (first - 1) text ++ drop last text) keys

unfoldable pub cut_range : List Str → List ℕ → ℕ → ℕ → Draft
unfolding cut
cut_range text keys first last =
    if ltb last first then cut text keys last first else cut text keys first last

unfoldable pub confirm : List Str → List ℕ → Draft
confirm text [] = dropped
confirm text (i ∷ keys) = if i == 0 || (i == 1) then dropped else drafting a_command text keys

unfoldable pub keep_or_insert : List Str → List ℕ → Draft
keep_or_insert text keys =
    if ltb (suc (length text)) 495
    then drafting insert_place text keys
    else drafting a_command text keys

-- A command; quoting loses the draft.
unfoldable pub drafted : ℕ → Letter → List Str → List ℕ → Draft
unfolding next_line confirm keep_or_insert listed
drafted screen abort_it text keys = confirm text keys
drafted screen commands text keys = drafting a_command text keys
drafted screen delete text keys = drafting first_row text keys
drafted screen edit text keys = drafting row_number text keys
drafted screen resume text keys = next_line text keys
drafted screen attach text keys = drafting a_command text keys
drafted screen insert text keys = keep_or_insert text keys
drafted screen list text keys =
    let (keys, _) = listed screen (length text) 0 (some screen) keys none in
    drafting a_command text keys
drafted screen save text keys = kept text
drafted screen quote_it text keys = lost
drafted screen other text keys = drafting a_command text keys

unfoldable pub with_row : (ℕ → Draft) → List Str → List ℕ → Uint → Draft
with_row continue text keys aborted = lost
with_row continue text keys bad = drafting a_command text keys
with_row continue text keys (ok n) = continue n

unfoldable pub edit_of : List Str → List ℕ → Option ℕ → Draft
edit_of text keys none = drafting a_command text keys
edit_of text keys (some i) =
    if ltb i 1 || ltb (length text) i
    then drafting a_command text keys
    else drafting (new_text (i - 1)) text keys

unfoldable pub line_drafted : ℕ → List Str → List ℕ → Str → Draft
unfolding next_line ends_typing
line_drafted cfg_lineedchar text keys t =
    if ends_typing cfg_lineedchar t
    then drafting a_command text keys
    else next_line (text ++ t ∷ []) keys

module _ (cfg_lineedchar screen : ℕ) where
  unfoldable pub replied : Asked → List Str → List ℕ → Str → Draft
  unfolding line_drafted drafted letter_of with_row cut_range edit_of atoi str2uint
  replied a_line text keys t = line_drafted cfg_lineedchar text keys t
  replied a_command text keys t = drafted screen (letter_of t) text keys
  replied first_row text keys t =
      with_row (λ first. drafting (last_row first) text keys) text keys
        (str2uint t 1 (suc (length text)))
  replied (last_row first) text keys t =
      with_row (cut_range text keys first) text keys (str2uint t 1 (suc (length text)))
  replied row_number text keys t = edit_of text keys (atoi t)
  replied (new_text k) text keys t = drafting a_command (set text k t) keys
  replied insert_place text keys t = drafting a_command text keys

  unfoldable pub draft_loop : Draft → List Str → Draft
  unfolding replied
  draft_loop (drafting p text keys) [] = dropped
  draft_loop (drafting p text keys) (t ∷ ts) = draft_loop (replied p text keys t) ts
  draft_loop dropped ts = dropped
  draft_loop lost ts = lost
  draft_loop (kept text) ts = kept text

  -- A message from no text on.
  unfoldable pub compose : List ℕ → List Str → Draft
  unfolding draft_loop
  compose keys answers = draft_loop (drafting a_line [] keys) answers
