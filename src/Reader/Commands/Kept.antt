-- ===== src/Reader/Commands/Kept.antt =====
-- What the steps of the reader keep, a session keeps.
use daydream.Base.{
  ℕ, zero, suc, ◌+◌, ◌-◌, Bool, true, false, List, [], ◌∷◌, Option, none, some, ltb, if◌then◌else◌,
  inl, inr, Bool-cases,
}
use daydream.Base.CString.{Str}
use daydream.LineEd.{atoi}
use daydream.Message.Save.{Opens, getmsgptrs}
use daydream.Reader.{Viewer, Reading, showmsg}
use daydream.Reader.Edits.{deletemsg, keepmsg}
use daydream.Reader.Commands.{
  Continued, prompting, closed, left_out, Start, at_prompt, at_next, at_message, visit, masked_in,
  is_shown, next_up, next_down, next_message, show_number, read_number, empty_line, read_command,
  read_line, read_session, first_turn, load, readmessages, is_scan,
}
use daydream.Reader.Showing.{IsShowKept, showmsg-keeps}

abbrev pub state_after : Continued → Reading
state_after (prompting r) = r
state_after (closed r result) = r
state_after (left_out r) = r

-- What holds of the state that a command leaves.
pub record Leaves (P : Reading → Type 0) (out : Continued) : Type 0 where
  pub after : P (state_after out)

-- A predicate that the steps keep.
pub record IsKept (v : Viewer) (o : Opens) (P : Reading → Type 0) : Type 0 where
  pub showing : (n : ℕ) → IsShowKept v n P
  pub moves : (n : ℕ) (r : Reading) → P r → P (record r { msgnum = n })
  pub turns : (f : Bool) (r : Reading) → P r → P (record r { forward = f })
  pub scans : (n : ℕ) (r : Reading) → P r → P (record r { lsp = n })
  pub deletes : (r : Reading) → P r → P (deletemsg v r)
  pub keeps : (r : Reading) → P r → P (keepmsg v o r)
  pub loads : (cseekp : Option ℕ) (r : Reading) → P r → P (load cseekp r)
  pub refreshes : (r : Reading) → P r → P (record r { mail = getmsgptrs r.mail })

leaves : {P : Reading → Type 0} {out : Continued} → P (state_after out) → Leaves P out
leaves h = record { after = h }

if-Leaves :
    {P : Reading → Type 0} (c : Bool) (x y : Continued)
    → Leaves P x
    → Leaves P y
    → Leaves P (if c then x else y)
if-Leaves true x y h k = h
if-Leaves false x y h k = k

if-keeps : (P : Reading → Type 0) (c : Bool) (x y : Reading) → P x → P y → P (if c then x else y)
if-keeps P true x y h k = h
if-keeps P false x y h k = k

module _ (v : Viewer) (o : Opens) (P : Reading → Type 0) (k : IsKept v o P) where
  shown-keeps : (n : ℕ) (again : Bool) (r : Reading) → P r → P (showmsg v n again r).0
  shown-keeps n again r h = showmsg-keeps v n P (k.showing n) again r h

  visit-keeps : (mask : Option (ℕ → Bool)) (n : ℕ) (r : Reading) → P r → P (visit v mask n r).0
  unfolding visit
  visit-keeps mask n r h = elim (Bool-cases (masked_in mask n)) [
    | inl within ↦ simp within (shown-keeps n false _ (k.moves n r h))
    | inr skipped ↦ simp skipped (k.moves n r h)
  ]

  next_up-Leaves :
      (mask : Option (ℕ → Bool)) (left : ℕ) (r : Reading) → P r → Leaves P (next_up v mask left r)
  unfolding next_up
  next_up-Leaves mask zero r h = leaves (k.moves (r.msgnum + 1) r h)
  next_up-Leaves mask (suc left) r h =
      let there = visit-keeps mask (r.msgnum + 1) r h in
      let done : Leaves P (prompting (visit v mask (r.msgnum + 1) r).0) = leaves there in
      let rest = next_up-Leaves mask left _ there in search if-Leaves

  next_down-Leaves :
      (mask : Option (ℕ → Bool)) (last left : ℕ) (r : Reading)
      → P r
      → Leaves P (next_down v mask last left r)
  unfolding next_down
  next_down-Leaves mask last zero r h = leaves (k.moves last r h)
  next_down-Leaves mask last (suc left) r h =
      let there = visit-keeps mask (r.msgnum - 1) r h in
      let done : Leaves P (prompting (visit v mask (r.msgnum - 1) r).0) = leaves there in
      let rest =
        next_down-Leaves mask (if masked_in mask (r.msgnum - 1) then r.msgnum - 1 else last) left _
          there in
      search if-Leaves

  next_message-Leaves :
      (mask : Option (ℕ → Bool)) (r : Reading) → P r → Leaves P (next_message v mask r)
  unfolding next_message
  next_message-Leaves mask r h =
      let stay : Leaves P (prompting r) = leaves h in
      let over : Leaves P (closed r 0) = leaves h in
      let up = next_up-Leaves mask (r.mail.highest - r.msgnum) r h in
      let down = next_down-Leaves mask r.msgnum (r.msgnum - r.mail.lowest) r h in search if-Leaves

  show_number-keeps : (n : ℕ) (r : Reading) → P r → P (show_number v n r)
  unfolding show_number
  show_number-keeps n r h =
      let there = shown-keeps n false _ (k.moves n r h) in
      let back = (k.showing n).points r.daheader _ (k.moves r.msgnum _ there) in
      if-keeps P (is_shown (showmsg v n false (record r { msgnum = n })).1) _ _ there back

  read_number-Leaves :
      (mask : Option (ℕ → Bool)) (scan : Bool) (n : Option ℕ) (r : Reading)
      → P r
      → Leaves P (read_number v mask scan n r)
  unfolding read_number
  read_number-Leaves mask scan none r h = leaves h
  read_number-Leaves mask scan (some n) r h =
      let stay : Leaves P (prompting r) = leaves h in
      let chosen : Leaves P (closed (record r { lsp = if ltb r.lsp n then n else r.lsp }) 0) =
        leaves (k.scans _ r h) in
      let there : Leaves P (prompting (show_number v n r)) = leaves (show_number-keeps n r h) in
      search if-Leaves

  empty_line-Leaves :
      (mask : Option (ℕ → Bool)) (scan : Bool) (r : Reading)
      → P r
      → Leaves P (empty_line v mask scan r)
  unfolding empty_line
  empty_line-Leaves mask scan r h =
      let chosen : Leaves P (closed (record r { lsp = r.msgnum }) 0) =
        leaves (k.scans r.msgnum r h) in
      let next = next_message-Leaves mask r h in search if-Leaves

  read_command-Leaves :
      (mask : Option (ℕ → Bool)) (scan : Bool) (line : Str) (r : Reading)
      → P r
      → Leaves P (read_command v o mask scan line r)
  unfolding read_command
  read_command-Leaves mask scan line r h =
      let again : Leaves P (prompting (showmsg v r.msgnum false r).0) =
        leaves (shown-keeps r.msgnum false r h) in
      let without : Leaves P (prompting (deletemsg v r)) = leaves (k.deletes r h) in
      let out : Leaves P (left_out r) = leaves h in
      let kept : Leaves P (prompting (keepmsg v o r)) = leaves (k.keeps r h) in
      let stay : Leaves P (prompting r) = leaves h in
      let quit : Leaves P (closed r 2) = leaves h in
      let back : Leaves P (prompting (record r { forward = false })) = leaves (k.turns false r h) in
      let on : Leaves P (prompting (record r { forward = true })) = leaves (k.turns true r h) in
      let number = read_number-Leaves mask scan (atoi line) r h in search if-Leaves depth 12

  read_line-Leaves :
      (mask : Option (ℕ → Bool)) (scan : Bool) (line : Str) (r : Reading)
      → P r
      → Leaves P (read_line v o mask scan line r)
  unfolding read_line
  read_line-Leaves mask scan [] r h = empty_line-Leaves mask scan r h
  read_line-Leaves mask scan (c ∷ line) r h = read_command-Leaves mask scan (c ∷ line) r h

  read_session-Leaves :
      (mask : Option (ℕ → Bool)) (scan : Bool) (lines : List Str) (out : Continued)
      → Leaves P out
      → Leaves P (read_session v o mask scan lines out)
  unfolding read_session
  read_session-Leaves mask scan lines (closed r result) h = h
  read_session-Leaves mask scan lines (left_out r) h = h
  read_session-Leaves mask scan [] (prompting r) h = leaves h.after
  read_session-Leaves mask scan (line ∷ lines) (prompting r) h =
      read_session-Leaves mask scan lines _ (read_line-Leaves mask scan line r h.after)

  first_turn-Leaves :
      (mask : Option (ℕ → Bool)) (scan : Bool) (start : Start) (r : Reading)
      → P r
      → Leaves P (first_turn v mask scan start r)
  unfolding first_turn
  first_turn-Leaves mask scan at_prompt r h = leaves h
  first_turn-Leaves mask scan at_next r h = empty_line-Leaves mask scan r h
  first_turn-Leaves mask scan (at_message n) r h = leaves (shown-keeps n true _ (k.moves n r h))

  pub readmessages-Leaves :
      (cseekp : Option ℕ) (start : Start) (mask : Option (ℕ → Bool)) (lines : List Str)
      (r : Reading)
      → P r
      → Leaves P (readmessages v o cseekp start mask lines r)
  unfolding readmessages
  readmessages-Leaves cseekp start mask lines r h =
      let none_there : Leaves P (closed (record r { mail = getmsgptrs r.mail }) 0) =
        leaves (k.refreshes r h) in
      let read =
        read_session-Leaves mask (is_scan cseekp) lines _
          (first_turn-Leaves mask (is_scan cseekp) start _ (k.loads cseekp r h)) in
      search if-Leaves
