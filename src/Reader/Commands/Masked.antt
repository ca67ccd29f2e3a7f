-- ===== src/Reader/Commands/Masked.antt =====
-- A session with a mask.
use daydream.Base.{
  ℕ, zero, suc, ◌+◌, ◌-◌, ◌≡◌, refl, sym, ap, ◌∙◌, Bool, true, false, not, ◌||◌, List, [], ◌∷◌,
  Option, none, some, arith, ltb, ◌==◌, if◌then◌else◌, inl, inr, Bool-cases, All, length,
}
use mathlib.Core.Path.{subst}
use daydream.Base.CString.{Str}
use daydream.LineEd.{atoi}
use daydream.Message.{Header}
use daydream.Message.Save.{Opens}
use daydream.Reader.{Viewer, Reading, seek, readmsgdatas, show_header, showmsg}
use daydream.Reader.Showing.{IsShowKept, showmsg-keeps, show_header-displayed, show_header-msgnum}
use daydream.Reader.Edits.{deletemsg, keepmsg}
use daydream.Reader.Commands.{
  Continued, prompting, closed, left_out, at_message, visit, masked_in, is_shown, next_up,
  next_down, next_message, show_number, read_number, empty_line, read_command, read_line,
  read_session, first_turn, load, readmessages, is_scan, at_start,
}
use daydream.Reader.Commands.Kept.{state_after}
use daydream.Reader.Commands.Visible.{seen, deletemsg-seen, keepmsg-seen}

-- The number at the prompt stays that of the message that is shown.
msgnum-IsShowKept : (v : Viewer) (n c : ℕ) → IsShowKept v n (λ r. r.msgnum ≡ c)
unfolding seek readmsgdatas show_header
msgnum-IsShowKept v n c = record {
  seeks = λ place r p. p;
  points = λ d r p. p;
  shows = λ again i h r e same there p. show_header-msgnum v n again i h r ∙ p;
}

in_mask : (a b : Bool) → (a || not b) ≡ false → b ≡ true
in_mask a b h = ground arith

module _ (v : Viewer) (o : Opens) (mask : ℕ → Bool) where
  abbrev pub InMask : Reading → Type 0
  InMask r = All (λ h. mask h.msg_number ≡ true) r.displayed

  -- At the prompt the number is in the mask as well.
  abbrev Good : Continued → Type 0
  Good (prompting r) = InMask r × (mask r.msgnum ≡ true)
  Good (closed r result) = InMask r
  Good (left_out r) = InMask r

  InMask-IsShowKept : (n : ℕ) → mask n ≡ true → IsShowKept v n InMask
  unfolding seek readmsgdatas
  InMask-IsShowKept n within = record {
    seeks = λ place r p. p;
    points = λ d r p. p;
    shows = λ again i h r e same there p.
        show_header-displayed v (All (λ h. mask h.msg_number ≡ true)) n again i h r p
          (λ allowed. (ap mask same ∙ within, p));
  }

  showmsg-InMask :
      (n : ℕ) (again : Bool) (r : Reading)
      → mask n ≡ true
      → InMask r
      → InMask (showmsg v n again r).0 × ((showmsg v n again r).0.msgnum ≡ r.msgnum)
  showmsg-InMask n again r within p = (
    showmsg-keeps v n InMask (InMask-IsShowKept n within) again r p,
    showmsg-keeps v n (λ s. s.msgnum ≡ r.msgnum) (msgnum-IsShowKept v n r.msgnum) again r refl,
  )

  visit-InMask :
      (n : ℕ) (r : Reading)
      → InMask r
      → InMask (visit v (some mask) n r).0
        × ((visit v (some mask) n r).0.msgnum ≡ n)
        × ((visit v (some mask) n r).1 ≡ true → mask n ≡ true)
  unfolding visit masked_in
  visit-InMask n r p = elim (Bool-cases (mask n)) [
    | inl within ↦
        let there = showmsg-InMask n false (record r { msgnum = n }) within p in
        simp within (there.0, there.1, λ done. refl)
    | inr skipped ↦ simp skipped (p, refl, λ done. absurd (ground arith))
  ]

  chosen :
      (b : Bool) (x y : ℕ)
      → (b ≡ true → mask x ≡ true)
      → mask y ≡ true
      → mask (if b then x else y) ≡ true
  chosen true x y h k = h refl
  chosen false x y h k = k

  next_up-Good : (left : ℕ) (r : Reading) → InMask r → Good (next_up v (some mask) left r)
  unfolding next_up
  next_up-Good zero r p = p
  next_up-Good (suc left) r p =
      let there = visit-InMask (r.msgnum + 1) r p in
      elim (Bool-cases (visit v (some mask) (r.msgnum + 1) r).1) [
        | inl done ↦ simp done (there.0, ap mask there.1 ∙ there.2 done)
        | inr on ↦ simp on (next_up-Good left _ there.0)
      ]

  next_down-Good :
      (last left : ℕ) (r : Reading)
      → mask last ≡ true
      → InMask r
      → Good (next_down v (some mask) last left r)
  unfolding next_down masked_in
  next_down-Good last zero r within p = (p, within)
  next_down-Good last (suc left) r within p =
      let n = r.msgnum - 1 in
      let there = visit-InMask n r p in
      elim (Bool-cases (visit v (some mask) n r).1) [
        | inl done ↦ simp done (there.0, ap mask there.1 ∙ there.2 done)
        | inr on ↦ simp on (
            next_down-Good (if mask n then n else last) left _
              (chosen (mask n) n last (λ e. e) within) there.0)
      ]

  next_message-Good :
      (r : Reading) → InMask r → mask r.msgnum ≡ true → Good (next_message v (some mask) r)
  unfolding next_message
  next_message-Good r p within = elim (Bool-cases (ltb r.msgnum r.mail.lowest)) [
    | inl low ↦ simp low (p, within)
    | inr above ↦ elim (Bool-cases (ltb r.mail.highest r.msgnum)) [
      | inl high ↦ simp (above, high) p
      | inr below ↦ elim (Bool-cases r.forward) [
        | inl up ↦ simp (above, below, up) (next_up-Good _ r p)
        | inr down ↦ simp (above, below, down) (next_down-Good r.msgnum _ r within p)
      ]
    ]
  ]

  show_number-Good :
      (n : ℕ) (r : Reading)
      → mask n ≡ true
      → InMask r
      → mask r.msgnum ≡ true
      → Good (prompting (show_number v n r))
  unfolding show_number
  show_number-Good n r within p current =
      let there = showmsg-InMask n false (record r { msgnum = n }) within p in
      elim (Bool-cases (is_shown (showmsg v n false (record r { msgnum = n })).1)) [
        | inl seen ↦ simp seen (there.0, ap mask there.1 ∙ within)
        | inr refused ↦ simp refused (there.0, current)
      ]

  read_number-Good :
      (n : Option ℕ) (r : Reading)
      → InMask r
      → mask r.msgnum ≡ true
      → Good (read_number v (some mask) false n r)
  unfolding read_number masked_in
  read_number-Good none r p current = (p, current)
  read_number-Good (some n) r p current =
      elim (Bool-cases (n == 0 || ltb r.mail.highest n || ltb n r.mail.lowest || not (mask n))) [
        | inl out ↦ simp out (p, current)
        | inr inside ↦ simp inside (
            show_number-Good n r
              (in_mask (n == 0 || ltb r.mail.highest n || ltb n r.mail.lowest) (mask n) inside) p
              current)
      ]

  -- `Good` as a rule for the branches of a command.
  record IsGood (out : Continued) : Type 0 where
    good : Good out

  is_good : {out : Continued} → Good out → IsGood out
  is_good h = record { good = h }

  if-IsGood : (c : Bool) (x y : Continued) → IsGood x → IsGood y → IsGood (if c then x else y)
  if-IsGood true x y h k = h
  if-IsGood false x y h k = k

  same-Good :
      (r s : Reading)
      → seen v o s ≡ seen v o r
      → InMask r
      → mask r.msgnum ≡ true
      → IsGood (prompting s)
  same-Good r s e p current = is_good (
      subst (λ (x : List Header × ℕ). All (λ h. mask h.msg_number ≡ true) x.0 × (mask x.1 ≡ true))
        (sym e) (p, current))

  read_command-IsGood :
      (line : Str) (r : Reading)
      → InMask r
      → mask r.msgnum ≡ true
      → IsGood (read_command v o (some mask) false line r)
  unfolding read_command
  read_command-IsGood line r p current =
      let again = showmsg-InMask r.msgnum false r current p in
      let a : IsGood (prompting (showmsg v r.msgnum false r).0) =
        is_good (again.0, ap mask again.1 ∙ current) in
      let d = same-Good r (deletemsg v r) (deletemsg-seen v o r) p current in
      let e : IsGood (left_out r) = is_good p in
      let k = same-Good r (keepmsg v o r) (keepmsg-seen v o r) p current in
      let c : IsGood (prompting r) = is_good (p, current) in
      let q : IsGood (closed r 2) = is_good p in
      let back : IsGood (prompting (record r { forward = false })) = is_good (p, current) in
      let on : IsGood (prompting (record r { forward = true })) = is_good (p, current) in
      let number : IsGood (read_number v (some mask) false (atoi line) r) =
        is_good (read_number-Good (atoi line) r p current) in
      search if-IsGood depth 12

  read_line-Good :
      (line : Str) (r : Reading)
      → InMask r
      → mask r.msgnum ≡ true
      → Good (read_line v o (some mask) false line r)
  unfolding read_line empty_line
  read_line-Good [] r p current = next_message-Good r p current
  read_line-Good (c ∷ line) r p current = (read_command-IsGood (c ∷ line) r p current).good

  read_session-Good :
      (lines : List Str) (out : Continued)
      → Good out
      → InMask (state_after (read_session v o (some mask) false lines out))
  unfolding read_session
  read_session-Good lines (closed r result) h = h
  read_session-Good lines (left_out r) h = h
  read_session-Good [] (prompting r) h = h.0
  read_session-Good (line ∷ lines) (prompting r) h =
      read_session-Good lines _ (read_line-Good line r h.0 h.1)

  -- A session that starts at a message of its mask shows only messages of the mask.
  pub readmessages-InMask :
      (n : ℕ) (lines : List Str) (r : Reading)
      → mask n ≡ true
      → InMask r
      → InMask (state_after (readmessages v o none (at_message n) (some mask) lines r))
  unfolding readmessages load seek readmsgdatas at_start first_turn is_scan
  readmessages-InMask n lines r within p = elim (Bool-cases (length r.mail.headers == 0)) [
    | inl empty ↦ simp empty p
    | inr full ↦
        let there = showmsg-InMask n true (record (load none r) { msgnum = n }) within p in
        simp full (
          read_session-Good lines (first_turn v (some mask) false (at_message n) (load none r))
            (there.0, ap mask there.1 ∙ within))
  ]
