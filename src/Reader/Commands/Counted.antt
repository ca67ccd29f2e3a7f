-- ===== src/Reader/Commands/Counted.antt =====
-- The count of the messages of a base, and the steps that add none.
use daydream.Base.{
  ℕ, ◌+◌, ◌-◌, ◌^◌, ◌≤◌, ◌<◌, ◌≡◌, refl, sym, ap, ◌∙◌, Bool, List, [], ◌∷◌, Option, none, some,
  arith, inl, inr, Bool-cases, ◌&&◌, not, ltb, get_elem?, set, take, drop, length, map-set,
}
use mathlib.Core.Path.{subst}
use daydream.Message.{Header, is_private}
use daydream.Message.Save.{Opens}
use daydream.Reader.{
  Viewer, Reading, is_flagged, show_header, count_reading, mark_read, updatemsgdatas, write_window,
  text_exists, may_read,
}
use daydream.Reader.Edits.{delete_header, flag_deleted, header_at, may_delete, unlink_text}
use daydream.Reader.Commands.Rising.{numbers, InPlace, Rising, write_window-numbers}

-- The window is in its place. Each kept message adds a record; while the numbers fit 16 bits, the highest
-- number is `high` and one for each record behind the first `size`, and the numbers ascend up to it.
abbrev pub Counted : ℕ → ℕ → Reading → Type 0
Counted size high r =
    (size ≤ length r.mail.headers)
    × InPlace r.msgbuf r.bread r.oldseekpoint r.mail.headers
    × (high + (length r.mail.headers - size) < 2 ^ 16
        → (r.mail.msp_high ≡ high + (length r.mail.headers - size))
          × Rising 0 r.mail.msp_high (numbers r.mail.headers))

pub length-numbers : (hs : List Header) → length (numbers hs) ≡ length hs
length-numbers [] = refl
length-numbers (h ∷ hs) = omega (arith, length-numbers hs)

module _ (v : Viewer) (o : Opens) (size high : ℕ) where
  mark_read-Counted :
      (n : ℕ) (again : Bool) (r : Reading)
      → Counted size high r
      → Counted size high (mark_read n again r)
  unfolding mark_read
  mark_read-Counted n again r p = elim (Bool-cases (ltb r.lrp n && not again)) [
    | inl e ↦ simp e p
    | inr e ↦ simp e p
  ]

  -- A record of the window is written again under its number.
  written-InPlace :
      (r : Reading) (i : ℕ) (h g : Header)
      → get_elem? r.msgbuf i ≡ some h
      → g.msg_number ≡ h.msg_number
      → InPlace r.msgbuf r.bread r.oldseekpoint r.mail.headers
      → InPlace (set r.msgbuf i g) r.bread r.oldseekpoint r.mail.headers
  written-InPlace r i h g e same p =
      ap (take r.bread) (map-set (λ h. h.msg_number) r.msgbuf i h g e same) ∙ p

  count_reading-Counted :
      (i : ℕ) (h : Header) (n : ℕ) (r : Reading)
      → get_elem? r.msgbuf i ≡ some h
      → Counted size high r
      → Counted size high (count_reading i h n r)
  unfolding count_reading
  count_reading-Counted i h n r e p = elim (Bool-cases (ltb n r.lrp)) [
    | inl seen ↦ simp seen (p.0, written-InPlace r i h _ e refl p.1, p.2)
    | inr new ↦ simp new p
  ]

  mark_read-msgbuf : (n : ℕ) (again : Bool) (r : Reading) → (mark_read n again r).msgbuf ≡ r.msgbuf
  unfolding mark_read
  mark_read-msgbuf n again r = ground arith

  pub show_header-Counted :
      (n : ℕ) (again : Bool) (i : ℕ) (h : Header) (r : Reading)
      → get_elem? r.msgbuf i ≡ some h
      → Counted size high r
      → Counted size high (show_header v n again i h r).0
  unfolding show_header
  show_header-Counted n again i h r e p =
      let read = mark_read-Counted n again r p in
      elim (Bool-cases (is_private h && not (may_read v h))) [
        | inl refused ↦ simp refused read
        | inr allowed ↦ elim (Bool-cases (text_exists r.mail n)) [
          | inl there ↦
              simp (allowed, there)
                (count_reading-Counted i h n (mark_read n again r)
                  (ap (λ b. get_elem? b i) (mark_read-msgbuf n again r) ∙ e) read)
          | inr gone ↦ simp (allowed, gone) read
        ]
      ]

  flagged-Counted :
      (r : Reading) (d : Option ℕ) (h : Header) (n : ℕ)
      → header_at d r.msgbuf ≡ some h
      → Counted size high r
      → Counted size high (flag_deleted (record r { mail = unlink_text n r.mail }) d h)
  unfolding flag_deleted unlink_text header_at
  flagged-Counted r none h n e p = p
  flagged-Counted r (some i) h n e p = (p.0, written-InPlace r i h _ e refl p.1, p.2)

  pub delete_header-Counted :
      (h : Option Header) (r : Reading)
      → header_at r.daheader r.msgbuf ≡ h
      → Counted size high r
      → Counted size high (delete_header v h r)
  unfolding delete_header
  delete_header-Counted none r e p = p
  delete_header-Counted (some h) r e p = elim (Bool-cases (is_flagged h)) [
    | inl gone ↦ simp gone p
    | inr there ↦ elim (Bool-cases (may_delete v h)) [
      | inl may ↦ simp (there, may) (flagged-Counted r r.daheader h h.msg_number e p)
      | inr refused ↦ simp (there, refused) p
    ]
  ]

  -- Writing the window back keeps the numbers.
  written-Counted : (r : Reading) → Counted size high r → Counted size high (write_window r)
  unfolding write_window
  written-Counted r p =
      let same = write_window-numbers r p.1 in
      let long : length (write_window r).mail.headers ≡ length r.mail.headers =
        sym (length-numbers (write_window r).mail.headers)
        ∙ ap length same
        ∙ length-numbers r.mail.headers in
      (
        omega (arith, long, p.0),
        p.1 ∙ ap (λ ns. take r.bread (drop r.oldseekpoint ns)) (sym same),
        λ small.
            let before = p.2 (omega (arith, long, small)) in
            (omega (arith, long, before.0), subst (Rising 0 r.mail.msp_high) (sym same) before.1),
      )

  pub updated-Counted : (r : Reading) → Counted size high r → Counted size high (updatemsgdatas o r)
  unfolding updatemsgdatas
  updated-Counted r p = elim (Bool-cases o.can_dat) [
    | inl can ↦ simp can (written-Counted r p)
    | inr cannot ↦ simp cannot p
  ]
