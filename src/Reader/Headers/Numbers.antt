-- ===== src/Reader/Headers/Numbers.antt =====
-- The numbers of the messages when a header is edited.
use daydream.Base.{
  ℕ, ◌≡◌, refl, sym, ap, ◌∙◌, Bool, true, false, List, Option, none, some, inl, inr, Bool-cases,
  if◌then◌else◌, map-set, take, drop,
}
use mathlib.Core.Path.{subst}
use daydream.Base.CString.{Str}
use daydream.Message.{Header}
use daydream.Message.Numbered.{IsNumbered}
use daydream.Reader.{Viewer, Reading, is_flagged, updatemsgdatas, write_window}
use daydream.Message.Save.{Opens}
use daydream.Reader.Edits.{header_at}
use daydream.Reader.Commands.Rising.{
  numbers, InPlace, Rising, rising, ascending, bounded, write_window-numbers,
}
use daydream.Reader.Headers.{may_edit, edit_author, put_header, edit_header, editmsghdr}
use daydream.Reader.Headers.Rules.{edit_author-Draft}

-- The numbers are those of before, in the file and in the window.
abbrev Numbered : Reading → Reading → Type 0
Numbered r s =
    (numbers s.mail.headers ≡ numbers r.mail.headers)
    × (s.mail.msp_high ≡ r.mail.msp_high)
    × InPlace s.msgbuf s.bread s.oldseekpoint s.mail.headers

write_window-Numbered :
    (r : Reading)
    → InPlace r.msgbuf r.bread r.oldseekpoint r.mail.headers
    → Numbered r (write_window r)
unfolding write_window
write_window-Numbered r p =
    let same = write_window-numbers r p in
    (same, refl, p ∙ ap (λ ns. take r.bread (drop r.oldseekpoint ns)) (sym same))

updatemsgdatas-Numbered :
    (o : Opens) (r : Reading)
    → InPlace r.msgbuf r.bread r.oldseekpoint r.mail.headers
    → Numbered r (updatemsgdatas o r)
unfolding updatemsgdatas
updatemsgdatas-Numbered o r p = elim (Bool-cases o.can_dat) [
  | inl can ↦ simp can (write_window-Numbered r p)
  | inr cannot ↦ simp cannot (refl, refl, p)
]

put_header-Numbered :
    (r : Reading) (d : Option ℕ) (h g : Header)
    → header_at d r.msgbuf ≡ some h
    → g.msg_number ≡ h.msg_number
    → InPlace r.msgbuf r.bread r.oldseekpoint r.mail.headers
    → Numbered r (put_header r d g)
unfolding put_header header_at
put_header-Numbered r none h g e same p = (refl, refl, p)
put_header-Numbered r (some i) h g e same p =
    (refl, refl, ap (take r.bread) (map-set (λ h. h.msg_number) r.msgbuf i h g e same) ∙ p)

written-Numbered :
    (o : Opens) (r s : Reading) (done : Bool)
    → Numbered r s
    → Numbered r (if done then updatemsgdatas o s else s)
written-Numbered o r s false p = p
written-Numbered o r s true p =
    let back = updatemsgdatas-Numbered o s p.2 in (back.0 ∙ p.0, back.1 ∙ p.1, back.2)

edit_header-Numbered :
    (v : Viewer) (o : Opens) (area key : ℕ) (ts : List Str) (r : Reading) (at : Option Header)
    → header_at r.daheader r.msgbuf ≡ at
    → InPlace r.msgbuf r.bread r.oldseekpoint r.mail.headers
    → Numbered r (edit_header v o area key ts r at)
unfolding edit_header
edit_header-Numbered v o area key ts r none e p = (refl, refl, p)
edit_header-Numbered v o area key ts r (some h) e p =
    let out = edit_author v area key h ts in
    let same = (edit_author-Draft v area key h ts).number in
    let done =
      written-Numbered o r (put_header r r.daheader out.0) out.1
        (put_header-Numbered r r.daheader h out.0 e same p) in
    elim (Bool-cases (is_flagged h)) [
      | inl deleted ↦ simp deleted (refl, refl, p)
      | inr there ↦ elim (Bool-cases (may_edit v h)) [
        | inl may ↦ simp (there, may) done
        | inr refused ↦ simp (there, refused) (refl, refl, p)
      ]
    ]

-- The command keeps a base whose messages are numbered in ascending order up to the highest number, and a
-- window whose numbers are those at its place in the file.
pub editmsghdr-IsNumbered :
    (v : Viewer) (o : Opens) (area key : ℕ) (ts : List Str) (r : Reading)
    → IsNumbered r.mail
    → InPlace r.msgbuf r.bread r.oldseekpoint r.mail.headers
    → let s = editmsghdr v o area key ts r in
      IsNumbered s.mail × InPlace s.msgbuf s.bread s.oldseekpoint s.mail.headers
unfolding editmsghdr
editmsghdr-IsNumbered v o area key ts r k p =
    let s = editmsghdr v o area key ts r in
    let (same, high, window) =
      edit_header-Numbered v o area key ts r (header_at r.daheader r.msgbuf) refl p in
    let up = subst (Rising 0 s.mail.msp_high) (sym same) (
      subst (λ n. Rising 0 n (numbers r.mail.headers)) (sym high)
        (rising 0 r.mail.msp_high r.mail.headers k.ascending k.bounded)) in
    (
      record {
        ascending = ascending 0 s.mail.msp_high s.mail.headers up;
        bounded = bounded 0 s.mail.msp_high s.mail.headers up;
      },
      window,
    )
