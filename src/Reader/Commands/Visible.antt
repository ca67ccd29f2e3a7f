-- ===== src/Reader/Commands/Visible.antt =====
-- Who sees which message.
use daydream.Base.{
  ℕ, ◌≡◌, refl, sym, ap, ◌∙◌, Bool, true, false, not, ◌&&◌, List, [], Option, none, some, All,
  arith, inl, inr, Bool-cases,
}
use mathlib.Core.Path.{subst}
use daydream.Base.CString.{Str}
use daydream.Message.{Header, is_private}
use daydream.Message.Save.{Opens}
use daydream.Reader.{
  Viewer, Reading, is_flagged, may_read, show_header, seek, readmsgdatas, updatemsgdatas,
}
use daydream.Reader.Edits.{
  deletemsg, delete_header, flag_deleted, keepmsg, keep_header, append_header, header_at, may_keep,
  may_delete,
}
use daydream.Reader.Commands.{Start, load, readmessages}
use daydream.Reader.Showing.{show_header-displayed}
use daydream.Reader.Commands.Kept.{IsKept, Leaves, readmessages-Leaves}

-- The message is not deleted, and it is public or the user may read it.
pub record Permitted (v : Viewer) (h : Header) : Type 0 where
  pub not_deleted : is_flagged h ≡ false
  pub readable : is_private h ≡ true → may_read v h ≡ true

module _ (v : Viewer) (o : Opens) where
  abbrev pub AllPermitted : Reading → Type 0
  AllPermitted r = All (Permitted v) r.displayed

  -- A reading whose messages are those of another.
  same : (r s : Reading) → r.displayed ≡ s.displayed → AllPermitted s → AllPermitted r
  same r s e p = subst (All (Permitted v)) (sym e) p

  may_see :
      (h : Header)
      → (is_private h && not (may_read v h)) ≡ false
      → is_private h ≡ true
      → may_read v h ≡ true
  may_see h e private = ground arith

  show_header-AllPermitted :
      (n : ℕ) (again : Bool) (i : ℕ) (h : Header) (r : Reading)
      → is_flagged h ≡ false
      → AllPermitted r
      → AllPermitted (show_header v n again i h r).0
  show_header-AllPermitted n again i h r e p =
      show_header-displayed v (All (Permitted v)) n again i h r p
        (λ allowed. (record { not_deleted = e; readable = may_see h allowed }, p))

  -- What is displayed, and the number at the prompt.
  abbrev pub seen : Reading → List Header × ℕ
  seen r = (r.displayed, r.msgnum)

  flag_deleted-seen : (r : Reading) (d : Option ℕ) (h : Header) → seen (flag_deleted r d h) ≡ seen r
  unfolding flag_deleted
  flag_deleted-seen r none h = refl
  flag_deleted-seen r (some i) h = refl

  delete_header-seen : (h : Option Header) (r : Reading) → seen (delete_header v h r) ≡ seen r
  unfolding delete_header
  delete_header-seen none r = refl
  delete_header-seen (some h) r = elim (Bool-cases (is_flagged h)) [
    | inl gone ↦ simp gone refl
    | inr there ↦ elim (Bool-cases (may_delete v h)) [
      | inl may ↦ simp (there, may) (flag_deleted-seen _ r.daheader h)
      | inr refused ↦ simp (there, refused) refl
    ]
  ]

  append_header-seen : (h : Header) (r : Reading) → seen (append_header o h r) ≡ seen r
  unfolding append_header seek readmsgdatas
  append_header-seen h r = elim (Bool-cases o.can_dat) [
    | inl opened ↦ simp opened refl
    | inr failed ↦ simp failed refl
  ]

  keep_header-seen : (h : Option Header) (r : Reading) → seen (keep_header v o h r) ≡ seen r
  unfolding keep_header
  keep_header-seen none r = refl
  keep_header-seen (some h) r = elim (Bool-cases (may_keep v h)) [
    | inl may ↦ simp may (append_header-seen _ _ ∙ flag_deleted-seen r r.daheader h)
    | inr refused ↦ simp refused refl
  ]

  pub deletemsg-seen : (r : Reading) → seen (deletemsg v r) ≡ seen r
  unfolding deletemsg
  deletemsg-seen r = delete_header-seen (header_at r.daheader r.msgbuf) r

  updatemsgdatas-seen : (r : Reading) → seen (updatemsgdatas o r) ≡ seen r
  unfolding updatemsgdatas
  updatemsgdatas-seen r = elim (Bool-cases o.can_dat) [
    | inl can ↦ simp can refl
    | inr cannot ↦ simp cannot refl
  ]

  pub keepmsg-seen : (r : Reading) → seen (keepmsg v o r) ≡ seen r
  unfolding keepmsg
  keepmsg-seen r = keep_header-seen _ (updatemsgdatas o r) ∙ updatemsgdatas-seen r

  AllPermitted-IsKept : IsKept v o AllPermitted
  unfolding seek readmsgdatas load
  AllPermitted-IsKept = record {
    showing = λ n. record {
      seeks = λ place r p. p;
      points = λ d r p. p;
      shows = λ again i h r e same there p. show_header-AllPermitted n again i h r there p;
    };
    moves = λ n r p. p;
    turns = λ f r p. p;
    scans = λ n r p. p;
    deletes = λ r p. same (deletemsg v r) r (ap (λ x. x.0) (deletemsg-seen r)) p;
    keeps = λ r p. same (keepmsg v o r) r (ap (λ x. x.0) (keepmsg-seen r)) p;
    loads = λ cseekp r p. p;
    refreshes = λ r p. p;
  }

  -- Up to the first of the commands e, eh, r, re, ] and [, the reader shows only messages that are not deleted,
  -- and private ones only to their author, their receiver and those who may read all messages.
  pub readmessages-Permitted :
      (cseekp : Option ℕ) (start : Start) (mask : Option (ℕ → Bool)) (lines : List Str)
      (r : Reading)
      → r.displayed ≡ []
      → Leaves AllPermitted (readmessages v o cseekp start mask lines r)
  readmessages-Permitted cseekp start mask lines r e =
      readmessages-Leaves v o AllPermitted AllPermitted-IsKept cseekp start mask lines r
        (subst (All (Permitted v)) (sym e) tt)
