-- ===== src/Reader/Headers/Rules.antt =====
-- What a user may change of a header.
use daydream.Base.{
  ℕ, zero, suc, ◌⊎◌, any, ◌&&◌, ◌≡◌, refl, sym, ap, ◌∙◌, Bool, true, false, not, ◌||◌, List, [],
  ◌∷◌, Option, none, some, All, arith, inl, inr, Bool-cases, ◌==◌, if◌then◌else◌, set, get_elem?,
}
use mathlib.Core.Path.{subst}
use daydream.Base.CString.{Str, codes, strcase_eq, strlcpy}
use daydream.Access.{has_bit}
use daydream.Message.{Header}
use daydream.Reader.{Viewer, Reading, is_flagged, updatemsgdatas}
use daydream.Message.Save.{Opens}
use daydream.Reader.Edits.{header_at}
use daydream.Reader.Headers.{
  may_edit, edit_private, new_receiver, edit_subject, edit_receiver, typed_author, edit_author,
  put_header, edit_header, editmsghdr,
}

-- The mark of a message to all by `eall`.
abbrev pub marks_all : Str → Bool
marks_all [] = false
marks_all (c ∷ t) = c == 255

-- What the questions may change.
pub record Draft (v : Viewer) (area : ℕ) (ts : List Str) (h g : Header) : Type 0 where
  pub number : g.msg_number ≡ h.msg_number
  author : (v.user_securitylevel == 255) ≡ false → g.msg_author ≡ h.msg_author
  privacy : (has_bit area 0 || has_bit area 1) ≡ true → g.msg_flags ≡ h.msg_flags
  mark :
      has_bit v.access1 20 ≡ false
      → All (λ t. marks_all t ≡ false) ts
      → marks_all g.msg_receiver ≡ true
      → g.msg_receiver ≡ h.msg_receiver

same_header : (v : Viewer) (area : ℕ) (ts : List Str) (h : Header) → Draft v area ts h h
same_header v area ts h = record {
  number = refl;
  author = λ e. refl;
  privacy = λ e. refl;
  mark = λ e a m. refl;
}

-- The question about privacy leaves all but the flags.
abbrev Same : ℕ → Header → Header → Type 0
Same area h g =
    (g.msg_number ≡ h.msg_number)
    × (g.msg_author ≡ h.msg_author)
    × (g.msg_receiver ≡ h.msg_receiver)
    × ((has_bit area 0 || has_bit area 1) ≡ true → g.msg_flags ≡ h.msg_flags)

edit_private-Same : (area key : ℕ) (h : Header) → Same area h (edit_private area key h)
unfolding edit_private
edit_private-Same area key h = elim (Bool-cases (has_bit area 0 || has_bit area 1)) [
  | inl fixed ↦ simp fixed (refl, refl, refl, λ e. refl)
  | inr asked ↦ elim (Bool-cases (key == 2)) [
    | inl public ↦ simp (asked, public) (refl, refl, refl, λ e. absurd (ground (arith, e, asked)))
    | inr private ↦ simp (asked, private) (refl, refl, refl, λ e. absurd (ground (arith, e, asked)))
  ]
]

edit_subject-Same :
    (area key : ℕ) (h : Header) (ts : List Str) → Same area h (edit_subject area key h ts).0
unfolding edit_subject
edit_subject-Same area key h [] = (refl, refl, refl, λ e. refl)
edit_subject-Same area key h (t ∷ ts) = edit_private-Same area key (record h { msg_subject = t })

marks_all-strlcpy : (t : Str) → marks_all (strlcpy t 26) ≡ marks_all t
unfolding strlcpy
marks_all-strlcpy [] = refl
marks_all-strlcpy (c ∷ t) = refl

marks_all-new_receiver :
    (v : Viewer) (receiver foobuf : Str)
    → has_bit v.access1 20 ≡ false
    → marks_all foobuf ≡ false
    → marks_all (new_receiver v receiver foobuf) ≡ false
unfolding new_receiver
marks_all-new_receiver v receiver foobuf right plain =
    elim (Bool-cases (strcase_eq foobuf (codes "eall"))) [
      | inl eall ↦ simp (eall, right) refl
      | inr other ↦ elim (Bool-cases (strcase_eq foobuf (codes "all"))) [
        | inl all ↦ simp (other, all) refl
        | inr name ↦ simp (other, name) (marks_all-strlcpy foobuf ∙ plain)
      ]
    ]

edit_receiver-Draft :
    (v : Viewer) (area key : ℕ) (h : Header) (ts : List Str)
    → Draft v area ts h (edit_receiver v area key h ts).0
      × ((edit_receiver v area key h ts).0.msg_author ≡ h.msg_author)
unfolding edit_receiver
edit_receiver-Draft v area key h [] = (same_header v area [] h, refl)
edit_receiver-Draft v area key h (foobuf ∷ ts) =
    let receiver = new_receiver v h.msg_receiver foobuf in
    let (number, author, same, flags) =
      edit_subject-Same area key (record h { msg_receiver = receiver }) ts in
    (
      record {
        number = number;
        author = λ e. author;
        privacy = flags;
        mark = λ right plain marked.
            let unmarked = marks_all-new_receiver v h.msg_receiver foobuf right plain.0 in
            absurd (ground (arith, ap marks_all same, unmarked, marked));
      },
      author,
    )

typed_author-Draft :
    (v : Viewer) (area key : ℕ) (h : Header) (ts : List Str)
    → (v.user_securitylevel == 255) ≡ true
    → Draft v area ts h (typed_author v area key h ts).0
unfolding typed_author
typed_author-Draft v area key h [] sysop = same_header v area [] h
typed_author-Draft v area key h (t ∷ ts) sysop =
    let (draft, _) = edit_receiver-Draft v area key (record h { msg_author = t }) ts in
    record {
      number = draft.number;
      author = λ e. absurd (ground (arith, e, sysop));
      privacy = draft.privacy;
      mark = λ right plain. draft.mark right plain.1;
    }

pub edit_author-Draft :
    (v : Viewer) (area key : ℕ) (h : Header) (ts : List Str)
    → Draft v area ts h (edit_author v area key h ts).0
unfolding edit_author
edit_author-Draft v area key h ts = elim (Bool-cases (v.user_securitylevel == 255)) [
  | inr user ↦ simp user (edit_receiver-Draft v area key h ts).0
  | inl sysop ↦ simp sysop (typed_author-Draft v area key h ts sysop)
]

set-found :
    (hs : List Header) (i : ℕ) (h g : Header)
    → get_elem? hs i ≡ some h
    → get_elem? (set hs i g) i ≡ some g
set-found [] i h g e = cc e
set-found (x ∷ hs) zero h g e = refl
set-found (x ∷ hs) (suc i) h g e = set-found hs i h g e

-- The window with the edited header, whether it is written back or not.
updatemsgdatas-msgbuf : (o : Opens) (r : Reading) → (updatemsgdatas o r).msgbuf ≡ r.msgbuf
unfolding updatemsgdatas
updatemsgdatas-msgbuf o r = elim (Bool-cases o.can_dat) [
  | inl can ↦ simp can refl
  | inr cannot ↦ simp cannot refl
]

put_header-set :
    (r : Reading) (d : Option ℕ) (h g : Header)
    → header_at d r.msgbuf ≡ some h
    → header_at d (put_header r d g).msgbuf ≡ some g
unfolding put_header header_at
put_header-set r none h g e = cc e
put_header-set r (some i) h g e = set-found r.msgbuf i h g e

put_header-found :
    (o : Opens) (r : Reading) (d : Option ℕ) (h g : Header) (done : Bool)
    → header_at d r.msgbuf ≡ some h
    → let put = put_header r d g in
      header_at d (if done then updatemsgdatas o put else put).msgbuf ≡ some g
put_header-found o r d h g false e = put_header-set r d h g e
put_header-found o r d h g true e =
    ap (header_at d) (updatemsgdatas-msgbuf o (put_header r d g)) ∙ put_header-set r d h g e

-- The header of a message and what the command leaves of it. It changes only if the message is not deleted and
-- is the user's own, by name, or the user has level 255; the author by level 255 only, the flags in a base for
-- private and public messages only, and to the mark of all the receiver by the right to it, unless a text is
-- typed that starts with the mark.
pub record Edited (v : Viewer) (area : ℕ) (ts : List Str) (h g : Header) : Type 0 where
  pub number : g.msg_number ≡ h.msg_number
  pub rights : ((not (is_flagged h) && may_edit v h) ≡ true) ⊎ (g ≡ h)
  pub author : ((v.user_securitylevel == 255) ≡ true) ⊎ (g.msg_author ≡ h.msg_author)
  pub privacy : ((has_bit area 0 || has_bit area 1) ≡ false) ⊎ (g.msg_flags ≡ h.msg_flags)
  pub mark :
      ((has_bit v.access1 20 || any marks_all ts || not (marks_all g.msg_receiver)) ≡ true)
      ⊎ (g.msg_receiver ≡ h.msg_receiver)

either : {A : Type 0} (b : Bool) → (b ≡ false → A) → (b ≡ true) ⊎ A
either true f = inl refl
either false f = inr (f refl)

either_not : {A : Type 0} (b : Bool) → (b ≡ true → A) → (b ≡ false) ⊎ A
either_not true f = inr (f refl)
either_not false f = inl refl

unmarked : (ts : List Str) → any marks_all ts ≡ false → All (λ t. marks_all t ≡ false) ts
unmarked [] e = tt
unmarked (t ∷ ts) e = (ground arith, unmarked ts (ground arith))

draft-Edited :
    (v : Viewer) (area : ℕ) (ts : List Str) (h g : Header)
    → (not (is_flagged h) && may_edit v h) ≡ true
    → Draft v area ts h g
    → Edited v area ts h g
draft-Edited v area ts h g may d = record {
  number = d.number;
  rights = inl may;
  author = either (v.user_securitylevel == 255) d.author;
  privacy = either_not (has_bit area 0 || has_bit area 1) d.privacy;
  mark =
      either (has_bit v.access1 20 || any marks_all ts || not (marks_all g.msg_receiver))
        (λ none_of. d.mark (ground arith) (unmarked ts (ground arith)) (ground arith));
}

unchanged-Edited : (v : Viewer) (area : ℕ) (ts : List Str) (h : Header) → Edited v area ts h h
unchanged-Edited v area ts h = record {
  number = refl;
  rights = inr refl;
  author = inr refl;
  privacy = inr refl;
  mark = inr refl;
}

-- What the command leaves of a header at a place of the window.
abbrev pub LeavesHeader : Viewer → ℕ → List Str → Option ℕ → Header → Reading → Type 0
LeavesHeader v area ts d h s = (g : Header) × (header_at d s.msgbuf ≡ some g) × Edited v area ts h g

edit_header-LeavesHeader :
    (v : Viewer) (o : Opens) (area key : ℕ) (ts : List Str) (r : Reading) (h : Header)
    → header_at r.daheader r.msgbuf ≡ some h
    → LeavesHeader v area ts r.daheader h (edit_header v o area key ts r (some h))
unfolding edit_header
edit_header-LeavesHeader v o area key ts r h e =
    let out = edit_author v area key h ts in
    let kept : LeavesHeader v area ts r.daheader h r = (h, e, unchanged-Edited v area ts h) in
    elim (Bool-cases (is_flagged h)) [
      | inl deleted ↦ simp deleted kept
      | inr there ↦ elim (Bool-cases (may_edit v h)) [
        | inr refused ↦ simp (there, refused) kept
        | inl may ↦
            simp (there, may)
              (
                out.0,
                put_header-found o r r.daheader h out.0 out.1 e,
                draft-Edited v area ts h out.0 (ground arith) (edit_author-Draft v area key h ts),
              )
      ]
    ]

-- The header at the prompt changes by `editmsghdr` only if its message is not deleted and is the user's own, by
-- name, or the user has level 255. The number stays, the author changes by level 255 only, the flags change
-- only in a base for private and public messages, and a receiver that is not kept is all by eall only
-- with the right to that, or if a text that is typed starts with its mark.
pub editmsghdr-Edited :
    (v : Viewer) (o : Opens) (area key : ℕ) (ts : List Str) (r : Reading) (h : Header)
    → header_at r.daheader r.msgbuf ≡ some h
    → LeavesHeader v area ts r.daheader h (editmsghdr v o area key ts r)
unfolding editmsghdr
editmsghdr-Edited v o area key ts r h e =
    subst (λ at. LeavesHeader v area ts r.daheader h (edit_header v o area key ts r at)) (sym e)
      (edit_header-LeavesHeader v o area key ts r h e)
