-- ===== src/Reader/Commands/Numbers.antt =====
-- The numbers of the messages of a base in which a user reads.
use daydream.Base.{
  ℕ, suc, ◌+◌, ◌-◌, ◌^◌, ◌%◌, ◌<◌, ◌≡◌, refl, sym, ap, ◌∙◌, Bool, true, List, [], ◌∷◌, ◌++◌, Option,
  none, some, arith, inl, inr, Bool-cases, length, map-append, length-append,
}
use mathlib.Core.Path.{subst}
use daydream.Base.CString.{Str}
use daydream.Message.{Header}
use daydream.Message.Save.{Mail, Opens, getmsgptrs, setmsgptrs}
use daydream.Message.Numbered.{IsNumbered}
use daydream.Reader.{Viewer, Reading, seek, readmsgdatas, updatemsgdatas}
use daydream.Reader.Edits.{
  deletemsg, flag_deleted, keepmsg, keep_header, append_header, header_at, may_keep, next_highest,
  kept_header, rename_text, set_pointers,
}
use daydream.Reader.Commands.{Start, load, readmessages, first_place, at_start}
use daydream.Reader.Commands.Kept.{IsKept, state_after, readmessages-Leaves}
use daydream.Reader.Commands.Rising.{
  numbers, InPlace, Rising, rising, ascending, bounded, Rising-snoc, seek-InPlace,
}
use daydream.Reader.Commands.Counted.{
  Counted, show_header-Counted, delete_header-Counted, updated-Counted,
}

module _ (v : Viewer) (o : Opens) (size high : ℕ) where
  next_highest-highest : (m : Mail) → (next_highest o m).highest ≡ m.msp_high + 1
  unfolding next_highest getmsgptrs setmsgptrs set_pointers
  next_highest-highest m = elim (Bool-cases o.can_ptr) [ inl e ↦ simp e refl | inr e ↦ simp e refl ]

  next_highest-msp_high :
      (m : Mail) → o.can_ptr ≡ true → (next_highest o m).msp_high ≡ (m.msp_high + 1) % 2 ^ 16
  unfolding next_highest getmsgptrs setmsgptrs set_pointers
  next_highest-msp_high m can = elim (Bool-cases o.can_ptr) [
    | inl e ↦ simp e refl
    | inr e ↦ simp e (absurd (ground (arith, can, e)))
  ]

  next_highest-headers : (m : Mail) → (next_highest o m).headers ≡ m.headers
  unfolding next_highest getmsgptrs setmsgptrs set_pointers
  next_highest-headers m = elim (Bool-cases o.can_ptr) [ inl e ↦ simp e refl | inr e ↦ simp e refl ]

  rename_text-headers :
      (old new : ℕ) (t : Option Str) (m : Mail) → (rename_text old new t m).headers ≡ m.headers
  unfolding rename_text
  rename_text-headers old new none m = refl
  rename_text-headers old new (some text) m = refl

  rename_text-msp_high :
      (old new : ℕ) (t : Option Str) (m : Mail) → (rename_text old new t m).msp_high ≡ m.msp_high
  unfolding rename_text
  rename_text-msp_high old new none m = refl
  rename_text-msp_high old new (some text) m = refl

  -- A record under the next number, appended to the file.
  appended-Counted :
      (r : Reading) (msg : Header) (s : Reading)
      → Counted size high r
      → s.mail.headers ≡ r.mail.headers
      → s.mail.msp_high ≡ (r.mail.msp_high + 1) % 2 ^ 16
      → msg.msg_number ≡ (r.mail.msp_high + 1) % 2 ^ 16
      → o.can_dat ≡ true
      → Counted size high (append_header o msg s)
  unfolding append_header seek readmsgdatas
  appended-Counted r msg s p same next number can =
      let hs = s.mail.headers in
      let long : length (hs ++ msg ∷ []) ≡ suc (length r.mail.headers) =
        omega (arith, length-append hs (msg ∷ []), ap length same) in
      let nums : numbers (hs ++ msg ∷ []) ≡ numbers r.mail.headers ++ msg.msg_number ∷ [] =
        map-append (λ h. h.msg_number) hs (msg ∷ [])
        ∙ ap (λ gs. numbers gs ++ msg.msg_number ∷ []) same in
      simp can (
        omega (arith, long, p.0),
        seek-InPlace s.oldseekpoint
            (record s { mail = let m = s.mail in record m { headers = hs ++ msg ∷ [] } }),
        λ small.
            let before = p.2 (omega (arith, long, small, p.0)) in
            let n : msg.msg_number ≡ suc r.mail.msp_high =
              omega (arith, number, before.0, long, small, p.0) in
            let top : s.mail.msp_high ≡ msg.msg_number = omega (arith, next, number) in
            (
              omega (arith, top, n, before.0, long, p.0),
              subst (λ k. Rising 0 k (numbers (hs ++ msg ∷ []))) (sym top)
                  (subst (Rising 0 msg.msg_number) (sym nums) (
                    Rising-snoc 0 r.mail.msp_high msg.msg_number (numbers r.mail.headers) before.1
                      (omega arith) (omega (arith, n)))),
            ),
      )

  keep_header-Counted :
      (h : Option Header) (r : Reading)
      → o.can_ptr ≡ true
      → o.can_dat ≡ true
      → Counted size high r
      → Counted size high (keep_header v o h r)
  unfolding keep_header kept_header
  keep_header-Counted none r ptr dat p = p
  keep_header-Counted (some h) r ptr dat p = elim (Bool-cases (may_keep v h)) [
    | inl may ↦
        let m = next_highest o r.mail in
        let msg = kept_header h m.highest in
        let t = m.texts h.msg_number in
        let s = record (flag_deleted r r.daheader h) {
          mail = rename_text h.msg_number msg.msg_number t m;
        } in
        simp may (
          appended-Counted r msg s p
            (rename_text-headers h.msg_number msg.msg_number t m ∙ next_highest-headers r.mail)
            (rename_text-msp_high h.msg_number msg.msg_number t m
              ∙ next_highest-msp_high r.mail ptr)
            (ap (λ n. n % 2 ^ 16) (next_highest-highest r.mail)) dat)
    | inr refused ↦ simp refused p
  ]

  Counted-IsKept : o.can_ptr ≡ true → o.can_dat ≡ true → IsKept v o (Counted size high)
  unfolding seek readmsgdatas deletemsg keepmsg load
  Counted-IsKept ptr dat = record {
    showing = λ n. record {
      seeks = λ place r p. (p.0, seek-InPlace place r, p.2);
      points = λ d r p. p;
      shows = λ again i h r e same there p. show_header-Counted v o size high n again i h r e p;
    };
    moves = λ n r p. p;
    turns = λ f r p. p;
    scans = λ n r p. p;
    deletes = λ r p. delete_header-Counted v o size high (header_at r.daheader r.msgbuf) r refl p;
    keeps = λ r p.
        keep_header-Counted _ (updatemsgdatas o r) ptr dat (updated-Counted v o size high r p);
    loads = λ cseekp r p. (p.0, seek-InPlace (first_place cseekp r) (at_start r), p.2);
    refreshes = λ r p. p;
  }

-- The number of messages that a session of the reader adds.
abbrev pub added : Reading → Reading → ℕ
added r after = length after.mail.headers - length r.mail.headers

-- A session up to its end, or to the first of the commands e, eh, r, re, ] and [, leaves a base whose messages
-- are numbered in ascending order up to the highest number of msgbase.ptr, which has grown by one for each
-- message that was kept, if this number stays below 65536, the files can be opened, and no window was
-- loaded before.
pub readmessages-IsNumbered :
    (v : Viewer) (o : Opens) (cseekp : Option ℕ) (start : Start) (mask : Option (ℕ → Bool))
    (lines : List Str) (r : Reading)
    → IsNumbered r.mail
    → r.bread ≡ 0
    → o.can_ptr ≡ true
    → o.can_dat ≡ true
    → r.mail.msp_high + added r (state_after (readmessages v o cseekp start mask lines r)) < 2 ^ 16
    → IsNumbered (state_after (readmessages v o cseekp start mask lines r)).mail
      × ((state_after (readmessages v o cseekp start mask lines r)).mail.msp_high
          ≡ r.mail.msp_high + added r (state_after (readmessages v o cseekp start mask lines r)))
readmessages-IsNumbered v o cseekp start mask lines r k empty ptr dat small =
    let size = length r.mail.headers in
    let high = r.mail.msp_high in
    let out = state_after (readmessages v o cseekp start mask lines r) in
    let window : InPlace r.msgbuf r.bread r.oldseekpoint r.mail.headers =
      subst (λ b. InPlace r.msgbuf b r.oldseekpoint r.mail.headers) (sym empty) refl in
    let begin : Counted size high r = (
      omega arith,
      window,
      λ s. (omega arith, rising 0 high r.mail.headers k.ascending k.bounded),
    ) in
    let done =
      readmessages-Leaves v o (Counted size high) (Counted-IsKept v o size high ptr dat) cseekp
        start mask lines r begin in
    let last = done.after.2 small in
    (
      record {
        ascending = ascending 0 out.mail.msp_high out.mail.headers last.1;
        bounded = bounded 0 out.mail.msp_high out.mail.headers last.1;
      },
      last.0,
    )
