-- ===== src/Reader/Edits.antt =====
-- The commands of the reader that change messages: deleting and keeping, in main/readmsgs.c.
use daydream.Base.{
  ℕ, ◌+◌, ◌^◌, ◌%◌, Bool, ◌||◌, List, [], ◌∷◌, ◌++◌, Option, none, some, leb, ◌==◌, if◌then◌else◌,
  set, get_elem?,
}
use daydream.Base.CString.{Str, strcase_eq}
use daydream.Access.{has_bit}
use daydream.Message.{Header, set_bit}
use daydream.Message.Save.{Mail, Opens, getmsgptrs, setmsgptrs}
use daydream.Reader.{Viewer, Reading, seek, updatemsgdatas, is_flagged}

unfoldable pub header_at : Option ℕ → List Header → Option Header
header_at none msgbuf = none
header_at (some i) msgbuf = get_elem? msgbuf i

-- `daheader->MSG_FLAGS |= 1L << 1`
unfoldable pub flag_deleted : Reading → Option ℕ → Header → Reading
unfolding set_bit
flag_deleted r none h = r
flag_deleted r (some i) h = record r {
  msgbuf = set r.msgbuf i (record h { msg_flags = set_bit h.msg_flags 1 });
}

unfoldable pub unlink_text : ℕ → Mail → Mail
unlink_text n m = record m { texts = λ k. if k == n then none else m.texts k }

unfoldable pub may_delete : Viewer → Header → Bool
unfolding has_bit strcase_eq
may_delete v h =
    has_bit v.access1 28
    || strcase_eq v.user_handle h.msg_author
    || strcase_eq v.user_realname h.msg_author
    || strcase_eq v.user_handle h.msg_receiver
    || strcase_eq v.user_realname h.msg_receiver

unfoldable pub delete_header : Viewer → Option Header → Reading → Reading
unfolding may_delete flag_deleted unlink_text is_flagged
delete_header v none r = r
delete_header v (some h) r =
    let unlinked = record r { mail = unlink_text h.msg_number r.mail } in
    if is_flagged h then r else if may_delete v h then flag_deleted unlinked r.daheader h else r

-- `deletemsg`; the directory of attached files is left out.
unfoldable pub deletemsg : Viewer → Reading → Reading
unfolding delete_header header_at
deletemsg v r = delete_header v (header_at r.daheader r.msgbuf) r

unfoldable pub may_keep : Viewer → Header → Bool
unfolding strcase_eq
may_keep v h =
    strcase_eq h.msg_receiver v.user_handle
    || strcase_eq h.msg_receiver v.user_realname
    || leb v.cosysop_level v.user_securitylevel

-- `newrename` of the file of a text; without that file nothing changes.
unfoldable pub rename_text : ℕ → ℕ → Option Str → Mail → Mail
rename_text old new none m = m
rename_text old new (some text) m = record m {
  texts = λ k. if k == new then some text else if k == old then none else m.texts k;
}

-- The result of `setmsgptrs` is not looked at.
unfoldable pub set_pointers : Mail → Option Mail → Mail
set_pointers m none = m
set_pointers m (some m') = m'

-- `getmsgptrs(); highest++; setmsgptrs();`
unfoldable pub next_highest : Opens → Mail → Mail
unfolding getmsgptrs setmsgptrs set_pointers
next_highest o m =
    let next = record (getmsgptrs m) { highest = m.msp_high + 1 } in
    set_pointers next (setmsgptrs o next)

-- The copy of the message under a new number.
unfoldable pub kept_header : Header → ℕ → Header
unfolding set_bit
kept_header h number = record h {
  msg_number = number % 2 ^ 16;
  msg_flags = set_bit h.msg_flags 2;
  msg_received = 0;
}

unfoldable pub append_header : Opens → Header → Reading → Reading
unfolding seek
append_header o msg r =
    let m = r.mail in
    let appended =
      seek r.oldseekpoint (record r { mail = record m { headers = m.headers ++ msg ∷ [] } }) in
    if o.can_dat then appended else r

unfoldable pub keep_header : Viewer → Opens → Option Header → Reading → Reading
unfolding may_keep flag_deleted next_highest kept_header rename_text append_header
keep_header v o none r = r
keep_header v o (some h) r =
    let m = next_highest o r.mail in
    let msg = kept_header h m.highest in
    let renamed = rename_text h.msg_number msg.msg_number (m.texts h.msg_number) m in
    let kept = append_header o msg (record (flag_deleted r r.daheader h) { mail = renamed }) in
    if may_keep v h then kept else r

-- `keepmsg`
unfoldable pub keepmsg : Viewer → Opens → Reading → Reading
unfolding updatemsgdatas keep_header header_at
keepmsg v o r = let u = updatemsgdatas o r in keep_header v o (header_at u.daheader u.msgbuf) u
