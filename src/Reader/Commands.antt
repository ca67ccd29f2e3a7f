-- ===== src/Reader/Commands.antt =====
-- The commands of the reader and its loop, `readmessages` of main/readmsgs.c. The lines typed are a list;
-- at its end the carrier is lost. A session ends as `left_out` at a command that is not modelled: editing,
-- replies, and the change of the base, after which the C loop goes on. The mask is a function of the number of the message.
pub mod Visible
pub mod Masked
pub mod Kept
pub mod Rising
mod Counted
pub mod Numbers
use daydream.Base.{
  ℕ, zero, suc, ◌+◌, ◌-◌, ◌^◌, ◌%◌, Bool, true, false, not, ◌&&◌, ◌||◌, List, [], ◌∷◌, ◌++◌, Option,
  none, some, ltb, leb, ◌==◌, if◌then◌else◌, length, set, get_elem?,
}
use daydream.Base.CString.{Str, codes, strcase_eq}
use daydream.Access.{has_bit}
use daydream.LineEd.{atoi}
use daydream.Message.{Header, set_bit}
use daydream.Message.Save.{Mail, Opens, getmsgptrs, setmsgptrs}
use daydream.Reader.Edits.{deletemsg, keepmsg}
use daydream.Reader.{
  Viewer, Reading, ShowResult, out_of_range, shown, deleted, no_right, seek, readmsgdatas,
  updatemsgdatas, showmsg, is_flagged,
}

-- What a command leaves: the prompt comes again, `readmessages` returns, or the model ends.
pub data Continued : Type 0 where
  prompting : Reading → Continued
  closed : Reading → ℕ → Continued
  left_out : Reading → Continued

unfoldable pub is_shown : ShowResult → Bool
is_shown shown = true
is_shown out_of_range = false
is_shown deleted = false
is_shown no_right = false

unfoldable pub masked_in : Option (ℕ → Bool) → ℕ → Bool
masked_in none n = true
masked_in (some mask) n = mask n

-- One number further: where the mask has it, it is shown. The Boolean says whether the step ends there.
unfoldable pub visit : Viewer → Option (ℕ → Bool) → ℕ → Reading → Reading × Bool
unfolding masked_in is_shown showmsg
visit v mask n r =
    let moved = record r { msgnum = n } in
    let (after, result) = showmsg v n false moved in
    if masked_in mask n then (after, is_shown result) else (moved, false)

-- Forward, with so many numbers up to the highest; behind it the reader ends.
unfoldable pub next_up : Viewer → Option (ℕ → Bool) → ℕ → Reading → Continued
unfolding visit
next_up v mask zero r = closed (record r { msgnum = r.msgnum + 1 }) 0
next_up v mask (suc k) r =
    let (after, done) = visit v mask (r.msgnum + 1) r in
    let rest = next_up v mask k after in if done then prompting after else rest

-- Backward, with so many numbers down to the lowest; `last` is the last one that was tried.
unfoldable pub next_down : Viewer → Option (ℕ → Bool) → ℕ → ℕ → Reading → Continued
unfolding visit masked_in
next_down v mask last zero r = prompting (record r { msgnum = last })
next_down v mask last (suc k) r =
    let n = r.msgnum - 1 in
    let (after, done) = visit v mask n r in
    let rest = next_down v mask (if masked_in mask n then n else last) k after in
    if done then prompting after else rest

-- The empty line.
unfoldable pub next_message : Viewer → Option (ℕ → Bool) → Reading → Continued
unfolding next_up next_down
next_message v mask r =
    if ltb r.msgnum r.mail.lowest
    then prompting r
    else if ltb r.mail.highest r.msgnum
    then closed r 0
    else if r.forward
    then next_up v mask (r.mail.highest - r.msgnum) r
    else next_down v mask r.msgnum (r.msgnum - r.mail.lowest) r

unfoldable pub show_number : Viewer → ℕ → Reading → Reading
unfolding is_shown showmsg
show_number v n r =
    let (after, result) = showmsg v n false (record r { msgnum = n }) in
    if is_shown result then after else record after { msgnum = r.msgnum; daheader = r.daheader }

-- A number; `scan` says that mail scan called, `cseekp != -1`.
unfoldable pub read_number : Viewer → Option (ℕ → Bool) → Bool → Option ℕ → Reading → Continued
unfolding masked_in show_number
read_number v mask scan none r = prompting r
read_number v mask scan (some n) r =
    let at = show_number v n r in
    if n == 0 || ltb r.mail.highest n || ltb n r.mail.lowest || not (masked_in mask n)
    then prompting r
    else if scan
    then closed (record r { lsp = if ltb r.lsp n then n else r.lsp }) 0
    else prompting at

unfoldable pub empty_line : Viewer → Option (ℕ → Bool) → Bool → Reading → Continued
unfolding next_message
empty_line v mask scan r =
    let next = next_message v mask r in
    if scan then closed (record r { lsp = r.msgnum }) 0 else next

-- The commands at which a session of the model ends: `editmsg`, `editmsghdr`, `replymsg`, and the changes of
-- the base, behind which the loop goes on with the window of the base before.
is_left_out : Str → Bool
unfolding strcase_eq
is_left_out line =
    strcase_eq line (codes "e")
    || strcase_eq line (codes "eh")
    || strcase_eq line (codes "r")
    || strcase_eq line (codes "re")
    || strcase_eq line (codes "]")
    || strcase_eq line (codes "[")

unfoldable pub read_command : Viewer → Opens → Option (ℕ → Bool) → Bool → Str → Reading → Continued
unfolding strcase_eq is_left_out showmsg deletemsg keepmsg read_number atoi
read_command v o mask scan line r =
    let (again, result) = showmsg v r.msgnum false r in
    let number = read_number v mask scan (atoi line) r in
    if strcase_eq line (codes "a")
    then prompting again
    else if strcase_eq line (codes "d")
    then prompting (deletemsg v r)
    else if is_left_out line
    then left_out r
    else if strcase_eq line (codes "k")
    then prompting (keepmsg v o r)
    else if strcase_eq line (codes "c")
    then prompting r
    else if strcase_eq line (codes "q")
    then closed r 2
    else if strcase_eq line (codes "-")
    then prompting (record r { forward = false })
    else if strcase_eq line (codes "+")
    then prompting (record r { forward = true })
    else number

-- A line that is typed at the prompt.
unfoldable pub read_line : Viewer → Opens → Option (ℕ → Bool) → Bool → Str → Reading → Continued
unfolding empty_line read_command
read_line v o mask scan [] r = empty_line v mask scan r
read_line v o mask scan (c ∷ line) r = read_command v o mask scan (c ∷ line) r

unfoldable pub read_session :
    Viewer → Opens → Option (ℕ → Bool) → Bool → List Str → Continued → Continued
read_session v o mask scan lines (closed r result) = closed r result
read_session v o mask scan lines (left_out r) = left_out r
read_session v o mask scan [] (prompting r) = closed r 0
read_session v o mask scan (line ∷ lines) (prompting r) =
    read_session v o mask scan lines (read_line v o mask scan line r)

-- The argument `premsg`: 0, a number, or -1.
pub data Start : Type 0 where
  at_prompt at_next : Start
  at_message : ℕ → Start

unfoldable pub first_turn : Viewer → Option (ℕ → Bool) → Bool → Start → Reading → Continued
unfolding showmsg empty_line
first_turn v mask scan at_prompt r = prompting r
first_turn v mask scan at_next r = empty_line v mask scan r
first_turn v mask scan (at_message n) r = prompting (showmsg v n true (record r { msgnum = n })).0

-- `cseekp` is a record, or -1.
unfoldable pub first_place : Option ℕ → Reading → ℕ
first_place none r = length r.mail.headers - 100
first_place (some place) r = place

-- What is set before the first window is read, but `msgnum`, which nothing reads before it is set.
unfoldable pub at_start : Reading → Reading
unfolding getmsgptrs
at_start r = record r {
  mail = getmsgptrs r.mail;
  msgbasesize = length r.mail.headers;
  daheader = none;
  msgnum = r.lrp;
  forward = true;
}

unfoldable pub load : Option ℕ → Reading → Reading
unfolding first_place at_start seek
load cseekp r = seek (first_place cseekp r) (at_start r)

unfoldable pub is_scan : Option ℕ → Bool
is_scan none = false
is_scan (some place) = true

-- `readmessages(cseekp, premsg, mask)`, for a conference with message bases.
unfoldable pub readmessages :
    Viewer → Opens → Option ℕ → Start → Option (ℕ → Bool) → List Str → Reading → Continued
unfolding load is_scan first_turn read_session getmsgptrs
readmessages v o cseekp start mask lines r =
    let read =
      read_session v o mask (is_scan cseekp) lines
        (first_turn v mask (is_scan cseekp) start (load cseekp r)) in
    if length r.mail.headers == 0 then closed (record r { mail = getmsgptrs r.mail }) 0 else read
