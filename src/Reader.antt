-- ===== src/Reader.antt =====
-- The message reader, main/readmsgs.c. The file msgbase.dat is the list of its records; a place in it and
-- the size of the window are numbers of records, and `msgbuf` has 101 of them. What `showmsg` sends is the
-- list `displayed` of headers, the latest first; the text on the screen, the editor, replies and the
-- change of the base are left out.
pub mod Width
pub mod Edits
pub mod Headers
pub mod Commands
mod Window
mod Showing
mod Loaded
mod Answer
mod Tests
use daydream.Base.{
  ℕ, zero, suc, ◌+◌, ◌-◌, ◌^◌, ◌%◌, Bool, true, false, not, ◌&&◌, ◌||◌, List, [], ◌∷◌, ◌++◌, Option,
  none, some, ltb, ◌==◌, if◌then◌else◌, drop, take, length, set, get_elem?,
}
use daydream.Base.CString.{Str, strcase_eq}
use daydream.Access.{has_bit}
use daydream.Message.{Header, is_private}
use daydream.Message.Save.{Mail, Opens}

-- The globals of the caller that are read, and `CFG_COSYSOPLEVEL`.
pub record Viewer : Type 0 where
  pub user_handle : Str
  pub user_realname : Str
  pub user_securitylevel : ℕ
  pub access1 : ℕ
  pub cosysop_level : ℕ

-- The statics of the file and the pointers of the base. `daheader` is a place in `msgbuf`, or NULL.
pub record Reading : Type 0 where
  pub mail : Mail
  pub msgbuf : List Header
  pub bread : ℕ
  pub seekpoint : ℕ
  pub oldseekpoint : ℕ
  pub msgbasesize : ℕ
  pub daheader : Option ℕ
  pub msgnum : ℕ
  pub forward : Bool
  pub lrp : ℕ
  pub lsp : ℕ
  pub displayed : List Header

unfoldable pub mark_end : List Header → List Header
mark_end [] = []
mark_end (kalamsg ∷ rest) = record kalamsg { msg_number = 65535; msg_nextreply = 65535 } ∷ rest

unfoldable pub readmsgdatas : Reading → Reading
unfolding mark_end
readmsgdatas r =
    let records = take 100 (drop r.seekpoint r.mail.headers) in
    record r {
      msgbuf = records ++ mark_end (drop (length records) r.msgbuf);
      bread = length records;
      oldseekpoint = r.seekpoint;
      seekpoint = r.seekpoint + length records;
    }

-- The records of the window go back to their place in the file.
unfoldable pub write_window : Reading → Reading
write_window r =
    let m = r.mail in
    record r {
      mail = record m {
        headers =
            take r.oldseekpoint m.headers
            ++ (take r.bread r.msgbuf ++ drop (r.oldseekpoint + r.bread) m.headers);
      };
    }

-- Where msgbase.dat cannot be opened, nothing is written.
unfoldable pub updatemsgdatas : Opens → Reading → Reading
unfolding write_window
updatemsgdatas o r = let written = write_window r in if o.can_dat then written else r

unfoldable pub is_end : Header → Bool
is_end h = h.msg_number == 65535 && (h.msg_nextreply == 65535)

-- Where `daheader` stops in the window: at the message, or, with `false`, at the end mark.
unfoldable pub find_header : ℕ → List Header → ℕ × Bool
unfolding is_end
find_header showme [] = (0, false)
find_header showme (h ∷ hs) =
    let rest = find_header showme hs in
    if h.msg_number == showme
    then (0, true)
    else if is_end h
    then (0, false)
    else (suc rest.0, rest.1)

-- The results 0 to 3 of `showmsg`.
pub data ShowResult : Type 0 where
  out_of_range shown deleted no_right : ShowResult

-- The search of `showmsg`: at the message, ended with a result, or the window is loaded again, with
-- `hinkmode` and `lowmode`.
pub data Search : Type 0 where
  found : Reading → Search
  ended : ShowResult → Reading → Search
  reloaded : Bool → Bool → Reading → Search

unfoldable pub seek : ℕ → Reading → Reading
unfolding readmsgdatas
seek place r = readmsgdatas (record r { seekpoint = place })

-- The first reload: ten records before the place of the message, if no number is missing behind it.
unfoldable pub hink_place : Reading → ℕ
hink_place r = r.msgbasesize + (r.msgnum - r.mail.highest) - (10 + (r.mail.highest - r.msgnum))

unfoldable pub first_number : List Header → ℕ
first_number [] = 0
first_number (h ∷ hs) = h.msg_number

unfoldable pub text_exists : Mail → ℕ → Bool
text_exists m n = elim (m.texts n) [ none ↦ false | some text ↦ true ]

unfoldable pub unless_empty : Bool → Bool → Reading → Search
unless_empty hink low r = if r.bread == 0 then ended deleted r else reloaded hink low r

-- The end mark was met. The step back that is given up leaves `seekpoint` as it was; every use sets it
-- before it is read.
unfoldable pub missed : Bool → Bool → ℕ → Reading → Search
unfolding seek hink_place first_number text_exists unless_empty
missed hink low showme r =
    if ltb showme r.mail.lowest || ltb r.mail.highest showme
    then ended out_of_range r
    else if not hink
    then reloaded true low (seek (hink_place r) r)
    else if not (text_exists r.mail showme)
    then ended deleted r
    else if ltb showme (first_number r.msgbuf)
    then (if r.oldseekpoint == 0 || (r.seekpoint == r.oldseekpoint + 100)
        then ended deleted r
        else unless_empty true true (seek (r.seekpoint - 100) r))
    else if r.seekpoint == r.oldseekpoint || low
    then ended deleted r
    else unless_empty true low (seek r.seekpoint r)

unfoldable pub search_step : Bool → Bool → ℕ → Reading → Search
unfolding missed find_header
search_step hink low showme r =
    let at = find_header showme r.msgbuf in
    let here = record r { daheader = some at.0 } in
    if at.1 then found here else missed hink low showme here

-- The loop, for at most so many windows.
unfoldable pub run_search : ℕ → ℕ → Search → Search
unfolding search_step
run_search zero showme s = s
run_search (suc fuel) showme (found r) = found r
run_search (suc fuel) showme (ended result r) = ended result r
run_search (suc fuel) showme (reloaded hink low r) =
    run_search fuel showme (search_step hink low showme r)

-- The author, the receiver, or one who may read all.
unfoldable pub may_read : Viewer → Header → Bool
unfolding strcase_eq has_bit
may_read v h =
    strcase_eq h.msg_author v.user_realname
    || strcase_eq h.msg_author v.user_handle
    || strcase_eq h.msg_receiver v.user_handle
    || strcase_eq h.msg_receiver v.user_realname
    || has_bit v.access1 23

unfoldable pub is_flagged : Header → Bool
unfolding has_bit
is_flagged h = has_bit h.msg_flags 1

unfoldable pub count_reading : ℕ → Header → ℕ → Reading → Reading
count_reading i h showme r =
    if ltb showme r.lrp
    then record r {
      msgbuf = set r.msgbuf i (record h { msg_readcount = (h.msg_readcount + 1) % 2 ^ 16 });
    }
    else r

-- The last message read; the mode 1 leaves it.
unfoldable pub mark_read : ℕ → Bool → Reading → Reading
mark_read showme again r = if ltb r.lrp showme && not again then record r { lrp = showme } else r

-- A message that is not deleted, at place `i` of the window.
unfoldable pub show_header : Viewer → ℕ → Bool → ℕ → Header → Reading → Reading × ShowResult
unfolding may_read is_private text_exists count_reading mark_read
show_header v showme again i h r =
    let read = mark_read showme again r in
    if is_private h && not (may_read v h)
    then (read, no_right)
    else if text_exists r.mail showme
    then (let c = count_reading i h showme read in record c { displayed = h ∷ c.displayed }, shown)
    else (read, deleted)

unfoldable pub show_at : Viewer → ℕ → Bool → ℕ → Option Header → Reading → Reading × ShowResult
unfolding show_header is_flagged
show_at v showme again i none r = (r, deleted)
show_at v showme again i (some h) r =
    if is_flagged h then (r, deleted) else show_header v showme again i h r

unfoldable pub show_found : Viewer → ℕ → Bool → Option ℕ → Reading → Reading × ShowResult
unfolding show_at
show_found v showme again none r = (r, deleted)
show_found v showme again (some i) r = show_at v showme again i (get_elem? r.msgbuf i) r

-- What follows the search; a search that is not ended counts as out of range.
unfoldable pub after_search : Viewer → ℕ → Bool → Search → Reading × ShowResult
unfolding show_found
after_search v showme again (found r) = show_found v showme again r.daheader r
after_search v showme again (ended result r) = (r, result)
after_search v showme again (reloaded hink low r) = (r, out_of_range)

-- `showmsg(showme, mode)`; `again` is the mode 1. Every window but the first and two others lies behind
-- the one before it.
unfoldable pub showmsg : Viewer → ℕ → Bool → Reading → Reading × ShowResult
unfolding run_search after_search
showmsg v zero again r = (record r { daheader = some 0 }, out_of_range)
showmsg v (suc n) again r =
    after_search v (suc n) again
      (run_search (length r.mail.headers + 5) (suc n) (reloaded false false r))
