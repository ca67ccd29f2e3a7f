-- ===== src/Message/Save.antt =====
-- The writing of a message, the end of `entermsg`, with `getmsgptrs` and `setmsgptrs`, for one base.
use daydream.Base.{
  ℕ, zero, suc, ◌+◌, ◌^◌, ◌/◌, ◌%◌, Bool, ◌&&◌, List, [], ◌∷◌, ◌++◌, Option, none, some, ltb, ◌==◌,
  if◌then◌else◌, map, take, drop, length,
}
use daydream.Base.CString.{Str, codes, str_eq, toupper}
use daydream.Text.Numbers.{decimal}
use daydream.Text.Lines.{fgets, unlines}
use daydream.LineEd.{Turn, waiting, abandoned, negative, broken, saved}
use daydream.LineEd.Rows.{lines_from}
use daydream.Message.{Header, Poster, set_bit, is_private, has_type, ask_header}
use daydream.Message.Netmail.{Address}

-- The files of the base and the counters. `msp_low` and `msp_high` are those of msgbase.ptr, 0 if it is
-- missing; `headers` is msgbase.dat, `texts` the files msg00000 and on, `fidocnt` the file fidocnt.dat.
pub record Mail : Type 0 where
  pub msp_low : ℕ
  pub msp_high : ℕ
  pub lowest : ℕ
  pub highest : ℕ
  pub headers : List Header
  pub texts : ℕ → Option Str
  pub fidocnt : ℕ
  pub user_pvtmessages : ℕ
  pub user_pubmessages : ℕ
  pub cl_pvtmessages : ℕ
  pub cl_pubmessages : ℕ

-- Which files can be opened, whether there is a list of attached files, and the version.
pub record Opens : Type 0 where
  pub can_ptr : Bool
  pub can_dat : Bool
  pub can_text : Bool
  pub can_fidocnt : Bool
  pub attach_list : Bool
  pub versionstring : Str

-- The result 0 or 1, or none: a negative number of lines has no end.
pub data Posted : Type 0 where
  not_posted posted : Mail → Posted
  no_result : Posted

unfoldable pub getmsgptrs : Mail → Mail
getmsgptrs m = record m { lowest = m.msp_low; highest = m.msp_high }

-- `none` is the result 0.
unfoldable pub setmsgptrs : Opens → Mail → Option Mail
setmsgptrs o m =
    if o.can_ptr
    then some (record m { msp_low = m.lowest % 2 ^ 16; msp_high = m.highest % 2 ^ 16 })
    else none

hex_digit : ℕ → ℕ
hex_digit d = if ltb d 10 then 48 + d else 87 + d

-- The digits from the one of weight `16 ^ (n - 1)` on.
hex : ℕ → ℕ → Str
unfolding hex_digit
hex zero i = []
hex (suc n) i = hex_digit (i / 16 ^ n % 16) ∷ hex n i

-- `%d:%d/%d`
address_text : Address → Str
address_text a = decimal a.fn_zone ++ b':' ∷ decimal a.fn_net ++ b'/' ∷ decimal a.fn_node

-- The first line `\001MSGID:` with `REPLY` in place of `MSGID`, for at most so many lines.
reply_line : ℕ → Str → Str
reply_line zero file = []
reply_line (suc fuel) file =
    let (line, left) = fgets 1023 file in
    let rest = reply_line fuel left in
    if str_eq (take 7 line) (1 ∷ codes "MSGID:") then 1 ∷ codes "REPLY" ++ drop 6 line else rest

unfoldable pub getreplyid : Option Str → Str
unfolding reply_line
getreplyid none = []
getreplyid (some file) = reply_line (length file) file

-- The counter, and the number that `getfidounique` gives.
unfoldable pub getfidounique : Opens → ℕ → ℕ × ℕ
getfidounique o i = if o.can_fidocnt then ((i + 1) % 2 ^ 32, (i + 1) % 2 ^ 32) else (i, 0)

-- The lines before the text of an echo message, for the number of `getfidounique`.
echo_lines : Poster → Header → Option Str → ℕ → Str
unfolding address_text hex getreplyid
echo_lines p h original uq =
    codes "AREA:"
    ++ map toupper p.area.msgbase_fn_tag
    ++ 10
      ∷ (if uq == 0
          then []
          else 1 ∷ codes "MSGID: "
            ++ address_text p.area.msgbase_address
            ++ b'.' ∷ decimal p.area.msgbase_address.fn_point
            ++ 32 ∷ hex 8 uq
            ++ 10 ∷ (if h.msg_original == 0 then [] else getreplyid original))

-- The lines before the text of a netmail message.
net_lines : Poster → Header → Str
unfolding address_text
net_lines p h =
    (if h.msg_dest.fn_point == 0
      then []
      else 1 ∷ codes "TOPT: " ++ decimal h.msg_dest.fn_point ++ 10 ∷ [])
    ++ (if h.msg_orig.fn_point == 0
        then []
        else 1 ∷ codes "FMPT: " ++ decimal h.msg_orig.fn_point ++ 10 ∷ [])
    ++ (if h.msg_dest.fn_zone == p.area.msgbase_address.fn_zone
        then []
        else 1 ∷ codes "INTL: "
          ++ address_text h.msg_dest
          ++ 32 ∷ address_text h.msg_orig
          ++ 10 ∷ [])

-- The counter fidocnt.dat that is left, and the lines before the text.
unfoldable pub head_lines : Opens → Poster → Header → Mail → ℕ × Str
unfolding echo_lines net_lines getfidounique has_type
head_lines o p h m =
    let (count, uq) = getfidounique o m.fidocnt in
    if has_type p b'E'
    then (count, echo_lines p h (m.texts h.msg_original) uq)
    else if has_type p b'N'
    then (m.fidocnt, net_lines p h)
    else (m.fidocnt, [])

-- The lines behind the text.
unfoldable pub tail_lines : Opens → Poster → Str
unfolding address_text has_type
tail_lines o p =
    let a = p.area.msgbase_address in
    let tear = 10 ∷ codes "--- DayDream/Linux " ++ o.versionstring ++ 10 ∷ [] in
    if has_type p b'E'
    then tear
      ++ codes " * Origin: "
      ++ p.area.msgbase_fn_origin
      ++ codes " ("
      ++ address_text a
      ++ b')' ∷ 10 ∷ codes "SEEN-BY: "
      ++ decimal a.fn_net
      ++ b'/' ∷ decimal a.fn_node
      ++ 10 ∷ []
    else if has_type p b'L'
    then []
    else tear

-- The two counters of the message's kind.
unfoldable pub count_message : Header → Mail → Mail
unfolding is_private
count_message h m =
    if is_private h
    then record m {
      user_pvtmessages = (m.user_pvtmessages + 1) % 2 ^ 16;
      cl_pvtmessages = (m.cl_pvtmessages + 1) % 2 ^ 16;
    }
    else record m {
      user_pubmessages = (m.user_pubmessages + 1) % 2 ^ 16;
      cl_pubmessages = (m.cl_pubmessages + 1) % 2 ^ 16;
    }

-- The file of the text; `none` is a negative number of lines.
unfoldable pub write_text : Opens → Poster → Header → Option (List Str) → Mail → Posted
unfolding head_lines tail_lines count_message
write_text o p h none m = if o.can_text then no_result else not_posted m
write_text o p h (some lines) m =
    let (count, before) = head_lines o p h m in
    let text = before ++ unlines lines ++ tail_lines o p in
    if o.can_text
    then posted (
        count_message h (record m {
          texts = λ k. if k == h.msg_number then some text else m.texts k;
          fidocnt = count;
        }))
    else not_posted m

-- The header as it is written.
unfoldable pub final_header : Opens → Poster → Header → ℕ → Header
unfolding set_bit has_type
final_header o p h number =
    if has_type p b'L'
    then record h { msg_number = number % 2 ^ 16; msg_attach = h.msg_attach && o.attach_list }
    else record h {
      msg_number = number % 2 ^ 16;
      msg_attach = h.msg_attach && o.attach_list;
      msg_orig = p.area.msgbase_address;
      msg_flags = set_bit h.msg_flags 2;
    }

-- The record is appended to msgbase.dat.
unfoldable pub write_header : Opens → Poster → Header → Option (List Str) → Mail → Posted
unfolding write_text
write_header o p h lines m =
    let after = write_text o p h lines (record m { headers = m.headers ++ h ∷ [] }) in
    if o.can_dat then after else not_posted m

unfoldable pub with_pointers :
    Opens → Poster → Header → Option (List Str) → Mail → Option Mail → Posted
unfolding final_header write_header
with_pointers o p h lines m none = not_posted m
with_pointers o p h lines m (some m') = write_header o p (final_header o p h m.highest) lines m'

unfoldable pub store : Opens → Poster → Header → Option (List Str) → Mail → Posted
unfolding getmsgptrs setmsgptrs with_pointers
store o p h lines m =
    let next = record (getmsgptrs m) { highest = m.msp_high + 1 } in
    with_pointers o p h lines next (setmsgptrs o next)

-- What follows the editor.
unfoldable pub save_message : Opens → Poster → Header → Turn → Mail → Posted
unfolding store
save_message o p h (waiting a e) m = not_posted m
save_message o p h abandoned m = not_posted m
save_message o p h negative m = store o p h none m
save_message o p h broken m = no_result
save_message o p h (saved zero rows) m = not_posted m
save_message o p h (saved (suc n) rows) m = store o p h (some (lines_from rows 0 (suc n))) m

unfoldable pub with_header : Opens → Poster → Turn → Mail → Option Header → Posted
unfolding save_message
with_header o p turn m none = not_posted m
with_header o p turn m (some h) = save_message o p h turn m

-- `entermsg(msg, reply, params)`
unfoldable pub entermsg : Opens → Poster → Option Header → List Str → List ℕ → Turn → Mail → Posted
unfolding with_header ask_header
entermsg o p msg ts keys turn m = with_header o p turn m (ask_header p msg ts keys)
