-- ===== src/Message.antt =====
-- The entry of a message, `entermsg` of main/entermsg.c. What the calls of `Prompt` and `HotKey` give are
-- lists of answers; at the end of a list the carrier is lost. What the editor leaves is a `Turn` of LineEd.
-- The display, the moving of attached files and the file of lines to quote are left out.
pub mod Netmail
pub mod Save
pub mod Rules
pub mod Numbered
pub mod Saved
mod Tests
use daydream.Base.{
  ℕ, zero, suc, ◌+◌, ◌-◌, ◌^◌, ◌%◌, Bool, true, false, not, ◌&&◌, ◌||◌, List, [], ◌∷◌, ◌++◌, Option,
  none, some, ltb, ◌==◌, if◌then◌else◌, drop,
}
use daydream.Base.CString.{Str, codes, strcase_eq, strlcpy, toupper, isdigit}
use daydream.Text.Numbers.{strtol}
use daydream.Access.{has_bit}
use daydream.Message.Netmail.{Address, no_address, str2addr}
use daydream.UserBase.{UserEntry, findusername, getubentbyid}

-- `struct DayDream_MsgBase`
pub record Area : Type 0 where
  pub msgbase_flags : ℕ
  pub msgbase_fn_flags : ℕ
  pub msgbase_fn_tag : Str
  pub msgbase_fn_origin : Str
  pub msgbase_address : Address

-- `struct DayDream_Message`; `msg_attach` says that the first byte is not 0.
pub record Header : Type 0 where
  pub msg_number : ℕ
  pub msg_nextreply : ℕ
  pub msg_flags : ℕ
  pub msg_author : Str
  pub msg_receiver : Str
  pub msg_subject : Str
  pub msg_creation : ℕ
  pub msg_received : ℕ
  pub msg_readcount : ℕ
  pub msg_original : ℕ
  pub msg_orig : Address
  pub msg_dest : Address
  pub msg_attach : Bool

abbrev pub no_header : Header
no_header = record {
  msg_number = 0;
  msg_nextreply = 0;
  msg_flags = 0;
  msg_author = [];
  msg_receiver = [];
  msg_subject = [];
  msg_creation = 0;
  msg_received = 0;
  msg_readcount = 0;
  msg_original = 0;
  msg_orig = no_address;
  msg_dest = no_address;
  msg_attach = false;
}

-- The globals that are read: the base, the access bits, the names of the user, and the file of users.
pub record Poster : Type 0 where
  pub area : Area
  pub access1 : ℕ
  pub access2 : ℕ
  pub user_handle : Str
  pub user_realname : Str
  pub userbase : Option (List UserEntry)
  pub now : ℕ

unfoldable pub set_bit : ℕ → ℕ → ℕ
unfolding has_bit
set_bit flags n = if has_bit flags n then flags else flags + 2 ^ n

unfoldable pub is_private : Header → Bool
unfolding has_bit
is_private h = has_bit h.msg_flags 0

unfoldable pub has_type : Poster → ℕ → Bool
unfolding toupper
has_type p c = toupper p.area.msgbase_fn_flags == c

unfoldable pub area_bit : Poster → ℕ → Bool
unfolding has_bit
area_bit p n = has_bit p.area.msgbase_flags n

-- The checks before the header is shown.
unfoldable pub may_enter : Poster → Bool
unfolding has_type area_bit
may_enter p =
    not (has_type p b'E' && not (has_bit p.access1 21))
    && not (has_type p b'N' && not (has_bit p.access2 2))
    && not (area_bit p 0 && area_bit p 1)

unfoldable pub copied : Option Header → Header
copied none = no_header
copied (some h) = h

-- The header up to the receiver; `msg` is the message that is answered or passed on.
unfoldable pub start_header : Poster → Option Header → Header
unfolding copied set_bit is_private area_bit strlcpy
start_header p msg =
    let h = copied msg in
    record h {
      msg_flags = if area_bit p 0 || is_private h then set_bit h.msg_flags 0 else h.msg_flags;
      msg_creation = p.now;
      msg_author = strlcpy (if area_bit p 2 then p.user_handle else p.user_realname) 26;
    }

-- The name of a user as it goes into the header.
user_name : Poster → Option UserEntry → Option Str
unfolding area_bit strlcpy
user_name p none = none
user_name p (some user) =
    some (strlcpy (if area_bit p 2 then user.user_handle else user.user_realname) 26)

found_user : Poster → Option ℕ → Option Str
unfolding user_name getubentbyid
found_user p none = none
found_user p (some recoff) = user_name p (getubentbyid p.userbase recoff)

local_user : Poster → Str → Option Str
unfolding found_user findusername
local_user p name =
    if strcase_eq name (codes "sysop")
    then found_user p (some 0)
    else found_user p (findusername p.userbase name)

taken : List Str → Option (Str × List Str) → Option Str → Option (Str × List Str)
taken ts again none = again
taken ts again (some name) = some (name, ts)

unfoldable pub is_all : Str → Bool
unfolding strcase_eq
is_all [] = true
is_all (c ∷ t) = strcase_eq (c ∷ t) (codes "all") || strcase_eq (c ∷ t) (codes "all users")

-- The loop that asks for the receiver. A message to all has none, one to `eall` has 255 as its first byte.
unfoldable pub ask_receiver : Poster → List Str → Option (Str × List Str)
unfolding taken local_user is_all area_bit has_type has_bit
ask_receiver p [] = none
ask_receiver p (t ∷ ts) =
    let again = ask_receiver p ts in
    if is_all t
    then (if area_bit p 0 then again else some ([], ts))
    else if strcase_eq t (codes "eall")
    then (if area_bit p 0
        then again
        else if has_bit p.access1 20
        then some (255 ∷ drop 1 t, ts)
        else again)
    else if has_type p b'L'
    then taken ts again (local_user p t)
    else some (t, ts)

-- The first byte of the receiver is 0 or -1.
unfoldable pub is_broadcast : Str → Bool
is_broadcast [] = true
is_broadcast (c ∷ t) = c == 255

unfoldable pub private_answer : Header → List ℕ → Option Header
unfolding set_bit
private_answer h [] = none
private_answer h (hola ∷ keys) =
    if hola == 0
    then none
    else if hola == 1
    then some (record h { msg_flags = set_bit h.msg_flags 0 })
    else some h

unfoldable pub ask_private : Poster → Header → List ℕ → Option Header
unfolding private_answer is_broadcast is_private area_bit
ask_private p h keys =
    if is_broadcast h.msg_receiver || is_private h || area_bit p 1
    then some h
    else private_answer h keys

unfoldable pub with_dest : Header → Option Address → Option Header
with_dest h none = none
with_dest h (some a) = some (record h { msg_dest = a })

-- The address of a netmail message.
unfoldable pub ask_dest : Poster → Header → List Str → Option Header
unfolding str2addr with_dest has_type
ask_dest p h [] = if has_type p b'N' then none else some h
ask_dest p h (t ∷ ts) = if has_type p b'N' then with_dest h (str2addr t) else some h

unfoldable pub with_attach : Poster → Header → Header
unfolding is_private area_bit has_bit
with_attach p h = record h {
  msg_attach = area_bit p 5 && (if is_private h then has_bit p.access2 4 else has_bit p.access2 5);
}

unfoldable pub attached : Poster → Option Header → Option Header
unfolding with_attach
attached p none = none
attached p (some h) = some (with_attach p h)

-- From the question for a private message to the editor.
unfoldable pub ask_rest : Poster → List Str → Option Header → Option Header
unfolding ask_dest attached is_private has_bit
ask_rest p ts none = none
ask_rest p ts (some h) =
    if not (is_private h) && not (has_bit p.access1 22) then none else attached p (ask_dest p h ts)

unfoldable pub ask_subject : Poster → Header → List Str → List ℕ → Option Header
unfolding ask_rest ask_private
ask_subject p h [] keys = none
ask_subject p h ([] ∷ ts) keys = none
ask_subject p h ((c ∷ t) ∷ ts) keys =
    ask_rest p ts (ask_private p (record h { msg_subject = c ∷ t }) keys)

unfoldable pub addressed : Poster → Header → List ℕ → Option (Str × List Str) → Option Header
unfolding ask_subject
addressed p h keys none = none
addressed p h keys (some (receiver, ts)) =
    ask_subject p (record h { msg_receiver = receiver }) ts keys

-- The header that is ready when the editor starts; `none` is the result 0.
unfoldable pub ask_header : Poster → Option Header → List Str → List ℕ → Option Header
unfolding addressed ask_receiver start_header may_enter
ask_header p msg ts keys =
    if may_enter p then addressed p (start_header p msg) keys (ask_receiver p ts) else none
