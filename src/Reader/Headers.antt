-- ===== src/Reader/Headers.antt =====
-- The command `editmsghdr` of main/readmsgs.c. What `Prompt` gives is a list of texts, at whose end the
-- carrier is lost, and what `HotKey` gives an argument. Of the receiver of a message to all, which is an empty
-- name, the bytes behind the NUL are left out.
pub mod Rules
pub mod Numbers
use daydream.Base.{
  ℕ, Bool, true, false, ◌||◌, List, [], ◌∷◌, Option, none, some, ◌==◌, if◌then◌else◌, set, drop,
}
use daydream.Base.CString.{Str, codes, strcase_eq, strlcpy}
use daydream.Access.{has_bit}
use daydream.Message.{Header, set_bit}
use daydream.Message.Save.{Opens}
use daydream.Reader.{Viewer, Reading, is_flagged, updatemsgdatas}
use daydream.Reader.Edits.{header_at}
use daydream.Selection.{clear_bit}

-- The author, or level 255.
unfoldable pub may_edit : Viewer → Header → Bool
unfolding strcase_eq
may_edit v h =
    strcase_eq v.user_handle h.msg_author
    || strcase_eq v.user_realname h.msg_author
    || v.user_securitylevel == 255

-- The question whether the message is private, in a base for both kinds; `area` is MSGBASE_FLAGS.
unfoldable pub edit_private : ℕ → ℕ → Header → Header
unfolding has_bit clear_bit set_bit
edit_private area key h =
    if has_bit area 0 || has_bit area 1
    then h
    else if key == 2
    then record h { msg_flags = clear_bit h.msg_flags 0 }
    else record h { msg_flags = set_bit h.msg_flags 0 }

-- The receiver that is typed in place of another.
unfoldable pub new_receiver : Viewer → Str → Str → Str
unfolding strcase_eq has_bit strlcpy
new_receiver v receiver foobuf =
    if strcase_eq foobuf (codes "eall")
    then (if has_bit v.access1 20 then 255 ∷ drop 1 receiver else [])
    else if strcase_eq foobuf (codes "all")
    then []
    else strlcpy foobuf 26

-- The header in the window, and whether the questions came to their end.
unfoldable pub edit_subject : ℕ → ℕ → Header → List Str → Header × Bool
unfolding edit_private
edit_subject area key h [] = (h, false)
edit_subject area key h (t ∷ ts) = (edit_private area key (record h { msg_subject = t }), true)

unfoldable pub edit_receiver : Viewer → ℕ → ℕ → Header → List Str → Header × Bool
unfolding edit_subject new_receiver
edit_receiver v area key h [] = (h, false)
edit_receiver v area key h (foobuf ∷ ts) =
    edit_subject area key (record h { msg_receiver = new_receiver v h.msg_receiver foobuf }) ts

typed_author : Viewer → ℕ → ℕ → Header → List Str → Header × Bool
unfolding edit_receiver
typed_author v area key h [] = (h, false)
typed_author v area key h (t ∷ ts) = edit_receiver v area key (record h { msg_author = t }) ts

unfoldable pub edit_author : Viewer → ℕ → ℕ → Header → List Str → Header × Bool
unfolding typed_author edit_receiver
edit_author v area key h ts =
    if v.user_securitylevel == 255
    then typed_author v area key h ts
    else edit_receiver v area key h ts

unfoldable pub put_header : Reading → Option ℕ → Header → Reading
put_header r none h = r
put_header r (some i) h = record r { msgbuf = set r.msgbuf i h }

unfoldable pub edit_header : Viewer → Opens → ℕ → ℕ → List Str → Reading → Option Header → Reading
unfolding is_flagged may_edit edit_author put_header updatemsgdatas
edit_header v o area key ts r none = r
edit_header v o area key ts r (some h) =
    let (edited, done) = edit_author v area key h ts in
    let put = put_header r r.daheader edited in
    let written = if done then updatemsgdatas o put else put in
    if is_flagged h then r else if may_edit v h then written else r

unfoldable pub editmsghdr : Viewer → Opens → ℕ → ℕ → List Str → Reading → Reading
unfolding edit_header header_at
editmsghdr v o area key ts r = edit_header v o area key ts r (header_at r.daheader r.msgbuf)
