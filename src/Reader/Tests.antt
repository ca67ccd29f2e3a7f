-- ===== src/Reader/Tests.antt =====
-- A base of eight messages, and sessions in it.
use daydream.Base.{
  ℕ, zero, suc, ◌≡◌, ◌+◌, refl, true, false, List, [], ◌∷◌, ◌++◌, none, some, map, arith, All, ◌≤◌,
  take, drop,
}
use daydream.Base.CString.{Str, codes, tolower}
use daydream.Message.{Header, no_header}
use daydream.Message.Save.{Mail, Opens}
use daydream.Reader.{Viewer, Reading, showmsg, no_right}
use daydream.Reader.Commands.{
  Continued, prompting, closed, left_out, readmessages, at_prompt, read_line,
}
use daydream.Text.Numbers.{strtol}
use daydream.Base.CString.{isspace}
use daydream.Message.Numbered.{Ascending, IsNumbered}
use daydream.Reader.{seek, text_exists}
use daydream.Reader.Window.{message_of}
use daydream.Reader.Loaded.{IsSought, seek-LoadedAt}
use daydream.Reader.Answer.{show_answer, showmsg-show_answer}
use daydream.Reader.Edits.{header_at}
use daydream.Reader.Headers.{editmsghdr}
use daydream.Reader.Headers.Rules.{LeavesHeader, editmsghdr-Edited}
use daydream.Reader.Headers.Numbers.{editmsghdr-IsNumbered}
use daydream.Reader.Commands.Rising.{InPlace}
use daydream.Reader.Commands.Kept.{Leaves, state_after}
use daydream.Reader.Commands.Visible.{AllPermitted, readmessages-Permitted}
use daydream.Reader.Commands.Numbers.{added, readmessages-IsNumbered}

abbrev message : ℕ → Header
message n = record no_header { msg_number = n }

-- The numbers from `n` on.
abbrev messages : ℕ → ℕ → List Header
messages zero n = []
messages (suc k) n = message n ∷ messages k (n + 1)

abbrev private_message : ℕ → Header
private_message n = record no_header {
  msg_number = n;
  msg_flags = 1;
  msg_author = codes "al";
  msg_receiver = codes "bo";
}

abbrev mail : Mail
mail = record {
  msp_low = 1;
  msp_high = 10;
  lowest = 1;
  highest = 10;
  headers = messages 4 1 ++ private_message 5 ∷ messages 3 8;
  texts = λ k. some [];
  fidocnt = 0;
  user_pvtmessages = 0;
  user_pubmessages = 0;
  cl_pvtmessages = 0;
  cl_pubmessages = 0;
}

abbrev opens : Opens
opens = record {
  can_ptr = true;
  can_dat = true;
  can_text = true;
  can_fidocnt = true;
  attach_list = false;
  versionstring = codes "2";
}

abbrev viewer : Str → Viewer
viewer name = record {
  user_handle = name;
  user_realname = name;
  user_securitylevel = 10;
  access1 = 0;
  cosysop_level = 100;
}

abbrev garbage : ℕ → List Header
garbage zero = []
garbage (suc k) = message 7 ∷ garbage k

abbrev reading : Reading
reading = record {
  mail = mail;
  msgbuf = garbage 101;
  bread = 0;
  seekpoint = 0;
  oldseekpoint = 0;
  msgbasesize = 0;
  daheader = none;
  msgnum = 0;
  forward = true;
  lrp = 1;
  lsp = 0;
  displayed = [];
}

abbrev seen : Continued → List ℕ × ℕ
seen (prompting r) = (map (λ h. h.msg_number) r.displayed, 7)
seen (closed r n) = (map (λ h. h.msg_number) r.displayed, n)
seen (left_out r) = (map (λ h. h.msg_number) r.displayed, 8)

abbrev read : List Str → Continued
read lines = readmessages (viewer (codes "bo")) opens none at_prompt none lines reading

-- From message 1 on, then over a gap, and backward over the private message.
session :
    seen (
      readmessages
        (viewer (codes "cy"))
        opens
        none
        at_prompt
        none
        ([] ∷ codes "9" ∷ codes "5" ∷ codes "-" ∷ [] ∷ [] ∷ codes "q" ∷ [])
        reading)
    ≡ (4 ∷ 8 ∷ 9 ∷ 2 ∷ [], 2)
unfolding readmessages tolower read_line strtol isspace
session = refl

readmessages-Permitted_example :
    Leaves
      (AllPermitted (viewer (codes "cy")) opens)
      (readmessages (viewer (codes "cy")) opens none at_prompt none ([] ∷ codes "5" ∷ []) reading)
readmessages-Permitted_example =
    readmessages-Permitted (viewer (codes "cy")) opens none at_prompt none ([] ∷ codes "5" ∷ [])
      reading refl

ascending : Ascending 0 mail.headers
ascending = omega arith

bounded : All (λ h. h.msg_number ≤ 10) mail.headers
bounded = omega arith

-- The receiver keeps the private message 5.
abbrev kept : List Str
kept = codes "5" ∷ codes "k" ∷ []

kept_one : added reading (state_after (read kept)) ≡ 1
unfolding readmessages tolower read_line strtol isspace
kept_one = refl

readmessages-IsNumbered_example :
    IsNumbered (state_after (read kept)).mail
    × ((state_after (read kept)).mail.msp_high ≡ 10 + added reading (state_after (read kept)))
readmessages-IsNumbered_example =
    readmessages-IsNumbered (viewer (codes "bo")) opens none at_prompt none kept reading
      (record { ascending = ascending; bounded = bounded }) refl refl refl (omega (arith, kept_one))

abbrev at_five : Reading
at_five = record reading { msgnum = 5; msgbasesize = 8 }

five_IsSought : IsSought (seek 7 at_five).mail 5
unfolding text_exists seek
five_IsSought = record {
  numbered = record { ascending = ascending; bounded = bounded };
  low = omega arith;
  high = omega arith;
  top = refl;
  small = omega arith;
  text = refl;
}

-- The window that starts at the last record does not have message 5.
showmsg-show_answer_example :
    (showmsg (viewer (codes "cy")) 5 false (seek 7 at_five)).1
    ≡ show_answer (viewer (codes "cy")) (message_of 5 (seek 7 at_five).mail.headers)
unfolding seek
showmsg-show_answer_example =
    showmsg-show_answer (viewer (codes "cy")) 4 false (seek 7 at_five)
      (seek-LoadedAt 7 at_five (omega arith) refl) five_IsSought refl refl

answered : show_answer (viewer (codes "cy")) (message_of 5 mail.headers) ≡ no_right
unfolding show_answer message_of tolower
answered = refl

-- The author stands at the private message 5.
abbrev own_message : Reading
own_message = record (seek 0 reading) { daheader = some 4 }

at_own : header_at own_message.daheader own_message.msgbuf ≡ some (private_message 5)
unfolding seek header_at
at_own = refl

abbrev edited : Reading
edited = editmsghdr (viewer (codes "al")) opens 0 2 (codes "eall" ∷ codes "hi" ∷ []) own_message

abbrev parts : Header → ℕ × Str × Str
parts h = (h.msg_flags, h.msg_receiver, h.msg_subject)

-- It is made public and to all in the file, by a user without any right.
made_public : map parts (drop 4 (take 5 edited.mail.headers)) ≡ (0, [], codes "hi") ∷ []
unfolding editmsghdr seek tolower daydream.Selection.clear_bit
made_public = refl

editmsghdr-Edited_example :
    LeavesHeader
      (viewer (codes "al"))
      0
      (codes "eall" ∷ codes "hi" ∷ [])
      own_message.daheader
      (private_message 5)
      edited
editmsghdr-Edited_example =
    editmsghdr-Edited (viewer (codes "al")) opens 0 2 (codes "eall" ∷ codes "hi" ∷ []) own_message
      (private_message 5) at_own

first_window :
    InPlace own_message.msgbuf own_message.bread own_message.oldseekpoint own_message.mail.headers
unfolding seek
first_window = refl

editmsghdr-IsNumbered_example :
    IsNumbered edited.mail
    × InPlace edited.msgbuf edited.bread edited.oldseekpoint edited.mail.headers
editmsghdr-IsNumbered_example =
    editmsghdr-IsNumbered (viewer (codes "al")) opens 0 2 (codes "eall" ∷ codes "hi" ∷ [])
      own_message (unfold seek in record { ascending = ascending; bounded = bounded }) first_window
