-- ===== src/Scan.antt =====
-- The scan of one message base for new mail, in `scanfornewmail` of main/mailscan.c. The file msgbase.dat
-- is the list of its records, and a place in it is a number of records. The walk over the conferences, the
-- list on the screen and the reader that is called are left out.
pub mod Window
mod Tests
use daydream.Base.{
  ℕ, zero, suc, ◌+◌, ◌-◌, Bool, true, false, not, ◌||◌, List, [], ◌∷◌, Option, none, some, ltb, leb,
  ◌==◌, if◌then◌else◌, drop, length, filter,
}
use daydream.Base.CString.{Str, strcase_eq, strlcpy}
use daydream.Message.{Header, is_private}
use daydream.Message.Save.{Mail}

-- `struct MsgScanDat`; `ms_status` says whether the message is private.
pub record MsgScanDat : Type 0 where
  pub ms_seekp : ℕ
  pub ms_number : ℕ
  pub ms_sender : Str
  pub ms_subject : Str
  pub ms_status : Bool

pub record Names : Type 0 where
  pub user_handle : Str
  pub user_realname : Str

-- The message is to all by `eall`, or to the user.
unfoldable pub for_user : Names → Str → Bool
unfolding strcase_eq
for_user u [] = strcase_eq [] u.user_handle || strcase_eq [] u.user_realname
for_user u (c ∷ t) =
    c == 255 || (strcase_eq (c ∷ t) u.user_handle || strcase_eq (c ∷ t) u.user_realname)

unfoldable pub has_text : Option Str → Bool
has_text none = false
has_text (some text) = true

unfoldable pub scan_entry : ℕ → Header → MsgScanDat
unfolding is_private strlcpy
scan_entry seekp msg = record {
  ms_seekp = seekp;
  ms_number = msg.msg_number;
  ms_sender = strlcpy msg.msg_author 26;
  ms_subject = strlcpy msg.msg_subject 60;
  ms_status = is_private msg;
}

-- The loop over the records from `seekp` on: `newcnt`, and the messages for the user.
unfoldable pub scan_loop : Names → (ℕ → Option Str) → ℕ → ℕ → List Header → ℕ × List MsgScanDat
unfolding for_user has_text scan_entry is_private
scan_loop u texts lsp seekp [] = (0, [])
scan_loop u texts lsp seekp (msg ∷ msgs) =
    let rest = scan_loop u texts lsp (suc seekp) msgs in
    if not (ltb lsp msg.msg_number)
    then rest
    else if for_user u msg.msg_receiver
    then (if has_text (texts msg.msg_number)
        then (suc rest.0, scan_entry seekp msg ∷ rest.1)
        else rest)
    else if is_private msg
    then rest
    else (suc rest.0, rest.1)

-- The first record that is read.
unfoldable pub scan_start : Mail → ℕ → ℕ
scan_start m lsp = length m.headers - (m.highest - lsp + 2)

-- What is new: `newcnt`, the messages for the user, and the scan pointer.
pub record Scanned : Type 0 where
  pub newcnt : ℕ
  pub found : List MsgScanDat
  pub lsp : ℕ

unfoldable pub with_found : ℕ → ℕ → ℕ × List MsgScanDat → Scanned
with_found lsp highest (newcnt, []) = record { newcnt = newcnt; found = []; lsp = highest }
with_found lsp highest (newcnt, d ∷ ds) = record { newcnt = newcnt; found = d ∷ ds; lsp = lsp }

abbrev pub later : ℕ → ℕ → ℕ
later lrp lsp = if ltb lsp lrp then lrp else lsp

-- Up to the question whether to read, with the pointers of the user.
unfoldable pub scan_base : Names → Mail → ℕ → ℕ → Scanned
unfolding scan_loop scan_start with_found
scan_base u m lrp lsp =
    let start = scan_start m (later lrp lsp) in
    let scanned =
      with_found (later lrp lsp) m.highest
        (scan_loop u m.texts (later lrp lsp) start (drop start m.headers)) in
    if leb m.highest (later lrp lsp)
    then record { newcnt = 0; found = []; lsp = m.highest }
    else scanned

-- The answer to the question: what is read, and the scan pointer.
unfoldable pub scan_answer : Mail → Scanned → ℕ → List MsgScanDat × ℕ
scan_answer m s hot =
    if hot == b'Y' || (hot == b'y' || (hot == 13 || (hot == 10)))
    then (filter (λ d. leb s.lsp d.ms_number) s.found, s.lsp)
    else if hot == b'M' || (hot == b'm')
    then ([], m.highest)
    else ([], s.lsp)
