-- ===== src/TextSearch/Tests.antt =====
-- A search in three messages.
use daydream.Base.{
  ℕ, ◌≡◌, refl, true, false, [], ◌∷◌, Option, none, some, map, arith, any, ◌&&◌, ◌==◌,
  if◌then◌else◌,
}
use daydream.Base.CString.{Str, codes, tolower, isspace}
use daydream.Message.{Header, no_header}
use daydream.Message.Save.{Mail, Opens}
use daydream.Reader.{Viewer, Reading}
use daydream.Reader.Commands.Kept.{state_after}
use daydream.TextSearch.{
  Searcher, simple_search, mask_at, scanned, scan_msgbase, handle_params, ask_params,
}
use daydream.TextSearch.Marks.{lists, scanned-marks}

abbrev message : ℕ → ℕ → Header
message n flags = record no_header { msg_number = n; msg_flags = flags }

abbrev text : ℕ → Option Str
text n =
    if n == 4
    then some (codes "Old  Ham")
    else if n == 5
    then some (codes "an old ham")
    else some (codes "spam")

-- Message 6 is deleted.
abbrev mail : Mail
mail = record {
  msp_low = 4;
  msp_high = 7;
  lowest = 4;
  highest = 7;
  headers = message 4 0 ∷ message 5 0 ∷ message 6 2 ∷ message 7 0 ∷ [];
  texts = text;
  fidocnt = 0;
  user_pvtmessages = 0;
  user_pubmessages = 0;
  cl_pvtmessages = 0;
  cl_pubmessages = 0;
}

abbrev searcher : Searcher
searcher = record { account_id = 3; userbase = none }

abbrev old_ham : Str
old_ham = codes "old ham"

marked : scanned searcher old_ham mail ≡ (true ∷ true ∷ false ∷ false ∷ [], some 4)
unfolding scanned isspace tolower
marked = refl

-- The parameters are quoted; case and runs of spaces do not matter.
asked : ask_params (handle_params (some (codes " 'OLD  ham' x"))) none ≡ old_ham
unfolding ask_params handle_params isspace tolower daydream.Text.skip_spaces
asked = refl

scanned-marks_example :
    mask_at (scanned searcher old_ham mail).0 4 5
    ≡ (any (lists searcher mail 5) mail.headers && simple_search old_ham (mail.texts 5))
scanned-marks_example = scanned-marks searcher old_ham mail 5 (omega arith) (omega arith)

abbrev opens : Opens
opens = record {
  can_ptr = true;
  can_dat = true;
  can_text = true;
  can_fidocnt = true;
  attach_list = false;
  versionstring = codes "2";
}

abbrev viewer : Viewer
viewer = record {
  user_handle = codes "bo";
  user_realname = codes "Bo Li";
  user_securitylevel = 10;
  access1 = 0;
  cosysop_level = 100;
}

abbrev reading : Reading
reading = record {
  mail = mail;
  msgbuf = message 1 0 ∷ message 1 0 ∷ message 1 0 ∷ message 1 0 ∷ message 1 0 ∷ [];
  bread = 0;
  seekpoint = 0;
  oldseekpoint = 0;
  msgbasesize = 0;
  daheader = none;
  msgnum = 0;
  forward = true;
  lrp = 0;
  lsp = 0;
  displayed = [];
}

-- The first message found, and the next one.
shown :
    map
      (λ h. h.msg_number)
      (state_after (scan_msgbase viewer opens searcher old_ham ([] ∷ []) reading)).displayed
    ≡ 5 ∷ 4 ∷ []
unfolding scan_msgbase isspace tolower daydream.Reader.Commands.read_line
shown = refl
