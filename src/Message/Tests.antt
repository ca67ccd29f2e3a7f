-- ===== src/Message/Tests.antt =====
-- A short message, and the theorems at it.
use daydream.Base.{
  ℕ, ◌≡◌, ◌≢◌, ◌+◌, refl, Bool, true, false, List, [], ◌∷◌, ◌++◌, Option, none, some, arith,
}
use daydream.Base.CString.{Str, codes, tolower}
use daydream.LineEd.{Rows, saved}
use daydream.Text.Lines.{read_lines}
use daydream.Message.{Area, Header, no_header, Poster, has_type, ask_header}
use daydream.Message.Netmail.{no_address, str2addr}
use daydream.Message.Save.{Mail, Opens, posted, final_header, entermsg}
use daydream.Message.Rules.{Allowed, ask_header-Allowed}
use daydream.Message.Numbered.{IsNumbered, Leaves, entermsg-IsNumbered}
use daydream.Message.Saved.{entermsg-posted}

-- A local base for all kinds of messages.
abbrev area : Area
area = record {
  msgbase_flags = 4;
  msgbase_fn_flags = b'L';
  msgbase_fn_tag = [];
  msgbase_fn_origin = [];
  msgbase_address = no_address;
}

abbrev poster : Poster
poster = record {
  area = area;
  access1 = 4194304;
  access2 = 0;
  user_handle = codes "bo";
  user_realname = codes "Bo Li";
  userbase = none;
  now = 7;
}

abbrev opens : Opens
opens = record {
  can_ptr = true;
  can_dat = true;
  can_text = true;
  can_fidocnt = true;
  attach_list = false;
  versionstring = codes "2";
}

abbrev old_header : Header
old_header = record no_header { msg_number = 4 }

abbrev mail : Mail
mail = record {
  msp_low = 1;
  msp_high = 4;
  lowest = 0;
  highest = 0;
  headers = old_header ∷ [];
  texts = λ k. none;
  fidocnt = 0;
  user_pvtmessages = 0;
  user_pubmessages = 0;
  cl_pvtmessages = 0;
  cl_pubmessages = 0;
}

abbrev rows : Rows
rows k = codes "hello"

abbrev typed : List Str
typed = codes "all" ∷ codes "Hi" ∷ []

abbrev ready_header : Header
ready_header = record no_header {
  msg_author = codes "bo";
  msg_subject = codes "Hi";
  msg_creation = 7;
}

ready : ask_header poster none typed [] ≡ some ready_header
unfolding ask_header tolower
ready = refl

address :
    str2addr (codes "2:5/7.1")
    ≡ some (record { fn_zone = 2; fn_net = 5; fn_node = 7; fn_point = 1 })
unfolding str2addr daydream.Base.CString.isspace
address = refl

ask_header-Allowed_example : Allowed poster ready_header
ask_header-Allowed_example = ask_header-Allowed poster typed [] ready_header ready

entermsg-IsNumbered_example :
    Leaves IsNumbered (entermsg opens poster none typed [] (saved 2 rows) mail)
entermsg-IsNumbered_example =
    entermsg-IsNumbered opens poster none typed [] (saved 2 rows) mail
      (record { ascending = (omega arith, tt); bounded = (omega arith, tt) }) (omega arith)

entermsg-posted_example :
    (m' : Mail) × (entermsg opens poster none typed [] (saved 2 rows) mail ≡ posted m')
    × (m'.headers ≡ old_header ∷ final_header opens poster ready_header 5 ∷ [])
    × (m'.msp_high ≡ 5)
    × ((text : Str) × (m'.texts 5 ≡ some text)
        × (read_lines 3 1024 text ≡ codes "hello" ∷ codes "hello" ∷ []))
    × ((k : ℕ) → k ≢ 5 → m'.texts k ≡ none)
entermsg-posted_example =
    entermsg-posted opens poster none typed [] 1 rows mail ready_header ready
      (unfold has_type in refl) refl (omega arith) (omega arith)
