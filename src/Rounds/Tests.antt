-- ===== src/Rounds/Tests.antt =====
-- A caller in a conference of two bases, both selected, and a conference without access.
use daydream.Base.{
  ℕ, ◌≡◌, ◌≢◌, refl, true, false, List, [], ◌∷◌, none, some, map, arith, All, ◌==◌, if◌then◌else◌,
}
use daydream.Base.CString.{codes, isspace, tolower}
use daydream.Access.{Security}
use daydream.Conference.{MsgBase, Conference}
use daydream.Join.{BaseKey}
use daydream.Message.{Header, no_header}
use daydream.Message.Save.{Mail, Opens}
use daydream.Reader.{Viewer, Reading}
use daydream.Selection.{Bytes}
use daydream.TextSearch.{Searcher, handle_params, ask_params}
use daydream.Rounds.{Desk, Walk, desk_of, is_walking, textsearch, globalread}
use daydream.Rounds.Search.{Found, IsCurrent, textsearch-Found, textsearch-back}
use daydream.Rounds.Steps.{is_visited}
use daydream.Rounds.Visited.{is_selected_base, textsearch-visited}
use daydream.Rounds.Global.{Shown, globalread-Shown}

abbrev base : ℕ → MsgBase
base n = record { msgbase_number = n; msgbase_name = codes "general" }

abbrev area : ℕ → Conference
area n = record {
  conf = record { conf_number = n; conf_path = codes "/c/"; conf_msgbases = 2; conf_passwd = [] };
  msgbases = base 1 ∷ base 2 ∷ [];
}

-- Level 10 may enter conference 1.
abbrev presets : Security
presets = record {
  secs =
      record {
        sec_seclevel = 10;
        sec_fileratio = 0;
        sec_byteratio = 0;
        sec_pagespercall = 5;
        sec_dailytime = 60;
        sec_conferenceacc1 = 1;
        sec_conferenceacc2 = 0;
        sec_accessbits1 = 6;
        sec_accessbits2 = 0;
      }
      ∷ [];
  security_dat = λ slot. none;
}

abbrev message : ℕ → Header
message n = record no_header { msg_number = n }

-- Messages 1 and 2, of which message 2 has ham in base 2.
abbrev mail : ℕ → Mail
mail b = record {
  msp_low = 1;
  msp_high = 2;
  lowest = 1;
  highest = 2;
  headers = message 1 ∷ message 2 ∷ [];
  texts = λ n. if n == b then some (codes "Old  Ham") else some (codes "spam");
  fidocnt = 0;
  user_pvtmessages = 0;
  user_pubmessages = 0;
  cl_pvtmessages = 0;
  cl_pubmessages = 0;
}

abbrev reading : Reading
reading = record {
  mail = mail 1;
  msgbuf = message 1 ∷ message 1 ∷ message 1 ∷ message 1 ∷ message 1 ∷ [];
  bread = 0;
  seekpoint = 0;
  oldseekpoint = 0;
  msgbasesize = 0;
  daheader = none;
  msgnum = 0;
  forward = true;
  lrp = 0;
  lsp = 0;
  displayed = [];
}

abbrev desk : Desk
desk = record {
  joined = record {
    user = record {
      user_account_id = 1;
      user_securitylevel = 10;
      user_fileratio = 0;
      user_byteratio = 0;
      user_dailytimelimit = 0;
      user_conferenceacc1 = 0;
      user_conferenceacc2 = 0;
    };
    user_joinconference = 1;
    conference = area 1;
    current_msgbase = some (base 1);
    lrp = 1;
    lsp = 0;
    oldlrp = 1;
    oldlsp = 0;
    lowest = 1;
    highest = 2;
    lrp_open = some (codes "/c/", 1);
    files = record { lrp_file = λ k slot. (1, 0); ptr_file = λ k. (1, 2); can_write = λ k. true };
  };
  mails = λ k. mail k.1;
  reading = reading;
  visits = [];
}

abbrev opens : Opens
opens = record {
  can_ptr = true;
  can_dat = true;
  can_text = true;
  can_fidocnt = true;
  attach_list = false;
  versionstring = codes "2";
}

abbrev viewer : Viewer
viewer = record {
  user_handle = codes "bo";
  user_realname = codes "Bo Li";
  user_securitylevel = 10;
  access1 = 0;
  cosysop_level = 100;
}

abbrev searcher : Searcher
searcher = record { account_id = 1; userbase = none }

abbrev both_bases : Bytes
both_bases = 3 ∷ []

abbrev numbers : Desk → List (ℕ × List ℕ)
numbers d = map (λ w. (w.base.msgbase_number, map (λ h. h.msg_number) w.shown)) d.visits

-- Each base has one message with the text.
abbrev search : Walk
search =
    textsearch viewer opens searcher (some (codes "ham")) none both_bases (λ n. []) (base 1) desk

searched : numbers (desk_of search) ≡ (2, 2 ∷ []) ∷ (1, 1 ∷ []) ∷ []
unfolding textsearch isspace tolower daydream.Reader.Commands.read_line daydream.Text.skip_spaces
searched = refl

-- The next message, and the end. The message before was read.
all_read :
    numbers (
      desk_of (
        globalread viewer opens presets (area 1 ∷ area 2 ∷ []) both_bases (λ n. [] ∷ [] ∷ []) desk))
    ≡ (2, 2 ∷ []) ∷ (1, 2 ∷ []) ∷ []
unfolding globalread isspace tolower daydream.Reader.Commands.read_line
    daydream.Access.checkconfaccess
all_read = refl

textsearch-Found_example :
    let after = desk_of search in
    All
      (Found viewer searcher (ask_params (handle_params (some (codes "ham"))) none) both_bases)
      after.visits
    × (after.joined.conference ≡ area 1)
textsearch-Found_example =
    textsearch-Found viewer opens searcher both_bases (λ n. []) (some (codes "ham")) none (base 1)
      desk refl

in_base : IsCurrent (base 1) desk
unfolding daydream.Join.find_msgbase
in_base = record { current = refl; not_zero = omega arith; within = omega arith; found = refl }

ends : is_walking search ≡ true
unfolding textsearch isspace tolower daydream.Reader.Commands.read_line daydream.Text.skip_spaces
ends = refl

textsearch-back_example : (desk_of search).joined.current_msgbase ≡ some (base 1)
textsearch-back_example =
    textsearch-back viewer opens searcher both_bases (λ n. []) (some (codes "ham")) none (base 1)
      desk refl in_base ends

asked : ask_params (handle_params (some (codes "ham"))) none ≢ []
unfolding ask_params handle_params isspace tolower daydream.Text.skip_spaces
asked e = cc e

textsearch-visited_example : is_visited 2 (desk_of search) ≡ is_selected_base both_bases (area 1) 2
textsearch-visited_example =
    textsearch-visited viewer opens searcher both_bases (λ n. []) (some (codes "ham")) none (base 1)
      desk 2 asked (λ k. refl) refl ends

globalread-Shown_example :
    let after = desk_of (
      globalread viewer opens presets (area 1 ∷ area 2 ∷ []) both_bases (λ n. [] ∷ [] ∷ []) desk) in
    All (Shown viewer both_bases) after.visits × (after.joined.user_joinconference ≡ 1)
globalread-Shown_example =
    globalread-Shown viewer opens both_bases (λ n. [] ∷ [] ∷ []) presets (area 1 ∷ area 2 ∷ []) desk
      refl
