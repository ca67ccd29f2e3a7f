-- ===== src/Rounds.antt =====
-- The commands that walk over the bases: `textsearch` of main/textsearch.c and `globalread` of
-- main/readmsgs.c, over the bases of Join, the choices of Selection and the reader. What is typed in each
-- session of the reader is an argument, by the number of the sessions before it. A walk ends with a session
-- that is left out of the reader's model.
pub mod Search
pub mod Global
mod Steps
pub mod Visited
mod Tests
use daydream.Base.{
  ℕ, zero, suc, ◌+◌, Bool, true, false, List, [], ◌∷◌, Option, none, some, ltb, ◌==◌, if◌then◌else◌,
  length,
}
use daydream.Base.CString.{Str}
use daydream.Access.{Security}
use daydream.Conference.{MsgBase, Conference}
use daydream.Join.{BaseKey, JoinFlags, key_eq, key_of, changemsgbase, joinconf}
use daydream.Message.{Header}
use daydream.Message.Save.{Mail, Opens}
use daydream.Reader.{Viewer, Reading}
use daydream.Reader.Commands.{Continued, prompting, closed, left_out, at_next, readmessages}
use daydream.Selection.{Bytes, isbasetagged, isanybasestagged}
use daydream.TextSearch.{Searcher, handle_params, ask_params, scan_msgbase}

-- A session of the reader: the number of the conference, the base, its mail before, and what was shown.
pub record Visit : Type 0 where
  pub conf_number : ℕ
  pub base : MsgBase
  pub mail : Mail
  pub shown : List Header

-- The globals of Join, the files of the bases with the statics of the reader, and the sessions so far, the
-- latest first.
pub record Desk : Type 0 where
  pub joined : daydream.Join.Reader
  pub mails : BaseKey → Mail
  pub reading : Reading
  pub visits : List Visit

-- The mail of another base; the counters of the user and the caller log do not belong to a base.
switch_mail : Mail → Mail → ℕ → ℕ → Mail
switch_mail old new low high = record new {
  lowest = low;
  highest = high;
  fidocnt = old.fidocnt;
  user_pvtmessages = old.user_pvtmessages;
  user_pubmessages = old.user_pubmessages;
  cl_pvtmessages = old.cl_pvtmessages;
  cl_pubmessages = old.cl_pubmessages;
}

-- The globals `lowest`, `highest`, `lrp` and `lsp`, and the files of the current base.
pub enter_reading : Desk → daydream.Join.Reader → Option MsgBase → Reading
unfolding key_of switch_mail
enter_reading d j none = d.reading
enter_reading d j (some cb) = record d.reading {
  mail = switch_mail d.reading.mail (d.mails (key_of j cb)) j.lowest j.highest;
  lrp = j.lrp;
  lsp = j.lsp;
  displayed = [];
}

unfoldable pub enter : Desk → daydream.Join.Reader → Desk
unfolding enter_reading
enter d j = record d { joined = j; reading = enter_reading d j j.current_msgbase }

-- What a session leaves in the globals and the files.
unfoldable pub leave : Desk → MsgBase → Reading → Desk
unfolding key_of
leave d cb r =
    let j = d.joined in
    let key = key_of j cb in
    let f = j.files in
    record d {
      joined = record j {
        lrp = r.lrp;
        lsp = r.lsp;
        lowest = r.mail.lowest;
        highest = r.mail.highest;
        files = record f {
          ptr_file = λ k. if key_eq k key then (r.mail.msp_low, r.mail.msp_high) else f.ptr_file k;
        };
      };
      mails = λ k. if key_eq k key then r.mail else d.mails k;
      reading = r;
      visits =
          (record {
            conf_number = j.conference.conf.conf_number;
            base = cb;
            mail = d.reading.mail;
            shown = r.displayed;
          })
          ∷ d.visits;
    }

-- The walk goes on, or it ends with a session that is left out. The Boolean says that the session ended with
-- the result 2.
pub data Walk : Type 0 where
  walking : Desk → Bool → Walk
  ended : Desk → Walk

abbrev pub desk_of : Walk → Desk
desk_of (walking d quit) = d
desk_of (ended d) = d

abbrev pub is_walking : Walk → Bool
is_walking (walking d quit) = true
is_walking (ended d) = false

unfoldable pub after_session : Desk → MsgBase → Continued → Walk
unfolding leave
after_session d cb (prompting r) = ended (leave d cb r)
after_session d cb (left_out r) = ended (leave d cb r)
after_session d cb (closed r result) = walking (leave d cb r) (result == 2)

-- `scan_msgbase(num)` in the current base.
pub search_base : Viewer → Opens → Searcher → Str → (ℕ → List Str) → Desk → Option MsgBase → Walk
unfolding after_session scan_msgbase
search_base v o u search_str typed d none = walking d false
search_base v o u search_str typed d (some cb) =
    after_session d cb (scan_msgbase v o u search_str (typed (length d.visits)) d.reading)

unfoldable pub scan_number : Viewer → Opens → Searcher → Str → (ℕ → List Str) → Desk → ℕ → Walk
unfolding search_base changemsgbase enter
scan_number v o u search_str typed d num =
    let (j, changed) = changemsgbase d.joined (some num) true [] in
    let at = enter d j in
    let searched = search_base v o u search_str typed at j.current_msgbase in
    if changed then searched else walking at false

-- The loop of `do_conference_wide_scan` for so many numbers from `i` on.
unfoldable pub scan_bases :
    Viewer → Opens → Searcher → Str → Bytes → (ℕ → List Str) → ℕ → ℕ → Walk → Walk
unfolding scan_number isbasetagged
scan_bases v o u search_str selcfg typed i n (ended d) = ended d
scan_bases v o u search_str selcfg typed i zero (walking d quit) = walking d quit
scan_bases v o u search_str selcfg typed i (suc n) (walking d quit) =
    let visited = scan_number v o u search_str typed d i in
    let rest = scan_bases v o u search_str selcfg typed (suc i) n in
    if isbasetagged selcfg d.joined.conference.conf.conf_number i
    then rest visited
    else rest (walking d quit)

-- `changemsgbase(cm, MC_QUICK | MC_NOSTAT)`
unfoldable pub return_to : ℕ → Walk → Walk
unfolding changemsgbase enter
return_to cm (ended d) = ended d
return_to cm (walking d quit) = walking (enter d (changemsgbase d.joined (some cm) true []).0) quit

-- `cm` is the current base.
unfoldable pub do_conference_wide_scan :
    Viewer → Opens → Searcher → Str → Bytes → (ℕ → List Str) → MsgBase → Desk → Walk
unfolding isanybasestagged scan_bases return_to
do_conference_wide_scan v o u search_str selcfg typed cm d =
    let count = length d.joined.conference.msgbases in
    let scanned = scan_bases v o u search_str selcfg typed 1 count (walking d false) in
    if isanybasestagged selcfg d.joined.conference.conf.conf_number
    then return_to cm.msgbase_number scanned
    else walking d false

pub search_for : Viewer → Opens → Searcher → Str → Bytes → (ℕ → List Str) → MsgBase → Desk → Walk
unfolding do_conference_wide_scan
search_for v o u [] selcfg typed cm d = walking d false
search_for v o u (c ∷ search_str) selcfg typed cm d =
    do_conference_wide_scan v o u (c ∷ search_str) selcfg typed cm d

-- `textsearch(params)`; `answer` is what is typed for the text, if it is asked for.
unfoldable pub textsearch :
    Viewer
    → Opens
    → Searcher
    → Option Str
    → Option Str
    → Bytes
    → (ℕ → List Str)
    → MsgBase
    → Desk
    → Walk
unfolding search_for handle_params ask_params
textsearch v o u params answer selcfg typed cm d =
    search_for v o u (ask_params (handle_params params) answer) selcfg typed cm d

-- The base that was entered, if there is something new in it and it is selected.
pub read_selected : Viewer → Opens → Bytes → (ℕ → List Str) → Desk → Option MsgBase → Walk
unfolding after_session isbasetagged readmessages
read_selected v o selcfg typed d none = walking d false
read_selected v o selcfg typed d (some cb) =
    let read =
      after_session d cb (readmessages v o none at_next none (typed (length d.visits)) d.reading) in
    if ltb d.reading.lrp d.reading.mail.highest
    then (if isbasetagged selcfg d.joined.conference.conf.conf_number cb.msgbase_number
        then read
        else walking d false)
    else walking d false

unfoldable pub read_base : Viewer → Opens → Bytes → (ℕ → List Str) → Desk → MsgBase → Walk
unfolding read_selected changemsgbase enter
read_base v o selcfg typed d mbase =
    let at = enter d (changemsgbase d.joined (some mbase.msgbase_number) true []).0 in
    read_selected v o selcfg typed at at.joined.current_msgbase

-- The loop over the bases of a conference; the result 2 leaves it.
unfoldable pub visit_bases : Viewer → Opens → Bytes → (ℕ → List Str) → List MsgBase → Walk → Walk
unfolding read_base
visit_bases v o selcfg typed mbases (ended d) = ended d
visit_bases v o selcfg typed [] (walking d quit) = walking d quit
visit_bases v o selcfg typed (mbase ∷ mbases) (walking d true) = walking d true
visit_bases v o selcfg typed (mbase ∷ mbases) (walking d false) =
    visit_bases v o selcfg typed mbases (read_base v o selcfg typed d mbase)

-- JC_QUICK | JC_SHUTUP | JC_NOUPDATE
abbrev pub quietly : JoinFlags
quietly = record { jc_shutup = true; jc_quick = true; jc_noupdate = true }

unfoldable pub join_desk : Security → List Conference → Desk → ℕ → Desk × Bool
unfolding joinconf enter
join_desk sec mcs d n =
    let (j, granted) = joinconf sec mcs d.joined (some n) quietly [] in (enter d j, granted)

-- The loop over the conferences; `mcs` are all of them.
unfoldable pub visit_conferences :
    Viewer
    → Opens
    → Security
    → List Conference
    → Bytes
    → (ℕ → List Str)
    → List Conference
    → Walk
    → Walk
unfolding visit_bases join_desk
visit_conferences v o sec mcs selcfg typed later (ended d) = ended d
visit_conferences v o sec mcs selcfg typed [] (walking d quit) = walking d quit
visit_conferences v o sec mcs selcfg typed (mc ∷ later) (walking d quit) =
    let (at, granted) = join_desk sec mcs d mc.conf.conf_number in
    let read = visit_bases v o selcfg typed at.joined.conference.msgbases (walking at false) in
    let rest = visit_conferences v o sec mcs selcfg typed later in
    if granted then rest read else rest (walking at false)

-- `joinconf(oldconf, JC_QUICK | JC_SHUTUP | JC_NOUPDATE)`
unfoldable pub rejoin : Security → List Conference → ℕ → Walk → Walk
unfolding join_desk
rejoin sec mcs oldconf (ended d) = ended d
rejoin sec mcs oldconf (walking d quit) = walking (join_desk sec mcs d oldconf).0 quit

unfoldable pub globalread :
    Viewer → Opens → Security → List Conference → Bytes → (ℕ → List Str) → Desk → Walk
unfolding visit_conferences rejoin
globalread v o sec mcs selcfg typed d =
    rejoin sec mcs d.joined.user_joinconference
      (visit_conferences v o sec mcs selcfg typed mcs (walking d false))
