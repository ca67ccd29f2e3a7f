-- ===== src/Rounds/Search.antt =====
-- What a text search shows, and where it leaves the caller.
use daydream.Base.{
  ℕ, zero, suc, ◌≤◌, ◌≡◌, ◌≢◌, refl, sym, ap, ◌∙◌, true, false, List, [], ◌∷◌, Option, none, some,
  All, arith, inl, inr, Bool-cases, length,
}
use mathlib.Core.Path.{subst}
use daydream.Base.CString.{Str}
use daydream.Conference.{MsgBase, Conference}
use daydream.Join.{changemsgbase, find_msgbase}
use daydream.Join.Current.{changemsgbase-changed, changemsgbase-current}
use daydream.Join.Entry.{changemsgbase-Keeps}
use daydream.Message.Save.{Opens, getmsgptrs}
use daydream.Reader.{Viewer}
use daydream.Reader.Commands.{Continued, prompting, closed, left_out}
use daydream.Reader.Commands.Kept.{state_after}
use daydream.Reader.Commands.Visible.{Permitted}
use daydream.Selection.{Bytes, isbasetagged, isanybasestagged}
use daydream.TextSearch.{Searcher, handle_params, ask_params, scan_msgbase}
use daydream.TextSearch.Found.{Matches, scan_msgbase-Matches, scan_msgbase-Permitted}
use daydream.Rounds.{
  Visit, Desk, Walk, walking, ended, desk_of, is_walking, enter, enter_reading, leave,
  after_session, search_base, scan_number, scan_bases, return_to, do_conference_wide_scan,
  search_for, textsearch,
}

-- A session in a selected base, in which only messages with the text were shown that the user may read.
pub record Found (v : Viewer) (u : Searcher) (search_str : Str) (selcfg : Bytes) (w : Visit)
    : Type 0 where
  pub selected : isbasetagged selcfg w.conf_number w.base.msgbase_number ≡ true
  pub matches : All (Matches u search_str (getmsgptrs w.mail)) w.shown
  pub permitted : All (Permitted v) w.shown

-- The current base, as it is found by its number.
pub record IsCurrent (cm : MsgBase) (d : Desk) : Type 0 where
  pub current : d.joined.current_msgbase ≡ some cm
  pub not_zero : cm.msgbase_number ≢ 0
  pub within : cm.msgbase_number ≤ length d.joined.conference.msgbases
  pub found : find_msgbase d.joined.conference.msgbases cm.msgbase_number ≡ some cm

-- The record of a session.
abbrev pub visit_of : Desk → MsgBase → Continued → Visit
visit_of d cb out = record {
  conf_number = d.joined.conference.conf.conf_number;
  base = cb;
  mail = d.reading.mail;
  shown = (state_after out).displayed;
}

-- What a session adds, and what it leaves.
pub after_session-visits :
    (P : Visit → Type 0) (d : Desk) (cb : MsgBase) (out : Continued)
    → All P d.visits
    → P (visit_of d cb out)
    → let after = desk_of (after_session d cb out) in
      All P after.visits
      × (after.joined.conference ≡ d.joined.conference)
      × (after.joined.user_joinconference ≡ d.joined.user_joinconference)
unfolding after_session leave
after_session-visits P d cb (prompting r) all one = ((one, all), refl, refl)
after_session-visits P d cb (left_out r) all one = ((one, all), refl, refl)
after_session-visits P d cb (closed r result) all one = ((one, all), refl, refl)

module _ (v : Viewer) (o : Opens) (u : Searcher) (selcfg : Bytes) (typed : ℕ → List Str) where
  -- In the conference `c`.
  abbrev Good : Str → Conference → Desk → Type 0
  Good s c d = All (Found v u s selcfg) d.visits × (d.joined.conference ≡ c)

  search_base-Good :
      (s : Str) (c : Conference) (d : Desk) (m : Option MsgBase)
      → Good s c d
      → d.reading.displayed ≡ []
      → ((cb : MsgBase)
          → m ≡ some cb
          → isbasetagged selcfg c.conf.conf_number cb.msgbase_number ≡ true)
      → Good s c (desk_of (search_base v o u s typed d m))
  unfolding search_base
  search_base-Good s c d none good empty selected = good
  search_base-Good s c d (some cb) good empty selected =
      let lines = typed (length d.visits) in
      let (all, same, _) =
        after_session-visits (Found v u s selcfg) d cb (scan_msgbase v o u s lines d.reading) good.0
          (record {
            selected =
                ap (λ x. isbasetagged selcfg x.conf.conf_number cb.msgbase_number) good.1
                ∙ selected cb refl;
            matches = scan_msgbase-Matches v o u s lines d.reading empty;
            permitted = scan_msgbase-Permitted v o u s lines d.reading empty;
          }) in
      (all, same ∙ good.1)

  scan_number-Good :
      (s : Str) (c : Conference) (d : Desk) (num : ℕ)
      → Good s c d
      → isbasetagged selcfg c.conf.conf_number num ≡ true
      → Good s c (desk_of (scan_number v o u s typed d num))
  unfolding scan_number enter enter_reading
  scan_number-Good s c d num good tagged =
      let out = changemsgbase d.joined (some num) true [] in
      let at : Good s c (enter d out.0) =
        (good.0, (changemsgbase-Keeps d.joined (some num) true []).0 ∙ good.1) in
      elim (Bool-cases out.1) [
        | inr refused ↦ simp refused at
        | inl changed ↦
            let (cb, found, current, number) = changemsgbase-changed d.joined num changed in
            let empty = ap (λ m. (enter_reading d out.0 m).displayed) current in
            simp changed (
              search_base-Good s c (enter d out.0) out.0.current_msgbase at empty (λ b e.
                let same : b ≡ cb = cc (e, current) in
                ap (λ b'. isbasetagged selcfg c.conf.conf_number b'.msgbase_number) same
                ∙ ap (isbasetagged selcfg c.conf.conf_number) number
                ∙ tagged))
      ]

  scan_bases-Good :
      (s : Str) (c : Conference) (i n : ℕ) (w : Walk)
      → Good s c (desk_of w)
      → Good s c (desk_of (scan_bases v o u s selcfg typed i n w))
  unfolding scan_bases
  scan_bases-Good s c i n (ended d) good = good
  scan_bases-Good s c i zero (walking d quit) good = good
  scan_bases-Good s c i (suc n) (walking d quit) good =
      elim (Bool-cases (isbasetagged selcfg d.joined.conference.conf.conf_number i)) [
        | inl tagged ↦
            let here = ap (λ x. isbasetagged selcfg x.conf.conf_number i) (sym good.1) ∙ tagged in
            simp tagged (
              scan_bases-Good s c (suc i) n (scan_number v o u s typed d i)
                (scan_number-Good s c d i good here))
        | inr other ↦ simp other (scan_bases-Good s c (suc i) n (walking d quit) good)
      ]

  return_to-Good :
      (s : Str) (c : Conference) (cm : ℕ) (w : Walk)
      → Good s c (desk_of w)
      → Good s c (desk_of (return_to cm w))
  unfolding return_to enter
  return_to-Good s c cm (ended d) good = good
  return_to-Good s c cm (walking d quit) good =
      (good.0, (changemsgbase-Keeps d.joined (some cm) true []).0 ∙ good.1)

  scan-Good :
      (s : Str) (cm : MsgBase) (d : Desk)
      → d.visits ≡ []
      → Good s d.joined.conference (desk_of (do_conference_wide_scan v o u s selcfg typed cm d))
  unfolding do_conference_wide_scan
  scan-Good s cm d empty =
      let start : Good s d.joined.conference d =
        (subst (All (Found v u s selcfg)) (sym empty) tt, refl) in
      let count = length d.joined.conference.msgbases in
      elim (Bool-cases (isanybasestagged selcfg d.joined.conference.conf.conf_number)) [
        | inr nothing ↦ simp nothing start
        | inl any_tagged ↦ simp any_tagged (
            return_to-Good s d.joined.conference cm.msgbase_number
              (scan_bases v o u s selcfg typed 1 count (walking d false))
              (scan_bases-Good s d.joined.conference 1 count (walking d false) start))
      ]

  search_for-Good :
      (s : Str) (cm : MsgBase) (d : Desk)
      → d.visits ≡ []
      → Good s d.joined.conference (desk_of (search_for v o u s selcfg typed cm d))
  unfolding search_for
  search_for-Good [] cm d empty = (subst (All (Found v u [] selcfg)) (sym empty) tt, refl)
  search_for-Good (c ∷ s) cm d empty = scan-Good (c ∷ s) cm d empty

  -- Up to the first of the commands e, eh, r, re, ] and [ in the reader, a text search opens the reader only in
  -- selected bases of the conference, where it shows only messages of the base in whose text the text
  -- searched for occurs and that the user may read; and the conference stays.
  pub textsearch-Found :
      (params answer : Option Str) (cm : MsgBase) (d : Desk)
      → d.visits ≡ []
      → let after = desk_of (textsearch v o u params answer selcfg typed cm d) in
        All (Found v u (ask_params (handle_params params) answer) selcfg) after.visits
        × (after.joined.conference ≡ d.joined.conference)
  unfolding textsearch
  textsearch-Found params answer cm d empty =
      search_for-Good (ask_params (handle_params params) answer) cm d empty

  return_to-current :
      (s : Str) (c : Conference) (cm : MsgBase) (w : Walk)
      → cm.msgbase_number ≢ 0
      → cm.msgbase_number ≤ length c.msgbases
      → find_msgbase c.msgbases cm.msgbase_number ≡ some cm
      → (desk_of w).joined.conference ≡ c
      → is_walking (return_to cm.msgbase_number w) ≡ true
      → (desk_of (return_to cm.msgbase_number w)).joined.current_msgbase ≡ some cm
  unfolding return_to enter
  return_to-current s c cm (ended d) ne le found same h = absurd (ground arith)
  return_to-current s c cm (walking d quit) ne le found same h =
      changemsgbase-current d.joined cm.msgbase_number cm ne
        (subst (λ x. cm.msgbase_number ≤ length x.msgbases) (sym same) le)
        (ap (λ x. find_msgbase x.msgbases cm.msgbase_number) same ∙ found)

  scan-back :
      (s : Str) (cm : MsgBase) (d : Desk)
      → d.visits ≡ []
      → IsCurrent cm d
      → is_walking (do_conference_wide_scan v o u s selcfg typed cm d) ≡ true
      → (desk_of (do_conference_wide_scan v o u s selcfg typed cm d)).joined.current_msgbase
        ≡ some cm
  unfolding do_conference_wide_scan
  scan-back s cm d empty at h =
      let c = d.joined.conference in
      let start : Good s c d = (subst (All (Found v u s selcfg)) (sym empty) tt, refl) in
      let scanned = scan_bases v o u s selcfg typed 1 (length c.msgbases) (walking d false) in
      let kept = scan_bases-Good s c 1 (length c.msgbases) (walking d false) start in
      elim (Bool-cases (isanybasestagged selcfg c.conf.conf_number)) [
        | inr nothing ↦ simp nothing at.current
        | inl any_tagged ↦ simp any_tagged (
            return_to-current s c cm scanned at.not_zero at.within at.found kept.1
              (simp any_tagged at h))
      ]

  search_for-back :
      (s : Str) (cm : MsgBase) (d : Desk)
      → d.visits ≡ []
      → IsCurrent cm d
      → is_walking (search_for v o u s selcfg typed cm d) ≡ true
      → (desk_of (search_for v o u s selcfg typed cm d)).joined.current_msgbase ≡ some cm
  unfolding search_for
  search_for-back [] cm d empty at h = at.current
  search_for-back (c ∷ s) cm d empty at h = scan-back (c ∷ s) cm d empty at h

  -- A text search that comes to its end leaves the caller in the base where it was called, if that is the base
  -- of its number in the conference, and the number is between 1 and the number of bases.
  pub textsearch-back :
      (params answer : Option Str) (cm : MsgBase) (d : Desk)
      → d.visits ≡ []
      → IsCurrent cm d
      → is_walking (textsearch v o u params answer selcfg typed cm d) ≡ true
      → (desk_of (textsearch v o u params answer selcfg typed cm d)).joined.current_msgbase
        ≡ some cm
  unfolding textsearch
  textsearch-back params answer cm d empty at h =
      search_for-back (ask_params (handle_params params) answer) cm d empty at h
