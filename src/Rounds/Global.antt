-- ===== src/Rounds/Global.antt =====
-- What `globalread` shows, and what it leaves of the user record.
use daydream.Base.{
  ℕ, ◌≡◌, refl, sym, ap, ◌∙◌, true, false, List, [], ◌∷◌, Option, none, some, All, inl, inr,
  Bool-cases, ltb, length,
}
use mathlib.Core.Path.{subst}
use daydream.Base.CString.{Str}
use daydream.Access.{Security}
use daydream.Conference.{MsgBase, Conference}
use daydream.Join.{joinconf, changemsgbase}
use daydream.Join.Entry.{changemsgbase-Keeps, joinconf-joined, joinconf-refused}
use daydream.Message.Save.{Opens}
use daydream.Reader.{Viewer}
use daydream.Reader.Commands.{at_next, readmessages}
use daydream.Reader.Commands.Visible.{Permitted, readmessages-Permitted}
use daydream.Selection.{Bytes, isbasetagged}
use daydream.Rounds.{
  Visit, Desk, Walk, walking, ended, desk_of, enter, enter_reading, read_selected, read_base,
  visit_bases, quietly, join_desk, visit_conferences, rejoin, globalread,
}
use daydream.Rounds.Search.{after_session-visits}

-- A session in a selected base, in which only messages were shown that the user may read.
pub record Shown (v : Viewer) (selcfg : Bytes) (w : Visit) : Type 0 where
  pub selected : isbasetagged selcfg w.conf_number w.base.msgbase_number ≡ true
  pub permitted : All (Permitted v) w.shown

module _ (v : Viewer) (o : Opens) (selcfg : Bytes) (typed : ℕ → List Str) where
  -- The user record has the conference of number `n` for the next call.
  abbrev Good : ℕ → Desk → Type 0
  Good n d = All (Shown v selcfg) d.visits × (d.joined.user_joinconference ≡ n)

  read_selected-Good :
      (n : ℕ) (d : Desk) (m : Option MsgBase)
      → Good n d
      → ((cb : MsgBase) → m ≡ some cb → d.reading.displayed ≡ [])
      → Good n (desk_of (read_selected v o selcfg typed d m))
  unfolding read_selected
  read_selected-Good n d none good empty = good
  read_selected-Good n d (some cb) good empty =
      let lines = typed (length d.visits) in
      let read = readmessages v o none at_next none lines d.reading in
      let allowed =
        (readmessages-Permitted v o none at_next none lines d.reading (empty cb refl)).after in
      let selected = isbasetagged selcfg d.joined.conference.conf.conf_number cb.msgbase_number in
      elim (Bool-cases (ltb d.reading.lrp d.reading.mail.highest)) [
        | inr nothing ↦ simp nothing good
        | inl fresh ↦ elim (Bool-cases selected) [
          | inr skipped ↦ simp (fresh, skipped) good
          | inl chosen ↦
              let (all, _, same) =
                after_session-visits (Shown v selcfg) d cb read good.0
                  (record { selected = chosen; permitted = allowed }) in
              simp (fresh, chosen) (all, same ∙ good.1)
        ]
      ]

  entered-empty :
      (d : Desk) (j : daydream.Join.Reader) (m : Option MsgBase) (cb : MsgBase)
      → m ≡ some cb
      → (enter_reading d j m).displayed ≡ []
  unfolding enter_reading
  entered-empty d j none cb e = cc e
  entered-empty d j (some b) cb e = refl

  read_base-Good :
      (n : ℕ) (d : Desk) (mbase : MsgBase)
      → Good n d
      → Good n (desk_of (read_base v o selcfg typed d mbase))
  unfolding read_base enter
  read_base-Good n d mbase good =
      let j = (changemsgbase d.joined (some mbase.msgbase_number) true []).0 in
      let kept = (changemsgbase-Keeps d.joined (some mbase.msgbase_number) true []).1 in
      read_selected-Good n (enter d j) j.current_msgbase (good.0, kept ∙ good.1)
        (entered-empty d j j.current_msgbase)

  visit_bases-Good :
      (n : ℕ) (mbases : List MsgBase) (w : Walk)
      → Good n (desk_of w)
      → Good n (desk_of (visit_bases v o selcfg typed mbases w))
  unfolding visit_bases
  visit_bases-Good n mbases (ended d) good = good
  visit_bases-Good n [] (walking d quit) good = good
  visit_bases-Good n (mbase ∷ mbases) (walking d true) good = good
  visit_bases-Good n (mbase ∷ mbases) (walking d false) good =
      visit_bases-Good n mbases (read_base v o selcfg typed d mbase) (read_base-Good n d mbase good)

  module _ (sec : Security) (mcs : List Conference) where
    join_desk-Good :
        (n : ℕ) (d : Desk) (confn : ℕ) → Good n d → Good n (join_desk sec mcs d confn).0
    unfolding join_desk enter
    join_desk-Good n d confn good =
        let out = joinconf sec mcs d.joined (some confn) quietly [] in
        elim (Bool-cases out.1) [
          | inl granted ↦
              (good.0, (joinconf-joined sec mcs d.joined confn quietly [] granted).1 ∙ good.1)
          | inr refused ↦
              let same = joinconf-refused sec mcs d.joined confn quietly [] refused in
              (good.0, ap (λ j. j.user_joinconference) same ∙ good.1)
        ]

    visit_conferences-Good :
        (n : ℕ) (later : List Conference) (w : Walk)
        → Good n (desk_of w)
        → Good n (desk_of (visit_conferences v o sec mcs selcfg typed later w))
    unfolding visit_conferences
    visit_conferences-Good n later (ended d) good = good
    visit_conferences-Good n [] (walking d quit) good = good
    visit_conferences-Good n (mc ∷ later) (walking d quit) good =
        let (at, granted) = join_desk sec mcs d mc.conf.conf_number in
        let joined = join_desk-Good n d mc.conf.conf_number good in
        elim (Bool-cases granted) [
          | inr refused ↦ simp refused (visit_conferences-Good n later (walking at false) joined)
          | inl entered ↦
              let mbases = at.joined.conference.msgbases in
              simp entered (
                visit_conferences-Good n later
                  (visit_bases v o selcfg typed mbases (walking at false))
                  (visit_bases-Good n mbases (walking at false) joined))
        ]

    rejoin-Good :
        (n oldconf : ℕ) (w : Walk)
        → Good n (desk_of w)
        → Good n (desk_of (rejoin sec mcs oldconf w))
    unfolding rejoin
    rejoin-Good n oldconf (ended d) good = good
    rejoin-Good n oldconf (walking d quit) good = join_desk-Good n d oldconf good

    -- Up to the first of the commands e, eh, r, re, ] and [ in the reader, `globalread` opens the reader only in
    -- selected bases, where it shows only messages that the user may read, and the conference of the user
    -- record for the next call stays.
    pub globalread-Shown :
        (d : Desk)
        → d.visits ≡ []
        → let after = desk_of (globalread v o sec mcs selcfg typed d) in
          All (Shown v selcfg) after.visits
          × (after.joined.user_joinconference ≡ d.joined.user_joinconference)
    unfolding globalread
    globalread-Shown d empty =
        let n = d.joined.user_joinconference in
        let start : Good n d = (subst (All (Shown v selcfg)) (sym empty) tt, refl) in
        rejoin-Good n n (visit_conferences v o sec mcs selcfg typed mcs (walking d false))
          (visit_conferences-Good n mcs (walking d false) start)
