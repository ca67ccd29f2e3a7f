-- ===== src/Rounds/Visited.antt =====
-- Which bases a text search visits.
use daydream.Base.{
  ℕ, zero, suc, ◌+◌, ◌≤◌, ◌≡◌, ◌≢◌, refl, sym, ap, ◌∙◌, Bool, true, false, ◌&&◌, ◌||◌, List, [],
  ◌∷◌, Option, any, arith, inl, inr, Bool-cases, length, leb, ltb, ◌==◌,
}
use daydream.Base.CString.{Str}
use daydream.Conference.{MsgBase, Conference}
use daydream.Join.{find_msgbase}
use daydream.Join.Current.{AllWritable}
use daydream.Message.Save.{Opens}
use daydream.Reader.{Viewer}
use daydream.Selection.{Bytes, isbasetagged, isanybasestagged, has_base}
use daydream.TextSearch.{Searcher, handle_params, ask_params}
use daydream.Rounds.{
  Desk, Walk, walking, ended, desk_of, is_walking, enter, scan_number, scan_bases, return_to,
  do_conference_wide_scan, search_for, textsearch,
}
use daydream.Rounds.Steps.{is_visited, Ready, Adds, not_visited, enter-Ready, scan_number-Adds}

module _ (v : Viewer) (o : Opens) (u : Searcher) (s : Str) (selcfg : Bytes) (typed : ℕ → List Str)
    (c : Conference) (k : ℕ) where
  -- The numbers from `i` on, so many, that are selected and have a base.
  abbrev is_chosen : ℕ → ℕ → Bool
  is_chosen i n =
      leb i k && ltb k (i + n) && isbasetagged selcfg c.conf.conf_number k && has_base c.msgbases k

  -- One number more, that is selected or not.
  choose_one :
      (i n : ℕ) (tagged found : ℕ → Bool) (b : Bool)
      → tagged i ≡ true
      → (leb (suc i) k && ltb k (suc i + n) && tagged k && found k || (found i && (i == k) || b))
        ≡ (leb i k && ltb k (i + suc n) && tagged k && found k || b)
  choose_one i n tagged found b e = elim (Bool-cases (i == k)) [
    | inl at ↦ let same : i ≡ k = ground arith in ground (arith, ap tagged same, ap found same)
    | inr off ↦ ground arith
  ]

  choose_none :
      (i n : ℕ) (tagged found : ℕ → Bool) (b : Bool)
      → tagged i ≡ false
      → (leb (suc i) k && ltb k (suc i + n) && tagged k && found k || b)
        ≡ (leb i k && ltb k (i + suc n) && tagged k && found k || b)
  choose_none i n tagged found b e = elim (Bool-cases (i == k)) [
    | inl at ↦ let same : i ≡ k = ground arith in ground (arith, ap tagged same)
    | inr off ↦ ground arith
  ]

  scan_bases-Adds :
      (i n : ℕ) (w : Walk)
      → Ready c (desk_of w)
      → i ≢ 0
      → i + n ≤ suc (length c.msgbases)
      → is_walking (scan_bases v o u s selcfg typed i n w) ≡ true
      → Adds v o u s selcfg typed c k
          (is_chosen i n)
          (desk_of w)
          (desk_of (scan_bases v o u s selcfg typed i n w))
  unfolding scan_bases
  scan_bases-Adds i n (ended d) ready ne le h = absurd (ground arith)
  scan_bases-Adds i zero (walking d quit) ready ne le h = (ready, ground arith)
  scan_bases-Adds i (suc n) (walking d quit) ready ne le h =
      let tagged = isbasetagged selcfg c.conf.conf_number in
      let found = has_base c.msgbases in
      let here = ap (λ x. isbasetagged selcfg x.conf.conf_number i) ready.1 in
      elim (Bool-cases (isbasetagged selcfg d.joined.conference.conf.conf_number i)) [
        | inl chosen ↦
            let one = scan_number v o u s typed d i in
            let (ready1, visited1) =
              scan_number-Adds v o u s selcfg typed c k d i (find_msgbase c.msgbases i) refl ready
                ne (omega arith) in
            let (ready2, visited2) =
              scan_bases-Adds (suc i) n one ready1 (omega arith) (omega arith) (simp chosen at h) in
            simp chosen (
              ready2,
              visited2
                  ∙ ap (λ b. is_chosen (suc i) n || b) visited1
                  ∙ choose_one i n tagged found (is_visited k d) (sym here ∙ chosen),
            )
        | inr skipped ↦
            let (ready2, visited2) =
              scan_bases-Adds (suc i) n (walking d quit) ready (omega arith) (omega arith)
                (simp skipped at h) in
            simp skipped (
              ready2,
              visited2 ∙ choose_none i n tagged found (is_visited k d) (sym here ∙ skipped),
            )
      ]

  return_to-Adds :
      (cm : ℕ) (w : Walk)
      → Ready c (desk_of w)
      → Adds v o u s selcfg typed c k false (desk_of w) (desk_of (return_to cm w))
  unfolding return_to enter
  return_to-Adds cm (ended d) ready = (ready, not_visited (is_visited k d))
  return_to-Adds cm (walking d quit) ready =
      (enter-Ready v o u s selcfg typed c k d cm ready, not_visited (is_visited k d))

return_to-walking : (cm : ℕ) (w : Walk) → is_walking (return_to cm w) ≡ true → is_walking w ≡ true
unfolding return_to
return_to-walking cm (walking d quit) h = refl
return_to-walking cm (ended d) h = h

up_to :
    (k n : ℕ) (tagged found before : Bool)
    → before ≡ false
    → (leb 1 k && ltb k (1 + n) && tagged && found || before)
      ≡ (leb 1 k && leb k n && (tagged && found))
up_to k n tagged found before e = ground arith

-- The numbers of the bases that are selected and that there are.
abbrev pub is_selected_base : Bytes → Conference → ℕ → Bool
is_selected_base selcfg c k =
    isanybasestagged selcfg c.conf.conf_number
    && (leb 1 k
        && leb k (length c.msgbases)
        && (isbasetagged selcfg c.conf.conf_number k && has_base c.msgbases k))

module _ (v : Viewer) (o : Opens) (u : Searcher) (selcfg : Bytes) (typed : ℕ → List Str) where
  scan-visited :
      (s : Str) (cm : MsgBase) (d : Desk) (k : ℕ)
      → AllWritable d.joined
      → d.visits ≡ []
      → is_walking (do_conference_wide_scan v o u s selcfg typed cm d) ≡ true
      → is_visited k (desk_of (do_conference_wide_scan v o u s selcfg typed cm d))
        ≡ is_selected_base selcfg d.joined.conference k
  unfolding do_conference_wide_scan
  scan-visited s cm d k writable empty h =
      let c = d.joined.conference in
      let count = length c.msgbases in
      let scanned = scan_bases v o u s selcfg typed 1 count (walking d false) in
      let fresh = ap (λ ws. any (λ w. w.base.msgbase_number == k) ws) empty in
      elim (Bool-cases (isanybasestagged selcfg c.conf.conf_number)) [
        | inr nothing ↦ simp nothing fresh
        | inl any_tagged ↦
            let (ready, visited) =
              scan_bases-Adds v o u s selcfg typed c k 1 count (walking d false) (writable, refl)
                (omega arith) (omega arith)
                (return_to-walking cm.msgbase_number scanned (simp any_tagged at h)) in
            let (_, back) =
              return_to-Adds v o u s selcfg typed c k cm.msgbase_number scanned ready in
            simp any_tagged (
              back
              ∙ visited
              ∙ up_to k count (isbasetagged selcfg c.conf.conf_number k) (has_base c.msgbases k)
                  (is_visited k d) fresh)
      ]

  search_for-visited :
      (s : Str) (cm : MsgBase) (d : Desk) (k : ℕ)
      → s ≢ []
      → AllWritable d.joined
      → d.visits ≡ []
      → is_walking (search_for v o u s selcfg typed cm d) ≡ true
      → is_visited k (desk_of (search_for v o u s selcfg typed cm d))
        ≡ is_selected_base selcfg d.joined.conference k
  unfolding search_for
  search_for-visited [] cm d k text writable empty h = absurd (text refl)
  search_for-visited (c ∷ s) cm d k text writable empty h =
      scan-visited (c ∷ s) cm d k writable empty h

  -- A text search that comes to its end, for a text that is not empty and with pointer files that can be
  -- written, has opened exactly the bases of the conference that are selected, among the numbers from 1 to
  -- the number of bases.
  pub textsearch-visited :
      (params answer : Option Str) (cm : MsgBase) (d : Desk) (k : ℕ)
      → ask_params (handle_params params) answer ≢ []
      → AllWritable d.joined
      → d.visits ≡ []
      → is_walking (textsearch v o u params answer selcfg typed cm d) ≡ true
      → is_visited k (desk_of (textsearch v o u params answer selcfg typed cm d))
        ≡ is_selected_base selcfg d.joined.conference k
  unfolding textsearch
  textsearch-visited params answer cm d k text writable empty h =
      search_for-visited (ask_params (handle_params params) answer) cm d k text writable empty h
