-- ===== src/Rounds/Steps.antt =====
-- What one number of a text search adds to the bases that are visited.
use daydream.Base.{
  ℕ, ◌≤◌, ◌≡◌, ◌≢◌, refl, sym, ap, ◌∙◌, Bool, true, false, ◌&&◌, ◌||◌, List, [], ◌∷◌, Option, none,
  some, any, arith, inl, inr, Bool-cases, length, ◌==◌,
}
use mathlib.Core.Path.{subst}
use daydream.Base.CString.{Str}
use daydream.Conference.{MsgBase, Conference}
use daydream.Join.{changemsgbase, find_msgbase}
use daydream.Join.Current.{
  AllWritable, changemsgbase-changed, changemsgbase-enters, changemsgbase-can_write,
}
use daydream.Join.Entry.{changemsgbase-Keeps}
use daydream.Message.Save.{Opens}
use daydream.Reader.{Viewer}
use daydream.Reader.Commands.{Continued, prompting, closed, left_out}
use daydream.Selection.{Bytes, has_base}
use daydream.TextSearch.{Searcher, scan_msgbase}
use daydream.Rounds.{Desk, desk_of, enter, leave, after_session, search_base, scan_number}

-- A session in the base of the number.
abbrev pub is_visited : ℕ → Desk → Bool
is_visited k d = any (λ w. w.base.msgbase_number == k) d.visits

-- In the conference, with pointer files that can be written.
abbrev pub Ready : Conference → Desk → Type 0
Ready c d = AllWritable d.joined × (d.joined.conference ≡ c)

has_base-found :
    (bases : List MsgBase) (n : ℕ) (cb : MsgBase)
    → find_msgbase bases n ≡ some cb
    → has_base bases n ≡ true
unfolding has_base find_msgbase
has_base-found [] n cb e = cc e
has_base-found (b ∷ bs) n cb e = ground (arith, has_base-found bs n cb)

has_base-missing :
    (bases : List MsgBase) (n : ℕ) → find_msgbase bases n ≡ none → has_base bases n ≡ false
unfolding has_base find_msgbase
has_base-missing [] n e = refl
has_base-missing (b ∷ bs) n e = ground (arith, has_base-missing bs n)

after_session-visited :
    (c : Conference) (k : ℕ) (d : Desk) (cb : MsgBase) (out : Continued)
    → Ready c d
    → let after = desk_of (after_session d cb out) in
      Ready c after × (is_visited k after ≡ (cb.msgbase_number == k || is_visited k d))
unfolding after_session leave
after_session-visited c k d cb (prompting r) ready = (ready, refl)
after_session-visited c k d cb (left_out r) ready = (ready, refl)
after_session-visited c k d cb (closed r result) ready = (ready, refl)

pub not_visited : (b : Bool) → b ≡ (false || b)
not_visited b = ground arith

module _ (v : Viewer) (o : Opens) (u : Searcher) (s : Str) (selcfg : Bytes) (typed : ℕ → List Str)
    (c : Conference) (k : ℕ) where
  -- One more base may be visited.
  abbrev pub Adds : Bool → Desk → Desk → Type 0
  Adds b d after = Ready c after × (is_visited k after ≡ (b || is_visited k d))

  pub enter-Ready :
      (d : Desk) (n : ℕ) → Ready c d → Ready c (enter d (changemsgbase d.joined (some n) true []).0)
  unfolding enter
  enter-Ready d n ready = (
    λ key. ap (λ f. f key) (changemsgbase-can_write d.joined n) ∙ ready.0 key,
    (changemsgbase-Keeps d.joined (some n) true []).0 ∙ ready.1,
  )

  search_base-Adds :
      (d : Desk) (m : Option MsgBase) (cb : MsgBase)
      → m ≡ some cb
      → Ready c d
      → Adds (cb.msgbase_number == k) d (desk_of (search_base v o u s typed d m))
  unfolding search_base
  search_base-Adds d none cb e ready = cc e
  search_base-Adds d (some b) cb e ready =
      let (ready', visited) =
        after_session-visited c k d b (scan_msgbase v o u s (typed (length d.visits)) d.reading)
          ready in
      let same : b ≡ cb = cc e in
      (ready', visited ∙ ap (λ m. m.msgbase_number == k || is_visited k d) same)

  scan_found :
      (d : Desk) (n : ℕ) (cb : MsgBase)
      → Ready c d
      → n ≢ 0
      → n ≤ length c.msgbases
      → find_msgbase c.msgbases n ≡ some cb
      → Adds (n == k) d (desk_of (scan_number v o u s typed d n))
  unfolding scan_number enter
  scan_found d n cb ready ne le found =
      let out = changemsgbase d.joined (some n) true [] in
      let at = enter d out.0 in
      let here = ap (λ x. find_msgbase x.msgbases n) ready.1 ∙ found in
      let changed =
        changemsgbase-enters d.joined n cb ready.0 ne
          (subst (λ x. n ≤ length x.msgbases) (sym ready.1) le) here in
      let (b, found', current, number) = changemsgbase-changed d.joined n changed in
      let (ready', visited) =
        search_base-Adds at out.0.current_msgbase b current (enter-Ready d n ready) in
      simp changed (ready', visited ∙ ap (λ m. m == k || is_visited k d) number)

  scan_missing :
      (d : Desk) (n : ℕ)
      → Ready c d
      → find_msgbase c.msgbases n ≡ none
      → Adds false d (desk_of (scan_number v o u s typed d n))
  unfolding scan_number enter
  scan_missing d n ready missing =
      let out = changemsgbase d.joined (some n) true [] in
      elim (Bool-cases out.1) [
        | inr refused ↦ simp refused (enter-Ready d n ready, not_visited (is_visited k d))
        | inl changed ↦
            let (b, found, _, _) = changemsgbase-changed d.joined n changed in
            let here = ap (λ x. find_msgbase x.msgbases n) (sym ready.1) ∙ found in
            absurd (ground (arith, here, missing))
      ]

  pub scan_number-Adds :
      (d : Desk) (n : ℕ) (m : Option MsgBase)
      → find_msgbase c.msgbases n ≡ m
      → Ready c d
      → n ≢ 0
      → n ≤ length c.msgbases
      → Adds (has_base c.msgbases n && (n == k)) d (desk_of (scan_number v o u s typed d n))
  scan_number-Adds d n none missing ready ne le =
      rw (has_base-missing c.msgbases n missing) (scan_missing d n ready missing)
  scan_number-Adds d n (some cb) found ready ne le =
      rw (has_base-found c.msgbases n cb found) (scan_found d n cb ready ne le found)
