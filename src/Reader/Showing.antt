-- ===== src/Reader/Showing.antt =====
-- What the search for a message and its display keep, `showmsg` keeps.
use daydream.Base.{
  arith, not, ◌&&◌, ◌==◌, some-injective, ℕ, zero, suc, ◌+◌, ◌-◌, ◌≡◌, refl, sym, ap, ◌∙◌, ==→eq,
  Bool, true, false, List, [], ◌∷◌, Option, none, some, if◌then◌else◌, length, get_elem?, inl, inr,
  Bool-cases,
}
use mathlib.Core.Path.{subst}
use daydream.Message.{Header, is_private}
use daydream.Reader.{
  Viewer, Reading, Search, found, ended, reloaded, seek, missed, search_step, run_search,
  find_header, is_flagged, show_header, after_search, showmsg, deleted, out_of_range, unless_empty,
  is_end, count_reading, mark_read, may_read, text_exists, hink_place, show_at, show_found,
}

abbrev state_at : Search → Reading
state_at (found r) = r
state_at (ended result r) = r
state_at (reloaded hink low r) = r

-- What holds of the state that a search leaves.
record At (P : Reading → Type 0) (s : Search) : Type 0 where
  there : P (state_at s)

-- A predicate that showing message `n` keeps.
pub record IsShowKept (v : Viewer) (n : ℕ) (P : Reading → Type 0) : Type 0 where
  pub seeks : (place : ℕ) (r : Reading) → P r → P (seek place r)
  pub points : (d : Option ℕ) (r : Reading) → P r → P (record r { daheader = d })
  pub shows :
      (again : Bool) (i : ℕ) (h : Header) (r : Reading)
      → get_elem? r.msgbuf i ≡ some h
      → h.msg_number ≡ n
      → is_flagged h ≡ false
      → P r
      → P (show_header v n again i h r).0

at : {P : Reading → Type 0} {s : Search} → P (state_at s) → At P s
at h = record { there = h }

if-At :
    {P : Reading → Type 0} (c : Bool) (x y : Search) → At P x → At P y → At P (if c then x else y)
if-At true x y h k = h
if-At false x y h k = k

-- The record where the search stops has the number.
abbrev Numbered : ℕ → Reading → Type 0
Numbered n r =
    (i : ℕ) (h : Header) → r.daheader ≡ some i → get_elem? r.msgbuf i ≡ some h → h.msg_number ≡ n

abbrev NumberAt : ℕ → Search → Type 0
NumberAt n (found r) = Numbered n r
NumberAt n (ended result r) = Unit
NumberAt n (reloaded hink low r) = Unit

record Finds (n : ℕ) (s : Search) : Type 0 where
  hits : NumberAt n s

finds : {n : ℕ} {s : Search} → NumberAt n s → Finds n s
finds h = record { hits = h }

if-Finds : {n : ℕ} (c : Bool) (x y : Search) → Finds n x → Finds n y → Finds n (if c then x else y)
if-Finds true x y h k = h
if-Finds false x y h k = k

find_header-number :
    (n : ℕ) (hs : List Header) (h : Header)
    → (find_header n hs).1 ≡ true
    → get_elem? hs (find_header n hs).0 ≡ some h
    → h.msg_number ≡ n
unfolding find_header
find_header-number n [] h e got = absurd (ground arith)
find_header-number n (g ∷ hs) h e got = elim (Bool-cases (g.msg_number == n)) [
  | inl same ↦
      ap (λ (h : Header). h.msg_number) (sym (some-injective (simp same at got)))
      ∙ ==→eq g.msg_number n same
  | inr other ↦ elim (Bool-cases (is_end g)) [
    | inl last ↦ absurd (ground (arith, simp (other, last) at e))
    | inr inside ↦
        find_header-number n hs h (simp (other, inside) at e) (simp (other, inside) at got)
  ]
]

unless_empty-Finds : (n : ℕ) (hink low : Bool) (r : Reading) → Finds n (unless_empty hink low r)
unfolding unless_empty
unless_empty-Finds n hink low r =
    let gone : Finds n (ended deleted r) = finds tt in
    let more : Finds n (reloaded hink low r) = finds tt in search if-Finds

missed-Finds : (hink low : Bool) (n : ℕ) (r : Reading) → Finds n (missed hink low n r)
unfolding missed
missed-Finds hink low n r =
    let out : Finds n (ended out_of_range r) = finds tt in
    let gone : Finds n (ended deleted r) = finds tt in
    let hinked : Finds n (reloaded true low (seek (hink_place r) r)) = finds tt in
    let back = unless_empty-Finds n true true (seek (r.seekpoint - 100) r) in
    let on = unless_empty-Finds n true low (seek r.seekpoint r) in search if-Finds

search_step-Finds : (hink low : Bool) (n : ℕ) (r : Reading) → Finds n (search_step hink low n r)
unfolding search_step
search_step-Finds hink low n r = elim (Bool-cases (find_header n r.msgbuf).1) [
  | inl hit ↦ simp hit (
      finds (λ i h place got.
        find_header-number n r.msgbuf h hit (ap (get_elem? r.msgbuf) (some-injective place) ∙ got)))
  | inr miss ↦ simp miss (missed-Finds hink low n _)
]

run_search-Finds : (fuel n : ℕ) (s : Search) → Finds n s → Finds n (run_search fuel n s)
unfolding run_search
run_search-Finds zero n s h = h
run_search-Finds (suc fuel) n (found r) h = h
run_search-Finds (suc fuel) n (ended result r) h = h
run_search-Finds (suc fuel) n (reloaded hink low r) h =
    run_search-Finds fuel n (search_step hink low n r) (search_step-Finds hink low n r)

module _ (v : Viewer) (m : ℕ) (P : Reading → Type 0) (k : IsShowKept v m P) where
  unless_empty-At : (hink low : Bool) (r : Reading) → P r → At P (unless_empty hink low r)
  unfolding unless_empty
  unless_empty-At hink low r h =
      let e : At P (ended deleted r) = at h in
      let f : At P (reloaded hink low r) = at h in search if-At

  missed-At : (hink low : Bool) (n : ℕ) (r : Reading) → P r → At P (missed hink low n r)
  unfolding missed
  missed-At hink low n r h =
      let out : At P (ended out_of_range r) = at h in
      let gone : At P (ended deleted r) = at h in
      let hinked : At P (reloaded true low (seek (hink_place r) r)) =
        at (k.seeks (hink_place r) r h) in
      let back = unless_empty-At true true _ (k.seeks (r.seekpoint - 100) r h) in
      let on = unless_empty-At true low _ (k.seeks r.seekpoint r h) in search if-At

  search_step-At : (hink low : Bool) (n : ℕ) (r : Reading) → P r → At P (search_step hink low n r)
  unfolding search_step
  search_step-At hink low n r h =
      let here = k.points (some (find_header n r.msgbuf).0) r h in
      let hit : At P (found (record r { daheader = some (find_header n r.msgbuf).0 })) = at here in
      let miss = missed-At hink low n _ here in search if-At

  run_search-At : (fuel n : ℕ) (s : Search) → At P s → At P (run_search fuel n s)
  unfolding run_search
  run_search-At zero n s h = h
  run_search-At (suc fuel) n (found r) h = h
  run_search-At (suc fuel) n (ended result r) h = h
  run_search-At (suc fuel) n (reloaded hink low r) h =
      run_search-At fuel n (search_step hink low n r) (search_step-At hink low n r h.there)

  show_at-keeps :
      (again : Bool) (i : ℕ) (h : Option Header) (r : Reading)
      → get_elem? r.msgbuf i ≡ h
      → Numbered m r
      → r.daheader ≡ some i
      → P r
      → P (show_at v m again i h r).0
  unfolding show_at
  show_at-keeps again i none r e num d p = p
  show_at-keeps again i (some h) r e num d p = elim (Bool-cases (is_flagged h)) [
    | inl gone ↦ simp gone p
    | inr there ↦ simp there (k.shows again i h r e (num i h d e) there p)
  ]

  show_found-keeps :
      (again : Bool) (d : Option ℕ) (r : Reading)
      → Numbered m r
      → r.daheader ≡ d
      → P r
      → P (show_found v m again d r).0
  unfolding show_found
  show_found-keeps again none r num d p = p
  show_found-keeps again (some i) r num d p =
      show_at-keeps again i (get_elem? r.msgbuf i) r refl num d p

  after_search-keeps :
      (again : Bool) (s : Search) → Finds m s → At P s → P (after_search v m again s).0
  unfolding after_search
  after_search-keeps again (ended result r) f h = h.there
  after_search-keeps again (reloaded hink low r) f h = h.there
  after_search-keeps again (found r) f h = show_found-keeps again r.daheader r f.hits refl h.there

pub showmsg-keeps :
    (v : Viewer) (n : ℕ) (P : Reading → Type 0)
    → IsShowKept v n P
    → (again : Bool) (r : Reading) → P r
    → P (showmsg v n again r).0
unfolding showmsg
showmsg-keeps v zero P k again r h = k.points (some 0) r h
showmsg-keeps v (suc n) P k again r h =
    let fuel = length r.mail.headers + 5 in
    after_search-keeps v (suc n) P k again _
      (run_search-Finds fuel (suc n) (reloaded false false r) (finds tt))
      (run_search-At v (suc n) P k fuel (suc n) (reloaded false false r) (at h))

count_reading-displayed :
    (i : ℕ) (h : Header) (n : ℕ) (r : Reading) → (count_reading i h n r).displayed ≡ r.displayed
unfolding count_reading
count_reading-displayed i h n r = ground arith

mark_read-displayed :
    (n : ℕ) (again : Bool) (r : Reading) → (mark_read n again r).displayed ≡ r.displayed
unfolding mark_read
mark_read-displayed n again r = ground arith

-- A header that is shown is one more that is displayed, if the user may see it.
pub show_header-displayed :
    (v : Viewer) (Q : List Header → Type 0) (n : ℕ) (again : Bool) (i : ℕ) (h : Header)
    (r : Reading)
    → Q r.displayed
    → ((is_private h && not (may_read v h)) ≡ false → Q (h ∷ r.displayed))
    → Q (show_header v n again i h r).0.displayed
unfolding show_header
show_header-displayed v Q n again i h r q shown_too =
    let read = mark_read n again r in
    let same = sym (mark_read-displayed n again r) in
    elim (Bool-cases (is_private h && not (may_read v h))) [
      | inl refused ↦ simp refused (subst Q same q)
      | inr allowed ↦ elim (Bool-cases (text_exists r.mail n)) [
        | inl there ↦
            simp (allowed, there)
              (subst (λ ds. Q (h ∷ ds)) (same ∙ sym (count_reading-displayed i h n read))
                (shown_too allowed))
        | inr gone ↦ simp (allowed, gone) (subst Q same q)
      ]
    ]

mark_read-msgnum : (n : ℕ) (again : Bool) (r : Reading) → (mark_read n again r).msgnum ≡ r.msgnum
unfolding mark_read
mark_read-msgnum n again r = ground arith

count_reading-msgnum :
    (i : ℕ) (h : Header) (n : ℕ) (r : Reading) → (count_reading i h n r).msgnum ≡ r.msgnum
unfolding count_reading
count_reading-msgnum i h n r = ground arith

pub show_header-msgnum :
    (v : Viewer) (n : ℕ) (again : Bool) (i : ℕ) (h : Header) (r : Reading)
    → (show_header v n again i h r).0.msgnum ≡ r.msgnum
unfolding show_header
show_header-msgnum v n again i h r =
    let same = mark_read-msgnum n again r in
    elim (Bool-cases (is_private h && not (may_read v h))) [
      | inl refused ↦ simp refused same
      | inr allowed ↦ elim (Bool-cases (text_exists r.mail n)) [
        | inl there ↦
            simp (allowed, there) (count_reading-msgnum i h n (mark_read n again r) ∙ same)
        | inr gone ↦ simp (allowed, gone) same
      ]
    ]
