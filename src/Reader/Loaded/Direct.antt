-- ===== src/Reader/Loaded/Direct.antt =====
-- Where the search of `showmsg` ends, from a window on.
use daydream.Base.{
  some-injective, ℕ, zero, suc, ◌+◌, ◌-◌, ◌<◌, ◌≡◌, refl, sym, ap, ◌∙◌, Bool, true, false, ◌||◌,
  none, some, arith, ltb, ◌==◌, inl, inr, Bool-cases, Option-cases, get_elem?, take, drop, length,
  length-take, length-drop,
}
use daydream.Message.{Header}
use daydream.Reader.{
  Reading, Search, found, ended, reloaded, deleted, seek, find_header, readmsgdatas, first_number,
  missed, unless_empty, search_step, run_search,
}
use daydream.Reader.Window.{message_of, message_of-append, message_of-found}
use daydream.Reader.Loaded.Places.{
  first_number-low, Ascending-drop, take-nonempty, message_of-take, message_of-none-drop,
  window-behind, window-inside, edge_of, past, beyond, nonzero, or_true, run_search-ended,
  run_search-found,
}
use daydream.Reader.Loaded.{
  LoadedAt, IsSought, seek-LoadedAt, step-hit, step-miss, missed-ahead, in_range,
}

-- The search ends at the record.
abbrev pub Reaches : ℕ → ℕ → Search → Header → Reading → Type 0
Reaches fuel n s h r =
    (t : Reading) × (i : ℕ) × (run_search fuel n s ≡ found t)
    × (t.daheader ≡ some i)
    × (get_elem? t.msgbuf i ≡ some h)
    × (t.mail ≡ r.mail)

abbrev pub GivesUp : ℕ → ℕ → Search → Type 0
GivesUp fuel n s = (t : Reading) × (run_search fuel n s ≡ ended deleted t)

module _ (n : ℕ) where
  pub found-Reaches :
      (fuel : ℕ) (hink low : Bool) (r : Reading) (h : Header)
      → LoadedAt r
      → IsSought r.mail n
      → message_of n (take 100 (drop r.oldseekpoint r.mail.headers)) ≡ some h
      → Reaches fuel n (search_step hink low n r) h r
  found-Reaches fuel hink low r h l s e =
      let hit = step-hit n hink low r h l s e in
      (
        record r { daheader = some (find_header n r.msgbuf).0 },
        (find_header n r.msgbuf).0,
        ap (run_search fuel n) hit.0 ∙ run_search-found fuel n _,
        refl,
        hit.1,
        refl,
      )

  -- The search with `daheader` where it stops in the window.
  abbrev pub stopped : Reading → Reading
  stopped r = record r { daheader = some (find_header n r.msgbuf).0 }

  step-next :
      (r : Reading)
      → LoadedAt r
      → IsSought r.mail n
      → message_of n (take 100 (drop r.oldseekpoint r.mail.headers)) ≡ none
      → ltb n (first_number r.msgbuf) ≡ false
      → (r.seekpoint == r.oldseekpoint) ≡ false
      → ((seek r.seekpoint (stopped r)).bread == 0) ≡ false
      → search_step true false n r ≡ reloaded true false (seek r.seekpoint (stopped r))
  unfolding unless_empty
  step-next r l s missing above more full =
      step-miss n true false r l s missing
      ∙ missed-ahead n (stopped r) s above more
      ∙ simp full refl

  pub ahead-Reaches :
      (fuel : ℕ) (r : Reading) (h : Header)
      → LoadedAt r
      → IsSought r.mail n
      → message_of n (drop r.oldseekpoint r.mail.headers) ≡ some h
      → length r.mail.headers < fuel + r.oldseekpoint
      → Reaches fuel n (reloaded true false r) h r
  unfolding run_search
  ahead-Reaches zero r h l s e enough = absurd (omega (arith, l.inside))
  ahead-Reaches (suc fuel) r h l s e enough =
      let hs = r.mail.headers in
      let w = take 100 (drop r.oldseekpoint hs) in
      let next = seek r.seekpoint (stopped r) in
      elim (Option-cases (message_of n w)) [
        | inl missing ↦
            let rest : message_of n (drop r.seekpoint hs) ≡ some h =
              ap (λ k. message_of n (drop k hs)) l.behind
              ∙ sym (message_of-append n w _ missing)
              ∙ ap (message_of n) (window-behind r.oldseekpoint hs)
              ∙ e in
            let above : ltb n (first_number r.msgbuf) ≡ false =
              ap (λ b. ltb n (first_number b)) l.window
              ∙ first_number-low n 0 (drop r.oldseekpoint hs) _ h
                  (Ascending-drop 0 r.oldseekpoint hs s.numbered.ascending) e in
            let some_read = take-nonempty n (drop r.oldseekpoint hs) h e in
            let more = beyond r.seekpoint r.oldseekpoint (length w) l.behind some_read in
            let full : (next.bread == 0) ≡ false =
              unfold seek readmsgdatas in
              nonzero (length (take 100 (drop r.seekpoint hs)))
                (take-nonempty n (drop r.seekpoint hs) h rest) in
            let inside = window-inside r.oldseekpoint hs l.inside in
            let (t, i, reached, at, got, same) =
              ahead-Reaches fuel next h
                (seek-LoadedAt r.seekpoint (stopped r) (omega (arith, l.behind, inside)) l.room) s
                rest (unfold seek readmsgdatas in omega (arith, enough, l.behind, some_read)) in
            (
              t,
              i,
              ap (run_search fuel n) (step-next r l s missing above more full) ∙ reached,
              at,
              got,
              same,
            )
        | inr (g, hit) ↦
            let same : g ≡ h = some-injective (
              sym (
                ap (message_of n) (sym (window-behind r.oldseekpoint hs))
                ∙ message_of-found n w _ g hit)
              ∙ e) in
            found-Reaches fuel true false r h l s (hit ∙ ap some same)
      ]

  -- A step back leaves a window at the start of the file or of full size; below it there is nothing.
  back-ends :
      (r : Reading)
      → LoadedAt r
      → IsSought r.mail n
      → message_of n r.mail.headers ≡ none
      → (r.oldseekpoint == 0 || (r.seekpoint == r.oldseekpoint + 100)) ≡ true
      → (t : Reading) × (search_step true true n r ≡ ended deleted t)
  unfolding missed
  back-ends r l s none_there edge =
      let missing =
        message_of-take n 100 _ (message_of-none-drop n r.oldseekpoint r.mail.headers none_there) in
      let miss = step-miss n true true r l s missing in
      elim (Bool-cases (ltb n (first_number r.msgbuf))) [
        | inl below ↦ (stopped r, miss ∙ simp (in_range n r.mail s, s.text, below, edge) refl)
        | inr above ↦ (
          stopped r,
          miss
              ∙ simp (in_range n r.mail s, s.text, above, or_true (r.seekpoint == r.oldseekpoint))
                  refl,
        )
      ]

  -- Where a step back lands.
  back-edge :
      (r : Reading)
      → LoadedAt r
      → LoadedAt (seek (r.seekpoint - 100) (stopped r))
        × ((r.seekpoint - 100 == 0
              || ((seek (r.seekpoint - 100) (stopped r)).seekpoint == r.seekpoint - 100 + 100))
            ≡ true)
  unfolding seek readmsgdatas
  back-edge r l =
      let hs = r.mail.headers in
      let inside = window-inside r.oldseekpoint hs l.inside in
      let place = r.seekpoint - 100 in
      (
        seek-LoadedAt place (stopped r) (omega (arith, inside, l.behind)) l.room,
        edge_of r.seekpoint (length (take 100 (drop place hs))) (length hs)
            (omega (arith, l.behind, inside))
            (omega (arith, length-take 100 (drop place hs), length-drop place hs)),
      )

  -- After a step back the search ends with the next window.
  back-GivesUp :
      (fuel : ℕ) (r : Reading)
      → LoadedAt r
      → IsSought r.mail n
      → message_of n r.mail.headers ≡ none
      → GivesUp (suc fuel) n (unless_empty true true (seek (r.seekpoint - 100) (stopped r)))
  unfolding unless_empty run_search
  back-GivesUp fuel r l s none_there =
      let next = seek (r.seekpoint - 100) (stopped r) in
      let (l', edge) = back-edge r l in
      let (t, ends) = back-ends next l' s none_there edge in
      elim (Bool-cases (next.bread == 0)) [
        | inl empty ↦ (next, simp empty refl)
        | inr full ↦ (t, simp full (ap (run_search fuel n) ends ∙ run_search-ended fuel n t))
      ]

  further :
      (fuel : ℕ) (r : Reading)
      → LoadedAt r
      → (r.seekpoint == r.oldseekpoint) ≡ false
      → length r.mail.headers + 1 < suc fuel + r.oldseekpoint
      → length r.mail.headers + 1 < fuel + r.seekpoint
  further fuel r l more enough =
      omega (arith, past r.seekpoint r.oldseekpoint _ l.behind more, enough)

  step-GivesUp :
      (fuel : ℕ) (r : Reading) (x : Search)
      → search_step true false n r ≡ x
      → GivesUp fuel n x
      → GivesUp (suc fuel) n (reloaded true false r)
  unfolding run_search
  step-GivesUp fuel r x e (t, ends) = (t, ap (run_search fuel n) e ∙ ends)

  ended-GivesUp : (fuel : ℕ) (t : Reading) → GivesUp fuel n (ended deleted t)
  ended-GivesUp fuel t = (t, run_search-ended fuel n t)

  -- A message that is not in the file is given up.
  pub ahead-GivesUp :
      (fuel : ℕ) (r : Reading)
      → LoadedAt r
      → IsSought r.mail n
      → message_of n r.mail.headers ≡ none
      → length r.mail.headers + 1 < fuel + r.oldseekpoint
      → GivesUp fuel n (reloaded true false r)
  unfolding missed unless_empty
  ahead-GivesUp zero r l s none_there enough = absurd (omega (arith, l.inside))
  ahead-GivesUp (suc zero) r l s none_there enough = absurd (omega (arith, l.inside))
  ahead-GivesUp (suc (suc fuel)) r l s none_there enough =
      let missing =
        message_of-take n 100 _ (message_of-none-drop n r.oldseekpoint r.mail.headers none_there) in
      let miss = step-miss n true false r l s missing in
      let range = in_range n r.mail s in
      let next = seek r.seekpoint (stopped r) in
      elim (Bool-cases (ltb n (first_number r.msgbuf))) [
        | inl below ↦
            elim (Bool-cases (r.oldseekpoint == 0 || (r.seekpoint == r.oldseekpoint + 100))) [
              | inl edge ↦
                  step-GivesUp (suc fuel) r (ended deleted (stopped r))
                    (miss ∙ simp (range, s.text, below, edge) refl) (ended-GivesUp _ _)
              | inr before ↦
                  step-GivesUp (suc fuel) r _ (miss ∙ simp (range, s.text, below, before) refl)
                    (back-GivesUp fuel r l s none_there)
            ]
        | inr above ↦ elim (Bool-cases (r.seekpoint == r.oldseekpoint)) [
          | inl same ↦
              step-GivesUp (suc fuel) r (ended deleted (stopped r))
                (miss ∙ simp (range, s.text, above, same) refl) (ended-GivesUp _ _)
          | inr more ↦ elim (Bool-cases (next.bread == 0)) [
            | inl empty ↦
                step-GivesUp (suc fuel) r (ended deleted next)
                  (miss ∙ simp (range, s.text, above, more, empty) refl) (ended-GivesUp _ _)
            | inr full ↦
                step-GivesUp (suc fuel) r (reloaded true false next)
                  (step-next r l s missing above more full)
                  (ahead-GivesUp (suc fuel) next
                    (seek-LoadedAt r.seekpoint (stopped r)
                      (omega
                        (arith, l.behind, window-inside r.oldseekpoint r.mail.headers l.inside))
                      l.room)
                    s none_there (further (suc fuel) r l more enough))
          ]
        ]
      ]
