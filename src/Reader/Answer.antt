-- ===== src/Reader/Answer.antt =====
-- The result of `showmsg` by a look at the whole file.
use daydream.Base.{
  ℕ, suc, ◌+◌, ◌-◌, ◌≤◌, ◌≡◌, refl, sym, ap, ◌∙◌, Bool, true, false, not, ◌&&◌, Option, none, some,
  arith, ltb, if◌then◌else◌, inl, inr, Bool-cases, Option-cases, get_elem?, take, drop, length,
}
use mathlib.Core.Path.{subst}
use daydream.Message.{Header, is_private}
use daydream.Reader.{
  Viewer, Reading, ShowResult, shown, no_right, deleted, reloaded, seek, hink_place, search_step,
  run_search, text_exists, is_flagged, may_read, show_header, show_at, show_found, after_search,
  showmsg,
}
use daydream.Reader.Window.{message_of, message_of-found, message_of-drop, message_of-room}
use daydream.Reader.Loaded.{LoadedAt, IsSought, seek-LoadedAt, step-miss, missed-first}
use daydream.Reader.Loaded.Places.{message_of-take, message_of-none-drop, window-behind}
use daydream.Reader.Loaded.Direct.{
  Reaches, GivesUp, stopped, found-Reaches, ahead-Reaches, ahead-GivesUp,
}

-- What the reader answers for a message, or for none.
unfoldable pub show_answer : Viewer → Option Header → ShowResult
unfolding is_flagged may_read is_private
show_answer v none = deleted
show_answer v (some h) =
    if is_flagged h then deleted else if is_private h && not (may_read v h) then no_right else shown

show_found-answer :
    (v : Viewer) (n : ℕ) (again : Bool) (t : Reading) (i : ℕ) (h : Header)
    → t.daheader ≡ some i
    → get_elem? t.msgbuf i ≡ some h
    → text_exists t.mail n ≡ true
    → (show_found v n again t.daheader t).1 ≡ show_answer v (some h)
unfolding show_found show_at show_header show_answer
show_found-answer v n again t i h at got text =
    ap (λ d. (show_found v n again d t).1) at
    ∙ ap (λ o. (show_at v n again i o t).1) got
    ∙ elim (Bool-cases (is_flagged h)) [
      | inl gone ↦ simp gone refl
      | inr there ↦ elim (Bool-cases (is_private h && not (may_read v h))) [
        | inl refused ↦ simp (there, refused) refl
        | inr allowed ↦ simp (there, allowed, text) refl
      ]
    ]

hink_place-size :
    (r : Reading) (n : ℕ)
    → n ≤ r.mail.highest
    → r.msgnum ≡ n
    → r.msgbasesize ≡ length r.mail.headers
    → hink_place r ≡ length r.mail.headers - (10 + (r.mail.highest - n))
unfolding hink_place
hink_place-size r n le at size = omega (arith, le, at, size)

room_of :
    (highest high n size place : ℕ)
    → highest ≡ high
    → n ≤ highest
    → ltb size (10 + (highest - n)) ≡ false
    → place ≡ size - (10 + (highest - n))
    → place + (high - n) + 1 ≤ size
room_of highest high n size place top le many e = ground arith

module _ (n : ℕ) where
  -- The first reload is not behind the message.
  hinked :
      (r : Reading) (h : Header)
      → IsSought r.mail n
      → r.msgnum ≡ n
      → r.msgbasesize ≡ length r.mail.headers
      → message_of n r.mail.headers ≡ some h
      → message_of n (drop (hink_place r) r.mail.headers) ≡ some h
  hinked r h s at size e =
      let hs = r.mail.headers in
      let place = hink_place-size r n s.high at size in
      elim (Bool-cases (ltb (length hs) (10 + (r.mail.highest - n)))) [
        | inl few ↦
            let start : 0 ≡ hink_place r = ground (arith, place) in
            subst (λ k. message_of n (drop k hs) ≡ some h) start e
        | inr many ↦
            message_of-room n 0 r.mail.msp_high (hink_place r) hs h s.numbered.ascending
              s.numbered.bounded (omega (arith, s.high, s.top))
              (room_of r.mail.highest r.mail.msp_high n (length hs) (hink_place r) s.top s.high many
                place)
              e
      ]

  hinked-LoadedAt :
      (r : Reading)
      → LoadedAt r
      → IsSought r.mail n
      → r.msgnum ≡ n
      → r.msgbasesize ≡ length r.mail.headers
      → LoadedAt (seek (hink_place r) (stopped n r))
  hinked-LoadedAt r l s at size =
      seek-LoadedAt (hink_place r) (stopped n r) (omega (arith, hink_place-size r n s.high at size))
        l.room

  -- The window after the first miss.
  step-hinked :
      (r : Reading)
      → LoadedAt r
      → IsSought r.mail n
      → message_of n (take 100 (drop r.oldseekpoint r.mail.headers)) ≡ none
      → search_step false false n r ≡ reloaded true false (seek (hink_place r) (stopped n r))
  unfolding hink_place
  step-hinked r l s missing =
      step-miss n false false r l s missing ∙ missed-first n false (stopped n r) s

  -- The search from any window that is in its place.
  search-Reaches :
      (fuel : ℕ) (r : Reading) (h : Header)
      → LoadedAt r
      → IsSought r.mail n
      → r.msgnum ≡ n
      → r.msgbasesize ≡ length r.mail.headers
      → message_of n r.mail.headers ≡ some h
      → length r.mail.headers + 5 ≤ suc fuel
      → Reaches (suc fuel) n (reloaded false false r) h r
  unfolding run_search
  search-Reaches fuel r h l s at size e enough =
      let hs = r.mail.headers in
      elim (Option-cases (message_of n (take 100 (drop r.oldseekpoint hs)))) [
        | inl missing ↦
            let (t, i, reached, found_at, got, same) =
              ahead-Reaches n fuel (seek (hink_place r) (stopped n r)) h
                (hinked-LoadedAt r l s at size) s (hinked r h s at size e)
                (omega (arith, enough)) in
            (
              t,
              i,
              ap (run_search fuel n) (step-hinked r l s missing) ∙ reached,
              found_at,
              got,
              same,
            )
        | inr (g, hit) ↦
            let whole : message_of n (drop r.oldseekpoint hs) ≡ some g =
              ap (message_of n) (sym (window-behind r.oldseekpoint hs))
              ∙ message_of-found n (take 100 (drop r.oldseekpoint hs)) _ g hit in
            found-Reaches n fuel false false r h l s
              (hit ∙ sym (message_of-drop n 0 r.oldseekpoint hs g s.numbered.ascending whole) ∙ e)
      ]

  search-GivesUp :
      (fuel : ℕ) (r : Reading)
      → LoadedAt r
      → IsSought r.mail n
      → r.msgnum ≡ n
      → r.msgbasesize ≡ length r.mail.headers
      → message_of n r.mail.headers ≡ none
      → length r.mail.headers + 5 ≤ suc fuel
      → GivesUp (suc fuel) n (reloaded false false r)
  unfolding run_search
  search-GivesUp fuel r l s at size e enough =
      let missing =
        message_of-take n 100 _ (message_of-none-drop n r.oldseekpoint r.mail.headers e) in
      let (t, ends) =
        ahead-GivesUp n fuel (seek (hink_place r) (stopped n r)) (hinked-LoadedAt r l s at size) s e
          (omega (arith, enough)) in
      (t, ap (run_search fuel n) (step-hinked r l s missing) ∙ ends)

-- Where the numbers ascend up to the highest one, below 65535, and the first window is read from any place
-- of the file: for a number within the pointers whose text exists, `showmsg` answers by the record of the
-- file with that number, wherever it is, and 2 if there is none; so the search through the windows ends.
pub showmsg-show_answer :
    (v : Viewer) (n : ℕ) (again : Bool) (r : Reading)
    → LoadedAt r
    → IsSought r.mail (suc n)
    → r.msgnum ≡ suc n
    → r.msgbasesize ≡ length r.mail.headers
    → (showmsg v (suc n) again r).1 ≡ show_answer v (message_of (suc n) r.mail.headers)
unfolding showmsg after_search show_answer
showmsg-show_answer v n again r l s at size =
    let fuel = length r.mail.headers + 5 in
    let next : suc (length r.mail.headers + 4) ≡ fuel = omega arith in
    elim (Option-cases (message_of (suc n) r.mail.headers)) [
      | inl none_there ↦
          let (t, ends) =
            search-GivesUp (suc n) (length r.mail.headers + 4) r l s at size none_there
              (omega arith) in
          ap (λ f. (after_search v (suc n) again (run_search f (suc n) (reloaded false false r))).1)
            (sym next)
          ∙ ap (λ x. (after_search v (suc n) again x).1) ends
          ∙ ap (show_answer v) (sym none_there)
      | inr (h, there) ↦
          let (t, i, reached, place, got, same) =
            search-Reaches (suc n) (length r.mail.headers + 4) r h l s at size there
              (omega arith) in
          ap (λ f. (after_search v (suc n) again (run_search f (suc n) (reloaded false false r))).1)
            (sym next)
          ∙ ap (λ x. (after_search v (suc n) again x).1) reached
          ∙ show_found-answer v (suc n) again t i h place got
              (ap (λ m. text_exists m (suc n)) same ∙ s.text)
          ∙ ap (show_answer v) (sym there)
    ]
