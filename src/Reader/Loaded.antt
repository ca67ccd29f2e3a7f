-- ===== src/Reader/Loaded.antt =====
-- The windows that `showmsg` reads, and where its search ends.
pub mod Places
pub mod Direct
use daydream.Base.{
  ℕ, zero, suc, ◌+◌, ◌-◌, ◌≤◌, ◌<◌, ◌≡◌, refl, sym, ap, ◌∙◌, Bool, true, false, not, ◌&&◌, ◌||◌,
  List, [], ◌∷◌, ◌++◌, Option, none, some, All, arith, ltb, ◌==◌, if◌then◌else◌, inl, inr,
  Bool-cases, Option-cases, get_elem?, take, drop, length, take-append-drop, length-take,
  length-drop, length-append, min, ◌⊎◌, drop-drop, take-length-take,
}
use mathlib.Core.Path.{subst}
use daydream.Message.{Header}
use daydream.Message.Save.{Mail}
use daydream.Message.Numbered.{Ascending, IsNumbered}
use daydream.Reader.{
  Viewer, Reading, Search, found, ended, reloaded, out_of_range, deleted, seek, readmsgdatas,
  mark_end, is_end, find_header, hink_place, first_number, missed, unless_empty, search_step,
  run_search, text_exists,
}
use daydream.Reader.Window.{
  message_of, message_of-append, message_of-found, message_of-low, message_of-drop, message_of-room,
  find_header-hit, find_header-miss,
}

-- The window with its end mark, read from a place in the file.
pub record IsLoaded (hs msgbuf : List Header) (bread place next : ℕ) : Type 0 where
  pub last : Header
  pub stale : List Header
  pub window : msgbuf ≡ take 100 (drop place hs) ++ last ∷ stale
  pub ends : is_end last ≡ true
  pub count : bread ≡ length (take 100 (drop place hs))
  pub behind : next ≡ place + length (take 100 (drop place hs))
  pub inside : place ≤ length hs
  pub room : length msgbuf ≡ 101

abbrev pub LoadedAt : Reading → Type 0
LoadedAt r = IsLoaded r.mail.headers r.msgbuf r.bread r.oldseekpoint r.seekpoint

mark_end-cases :
    (hs : List Header)
    → 0 < length hs
    → (e : Header) × (gs : List Header) × (mark_end hs ≡ e ∷ gs)
      × (is_end e ≡ true)
      × (length hs ≡ length (e ∷ gs))
unfolding mark_end is_end
mark_end-cases [] h = absurd (omega arith)
mark_end-cases (h ∷ hs) lt = (_, hs, refl, refl, refl)

pub seek-LoadedAt :
    (place : ℕ) (r : Reading)
    → place ≤ length r.mail.headers
    → length r.msgbuf ≡ 101
    → LoadedAt (seek place r)
unfolding seek readmsgdatas
seek-LoadedAt place r inside long =
    let records = take 100 (drop place r.mail.headers) in
    let few = length-take 100 (drop place r.mail.headers) in
    let (e, gs, same, ends, rest) =
      mark_end-cases (drop (length records) r.msgbuf)
        (omega (arith, length-drop (length records) r.msgbuf, few, long)) in
    record {
      last = e;
      stale = gs;
      window = ap (λ t. records ++ t) same;
      ends = ends;
      count = refl;
      behind = refl;
      inside = inside;
      room =
          ap (λ t. length (records ++ t)) same
          ∙ omega (
            arith,
            length-append records (e ∷ gs),
            rest,
            length-drop (length records) r.msgbuf,
            few,
            long,
          );
    }

-- A message with a text, within the pointers, is looked for in a base numbered below 65535.
pub record IsSought (m : Mail) (n : ℕ) : Type 0 where
  pub numbered : IsNumbered m
  pub low : m.lowest ≤ n
  pub high : n ≤ m.highest
  pub top : m.highest ≡ m.msp_high
  pub small : m.msp_high < 65535
  pub text : text_exists m n ≡ true

All-take : (P : Header → Type 0) (k : ℕ) (hs : List Header) → All P hs → All P (take k hs)
All-take P zero hs h = tt
All-take P (suc k) [] h = tt
All-take P (suc k) (x ∷ hs) h = (h.0, All-take P k hs h.1)

All-drop : (P : Header → Type 0) (k : ℕ) (hs : List Header) → All P hs → All P (drop k hs)
All-drop P zero hs h = h
All-drop P (suc k) [] h = tt
All-drop P (suc k) (x ∷ hs) h = All-drop P k hs h.1

All-small :
    (high : ℕ) (hs : List Header)
    → All (λ h. h.msg_number ≤ high) hs
    → high < 65535
    → All (λ h. h.msg_number < 65535) hs
All-small high [] h lt = tt
All-small high (x ∷ hs) h lt = (omega (arith, h.0), All-small high hs h.1 lt)

module _ (n : ℕ) where
  window-small :
      (r : Reading)
      → IsSought r.mail n
      → All (λ h. h.msg_number < 65535) (take 100 (drop r.oldseekpoint r.mail.headers))
  window-small r s =
      All-take _ 100 _ (All-drop _ r.oldseekpoint _ (All-small _ _ s.numbered.bounded s.small))

  -- A message in the window is met there.
  pub step-hit :
      (hink low : Bool) (r : Reading) (h : Header)
      → LoadedAt r
      → IsSought r.mail n
      → message_of n (take 100 (drop r.oldseekpoint r.mail.headers)) ≡ some h
      → (search_step hink low n r ≡ found (record r { daheader = some (find_header n r.msgbuf).0 }))
        × (get_elem? r.msgbuf (find_header n r.msgbuf).0 ≡ some h)
  unfolding search_step
  step-hit hink low r h l s e =
      let hit =
        subst (λ b. ((find_header n b).1 ≡ true) × (get_elem? b (find_header n b).0 ≡ some h))
          (sym l.window) (find_header-hit n _ (l.last ∷ l.stale) h (window-small r s) e) in
      (simp hit.0 refl, hit.1)

  -- A message that is not in the window is missed.
  pub step-miss :
      (hink low : Bool) (r : Reading)
      → LoadedAt r
      → IsSought r.mail n
      → message_of n (take 100 (drop r.oldseekpoint r.mail.headers)) ≡ none
      → search_step hink low n r
        ≡ missed hink low n (record r { daheader = some (find_header n r.msgbuf).0 })
  unfolding search_step
  step-miss hink low r l s e =
      let miss : (find_header n r.msgbuf).1 ≡ false =
        subst (λ b. (find_header n b).1 ≡ false) (sym l.window)
          (find_header-miss n _ l.stale l.last (window-small r s)
            (omega (arith, s.high, s.top, s.small)) l.ends e) in
      simp miss refl

  pub in_range : (m : Mail) → IsSought m n → (ltb n m.lowest || ltb m.highest n) ≡ false
  in_range m s = ground (arith, s.low, s.high)

  -- The first miss.
  pub missed-first :
      (low : Bool) (r : Reading)
      → IsSought r.mail n
      → missed false low n r ≡ reloaded true low (seek (hink_place r) r)
  unfolding missed
  missed-first low r s = simp (in_range r.mail s) refl

  -- A message that is above the first of the window.
  pub missed-ahead :
      (r : Reading)
      → IsSought r.mail n
      → ltb n (first_number r.msgbuf) ≡ false
      → (r.seekpoint == r.oldseekpoint) ≡ false
      → missed true false n r ≡ unless_empty true false (seek r.seekpoint r)
  unfolding missed
  missed-ahead r s above more = simp (in_range r.mail s, s.text, above, more) refl
