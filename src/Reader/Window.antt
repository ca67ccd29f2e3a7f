-- ===== src/Reader/Window.antt =====
-- The search for a message in the windows of `showmsg`.
use daydream.Base.{
  ℕ, zero, suc, ◌+◌, ◌-◌, ◌≤◌, ◌<◌, ◌≡◌, refl, true, false, List, [], ◌∷◌, ◌++◌, Option, none, some,
  All, arith, ◌==◌, if◌then◌else◌, inl, inr, Bool-cases, get_elem?, drop, length,
}
use daydream.Message.{Header}
use daydream.Message.Numbered.{Ascending, head-room}
use daydream.Reader.{is_end, find_header}

-- The first message with a number.
unfoldable pub message_of : ℕ → List Header → Option Header
message_of n [] = none
message_of n (h ∷ hs) = if h.msg_number == n then some h else message_of n hs

pub message_of-append :
    (n : ℕ) (hs gs : List Header)
    → message_of n hs ≡ none
    → message_of n (hs ++ gs) ≡ message_of n gs
unfolding message_of
message_of-append n [] gs e = refl
message_of-append n (h ∷ hs) gs e = ground (arith, message_of-append n hs gs)

pub message_of-found :
    (n : ℕ) (hs gs : List Header) (h : Header)
    → message_of n hs ≡ some h
    → message_of n (hs ++ gs) ≡ some h
unfolding message_of
message_of-found n [] gs h e = ground arith
message_of-found n (g ∷ hs) gs h e = ground (arith, message_of-found n hs gs h)

-- Below the numbers of a list there is no message.
pub message_of-low :
    (n low : ℕ) (hs : List Header) → Ascending low hs → n ≤ low → message_of n hs ≡ none
unfolding message_of
message_of-low n low [] up le = refl
message_of-low n low (h ∷ hs) up le =
    let later = message_of-low n h.msg_number hs up.1 (omega (arith, up.0)) in
    ground (arith, up.0, later)

-- Where the numbers ascend, a message found behind a place is the one of the list.
pub message_of-drop :
    (n low k : ℕ) (hs : List Header) (h : Header)
    → Ascending low hs
    → message_of n (drop k hs) ≡ some h
    → message_of n hs ≡ some h
unfolding message_of
message_of-drop n low zero hs h up e = e
message_of-drop n low (suc k) [] h up e = e
message_of-drop n low (suc k) (g ∷ hs) h up e =
    let later = message_of-drop n g.msg_number k hs h up.1 e in
    elim (Bool-cases (g.msg_number == n)) [
      | inl same ↦
          let low_one = message_of-low n g.msg_number hs up.1 (ground (arith, same)) in
          absurd (ground (arith, later, low_one))
      | inr other ↦ simp other later
    ]

-- A message is not before the place that its number leaves room for.
pub message_of-room :
    (n low high k : ℕ) (hs : List Header) (h : Header)
    → Ascending low hs
    → All (λ h. h.msg_number ≤ high) hs
    → n ≤ high
    → k + (high - n) + 1 ≤ length hs
    → message_of n hs ≡ some h
    → message_of n (drop k hs) ≡ some h
unfolding message_of
message_of-room n low high zero hs h up bound le room e = e
message_of-room n low high (suc k) [] h up bound le room e = e
message_of-room n low high (suc k) (g ∷ hs) h up bound le room e =
    let other : (g.msg_number == n) ≡ false = ground (arith, head-room low high g hs up bound) in
    message_of-room n g.msg_number high k hs h up.1 bound.1 le (omega arith) (simp other at e)

not_end : (g : Header) → g.msg_number < 65535 → is_end g ≡ false
unfolding is_end
not_end g small = ground arith

-- What the search in a window meets.
pub find_header-hit :
    (n : ℕ) (hs gs : List Header) (h : Header)
    → All (λ h. h.msg_number < 65535) hs
    → message_of n hs ≡ some h
    → ((find_header n (hs ++ gs)).1 ≡ true)
      × (get_elem? (hs ++ gs) (find_header n (hs ++ gs)).0 ≡ some h)
unfolding message_of find_header
find_header-hit n [] gs h bound e = absurd (ground arith)
find_header-hit n (g ∷ hs) gs h bound e = elim (Bool-cases (g.msg_number == n)) [
  | inl same ↦ simp same (refl, simp same at e)
  | inr other ↦
      let rest = find_header-hit n hs gs h bound.1 (simp other at e) in
      let inside : is_end g ≡ false = not_end g bound.0 in simp (other, inside) rest
]

pub find_header-miss :
    (n : ℕ) (hs gs : List Header) (e : Header)
    → All (λ h. h.msg_number < 65535) hs
    → n < 65535
    → is_end e ≡ true
    → message_of n hs ≡ none
    → (find_header n (hs ++ e ∷ gs)).1 ≡ false
unfolding message_of find_header is_end
find_header-miss n [] gs e bound small last miss =
    let other : (e.msg_number == n) ≡ false = ground (arith, last) in simp (other, last) refl
find_header-miss n (g ∷ hs) gs e bound small last miss =
    let other : (g.msg_number == n) ≡ false = ground (arith, miss) in
    let inside : is_end g ≡ false = not_end g bound.0 in
    simp (other, inside) (find_header-miss n hs gs e bound.1 small last (simp other at miss))
