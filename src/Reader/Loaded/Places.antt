-- ===== src/Reader/Loaded/Places.antt =====
-- Messages by number in a part of the file, and the places of windows.
use daydream.Base.{
  ℕ, zero, suc, ◌+◌, ◌-◌, ◌≤◌, ◌<◌, ◌≡◌, refl, sym, ap, ◌∙◌, Bool, true, false, ◌||◌, List, [], ◌∷◌,
  ◌++◌, none, some, arith, ltb, ◌==◌, inl, inr, Bool-cases, take, drop, length, take-append-drop,
  length-take, length-drop, drop-drop, take-length-take, min,
}
use daydream.Message.{Header}
use daydream.Message.Numbered.{Ascending}
use daydream.Reader.{Reading, found, ended, deleted, first_number, run_search}
use daydream.Reader.Window.{message_of, message_of-low}

Ascending-lower :
    (low high : ℕ) (hs : List Header) → low ≤ high → Ascending high hs → Ascending low hs
Ascending-lower low high [] le up = tt
Ascending-lower low high (h ∷ hs) le up = (omega (arith, up.0), up.1)

pub Ascending-drop : (low k : ℕ) (hs : List Header) → Ascending low hs → Ascending low (drop k hs)
Ascending-drop low zero hs up = up
Ascending-drop low (suc k) [] up = tt
Ascending-drop low (suc k) (h ∷ hs) up =
    Ascending-drop low k hs (Ascending-lower low h.msg_number hs (omega (arith, up.0)) up.1)

-- A message is not below the first one of a window before it.
pub first_number-low :
    (n low : ℕ) (hs gs : List Header) (h : Header)
    → Ascending low hs
    → message_of n hs ≡ some h
    → ltb n (first_number (take 100 hs ++ gs)) ≡ false
unfolding message_of first_number
first_number-low n low [] gs h up e = absurd (ground arith)
first_number-low n low (x ∷ hs) gs h up e = elim (Bool-cases (ltb n x.msg_number)) [
  | inl below ↦
      let later = message_of-low n x.msg_number hs up.1 (ground arith) in
      absurd (ground (arith, later))
  | inr above ↦ above
]

pub take-nonempty :
    (n : ℕ) (hs : List Header) (h : Header) → message_of n hs ≡ some h → 0 < length (take 100 hs)
unfolding message_of
take-nonempty n [] h e = absurd (ground arith)
take-nonempty n (x ∷ hs) h e = omega arith

pub message_of-take :
    (n k : ℕ) (hs : List Header) → message_of n hs ≡ none → message_of n (take k hs) ≡ none
unfolding message_of
message_of-take n zero hs e = refl
message_of-take n (suc k) [] e = refl
message_of-take n (suc k) (x ∷ hs) e = ground (arith, message_of-take n k hs)

pub message_of-none-drop :
    (n k : ℕ) (hs : List Header) → message_of n hs ≡ none → message_of n (drop k hs) ≡ none
unfolding message_of
message_of-none-drop n zero hs e = e
message_of-none-drop n (suc k) [] e = e
message_of-none-drop n (suc k) (x ∷ hs) e = message_of-none-drop n k hs (ground arith)

pub past : (next place k : ℕ) → next ≡ place + k → (next == place) ≡ false → place < next
past next place k e more = ground arith

pub edge_of :
    (next k size : ℕ)
    → next ≤ size
    → k ≡ min 100 (size - (next - 100))
    → (next - 100 == 0 || (next - 100 + k == next - 100 + 100)) ≡ true
edge_of next k size inside e = ground arith

-- The file from a place on is the window and what lies behind it.
pub window-behind :
    (place : ℕ) (hs : List Header)
    → take 100 (drop place hs) ++ drop (place + length (take 100 (drop place hs))) hs
      ≡ drop place hs
window-behind place hs =
    let ys = drop place hs in
    ap (λ t. take 100 ys ++ t) (sym (drop-drop (length (take 100 ys)) place hs))
    ∙ ap (λ t. t ++ drop (length (take 100 ys)) ys) (sym (take-length-take 100 ys))
    ∙ take-append-drop (length (take 100 ys)) ys

pub run_search-ended :
    (fuel n : ℕ) (t : Reading) → run_search fuel n (ended deleted t) ≡ ended deleted t
unfolding run_search
run_search-ended zero n t = refl
run_search-ended (suc fuel) n t = refl

pub run_search-found : (fuel n : ℕ) (t : Reading) → run_search fuel n (found t) ≡ found t
unfolding run_search
run_search-found zero n t = refl
run_search-found (suc fuel) n t = refl

pub beyond : (next place k : ℕ) → next ≡ place + k → 0 < k → (next == place) ≡ false
beyond next place k e lt = ground arith

pub nonzero : (k : ℕ) → 0 < k → (k == 0) ≡ false
nonzero k lt = ground arith

-- The next window is not behind the file.
pub window-inside :
    (place : ℕ) (hs : List Header)
    → place ≤ length hs
    → place + length (take 100 (drop place hs)) ≤ length hs
window-inside place hs inside = omega (arith, length-take 100 (drop place hs), length-drop place hs)

pub or_true : (b : Bool) → (b || true) ≡ true
or_true b = ground arith

or_false : (b : Bool) → (b || false) ≡ b
or_false b = ground arith
