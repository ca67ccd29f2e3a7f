-- ===== src/TextSearch/Marks.antt =====
-- Which messages a search marks.
use daydream.Base.{
  length-set, ℕ, zero, suc, ◌+◌, ◌-◌, ◌≤◌, ◌<◌, ◌≡◌, refl, sym, ap, ◌∙◌, Bool, true, false, not,
  ◌&&◌, ◌||◌, List, [], ◌∷◌, Option, none, some, arith, ltb, ◌==◌, inl, inr, Bool-cases, set,
  get_elem?, any, length, some-injective,
}
use mathlib.Core.Path.{subst}
use daydream.Base.CString.{Str}
use daydream.Message.{Header}
use daydream.Message.Save.{Mail}
use daydream.TextSearch.{
  Searcher, is_listed, mark_headers, zeros, get_headers, simple_search, scan_numbers, mask_at,
  scanned,
}

-- A byte of the mask, 0 behind its end.
unfoldable pub byte_at : List Bool → ℕ → Bool
byte_at [] i = false
byte_at (b ∷ bs) zero = b
byte_at (b ∷ bs) (suc i) = byte_at bs i

byte_at-get_elem? :
    (bs : List Bool) (i : ℕ) → (elim (get_elem? bs i) [ none ↦ false | some b ↦ b ]) ≡ byte_at bs i
unfolding byte_at
byte_at-get_elem? [] i = refl
byte_at-get_elem? (b ∷ bs) zero = refl
byte_at-get_elem? (b ∷ bs) (suc i) = byte_at-get_elem? bs i

byte_at-zeros : (n i : ℕ) → byte_at (zeros n) i ≡ false
unfolding byte_at zeros
byte_at-zeros zero i = refl
byte_at-zeros (suc n) zero = refl
byte_at-zeros (suc n) (suc i) = byte_at-zeros n i

length-zeros : (n : ℕ) → length (zeros n) ≡ n
unfolding zeros
length-zeros zero = refl
length-zeros (suc n) = omega (arith, length-zeros n)

byte_at-set :
    (bs : List Bool) (i k : ℕ)
    → k < length bs
    → byte_at (set bs i true) k ≡ (k == i || byte_at bs k)
unfolding byte_at
byte_at-set [] i k h = absurd (omega arith)
byte_at-set (b ∷ bs) zero zero h = refl
byte_at-set (b ∷ bs) zero (suc k) h = ground arith
byte_at-set (b ∷ bs) (suc i) zero h = ground arith
byte_at-set (b ∷ bs) (suc i) (suc k) h = ground (arith, byte_at-set bs i k (omega arith))

-- A record that is listed under a number.
abbrev pub lists : Searcher → Mail → ℕ → Header → Bool
lists u m n h = is_listed u m h && (h.msg_number == n)

offsets :
    (low high k n : ℕ) (a b : Bool)
    → (not (ltb k low || ltb high k) && a && b) ≡ true
    → low ≤ n
    → (n - low == k - low) ≡ (k == n)
offsets low high k n a b h le = ground arith

not_below : (n low : ℕ) (b : Bool) → (not (ltb n low) && b) ≡ true → low ≤ n
not_below n low b h = ground arith

or_false : (b : Bool) → (b || false) ≡ b
or_false b = ground arith

or_swap : (a e b : Bool) → (a || (e || b)) ≡ ((e || a) || b)
or_swap a e b = ground arith

same_byte :
    (u : Searcher) (m : Mail) (n : ℕ) (h : Header)
    → m.lowest ≤ n
    → is_listed u m h ≡ true
    → (n - m.lowest == h.msg_number - m.lowest) ≡ (h.msg_number == n)
unfolding is_listed
same_byte u m n h le listed = offsets m.lowest m.highest h.msg_number n _ _ listed le

mark_headers-lists :
    (u : Searcher) (m : Mail) (hs : List Header) (ofs : List Bool) (n : ℕ)
    → m.lowest ≤ n
    → n - m.lowest < length ofs
    → byte_at (mark_headers u m hs ofs) (n - m.lowest)
      ≡ (any (lists u m n) hs || byte_at ofs (n - m.lowest))
unfolding mark_headers
mark_headers-lists u m [] ofs n le lt = refl
mark_headers-lists u m (h ∷ hs) ofs n le lt = elim (Bool-cases (is_listed u m h)) [
  | inl listed ↦
      let i = h.msg_number - m.lowest in
      let long = length-set ofs i true in
      simp listed (
        mark_headers-lists u m hs (set ofs i true) n le (omega (arith, lt, long))
        ∙ ap (λ b. any (lists u m n) hs || b)
            (byte_at-set ofs i (n - m.lowest) lt
              ∙ ap (λ b. b || byte_at ofs (n - m.lowest)) (same_byte u m n h le listed))
        ∙ or_swap (any (lists u m n) hs) (h.msg_number == n) (byte_at ofs (n - m.lowest)))
  | inr other ↦ simp other (mark_headers-lists u m hs ofs n le lt)
]

scan_numbers-byte :
    (search_str : Str) (texts : ℕ → Option Str) (i : ℕ) (headers : List Bool) (k : ℕ)
    → byte_at (scan_numbers search_str texts i headers).0 k
      ≡ (byte_at headers k && simple_search search_str (texts (i + k)))
unfolding scan_numbers byte_at
scan_numbers-byte search_str texts i [] k = refl
scan_numbers-byte search_str texts i (b ∷ headers) zero =
    ap (λ n. b && simple_search search_str (texts n)) (omega arith)
scan_numbers-byte search_str texts i (b ∷ headers) (suc k) =
    scan_numbers-byte search_str texts (suc i) headers k
    ∙ ap (λ n. byte_at headers k && simple_search search_str (texts n)) (omega arith)

pub scan_numbers-first :
    (search_str : Str) (texts : ℕ → Option Str) (i : ℕ) (headers : List Bool) (n : ℕ)
    → (scan_numbers search_str texts i headers).1 ≡ some n
    → (i ≤ n) × (byte_at (scan_numbers search_str texts i headers).0 (n - i) ≡ true)
unfolding scan_numbers byte_at
scan_numbers-first search_str texts i [] n e = absurd (ground arith)
scan_numbers-first search_str texts i (b ∷ headers) n e =
    elim (Bool-cases (b && simple_search search_str (texts i))) [
      | inl hit ↦
          let here : i ≡ n = some-injective (simp hit at e) in
          let place : 0 ≡ n - i = omega (arith, here) in
          let bytes = (scan_numbers search_str texts i (b ∷ headers)).0 in
          (omega (arith, here), subst (λ k. byte_at bytes k ≡ true) place hit)
      | inr miss ↦
          let rest = scan_numbers-first search_str texts (suc i) headers n (simp miss at e) in
          let place : suc (n - suc i) ≡ n - i = omega (arith, rest.0) in
          let bytes = (scan_numbers search_str texts i (b ∷ headers)).0 in
          (omega (arith, rest.0), subst (λ k. byte_at bytes k ≡ true) place rest.1)
    ]

byte_at-inside : (bs : List Bool) (k : ℕ) → byte_at bs k ≡ true → k < length bs
unfolding byte_at
byte_at-inside [] k h = absurd (ground arith)
byte_at-inside (b ∷ bs) zero h = omega arith
byte_at-inside (b ∷ bs) (suc k) h = omega (arith, byte_at-inside bs k h)

length-mark_headers :
    (u : Searcher) (m : Mail) (hs : List Header) (ofs : List Bool)
    → length (mark_headers u m hs ofs) ≡ length ofs
unfolding mark_headers
length-mark_headers u m [] ofs = refl
length-mark_headers u m (h ∷ hs) ofs = elim (Bool-cases (is_listed u m h)) [
  | inl listed ↦ simp listed (length-mark_headers u m hs _ ∙ length-set ofs _ true)
  | inr other ↦ simp other (length-mark_headers u m hs ofs)
]

length-scan_numbers :
    (search_str : Str) (texts : ℕ → Option Str) (i : ℕ) (headers : List Bool)
    → length (scan_numbers search_str texts i headers).0 ≡ length headers
unfolding scan_numbers
length-scan_numbers search_str texts i [] = refl
length-scan_numbers search_str texts i (b ∷ headers) =
    omega (arith, length-scan_numbers search_str texts (suc i) headers)

pub mask_at-byte :
    (headers : List Bool) (low n : ℕ) → low ≤ n → mask_at headers low n ≡ byte_at headers (n - low)
unfolding mask_at
mask_at-byte headers low n le =
    let above : ltb n low ≡ false = ground arith in simp above (byte_at-get_elem? headers (n - low))

-- What the mask of a search has is within the pointers.
pub mask_at-within :
    (u : Searcher) (search_str : Str) (m : Mail) (n : ℕ)
    → mask_at (scanned u search_str m).0 m.lowest n ≡ true
    → (m.lowest ≤ n) × (n ≤ m.highest)
unfolding scanned get_headers
mask_at-within u search_str m n h =
    let low : m.lowest ≤ n = unfold mask_at in not_below n m.lowest _ h in
    let bytes = (scanned u search_str m).0 in
    let inside =
      byte_at-inside bytes (n - m.lowest) (sym (mask_at-byte bytes m.lowest n low) ∙ h) in
    (
      low,
      omega (
        arith,
        low,
        inside,
        length-scan_numbers search_str m.texts m.lowest (get_headers u m),
        length-mark_headers u m m.headers (zeros (1 + m.highest - m.lowest)),
        length-zeros (1 + m.highest - m.lowest),
      ),
    )

-- The messages that a search leaves marked are those within the pointers that are listed in the file and in
-- which the text occurs.
pub scanned-marks :
    (u : Searcher) (search_str : Str) (m : Mail) (n : ℕ)
    → m.lowest ≤ n
    → n ≤ m.highest
    → mask_at (scanned u search_str m).0 m.lowest n
      ≡ (any (lists u m n) m.headers && simple_search search_str (m.texts n))
unfolding scanned get_headers
scanned-marks u search_str m n le ge =
    let size = 1 + m.highest - m.lowest in
    let k = n - m.lowest in
    let place : m.lowest + k ≡ n = omega arith in
    let inside : k < length (zeros size) = omega (arith, length-zeros size) in
    mask_at-byte (scanned u search_str m).0 m.lowest n le
    ∙ scan_numbers-byte search_str m.texts m.lowest (get_headers u m) k
    ∙ ap (λ b. b && simple_search search_str (m.texts (m.lowest + k)))
        (mark_headers-lists u m m.headers (zeros size) n le inside
          ∙ ap (λ b. any (lists u m n) m.headers || b) (byte_at-zeros size k)
          ∙ or_false (any (lists u m n) m.headers))
    ∙ ap (λ j. any (lists u m n) m.headers && simple_search search_str (m.texts j)) place
