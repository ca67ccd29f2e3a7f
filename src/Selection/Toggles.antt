-- ===== src/Selection/Toggles.antt =====
-- A number that is typed.
use daydream.Base.{
  ℕ, zero, suc, ◌+◌, ◌-◌, ◌/◌, ◌%◌, ◌≤◌, ◌<◌, ◌≡◌, ◌≢◌, sym, ap, ◌∙◌, false, not, [], ◌∷◌, Option,
  none, some, All, arith, ◌==◌, if◌then◌else◌, Bool-cases, inl, inr, set, length, get_elem?-set,
  get_elem?-set_other,
}
use daydream.Access.{has_bit}
use daydream.Selection.{Bytes, byte_at, is_selected, toggle, toggle_bit}
use daydream.Selection.Bits.{has_bit-toggle_bit}

-- The elements are bytes.
abbrev pub IsBytes : Bytes → Type 0
IsBytes selcfg = All (λ b. b < 256) selcfg

byte_at-small : (selcfg : Bytes) (i : ℕ) → IsBytes selcfg → byte_at selcfg i < 256
unfolding byte_at
byte_at-small [] i h = omega arith
byte_at-small (b ∷ selcfg) zero h = h.0
byte_at-small (b ∷ selcfg) (suc i) h = byte_at-small selcfg i h.1

byte_at-set : (selcfg : Bytes) (i v : ℕ) → i < length selcfg → byte_at (set selcfg i v) i ≡ v
unfolding byte_at
byte_at-set selcfg i v h =
    ap (λ (o : Option ℕ). elim o as (λ o. ℕ) [ none ↦ 0 | some b ↦ b ]) (get_elem?-set selcfg i v h)

byte_at-set_other :
    (selcfg : Bytes) (i k v : ℕ) → k ≢ i → byte_at (set selcfg i v) k ≡ byte_at selcfg k
unfolding byte_at
byte_at-set_other selcfg i k v h =
    ap (λ (o : Option ℕ). elim o as (λ o. ℕ) [ none ↦ 0 | some b ↦ b ])
      (get_elem?-set_other selcfg i k v h)

same_bit :
    (n m : ℕ) → 1 ≤ n → 1 ≤ m → (m - 1) / 8 ≡ (n - 1) / 8 → ((m - 1) % 8 == (n - 1) % 8) ≡ (m == n)
same_bit n m ln lm e = ground arith

other_number : (n m : ℕ) → ((m - 1) / 8 == (n - 1) / 8) ≡ false → (m == n) ≡ false
other_number n m h = ground arith

-- A number that is toggled is tagged if it was not, and the other way round; no other number changes. The
-- numbers are from 1 on, and the place is within the bytes.
is_selected-toggle :
    (selcfg : Bytes) (place n m : ℕ)
    → IsBytes selcfg
    → place + (n - 1) / 8 < length selcfg
    → 1 ≤ n
    → 1 ≤ m
    → is_selected (toggle selcfg place n) place m
      ≡ (if m == n then not (is_selected selcfg place n) else is_selected selcfg place m)
unfolding is_selected toggle
is_selected-toggle selcfg place n m bytes fits ln lm =
    let i = place + (n - 1) / 8 in
    let v = toggle_bit (byte_at selcfg i) ((n - 1) % 8) in
    elim (Bool-cases ((m - 1) / 8 == (n - 1) / 8)) [
      | inl same ↦
          let eq : (m - 1) / 8 ≡ (n - 1) / 8 = ground arith in
          ap (λ q. has_bit (byte_at (set selcfg i v) (place + q)) ((m - 1) % 8)) eq
          ∙ ap (λ b. has_bit b ((m - 1) % 8)) (byte_at-set selcfg i v fits)
          ∙ has_bit-toggle_bit (byte_at selcfg i) ((n - 1) % 8) ((m - 1) % 8)
              (byte_at-small selcfg i bytes) (omega arith) (omega arith)
          ∙ ap
              (λ c.
                if c
                then not (has_bit (byte_at selcfg i) ((n - 1) % 8))
                else has_bit (byte_at selcfg i) ((m - 1) % 8))
              (same_bit n m ln lm eq)
          ∙ ap
              (λ q.
                if m == n
                then not (has_bit (byte_at selcfg i) ((n - 1) % 8))
                else has_bit (byte_at selcfg (place + q)) ((m - 1) % 8))
              (sym eq)
      | inr other ↦
          let apart : place + (m - 1) / 8 ≢ i = ground arith in
          let differ = other_number n m other in
          simp differ (
            ap (λ b. has_bit b ((m - 1) % 8))
              (byte_at-set_other selcfg i (place + (m - 1) / 8) v apart))
    ]
