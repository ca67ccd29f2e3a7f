-- ===== src/Selection/Bits.antt =====
-- The bits of a byte.
use daydream.Base.{
  ap, ◌∙◌, inl, inr, Bool-cases, ==→eq, ℕ, zero, suc, ◌+◌, ◌/◌, ◌%◌, ◌<◌, ◌*◌, ◌≡◌, refl, sym, Bool,
  true, false, not, arith, ltb, ◌==◌, if◌then◌else◌,
}
use mathlib.Core.Path.{subst}
use daydream.Access.{has_bit}
use daydream.Message.{set_bit}
use daydream.Selection.{clear_bit, toggle_bit}

below : (n : ℕ) → ltb n 256 ≡ true → n < 256
below n h = ground arith

eqb : Bool → Bool → Bool
eqb true b = b
eqb false b = not b

-- Bit `x % 8` of the byte `x / 64` is toggled, and seen at bit `x / 8 % 8`.
toggles : ℕ → Bool
toggles x =
    eqb (has_bit (toggle_bit (x / 64) (x % 8)) (x / 8 % 8))
      (if x / 8 % 8 == x % 8 then not (has_bit (x / 64) (x % 8)) else has_bit (x / 64) (x / 8 % 8))

-- A test of the numbers below one.
module _ (test : ℕ → Bool) where
  passes : ℕ → Bool
  passes zero = true
  passes (suc bound) = if test bound then passes bound else false

  passes_sound : (bound k : ℕ) → k < bound → passes bound ≡ true → test k ≡ true
  unfolding passes
  passes_sound zero k h done = absurd (omega arith)
  passes_sound (suc bound) k h done = elim (Bool-cases (test bound)) [
    | inr fails ↦ absurd (ground (arith, simp fails at done))
    | inl works ↦ elim (Bool-cases (k == bound)) [
      | inl top ↦ ap test (==→eq k bound top) ∙ works
      | inr lower ↦ passes_sound bound k (ground arith) (simp works at done)
    ]
  ]

toggles_table : passes toggles 16384 ≡ true
unfolding passes toggles toggle_bit has_bit clear_bit set_bit eqb
toggles_table = refl

eqb→eq : (a b : Bool) → eqb a b ≡ true → a ≡ b
unfolding eqb
eqb→eq true b h = sym h
eqb→eq false true h = h
eqb→eq false false h = refl

-- A byte after a bit of it is toggled.
pub has_bit-toggle_bit :
    (b i k : ℕ)
    → b < 256
    → i < 8
    → k < 8
    → has_bit (toggle_bit b i) k ≡ (if k == i then not (has_bit b i) else has_bit b k)
has_bit-toggle_bit b i k hb hi hk =
    let x = b * 64 + (k * 8 + i) in
    let one : x % 8 ≡ i = omega arith in
    let two : x / 8 % 8 ≡ k = omega arith in
    let three : x / 64 ≡ b = omega arith in
    let table : toggles x ≡ true = passes_sound toggles 16384 x (omega arith) toggles_table in
    let at : eqb (has_bit (toggle_bit b i) k) (if k == i then not (has_bit b i) else has_bit b k)
        ≡ true =
      subst
        (λ j.
          eqb (has_bit (toggle_bit b j) k) (if k == j then not (has_bit b j) else has_bit b k)
          ≡ true)
        one
        (subst
          (λ l.
            eqb (has_bit (toggle_bit b (x % 8)) l)
              (if l == x % 8 then not (has_bit b (x % 8)) else has_bit b l)
            ≡ true)
          two
          (subst
            (λ c.
              eqb (has_bit (toggle_bit c (x % 8)) (x / 8 % 8))
                (if x / 8 % 8 == x % 8 then not (has_bit c (x % 8)) else has_bit c (x / 8 % 8))
              ≡ true)
            three (unfold toggles in table))) in
    eqb→eq _ _ at

small_toggle : ℕ → Bool
small_toggle x = ltb (toggle_bit (x / 8) (x % 8)) 256

small_table : passes small_toggle 2048 ≡ true
unfolding passes small_toggle toggle_bit has_bit clear_bit set_bit
small_table = refl

-- It stays a byte.
pub toggle_bit-small : (b i : ℕ) → b < 256 → i < 8 → toggle_bit b i < 256
toggle_bit-small b i hb hi =
    let x = b * 8 + i in
    let one : x % 8 ≡ i = omega arith in
    let two : x / 8 ≡ b = omega arith in
    let table : small_toggle x ≡ true =
      passes_sound small_toggle 2048 x (omega arith) small_table in
    below (toggle_bit b i) (
      subst (λ j. ltb (toggle_bit b j) 256 ≡ true) one
        (subst (λ c. ltb (toggle_bit c (x % 8)) 256 ≡ true) two (unfold small_toggle in table)))
