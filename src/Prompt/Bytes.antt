-- ===== src/Prompt/Bytes.antt =====
-- What the byte moves of the line editor do to each byte.
use daydream.Base.{
  ℕ, zero, suc, ◌+◌, ◌-◌, ◌≤◌, ◌<◌, ◌≡◌, refl, ◌≢◌, false, arith, ◌==◌, inl, inr, Bool-cases, ◌∙◌,
  sym,
}
use daydream.Prompt.{Memory, write, copy_down, shift_up}

pub write-eq : (b : Memory) (k v : ℕ) → write b k v k ≡ v
unfolding write
write-eq b k v = ground arith

pub write-ne : (b : Memory) (k v x : ℕ) → x ≢ k → write b k v x ≡ b x
unfolding write
write-ne b k v x h = ground arith

pub shift_up-above : (n : ℕ) (b : Memory) (k x : ℕ) → k < x → shift_up n b k x ≡ b x
unfolding shift_up
shift_up-above zero b k x h = refl
shift_up-above (suc n) b k x h =
    shift_up-above n (write b k (b (k - 1))) (k - 1) x (omega arith)
    ∙ write-ne b k (b (k - 1)) x (omega arith)

pub shift_up-below : (n : ℕ) (b : Memory) (k x : ℕ) → x + n ≤ k → shift_up n b k x ≡ b x
unfolding shift_up
shift_up-below zero b k x h = refl
shift_up-below (suc n) b k x h =
    shift_up-below n (write b k (b (k - 1))) (k - 1) x (omega arith)
    ∙ write-ne b k (b (k - 1)) x (omega arith)

pub shift_up-moved :
    (n : ℕ) (b : Memory) (k x : ℕ) → n ≤ k → k ≤ x + n → x < k → shift_up n b k (suc x) ≡ b x
unfolding shift_up
shift_up-moved zero b k x f low high = absurd (omega arith)
shift_up-moved (suc n) b k x f low high = elim (Bool-cases (suc x == k)) [
  | inl e ↦
      ground
        (arith, shift_up-above n (write b k (b (k - 1))) (k - 1) (suc x), write-eq b k (b (k - 1)))
  | inr e ↦
      ground (arith, shift_up-moved n (write b k (b (k - 1))) (k - 1) x, write-ne b k (b (k - 1)) x)
]

pub copy_down-below : (n : ℕ) (b : Memory) (d x : ℕ) → x < d → copy_down n b d x ≡ b x
unfolding copy_down
copy_down-below zero b d x h = write-ne b d 0 x (omega arith)
copy_down-below (suc n) b d x h = ground (
  arith,
  copy_down-below n (write b d (b (suc d))) (suc d) x,
  write-ne b d (b (suc d)) x,
  write-ne b d 0 x,
)

-- The bytes of a text of `m` bytes go down by one place.
pub copy_down-moved :
    (n m : ℕ) (b : Memory) (d x : ℕ)
    → m ≤ n
    → ((y : ℕ) → suc d ≤ y → y < suc d + m → b y ≢ 0)
    → d ≤ x
    → x < d + m
    → copy_down n b d x ≡ b (suc x)
unfolding copy_down
copy_down-moved zero m b d x f text low high = absurd (omega arith)
copy_down-moved (suc n) zero b d x f text low high = absurd (omega arith)
copy_down-moved (suc n) (suc m) b d x f text low high =
    let b' = write b d (b (suc d)) in
    let more : (b (suc d) == 0) ≡ false = ground (arith, text (suc d)) in
    let text' : (y : ℕ) → suc (suc d) ≤ y → y < suc (suc d) + m → b' y ≢ 0 = λ y l h z.
      text y (omega arith) (omega arith) (sym (write-ne b d (b (suc d)) y (omega arith)) ∙ z) in
    elim (Bool-cases (x == d)) [
      | inl e ↦ rw more (ground (arith, copy_down-below n b' (suc d) x, write-eq b d (b (suc d))))
      | inr e ↦ rw more (
          ground (
            arith,
            copy_down-moved n m b' (suc d) x (omega arith) text',
            write-ne b d (b (suc d)) (suc x),
          ))
    ]

-- A NUL stops the copy: nothing from there on changes.
pub copy_down-above :
    (n : ℕ) (b : Memory) (d e x : ℕ) → b e ≡ 0 → d < e → e ≤ x → copy_down n b d x ≡ b x
unfolding copy_down
copy_down-above zero b d e x nul low h = write-ne b d 0 x (omega arith)
copy_down-above (suc n) b d e x nul low h =
    let b' = write b d (b (suc d)) in
    elim (Bool-cases (b (suc d) == 0)) [
      | inl z ↦ rw z (write-ne b d 0 x (omega arith))
      | inr z ↦ rw z (
          ground (
            arith,
            copy_down-above n b' (suc d) e x,
            write-ne b d (b (suc d)) x,
            write-ne b d (b (suc d)) e,
          ))
    ]
