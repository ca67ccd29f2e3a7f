-- ===== src/Keys/Arrows.antt =====
-- What a terminal sends for the keys, and what the loop of the prompt sees.
use daydream.Base.{
  ℕ, ◌≡◌, ◌≢◌, refl, Bool, List, [], ◌∷◌, ◌++◌, Option, some, arith, ◌==◌, if◌then◌else◌, All,
  length, inl, inr, Bool-cases, ==→eq,
}
use daydream.Keys.{Input, user_key, Hot, Reply, reply, cursor_hot, hot_key, read_keys}

-- An arrow is sent as ESC, [ and a letter; any other key as its code.
unfoldable pub terminal : ℕ → List Input
terminal k =
    if k == 250
    then user_key 27 ∷ user_key b'[' ∷ user_key b'A' ∷ []
    else if k == 251
    then user_key 27 ∷ user_key b'[' ∷ user_key b'B' ∷ []
    else if k == 252
    then user_key 27 ∷ user_key b'[' ∷ user_key b'C' ∷ []
    else if k == 253
    then user_key 27 ∷ user_key b'[' ∷ user_key b'D' ∷ []
    else user_key k ∷ []

abbrev pub terminal_all : List ℕ → List Input
terminal_all [] = []
terminal_all (k ∷ ks) = terminal k ++ terminal_all ks

module _ (handlectrl : Hot → List Input → Option Reply) (idleon : Bool) where
  hot_key-terminal :
      (k : ℕ) (rest : List Input)
      → k ≢ 27
      → k ≢ 155
      → hot_key handlectrl idleon cursor_hot (terminal k ++ rest) ≡ some (reply k rest)
  unfolding hot_key terminal
  hot_key-terminal k rest escape introducer = elim (Bool-cases (k == 250)) [
    | inl e ↦ rw e (ground (arith, ==→eq k 250 e))
    | inr up ↦ elim (Bool-cases (k == 251)) [
      | inl e ↦ rw (up, e) (ground (arith, ==→eq k 251 e))
      | inr down ↦ elim (Bool-cases (k == 252)) [
        | inl e ↦ rw (up, down, e) (ground (arith, ==→eq k 252 e))
        | inr right ↦ elim (Bool-cases (k == 253)) [
          | inl e ↦ rw (up, down, right, e) (ground (arith, ==→eq k 253 e))
          | inr left ↦ rw (up, down, right, left) (ground arith)
        ]
      ]
    ]
  ]

  -- The prompt sees the keys that were pressed, arrows included, if neither ESC (27) nor the code 155, which
  -- start escape sequences, is pressed itself.
  pub read_keys-terminal :
      (ks : List ℕ)
      → All (λ k. (k ≢ 27) × (k ≢ 155)) ks
      → read_keys handlectrl idleon (length ks) (terminal_all ks) ≡ ks
  unfolding read_keys
  read_keys-terminal [] h = refl
  read_keys-terminal (k ∷ ks) h =
      rw (hot_key-terminal k (terminal_all ks) h.0.0 h.0.1, read_keys-terminal ks h.1)
