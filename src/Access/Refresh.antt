-- ===== src/Access/Refresh.antt =====
-- What a refresh of the security data keeps and gives.
use daydream.Base.{
  ℕ, ◌-◌, ◌/◌, ◌%◌, ◌^◌, ◌≤◌, ◌<◌, ◌≡◌, ◌≢◌, ◌↔◌, ◌⊎◌, refl, sym, ap, ◌∙◌, true, false, List, [],
  ◌∷◌, ◌++◌, none, some, some-injective, arith, inl, inr, Bool-cases, Option-cases, All, ltb, ◌==◌,
  ==→eq,
}
use daydream.Access.{
  Security, Account, Seclevel, apply_security, find_preset, get_security, conference_bit,
  checkconfaccess, has_bit,
}

-- A refreshed user gets the same record again, and is unchanged by it.
get_security-twice :
    (sec : Security) (ub : Account) → get_security sec (get_security sec ub).0 ≡ get_security sec ub
unfolding get_security apply_security
get_security-twice sec ub = ground arith

-- A second check of the same conference changes nothing in the user record and answers the same.
checkconfaccess-twice :
    (sec : Security) (confn : ℕ) (ub : Account)
    → checkconfaccess sec confn (checkconfaccess sec confn ub).0 ≡ checkconfaccess sec confn ub
unfolding checkconfaccess apply_security
checkconfaccess-twice sec confn ub = ground arith

-- The first preset of a level, ahead of the entry of level 0 that ends the list.
abbrev pub IsPreset : List Seclevel → ℕ → Seclevel → Type 0
IsPreset secs level s =
    (before : List Seclevel) × (after : List Seclevel) × (secs ≡ before ++ s ∷ after)
    × All (λ p. (p.sec_seclevel ≢ 0) × (p.sec_seclevel ≢ level)) before
    × (s.sec_seclevel ≡ level)
    × (level ≢ 0)

-- The record that applies to a user: the user's own, or else the preset of the level.
abbrev pub Applies : Security → Account → Seclevel → Type 0
Applies sec ub s =
    (sec.security_dat ub.user_account_id ≡ some s)
    ⊎ ((sec.security_dat ub.user_account_id ≡ none) × IsPreset sec.secs ub.user_securitylevel s)

-- The record opens a conference from 1 to 64: the first word has the bits of 1 to 32, the second those of 33
-- to 64.
abbrev pub Opens : Seclevel → ℕ → Type 0
Opens s confn =
    ((1 ≤ confn) × (confn ≤ 32) × (s.sec_conferenceacc1 / 2 ^ (confn - 1) % 2 ≡ 1))
    ⊎ ((33 ≤ confn) × (confn ≤ 64) × (s.sec_conferenceacc2 / 2 ^ (confn - 33) % 2 ≡ 1))

find_preset→IsPreset :
    (secs : List Seclevel) (level : ℕ) (s : Seclevel)
    → find_preset secs level ≡ some s
    → IsPreset secs level s
unfolding find_preset
find_preset→IsPreset [] level s e = cc e
find_preset→IsPreset (p ∷ secs) level s e = elim (Bool-cases (p.sec_seclevel == 0)) [
  | inl last ↦ let gone : none ≡ some s = simp last at e in cc gone
  | inr more ↦ elim (Bool-cases (p.sec_seclevel == level)) [
    | inl here ↦
        let same : p ≡ s = some-injective (simp (more, here) at e) in
        let found : p.sec_seclevel ≡ level = ground arith in
        (
          [],
          secs,
          ap (λ q. q ∷ secs) same,
          tt,
          ap (λ q. q.sec_seclevel) (sym same) ∙ found,
          λ zero. absurd (ground (arith, found, zero)),
        )
    | inr other ↦
        let (before, after, split, passed, level_of, not_zero) =
          find_preset→IsPreset secs level s (simp (more, other) at e) in
        (
          p ∷ before,
          after,
          ap (λ ps. p ∷ ps) split,
          ((λ zero. absurd (ground (arith, zero)), λ same. absurd (ground (arith, same))), passed),
          level_of,
          not_zero,
        )
  ]
]

IsPreset→find_preset :
    (before after : List Seclevel) (level : ℕ) (s : Seclevel)
    → All (λ p. (p.sec_seclevel ≢ 0) × (p.sec_seclevel ≢ level)) before
    → s.sec_seclevel ≡ level
    → level ≢ 0
    → find_preset (before ++ s ∷ after) level ≡ some s
unfolding find_preset
IsPreset→find_preset [] after level s passed same ne =
    let more : (s.sec_seclevel == 0) ≡ false = ground arith in
    let here : (s.sec_seclevel == level) ≡ true = ground arith in simp (more, here) refl
IsPreset→find_preset (p ∷ before) after level s passed same ne =
    let more : (p.sec_seclevel == 0) ≡ false = ground (arith, passed.0.0) in
    let other : (p.sec_seclevel == level) ≡ false = ground (arith, passed.0.1) in
    simp (more, other) (IsPreset→find_preset before after level s passed.1 same ne)

low_bit : (bits n : ℕ) → n < 64 → has_bit bits n ≡ (bits / 2 ^ n % 2 == 1)
unfolding has_bit
low_bit bits n small = let same : n % 64 ≡ n = omega arith in ap (λ k. bits / 2 ^ k % 2 == 1) same

conference_bit-Opens :
    (ub : Account) (s : Seclevel) (confn : ℕ)
    → 1 ≤ confn
    → confn ≤ 64
    → (conference_bit (apply_security ub s) confn ≡ true) ↔ Opens s confn
unfolding conference_bit apply_security
conference_bit-Opens ub s confn low high =
    let first = low_bit s.sec_conferenceacc1 (confn - 1) (omega arith) in
    let second = low_bit s.sec_conferenceacc2 (confn - 1 - 32) (omega arith) in
    let from_one : (confn == 0) ≡ false = ground arith in
    let place : confn - 1 - 32 ≡ confn - 33 = omega arith in
    elim (Bool-cases (ltb (confn - 1) 32)) [
      | inl word ↦ (
        λ h. inl (omega arith, ground arith, ==→eq _ 1 (sym first ∙ (simp (from_one, word) at h))),
        λ o. elim o [
          | inl (_, _, b) ↦ simp (from_one, word) (first ∙ ground arith)
          | inr (above, _, _) ↦ absurd (ground arith)
        ],
      )
      | inr word ↦ (
        λ h. inr (
          ground arith,
          omega arith,
          ap (λ k. s.sec_conferenceacc2 / 2 ^ k % 2) (sym place)
              ∙ ==→eq _ 1 (sym second ∙ (simp (from_one, word) at h)),
        ),
        λ o. elim o [
          | inl (_, below, _) ↦ absurd (ground arith)
          | inr (_, _, b) ↦
              simp (from_one, word)
                (second ∙ ap (λ k. s.sec_conferenceacc2 / 2 ^ k % 2 == 1) place ∙ ground arith)
        ],
      )
    ]

granted_by :
    (sec : Security) (confn : ℕ) (ub : Account)
    → (checkconfaccess sec confn ub).1 ≡ true
    → (s : Seclevel) × Applies sec ub s × (conference_bit (apply_security ub s) confn ≡ true)
unfolding checkconfaccess
granted_by sec confn ub h = elim (Option-cases (sec.security_dat ub.user_account_id)) [
  | inr (s, e) ↦ (s, inl e, ground arith)
  | inl e ↦ elim (Option-cases (find_preset sec.secs ub.user_securitylevel)) [
    | inr (s, p) ↦
        (s, inr (e, find_preset→IsPreset sec.secs ub.user_securitylevel s p), ground arith)
    | inl p ↦ absurd (ground arith)
  ]
]

grants_if :
    (sec : Security) (confn : ℕ) (ub : Account) (s : Seclevel)
    → Applies sec ub s
    → conference_bit (apply_security ub s) confn ≡ true
    → (checkconfaccess sec confn ub).1 ≡ true
unfolding checkconfaccess
grants_if sec confn ub s (inl e) b = ground arith
grants_if sec confn ub s (inr (e, preset)) b =
    let (before, after, split, passed, same, ne) = preset in
    let p =
      ap (λ secs. find_preset secs ub.user_securitylevel) split
      ∙ IsPreset→find_preset before after ub.user_securitylevel s passed same ne in
    ground arith

-- The user may enter the conference.
abbrev pub MayEnter : Security → Account → ℕ → Type 0
MayEnter sec ub confn = (s : Seclevel) × Applies sec ub s × Opens s confn

-- Access to a conference from 1 to 64 is granted exactly if the record that applies to the user opens it: the
-- user's own before the first preset of the level ahead of the entry of level 0. The words that the user
-- record held before do not count.
pub checkconfaccess_iff :
    (sec : Security) (confn : ℕ) (ub : Account)
    → 1 ≤ confn
    → confn ≤ 64
    → ((checkconfaccess sec confn ub).1 ≡ true) ↔ MayEnter sec ub confn
checkconfaccess_iff sec confn ub low high = (
  λ h.
      let (s, a, b) = granted_by sec confn ub h in
      (s, a, (conference_bit-Opens ub s confn low high).0 b),
  λ (s, a, o). grants_if sec confn ub s a ((conference_bit-Opens ub s confn low high).1 o),
)
