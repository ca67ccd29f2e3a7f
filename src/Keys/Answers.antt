-- ===== src/Keys/Answers.antt =====
-- Questions that are answered by yes or no.
use daydream.Base.{
  ℕ, ◌≡◌, ◌≢◌, ◌⊎◌, ◌∙◌, Bool, true, false, ◌||◌, List, [], ◌∷◌, ◌++◌, Option, none, some, arith,
  ◌==◌, if◌then◌else◌, All, inl, inr,
}
use daydream.Keys.{
  Input, user_key, timed_out, carrier_lost, signalled, sysop_key, Hot, Reply, reply, await,
  press_key, hot_key,
}

-- The answer of a key, where Return gives `default`.
abbrev pub yes_or_no : ℕ → ℕ → Option ℕ
yes_or_no default c =
    if c == b'Y' || (c == b'y')
    then some 1
    else if c == b'N' || (c == b'n')
    then some 2
    else if c == 13 || (c == 10)
    then some default
    else none

-- A question, and the answer that Return gives.
abbrev pub Asks : Hot → ℕ → Type 0
Asks params default =
    (params.hot_re ≡ false)
    × (((params.hot_yesno ≡ true) × (default ≡ 1))
        ⊎ ((params.hot_yesno ≡ false) × (params.hot_noyes ≡ true) × (default ≡ 2)))

-- A key that answers nothing; the sysop's ^B is not of them.
abbrev pub Idle : ℕ → Input → Type 0
Idle default (user_key c) = yes_or_no default c ≡ none
Idle default (sysop_key c) = (yes_or_no default c ≡ none) × (c ≢ 2)
Idle default _ = ⊥

press_key-answer :
    (handlectrl : Hot → List Input → Option Reply) (idleon : Bool) (params : Hot) (default c a : ℕ)
    (is : List Input) (again : Option Reply)
    → Asks params default
    → yes_or_no default c ≡ some a
    → press_key handlectrl idleon params c is again ≡ some (reply a is)
unfolding press_key
press_key-answer handlectrl idleon params default c a is again (re, inl (asks, d)) h = ground arith
press_key-answer handlectrl idleon params default c a is again (re, inr (other, asks, d)) h =
    ground arith

press_key-idle :
    (handlectrl : Hot → List Input → Option Reply) (idleon : Bool) (params : Hot) (default c : ℕ)
    (is : List Input) (again : Option Reply)
    → Asks params default
    → yes_or_no default c ≡ none
    → press_key handlectrl idleon params c is again ≡ again
unfolding press_key
press_key-idle handlectrl idleon params default c is again (re, inl (asks, d)) h = ground arith
press_key-idle handlectrl idleon params default c is again (re, inr (other, asks, d)) h =
    ground arith

-- A question is answered by the first key that answers it, where only keys that answer nothing come before,
-- and of these not the sysop's ^B: Y by 1, N by 2, in either case, and Return by 1 for HOT_YESNO and by 2 for
-- HOT_NOYES; the input behind it is left.
pub hot_key-answer :
    (handlectrl : Hot → List Input → Option Reply) (idleon : Bool) (params : Hot) (default c a : ℕ)
    (before after : List Input)
    → Asks params default
    → All (Idle default) before
    → yes_or_no default c ≡ some a
    → hot_key handlectrl idleon params (before ++ user_key c ∷ after) ≡ some (reply a after)
unfolding hot_key await
hot_key-answer handlectrl idleon params default c a [] after q idle h =
    press_key-answer handlectrl idleon params default c a after _ q h
hot_key-answer handlectrl idleon params default c a (user_key k ∷ before) after q idle h =
    press_key-idle handlectrl idleon params default k (before ++ user_key c ∷ after) _ q idle.0
    ∙ hot_key-answer handlectrl idleon params default c a before after q idle.1 h
hot_key-answer handlectrl idleon params default c a (sysop_key k ∷ before) after q idle h =
    let ne : (k == 2) ≡ false = ground arith in
    rw ne (
      press_key-idle handlectrl idleon params default k (before ++ user_key c ∷ after) _ q idle.0.0
      ∙ hot_key-answer handlectrl idleon params default c a before after q idle.1 h)
hot_key-answer handlectrl idleon params default c a (timed_out ∷ before) after q idle h =
    absurd idle.0
hot_key-answer handlectrl idleon params default c a (carrier_lost ∷ before) after q idle h =
    absurd idle.0
hot_key-answer handlectrl idleon params default c a (signalled ∷ before) after q idle h =
    absurd idle.0
