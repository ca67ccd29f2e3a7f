-- ===== src/Join/Entry.antt =====
-- When a conference is joined, and what the two outcomes leave.
use daydream.Base.{
  ℕ, ◌%◌, ◌^◌, ◌≡◌, refl, ap, sym, ◌∙◌, ◌↔◌, Bool, true, false, ◌&&◌, List, [], ◌∷◌, Option, none,
  some, arith, ◌==◌, inl, inr, Bool-cases, length, ltb, ◌||◌, if◌then◌else◌,
}
use mathlib.Core.Path.{subst}
use daydream.Base.CString.{Str}
use daydream.Access.{Security, Account, checkconfaccess}
use daydream.Conference.{MsgBase, Conference, findconf}
use daydream.Join.{
  Reader, BaseKey, JoinFlags, save_lrp, getmsgptrs, after_save, enter_base, enter_number,
  enter_found, changemsgbase, first_base, enter_first, enter_conference, password_ok, join_found,
  show_password, asks_password, joinconf, find_msgbase, ask_base,
}

-- Whether the conference may be entered: the access check, and the password where it is asked.
abbrev pub may_enter : Security → Reader → ℕ → JoinFlags → List Str → Conference → Bool
may_enter sec r confn flags inputs mc =
    (checkconfaccess sec confn r.user).1 && password_ok mc.conf.conf_passwd flags inputs

-- What `join_found` gives for the conference of the number, if there is one.
outcome : Security → Reader → ℕ → JoinFlags → List Str → Option Conference → Reader × Bool
outcome sec r confn flags inputs none = (r, false)
outcome sec r confn flags inputs (some mc) =
    let r' = record r { user = (checkconfaccess sec confn r.user).0 } in
    if may_enter sec r confn flags inputs mc
    then (enter_conference r' mc flags, true)
    else (r', false)

-- The conference of before is brought back behind the text of the password prompt.
show_password-same :
    (r : Reader) (mc : Conference) (flags : JoinFlags) → show_password r mc flags ≡ r
unfolding show_password
show_password-same r mc flags = elim (Bool-cases (asks_password mc.conf.conf_passwd flags)) [
  | inl asked ↦ simp asked refl
  | inr free ↦ simp free refl
]

join_found-outcome :
    (sec : Security) (mcs : List Conference) (r : Reader) (confn : ℕ) (flags : JoinFlags)
    (inputs : List Str)
    → join_found sec mcs r (some confn) flags inputs
      ≡ outcome sec r confn flags inputs (findconf mcs confn)
unfolding join_found outcome findconf
join_found-outcome sec [] r confn flags inputs = refl
join_found-outcome sec (mc ∷ mcs) r confn flags inputs =
    elim (Bool-cases (mc.conf.conf_number == confn)) [
      | inr e ↦ rw e (join_found-outcome sec mcs r confn flags inputs)
      | inl e ↦
          let (user', granted) = checkconfaccess sec confn r.user in
          let same = show_password-same (record r { user = user' }) mc flags in
          elim (Bool-cases granted) [
            | inr refused ↦ simp (e, refused) refl
            | inl access ↦ elim (Bool-cases (password_ok mc.conf.conf_passwd flags inputs)) [
              | inl right ↦
                  simp (e, access, right) (ap (λ x. (enter_conference x mc flags, true)) same)
              | inr wrong ↦ simp (e, access, wrong) (ap (λ x. (x, false)) same)
            ]
          ]
    ]

outcome-true :
    (sec : Security) (r : Reader) (confn : ℕ) (flags : JoinFlags) (inputs : List Str)
    (o : Option Conference)
    → ((outcome sec r confn flags inputs o).1 ≡ true)
      ↔ ((mc : Conference) × (o ≡ some mc) × (may_enter sec r confn flags inputs mc ≡ true))
unfolding outcome
outcome-true sec r confn flags inputs none =
    (λ h. absurd (ground arith), λ (mc, e, h). absurd (ground arith))
outcome-true sec r confn flags inputs (some mc) = (
  λ h. (mc, refl, ground arith),
  λ (mc', e, h).
      let same : mc' ≡ mc = cc in
      let ok = subst (λ m. may_enter sec r confn flags inputs m ≡ true) same h in
      ground (arith, ok),
)

-- Whether joining succeeds, by what is looked at.
pub joinconf-allowed :
    (sec : Security) (mcs : List Conference) (r : Reader) (confn : ℕ) (flags : JoinFlags)
    (inputs : List Str)
    → ((joinconf sec mcs r (some confn) flags inputs).1 ≡ true) ↔ (
        (mc : Conference) × (findconf mcs confn ≡ some mc)
        × (may_enter sec r confn flags inputs mc ≡ true))
unfolding joinconf
joinconf-allowed sec mcs r confn flags inputs =
    rw (join_found-outcome sec mcs r confn flags inputs)
      (outcome-true sec r confn flags inputs (findconf mcs confn))

-- The user record that a refused call leaves: refreshed, if there is a conference of the number.
abbrev pub refused_user : Security → List Conference → Account → ℕ → Account
refused_user sec mcs user confn = elim (findconf mcs confn) [
  | none ↦ user
  | some mc ↦ (checkconfaccess sec confn user).0
]

outcome-false :
    (sec : Security) (r : Reader) (confn : ℕ) (flags : JoinFlags) (inputs : List Str)
    (o : Option Conference)
    → (outcome sec r confn flags inputs o).1 ≡ false
    → (outcome sec r confn flags inputs o).0 ≡ record r {
      user = elim o [ none ↦ r.user | some mc ↦ (checkconfaccess sec confn r.user).0 ];
    }
unfolding outcome
outcome-false sec r confn flags inputs none h = refl
outcome-false sec r confn flags inputs (some mc) h =
    elim (Bool-cases (may_enter sec r confn flags inputs mc)) [
      | inl may ↦ absurd (ground arith)
      | inr refused ↦ simp refused refl
    ]

-- A number that is not joined, for want of a conference, of access or of the password, leaves everything as it
-- was, the current conference brought back behind the password prompt, but the user record, which the check
-- of access refreshes if there is a conference of the number.
pub joinconf-refused :
    (sec : Security) (mcs : List Conference) (r : Reader) (confn : ℕ) (flags : JoinFlags)
    (inputs : List Str)
    → (joinconf sec mcs r (some confn) flags inputs).1 ≡ false
    → (joinconf sec mcs r (some confn) flags inputs).0
      ≡ record r { user = refused_user sec mcs r.user confn }
unfolding joinconf
joinconf-refused sec mcs r confn flags inputs h =
    let same = join_found-outcome sec mcs r confn flags inputs in
    rw same
      (outcome-false sec r confn flags inputs (findconf mcs confn) (sym (ap (λ p. p.1) same) ∙ h))

-- What joining a conference leaves alone.
abbrev Keeps : Reader → Reader → Type 0
Keeps r r' = (r'.conference ≡ r.conference) × (r'.user_joinconference ≡ r.user_joinconference)

save_lrp-Keeps : (r r' : Reader) (o : Option BaseKey) → save_lrp r o ≡ some r' → Keeps r r'
unfolding save_lrp
save_lrp-Keeps r r' none e = ground arith
save_lrp-Keeps r r' (some key) e = ground arith

after_save-Keeps :
    (cb : MsgBase) (r : Reader) (o : Option Reader)
    → ((r' : Reader) → o ≡ some r' → Keeps r r')
    → Keeps r (after_save cb r o).0
unfolding after_save
after_save-Keeps cb r none h = (refl, refl)
after_save-Keeps cb r (some r') h = h r' refl

enter_base-Keeps : (r : Reader) (cb : MsgBase) → Keeps r (enter_base r cb).0
unfolding enter_base getmsgptrs
enter_base-Keeps r cb =
    let r' = getmsgptrs (record r { current_msgbase = some cb }) cb in
    after_save-Keeps cb r' (save_lrp r' r'.lrp_open) (λ q. save_lrp-Keeps r' q r'.lrp_open)

enter_found-Keeps : (r : Reader) (o : Option MsgBase) → Keeps r (enter_found r o).0
unfolding enter_found
enter_found-Keeps r none = (refl, refl)
enter_found-Keeps r (some cb) = enter_base-Keeps r cb

enter_number-Keeps : (r : Reader) (o : Option (Option ℕ)) → Keeps r (enter_number r o).0
unfolding enter_number
enter_number-Keeps r none = (refl, refl)
enter_number-Keeps r (some none) = (refl, refl)
enter_number-Keeps r (some (some n)) = enter_found-Keeps r (find_msgbase r.conference.msgbases n)

if-Keeps :
    (r : Reader) (b : Bool) (p q : Reader × Bool)
    → Keeps r p.0
    → Keeps r q.0
    → Keeps r (if b then p else q).0
if-Keeps r true p q h k = h
if-Keeps r false p q h k = k

pub changemsgbase-Keeps :
    (r : Reader) (newb : Option ℕ) (quick : Bool) (inputs : List Str)
    → Keeps r (changemsgbase r newb quick inputs).0
unfolding changemsgbase
changemsgbase-Keeps r none quick inputs =
    if-Keeps r (length r.conference.msgbases == 0) (record r { current_msgbase = none }, false)
      (r, false) (refl, refl) (refl, refl)
changemsgbase-Keeps r (some newb) quick inputs =
    let count = length r.conference.msgbases in
    let basen = if ltb count newb then 0 else newb in
    let chosen = if basen == 0 then ask_base inputs else some (some basen) in
    if-Keeps r (count == 0) (record r { current_msgbase = none }, false)
      (if basen == 0 && (quick || count == 1) then (r, false) else enter_number r chosen)
      (refl, refl)
      (if-Keeps r (basen == 0 && (quick || count == 1)) (r, false) (enter_number r chosen)
        (refl, refl) (enter_number-Keeps r chosen))

enter_first-Keeps : (r : Reader) (o : Option MsgBase) → Keeps r (enter_first r o)
unfolding enter_first
enter_first-Keeps r none = (refl, refl)
enter_first-Keeps r (some cb) = changemsgbase-Keeps r (some cb.msgbase_number) true []

enter_conference-joined :
    (r : Reader) (mc : Conference) (flags : JoinFlags)
    → ((enter_conference r mc flags).conference ≡ mc)
      × ((enter_conference r mc flags).user_joinconference
          ≡ (if flags.jc_noupdate then r.user_joinconference else mc.conf.conf_number % 2 ^ 8))
unfolding enter_conference
enter_conference-joined r mc flags =
    let r' = record r {
      user_joinconference =
          if flags.jc_noupdate then r.user_joinconference else mc.conf.conf_number % 2 ^ 8;
      conference = mc;
      current_msgbase = first_base mc.msgbases;
    } in
    enter_first-Keeps r' (first_base mc.msgbases)

outcome-joined :
    (sec : Security) (r : Reader) (confn : ℕ) (flags : JoinFlags) (inputs : List Str)
    (o : Option Conference)
    → (outcome sec r confn flags inputs o).1 ≡ true
    → let r' = (outcome sec r confn flags inputs o).0 in
      (o ≡ some r'.conference)
      × (r'.user_joinconference ≡ (
          if flags.jc_noupdate
          then r.user_joinconference
          else r'.conference.conf.conf_number % 2 ^ 8))
unfolding outcome
outcome-joined sec r confn flags inputs none h = absurd (ground arith)
outcome-joined sec r confn flags inputs (some mc) h =
    elim (Bool-cases (may_enter sec r confn flags inputs mc)) [
      | inl e ↦
          let kept =
            enter_conference-joined (record r { user = (checkconfaccess sec confn r.user).0 }) mc
              flags in
          rw (e, kept.0) (refl, kept.1)
      | inr e ↦ absurd (ground arith)
    ]

-- A conference that was joined by its number is the current one, the first of the list with the
-- number, and the user record holds its number in a byte for the next call, unless JC_NOUPDATE says not to.
pub joinconf-joined :
    (sec : Security) (mcs : List Conference) (r : Reader) (confn : ℕ) (flags : JoinFlags)
    (inputs : List Str)
    → (joinconf sec mcs r (some confn) flags inputs).1 ≡ true
    → let r' = (joinconf sec mcs r (some confn) flags inputs).0 in
      (findconf mcs confn ≡ some r'.conference)
      × (r'.user_joinconference ≡ (
          if flags.jc_noupdate
          then r.user_joinconference
          else r'.conference.conf.conf_number % 2 ^ 8))
unfolding joinconf
joinconf-joined sec mcs r confn flags inputs h =
    let same = join_found-outcome sec mcs r confn flags inputs in
    rw same
      (outcome-joined sec r confn flags inputs (findconf mcs confn) (sym (ap (λ p. p.1) same) ∙ h))
