-- ===== src/Join/Allowed.antt =====
-- Who may join a conference.
use daydream.Base.{
  ℕ, ◌≤◌, ◌≡◌, ◌≢◌, ◌↔◌, ◌⊎◌, refl, sym, ap, ◌∙◌, true, false, ◌&&◌, ◌||◌, List, [], ◌∷◌, ◌++◌,
  Option, none, some, some-injective, arith, inl, inr, Bool-cases, All, map, ◌==◌, if◌then◌else◌,
  &&-left, &&-right,
}
use mathlib.Core.Path.{subst}
use daydream.Base.CString.{Str, tolower, strcase_eq, strcase_eq→eq, str_eq_refl}
use daydream.Access.{Security}
use daydream.Access.Refresh.{MayEnter, checkconfaccess_iff}
use daydream.Conference.{Conference, findconf}
use daydream.Join.{Reader, JoinFlags, password_ok, joinconf}
use daydream.Join.Entry.{joinconf-allowed}

-- The first conference of a number in the list.
abbrev pub IsFirst : List Conference → ℕ → Conference → Type 0
IsFirst mcs confn mc =
    (before : List Conference) × (after : List Conference) × (mcs ≡ before ++ mc ∷ after)
    × All (λ c. c.conf.conf_number ≢ confn) before
    × (mc.conf.conf_number ≡ confn)

-- There is no password, a flag skips it, or the first line that is typed is the password up to case.
abbrev pub HasPassword : Str → JoinFlags → List Str → Type 0
HasPassword passwd flags inputs =
    (passwd ≡ [])
    ⊎ ((flags.jc_shutup ≡ true)
        ⊎ ((flags.jc_quick ≡ true)
            ⊎ ((line : Str) × (rest : List Str) × (inputs ≡ line ∷ rest)
                × (map tolower line ≡ map tolower passwd))))

findconf→IsFirst :
    (mcs : List Conference) (confn : ℕ) (mc : Conference)
    → findconf mcs confn ≡ some mc
    → IsFirst mcs confn mc
unfolding findconf
findconf→IsFirst [] confn mc e = cc e
findconf→IsFirst (c ∷ mcs) confn mc e = elim (Bool-cases (c.conf.conf_number == confn)) [
  | inl here ↦
      let same : c ≡ mc = some-injective (simp here at e) in
      let number : c.conf.conf_number ≡ confn = ground arith in
      ([], mcs, ap (λ x. x ∷ mcs) same, tt, ap (λ x. x.conf.conf_number) (sym same) ∙ number)
  | inr other ↦
      let (before, after, split, passed, number) =
        findconf→IsFirst mcs confn mc (simp other at e) in
      (
        c ∷ before,
        after,
        ap (λ xs. c ∷ xs) split,
        ((λ same. absurd (ground (arith, same))), passed),
        number,
      )
]

IsFirst→findconf :
    (before after : List Conference) (confn : ℕ) (mc : Conference)
    → All (λ c. c.conf.conf_number ≢ confn) before
    → mc.conf.conf_number ≡ confn
    → findconf (before ++ mc ∷ after) confn ≡ some mc
unfolding findconf
IsFirst→findconf [] after confn mc passed number =
    let here : (mc.conf.conf_number == confn) ≡ true = ground arith in simp here refl
IsFirst→findconf (c ∷ before) after confn mc passed number =
    let other : (c.conf.conf_number == confn) ≡ false = ground (arith, passed.0) in
    simp other (IsFirst→findconf before after confn mc passed.1 number)

same_case : (a b : Str) → map tolower a ≡ map tolower b → strcase_eq a b ≡ true
unfolding strcase_eq
same_case a b e =
    subst (λ s. daydream.Base.CString.str_eq (map tolower a) s ≡ true) e
      (str_eq_refl (map tolower a))

typed_password :
    (flags : JoinFlags) (c : ℕ) (passwd : Str) (inputs : List Str)
    → (elim inputs [ [] ↦ false | line ∷ rest ↦ strcase_eq line (c ∷ passwd) ]) ≡ true
    → HasPassword (c ∷ passwd) flags inputs
typed_password flags c passwd [] h = absurd (ground arith)
typed_password flags c passwd (line ∷ rest) h =
    inr (inr (inr (line, rest, refl, strcase_eq→eq line (c ∷ passwd) h)))

password_ok→HasPassword :
    (passwd : Str) (flags : JoinFlags) (inputs : List Str)
    → password_ok passwd flags inputs ≡ true
    → HasPassword passwd flags inputs
unfolding password_ok
password_ok→HasPassword [] flags inputs h = inl refl
password_ok→HasPassword (c ∷ passwd) flags inputs h = elim (Bool-cases flags.jc_shutup) [
  | inl shutup ↦ inr (inl shutup)
  | inr loud ↦ elim (Bool-cases flags.jc_quick) [
    | inl quick ↦ inr (inr (inl quick))
    | inr slow ↦ typed_password flags c passwd inputs (simp (loud, slow) at h)
  ]
]

HasPassword→password_ok :
    (passwd : Str) (flags : JoinFlags) (inputs : List Str)
    → HasPassword passwd flags inputs
    → password_ok passwd flags inputs ≡ true
unfolding password_ok
HasPassword→password_ok [] flags inputs h = refl
HasPassword→password_ok (c ∷ passwd) flags inputs (inl e) = cc e
HasPassword→password_ok (c ∷ passwd) flags inputs (inr (inl shutup)) = simp shutup refl
HasPassword→password_ok (c ∷ passwd) flags inputs (inr (inr (inl quick))) = ground (arith, quick)
HasPassword→password_ok (c ∷ passwd) flags inputs (inr (inr (inr (line, rest, typed, same)))) =
    let right = same_case line (c ∷ passwd) same in rw typed (ground (arith, right))

-- `joinconf` with a number from 1 to 64 succeeds exactly if there is a conference of the number, the record that
-- applies to the user opens it, and the first one in the list with the number has no password, or a flag
-- skips it, or the line that is typed is the password up to case.
pub joinconf_iff :
    (sec : Security) (mcs : List Conference) (r : Reader) (confn : ℕ) (flags : JoinFlags)
    (inputs : List Str)
    → 1 ≤ confn
    → confn ≤ 64
    → ((joinconf sec mcs r (some confn) flags inputs).1 ≡ true) ↔ (
        (mc : Conference) × IsFirst mcs confn mc
        × MayEnter sec r.user confn
        × HasPassword mc.conf.conf_passwd flags inputs)
joinconf_iff sec mcs r confn flags inputs low high =
    let allowed = joinconf-allowed sec mcs r confn flags inputs in
    let access = checkconfaccess_iff sec confn r.user low high in
    (
      λ h.
          let (mc, found, may) = allowed.0 h in
          (
            mc,
            findconf→IsFirst mcs confn mc found,
            access.0 (&&-left _ _ may),
            password_ok→HasPassword mc.conf.conf_passwd flags inputs (&&-right _ _ may),
          ),
      λ (mc, first, may, password).
          let (before, after, split, passed, number) = first in
          let granted = access.1 may in
          let right = HasPassword→password_ok mc.conf.conf_passwd flags inputs password in
          allowed.1 (
            mc,
            ap (λ cs. findconf cs confn) split
                ∙ IsFirst→findconf before after confn mc passed number,
            rw (granted, right) refl,
          ),
    )
