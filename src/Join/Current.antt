-- ===== src/Join/Current.antt =====
-- The base that a change of the base leads to.
use daydream.Base.{
  ℕ, ◌≡◌, ◌≢◌, ◌≤◌, refl, sym, ap, ◌∙◌, Bool, true, false, ◌||◌, ◌&&◌, List, [], ◌∷◌, Option, none,
  some, arith, ltb, ◌==◌, length, inl, inr, Bool-cases,
}
use daydream.Conference.{MsgBase}
use daydream.Join.{
  Reader, BaseKey, save_lrp, write_lrp, getmsgptrs, load_lrp, after_save, enter_base, enter_found,
  enter_number, find_msgbase, changemsgbase,
}

-- Every pointer file can be written.
abbrev pub AllWritable : Reader → Type 0
AllWritable r = (k : BaseKey) → r.files.can_write k ≡ true

abbrev Same : Reader → Reader → Type 0
Same r r' = (r'.current_msgbase ≡ r.current_msgbase) × (r'.files.can_write ≡ r.files.can_write)

save_lrp-Same : (r r' : Reader) (o : Option BaseKey) → save_lrp r o ≡ some r' → Same r r'
unfolding save_lrp write_lrp
save_lrp-Same r r' none e = ground arith
save_lrp-Same r r' (some key) e = ground arith

save_lrp-saves :
    (r : Reader) (o : Option BaseKey) → AllWritable r → (r' : Reader) × (save_lrp r o ≡ some r')
unfolding save_lrp
save_lrp-saves r none w = (r, refl)
save_lrp-saves r (some key) w = elim (Bool-cases (r.oldlrp == r.lrp && (r.oldlsp == r.lsp))) [
  | inl same ↦ (r, simp same refl)
  | inr changed ↦ (
    record r { files = write_lrp r.files key r.user.user_account_id r.lrp r.lsp },
    simp (changed, w key) refl,
  )
]

after_save-Same :
    (cb : MsgBase) (r : Reader) (o : Option Reader)
    → ((r' : Reader) → o ≡ some r' → Same r r')
    → Same r (after_save cb r o).0
unfolding after_save load_lrp getmsgptrs
after_save-Same cb r none h = (refl, refl)
after_save-Same cb r (some r') h = h r' refl

enter_base-current :
    (r : Reader) (cb : MsgBase)
    → ((enter_base r cb).0.current_msgbase ≡ some cb)
      × ((enter_base r cb).0.files.can_write ≡ r.files.can_write)
unfolding enter_base getmsgptrs
enter_base-current r cb =
    let r' = getmsgptrs (record r { current_msgbase = some cb }) cb in
    after_save-Same cb r' (save_lrp r' r'.lrp_open) (λ q. save_lrp-Same r' q r'.lrp_open)

enter_base-enters : (r : Reader) (cb : MsgBase) → AllWritable r → (enter_base r cb).1 ≡ true
unfolding enter_base getmsgptrs after_save
enter_base-enters r cb w =
    let r' = getmsgptrs (record r { current_msgbase = some cb }) cb in
    let (q, e) = save_lrp-saves r' r'.lrp_open w in ap (λ o. (after_save cb r' o).1) e

find_msgbase-number :
    (bases : List MsgBase) (n : ℕ) (cb : MsgBase)
    → find_msgbase bases n ≡ some cb
    → cb.msgbase_number ≡ n
unfolding find_msgbase
find_msgbase-number [] n cb e = cc e
find_msgbase-number (b ∷ bs) n cb e = ground (arith, find_msgbase-number bs n cb)

-- A change that succeeds has found the base.
enter_found-changed :
    (r : Reader) (o : Option MsgBase)
    → (enter_found r o).1 ≡ true
    → (cb : MsgBase) × (o ≡ some cb) × ((enter_found r o).0.current_msgbase ≡ some cb)
unfolding enter_found
enter_found-changed r none h = absurd (ground arith)
enter_found-changed r (some cb) h = (cb, refl, (enter_base-current r cb).0)

enter_found-can_write :
    (r : Reader) (o : Option MsgBase) → (enter_found r o).0.files.can_write ≡ r.files.can_write
unfolding enter_found
enter_found-can_write r none = refl
enter_found-can_write r (some cb) = (enter_base-current r cb).1

-- The quick change to a number, by its guards.
is_quick_refused : Reader → ℕ → Bool
is_quick_refused r n =
    let count = length r.conference.msgbases in count == 0 || ltb count n || n == 0

quick_change :
    (r : Reader) (n : ℕ)
    → is_quick_refused r n ≡ false
    → changemsgbase r (some n) true [] ≡ enter_found r (find_msgbase r.conference.msgbases n)
unfolding is_quick_refused changemsgbase enter_number
quick_change r n h =
    let some_base : (length r.conference.msgbases == 0) ≡ false = ground arith in
    let within : ltb (length r.conference.msgbases) n ≡ false = ground arith in
    let number : (n == 0) ≡ false = ground arith in simp (some_base, within, number) refl

quick_refused :
    (r : Reader) (n : ℕ)
    → is_quick_refused r n ≡ true
    → ((changemsgbase r (some n) true []).1 ≡ false)
      × ((changemsgbase r (some n) true []).0.files ≡ r.files)
unfolding is_quick_refused changemsgbase
quick_refused r n h = elim (Bool-cases (length r.conference.msgbases == 0)) [
  | inl no_base ↦ simp no_base (refl, refl)
  | inr some_base ↦ elim (Bool-cases (ltb (length r.conference.msgbases) n)) [
    | inl above ↦ simp (some_base, above) (refl, refl)
    | inr within ↦
        let zero_number : (n == 0) ≡ true = ground arith in
        simp (some_base, within, zero_number) (refl, refl)
  ]
]

-- A quick change of the base that succeeds leads to the base of that number.
pub changemsgbase-changed :
    (r : Reader) (n : ℕ)
    → (changemsgbase r (some n) true []).1 ≡ true
    → (cb : MsgBase) × (find_msgbase r.conference.msgbases n ≡ some cb)
      × ((changemsgbase r (some n) true []).0.current_msgbase ≡ some cb)
      × (cb.msgbase_number ≡ n)
changemsgbase-changed r n h = elim (Bool-cases (is_quick_refused r n)) [
  | inl refused ↦ absurd (ground (arith, (quick_refused r n refused).0, h))
  | inr granted ↦
      let same = quick_change r n granted in
      let o = find_msgbase r.conference.msgbases n in
      let (cb, e, current) = enter_found-changed r o (sym (ap (λ p. p.1) same) ∙ h) in
      (
        cb,
        e,
        ap (λ p. p.0.current_msgbase) same ∙ current,
        find_msgbase-number r.conference.msgbases n cb e,
      )
]

pub changemsgbase-can_write :
    (r : Reader) (n : ℕ) → (changemsgbase r (some n) true []).0.files.can_write ≡ r.files.can_write
changemsgbase-can_write r n = elim (Bool-cases (is_quick_refused r n)) [
  | inl refused ↦ ap (λ f. f.can_write) (quick_refused r n refused).1
  | inr granted ↦
      ap (λ p. p.0.files.can_write) (quick_change r n granted)
      ∙ enter_found-can_write r (find_msgbase r.conference.msgbases n)
]

-- A base that there is is entered, if the pointer files can be written.
pub changemsgbase-enters :
    (r : Reader) (n : ℕ) (cb : MsgBase)
    → AllWritable r
    → n ≢ 0
    → n ≤ length r.conference.msgbases
    → find_msgbase r.conference.msgbases n ≡ some cb
    → (changemsgbase r (some n) true []).1 ≡ true
unfolding is_quick_refused
changemsgbase-enters r n cb w ne le e =
    let granted : is_quick_refused r n ≡ false = ground arith in
    ap (λ p. p.1) (quick_change r n granted)
    ∙ ap (λ o. (enter_found r o).1) e
    ∙ (unfold enter_found in enter_base-enters r cb w)

-- The current base is the one found, even where the pointers of the base before cannot be saved.
pub changemsgbase-current :
    (r : Reader) (n : ℕ) (cb : MsgBase)
    → n ≢ 0
    → n ≤ length r.conference.msgbases
    → find_msgbase r.conference.msgbases n ≡ some cb
    → (changemsgbase r (some n) true []).0.current_msgbase ≡ some cb
unfolding is_quick_refused
changemsgbase-current r n cb ne le e =
    let granted : is_quick_refused r n ≡ false = ground arith in
    ap (λ p. p.0.current_msgbase) (quick_change r n granted)
    ∙ ap (λ o. (enter_found r o).0.current_msgbase) e
    ∙ (unfold enter_found in (enter_base-current r cb).0)
