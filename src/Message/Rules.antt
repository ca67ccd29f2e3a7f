-- ===== src/Message/Rules.antt =====
-- What the rules of a base and the access bits of the user allow.
use daydream.Base.{
  ℕ, ◌≡◌, ◌≢◌, refl, sym, ap, ◌∙◌, true, false, not, ◌&&◌, ◌||◌, List, [], ◌∷◌, Option, none, some,
  arith, ◌==◌, if◌then◌else◌, inl, inr, Bool-cases,
}
use mathlib.Core.Path.{subst}
use daydream.Base.CString.{Str}
use daydream.Access.{has_bit}
use daydream.Message.{
  Header, Poster, set_bit, is_private, has_type, area_bit, may_enter, start_header, copied,
  ask_receiver, is_broadcast, private_answer, ask_private, ask_dest, with_dest, with_attach,
  attached, ask_rest, ask_subject, addressed, ask_header,
}
use daydream.Message.Netmail.{Address, str2addr}

-- Files are attached where the base has them and the user may.
abbrev pub Attaches : Poster → Header → Type 0
Attaches p h =
    h.msg_attach ≡ true
    → (area_bit p 5 && (if is_private h then has_bit p.access2 4 else has_bit p.access2 5)) ≡ true

-- A new message that the editor may be started for.
pub record Allowed (p : Poster) (h : Header) : Type 0 where
  pub public_bit : is_private h ≡ false → has_bit p.access1 22 ≡ true
  pub private_base : area_bit p 0 ≡ true → is_private h ≡ true
  pub public_base : area_bit p 1 ≡ true → is_private h ≡ false
  pub echo_bit : has_type p b'E' ≡ true → has_bit p.access1 21 ≡ true
  pub net_bit : has_type p b'N' ≡ true → has_bit p.access2 2 ≡ true
  pub subject : h.msg_subject ≢ []
  pub attach_bit : Attaches p h

has_bit-set_bit : (flags : ℕ) → has_bit (set_bit flags 0) 0 ≡ true
unfolding set_bit has_bit
has_bit-set_bit flags = ground arith

has_bit-zero : has_bit 0 0 ≡ false
unfolding has_bit
has_bit-zero = refl

-- The header before the questions.
start_header-private : (p : Poster) → is_private (start_header p none) ≡ area_bit p 0
unfolding start_header copied is_private
start_header-private p = elim (Bool-cases (area_bit p 0)) [
  | inl e ↦ simp (e, has_bit-set_bit 0) refl
  | inr e ↦ simp (e, has_bit-zero) refl
]

-- A question changes no more than the flags.
abbrev Same : Header → Header → Type 0
Same h h' = (is_private h' ≡ is_private h) × (h'.msg_subject ≡ h.msg_subject)

some_eq : {h h' : Header} → some h ≡ some h' → h' ≡ h
some_eq e = cc e

private_answer-subject :
    (h h' : Header) (keys : List ℕ)
    → private_answer h keys ≡ some h'
    → h'.msg_subject ≡ h.msg_subject
unfolding private_answer
private_answer-subject h h' [] e = cc e
private_answer-subject h h' (k ∷ keys) e = elim (Bool-cases (k == 0)) [
  | inl lost ↦ let gone : none ≡ some h' = simp lost at e in cc gone
  | inr answered ↦ elim (Bool-cases (k == 1)) [
    | inl private ↦
        let kept : some (record h { msg_flags = set_bit h.msg_flags 0 }) ≡ some h' =
          simp (answered, private) at e in
        ap (λ g. g.msg_subject) (some_eq kept)
    | inr public ↦
        let kept : some h ≡ some h' = simp (answered, public) at e in
        ap (λ g. g.msg_subject) (some_eq kept)
  ]
]

ask_private-subject :
    (p : Poster) (h h' : Header) (keys : List ℕ)
    → ask_private p h keys ≡ some h'
    → h'.msg_subject ≡ h.msg_subject
unfolding ask_private
ask_private-subject p h h' keys e =
    elim (Bool-cases (is_broadcast h.msg_receiver || is_private h || area_bit p 1)) [
      | inl skipped ↦ ap (λ g. g.msg_subject) (some_eq (simp skipped at e))
      | inr asked ↦ private_answer-subject h h' keys (simp asked at e)
    ]

-- Nobody is asked about a private message, nor in a base for public messages.
ask_private-fixed :
    (p : Poster) (h h' : Header) (keys : List ℕ)
    → (is_private h || area_bit p 1) ≡ true
    → ask_private p h keys ≡ some h'
    → is_private h' ≡ is_private h
unfolding ask_private
ask_private-fixed p h h' keys fixed e =
    let skipped : (is_broadcast h.msg_receiver || is_private h || area_bit p 1) ≡ true =
      ground arith in
    ap is_private (some_eq (simp skipped at e))

with_dest-Same : (h h' : Header) (a : Option Address) → with_dest h a ≡ some h' → Same h h'
unfolding with_dest is_private
with_dest-Same h h' none e = cc e
with_dest-Same h h' (some a) e =
    let kept : h' ≡ record h { msg_dest = a } = some_eq e in
    (ap is_private kept, ap (λ g. g.msg_subject) kept)

ask_dest-Same : (p : Poster) (h h' : Header) (ts : List Str) → ask_dest p h ts ≡ some h' → Same h h'
unfolding ask_dest is_private
ask_dest-Same p h h' [] e = elim (Bool-cases (has_type p b'N')) [
  | inl net ↦ let gone : none ≡ some h' = simp net at e in cc gone
  | inr other ↦
      let kept : h' ≡ h = some_eq (simp other at e) in
      (ap is_private kept, ap (λ g. g.msg_subject) kept)
]
ask_dest-Same p h h' (t ∷ ts) e = elim (Bool-cases (has_type p b'N')) [
  | inl net ↦ with_dest-Same h h' (str2addr t) (simp net at e)
  | inr other ↦
      let kept : h' ≡ h = some_eq (simp other at e) in
      (ap is_private kept, ap (λ g. g.msg_subject) kept)
]

attached-rules :
    (p : Poster) (h h' : Header) (o : Option Header)
    → ((g : Header) → o ≡ some g → Same h g)
    → attached p o ≡ some h'
    → Same h h' × Attaches p h'
unfolding attached with_attach is_private
attached-rules p h h' none law e = cc e
attached-rules p h h' (some g) law e =
    let kept : h' ≡ with_attach p g = some_eq e in
    let (private, subject) = law g refl in
    (
      (ap is_private kept ∙ private, ap (λ g. g.msg_subject) kept ∙ subject),
      subst (Attaches p) (sym kept) (λ yes. yes),
    )

ask_rest-rules :
    (p : Poster) (ts : List Str) (h h' : Header)
    → ask_rest p ts (some h) ≡ some h'
    → Same h h' × Attaches p h' × (is_private h ≡ false → has_bit p.access1 22 ≡ true)
unfolding ask_rest
ask_rest-rules p ts h h' e = elim (Bool-cases (not (is_private h) && not (has_bit p.access1 22))) [
  | inl refused ↦ let gone : none ≡ some h' = simp refused at e in cc gone
  | inr granted ↦
      let (same, attaches) =
        attached-rules p h h' (ask_dest p h ts) (λ g. ask_dest-Same p h g ts) (simp granted at e) in
      (same, attaches, λ public. ground arith)
]

-- From the receiver on.
abbrev Kept : Poster → Header → Header → Type 0
Kept p h h' =
    Attaches p h'
    × (h'.msg_subject ≢ [])
    × (is_private h' ≡ false → has_bit p.access1 22 ≡ true)
    × ((is_private h || area_bit p 1) ≡ true → is_private h' ≡ is_private h)

rest-Kept :
    (p : Poster) (h h' : Header) (c : ℕ) (t : Str) (ts : List Str) (keys : List ℕ)
    (o : Option Header)
    → ask_private p (record h { msg_subject = c ∷ t }) keys ≡ o
    → ask_rest p ts o ≡ some h'
    → Kept p h h'
unfolding is_private ask_rest
rest-Kept p h h' c t ts keys none asked e = cc e
rest-Kept p h h' c t ts keys (some g) asked e =
    let (same, attaches, public) = ask_rest-rules p ts g h' e in
    (
      attaches,
      λ gone.
          let subject : g.msg_subject ≡ c ∷ t =
            ask_private-subject p (record h { msg_subject = c ∷ t }) g keys asked in
          cc (gone, same.1, subject),
      λ open_to_all. public (sym same.0 ∙ open_to_all),
      λ fixed. same.0 ∙ ask_private-fixed p (record h { msg_subject = c ∷ t }) g keys fixed asked,
    )

ask_subject-Kept :
    (p : Poster) (h h' : Header) (ts : List Str) (keys : List ℕ)
    → ask_subject p h ts keys ≡ some h'
    → Kept p h h'
unfolding ask_subject
ask_subject-Kept p h h' [] keys e = cc e
ask_subject-Kept p h h' ([] ∷ ts) keys e = cc e
ask_subject-Kept p h h' ((c ∷ t) ∷ ts) keys e =
    rest-Kept p h h' c t ts keys (ask_private p (record h { msg_subject = c ∷ t }) keys) refl e

addressed-Kept :
    (p : Poster) (h h' : Header) (keys : List ℕ) (o : Option (Str × List Str))
    → addressed p h keys o ≡ some h'
    → Kept p h h'
unfolding addressed is_private
addressed-Kept p h h' keys none e = cc e
addressed-Kept p h h' keys (some (receiver, ts)) e =
    ask_subject-Kept p (record h { msg_receiver = receiver }) h' ts keys e

may_enter-rules :
    (p : Poster)
    → may_enter p ≡ true
    → (has_type p b'E' ≡ true → has_bit p.access1 21 ≡ true)
      × (has_type p b'N' ≡ true → has_bit p.access2 2 ≡ true)
      × (area_bit p 1 ≡ true → area_bit p 0 ≡ false)
unfolding may_enter
may_enter-rules p may = (λ echo. ground arith, λ net. ground arith, λ public. ground arith)

entered-Allowed :
    (p : Poster) (keys : List ℕ) (h : Header) (o : Option (Str × List Str))
    → may_enter p ≡ true
    → addressed p (start_header p none) keys o ≡ some h
    → Allowed p h
entered-Allowed p keys h o may e =
    let (echo, net, public_only) = may_enter-rules p may in
    let (attaches, subject, public, fixed) = addressed-Kept p (start_header p none) h keys o e in
    let first = start_header-private p in
    record {
      public_bit = public;
      private_base = λ private. fixed (ground (arith, first)) ∙ first ∙ private;
      public_base = λ open_to_all. fixed (ground (arith, first)) ∙ first ∙ public_only open_to_all;
      echo_bit = echo;
      net_bit = net;
      subject = subject;
      attach_bit = attaches;
    }

-- A new message for which the editor is started keeps the rules: a public one needs the right to post, it is
-- private in a base for private messages and public in one for public messages, echo and netmail bases need
-- their rights, the subject is not empty, and files are attached only with the right to, by its kind.
pub ask_header-Allowed :
    (p : Poster) (ts : List Str) (keys : List ℕ) (h : Header)
    → ask_header p none ts keys ≡ some h
    → Allowed p h
unfolding ask_header
ask_header-Allowed p ts keys h e = elim (Bool-cases (may_enter p)) [
  | inl may ↦ entered-Allowed p keys h (ask_receiver p ts) may (simp may at e)
  | inr refused ↦ let gone : none ≡ some h = simp refused at e in cc gone
]
