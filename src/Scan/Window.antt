-- ===== src/Scan/Window.antt =====
-- The part of the file that the scan reads.
use daydream.Base.{
  ℕ, zero, suc, ◌+◌, ◌-◌, ◌≤◌, ◌≡◌, refl, sym, ap, ◌∙◌, Bool, false, List, [], ◌∷◌, Option, some,
  arith, ltb, leb, drop, length, get_elem?, All, ◌&&◌, filter, map, inl, inr, Bool-cases,
}
use mathlib.Core.Path.{subst}
use daydream.Base.CString.{Str}
use daydream.Message.{Header, is_private}
use daydream.Message.Save.{Mail}
use daydream.Message.Numbered.{Ascending, IsNumbered, head-room}
use daydream.Scan.{
  MsgScanDat, Names, scan_loop, scan_start, scan_base, scan_entry, later, for_user, has_text,
  with_found,
}

scan_loop-old :
    (u : Names) (texts : ℕ → Option Str) (lsp seekp : ℕ) (msg : Header) (msgs : List Header)
    → msg.msg_number ≤ lsp
    → scan_loop u texts lsp seekp (msg ∷ msgs) ≡ scan_loop u texts lsp (suc seekp) msgs
unfolding scan_loop
scan_loop-old u texts lsp seekp msg msgs h =
    let old : ltb lsp msg.msg_number ≡ false = ground arith in simp old refl

-- The records before the last ones are all old.
scan_loop-drop :
    (u : Names) (texts : ℕ → Option Str) (low high lsp seekp n : ℕ) (msgs : List Header)
    → Ascending low msgs
    → All (λ h. h.msg_number ≤ high) msgs
    → n + (high - lsp) ≤ length msgs
    → scan_loop u texts lsp seekp msgs ≡ scan_loop u texts lsp (n + seekp) (drop n msgs)
scan_loop-drop u texts low high lsp seekp zero msgs up bound room =
    ap (λ k. scan_loop u texts lsp k msgs) (omega arith)
scan_loop-drop u texts low high lsp seekp (suc n) [] up bound room = absurd (omega arith)
scan_loop-drop u texts low high lsp seekp (suc n) (msg ∷ msgs) up bound room =
    scan_loop-old u texts lsp seekp msg msgs (omega (arith, head-room low high msg msgs up bound))
    ∙ scan_loop-drop u texts msg.msg_number high lsp (suc seekp) n msgs up.1 bound.1 (omega arith)
    ∙ ap (λ k. scan_loop u texts lsp k (drop n msgs)) (omega arith)

-- A new message for the user, with its text.
abbrev pub is_new : Names → (ℕ → Option Str) → ℕ → Header → Bool
is_new u texts lsp msg =
    ltb lsp msg.msg_number && (for_user u msg.msg_receiver && has_text (texts msg.msg_number))

scan_loop-filter :
    (u : Names) (texts : ℕ → Option Str) (lsp seekp : ℕ) (msgs : List Header)
    → map (λ d. d.ms_number) (scan_loop u texts lsp seekp msgs).1
      ≡ map (λ h. h.msg_number) (filter (is_new u texts lsp) msgs)
unfolding scan_loop scan_entry
scan_loop-filter u texts lsp seekp [] = refl
scan_loop-filter u texts lsp seekp (msg ∷ msgs) =
    let rest = scan_loop-filter u texts lsp (suc seekp) msgs in
    elim (Bool-cases (ltb lsp msg.msg_number)) [
      | inl new ↦ elim (Bool-cases (for_user u msg.msg_receiver)) [
        | inl mine ↦ elim (Bool-cases (has_text (texts msg.msg_number))) [
          | inl there ↦ simp (new, mine, there) (ap (◌∷◌ msg.msg_number) rest)
          | inr gone ↦ simp (new, mine, gone) rest
        ]
        | inr other ↦ elim (Bool-cases (is_private msg)) [
          | inl private ↦ simp (new, other, private) rest
          | inr public ↦ simp (new, other, public) rest
        ]
      ]
      | inr old ↦ simp old rest
    ]

-- An entry is that of the record at its place.
abbrev pub Placed : ℕ → List Header → MsgScanDat → Type 0
Placed seekp msgs d =
    (i : ℕ) × (msg : Header) × (get_elem? msgs i ≡ some msg) × (d ≡ scan_entry (seekp + i) msg)

Placed-later :
    (seekp : ℕ) (msg : Header) (msgs : List Header) (ds : List MsgScanDat)
    → All (Placed (suc seekp) msgs) ds
    → All (Placed seekp (msg ∷ msgs)) ds
Placed-later seekp msg msgs [] h = tt
Placed-later seekp msg msgs (d ∷ ds) ((i, at, got, same), h) =
    let place : suc seekp + i ≡ seekp + suc i = omega arith in
    ((suc i, at, got, same ∙ ap (λ k. scan_entry k at) place), Placed-later seekp msg msgs ds h)

scan_loop-Placed :
    (u : Names) (texts : ℕ → Option Str) (lsp seekp : ℕ) (msgs : List Header)
    → All (Placed seekp msgs) (scan_loop u texts lsp seekp msgs).1
unfolding scan_loop
scan_loop-Placed u texts lsp seekp [] = tt
scan_loop-Placed u texts lsp seekp (msg ∷ msgs) =
    let rest =
      Placed-later seekp msg msgs (scan_loop u texts lsp (suc seekp) msgs).1
        (scan_loop-Placed u texts lsp (suc seekp) msgs) in
    let place : seekp ≡ seekp + 0 = omega arith in
    elim (Bool-cases (ltb lsp msg.msg_number)) [
      | inl new ↦ elim (Bool-cases (for_user u msg.msg_receiver)) [
        | inl mine ↦ elim (Bool-cases (has_text (texts msg.msg_number))) [
          | inl there ↦
              simp (new, mine, there) ((0, msg, refl, ap (λ k. scan_entry k msg) place), rest)
          | inr gone ↦ simp (new, mine, gone) rest
        ]
        | inr other ↦ elim (Bool-cases (is_private msg)) [
          | inl private ↦ simp (new, other, private) rest
          | inr public ↦ simp (new, other, public) rest
        ]
      ]
      | inr old ↦ simp old rest
    ]

with_found-found :
    (lsp highest : ℕ) (r : ℕ × List MsgScanDat) → (with_found lsp highest r).found ≡ r.1
unfolding with_found
with_found-found lsp highest (n, []) = refl
with_found-found lsp highest (n, d ∷ ds) = refl

-- The part that is read gives what the whole file gives.
scan_loop-start :
    (u : Names) (m : Mail) (lsp : ℕ)
    → IsNumbered m
    → m.highest ≡ m.msp_high
    → scan_loop u m.texts lsp (scan_start m lsp) (drop (scan_start m lsp) m.headers)
      ≡ scan_loop u m.texts lsp 0 m.headers
scan_loop-start u m lsp h at = elim (Bool-cases (ltb (length m.headers) (m.highest - lsp + 2))) [
  | inl few ↦
      let zero_start : 0 ≡ scan_start m lsp = unfold scan_start in ground arith in
      subst
        (λ n. scan_loop u m.texts lsp n (drop n m.headers) ≡ scan_loop u m.texts lsp 0 m.headers)
        zero_start refl
  | inr many ↦
      let room : scan_start m lsp + (m.msp_high - lsp) ≤ length m.headers =
        unfold scan_start in ground (arith, at) in
      let place : scan_start m lsp + 0 ≡ scan_start m lsp = omega arith in
      sym (
        scan_loop-drop u m.texts 0 m.msp_high lsp 0 (scan_start m lsp) m.headers h.ascending
          h.bounded room
        ∙ ap (λ k. scan_loop u m.texts lsp k (drop (scan_start m lsp) m.headers)) place)
]

ltb-old : (n high lsp : ℕ) → n ≤ high → high ≤ lsp → ltb lsp n ≡ false
ltb-old n high lsp h le = ground arith

-- Nothing is new above the highest number.
filter-old :
    (u : Names) (texts : ℕ → Option Str) (high lsp : ℕ) (msgs : List Header)
    → All (λ h. h.msg_number ≤ high) msgs
    → high ≤ lsp
    → filter (is_new u texts lsp) msgs ≡ []
filter-old u texts high lsp [] bound le = refl
filter-old u texts high lsp (msg ∷ msgs) bound le =
    let old : ltb lsp msg.msg_number ≡ false = ltb-old msg.msg_number high lsp bound.0 le in
    simp old (filter-old u texts high lsp msgs bound.1 le)

-- The scan finds exactly the messages above the scan pointer that are for the user and have a text, in the
-- order of the file, each with the place of its record, although it reads the end of the file only, if the
-- messages are numbered in ascending order up to the highest number; the pointer counts from the last
-- message read, if that is later.
pub scan_base_complete :
    (u : Names) (m : Mail) (lrp lsp : ℕ)
    → IsNumbered m
    → m.highest ≡ m.msp_high
    → (map (λ d. d.ms_number) (scan_base u m lrp lsp).found
        ≡ map (λ h. h.msg_number) (filter (is_new u m.texts (later lrp lsp)) m.headers))
      × All (Placed 0 m.headers) (scan_base u m lrp lsp).found
unfolding scan_base
scan_base_complete u m lrp lsp h at = elim (Bool-cases (leb m.highest (later lrp lsp))) [
  | inl nothing ↦
      let nothing_new = sym (
        ap (map (λ h. h.msg_number)) (
          filter-old u m.texts m.msp_high (later lrp lsp) m.headers h.bounded
            (ground (arith, at)))) in
      simp nothing (nothing_new, tt)
  | inr more ↦
      let found : (with_found (later lrp lsp) m.highest (
            scan_loop u m.texts (later lrp lsp) (scan_start m (later lrp lsp))
              (drop (scan_start m (later lrp lsp)) m.headers))).found
          ≡ (scan_loop u m.texts (later lrp lsp) 0 m.headers).1 =
        with_found-found (later lrp lsp) m.highest _
        ∙ ap (λ r. r.1) (scan_loop-start u m (later lrp lsp) h at) in
      simp (more, found)
        (
          scan_loop-filter u m.texts (later lrp lsp) 0 m.headers,
          scan_loop-Placed u m.texts (later lrp lsp) 0 m.headers,
        )
]
