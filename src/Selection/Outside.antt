-- ===== src/Selection/Outside.antt =====
-- What the choice of bases or conferences leaves as it was.
use daydream.Base.{
  ℕ, zero, suc, ◌+◌, ◌-◌, ◌/◌, ◌≤◌, ◌<◌, ◌≡◌, refl, sym, ap, ◌∙◌, ◌⊎◌, inl, inr, Bool, true, false,
  not, ◌&&◌, List, [], ◌∷◌, Option, none, some, arith, ltb, ◌==◌, if◌then◌else◌, Bool-cases, set,
  get_elem?, take, drop, length, length-set, get_elem?-set, get_elem?-set_other, get_elem?-drop,
  get_elem?-take, list_ext, length-take, length-drop, &&-right,
}
use daydream.Base.CString.{Str}
use daydream.LineEd.{atoi}
use daydream.Selection.{
  Bytes, toggle, copy_to, filled, tokens, Choice, Tagging, choosing, cancelled, saved, lost,
  toggle_number, obey_tokens, tag_lines, choose,
}

-- Two states of the bytes that differ in `size` bytes from `place` on at most.
pub record IsOutside (place size : ℕ) (a b : Bytes) : Type 0 where
  pub long : length a ≡ length b
  pub same : (k : ℕ) → (k < place) ⊎ (place + size ≤ k) → get_elem? a k ≡ get_elem? b k

pub set-IsOutside :
    (place size i v : ℕ) (a b : Bytes)
    → place ≤ i
    → i < place + size
    → IsOutside place size a b
    → IsOutside place size (set a i v) b
set-IsOutside place size i v a b le lt h = record {
  long = length-set a i v ∙ h.long;
  same = λ k out. get_elem?-set_other a i k v (ground (arith, out)) ∙ h.same k out;
}

pub copy_to-IsOutside :
    (place size from : ℕ) (bytes a b : Bytes)
    → place ≤ from
    → from + length bytes ≤ place + size
    → IsOutside place size a b
    → IsOutside place size (copy_to a from bytes) b
unfolding copy_to
copy_to-IsOutside place size from [] a b le lt h = h
copy_to-IsOutside place size from (v ∷ bytes) a b le lt h =
    copy_to-IsOutside place size (suc from) bytes (set a from v) b (omega arith) (omega arith)
      (set-IsOutside place size from v a b le (omega arith) h)

length-filled : (n b : ℕ) → length (filled n b) ≡ n
unfolding filled
length-filled zero b = refl
length-filled (suc n) b = omega (arith, length-filled n b)

-- What the two functions have in common: `+` and the numbers stay within their bytes.
pub record IsWithin (k : Choice) : Type 0 where
  pub all_within :
      (a b : Bytes) → IsOutside k.place k.size a b → IsOutside k.place k.size (k.select_all a) b
  pub offered_within : (i : ℕ) → k.is_offered i ≡ true → (i - 1) / 8 < k.size

abbrev pub bytes_of : Tagging → Bytes
bytes_of (choosing selcfg) = selcfg
bytes_of (cancelled selcfg) = selcfg
bytes_of (saved selcfg) = selcfg
bytes_of (lost selcfg) = selcfg

-- The bytes of others are as they were, and all are if the choice is cancelled.
abbrev pub Leaves : Choice → Bytes → Tagging → Type 0
Leaves k b (choosing a) = IsOutside k.place k.size a b
Leaves k b (cancelled a) = a ≡ b
Leaves k b (saved a) = IsOutside k.place k.size a b
Leaves k b (lost a) = IsOutside k.place k.size a b

record AtLeast (k : Choice) (b : Bytes) (t : Tagging) : Type 0 where
  holds : Leaves k b t

at_least : {k : Choice} {b : Bytes} {t : Tagging} → Leaves k b t → AtLeast k b t
at_least h = record { holds = h }

if-AtLeast :
    {k : Choice} {b : Bytes} (c : Bool) (x y : Tagging)
    → AtLeast k b x
    → AtLeast k b y
    → AtLeast k b (if c then x else y)
if-AtLeast true x y h k = h
if-AtLeast false x y h k = k

-- Within the bytes that are copied, and outside.
copy_to-inside :
    (place : ℕ) (bytes a : Bytes) (j : ℕ)
    → j < length bytes
    → place + length bytes ≤ length a
    → get_elem? (copy_to a place bytes) (place + j) ≡ get_elem? bytes j
unfolding copy_to
copy_to-inside place [] a j lt fits = absurd (omega arith)
copy_to-inside place (v ∷ bytes) a zero lt fits =
    let here : place + 0 ≡ place = omega arith in
    let rest =
      copy_to-IsOutside (suc place) (length bytes) (suc place) bytes (set a place v) (set a place v)
        (omega arith) (omega arith) (record { long = refl; same = λ k out. refl }) in
    ap (get_elem? (copy_to (set a place v) (suc place) bytes)) here
    ∙ rest.same place (inl (omega arith))
    ∙ get_elem?-set a place v (omega arith)
copy_to-inside place (v ∷ bytes) a (suc j) lt fits =
    let next : place + suc j ≡ suc place + j = omega arith in
    ap (get_elem? (copy_to (set a place v) (suc place) bytes)) next
    ∙ copy_to-inside (suc place) bytes (set a place v) j (omega arith)
        (omega (arith, length-set a place v))

-- The bytes that were saved are brought back.
copy_to-back :
    (place size : ℕ) (a b : Bytes)
    → place + size ≤ length b
    → IsOutside place size a b
    → copy_to a place (take size (drop place b)) ≡ b
copy_to-back place size a b fits h =
    let backup = take size (drop place b) in
    let long : length backup ≡ size =
      length-take size (drop place b) ∙ omega (arith, length-drop place b) in
    let out = copy_to-IsOutside place size place backup a b (omega arith) (omega (arith, long)) h in
    list_ext (copy_to a place backup) b (λ k. elim (Bool-cases (ltb k place)) [
      | inl before ↦ out.same k (inl (ground arith))
      | inr behind ↦ elim (Bool-cases (ltb k (place + size))) [
        | inl within ↦
            let j : place + (k - place) ≡ k = ground arith in
            let small : k - place < size = ground arith in
            ap (get_elem? (copy_to a place backup)) (sym j)
            ∙ copy_to-inside place backup a (k - place) (omega (arith, small, long))
                (omega (arith, h.long, fits, long))
            ∙ get_elem?-take size (k - place) (drop place b) small
            ∙ get_elem?-drop place (k - place) b
            ∙ ap (get_elem? b) j
        | inr after ↦ out.same k (inr (ground arith))
      ]
    ])

module _ (k : Choice) (within : IsWithin k) (b : Bytes) (fits : k.place + k.size ≤ length b) where
  abbrev backup : Bytes
  backup = take k.size (drop k.place b)

  toggle_number-IsOutside :
      (n : Option ℕ) (a : Bytes)
      → IsOutside k.place k.size a b
      → IsOutside k.place k.size (toggle_number k n a) b
  unfolding toggle_number toggle
  toggle_number-IsOutside none a h = h
  toggle_number-IsOutside (some i) a h = elim (Bool-cases (not (i == 0) && k.is_offered i)) [
    | inl offered ↦
        let inside : (i - 1) / 8 < k.size =
          within.offered_within i (&&-right (not (i == 0)) (k.is_offered i) offered) in
        simp offered (
          set-IsOutside k.place k.size (k.place + (i - 1) / 8) _ a b (omega arith)
            (omega (arith, inside)) h)
    | inr other ↦ simp other h
  ]

  obey_tokens-AtLeast :
      (toks : List Str) (a : Bytes)
      → IsOutside k.place k.size a b
      → AtLeast k b (obey_tokens k backup toks a)
  unfolding obey_tokens
  obey_tokens-AtLeast [] a h = at_least h
  obey_tokens-AtLeast (tok ∷ toks) a h =
      let zeroed =
        copy_to-IsOutside k.place k.size k.place (filled k.size 0) a b (omega arith)
          (omega (arith, length-filled k.size 0)) h in
      let cleared = obey_tokens-AtLeast toks (copy_to a k.place (filled k.size 0)) zeroed in
      let all = obey_tokens-AtLeast toks (k.select_all a) (within.all_within a b h) in
      let number =
        obey_tokens-AtLeast toks (toggle_number k (atoi tok) a)
          (toggle_number-IsOutside (atoi tok) a h) in
      let c : AtLeast k b (cancelled (copy_to a k.place backup)) =
        at_least (copy_to-back k.place k.size a b fits h) in
      let v : AtLeast k b (choosing a) = at_least h in
      let s : AtLeast k b (saved a) = at_least h in search if-AtLeast depth 8

  tag_lines-Leaves :
      (lines : List Str) (t : Tagging) → Leaves k b t → Leaves k b (tag_lines k backup lines t)
  unfolding tag_lines
  tag_lines-Leaves lines (cancelled a) h = h
  tag_lines-Leaves lines (saved a) h = h
  tag_lines-Leaves lines (lost a) h = h
  tag_lines-Leaves [] (choosing a) h = h
  tag_lines-Leaves (line ∷ lines) (choosing a) h =
      tag_lines-Leaves lines _ (obey_tokens-AtLeast (tokens line) a h).holds

  pub choose-Leaves : (lines : List Str) → Leaves k b (choose k lines b)
  unfolding choose
  choose-Leaves lines =
      tag_lines-Leaves lines (choosing b) (record { long = refl; same = λ i out. refl })
