-- ===== src/Symtab/Lookup.antt =====
-- What a lookup finds after an insertion.
use daydream.Base.{
  ℕ, suc, ◌≡◌, refl, sym, ap, ◌∙◌, Bool, true, false, ◌&&◌, List, [], ◌∷◌, map, Option, none, some,
  arith, ◌==◌, if◌then◌else◌, length, inl, inr, Bool-cases, All, take-all, ==→eq, &&-right,
}
use daydream.Base.CString.{
  Str, tolower, str_eq, strcase_eq, strncase_eq, strcase_eq→eq, strcase_eq_refl,
}
use daydream.Symtab.{
  Symbol, same_name, is_named, cons, unlink, symbol_table_insert, symbol_table_lookup,
}

abbrev pub name_length : Option Str → ℕ
name_length none = 0
name_length (some s) = length s

strcase_eq-congr : (a b c : Str) → strcase_eq a b ≡ true → strcase_eq a c ≡ strcase_eq b c
unfolding strcase_eq
strcase_eq-congr a b c h = ap (λ t. str_eq t (map tolower c)) (strcase_eq→eq a b h)

same_name-congr : (a b c : Option Str) → same_name a b ≡ true → same_name a c ≡ same_name b c
unfolding same_name
same_name-congr none none c h = refl
same_name-congr none (some b) c h = absurd (ground arith)
same_name-congr (some a) none c h = absurd (ground arith)
same_name-congr (some a) (some b) none h = refl
same_name-congr (some a) (some b) (some c) h = strcase_eq-congr a b c h

same_name_refl : (a : Option Str) → same_name a a ≡ true
unfolding same_name
same_name_refl none = refl
same_name_refl (some a) = strcase_eq_refl a

same_name_sym : (a b : Option Str) → same_name a b ≡ true → same_name b a ≡ true
same_name_sym a b h = sym (same_name-congr a b a h) ∙ same_name_refl a

strcase_eq-length : (a b : Str) → strcase_eq a b ≡ true → length a ≡ length b
unfolding strcase_eq
strcase_eq-length [] [] h = refl
strcase_eq-length [] (y ∷ b) h = absurd (ground arith)
strcase_eq-length (x ∷ a) [] h = absurd (ground arith)
strcase_eq-length (x ∷ a) (y ∷ b) h =
    ap suc (strcase_eq-length a b (&&-right (tolower x == tolower y) (strcase_eq a b) h))

strncase_eq-whole :
    (a b : Str) → (length b == length a && strncase_eq a b (length a)) ≡ strcase_eq a b
unfolding strncase_eq
strncase_eq-whole a b = elim (Bool-cases (length b == length a)) [
  | inl e ↦
      let same = ==→eq (length b) (length a) e in
      rw (e, take-all (length a) a (omega arith), take-all (length a) b (omega (arith, same))) refl
  | inr e ↦ elim (Bool-cases (strcase_eq a b)) [
    | inl s ↦ absurd (ground (arith, strcase_eq-length a b s))
    | inr n ↦ rw (e, n) refl
  ]
]

is_named-same_name : (a b : Option Str) → is_named a (name_length a) b ≡ same_name a b
unfolding is_named same_name
is_named-same_name none none = refl
is_named-same_name none (some b) = refl
is_named-same_name (some a) none = refl
is_named-same_name (some a) (some b) = strncase_eq-whole a b

same_name-apart :
    (a b c : Option Str) → same_name a b ≡ true → same_name b c ≡ false → same_name a c ≡ false
same_name-apart a b c e f = same_name-congr a b c e ∙ f

module _ {Atom : Type 0} where
  -- The first symbol of a name.
  find : List (Symbol Atom) → Option Str → Option (Symbol Atom)
  find [] name = none
  find (s ∷ rest) name = if same_name name s.name then some s else find rest name

  lookup-find :
      (t : List (Symbol Atom)) (name : Option Str)
      → symbol_table_lookup t name (name_length name) ≡ find t name
  unfolding symbol_table_lookup find
  lookup-find [] name = refl
  lookup-find (s ∷ rest) name = rw (is_named-same_name name s.name, lookup-find rest name)

  -- No two symbols of a table have the same name.
  abbrev pub IsDistinct : List (Symbol Atom) → Type 0
  IsDistinct [] = Unit
  IsDistinct (s ∷ rest) = All (λ o. same_name s.name o.name ≡ false) rest × IsDistinct rest

  find-absent :
      (t : List (Symbol Atom)) (name : Option Str)
      → All (λ o. same_name name o.name ≡ false) t
      → find t name ≡ none
  unfolding find
  find-absent [] name h = refl
  find-absent (s ∷ rest) name h = rw (h.0) (find-absent rest name h.1)

  All-congr :
      (t : List (Symbol Atom)) (a b : Option Str)
      → same_name a b ≡ true
      → All (λ o. same_name b o.name ≡ false) t
      → All (λ o. same_name a o.name ≡ false) t
  All-congr [] a b e h = tt
  All-congr (s ∷ rest) a b e h = (same_name-congr a b s.name e ∙ h.0, All-congr rest a b e h.1)

  or_else : Option (Symbol Atom) → Option (Symbol Atom) → Option (Symbol Atom)
  or_else none o = o
  or_else (some s) o = some s

  or_else-none : (o : Option (Symbol Atom)) → or_else o none ≡ o
  unfolding or_else
  or_else-none none = refl
  or_else-none (some s) = refl

  find-cons :
      (t : List (Symbol Atom)) (symbol : Symbol Atom) (name : Option Str)
      → find (cons t symbol) name
        ≡ or_else (find t name) (if same_name name symbol.name then some symbol else none)
  unfolding find cons or_else
  find-cons [] symbol name = refl
  find-cons (s ∷ rest) symbol name = elim (Bool-cases (same_name name s.name)) [
    | inl e ↦ rw e refl
    | inr e ↦ rw e (find-cons rest symbol name)
  ]

  find-replaced :
      (s symbol : Symbol Atom) (rest : List (Symbol Atom)) (name : Option Str)
      → same_name symbol.name s.name ≡ true
      → IsDistinct (s ∷ rest)
      → find (cons rest symbol) name
        ≡ (if same_name name symbol.name then some symbol else find (s ∷ rest) name)
  unfolding find or_else
  find-replaced s symbol rest name e d = elim (Bool-cases (same_name name symbol.name)) [
    | inl h ↦
        let at_s = same_name-congr name symbol.name s.name h ∙ e in
        let gone = find-absent rest name (All-congr rest name s.name at_s d.0) in
        rw (find-cons rest symbol name, gone, h) refl
    | inr h ↦ elim (Bool-cases (same_name name s.name)) [
      | inl k ↦
          let back =
            same_name-congr name s.name symbol.name k ∙ same_name_sym symbol.name s.name e in
          absurd (ground (arith, back))
      | inr k ↦ rw (find-cons rest symbol name, h, k) (or_else-none (find rest name))
    ]
  ]

  find-unlink :
      (t : List (Symbol Atom)) (symbol : Symbol Atom) (name : Option Str)
      → IsDistinct t
      → find (cons (unlink t symbol.name) symbol) name
        ≡ (if same_name name symbol.name then some symbol else find t name)
  unfolding find unlink cons
  find-unlink [] symbol name d = refl
  find-unlink (s ∷ rest) symbol name d = elim (Bool-cases (same_name symbol.name s.name)) [
    | inl e ↦ rw e (find-replaced s symbol rest name e d)
    | inr e ↦ elim (Bool-cases (same_name name s.name)) [
      | inl k ↦ elim (Bool-cases (same_name name symbol.name)) [
        | inl h ↦ absurd (ground (arith, same_name-apart name symbol.name s.name h e))
        | inr h ↦ rw (e, k, h) refl
      ]
      | inr k ↦ rw (e, k) (find-unlink rest symbol name d.1)
    ]
  ]

  -- Whether the first symbol has the name, where the insertion loses the table.
  abbrev pub is_first : List (Symbol Atom) → Option Str → Bool
  is_first [] name = false
  is_first (s ∷ rest) name = same_name name s.name

  find-insert :
      (t : List (Symbol Atom)) (symbol : Symbol Atom) (name : Option Str)
      → IsDistinct t
      → find (symbol_table_insert t symbol) name ≡ (
          if same_name name symbol.name
          then some symbol
          else if is_first t symbol.name
          then none
          else find t name)
  unfolding find symbol_table_insert cons unlink
  find-insert [] symbol name d = refl
  find-insert (s ∷ rest) symbol name d = elim (Bool-cases (same_name symbol.name s.name)) [
    | inl e ↦ rw e refl
    | inr e ↦
        let kept =
          ap (λ b. find (cons (if b then rest else s ∷ unlink rest symbol.name) symbol) name) e in
        rw e (sym kept ∙ find-unlink (s ∷ rest) symbol name d)
  ]

  -- In a table of distinct names the symbol inserted last is found under its name, up to case; every
  -- other name finds what it found before, unless the name inserted was that of the first symbol:
  -- then it finds nothing.
  pub symbol_table_lookup-insert :
      (t : List (Symbol Atom)) (symbol : Symbol Atom) (name : Option Str)
      → IsDistinct t
      → symbol_table_lookup (symbol_table_insert t symbol) name (name_length name) ≡ (
          if same_name name symbol.name
          then some symbol
          else if is_first t symbol.name
          then none
          else symbol_table_lookup t name (name_length name))
  symbol_table_lookup-insert t symbol name d =
      rw (lookup-find (symbol_table_insert t symbol) name, lookup-find t name)
        (find-insert t symbol name d)
