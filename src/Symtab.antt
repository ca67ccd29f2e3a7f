-- ===== src/Symtab.antt =====
-- The symbol table of main/symtab.c, a list of symbols by name, on the lists of main/utility.c. Atoms are
-- of any type, and a clone of them is equal to the original. A name is `none` where the pointer is NULL.
pub mod Lookup
mod Tests
use daydream.Base.{
  ℕ, Bool, true, false, ◌&&◌, List, [], ◌∷◌, Option, none, some, ◌==◌, if◌then◌else◌, length,
}
use daydream.Base.CString.{Str, strcase_eq, strncase_eq}

-- `struct symbol`
pub record Symbol (Atom : Type 0) : Type 0 where
  pub name : Option Str
  pub atom_list : List Atom

-- The test of `symbol_table_insert`.
unfoldable pub same_name : Option Str → Option Str → Bool
same_name none none = true
same_name none (some b) = false
same_name (some a) none = false
same_name (some a) (some b) = strcase_eq a b

-- The test of `symbol_table_lookup` for a name of the length given.
unfoldable pub is_named : Option Str → ℕ → Option Str → Bool
is_named none snamelen none = true
is_named none snamelen (some b) = false
is_named (some a) snamelen none = false
is_named (some a) snamelen (some b) = length b == snamelen && strncase_eq a b snamelen

-- `push`, `cons` (at the end), and `sorted_insert` with the test whether `sortfn` gives 0 or less.
module _ {A : Type 0} where
  unfoldable pub push : List A → A → List A
  push list item = item ∷ list

  unfoldable pub cons : List A → A → List A
  cons [] item = item ∷ []
  cons (x ∷ list) item = x ∷ cons list item

  unfoldable pub sorted_insert : (A → A → Bool) → List A → A → List A
  sorted_insert at_most [] item = item ∷ []
  sorted_insert at_most (x ∷ list) item =
      if at_most item x then item ∷ x ∷ list else x ∷ sorted_insert at_most list item

module _ {Atom : Type 0} where
  -- The loop behind the first symbol: a symbol of the name is unlinked.
  unfoldable pub unlink : List (Symbol Atom) → Option Str → List (Symbol Atom)
  unfolding same_name
  unlink [] name = []
  unlink (s ∷ rest) name = if same_name name s.name then rest else s ∷ unlink rest name

  -- Where the first symbol has the name, the list is set to NULL.
  unfoldable pub symbol_table_insert : List (Symbol Atom) → Symbol Atom → List (Symbol Atom)
  unfolding unlink cons
  symbol_table_insert [] symbol = cons [] symbol
  symbol_table_insert (s ∷ rest) symbol =
      cons (if same_name symbol.name s.name then [] else s ∷ unlink rest symbol.name) symbol

  unfoldable pub symbol_table_lookup : List (Symbol Atom) → Option Str → ℕ → Option (Symbol Atom)
  unfolding is_named
  symbol_table_lookup [] sname snamelen = none
  symbol_table_lookup (s ∷ rest) sname snamelen =
      if is_named sname snamelen s.name then some s else symbol_table_lookup rest sname snamelen
