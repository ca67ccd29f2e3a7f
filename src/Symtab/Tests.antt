-- ===== src/Symtab/Tests.antt =====
-- Small symbol tables, and the theorem at one of them.
use daydream.Base.{ℕ, ◌≡◌, refl, ◌<◌, Bool, List, [], ◌∷◌, Option, none, some, leb, if◌then◌else◌}
use daydream.Base.CString.{codes, strcase_eq}
use daydream.Symtab.{
  Symbol, push, sorted_insert, same_name, symbol_table_insert, symbol_table_lookup,
}
use daydream.Symtab.Lookup.{IsDistinct, is_first, symbol_table_lookup-insert}

abbrev entry : ℕ → ℕ → Symbol ℕ
entry letter atom = record { name = some (letter ∷ codes "bc"); atom_list = atom ∷ [] }

abbrev table : List (Symbol ℕ)
table = entry b'x' 1 ∷ entry b'y' 2 ∷ entry b'z' 3 ∷ []

table-IsDistinct : IsDistinct table
unfolding same_name strcase_eq daydream.Base.CString.tolower
table-IsDistinct = ((refl, (refl, tt)), ((refl, tt), (tt, tt)))

replaced :
    symbol_table_lookup (symbol_table_insert table (entry b'Y' 9)) (some (codes "ybc")) 3
    ≡ some (entry b'Y' 9)
unfolding symbol_table_lookup symbol_table_insert strcase_eq daydream.Base.CString.tolower
    daydream.Base.CString.strncase_eq
replaced = refl

-- A new symbol of the first name loses the others.
lost : symbol_table_insert table (entry b'X' 9) ≡ entry b'X' 9 ∷ []
unfolding symbol_table_insert strcase_eq daydream.Base.CString.tolower
lost = refl

in_order : sorted_insert leb (1 ∷ 3 ∷ 5 ∷ []) 4 ≡ 1 ∷ 3 ∷ 4 ∷ 5 ∷ []
unfolding sorted_insert
in_order = refl

pushed : push {A = ℕ} (2 ∷ []) 1 ≡ 1 ∷ 2 ∷ []
unfolding push
pushed = refl

symbol_table_lookup-insert_example :
    symbol_table_lookup (symbol_table_insert table (entry b'y' 9)) (some (codes "zbc")) 3 ≡ (
      if same_name (some (codes "zbc")) (entry b'y' 9).name
      then some (entry b'y' 9)
      else if is_first table (entry b'y' 9).name
      then none
      else symbol_table_lookup table (some (codes "zbc")) 3)
symbol_table_lookup-insert_example =
    symbol_table_lookup-insert table (entry b'y' 9) (some (codes "zbc")) table-IsDistinct
