-- ===== src/Conference/Tests.antt =====
-- A small file of conferences, and the theorems at it.
use daydream.Base.{ℕ, ◌≡◌, refl, List, [], ◌∷◌, none, some, arith}
use daydream.Base.CString.{codes}
use daydream.Conference.{
  MsgBase, ConfRecord, Conference, base_cell, findconf, read_conference_data, dd_getbase,
}
use daydream.Conference.File.{
  layout, IsLaidOut, base_of, read_conference_data-layout, dd_getbase-findconf,
}

abbrev base : ℕ → MsgBase
base n = record { msgbase_number = n; msgbase_name = codes "general" }

abbrev area : ℕ → ℕ → List MsgBase → Conference
area n count bases = record {
  conf = record {
    conf_number = n;
    conf_path = codes "/c/";
    conf_msgbases = count;
    conf_passwd = [];
  };
  msgbases = bases;
}

abbrev areas : List Conference
areas = area 1 2 (base 1 ∷ base 2 ∷ []) ∷ area 4 0 [] ∷ area 9 1 (base 7 ∷ []) ∷ []

areas-IsLaidOut : IsLaidOut areas
areas-IsLaidOut = (
  (refl, λ e. omega (arith, e)),
  ((refl, λ e. omega (arith, e)), ((refl, λ e. omega (arith, e)), tt)),
)

found : dd_getbase (layout areas) 9 7 ≡ some (base 7)
unfolding dd_getbase daydream.Conference.find_base_cell
found = refl

not_found : dd_getbase (layout areas) 4 7 ≡ none
unfolding dd_getbase daydream.Conference.find_base_cell
not_found = refl

-- A file that ends inside the bases of a conference is refused.
truncated : read_conference_data (layout (area 1 2 (base 1 ∷ []) ∷ [])) ≡ none
unfolding read_conference_data
truncated = refl

read_conference_data-layout_example : read_conference_data (layout areas) ≡ some areas
read_conference_data-layout_example = read_conference_data-layout areas areas-IsLaidOut

dd_getbase-findconf_example : dd_getbase (layout areas) 1 2 ≡ base_of (findconf areas 1) 2
dd_getbase-findconf_example = dd_getbase-findconf areas 1 2 areas-IsLaidOut
