-- ===== src/Conference/File.antt =====
-- The file of conferences read by the BBS and searched by the doors.
use daydream.Base.{
  ℕ, zero, suc, ◌≤◌, ◌<◌, ◌≡◌, refl, ◌≢◌, List, [], ◌∷◌, ◌++◌, Option, none, some, arith, ◌==◌,
  if◌then◌else◌, length, length-append, drop, All, inl, inr, Bool-cases, ==→eq,
}
use daydream.Conference.{
  MsgBase, Conference, Cell, conf_cell, base_cell, findconf, read_bases, read_conferences,
  read_conference_data, dd_getconf_from, dd_getconf, find_base_cell, base_behind, dd_getbase,
}

-- The records of a conference list in the file.
abbrev pub base_cells : List MsgBase → List Cell
base_cells [] = []
base_cells (b ∷ bs) = base_cell b ∷ base_cells bs

abbrev pub layout : List Conference → List Cell
layout [] = []
layout (mc ∷ rest) = conf_cell mc.conf ∷ base_cells mc.msgbases ++ layout rest

-- The stored counts are right, and no conference has the number of the end mark.
abbrev pub IsLaidOut : List Conference → Type 0
IsLaidOut = All λ mc. (mc.conf.conf_msgbases ≡ length mc.msgbases) × (mc.conf.conf_number ≢ 255)

read_bases-base_cells :
    (bs : List MsgBase) (rest : List Cell)
    → read_bases (length bs) (base_cells bs ++ rest) ≡ some (bs, rest)
unfolding read_bases
read_bases-base_cells [] rest = refl
read_bases-base_cells (b ∷ bs) rest = ground (arith, read_bases-base_cells bs rest)

read_conferences-layout :
    (fuel : ℕ) (mcs : List Conference)
    → length mcs ≤ fuel
    → IsLaidOut mcs
    → read_conferences fuel (layout mcs) ≡ some mcs
unfolding read_conferences
read_conferences-layout fuel [] f h = refl
read_conferences-layout zero (mc ∷ mcs) f h = absurd (omega arith)
read_conferences-layout (suc fuel) (mc ∷ mcs) f h = rw (h.0.0) (
    ground
      (arith, read_bases-base_cells mc.msgbases (layout mcs), read_conferences-layout fuel mcs))

length-layout : (mcs : List Conference) → length mcs ≤ length (layout mcs)
length-layout [] = omega arith
length-layout (mc ∷ mcs) =
    omega (arith, length-layout mcs, length-append {0} (base_cells mc.msgbases) (layout mcs))

-- The BBS reads back every list of conferences with right counts from its file.
pub read_conference_data-layout :
    (mcs : List Conference) → IsLaidOut mcs → read_conference_data (layout mcs) ≡ some mcs
unfolding read_conference_data
read_conference_data-layout mcs h =
    read_conferences-layout (length (layout mcs)) mcs (length-layout mcs) h

drop-base_cells :
    (bs : List MsgBase) (rest : List Cell) → drop (length bs) (base_cells bs ++ rest) ≡ rest
drop-base_cells [] rest = refl
drop-base_cells (b ∷ bs) rest = drop-base_cells bs rest

-- The search of the first base of a number in a list of bases.
unfoldable pub findbase : List MsgBase → ℕ → Option MsgBase
findbase [] bnum = none
findbase (b ∷ bs) bnum = if b.msgbase_number == bnum then some b else findbase bs bnum

abbrev pub base_of : Option Conference → ℕ → Option MsgBase
base_of none bnum = none
base_of (some mc) bnum = findbase mc.msgbases bnum

find_base_cell-findbase :
    (bs : List MsgBase) (rest : List Cell) (bnum : ℕ)
    → find_base_cell (length bs) (base_cells bs ++ rest) bnum ≡ findbase bs bnum
unfolding find_base_cell findbase
find_base_cell-findbase [] rest bnum = refl
find_base_cell-findbase (b ∷ bs) rest bnum = ground (arith, find_base_cell-findbase bs rest bnum)

dd_getconf_from-findconf :
    (fuel : ℕ) (mcs : List Conference) (cnum bnum : ℕ)
    → length mcs < fuel
    → IsLaidOut mcs
    → base_behind bnum (dd_getconf_from fuel (layout mcs) cnum) ≡ base_of (findconf mcs cnum) bnum
unfolding dd_getconf_from findconf base_behind
dd_getconf_from-findconf zero mcs cnum bnum f h = absurd (omega arith)
dd_getconf_from-findconf (suc fuel) [] cnum bnum f h = refl
dd_getconf_from-findconf (suc fuel) (mc ∷ mcs) cnum bnum f h =
    elim (Bool-cases (mc.conf.conf_number == 255)) [
      | inl last ↦ absurd (h.0.1 (==→eq mc.conf.conf_number 255 last))
      | inr more ↦ elim (Bool-cases (mc.conf.conf_number == cnum)) [
        | inl found ↦
            rw (more, found, h.0.0) (find_base_cell-findbase mc.msgbases (layout mcs) bnum)
        | inr other ↦
            rw (more, other, h.0.0, drop-base_cells mc.msgbases (layout mcs))
              (dd_getconf_from-findconf fuel mcs cnum bnum (omega arith) h.1)
      ]
    ]

-- A door finds a message base by conference and base number exactly as the BBS's own lists give it.
pub dd_getbase-findconf :
    (mcs : List Conference) (cnum bnum : ℕ)
    → IsLaidOut mcs
    → dd_getbase (layout mcs) cnum bnum ≡ base_of (findconf mcs cnum) bnum
unfolding dd_getbase dd_getconf
dd_getbase-findconf mcs cnum bnum h =
    dd_getconf_from-findconf (suc (length (layout mcs))) mcs cnum bnum
      (omega (arith, length-layout mcs)) h
