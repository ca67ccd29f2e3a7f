-- ===== src/Conference.antt =====
-- Conferences: the list of main/conference.c, the file data/conferences.dat that it is read from, and
-- the doors' own search of that file in lib/libdd.c. The file is a sequence of records of one size (a
-- conference and a message base both have 300 bytes), a conference's bases behind it.
pub mod File
mod Tests
use daydream.Base.{
  ℕ, zero, suc, Bool, true, false, List, [], ◌∷◌, ◌++◌, Option, none, some, ◌==◌, if◌then◌else◌,
  length, drop,
}
use daydream.Base.CString.{Str}

-- `msgbase_t`, the fields that the model reads.
pub record MsgBase : Type 0 where
  pub msgbase_number : ℕ
  pub msgbase_name : Str

-- `struct DayDream_Conference`, likewise, with the count of its bases as stored.
pub record ConfRecord : Type 0 where
  pub conf_number : ℕ
  pub conf_path : Str
  pub conf_msgbases : ℕ
  pub conf_passwd : Str

-- `conference_t`: the record and the array of bases, in the order of the list.
pub record Conference : Type 0 where
  pub conf : ConfRecord
  pub msgbases : List MsgBase

-- One record of the file.
pub data Cell : Type 0 where
  conf_cell : ConfRecord → Cell
  base_cell : MsgBase → Cell

-- The loop over the iterator: the first conference of the number.
unfoldable pub findconf : List Conference → ℕ → Option Conference
findconf [] conf_num = none
findconf (mc ∷ rest) conf_num =
    if mc.conf.conf_number == conf_num then some mc else findconf rest conf_num

-- `for (i = 0; i < CONF_MSGBASES; i++)`; a file that ends early is refused.
unfoldable pub read_bases : ℕ → List Cell → Option (List MsgBase × List Cell)
read_bases zero cells = some ([], cells)
read_bases (suc n) (base_cell b ∷ cells) = elim (read_bases n cells) [
  | none ↦ none
  | some (bases, rest) ↦ some (b ∷ bases, rest)
]
read_bases (suc n) _ = none

-- The `while` loop, a round for each conference. A record of the other kind where one is expected is
-- refused; the source would take its bytes as they are.
unfoldable pub read_conferences : ℕ → List Cell → Option (List Conference)
read_conferences fuel [] = some []
read_conferences zero (c ∷ cells) = none
read_conferences (suc fuel) (base_cell b ∷ cells) = none
read_conferences (suc fuel) (conf_cell cf ∷ cells) = elim (read_bases cf.conf_msgbases cells) [
  | none ↦ none
  | some (bases, rest) ↦ elim (read_conferences fuel rest) [
    | none ↦ none
    | some confs ↦ some (record { conf = cf; msgbases = bases } ∷ confs)
  ]
]

unfoldable pub read_conference_data : List Cell → Option (List Conference)
unfolding read_conferences read_bases
read_conference_data cells = read_conferences (length cells) cells

-- The doors' search: `none` is NULL. The byte 255 behind the file ends the search, and so does a
-- conference of that number; a conference of another number is skipped with its bases.
unfoldable pub dd_getconf_from : ℕ → List Cell → ℕ → Option (ConfRecord × List Cell)
dd_getconf_from zero cells cnum = none
dd_getconf_from (suc fuel) [] cnum = none
dd_getconf_from (suc fuel) (base_cell b ∷ cells) cnum = none
dd_getconf_from (suc fuel) (conf_cell cf ∷ cells) cnum =
    let next = dd_getconf_from fuel (drop cf.conf_msgbases cells) cnum in
    if cf.conf_number == 255
    then none
    else if cf.conf_number == cnum
    then some (cf, cells)
    else next

unfoldable pub dd_getconf : List Cell → ℕ → Option (ConfRecord × List Cell)
unfolding dd_getconf_from
dd_getconf cells cnum = dd_getconf_from (suc (length cells)) cells cnum

-- The loop of `dd_getbase` over the bases behind the conference.
unfoldable pub find_base_cell : ℕ → List Cell → ℕ → Option MsgBase
find_base_cell zero cells bnum = none
find_base_cell (suc bcnt) (base_cell b ∷ cells) bnum =
    if b.msgbase_number == bnum then some b else find_base_cell bcnt cells bnum
find_base_cell (suc bcnt) _ bnum = none

base_behind : ℕ → Option (ConfRecord × List Cell) → Option MsgBase
base_behind bnum none = none
base_behind bnum (some (cf, cells)) = find_base_cell cf.conf_msgbases cells bnum

unfoldable pub dd_getbase : List Cell → ℕ → ℕ → Option MsgBase
unfolding base_behind dd_getconf
dd_getbase cells cnum bnum = base_behind bnum (dd_getconf cells cnum)
