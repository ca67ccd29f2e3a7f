-- ===== src/Selection/Areas.antt =====
-- The bytes of a conference, and those of the conferences.
use daydream.Base.{
  ℕ, ◌+◌, ◌-◌, ◌/◌, ◌≤◌, ◌<◌, ◌≡◌, Bool, true, ◌&&◌, List, [], ◌∷◌, All, arith, ltb, ◌==◌, length,
  inl, inr, Bool-cases,
}
use daydream.Base.CString.{Str}
use daydream.Conference.{MsgBase}
use daydream.Selection.{
  Bytes, tag, filled, tag_bases, has_base, base_choice, base_bytes, tagmessageareas, conf_choice,
  tagconfs,
}
use daydream.Selection.Outside.{
  IsOutside, set-IsOutside, copy_to-IsOutside, IsWithin, Leaves, choose-Leaves,
}

-- The numbers of bases are bytes.
abbrev pub AreBytes : List MsgBase → Type 0
AreBytes bases = All (λ mb. mb.msgbase_number < 256) bases

tag_bases-IsOutside :
    (place : ℕ) (bases : List MsgBase) (a b : Bytes)
    → AreBytes bases
    → IsOutside place 32 a b
    → IsOutside place 32 (tag_bases place bases a) b
unfolding tag_bases tag
tag_bases-IsOutside place [] a b small h = h
tag_bases-IsOutside place (mb ∷ bases) a b small h =
    tag_bases-IsOutside place bases (tag a place mb.msgbase_number) b small.1 (
      set-IsOutside place 32 (place + (mb.msgbase_number - 1) / 8) _ a b (omega arith)
        (byte_within place mb.msgbase_number small.0) h)
  where
    byte_within : (place n : ℕ) → n < 256 → place + (n - 1) / 8 < place + 32
    byte_within place n lt = omega arith

has_base-small :
    (bases : List MsgBase) (i : ℕ) → AreBytes bases → has_base bases i ≡ true → (i - 1) / 8 < 32
unfolding has_base
has_base-small [] i small h = absurd (ground arith)
has_base-small (mb ∷ bases) i small h = elim (Bool-cases (i == mb.msgbase_number)) [
  | inl same ↦ below i mb.msgbase_number same small.0
  | inr other ↦ has_base-small bases i small.1 (simp other at h)
]
  where
    below : (i n : ℕ) → (i == n) ≡ true → n < 256 → (i - 1) / 8 < 32
    below i n same lt = ground arith

base_choice-IsWithin :
    (tconf : ℕ) (bases : List MsgBase) → AreBytes bases → IsWithin (base_choice tconf bases)
unfolding base_choice
base_choice-IsWithin tconf bases small = record {
  all_within = λ a b h. tag_bases-IsOutside (base_bytes tconf) bases a b small h;
  offered_within = λ i h. has_base-small bases i small h;
}

conf_choice-IsWithin : (access : ℕ → Bool) (confs : List ℕ) → IsWithin (conf_choice access confs)
unfolding conf_choice filled
conf_choice-IsWithin access confs = record {
  all_within =
      λ a b h. copy_to-IsOutside 2048 8 2048 (filled 8 255) a b (omega arith) (omega arith) h;
  offered_within = λ i h. below i _ _ h;
}
  where
    below : (i : ℕ) (a b : Bool) → (ltb i 65 && a && b) ≡ true → (i - 1) / 8 < 8
    below i a b h = ground arith

-- Whatever is typed, the choice of message bases changes only the 32 bytes of the conference, and a choice
-- that ends with `c` changes nothing, for a conference from 1 to 64, all 2056 bytes and bases whose numbers
-- are bytes.
pub tagmessageareas-Leaves :
    (tconf : ℕ) (bases : List MsgBase) (lines : List Str) (selcfg : Bytes)
    → length selcfg ≡ 2056
    → tconf ≤ 64
    → 1 ≤ tconf
    → AreBytes bases
    → Leaves (base_choice tconf bases) selcfg (tagmessageareas tconf bases lines selcfg)
unfolding tagmessageareas base_choice base_bytes
tagmessageareas-Leaves tconf bases lines selcfg long le ge small =
    choose-Leaves (base_choice tconf bases) (base_choice-IsWithin tconf bases small) selcfg
      (omega (arith, long)) lines

-- Whatever is typed, the choice of conferences changes only the eight bytes behind those of the bases, and
-- a choice that ends with `c` changes nothing.
pub tagconfs-Leaves :
    (access : ℕ → Bool) (confs : List ℕ) (lines : List Str) (selcfg : Bytes)
    → length selcfg ≡ 2056
    → Leaves (conf_choice access confs) selcfg (tagconfs access confs lines selcfg)
unfolding tagconfs conf_choice
tagconfs-Leaves access confs lines selcfg long =
    choose-Leaves (conf_choice access confs) (conf_choice-IsWithin access confs) selcfg
      (omega (arith, long)) lines
