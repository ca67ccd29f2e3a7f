-- ===== src/Flags/Count.antt =====
-- The counters agree with the list: what `addtag` adds up one by one is what `recountfiles` counts.
use daydream.Base.{
  ℕ, ◌≡◌, refl, sym, false, List, [], ◌∷◌, ◌++◌, arith, inl, inr, Bool-cases, not, ◌&&◌,
}
use daydream.Base.CString.{Str}
use daydream.Flags.{
  FFlag, User, Counts, Tags, is_free, no_counts, count_file, recount, isfiletagged, over_file_ratio,
  over_byte_ratio, new_flag, addtag, unflagfile,
}

-- The counters are those of the list.
abbrev pub IsCounted : Tags → Type 0
IsCounted t = t.counts ≡ recount no_counts t.flaggedfiles

recount-append :
    (c : Counts) (fs : List FFlag) (f : FFlag)
    → recount c (fs ++ f ∷ []) ≡ count_file (recount c fs) f.f_size (is_free f.f_flags)
unfolding recount
recount-append c [] f = refl
recount-append c (g ∷ fs) f = recount-append (count_file c g.f_size (is_free g.f_flags)) fs f

-- An entry is counted like the arguments that it stores cut to their fields.
count_file-new_flag :
    (c : Counts) (path file : Str) (conf size flags : ℕ)
    → let f = new_flag path file conf size flags in
      count_file c f.f_size (is_free f.f_flags) ≡ count_file c size (is_free flags)
unfolding count_file new_flag is_free
count_file-new_flag c path file conf size flags = ground arith

-- What holds of every outcome of `addtag` holds of the outcome.
pub addtag-cases {ℓ} :
    (P : Tags → Type ℓ) (u : User) (t : Tags) (path file : Str) (conf size flags : ℕ)
    → P t
    → (isfiletagged t.flaggedfiles file ≡ false
        → P (record {
          counts = count_file t.counts size (is_free flags);
          flaggedfiles = t.flaggedfiles ++ new_flag path file conf size flags ∷ [];
        }))
    → P (addtag u t path file conf size flags).0
unfolding addtag
addtag-cases P u t path file conf size flags same added =
    elim (Bool-cases (not (is_free flags) && over_file_ratio u t.counts)) [
      | inl a ↦ rw a same
      | inr a ↦ elim (Bool-cases (not (is_free flags) && over_byte_ratio u t.counts size)) [
        | inl b ↦ rw (a, b) same
        | inr b ↦ elim (Bool-cases (isfiletagged t.flaggedfiles file)) [
          | inl c ↦ rw (a, b, c) same
          | inr c ↦ rw (a, b, c) (added c)
        ]
      ]
    ]

-- `addtag` keeps the four counters equal to those of a recount, whatever it answers.
pub addtag-IsCounted :
    (u : User) (t : Tags) (path file : Str) (conf size flags : ℕ)
    → IsCounted t
    → IsCounted (addtag u t path file conf size flags).0
addtag-IsCounted u t path file conf size flags h =
    addtag-cases IsCounted u t path file conf size flags h λ _.
      let f = new_flag path file conf size flags in
      rw (recount-append no_counts t.flaggedfiles f, ← h)
        (sym (count_file-new_flag t.counts path file conf size flags))

pub unflagfile-IsCounted : (t : Tags) (pat : Str) → IsCounted (unflagfile t pat).0
unfolding unflagfile
unflagfile-IsCounted t pat = refl
