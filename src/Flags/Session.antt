-- ===== src/Flags/Session.antt =====
-- Whole sessions: the tag list after any sequence of calls.
use daydream.Base.{ℕ, ◌≤◌, refl, List, [], ◌∷◌, length}
use daydream.Base.CString.{Str}
use daydream.Flags.{User, Tags, no_counts, recount, addtag, unflagfile, recountfiles}
use daydream.Flags.Count.{IsCounted, addtag-IsCounted, unflagfile-IsCounted}
use daydream.Flags.Unflag.{IsDistinct, addtag-IsDistinct, unflagfile-IsDistinct}

-- A call that changes the list, with the user record as it is at the time.
pub data Call : Type 0 where
  adds : User → Str → Str → ℕ → ℕ → ℕ → Call
  unflags : Str → Call
  recounts : Call

unfoldable pub step : Tags → Call → Tags
step t (adds u path file conf size flags) = (addtag u t path file conf size flags).0
step t (unflags pat) = (unflagfile t pat).0
step t recounts = recountfiles t

unfoldable pub run : Tags → List Call → Tags
unfolding step
run t [] = t
run t (c ∷ cs) = run (step t c) cs

unfoldable pub no_tags : Tags
no_tags = record { counts = no_counts; flaggedfiles = [] }

-- File names fit `f_filename`.
abbrev pub Fits : List Call → Type 0
Fits [] = Unit
Fits (adds u path file conf size flags ∷ cs) = (length file ≤ 255) × Fits cs
Fits (unflags pat ∷ cs) = Fits cs
Fits (recounts ∷ cs) = Fits cs

pub record IsValid (t : Tags) : Type 0 where
  pub counted : IsCounted t
  pub distinct : IsDistinct t.flaggedfiles

run-from : (t : Tags) (cs : List Call) → Fits cs → IsValid t → IsValid (run t cs)
unfolding run
run-from t [] fits v = v
run-from t (adds u path file conf size flags ∷ cs) fits v =
    run-from (step t (adds u path file conf size flags)) cs fits.1 (record {
      counted = addtag-IsCounted u t path file conf size flags v.counted;
      distinct = addtag-IsDistinct u t path file conf size flags fits.0 v.distinct;
    })
run-from t (unflags pat ∷ cs) fits v = run-from (step t (unflags pat)) cs fits (record {
  counted = unflagfile-IsCounted t pat;
  distinct = unflagfile-IsDistinct t pat v.distinct;
})
run-from t (recounts ∷ cs) fits v =
    run-from (recountfiles t) cs fits
      (unfold recountfiles in record { counted = refl; distinct = v.distinct })

-- From an empty list on, after any calls of `addtag`, `unflagfile` and `recountfiles` with names
-- that fit the field, the counters are those of the list and no file is tagged twice.
pub run-IsValid : (cs : List Call) → Fits cs → IsValid (run no_tags cs)
unfolding no_tags recount
run-IsValid cs fits = run-from no_tags cs fits (record { counted = refl; distinct = tt })
