-- ===== src/Selection/Tests.antt =====
-- Two conferences, and choices in the second.
use daydream.Base.{ℕ, zero, suc, ◌≡◌, refl, Bool, true, false, List, [], ◌∷◌, arith}
use daydream.Base.CString.{codes, isspace, tolower}
use daydream.Text.Numbers.{strtol}
use daydream.LineEd.{atoi}
use daydream.Conference.{MsgBase}
use daydream.Selection.{
  Bytes, isbasetagged, isanybasestagged, tagmessageareas, Tagging, choosing, cancelled, saved, lost,
  base_choice,
}
use daydream.Selection.Outside.{Leaves}
use daydream.Selection.Areas.{tagmessageareas-Leaves}
use daydream.Selection.Toggles.{IsBytes}

abbrev no_bytes : ℕ → Bytes
no_bytes zero = []
no_bytes (suc n) = 0 ∷ no_bytes n

abbrev base : ℕ → MsgBase
base n = record { msgbase_number = n; msgbase_name = [] }

abbrev bases : List MsgBase
bases = base 1 ∷ base 9 ∷ base 10 ∷ []

-- A choice in the first conference, of whose bytes the first four are there.
abbrev after : Tagging → List Bool
after (saved c) =
    isbasetagged c 1 1 ∷ isbasetagged c 1 9 ∷ isbasetagged c 1 10 ∷ isanybasestagged c 1 ∷ []
after (cancelled c) = isanybasestagged c 1 ∷ []
after (choosing c) = []
after (lost c) = []

chosen :
    after
      (tagmessageareas 1 bases (codes "+ 9" ∷ codes "9 10 2 1" ∷ [] ∷ codes "-" ∷ []) (no_bytes 40))
    ≡ false ∷ true ∷ false ∷ true ∷ []
unfolding tagmessageareas isbasetagged isanybasestagged isspace tolower strtol atoi
chosen = refl

undone :
    after (tagmessageareas 1 bases (codes "+ 9" ∷ codes "- 1 C 9" ∷ []) (no_bytes 40)) ≡ false ∷ []
unfolding tagmessageareas isanybasestagged isspace tolower strtol atoi
undone = refl

tagmessageareas-Leaves_example :
    Leaves
      (base_choice 2 bases)
      (no_bytes 2056)
      (tagmessageareas 2 bases (codes "9" ∷ codes "c" ∷ []) (no_bytes 2056))
tagmessageareas-Leaves_example =
    tagmessageareas-Leaves 2 bases (codes "9" ∷ codes "c" ∷ []) (no_bytes 2056) refl (omega arith)
      (omega arith) (omega arith)

no_bytes-IsBytes : (n : ℕ) → IsBytes (no_bytes n)
no_bytes-IsBytes zero = tt
no_bytes-IsBytes (suc n) = (omega arith, no_bytes-IsBytes n)
