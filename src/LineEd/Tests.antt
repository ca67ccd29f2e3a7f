-- ===== src/LineEd/Tests.antt =====
-- Short messages, and the theorems at them.
use daydream.Base.{ℕ, ◌≡◌, refl, true, false, List, [], ◌∷◌, none, some, arith}
use daydream.Base.CString.{Str, codes}
use daydream.LineEd.{Rows, Turn, lineed, negative, saved}
use daydream.LineEd.Draft.{compose, draft_loop, next_line}
use daydream.LineEd.Quote.{lineed-quoted}
use daydream.LineEd.Commands.{Agrees}
use daydream.LineEd.Session.{lineed-compose}

abbrev blank : Rows
blank = λ x. []

-- Two lines, the first of them deleted, and a save.
abbrev answers : List Str
answers = codes "one" ∷ codes "two" ∷ [] ∷ codes "d" ∷ codes "1" ∷ codes "1" ∷ codes "s" ∷ []

abbrev first_saved : Turn → List Str
first_saved (saved n rows) = rows 0 ∷ []
first_saved _ = []

deleted : first_saved (lineed none b'.' 24 blank 40000 false [] answers) ≡ codes "two" ∷ []
unfolding lineed daydream.Base.CString.tolower daydream.Text.Numbers.strtol
    daydream.Base.CString.isspace
deleted = refl

-- Deleting the line not typed yet from an empty message: a negative number of rows.
nothing_deleted :
    lineed none b'.' 24 blank 40000 false []
      ([] ∷ codes "d" ∷ codes "1" ∷ codes "1" ∷ codes "s" ∷ [])
    ≡ negative
unfolding lineed daydream.Base.CString.tolower daydream.Text.Numbers.strtol
    daydream.Base.CString.isspace
nothing_deleted = refl

-- The last quoted line is overwritten.
quoted :
    first_saved (
      lineed
        (some (codes "> you said" ∷ []))
        b'.'
        24
        blank
        40000
        true
        []
        (codes "my answer" ∷ [] ∷ codes "s" ∷ []))
    ≡ codes "my answer" ∷ []
unfolding lineed daydream.Base.CString.tolower
quoted = refl

lineed-compose_example :
    Agrees (lineed none b'.' 24 blank 40000 false [] answers) (compose b'.' 24 [] answers)
lineed-compose_example = lineed-compose none b'.' 24 blank 40000 [] answers

lineed-quoted_example :
    Agrees
      (lineed (some (codes "> one" ∷ codes "> two" ∷ [])) b'.' 24 blank 40000 true [] answers)
      (draft_loop b'.' 24 (next_line (codes "> one" ∷ []) []) answers)
lineed-quoted_example =
    lineed-quoted b'.' 24 blank 40000 (codes "> one") (codes "> two" ∷ []) [] answers refl
      (omega arith) (omega arith) (omega arith, (omega arith, tt))
