-- ===== src/Glob.antt =====
-- File name wildcards: `wildcmp` and `iswilds` of main/misc.c.
pub mod Matches
pub mod Decides
pub mod Limits
mod Tests
use daydream.Base.{ℕ, zero, suc, Bool, true, false, ◌&&◌, ◌||◌, [], ◌∷◌, ◌==◌, if◌then◌else◌, any}
use daydream.Base.CString.{Str, tolower}

abbrev pub star : ℕ
star = b'*'

abbrev pub question : ℕ
question = b'?'

-- `for (p = nam + strlen(nam) - 1; p >= nam; p--)`: some non-empty suffix, from the shortest on,
-- whose first byte equals `c` up to case and which `again` accepts.
pub suffix_loop : ℕ → (Str → Bool) → Str → Bool
suffix_loop c again [] = false
suffix_loop c again (n ∷ nam) =
    suffix_loop c again nam || (tolower n == tolower c && again (n ∷ nam))

-- `wildcmp` from the point `pat` on. In mode 0 it is in the `for (;;)`, and in mode 1 in the loop
-- that skips the stars and in what follows it.
pub wildcmp_from : Str → ℕ → Str → Bool
unfolding suffix_loop
wildcmp_from [] zero [] = true
wildcmp_from [] zero (n ∷ nam) = false
wildcmp_from (c ∷ pat) zero [] = if c == star then wildcmp_from pat 1 [] else false
wildcmp_from (c ∷ pat) zero (n ∷ nam) =
    let onward = wildcmp_from pat 0 nam in
    let skip = wildcmp_from pat 1 (n ∷ nam) in
    if tolower n == tolower c || c == question then onward else if c == star then skip else false
wildcmp_from [] (suc mode) nam = true
wildcmp_from (c ∷ pat) (suc mode) nam =
    let skip = wildcmp_from pat 1 nam in
    if c == star then skip else suffix_loop c (wildcmp_from (c ∷ pat) mode) nam

unfoldable pub wildcmp : Str → Str → Bool
unfolding wildcmp_from
wildcmp nam pat = wildcmp_from pat 0 nam

unfoldable pub iswilds : Str → Bool
iswilds strh = any (λ c. c == star) strh || any (λ c. c == question) strh
