-- ===== src/Glob/Tests.antt =====
-- Runs of `wildcmp`, and its theorems at concrete names.
use daydream.Base.{◌≡◌, refl, ◌↔◌, true, false, arith}
use daydream.Base.CString.{codes, tolower}
use daydream.Glob.{wildcmp, iswilds}
use daydream.Glob.Matches.{Matches}
use daydream.Glob.Decides.{wildcmp_iff}

finds_suffix : wildcmp (codes "README.TXT") (codes "r*.t?t") ≡ true
unfolding wildcmp tolower
finds_suffix = refl

needs_whole_name : wildcmp (codes "readme.txt") (codes "*.tx") ≡ false
unfolding wildcmp tolower
needs_whole_name = refl

has_wilds : iswilds (codes "a*b") ≡ true
unfolding iswilds
has_wilds = refl

wildcmp_iff_example :
    (wildcmp (codes "file.lha") (codes "*.LHA") ≡ true) ↔ Matches (codes "*.LHA") (codes "file.lha")
wildcmp_iff_example = wildcmp_iff (codes "file.lha") (codes "*.LHA") (omega arith) (ground arith)
