-- ===== src/Text/Tests.antt =====
-- Runs of the text helpers, and their theorems at concrete texts.
use daydream.Base.{◌≡◌, refl, some, arith, leb, ◌&&◌, if◌then◌else◌}
use daydream.Base.CString.{codes, isspace}
use daydream.Text.{removespaces}
use daydream.Text.Numbers.{strtol, str2uint, ok, bad, decimal, str2uint-decimal}

trims : removespaces (codes "ab  ") ≡ some (codes "ab")
unfolding removespaces
trims = refl

reads_number : str2uint (codes " +42") 1 99 ≡ ok 42
unfolding str2uint strtol isspace
reads_number = refl

str2uint-decimal_example :
    str2uint (decimal 42) 1 99 ≡ (if leb 1 42 && leb 42 99 then ok 42 else bad)
str2uint-decimal_example = str2uint-decimal 42 1 99 (omega arith) (omega arith)
