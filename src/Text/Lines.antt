-- ===== src/Text/Lines.antt =====
-- Line reading: `fgetsnolf` of main/misc.c over the bytes left in a file, and the loop
-- `while (fgetsnolf(buf, n, fp))` that reads a list file.
use daydream.Base.{
  ℕ, zero, suc, ◌+◌, ◌-◌, ◌<◌, ◌≡◌, refl, ap, ◌≢◌, ◌||◌, List, [], ◌∷◌, ◌++◌, Option, none, some,
  arith, ◌==◌, if◌then◌else◌, length, All,
}
use daydream.Base.CString.{Str}

abbrev pub newline : ℕ
newline = 10

-- `fgets`: at most `room` bytes, through the first newline, and the bytes left.
pub fgets : ℕ → Str → Str × Str
fgets zero file = ([], file)
fgets (suc room) [] = ([], [])
fgets (suc room) (c ∷ file) =
    let (line, left) = fgets room file in if c == newline then (c ∷ [], file) else (c ∷ line, left)

-- `for (ptr = buffer; *ptr && *ptr != 0x0a && *ptr != 0x0d; ptr++); *ptr = '\0';`
pub cut_line : Str → Str
cut_line [] = []
cut_line (c ∷ line) =
    let rest = c ∷ cut_line line in if c == 0 || (c == 10 || c == 13) then [] else rest

-- The line, and the bytes left; `none` at the end of the file.
unfoldable pub fgetsnolf : ℕ → Str → Option (Str × Str)
unfolding fgets cut_line
fgetsnolf n [] = none
fgetsnolf n (c ∷ file) = let (line, left) = fgets (n - 1) (c ∷ file) in some (cut_line line, left)

pub next_lines : (Str → List Str) → Option (Str × Str) → List Str
next_lines rest none = []
next_lines rest (some (line, left)) = line ∷ rest left

-- Each round consumes a byte if the buffer has two bytes or more.
unfoldable pub read_lines : ℕ → ℕ → Str → List Str
unfolding next_lines
read_lines zero n file = []
read_lines (suc fuel) n file = next_lines (read_lines fuel n) (fgetsnolf n file)

abbrev pub IsLine : Str → Type 0
IsLine = All λ c. (c ≢ 0) × (c ≢ 10) × (c ≢ 13)

abbrev pub unlines : List Str → Str
unlines [] = []
unlines (l ∷ ls) = l ++ newline ∷ unlines ls

fgets-append :
    (room : ℕ) (l file : Str)
    → IsLine l
    → length l < room
    → fgets room (l ++ newline ∷ file) ≡ (l ++ newline ∷ [], file)
unfolding fgets
fgets-append zero l file h f = absurd (omega arith)
fgets-append (suc room) [] file h f = refl
fgets-append (suc room) (c ∷ l) file h f = ground (arith, fgets-append room l file h.1)

cut_line-append : (l : Str) → IsLine l → cut_line (l ++ newline ∷ []) ≡ l
unfolding cut_line
cut_line-append [] h = refl
cut_line-append (c ∷ l) h = ground (arith, cut_line-append l h.1)

-- A line that fits the buffer with its newline is read without it, and the reading goes on behind.
pub fgetsnolf-line :
    (n : ℕ) (l file : Str)
    → IsLine l
    → length l + 1 < n
    → fgetsnolf n (l ++ newline ∷ file) ≡ some (l, file)
unfolding fgetsnolf
fgetsnolf-line n [] file h f = ground (arith, fgets-append (n - 1) [] file h)
fgetsnolf-line n (c ∷ l) file h f =
    ground (arith, fgets-append (n - 1) (c ∷ l) file h, cut_line-append (c ∷ l) h)

-- With fuel above the number of lines the loop reads back any lines that fit the buffer.
pub read_lines-unlines :
    (fuel n : ℕ) (ls : List Str)
    → length ls < fuel
    → All (λ l. IsLine l × (length l + 1 < n)) ls
    → read_lines fuel n (unlines ls) ≡ ls
unfolding read_lines
read_lines-unlines zero n ls f h = absurd (omega arith)
read_lines-unlines (suc fuel) n [] f h = unfold fgetsnolf in refl
read_lines-unlines (suc fuel) n (l ∷ ls) f h =
    rw (fgetsnolf-line n l (unlines ls) h.0.0 h.0.1)
      (ap (◌∷◌ l) (read_lines-unlines fuel n ls (omega arith) h.1))
