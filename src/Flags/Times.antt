-- ===== src/Flags/Times.antt =====
-- How long a download takes, in words: `secstosentence` and `estimsecs` of main/tagedit.c, for a
-- number of seconds that is not negative.
use daydream.Base.{
  ℕ, zero, suc, ◌+◌, ◌-◌, ◌*◌, ◌/◌, ◌%◌, ◌<◌, ◌≡◌, refl, ap, sym, Bool, true, false, not, ◌&&◌,
  ◌||◌, List, [], ◌∷◌, ◌++◌, Option, none, some, arith, ltb, ◌==◌, if◌then◌else◌, inl, inr,
  Bool-cases, ==→eq, take,
}
use daydream.Base.CString.{Str, codes, strlcat}
use daydream.Text.Numbers.{decimal}
use native.Mathlib.Nat.{zero-add}
use mathlib.Core.List.{append_assoc}

-- `while (secs > unit - 1) { n++; secs -= unit; }`, with fuel.
pub take_units : ℕ → ℕ → ℕ → ℕ → ℕ × ℕ
take_units unit zero secs n = (n, secs)
take_units unit (suc fuel) secs n =
    let rest = take_units unit fuel (secs - unit) (n + 1) in
    if ltb (unit - 1) secs then rest else (n, secs)

comma : Bool → Str → ℕ → Str
comma more buf buflen = if more then strlcat buf (codes ", ") buflen else buf

-- The three parts of the body, each with the text so far.
hours_part : ℕ → ℕ → Str
hours_part hr buflen =
    if ltb 1 hr
    then strlcat [] (decimal hr ++ codes " hours") buflen
    else if hr == 1
    then strlcat [] (codes "1 hour") buflen
    else []

minutes_part : ℕ → ℕ → Str → ℕ → Str
unfolding comma
minutes_part hr mins buf buflen =
    if mins == 0
    then buf
    else if ltb 1 mins
    then strlcat (comma (not (hr == 0)) buf buflen) (decimal mins ++ codes " minutes") buflen
    else strlcat (comma (not (hr == 0)) buf buflen) (codes "1 minute") buflen

seconds_part : ℕ → ℕ → ℕ → Str → ℕ → Str
unfolding comma
seconds_part hr mins sec buf buflen =
    if not (sec == 0) || mins == 0 && hr == 0
    then if sec == 1
      then strlcat (comma (not (hr == 0) || not (mins == 0)) buf buflen) (codes "1 second") buflen
      else strlcat (comma (not (hr == 0) || not (mins == 0)) buf buflen)
          (decimal sec ++ codes " seconds") buflen
    else buf

three_parts : ℕ → ℕ → ℕ → ℕ → Str
unfolding hours_part minutes_part seconds_part
three_parts hr mins sec buflen =
    seconds_part hr mins sec (minutes_part hr mins (hours_part hr buflen) buflen) buflen

unfoldable pub secstosentence : ℕ → ℕ → Str
unfolding take_units three_parts
secstosentence secs buflen =
    let (hr, rest) = take_units 3600 (suc secs) secs 0 in
    let (mins, sec) = take_units 60 (suc rest) rest 0 in three_parts hr mins sec buflen

-- `none` is a division by zero.
unfoldable pub estimsecs : ℕ → ℕ → ℕ → Option ℕ
estimsecs bpsrate efficiency bytes =
    if bpsrate == 0
    then some 0
    else if bpsrate / 9 * efficiency / 100 == 0
    then none
    else some (bytes / (bpsrate / 9 * efficiency / 100))

take_units_hours :
    (fuel secs n : ℕ) → secs < fuel → take_units 3600 fuel secs n ≡ (n + secs / 3600, secs % 3600)
unfolding take_units
take_units_hours zero secs n h = absurd (omega arith)
take_units_hours (suc fuel) secs n h = ground (arith, take_units_hours fuel (secs - 3600) (n + 1))

take_units_minutes :
    (fuel secs n : ℕ) → secs < fuel → take_units 60 fuel secs n ≡ (n + secs / 60, secs % 60)
unfolding take_units
take_units_minutes zero secs n h = absurd (omega arith)
take_units_minutes (suc fuel) secs n h = ground (arith, take_units_minutes fuel (secs - 60) (n + 1))

-- A number of things in words.
pub phrase : ℕ → Str → Str
phrase n unit =
    if n == 1 then codes "1 " ++ unit else decimal n ++ (codes " " ++ (unit ++ codes "s"))

phrases : ℕ → Str → List Str
phrases n unit = if n == 0 then [] else phrase n unit ∷ []

-- The phrases with commas between them, and no time is no seconds.
sentence : List Str → Str
sentence [] = codes "0 seconds"
sentence (p ∷ []) = p
sentence (p ∷ q ∷ rest) = p ++ (codes ", " ++ sentence (q ∷ rest))

unfoldable pub time_in_words : ℕ → ℕ → ℕ → Str
unfolding phrases sentence
time_in_words h m s =
    sentence (phrases h (codes "hour") ++ phrases m (codes "minute") ++ phrases s (codes "second"))

take-nil : (k : ℕ) → ◌≡◌ {A = Str} (take k []) []
take-nil zero = refl
take-nil (suc k) = refl

take-take-append : (k : ℕ) (a b : Str) → take k (take k a ++ b) ≡ take k (a ++ b)
take-take-append zero a b = refl
take-take-append (suc k) [] b = refl
take-take-append (suc k) (x ∷ a) b = ap (◌∷◌ x) (take-take-append k a b)

-- The text so far, a comma if there is any, and the next phrase.
add : Bool → Str → Str → Str
add more said p = if more then said ++ (codes ", " ++ p) else said ++ p

strlcat-comma :
    (more : Bool) (said p : Str) (n : ℕ)
    → strlcat (comma more (take (n - 1) said) n) p n ≡ take (n - 1) (add more said p)
unfolding strlcat comma add
strlcat-comma true said p n =
    rw (take-take-append (n - 1) said (codes ", "), take-take-append (n - 1) (said ++ codes ", ") p)
      (ap (take (n - 1)) (append_assoc said (codes ", ") p))
strlcat-comma false said p n = take-take-append (n - 1) said p

said_hours : ℕ → Str
said_hours h = if h == 0 then [] else phrase h (codes "hour")

said_minutes : ℕ → ℕ → Str → Str
said_minutes h m said = if m == 0 then said else add (not (h == 0)) said (phrase m (codes "minute"))

said_seconds : ℕ → ℕ → ℕ → Str → Str
said_seconds h m s said =
    if not (s == 0) || m == 0 && h == 0
    then add (not (h == 0) || not (m == 0)) said (phrase s (codes "second"))
    else said

hours_part_lem : (h n : ℕ) → hours_part h n ≡ take (n - 1) (said_hours h)
unfolding hours_part said_hours phrase strlcat
hours_part_lem zero n = sym (take-nil (n - 1))
hours_part_lem (suc zero) n = refl
hours_part_lem (suc (suc h)) n = ground arith

minutes_part_lem :
    (h m n : ℕ) (said : Str)
    → minutes_part h m (take (n - 1) said) n ≡ take (n - 1) (said_minutes h m said)
unfolding minutes_part said_minutes phrase
minutes_part_lem h m n said = ground (
  arith,
  strlcat-comma (not (h == 0)) said (decimal m ++ codes " minutes") n,
  strlcat-comma (not (h == 0)) said (codes "1 minute") n,
)

seconds_part_lem :
    (h m s n : ℕ) (said : Str)
    → seconds_part h m s (take (n - 1) said) n ≡ take (n - 1) (said_seconds h m s said)
unfolding seconds_part said_seconds phrase
seconds_part_lem h m s n said = ground (
  arith,
  strlcat-comma (not (h == 0) || not (m == 0)) said (decimal s ++ codes " seconds") n,
  strlcat-comma (not (h == 0) || not (m == 0)) said (codes "1 second") n,
)

no_seconds : (s : ℕ) → s ≡ 0 → phrase s (codes "second") ≡ codes "0 seconds"
unfolding phrase decimal
no_seconds s e = rw e

said-time_in_words :
    (h m s : ℕ) → said_seconds h m s (said_minutes h m (said_hours h)) ≡ time_in_words h m s
unfolding said_seconds said_minutes said_hours add phrases sentence time_in_words
said-time_in_words h m s =
    let hs = phrase h (codes "hour") in
    let ms = codes ", " ++ phrase m (codes "minute") in
    let ss = codes ", " ++ phrase s (codes "second") in
    elim (Bool-cases (h == 0)) [
      | inl a ↦ elim (Bool-cases (m == 0)) [
        | inl b ↦ elim (Bool-cases (s == 0)) [
          | inl c ↦ rw (a, b, c) (no_seconds s (==→eq s 0 c))
          | inr c ↦ rw (a, b, c)
        ]
        | inr b ↦ elim (Bool-cases (s == 0)) [ inl c ↦ rw (a, b, c) | inr c ↦ rw (a, b, c) ]
      ]
      | inr a ↦ elim (Bool-cases (m == 0)) [
        | inl b ↦ elim (Bool-cases (s == 0)) [ inl c ↦ rw (a, b, c) | inr c ↦ rw (a, b, c) ]
        | inr b ↦ elim (Bool-cases (s == 0)) [
          | inl c ↦ rw (a, b, c)
          | inr c ↦ rw (a, b, c) (append_assoc hs ms ss)
        ]
      ]
    ]

three_parts_lem : (h m s n : ℕ) → three_parts h m s n ≡ take (n - 1) (time_in_words h m s)
unfolding three_parts
three_parts_lem h m s n = rw (
  hours_part_lem h n,
  minutes_part_lem h m n (said_hours h),
  seconds_part_lem h m s n (said_minutes h m (said_hours h)),
  said-time_in_words h m s,
)

-- The sentence is the time in hours, minutes and seconds, in words, as far as the buffer holds it.
secstosentence_lem :
    (secs buflen : ℕ)
    → secstosentence secs buflen
      ≡ take (buflen - 1) (time_in_words (secs / 3600) (secs % 3600 / 60) (secs % 3600 % 60))
unfolding secstosentence
secstosentence_lem secs buflen =
    rw
      (
        take_units_hours (suc secs) secs 0 (omega arith),
        take_units_minutes (suc (secs % 3600)) (secs % 3600) 0 (omega arith),
        zero-add (secs / 3600),
        zero-add (secs % 3600 / 60),
      )
      (three_parts_lem (secs / 3600) (secs % 3600 / 60) (secs % 3600 % 60) buflen)
