-- ===== src/TextSearch.antt =====
-- The search for a text in the messages of a base, main/textsearch.c. What `Prompt` gives is an argument;
-- `pattern_type` is 0 and `read_all` is 1, since nothing sets them. The bytes `headers` that the reader is
-- given as its mask are a list of Booleans from the lowest number on.
pub mod Words
pub mod Marks
pub mod Found
mod Tests
use daydream.Base.{
  ℕ, zero, suc, ◌+◌, ◌-◌, Bool, true, false, not, ◌&&◌, ◌||◌, List, [], ◌∷◌, ◌++◌, Option, none,
  some, ltb, ◌==◌, if◌then◌else◌, set, get_elem?,
}
use daydream.Base.CString.{Str, isspace, tolower}
use daydream.Text.{skip_spaces}
use daydream.Access.{has_bit}
use daydream.Message.{Header, is_private}
use daydream.Message.Save.{Mail, Opens, getmsgptrs}
use daydream.UserBase.{UserEntry, findusername}
use daydream.Reader.{Viewer, Reading}
use daydream.Reader.Commands.{Continued, at_message, closed, readmessages}

-- The loop of `shrink_spaces`; the Boolean says whether the byte before was a space.
unfoldable pub shrink_from : Bool → Str → Str
unfolding isspace tolower
shrink_from in_run [] = []
shrink_from in_run (c ∷ s) =
    let behind_space = shrink_from true s in
    let behind = shrink_from false s in
    if isspace c
    then (if in_run then behind_space else tolower c ∷ behind_space)
    else tolower c ∷ behind

unfoldable pub shrink_spaces : Str → Str
unfolding shrink_from
shrink_spaces s = shrink_from false s

unfoldable pub is_quote : ℕ → Bool
is_quote c = c == b'"' || (c == 39)

-- The loop of `quoted2plain`: the plain text, and what is left of the quoted one. `quote_on` is the open
-- quote, or 0.
unfoldable pub plain_from : ℕ → Str → Str × Str
unfolding isspace is_quote
plain_from quote_on [] = ([], [])
plain_from quote_on (c ∷ s) =
    let inside = plain_from c s in
    let outside = plain_from 0 s in
    let rest = plain_from quote_on s in
    if isspace c && (quote_on == 0)
    then ([], c ∷ s)
    else if is_quote c && (quote_on == 0)
    then inside
    else if is_quote c && (quote_on == c)
    then outside
    else (c ∷ rest.0, rest.1)

unfoldable pub quoted2plain : Str → Str × Str
unfolding plain_from
quoted2plain quoted = plain_from 0 quoted

-- `search_str` by the parameters of the command, if there are any.
unfoldable pub handle_params : Option Str → Str
unfolding quoted2plain
handle_params none = []
handle_params (some params) = (quoted2plain (skip_spaces params)).0

unfoldable pub typed_text : Option Str → Str
unfolding quoted2plain shrink_spaces
typed_text none = []
typed_text (some buffer) = shrink_spaces (quoted2plain buffer).0

-- `search_str` in the end; `answer` is what is typed, if it is asked for.
unfoldable pub ask_params : Str → Option Str → Str
unfolding typed_text shrink_spaces
ask_params [] answer = typed_text answer
ask_params (c ∷ search_str) answer = shrink_spaces (c ∷ search_str)

pub record Searcher : Type 0 where
  pub account_id : ℕ
  pub userbase : Option (List UserEntry)

unfoldable pub read_all : Bool
read_all = true

unfoldable pub is_user : Option ℕ → ℕ → Bool
is_user none id = false
is_user (some n) id = n == id

-- The record is marked, if its number is within the pointers.
unfoldable pub is_listed : Searcher → Mail → Header → Bool
unfolding is_private has_bit read_all is_user findusername
is_listed u m h =
    not (ltb h.msg_number m.lowest || ltb m.highest h.msg_number)
    && not (has_bit h.msg_flags 1)
    && not (
        is_private h
        && not read_all
        && not (is_user (findusername u.userbase h.msg_receiver) u.account_id))

unfoldable pub mark_headers : Searcher → Mail → List Header → List Bool → List Bool
unfolding is_listed
mark_headers u m [] ofs = ofs
mark_headers u m (h ∷ hs) ofs =
    mark_headers u m hs (if is_listed u m h then set ofs (h.msg_number - m.lowest) true else ofs)

unfoldable pub zeros : ℕ → List Bool
zeros zero = []
zeros (suc n) = false ∷ zeros n

unfoldable pub get_headers : Searcher → Mail → List Bool
unfolding mark_headers zeros
get_headers u m = mark_headers u m m.headers (zeros (1 + m.highest - m.lowest))

-- `strstr(contents, search_str) != NULL`
unfoldable pub starts_with : Str → Str → Bool
starts_with [] s = true
starts_with (c ∷ pattern) [] = false
starts_with (c ∷ pattern) (d ∷ s) = c == d && starts_with pattern s

unfoldable pub strstr : Str → Str → Bool
unfolding starts_with
strstr [] pattern = starts_with pattern []
strstr (c ∷ s) pattern = starts_with pattern (c ∷ s) || strstr s pattern

unfoldable pub simple_search : Str → Option Str → Bool
unfolding strstr shrink_spaces
simple_search search_str none = false
simple_search search_str (some contents) = strstr (shrink_spaces contents) search_str

-- The loop of `scan_msgbase` from number `i` on: the bytes that are left, and `first`.
unfoldable pub scan_numbers : Str → (ℕ → Option Str) → ℕ → List Bool → List Bool × Option ℕ
unfolding simple_search
scan_numbers search_str texts i [] = ([], none)
scan_numbers search_str texts i (listed ∷ headers) =
    let (rest, first) = scan_numbers search_str texts (suc i) headers in
    let hit = listed && simple_search search_str (texts i) in
    (hit ∷ rest, if hit then some i else first)

-- `headers[n - lowest]`. Outside the bytes, where the reader does not depend on what it reads, 0.
unfoldable pub mask_at : List Bool → ℕ → ℕ → Bool
mask_at headers lowest n =
    not (ltb n lowest) && elim (get_elem? headers (n - lowest)) [ none ↦ false | some b ↦ b ]

unfoldable pub scanned : Searcher → Str → Mail → List Bool × Option ℕ
unfolding scan_numbers get_headers
scanned u search_str m = scan_numbers search_str m.texts m.lowest (get_headers u m)

unfoldable pub read_found :
    Viewer → Opens → List Str → Reading → ℕ → List Bool × Option ℕ → Continued
unfolding mask_at readmessages
read_found v o lines r lowest (headers, none) = closed r 0
read_found v o lines r lowest (headers, some first) =
    readmessages v o none (at_message first) (some (mask_at headers lowest)) lines r

-- `scan_msgbase` behind `changemsgbase`, where msgbase.dat can be opened.
unfoldable pub scan_msgbase : Viewer → Opens → Searcher → Str → List Str → Reading → Continued
unfolding scanned read_found getmsgptrs
scan_msgbase v o u search_str lines r =
    let m = getmsgptrs r.mail in
    read_found v o lines (record r { mail = m }) m.lowest (scanned u search_str m)
