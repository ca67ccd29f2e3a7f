-- ===== src/Message/Netmail.antt =====
-- The addresses of netmail, `str2addr` of main/entermsg.c.
use daydream.Base.{ℕ, ◌-◌, ◌^◌, ◌%◌, Bool, ◌||◌, [], ◌∷◌, Option, none, some, ◌==◌, if◌then◌else◌}
use daydream.Base.CString.{Str, isdigit}
use daydream.Text.Numbers.{strtol}

pub record Address : Type 0 where
  pub fn_zone : ℕ
  pub fn_net : ℕ
  pub fn_node : ℕ
  pub fn_point : ℕ

abbrev pub no_address : Address
no_address = record { fn_zone = 0; fn_net = 0; fn_node = 0; fn_point = 0 }

-- The text up to a byte that passes the test, and the text from it on.
span_to : (ℕ → Bool) → Str → Str × Str
span_to stop [] = ([], [])
span_to stop (c ∷ s) =
    let (t, rest) = span_to stop s in if stop c then ([], c ∷ s) else (c ∷ t, rest)

-- `atoi` into an `unsigned short`.
short_of : Str → ℕ
unfolding strtol
short_of t = let n = strtol t in (if n.negative then 2 ^ 64 - n.magnitude else n.magnitude) % 2 ^ 16

addr_point : ℕ → ℕ → ℕ → Str → Option Address
unfolding short_of span_to
addr_point zone net node [] =
    some (record { fn_zone = zone; fn_net = net; fn_node = node; fn_point = 0 })
addr_point zone net node (c ∷ s) = some (record {
  fn_zone = zone;
  fn_net = net;
  fn_node = node;
  fn_point = if c == 13 || (c == 10) then 0 else short_of (span_to (λ c. c == 10 || (c == 13)) s).0;
})

addr_node : ℕ → ℕ → Str → Option Address
unfolding addr_point
addr_node zone net [] = none
addr_node zone net (_ ∷ s) =
    let (t, rest) = span_to (λ c. c == b'.' || (c == 13 || (c == 10))) s in
    addr_point zone net (short_of t) rest

addr_net : ℕ → Str → Option Address
unfolding addr_node
addr_net zone [] = none
addr_net zone (_ ∷ s) =
    let (t, rest) = span_to (λ c. c == b'/') s in addr_node zone (short_of t) rest

-- `none` is the result 0.
unfoldable pub str2addr : Str → Option Address
unfolding addr_net isdigit
str2addr [] = none
str2addr (c ∷ s) =
    let (t, rest) = span_to (λ c. c == b':') (c ∷ s) in
    let read = addr_net (short_of t) rest in if isdigit c then read else none
