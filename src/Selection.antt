-- ===== src/Selection.antt =====
-- The bases and conferences that a user selects for scans: `tagmessageareas`, `tagconfs` and the tests
-- behind them in main/edituser.c, on the bytes of `selcfg`. Each conference from 1 to 64 has 32 bytes, a bit
-- for each base; eight bytes at 2048 have a bit for each conference. The lines typed are a list, at whose
-- end the carrier is lost; a line has at most 80 bytes. The list on the screen is left out.
mod Tokens
pub mod Bits
pub mod Outside
pub mod Areas
pub mod Toggles
mod Tests
use daydream.Base.{
  ℕ, zero, suc, ◌+◌, ◌-◌, ◌*◌, ◌/◌, ◌%◌, ◌^◌, Bool, true, false, not, ◌&&◌, List, [], ◌∷◌, ◌++◌,
  Option, none, some, ltb, ◌==◌, if◌then◌else◌, set, get_elem?, take, drop, length, any,
}
use daydream.Base.CString.{Str, codes, strcase_eq}
use daydream.Text.{strtoken, Token}
use daydream.Access.{has_bit}
use daydream.LineEd.{atoi}
use daydream.Message.{set_bit}
use daydream.Conference.{MsgBase}

abbrev pub Bytes : Type 0
Bytes = List ℕ

unfoldable pub byte_at : Bytes → ℕ → ℕ
byte_at selcfg i = elim (get_elem? selcfg i) [ none ↦ 0 | some b ↦ b ]

-- The place of the bytes of a conference.
unfoldable pub base_bytes : ℕ → ℕ
base_bytes tconf = (tconf - 1) * 32

-- The bit of number `n`, from 1 on, in the bytes from `place` on.
unfoldable pub is_selected : Bytes → ℕ → ℕ → Bool
unfolding byte_at has_bit
is_selected selcfg place n = has_bit (byte_at selcfg (place + (n - 1) / 8)) ((n - 1) % 8)

unfoldable pub isbasetagged : Bytes → ℕ → ℕ → Bool
unfolding is_selected base_bytes
isbasetagged selcfg tconf tbase = is_selected selcfg (base_bytes tconf) tbase

unfoldable pub isconftagged : Bytes → ℕ → Bool
unfolding is_selected
isconftagged selcfg tconf = is_selected selcfg 2048 tconf

-- The loop of `isanybasestagged` over so many bytes.
unfoldable pub any_byte : Bytes → ℕ → ℕ → Bool
unfolding byte_at
any_byte selcfg place zero = false
any_byte selcfg place (suc n) =
    let rest = any_byte selcfg (suc place) n in if byte_at selcfg place == 0 then rest else true

unfoldable pub isanybasestagged : Bytes → ℕ → Bool
unfolding any_byte base_bytes
isanybasestagged selcfg tconf = any_byte selcfg (base_bytes tconf) 32

-- `bits & ~(1L << n)`
unfoldable pub clear_bit : ℕ → ℕ → ℕ
unfolding has_bit
clear_bit bits n = if has_bit bits n then bits - 2 ^ n else bits

-- A bit is set that was not, or the other way round.
unfoldable pub toggle_bit : ℕ → ℕ → ℕ
unfolding has_bit clear_bit set_bit
toggle_bit bits n = if has_bit bits n then clear_bit bits n else set_bit bits n

unfoldable pub toggle : Bytes → ℕ → ℕ → Bytes
unfolding byte_at toggle_bit
toggle selcfg place n =
    let i = place + (n - 1) / 8 in set selcfg i (toggle_bit (byte_at selcfg i) ((n - 1) % 8))

unfoldable pub tag : Bytes → ℕ → ℕ → Bytes
unfolding byte_at set_bit
tag selcfg place n =
    let i = place + (n - 1) / 8 in set selcfg i (set_bit (byte_at selcfg i) ((n - 1) % 8))

-- `memcpy(&selcfg[place], bytes, sizeof bytes)`, also as a loop.
unfoldable pub copy_to : Bytes → ℕ → Bytes → Bytes
copy_to selcfg place [] = selcfg
copy_to selcfg place (b ∷ bytes) = copy_to (set selcfg place b) (suc place) bytes

-- `bytes[i] = b` for so many `i`.
unfoldable pub filled : ℕ → ℕ → Bytes
filled zero b = []
filled (suc n) b = b ∷ filled n b

-- The tokens of a line; the fuel is one for each byte and the end.
unfoldable pub tokens_from : ℕ → Str → List Str
unfolding strtoken
tokens_from zero s = []
tokens_from (suc fuel) s =
    let t = strtoken (some s) 90 in
    let rest = tokens_from fuel t.end in
    if ltb 90 t.size then rest else elim t.dest [ [] ↦ [] | c ∷ tok ↦ (c ∷ tok) ∷ rest ]

-- An empty line is `s`.
unfoldable pub or_save : Str → Str
or_save [] = codes "s"
or_save (c ∷ inp) = c ∷ inp

unfoldable pub tokens : Str → List Str
unfolding tokens_from or_save
tokens inp = let line = or_save inp in tokens_from (suc (length line)) line

-- Where the commands work: the bytes from `place` on, their number, what `+` does, and which numbers can be
-- toggled.
pub record Choice : Type 0 where
  pub place : ℕ
  pub size : ℕ
  pub select_all : Bytes → Bytes
  pub is_offered : ℕ → Bool

-- The prompt comes again, or the function returns: by `c`, by `s`, or since the carrier is lost.
pub data Tagging : Type 0 where
  choosing cancelled saved lost : Bytes → Tagging

-- A token that is a number.
toggle_number : Choice → Option ℕ → Bytes → Bytes
unfolding toggle
toggle_number k none selcfg = selcfg
toggle_number k (some i) selcfg =
    if not (i == 0) && k.is_offered i then toggle selcfg k.place i else selcfg

-- The loop over the tokens; `v` leaves it.
unfoldable pub obey_tokens : Choice → Bytes → List Str → Bytes → Tagging
unfolding strcase_eq copy_to filled toggle_number atoi
obey_tokens k backup [] selcfg = choosing selcfg
obey_tokens k backup (tok ∷ toks) selcfg =
    let cleared = obey_tokens k backup toks (copy_to selcfg k.place (filled k.size 0)) in
    let all = obey_tokens k backup toks (k.select_all selcfg) in
    let number = obey_tokens k backup toks (toggle_number k (atoi tok) selcfg) in
    if strcase_eq tok (codes "c")
    then cancelled (copy_to selcfg k.place backup)
    else if strcase_eq tok (codes "v")
    then choosing selcfg
    else if strcase_eq tok (codes "s")
    then saved selcfg
    else if strcase_eq tok (codes "-")
    then cleared
    else if strcase_eq tok (codes "+")
    then all
    else number

unfoldable pub tag_lines : Choice → Bytes → List Str → Tagging → Tagging
unfolding obey_tokens tokens
tag_lines k backup lines (cancelled selcfg) = cancelled selcfg
tag_lines k backup lines (saved selcfg) = saved selcfg
tag_lines k backup lines (lost selcfg) = lost selcfg
tag_lines k backup [] (choosing selcfg) = lost selcfg
tag_lines k backup (line ∷ lines) (choosing selcfg) =
    tag_lines k backup lines (obey_tokens k backup (tokens line) selcfg)

unfoldable pub choose : Choice → List Str → Bytes → Tagging
unfolding tag_lines
choose k lines selcfg = tag_lines k (take k.size (drop k.place selcfg)) lines (choosing selcfg)

-- `for (i = 0; i < bcnt; i++)` of `+`
unfoldable pub tag_bases : ℕ → List MsgBase → Bytes → Bytes
unfolding tag
tag_bases place [] selcfg = selcfg
tag_bases place (mb ∷ bases) selcfg = tag_bases place bases (tag selcfg place mb.msgbase_number)

unfoldable pub has_base : List MsgBase → ℕ → Bool
has_base [] i = false
has_base (mb ∷ bases) i = if i == mb.msgbase_number then true else has_base bases i

unfoldable pub base_choice : ℕ → List MsgBase → Choice
unfolding base_bytes tag_bases has_base
base_choice tconf bases = record {
  place = base_bytes tconf;
  size = 32;
  select_all = tag_bases (base_bytes tconf) bases;
  is_offered = has_base bases;
}

-- In the conference `tconf` with these bases.
unfoldable pub tagmessageareas : ℕ → List MsgBase → List Str → Bytes → Tagging
unfolding choose base_choice
tagmessageareas tconf bases lines selcfg = choose (base_choice tconf bases) lines selcfg

-- `access` is what `checkconfaccess` answers, `confs` the numbers of the conferences.
unfoldable pub conf_choice : (ℕ → Bool) → List ℕ → Choice
unfolding copy_to filled
conf_choice access confs = record {
  place = 2048;
  size = 8;
  select_all = λ selcfg. copy_to selcfg 2048 (filled 8 255);
  is_offered = λ i. ltb i 65 && access i && any (λ n. n == i) confs;
}

unfoldable pub tagconfs : (ℕ → Bool) → List ℕ → List Str → Bytes → Tagging
unfolding choose conf_choice
tagconfs access confs lines selcfg = choose (conf_choice access confs) lines selcfg
