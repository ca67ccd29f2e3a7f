-- ===== src/Join.antt =====
-- Joining conferences and message bases, main/joinconf.c with `getmsgptrs` of main/entermsg.c. What the
-- user types is the list of the lines that `Prompt` returns; at its end `Prompt` fails. A number that C
-- reads is `none` if it is negative. Display is left out.
pub mod Pointers
pub mod Entry
mod Allowed
pub mod Current
mod Tests
use daydream.Base.{
  ℕ, suc, ◌+◌, ◌-◌, ◌%◌, ◌^◌, Bool, true, false, not, ◌&&◌, ◌||◌, List, [], ◌∷◌, Option, none, some,
  ◌==◌, ltb, if◌then◌else◌, length,
}
use daydream.Base.CString.{Str, codes, str_eq, strcase_eq}
use daydream.Text.Numbers.{Strtol, strtol}
use daydream.Access.{Security, Account, checkconfaccess}
use daydream.Conference.{MsgBase, ConfRecord, Conference}

-- A message base's directory: the conference's path and the base's number.
abbrev pub BaseKey : Type 0
BaseKey = Str × ℕ

-- The files of the bases. `lrp` gives the two last-read pointers of a user's slot in msgbase.lrp, 0 and 0
-- where the file is missing or short; `ptr` the lowest and highest message of msgbase.ptr.
pub record BaseFiles : Type 0 where
  pub lrp_file : BaseKey → ℕ → ℕ × ℕ
  pub ptr_file : BaseKey → ℕ × ℕ
  pub can_write : BaseKey → Bool

-- The globals; `lrp_open` is the base that `lrpdatname` names, if it is set.
pub record Reader : Type 0 where
  pub user : Account
  pub user_joinconference : ℕ
  pub conference : Conference
  pub current_msgbase : Option MsgBase
  pub lrp : ℕ
  pub lsp : ℕ
  pub oldlrp : ℕ
  pub oldlsp : ℕ
  pub lowest : ℕ
  pub highest : ℕ
  pub lrp_open : Option BaseKey
  pub files : BaseFiles

pub key_eq : BaseKey → BaseKey → Bool
key_eq (p, m) (q, n) = m == n && str_eq p q

-- `lseek` to the slot and `safe_write` of the two 16-bit pointers
unfoldable pub write_lrp : BaseFiles → BaseKey → ℕ → ℕ → ℕ → BaseFiles
unfolding key_eq
write_lrp f key slot read scan = record f {
  lrp_file =
      λ k s. if key_eq k key && (s == slot) then (read % 2 ^ 16, scan % 2 ^ 16) else f.lrp_file k s;
}

unfoldable pub key_of : Reader → MsgBase → BaseKey
key_of r cb = (r.conference.conf.conf_path, cb.msgbase_number)

unfoldable pub getmsgptrs : Reader → MsgBase → Reader
unfolding key_of
getmsgptrs r cb = record r {
  lowest = (r.files.ptr_file (key_of r cb)).0;
  highest = (r.files.ptr_file (key_of r cb)).1;
}

-- The pointers of the base that is left are saved if they changed; `none` if the file cannot be opened.
unfoldable pub save_lrp : Reader → Option BaseKey → Option Reader
unfolding write_lrp
save_lrp r none = some r
save_lrp r (some key) =
    if r.oldlrp == r.lrp && (r.oldlsp == r.lsp)
    then some r
    else if r.files.can_write key
    then some (record r { files = write_lrp r.files key r.user.user_account_id r.lrp r.lsp })
    else none

-- The pointers of the base that is entered.
unfoldable pub load_lrp : Reader → MsgBase → Reader
unfolding key_of
load_lrp r cb =
    let at = r.files.lrp_file (key_of r cb) r.user.user_account_id in
    record r { lrp_open = some (key_of r cb); lrp = at.0; lsp = at.1; oldlrp = at.0; oldlsp = at.1 }

after_save : MsgBase → Reader → Option Reader → Reader × Bool
unfolding load_lrp getmsgptrs
after_save cb r none = (r, false)
after_save cb r (some r') = (getmsgptrs (load_lrp r' cb) cb, true)

-- The body of the loop of `changemsgbase` for the base that was found.
unfoldable pub enter_base : Reader → MsgBase → Reader × Bool
unfolding after_save save_lrp getmsgptrs
enter_base r cb =
    let r' = getmsgptrs (record r { current_msgbase = some cb }) cb in
    after_save cb r' (save_lrp r' r'.lrp_open)

unfoldable pub find_msgbase : List MsgBase → ℕ → Option MsgBase
find_msgbase [] basen = none
find_msgbase (b ∷ bs) basen = if b.msgbase_number == basen then some b else find_msgbase bs basen

-- `(int) strtol(s, NULL, 10)` of a short line, `none` if it is negative.
unfoldable pub to_number : Strtol → Option ℕ
to_number n = if n.negative && ltb 0 n.magnitude then none else some n.magnitude

-- `while (!basen)`: the number typed, or `none` where the source returns 0.
unfoldable pub ask_base : List Str → Option (Option ℕ)
unfolding to_number
ask_base [] = none
ask_base ([] ∷ inputs) = none
ask_base ((c ∷ line) ∷ inputs) =
    let again = ask_base inputs in
    if strcase_eq (c ∷ line) (codes "?") || strcase_eq (c ∷ line) (codes "l")
    then again
    else elim (to_number (strtol (c ∷ line))) [
      | none ↦ some none
      | some n ↦ if n == 0 then again else some (some n)
    ]

enter_found : Reader → Option MsgBase → Reader × Bool
unfolding enter_base
enter_found r none = (r, false)
enter_found r (some cb) = enter_base r cb

enter_number : Reader → Option (Option ℕ) → Reader × Bool
unfolding enter_found find_msgbase
enter_number r none = (r, false)
enter_number r (some none) = (r, false)
enter_number r (some (some basen)) = enter_found r (find_msgbase r.conference.msgbases basen)

-- `quick` is the flag MC_QUICK.
unfoldable pub changemsgbase : Reader → Option ℕ → Bool → List Str → Reader × Bool
unfolding enter_number ask_base
changemsgbase r none quick inputs =
    if length r.conference.msgbases == 0
    then (record r { current_msgbase = none }, false)
    else enter_number r (some none)
changemsgbase r (some newb) quick inputs =
    let count = length r.conference.msgbases in
    let basen = if ltb count newb then 0 else newb in
    if count == 0
    then (record r { current_msgbase = none }, false)
    else if basen == 0 && (quick || count == 1)
    then (r, false)
    else enter_number r (if basen == 0 then ask_base inputs else some (some basen))

unfoldable pub nextbase : Reader → MsgBase → List Str → Reader × Bool
unfolding changemsgbase
nextbase r cb inputs = changemsgbase r (some (cb.msgbase_number + 1)) false inputs

-- One below base 0 is negative.
unfoldable pub prevbase : Reader → MsgBase → List Str → Reader × Bool
unfolding changemsgbase
prevbase r cb inputs =
    changemsgbase r (if cb.msgbase_number == 0 then none else some (cb.msgbase_number - 1)) false
      inputs

unfoldable pub cmbmenu : Reader → Option Str → List Str → Reader × Bool
unfolding changemsgbase to_number
cmbmenu r none inputs = changemsgbase r (some 0) false inputs
cmbmenu r (some cmbparams) inputs = changemsgbase r (to_number (strtol cmbparams)) false inputs

pub record JoinFlags : Type 0 where
  pub jc_shutup : Bool
  pub jc_quick : Bool
  pub jc_noupdate : Bool

-- `while (newconfnum == -1)`: the number typed, and what is left of the input.
unfoldable pub ask_conf : List Str → Option (Option ℕ × List Str)
unfolding to_number
ask_conf [] = none
ask_conf ([] ∷ inputs) = none
ask_conf ((c ∷ line) ∷ inputs) =
    let again = ask_conf inputs in
    if strcase_eq (c ∷ line) (codes "l") || (c == b'?')
    then again
    else if length (strtol (c ∷ line)).endptr == 0
    then some (to_number (strtol (c ∷ line)), inputs)
    else again

-- The password prompt, if the conference has one and no flag skips it.
unfoldable pub password_ok : Str → JoinFlags → List Str → Bool
password_ok [] flags inputs = true
password_ok (c ∷ passwd) flags inputs =
    if flags.jc_shutup || flags.jc_quick
    then true
    else elim inputs [ [] ↦ false | line ∷ rest ↦ strcase_eq line (c ∷ passwd) ]

first_base : List MsgBase → Option MsgBase
first_base [] = none
first_base (b ∷ bs) = some b

-- `set_conference`
unfoldable pub set_conference : Reader → Conference → Reader
set_conference r mc = record r { conference = mc }

-- Whether the password is asked for.
unfoldable pub asks_password : Str → JoinFlags → Bool
asks_password [] flags = false
asks_password (c ∷ passwd) flags = not (flags.jc_shutup) && not (flags.jc_quick)

-- While the text of the password prompt is shown, the conference is the one to be joined.
unfoldable pub show_password : Reader → Conference → JoinFlags → Reader
unfolding set_conference asks_password
show_password r mc flags =
    let shown = set_conference r mc in
    if asks_password mc.conf.conf_passwd flags then set_conference shown r.conference else r

-- The conference is entered with its first base.
enter_first : Reader → Option MsgBase → Reader
unfolding changemsgbase
enter_first r none = r
enter_first r (some cb) = (changemsgbase r (some cb.msgbase_number) true []).0

unfoldable pub enter_conference : Reader → Conference → JoinFlags → Reader
unfolding enter_first first_base
enter_conference r mc flags =
    let r' = record r {
      user_joinconference =
          if flags.jc_noupdate then r.user_joinconference else mc.conf.conf_number % 2 ^ 8;
      conference = mc;
      current_msgbase = first_base mc.msgbases;
    } in
    enter_first r' (first_base mc.msgbases)

-- The loop over the conferences. The access check refreshes the user record.
unfoldable pub join_found :
    Security → List Conference → Reader → Option ℕ → JoinFlags → List Str → Reader × Bool
unfolding password_ok show_password enter_conference
join_found sec mcs r none flags inputs = (r, false)
join_found sec [] r (some confn) flags inputs = (r, false)
join_found sec (mc ∷ mcs) r (some confn) flags inputs =
    let rest = join_found sec mcs r (some confn) flags inputs in
    let (user', granted) = checkconfaccess sec confn r.user in
    let r' = record r { user = user' } in
    let at_password = show_password r' mc flags in
    if not (mc.conf.conf_number == confn)
    then rest
    else if not granted
    then (r', false)
    else if password_ok mc.conf.conf_passwd flags inputs
    then (enter_conference at_password mc flags, true)
    else (at_password, false)

join_asked :
    Security → List Conference → Reader → JoinFlags → Option (Option ℕ × List Str) → Reader × Bool
unfolding join_found
join_asked sec mcs r flags none = (r, false)
join_asked sec mcs r flags (some (confn, inputs)) = join_found sec mcs r confn flags inputs

-- `none` is the number -1, which asks.
unfoldable pub joinconf :
    Security → List Conference → Reader → Option ℕ → JoinFlags → List Str → Reader × Bool
unfolding join_asked ask_conf
joinconf sec mcs r none flags inputs = join_asked sec mcs r flags (ask_conf inputs)
joinconf sec mcs r (some confn) flags inputs = join_found sec mcs r (some confn) flags inputs

-- What the menu's parameter asks for; `none` asks the user.
unfoldable pub menu_number : Option Str → Option ℕ
unfolding to_number
menu_number none = none
menu_number (some []) = none
menu_number (some (c ∷ jcparams)) =
    if c == b'l' || (c == b'L') || (c == b'?')
    then none
    else if length (strtol (c ∷ jcparams)).endptr == 0
    then to_number (strtol (c ∷ jcparams))
    else none

unfoldable pub joinconfmenu :
    Security → List Conference → Reader → Option Str → List Str → Reader × Bool
unfolding joinconf menu_number
joinconfmenu sec mcs r jcparams inputs =
    joinconf sec mcs r (menu_number jcparams)
      (record { jc_shutup = false; jc_quick = false; jc_noupdate = false }) inputs

-- The loop of `nextconf` and `prevconf` over the conferences on that side of the current one.
unfoldable pub join_first_open :
    Security → List Conference → List Conference → Reader → List Str → Reader × Bool
unfolding joinconf
join_first_open sec mcs [] r inputs =
    joinconf sec mcs r none (record { jc_shutup = false; jc_quick = false; jc_noupdate = false })
      inputs
join_first_open sec mcs (mc ∷ later) r inputs =
    let (user', granted) = checkconfaccess sec mc.conf.conf_number r.user in
    let r' = record r { user = user' } in
    let rest = join_first_open sec mcs later r' inputs in
    let joined =
      joinconf sec mcs r' (some mc.conf.conf_number)
        (record { jc_shutup = false; jc_quick = false; jc_noupdate = false }) inputs in
    if granted then joined else rest
