-- ===== src/Keys.antt =====
-- Single keys, `HotKey` of main/hotkey.c. What `read_input` gives, call by call, is a list; while it is
-- empty the call waits. `handlectrl`, the sysop's keys of main/unix.c, is a parameter.
pub mod Answers
pub mod Arrows
mod Tests
use daydream.Base.{
  ℕ, zero, suc, Bool, true, false, ◌&&◌, ◌||◌, not, List, [], ◌∷◌, Option, none, some, ◌==◌,
  if◌then◌else◌,
}

-- `struct input_t`: the carrier or the time is gone, nothing came in time, a key of the user or of the
-- sysop, or a signal.
pub data Input : Type 0 where
  carrier_lost timed_out : Input
  user_key sysop_key : ℕ → Input
  signalled : Input

-- The argument `params`.
pub record Hot : Type 0 where
  pub hot_delay : Bool
  pub hot_quick : Bool
  pub hot_yesno : Bool
  pub hot_noyes : Bool
  pub hot_cursor : Bool
  pub hot_re : Bool

abbrev pub no_hot : Hot
no_hot = record {
  hot_delay = false;
  hot_quick = false;
  hot_yesno = false;
  hot_noyes = false;
  hot_cursor = false;
  hot_re = false;
}

abbrev pub cursor_hot : Hot
cursor_hot = record no_hot { hot_cursor = true }

-- The return value, whether the call has dropped the carrier, and the input that is left.
pub record Reply : Type 0 where
  pub code : ℕ
  pub dropped : Bool
  pub rest : List Input

abbrev pub reply : ℕ → List Input → Reply
reply code rest = record { code = code; dropped = false; rest = rest }

abbrev pub hang_up : List Input → Reply
hang_up rest = record { code = 0; dropped = true; rest = rest }

next_keys : (List Input → List ℕ) → Option Reply → List ℕ
next_keys again none = []
next_keys again (some r) = if r.dropped then [] else r.code ∷ again r.rest

-- The last byte of an arrow key.
unfoldable pub arrow : ℕ → ℕ
arrow c =
    if c == b'A'
    then 250
    else if c == b'B'
    then 251
    else if c == b'C'
    then 252
    else if c == b'D'
    then 253
    else c

-- What follows an introducer.
arrow_key : Option Reply → Option Reply
unfolding arrow
arrow_key none = none
arrow_key (some r) = some (record r { code = arrow r.code })

module _ (handlectrl : Hot → List Input → Option Reply) (idleon : Bool) where
  -- The loop over `read_input` and what follows it up to the sysop's key. `press` goes on with a key, and
  -- with the call of the function that has its own parameters on what follows.
  unfoldable pub await :
      Hot → (ℕ → List Input → Option Reply → Option Reply) → Bool → List Input → Option Reply
  await params press idlemode [] = none
  await params press idlemode (timed_out ∷ is) =
      let again = await params press idlemode is in
      let warned = await params press true is in
      if params.hot_delay || params.hot_quick
      then some (reply 0 is)
      else if not idleon
      then again
      else if not idlemode
      then warned
      else some (hang_up is)
  await params press idlemode (signalled ∷ is) = some (reply 0 is)
  await params press idlemode (carrier_lost ∷ is) = some (hang_up is)
  await params press idlemode (sysop_key c ∷ is) =
      let again = await params press false is in
      if c == 2 then handlectrl params is else press c is again
  await params press idlemode (user_key c ∷ is) =
      let again = await params press false is in press c is again

  -- `HotKey(0)`
  unfoldable pub plain_key : List Input → Option Reply
  unfolding await
  plain_key is = await no_hot (λ c rest again. some (reply c rest)) false is

  -- The case of code 155.
  unfoldable pub introduced : Reply → Option Reply
  unfolding arrow_key plain_key
  introduced r = if r.code == 155 then arrow_key (plain_key r.rest) else some r

  -- The case of code 27.
  escaped : Option Reply → Option Reply
  unfolding introduced arrow_key plain_key
  escaped none = none
  escaped (some r) = if r.code == b'[' then arrow_key (plain_key r.rest) else introduced r

  -- The case for a key of the user or the sysop.
  unfoldable pub press_key : Hot → ℕ → List Input → Option Reply → Option Reply
  unfolding escaped introduced plain_key
  press_key params c is again =
      if params.hot_yesno && not params.hot_re
      then (if c == b'Y' || (c == b'y') || (c == 13) || (c == 10)
          then some (reply 1 is)
          else if c == b'N' || (c == b'n')
          then some (reply 2 is)
          else again)
      else if params.hot_noyes && not params.hot_re
      then (if c == b'N' || (c == b'n') || (c == 13) || (c == 10)
          then some (reply 2 is)
          else if c == b'Y' || (c == b'y')
          then some (reply 1 is)
          else again)
      else if params.hot_cursor && (c == 27)
      then escaped (plain_key is)
      else if params.hot_cursor
      then introduced (reply c is)
      else some (reply c is)

  unfoldable pub hot_key : Hot → List Input → Option Reply
  unfolding await press_key
  hot_key params is = await params (press_key params) false is

  -- The keys that a loop of `HotKey(HOT_CURSOR)` sees, as in `Prompt`, up to the loss of the carrier, for
  -- at most so many keys.
  unfoldable pub read_keys : ℕ → List Input → List ℕ
  unfolding next_keys
  read_keys zero is = []
  read_keys (suc fuel) is = next_keys (read_keys fuel) (hot_key cursor_hot is)
