-- ===== src/Keys/Tests.antt =====
-- Questions and keys, and the theorems at them.
use daydream.Base.{◌≡◌, refl, true, List, [], ◌∷◌, Option, none, some, arith, inl}
use daydream.Keys.{
  Input, user_key, sysop_key, timed_out, signalled, Hot, no_hot, cursor_hot, Reply, reply, hang_up,
  hot_key, read_keys,
}
use daydream.Keys.Answers.{hot_key-answer}
use daydream.Keys.Arrows.{terminal_all, read_keys-terminal}

-- The sysop's keys do nothing here.
abbrev no_ctrl : Hot → List Input → Option Reply
no_ctrl params is = none

abbrev yesno : Hot
yesno = record no_hot { hot_yesno = true }

idle_user : hot_key no_ctrl true no_hot (timed_out ∷ timed_out ∷ []) ≡ some (hang_up [])
unfolding hot_key
idle_user = refl

delayed :
    hot_key no_ctrl true (record no_hot { hot_delay = true }) (timed_out ∷ []) ≡ some (reply 0 [])
unfolding hot_key
delayed = refl

other_introducer :
    hot_key no_ctrl true cursor_hot (user_key 155 ∷ user_key b'D' ∷ []) ≡ some (reply 253 [])
unfolding hot_key
other_introducer = refl

hot_key-answer_example :
    hot_key no_ctrl true yesno (user_key b'x' ∷ sysop_key 32 ∷ user_key 13 ∷ signalled ∷ [])
    ≡ some (reply 1 (signalled ∷ []))
hot_key-answer_example =
    hot_key-answer no_ctrl true yesno 1 13 1 (user_key b'x' ∷ sysop_key 32 ∷ []) (signalled ∷ [])
      (refl, inl (refl, refl)) (refl, ((refl, omega arith), tt)) refl

read_keys-terminal_example :
    read_keys no_ctrl true 3 (terminal_all (b'a' ∷ 253 ∷ b'b' ∷ [])) ≡ b'a' ∷ 253 ∷ b'b' ∷ []
read_keys-terminal_example = read_keys-terminal no_ctrl true (b'a' ∷ 253 ∷ b'b' ∷ []) (omega arith)
