-- ===== src/Door/Output.antt =====
-- The text that a door puts out.
use daydream.Base.{
  ℕ, zero, suc, ◌+◌, ◌≤◌, ◌≡◌, refl, ap, ◌∙◌, List, [], ◌∷◌, ◌++◌, arith, ltb, inl, inr, Bool-cases,
  length, take, drop, take-all, All, length-take, length-drop, take-append-drop,
}
use mathlib.Core.List.{append-nil}
use daydream.Base.CString.{Str, strlcpy}
use daydream.Door.{Session}
use daydream.Door.Server.{Board, command_of, answer, door_step}
use daydream.Door.Client.{Link, writedm, put_chunk, send_from, dd_sendstring}

-- The pieces put together.
abbrev pub join : List Str → Str
join [] = []
join (p ∷ ps) = p ++ join ps

module _ {World : Type 0} (b : Board World) where
  -- The program's own output of the pieces, one after the other.
  abbrev pub ddputs : List Str → Session World → Session World
  ddputs [] s = s
  ddputs (p ∷ ps) s = ddputs ps (b.ddput p s)

  put_chunk-ddput :
      (str : Str) (l : Link World) → (put_chunk b str l).1 ≡ b.ddput (take 299 str) l.1
  unfolding put_chunk writedm door_step command_of answer strlcpy
  put_chunk-ddput str (d, s) = refl

  -- What a sequence of messages does that puts out `str`.
  abbrev pub PutOut : Str → Session World → Session World → Type 0
  PutOut str s s' =
      (pieces : List Str) × (join pieces ≡ str)
      × All (λ p. length p ≤ 299) pieces
      × (s' ≡ ddputs pieces s)

  put_chunk-PutOut :
      (str : Str) (l : Link World) → length str ≤ 299 → PutOut str l.1 (put_chunk b str l).1
  put_chunk-PutOut str l h = (
    str ∷ [],
    append-nil str,
    (h, tt),
    put_chunk-ddput str l ∙ ap (λ t. b.ddput t l.1) (take-all 299 str h),
  )

  send_from-PutOut :
      (fuel : ℕ) (str : Str) (l : Link World)
      → length str ≤ fuel + 299
      → PutOut str l.1 (send_from b fuel str l).1
  unfolding send_from
  send_from-PutOut zero str l h = put_chunk-PutOut str l (omega arith)
  send_from-PutOut (suc fuel) str l h = elim (Bool-cases (ltb 299 (length str))) [
    | inl more ↦ rw more (
        let (pieces, whole, short, done) =
          send_from-PutOut fuel (drop 299 str) (put_chunk b str l)
            (omega (arith, length-drop 299 str)) in
        (
          take 299 str ∷ pieces,
          ap (λ t. take 299 str ++ t) whole ∙ take-append-drop 299 str,
          (omega (arith, length-take 299 str), short),
          done ∙ ap (ddputs pieces) (put_chunk-ddput str l),
        ))
    | inr fits ↦ rw fits (put_chunk-PutOut str l (ground arith))
  ]

  -- A door's output of a text of any length is the program's output of pieces of at most 299 bytes, in
  -- order, that make up the text.
  pub dd_sendstring-PutOut : (str : Str) (l : Link World) → PutOut str l.1 (dd_sendstring b str l).1
  unfolding dd_sendstring
  dd_sendstring-PutOut str l = send_from-PutOut (length str) str l (omega arith)
