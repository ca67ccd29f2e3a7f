-- ===== src/Prompt/Steps.antt =====
-- Each key does to the buffer what it does to the line with a cursor.
use daydream.Base.{ℕ, suc, ◌+◌, ◌-◌, ◌≤◌, ◌<◌, ◌≡◌, ◌∙◌, ◌≢◌, [], ◌∷◌, arith, length}
use daydream.Base.CString.{Str}
use daydream.Prompt.{Memory, write, Line, copy_down, shift_up, insert_key, backspace}
use daydream.Prompt.Bytes.{
  write-eq, write-ne, shift_up-above, shift_up-below, shift_up-moved, copy_down-below,
  copy_down-moved, copy_down-above,
}
use daydream.Prompt.Cursor.{Shows, line, Before-ext, After-ext, After-ne-zero}

module _ (outer : Memory) (len : ℕ) (b : Memory) where
  -- The line is the one shown, in a buffer.
  abbrev pub Shown : Line → Str → Str → Type 0
  Shown l left right = (b' : Memory) × (l ≡ line b' left right) × Shows outer len b' left right

  pub move_left-Shown :
      (c : ℕ) (left right : Str)
      → Shows outer len b (c ∷ left) right
      → Shows outer len b left (c ∷ right)
  move_left-Shown c left right s = record {
    before = s.before.1;
    after = (s.before.0, s.after);
    fits = omega (arith, s.fits);
    left_text = s.left_text.1;
    right_text = (s.left_text.0, s.right_text);
    ended = s.ended;
    beyond = s.beyond;
  }

  pub move_right-Shown :
      (c : ℕ) (left right : Str)
      → Shows outer len b left (c ∷ right)
      → Shows outer len b (c ∷ left) right
  move_right-Shown c left right s = record {
    before = (s.after.0, s.before);
    after = s.after.1;
    fits = omega (arith, s.fits);
    left_text = (s.right_text.0, s.left_text);
    right_text = s.right_text.1;
    ended = s.ended;
    beyond = s.beyond;
  }

  pub insert_key-Shown :
      (c : ℕ) (left right : Str)
      → c ≢ 0
      → length left + length right < len
      → Shows outer len b left right
      → Shown (insert_key (line b left right) c) (c ∷ left) right
  unfolding insert_key
  insert_key-Shown c left [] text room s = (
    write b (length left) c,
    ground arith,
    record {
      before = (
        write-eq b (length left) c,
        Before-ext b (write b (length left) c) left
            (λ x lt. write-ne b (length left) c x (omega arith)) s.before,
      );
      after = tt;
      fits = omega arith;
      left_text = (text, s.left_text);
      right_text = tt;
      ended = write-ne b (length left) c len (omega arith) ∙ s.ended;
      beyond = λ x lt. write-ne b (length left) c x (omega arith) ∙ s.beyond x lt;
    },
  )
  insert_key-Shown c left (e ∷ right) text room s =
      let i = length left + suc (length right) in
      let b1 = write b (suc i) 0 in
      let b2 = shift_up (i - length left) b1 i in
      let b3 = write b2 (length left) c in
      (
        b3,
        ground arith,
        record {
          before = (
            write-eq b2 (length left) c,
            Before-ext b b3 left
                (λ x lt.
                  write-ne b2 (length left) c x (omega arith)
                  ∙ shift_up-below (i - length left) b1 i x (omega arith)
                  ∙ write-ne b (suc i) 0 x (omega arith))
                s.before,
          );
          after =
              After-ext b b3 (length left) (suc (length left)) (e ∷ right)
                (λ x y low high same.
                  let up : y ≡ suc x = omega arith in
                  rw up (
                    write-ne b2 (length left) c (suc x) (omega arith)
                    ∙ shift_up-moved (i - length left) b1 i x (omega arith) (omega arith)
                        (omega arith)
                    ∙ write-ne b (suc i) 0 x (omega arith)))
                s.after;
          fits = omega arith;
          left_text = (text, s.left_text);
          right_text = s.right_text;
          ended =
              write-ne b2 (length left) c len (omega arith)
              ∙ shift_up-above (i - length left) b1 i len (omega arith)
              ∙ ground (arith, write-eq b (suc i) 0, write-ne b (suc i) 0 len, s.ended);
          beyond = λ x lt.
              write-ne b2 (length left) c x (omega arith)
              ∙ shift_up-above (i - length left) b1 i x (omega arith)
              ∙ write-ne b (suc i) 0 x (omega arith)
              ∙ s.beyond x lt;
        },
      )

  pub backspace-Shown :
      (c : ℕ) (left right : Str)
      → Shows outer len b (c ∷ left) right
      → Shown (backspace len (line b (c ∷ left) right)) left right
  unfolding backspace
  backspace-Shown c left [] s = (
    write b (length left) 0,
    ground arith,
    record {
      before =
          Before-ext b (write b (length left) 0) left
            (λ x lt. write-ne b (length left) 0 x (omega arith)) s.before.1;
      after = tt;
      fits = omega (arith, s.fits);
      left_text = s.left_text.1;
      right_text = tt;
      ended = write-ne b (length left) 0 len (omega (arith, s.fits)) ∙ s.ended;
      beyond = λ x lt. write-ne b (length left) 0 x (omega (arith, s.fits)) ∙ s.beyond x lt;
    },
  )
  backspace-Shown c left (e ∷ right) s =
      let b' = copy_down (len - 1) b (length left) in
      let above = λ (x : ℕ) (h : len ≤ x).
        copy_down-above (len - 1) b (length left) len x s.ended (omega (arith, s.fits)) h in
      (
        b',
        ground arith,
        record {
          before =
              Before-ext b b' left (λ x lt. copy_down-below (len - 1) b (length left) x lt)
                s.before.1;
          after =
              After-ext b b' (suc (length left)) (length left) (e ∷ right)
                (λ x y low high same.
                  let down : x ≡ suc y = omega arith in
                  rw down (
                    copy_down-moved (len - 1) (length (e ∷ right)) b (length left) y
                      (omega (arith, s.fits))
                      (After-ne-zero b (suc (length left)) (e ∷ right) s.after s.right_text)
                      (omega arith) (omega arith)))
                s.after;
          fits = omega (arith, s.fits);
          left_text = s.left_text.1;
          right_text = s.right_text;
          ended = above len (omega arith) ∙ s.ended;
          beyond = λ x lt. above x (omega arith) ∙ s.beyond x lt;
        },
      )
