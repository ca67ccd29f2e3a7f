-- ===== src/Message/Saved.antt =====
-- The files of a base when a message has been written.
use daydream.Base.{
  ℕ, suc, ◌+◌, ◌^◌, ◌%◌, ◌<◌, ◌≡◌, ◌≢◌, refl, ap, ◌∙◌, true, false, ◌&&◌, List, [], ◌∷◌, ◌++◌,
  Option, some, arith, ◌==◌, if◌then◌else◌, All, length, inl, inr, Bool-cases,
}
use mathlib.Core.List.{append-nil}
use daydream.Base.CString.{Str}
use daydream.Text.Lines.{unlines, IsLine, read_lines, read_lines-unlines}
use daydream.LineEd.{saved, Rows}
use daydream.LineEd.Rows.{lines_from, length-lines_from}
use daydream.Message.{is_private, Header, Poster, has_type, ask_header}
use daydream.Message.Save.{
  Mail, Opens, posted, head_lines, tail_lines, count_message, write_text, final_header,
  write_header, with_pointers, store, save_message, with_header, entermsg, getmsgptrs, setmsgptrs,
}
use daydream.Message.Numbered.{final_header-number}

count_message-keeps :
    (h : Header) (m : Mail)
    → ((count_message h m).headers ≡ m.headers)
      × ((count_message h m).msp_high ≡ m.msp_high)
      × ((count_message h m).texts ≡ m.texts)
unfolding count_message
count_message-keeps h m = elim (Bool-cases (is_private h)) [
  | inl e ↦ rw e (refl, refl, refl)
  | inr e ↦ rw e (refl, refl, refl)
]

other_type : (p : Poster) (c : ℕ) → has_type p b'L' ≡ true → c ≢ b'L' → has_type p c ≡ false
unfolding has_type
other_type p c local ne = ground arith

head_lines-local :
    (o : Opens) (p : Poster) (h : Header) (m : Mail)
    → has_type p b'L' ≡ true
    → head_lines o p h m ≡ (m.fidocnt, [])
unfolding head_lines
head_lines-local o p h m local =
    simp (other_type p b'E' local (omega arith), other_type p b'N' local (omega arith)) refl

tail_lines-local : (o : Opens) (p : Poster) → has_type p b'L' ≡ true → tail_lines o p ≡ []
unfolding tail_lines
tail_lines-local o p local = simp (other_type p b'E' local (omega arith), local) refl

-- The text of a message of a local base is its lines.
write_text-local :
    (o : Opens) (p : Poster) (h : Header) (lines : List Str) (m : Mail)
    → has_type p b'L' ≡ true
    → o.can_text ≡ true
    → write_text o p h (some lines) m
      ≡ posted (
          count_message h (record m {
            texts = λ k. if k == h.msg_number then some (unlines lines) else m.texts k;
          }))
unfolding write_text
write_text-local o p h lines m local opens =
    let before : head_lines o p h m ≡ (m.fidocnt, []) = head_lines-local o p h m local in
    let behind : tail_lines o p ≡ [] = tail_lines-local o p local in
    simp (opens, before, behind, append-nil (unlines lines)) refl

own_text : (n k : ℕ) (new old : Option Str) → n ≡ k → (if k == n then new else old) ≡ new
own_text n k new old same = ground arith

other_text :
    (n k high : ℕ) (new old : Option Str)
    → n ≡ high
    → k ≢ high
    → (if k == n then new else old) ≡ old
other_text n k high new old same ne = ground arith

-- In a local base where the files can be opened, lines that are saved are posted as the message of the next
-- number: its header is appended, the file of that number holds the lines and gives them back to a loop
-- over `fgetsnolf` with a buffer of 1024 bytes, and the files of the other numbers are as before. The lines
-- have at most 1022 bytes, none of them NUL or a line end, and the highest number is below 65535.
pub entermsg-posted :
    (o : Opens) (p : Poster) (msg : Option Header) (ts : List Str) (keys : List ℕ) (n : ℕ)
    (rows : Rows) (m : Mail) (h : Header)
    → ask_header p msg ts keys ≡ some h
    → has_type p b'L' ≡ true
    → (o.can_ptr && (o.can_dat && o.can_text)) ≡ true
    → m.msp_high + 1 < 2 ^ 16
    → All (λ l. IsLine l × (length l + 1 < 1024)) (lines_from rows 0 (suc n))
    → (m' : Mail) × (entermsg o p msg ts keys (saved (suc n) rows) m ≡ posted m')
      × (m'.headers ≡ m.headers ++ final_header o p h (m.msp_high + 1) ∷ [])
      × (m'.msp_high ≡ m.msp_high + 1)
      × ((text : Str) × (m'.texts (m.msp_high + 1) ≡ some text)
          × (read_lines (n + 2) 1024 text ≡ lines_from rows 0 (suc n)))
      × ((k : ℕ) → k ≢ m.msp_high + 1 → m'.texts k ≡ m.texts k)
unfolding entermsg with_header save_message store setmsgptrs getmsgptrs with_pointers write_header
entermsg-posted o p msg ts keys n rows m h ready local opens small lines =
    let number : (final_header o p h (m.msp_high + 1)).msg_number ≡ m.msp_high + 1 =
      final_header-number o p h (m.msp_high + 1) ∙ omega arith in
    let ptr : o.can_ptr ≡ true = ground arith in
    let dat : o.can_dat ≡ true = ground arith in
    let text : o.can_text ≡ true = ground arith in
    let h' : Header = final_header o p h (m.msp_high + 1) in
    let typed : List Str = lines_from rows 0 (suc n) in
    let m1 : Mail = record m {
      msp_low = m.msp_low % 2 ^ 16;
      msp_high = (m.msp_high + 1) % 2 ^ 16;
      lowest = m.msp_low;
      highest = m.msp_high + 1;
      headers = m.headers ++ h' ∷ [];
    } in
    let m2 : Mail = record m1 {
      texts = λ k. if k == h'.msg_number then some (unlines typed) else m.texts k;
    } in
    let (headers, high, texts) = count_message-keeps h' m2 in
    let file : (k : ℕ) → (count_message h' m2).texts k ≡ m2.texts k = λ k. ap (λ f. f k) texts in
    (
      count_message h' m2,
      simp (ready, ptr, dat) (write_text-local o p h' typed m1 local text),
      headers,
      high ∙ omega arith,
      (
        unlines typed,
        file (m.msp_high + 1) ∙ own_text h'.msg_number (m.msp_high + 1) _ _ number,
        read_lines-unlines (n + 2) 1024 typed (omega (arith, length-lines_from rows 0 (suc n)))
            lines,
      ),
      λ k ne. file k ∙ other_text h'.msg_number k (m.msp_high + 1) _ _ number ne,
    )
