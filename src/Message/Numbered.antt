-- ===== src/Message/Numbered.antt =====
-- The numbers of the messages of a base.
use daydream.Base.{
  ℕ, zero, suc, ◌+◌, ◌^◌, ◌%◌, ◌≤◌, ◌<◌, ◌≡◌, refl, ◌∙◌, Bool, true, false, List, [], ◌∷◌, ◌++◌,
  Option, none, some, arith, length, if◌then◌else◌, All, inl, inr, Bool-cases,
}
use daydream.Base.CString.{Str}
use daydream.LineEd.{Turn, waiting, abandoned, negative, broken, saved}
use daydream.LineEd.Rows.{lines_from}
use daydream.Message.{is_private, Header, Poster, has_type, ask_header}
use daydream.Message.Save.{
  Mail, Opens, Posted, not_posted, posted, no_result, count_message, write_text, final_header,
  write_header, with_pointers, store, save_message, with_header, entermsg, getmsgptrs, setmsgptrs,
}

abbrev pub Ascending : ℕ → List Header → Type 0
Ascending low [] = Unit
Ascending low (h ∷ hs) = (low < h.msg_number) × Ascending h.msg_number hs

-- The numbers of the messages ascend from 1 on, up to the highest of msgbase.ptr.
pub record IsNumbered (m : Mail) : Type 0 where
  pub ascending : Ascending 0 m.headers
  pub bounded : All (λ h. h.msg_number ≤ m.msp_high) m.headers

-- What holds of the files that a call leaves, if it returns.
abbrev pub Leaves : (Mail → Type 0) → Posted → Type 0
Leaves P (not_posted m) = P m
Leaves P (posted m) = P m
Leaves P no_result = Unit

-- A number leaves room for the ones behind it.
pub head-room :
    (low high : ℕ) (msg : Header) (msgs : List Header)
    → Ascending low (msg ∷ msgs)
    → All (λ h. h.msg_number ≤ high) (msg ∷ msgs)
    → msg.msg_number + length msgs ≤ high
head-room low high msg [] up bound = omega (arith, bound.0)
head-room low high msg (next ∷ msgs) up bound =
    omega (arith, head-room msg.msg_number high next msgs up.1 bound.1, up.1.0)

Ascending-append :
    (low high : ℕ) (hs : List Header) (h : Header)
    → Ascending low hs
    → All (λ g. g.msg_number ≤ high) hs
    → low ≤ high
    → high < h.msg_number
    → Ascending low (hs ++ h ∷ [])
Ascending-append low high [] h up bound le lt = (omega arith, tt)
Ascending-append low high (g ∷ hs) h up bound le lt =
    (up.0, Ascending-append g.msg_number high hs h up.1 bound.1 bound.0 lt)

All-append :
    (high n : ℕ) (hs : List Header) (h : Header)
    → All (λ g. g.msg_number ≤ high) hs
    → high ≤ n
    → h.msg_number ≤ n
    → All (λ g. g.msg_number ≤ n) (hs ++ h ∷ [])
All-append high n [] h bound le at = (at, tt)
All-append high n (g ∷ hs) h bound le at =
    (omega (arith, bound.0), All-append high n hs h bound.1 le at)

All-raise :
    (high n : ℕ) (hs : List Header)
    → All (λ g. g.msg_number ≤ high) hs
    → high ≤ n
    → All (λ g. g.msg_number ≤ n) hs
All-raise high n [] bound le = tt
All-raise high n (g ∷ hs) bound le = (omega (arith, bound.0), All-raise high n hs bound.1 le)

if-Leaves :
    (P : Mail → Type 0) (c : Bool) (r s : Posted)
    → Leaves P r
    → Leaves P s
    → Leaves P (if c then r else s)
if-Leaves P true r s h k = h
if-Leaves P false r s h k = k

count_message-IsNumbered : (h : Header) (m : Mail) → IsNumbered m → IsNumbered (count_message h m)
unfolding count_message
count_message-IsNumbered h m k = elim (Bool-cases (is_private h)) [
  | inl e ↦ rw e (record { ascending = k.ascending; bounded = k.bounded })
  | inr e ↦ rw e (record { ascending = k.ascending; bounded = k.bounded })
]

write_text-IsNumbered :
    (o : Opens) (p : Poster) (h : Header) (lines : Option (List Str)) (m : Mail)
    → IsNumbered m
    → Leaves IsNumbered (write_text o p h lines m)
unfolding write_text
write_text-IsNumbered o p h none m k = if-Leaves IsNumbered o.can_text _ _ tt k
write_text-IsNumbered o p h (some lines) m k =
    if-Leaves IsNumbered o.can_text _ _
      (count_message-IsNumbered h _ (record { ascending = k.ascending; bounded = k.bounded })) k

write_header-IsNumbered :
    (o : Opens) (p : Poster) (h : Header) (lines : Option (List Str)) (high : ℕ) (m : Mail)
    → Ascending 0 m.headers
    → All (λ g. g.msg_number ≤ high) m.headers
    → high < h.msg_number
    → h.msg_number ≤ m.msp_high
    → Leaves IsNumbered (write_header o p h lines m)
unfolding write_header
write_header-IsNumbered o p h lines high m up bound lt le =
    if-Leaves IsNumbered o.can_dat _ _
      (write_text-IsNumbered o p h lines (record m { headers = m.headers ++ h ∷ [] })
        (record {
          ascending = Ascending-append 0 high m.headers h up bound (omega arith) lt;
          bounded = All-append high m.msp_high m.headers h bound (omega arith) le;
        }))
      (record { ascending = up; bounded = All-raise high m.msp_high m.headers bound (omega arith) })

pub final_header-number :
    (o : Opens) (p : Poster) (h : Header) (n : ℕ) → (final_header o p h n).msg_number ≡ n % 2 ^ 16
unfolding final_header
final_header-number o p h n = elim (Bool-cases (has_type p b'L')) [
  | inl e ↦ rw e refl
  | inr e ↦ rw e refl
]

store-IsNumbered :
    (o : Opens) (p : Poster) (h : Header) (lines : Option (List Str)) (m : Mail)
    → IsNumbered m
    → m.msp_high + 1 < 2 ^ 16
    → Leaves IsNumbered (store o p h lines m)
unfolding store setmsgptrs getmsgptrs with_pointers
store-IsNumbered o p h lines m k small = elim (Bool-cases o.can_ptr) [
  | inl opened ↦
      let number : (final_header o p h (m.msp_high + 1)).msg_number ≡ m.msp_high + 1 =
        final_header-number o p h (m.msp_high + 1) ∙ omega arith in
      simp opened (
        write_header-IsNumbered o p (final_header o p h (m.msp_high + 1)) lines m.msp_high _
          k.ascending k.bounded (omega (arith, number)) (omega (arith, number)))
  | inr failed ↦ simp failed (record { ascending = k.ascending; bounded = k.bounded })
]

save_message-IsNumbered :
    (o : Opens) (p : Poster) (h : Header) (turn : Turn) (m : Mail)
    → IsNumbered m
    → m.msp_high + 1 < 2 ^ 16
    → Leaves IsNumbered (save_message o p h turn m)
unfolding save_message
save_message-IsNumbered o p h (waiting a e) m k small = k
save_message-IsNumbered o p h abandoned m k small = k
save_message-IsNumbered o p h negative m k small = store-IsNumbered o p h none m k small
save_message-IsNumbered o p h broken m k small = tt
save_message-IsNumbered o p h (saved zero rows) m k small = k
save_message-IsNumbered o p h (saved (suc n) rows) m k small =
    store-IsNumbered o p h (some (lines_from rows 0 (suc n))) m k small

with_header-IsNumbered :
    (o : Opens) (p : Poster) (turn : Turn) (m : Mail) (h : Option Header)
    → IsNumbered m
    → m.msp_high + 1 < 2 ^ 16
    → Leaves IsNumbered (with_header o p turn m h)
unfolding with_header
with_header-IsNumbered o p turn m none k small = k
with_header-IsNumbered o p turn m (some h) k small = save_message-IsNumbered o p h turn m k small

-- Whatever is typed and whichever files can be opened, `entermsg` leaves a base whose messages are numbered
-- in ascending order, none above the highest number of msgbase.ptr, if that number is below 65535 before.
pub entermsg-IsNumbered :
    (o : Opens) (p : Poster) (msg : Option Header) (ts : List Str) (keys : List ℕ) (turn : Turn)
    (m : Mail)
    → IsNumbered m
    → m.msp_high + 1 < 2 ^ 16
    → Leaves IsNumbered (entermsg o p msg ts keys turn m)
unfolding entermsg
entermsg-IsNumbered o p msg ts keys turn m k small =
    with_header-IsNumbered o p turn m (ask_header p msg ts keys) k small
