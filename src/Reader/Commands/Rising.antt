-- ===== src/Reader/Commands/Rising.antt =====
-- Ascending numbers, and the numbers in a window and in the file.
use daydream.Base.{
  ℕ, ◌+◌, ◌≤◌, ◌<◌, ◌≡◌, sym, ap, ◌∙◌, List, [], ◌∷◌, ◌++◌, All, arith, map, take, drop, length,
  map-append, map-take, map-drop, take-prefix, take-length-take, take-middle,
}
use daydream.Message.{Header}
use daydream.Message.Numbered.{Ascending}
use daydream.Reader.{Reading, seek, readmsgdatas, mark_end, write_window}

abbrev pub numbers : List Header → List ℕ
numbers hs = map (λ h. h.msg_number) hs

-- The numbers in the window are those at its place in the file.
abbrev pub InPlace : List Header → ℕ → ℕ → List Header → Type 0
InPlace msgbuf bread place hs = take bread (numbers msgbuf) ≡ take bread (drop place (numbers hs))

-- Ascending numbers up to a highest one.
abbrev pub Rising : ℕ → ℕ → List ℕ → Type 0
Rising low high [] = Unit
Rising low high (n ∷ ns) = (low < n) × (n ≤ high) × Rising n high ns

pub rising :
    (low high : ℕ) (hs : List Header)
    → Ascending low hs
    → All (λ h. h.msg_number ≤ high) hs
    → Rising low high (numbers hs)
rising low high [] up bound = tt
rising low high (h ∷ hs) up bound = (up.0, bound.0, rising h.msg_number high hs up.1 bound.1)

pub ascending : (low high : ℕ) (hs : List Header) → Rising low high (numbers hs) → Ascending low hs
ascending low high [] up = tt
ascending low high (h ∷ hs) up = (up.0, ascending h.msg_number high hs up.2)

pub bounded :
    (low high : ℕ) (hs : List Header)
    → Rising low high (numbers hs)
    → All (λ h. h.msg_number ≤ high) hs
bounded low high [] up = tt
bounded low high (h ∷ hs) up = (up.1, bounded h.msg_number high hs up.2)

pub Rising-snoc :
    (low high n : ℕ) (ns : List ℕ)
    → Rising low high ns
    → low ≤ high
    → high < n
    → Rising low n (ns ++ n ∷ [])
Rising-snoc low high n [] up le lt = (omega arith, omega arith, tt)
Rising-snoc low high n (m ∷ ns) up le lt =
    (up.0, omega (arith, up.1), Rising-snoc m high n ns up.2 up.1 lt)

-- The window that is read from the file is in its place.
pub seek-InPlace :
    (place : ℕ) (r : Reading)
    → InPlace (seek place r).msgbuf (seek place r).bread place r.mail.headers
unfolding seek readmsgdatas
seek-InPlace place r =
    let hs = drop place r.mail.headers in
    let records = take 100 hs in
    let tail = mark_end (drop (length records) r.msgbuf) in
    sym (map-take (λ h. h.msg_number) (length records) (records ++ tail))
    ∙ ap numbers (take-prefix records tail ∙ sym (take-length-take 100 hs))
    ∙ map-take (λ h. h.msg_number) (length records) hs
    ∙ ap (take (length records)) (map-drop (λ h. h.msg_number) place r.mail.headers)

-- Writing the window back changes no number.
pub write_window-numbers :
    (r : Reading)
    → InPlace r.msgbuf r.bread r.oldseekpoint r.mail.headers
    → numbers (write_window r).mail.headers ≡ numbers r.mail.headers
unfolding write_window
write_window-numbers r p =
    let f = λ (h : Header). h.msg_number in
    let hs = r.mail.headers in
    let back = drop (r.oldseekpoint + r.bread) hs in
    map-append f (take r.oldseekpoint hs) (take r.bread r.msgbuf ++ back)
    ∙ ap (λ ns. numbers (take r.oldseekpoint hs) ++ ns) (map-append f (take r.bread r.msgbuf) back)
    ∙ ap (λ ns. ns ++ (numbers (take r.bread r.msgbuf) ++ numbers back))
        (map-take f r.oldseekpoint hs)
    ∙ ap (λ ns. take r.oldseekpoint (numbers hs) ++ (ns ++ numbers back))
        (map-take f r.bread r.msgbuf ∙ p)
    ∙ ap
        (λ ns.
          take r.oldseekpoint (numbers hs)
          ++ (take r.bread (drop r.oldseekpoint (numbers hs)) ++ ns))
        (map-drop f (r.oldseekpoint + r.bread) hs)
    ∙ take-middle r.oldseekpoint r.bread (numbers hs)
