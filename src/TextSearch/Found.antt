-- ===== src/TextSearch/Found.antt =====
-- What the reader shows of a search.
use daydream.Base.{
  ℕ, ◌≡◌, refl, sym, ap, ◌∙◌, Bool, true, List, [], ◌∷◌, Option, none, some, All, any, &&-left,
  &&-right,
}
use mathlib.Core.Path.{subst}
use daydream.Base.CString.{Str}
use daydream.Message.{Header}
use daydream.Message.Save.{Mail, Opens, getmsgptrs}
use daydream.Reader.{Viewer, Reading}
use daydream.Reader.Commands.Kept.{state_after}
use daydream.Reader.Commands.Visible.{Permitted, readmessages-Permitted}
use daydream.Reader.Commands.{at_message}
use daydream.Reader.Commands.Masked.{readmessages-InMask}
use daydream.TextSearch.{
  Searcher, simple_search, mask_at, scanned, read_found, scan_msgbase, get_headers,
}
use daydream.TextSearch.Marks.{
  lists, scan_numbers-first, mask_at-byte, mask_at-within, scanned-marks,
}

-- A message of the base with a text in which the text searched for occurs.
pub record Matches (u : Searcher) (search_str : Str) (m : Mail) (h : Header) : Type 0 where
  pub in_file : any (lists u m h.msg_number) m.headers ≡ true
  pub occurs : simple_search search_str (m.texts h.msg_number) ≡ true

All-map :
    (P Q : Header → Type 0) (hs : List Header) → ((h : Header) → P h → Q h) → All P hs → All Q hs
All-map P Q [] f a = tt
All-map P Q (h ∷ hs) f a = (f h a.0, All-map P Q hs f a.1)

module _ (v : Viewer) (o : Opens) (u : Searcher) (search_str : Str) where
  masked-Matches :
      (m : Mail) (h : Header)
      → mask_at (scanned u search_str m).0 m.lowest h.msg_number ≡ true
      → Matches u search_str m h
  masked-Matches m h e =
      let within = mask_at-within u search_str m h.msg_number e in
      let both = sym (scanned-marks u search_str m h.msg_number within.0 within.1) ∙ e in
      record { in_file = &&-left _ _ both; occurs = &&-right _ _ both }

  first_masked :
      (m : Mail) (first : ℕ)
      → (scanned u search_str m).1 ≡ some first
      → mask_at (scanned u search_str m).0 m.lowest first ≡ true
  unfolding scanned
  first_masked m first e =
      let at = scan_numbers-first search_str m.texts m.lowest (get_headers u m) first e in
      mask_at-byte _ m.lowest first at.0 ∙ at.1

  read_found-Matches :
      (lines : List Str) (r : Reading) (m : Mail) (found : List Bool × Option ℕ)
      → found ≡ scanned u search_str m
      → r.displayed ≡ []
      → All (Matches u search_str m) (state_after (read_found v o lines r m.lowest found)).displayed
  unfolding read_found
  read_found-Matches lines r m (headers, none) e empty =
      subst (All (Matches u search_str m)) (sym empty) tt
  read_found-Matches lines r m (headers, some first) e empty =
      let same = ap (λ (x : List Bool × Option ℕ). x.0) e in
      let start =
        ap (λ b. mask_at b m.lowest first) same
        ∙ first_masked m first (sym (ap (λ (x : List Bool × Option ℕ). x.1) e)) in
      All-map _ (Matches u search_str m) _
        (λ h at. masked-Matches m h (ap (λ b. mask_at b m.lowest h.msg_number) (sym same) ∙ at))
        (readmessages-InMask v o (mask_at headers m.lowest) first lines r start
          (subst (All (λ h. mask_at headers m.lowest h.msg_number ≡ true)) (sym empty) tt))

  -- Up to the first of the commands e, eh, r, re, ] and [, the reader that a text search opens shows only
  -- messages of the base in whose text the text searched for occurs.
  pub scan_msgbase-Matches :
      (lines : List Str) (r : Reading)
      → r.displayed ≡ []
      → All
          (Matches u search_str (getmsgptrs r.mail))
          (state_after (scan_msgbase v o u search_str lines r)).displayed
  unfolding scan_msgbase
  scan_msgbase-Matches lines r empty =
      let m = getmsgptrs r.mail in
      read_found-Matches lines (record r { mail = m }) m (scanned u search_str m) refl empty

  read_found-Permitted :
      (lines : List Str) (r : Reading) (low : ℕ) (found : List Bool × Option ℕ)
      → r.displayed ≡ []
      → All (Permitted v) (state_after (read_found v o lines r low found)).displayed
  unfolding read_found
  read_found-Permitted lines r low (headers, none) empty = subst (All (Permitted v)) (sym empty) tt
  read_found-Permitted lines r low (headers, some first) empty =
      let mask = some (mask_at headers low) in
      (readmessages-Permitted v o none (at_message first) mask lines r empty).after

  pub scan_msgbase-Permitted :
      (lines : List Str) (r : Reading)
      → r.displayed ≡ []
      → All (Permitted v) (state_after (scan_msgbase v o u search_str lines r)).displayed
  unfolding scan_msgbase
  scan_msgbase-Permitted lines r empty =
      let m = getmsgptrs r.mail in
      read_found-Permitted lines (record r { mail = m }) m.lowest (scanned u search_str m) empty
