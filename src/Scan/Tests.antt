-- ===== src/Scan/Tests.antt =====
-- A base with a gap in its numbers, and the theorem at it.
use daydream.Base.{ℕ, ◌≡◌, refl, [], ◌∷◌, some, arith, map, filter, All}
use daydream.Base.CString.{Str, codes, tolower}
use daydream.Message.{Header, no_header}
use daydream.Message.Save.{Mail}
use daydream.Scan.{Names, scan_base, scan_start}
use daydream.Scan.Window.{is_new, Placed, scan_base_complete}

abbrev message : ℕ → Str → Header
message n receiver = record no_header { msg_number = n; msg_receiver = receiver }

abbrev mail : Mail
mail = record {
  msp_low = 1;
  msp_high = 9;
  lowest = 1;
  highest = 9;
  headers =
      message 1 (codes "bo")
      ∷ message 2 []
      ∷ message 3 (codes "bo")
      ∷ message 7 (codes "BO")
      ∷ message 9 []
      ∷ [];
  texts = λ k. some [];
  fidocnt = 0;
  user_pvtmessages = 0;
  user_pubmessages = 0;
  cl_pvtmessages = 0;
  cl_pubmessages = 0;
}

abbrev names : Names
names = record { user_handle = codes "Bo"; user_realname = codes "Bo Li" }

-- Above 7 only the public message 9 is new; the reading starts at the second record.
scanned : scan_base names mail 2 7 ≡ record { newcnt = 1; found = []; lsp = 9 }
unfolding scan_base tolower
scanned = refl

start : scan_start mail 7 ≡ 1
unfolding scan_start
start = refl

scan_base_complete_example :
    (map (λ d. d.ms_number) (scan_base names mail 0 6).found
      ≡ map (λ h. h.msg_number) (filter (is_new names mail.texts 6) mail.headers))
    × All (Placed 0 mail.headers) (scan_base names mail 0 6).found
scan_base_complete_example =
    scan_base_complete names mail 0 6
      (record {
        ascending = (omega arith, (omega arith, (omega arith, (omega arith, (omega arith, tt)))));
        bounded = (omega arith, (omega arith, (omega arith, (omega arith, (omega arith, tt)))));
      })
      refl
