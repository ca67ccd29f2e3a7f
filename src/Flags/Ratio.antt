-- ===== src/Flags/Ratio.antt =====
-- The download ratios of `addtag`.
use daydream.Base.{ℕ, ◌+◌, ◌*◌, ◌^◌, ◌≤◌, ◌<◌, ◌≡◌, ◌≢◌, ◌↔◌, true, false, arith}
use daydream.Base.CString.{Str}
use daydream.Flags.{
  User, Counts, Tags, tagged, file_ratio, is_free, count_file, over_file_ratio, addtag,
}

over_file_ratio_iff :
    (u : User) (c : Counts)
    → (over_file_ratio u c ≡ true) ↔ (
        (u.user_fileratio ≢ 0)
        × (u.user_fileratio * u.user_ulfiles + u.user_freedlfiles + c.ffilestagged
            < u.user_dlfiles + 1 + c.filestagged))
unfolding over_file_ratio
over_file_ratio_iff u c = (λ h. ground arith, λ h. ground arith)

-- The answer 1 is given exactly for a file that is not free, where the user has a file ratio and
-- the files downloaded and tagged without being free, with this one, exceed the ratio's allowance.
addtag-file_ratio :
    (u : User) (t : Tags) (path file : Str) (conf size flags : ℕ)
    → ((addtag u t path file conf size flags).1 ≡ file_ratio) ↔ (
        (is_free flags ≡ false)
        × (u.user_fileratio ≢ 0)
        × (u.user_fileratio * u.user_ulfiles + u.user_freedlfiles + t.counts.ffilestagged
            < u.user_dlfiles + 1 + t.counts.filestagged))
unfolding addtag
addtag-file_ratio u t path file conf size flags = (
  λ h. ground (arith, (over_file_ratio_iff u t.counts).0),
  λ h. ground (arith, (over_file_ratio_iff u t.counts).1),
)

-- After a tag that is not free the user is within the file ratio, if there is one and the counter
-- does not wrap.
addtag-within_file_ratio :
    (u : User) (t : Tags) (path file : Str) (conf size flags : ℕ)
    → u.user_fileratio ≢ 0
    → t.counts.filestagged + 1 < 2 ^ 16
    → (addtag u t path file conf size flags).1 ≡ tagged
    → let c = (addtag u t path file conf size flags).0.counts in
      u.user_dlfiles + c.filestagged
      ≤ u.user_fileratio * u.user_ulfiles + u.user_freedlfiles + c.ffilestagged
unfolding addtag count_file
addtag-within_file_ratio u t path file conf size flags r w h = ground arith

-- The same for bytes: sizes and counters are non-negative `int`s whose sums do not overflow.
addtag-within_byte_ratio :
    (u : User) (t : Tags) (path file : Str) (conf size flags : ℕ)
    → u.user_byteratio ≢ 0
    → t.counts.bytestagged + size < 2 ^ 31
    → t.counts.fbytestagged ≤ t.counts.bytestagged
    → u.user_byteratio * u.user_ulbytes + u.user_freedlbytes < 2 ^ 64
    → u.user_dlbytes + size + t.counts.bytestagged < 2 ^ 64
    → (addtag u t path file conf size flags).1 ≡ tagged
    → let c = (addtag u t path file conf size flags).0.counts in
      u.user_dlbytes + c.bytestagged
      ≤ u.user_byteratio * u.user_ulbytes + u.user_freedlbytes + c.fbytestagged
unfolding addtag count_file
addtag-within_byte_ratio u t path file conf size flags r w f a b h = ground arith
