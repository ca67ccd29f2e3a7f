-- ===== src/Join/Pointers.antt =====
-- The last-read pointers across changes of the message base.
use daydream.Base.{
  ℕ, ◌^◌, ◌<◌, ◌≡◌, refl, ◌≢◌, true, false, ◌&&◌, Option, none, some, arith, ◌==◌, inl, inr,
  Bool-cases,
}
use mathlib.Core.Path.{ap, ◌∙◌, subst}
use daydream.Base.CString.{str_eq_refl}
use daydream.Conference.{MsgBase}
use daydream.Join.{
  Reader, BaseFiles, BaseKey, key_eq, key_of, write_lrp, save_lrp, load_lrp, getmsgptrs, after_save,
  enter_base,
}

abbrev SyncedAt : Reader → Option BaseKey → Type 0
SyncedAt r none = Unit
SyncedAt r (some key) = r.files.lrp_file key r.user.user_account_id ≡ (r.oldlrp, r.oldlsp)

-- The old pointers are those in the file of the base that is open.
abbrev pub IsSynced : Reader → Type 0
IsSynced r = SyncedAt r r.lrp_open

load_lrp-IsSynced : (r : Reader) (cb : MsgBase) → IsSynced (getmsgptrs (load_lrp r cb) cb)
unfolding load_lrp getmsgptrs
load_lrp-IsSynced r cb = refl

after_save-IsSynced :
    (cb : MsgBase) (r : Reader) (o : Option Reader)
    → (after_save cb r o).1 ≡ true
    → IsSynced (after_save cb r o).0
unfolding after_save
after_save-IsSynced cb r none h = cc
after_save-IsSynced cb r (some r') h = refl

-- A change of the base that succeeds leaves the old pointers those of the file of the new base.
enter_base-IsSynced :
    (r : Reader) (cb : MsgBase) → (enter_base r cb).1 ≡ true → IsSynced (enter_base r cb).0
unfolding enter_base
enter_base-IsSynced r cb h =
    let r' = getmsgptrs (record r { current_msgbase = some cb }) cb in
    after_save-IsSynced cb r' (save_lrp r' r'.lrp_open) h

key_eq_refl : (k : BaseKey) → key_eq k k ≡ true
unfolding key_eq
key_eq_refl (p, n) = ground (arith, str_eq_refl p)

write_lrp_self :
    (f : BaseFiles) (k : BaseKey) (slot read scan : ℕ)
    → read < 2 ^ 16
    → scan < 2 ^ 16
    → (write_lrp f k slot read scan).lrp_file k slot ≡ (read, scan)
unfolding write_lrp
write_lrp_self f k slot read scan a b = ground (arith, key_eq_refl k)

-- Saving the pointers of the open base `key` keeps everything but the files; there the pointers stand
-- afterwards, and other bases are untouched.
save_lrp-files :
    (r : Reader) (key : BaseKey)
    → ((k : BaseKey) → r.files.can_write k ≡ true)
    → (f : BaseFiles) × (save_lrp r (some key) ≡ some (record r { files = f }))
      × (r.files.lrp_file key r.user.user_account_id ≡ (r.oldlrp, r.oldlsp)
          → r.lrp < 2 ^ 16
          → r.lsp < 2 ^ 16
          → f.lrp_file key r.user.user_account_id ≡ (r.lrp, r.lsp))
      × ((k : BaseKey) (s : ℕ) → key_eq k key ≡ false → f.lrp_file k s ≡ r.files.lrp_file k s)
      × ((k : BaseKey) → f.can_write k ≡ true)
unfolding save_lrp
save_lrp-files r key w = elim (Bool-cases (r.oldlrp == r.lrp && (r.oldlsp == r.lsp))) [
  | inl same ↦ (r.files, ground arith, λ e a b. ground arith, λ k s e. refl, w)
  | inr changed ↦ (
    write_lrp r.files key r.user.user_account_id r.lrp r.lsp,
    ground (arith, w key),
    λ e a b. write_lrp_self r.files key r.user.user_account_id r.lrp r.lsp a b,
    λ k s e. unfold write_lrp in ground arith,
    w,
  )
]

-- The reader that a change of the base leads to, once the files are saved.
entered : Reader → MsgBase → BaseFiles → Reader
entered r cb f =
    getmsgptrs
      (load_lrp (record (getmsgptrs (record r { current_msgbase = some cb }) cb) { files = f }) cb)
      cb

enter_base-entered :
    (r : Reader) (cb : MsgBase) (key : BaseKey)
    → r.lrp_open ≡ some key
    → ((k : BaseKey) → r.files.can_write k ≡ true)
    → (f : BaseFiles) × ((enter_base r cb).0 ≡ entered r cb f)
      × (r.files.lrp_file key r.user.user_account_id ≡ (r.oldlrp, r.oldlsp)
          → r.lrp < 2 ^ 16
          → r.lsp < 2 ^ 16
          → f.lrp_file key r.user.user_account_id ≡ (r.lrp, r.lsp))
      × ((k : BaseKey) (s : ℕ) → key_eq k key ≡ false → f.lrp_file k s ≡ r.files.lrp_file k s)
      × ((k : BaseKey) → f.can_write k ≡ true)
unfolding enter_base entered
enter_base-entered r cb key o w =
    let r' = getmsgptrs (record r { current_msgbase = some cb }) cb in
    let (f, saved, own, other, w') = save_lrp-files r' key w in
    (
      f,
      ap (λ k. (after_save cb r' (save_lrp r' k)).0) o ∙ ap (λ m. (after_save cb r' m).0) saved,
      own,
      other,
      w',
    )

key_eq-ne :
    (r : Reader) (a b : MsgBase)
    → a.msgbase_number ≢ b.msgbase_number
    → key_eq (key_of r a) (key_of r b) ≡ false
unfolding key_eq key_of
key_eq-ne r a b ne = ground arith

-- A user who leaves base `a` for another base and comes back finds the last-read pointers that were
-- left, whatever the pointers became in the other base, if the pointer files can be written.
pub enter_base-back :
    (r : Reader) (a b : MsgBase) (x y : ℕ)
    → ((k : BaseKey) → r.files.can_write k ≡ true)
    → IsSynced r
    → r.lrp_open ≡ some (key_of r a)
    → r.lrp < 2 ^ 16
    → r.lsp < 2 ^ 16
    → a.msgbase_number ≢ b.msgbase_number
    → let s = (enter_base (record (enter_base r b).0 { lrp = x; lsp = y }) a).0 in
      (s.lrp ≡ r.lrp) × (s.lsp ≡ r.lsp)
unfolding entered load_lrp getmsgptrs key_of
enter_base-back r a b x y w synced o small_lrp small_lsp ne =
    let (f, e, own, _, w1) = enter_base-entered r b (key_of r a) o w in
    let q = record (entered r b f) { lrp = x; lsp = y } in
    let (g, e2, _, other, _) = enter_base-entered q a (key_of r b) refl w1 in
    let kept = other (key_of r a) r.user.user_account_id (key_eq-ne r a b ne) in
    let back = kept ∙ own (subst (SyncedAt r) o synced) small_lrp small_lsp in
    rw (e, e2) (ap (λ p. p.0) back, ap (λ p. p.1) back)
