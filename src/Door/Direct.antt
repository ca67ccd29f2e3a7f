-- ===== src/Door/Direct.antt =====
-- A door's call and the program's own function.
use daydream.Base.{ℕ, ◌^◌, ◌<◌, ◌≡◌, refl, length, arith}
use daydream.Base.CString.{Str, strlcpy, strlcpy-fits}
use daydream.Door.{Session}
use daydream.Door.Server.{Board, u32, door_step}
use daydream.Door.Client.{
  Link, dd_typefile, dd_flagsingle, dd_findusername, dd_joinconf, dd_isfreedl, dd_flagfile,
  dd_isconfaccess, dd_isanybasestagged, dd_isconftagged, dd_isbasetagged, dd_changemsgbase,
  dd_unflagfile, dd_isfiletagged, dd_dumpfilestofile, dd_getlprs, dd_setlprs,
}

module _ {World : Type 0} (b : Board World) where
  -- A call gives the 32 bits of a function's result and leaves the state that the function leaves.
  abbrev pub Gives : ℕ × Link World → ℕ × Session World → Type 0
  Gives called direct = (called.0 ≡ u32 direct.0) × (called.1.1 ≡ direct.1)

  -- Seven of a door's calls, with a text of at most 299 bytes, give what the program's functions of the same
  -- names give, with every number cut to 32 bits: dd_flagsingle, dd_flagfile, dd_unflagfile,
  -- dd_isfiletagged, dd_isfreedl, dd_findusername and dd_dumpfilestofile.
  pub text_calls-direct :
      (str : Str) (n : ℕ) (l : Link World)
      → length str < 300
      → Gives (dd_flagsingle b str n l) (b.flagsingle str (u32 n) l.1)
        × Gives (dd_flagfile b str n l) (b.flagfile str (u32 n) l.1)
        × Gives (dd_unflagfile b str l) (b.unflagfile str l.1)
        × Gives (dd_isfiletagged b str l) (b.isfiletagged str l.1, l.1)
        × Gives (dd_isfreedl b str l) (b.isfreedl str l.1, l.1)
        × Gives (dd_findusername b str l) (b.findusername str l.1, l.1)
        × Gives (dd_dumpfilestofile b str l) (b.dumpfilestofile str l.1)
  unfolding dd_flagsingle dd_flagfile dd_unflagfile dd_isfiletagged dd_isfreedl dd_findusername
      dd_dumpfilestofile door_step
  text_calls-direct str n (d, s) fits = rw (strlcpy-fits str 300 fits) (
    (refl, refl),
    (refl, refl),
    (refl, refl),
    (refl, refl),
    (refl, refl),
    (refl, refl),
    (refl, refl),
  )

  -- A door's calls with numbers alone give what the program's functions of the same names give.
  number_calls-direct :
      (m n : ℕ) (l : Link World)
      → Gives (dd_joinconf b m n l) (b.joinconf (u32 m) (u32 n) l.1)
        × Gives (dd_changemsgbase b m n l) (b.changemsgbase (u32 m) (u32 n) l.1)
        × Gives (dd_isconfaccess b m l) (b.checkconfaccess (u32 m) l.1)
        × Gives (dd_isanybasestagged b m l) (b.isanybasestagged (u32 m) l.1, l.1)
        × Gives (dd_isconftagged b m l) (b.isconftagged (u32 m) l.1, l.1)
        × Gives (dd_isbasetagged b m n l) (b.isbasetagged (u32 m) (u32 n) l.1, l.1)
  unfolding dd_joinconf dd_changemsgbase dd_isconfaccess dd_isanybasestagged dd_isconftagged
      dd_isbasetagged door_step
  number_calls-direct m n (d, s) =
      ((refl, refl), (refl, refl), (refl, refl), (refl, refl), (refl, refl), (refl, refl))

  -- The result of `dd_typefile` is a number left in the message before the call, whatever the
  -- program's `TypeFile` returns; the state is what `TypeFile` leaves.
  dd_typefile-stale :
      (text : Str) (flags : ℕ) (l : Link World)
      → ((dd_typefile b text flags l).0 ≡ l.0.ddm_data3)
        × ((dd_typefile b text flags l).1.1 ≡ (b.typefile (strlcpy text 300) (u32 flags) l.1).1)
  unfolding dd_typefile door_step
  dd_typefile-stale text flags (d, s) = (refl, refl)

  -- The last-read pointers that a door sets are the ones it gets.
  dd_getlprs-dd_setlprs :
      (read scan : ℕ) (l : Link World)
      → read < 2 ^ 16
      → scan < 2 ^ 16
      → (dd_getlprs b (dd_setlprs b (read, scan) l)).0 ≡ (read, scan)
  unfolding dd_getlprs dd_setlprs door_step
  dd_getlprs-dd_setlprs read scan (d, s) small_read small_scan = ground arith
