-- ===== src/Door/Values.antt =====
-- What a door reads after it has set a value of the user record.
use daydream.Base.{ℕ, ◌%◌, ◌^◌, ◌<◌, ◌≡◌, refl, ap, ◌≢◌, some, arith, length}
use native.Mathlib.Nat.{mod-le}
use daydream.Base.CString.{Str, strlcpy, strlcpy-fits}
use daydream.Door.{
  DoorMsg, NumField, TextField, num_value, text_value, num_bits, text_size, num_command,
  text_command, Session, Command, user_screenlength, user_toggles, user_ulfiles, user_dlfiles,
  user_pubmessages, user_pvtmessages, user_connections, user_fileratio, user_byteratio,
  user_freedlbytes, user_freedlfiles, user_securitylevel, user_joinconference, user_conferenceacc1,
  user_conferenceacc2, user_dailytimelimit, user_firstcall, user_flines, user_lastcall,
  user_protocol, user_fakedfiles, user_fakedbytes, user_realname, user_handle, user_organization,
  user_zipcity, user_voicephone, user_computermodel, user_signature,
}
use daydream.Door.Server.{
  Board, command_of, u32, answer, answer_known, door_step, set_num, set_text, num_read,
}
use daydream.Door.Client.{Link, writedm, dd_getintval, dd_setintval, dd_getstrlval, dd_setstrval}

command_of-num_command : (f : NumField) → command_of (num_command f) ≡ some (num_value f)
unfolding command_of
command_of-num_command user_screenlength = refl
command_of-num_command user_toggles = refl
command_of-num_command user_ulfiles = refl
command_of-num_command user_dlfiles = refl
command_of-num_command user_pubmessages = refl
command_of-num_command user_pvtmessages = refl
command_of-num_command user_connections = refl
command_of-num_command user_fileratio = refl
command_of-num_command user_byteratio = refl
command_of-num_command user_freedlbytes = refl
command_of-num_command user_freedlfiles = refl
command_of-num_command user_securitylevel = refl
command_of-num_command user_joinconference = refl
command_of-num_command user_conferenceacc1 = refl
command_of-num_command user_conferenceacc2 = refl
command_of-num_command user_dailytimelimit = refl
command_of-num_command user_firstcall = refl
command_of-num_command user_flines = refl
command_of-num_command user_lastcall = refl
command_of-num_command user_protocol = refl
command_of-num_command user_fakedfiles = refl
command_of-num_command user_fakedbytes = refl

command_of-text_command : (f : TextField) → command_of (text_command f) ≡ some (text_value f)
unfolding command_of
command_of-text_command user_realname = refl
command_of-text_command user_handle = refl
command_of-text_command user_organization = refl
command_of-text_command user_zipcity = refl
command_of-text_command user_voicephone = refl
command_of-text_command user_computermodel = refl
command_of-text_command user_signature = refl

text_size-small : (f : TextField) → text_size f < 300
text_size-small user_realname = omega arith
text_size-small user_handle = omega arith
text_size-small user_organization = omega arith
text_size-small user_zipcity = omega arith
text_size-small user_voicephone = omega arith
text_size-small user_computermodel = omega arith
text_size-small user_signature = omega arith

mod_small : (m n k : ℕ) → m < k → m % n < k
mod_small m n k h = omega (arith, mod-le m n)

module _ {World : Type 0} (b : Board World) where
  writedm-known :
      (c : Command) (d : DoorMsg) (s : Session World)
      → command_of d.ddm_command ≡ some c
      → writedm b (d, s) ≡ answer b c d s
  unfolding writedm door_step answer_known
  writedm-known c d s e = rw e refl

  dd_setintval-set_num :
      (f : NumField) (v : ℕ) (d : DoorMsg) (s : Session World)
      → (dd_setintval b (num_command f) v (d, s)).1 ≡ set_num f (u32 v % 2 ^ num_bits f) s
  unfolding dd_setintval answer
  dd_setintval-set_num f v d s =
      ap (λ l. l.1)
        (writedm-known (num_value f)
          (record d { ddm_command = num_command f; ddm_data1 = 1; ddm_data2 = u32 v }) s
          (command_of-num_command f))

  dd_getintval-num_read :
      (f : NumField) (l : Link World) → (dd_getintval b (num_command f) l).0 ≡ u32 (num_read f l.1)
  unfolding dd_getintval answer
  dd_getintval-num_read f (d, s) =
      ap (λ l. l.0.ddm_data1)
        (writedm-known (num_value f) (record d { ddm_command = num_command f; ddm_data1 = 0 }) s
          (command_of-num_command f))

  -- A door that sets a number of the user record, any but the time of the last call, reads back the
  -- number, cut to 32 bits and to the width of the field; any other number reads as before.
  pub dd_getintval-dd_setintval :
      (f : NumField) (v : ℕ) (l : Link World)
      → num_command f ≢ num_command user_lastcall
      → ((dd_getintval b (num_command f) (dd_setintval b (num_command f) v l)).0
          ≡ v % 2 ^ 32 % 2 ^ num_bits f)
        × ((g : NumField)
            → num_command g ≢ num_command f
            → (dd_getintval b (num_command g) (dd_setintval b (num_command f) v l)).0
              ≡ (dd_getintval b (num_command g) l).0)
  unfolding num_read set_num
  dd_getintval-dd_setintval f v (d, s) ne = (
    rw
        (
          dd_getintval-num_read f (dd_setintval b (num_command f) v (d, s)),
          dd_setintval-set_num f v d s,
        )
        (ground (arith, mod_small (v % 2 ^ 32) (2 ^ num_bits f) (2 ^ 32) (omega arith))),
    λ g other.
        rw
          (
            dd_getintval-num_read g (dd_setintval b (num_command f) v (d, s)),
            dd_setintval-set_num f v d s,
            dd_getintval-num_read g (d, s),
          )
          (ground arith),
  )

  dd_setstrval-set_text :
      (f : TextField) (buf : Str) (d : DoorMsg) (s : Session World)
      → (dd_setstrval b buf (text_command f) (d, s)).1
        ≡ set_text f (strlcpy (strlcpy buf 300) (text_size f)) s
  unfolding dd_setstrval answer
  dd_setstrval-set_text f buf d s =
      ap (λ l. l.1)
        (writedm-known (text_value f)
          (record d { ddm_command = text_command f; ddm_data1 = 1; ddm_string = strlcpy buf 300 }) s
          (command_of-text_command f))

  dd_getstrlval-text :
      (f : TextField) (len : ℕ) (l : Link World)
      → (dd_getstrlval b len (text_command f) l).0 ≡ strlcpy (strlcpy (l.1.user_text f) 300) len
  unfolding dd_getstrlval answer
  dd_getstrlval-text f len (d, s) =
      ap (λ l. strlcpy l.0.ddm_string len)
        (writedm-known (text_value f) (record d { ddm_command = text_command f; ddm_data1 = 0 }) s
          (command_of-text_command f))

  -- A text that fits its field of the user record, set by a door, is read back by it whole into a
  -- buffer that it fits too.
  dd_getstrlval-dd_setstrval :
      (f : TextField) (buf : Str) (len : ℕ) (l : Link World)
      → length buf < text_size f
      → length buf < len
      → (dd_getstrlval b len (text_command f) (dd_setstrval b buf (text_command f) l)).0 ≡ buf
  unfolding set_text
  dd_getstrlval-dd_setstrval f buf len (d, s) fits_field fits_buffer =
      rw
        (
          dd_getstrlval-text f len (dd_setstrval b buf (text_command f) (d, s)),
          dd_setstrval-set_text f buf d s,
        )
        (ground (
          arith,
          strlcpy-fits buf 300 (omega (arith, text_size-small f)),
          strlcpy-fits buf (text_size f) fits_field,
          strlcpy-fits buf len fits_buffer,
        ))
