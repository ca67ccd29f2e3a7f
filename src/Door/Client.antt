-- ===== src/Door/Client.antt =====
-- The door's side, lib/libdd.c: each call fills the message, sends it and takes its result from the answer.
-- `writedm` is one round of the program's loop. Messages are taken to arrive whole.
use daydream.Base.{ℕ, zero, suc, ◌%◌, ◌^◌, ltb, if◌then◌else◌, length, drop}
use daydream.Base.CString.{Str, strlcpy}
use daydream.Door.{DoorMsg, Session}
use daydream.Door.Server.{Board, u32, door_step}

-- The message of the door's `struct dif`, and the program at the other end.
abbrev pub Link : Type 0 → Type 0
Link World = DoorMsg × Session World

module _ {World : Type 0} (b : Board World) where
  unfoldable pub writedm : Link World → Link World
  unfolding door_step
  writedm (d, s) = door_step b d s

  -- `lp` of 16 bits each
  unfoldable pub dd_getlprs : Link World → (ℕ × ℕ) × Link World
  unfolding writedm
  dd_getlprs (d, s) =
      let l = writedm (record d { ddm_command = 16 }, s) in
      ((l.0.ddm_data1 % 2 ^ 16, l.0.ddm_data2 % 2 ^ 16), l)

  unfoldable pub dd_setlprs : ℕ × ℕ → Link World → Link World
  unfolding writedm
  dd_setlprs (read, scan) (d, s) =
      writedm (record d { ddm_command = 17; ddm_data1 = read; ddm_data2 = scan }, s)

  unfoldable pub dd_getmprs : Link World → (ℕ × ℕ) × Link World
  unfolding writedm
  dd_getmprs (d, s) =
      let l = writedm (record d { ddm_command = 22 }, s) in
      ((l.0.ddm_data1 % 2 ^ 16, l.0.ddm_data2 % 2 ^ 16), l)

  unfoldable pub dd_setmprs : ℕ × ℕ → Link World → Link World
  unfolding writedm
  dd_setmprs (high, low) (d, s) =
      writedm (record d { ddm_command = 23; ddm_data1 = high; ddm_data2 = low }, s)

  unfoldable pub dd_getstrlval : ℕ → ℕ → Link World → Str × Link World
  unfolding writedm
  dd_getstrlval len val (d, s) =
      let l = writedm (record d { ddm_command = val; ddm_data1 = 0 }, s) in
      (strlcpy l.0.ddm_string len, l)

  unfoldable pub dd_setstrval : Str → ℕ → Link World → Link World
  unfolding writedm
  dd_setstrval buf val (d, s) =
      writedm (record d { ddm_command = val; ddm_data1 = 1; ddm_string = strlcpy buf 300 }, s)

  unfoldable pub dd_getintval : ℕ → Link World → ℕ × Link World
  unfolding writedm
  dd_getintval val (d, s) =
      let l = writedm (record d { ddm_command = val; ddm_data1 = 0 }, s) in (l.0.ddm_data1, l)

  unfoldable pub dd_setintval : ℕ → ℕ → Link World → Link World
  unfolding writedm
  dd_setintval val new (d, s) =
      writedm (record d { ddm_command = val; ddm_data1 = 1; ddm_data2 = u32 new }, s)

  unfoldable pub dd_getlintval : ℕ → Link World → ℕ × Link World
  unfolding writedm
  dd_getlintval val (d, s) =
      let l = writedm (record d { ddm_command = val; ddm_data1 = 0 }, s) in (l.0.ddm_ldata, l)

  unfoldable pub dd_setlintval : ℕ → ℕ → Link World → Link World
  unfolding writedm
  dd_setlintval val new (d, s) =
      writedm (record d { ddm_command = val; ddm_data1 = 1; ddm_ldata = new % 2 ^ 64 }, s)

  unfoldable pub dd_prompt : Str → ℕ → ℕ → Link World → (Str × ℕ) × Link World
  unfolding writedm
  dd_prompt buffer len flags (d, s) =
      let l = writedm (
        record d {
          ddm_command = 3;
          ddm_data1 = u32 len;
          ddm_data2 = u32 flags;
          ddm_string = strlcpy buffer 300;
        },
        s,
      ) in
      ((strlcpy l.0.ddm_string len, l.0.ddm_data1), l)

  -- One message with 299 bytes of a text at most.
  unfoldable pub put_chunk : Str → Link World → Link World
  unfolding writedm
  put_chunk str (d, s) = writedm (record d { ddm_command = 2; ddm_string = strlcpy str 300 }, s)

  -- The loop, a round for each 299 bytes; the length of the text is fuel enough.
  unfoldable pub send_from : ℕ → Str → Link World → Link World
  unfolding put_chunk
  send_from zero str l = put_chunk str l
  send_from (suc fuel) str l =
      if ltb 299 (length str)
      then send_from fuel (drop 299 str) (put_chunk str l)
      else put_chunk str l

  unfoldable pub dd_sendstring : Str → Link World → Link World
  unfolding send_from
  dd_sendstring str l = send_from (length str) str l

  unfoldable pub dd_hotkey : ℕ → Link World → ℕ × Link World
  unfolding writedm
  dd_hotkey flags (d, s) =
      let l = writedm (record d { ddm_command = 4; ddm_data1 = u32 flags }, s) in (l.0.ddm_data1, l)

  unfoldable pub dd_typefile : Str → ℕ → Link World → ℕ × Link World
  unfolding writedm
  dd_typefile text flags (d, s) =
      let l =
        writedm
          (record d { ddm_command = 5; ddm_data1 = u32 flags; ddm_string = strlcpy text 300 }, s) in
      (l.0.ddm_data3, l)

  unfoldable pub dd_flagsingle : Str → ℕ → Link World → ℕ × Link World
  unfolding writedm
  dd_flagsingle file flags (d, s) =
      let l =
        writedm
          (record d { ddm_command = 6; ddm_data1 = u32 flags; ddm_string = strlcpy file 300 }, s) in
      (l.0.ddm_data1, l)

  unfoldable pub dd_findusername : Str → Link World → ℕ × Link World
  unfolding writedm
  dd_findusername user (d, s) =
      let l = writedm (record d { ddm_command = 7; ddm_string = strlcpy user 300 }, s) in
      (l.0.ddm_data1, l)

  unfoldable pub dd_system : Str → ℕ → Link World → Link World
  unfolding writedm
  dd_system user mode (d, s) =
      writedm (record d { ddm_command = 8; ddm_data1 = u32 mode; ddm_string = strlcpy user 300 }, s)

  unfoldable pub dd_docmd : Str → Link World → Link World
  unfolding writedm
  dd_docmd cmd (d, s) = writedm (record d { ddm_command = 9; ddm_string = strlcpy cmd 300 }, s)

  unfoldable pub dd_writelog : Str → Link World → Link World
  unfolding writedm
  dd_writelog cmd (d, s) = writedm (record d { ddm_command = 10; ddm_string = strlcpy cmd 300 }, s)

  unfoldable pub dd_changestatus : Str → Link World → Link World
  unfolding writedm
  dd_changestatus stat (d, s) =
      writedm (record d { ddm_command = 11; ddm_string = strlcpy stat 300 }, s)

  unfoldable pub dd_pause : Link World → Link World
  unfolding writedm
  dd_pause (d, s) = writedm (record d { ddm_command = 12 }, s)

  unfoldable pub dd_joinconf : ℕ → ℕ → Link World → ℕ × Link World
  unfolding writedm
  dd_joinconf dc fl (d, s) =
      let l = writedm (record d { ddm_command = 13; ddm_data1 = u32 dc; ddm_data2 = u32 fl }, s) in
      (l.0.ddm_data1, l)

  unfoldable pub dd_isfreedl : Str → Link World → ℕ × Link World
  unfolding writedm
  dd_isfreedl str (d, s) =
      let l = writedm (record d { ddm_command = 14; ddm_string = strlcpy str 300 }, s) in
      (l.0.ddm_data1, l)

  unfoldable pub dd_flagfile : Str → ℕ → Link World → ℕ × Link World
  unfolding writedm
  dd_flagfile str i (d, s) =
      let l =
        writedm
          (record d { ddm_command = 15; ddm_data1 = u32 i; ddm_string = strlcpy str 300 }, s) in
      (l.0.ddm_data1, l)

  unfoldable pub dd_isconfaccess : ℕ → Link World → ℕ × Link World
  unfolding writedm
  dd_isconfaccess confn (d, s) =
      let l = writedm (record d { ddm_command = 18; ddm_data1 = u32 confn }, s) in
      (l.0.ddm_data1, l)

  unfoldable pub dd_isanybasestagged : ℕ → Link World → ℕ × Link World
  unfolding writedm
  dd_isanybasestagged confa (d, s) =
      let l = writedm (record d { ddm_command = 19; ddm_data1 = u32 confa }, s) in
      (l.0.ddm_data1, l)

  unfoldable pub dd_isconftagged : ℕ → Link World → ℕ × Link World
  unfolding writedm
  dd_isconftagged n (d, s) =
      let l = writedm (record d { ddm_command = 20; ddm_data1 = u32 n }, s) in (l.0.ddm_data1, l)

  unfoldable pub dd_isbasetagged : ℕ → ℕ → Link World → ℕ × Link World
  unfolding writedm
  dd_isbasetagged n m (d, s) =
      let l = writedm (record d { ddm_command = 21; ddm_data1 = u32 n; ddm_data2 = u32 m }, s) in
      (l.0.ddm_data1, l)

  unfoldable pub dd_changemsgbase : ℕ → ℕ → Link World → ℕ × Link World
  unfolding writedm
  dd_changemsgbase base flags (d, s) =
      let l =
        writedm (record d { ddm_command = 24; ddm_data1 = u32 base; ddm_data2 = u32 flags }, s) in
      (l.0.ddm_data1, l)

  unfoldable pub dd_sendfiles : Str → Link World → Link World
  unfolding writedm
  dd_sendfiles flist (d, s) =
      writedm (record d { ddm_command = 25; ddm_string = strlcpy flist 300 }, s)

  unfoldable pub dd_getfiles : Str → Link World → Link World
  unfolding writedm
  dd_getfiles path (d, s) =
      writedm (record d { ddm_command = 26; ddm_string = strlcpy path 300 }, s)

  unfoldable pub dd_fileattach : Link World → Link World
  unfolding writedm
  dd_fileattach (d, s) = writedm (record d { ddm_command = 27 }, s)

  unfoldable pub dd_unflagfile : Str → Link World → ℕ × Link World
  unfolding writedm
  dd_unflagfile str (d, s) =
      let l = writedm (record d { ddm_command = 28; ddm_string = strlcpy str 300 }, s) in
      (l.0.ddm_data1, l)

  unfoldable pub dd_isfiletagged : Str → Link World → ℕ × Link World
  unfolding writedm
  dd_isfiletagged str (d, s) =
      let l = writedm (record d { ddm_command = 30; ddm_string = strlcpy str 300 }, s) in
      (l.0.ddm_data1, l)

  unfoldable pub dd_dumpfilestofile : Str → Link World → ℕ × Link World
  unfolding writedm
  dd_dumpfilestofile str (d, s) =
      let l = writedm (record d { ddm_command = 31; ddm_string = strlcpy str 300 }, s) in
      (l.0.ddm_data1, l)
