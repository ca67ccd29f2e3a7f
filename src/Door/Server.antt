-- ===== src/Door/Server.antt =====
-- The program's side of a door, `door_loop` of main/doorport.c. Command 29, which packs two strings into one
-- buffer, is not modelled.
use daydream.Base.{
  ℕ, ◌+◌, ◌-◌, ◌/◌, ◌%◌, ◌^◌, List, [], ◌∷◌, Option, none, some, ltb, ◌==◌, if◌then◌else◌, take,
}
use daydream.Base.CString.{Str, strlcpy}
use daydream.Door.{
  DoorMsg, NumField, BytesField, TextField, Command, num_bits, text_size, num_command, text_command,
  bytes_command, Session, user_screenlength, user_toggles, user_ulfiles, user_dlfiles,
  user_pubmessages, user_pvtmessages, user_connections, user_fileratio, user_byteratio,
  user_freedlbytes, user_freedlfiles, user_securitylevel, user_joinconference, user_conferenceacc1,
  user_conferenceacc2, user_dailytimelimit, user_firstcall, user_flines, user_lastcall,
  user_protocol, user_fakedfiles, user_fakedbytes, user_ulbytes, user_dlbytes, user_realname,
  user_handle, user_organization, user_zipcity, user_voicephone, user_computermodel, user_signature,
  put_string, ask_line, read_key, type_file, flag_single, find_user, run_command, do_command,
  write_log, change_status, pause_output, join_conference, is_free, flag_file, get_lrps, set_lrps,
  is_conf_access, is_any_base_tagged, is_conf_tagged, is_base_tagged, get_mprs, set_mprs,
  change_base, send_files, get_files, attach_file, unflag_file, is_file_tagged, dump_files,
  board_name, sysop_name, account_id, time_left, parameters, home_path, conference_number,
  files_tagged, bytes_tagged, flag_errors, base_number, text_value, num_value, bytes_value,
}

-- What the loop calls in the rest of the program. An `int` that a call returns is its bit pattern.
pub record Board (World : Type 0) : Type 0 where
  pub ddput : Str → Session World → Session World
  pub prompt : Str → ℕ → ℕ → Session World → Str × ℕ × Session World
  pub hot_key : ℕ → Session World → ℕ × Session World
  pub typefile : Str → ℕ → Session World → ℕ × Session World
  pub flagsingle : Str → ℕ → Session World → ℕ × Session World
  pub findusername : Str → Session World → ℕ
  pub runstdio : Str → ℕ → Session World → Session World
  pub docmd : Str → Session World → Session World
  pub writelog : Str → Session World → Session World
  pub changenodestatus : Str → Session World → Session World
  pub dpause : Session World → Session World
  pub joinconf : ℕ → ℕ → Session World → ℕ × Session World
  pub isfreedl : Str → Session World → ℕ
  pub flagfile : Str → ℕ → Session World → ℕ × Session World
  pub checkconfaccess : ℕ → Session World → ℕ × Session World
  pub isanybasestagged : ℕ → Session World → ℕ
  pub isconftagged : ℕ → Session World → ℕ
  pub isbasetagged : ℕ → ℕ → Session World → ℕ
  pub getmsgptrs : Session World → Session World
  pub setmsgptrs : Session World → Session World
  pub changemsgbase : ℕ → ℕ → Session World → ℕ × Session World
  pub sendfiles : Str → Session World → Session World
  pub recfiles : Str → Session World → Session World
  pub fileattach : Session World → Session World
  pub unflagfile : Str → Session World → ℕ × Session World
  pub isfiletagged : Str → Session World → ℕ
  pub dumpfilestofile : Str → Session World → ℕ × Session World
  pub recountfiles : Session World → Session World
  pub time : Session World → ℕ
  pub boardname : Str
  pub sysopname : Str
  pub origdir : Str
  pub door_params : Option Str

-- The numbers of the commands. Number 1 ends the loop, and 111 and 112 do nothing.
abbrev command_table : List (ℕ × Command)
command_table =
    (2, put_string)
    ∷ (3, ask_line)
    ∷ (4, read_key)
    ∷ (5, type_file)
    ∷ (6, flag_single)
    ∷ (7, find_user)
    ∷ (8, run_command)
    ∷ (9, do_command)
    ∷ (10, write_log)
    ∷ (11, change_status)
    ∷ (12, pause_output)
    ∷ (13, join_conference)
    ∷ (14, is_free)
    ∷ (15, flag_file)
    ∷ (16, get_lrps)
    ∷ (17, set_lrps)
    ∷ (18, is_conf_access)
    ∷ (19, is_any_base_tagged)
    ∷ (20, is_conf_tagged)
    ∷ (21, is_base_tagged)
    ∷ (22, get_mprs)
    ∷ (23, set_mprs)
    ∷ (24, change_base)
    ∷ (25, send_files)
    ∷ (26, get_files)
    ∷ (27, attach_file)
    ∷ (28, unflag_file)
    ∷ (30, is_file_tagged)
    ∷ (31, dump_files)
    ∷ (100, board_name)
    ∷ (101, sysop_name)
    ∷ (102, text_value user_realname)
    ∷ (103, text_value user_handle)
    ∷ (104, text_value user_organization)
    ∷ (105, text_value user_zipcity)
    ∷ (106, text_value user_voicephone)
    ∷ (107, text_value user_computermodel)
    ∷ (108, text_value user_signature)
    ∷ (109, num_value user_screenlength)
    ∷ (110, num_value user_toggles)
    ∷ (113, num_value user_ulfiles)
    ∷ (114, num_value user_dlfiles)
    ∷ (115, num_value user_pubmessages)
    ∷ (116, num_value user_pvtmessages)
    ∷ (117, num_value user_connections)
    ∷ (118, num_value user_fileratio)
    ∷ (119, num_value user_byteratio)
    ∷ (120, num_value user_freedlbytes)
    ∷ (121, num_value user_freedlfiles)
    ∷ (122, num_value user_securitylevel)
    ∷ (123, num_value user_joinconference)
    ∷ (124, num_value user_conferenceacc1)
    ∷ (125, num_value user_conferenceacc2)
    ∷ (126, num_value user_dailytimelimit)
    ∷ (127, account_id)
    ∷ (128, time_left)
    ∷ (129, parameters)
    ∷ (130, home_path)
    ∷ (131, conference_number)
    ∷ (132, bytes_value user_ulbytes)
    ∷ (133, bytes_value user_dlbytes)
    ∷ (134, num_value user_firstcall)
    ∷ (135, num_value user_flines)
    ∷ (136, num_value user_lastcall)
    ∷ (137, num_value user_protocol)
    ∷ (138, num_value user_fakedfiles)
    ∷ (139, num_value user_fakedbytes)
    ∷ (140, files_tagged)
    ∷ (141, bytes_tagged)
    ∷ (142, flag_errors)
    ∷ (143, base_number)
    ∷ []

find_command : List (ℕ × Command) → ℕ → Option Command
find_command [] n = none
find_command ((m, c) ∷ rest) n = if m == n then some c else find_command rest n

unfoldable pub command_of : ℕ → Option Command
unfolding find_command
command_of n = find_command command_table n

-- A number stored in a 32-bit field.
abbrev pub u32 : ℕ → ℕ
u32 n = n % 2 ^ 32

-- `timeleft / 60` of a signed number, in 16 bits.
unfoldable pub minutes_of : ℕ → ℕ
minutes_of t =
    if ltb t (2 ^ 31) then t / 60 % 2 ^ 16 else (2 ^ 16 - (2 ^ 32 - t) / 60 % 2 ^ 16) % 2 ^ 16

-- `strncpy` of 300 bytes
parameter_text : Option Str → Str
parameter_text none = []
parameter_text (some params) = take 300 params

module _ {World : Type 0} where
  unfoldable pub set_timeleft : ℕ → ℕ → Session World → Session World
  unfolding minutes_of
  set_timeleft curr t s = record s {
    timeleft = t;
    endtime = curr + t;
    user_timeremaining = minutes_of t;
  }

  unfoldable pub set_text : TextField → Str → Session World → Session World
  set_text f text s = record s {
    user_text = λ g. if text_command g == text_command f then text else s.user_text g;
  }

  unfoldable pub set_num : NumField → ℕ → Session World → Session World
  set_num f v s = record s {
    user_num = λ g. if num_command g == num_command f then v else s.user_num g;
  }

  unfoldable pub set_bytes : BytesField → ℕ → Session World → Session World
  set_bytes f v s = record s {
    user_bytes = λ g. if bytes_command g == bytes_command f then v else s.user_bytes g;
  }

  -- The last call that is read is the one before this call, not the field that is written.
  unfoldable pub num_read : NumField → Session World → ℕ
  num_read f s = if num_command f == num_command user_lastcall then s.last else s.user_num f

module _ {World : Type 0} (b : Board World) where
  -- The cases of the `switch`.
  unfoldable pub answer : Command → DoorMsg → Session World → DoorMsg × Session World
  unfolding set_timeleft parameter_text set_text set_num set_bytes num_read
  answer put_string msg s = (msg, b.ddput msg.ddm_string s)
  answer ask_line msg s =
      let (line, re, s') = b.prompt msg.ddm_string msg.ddm_data1 msg.ddm_data2 s in
      (record msg { ddm_string = line; ddm_data1 = u32 re }, s')
  answer read_key msg s =
      let (key, s') = b.hot_key msg.ddm_data1 s in (record msg { ddm_data1 = key % 2 ^ 16 }, s')
  answer type_file msg s =
      let (re, s') = b.typefile msg.ddm_string msg.ddm_data1 s in
      (record msg { ddm_data1 = u32 re }, s')
  answer flag_single msg s =
      let (re, s') = b.flagsingle msg.ddm_string msg.ddm_data1 s in
      (record msg { ddm_data1 = u32 re }, s')
  answer find_user msg s = (record msg { ddm_data1 = u32 (b.findusername msg.ddm_string s) }, s)
  answer run_command msg s = (msg, b.runstdio msg.ddm_string msg.ddm_data1 s)
  answer do_command msg s = (msg, b.docmd msg.ddm_string s)
  answer write_log msg s = (msg, b.writelog msg.ddm_string s)
  answer change_status msg s = (msg, b.changenodestatus (strlcpy msg.ddm_string 50) s)
  answer pause_output msg s = (msg, b.dpause s)
  answer join_conference msg s =
      let (re, s') = b.joinconf msg.ddm_data1 msg.ddm_data2 s in
      (record msg { ddm_data1 = u32 re }, s')
  answer is_free msg s = (record msg { ddm_data1 = u32 (b.isfreedl msg.ddm_string s) }, s)
  answer flag_file msg s =
      let (re, s') = b.flagfile msg.ddm_string msg.ddm_data1 s in
      (record msg { ddm_data1 = u32 re }, s')
  answer get_lrps msg s = (record msg { ddm_data1 = u32 s.lrp; ddm_data2 = u32 s.lsp }, s)
  answer set_lrps msg s = (msg, record s { lrp = msg.ddm_data1; lsp = msg.ddm_data2 })
  answer is_conf_access msg s =
      let (re, s') = b.checkconfaccess msg.ddm_data1 s in (record msg { ddm_data1 = u32 re }, s')
  answer is_any_base_tagged msg s =
      (record msg { ddm_data1 = u32 (b.isanybasestagged msg.ddm_data1 s) }, s)
  answer is_conf_tagged msg s = (record msg { ddm_data1 = u32 (b.isconftagged msg.ddm_data1 s) }, s)
  answer is_base_tagged msg s =
      (record msg { ddm_data1 = u32 (b.isbasetagged msg.ddm_data1 msg.ddm_data2 s) }, s)
  answer get_mprs msg s =
      let s' = b.getmsgptrs s in
      (record msg { ddm_data1 = u32 s'.highest; ddm_data2 = u32 s'.lowest }, s')
  answer set_mprs msg s =
      (msg, b.setmsgptrs (record s { highest = msg.ddm_data1; lowest = msg.ddm_data2 }))
  answer change_base msg s =
      let (re, s') = b.changemsgbase msg.ddm_data1 msg.ddm_data2 s in
      (record msg { ddm_data1 = u32 re }, s')
  answer send_files msg s = (msg, b.sendfiles msg.ddm_string s)
  answer get_files msg s = (msg, b.recfiles msg.ddm_string s)
  answer attach_file msg s = (msg, b.fileattach s)
  answer unflag_file msg s =
      let (re, s') = b.unflagfile msg.ddm_string s in (record msg { ddm_data1 = u32 re }, s')
  answer is_file_tagged msg s =
      (record msg { ddm_data1 = u32 (b.isfiletagged msg.ddm_string s) }, s)
  answer dump_files msg s =
      let (re, s') = b.dumpfilestofile msg.ddm_string s in (record msg { ddm_data1 = u32 re }, s')
  answer board_name msg s = (record msg { ddm_string = strlcpy b.boardname 300 }, s)
  answer sysop_name msg s = (record msg { ddm_string = strlcpy b.sysopname 300 }, s)
  answer account_id msg s = (record msg { ddm_data1 = u32 (s.user_account_id) }, s)
  answer time_left msg s =
      if msg.ddm_data1 == 0
      then (record msg { ddm_data1 = u32 s.timeleft }, s)
      else (msg, set_timeleft (b.time s) msg.ddm_data2 s)
  answer parameters msg s = (record msg { ddm_string = parameter_text b.door_params }, s)
  answer home_path msg s = (record msg { ddm_string = strlcpy b.origdir 300 }, s)
  answer conference_number msg s = (record msg { ddm_data1 = u32 (s.conf_number) }, s)
  answer files_tagged msg s =
      let s' = b.recountfiles s in (record msg { ddm_data1 = u32 s'.filestagged }, s')
  answer bytes_tagged msg s =
      let s' = b.recountfiles s in (record msg { ddm_data1 = u32 s'.bytestagged }, s')
  answer flag_errors msg s =
      let s' = b.recountfiles s in (record msg { ddm_data1 = u32 s'.flagerror }, s')
  answer base_number msg s = (record msg { ddm_data1 = u32 (s.msgbase_number) }, s)
  answer (text_value f) msg s =
      if msg.ddm_data1 == 0
      then (record msg { ddm_string = strlcpy (s.user_text f) 300 }, s)
      else (msg, set_text f (strlcpy msg.ddm_string (text_size f)) s)
  answer (num_value f) msg s =
      if msg.ddm_data1 == 0
      then (record msg { ddm_data1 = u32 (num_read f s) }, s)
      else (msg, set_num f (msg.ddm_data2 % 2 ^ num_bits f) s)
  answer (bytes_value f) msg s =
      if msg.ddm_data1 == 0
      then (record msg { ddm_ldata = s.user_bytes f }, s)
      else (msg, set_bytes f msg.ddm_ldata s)

  unfoldable pub answer_known : Option Command → DoorMsg → Session World → DoorMsg × Session World
  unfolding answer
  answer_known none msg s = (msg, s)
  answer_known (some c) msg s = answer c msg s

  -- One round of the loop: the answer to a message.
  unfoldable pub door_step : DoorMsg → Session World → DoorMsg × Session World
  unfolding answer_known command_of
  door_step msg s = answer_known (command_of msg.ddm_command) msg s

  -- The loop over the messages of a door, up to command 1 or the end of the connection.
  unfoldable pub door_loop : List DoorMsg → Session World → List DoorMsg × Session World
  unfolding door_step
  door_loop [] s = ([], s)
  door_loop (msg ∷ msgs) s =
      let (re, s') = door_step msg s in
      let rest = door_loop msgs s' in
      if msg.ddm_command == 1 then ([], s) else (re ∷ rest.0, rest.1)
