-- ===== src/Door.antt =====
-- The messages of doors and the state they act on, lib/libdd.c and main/doorport.c. A door sends a record
-- and reads back its answer; each number is the bit pattern that its field holds.
pub mod Server
pub mod Client
pub mod Values
pub mod Output
pub mod Direct
mod Tests
use daydream.Base.{ℕ, Bool, true, false, List, [], ◌∷◌, Option, none, some, ◌==◌, if◌then◌else◌}
use daydream.Base.CString.{Str}

-- `struct DayDream_DoorMsg`
pub record DoorMsg : Type 0 where
  pub ddm_command : ℕ
  pub ddm_data1 : ℕ
  pub ddm_data2 : ℕ
  pub ddm_data3 : ℕ
  pub ddm_ldata : ℕ
  pub ddm_string : Str

-- The numbers of the user record that a door reads and writes.
pub data NumField : Type 0 where
  user_screenlength : NumField
  user_toggles : NumField
  user_ulfiles : NumField
  user_dlfiles : NumField
  user_pubmessages : NumField
  user_pvtmessages : NumField
  user_connections : NumField
  user_fileratio : NumField
  user_byteratio : NumField
  user_freedlbytes : NumField
  user_freedlfiles : NumField
  user_securitylevel : NumField
  user_joinconference : NumField
  user_conferenceacc1 : NumField
  user_conferenceacc2 : NumField
  user_dailytimelimit : NumField
  user_firstcall : NumField
  user_flines : NumField
  user_lastcall : NumField
  user_protocol : NumField
  user_fakedfiles : NumField
  user_fakedbytes : NumField

-- The byte counters, which travel in `ddm_ldata`.
pub data BytesField : Type 0 where
  user_ulbytes : BytesField
  user_dlbytes : BytesField

-- The texts of the user record.
pub data TextField : Type 0 where
  user_realname : TextField
  user_handle : TextField
  user_organization : TextField
  user_zipcity : TextField
  user_voicephone : TextField
  user_computermodel : TextField
  user_signature : TextField

-- What a command asks for, the cases of the `switch`.
pub data Command : Type 0 where
  put_string : Command
  ask_line : Command
  read_key : Command
  type_file : Command
  flag_single : Command
  find_user : Command
  run_command : Command
  do_command : Command
  write_log : Command
  change_status : Command
  pause_output : Command
  join_conference : Command
  is_free : Command
  flag_file : Command
  get_lrps : Command
  set_lrps : Command
  is_conf_access : Command
  is_any_base_tagged : Command
  is_conf_tagged : Command
  is_base_tagged : Command
  get_mprs : Command
  set_mprs : Command
  change_base : Command
  send_files : Command
  get_files : Command
  attach_file : Command
  unflag_file : Command
  is_file_tagged : Command
  dump_files : Command
  board_name : Command
  sysop_name : Command
  account_id : Command
  time_left : Command
  parameters : Command
  home_path : Command
  conference_number : Command
  files_tagged : Command
  bytes_tagged : Command
  flag_errors : Command
  base_number : Command
  text_value : TextField → Command
  num_value : NumField → Command
  bytes_value : BytesField → Command

-- The widths of the fields in bits.
abbrev pub num_bits : NumField → ℕ
num_bits user_screenlength = 8
num_bits user_toggles = 32
num_bits user_ulfiles = 16
num_bits user_dlfiles = 16
num_bits user_pubmessages = 16
num_bits user_pvtmessages = 16
num_bits user_connections = 16
num_bits user_fileratio = 8
num_bits user_byteratio = 8
num_bits user_freedlbytes = 32
num_bits user_freedlfiles = 16
num_bits user_securitylevel = 8
num_bits user_joinconference = 8
num_bits user_conferenceacc1 = 32
num_bits user_conferenceacc2 = 32
num_bits user_dailytimelimit = 16
num_bits user_firstcall = 64
num_bits user_flines = 8
num_bits user_lastcall = 64
num_bits user_protocol = 8
num_bits user_fakedfiles = 16
num_bits user_fakedbytes = 32

-- The sizes of the buffers.
abbrev pub text_size : TextField → ℕ
text_size user_realname = 26
text_size user_handle = 26
text_size user_organization = 26
text_size user_zipcity = 21
text_size user_voicephone = 21
text_size user_computermodel = 21
text_size user_signature = 45

-- The command numbers of the fields.
abbrev pub num_command : NumField → ℕ
num_command user_screenlength = 109
num_command user_toggles = 110
num_command user_ulfiles = 113
num_command user_dlfiles = 114
num_command user_pubmessages = 115
num_command user_pvtmessages = 116
num_command user_connections = 117
num_command user_fileratio = 118
num_command user_byteratio = 119
num_command user_freedlbytes = 120
num_command user_freedlfiles = 121
num_command user_securitylevel = 122
num_command user_joinconference = 123
num_command user_conferenceacc1 = 124
num_command user_conferenceacc2 = 125
num_command user_dailytimelimit = 126
num_command user_firstcall = 134
num_command user_flines = 135
num_command user_lastcall = 136
num_command user_protocol = 137
num_command user_fakedfiles = 138
num_command user_fakedbytes = 139

abbrev pub text_command : TextField → ℕ
text_command user_realname = 102
text_command user_handle = 103
text_command user_organization = 104
text_command user_zipcity = 105
text_command user_voicephone = 106
text_command user_computermodel = 107
text_command user_signature = 108

abbrev pub bytes_command : BytesField → ℕ
bytes_command user_ulbytes = 132
bytes_command user_dlbytes = 133

-- The globals that a door reaches; `world` is the rest of the program.
pub record Session (World : Type 0) : Type 0 where
  pub world : World
  pub user_num : NumField → ℕ
  pub user_bytes : BytesField → ℕ
  pub user_text : TextField → Str
  pub user_account_id : ℕ
  pub user_timeremaining : ℕ
  pub lrp : ℕ
  pub lsp : ℕ
  pub highest : ℕ
  pub lowest : ℕ
  pub timeleft : ℕ
  pub endtime : ℕ
  pub last : ℕ
  pub filestagged : ℕ
  pub bytestagged : ℕ
  pub flagerror : ℕ
  pub conf_number : ℕ
  pub msgbase_number : ℕ
