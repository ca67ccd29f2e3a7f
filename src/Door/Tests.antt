-- ===== src/Door/Tests.antt =====
-- A small program behind a door, and the theorems at calls of it.
use daydream.Base.{ℕ, ◌+◌, ◌≡◌, refl, ◌≢◌, List, [], ◌∷◌, ◌++◌, none, arith, length}
use daydream.Base.CString.{Str, codes}
use daydream.Door.{DoorMsg, NumField, num_command, user_fileratio}
use daydream.Door.Server.{Board, u32, door_step, door_loop}
use daydream.Door.Client.{
  Link, dd_sendstring, dd_getintval, dd_setintval, dd_flagsingle, dd_flagfile, dd_unflagfile,
  dd_isfiletagged, dd_isfreedl, dd_findusername, dd_dumpfilestofile,
}
use daydream.Door.Values.{dd_getintval-dd_setintval}
use daydream.Door.Output.{PutOut, dd_sendstring-PutOut}
use daydream.Door.Direct.{Gives, text_calls-direct}

-- A program whose world is the list of the texts put out.
abbrev board : Board (List Str)
board = record {
  ddput = λ str s. record s { world = s.world ++ (str ∷ []) };
  prompt = λ str len flags s. (codes "yes", 1, s);
  hot_key = λ flags s. (65, s);
  typefile = λ str flags s. (1, record s { world = s.world ++ (str ∷ []) });
  flagsingle = λ str flags s. (0, record s { filestagged = s.filestagged + 1 });
  findusername = λ str s. length str;
  runstdio = λ str mode s. s;
  docmd = λ str s. s;
  writelog = λ str s. s;
  changenodestatus = λ str s. s;
  dpause = λ s. s;
  joinconf = λ confn flags s. (1, record s { conf_number = confn });
  isfreedl = λ str s. 0;
  flagfile = λ str flags s. (2, record s { filestagged = s.filestagged + 2 });
  checkconfaccess = λ confn s. (1, s);
  isanybasestagged = λ confn s. 0;
  isconftagged = λ confn s. 1;
  isbasetagged = λ confn basen s. 0;
  getmsgptrs = λ s. s;
  setmsgptrs = λ s. s;
  changemsgbase = λ basen flags s. (1, record s { msgbase_number = basen });
  sendfiles = λ str s. s;
  recfiles = λ str s. s;
  fileattach = λ s. s;
  unflagfile = λ str s. (1, record s { filestagged = 0 });
  isfiletagged = λ str s. 0;
  dumpfilestofile = λ str s. (0, s);
  recountfiles = λ s. s;
  time = λ s. 1000;
  boardname = codes "board";
  sysopname = codes "sysop";
  origdir = codes "/bbs";
  door_params = none;
}

abbrev link : Link (List Str)
link = (
  record {
    ddm_command = 0;
    ddm_data1 = 0;
    ddm_data2 = 0;
    ddm_data3 = 9;
    ddm_ldata = 0;
    ddm_string = [];
  },
  record {
    world = [];
    user_num = λ f. 3;
    user_bytes = λ f. 0;
    user_text = λ f. codes "x";
    user_account_id = 4;
    user_timeremaining = 1;
    lrp = 0;
    lsp = 0;
    highest = 0;
    lowest = 0;
    timeleft = 60;
    endtime = 60;
    last = 0;
    filestagged = 0;
    bytestagged = 0;
    flagerror = 0;
    conf_number = 1;
    msgbase_number = 1;
  },
)

abbrev message : ℕ → ℕ → DoorMsg
message command data1 = record {
  ddm_command = command;
  ddm_data1 = data1;
  ddm_data2 = 120;
  ddm_data3 = 0;
  ddm_ldata = 0;
  ddm_string = [];
}

minutes :
    (door_loop board (message 128 1 ∷ message 1 0 ∷ message 13 7 ∷ []) link.1).1.user_timeremaining
    ≡ 2
unfolding door_loop
minutes = refl

unknown_command : door_step board (message 99 5) link.1 ≡ (message 99 5, link.1)
unfolding door_step
unknown_command = refl

dd_getintval-dd_setintval_example :
    ((dd_getintval board 118 (dd_setintval board 118 300 link)).0 ≡ 44)
    × ((g : NumField)
        → num_command g ≢ 118
        → (dd_getintval board (num_command g) (dd_setintval board 118 300 link)).0
          ≡ (dd_getintval board (num_command g) link).0)
dd_getintval-dd_setintval_example =
    dd_getintval-dd_setintval board user_fileratio 300 link (omega arith)

dd_sendstring-PutOut_example :
    PutOut board (codes "hello") link.1 (dd_sendstring board (codes "hello") link).1
dd_sendstring-PutOut_example = dd_sendstring-PutOut board (codes "hello") link

text_calls-direct_example :
    Gives board
      (dd_flagsingle board (codes "a.zip") 1 link)
      (board.flagsingle (codes "a.zip") (u32 1) link.1)
    × Gives board
        (dd_flagfile board (codes "a.zip") 1 link)
        (board.flagfile (codes "a.zip") (u32 1) link.1)
    × Gives board
        (dd_unflagfile board (codes "a.zip") link)
        (board.unflagfile (codes "a.zip") link.1)
    × Gives board
        (dd_isfiletagged board (codes "a.zip") link)
        (board.isfiletagged (codes "a.zip") link.1, link.1)
    × Gives board
        (dd_isfreedl board (codes "a.zip") link)
        (board.isfreedl (codes "a.zip") link.1, link.1)
    × Gives board
        (dd_findusername board (codes "a.zip") link)
        (board.findusername (codes "a.zip") link.1, link.1)
    × Gives board
        (dd_dumpfilestofile board (codes "a.zip") link)
        (board.dumpfilestofile (codes "a.zip") link.1)
text_calls-direct_example = text_calls-direct board (codes "a.zip") 1 link (omega arith)
