-- ===== src/Menu/Rights.antt =====
-- What the commands do without the right that they need.
use daydream.Base.{ℕ, ◌≡◌, refl, false, Option, none, some, ◌==◌, inl, inr, Bool-cases}
use daydream.Base.CString.{Str}
use daydream.Access.{Security, Caller, isaccess, has_bit, getsec}
use daydream.Menu.{
  run_bulletins, run_cmbmenu, run_comment, run_copyfile, run_download, run_edituser, run_entermsg,
  run_filelist_new, run_filelist_scan, run_filelist_zippy, run_globalnewscan, run_globalread,
  run_joinconfmenu, run_linkfile, run_movefile, run_olmsg, run_pagesysop, run_readmessages,
  run_show_time, run_sysopdownload, run_taged, run_upload, run_upload_rz, run_userlist,
  run_userstats, run_viewfile, run_who, done, quits, flip_expert, enter_usered, Command, Action,
  Desk, guarded, require_message_bases, primitive_docmd, cmd_ver, cmd_expert_mode, cmd_logoff,
  cmd_change_info, cmd_file_scan, cmd_download, cmd_tag_editor, cmd_bulletins, cmd_new_files,
  cmd_zippy_search, cmd_time, cmd_stats, cmd_enter_msg, cmd_comment, cmd_read_msgs, cmd_global_read,
  cmd_join_conf, cmd_change_msgbase, cmd_local_upload, cmd_upload, cmd_upload_rz, cmd_view_file,
  cmd_scan_mail, cmd_global_fscan, cmd_tag_msgbases, cmd_tag_confs, cmd_prev_conf, cmd_next_conf,
  cmd_prev_base, cmd_next_base, cmd_who, cmd_help, cmd_userlist, cmd_mode, cmd_page, cmd_olm,
  cmd_move, cmd_copy, cmd_link, cmd_sysop_download, cmd_usered, cmd_text_search, cmd_test_door,
}

-- The words of access bits.
pub data Word : Type 0 where
  first second : Word

abbrev pub word_of : Word → Caller → ℕ
word_of first c = c.access1
word_of second c = c.access2

-- The right that a command needs, by the names of main/dd.h: those up to SECB_MOVEFILE are bits of the
-- first word and the others bits of the second. The commands that choose conferences and message bases are
-- not among them: they look at the wrong word.
unfoldable pub right_of : Command → Option (Word × ℕ)
right_of cmd_expert_mode = some (first, 19)
right_of cmd_change_info = some (first, 13)
right_of cmd_file_scan = some (first, 7)
right_of cmd_download = some (first, 0)
right_of cmd_tag_editor = some (first, 15)
right_of cmd_bulletins = some (first, 6)
right_of cmd_new_files = some (first, 8)
right_of cmd_zippy_search = some (first, 9)
right_of cmd_time = some (first, 17)
right_of cmd_stats = some (first, 16)
right_of cmd_enter_msg = some (first, 3)
right_of cmd_comment = some (first, 5)
right_of cmd_read_msgs = some (first, 2)
right_of cmd_global_read = some (first, 2)
right_of cmd_join_conf = some (first, 11)
right_of cmd_change_msgbase = some (first, 12)
right_of cmd_upload = some (first, 1)
right_of cmd_upload_rz = some (first, 1)
right_of cmd_view_file = some (second, 6)
right_of cmd_global_fscan = some (first, 8)
right_of cmd_who = some (first, 30)
right_of cmd_userlist = some (first, 27)
right_of cmd_page = some (first, 4)
right_of cmd_olm = some (second, 3)
right_of cmd_move = some (first, 31)
right_of cmd_copy = some (first, 31)
right_of cmd_link = some (first, 31)
right_of cmd_sysop_download = some (first, 26)
right_of cmd_usered = some (first, 24)
right_of _ = none

abbrev pub Lacks : Caller → Option (Word × ℕ) → Type 0
Lacks c none = ⊥
Lacks c (some (w, flag)) = has_bit (word_of w c) flag ≡ false

module _ {ℓ} {S : Type ℓ} where
  -- The result is 1, and no more has changed than what the check of the right refreshes.
  abbrev pub Stays : Desk S → Desk S × ℕ → Type ℓ
  Stays d (d', result) = (d'.rest ≡ d.rest) × (d'.user_toggles ≡ d.user_toggles) × (result ≡ 1)

  module _ (sec : Security) (run : Action → Str → Desk S → Desk S × ℕ) (msgbases : Desk S → ℕ)
      (cfg_oluseredpw : Str) where
    guarded-Stays :
        (flag accint : ℕ) (call : Desk S → Desk S × ℕ) (d : Desk S)
        → has_bit accint flag ≡ false
        → Stays d (guarded sec run msgbases cfg_oluseredpw flag accint call d)
    unfolding guarded isaccess
    guarded-Stays flag accint call d lacks = elim (Bool-cases (getsec sec d.caller).1) [
      | inl known ↦ simp (known, lacks) (refl, refl, refl)
      | inr unknown ↦ simp unknown (refl, refl, refl)
    ]

    require_message_bases-Stays :
        (call : Desk S → Desk S × ℕ) (d : Desk S)
        → Stays d (call d)
        → Stays d (require_message_bases sec run msgbases cfg_oluseredpw call d)
    unfolding require_message_bases
    require_message_bases-Stays call d h = elim (Bool-cases (msgbases d == 0)) [
      | inl without ↦ simp without (refl, refl, refl)
      | inr some_bases ↦ simp some_bases h
    ]

    -- A command whose right the user lacks calls nothing, whatever the functions of the program do: it
    -- returns 1 and changes no more than the caller's record that the check of the right refreshes.
    pub primitive_docmd-Stays :
        (command : Command) (params : Str) (line : Option Str) (d : Desk S)
        → Lacks d.caller (right_of command)
        → Stays d (primitive_docmd sec run msgbases cfg_oluseredpw command params line d)
    unfolding primitive_docmd right_of
    primitive_docmd-Stays cmd_text_search params line d h = absurd h
    primitive_docmd-Stays cmd_ver params line d h = absurd h
    primitive_docmd-Stays cmd_expert_mode params line d h =
        guarded-Stays 19 d.caller.access1 (λ d. (flip_expert d, 1)) d h
    primitive_docmd-Stays cmd_logoff params line d h = absurd h
    primitive_docmd-Stays cmd_change_info params line d h =
        guarded-Stays 13 d.caller.access1 (λ d. done (run run_edituser params d)) d h
    primitive_docmd-Stays cmd_file_scan params line d h =
        guarded-Stays 7 d.caller.access1 (λ d. done (run run_filelist_scan params d)) d h
    primitive_docmd-Stays cmd_download params line d h =
        guarded-Stays 0 d.caller.access1 (λ d. quits (run run_download params d)) d h
    primitive_docmd-Stays cmd_tag_editor params line d h =
        guarded-Stays 15 d.caller.access1 (λ d. done (run run_taged params d)) d h
    primitive_docmd-Stays cmd_bulletins params line d h =
        guarded-Stays 6 d.caller.access1 (λ d. done (run run_bulletins params d)) d h
    primitive_docmd-Stays cmd_new_files params line d h =
        guarded-Stays 8 d.caller.access1 (λ d. done (run run_filelist_new params d)) d h
    primitive_docmd-Stays cmd_zippy_search params line d h =
        guarded-Stays 9 d.caller.access1 (λ d. done (run run_filelist_zippy params d)) d h
    primitive_docmd-Stays cmd_time params line d h =
        guarded-Stays 17 d.caller.access1 (λ d. done (run run_show_time params d)) d h
    primitive_docmd-Stays cmd_stats params line d h =
        guarded-Stays 16 d.caller.access1 (λ d. done (run run_userstats params d)) d h
    primitive_docmd-Stays cmd_enter_msg params line d h =
        require_message_bases-Stays
          (λ d.
            guarded sec run msgbases cfg_oluseredpw 3 d.caller.access1
              (λ d. done (run run_entermsg params d)) d)
          d (guarded-Stays 3 d.caller.access1 (λ d. done (run run_entermsg params d)) d h)
    primitive_docmd-Stays cmd_comment params line d h =
        require_message_bases-Stays
          (λ d.
            guarded sec run msgbases cfg_oluseredpw 5 d.caller.access1
              (λ d. done (run run_comment params d)) d)
          d (guarded-Stays 5 d.caller.access1 (λ d. done (run run_comment params d)) d h)
    primitive_docmd-Stays cmd_read_msgs params line d h =
        require_message_bases-Stays
          (λ d.
            guarded sec run msgbases cfg_oluseredpw 2 d.caller.access1
              (λ d. done (run run_readmessages params d)) d)
          d (guarded-Stays 2 d.caller.access1 (λ d. done (run run_readmessages params d)) d h)
    primitive_docmd-Stays cmd_global_read params line d h =
        guarded-Stays 2 d.caller.access1 (λ d. done (run run_globalread params d)) d h
    primitive_docmd-Stays cmd_join_conf params line d h =
        guarded-Stays 11 d.caller.access1 (λ d. done (run run_joinconfmenu params d)) d h
    primitive_docmd-Stays cmd_change_msgbase params line d h =
        require_message_bases-Stays
          (λ d.
            guarded sec run msgbases cfg_oluseredpw 12 d.caller.access1
              (λ d. done (run run_cmbmenu params d)) d)
          d (guarded-Stays 12 d.caller.access1 (λ d. done (run run_cmbmenu params d)) d h)
    primitive_docmd-Stays cmd_local_upload params line d h = absurd h
    primitive_docmd-Stays cmd_upload params line d h =
        guarded-Stays 1 d.caller.access1 (λ d. quits (run run_upload params d)) d h
    primitive_docmd-Stays cmd_upload_rz params line d h =
        guarded-Stays 1 d.caller.access1 (λ d. quits (run run_upload_rz params d)) d h
    primitive_docmd-Stays cmd_view_file params line d h =
        guarded-Stays 6 d.caller.access2 (λ d. done (run run_viewfile params d)) d h
    primitive_docmd-Stays cmd_scan_mail params line d h = absurd h
    primitive_docmd-Stays cmd_global_fscan params line d h =
        guarded-Stays 8 d.caller.access1 (λ d. done (run run_globalnewscan params d)) d h
    primitive_docmd-Stays cmd_tag_msgbases params line d h = absurd h
    primitive_docmd-Stays cmd_tag_confs params line d h = absurd h
    primitive_docmd-Stays cmd_next_conf params line d h = absurd h
    primitive_docmd-Stays cmd_prev_conf params line d h = absurd h
    primitive_docmd-Stays cmd_next_base params line d h = absurd h
    primitive_docmd-Stays cmd_prev_base params line d h = absurd h
    primitive_docmd-Stays cmd_who params line d h =
        guarded-Stays 30 d.caller.access1 (λ d. done (run run_who params d)) d h
    primitive_docmd-Stays cmd_help params line d h = absurd h
    primitive_docmd-Stays cmd_userlist params line d h =
        guarded-Stays 27 d.caller.access1 (λ d. done (run run_userlist params d)) d h
    primitive_docmd-Stays cmd_mode params line d h = absurd h
    primitive_docmd-Stays cmd_page params line d h =
        guarded-Stays 4 d.caller.access1 (λ d. done (run run_pagesysop params d)) d h
    primitive_docmd-Stays cmd_olm params line d h =
        guarded-Stays 3 d.caller.access2 (λ d. done (run run_olmsg params d)) d h
    primitive_docmd-Stays cmd_move params line d h =
        guarded-Stays 31 d.caller.access1 (λ d. done (run run_movefile params d)) d h
    primitive_docmd-Stays cmd_copy params line d h =
        guarded-Stays 31 d.caller.access1 (λ d. done (run run_copyfile params d)) d h
    primitive_docmd-Stays cmd_link params line d h =
        guarded-Stays 31 d.caller.access1 (λ d. done (run run_linkfile params d)) d h
    primitive_docmd-Stays cmd_sysop_download params line d h =
        guarded-Stays 26 d.caller.access1 (λ d. done (run run_sysopdownload params d)) d h
    primitive_docmd-Stays cmd_usered params line d h =
        guarded-Stays 24 d.caller.access1
          (enter_usered sec run msgbases cfg_oluseredpw params cfg_oluseredpw line) d h
    primitive_docmd-Stays cmd_test_door params line d h = absurd h
