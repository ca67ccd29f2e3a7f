-- ===== src/Menu.antt =====
-- The menu commands, `primitive_docmd` of main/domenu.c. The functions that the commands call are a
-- parameter, `run`, over the caller with the access bits, the toggles of the user and the rest of the state.
pub mod Rights
mod Tests
use daydream.Base.{
  ℕ, zero, suc, ◌+◌, ◌-◌, ◌^◌, Bool, true, false, List, [], ◌∷◌, Option, none, some, ◌==◌,
  if◌then◌else◌,
}
use daydream.Base.CString.{Str, strcase_eq}
use daydream.Access.{Security, Caller, isaccess, has_bit}

-- `command`, as in main/menucmd.h.
pub data Command : Type 0 where
  cmd_ver cmd_expert_mode cmd_logoff cmd_change_info cmd_file_scan cmd_download : Command
  cmd_tag_editor cmd_bulletins cmd_new_files cmd_zippy_search cmd_time cmd_stats : Command
  cmd_enter_msg cmd_comment cmd_read_msgs cmd_global_read cmd_join_conf : Command
  cmd_change_msgbase cmd_local_upload cmd_upload cmd_upload_rz cmd_view_file : Command
  cmd_scan_mail cmd_global_fscan cmd_tag_msgbases cmd_tag_confs cmd_prev_conf : Command
  cmd_next_conf cmd_prev_base cmd_next_base cmd_who cmd_help cmd_userlist cmd_mode : Command
  cmd_page cmd_olm cmd_move cmd_copy cmd_link cmd_sysop_download cmd_usered : Command
  cmd_text_search cmd_test_door : Command

-- The functions called, with their first arguments.
pub data Action : Type 0 where
  run_textsearch run_versioninfo run_logoff run_edituser run_filelist_scan : Action
  run_filelist_new run_filelist_zippy run_download run_taged run_bulletins run_show_time : Action
  run_userstats run_entermsg run_comment run_readmessages run_globalread : Action
  run_joinconfmenu run_cmbmenu run_localupload run_upload run_upload_rz run_viewfile : Action
  run_scanfornewmail run_globalnewscan run_tagmessageareas run_tagconfs run_nextconf : Action
  run_prevconf run_nextbase run_prevbase run_who run_help run_userlist : Action
  run_getdisplaymode run_pagesysop run_olmsg run_movefile run_copyfile run_linkfile : Action
  run_sysopdownload run_usered : Action

pub record Desk {ℓ} (S : Type ℓ) : Type ℓ where
  pub caller : Caller
  pub user_toggles : ℕ
  pub rest : S

module _ {ℓ} {S : Type ℓ} where
  -- Bit 4 of the toggles.
  unfoldable pub flip_expert : Desk S → Desk S
  unfolding has_bit
  flip_expert d = record d {
    user_toggles =
        if has_bit d.user_toggles 4 then d.user_toggles - 2 ^ 4 else d.user_toggles + 2 ^ 4;
  }

  -- A call whose result is not used.
  unfoldable pub done : Desk S × ℕ → Desk S × ℕ
  done (d, result) = (d, 1)

  -- A transfer that ends the call: 0 for the result 2.
  unfoldable pub quits : Desk S × ℕ → Desk S × ℕ
  quits (d, result) = (d, if result == 2 then 0 else 1)

  module _ (sec : Security) (run : Action → Str → Desk S → Desk S × ℕ) (msgbases : Desk S → ℕ)
      (cfg_oluseredpw : Str) where
    -- A call under `isaccess`.
    unfoldable pub guarded : ℕ → ℕ → (Desk S → Desk S × ℕ) → Desk S → Desk S × ℕ
    unfolding isaccess
    guarded flag accint call d =
        let (c, granted) = isaccess sec flag accint d.caller in
        if granted then call (record d { caller = c }) else (record d { caller = c }, 1)

    -- `require_message_bases()`
    unfoldable pub require_message_bases : (Desk S → Desk S × ℕ) → Desk S → Desk S × ℕ
    require_message_bases call d = if msgbases d == 0 then (d, 1) else call d

    -- The user editor asks for its password, if there is one; `line` is what is typed.
    unfoldable pub enter_usered : Str → Str → Option Str → Desk S → Desk S × ℕ
    enter_usered params [] line d = done (run run_usered params d)
    enter_usered params (c ∷ pw) none d = (d, 0)
    enter_usered params (c ∷ pw) (some line) d =
        if strcase_eq line (c ∷ pw) then done (run run_usered params d) else (d, 1)

    unfoldable pub primitive_docmd : Command → Str → Option Str → Desk S → Desk S × ℕ
    unfolding guarded require_message_bases flip_expert done quits enter_usered
    primitive_docmd cmd_text_search params line d = run run_textsearch params d
    primitive_docmd cmd_ver params line d = done (run run_versioninfo params d)
    primitive_docmd cmd_expert_mode params line d =
        guarded 19 d.caller.access1 (λ d. (flip_expert d, 1)) d
    primitive_docmd cmd_logoff params line d = run run_logoff params d
    primitive_docmd cmd_change_info params line d =
        guarded 13 d.caller.access1 (λ d. done (run run_edituser params d)) d
    primitive_docmd cmd_file_scan params line d =
        guarded 7 d.caller.access1 (λ d. done (run run_filelist_scan params d)) d
    primitive_docmd cmd_download params line d =
        guarded 0 d.caller.access1 (λ d. quits (run run_download params d)) d
    primitive_docmd cmd_tag_editor params line d =
        guarded 15 d.caller.access1 (λ d. done (run run_taged params d)) d
    primitive_docmd cmd_bulletins params line d =
        guarded 6 d.caller.access1 (λ d. done (run run_bulletins params d)) d
    primitive_docmd cmd_new_files params line d =
        guarded 8 d.caller.access1 (λ d. done (run run_filelist_new params d)) d
    primitive_docmd cmd_zippy_search params line d =
        guarded 9 d.caller.access1 (λ d. done (run run_filelist_zippy params d)) d
    primitive_docmd cmd_time params line d =
        guarded 17 d.caller.access1 (λ d. done (run run_show_time params d)) d
    primitive_docmd cmd_stats params line d =
        guarded 16 d.caller.access1 (λ d. done (run run_userstats params d)) d
    primitive_docmd cmd_enter_msg params line d =
        require_message_bases
          (λ d. guarded 3 d.caller.access1 (λ d. done (run run_entermsg params d)) d) d
    primitive_docmd cmd_comment params line d =
        require_message_bases
          (λ d. guarded 5 d.caller.access1 (λ d. done (run run_comment params d)) d) d
    primitive_docmd cmd_read_msgs params line d =
        require_message_bases
          (λ d. guarded 2 d.caller.access1 (λ d. done (run run_readmessages params d)) d) d
    primitive_docmd cmd_global_read params line d =
        guarded 2 d.caller.access1 (λ d. done (run run_globalread params d)) d
    primitive_docmd cmd_join_conf params line d =
        guarded 11 d.caller.access1 (λ d. done (run run_joinconfmenu params d)) d
    primitive_docmd cmd_change_msgbase params line d =
        require_message_bases
          (λ d. guarded 12 d.caller.access1 (λ d. done (run run_cmbmenu params d)) d) d
    primitive_docmd cmd_local_upload params line d = done (run run_localupload params d)
    primitive_docmd cmd_upload params line d =
        guarded 1 d.caller.access1 (λ d. quits (run run_upload params d)) d
    primitive_docmd cmd_upload_rz params line d =
        guarded 1 d.caller.access1 (λ d. quits (run run_upload_rz params d)) d
    primitive_docmd cmd_view_file params line d =
        guarded 6 d.caller.access2 (λ d. done (run run_viewfile params d)) d
    primitive_docmd cmd_scan_mail params line d = done (run run_scanfornewmail params d)
    primitive_docmd cmd_global_fscan params line d =
        guarded 8 d.caller.access1 (λ d. done (run run_globalnewscan params d)) d
    primitive_docmd cmd_tag_msgbases params line d =
        require_message_bases
          (λ d. guarded 1 d.caller.access1 (λ d. done (run run_tagmessageareas params d)) d) d
    primitive_docmd cmd_tag_confs params line d =
        guarded 0 d.caller.access1 (λ d. done (run run_tagconfs params d)) d
    primitive_docmd cmd_next_conf params line d = done (run run_nextconf params d)
    primitive_docmd cmd_prev_conf params line d = done (run run_prevconf params d)
    primitive_docmd cmd_next_base params line d =
        require_message_bases (λ d. done (run run_nextbase params d)) d
    primitive_docmd cmd_prev_base params line d =
        require_message_bases (λ d. done (run run_prevbase params d)) d
    primitive_docmd cmd_who params line d =
        guarded 30 d.caller.access1 (λ d. done (run run_who params d)) d
    primitive_docmd cmd_help params line d = ((run run_help params d).0, 2)
    primitive_docmd cmd_userlist params line d =
        guarded 27 d.caller.access1 (λ d. done (run run_userlist params d)) d
    primitive_docmd cmd_mode params line d = done (run run_getdisplaymode params d)
    primitive_docmd cmd_page params line d =
        guarded 4 d.caller.access1 (λ d. done (run run_pagesysop params d)) d
    primitive_docmd cmd_olm params line d =
        guarded 3 d.caller.access2 (λ d. done (run run_olmsg params d)) d
    primitive_docmd cmd_move params line d =
        guarded 31 d.caller.access1 (λ d. done (run run_movefile params d)) d
    primitive_docmd cmd_copy params line d =
        guarded 31 d.caller.access1 (λ d. done (run run_copyfile params d)) d
    primitive_docmd cmd_link params line d =
        guarded 31 d.caller.access1 (λ d. done (run run_linkfile params d)) d
    primitive_docmd cmd_sysop_download params line d =
        guarded 26 d.caller.access1 (λ d. done (run run_sysopdownload params d)) d
    primitive_docmd cmd_usered params line d =
        guarded 24 d.caller.access1 (enter_usered params cfg_oluseredpw line) d
    primitive_docmd cmd_test_door params line d = (d, 3)
