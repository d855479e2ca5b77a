-- ===== src/Replace/Cli.antt =====
-- The handler `block_replace_cli_1_svc_st` (rpc/block_replace.c).
use gluster_block.Prelude.{
  ℕ, Bool, true, false, not, ◌&&◌, Option, none, some, List, [], ◌∷◌, ◌++◌, if◌then◌else◌, ℤ, pos,
  minus_one, is_zero, int_eq, map,
}
use gluster_block.Text.{Text, codes, str_eq}
use gluster_block.Meta.{MetaInfo, Outcome, ok, fail, crash, blank_info}
use gluster_block.Meta.Journal.{Entry, entry_line}
use gluster_block.Meta.Merge.{Thread}
use gluster_block.Meta.Read.{get_meta_info, render}
use gluster_block.Meta.Valid.{parse_valid_servers}
use gluster_block.Lock.{unlock_code, unlock_msg}
use gluster_block.Modify.{enoent}
use gluster_block.Remote.{Update, updated, lost, unclosed, Script}
use gluster_block.Replace.{
  ReplaceCli, ReplaceResp, node_not_exist, node_in_use, replace_node_remote_async,
}

-- What a run meets: the error code of glusterBlockVolumeInit, glusterBlockCreateMetaLockFile or the lock, 0 if
-- all worked, and the message that goes with it; how the lock is released; the access check with strerror(errno), the reads of the two readers and the errno of the
-- first, the capability check with its message, the answers to the threads and how their lines interleave,
-- and the updates of the two lines behind them.
pub record ReplaceRun : Type 0 where
  pub entered : ℤ
  pub entered_msg : Option Text
  pub unlock : Option Text
  pub access : ℤ
  pub access_error : Text
  pub valid_reads : ℕ
  pub valid_buffer : Text
  pub valid_errno : ℤ
  pub caps : ℤ
  pub caps_msg : Option Text
  pub reads : ℕ
  pub buffer : Text
  pub answers : Text → Script
  pub schedule : List Thread → List Entry
  pub cleanup_line : Update
  pub prio_line : Update

-- The variables of the handler, and the metadata file.
pub record ReplaceEnd : Type 0 where
  pub err_code : ℤ
  pub err_msg : Option Text
  pub reply : Option ReplaceResp
  pub file : Text

abbrev pub replace_start : Text → ReplaceEnd
replace_start file = record { err_code = pos 0; err_msg = none; reply = none; file = file }

-- GB_METAUPDATE_OR_GOTO with `errCode` for its `ret`, and the rest of the function.
unfoldable pub update_line : Update → Text → ReplaceEnd → (ReplaceEnd → ReplaceEnd) → ReplaceEnd
update_line updated t m rest = rest (record m { err_code = pos 0; file = m.file ++ t })
update_line (lost e) t m rest = record m { err_code = minus_one; err_msg = e }
update_line (unclosed e) t m rest = record m {
  err_code = minus_one;
  err_msg = some e;
  file = m.file ++ t;
}

-- `info->prio_path[0] && !strcmp(info->prio_path, blk->old_node)`
abbrev pub is_prio : MetaInfo → Text → Bool
is_prio info old_node =
    let first = elim info.prio_path as (λ _. Bool) [ [] ↦ false | _ ∷ _ ↦ true ] in
    first && str_eq info.prio_path old_node

abbrev pub prio_text : ReplaceCli → Text
prio_text cli = codes "PRIOPATH: " ++ (cli.new_node ++ codes "\n")

abbrev pub cleanup_text : ReplaceCli → Text
cleanup_text cli = cli.old_node ++ codes ": CLEANUPSUCCESS\n"

unfoldable pub prio_update : ReplaceRun → ReplaceCli → MetaInfo → ReplaceEnd → ReplaceEnd
unfolding update_line
prio_update run cli info m =
    if is_prio info cli.old_node then update_line run.prio_line (prio_text cli) m (λ m'. m') else m

-- With force, a delete that did not return 0 is written off.
abbrev pub is_written_off : Option ReplaceResp → Bool
is_written_off none = false
is_written_off (some r) = r.force && not (is_zero r.dop.status)

unfoldable pub replace_lines : ReplaceRun → ReplaceCli → MetaInfo → ReplaceEnd → ReplaceEnd
unfolding update_line prio_update
replace_lines run cli info m =
    if is_written_off m.reply
    then update_line run.cleanup_line (cleanup_text cli) m (prio_update run cli info)
    else prio_update run cli info m

-- The errors of the driver that end the handler.
abbrev pub replace_error : ReplaceCli → ℤ → Option Text
replace_error cli ret =
    if int_eq ret node_not_exist
    then some (
        codes "block '"
        ++ (cli.block_name
            ++ (codes "' is not configured on node '"
                ++ (cli.old_node ++ (codes "' for volume '" ++ (cli.volume ++ codes "'"))))))
    else if int_eq ret node_in_use
    then some (
        codes "block '"
        ++ (cli.block_name
            ++ (codes "' was already configured on node '"
                ++ (cli.new_node ++ (codes "' for volume '" ++ (cli.volume ++ codes "'"))))))
    else none

unfoldable pub replace_hosts : ReplaceRun → ReplaceCli → MetaInfo → Text → Outcome ReplaceEnd
unfolding replace_lines
replace_hosts run cli info file = elim (replace_node_remote_async run.answers cli info) [
  | crash ↦ crash
  | fail ↦ fail
  | ok r ↦
      let m : ReplaceEnd = record {
        err_code = pos 0;
        err_msg = none;
        reply = r.reply;
        file = file ++ render (map entry_line (run.schedule r.threads));
      } in
      ok (elim (replace_error cli r.ret) [
        | some msg ↦ record m { err_code = r.ret; err_msg = some msg }
        | none ↦ replace_lines run cli info m
      ])
]

access_msg : ReplaceRun → ReplaceCli → Text
access_msg run cli =
    let name = cli.volume ++ (codes "/" ++ cli.block_name) in
    if int_eq run.access enoent
    then codes "block " ++ (name ++ codes " doesn't exist")
    else codes "block "
      ++ (name ++ (codes " is not accessible (" ++ (run.access_error ++ codes ")")))

-- block_replace_cli_1_svc_st, while it holds the lock
unfoldable pub replace_locked : ReplaceRun → ReplaceCli → Text → Outcome ReplaceEnd
unfolding access_msg
replace_locked run cli file =
    let m = replace_start file in
    let skiphost = if cli.force then some cli.old_node else none in
    if not (is_zero run.access)
    then ok (record m { err_code = run.access; err_msg = some (access_msg run cli) })
    else elim (parse_valid_servers (some file) run.valid_reads run.valid_buffer skiphost none) [
      | crash ↦ crash
      | fail ↦ ok (record m { err_code = run.valid_errno })
      | ok list ↦
          if not (is_zero run.caps)
          then ok (record m { err_code = run.caps; err_msg = run.caps_msg })
          else elim (get_meta_info (some file) run.reads run.buffer blank_info) [
            | crash ↦ crash
            | fail ↦ ok (record m { err_code = minus_one })
            | ok info ↦ replace_hosts run cli info file
          ]
    ]

-- GB_METAUNLOCK
abbrev pub replace_unlock : ReplaceRun → ReplaceCli → ReplaceEnd → ReplaceEnd
replace_unlock run cli m = record m {
  err_code = unlock_code run.unlock m.err_code;
  err_msg = unlock_msg run.unlock cli.volume m.err_msg;
}

-- block_replace_cli_1_svc_st; no answer is formatted without the lock.
unfoldable pub replace_cli : ReplaceRun → ReplaceCli → Text → Outcome ReplaceEnd
replace_cli run cli file =
    if not (is_zero run.entered)
    then ok (record (replace_start file) { err_code = run.entered; err_msg = run.entered_msg })
    else elim (replace_locked run cli file) [
      | crash ↦ crash
      | fail ↦ fail
      | ok m ↦ ok (replace_unlock run cli m)
    ]
