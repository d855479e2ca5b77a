-- ===== src/Delete/Cli.antt =====
-- The handler of a delete: `block_delete_cli_1_svc_st` (rpc/block_delete.c).
use gluster_block.Prelude.{
  ℕ, Bool, not, Option, none, some, [], ◌∷◌, ℤ, minus_one, is_zero, if◌then◌else◌,
}
use gluster_block.Text.{Text}
use gluster_block.Lock.{unlock_code}
use gluster_block.Meta.{MetaInfo, Outcome, ok, fail, crash, blank_info}
use gluster_block.Meta.Read.{get_meta_info}
use gluster_block.Meta.Servers.{get_list_from_info}
use gluster_block.Prio.{Attrs, dec_prio_attr}
use gluster_block.Delete.{DeleteResp, Disk, Answers, Cleaned, clean_up}

-- What a delete meets: the error code of glusterBlockVolumeInit, glusterBlockCreateMetaLockFile or the lock, 0
-- if all worked; how the lock is released; the access check, the reads, the capability check, whether the counter of the
-- host can be written, and the answers to the clean-up.
pub record DeleteRun : Type 0 where
  pub entered : ℤ
  pub unlock : Option Text
  pub access : ℤ
  pub reads : ℕ
  pub buffer : Text
  pub caps : ℤ
  pub settable : Bool
  pub cleanup : Answers

-- The error code and the replies, the files of the block and the counters.
pub record Deleted : Type 0 where
  pub err_code : ℤ
  pub resp : DeleteResp
  pub disk : Disk
  pub attrs : Attrs

abbrev pub delete_stop : ℤ → Disk → Attrs → Deleted
delete_stop k d attrs = record {
  err_code = k;
  resp = record { d_attempt = none; d_success = none };
  disk = d;
  attrs = attrs;
}

-- What follows the clean-up: the counter of the host goes down only if it succeeded.
unfoldable pub delete_counter : DeleteRun → MetaInfo → Cleaned → Attrs → Outcome Deleted
delete_counter run info c attrs =
    let d : Deleted = record { err_code = c.ret; resp = c.resp; disk = c.disk; attrs = attrs } in
    if not (is_zero c.ret) then ok d else elim info.prio_path [
      | [] ↦ ok d
      | a ∷ s ↦ elim (dec_prio_attr run.settable (a ∷ s) attrs) [
        | ok attrs' ↦ ok (record d { attrs = attrs' })
        | fail ↦ fail
        | crash ↦ crash
      ]
    ]

unfoldable pub delete_clean_up :
    DeleteRun → (force unlink : Bool) → MetaInfo → Disk → Attrs → Outcome Deleted
delete_clean_up run force unlink info d attrs =
    elim (clean_up run.cleanup force unlink d (record { d_attempt = none; d_success = none })) [
      | crash ↦ crash
      | fail ↦ fail
      | ok c ↦ delete_counter run info c attrs
    ]

-- The capabilities of the hosts are asked for unless the delete is forced.
unfoldable pub delete_checks :
    DeleteRun → (force unlink : Bool) → MetaInfo → Disk → Attrs → Outcome Deleted
delete_checks run force unlink info d attrs =
    if force
    then delete_clean_up run force unlink info d attrs
    else elim (get_list_from_info info) [
      | none ↦ crash
      | some hosts ↦
          if is_zero run.caps
          then delete_clean_up run force unlink info d attrs
          else ok (delete_stop run.caps d attrs)
    ]

-- block_delete_cli_1_svc_st, while it holds the lock
unfoldable pub delete_locked : DeleteRun → (force unlink : Bool) → Disk → Attrs → Outcome Deleted
delete_locked run force unlink d attrs =
    if not (is_zero run.access)
    then ok (delete_stop run.access d attrs)
    else elim (get_meta_info d.meta run.reads run.buffer blank_info) [
      | crash ↦ crash
      | fail ↦ ok (delete_stop minus_one d attrs)
      | ok info ↦ delete_checks run force unlink info d attrs
    ]

-- block_delete_cli_1_svc_st; GB_METAUNLOCK comes behind the counter.
unfoldable pub delete_cli : DeleteRun → (force unlink : Bool) → Disk → Attrs → Outcome Deleted
delete_cli run force unlink d attrs =
    if not (is_zero run.entered)
    then ok (delete_stop run.entered d attrs)
    else elim (delete_locked run force unlink d attrs) [
      | crash ↦ crash
      | fail ↦ fail
      | ok r ↦ ok (record r { err_code = unlock_code run.unlock r.err_code })
    ]
