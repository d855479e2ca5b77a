-- ===== src/Resize.antt =====
-- Resizing a block: `glusterBlockModifySizeArgsFill`, `glusterBlockModifySizeRemoteAsync`,
-- `glusterBlockIsResizeFailed` and `block_modify_size_cli_1_svc_st` (rpc/block_modify.c).
pub mod Fill
pub mod Settled
pub mod Exit
pub mod Reread
use gluster_block.Prelude.{
  ℕ, ◌%◌, Bool, true, false, not, ◌&&◌, ◌||◌, Option, none, some, List, [], ◌∷◌, ◌++◌, map,
  if◌then◌else◌, ◌==◌, ltb, ℤ, pos, minus_one, is_zero, length,
}
use gluster_block.Text.{Text, codes}
use gluster_block.Text.Decimal.{format_zu}
use gluster_block.Enums.Status
use gluster_block.Enums.Status.{MetaStatus, status_parse}
use gluster_block.Lock.{unlock_code}
use gluster_block.Meta.{◌>>=◌, NodeInfo, MetaInfo, Outcome, ok, fail, crash, blank_info}
use gluster_block.Meta.Journal.{Entry, entry_line}
use gluster_block.Meta.Merge.{Thread}
use gluster_block.Meta.Read.{get_meta_info, render}
use gluster_block.Meta.Servers.{get_list_from_info, blockhost_is_valid}
use gluster_block.Remote.{Update, updated, lost, unclosed, Script, modify_size_remote}
use gluster_block.Remote.Collect.{
  Done, modify_size_srv, collect_attempt_success, any_failed, or_nothing,
}
use gluster_block.Modify.{enoent}

abbrev pub is_rs_success : Option MetaStatus → Bool
is_rs_success (some Status.rs_success) = true
is_rs_success _ = false

-- The test of the first branch of the loop: nothing is to be done on the node.
unfoldable pub is_skipped : (skipping : Bool) (size : ℕ) (info_size : ℕ) → Text → Bool
is_skipped skipping size info_size status =
    skipping && (info_size == size && is_rs_success (status_parse (some status)))

-- The nodes that a thread is started for, and the addresses of the others that are in order.
pub record Filled : Type 0 where
  pub args : List NodeInfo
  pub skipped : Option Text

-- The loop of glusterBlockModifySizeArgsFill.
fill_loop : (skipping : Bool) (size info_size : ℕ) → List NodeInfo → Filled → Filled
unfolding is_skipped
fill_loop skipping size info_size [] f = f
fill_loop skipping size info_size (n ∷ ns) f = fill_loop skipping size info_size ns (
    if is_skipped skipping size info_size n.status
    then record f { skipped = some (or_nothing f.skipped ++ b' ' ∷ n.addr) }
    else if blockhost_is_valid n.status
    then record f { args = f.args ++ n ∷ [] }
    else f)

-- glusterBlockModifySizeArgsFill, with a place for the skipped addresses or with none
unfoldable pub resize_args_fill : (skipping : Bool) (size : ℕ) → MetaInfo → Option Text → Filled
unfolding fill_loop
resize_args_fill skipping size info skipped =
    fill_loop skipping size info.size info.nodes (record { args = []; skipped = skipped })

abbrev pub resize_done : ℕ → (Text → Script) → NodeInfo → Done
resize_done size answers n = record {
  addr = n.addr;
  exit = (modify_size_remote size n.addr (answers n.addr)).exit;
}

abbrev pub resize_thread : ℕ → (Text → Script) → NodeInfo → Thread
resize_thread size answers n = record {
  host = n.addr;
  writes = (modify_size_remote size n.addr (answers n.addr)).writes;
}

-- `blockRemoteResp`, as far as a resize fills it
pub record ResizeResp : Type 0 where
  pub attempt : Option Text
  pub success : Option Text
  pub skipped : Option Text

-- glusterBlockModifySizeRemoteAsync: the arrays are as long as the first count says, and a thread
-- beyond them is a write past their ends.
unfoldable pub resize_remote_async :
    ℕ → (Text → Script) → MetaInfo → ResizeResp → Outcome (ℤ × ResizeResp)
resize_remote_async size answers info resp =
    let count = length (resize_args_fill false size info none).args in
    let filled = resize_args_fill true size info resp.skipped in
    let args = map (resize_done size answers) filled.args in
    let c = collect_attempt_success modify_size_srv args in
    if ltb count (length filled.args)
    then crash
    else ok (
      if any_failed args then minus_one else pos 0,
      record { attempt = c.attempt; success = c.success; skipped = filled.skipped },
    )

abbrev pub is_rs_failed : Option MetaStatus → Bool
is_rs_failed (some Status.rs_fail) = true
is_rs_failed (some Status.rs_inprogress) = true
is_rs_failed _ = false

unfoldable pub is_failed_status : Text → Bool
is_failed_status status = is_rs_failed (status_parse (some status))

-- glusterBlockIsResizeFailed
unfoldable pub is_resize_failed : List NodeInfo → Bool
is_resize_failed [] = false
is_resize_failed (n ∷ ns) = is_failed_status n.status || is_resize_failed ns

-- What a resize meets: the error code of glusterBlockVolumeInit, glusterBlockCreateMetaLockFile or
-- the lock, 0 if all worked; how the lock is released; the access check, the reads, the capability check, `glusterBlockResizeEntry`, the
-- update of the size line, the answers to the threads and how their lines interleave, and the reads
-- after a failure.
pub record ResizeRun : Type 0 where
  pub entered : ℤ
  pub unlock : Option Text
  pub access : ℤ
  pub reads : ℕ
  pub buffer : Text
  pub caps : ℤ
  pub resized : ℤ
  pub size_line : Update
  pub answers : Text → Script
  pub schedule : List Thread → List Entry
  pub reads_again : ℕ
  pub buffer_again : Text

-- The variables of the handler, and the metadata file.
pub record Resized : Type 0 where
  pub err_code : ℤ
  pub asyncret : ℤ
  pub resp : ResizeResp
  pub file : Text

abbrev pub resize_start : Text → Resized
resize_start file = record {
  err_code = pos 0;
  asyncret = pos 0;
  resp = record { attempt = none; success = none; skipped = none };
  file = file;
}

abbrev pub einval : ℤ
einval = pos 22

-- The lines of the threads.
abbrev pub resize_entries :
    ℕ → (Text → Script) → (List Thread → List Entry) → List NodeInfo → List Entry
resize_entries size answers schedule ns = schedule (map (resize_thread size answers) ns)

-- The threads, and the refresh of the metadata if one has failed.
resize_threads : ResizeRun → ℕ → MetaInfo → Resized → Outcome Resized
resize_threads run size info m = elim (resize_remote_async size run.answers info m.resp) [
  | crash ↦ crash
  | fail ↦ fail
  | ok (ret, resp) ↦
      let args = (resize_args_fill true size info m.resp.skipped).args in
      let m' = record m {
        asyncret = ret;
        resp = resp;
        file =
            m.file ++ render (map entry_line (resize_entries size run.answers run.schedule args));
      } in
      if is_zero ret
      then ok m'
      else elim (get_meta_info (some m'.file) run.reads_again run.buffer_again blank_info) [
        | crash ↦ crash
        | _ ↦ ok (record m' { err_code = ret })
      ]
]

size_text : ℕ → Text
size_text size = codes "SIZE: " ++ (format_zu size ++ codes "\n")

-- GB_METAUPDATE_OR_GOTO with the size.
resize_update : ResizeRun → Update → ℕ → MetaInfo → Resized → Outcome Resized
unfolding resize_threads size_text
resize_update run updated size info m =
    resize_threads run size info (record m { err_code = pos 0; file = m.file ++ size_text size })
resize_update run (lost e) size info m = ok (record m { err_code = minus_one })
resize_update run (unclosed e) size info m =
    ok (record m { err_code = minus_one; file = m.file ++ size_text size })

-- The capabilities, the file of the block and the size line.
unfoldable pub resize_hosts : ResizeRun → ℕ → MetaInfo → Resized → Outcome Resized
unfolding resize_update
resize_hosts run size info m = elim (get_list_from_info info) [
  | none ↦ crash
  | some hosts ↦
      if not (length hosts.written == info.mpath)
      then ok (record m { err_code = enoent })
      else if not (is_zero run.caps)
      then ok (record m { err_code = run.caps })
      else if not (is_zero run.resized)
      then ok (record m { err_code = run.resized })
      else resize_update run run.size_line size info m
]

-- The size is not a multiple of the block size.
unfoldable pub is_unaligned : ℕ → MetaInfo → Bool
is_unaligned size info = not (info.blk_size == 0) && not (size % info.blk_size == 0)

-- A smaller size without force, or the size that the block has, unless a resize failed.
unfoldable pub is_refused : (force : Bool) (size : ℕ) → MetaInfo → Bool
is_refused force size info =
    (ltb size info.size && not force) || (info.size == size && not (is_resize_failed info.nodes))

unfoldable pub resize_checks :
    ResizeRun → (force : Bool) (size : ℕ) → MetaInfo → Resized → Outcome Resized
resize_checks run force size info m =
    if is_unaligned size info
    then ok (record m { err_code = einval })
    else if is_refused force size info
    then ok (record m { err_code = minus_one })
    else resize_hosts run size info m

-- block_modify_size_cli_1_svc_st, while it holds the lock
unfoldable pub resize_locked : ResizeRun → (force : Bool) (size : ℕ) → Text → Outcome Resized
resize_locked run force size file =
    if not (is_zero run.access)
    then ok (record (resize_start file) { err_code = run.access })
    else elim (get_meta_info (some file) run.reads run.buffer blank_info) [
      | crash ↦ crash
      | fail ↦ ok (record (resize_start file) { err_code = minus_one })
      | ok info ↦ resize_checks run force size info (resize_start file)
    ]

-- block_modify_size_cli_1_svc_st with the lock and GB_METAUNLOCK
unfoldable pub resize_cli : ResizeRun → (force : Bool) (size : ℕ) → Text → Outcome Resized
resize_cli run force size file =
    if not (is_zero run.entered)
    then ok (record (resize_start file) { err_code = run.entered })
    else (do
      m ← resize_locked run force size file
      ok (record m { err_code = unlock_code run.unlock m.err_code }))

-- `asyncret?asyncret:errCode`
unfoldable pub resize_exit : Resized → ℤ
resize_exit m = if is_zero m.asyncret then m.err_code else m.asyncret
