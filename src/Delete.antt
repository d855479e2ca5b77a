-- ===== src/Delete.antt =====
-- Deleting a block: `glusterBlockDeleteFillArgs`, `glusterBlockDeleteRemoteAsync`,
-- `glusterBlockCleanUp` (rpc/block_delete.c), `glusterBlockDeleteEntry` and
-- `glusterBlockDeleteMetaFile` (rpc/glfs-operations.c).
pub mod Files
pub mod Count
pub mod Async
pub mod Threads
pub mod Gone
pub mod Safety
pub mod Cli
pub mod Counted
use gluster_block.Prelude.{
  ℕ, ◌+◌, Bool, true, false, not, ◌&&◌, ◌||◌, Option, none, some, List, [], ◌∷◌, ◌++◌, map,
  if◌then◌else◌, ◌==◌, ℤ, pos, minus_one, is_zero, int_eq, select, count_if, length,
}
use gluster_block.Text.{Text, codes}
use gluster_block.Enums.Status
use gluster_block.Enums.Status.{MetaStatus, status_parse}
use gluster_block.Meta.{NodeInfo, MetaInfo, Outcome, ok, fail, crash, ◌>>=◌, blank_info}
use gluster_block.Meta.Journal.{Entry, entry_line}
use gluster_block.Meta.Merge.{Thread}
use gluster_block.Meta.Read.{get_meta_info, render}
use gluster_block.Remote.{Update, updated, lost, unclosed, Script, Worker, delete_remote}
use gluster_block.Remote.Collect.{
  Done, Collected, collect_attempt_success, delete_srv, block_not_found, or_nothing,
}

-- "case GB_CONFIG_INPROGRESS: /* un touched */ case GB_CLEANUP_SUCCESS:"
abbrev pub is_clean_status : Option MetaStatus → Bool
is_clean_status (some Status.config_inprogress) = true
is_clean_status (some Status.cleanup_success) = true
is_clean_status _ = false

unfoldable pub is_clean : Text → Bool
is_clean status = is_clean_status (status_parse (some status))

-- glusterBlockDeleteFillArgs: the nodes that a thread is started for.
unfoldable pub delete_fill_args : List NodeInfo → List NodeInfo
delete_fill_args ns = select (λ n. not (is_clean n.status)) ns

pub record DeleteResp : Type 0 where
  pub d_attempt : Option Text
  pub d_success : Option Text

-- `if (d_attempt)`: what was collected goes behind what an earlier clean-up has left.
add_collected : Option Text → Option Text → Option Text
add_collected old none = old
add_collected old (some t) = some (or_nothing old ++ b' ' ∷ t)

abbrev pub done_of : (Text → Script) → NodeInfo → Done
done_of answers n = record { addr = n.addr; exit = (delete_remote n.addr (answers n.addr)).exit }

abbrev pub thread_of : (Text → Script) → NodeInfo → Thread
thread_of answers n = record {
  host = n.addr;
  writes = (delete_remote n.addr (answers n.addr)).writes;
}

unfoldable pub is_not_found : Done → Bool
is_not_found a = int_eq a.exit block_not_found

-- `cleanupsuccess`, over the threads that have ended and the nodes that are read anew.
unfoldable pub cleanup_count : List Done → List NodeInfo → ℕ
cleanup_count args ns = count_if is_not_found args + count_if (λ n. is_clean n.status) ns

unfoldable pub collect_into : List Done → DeleteResp → DeleteResp
unfolding add_collected
collect_into args resp =
    let c = collect_attempt_success delete_srv args in
    record {
      d_attempt = add_collected resp.d_attempt c.attempt;
      d_success = add_collected resp.d_success c.success;
    }

-- glusterBlockDeleteRemoteAsync, after the threads: `info` was read before they started, `reread`
-- after they ended.
unfoldable pub delete_remote_async :
    (Text → Script) → MetaInfo → Outcome MetaInfo → DeleteResp → Outcome (ℤ × DeleteResp)
unfolding collect_into
delete_remote_async answers info reread resp =
    let args = map (done_of answers) (delete_fill_args info.nodes) in
    let resp' = collect_into args resp in
    elim reread [
      | crash ↦ crash
      | fail ↦ ok (minus_one, resp')
      | ok new ↦
          ok (if cleanup_count args new.nodes == length info.nodes then pos 0 else minus_one, resp')
    ]

-- The files of one block on the volume: its metadata file and whether its block file is there.
pub record Disk : Type 0 where
  pub meta : Option Text
  pub block_file : Bool

-- The file with more text at its end; glfs_creat makes it if it is not there.
abbrev pub append_text : Text → Disk → Disk
append_text t d = record d { meta = some (or_nothing d.meta ++ t) }

-- A line about the whole block through GB_METAUPDATE_OR_GOTO: the rest, or `goto out` with -1.
unfoldable pub write_meta : Update → Text → Disk → (Disk → ℤ × Disk) → ℤ × Disk
write_meta updated t d rest = rest (append_text t d)
write_meta (lost m) t d rest = (minus_one, d)
write_meta (unclosed m) t d rest = (minus_one, append_text t d)

-- How glfs_unlink on the block file ends: `absent` is ENOENT.
pub data Unlink : Type 0 where
  unlinked absent denied : Unlink

-- glusterBlockDeleteEntry: an absent file counts as deleted.
unfoldable pub delete_entry : Unlink → Disk → ℤ × Disk
delete_entry unlinked d = (pos 0, record d { block_file = false })
delete_entry absent d = (pos 0, d)
delete_entry denied d = (minus_one, d)

-- glusterBlockDeleteMetaFile: glfs_unlink's return value is passed on, also for an absent file.
unfoldable pub delete_meta_file : Unlink → Disk → ℤ × Disk
delete_meta_file unlinked d = (pos 0, record d { meta = none })
delete_meta_file absent d = (minus_one, d)
delete_meta_file denied d = (minus_one, d)

-- What a clean-up meets: the answers to the threads, how their lines interleave, how many reads
-- succeed and what the reader's array holds, and how the writes and unlinks end.
pub record Answers : Type 0 where
  pub threads : Text → Script
  pub schedule : List Thread → List Entry
  pub reads : ℕ
  pub buffer : Text
  pub reads_again : ℕ
  pub buffer_again : Text
  pub doing : Update
  pub unlink_entry : Unlink
  pub failed : Update
  pub succeeded : Update
  pub unlink_meta : Unlink

-- "delete metafile and block file"
unfoldable pub delete_files : Answers → (unlink : Bool) → Disk → ℤ × Disk
unfolding write_meta delete_entry delete_meta_file
delete_files a unlink d = write_meta a.doing (codes "ENTRYDELETE: INPROGRESS\n") d λ d1.
    let entry = delete_entry a.unlink_entry d1 in
    if unlink && not (is_zero entry.0)
    then write_meta a.failed (codes "ENTRYDELETE: FAIL\n") entry.1 (λ d2. (minus_one, d2))
    else write_meta a.succeeded (codes "ENTRYDELETE: SUCCESS\n") (if unlink then entry.1 else d1)
        (λ d2. delete_meta_file a.unlink_meta d2)

pub record Cleaned : Type 0 where
  pub ret : ℤ
  pub disk : Disk
  pub resp : DeleteResp

-- The disk after the threads have written their lines.
unfoldable pub after_threads : Answers → MetaInfo → Disk → Disk
after_threads a info d =
    append_text
      (render
        (map entry_line (a.schedule (map (thread_of a.threads) (delete_fill_args info.nodes)))))
      d

-- No thread is started for no node.
unfoldable pub run_threads :
    Answers → MetaInfo → Disk → DeleteResp → Outcome (ℤ × DeleteResp × Disk)
run_threads a info d resp =
    let d' = after_threads a info d in
    if length (delete_fill_args info.nodes) == 0 then ok (pos 0, resp, d) else (do
      (ret, resp') ←
          delete_remote_async a.threads info
            (get_meta_info d'.meta a.reads_again a.buffer_again blank_info) resp
      ok (ret, resp', d'))

-- The part behind the threads: "ignore asyncret if force delete is used".
unfoldable pub conclude : Answers → (forcedel unlink : Bool) → ℤ → DeleteResp → Disk → Cleaned
conclude a forcedel unlink asyncret resp d =
    let (ret, d') : ℤ × Disk =
      if forcedel || is_zero asyncret then delete_files a unlink d else (pos 0, d) in
    record { ret = if forcedel || is_zero asyncret then ret else asyncret; disk = d'; resp = resp }

-- glusterBlockCleanUp
unfoldable pub clean_up : Answers → (forcedel unlink : Bool) → Disk → DeleteResp → Outcome Cleaned
clean_up a forcedel unlink d resp = elim (get_meta_info d.meta a.reads a.buffer blank_info) [
  | crash ↦ crash
  | fail ↦ ok (record { ret = minus_one; disk = d; resp = resp })
  | ok info ↦ do
    (asyncret, resp', d') ← run_threads a info d resp
    ok (conclude a forcedel unlink asyncret resp' d')
]
