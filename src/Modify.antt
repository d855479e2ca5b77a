-- ===== src/Modify.antt =====
-- Turning the authentication of a block on or off: `glusterBlockModifyArgsFill`,
-- `glusterBlockModifyRemoteAsync` and `block_modify_cli_1_svc_st` (rpc/block_modify.c).
pub mod Settled
pub mod Reach
pub mod Exit
pub mod Password
pub mod Reread
pub mod Undone
use gluster_block.Prelude.{
  ℕ, Bool, true, false, not, Option, none, some, List, [], ◌∷◌, ◌++◌, map, if◌then◌else◌, ◌==◌, ℤ,
  pos, minus_one, is_zero, select, length,
}
use gluster_block.Text.{Text, codes}
use gluster_block.Enums.Status
use gluster_block.Enums.Status.{MetaStatus, status_parse}
use gluster_block.Lock.{unlock_code}
use gluster_block.Meta.{◌>>=◌, NodeInfo, MetaInfo, Outcome, ok, fail, crash, blank_info}
use gluster_block.Meta.Journal.{Entry, entry_line}
use gluster_block.Meta.Merge.{Thread}
use gluster_block.Meta.Read.{get_meta_info, render}
use gluster_block.Meta.Servers.{get_list_from_info}
use gluster_block.Remote.{Update, updated, lost, unclosed, Script, modify_remote}
use gluster_block.Remote.Collect.{Done, Collected, modify_srv, collect_attempt_success, any_failed}

-- The switch of glusterBlockModifyArgsFill.
abbrev pub modify_fills : (auth_mode : Bool) → Option MetaStatus → Bool
modify_fills auth (some Status.config_success) = auth
modify_fills auth (some Status.cleanup_inprogress) = auth
modify_fills auth (some Status.auth_enforce_fail) = auth
modify_fills auth (some Status.auth_clear_enforced) = auth
modify_fills auth (some Status.rp_success) = auth
modify_fills auth (some Status.rp_fail) = auth
modify_fills auth (some Status.rp_inprogress) = auth
modify_fills auth (some Status.rs_success) = auth
modify_fills auth (some Status.rs_fail) = auth
modify_fills auth (some Status.rs_inprogress) = auth
modify_fills auth (some Status.auth_enforced) = not auth
modify_fills auth (some Status.auth_enforceing) = true
modify_fills auth (some Status.auth_clear_enforceing) = true
modify_fills auth (some Status.auth_clear_enforce_fail) = true
modify_fills auth _ = false

unfoldable pub is_filled : (auth_mode : Bool) → Text → Bool
is_filled auth status = modify_fills auth (status_parse (some status))

-- glusterBlockModifyArgsFill: the nodes that a thread is started for.
unfoldable pub modify_args_fill : (auth_mode : Bool) → List NodeInfo → List NodeInfo
modify_args_fill auth ns = select (λ n. is_filled auth n.status) ns

abbrev pub modify_done : Bool → (Text → Script) → NodeInfo → Done
modify_done auth answers n = record {
  addr = n.addr;
  exit = (modify_remote auth n.addr (answers n.addr)).exit;
}

abbrev pub modify_thread : Bool → (Text → Script) → NodeInfo → Thread
modify_thread auth answers n = record {
  host = n.addr;
  writes = (modify_remote auth n.addr (answers n.addr)).writes;
}

-- `blockRemoteModifyResp`
pub record ModifyResp : Type 0 where
  pub attempt : Option Text
  pub success : Option Text
  pub rb_attempt : Option Text
  pub rb_success : Option Text

save_collected : (rollback : Bool) → Collected → ModifyResp → ModifyResp
save_collected false c r = record r { attempt = c.attempt; success = c.success }
save_collected true c r = record r { rb_attempt = c.attempt; rb_success = c.success }

-- glusterBlockModifyRemoteAsync
unfoldable pub modify_remote_async :
    (auth_mode : Bool)
    → (Text → Script)
    → List NodeInfo
    → (rollback : Bool) → ModifyResp
    → ℤ × ModifyResp
unfolding save_collected
modify_remote_async auth answers ns rollback resp =
    let args = map (modify_done auth answers) (modify_args_fill auth ns) in
    (
      if any_failed args then minus_one else pos 0,
      save_collected rollback (collect_attempt_success modify_srv args) resp,
    )

-- What a run meets: the error code of glusterBlockVolumeInit, glusterBlockCreateMetaLockFile or
-- the lock, 0 if all worked; how the lock is released; the access check, the reads, the capability check, a fresh password, the updates of
-- the password line, the answers to the threads and how their lines interleave.
pub record ModifyRun : Type 0 where
  pub entered : ℤ
  pub unlock : Option Text
  pub access : ℤ
  pub reads : ℕ
  pub buffer : Text
  pub caps : ℤ
  pub uuid : Text
  pub password : Update
  pub answers : Text → Script
  pub schedule : List Thread → List Entry
  pub clear_password : Update
  pub reads_again : ℕ
  pub buffer_again : Text
  pub undo_answers : Text → Script
  pub undo_schedule : List Thread → List Entry

-- The variables of the handler, and the metadata file.
pub record Modified : Type 0 where
  pub err_code : ℤ
  pub asyncret : ℤ
  pub rollback : Bool
  pub resp : ModifyResp
  pub passwd : Text
  pub file : Text

abbrev pub modify_start : Text → Modified
modify_start file = record {
  err_code = pos 0;
  asyncret = pos 0;
  rollback = false;
  resp = record { attempt = none; success = none; rb_attempt = none; rb_success = none };
  passwd = [];
  file = file;
}

abbrev pub enoent : ℤ
enoent = pos 2

-- GB_METAUPDATE_OR_GOTO with `errCode` for its `ret`.
unfoldable pub update_file :
    Update → Text → Modified → (Modified → Outcome Modified) → Outcome Modified
update_file updated t m rest = rest (record m { err_code = pos 0; file = m.file ++ t })
update_file (lost e) t m rest = ok (record m { err_code = minus_one })
update_file (unclosed e) t m rest = ok (record m { err_code = minus_one; file = m.file ++ t })

-- The lines of the threads.
abbrev pub modify_lines : Bool → (Text → Script) → (List Thread → List Entry) → List NodeInfo → Text
modify_lines auth answers schedule ns =
    render (map entry_line (schedule (map (modify_thread auth answers) (modify_args_fill auth ns))))

-- "undo", over the metadata read anew
unfoldable pub undo_threads : ModifyRun → Bool → Modified → Outcome Modified
undo_threads run auth m =
    elim (get_meta_info (some m.file) run.reads_again run.buffer_again blank_info) [
      | crash ↦ crash
      | fail ↦ ok (record m { err_code = minus_one })
      | ok info ↦
          let (ret, resp) =
            modify_remote_async (not auth) run.undo_answers info.nodes true m.resp in
          ok (record m {
            rollback = true;
            resp = resp;
            file = m.file ++ modify_lines (not auth) run.undo_answers run.undo_schedule info.nodes;
            err_code = if is_zero ret then m.err_code else ret;
          })
    ]

-- "Unwind by removing authentication"
unfoldable pub modify_undo : ModifyRun → (auth : Bool) → Modified → Outcome Modified
unfolding undo_threads update_file
modify_undo run true m =
    update_file run.clear_password (codes "PASSWORD: \n") m (undo_threads run true)
modify_undo run false m = undo_threads run false m

-- The threads, and what follows them if one has failed.
unfoldable pub modify_threads : ModifyRun → Bool → MetaInfo → Modified → Outcome Modified
unfolding modify_undo
modify_threads run auth info m =
    let (ret, resp) = modify_remote_async auth run.answers info.nodes false m.resp in
    let m' = record m {
      asyncret = ret;
      resp = resp;
      file = m.file ++ modify_lines auth run.answers run.schedule info.nodes;
    } in
    if is_zero ret then ok m' else modify_undo run auth (record m' { err_code = ret })

-- The password for the hosts: a fresh one, the one of the file, or none.
unfoldable pub modify_password : ModifyRun → Bool → MetaInfo → Modified → Outcome Modified
modify_password run true info m = elim info.passwd [
  | [] ↦
      update_file run.password (codes "PASSWORD: " ++ (run.uuid ++ codes "\n")) m
        (λ m'. modify_threads run true info (record m' { passwd = run.uuid }))
  | c ∷ s ↦ modify_threads run true info (record m { passwd = c ∷ s })
]
modify_password run false info m =
    update_file run.password (codes "PASSWORD: \n") m (modify_threads run false info)

-- The checks on the metadata.
unfoldable pub modify_checks : ModifyRun → Bool → MetaInfo → Modified → Outcome Modified
modify_checks run auth info m = elim (get_list_from_info info) [
  | none ↦ crash
  | some hosts ↦
      if not (length hosts.written == info.mpath)
      then ok (record m { err_code = enoent })
      else if not (is_zero run.caps)
      then ok (record m { err_code = run.caps })
      else modify_password run auth info m
]

-- block_modify_cli_1_svc_st, while it holds the lock
unfoldable pub modify_locked : ModifyRun → (auth_mode : Bool) → Text → Outcome Modified
modify_locked run auth file =
    if not (is_zero run.access)
    then ok (record (modify_start file) { err_code = run.access })
    else elim (get_meta_info (some file) run.reads run.buffer blank_info) [
      | crash ↦ crash
      | fail ↦ ok (record (modify_start file) { err_code = minus_one })
      | ok info ↦ modify_checks run auth info (modify_start file)
    ]

-- block_modify_cli_1_svc_st with the lock and GB_METAUNLOCK
unfoldable pub modify_cli : ModifyRun → (auth_mode : Bool) → Text → Outcome Modified
modify_cli run auth file =
    if not (is_zero run.entered)
    then ok (record (modify_start file) { err_code = run.entered })
    else (do
      m ← modify_locked run auth file
      ok (record m { err_code = unlock_code run.unlock m.err_code }))

-- `asyncret?asyncret:errCode`
unfoldable pub modify_exit : Modified → ℤ
modify_exit m = if is_zero m.asyncret then m.err_code else m.asyncret
