-- ===== src/Remote.antt =====
-- The threads that act on one host each: the journal updates of `GB_METAUPDATE_OR_GOTO`
-- (utils/utils.h) and the functions `...Remote` of rpc/block_create.c, rpc/block_delete.c,
-- rpc/block_modify.c and rpc/block_replace.c. What the volume and the remote daemon answer is a script, an argument.
pub mod Laws
pub mod Collect
pub mod Sizes
pub mod Fleet
pub mod Reread
use gluster_block.Prelude.{
  ℕ, Bool, true, false, not, Option, none, some, List, [], ◌∷◌, ◌++◌, if◌then◌else◌, ℤ, pos,
  minus_one, is_zero, int_eq,
}
use gluster_block.Text.{Text, codes}
use gluster_block.Text.Decimal.{format_zu}
use gluster_block.Enums.Status
use gluster_block.Enums.Status.{MetaStatus, status_name}
use gluster_block.Meta.Journal.{Entry}

-- How one `GB_METAUPDATE_OR_GOTO` ends: the text is in the file; it is not (chdir, creat, asprintf or
-- write failed, each but asprintf with a message); or it is, and closing the file failed.
pub data Update : Type 0 where
  updated : Update
  lost : Option Text → Update
  unclosed : Text → Update

-- What `glusterBlockCallRPC_1` returns, and what it leaves in `*rpc_sent` and `*out`.
pub record RpcResult : Type 0 where
  pub ret : ℤ
  pub rpc_sent : Bool
  pub reply : Option Text

-- The answers that one thread meets, in order, and strerror(errno) if the call was not sent.
pub record Script : Type 0 where
  pub first : Update
  pub rpc : RpcResult
  pub errno : Text
  pub second : Update
  pub third : Update

-- The lines that a thread has written, its `args->reply`, its `errMsg` and its `ret`, which becomes
-- `args->exit`.
pub record Worker : Type 0 where
  pub writes : List Entry
  pub reply : Option Text
  pub err_msg : Option Text
  pub exit : ℤ

abbrev pub start : Worker
start = record { writes = []; reply = none; err_msg = none; exit = pos 0 }

-- One line, and the rest of the function, or `goto out`.
unfoldable pub update_then : Update → Entry → Worker → (Worker → Worker) → Worker
update_then updated e w rest = rest (record w { writes = w.writes ++ e ∷ []; exit = pos 0 })
update_then (lost none) e w rest = record w { exit = minus_one }
update_then (lost (some msg)) e w rest = record w { err_msg = some msg; exit = minus_one }
update_then (unclosed msg) e w rest = record w {
  writes = w.writes ++ e ∷ [];
  err_msg = some msg;
  exit = minus_one;
}

-- A reply of a failed call becomes the error message.
unfoldable pub take_reply : Worker → Worker
take_reply w = elim w.reply [ none ↦ w | some r ↦ record w { err_msg = some r; reply = none } ]

-- The call and the branch `if (ret)`: a call that was not sent leaves the journal alone, one that
-- failed is recorded, and `saveret` is returned.
unfoldable pub call_then : Script → Entry → Worker → (Worker → Worker) → Worker
unfolding take_reply update_then
call_then s failed w rest =
    let answered = record w { reply = s.rpc.reply; exit = s.rpc.ret } in
    if is_zero s.rpc.ret
    then rest answered
    else if not s.rpc.rpc_sent
    then record answered { err_msg = some (codes ": " ++ s.errno) }
    else update_then s.second failed (take_reply answered) (λ w'. record w' { exit = s.rpc.ret })

or_empty : Option Text → Text
or_empty none = []
or_empty (some t) = t

-- `out:`, a thread without a reply makes one: "<what> <addr> <errMsg><end>".
unfoldable pub finish : Text → Text → Text → Worker → Worker
unfolding or_empty
finish what addr end w = elim w.reply [
  | none ↦ record w {
    reply = some (what ++ (codes " " ++ (addr ++ (codes " " ++ (or_empty w.err_msg ++ end)))));
  }
  | some _ ↦ w
]

abbrev pub note_status : Text → MetaStatus → Entry
note_status addr st = record { host = addr; status = status_name st }

-- glusterBlockCreateRemote
unfoldable pub create_remote : (auth_mode : Bool) → Text → Script → Worker
unfolding update_then call_then finish
create_remote auth_mode addr s = finish (codes "failed to configure on") addr (codes "\n") (
    update_then s.first (note_status addr Status.config_inprogress) start λ w.
      call_then s (note_status addr Status.config_fail) w λ w'.
        update_then s.second (note_status addr Status.config_success) w' λ w''.
          if auth_mode
          then update_then s.third (note_status addr Status.auth_enforced) w'' (λ w3. w3)
          else w'')

-- glusterBlockDeleteRemote
unfoldable pub delete_remote : Text → Script → Worker
unfolding update_then call_then finish
delete_remote addr s = finish (codes "failed to delete config on") addr [] (
    update_then s.first (note_status addr Status.cleanup_inprogress) start λ w.
      call_then s (note_status addr Status.cleanup_fail) w
        λ w'. update_then s.second (note_status addr Status.cleanup_success) w' (λ w''. w''))

-- "AUTH%s..." with "" or "CLEAR"
auth_doing : Bool → MetaStatus
auth_doing true = Status.auth_enforceing
auth_doing false = Status.auth_clear_enforceing

auth_failed : Bool → MetaStatus
auth_failed true = Status.auth_enforce_fail
auth_failed false = Status.auth_clear_enforce_fail

auth_done : Bool → MetaStatus
auth_done true = Status.auth_enforced
auth_done false = Status.auth_clear_enforced

-- glusterBlockModifyRemote
unfoldable pub modify_remote : (auth_mode : Bool) → Text → Script → Worker
unfolding update_then call_then finish auth_doing auth_failed auth_done
modify_remote auth_mode addr s = finish (codes "failed to configure auth on") addr [] (
    update_then s.first (note_status addr (auth_doing auth_mode)) start λ w.
      call_then s (note_status addr (auth_failed auth_mode)) w
        λ w'. update_then s.second (note_status addr (auth_done auth_mode)) w' (λ w''. w''))

-- "%s: RSSUCCESS-%zu" and its like
abbrev pub note_size : Text → MetaStatus → ℕ → Entry
note_size addr st size = record { host = addr; status = status_name st ++ b'-' ∷ format_zu size }

-- glusterBlockModifySizeRemote
unfoldable pub modify_size_remote : (size : ℕ) → Text → Script → Worker
unfolding update_then call_then finish
modify_size_remote size addr s = finish (codes "failed to modify size on") addr [] (
    update_then s.first (note_size addr Status.rs_inprogress size) start λ w.
      call_then s (note_size addr Status.rs_fail size) w
        λ w'. update_then s.second (note_size addr Status.rs_success size) w' (λ w''. w''))

abbrev pub op_skipped : ℤ
op_skipped = pos 222

-- A portal that was there already counts as a call that returned 0.
portal_then : Script → Text → Worker → (Worker → Worker) → Worker
unfolding call_then
portal_then s addr w rest =
    if int_eq s.rpc.ret op_skipped
    then rest (record w { reply = s.rpc.reply; exit = s.rpc.ret })
    else call_then s (note_status addr Status.rp_fail) w rest

-- glusterBlockReplacePortalRemote
unfoldable pub replace_portal_remote : Text → Script → Worker
unfolding update_then portal_then finish
replace_portal_remote addr s =
    finish (codes "failed to replace remote portal on") addr (codes "\n") (
      update_then s.first (note_status addr Status.rp_inprogress) start λ w.
        portal_then s addr w
          λ w'. update_then s.second (note_status addr Status.rp_success) w' (λ w''. w''))
