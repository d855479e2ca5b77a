-- ===== src/Delete/Async.antt =====
-- One host of a delete: the status that its thread leaves in the journal and the exit code of the
-- thread (`glusterBlockDeleteRemote`, `glusterBlockDeleteRemoteAsync`, rpc/block_delete.c).
use gluster_block.Prelude.{◌≡◌, refl, Bool, true, false, Option, none, some, arith, pos, int_eq}
use gluster_block.Text.{Text, after_char, before_char}
use gluster_block.Enums.Status
use gluster_block.Enums.Status.{MetaStatus, status_name, status_parse}
use gluster_block.Remote.{Script, delete_remote}
use gluster_block.Remote.Laws.{delete_status}
use gluster_block.Remote.Collect.{block_not_found}
use gluster_block.Meta.Shown.{shown}
use gluster_block.Delete.{is_clean}

inprogress-dirty : is_clean (shown (status_name Status.cleanup_inprogress)) ≡ false
unfolding is_clean shown after_char before_char status_parse
inprogress-dirty = refl

fail-dirty : is_clean (shown (status_name Status.cleanup_fail)) ≡ false
unfolding is_clean shown after_char before_char status_parse
fail-dirty = refl

-- How the status of a host looks, if there is one.
abbrev pub looks_clean : Option Text → Bool
looks_clean none = false
looks_clean (some st) = is_clean (shown st)

-- A thread that ended with "block not found" does not leave its host clean.
pub not_found-dirty :
    (addr : Text) (s : Script) (old : Text)
    → is_clean (shown old) ≡ false
    → int_eq (delete_remote addr s).exit block_not_found ≡ true
    → looks_clean (delete_status s (some old)) ≡ false
unfolding delete_remote
not_found-dirty addr s old d e = ground (arith, inprogress-dirty, fail-dirty)

-- A host that the thread leaves clean answered 0, and the line about the success was written.
pub clean-answered :
    (s : Script) (old : Text)
    → is_clean (shown old) ≡ false
    → looks_clean (delete_status s (some old)) ≡ true
    → s.rpc.ret ≡ pos 0
clean-answered s old d c = ground (arith, inprogress-dirty, fail-dirty, d, c)

-- A thread ends with "block not found" only if the host answered so.
pub not_found-answered :
    (addr : Text) (s : Script)
    → int_eq (delete_remote addr s).exit block_not_found ≡ true
    → s.rpc.ret ≡ block_not_found
unfolding delete_remote
not_found-answered addr s e = ground arith
