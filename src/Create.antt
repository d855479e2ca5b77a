-- ===== src/Create.antt =====
-- The end of creating a block: `glusterBlockCreateRemoteAsync` and `glusterBlockAuditRequest`
-- (rpc/block_create.c). The handler around them is the module Cli.
pub mod Audit
pub mod Count
pub mod Success
pub mod Hosts
pub mod Cli
pub mod Header
pub mod Lines
pub mod Steps
pub mod Whole
use gluster_block.Prelude.{
  ℕ, zero, suc, ◌+◌, Bool, true, false, not, ◌&&◌, ◌||◌, Option, none, some, List, [], ◌∷◌, map,
  if◌then◌else◌, ◌==◌, ℤ, pos, minus_one, is_zero, count_if,
}
use gluster_block.Text.{Text}
use gluster_block.Enums.Status
use gluster_block.Enums.Status.{MetaStatus, status_parse}
use gluster_block.Meta.{NodeInfo, MetaInfo, Outcome, ok, fail, crash, ◌>>=◌, blank_info}
use gluster_block.Meta.Read.{get_meta_info}
use gluster_block.Remote.{Script, create_remote}
use gluster_block.Remote.Collect.{Done, any_failed}
use gluster_block.Delete.{Disk, DeleteResp, Answers, Cleaned, clean_up}

-- `list->hosts[i]` for each i below `mpath`; a read behind the last host is a fault.
unfoldable pub create_args :
    (Text → Script) → (auth_mode : Bool) → ℕ → List Text → Outcome (List Done)
create_args answers auth zero hosts = ok []
create_args answers auth (suc mpath) [] = crash
create_args answers auth (suc mpath) (h ∷ hosts) = do
  args ← create_args answers auth mpath hosts
  ok (record { addr = h; exit = (create_remote auth h (answers h)).exit } ∷ args)

-- glusterBlockCreateRemoteAsync
unfoldable pub create_remote_async :
    (Text → Script) → (auth_mode : Bool) → ℕ → List Text → Outcome ℤ
unfolding create_args any_failed
create_remote_async answers auth mpath hosts = do
  args ← create_args answers auth mpath hosts
  ok (if any_failed args then minus_one else pos 0)

abbrev is_success_status : Option MetaStatus → Bool
is_success_status (some Status.config_success) = true
is_success_status (some Status.auth_enforced) = true
is_success_status _ = false

unfoldable pub is_success : Text → Bool
is_success status = is_success_status (status_parse (some status))

-- `successcnt`
unfoldable pub success_count : List NodeInfo → ℕ
success_count ns = count_if (λ n. is_success n.status) ns

-- What is left of an audit.
pub record Audited : Type 0 where
  pub ret : ℤ
  pub disk : Disk
  pub resp : DeleteResp

-- `out:`, the clean-up, whose return value is not looked at.
unfoldable pub roll_back : Answers → ℤ → Disk → DeleteResp → Outcome Audited
roll_back a ret d resp = do
  c ← clean_up a false true d resp
  ok (record { ret = ret; disk = c.disk; resp = c.resp })

-- glusterBlockAuditRequest; `a` is what the clean-up meets.
unfoldable pub audit_request :
    Answers → (reads : ℕ) → (buffer : Text) → (mpath : ℕ) → Disk → DeleteResp → Outcome Audited
unfolding roll_back
audit_request a reads buffer mpath d resp = elim (get_meta_info d.meta reads buffer blank_info) [
  | crash ↦ crash
  | fail ↦ roll_back a minus_one d resp
  | ok info ↦
      if mpath == success_count info.nodes
      then ok (record { ret = pos 0; disk = d; resp = resp })
      else roll_back a (pos 0) d resp
]
