-- ===== src/Create/Audit.antt =====
-- What the audit of a create decides (`glusterBlockAuditRequest`, rpc/block_create.c).
use gluster_block.Prelude.{
  ℕ, zero, suc, ◌+◌, ◌<◌, ◌≡◌, ◌≢◌, ◌↔◌, ◌⊎◌, refl, Bool, true, false, not, ◌||◌, List, [], ◌∷◌,
  arith, if◌then◌else◌, ◌==◌, ==_iff, ℤ, pos, minus_one, is_zero, int_eq_iff, ◌≤◌, All, length,
  Bool-cases, inl, inr, take,
}
use gluster_block.Text.{Text}
use gluster_block.Meta.{MetaInfo, ok, crash, rs_nodes, parse_rs_status}
use gluster_block.Meta.Merge.{Merges}
use gluster_block.Meta.File.{IsFile, get_meta_info-IsFile}
use gluster_block.Remote.{updated, Script, create_remote}
use gluster_block.Remote.Collect.{Done, any_failed}
use gluster_block.Remote.Laws.{create_remote_exit}
use gluster_block.Delete.{DeleteResp, Answers}
use gluster_block.Delete.Gone.{IsGone}
use gluster_block.Delete.Safety.{threads_of, lines_of, disk_of, disk_kept, clean_up_safe}
use gluster_block.Create.{
  create_args, create_remote_async, success_count, roll_back, audit_request, Audited,
}

-- Of a block whose file consists of short lines that are read to nodes with distinct addresses, with
-- enough reads that succeed, the audit always returns 0. It leaves the files alone if as many nodes are
-- configured as were asked for. If not, it cleans up: then each host had nothing to delete, or answered that
-- it deleted the block, or that it does not know it; or the block file is still there and the metadata file
-- has kept every line and gained those of the threads.
pub audit_request_lem :
    {ls : List Text} {raw : MetaInfo} (a : Answers) (reads : ℕ) (buf : Text) (mpath : ℕ)
    (resp : DeleteResp)
    → IsFile ls raw
    → Merges (threads_of a raw) (lines_of a raw)
    → length ls < reads
    → length ls < a.reads
    → length ls + length (lines_of a raw) < a.reads_again
    → (r : Audited) × (audit_request a reads buf mpath (disk_of ls) resp ≡ ok r)
      × (r.ret ≡ pos 0)
      × ((mpath ≡ success_count (rs_nodes raw.nodes)) × (r.disk ≡ disk_of ls)
          ⊎ (mpath ≢ success_count (rs_nodes raw.nodes))
            × (All (IsGone a.threads) raw.nodes ⊎ (r.disk ≡ disk_kept a ls raw)))
unfolding audit_request roll_back parse_rs_status
audit_request_lem {ls} {raw} a reads buf mpath resp f m r0 r1 r2 =
    let (c, e, s) = clean_up_safe a true resp f m r1 r2 in
    elim (Bool-cases (mpath == success_count (rs_nodes raw.nodes))) [
      | inl q ↦ (
        record { ret = pos 0; disk = disk_of ls; resp = resp },
        rw (audit_request, get_meta_info-IsFile reads buf f r0, q) refl,
        refl,
        inl ((==_iff _ _).0 q, refl),
      )
      | inr q ↦ (
        record { ret = pos 0; disk = c.disk; resp = c.resp },
        rw (audit_request, get_meta_info-IsFile reads buf f r0, q, e) refl,
        refl,
        inr (
          λ p. ground (arith, q, p, ==_iff mpath (success_count (rs_nodes raw.nodes))),
          elim s [ inl g ↦ inl g | inr k ↦ inr k.1 ],
        ),
      )
    ]

-- The answers that a create thread returns 0 for.
abbrev pub IsConfigured : Bool → (Text → Script) → Text → Type 0
IsConfigured auth answers h =
    ((answers h).first ≡ updated)
    × ((answers h).rpc.ret ≡ pos 0)
    × ((answers h).second ≡ updated)
    × ((auth ≡ false) ⊎ ((answers h).third ≡ updated))

zero_exit : (x : ℤ) (b : Bool) → not (is_zero x) || b ≡ false → x ≡ pos 0
zero_exit x b h = ground (arith, int_eq_iff x (pos 0))

rest_exit : (x : ℤ) (b : Bool) → not (is_zero x) || b ≡ false → b ≡ false
rest_exit x b h = ground arith

no_exit : (x : ℤ) (b : Bool) → x ≡ pos 0 → b ≡ false → not (is_zero x) || b ≡ false
no_exit x b z h = ground arith

no_failure : (b : Bool) → (if b then minus_one else pos 0) ≡ pos 0 → b ≡ false
no_failure b h = ground arith

args-IsConfigured :
    (answers : Text → Script) (auth : Bool) (mpath : ℕ) (hosts : List Text)
    → mpath ≤ length hosts
    → (args : List Done) × (create_args answers auth mpath hosts ≡ ok args)
      × ((any_failed args ≡ false) ↔ All (IsConfigured auth answers) (take mpath hosts))
unfolding create_args any_failed
args-IsConfigured answers auth zero hosts l = ([], refl, (λ h. tt, λ h. refl))
args-IsConfigured answers auth (suc mpath) [] l = absurd (omega arith)
args-IsConfigured answers auth (suc mpath) (h ∷ hosts) l =
    let (args, e, (f, g)) = args-IsConfigured answers auth mpath hosts (omega arith) in
    let exit = (create_remote auth h (answers h)).exit in
    let (c, d) = create_remote_exit auth h (answers h) in
    (
      record { addr = h; exit = exit } ∷ args,
      rw e refl,
      (
        λ n. (c (zero_exit exit (any_failed args) n), f (rest_exit exit (any_failed args) n)),
        λ (p, q). no_exit exit (any_failed args) (d p) (g q),
      ),
    )

args-overrun :
    (answers : Text → Script) (auth : Bool) (mpath : ℕ) (hosts : List Text)
    → length hosts < mpath
    → create_args answers auth mpath hosts ≡ crash
unfolding create_args
args-overrun answers auth zero hosts l = absurd (omega arith)
args-overrun answers auth (suc mpath) [] l = refl
args-overrun answers auth (suc mpath) (h ∷ hosts) l =
    rw (args-overrun answers auth mpath hosts (omega arith)) refl

-- With a host for each path the threads of a create end, and the result is 0 exactly if every host that
-- is used answered 0 and all its lines were written. With fewer hosts than paths the list of
-- hosts is read behind its end.
pub create_remote_async_lem :
    (answers : Text → Script) (auth : Bool) (mpath : ℕ) (hosts : List Text)
    → (mpath ≤ length hosts
        → (r : ℤ) × (create_remote_async answers auth mpath hosts ≡ ok r)
          × ((r ≡ pos 0) ↔ All (IsConfigured auth answers) (take mpath hosts)))
      × (length hosts < mpath → create_remote_async answers auth mpath hosts ≡ crash)
unfolding create_remote_async
create_remote_async_lem answers auth mpath hosts = (
  λ l.
      let (args, e, (f, g)) = args-IsConfigured answers auth mpath hosts l in
      (
        if any_failed args then minus_one else pos 0,
        rw e refl,
        (λ z. f (no_failure (any_failed args) z), λ all. rw (g all) refl),
      ),
  λ l. rw (args-overrun answers auth mpath hosts l) refl,
)
