-- ===== src/Create/Cli.antt =====
-- The handler of a create: `block_create_cli_1_svc_st` (rpc/block_create.c).
use gluster_block.Prelude.{
  ℕ, Bool, true, not, ◌&&◌, Option, none, List, [], ◌∷◌, ◌++◌, map, take, length, if◌then◌else◌,
  ltb, ℤ, pos, minus_one, is_zero,
}
use gluster_block.Text.{Text, codes}
use gluster_block.Text.Decimal.{format_zu, format_u, format_d}
use gluster_block.Lock.{unlock_code}
use gluster_block.Meta.{Outcome, ok, ◌>>=◌}
use gluster_block.Meta.Journal.{Entry, entry_line}
use gluster_block.Meta.Merge.{Thread}
use gluster_block.Meta.Read.{render}
use gluster_block.Remote.{Update, updated, lost, unclosed, Script, create_remote}
use gluster_block.Delete.{DeleteResp, Disk, Answers, append_text}
use gluster_block.Prio.{Attrs, get_prio_path, inc_prio_attr}
use gluster_block.Create.{create_remote_async, audit_request}
use gluster_block.Create.Hosts.{block_server_parse}

-- `blockCreateCli`, as far as the handler reads it; rb_size, blk_size, io_timeout and mpath are 32-bit words
pub record CreateCli : Type 0 where
  pub volume : Text
  pub size : ℕ
  pub rb_size : ℕ
  pub blk_size : ℕ
  pub io_timeout : ℕ
  pub mpath : ℕ
  pub auth_mode : Bool
  pub storage : Text
  pub block_hosts : Text

-- How glusterBlockCreateEntry ends: with the file made; or with an error code, after it has tried to unlink
-- the metadata file.
pub data MadeEntry : Type 0 where
  made : MadeEntry
  not_made : ℤ → (unlinked : Bool) → MadeEntry

-- What a create meets: the capability check with its results for load balancing and for timeouts, whether
-- the name is taken, whether prio.info opens and can be written, the new identifiers, the updates of the
-- metadata, the file of the block, the answers to the threads and how their lines interleave, and the
-- audit; before that the error code of glusterBlockVolumeInit, glusterBlockCreateMetaLockFile or the lock, 0 if
-- all worked; the size that glfs_stat gives for the storage file; and how the lock is released.
pub record CreateRun : Type 0 where
  pub caps : ℤ
  pub entered : ℤ
  pub unlock : Option Text
  pub st_size : ℕ
  pub no_load_balance : Bool
  pub no_io_timeout : Bool
  pub exists : Bool
  pub opened : Bool
  pub settable : Bool
  pub gbid : Text
  pub passwd : Text
  pub inprogress_line : Update
  pub entry : MadeEntry
  pub success_line : Update
  pub passwd_line : Update
  pub answers : Text → Script
  pub schedule : List Thread → List Entry
  pub audit : Answers
  pub reads : ℕ
  pub buffer : Text

-- The error code, the files, the counters and the replies of
-- the roll-back.
pub record Created : Type 0 where
  pub err_code : ℤ
  pub disk : Disk
  pub attrs : Attrs
  pub resp : DeleteResp

abbrev pub create_stop : ℤ → Disk → Attrs → Created
create_stop k d attrs = record {
  err_code = k;
  disk = d;
  attrs = attrs;
  resp = record { d_attempt = none; d_success = none };
}

abbrev pub eexist : ℤ
eexist = pos 17

-- GB_METAUPDATE_OR_GOTO over the files.
unfoldable pub update_disk :
    Update → Text → Disk → Attrs → (Disk → Outcome Created) → Outcome Created
update_disk updated t d attrs rest = rest (append_text t d)
update_disk (lost e) t d attrs rest = ok (create_stop minus_one d attrs)
update_disk (unclosed e) t d attrs rest = ok (create_stop minus_one (append_text t d) attrs)

-- The lines of the first update, "PRIOPATH: ..." only if there is a path.
unfoldable pub inprogress_lines : CreateCli → (gbid prio_path : Text) → List Text
inprogress_lines blk gbid prio_path =
    (codes "VOLUME: " ++ blk.volume)
    ∷ (codes "GBID: " ++ gbid)
    ∷ (codes "HA: " ++ format_d blk.mpath)
    ∷ codes "ENTRYCREATE: INPROGRESS"
    ∷ elim prio_path [ [] ↦ [] | c ∷ s ↦ (codes "PRIOPATH: " ++ c ∷ s) ∷ [] ]

-- Those of the second, "IOTIMEOUT: ..." only if all hosts know it.
unfoldable pub success_lines : CreateCli → (no_io_timeout : Bool) → List Text
success_lines blk no_io_timeout =
    (codes "SIZE: " ++ format_zu blk.size)
    ∷ (codes "RINGBUFFER: " ++ format_u blk.rb_size)
    ∷ (codes "BLKSIZE: " ++ format_u blk.blk_size)
    ∷ (if no_io_timeout
        then codes "ENTRYCREATE: SUCCESS" ∷ []
        else (codes "IOTIMEOUT: " ++ format_u blk.io_timeout) ∷ codes "ENTRYCREATE: SUCCESS" ∷ [])

-- glusterBlockCreateEntry overwrites `blk->size` if the request names a storage file.
abbrev pub stored : CreateRun → CreateCli → CreateCli
stored run blk = record blk { size = elim blk.storage [ [] ↦ blk.size | _ ∷ _ ↦ run.st_size ] }

abbrev pub create_threads : CreateCli → (Text → Script) → List Text → List Thread
create_threads blk answers hosts =
    map (λ h. record { host = h; writes = (create_remote blk.auth_mode h (answers h)).writes })
      (take blk.mpath hosts)

-- The check point, and the counter of the host.
unfoldable pub create_audit :
    CreateRun → CreateCli → (prio_path : Text) → Disk → Attrs → Outcome Created
create_audit run blk prio_path d attrs = do
  r ←
      audit_request run.audit run.reads run.buffer blk.mpath d
        (record { d_attempt = none; d_success = none })
  attrs' ←
      if is_zero r.ret && not run.no_load_balance
      then elim prio_path [ [] ↦ ok attrs | c ∷ s ↦ inc_prio_attr run.settable (c ∷ s) attrs ]
      else ok attrs
  ok (record { err_code = r.ret; disk = r.disk; attrs = attrs'; resp = r.resp })

-- The threads, whose result the check point overwrites.
unfoldable pub create_hosts :
    CreateRun → CreateCli → List Text → (prio_path : Text) → Disk → Attrs → Outcome Created
create_hosts run blk hosts prio_path d attrs = do
  ret ← create_remote_async run.answers blk.auth_mode blk.mpath hosts
  create_audit run blk prio_path
      (append_text (render (map entry_line (run.schedule (create_threads blk run.answers hosts))))
        d)
      attrs

-- The password.
unfoldable pub create_passwd :
    CreateRun → CreateCli → List Text → (prio_path : Text) → Disk → Attrs → Outcome Created
create_passwd run blk hosts prio_path d attrs =
    if blk.auth_mode
    then update_disk run.passwd_line (render ((codes "PASSWORD: " ++ run.passwd) ∷ [])) d attrs
        (λ d'. create_hosts run blk hosts prio_path d' attrs)
    else create_hosts run blk hosts prio_path d attrs

-- The metadata before the file of the block is made, the file, and the metadata behind it; no step after that
-- reads the size.
unfoldable pub create_files :
    CreateRun → CreateCli → List Text → (prio_path : Text) → Disk → Attrs → Outcome Created
create_files run blk hosts prio_path d attrs =
    update_disk run.inprogress_line (render (inprogress_lines blk run.gbid prio_path)) d attrs λ d1.
      elim run.entry [
        | not_made k unlinked ↦
            ok (create_stop k (if unlinked then record d1 { meta = none } else d1) attrs)
        | made ↦
            update_disk run.success_line (render (success_lines (stored run blk) run.no_io_timeout))
              (record d1 { block_file = true }) attrs
              (λ d2. create_passwd run blk hosts prio_path d2 attrs)
      ]

-- block_create_cli_1_svc_st, while it holds the lock
unfoldable pub create_locked : CreateRun → CreateCli → List Text → Disk → Attrs → Outcome Created
create_locked run blk hosts d attrs = if run.exists then ok (create_stop eexist d attrs) else (do
  prio_path ← if run.no_load_balance then ok [] else get_prio_path run.opened attrs hosts 255 []
  create_files run blk hosts prio_path d attrs)

-- block_create_cli_1_svc_st from the list of hosts to GB_METAUNLOCK
unfoldable pub create_cli : CreateRun → CreateCli → Disk → Attrs → Outcome Created
create_cli run blk d attrs =
    let hosts = block_server_parse blk.block_hosts in
    if ltb (length hosts) blk.mpath
    then ok (create_stop minus_one d attrs)
    else if not (is_zero run.caps) && not run.no_load_balance
    then ok (create_stop run.caps d attrs)
    else if not (is_zero run.entered)
    then ok (create_stop run.entered d attrs)
    else (do
      r ← create_locked run blk hosts d attrs
      ok (record r { err_code = unlock_code run.unlock r.err_code }))
