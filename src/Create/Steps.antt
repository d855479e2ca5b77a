-- ===== src/Create/Steps.antt =====
-- The steps of a create for which everything goes well (`block_create_cli_1_svc_st`,
-- rpc/block_create.c).
use mathlib.Core.List.{append-nil}
use gluster_block.Prelude.{
  ℕ, zero, suc, ◌+◌, ◌<◌, ◌≤◌, ◌≡◌, ◌≢◌, ◌∙◌, refl, Bool, true, false, none, List, [], ◌∷◌, ◌++◌,
  All, pos, arith, length, take, map,
}
use gluster_block.Text.{Text}
use gluster_block.Text.Laws.{Lacks}
use gluster_block.Meta.{MetaInfo, ok}
use gluster_block.Meta.Lines.{IsHost}
use gluster_block.Meta.Journal.{Entry, entry_line}
use gluster_block.Meta.Merge.{IsSchedule}
use gluster_block.Meta.Read.{render}
use gluster_block.Meta.File.{IsFile, render-append}
use gluster_block.Remote.{updated}
use gluster_block.Delete.{append_text}
use gluster_block.Delete.Safety.{disk_of}
use gluster_block.Prio.{Attrs, inc_prio_attr}
use gluster_block.Create.Audit.{IsConfigured, create_remote_async_lem}
use gluster_block.Create.Count.{NoRepeat}
use gluster_block.Create.Success.{audit-configured}
use gluster_block.Create.Hosts.{joined_hosts}
use gluster_block.Create.Cli.{
  CreateCli, CreateRun, Created, made, stored, create_stop, update_disk, inprogress_lines,
  success_lines, create_threads, create_audit, create_hosts, create_passwd, create_files,
}
use gluster_block.Create.Header.{IsValue, IsRequest, passwd_lines, created_lines}
use gluster_block.Create.Lines.{created-IsFile}

-- The hosts on the command line.
pub record AreHosts (blk : CreateCli) (hosts : List Text) : Type 0 where
  pub text : blk.block_hosts ≡ joined_hosts hosts
  pub nonempty : hosts ≢ []
  pub enough : blk.mpath ≤ length hosts
  pub commas : All (Lacks b',') hosts
  pub addresses : All IsHost hosts
  pub short : All (λ h. length h < 246) hosts
  pub distinct : NoRepeat hosts

-- Nothing goes wrong: the hosts have all capabilities, the lock is taken and released, the name is free, the volume takes every line, and
-- each host that is used answers 0.
pub record GoesWell (run : CreateRun) (blk : CreateCli) (hosts : List Text) : Type 0 where
  pub caps : run.caps ≡ pos 0
  pub entered : run.entered ≡ pos 0
  pub unlock : run.unlock ≡ none
  pub load_balance : run.no_load_balance ≡ false
  pub free : run.exists ≡ false
  pub opened : run.opened ≡ true
  pub settable : run.settable ≡ true
  pub gbid : IsValue 37 run.gbid
  pub passwd : IsValue 37 run.passwd
  pub inprogress_line : run.inprogress_line ≡ updated
  pub entry : run.entry ≡ made
  pub success_line : run.success_line ≡ updated
  pub passwd_line : run.passwd_line ≡ updated
  pub configured : All (IsConfigured blk.auth_mode run.answers) (take blk.mpath hosts)
  pub schedule : IsSchedule run.schedule

pub length-take : (n : ℕ) (xs : List Text) → n ≤ length xs → length (take n xs) ≡ n
length-take zero xs h = refl
length-take (suc n) [] h = absurd (omega arith)
length-take (suc n) (x ∷ xs) h = omega (arith, length-take n xs (omega arith))

pub All-take : (P : Text → Type 0) (n : ℕ) (xs : List Text) → All P xs → All P (take n xs)
All-take P zero xs h = tt
All-take P (suc n) [] h = tt
All-take P (suc n) (x ∷ xs) h = (h.0, All-take P n xs h.1)

pub NoRepeat-take : (n : ℕ) (xs : List Text) → NoRepeat xs → NoRepeat (take n xs)
NoRepeat-take zero xs h = tt
NoRepeat-take (suc n) [] h = tt
NoRepeat-take (suc n) (x ∷ xs) h = (All-take _ n xs h.0, NoRepeat-take n xs h.1)

pub All-every : (P : Text → Type 0) → ((x : Text) → P x) → (xs : List Text) → All P xs
All-every P f [] = tt
All-every P f (x ∷ xs) = (f x, All-every P f xs)

-- The lines of the threads of a create.
abbrev pub create_entries : CreateRun → CreateCli → List Text → List Entry
create_entries run blk hosts = run.schedule (create_threads blk run.answers hosts)

-- What a create that goes well leaves.
abbrev pub whole : CreateRun → CreateCli → List Text → Text → Attrs → Created
whole run blk hosts path attrs = record (create_stop (pos 0) (disk_of []) attrs) {
  disk =
      append_text (render (map entry_line (create_entries run blk hosts)))
        (disk_of (created_lines (stored run blk) run.no_io_timeout run.gbid path run.passwd));
}

module _ (run : CreateRun) (blk : CreateCli) (hosts : List Text) (h : AreHosts blk hosts)
    (w : GoesWell run blk hosts) (b : IsRequest (stored run blk)) where
  -- The threads and the check point, on a file without nodes.
  hosts-whole :
      {ls : List Text} {raw : MetaInfo} (c : ℕ) (s : Text) (attrs attrs' : Attrs)
      → IsFile ls raw
      → raw.nodes ≡ []
      → length ls + length (create_entries run blk hosts) < run.reads
      → inc_prio_attr run.settable (c ∷ s) attrs ≡ ok attrs'
      → create_hosts run blk hosts (c ∷ s) (disk_of ls) attrs
        ≡ ok
            (record (create_stop
              (pos 0)
              (append_text (render (map entry_line (create_entries run blk hosts))) (disk_of ls))
              attrs') { err_code = pos 0 })
  unfolding create_hosts create_audit
  hosts-whole {ls} c s attrs attrs' f n r k =
      let (x, e, z) =
        (create_remote_async_lem run.answers blk.auth_mode blk.mpath hosts).0 h.enough in
      let a =
        audit-configured blk.auth_mode run.answers (take blk.mpath hosts)
          (create_entries run blk hosts) run.audit run.reads run.buffer
          (record { d_attempt = none; d_success = none }) f n
          (All-take IsHost blk.mpath hosts h.addresses) (NoRepeat-take blk.mpath hosts h.distinct)
          w.configured (w.schedule (create_threads blk run.answers hosts)) r in
      let a' = rw (length-take blk.mpath hosts h.enough) at a in
      rw (create_hosts, create_audit, e, a', w.load_balance, k) refl

  -- The password line, if there is one.
  passwd-whole :
      (auth : Bool) (c : ℕ) (s : Text) (attrs : Attrs) (ks : List Text)
      → blk.auth_mode ≡ auth
      → create_passwd run blk hosts (c ∷ s) (disk_of ks) attrs
        ≡ create_hosts run blk hosts (c ∷ s) (disk_of (ks ++ passwd_lines auth run.passwd)) attrs
  unfolding create_passwd update_disk
  passwd-whole true c s attrs ks e =
      rw
        (
          create_passwd,
          e,
          w.passwd_line,
          update_disk,
          render-append ks (passwd_lines true run.passwd),
        )
        refl
  passwd-whole false c s attrs ks e = rw (create_passwd, e, append-nil) refl

  pub files-whole :
      (c : ℕ) (s : Text) (attrs attrs' : Attrs)
      → IsValue 254 (c ∷ s)
      → length (created_lines (stored run blk) run.no_io_timeout run.gbid (c ∷ s) run.passwd)
          + length (create_entries run blk hosts)
        < run.reads
      → inc_prio_attr run.settable (c ∷ s) attrs ≡ ok attrs'
      → create_files run blk hosts (c ∷ s) (record { meta = none; block_file = false }) attrs
        ≡ ok (whole run blk hosts (c ∷ s) attrs')
  unfolding create_files inprogress_lines update_disk create_passwd create_hosts create_audit
  files-whole c s attrs attrs' p r k =
      let f =
        created-IsFile (stored run blk) run.no_io_timeout run.gbid (c ∷ s) run.passwd b w.gbid p
          w.passwd in
      let a = inprogress_lines (stored run blk) run.gbid (c ∷ s) in
      let d = success_lines (stored run blk) run.no_io_timeout in
      rw
        (create_files, w.inprogress_line, update_disk, w.entry, w.success_line, ← render-append a d)
        (passwd-whole blk.auth_mode c s attrs (a ++ d) refl
          ∙ hosts-whole c s attrs attrs' f refl r k)
