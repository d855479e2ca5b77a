-- ===== src/Create/Whole.antt =====
-- A create for which everything goes well (`block_create_cli_1_svc_st`, rpc/block_create.c).
use gluster_block.Prelude.{
  ℕ, ◌+◌, ◌<◌, ◌≤◌, ◌≡◌, ◌∙◌, refl, ap, Bool, true, false, none, some, List, [], ◌∷◌, All, All-map,
  is_zero, arith, length, take, get_elem?, ltb,
}
use gluster_block.Text.{Text}
use gluster_block.Text.Decimal.{size_max}
use gluster_block.Meta.{ok, blank_info, parse_rs_status}
use gluster_block.Meta.Lines.{IsHost}
use gluster_block.Meta.Journal.{journal}
use gluster_block.Meta.Read.{get_meta_info}
use gluster_block.Meta.File.{get_meta_info-appended}
use gluster_block.Delete.{Disk}
use gluster_block.Prio.{Attrs, attr_name, inc_prio_attr, get_prio_path}
use gluster_block.Prio.Counters.{IsCount, IsCounting, balance, count_call, inc, inc-Counts}
use gluster_block.Prio.Least.{get_prio_path_least, All-get}
use gluster_block.Create.Success.{create-lines}
use gluster_block.Create.Hosts.{block_server_parse, block_server_parse_lem}
use gluster_block.Create.Cli.{
  CreateCli, CreateRun, stored, create_locked, inprogress_lines, success_lines, create_threads,
  create_files, create_cli,
}
use gluster_block.Create.Header.{IsRequest, created_lines, created_info}
use gluster_block.Create.Lines.{created-IsFile}
use gluster_block.Create.Steps.{
  AreHosts, GoesWell, create_entries, whole, All-take, All-every, files-whole,
}

length-created_lines :
    (blk : CreateCli) (no_io_timeout : Bool) (gbid path pw : Text)
    → length (created_lines blk no_io_timeout gbid path pw) ≤ 11
unfolding inprogress_lines success_lines
length-created_lines blk no_io_timeout gbid path pw = ground arith

-- The files before a create.
abbrev pub no_files : Disk
no_files = record { meta = none; block_file = false }

cli-whole :
    (run : CreateRun) (blk : CreateCli) (hosts : List Text) (path : Text) (attrs attrs' : Attrs)
    → AreHosts blk hosts
    → GoesWell run blk hosts
    → IsRequest (stored run blk)
    → IsHost path
    → 11 + length (create_entries run blk hosts) < run.reads
    → get_prio_path true attrs hosts 255 [] ≡ ok path
    → inc_prio_attr true path attrs ≡ ok attrs'
    → create_cli run blk no_files attrs ≡ ok (whole run blk hosts path attrs')
unfolding create_cli create_locked
cli-whole run blk hosts [] attrs attrs' h w b i r p k = absurd (i.nonempty refl)
cli-whole run blk hosts (c ∷ s) attrs attrs' h w b i r p k =
    let l : ltb (length hosts) blk.mpath ≡ false = ground (arith, h.enough) in
    let e : block_server_parse blk.block_hosts ≡ hosts =
      ap block_server_parse h.text ∙ (block_server_parse_lem hosts h.nonempty h.commas).0 in
    let z : is_zero run.caps ≡ true = rw w.caps refl in
    let few = length-created_lines (stored run blk) run.no_io_timeout run.gbid (c ∷ s) run.passwd in
    let files =
      files-whole run blk hosts h w b c s attrs attrs' (record { text = i.text; fits = i.fits })
        (omega (arith, few, r)) (rw w.settable k) in
    let reached : create_locked run blk hosts no_files attrs
        ≡ create_files run blk hosts (c ∷ s) no_files attrs =
      rw (create_locked, w.free, w.load_balance, w.opened, p) refl in
    let locked = reached ∙ files in
    rw (create_cli, e) (rw locked (rw (l, z, w.entered, w.unlock) refl))

-- For distinct hosts, written with a comma between any two, at least as many as the paths that are asked
-- for, with counters that hold numbers and can be raised, and a request whose values fit (the number of paths
-- below 2^31, the other counts below 2^32, the size, which is that of the storage file if one is named, below
-- 2^64): if nothing goes wrong, the threads take turns in any way and the reads are enough, then the create ends with 0 and both
-- files are there. It is counted for a host of the list with the fewest blocks, and the counters of all
-- hosts with another attribute stay; and the metadata file is read back to the values of the request, with that size, and
-- to the nodes that the lines of the threads make.
pub create_cli_succeeds :
    (run : CreateRun) (blk : CreateCli) (hosts : List Text) (attrs : Attrs)
    → AreHosts blk hosts
    → GoesWell run blk hosts
    → IsRequest (stored run blk)
    → IsCounting attrs
    → ((a : Text) → balance attrs a < size_max)
    → 11 + length (create_entries run blk hosts) < run.reads
    → (i : ℕ) × (path : Text) × (attrs' : Attrs) × (get_elem? hosts i ≡ some path)
      × All (λ k. balance attrs path ≤ balance attrs k) hosts
      × (create_cli run blk no_files attrs ≡ ok (whole run blk hosts path attrs'))
      × ((a : Text) → balance attrs' a ≡ count_call (inc path) (balance attrs) a)
      × (get_meta_info (whole run blk hosts path attrs').disk.meta run.reads run.buffer blank_info
          ≡ ok (
              parse_rs_status
                (record (created_info (stored run blk) run.no_io_timeout run.gbid path run.passwd) {
                  nodes = journal (create_entries run blk hosts) [];
                })))
create_cli_succeeds run blk hosts attrs h w b c small r =
    let counts = All-every (λ k. IsCount (attrs (attr_name k))) (λ k. c (attr_name k)) hosts in
    let fits = All-map (λ k q. (q, omega (arith, q))) hosts h.short in
    let (i, path, p, g, least) = get_prio_path_least attrs hosts 255 [] h.nonempty counts fits in
    let host = All-get IsHost hosts i path h.addresses g in
    let (attrs', k, (n, bal)) =
      inc-Counts path attrs (attrs (attr_name path)) refl (c (attr_name path)) c (small path) in
    let few = length-created_lines (stored run blk) run.no_io_timeout run.gbid path run.passwd in
    let f =
      created-IsFile (stored run blk) run.no_io_timeout run.gbid path run.passwd b w.gbid
        (record { text = host.text; fits = host.fits }) w.passwd in
    let (v, l) =
      create-lines blk.auth_mode run.answers (take blk.mpath hosts) (create_entries run blk hosts)
        (All-take IsHost blk.mpath hosts h.addresses)
        (w.schedule (create_threads blk run.answers hosts)) in
    (
      i,
      path,
      attrs',
      g,
      least,
      cli-whole run blk hosts path attrs attrs' h w b host r p k,
      bal,
      get_meta_info-appended (create_entries run blk hosts) run.reads run.buffer f v
          (omega (arith, few, r)),
    )
