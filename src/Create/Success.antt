-- ===== src/Create/Success.antt =====
-- A create whose hosts all answer passes its audit (`glusterBlockCreateRemote`, `glusterBlockAuditRequest`,
-- rpc/block_create.c).
use gluster_block.Prelude.{
  ℕ, ◌+◌, ◌<◌, ◌≡◌, ◌∙◌, refl, ap, Bool, true, false, Option, some, List, [], ◌∷◌, map, arith,
  if◌then◌else◌, All, length, count_if, pos, ◌==◌, ==_iff,
}
use gluster_block.Text.{Text, str_eq, after_char}
use gluster_block.Text.Laws.{str_eq_refl}
use gluster_block.Enums.Status
use gluster_block.Enums.Status.{MetaStatus, status_name, status_parse}
use gluster_block.Meta.{NodeInfo, MetaInfo, ok, rs_nodes, parse_rs_node, parse_rs_status}
use gluster_block.Meta.Nodes.{status_of}
use gluster_block.Meta.Lines.{IsHost}
use gluster_block.Meta.Journal.{
  Entry, IsEntry, entry_line, last_status, journal, status_of-journal, journal-Distinct,
}
use gluster_block.Meta.Merge.{
  Thread, Merges, IsOwn, DistinctHosts, Settles, Merges-Settles, Merges-All,
}
use gluster_block.Meta.Read.{render}
use gluster_block.Meta.File.{IsFile, get_meta_info-appended, status_name-IsStatusText}
use gluster_block.Remote.{Script, create_remote}
use gluster_block.Remote.Laws.{create_remote-About, create_remote-Writes}
use gluster_block.Delete.{DeleteResp, Answers, append_text}
use gluster_block.Prelude.{count-map, count-ext, All-unmap, All-left, All-right}
use gluster_block.Meta.Shown.{shown, status-parse_rs_node, rs_nodes-map}
use gluster_block.Delete.Safety.{disk_of}
use gluster_block.Create.{is_success, success_count, audit_request}
use gluster_block.Create.Audit.{IsConfigured}
use gluster_block.Create.Count.{listed, NoRepeat, IsPassed, count-hosts, journal-listed}

abbrev pub create_thread : Bool → (Text → Script) → Text → Thread
create_thread auth answers h = record {
  host = h;
  writes = (create_remote auth h (answers h)).writes;
}

-- The last status of a host that is configured.
abbrev pub done_name : Bool → Text
done_name auth = status_name (if auth then Status.auth_enforced else Status.config_success)

done-success : (auth : Bool) → is_success (shown (done_name auth)) ≡ true
unfolding is_success shown after_char status_parse
done-success true = refl
done-success false = refl

pub configured-last :
    (auth : Bool) (answers : Text → Script) (h : Text) (old : Option Text)
    → IsConfigured auth answers h
    → last_status h (create_remote auth h (answers h)).writes old ≡ some (done_name auth)
unfolding create_remote last_status
configured-last auth answers h old c =
    let (p, q, u, t) = c in ground (arith, p, q, u, t, str_eq_refl h)

module _ (auth : Bool) (answers : Text → Script) where
  threads-IsOwn : (hosts : List Text) → All IsOwn (map (create_thread auth answers) hosts)
  threads-IsOwn [] = tt
  threads-IsOwn (h ∷ hs) = ((create_remote-About h (answers h) auth).at, threads-IsOwn hs)

  threads-apart :
      (h : Text) (hosts : List Text)
      → All (λ k. str_eq k h ≡ false) hosts
      → All (λ u. str_eq u.host h ≡ false) (map (create_thread auth answers) hosts)
  threads-apart h [] n = tt
  threads-apart h (k ∷ hs) n = (n.0, threads-apart h hs n.1)

  threads-DistinctHosts :
      (hosts : List Text) → NoRepeat hosts → DistinctHosts (map (create_thread auth answers) hosts)
  threads-DistinctHosts [] n = tt
  threads-DistinctHosts (h ∷ hs) n = (threads-apart h hs n.0, threads-DistinctHosts hs n.1)

  threads-writes :
      (all hosts : List Text)
      → All IsHost hosts
      → All (λ h. listed h all ≡ true) hosts
      → All
          (λ t. All (λ e. IsEntry e × (listed e.host all ≡ true)) t.writes)
          (map (create_thread auth answers) hosts)
  threads-writes all [] i l = tt
  threads-writes all (h ∷ hs) i l = (
    (create_remote-Writes {P = λ e. IsEntry e × (listed e.host all ≡ true)} auth h (answers h)
        (λ st. (record { host = i.0; status = status_name-IsStatusText st }, l.0))).at,
    threads-writes all hs i.1 l.1,
  )

listed-more :
    (k : Text) (ks hs : List Text)
    → All (λ h. listed h ks ≡ true) hs
    → All (λ h. listed h (k ∷ ks) ≡ true) hs
unfolding listed
listed-more k ks [] a = tt
listed-more k ks (h ∷ hs) a = (ground (arith, a.0), listed-more k ks hs a.1)

all-listed : (hs : List Text) → All (λ h. listed h hs ≡ true) hs
unfolding listed
all-listed [] = tt
all-listed (h ∷ hs) = (ground (arith, str_eq_refl h), listed-more h hs hs (all-listed hs))

all-IsPassed :
    (auth : Bool) (answers : Text → Script) (hosts : List Text) (es : List Entry)
    → All IsEntry es
    → All (IsConfigured auth answers) hosts
    → All (λ h. Settles es (create_thread auth answers h)) hosts
    → All (IsPassed (λ t. is_success (shown t)) (journal es [])) hosts
all-IsPassed auth answers [] es v c s = tt
all-IsPassed auth answers (h ∷ hs) es v c s = (
  (
    done_name auth,
    status_of-journal h es [] v
        ∙ s.0 (status_of h [])
        ∙ configured-last auth answers h (status_of h []) c.0,
    done-success auth,
  ),
  all-IsPassed auth answers hs es v c.1 s.1,
)

shown-count :
    (ns : List NodeInfo)
    → success_count (rs_nodes ns) ≡ count_if (λ n. is_success (shown n.status)) ns
unfolding success_count
shown-count ns = rw (rs_nodes-map ns) (
    count-map (λ n. is_success n.status) parse_rs_node ns
    ∙ count-ext _ (λ n. is_success (shown n.status)) ns
        (λ n. ap is_success (status-parse_rs_node n)))

-- The lines of the threads are accepted by the reader and are about the hosts.
pub create-lines :
    (auth : Bool) (answers : Text → Script) (hosts : List Text) (es : List Entry)
    → All IsHost hosts
    → Merges (map (create_thread auth answers) hosts) es
    → All IsEntry es × All (λ e. listed e.host hosts ≡ true) es
create-lines auth answers hosts es i m =
    let w =
      Merges-All (λ e. IsEntry e × (listed e.host hosts ≡ true)) m
        (threads-writes auth answers hosts hosts i (all-listed hosts)) in
    (
      All-left IsEntry (λ e. listed e.host hosts ≡ true) es w,
      All-right IsEntry (λ e. listed e.host hosts ≡ true) es w,
    )

-- If the file has no host yet, the hosts are distinct, each answers 0 and all lines are written, then however
-- the lines of the threads interleave, and with enough reads that succeed, the audit for that many hosts
-- returns 0 and leaves the files as the threads left them.
pub audit-configured :
    {ls : List Text} {raw : MetaInfo} (auth : Bool) (answers : Text → Script) (hosts : List Text)
    (es : List Entry) (a : Answers) (reads : ℕ) (buf : Text) (resp : DeleteResp)
    → IsFile ls raw
    → raw.nodes ≡ []
    → All IsHost hosts
    → NoRepeat hosts
    → All (IsConfigured auth answers) hosts
    → Merges (map (create_thread auth answers) hosts) es
    → length ls + length es < reads
    → audit_request a reads buf
        (length hosts)
        (append_text (render (map entry_line es)) (disk_of ls))
        resp
      ≡ ok (record {
        ret = pos 0;
        disk = append_text (render (map entry_line es)) (disk_of ls);
        resp = resp;
      })
unfolding audit_request parse_rs_status
audit-configured {ls} {raw} auth answers hosts es a reads buf resp f z i n c m r =
    let (v, l) = create-lines auth answers hosts es i m in
    let s = All-unmap (Settles es) (create_thread auth answers) hosts (
      Merges-Settles m (threads-IsOwn auth answers hosts)
        (threads-DistinctHosts auth answers hosts n)) in
    let counted : success_count (rs_nodes (journal es [])) ≡ length hosts =
      shown-count (journal es [])
      ∙ count-hosts (λ t. is_success (shown t)) hosts (journal es []) n
          (journal-Distinct es [] v tt) (journal-listed hosts es [] v l tt)
          (all-IsPassed auth answers hosts es v c s) in
    let same : length hosts == success_count (rs_nodes (journal es raw.nodes)) ≡ true =
      rw (z, counted) ((==_iff (length hosts) (length hosts)).1 refl) in
    rw (audit_request, get_meta_info-appended es reads buf f v r, same) refl
