-- ===== src/Remote/Reread.antt =====
-- The metadata file read anew when the threads of one operation have ended (rpc/block_modify.c,
-- rpc/glfs-operations.c).
use gluster_block.Prelude.{
  ◌≡◌, ◌∙◌, refl, Bool, true, false, some, List, [], ◌∷◌, ◌++◌, map, All, Bool-cases, inl, inr,
  select, arith,
}
use gluster_block.Text.{Text}
use gluster_block.Meta.{NodeInfo, MetaInfo, rs_nodes}
use gluster_block.Meta.Shown.{shown, status-parse_rs_node, addr-parse_rs_node}
use gluster_block.Meta.Lines.{IsHost}
use gluster_block.Meta.Journal.{Entry, IsEntry, entry_line, last_status}
use gluster_block.Meta.Merge.{Merges, Settles}
use gluster_block.Meta.Restamp.{
  touch_all, journal-touch_all, status-touch_all, addr-touch_all, Distinct-touch_all,
}
use gluster_block.Meta.File.{IsFile, IsFile-lines}
use gluster_block.Remote.Fleet.{fleet, crew, fleet-Settles, fleet_lines}

-- What the file says when the lines are at its end.
abbrev pub ended : List Entry → MetaInfo → MetaInfo
ended es raw = record raw { nodes = map (touch_all es) raw.nodes }

pub hosts-touch_all :
    (es : List Entry) (ns : List NodeInfo)
    → All (λ n. IsHost n.addr) ns
    → All (λ n. IsHost n.addr) (map (touch_all es) ns)
hosts-touch_all es [] h = tt
hosts-touch_all es (n ∷ ns) h = (rw (addr-touch_all es n) h.0, hosts-touch_all es ns h.1)

-- Whether the test finds a node in the file that is read anew.
select-none :
    (q : Text → Bool) (es : List Entry) (ns : List NodeInfo)
    → All (λ n. q (shown (touch_all es n).status) ≡ false) ns
    → select (λ (n : NodeInfo). q n.status) (rs_nodes (map (touch_all es) ns)) ≡ []
unfolding rs_nodes
select-none q es [] h = refl
select-none q es (n ∷ ns) h =
    rw (status-parse_rs_node (touch_all es n), h.0, select-none q es ns h.1) refl

module _ (picked : Text → Bool) (writes : Text → List Entry) where
  quiet_node :
      (q : Text → Bool) (final : Text) (es : List Entry) (n : NodeInfo)
      → ((s : Text) → picked s ≡ false → q s ≡ false)
      → q (shown final) ≡ false
      → All IsEntry es
      → Settles es (crew picked writes n)
      → (picked (shown n.status) ≡ true
          → (old : _) → last_status n.addr (writes n.addr) old ≡ some final)
      → q (shown (touch_all es n).status) ≡ false
  unfolding last_status
  quiet_node q final es n kept good_final v s d = elim (Bool-cases (picked (shown n.status))) [
    | inl c ↦
        let e : some (touch_all es n).status ≡ some final =
          status-touch_all es n v ∙ s (some n.status) ∙ (rw c (d c (some n.status))) in
        let e' : (touch_all es n).status ≡ final = ground (arith, e) in rw e' good_final
    | inr c ↦
        let e : some (touch_all es n).status ≡ some n.status =
          status-touch_all es n v ∙ s (some n.status) ∙ (rw c refl) in
        let e' : (touch_all es n).status ≡ n.status = ground (arith, e) in
        rw e' (kept (shown n.status) c)
  ]

  quiet :
      (q : Text → Bool) (final : Text) (es : List Entry) (ns : List NodeInfo)
      → ((s : Text) → picked s ≡ false → q s ≡ false)
      → q (shown final) ≡ false
      → All IsEntry es
      → All (λ n. Settles es (crew picked writes n)) ns
      → All
          (λ (n : NodeInfo). (old : _) → last_status n.addr (writes n.addr) old ≡ some final)
          (select (λ (n : NodeInfo). picked n.status) (rs_nodes ns))
      → All (λ n. q (shown (touch_all es n).status) ≡ false) ns
  unfolding rs_nodes
  quiet q final es [] kept good_final v s d = tt
  quiet q final es (n ∷ ns) kept good_final v s d = elim (Bool-cases (picked (shown n.status))) [
    | inl c ↦
        let d' = rw (status-parse_rs_node n, c) at d in
        let k = rw (addr-parse_rs_node n) at d'.0 in
        (
          quiet_node q final es n kept good_final v s.0 (λ c'. k),
          quiet q final es ns kept good_final v s.1 d'.1,
        )
    | inr c ↦
        let d' = rw (status-parse_rs_node n, c) at d in
        (
          quiet_node q final es n kept good_final v s.0 (λ c'. absurd (ground (arith, c, c'))),
          quiet q final es ns kept good_final v s.1 d',
        )
  ]

module _ (picked : Text → Bool) (writes : Text → List Entry)
    (own : (h : Text) → All (λ e. e.host ≡ h) (writes h))
    (good : (h : Text) → IsHost h → All IsEntry (writes h)) where
  -- The file with the lines of the threads is a file again.
  pub ended-IsFile :
      {ls : List Text} {raw : MetaInfo} {es : List Entry}
      → IsFile ls raw
      → Merges (fleet picked writes raw.nodes) es
      → IsFile (ls ++ map entry_line es) (ended es raw)
  ended-IsFile {ls} {raw} {es} f m =
      let (v, k) = fleet_lines picked writes own raw.nodes f.hosts good m in
      IsFile-lines es f v (journal-touch_all es raw.nodes f.distinct k)
        (Distinct-touch_all es raw.nodes f.distinct) (hosts-touch_all es raw.nodes f.hosts)

  -- A node that was picked ends with the status that its thread leaves, the others keep theirs.
  pub ended-none :
      (q : Text → Bool) (final : Text) {ls : List Text} {raw : MetaInfo} {es : List Entry}
      → ((s : Text) → picked s ≡ false → q s ≡ false)
      → q (shown final) ≡ false
      → IsFile ls raw
      → Merges (fleet picked writes raw.nodes) es
      → All
          (λ (n : NodeInfo). (old : _) → last_status n.addr (writes n.addr) old ≡ some final)
          (select (λ (n : NodeInfo). picked n.status) (rs_nodes raw.nodes))
      → select (λ (n : NodeInfo). q n.status) (rs_nodes (map (touch_all es) raw.nodes)) ≡ []
  ended-none q final {raw} {es} kept good_final f m d =
      let (v, k) = fleet_lines picked writes own raw.nodes f.hosts good m in
      select-none q es raw.nodes (
        quiet picked writes q final es raw.nodes kept good_final v
          (fleet-Settles picked writes own raw.nodes f.distinct m) d)
