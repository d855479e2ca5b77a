-- ===== src/Remote/Fleet.antt =====
-- The threads of one operation, one for each node that it picks, over the nodes as they stand in the
-- file: what each host's status is when the file is read anew (rpc/block_delete.c, rpc/block_modify.c).
use gluster_block.Prelude.{
  ◌≡◌, true, false, Bool, List, [], ◌∷◌, map, arith, if◌then◌else◌, All, All-unmap, All-left,
  All-right, Bool-cases, inl, inr, select,
}
use gluster_block.Text.{Text, str_eq}
use gluster_block.Text.Laws.{str_eq_refl}
use gluster_block.Meta.{NodeInfo, rs_nodes}
use gluster_block.Meta.Nodes.{Absent, Distinct}
use gluster_block.Meta.Shown.{shown, status-parse_rs_node, addr-parse_rs_node}
use gluster_block.Meta.Lines.{IsHost}
use gluster_block.Meta.Journal.{Entry, IsEntry}
use gluster_block.Meta.Merge.{
  Thread, Merges, joined, IsOwn, DistinctHosts, Settles, Merges-Settles, Merges-All, idle,
}
use gluster_block.Meta.Restamp.{has}

rest-Merges :
    {t : Thread} {ts us : List Thread} {rs : List Entry}
    → ((zs : List Entry) → Merges ts zs → Merges us zs)
    → Merges (t ∷ ts) rs
    → Merges (t ∷ us) rs
rest-Merges f (joined {zs = zs} t j ms) = joined t j (f zs ms)

known-more :
    (k : NodeInfo) (ms ns : List NodeInfo)
    → All (λ n. has n.addr ms ≡ true) ns
    → All (λ n. has n.addr (k ∷ ms) ≡ true) ns
unfolding has
known-more k ms [] h = tt
known-more k ms (n ∷ ns) h = (ground (arith, h.0), known-more k ms ns h.1)

pub known : (ns : List NodeInfo) → All (λ n. has n.addr ns ≡ true) ns
unfolding has
known [] = tt
known (n ∷ ns) = (ground (arith, str_eq_refl n.addr), known-more n ns ns (known ns))

has-writes :
    (a : Text) (ms : List NodeInfo) (es : List Entry)
    → has a ms ≡ true
    → All (λ e. e.host ≡ a) es
    → All IsEntry es
    → All (λ e. IsEntry e × (has e.host ms ≡ true)) es
has-writes a ms [] k own v = tt
has-writes a ms (e ∷ es) k own v = ((v.0, rw own.0 k), has-writes a ms es k own.1 v.1)

-- The operation picks nodes by their status, and a thread writes the lines for its host.
module _ (picked : Text → Bool) (writes : Text → List Entry) where
  abbrev pub fleet : List NodeInfo → List Thread
  fleet ns =
      map (λ (n : NodeInfo). record { host = n.addr; writes = writes n.addr })
        (select (λ (n : NodeInfo). picked n.status) (rs_nodes ns))

  -- What is written about a node: nothing if it is not picked.
  abbrev pub crew : NodeInfo → Thread
  crew n = record { host = n.addr; writes = if picked (shown n.status) then writes n.addr else [] }

  -- The lines of the threads are the lines of all nodes.
  extend : (ns : List NodeInfo) {es : List Entry} → Merges (fleet ns) es → Merges (map crew ns) es
  unfolding rs_nodes
  extend [] m = m
  extend (n ∷ ns) {es} m = elim (Bool-cases (picked (shown n.status))) [
    | inl c ↦
        let m' : Merges (record { host = n.addr; writes = writes n.addr } ∷ fleet ns) es =
          rw (status-parse_rs_node n, c, addr-parse_rs_node n) at m in
        rw c (rest-Merges (λ zs k. extend ns k) m')
    | inr c ↦
        let m' : Merges (fleet ns) es = rw (status-parse_rs_node n, c) at m in
        joined (crew n) (rw c (idle es)) (extend ns m')
  ]

  crew-apart :
      (a : Text) (ns : List NodeInfo)
      → Absent a ns
      → All (λ u. str_eq u.host a ≡ false) (map crew ns)
  crew-apart a [] h = tt
  crew-apart a (n ∷ ns) h = (h.0, crew-apart a ns h.1)

  crew-DistinctHosts : (ns : List NodeInfo) → Distinct ns → DistinctHosts (map crew ns)
  crew-DistinctHosts [] d = tt
  crew-DistinctHosts (n ∷ ns) d = (crew-apart n.addr ns d.0, crew-DistinctHosts ns d.1)

  -- Each thread writes about its own host.
  module _ (own : (h : Text) → All (λ e. e.host ≡ h) (writes h)) where
    crew-IsOwn : (ns : List NodeInfo) → All IsOwn (map crew ns)
    crew-IsOwn [] = tt
    crew-IsOwn (n ∷ ns) = (
      elim (Bool-cases (picked (shown n.status))) [ inl c ↦ rw c (own n.addr) | inr c ↦ rw c tt ],
      crew-IsOwn ns,
    )

    -- Each node ends as its own lines say.
    pub fleet-Settles :
        (ns : List NodeInfo) {es : List Entry}
        → Distinct ns
        → Merges (fleet ns) es
        → All (λ n. Settles es (crew n)) ns
    fleet-Settles ns {es} d m =
        All-unmap (Settles es) crew ns
          (Merges-Settles (extend ns m) (crew-IsOwn ns) (crew-DistinctHosts ns d))

    crew-writes :
        (ms ns : List NodeInfo)
        → All (λ n. IsHost n.addr) ns
        → All (λ n. has n.addr ms ≡ true) ns
        → ((h : Text) → IsHost h → All IsEntry (writes h))
        → All (λ t. All (λ e. IsEntry e × (has e.host ms ≡ true)) t.writes) (map crew ns)
    crew-writes ms [] h k v = tt
    crew-writes ms (n ∷ ns) h k v = (
      elim (Bool-cases (picked (shown n.status))) [
        | inl c ↦ rw c (has-writes n.addr ms (writes n.addr) k.0 (own n.addr) (v n.addr h.0))
        | inr c ↦ rw c tt
      ],
      crew-writes ms ns h.1 k.1 v,
    )

    -- Every line of the threads is about a host of the file, and the reader accepts it.
    pub fleet_lines :
        (ns : List NodeInfo) {es : List Entry}
        → All (λ n. IsHost n.addr) ns
        → ((h : Text) → IsHost h → All IsEntry (writes h))
        → Merges (fleet ns) es
        → All IsEntry es × All (λ e. has e.host ns ≡ true) es
    fleet_lines ns {es} h v m =
        let all =
          Merges-All (λ e. IsEntry e × (has e.host ns ≡ true)) (extend ns m)
            (crew-writes ns ns h (known ns) v) in
        (
          All-left IsEntry (λ e. has e.host ns ≡ true) es all,
          All-right IsEntry (λ e. has e.host ns ≡ true) es all,
        )
