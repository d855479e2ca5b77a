-- ===== src/Delete/Gone.antt =====
-- What the count behind the threads of a delete shows about the hosts
-- (`glusterBlockDeleteRemoteAsync`, rpc/block_delete.c).
use gluster_block.Prelude.{
  ◌+◌, ◌≡◌, ◌∙◌, refl, ap, Bool, true, false, not, ◌&&◌, ◌||◌, ◌⊎◌, some, List, map, arith, All,
  All-map, Bool-cases, inl, inr, length, count_if, pos, int_eq,
}
use gluster_block.Text.{Text}
use gluster_block.Meta.{NodeInfo, parse_rs_node, rs_nodes}
use gluster_block.Meta.Nodes.{Distinct}
use gluster_block.Meta.Lines.{IsHost}
use gluster_block.Meta.Journal.{Entry, IsEntry, last_status, journal}
use gluster_block.Meta.Merge.{Merges, Settles}
use gluster_block.Meta.Restamp.{touch_all, journal-touch_all, status-touch_all}
use gluster_block.Remote.{Script, delete_remote}
use gluster_block.Remote.Laws.{delete_remote-status}
use gluster_block.Remote.Collect.{block_not_found}
use gluster_block.Delete.{
  is_clean, is_not_found, done_of, delete_fill_args, thread_of, cleanup_count,
}
use gluster_block.Delete.Count.{count-map-select, counts-cover}
use gluster_block.Delete.Async.{looks_clean, not_found-dirty, clean-answered, not_found-answered}
use gluster_block.Delete.Threads.{is_dirty, delete_writes, settled, lines-known}
use gluster_block.Remote.Fleet.{crew}
use gluster_block.Meta.Shown.{
  shown, status-parse_rs_node, addr-parse_rs_node, rs_nodes-map, length-rs_nodes,
}
use gluster_block.Prelude.{All-both, count-map, count-ext}

-- Nothing of the block is left on the host: it had nothing to delete, it answered that it has
-- deleted it, or it answered that it does not know the block.
abbrev pub IsGone : (Text → Script) → NodeInfo → Type 0
IsGone answers n =
    (is_clean (shown n.status) ≡ true)
    ⊎ ((answers n.addr).rpc.ret ≡ pos 0)
    ⊎ ((answers n.addr).rpc.ret ≡ block_not_found)

-- The two counts, as tests on a node as it stands in the file.
abbrev counted_thread : (Text → Script) → NodeInfo → Bool
counted_thread answers n =
    not (is_clean (shown n.status))
    && int_eq (delete_remote n.addr (answers n.addr)).exit block_not_found

abbrev counted_node : List Entry → NodeInfo → Bool
counted_node es n = looks_clean (last_status n.addr es (some n.status))

module _ (answers : Text → Script) (es : List Entry) (n : NodeInfo) where
  -- How a node ends whose lines are its thread's.
  dirty-status :
      Settles es (crew is_dirty (delete_writes answers) n)
      → is_clean (shown n.status) ≡ false
      → last_status n.addr es (some n.status)
        ≡ last_status n.addr (delete_remote n.addr (answers n.addr)).writes (some n.status)
  dirty-status s d = s (some n.status) ∙ (rw d refl)

  counted_once :
      Settles es (crew is_dirty (delete_writes answers) n)
      → counted_thread answers n && counted_node es n ≡ false
  counted_once s = elim (Bool-cases (is_clean (shown n.status))) [
    | inl c ↦ rw c refl
    | inr d ↦
        rw (dirty-status s d, delete_remote-status n.addr (answers n.addr) (some n.status))
          (ground (arith, d, not_found-dirty n.addr (answers n.addr) n.status d))
  ]

  counted-IsGone :
      Settles es (crew is_dirty (delete_writes answers) n)
      → counted_thread answers n || counted_node es n ≡ true
      → IsGone answers n
  counted-IsGone s c = elim (Bool-cases (is_clean (shown n.status))) [
    | inl c ↦ inl c
    | inr d ↦ elim (Bool-cases (counted_thread answers n)) [
      | inl t ↦ inr (inr (not_found-answered n.addr (answers n.addr) (ground (arith, d, t))))
      | inr t ↦
          let e : looks_clean (last_status n.addr es (some n.status)) ≡ true =
            ground (arith, c, t) in
          let e' =
            rw (dirty-status s d, delete_remote-status n.addr (answers n.addr) (some n.status)) at
              e in
          inr (inl (clean-answered (answers n.addr) n.status d e'))
    ]
  ]

threads-count :
    (answers : Text → Script) (ns : List NodeInfo)
    → count_if is_not_found (map (done_of answers) (delete_fill_args (rs_nodes ns)))
      ≡ count_if (counted_thread answers) ns
unfolding delete_fill_args is_not_found
threads-count answers ns = rw (rs_nodes-map ns) (
    count-map-select is_not_found (done_of answers) (λ n. not (is_clean n.status))
      (map parse_rs_node ns)
    ∙ count-map (λ n. not (is_clean n.status) && is_not_found (done_of answers n)) parse_rs_node ns
    ∙ count-ext _ (counted_thread answers) ns
        (λ n. rw (status-parse_rs_node n, addr-parse_rs_node n) refl))

nodes-count :
    (es : List Entry) (ns : List NodeInfo)
    → All IsEntry es
    → count_if (λ n. is_clean n.status) (rs_nodes (map (touch_all es) ns))
      ≡ count_if (counted_node es) ns
nodes-count es ns v = rw (rs_nodes-map (map (touch_all es) ns)) (
    count-map (λ n. is_clean n.status) parse_rs_node (map (touch_all es) ns)
    ∙ count-map (λ n. is_clean (parse_rs_node n).status) (touch_all es) ns
    ∙ count-ext _ (counted_node es) ns (λ n.
      ap is_clean (status-parse_rs_node (touch_all es n))
      ∙ ap looks_clean (status-touch_all es n v)))

-- For nodes with distinct addresses that can stand in the file, and lines of the threads that interleave
-- in any way: if the count behind the threads reaches the number of nodes, then each host had nothing to
-- delete, or answered that it deleted the block, or that it does not know it.
pub counted-AllGone :
    (answers : Text → Script) (ns : List NodeInfo) {es : List Entry}
    → Distinct ns
    → All (λ n. IsHost n.addr) ns
    → Merges (map (thread_of answers) (delete_fill_args (rs_nodes ns))) es
    → cleanup_count
        (map (done_of answers) (delete_fill_args (rs_nodes ns)))
        (rs_nodes (journal es ns))
      ≡ length (rs_nodes ns)
    → All (IsGone answers) ns
unfolding cleanup_count
counted-AllGone answers ns {es} d h m c =
    let (v, k) = lines-known answers ns h m in
    let s = settled answers ns d m in
    let all : count_if (counted_thread answers) ns + count_if (counted_node es) ns ≡ length ns =
      rw
        (
          journal-touch_all es ns d k,
          threads-count answers ns,
          nodes-count es ns v,
          length-rs_nodes ns,
        )
        at c in
    All-both (λ n p q. counted-IsGone answers es n p q) ns s
      (counts-cover (counted_thread answers) (counted_node es) ns
        (All-map (λ n p. counted_once answers es n p) ns s) all)
