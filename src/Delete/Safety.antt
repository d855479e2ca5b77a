-- ===== src/Delete/Safety.antt =====
-- When `glusterBlockCleanUp` (rpc/block_delete.c) removes the files of a block.
use gluster_block.Prelude.{
  ◌+◌, ◌<◌, ◌≡◌, refl, Bool, true, false, ◌⊎◌, some, List, [], ◌∷◌, ◌++◌, map, arith, All,
  Bool-cases, inl, inr, length, ◌==◌, ==_iff, ℤ, pos, minus_one, is_zero,
}
use gluster_block.Text.{Text}
use gluster_block.Meta.{NodeInfo, MetaInfo, ok, rs_nodes, parse_rs_status}
use gluster_block.Meta.Journal.{Entry, entry_line, journal}
use gluster_block.Meta.Merge.{Merges, Thread}
use gluster_block.Meta.Read.{render}
use gluster_block.Meta.File.{IsFile, get_meta_info-IsFile, get_meta_info-appended}
use gluster_block.Remote.{Script}
use gluster_block.Delete.{
  is_clean, done_of, delete_fill_args, thread_of, cleanup_count, DeleteResp, Disk, Answers,
  delete_remote_async, collect_into, run_threads, after_threads, conclude, clean_up, Cleaned,
}
use gluster_block.Meta.Shown.{shown, status-parse_rs_node}
use gluster_block.Delete.Threads.{lines-known}
use gluster_block.Delete.Gone.{IsGone, counted-AllGone}

-- The threads of the delete of a block with the metadata, and the lines that they write.
abbrev pub threads_of : Answers → MetaInfo → List Thread
threads_of a raw = map (thread_of a.threads) (delete_fill_args (rs_nodes raw.nodes))

abbrev pub lines_of : Answers → MetaInfo → List Entry
lines_of a raw = a.schedule (threads_of a raw)

-- The files before the delete, and after it if only the threads have written.
abbrev pub disk_of : List Text → Disk
disk_of ls = record { meta = some (render ls); block_file = true }

abbrev pub disk_kept : Answers → List Text → MetaInfo → Disk
disk_kept a ls raw = record {
  meta = some (render ls ++ render (map entry_line (lines_of a raw)));
  block_file = true;
}

all-clean :
    (answers : Text → Script) (ns : List NodeInfo)
    → length (delete_fill_args (rs_nodes ns)) == 0 ≡ true
    → All (IsGone answers) ns
unfolding delete_fill_args rs_nodes
all-clean answers [] h = tt
all-clean answers (n ∷ ns) h = elim (Bool-cases (is_clean (shown n.status))) [
  | inl c ↦
      let h' : length (delete_fill_args (rs_nodes ns)) == 0 ≡ true =
        rw (status-parse_rs_node n, c) at h in
      (inl c, all-clean answers ns h')
  | inr c ↦ absurd (ground (arith, c, status-parse_rs_node n, h))
]

-- How the threads end.
run_threads-safe :
    {ls : List Text} {raw : MetaInfo} (a : Answers) (resp : DeleteResp)
    → IsFile ls raw
    → Merges (threads_of a raw) (lines_of a raw)
    → length ls + length (lines_of a raw) < a.reads_again
    → (r : ℤ) × (resp' : DeleteResp) × (d : Disk) × (run_threads a
          (parse_rs_status raw)
          (disk_of ls)
          resp
        ≡ ok (r, resp', d))
      × (All (IsGone a.threads) raw.nodes ⊎ (is_zero r ≡ false) × (d ≡ disk_kept a ls raw))
unfolding run_threads after_threads parse_rs_status delete_remote_async
run_threads-safe {ls} {raw} a resp f m r =
    let (v, k) = lines-known a.threads raw.nodes f.hosts m in
    let args = map (done_of a.threads) (delete_fill_args (rs_nodes raw.nodes)) in
    let new = rs_nodes (journal (lines_of a raw) raw.nodes) in
    elim (Bool-cases (length (delete_fill_args (rs_nodes raw.nodes)) == 0)) [
      | inl e ↦ (pos 0, resp, disk_of ls, rw e refl, inl (all-clean a.threads raw.nodes e))
      | inr e ↦
          rw (e, get_meta_info-appended (lines_of a raw) a.reads_again a.buffer_again f v r)
            (elim (Bool-cases (cleanup_count args new == length (rs_nodes raw.nodes))) [
              | inl c ↦ (
                pos 0,
                collect_into args resp,
                disk_kept a ls raw,
                rw c refl,
                inl (counted-AllGone a.threads raw.nodes f.distinct f.hosts m ((==_iff _ _).0 c)),
              )
              | inr c ↦ (
                minus_one,
                collect_into args resp,
                disk_kept a ls raw,
                rw c refl,
                inr (refl, refl),
              )
            ])
    ]

-- A clean-up that is not forced, of a block whose file consists of short lines that are read to nodes with
-- distinct addresses, with threads whose lines interleave in any way and with enough reads that succeed,
-- ends without a crash. Either each host had nothing to delete, or answered that it deleted the block, or
-- that it does not know it; or the clean-up fails, the block file is still there, and the metadata file has
-- kept every line and gained those of the threads.
pub clean_up_safe :
    {ls : List Text} {raw : MetaInfo} (a : Answers) (unlink : Bool) (resp : DeleteResp)
    → IsFile ls raw
    → Merges (threads_of a raw) (lines_of a raw)
    → length ls < a.reads
    → length ls + length (lines_of a raw) < a.reads_again
    → (c : Cleaned) × (clean_up a false unlink (disk_of ls) resp ≡ ok c)
      × (All (IsGone a.threads) raw.nodes ⊎ (is_zero c.ret ≡ false) × (c.disk ≡ disk_kept a ls raw))
unfolding clean_up conclude
clean_up_safe {ls} {raw} a unlink resp f m r0 r =
    let (x, resp', d, e, s) = run_threads-safe a resp f m r in
    rw (clean_up, get_meta_info-IsFile a.reads a.buffer f r0, e)
      (elim s [
        | inl g ↦ (_, refl, inl g)
        | inr (z, k) ↦ (record { ret = x; disk = d; resp = resp' }, rw z refl, inr (z, k))
      ])
