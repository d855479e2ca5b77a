-- ===== src/Tests/Deletion.antt =====
-- A delete of the block of the sample file: one host is to be cleaned (rpc/block_delete.c).
use gluster_block.Prelude.{
  ◌+◌, ◌<◌, ◌≡◌, ◌≢◌, ◌↔◌, ◌⊎◌, refl, true, false, none, List, [], ◌∷◌, ◌++◌, map, All, arith, pos,
  length, is_zero,
}
use gluster_block.Enums.Status
use gluster_block.Enums.Status.{status_name, status_parse}
use gluster_block.Text.{after_char, str_cpy}
use gluster_block.Enums.Status.{status_parse}
use gluster_block.Remote.{delete_remote}
use gluster_block.Delete.{is_clean, is_not_found}
use gluster_block.Meta.{parse_rs_node, record_status, rs_nodes, ok}
use gluster_block.Meta.Journal.{Entry, journal}
use gluster_block.Meta.Merge.{Thread, done, first, Merges, nobody, joined}
use gluster_block.Remote.{updated}
use gluster_block.Delete.{
  unlinked, denied, Answers, DeleteResp, Cleaned, clean_up, delete_files, delete_fill_args,
  cleanup_count, done_of,
}
use gluster_block.Delete.Files.{delete_files_iff}
use gluster_block.Delete.Gone.{IsGone, counted-AllGone}
use gluster_block.Delete.Safety.{threads_of, lines_of, disk_of, disk_kept, clean_up_safe}
use gluster_block.Tests.Sample.{h1, lines, raw, raw-Distinct, h1-IsHost, h2-IsHost, lines-IsFile}
use gluster_block.Tests.Hosts.{deleted}

-- With one thread there is one way to interleave.
unfoldable pub in_turn : List Thread → List Entry
in_turn [] = []
in_turn (t ∷ ts) = t.writes ++ in_turn ts

abbrev pub answers : Answers
answers = record {
  threads = λ h. deleted;
  schedule = in_turn;
  reads = 4;
  buffer = [];
  reads_again = 6;
  buffer_again = [];
  doing = updated;
  unlink_entry = unlinked;
  failed = updated;
  succeeded = updated;
  unlink_meta = unlinked;
}

abbrev pub no_resp : DeleteResp
no_resp = record { d_attempt = none; d_success = none }

abbrev thread_h1 : Thread
thread_h1 = record {
  host = h1;
  writes =
      record { host = h1; status = status_name Status.cleanup_inprogress }
      ∷ record { host = h1; status = status_name Status.cleanup_success }
      ∷ [];
}

threads : threads_of answers raw ≡ thread_h1 ∷ []
unfolding delete_fill_args rs_nodes is_clean status_parse parse_rs_node after_char delete_remote
threads = refl

pub one_thread : Merges (threads_of answers raw) (lines_of answers raw)
unfolding in_turn
one_thread = rw threads (
    joined thread_h1
      (first (record { host = h1; status = status_name Status.cleanup_inprogress })
        (first (record { host = h1; status = status_name Status.cleanup_success }) done))
      nobody)

pub few_lines : length lines + length (lines_of answers raw) < 6
unfolding in_turn
few_lines = rw threads (omega arith)

clean_up_safe_example :
    (c : Cleaned) × (clean_up answers false true (disk_of lines) no_resp ≡ ok c)
    × (All (IsGone (λ h. deleted)) raw.nodes
        ⊎ (is_zero c.ret ≡ false) × (c.disk ≡ disk_kept answers lines raw))
clean_up_safe_example =
    clean_up_safe answers true no_resp lines-IsFile one_thread (omega arith) few_lines

delete_files_iff_example : ((delete_files answers true (disk_of lines)).0 ≡ pos 0) ↔ (
    (updated ≡ updated)
    × ((true ≡ false) ⊎ (unlinked ≢ denied))
    × (updated ≡ updated)
    × (unlinked ≡ unlinked))
delete_files_iff_example = delete_files_iff answers true (disk_of lines)

all_counted :
    cleanup_count
      (map (done_of (λ h. deleted)) (delete_fill_args (rs_nodes raw.nodes)))
      (rs_nodes (journal (lines_of answers raw) raw.nodes))
    ≡ length (rs_nodes raw.nodes)
unfolding cleanup_count delete_fill_args in_turn journal rs_nodes is_clean status_parse
    parse_rs_node after_char is_not_found delete_remote record_status str_cpy
all_counted = refl

counted-AllGone_example : All (IsGone (λ h. deleted)) raw.nodes
counted-AllGone_example =
    counted-AllGone (λ h. deleted) raw.nodes raw-Distinct (h1-IsHost, (h2-IsHost, tt)) one_thread
      all_counted
