-- ===== src/Tests/Deleting.antt =====
-- A block on one host, which it is counted for, is deleted (rpc/block_delete.c).
use gluster_block.Prelude.{
  none, ◌≤◌, ◌≡◌, refl, true, false, List, [], ◌∷◌, All, arith, pos, length,
}
use gluster_block.Text.{Text, codes, first_token, after_char, before_char, str_cpy, str_eq}
use gluster_block.Text.Decimal.{size_max, scan_zu, format_zu}
use gluster_block.Enums.Key.{key_parse}
use gluster_block.Enums.Status.{status_parse}
use gluster_block.Meta.{
  MetaInfo, Outcome, ok, fail, crash, blank_info, stuff_meta_info, record_status, parse_rs_status,
  parse_rs_node, rs_nodes,
}
use gluster_block.Meta.Lines.{stuff_lines}
use gluster_block.Meta.Read.{get_meta_info, line_token, read_into, render}
use gluster_block.Meta.File.{IsFile}
use gluster_block.Meta.Servers.{get_list_from_info, blockhost_is_valid}
use gluster_block.Remote.{call_then, finish, delete_remote, take_reply, update_then}
use gluster_block.Remote.Collect.{collect_attempt_success, is_attempt}
use gluster_block.Prio.{attr_name, set_count, dec_prio_attr}
use gluster_block.Prio.Counters.{IsCounting, balance, set_count-IsCounting, balance-set_count}
use gluster_block.Delete.{
  is_clean, is_not_found, cleanup_count, collect_into, clean_up, conclude, run_threads,
  after_threads, delete_files, delete_remote_async, delete_fill_args, write_meta, delete_entry,
  delete_meta_file,
}
use gluster_block.Delete.Gone.{IsGone}
use gluster_block.Delete.Safety.{threads_of, lines_of, disk_of}
use gluster_block.Delete.Cli.{
  DeleteRun, Deleted, delete_stop, delete_counter, delete_clean_up, delete_checks, delete_locked,
  delete_cli,
}
use gluster_block.Delete.Counted.{Released, delete_cli-Counted}
use gluster_block.Tests.Sample.{h1, h1-IsHost}
use gluster_block.Tests.Deletion.{answers, in_turn}
use gluster_block.Tests.Auth.{in_turn-IsSchedule}
use gluster_block.Tests.Priorities.{no_blocks, three}

abbrev one : List Text
one = codes "HA: 1" ∷ codes "PRIOPATH: h1" ∷ codes "h1: CONFIGSUCCESS" ∷ []

abbrev one_raw : MetaInfo
one_raw = record blank_info {
  mpath = 1;
  prio_path = h1;
  nodes =
      record {
        addr = h1;
        st_journal = codes "CONFIGSUCCESS" ∷ [];
        status = codes "CONFIGSUCCESS";
        size = pos 0;
      }
      ∷ [];
}

one-parsed : stuff_lines one blank_info ≡ ok one_raw
unfolding stuff_lines stuff_meta_info first_token after_char key_parse scan_zu record_status str_cpy
one-parsed = refl

one-IsFile : IsFile one one_raw
one-IsFile = record {
  lines = (
    record { nonempty = λ p. cc; text = omega arith; short = omega arith },
    (
      record { nonempty = λ p. cc; text = omega arith; short = omega arith },
      (record { nonempty = λ p. cc; text = omega arith; short = omega arith }, tt),
    ),
  );
  parsed = one-parsed;
  distinct = (tt, tt);
  hosts = (h1-IsHost, tt);
}

abbrev run : DeleteRun
run = record {
  entered = pos 0;
  unlock = none;
  access = pos 0;
  reads = 9;
  buffer = [];
  caps = pos 0;
  settable = true;
  cleanup = answers;
}

abbrev outcome : Outcome Deleted → Deleted
outcome (ok d) = d
outcome fail = delete_stop (pos 1) (disk_of []) no_blocks
outcome crash = delete_stop (pos 1) (disk_of []) no_blocks

abbrev ended_run : Deleted
ended_run = outcome (delete_cli run false true (disk_of one) three)

run-ok : delete_cli run false true (disk_of one) three ≡ ok ended_run
unfolding delete_cli delete_locked get_meta_info render line_token read_into stuff_meta_info
    first_token after_char delete_checks get_list_from_info parse_rs_status key_parse record_status
    blockhost_is_valid status_parse str_cpy scan_zu delete_clean_up delete_counter after_threads
    clean_up cleanup_count collect_into conclude delete_entry delete_files delete_fill_args
    delete_meta_file delete_remote_async is_clean is_not_found run_threads write_meta parse_rs_node
    rs_nodes attr_name dec_prio_attr set_count collect_attempt_success is_attempt call_then
    delete_remote finish take_reply update_then format_zu before_char str_eq in_turn
run-ok = refl

three-IsCounting : IsCounting three
three-IsCounting = set_count-IsCounting h1 3 no_blocks (omega arith) (λ a. tt)

three-small : (a : Text) → balance three a ≤ size_max
three-small a = ground (arith, balance-set_count h1 3 no_blocks a (omega arith))

run-lines : length (lines_of answers one_raw) ≡ 2
unfolding in_turn delete_fill_args rs_nodes is_clean status_parse parse_rs_node after_char
    delete_remote
run-lines = refl

delete_cli-Counted_example :
    Released none (All (IsGone answers.threads) one_raw.nodes) h1 three ended_run
delete_cli-Counted_example =
    delete_cli-Counted run true three ended_run refl three-IsCounting three-small one-IsFile
      (in_turn-IsSchedule (threads_of answers one_raw)) (omega arith) (omega arith)
      (rw run-lines (omega arith)) run-ok
