-- ===== src/Tests/Resizing.antt =====
-- A block on two hosts is resized (rpc/block_modify.c).
use gluster_block.Prelude.{
  none, ◌+◌, ◌≡◌, refl, true, false, none, some, [], arith, pos, minus_one, length, map, select,
}
use gluster_block.Text.{first_token, after_char, before_char, str_cpy, str_eq}
use gluster_block.Text.Decimal.{scan_zu, format_zu}
use gluster_block.Enums.Key.{key_parse}
use gluster_block.Enums.Status.{status_parse}
use gluster_block.Meta.{
  MetaInfo, Outcome, ok, fail, crash, blank_info, stuff_meta_info, record_status, parse_rs_status,
  parse_rs_node, rs_nodes,
}
use gluster_block.Meta.Read.{get_meta_info, line_token, read_into, render}
use gluster_block.Meta.Servers.{get_list_from_info, blockhost_is_valid}
use gluster_block.Remote.{updated, call_then, finish, modify_size_remote, take_reply, update_then}
use gluster_block.Remote.Collect.{any_failed, collect_attempt_success, is_attempt, listed}
use gluster_block.Resize.{
  ResizeRun, Resized, resize_start, resize_args_fill, is_skipped, resize_remote_async,
  is_failed_status, is_resize_failed, resize_hosts, is_unaligned, is_refused, resize_checks,
  resize_cli, resize_locked, resize_exit,
}
use gluster_block.Resize.Fill.{is_resized, entry_of, resize_args_fill_lem}
use gluster_block.Resize.Exit.{AllResized, lines_of_resize, resize_cli-Resized}
use gluster_block.Resize.Reread.{resize_cli_settles}
use gluster_block.Tests.Auth.{both, both_raw, both-IsFile, in_turn-IsSchedule}
use gluster_block.Tests.Deletion.{in_turn}
use gluster_block.Tests.Hosts.{deleted}

abbrev run : ResizeRun
run = record {
  entered = pos 0;
  unlock = none;
  access = pos 0;
  reads = 9;
  buffer = [];
  caps = pos 0;
  resized = pos 0;
  size_line = updated;
  answers = λ h. deleted;
  schedule = in_turn;
  reads_again = 20;
  buffer_again = [];
}

abbrev outcome : Outcome Resized → Resized
outcome (ok m) = m
outcome fail = resize_start []
outcome crash = resize_start []

abbrev ended_run : Resized
ended_run = outcome (resize_cli run false 4096 (render both))

run-ok : resize_cli run false 4096 (render both) ≡ ok ended_run
unfolding resize_cli resize_locked resize_checks is_unaligned is_refused is_failed_status
    is_resize_failed resize_hosts resize_args_fill is_skipped resize_remote_async get_meta_info
    render line_token read_into stuff_meta_info first_token after_char get_list_from_info
    parse_rs_status key_parse record_status str_cpy format_zu blockhost_is_valid status_parse
    scan_zu any_failed collect_attempt_success is_attempt call_then finish modify_size_remote
    take_reply update_then in_turn parse_rs_node rs_nodes before_char str_eq
run-ok = refl

run-exit : resize_exit ended_run ≡ pos 0
unfolding resize_exit resize_cli resize_locked resize_checks is_unaligned is_refused
    is_failed_status is_resize_failed resize_hosts resize_args_fill is_skipped resize_remote_async
    get_meta_info render line_token read_into stuff_meta_info first_token after_char
    get_list_from_info parse_rs_status key_parse record_status str_cpy format_zu blockhost_is_valid
    status_parse scan_zu any_failed collect_attempt_success is_attempt call_then finish
    modify_size_remote take_reply update_then in_turn parse_rs_node rs_nodes before_char str_eq
run-exit = refl

run-lines : length (lines_of_resize run 4096 (parse_rs_status both_raw)) ≡ 4
unfolding parse_rs_status is_skipped blockhost_is_valid status_parse parse_rs_node rs_nodes
    before_char after_char modify_size_remote call_then finish take_reply update_then in_turn
run-lines = refl

resize_args_fill_lem_example :
    (resize_args_fill true 4096 both_raw none ≡ record {
      args = select (λ n. is_resized true 4096 0 n.status) both_raw.nodes;
      skipped =
          listed (map entry_of (select (λ n. is_skipped true 4096 0 n.status) both_raw.nodes));
    })
    × (length (resize_args_fill true 4096 both_raw none).args
          + length (select (λ n. is_skipped true 4096 0 n.status) both_raw.nodes)
        ≡ length (resize_args_fill false 4096 both_raw none).args)
resize_args_fill_lem_example = resize_args_fill_lem 4096 both_raw

resize_cli-Resized_example :
    (pos 0 ≡ pos 0)
    × (is_unaligned 4096 (parse_rs_status both_raw) ≡ false)
    × (is_refused false 4096 (parse_rs_status both_raw) ≡ false)
    × (pos 0 ≡ pos 0)
    × (pos 0 ≡ pos 0)
    × AllResized run 4096 (parse_rs_status both_raw) (render both) ended_run
resize_cli-Resized_example =
    resize_cli-Resized run false 4096 ended_run both-IsFile (omega arith) run-ok run-exit

resize_cli_settles_example :
    (info : MetaInfo) × (get_meta_info (some ended_run.file) 9 [] blank_info ≡ ok info)
    × (info.size ≡ 4096)
    × (is_resize_failed info.nodes ≡ false)
    × (resize_cli run false 4096 ended_run.file
        ≡ ok (record (resize_start ended_run.file) { err_code = minus_one }))
resize_cli_settles_example =
    resize_cli_settles run run false 4096 ended_run both-IsFile (omega arith) in_turn-IsSchedule
      (omega arith) (rw run-lines (omega arith)) refl refl run-ok run-exit
