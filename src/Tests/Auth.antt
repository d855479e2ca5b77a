-- ===== src/Tests/Auth.antt =====
-- The authentication of a block on two hosts is switched (rpc/block_modify.c).
use gluster_block.Prelude.{
  none, ◌≡◌, refl, true, false, List, [], ◌∷◌, ◌++◌, arith, pos, length, if◌then◌else◌,
}
use gluster_block.Text.{Text, codes, first_token, after_char, str_cpy, str_eq}
use gluster_block.Enums.Key.{key_parse}
use gluster_block.Text.Decimal.{scan_zu}
use gluster_block.Text.{before_char}
use gluster_block.Enums.Status.{status_parse}
use gluster_block.Meta.{record_status, parse_rs_status, parse_rs_node, rs_nodes}
use gluster_block.Meta.Read.{get_meta_info, line_token, read_into}
use gluster_block.Meta.Servers.{get_list_from_info, blockhost_is_valid}
use gluster_block.Modify.{
  modify_password, is_filled, modify_args_fill, modify_remote_async, modify_threads, modify_undo,
  undo_threads, update_file, modify_checks, modify_exit, modify_start,
}
use gluster_block.Remote.Collect.{any_failed, collect_attempt_success, is_attempt}
use gluster_block.Remote.{call_then, finish, modify_remote, take_reply, update_then}
use gluster_block.Meta.{MetaInfo, ok, stuff_meta_info, blank_info, Outcome, fail, crash}
use gluster_block.Meta.Lines.{stuff_lines}
use gluster_block.Meta.Read.{render}
use gluster_block.Meta.File.{IsFile}
use gluster_block.Meta.Merge.{IsSchedule, Merge, nobody, joined, first, idle}
use gluster_block.Meta.Journal.{Entry}
use gluster_block.Remote.{updated}
use gluster_block.Modify.{ModifyRun, Modified, modify_cli, modify_locked}
use gluster_block.Modify.Reread.{modify_cli_settles, IsQuiet, thread_entries}
use gluster_block.Modify.Undone.{undo_entries, modify_cli_undone}
use gluster_block.Modify.Exit.{Switched, modify_cli-Switched}
use gluster_block.Modify.Reach.{password_lines}
use gluster_block.Modify.Password.{IsPassword}
use gluster_block.Remote.Reread.{ended}
use gluster_block.Meta.Restamp.{touch_all}
use gluster_block.Tests.Sample.{h1, h2, h1-IsHost, h2-IsHost}
use gluster_block.Tests.Deletion.{in_turn}
use gluster_block.Tests.Hosts.{deleted, unknown}

abbrev pub both : List Text
both = codes "HA: 2" ∷ codes "h1: CONFIGSUCCESS" ∷ codes "h2: CONFIGSUCCESS" ∷ []

abbrev pub both_raw : MetaInfo
both_raw = record blank_info {
  mpath = 2;
  nodes =
      record {
        addr = h1;
        st_journal = codes "CONFIGSUCCESS" ∷ [];
        status = codes "CONFIGSUCCESS";
        size = pos 0;
      }
      ∷ record {
        addr = h2;
        st_journal = codes "CONFIGSUCCESS" ∷ [];
        status = codes "CONFIGSUCCESS";
        size = pos 0;
      }
      ∷ [];
}

both-parsed : stuff_lines both blank_info ≡ ok both_raw
unfolding stuff_lines stuff_meta_info first_token after_char key_parse scan_zu record_status str_cpy
both-parsed = refl

pub both-IsFile : IsFile both both_raw
unfolding str_eq
both-IsFile = record {
  lines = (
    record { nonempty = λ p. cc; text = omega arith; short = omega arith },
    (
      record { nonempty = λ p. cc; text = omega arith; short = omega arith },
      (record { nonempty = λ p. cc; text = omega arith; short = omega arith }, tt),
    ),
  );
  parsed = both-parsed;
  distinct = ((refl, tt), (tt, tt));
  hosts = (h1-IsHost, (h2-IsHost, tt));
}

append-Merge : (xs ys : List Entry) → Merge xs ys (xs ++ ys)
append-Merge [] ys = idle ys
append-Merge (e ∷ xs) ys = first e (append-Merge xs ys)

pub in_turn-IsSchedule : IsSchedule in_turn
unfolding in_turn
in_turn-IsSchedule [] = nobody
in_turn-IsSchedule (t ∷ ts) = joined t (append-Merge t.writes (in_turn ts)) (in_turn-IsSchedule ts)

abbrev run : ModifyRun
run = record {
  entered = pos 0;
  unlock = none;
  access = pos 0;
  reads = 9;
  buffer = [];
  caps = pos 0;
  uuid = codes "secret";
  password = updated;
  answers = λ h. deleted;
  schedule = in_turn;
  clear_password = updated;
  reads_again = 20;
  buffer_again = [];
  undo_answers = λ h. deleted;
  undo_schedule = in_turn;
}

-- The second host fails.
abbrev failing_run : ModifyRun
failing_run = record run { answers = λ h. if str_eq h h2 then unknown else deleted }

abbrev outcome : Outcome Modified → Modified
outcome (ok m) = m
outcome fail = modify_start []
outcome crash = modify_start []

abbrev ended_run : Modified
ended_run = outcome (modify_cli run true (render both))

run-ok : modify_cli run true (render both) ≡ ok ended_run
unfolding modify_cli modify_locked get_meta_info render line_token read_into stuff_meta_info
    first_token after_char modify_checks get_list_from_info parse_rs_status key_parse record_status
    str_cpy blockhost_is_valid status_parse scan_zu modify_password is_filled modify_args_fill
    modify_remote_async modify_threads modify_undo undo_threads update_file any_failed
    collect_attempt_success is_attempt call_then finish modify_remote take_reply update_then in_turn
    parse_rs_node rs_nodes before_char str_eq
run-ok = refl

run-exit : modify_exit ended_run ≡ pos 0
unfolding modify_exit modify_cli modify_locked get_meta_info render line_token read_into
    stuff_meta_info first_token after_char modify_checks get_list_from_info parse_rs_status
    key_parse record_status str_cpy blockhost_is_valid status_parse scan_zu modify_password
    is_filled modify_args_fill modify_remote_async modify_threads modify_undo undo_threads
    update_file any_failed collect_attempt_success is_attempt call_then finish modify_remote
    take_reply update_then in_turn parse_rs_node rs_nodes before_char str_eq
run-exit = refl

secret-IsPassword : IsPassword (codes "secret")
secret-IsPassword = record {
  text = record { no_newline = omega arith; no_null = omega arith };
  fits = omega arith;
}

run-entries : length (thread_entries run true both_raw) ≡ 4
unfolding modify_args_fill is_filled status_parse parse_rs_node rs_nodes before_char after_char
    modify_remote call_then finish take_reply update_then in_turn
run-entries = refl

modify_cli_settles_example : IsQuiet true (codes "secret") ended_run.file 9 []
modify_cli_settles_example =
    modify_cli_settles run true ended_run 9 [] both-IsFile secret-IsPassword in_turn-IsSchedule
      (omega arith) (rw run-entries (omega arith)) run-ok run-exit

modify_cli-Switched_example :
    (pos 0 ≡ pos 0)
    × (pos 0 ≡ pos 0)
    × Switched run true
        (parse_rs_status both_raw)
        (render both ++ render (password_lines true (codes "secret") []))
        ended_run
modify_cli-Switched_example =
    modify_cli-Switched run true ended_run both-IsFile (omega arith) run-ok run-exit

abbrev failed_run : Modified
failed_run = outcome (modify_cli failing_run true (render both))

failed_run-ok : modify_cli failing_run true (render both) ≡ ok failed_run
unfolding modify_cli modify_locked get_meta_info render line_token read_into stuff_meta_info
    first_token after_char modify_checks get_list_from_info parse_rs_status key_parse record_status
    str_cpy blockhost_is_valid status_parse scan_zu modify_password is_filled modify_args_fill
    modify_remote_async modify_threads modify_undo undo_threads update_file any_failed
    collect_attempt_success is_attempt call_then finish modify_remote take_reply update_then in_turn
    parse_rs_node rs_nodes before_char str_eq
failed_run-ok = refl

failed_run-rollback : failed_run.rollback ≡ true
unfolding modify_cli modify_locked get_meta_info render line_token read_into stuff_meta_info
    first_token after_char modify_checks get_list_from_info parse_rs_status key_parse record_status
    str_cpy blockhost_is_valid status_parse scan_zu modify_password is_filled modify_args_fill
    modify_remote_async modify_threads modify_undo undo_threads update_file any_failed
    collect_attempt_success is_attempt call_then finish modify_remote take_reply update_then in_turn
    parse_rs_node rs_nodes before_char str_eq
failed_run-rollback = refl

failed_run-err_code : failed_run.err_code ≡ pos 0
unfolding modify_cli modify_locked get_meta_info render line_token read_into stuff_meta_info
    first_token after_char modify_checks get_list_from_info parse_rs_status key_parse record_status
    str_cpy blockhost_is_valid status_parse scan_zu modify_password is_filled modify_args_fill
    modify_remote_async modify_threads modify_undo undo_threads update_file any_failed
    collect_attempt_success is_attempt call_then finish modify_remote take_reply update_then in_turn
    parse_rs_node rs_nodes before_char str_eq
failed_run-err_code = refl

failed-entries : length (thread_entries failing_run true both_raw) ≡ 4
unfolding modify_args_fill is_filled status_parse parse_rs_node rs_nodes before_char after_char
    modify_remote call_then finish take_reply update_then in_turn str_eq
failed-entries = refl

undo-entries :
    length (
      undo_entries failing_run true
        (ended (thread_entries failing_run true both_raw) both_raw).nodes)
    ≡ 2
unfolding modify_args_fill is_filled status_parse parse_rs_node rs_nodes before_char after_char
    modify_remote call_then finish take_reply update_then in_turn str_eq touch_all str_cpy
undo-entries = refl

modify_cli_undone_example : IsQuiet false [] failed_run.file 14 []
modify_cli_undone_example =
    modify_cli_undone failing_run failed_run 14 [] both-IsFile secret-IsPassword in_turn-IsSchedule
      in_turn-IsSchedule (omega arith) (rw failed-entries (omega arith))
      (rw (failed-entries, undo-entries) (omega arith)) failed_run-ok failed_run-rollback
      failed_run-err_code
