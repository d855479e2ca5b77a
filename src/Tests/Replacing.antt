-- ===== src/Tests/Replacing.antt =====
-- A host of a block on two hosts is replaced (rpc/block_replace.c).
use gluster_block.Prelude.{
  inl, ◌≢◌, ◌+◌, ◌<◌, ◌≡◌, refl, true, false, not, none, some, List, [], ◌∷◌, ◌++◌, All, arith, pos,
  minus_one, length, select, is_zero, if◌then◌else◌,
}
use gluster_block.Text.{Text, codes, str_eq, after_char, before_char}
use gluster_block.Enums.Status
use gluster_block.Enums.Status.{status_parse}
use gluster_block.Enums.Key.{key_parse}
use gluster_block.Meta.{MetaInfo, ok, rs_nodes, parse_rs_node, parse_rs_status}
use gluster_block.Meta.Nodes.{status_of}
use gluster_block.Meta.Lines.{IsHost}
use gluster_block.Meta.Known.{known_as}
use gluster_block.Meta.Shown.{shown}
use gluster_block.Meta.Servers.{blockhost_is_valid}
use gluster_block.Meta.Read.{render}
use gluster_block.Meta.File.{IsFile}
use gluster_block.Meta.Valid.{HasColon, cut}
use gluster_block.Remote.{Script, updated}
use gluster_block.Remote.Laws.{IsGood}
use gluster_block.Remote.Collect.{behind}
use gluster_block.Replace.{
  ReplaceCli, ReplaceResp, unset, is_staying, replace_slots, collect_portals, in_use, is_taken,
}
use gluster_block.Replace.Slots.{staying, filled, commas, replace_slots_lem}
use gluster_block.Replace.Settled.{IsServing, IsReplaced}
use gluster_block.Replace.Cli.{ReplaceRun, ReplaceEnd, replace_cli, is_prio, replace_error}
use gluster_block.Replace.Response.{Object, json, plain, str, format_response}
use gluster_block.Replace.Verdict.{
  portals_done, last_exit, collect_portals_lem, format_response_verdicts,
}
use gluster_block.Replace.Whole.{IsSmooth, replace_cli_succeeds}
use gluster_block.Replace.Refused.{replace_cli_refused}
use gluster_block.Tests.Auth.{both, both_raw, both-IsFile, in_turn-IsSchedule}
use gluster_block.Tests.Deletion.{in_turn}
use gluster_block.Tests.Hosts.{deleted}
use gluster_block.Tests.Sample.{h1, h2}

abbrev h3 : Text
h3 = codes "h3"

h3-IsHost : IsHost h3
unfolding key_parse
h3-IsHost = record {
  nonempty = λ p. cc;
  no_colon = omega arith;
  no_space = omega arith;
  no_key = refl;
  fits = omega arith;
  text = omega arith;
}

abbrev cli : ReplaceCli
cli = record {
  block_name = codes "b";
  volume = codes "v";
  old_node = h1;
  new_node = h3;
  force = false;
}

abbrev run : ReplaceRun
run = record {
  entered = pos 0;
  entered_msg = none;
  unlock = none;
  access = pos 0;
  access_error = [];
  valid_reads = 9;
  valid_buffer = [];
  valid_errno = pos 5;
  caps = pos 0;
  caps_msg = none;
  reads = 9;
  buffer = [];
  answers = λ h. deleted;
  schedule = in_turn;
  cleanup_line = updated;
  prio_line = updated;
}

both-HasColon : All HasColon both
unfolding cut
both-HasColon = ((_, _, refl), ((_, _, refl), ((_, _, refl), tt)))

h2-stays : staying h1 (rs_nodes both_raw.nodes) ≡ h2 ∷ []
unfolding is_staying blockhost_is_valid status_parse str_eq rs_nodes parse_rs_node after_char
    before_char
h2-stays = refl

h1-known : known_as (status_of h1 both_raw.nodes) ≡ some Status.config_success
unfolding status_of shown status_parse str_eq after_char
h1-known = refl

both-IsServing : IsServing cli both_raw
unfolding str_eq
both-IsServing = record {
  new_host = h3-IsHost;
  fresh = (refl, (refl, tt));
  old_status = Status.config_success;
  old_known = h1-known;
  old_serves = refl;
  room = rw h2-stays (omega arith);
}

good : IsGood deleted
good = record { first = refl; ret = refl; second = refl; third = refl }

run-IsSmooth : IsSmooth run cli (staying h1 (rs_nodes both_raw.nodes))
run-IsSmooth = record {
  entered = refl;
  unlock = refl;
  access = refl;
  caps = refl;
  prio = refl;
  schedule = in_turn-IsSchedule;
  new_good = good;
  old_good = good;
  stay_good = rw h2-stays (good, tt);
}

replace_cli_succeeds_example :
    (m : ReplaceEnd) × (ls' : List Text) × (raw' : MetaInfo) × (replace_cli run cli (render both)
      ≡ ok m)
    × (m.err_code ≡ pos 0)
    × (m.err_msg ≡ none)
    × (m.file ≡ render ls')
    × IsFile ls' raw'
    × IsReplaced false cli (staying h1 (rs_nodes both_raw.nodes)) raw'.nodes
    × (raw'.prio_path ≡ (if is_prio (parse_rs_status both_raw) h1 then h3 else []))
unfolding parse_rs_status
replace_cli_succeeds_example =
    replace_cli_succeeds run cli both-IsFile both-IsServing run-IsSmooth both-HasColon (omega arith)
      (omega arith)

replace_slots_lem_example :
    (2 ≡ length (staying h1 both_raw.nodes) + 1
      → replace_slots cli both_raw
        ≡ some (
          (some h3 ∷ filled (staying h1 both_raw.nodes)) ++ some h1 ∷ [],
          h3 ++ commas (staying h1 both_raw.nodes),
        ))
    × (2 < length (staying h1 both_raw.nodes) → replace_slots cli both_raw ≡ none)
replace_slots_lem_example = replace_slots_lem cli both_raw

-- The portal on the first host fails, the one on the second is replaced.
abbrev half : Text → Script
half h =
    if str_eq h h1
    then record deleted { rpc = record { ret = pos 2; rpc_sent = true; reply = none } }
    else deleted

collect_portals_lem_example : collect_portals half (h1 ∷ h2 ∷ []) unset ≡ record {
  status = last_exit half (h1 ∷ h2 ∷ []) minus_one;
  attempt = behind none (select (λ d. not (is_zero d.exit)) (portals_done half (h1 ∷ h2 ∷ [])));
  success = behind none (select (λ d. is_zero d.exit) (portals_done half (h1 ∷ h2 ∷ [])));
  skipped = none;
}
collect_portals_lem_example = collect_portals_lem half (h1 ∷ h2 ∷ []) unset

-- The delete has failed.
abbrev stuck : ReplaceResp
stuck = record {
  status = pos 0;
  force = false;
  cop = record unset { status = pos 0; success = some h3 };
  dop = record unset { status = pos 2; attempt = some h1 };
  rop = record unset { status = pos 0; success = some h2 };
}

format_response_verdicts_example :
    ((front : Object) × (format_response true cli (pos 0) none (some stuck) ≡ record {
      exit = pos 0;
      out = json (front ++ (codes "RESULT", str (codes "SUCCESS")) ∷ []);
    }))
    × ((front : Text) × (format_response false cli (pos 0) none (some stuck) ≡ record {
      exit = pos 0;
      out = plain (front ++ (codes "RESULT: " ++ (codes "FAIL" ++ codes "\n\n")));
    }))
format_response_verdicts_example = format_response_verdicts cli (pos 0) stuck refl

-- The old node is not listed.
abbrev from_h3 : ReplaceCli
from_h3 = record cli { old_node = h3; new_node = h1 }

h3-unlisted : known_as (status_of h3 both_raw.nodes) ≡ none
unfolding status_of shown status_parse str_eq after_char
h3-unlisted = refl

both-stay : staying h3 (rs_nodes both_raw.nodes) ≡ h1 ∷ h2 ∷ []
unfolding is_staying blockhost_is_valid status_parse str_eq rs_nodes parse_rs_node after_char
    before_char
both-stay = refl

replace_cli_refused_example :
    (replace_cli run from_h3 (render both)
      ≡ ok (record {
        err_code = pos 223;
        err_msg = replace_error from_h3 (pos 223);
        reply = none;
        file = render both;
      }))
    × (replace_error from_h3 (pos 223) ≢ none)
replace_cli_refused_example =
    replace_cli_refused run from_h3 (pos 223) both-IsFile refl refl refl in_turn-IsSchedule
      both-HasColon (omega arith) (omega arith) (rw both-stay (omega arith))
      (inl (refl, h3-unlisted))

-- A new node that has been configured by a replace is taken.
h2-taken :
    is_taken (
      in_use h2
        (record { addr = h2; st_journal = []; status = codes "RPSUCCESS"; size = pos 0 } ∷ []))
    ≡ true
unfolding in_use str_eq blockhost_is_valid status_parse
h2-taken = refl
