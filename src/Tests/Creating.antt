-- ===== src/Tests/Creating.antt =====
-- A block is created on two hosts (rpc/block_create.c).
use gluster_block.Prelude.{
  ℕ, ◌≤◌, ◌≡◌, refl, true, false, some, none, List, [], ◌∷◌, All, arith, pos, length, get_elem?,
  inl,
}
use gluster_block.Text.{Text, codes, str_eq}
use gluster_block.Meta.{ok, blank_info, parse_rs_status}
use gluster_block.Meta.Read.{get_meta_info}
use gluster_block.Meta.Journal.{journal}
use gluster_block.Remote.{updated, create_remote, update_then, call_then, finish, take_reply}
use gluster_block.Prio.{Attrs}
use gluster_block.Prio.Counters.{balance, count_call, inc}
use gluster_block.Create.Cli.{CreateCli, CreateRun, made, stored, create_cli}
use gluster_block.Create.Header.{IsRequest, created_info}
use gluster_block.Create.Hosts.{
  joined_hosts, block_server_parse, server_count, block_server_parse_lem,
}
use gluster_block.Create.Steps.{AreHosts, GoesWell, create_entries, whole}
use gluster_block.Create.Whole.{no_files, create_cli_succeeds}
use gluster_block.Tests.Sample.{h1, h2, h1-IsHost, h2-IsHost}
use gluster_block.Tests.Deletion.{answers, in_turn}
use gluster_block.Tests.Auth.{in_turn-IsSchedule}
use gluster_block.Tests.Hosts.{deleted}
use gluster_block.Tests.Priorities.{no_blocks}

abbrev hosts : List Text
hosts = h1 ∷ h2 ∷ []

abbrev request : CreateCli
request = record {
  volume = codes "vol";
  size = 1048576;
  rb_size = 0;
  blk_size = 0;
  io_timeout = 43;
  mpath = 2;
  auth_mode = false;
  storage = codes "image";
  block_hosts = codes "h1,h2";
}

abbrev run : CreateRun
run = record {
  caps = pos 0;
  entered = pos 0;
  unlock = none;
  st_size = 8192;
  no_load_balance = false;
  no_io_timeout = false;
  exists = false;
  opened = true;
  settable = true;
  gbid = codes "id";
  passwd = [];
  inprogress_line = updated;
  entry = made;
  success_line = updated;
  passwd_line = updated;
  answers = λ h. deleted;
  schedule = in_turn;
  audit = answers;
  reads = 20;
  buffer = [];
}

request-AreHosts : AreHosts request hosts
unfolding str_eq
request-AreHosts = record {
  text = refl;
  nonempty = λ p. cc;
  enough = omega arith;
  commas = (omega arith, (omega arith, tt));
  addresses = (h1-IsHost, (h2-IsHost, tt));
  short = (omega arith, (omega arith, tt));
  distinct = ((refl, tt), (tt, tt));
}

run-GoesWell : GoesWell run request hosts
run-GoesWell = record {
  caps = refl;
  entered = refl;
  unlock = refl;
  load_balance = refl;
  free = refl;
  opened = refl;
  settable = refl;
  gbid = record {
    text = record { no_newline = omega arith; no_null = omega arith };
    fits = omega arith;
  };
  passwd = record { text = record { no_newline = tt; no_null = tt }; fits = omega arith };
  inprogress_line = refl;
  entry = refl;
  success_line = refl;
  passwd_line = refl;
  configured = ((refl, refl, refl, inl refl), ((refl, refl, refl, inl refl), tt));
  schedule = in_turn-IsSchedule;
}

request-IsRequest : IsRequest (stored run request)
request-IsRequest = record {
  volume = record {
    text = record { no_newline = omega arith; no_null = omega arith };
    fits = omega arith;
  };
  size = omega arith;
  rb_size = omega arith;
  blk_size = omega arith;
  io_timeout = omega arith;
  mpath = omega arith;
}

run-entries : length (create_entries run request hosts) ≡ 4
unfolding in_turn create_remote update_then call_then finish take_reply
run-entries = refl

create_cli_succeeds_example :
    (i : ℕ) × (path : Text) × (attrs' : Attrs) × (get_elem? hosts i ≡ some path)
    × All (λ k. balance no_blocks path ≤ balance no_blocks k) hosts
    × (create_cli run request no_files no_blocks ≡ ok (whole run request hosts path attrs'))
    × ((a : Text) → balance attrs' a ≡ count_call (inc path) (balance no_blocks) a)
    × (get_meta_info (whole run request hosts path attrs').disk.meta 20 [] blank_info
        ≡ ok (
            parse_rs_status (record (created_info (stored run request) false (codes "id") path []) {
              nodes = journal (create_entries run request hosts) [];
            })))
create_cli_succeeds_example =
    create_cli_succeeds run request hosts no_blocks request-AreHosts run-GoesWell request-IsRequest
      (λ a. tt) (λ a. omega arith) (rw run-entries (omega arith))

block_server_parse_lem_example :
    (block_server_parse (joined_hosts (h1 ∷ h2 ∷ [])) ≡ h1 ∷ h2 ∷ [])
    × (length (h1 ∷ h2 ∷ []) ≡ server_count (joined_hosts (h1 ∷ h2 ∷ [])))
block_server_parse_lem_example =
    block_server_parse_lem (h1 ∷ h2 ∷ []) (λ p. cc) (omega arith, (omega arith, tt))
