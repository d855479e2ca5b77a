-- ===== src/Tests/Hosts.antt =====
-- The threads of two hosts and their capabilities (rpc/block_delete.c, rpc/block_version.c).
use gluster_block.Prelude.{
  arith, ◌≡◌, ◌↔◌, inl, inr, refl, true, false, not, none, some, List, [], ◌∷◌, map, All, ℤ, pos,
  select,
}
use gluster_block.Text.{str_eq, codes}
use gluster_block.Enums.Cap.{Cap}
use gluster_block.Meta.Journal.{last_status}
use gluster_block.Remote.{updated, Script, delete_remote}
use gluster_block.Text.Laws.{Lacks}
use gluster_block.Enums.Status
use gluster_block.Enums.Status.{status_name}
use gluster_block.Meta.{NodeInfo, parse_rs_node, status_size}
use gluster_block.Remote.{note_size}
use gluster_block.Remote.Sizes.{parse_rs_node-note_size}
use gluster_block.Remote.Laws.{delete_remote-status, delete_status}
use gluster_block.Remote.Collect.{
  Done, delete_srv, block_not_found, is_attempt, collect_attempt_success,
  collect_attempt_success_lem, listed,
}
use gluster_block.Caps.{
  scan_hosts, supports, CapSet, delete_req, build_min_caps, Peer, caps_resp_parse, unsupported,
}
use gluster_block.Caps.Check.{host_of, all_have}
use gluster_block.Caps.Lacking.{lacking, caps_collected}
use gluster_block.Caps.Ask.{
  VersionAnswer, check_capabilities, IsReached, offering, check_capabilities_iff,
}
use gluster_block.Text.{Text, str_cpy}
use gluster_block.Text.Decimal.{format_zu}
use gluster_block.Tests.Sample.{h1, h2}

-- The host does not know the block.
abbrev pub unknown : Script
unknown = record {
  first = updated;
  rpc = record { ret = block_not_found; rpc_sent = true; reply = none };
  errno = [];
  second = updated;
  third = updated;
}

-- The host deletes the block.
abbrev pub deleted : Script
deleted = record {
  first = updated;
  rpc = record { ret = pos 0; rpc_sent = true; reply = none };
  errno = [];
  second = updated;
  third = updated;
}

delete_remote-status_example :
    last_status h1 (delete_remote h1 unknown).writes none ≡ delete_status unknown none
delete_remote-status_example = delete_remote-status h1 unknown none

abbrev resized : NodeInfo
resized = record { addr = h1; st_journal = []; status = []; size = pos 0 }

no_dash : Lacks b'-' (status_name Status.rs_success)
no_dash = omega arith

parse_rs_node-note_size_example :
    parse_rs_node (record resized {
      status = str_cpy status_size (note_size h1 Status.rs_success 4096).status (codes "RSFAIL-1");
    })
    ≡ record resized { status = status_name Status.rs_success; size = pos 4096 }
unfolding format_zu
parse_rs_node-note_size_example =
    parse_rs_node-note_size resized Status.rs_success 4096 (codes "RSFAIL-1") no_dash (omega arith)
      (omega arith)

abbrev ends : List Done
ends = record { addr = h1; exit = block_not_found } ∷ record { addr = h2; exit = pos 255 } ∷ []

collect_attempt_success_lem_example : collect_attempt_success delete_srv ends ≡ record {
  attempt = listed (select (is_attempt delete_srv) ends);
  success = listed (select (λ a. not (is_attempt delete_srv a)) ends);
}
collect_attempt_success_lem_example = collect_attempt_success_lem delete_srv ends

-- RPC_PROCUNAVAIL of the ONC RPC library.
abbrev procunavail : ℤ
procunavail = pos 10

-- An old daemon and one that can delete only.
abbrev peers : List Peer
peers =
    record { addr = h1; exit = pos 10; reply = none }
    ∷ record {
      addr = h2;
      exit = pos 0;
      reply = some (record { cap = codes "delete"; status = true } ∷ []);
    }
    ∷ []

abbrev asked : CapSet
asked = build_min_caps (delete_req 1 0)

caps_collected_example :
    (s : CapSet) × ((caps_resp_parse procunavail peers asked (some (λ c. false))).result ≡ some s)
    × ((c : Cap) → s c ≡ lacking asked (map (host_of procunavail) peers) c)
    × (((caps_resp_parse procunavail peers asked (some (λ c. false))).ret ≡ pos 0)
        ↔ ((c : Cap) → lacking asked (map (host_of procunavail) peers) c ≡ false))
caps_collected_example =
    caps_collected procunavail peers asked (inl refl, (inr refl, tt)) ((_, refl), ((_, refl), tt))

-- The second host is sent a forced delete and lacks "delete_force".
caps_test :
    (caps_resp_parse procunavail peers asked none).err_msg ≡ some (unsupported Cap.delete_force h2)
unfolding caps_resp_parse build_min_caps scan_hosts supports str_eq
caps_test = refl

-- Both daemons are too old for the call.
abbrev old_daemons : Text → VersionAnswer
old_daemons h = record { ret = pos 10; rpc_sent = true; reply = none }

check_capabilities_iff_example :
    ((check_capabilities procunavail old_daemons
        (delete_req 1 0)
        (some (h1 ∷ h2 ∷ []))
        none).err_code
      ≡ pos 0)
    ↔ (All (IsReached procunavail old_daemons) (h1 ∷ h2 ∷ [])
        × ((c : Cap)
            → build_min_caps (delete_req 1 0) c ≡ true
            → all_have c (offering procunavail old_daemons (h1 ∷ h2 ∷ [])) ≡ true))
check_capabilities_iff_example =
    check_capabilities_iff procunavail old_daemons (delete_req 1 0) (h1 ∷ h2 ∷ []) (λ p. cc)
