-- ===== src/Meta/Servers.antt =====
-- The server lists made of a block's metadata: `blockhostIsValid` (utils/common.c),
-- `blockMetaInfoToServerParse`, `glusterBlockGetListFromInfo`, `blockGetHostStatus` (rpc/block_svc_routines.c)
-- and `blockGetAddrStatusFromInfo` (rpc/glfs-operations.c).
use gluster_block.Prelude.{
  ℕ, suc, ◌+◌, ◌≤◌, ◌<◌, ◌≡◌, refl, Bool, true, false, not, Option, none, some, List, [], ◌∷◌, ◌++◌,
  map, arith, if◌then◌else◌, length, length-append, select, ltb, Bool-cases, inl, inr,
}
use mathlib.Core.List.{append-nil, append_assoc}
use gluster_block.Text.{Text, str_eq}
use gluster_block.Enums.Status
use gluster_block.Enums.Status.{MetaStatus, status_parse, status_name}
use gluster_block.Meta.{NodeInfo, MetaInfo}
use gluster_block.Meta.Nodes.{status_of}

-- The statuses of a host whose target is configured or may be.
unfoldable pub is_valid_status : Option MetaStatus → Bool
is_valid_status (some Status.config_success) = true
is_valid_status (some Status.cleanup_inprogress) = true
is_valid_status (some Status.auth_enforceing) = true
is_valid_status (some Status.auth_enforced) = true
is_valid_status (some Status.auth_enforce_fail) = true
is_valid_status (some Status.auth_clear_enforced) = true
is_valid_status (some Status.auth_clear_enforceing) = true
is_valid_status (some Status.auth_clear_enforce_fail) = true
is_valid_status (some Status.rp_success) = true
is_valid_status (some Status.rp_fail) = true
is_valid_status (some Status.rp_inprogress) = true
is_valid_status (some Status.rs_success) = true
is_valid_status (some Status.rs_fail) = true
is_valid_status (some Status.rs_inprogress) = true
is_valid_status _ = false

unfoldable pub blockhost_is_valid : Text → Bool
unfolding is_valid_status
blockhost_is_valid status = is_valid_status (status_parse (some status))

-- The first loop of `blockMetaInfoToServerParse`, which counts.
count_valid : List NodeInfo → ℕ
count_valid [] = 0
count_valid (n ∷ ns) =
    let rest = count_valid ns in if blockhost_is_valid n.status then suc rest else rest

-- The array of `hosts` under construction: the slots written so far and the slots allocated.
-- A write behind the last slot is a fault.
pub record Hosts : Type 0 where
  pub written : List Text
  pub slots : ℕ

put_host : Text → Hosts → Option Hosts
put_host addr h =
    if ltb (length h.written) h.slots
    then some (record h { written = h.written ++ addr ∷ [] })
    else none

-- The second loop, which is the loop of `glusterBlockGetListFromInfo` too.
fill_hosts : List NodeInfo → Hosts → Option Hosts
unfolding put_host
fill_hosts [] h = some h
fill_hosts (n ∷ ns) h =
    let skip = fill_hosts ns h in
    if not (blockhost_is_valid n.status)
    then skip
    else elim (put_host n.addr h) [ none ↦ none | some h' ↦ fill_hosts ns h' ]

-- blockMetaInfoToServerParse(info): none is a write past the array.
unfoldable pub meta_info_to_servers : MetaInfo → Option Hosts
unfolding count_valid fill_hosts
meta_info_to_servers info =
    fill_hosts info.nodes (record { written = []; slots = count_valid info.nodes })

-- glusterBlockGetListFromInfo(info): the array has `mpath` slots.
unfoldable pub get_list_from_info : MetaInfo → Option Hosts
unfolding fill_hosts
get_list_from_info info = fill_hosts info.nodes (record { written = []; slots = info.mpath })

-- blockGetHostStatus(info, host) and blockGetAddrStatusFromInfo(info, addr): the status of the first
-- node with the address; none is GB_METASTATUS_MAX.
host_status : Text → List NodeInfo → Option MetaStatus
host_status h [] = none
host_status h (n ∷ ns) = if str_eq n.addr h then status_parse (some n.status) else host_status h ns

unfoldable pub get_host_status : MetaInfo → Option Text → Option MetaStatus
unfolding host_status
get_host_status info none = none
get_host_status info (some host) = host_status host info.nodes

-- The addresses of the nodes whose status is valid.
abbrev pub valid_addrs : List NodeInfo → List Text
valid_addrs ns = map (λ n. n.addr) (select (λ n. blockhost_is_valid n.status) ns)

count_valid-length : (ns : List NodeInfo) → count_valid ns ≡ length (valid_addrs ns)
unfolding count_valid
count_valid-length [] = refl
count_valid-length (n ∷ ns) = ground (arith, count_valid-length ns)

fill_hosts-fits :
    (ns : List NodeInfo) (written : List Text) (slots : ℕ)
    → length written + length (valid_addrs ns) ≤ slots
    → fill_hosts ns (record { written = written; slots = slots })
      ≡ some (record { written = written ++ valid_addrs ns; slots = slots })
unfolding fill_hosts
fill_hosts-fits [] w slots le = rw append-nil
fill_hosts-fits (n ∷ ns) w slots le = elim (Bool-cases (blockhost_is_valid n.status)) [
  | inl e ↦
      let fits : length w + suc (length (valid_addrs ns)) ≤ slots = rw e at le in
      let room : ltb (length w) slots ≡ true = ground arith in
      let next : length (w ++ n.addr ∷ []) + length (valid_addrs ns) ≤ slots =
        omega (arith, length-append {0} w (n.addr ∷ [])) in
      ground (
        arith,
        e,
        room,
        fill_hosts-fits ns (w ++ n.addr ∷ []) slots next,
        append_assoc w (n.addr ∷ []) (valid_addrs ns),
      )
  | inr e ↦
      let fits : length w + length (valid_addrs ns) ≤ slots = rw e at le in
      ground (arith, e, fill_hosts-fits ns w slots fits)
]

fill_hosts-overflow :
    (ns : List NodeInfo) (written : List Text) (slots : ℕ)
    → length written ≤ slots
    → slots < length written + length (valid_addrs ns)
    → fill_hosts ns (record { written = written; slots = slots }) ≡ none
unfolding fill_hosts
fill_hosts-overflow [] w slots le lt = absurd (omega arith)
fill_hosts-overflow (n ∷ ns) w slots le lt = elim (Bool-cases (blockhost_is_valid n.status)) [
  | inl e ↦
      let over : slots < length w + suc (length (valid_addrs ns)) = rw e at lt in
      ground (
        arith,
        e,
        length-append {0} w (n.addr ∷ []),
        fill_hosts-overflow ns (w ++ n.addr ∷ []) slots,
      )
  | inr e ↦
      let over : slots < length w + length (valid_addrs ns) = rw e at lt in
      ground (arith, e, fill_hosts-overflow ns w slots le over)
]

-- `blockMetaInfoToServerParse` allocates as many slots as it fills, writes inside the array, and
-- returns the addresses of the nodes with a valid status, in order.
pub meta_info_to_servers_lem :
    (info : MetaInfo)
    → meta_info_to_servers info
      ≡ some (record { written = valid_addrs info.nodes; slots = length (valid_addrs info.nodes) })
unfolding meta_info_to_servers
meta_info_to_servers_lem info =
    rw (count_valid-length info.nodes)
      (fill_hosts-fits info.nodes [] (length (valid_addrs info.nodes)) (omega arith))

-- `glusterBlockGetListFromInfo` returns the same addresses if the valid nodes are no more than
-- `mpath`, and writes past its array if they are more.
pub get_list_from_info_lem :
    (info : MetaInfo)
    → (length (valid_addrs info.nodes) ≤ info.mpath
        → get_list_from_info info
          ≡ some (record { written = valid_addrs info.nodes; slots = info.mpath }))
      × (info.mpath < length (valid_addrs info.nodes) → get_list_from_info info ≡ none)
unfolding get_list_from_info
get_list_from_info_lem info = (
  λ h. fill_hosts-fits info.nodes [] info.mpath (omega arith),
  λ h. fill_hosts-overflow info.nodes [] info.mpath (omega arith) (omega arith),
)

host_status-status_of :
    (h : Text) (ns : List NodeInfo)
    → host_status h ns ≡ (elim (status_of h ns) [ none ↦ none | some s ↦ status_parse (some s) ])
unfolding host_status status_of
host_status-status_of h [] = refl
host_status-status_of h (n ∷ ns) = ground (arith, host_status-status_of h ns)

pub get_host_status_lem :
    (h : Text) (info : MetaInfo)
    → get_host_status info (some h)
      ≡ (elim (status_of h info.nodes) [ none ↦ none | some s ↦ status_parse (some s) ])
unfolding get_host_status
get_host_status_lem h info = host_status-status_of h info.nodes
