-- ===== src/Caps.antt =====
-- The capabilities that an operation needs and that its hosts offer: `glusterBlockBuildMinCaps`,
-- `glusterBlockMimicOldCaps`, `blockRemoteCapabilitiesRespParse` (rpc/block_version.c).
pub mod Check
pub mod Lacking
pub mod Ask
use gluster_block.Prelude.{
  ℕ, ◌<◌, Bool, true, false, not, ◌&&◌, ◌||◌, Option, none, some, List, [], ◌∷◌, map, if◌then◌else◌,
  ltb, ◌==◌, ℤ, pos, minus_one, is_zero, int_eq,
}
use gluster_block.Text.{Text, codes, str_eq}
use gluster_block.Enums.Cap
use gluster_block.Enums.Cap.{Cap, cap_name}

-- The fields of `blockCreateCli` that are looked at.
pub record CreateCli : Type 0 where
  pub mpath : ℕ
  pub prealloc : ℕ
  pub auth_mode : ℕ
  pub rb_size : ℕ
  pub blk_size : ℕ
  pub json_resp : ℕ
  pub io_timeout : ℕ

-- `data` under `opt`; the other operations ask for nothing.
pub data Request : Type 0 where
  create_req : CreateCli → Request
  delete_req : (force json_resp : ℕ) → Request
  modify_req : (auth_mode json_resp : ℕ) → Request
  modify_size_req : (json_resp : ℕ) → Request
  replace_req : (json_resp : ℕ) → Request
  reload_req : (json_resp : ℕ) → Request
  other_req : Request

-- An array of `GB_CAP_MAX` flags.
abbrev pub CapSet : Type 0
CapSet = Cap → Bool

is_set : ℕ → Bool
is_set n = not (n == 0)

-- glusterBlockBuildMinCaps
unfoldable pub build_min_caps : Request → CapSet
unfolding is_set
build_min_caps (create_req r) Cap.create = true
build_min_caps (create_req r) Cap.create_ha = ltb 1 r.mpath
build_min_caps (create_req r) Cap.create_prealloc = is_set r.prealloc
build_min_caps (create_req r) Cap.create_auth = is_set r.auth_mode
build_min_caps (create_req r) Cap.create_ring_buffer = is_set r.rb_size
build_min_caps (create_req r) Cap.create_block_size = is_set r.blk_size
build_min_caps (create_req r) Cap.create_load_balance = true
build_min_caps (create_req r) Cap.json = is_set r.json_resp
build_min_caps (create_req r) Cap.create_io_timeout = is_set r.io_timeout
build_min_caps (create_req r) _ = false
build_min_caps (delete_req f j) Cap.delete = true
build_min_caps (delete_req f j) Cap.delete_force = is_set f
build_min_caps (delete_req f j) Cap.json = is_set j
build_min_caps (delete_req f j) _ = false
build_min_caps (modify_req a j) Cap.modify = true
build_min_caps (modify_req a j) Cap.modify_auth = is_set a
build_min_caps (modify_req a j) Cap.json = is_set j
build_min_caps (modify_req a j) _ = false
build_min_caps (modify_size_req j) Cap.modify_size = true
build_min_caps (modify_size_req j) Cap.json = is_set j
build_min_caps (modify_size_req j) _ = false
build_min_caps (replace_req j) Cap.replace = true
build_min_caps (replace_req j) Cap.json = is_set j
build_min_caps (replace_req j) _ = false
build_min_caps (reload_req j) Cap.reload = true
build_min_caps (reload_req j) Cap.json = is_set j
build_min_caps (reload_req j) _ = false
build_min_caps other_req _ = false

-- `gbCapObj`
pub record CapObj : Type 0 where
  pub cap : Text
  pub status : Bool

-- glusterBlockMimicOldCaps: what a daemon without the version call can do.
unfoldable pub mimic_old_caps : List CapObj
mimic_old_caps =
    map (λ c. record { cap = c; status = true })
      (codes "create"
        ∷ codes "create_ha"
        ∷ codes "create_prealloc"
        ∷ codes "create_auth"
        ∷ codes "delete"
        ∷ codes "delete_force"
        ∷ codes "modify"
        ∷ codes "modify_auth"
        ∷ codes "json"
        ∷ [])

-- A `blockRemoteObj` whose thread has ended, with its reply as a `gbCapResp`.
pub record Peer : Type 0 where
  pub addr : Text
  pub exit : ℤ
  pub reply : Option (List CapObj)

pub record Host : Type 0 where
  pub addr : Text
  pub caps : Option (List CapObj)

-- `*errMsg`
pub data CapsError : Type 0 where
  returned : Text → ℤ → CapsError
  empty : Text → CapsError
  unsupported : Cap → Text → CapsError

-- The loop over the exit codes: the first host that failed, or the capabilities of all. `old` is
-- RPC_PROCUNAVAIL.
unfoldable pub peer_caps : (old : ℤ) → List Peer → Option Peer × List Host
unfolding mimic_old_caps
peer_caps old [] = (none, [])
peer_caps old (p ∷ ps) =
    let (bad, hosts) = peer_caps old ps in
    if int_eq p.exit old
    then (bad, record { addr = p.addr; caps = some mimic_old_caps } ∷ hosts)
    else if not (is_zero p.exit)
    then (some p, [])
    else (bad, record { addr = p.addr; caps = p.reply } ∷ hosts)

-- The loop over one host's capabilities.
unfoldable pub supports : Cap → List CapObj → Bool
supports c [] = false
supports c (o ∷ os) = (str_eq (cap_name c) o.cap && o.status) || supports c os

pub data Verdict : Type 0 where
  everywhere : Verdict
  empty_on : Text → Verdict
  missing_on : Text → Verdict

-- The loop over the hosts.
unfoldable pub scan_hosts : Cap → List Host → Verdict
scan_hosts c [] = everywhere
scan_hosts c (h ∷ hs) =
    let rest = scan_hosts c hs in
    elim h.caps [
      | none ↦ empty_on h.addr
      | some os ↦ if supports c os then rest else missing_on h.addr
    ]

unfoldable pub cap_index : Cap → ℕ
cap_index Cap.create = 0
cap_index Cap.create_ha = 1
cap_index Cap.create_prealloc = 2
cap_index Cap.create_auth = 3
cap_index Cap.delete = 4
cap_index Cap.delete_force = 5
cap_index Cap.modify = 6
cap_index Cap.modify_auth = 7
cap_index Cap.modify_size = 8
cap_index Cap.replace = 9
cap_index Cap.create_ring_buffer = 10
cap_index Cap.create_load_balance = 11
cap_index Cap.json = 12
cap_index Cap.create_block_size = 13
cap_index Cap.reload = 14
cap_index Cap.create_io_timeout = 15

-- All capabilities, by their index.
abbrev pub all_caps : List Cap
all_caps =
    Cap.create ∷ Cap.create_ha ∷ Cap.create_prealloc ∷ Cap.create_auth ∷ Cap.delete
    ∷ Cap.delete_force ∷ Cap.modify ∷ Cap.modify_auth ∷ Cap.modify_size ∷ Cap.replace
    ∷ Cap.create_ring_buffer ∷ Cap.create_load_balance ∷ Cap.json ∷ Cap.create_block_size
    ∷ Cap.reload ∷ Cap.create_io_timeout ∷ []

-- `resultCaps[i] = true`
unfoldable pub set_cap : CapSet → Cap → CapSet
set_cap r c d = cap_index c == cap_index d || r d

-- Where the loop over the capabilities ends: at `goto out`, or behind it.
pub record CapsLoop : Type 0 where
  pub stopped : Bool
  pub result : Option CapSet
  pub err_msg : Option CapsError

-- `resultCaps` is none for NULL: then the first missing capability ends the loop.
unfoldable pub cap_loop :
    CapSet → List Host → List Cap → Option CapSet → Option CapsError → CapsLoop
unfolding set_cap
cap_loop min hosts [] result err = record { stopped = false; result = result; err_msg = err }
cap_loop min hosts (c ∷ cs) result err = elim (min c) [
  | false ↦ cap_loop min hosts cs result err
  | true ↦ elim (scan_hosts c hosts) [
    | everywhere ↦ cap_loop min hosts cs result err
    | empty_on a ↦ record { stopped = true; result = result; err_msg = some (empty a) }
    | missing_on a ↦ elim result [
      | none ↦ record { stopped = true; result = none; err_msg = some (unsupported c a) }
      | some r ↦ cap_loop min hosts cs (some (set_cap r c)) (some (unsupported c a))
    ]
  ]
]

unfoldable pub any_cap : CapSet → List Cap → Bool
any_cap r [] = false
any_cap r (c ∷ cs) = r c || any_cap r cs

unfoldable pub any_result : Option CapSet → Bool
unfolding any_cap
any_result none = false
any_result (some r) = any_cap r all_caps

pub record CapsResult : Type 0 where
  pub ret : ℤ
  pub result : Option CapSet
  pub err_msg : Option CapsError

-- `goto out` for a host that failed, or the capabilities one by one.
unfoldable pub caps_judge : CapSet → Option CapSet → Option Peer → List Host → CapsResult
unfolding cap_loop any_result
caps_judge min result (some p) hosts = record {
  ret = p.exit;
  result = result;
  err_msg = some (returned p.addr p.exit);
}
caps_judge min result none hosts =
    let l = cap_loop min hosts all_caps result none in
    record {
      ret = if l.stopped || any_result l.result then minus_one else pos 0;
      result = l.result;
      err_msg = l.err_msg;
    }

-- blockRemoteCapabilitiesRespParse
unfoldable pub caps_resp_parse : (old : ℤ) → List Peer → CapSet → Option CapSet → CapsResult
unfolding peer_caps caps_judge
caps_resp_parse old peers min result =
    let (bad, hosts) = peer_caps old peers in caps_judge min result bad hosts
