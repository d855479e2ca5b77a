-- ===== src/Replace.antt =====
-- Replacing a host of a block by another: the driver `glusterBlockReplaceNodeRemoteAsync`
-- (rpc/block_replace.c).
pub mod Response
pub mod Cli
pub mod Slots
pub mod Steps
pub mod Settled
pub mod First
pub mod Whole
pub mod Verdict
pub mod Refused
use gluster_block.Prelude.{
  ℕ, zero, suc, ◌+◌, ◌-◌, Bool, true, false, not, ◌&&◌, ◌||◌, Option, none, some, List, [], ◌∷◌,
  ◌++◌, if◌then◌else◌, ◌==◌, ℤ, pos, minus_one, is_zero, int_eq, take, drop, map,
}
use gluster_block.Text.{Text, codes, str_eq}
use gluster_block.Enums.Status
use gluster_block.Enums.Status.{MetaStatus, status_parse}
use gluster_block.Meta.{NodeInfo, MetaInfo, Outcome, ok, crash}
use gluster_block.Meta.Merge.{Thread}
use gluster_block.Meta.Servers.{blockhost_is_valid, get_host_status}
use gluster_block.Remote.{op_skipped, Script, replace_portal_remote, create_remote, delete_remote}
use gluster_block.Remote.Collect.{joined}

abbrev pub node_not_exist : ℤ
node_not_exist = pos 223

abbrev pub node_in_use : ℤ
node_in_use = pos 224

-- `blockReplaceCli`
pub record ReplaceCli : Type 0 where
  pub block_name : Text
  pub volume : Text
  pub old_node : Text
  pub new_node : Text
  pub force : Bool

-- `args`, by the addresses: a slot that calloc left alone has none.
abbrev pub Slots : Type 0
Slots = List (Option Text)

-- args[j].addr = addr; none is a write past the array.
unfoldable pub put_slot : ℕ → Text → Slots → Option Slots
put_slot j addr [] = none
put_slot zero addr (s ∷ ss) = some (some addr ∷ ss)
put_slot (suc j) addr (s ∷ ss) = elim (put_slot j addr ss) [
  | none ↦ none
  | some ss' ↦ some (s ∷ ss')
]

unfoldable pub blank_slots : ℕ → Slots
blank_slots zero = []
blank_slots (suc n) = none ∷ blank_slots n

-- A node that keeps the block and whose portals are replaced.
unfoldable pub is_staying : Text → NodeInfo → Bool
is_staying old_node n = not (str_eq n.addr old_node) && blockhost_is_valid n.status

-- The loop over the nodes, with `j` and `cobj->block_hosts`.
unfoldable pub fill_slots : Text → List NodeInfo → (j : ℕ) → Slots → Text → Option (Slots × Text)
fill_slots old_node [] j ss block_hosts = some (ss, block_hosts)
fill_slots old_node (n ∷ ns) j ss block_hosts =
    let skip = fill_slots old_node ns j ss block_hosts in
    if is_staying old_node n
    then elim (put_slot j n.addr ss) [
      | none ↦ none
      | some ss' ↦ fill_slots old_node ns (j + 1) ss' (block_hosts ++ (b',' ∷ n.addr))
    ]
    else skip

-- "Fill args[]": the new node in front, then the others, and the old one in the last slot.
unfoldable pub replace_slots : ReplaceCli → MetaInfo → Option (Slots × Text)
unfolding blank_slots fill_slots put_slot
replace_slots cli info = elim (put_slot 0 cli.new_node (blank_slots (info.mpath + 1))) [
  | none ↦ none
  | some ss ↦ elim (fill_slots cli.old_node info.nodes 1 ss cli.new_node) [
    | none ↦ none
    | some (ss', block_hosts) ↦ elim (put_slot info.mpath cli.old_node ss') [
      | none ↦ none
      | some ss'' ↦ some (ss'', block_hosts)
    ]
  ]
]

-- args[1] to args[mpath - 1]
abbrev pub portals : ℕ → Slots → Slots
portals mpath ss = take (mpath - 1) (drop 1 ss)

-- The status of the first node with the address of the new node and a valid status.
unfoldable pub in_use : Text → List NodeInfo → Option Text
in_use new_node [] = none
in_use new_node (n ∷ ns) =
    let rest = in_use new_node ns in
    if str_eq n.addr new_node && blockhost_is_valid n.status then some n.status else rest

-- "New node is freshly configured"
abbrev pub is_fresh : Option MetaStatus → Bool
is_fresh (some Status.auth_enforced) = true
is_fresh (some Status.config_success) = true
is_fresh _ = false

abbrev pub is_replacing : Option MetaStatus → Bool
is_replacing (some Status.rp_success) = true
is_replacing (some Status.rp_inprogress) = true
is_replacing (some Status.rp_fail) = true
is_replacing _ = false

abbrev pub is_replaced : Option MetaStatus → Bool
is_replaced (some Status.rp_success) = true
is_replaced _ = false

abbrev pub is_cleaned : Option MetaStatus → Bool
is_cleaned (some Status.cleanup_success) = true
is_cleaned _ = false

-- `Flag` and `rCheck`: some portal has a status that fails the test.
unfoldable pub any_portal : (Option MetaStatus → Bool) → MetaInfo → Slots → Bool
any_portal test info [] = false
any_portal test info (s ∷ ss) = not (test (get_host_status info s)) || any_portal test info ss

-- What the checks in front of the threads come to: an error, nothing left to do, or the steps that are
-- left out.
pub data Plan : Type 0 where
  refused : ℤ → Plan
  nothing_left : Plan
  steps : (c_check d_check r_check : Bool) → Plan

-- `cCheck`, and `newNodeInUse && !cCheck`
abbrev pub is_configured : Option Text → Bool
is_configured none = false
is_configured (some st) = is_fresh (status_parse (some st))

abbrev pub is_taken : Option Text → Bool
is_taken none = false
is_taken (some st) = not (is_fresh (status_parse (some st)))

unfoldable pub replace_checks : (d_check : Bool) → ReplaceCli → MetaInfo → Slots → Plan
unfolding in_use any_portal
replace_checks d_check cli info ss =
    let used = in_use cli.new_node info.nodes in
    let c_check = is_configured used in
    let r_check = any_portal is_replaced info ss in
    if is_taken used || (c_check && any_portal is_replacing info ss)
    then refused node_in_use
    else if not r_check && (d_check && c_check)
    then nothing_left
    else steps c_check d_check r_check

unfoldable pub replace_plan : ReplaceCli → MetaInfo → Slots → Plan
unfolding replace_checks
replace_plan cli info ss = elim (get_host_status info (some cli.old_node)) [
  | none ↦ refused node_not_exist
  | some st ↦ replace_checks (is_cleaned (some st)) cli info ss
]

-- `blockRemoteResp`
pub record RemoteResp : Type 0 where
  pub status : ℤ
  pub attempt : Option Text
  pub success : Option Text
  pub skipped : Option Text

-- `blockRemoteReplaceResp`
pub record ReplaceResp : Type 0 where
  pub status : ℤ
  pub force : Bool
  pub cop : RemoteResp
  pub dop : RemoteResp
  pub rop : RemoteResp

abbrev pub unset : RemoteResp
unset = record { status = minus_one; attempt = none; success = none; skipped = none }

-- The step of one thread: its exit code, or skipped.
abbrev pub one_resp : (skip : Bool) → Text → ℤ → RemoteResp
one_resp true addr exit = record unset { status = op_skipped; skipped = some addr }
one_resp false addr exit = record unset {
  status = exit;
  attempt = if is_zero exit then none else some addr;
  success = if is_zero exit then some addr else none;
}

-- The addresses of the portals; none if one is a null pointer.
unfoldable pub named : Slots → Option (List Text)
named [] = some []
named (none ∷ ss) = none
named (some a ∷ ss) = elim (named ss) [ none ↦ none | some as' ↦ some (a ∷ as') ]

unfoldable pub skip_all : Slots → RemoteResp → RemoteResp
skip_all [] r = r
skip_all (s ∷ ss) r =
    skip_all ss
      (record r { skipped = joined r.skipped (elim s [ none ↦ codes "(null)" | some a ↦ a ]) })

abbrev pub portal_exit : (Text → Script) → Text → ℤ
portal_exit answers h = (replace_portal_remote h (answers h)).exit

-- "Collect results" of the portals: each status overwrites the last one.
unfoldable pub collect_portals : (Text → Script) → List Text → RemoteResp → RemoteResp
collect_portals answers [] r = r
collect_portals answers (h ∷ hs) r = collect_portals answers hs (
    if is_zero (portal_exit answers h)
    then record r { success = joined r.success h; status = portal_exit answers h }
    else record r { attempt = joined r.attempt h; status = portal_exit answers h })

abbrev pub not_applicable : ℕ → RemoteResp → RemoteResp
not_applicable mpath r =
    if mpath == 1 then record r { success = some (codes "N/A"); status = pos 0 } else r

-- What the driver returns, `*savereply`, and the threads that it has started.
pub record Replaced : Type 0 where
  pub ret : ℤ
  pub reply : Option ReplaceResp
  pub threads : List Thread

abbrev pub create_step : Bool → (Text → Script) → Text → Thread
create_step auth answers h = record { host = h; writes = (create_remote auth h (answers h)).writes }

abbrev pub portal_step : (Text → Script) → Text → Thread
portal_step answers h = record { host = h; writes = (replace_portal_remote h (answers h)).writes }

abbrev pub delete_step : (Text → Script) → Text → Thread
delete_step answers h = record { host = h; writes = (delete_remote h (answers h)).writes }

-- The threads of the steps that are not left out.
abbrev pub step_threads :
    Bool → Bool → Bool → Bool → (Text → Script) → ReplaceCli → List Text → List Thread
step_threads c_check d_check r_check auth answers cli hosts =
    (if c_check then [] else create_step auth answers cli.new_node ∷ [])
    ++ (if r_check then map (portal_step answers) hosts else [])
    ++ (if d_check then [] else delete_step answers cli.old_node ∷ [])

abbrev pub step_reply :
    Bool → Bool → Bool → Bool → (Text → Script) → ReplaceCli → ℕ → Slots → List Text → ReplaceResp
step_reply c_check d_check r_check auth answers cli mpath ss hosts = record {
  status = pos 0;
  force = cli.force;
  cop = one_resp c_check cli.new_node (create_remote auth cli.new_node (answers cli.new_node)).exit;
  dop = one_resp d_check cli.old_node (delete_remote cli.old_node (answers cli.old_node)).exit;
  rop =
      if r_check
      then collect_portals answers hosts unset
      else not_applicable mpath (skip_all ss (record unset { status = op_skipped }));
}

-- `!!info->passwd[0]`
abbrev pub has_passwd : MetaInfo → Bool
has_passwd info = elim info.passwd [ [] ↦ false | _ ∷ _ ↦ true ]

-- The threads and the results. A thread for a slot that was not filled reads through NULL; with an
-- mpath of 0, the thread that creates is given the object of the one that deletes.
unfoldable pub run_steps :
    Bool → Bool → Bool → (Text → Script) → ReplaceCli → MetaInfo → Slots → Outcome Replaced
run_steps c_check d_check r_check answers cli info ss =
    elim (if r_check then named ss else some []) [
      | none ↦ crash
      | some hosts ↦
          if info.mpath == 0 && not c_check
          then crash
          else ok (record {
            ret = pos 0;
            reply = some (
                step_reply c_check d_check r_check (has_passwd info) answers cli info.mpath ss
                  hosts);
            threads = step_threads c_check d_check r_check (has_passwd info) answers cli hosts;
          })
    ]

unfoldable pub run_plan : Plan → (Text → Script) → ReplaceCli → MetaInfo → Slots → Outcome Replaced
unfolding run_steps
run_plan (refused err) answers cli info ss = ok (record { ret = err; reply = none; threads = [] })
run_plan nothing_left answers cli info ss = ok (record {
  ret = pos 0;
  reply =
      some
        (record { status = op_skipped; force = cli.force; cop = unset; dop = unset; rop = unset });
  threads = [];
})
run_plan (steps c d r) answers cli info ss = run_steps c d r answers cli info ss

-- glusterBlockReplaceNodeRemoteAsync
unfoldable pub replace_node_remote_async :
    (Text → Script) → ReplaceCli → MetaInfo → Outcome Replaced
unfolding replace_slots replace_plan run_plan
replace_node_remote_async answers cli info = elim (replace_slots cli info) [
  | none ↦ crash
  | some (ss, block_hosts) ↦
      let ps = portals info.mpath ss in run_plan (replace_plan cli info ps) answers cli info ps
]
