-- ===== src/Replace/First.antt =====
-- The driver of a replace on a block that serves (`glusterBlockReplaceNodeRemoteAsync`,
-- rpc/block_replace.c).
use gluster_block.Prelude.{
  ◌≡◌, ◌∙◌, refl, Bool, true, false, Option, none, some, List, [], ◌∷◌, arith, All, if◌then◌else◌,
  pos, Bool-cases, inl, inr, ◌==◌,
}
use gluster_block.Text.{Text, str_eq}
use gluster_block.Enums.Status
use gluster_block.Enums.Status.{MetaStatus}
use gluster_block.Meta.{NodeInfo, MetaInfo, ok, rs_nodes, parse_rs_status}
use gluster_block.Meta.Nodes.{Absent, status_of}
use gluster_block.Meta.Known.{known_as, rs-All, get_host_status-known}
use gluster_block.Remote.{Script}
use gluster_block.Replace.{
  ReplaceCli, steps, in_use, is_replaced, any_portal, replace_checks, replace_plan, named,
  step_reply, step_threads, run_steps, run_plan, replace_node_remote_async, has_passwd,
}
use gluster_block.Replace.Slots.{staying, filled, replace_slots-fits, portals-filled}
use gluster_block.Replace.Settled.{IsServing, movers}

in_use-Absent :
    (new_node : Text) (ns : List NodeInfo) → Absent new_node ns → in_use new_node ns ≡ none
unfolding in_use
in_use-Absent new_node [] a = refl
in_use-Absent new_node (n ∷ ns) a = ground (arith, a.0, in_use-Absent new_node ns a.1)

named-filled : (hs : List Text) → named (filled hs) ≡ some hs
unfolding named
named-filled [] = refl
named-filled (h ∷ hs) = rw (named-filled hs) refl

replaced_eq : (st : Option MetaStatus) → is_replaced st ≡ true → st ≡ some Status.rp_success
replaced_eq none e = cc
replaced_eq (some Status.rp_success) e = refl
replaced_eq (some _) e = cc

-- No portal is left to replace: each host has RPSUCCESS.
pub any_portal-replaced :
    (raw : MetaInfo) (hs : List Text)
    → any_portal is_replaced (parse_rs_status raw) (filled hs) ≡ false
    → All (λ h. known_as (status_of h raw.nodes) ≡ some Status.rp_success) hs
unfolding any_portal
any_portal-replaced raw [] e = tt
any_portal-replaced raw (h ∷ hs) e =
    let e' = rw (get_host_status-known h raw) at e in
    (
      replaced_eq (known_as (status_of h raw.nodes)) (ground (arith, e')),
      any_portal-replaced raw hs (ground (arith, e')),
    )

module _ (answers : Text → Script) (cli : ReplaceCli) (raw : MetaInfo) (b : IsServing cli raw) where
  abbrev stay : List Text
  stay = staying cli.old_node (rs_nodes raw.nodes)

  -- Whether portals are left to replace.
  abbrev pub r_check : Bool
  r_check = any_portal is_replaced (parse_rs_status raw) (filled stay)

  plan_lem : replace_plan cli (parse_rs_status raw) (filled stay) ≡ steps false false r_check
  unfolding replace_plan replace_checks parse_rs_status
  plan_lem =
      let k = get_host_status-known cli.old_node raw ∙ b.old_known in
      let u =
        in_use-Absent cli.new_node (rs_nodes raw.nodes)
          (rs-All (λ a. str_eq a cli.new_node ≡ false) raw.nodes b.fresh) in
      rw (replace_plan, k, b.old_serves) (rw (replace_checks, u) (ground arith))

  abbrev auth : Bool
  auth = has_passwd (parse_rs_status raw)

  hosts_lem : (if r_check then named (filled stay) else some []) ≡ some (movers r_check stay)
  hosts_lem = elim (Bool-cases r_check) [ inl e ↦ rw e (named-filled stay) | inr e ↦ rw e refl ]

  -- The driver starts a thread for the new node, one for each host that stays unless all have been seen to,
  -- and one for the old node.
  pub replace_node_remote_async-first :
      replace_node_remote_async answers cli (parse_rs_status raw)
      ≡ ok (record {
        ret = pos 0;
        reply = some (
            step_reply false false r_check auth answers cli raw.mpath
              (filled stay)
              (movers r_check stay));
        threads = step_threads false false r_check auth answers cli (movers r_check stay);
      })
  unfolding replace_node_remote_async run_plan run_steps parse_rs_status
  replace_node_remote_async-first =
      let z : raw.mpath == 0 ≡ false = ground (arith, b.room) in
      rw (replace_node_remote_async, replace_slots-fits cli (parse_rs_status raw) b.room)
        (rw (portals-filled stay cli.new_node cli.old_node raw.mpath b.room)
          (rw plan_lem (rw (run_steps, hosts_lem, z) refl)))
