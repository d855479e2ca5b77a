-- ===== src/Replace/Refused.antt =====
-- The replaces that are refused (rpc/block_replace.c).
use mathlib.Core.List.{append-nil}
use gluster_block.Prelude.{
  ℕ, zero, suc, ◌+◌, ◌-◌, ◌<◌, ◌≤◌, ◌≡◌, ◌∙◌, refl, ap, true, none, some, List, [], ◌∷◌, ◌++◌,
  arith, All, pos, length, length-append, ◌≢◌, ◌⊎◌, ℤ, inl, inr, Option-cases,
}
use gluster_block.Text.{Text}
use gluster_block.Enums.Status.{MetaStatus}
use gluster_block.Lock.{unlock_code, unlock_msg}
use gluster_block.Meta.{MetaInfo, ok, rs_nodes, parse_rs_status}
use gluster_block.Meta.Nodes.{status_of}
use gluster_block.Meta.Known.{known_as, get_host_status-known}
use gluster_block.Meta.Journal.{Entry}
use gluster_block.Meta.Merge.{Merges, nobody, IsSchedule}
use gluster_block.Meta.Read.{render}
use gluster_block.Meta.File.{IsFile}
use gluster_block.Meta.Valid.{HasColon}
use gluster_block.Replace.{
  ReplaceCli, Slots, refused, put_slot, blank_slots, is_taken, in_use, replace_slots, portals,
  replace_checks, replace_plan, run_plan, replace_node_remote_async, node_not_exist, node_in_use,
}
use gluster_block.Replace.Slots.{staying, filled, commas, replace_slots-room, length-filled}
use gluster_block.Replace.Whole.{replace_locked-passes, replace_cli-entered}
use gluster_block.Replace.Cli.{ReplaceRun, replace_cli, replace_hosts, replace_error}

put_slot-some :
    (j : ℕ) (a : Text) (ss : Slots) → j < length ss → (ss' : Slots) × (put_slot j a ss ≡ some ss')
unfolding put_slot
put_slot-some j a [] h = absurd (omega (arith, h))
put_slot-some zero a (s ∷ ss) h = (_, refl)
put_slot-some (suc j) a (s ∷ ss) h =
    let (ss', e) = put_slot-some j a ss (omega (arith, h)) in (s ∷ ss', rw e refl)

length-blank_slots : (n : ℕ) → length (blank_slots n) ≡ n
unfolding blank_slots
length-blank_slots zero = refl
length-blank_slots (suc n) = ap suc (length-blank_slots n)

-- The fill stays within the array if the hosts that stay are at most `mpath`.
replace_slots-some :
    (cli : ReplaceCli) (info : MetaInfo)
    → length (staying cli.old_node info.nodes) ≤ info.mpath
    → (ss : Slots) × (replace_slots cli info
        ≡ some (ss, cli.new_node ++ commas (staying cli.old_node info.nodes)))
replace_slots-some cli info h =
    let hosts = staying cli.old_node info.nodes in
    let k = info.mpath - length hosts in
    let e : info.mpath ≡ length hosts + k = omega (arith, h) in
    let room : info.mpath < length ((some cli.new_node ∷ []) ++ (filled hosts ++ blank_slots k)) =
      omega (
        arith,
        h,
        length-append {0} (filled hosts) (blank_slots k),
        length-filled hosts,
        length-blank_slots k,
      ) in
    let (ss, p) =
      put_slot-some info.mpath cli.old_node
        ((some cli.new_node ∷ []) ++ (filled hosts ++ blank_slots k)) room in
    (ss, replace_slots-room cli info k e ∙ (rw p refl))

no_lines : (es : List Entry) → Merges [] es → es ≡ []
no_lines es nobody = refl

module _ (run : ReplaceRun) (cli : ReplaceCli) (raw : MetaInfo) where
  plan-unknown :
      (ps : Slots)
      → known_as (status_of cli.old_node raw.nodes) ≡ none
      → replace_plan cli (parse_rs_status raw) ps ≡ refused node_not_exist
  unfolding replace_plan
  plan-unknown ps e =
      let k = get_host_status-known cli.old_node raw ∙ e in rw (replace_plan, k) refl

  plan-taken :
      (ps : Slots) (st : MetaStatus)
      → known_as (status_of cli.old_node raw.nodes) ≡ some st
      → is_taken (in_use cli.new_node (rs_nodes raw.nodes)) ≡ true
      → replace_plan cli (parse_rs_status raw) ps ≡ refused node_in_use
  unfolding replace_plan replace_checks parse_rs_status
  plan-taken ps st e t =
      let k = get_host_status-known cli.old_node raw ∙ e in
      rw (replace_plan, k) (rw (replace_checks, t) refl)

  -- A refusal, once the plan is known.
  hosts-refused :
      (err : _) (file : Text)
      → IsSchedule run.schedule
      → length (staying cli.old_node (rs_nodes raw.nodes)) ≤ raw.mpath
      → ((ps : Slots) → replace_plan cli (parse_rs_status raw) ps ≡ refused err)
      → (msg : Text) → replace_error cli err ≡ some msg
      → replace_hosts run cli (parse_rs_status raw) file
        ≡ ok (record { err_code = err; err_msg = some msg; reply = none; file = file })
  unfolding replace_hosts replace_node_remote_async run_plan parse_rs_status render
  hosts-refused err file o h p msg e =
      let (ss, q) = replace_slots-some cli (parse_rs_status raw) h in
      let z = no_lines (run.schedule []) (o []) in
      rw (replace_hosts, replace_node_remote_async, q)
        (rw (p (portals raw.mpath ss)) (rw (replace_hosts, run_plan, e) (rw (z, append-nil) refl)))

-- The old node is not listed, or has no status that the reader knows, with 223; or it has one, and the new node
-- is listed with a valid status other than that of a fresh configuration, with 224.
abbrev pub Refuses : ReplaceCli → MetaInfo → ℤ → Type 0
Refuses cli raw err =
    (err ≡ pos 223) × (known_as (status_of cli.old_node raw.nodes) ≡ none)
    ⊎ (err ≡ pos 224)
      × (known_as (status_of cli.old_node raw.nodes) ≢ none)
      × (is_taken (in_use cli.new_node (rs_nodes raw.nodes)) ≡ true)

-- A request on a block that the lock and the checks let through, whose hosts that stay have their slots, is
-- refused with a message and without a thread or a change of the file if the old node is not listed, or has no
-- status that the reader knows (223), or if it has one, and the new node is listed with a valid status other
-- than that of a fresh configuration (224). The code of the refusal is -1 instead if the unlocking fails.
pub replace_cli_refused :
    (run : ReplaceRun) (cli : ReplaceCli) (err : ℤ) {ls : List Text} {raw : MetaInfo}
    → IsFile ls raw
    → run.entered ≡ pos 0
    → run.access ≡ pos 0
    → run.caps ≡ pos 0
    → IsSchedule run.schedule
    → All HasColon ls
    → length ls < run.valid_reads
    → length ls < run.reads
    → length (staying cli.old_node (rs_nodes raw.nodes)) ≤ raw.mpath
    → Refuses cli raw err
    → (replace_cli run cli (render ls)
        ≡ ok (record {
          err_code = unlock_code run.unlock err;
          err_msg = unlock_msg run.unlock cli.volume (replace_error cli err);
          reply = none;
          file = render ls;
        }))
      × (replace_error cli err ≢ none)
replace_cli_refused run cli err {ls} {raw} f n a p o c v k h (inl (e, u)) = (
  rw e (
      replace_cli-entered run cli (render ls) _ n (
        replace_locked-passes run cli f a p c v k
        ∙ hosts-refused run cli raw node_not_exist (render ls) o h
            (λ ps. plan-unknown run cli raw ps u) _ refl)),
  rw e (λ z. cc),
)
replace_cli_refused run cli err {ls} {raw} f n a p o c v k h (inr (e, u, t)) = (
  rw e (elim (Option-cases (known_as (status_of cli.old_node raw.nodes))) [
    | inl z ↦ absurd (u z)
    | inr (st, z) ↦ replace_cli-entered run cli (render ls) _ n (
        replace_locked-passes run cli f a p c v k
        ∙ hosts-refused run cli raw node_in_use (render ls) o h
            (λ ps. plan-taken run cli raw ps st z t) _ refl)
  ]),
  rw e (λ z. cc),
)
