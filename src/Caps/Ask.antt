-- ===== src/Caps/Ask.antt =====
-- Asking the hosts for their capabilities: `glusterBlockCapabilitiesRemote`,
-- `glusterBlockCapabilityRemoteAsync` and `glusterBlockCheckCapabilities` (rpc/block_version.c).
use gluster_block.Prelude.{
  ◌≡◌, ◌≢◌, ◌↔◌, ◌⊎◌, Bool, true, not, ◌&&◌, Option, none, some, List, [], ◌∷◌, map, arith,
  if◌then◌else◌, All, ℤ, pos, negsuc, is_zero, int_eq, int_eq_iff,
}
use gluster_block.Text.{Text}
use gluster_block.Enums.Cap.{Cap}
use gluster_block.Caps.{
  Request, CapSet, build_min_caps, CapObj, Peer, Host, CapsError, CapsResult, caps_resp_parse,
}
use gluster_block.Caps.Check.{IsAnswer, host_of, all_have, caps_strict}

-- What `glusterBlockCallRPC_1` returns for VERSION_SRV, and what it leaves in `*rpc_sent` and `*out`.
pub record VersionAnswer : Type 0 where
  pub ret : ℤ
  pub rpc_sent : Bool
  pub reply : Option (List CapObj)

-- -ENOTCONN
abbrev pub not_connected : ℤ
not_connected = negsuc 106

-- glusterBlockCapabilitiesRemote; `old` is RPC_PROCUNAVAIL.
unfoldable pub capabilities_remote : (old : ℤ) → (Text → VersionAnswer) → Text → Peer
capabilities_remote old answers h = record {
  addr = h;
  exit =
      if not (is_zero (answers h).ret)
        && not (int_eq (answers h).ret old)
        && not (answers h).rpc_sent
      then not_connected
      else (answers h).ret;
  reply = (answers h).reply;
}

-- glusterBlockCapabilityRemoteAsync
unfoldable pub capability_remote_async :
    (old : ℤ) → (Text → VersionAnswer) → List Text → CapSet → Option CapSet → CapsResult
capability_remote_async old answers hosts min result =
    caps_resp_parse old (map (capabilities_remote old answers) hosts) min result

-- `*errMsg` with its hint, if a host could not be reached.
pub data CheckError : Type 0 where
  unreachable rejected : Option CapsError → CheckError

pub record Checked : Type 0 where
  pub err_code : ℤ
  pub result : Option CapSet
  pub err_msg : Option CheckError

-- glusterBlockCheckCapabilities; `list` is none for NULL.
unfoldable pub check_capabilities :
    (old : ℤ)
    → (Text → VersionAnswer)
    → Request
    → (list : Option (List Text)) → Option CapSet
    → Checked
check_capabilities old answers req none result = record {
  err_code = pos 0;
  result = result;
  err_msg = none;
}
check_capabilities old answers req (some hosts) result =
    let r = capability_remote_async old answers hosts (build_min_caps req) result in
    record {
      err_code = r.ret;
      result = r.result;
      err_msg =
          if is_zero r.ret
          then none
          else if int_eq r.ret not_connected
          then some (unreachable r.err_msg)
          else some (rejected r.err_msg);
    }

-- The host answered, or its daemon does not know the call.
abbrev pub IsReached : ℤ → (Text → VersionAnswer) → Text → Type 0
IsReached old answers h = ((answers h).ret ≡ old) ⊎ ((answers h).ret ≡ pos 0)

peer-IsReached :
    (old : ℤ) (answers : Text → VersionAnswer) (h : Text)
    → old ≢ not_connected
    → IsAnswer old (capabilities_remote old answers h) ↔ IsReached old answers h
unfolding capabilities_remote
peer-IsReached old answers h n =
    let a = int_eq_iff (answers h).ret old in
    let b = int_eq_iff (answers h).ret (pos 0) in
    (λ e. ground (arith, a, b, n, e), λ e. ground (arith, a, b, e))

peers-IsReached :
    (old : ℤ) (answers : Text → VersionAnswer) (hosts : List Text)
    → old ≢ not_connected
    → All (IsAnswer old) (map (capabilities_remote old answers) hosts)
      ↔ All (IsReached old answers) hosts
peers-IsReached old answers [] n = (λ h. tt, λ h. tt)
peers-IsReached old answers (h ∷ hs) n =
    let (f, g) = peer-IsReached old answers h n in
    let (f', g') = peers-IsReached old answers hs n in (λ a. (f a.0, f' a.1), λ a. (g a.0, g' a.1))

-- The hosts with what they offer; an old daemon offers what `glusterBlockMimicOldCaps` says.
abbrev pub offering : ℤ → (Text → VersionAnswer) → List Text → List Host
offering old answers hosts = map (host_of old) (map (capabilities_remote old answers) hosts)

-- If the code for an unknown call is not that for an unreachable host: without a result array the check of
-- an operation returns 0 exactly if each host of the list answered, or does not know the call, and offers
-- every capability that the operation asks for.
pub check_capabilities_iff :
    (old : ℤ) (answers : Text → VersionAnswer) (req : Request) (hosts : List Text)
    → old ≢ not_connected
    → ((check_capabilities old answers req (some hosts) none).err_code ≡ pos 0) ↔ (
        All (IsReached old answers) hosts
        × ((c : Cap)
            → build_min_caps req c ≡ true
            → all_have c (offering old answers hosts) ≡ true))
unfolding check_capabilities capability_remote_async
check_capabilities_iff old answers req hosts n =
    let (f, g) =
      caps_strict old (map (capabilities_remote old answers) hosts) (build_min_caps req) in
    let (p, q) = peers-IsReached old answers hosts n in
    (λ e. let (a, c) = f e in (p a, c), λ (a, c). g (q a, c))
