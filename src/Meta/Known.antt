-- ===== src/Meta/Known.antt =====
-- What a reader of the file knows of a host: `blockGetHostStatus` (rpc/block_svc_routines.c) behind
-- `blockParseRSstatus` (rpc/glfs-operations.c).
use gluster_block.Prelude.{
  ◌≡◌, ◌∙◌, refl, true, false, Option, none, some, List, [], ◌∷◌, arith, All, Bool-cases, inl, inr,
}
use gluster_block.Text.{Text, str_eq}
use gluster_block.Text.Laws.{str_eq_iff}
use gluster_block.Enums.Status.{MetaStatus, status_parse}
use gluster_block.Meta.{NodeInfo, MetaInfo, rs_nodes, parse_rs_status}
use gluster_block.Meta.Nodes.{status_of, Distinct}
use gluster_block.Meta.Shown.{shown, status-parse_rs_node, addr-parse_rs_node}
use gluster_block.Meta.Restamp.{has}
use gluster_block.Meta.Servers.{get_host_status, get_host_status_lem}

-- The status of a host, from the text in the file.
abbrev pub known_as : Option Text → Option MetaStatus
known_as none = none
known_as (some s) = status_parse (some (shown s))

read_as : Option Text → Option MetaStatus
read_as none = none
read_as (some s) = status_parse (some s)

rs_status_of :
    (h : Text) (ns : List NodeInfo)
    → (elim (status_of h (rs_nodes ns)) [ none ↦ none | some s ↦ status_parse (some s) ])
      ≡ known_as (status_of h ns)
unfolding status_of rs_nodes
rs_status_of h [] = refl
rs_status_of h (n ∷ ns) = elim (Bool-cases (str_eq n.addr h)) [
  | inl e ↦ rw (addr-parse_rs_node n, e, status-parse_rs_node n) refl
  | inr e ↦ rw (addr-parse_rs_node n, e) (rs_status_of h ns)
]

pub get_host_status-known :
    (h : Text) (raw : MetaInfo)
    → get_host_status (parse_rs_status raw) (some h) ≡ known_as (status_of h raw.nodes)
unfolding parse_rs_status
get_host_status-known h raw = get_host_status_lem h (parse_rs_status raw) ∙ rs_status_of h raw.nodes

pub known-has :
    (h : Text) (ns : List NodeInfo) (st : MetaStatus)
    → known_as (status_of h ns) ≡ some st
    → has h ns ≡ true
unfolding status_of has
known-has h [] st e = cc
known-has h (n ∷ ns) st e = elim (Bool-cases (str_eq n.addr h)) [
  | inl k ↦ ground (arith, k)
  | inr k ↦ let e' = rw k at e in ground (arith, k, known-has h ns st e')
]

pub has-All :
    (P : Text → Type 0) (h : Text) (ns : List NodeInfo)
    → has h ns ≡ true
    → All (λ (n : NodeInfo). P n.addr) ns
    → P h
unfolding has
has-All P h [] k a = absurd (cc)
has-All P h (n ∷ ns) k a = elim (Bool-cases (str_eq n.addr h)) [
  | inl e ↦ rw (← (str_eq_iff n.addr h).0 e) a.0
  | inr e ↦ has-All P h ns (ground (arith, k, e)) a.1
]

pub rs-All :
    (P : Text → Type 0) (ns : List NodeInfo)
    → All (λ (n : NodeInfo). P n.addr) ns
    → All (λ (n : NodeInfo). P n.addr) (rs_nodes ns)
unfolding rs_nodes
rs-All P [] a = tt
rs-All P (n ∷ ns) a = (rw (addr-parse_rs_node n) a.0, rs-All P ns a.1)

pub rs-Distinct : (ns : List NodeInfo) → Distinct ns → Distinct (rs_nodes ns)
unfolding rs_nodes
rs-Distinct [] d = tt
rs-Distinct (n ∷ ns) d =
    (rw (addr-parse_rs_node n) (rs-All (λ a. str_eq a n.addr ≡ false) ns d.0), rs-Distinct ns d.1)
