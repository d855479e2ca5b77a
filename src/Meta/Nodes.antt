-- ===== src/Meta/Nodes.antt =====
-- Laws of the node list that `blockStuffMetaInfo` keeps (rpc/glfs-operations.c).
use gluster_block.Prelude.{
  ◌+◌, ◌≤◌, ◌≡◌, false, Option, none, some, List, [], ◌∷◌, arith, if◌then◌else◌, All, length,
  Bool-cases, inl, inr, refl,
}
use gluster_block.Text.{Text, str_eq, str_cpy}
use gluster_block.Text.Laws.{str_eq_iff}
use gluster_block.Meta.{NodeInfo, record_status}

-- The status text of the first node with the given address.
unfoldable pub status_of : Text → List NodeInfo → Option Text
status_of h [] = none
status_of h (n ∷ ns) = if str_eq n.addr h then some n.status else status_of h ns

-- No node of the list has the address.
abbrev pub Absent : Text → List NodeInfo → Type 0
Absent h ns = All (λ n. str_eq n.addr h ≡ false) ns

-- No two nodes have the same address.
abbrev pub Distinct : List NodeInfo → Type 0
Distinct [] = Unit
Distinct (n ∷ ns) = Absent n.addr ns × Distinct ns

-- A host name and a status that fit the arrays of a node.
pub record Fits (h st : Text) : Type 0 where
  pub host : length h ≤ 254
  pub status : length st ≤ 31

-- After a host's status is recorded, that host has it, and every other host has what it had.
pub status_of-record_status :
    (h st b : Text) (ns : List NodeInfo)
    → Fits h st
    → status_of b (record_status h st ns) ≡ (if str_eq h b then some st else status_of b ns)
unfolding status_of record_status str_cpy
status_of-record_status h st b [] f = ground arith
status_of-record_status h st b (n ∷ ns) f = ground (
  arith,
  status_of-record_status h st b ns f,
  str_eq_iff n.addr h,
  str_eq_iff n.addr b,
  str_eq_iff h b,
)

Absent-record_status :
    (a h st : Text) (ns : List NodeInfo)
    → Fits h st
    → str_eq a h ≡ false
    → Absent a ns
    → Absent a (record_status h st ns)
unfolding record_status str_cpy
Absent-record_status a h st [] f ne ab = (ground (arith, str_eq_iff a h, str_eq_iff h a), tt)
Absent-record_status a h st (n ∷ ns) f ne ab = elim (Bool-cases (str_eq n.addr h)) [
  | inl e ↦ rw e (ab.0, ab.1)
  | inr e ↦ rw e (ab.0, Absent-record_status a h st ns f ne ab.1)
]

-- The addresses of the nodes stay distinct.
pub record_status-Distinct :
    (h st : Text) (ns : List NodeInfo) → Fits h st → Distinct ns → Distinct (record_status h st ns)
unfolding record_status
record_status-Distinct h st [] f d = (tt, tt)
record_status-Distinct h st (n ∷ ns) f d = elim (Bool-cases (str_eq n.addr h)) [
  | inl e ↦ rw e (d.0, d.1)
  | inr e ↦ rw e (Absent-record_status n.addr h st ns f e d.0, record_status-Distinct h st ns f d.1)
]

-- A node is added exactly if the host is new.
pub length-record_status :
    (h st : Text) (ns : List NodeInfo)
    → length (record_status h st ns)
      ≡ (elim (status_of h ns) [ none ↦ length ns + 1 | some _ ↦ length ns ])
unfolding status_of record_status
length-record_status h st [] = refl
length-record_status h st (n ∷ ns) = ground (arith, length-record_status h st ns)
