-- ===== src/Meta/Restamp.antt =====
-- A journal about hosts that the node list knows already changes the nodes one by one: none is added,
-- and each keeps its place and its address (`blockStuffMetaInfo`, rpc/glfs-operations.c).
pub mod Grown
use gluster_block.Prelude.{
  ◌≡◌, ◌∙◌, refl, ap, ap₂, Bool, true, false, ◌||◌, some, List, [], ◌∷◌, ◌++◌, map, arith,
  if◌then◌else◌, All, Bool-cases, inl, inr,
}
use gluster_block.Text.{Text, str_eq, str_cpy}
use gluster_block.Text.Laws.{str_eq_iff}
use gluster_block.Meta.{NodeInfo, record_status, status_size}
use gluster_block.Meta.Nodes.{Absent, Distinct}
use gluster_block.Meta.Journal.{Entry, IsEntry, last_status, journal}

-- What a line does to one node.
abbrev pub touch : Entry → NodeInfo → NodeInfo
touch e n =
    if str_eq n.addr e.host
    then record n {
      status = str_cpy status_size e.status n.status;
      st_journal = n.st_journal ++ e.status ∷ [];
    }
    else n

unfoldable pub touch_all : List Entry → NodeInfo → NodeInfo
touch_all [] n = n
touch_all (e ∷ es) n = touch_all es (touch e n)

-- A node has the address.
unfoldable pub has : Text → List NodeInfo → Bool
has h [] = false
has h (n ∷ ns) = str_eq n.addr h || has h ns

addr-touch : (e : Entry) (n : NodeInfo) → (touch e n).addr ≡ n.addr
addr-touch e n = ground arith

pub map-touch-Absent : (e : Entry) (ns : List NodeInfo) → Absent e.host ns → map (touch e) ns ≡ ns
map-touch-Absent e [] h = refl
map-touch-Absent e (n ∷ ns) h = ground (arith, map-touch-Absent e ns h.1, h.0)

pub record_status-touch :
    (e : Entry) (ns : List NodeInfo)
    → Distinct ns
    → has e.host ns ≡ true
    → record_status e.host e.status ns ≡ map (touch e) ns
unfolding record_status has
record_status-touch e [] d h = cc
record_status-touch e (n ∷ ns) d h = elim (Bool-cases (str_eq n.addr e.host)) [
  | inl p ↦
      let a : Absent e.host ns = rw ((str_eq_iff n.addr e.host).0 p) at d.0 in
      ground (arith, p, map-touch-Absent e ns a)
  | inr p ↦ ground (arith, p, record_status-touch e ns d.1)
]

pub has-touch : (e : Entry) (h : Text) (ns : List NodeInfo) → has h (map (touch e) ns) ≡ has h ns
unfolding has
has-touch e h [] = refl
has-touch e h (n ∷ ns) = rw (addr-touch e n, has-touch e h ns)

pub Absent-touch :
    (e : Entry) (h : Text) (ns : List NodeInfo) → Absent h ns → Absent h (map (touch e) ns)
Absent-touch e h [] a = tt
Absent-touch e h (n ∷ ns) a = (rw (addr-touch e n) a.0, Absent-touch e h ns a.1)

pub Distinct-touch : (e : Entry) (ns : List NodeInfo) → Distinct ns → Distinct (map (touch e) ns)
Distinct-touch e [] d = tt
Distinct-touch e (n ∷ ns) d =
    (rw (addr-touch e n) (Absent-touch e n.addr ns d.0), Distinct-touch e ns d.1)

pub map-touch_all :
    (e : Entry) (es : List Entry) (ns : List NodeInfo)
    → map (touch_all es) (map (touch e) ns) ≡ map (touch_all (e ∷ es)) ns
unfolding touch_all
map-touch_all e es [] = refl
map-touch_all e es (n ∷ ns) = ap (◌∷◌ (touch_all es (touch e n))) (map-touch_all e es ns)

map-touch_nothing : (ns : List NodeInfo) → ns ≡ map (touch_all []) ns
unfolding touch_all
map-touch_nothing [] = refl
map-touch_nothing (n ∷ ns) = ap (◌∷◌ n) (map-touch_nothing ns)

known-touch :
    (e : Entry) (es : List Entry) (ns : List NodeInfo)
    → All (λ d. has d.host ns ≡ true) es
    → All (λ d. has d.host (map (touch e) ns) ≡ true) es
known-touch e [] ns h = tt
known-touch e (d ∷ es) ns h = (rw (has-touch e d.host ns) h.0, known-touch e es ns h.1)

-- A journal about known hosts changes the nodes in place.
pub journal-touch_all :
    (es : List Entry) (ns : List NodeInfo)
    → Distinct ns
    → All (λ e. has e.host ns ≡ true) es
    → journal es ns ≡ map (touch_all es) ns
unfolding journal
journal-touch_all [] ns d h = map-touch_nothing ns
journal-touch_all (e ∷ es) ns d h = rw (record_status-touch e ns d h.0) (
    journal-touch_all es (map (touch e) ns) (Distinct-touch e ns d) (known-touch e es ns h.1)
    ∙ map-touch_all e es ns)

-- The addresses stay distinct.
pub Distinct-touch_all :
    (es : List Entry) (ns : List NodeInfo) → Distinct ns → Distinct (map (touch_all es) ns)
Distinct-touch_all [] ns d = rw (← map-touch_nothing ns) d
Distinct-touch_all (e ∷ es) ns d =
    rw (← map-touch_all e es ns) (Distinct-touch_all es (map (touch e) ns) (Distinct-touch e ns d))

pub addr-touch_all : (es : List Entry) (n : NodeInfo) → (touch_all es n).addr ≡ n.addr
unfolding touch_all
addr-touch_all [] n = refl
addr-touch_all (e ∷ es) n = addr-touch_all es (touch e n) ∙ addr-touch e n

status-touch :
    (e : Entry) (n : NodeInfo)
    → IsEntry e
    → some (touch e n).status ≡ (if str_eq e.host n.addr then some e.status else some n.status)
unfolding str_cpy
status-touch e n v =
    ground (arith, str_eq_iff e.host n.addr, str_eq_iff n.addr e.host, v.status.fits)

-- The node ends with the status of the last line about its address.
pub status-touch_all :
    (es : List Entry) (n : NodeInfo)
    → All IsEntry es
    → some (touch_all es n).status ≡ last_status n.addr es (some n.status)
unfolding touch_all last_status
status-touch_all [] n v = refl
status-touch_all (e ∷ es) n v =
    status-touch_all es (touch e n) v.1
    ∙ ap₂ (λ a o. last_status a es o) (addr-touch e n) (status-touch e n v.0)
