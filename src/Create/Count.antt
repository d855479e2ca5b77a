-- ===== src/Create/Count.antt =====
-- Counting the nodes of a block that has just been created, host by host (`glusterBlockAuditRequest`,
-- rpc/block_create.c).
use gluster_block.Prelude.{
  suc, ◌≡◌, ◌∙◌, refl, ap, Bool, true, false, not, ◌||◌, some, List, [], ◌∷◌, arith, All, length,
  select, count_if, Bool-cases, inl, inr,
}
use gluster_block.Text.{Text, str_eq, str_cpy}
use gluster_block.Text.Laws.{str_eq_iff}
use gluster_block.Meta.{NodeInfo, record_status}
use gluster_block.Meta.Nodes.{Absent, Distinct, status_of, Fits}
use gluster_block.Meta.Lines.{IsHost-Fits}
use gluster_block.Meta.Journal.{Entry, IsEntry, journal}

-- A host is in the list.
unfoldable pub listed : Text → List Text → Bool
listed a [] = false
listed a (h ∷ hs) = str_eq a h || listed a hs

-- No host stands twice in the list.
abbrev pub NoRepeat : List Text → Type 0
NoRepeat [] = Unit
NoRepeat (h ∷ hs) = All (λ k. str_eq k h ≡ false) hs × NoRepeat hs

without : Text → List NodeInfo → List NodeInfo
without h ns = select (λ n. not (str_eq n.addr h)) ns

without-Absent : (h : Text) (ns : List NodeInfo) → Absent h ns → without h ns ≡ ns
unfolding without
without-Absent h [] a = refl
without-Absent h (n ∷ ns) a = ground (arith, a.0, without-Absent h ns a.1)

Absent-without : (k h : Text) (ns : List NodeInfo) → Absent k ns → Absent k (without h ns)
unfolding without
Absent-without k h [] a = tt
Absent-without k h (n ∷ ns) a = elim (Bool-cases (str_eq n.addr h)) [
  | inl e ↦ rw e (Absent-without k h ns a.1)
  | inr e ↦ rw e (a.0, Absent-without k h ns a.1)
]

Distinct-without : (h : Text) (ns : List NodeInfo) → Distinct ns → Distinct (without h ns)
unfolding without
Distinct-without h [] d = tt
Distinct-without h (n ∷ ns) d = elim (Bool-cases (str_eq n.addr h)) [
  | inl e ↦ rw e (Distinct-without h ns d.1)
  | inr e ↦ rw e (Absent-without n.addr h ns d.0, Distinct-without h ns d.1)
]

status_of-without :
    (k h : Text) (ns : List NodeInfo)
    → str_eq k h ≡ false
    → status_of k (without h ns) ≡ status_of k ns
unfolding without status_of
status_of-without k h [] ne = refl
status_of-without k h (n ∷ ns) ne =
    ground (arith, ne, status_of-without k h ns ne, str_eq_iff n.addr k, str_eq_iff k h)

listed-without :
    (h : Text) (hs : List Text) (ns : List NodeInfo)
    → All (λ n. listed n.addr (h ∷ hs) ≡ true) ns
    → All (λ n. listed n.addr hs ≡ true) (without h ns)
unfolding without listed
listed-without h hs [] a = tt
listed-without h hs (n ∷ ns) a = elim (Bool-cases (str_eq n.addr h)) [
  | inl e ↦ rw e (listed-without h hs ns a.1)
  | inr e ↦ rw e (ground (arith, a.0, e), listed-without h hs ns a.1)
]

count-without :
    (p : Text → Bool) (h s : Text) (ns : List NodeInfo)
    → Distinct ns
    → status_of h ns ≡ some s
    → p s ≡ true
    → count_if (λ n. p n.status) ns ≡ suc (count_if (λ n. p n.status) (without h ns))
unfolding without status_of
count-without p h s [] d e t = cc
count-without p h s (n ∷ ns) d e t = elim (Bool-cases (str_eq n.addr h)) [
  | inl q ↦
      let a : Absent h ns = rw ((str_eq_iff n.addr h).0 q) at d.0 in
      ground (arith, q, e, t, without-Absent h ns a)
  | inr q ↦ ground (arith, q, e, count-without p h s ns d.1)
]

-- The host's status passes the test.
abbrev pub IsPassed : (Text → Bool) → List NodeInfo → Text → Type 0
IsPassed p ns h = (s : Text) × (status_of h ns ≡ some s) × (p s ≡ true)

IsPassed-without :
    (p : Text → Bool) (h : Text) (hs : List Text) (ns : List NodeInfo)
    → All (λ k. str_eq k h ≡ false) hs
    → All (IsPassed p ns) hs
    → All (IsPassed p (without h ns)) hs
IsPassed-without p h [] ns ne a = tt
IsPassed-without p h (k ∷ hs) ns ne a =
    let (s, e, t) = a.0 in
    ((s, status_of-without k h ns ne.0 ∙ e, t), IsPassed-without p h hs ns ne.1 a.1)

-- If the nodes are those of the hosts and each host passes, there are as many passes as hosts.
pub count-hosts :
    (p : Text → Bool) (hs : List Text) (ns : List NodeInfo)
    → NoRepeat hs
    → Distinct ns
    → All (λ n. listed n.addr hs ≡ true) ns
    → All (IsPassed p ns) hs
    → count_if (λ n. p n.status) ns ≡ length hs
unfolding listed
count-hosts p [] [] r d l a = refl
count-hosts p [] (n ∷ ns) r d l a = absurd (ground (arith, l.0))
count-hosts p (h ∷ hs) ns r d l a =
    let (s, e, t) = a.0 in
    count-without p h s ns d e t
    ∙ ap suc (
        count-hosts p hs (without h ns) r.1 (Distinct-without h ns d) (listed-without h hs ns l)
          (IsPassed-without p h hs ns r.0 a.1))

record_status-listed :
    (hs : List Text) (h st : Text) (ns : List NodeInfo)
    → Fits h st
    → listed h hs ≡ true
    → All (λ n. listed n.addr hs ≡ true) ns
    → All (λ n. listed n.addr hs ≡ true) (record_status h st ns)
unfolding record_status str_cpy
record_status-listed hs h st [] f l a = (ground (arith, f.host, l), tt)
record_status-listed hs h st (n ∷ ns) f l a = elim (Bool-cases (str_eq n.addr h)) [
  | inl e ↦ rw e a
  | inr e ↦ rw e (a.0, record_status-listed hs h st ns f l a.1)
]

-- A journal about listed hosts makes nodes of listed hosts only.
pub journal-listed :
    (hs : List Text) (es : List Entry) (ns : List NodeInfo)
    → All IsEntry es
    → All (λ e. listed e.host hs ≡ true) es
    → All (λ n. listed n.addr hs ≡ true) ns
    → All (λ n. listed n.addr hs ≡ true) (journal es ns)
unfolding journal
journal-listed hs [] ns v l a = a
journal-listed hs (e ∷ es) ns v l a =
    journal-listed hs es (record_status e.host e.status ns) v.1 l.1
      (record_status-listed hs e.host e.status ns (IsHost-Fits v.0.host v.0.status) l.0 a)
