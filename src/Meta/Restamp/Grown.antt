-- ===== src/Meta/Restamp/Grown.antt =====
-- A journal about known hosts and one new host: the new node stands at the end of the list
-- (`blockStuffMetaInfo`, rpc/glfs-operations.c).
use gluster_block.Prelude.{
  ◌≡◌, ◌∙◌, refl, ap, true, false, List, [], ◌∷◌, ◌++◌, map, arith, All, ◌⊎◌, inl, inr, sym,
}
use mathlib.Core.List.{append-nil}
use gluster_block.Text.{Text, str_eq, str_cpy}
use gluster_block.Text.Laws.{str_eq_iff, str_eq_refl}
use gluster_block.Meta.{NodeInfo, record_status}
use gluster_block.Meta.Nodes.{Absent, Distinct}
use gluster_block.Meta.Lines.{IsHost}
use gluster_block.Meta.Journal.{Entry, journal}
use gluster_block.Meta.Restamp.{
  touch, touch_all, has, map-touch-Absent, record_status-touch, has-touch, Absent-touch,
  Distinct-touch, map-touch_all, journal-touch_all, addr-touch_all,
}

-- The line is about a node of the list or about the new host.
abbrev pub Concerns : Text → List NodeInfo → Entry → Type 0
Concerns new ns e = (has e.host ns ≡ true) ⊎ (e.host ≡ new)

-- The list has at most one more node, which has the new address.
pub data Grown (new : Text) : List NodeInfo → Type 0 where
  nothing : Grown new []
  one : (n : NodeInfo) → n.addr ≡ new → Grown new (n ∷ [])

Concerns-touch :
    (new : Text) (d : Entry) (es : List Entry) (ns : List NodeInfo)
    → All (Concerns new ns) es
    → All (Concerns new (map (touch d) ns)) es
Concerns-touch new d [] ns c = tt
Concerns-touch new d (e ∷ es) ns c = (
  elim c.0 [ inl k ↦ inl (rw (has-touch d e.host ns) k) | inr k ↦ inr k ],
  Concerns-touch new d es ns c.1,
)

has-snoc :
    (h : Text) (ns : List NodeInfo) (n : NodeInfo)
    → (has h ns ≡ true) ⊎ (h ≡ n.addr)
    → has h (ns ++ n ∷ []) ≡ true
unfolding has
has-snoc h [] n (inl k) = cc
has-snoc h [] n (inr k) = ground (arith, k, str_eq_refl n.addr)
has-snoc h (m ∷ ns) n (inl k) = ground (arith, k, has-snoc h ns n)
has-snoc h (m ∷ ns) n (inr k) = ground (arith, has-snoc h ns n (inr k))

Concerns-known :
    (new : Text) (n : NodeInfo) (ns : List NodeInfo) (es : List Entry)
    → n.addr ≡ new
    → All (Concerns new ns) es
    → All (λ e. has e.host (ns ++ n ∷ []) ≡ true) es
Concerns-known new n ns [] a c = tt
Concerns-known new n ns (e ∷ es) a c = (
  has-snoc e.host ns n (elim c.0 [ inl k ↦ inl k | inr k ↦ inr (k ∙ sym a) ]),
  Concerns-known new n ns es a c.1,
)

Absent-snoc :
    (h : Text) (ns : List NodeInfo) (n : NodeInfo)
    → Absent h ns
    → str_eq n.addr h ≡ false
    → Absent h (ns ++ n ∷ [])
Absent-snoc h [] n a k = (k, tt)
Absent-snoc h (m ∷ ns) n a k = (a.0, Absent-snoc h ns n a.1 k)

pub Distinct-snoc :
    (ns : List NodeInfo) (n : NodeInfo) → Absent n.addr ns → Distinct ns → Distinct (ns ++ n ∷ [])
Distinct-snoc [] n a d = (tt, tt)
Distinct-snoc (m ∷ ns) n a d = (
  Absent-snoc m.addr ns n d.0
      (ground (arith, a.0, str_eq_iff m.addr n.addr, str_eq_iff n.addr m.addr)),
  Distinct-snoc ns n a.1 d.1,
)

map-append :
    (f : NodeInfo → NodeInfo) (ns ks : List NodeInfo) → map f (ns ++ ks) ≡ map f ns ++ map f ks
map-append f [] ks = refl
map-append f (n ∷ ns) ks = ap (◌∷◌ (f n)) (map-append f ns ks)

record_status-new :
    (new st : Text) (ns : List NodeInfo)
    → IsHost new
    → Absent new ns
    → (n : NodeInfo) × (record_status new st ns ≡ ns ++ n ∷ []) × (n.addr ≡ new)
unfolding record_status str_cpy
record_status-new new st [] i a = (_, refl, ground (arith, i.fits))
record_status-new new st (m ∷ ns) i a =
    let (n, e, k) = record_status-new new st ns i a.1 in (n, rw (a.0) (ap (◌∷◌ m) e), k)

pub journal-Grown :
    (new : Text) (es : List Entry) (ns : List NodeInfo)
    → IsHost new
    → Distinct ns
    → Absent new ns
    → All (Concerns new ns) es
    → (more : List NodeInfo) × (journal es ns ≡ map (touch_all es) ns ++ more) × Grown new more
unfolding journal
journal-Grown new [] ns i d a c =
    ([], journal-touch_all [] ns d tt ∙ sym (append-nil (map (touch_all []) ns)), nothing)
journal-Grown new (e ∷ es) ns i d a c = elim c.0 [
  | inl k ↦
      let (more, p, g) =
        journal-Grown new es (map (touch e) ns) i (Distinct-touch e ns d) (Absent-touch e new ns a)
          (Concerns-touch new e es ns c.1) in
      (more, rw (record_status-touch e ns d k) (p ∙ ap (λ l. l ++ more) (map-touch_all e es ns)), g)
  | inr k ↦
      let a' : Absent e.host ns = rw k a in
      let (n, p, q) = record_status-new e.host e.status ns (rw k i) a' in
      let same : map (touch_all es) ns ≡ map (touch_all (e ∷ es)) ns =
        ap (map (touch_all es)) (sym (map-touch-Absent e ns a')) ∙ map-touch_all e es ns in
      let known = Concerns-known new n ns es (q ∙ k) c.1 in
      (
        touch_all es n ∷ [],
        ap (journal es) p
            ∙ journal-touch_all es (ns ++ n ∷ []) (Distinct-snoc ns n (rw q a') d) known
            ∙ map-append (touch_all es) ns (n ∷ [])
            ∙ ap (λ l. l ++ touch_all es n ∷ []) same,
        one (touch_all es n) (addr-touch_all es n ∙ q ∙ k),
      )
]
