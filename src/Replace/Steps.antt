-- ===== src/Replace/Steps.antt =====
-- The threads of a replace: whose lines they write and what they leave their hosts with
-- (rpc/block_replace.c).
use gluster_block.Prelude.{
  ◌≡◌, refl, true, false, List, [], ◌∷◌, ◌++◌, map, arith, All, All-append, All-map, Bool-cases,
  inl, inr,
}
use gluster_block.Text.{Text, str_eq}
use gluster_block.Text.Laws.{str_eq_iff}
use gluster_block.Enums.Status.{MetaStatus}
use gluster_block.Meta.{NodeInfo}
use gluster_block.Meta.Nodes.{Distinct}
use gluster_block.Meta.Journal.{Entry}
use gluster_block.Meta.Merge.{Thread, IsOwn, DistinctHosts}
use gluster_block.Remote.{Script, note_status}
use gluster_block.Remote.Laws.{
  About, delete_remote-About, delete_remote-Writes, replace_portal_remote-Writes,
}
use gluster_block.Create.Count.{NoRepeat}
use gluster_block.Replace.{is_staying, portal_step, delete_step}
use gluster_block.Replace.Slots.{staying}

module _ (answers : Text → Script) where
  portals-IsOwn : (hs : List Text) → All IsOwn (map (portal_step answers) hs)
  portals-IsOwn [] = tt
  portals-IsOwn (h ∷ hs) =
      ((replace_portal_remote-Writes h (answers h) {P = About h} (λ st. refl)).at, portals-IsOwn hs)

  -- The portals of these hosts, and the clean-up of the old one.
  abbrev pub rest_threads : List Text → Text → List Thread
  rest_threads hs old_node = map (portal_step answers) hs ++ delete_step answers old_node ∷ []

  pub rest-IsOwn : (hs : List Text) (old_node : Text) → All IsOwn (rest_threads hs old_node)
  rest-IsOwn hs old_node =
      All-append IsOwn (map (portal_step answers) hs) (delete_step answers old_node ∷ [])
        (portals-IsOwn hs) ((delete_remote-About old_node (answers old_node)).at, tt)

  pub rest-apart :
      (h : Text) (hs : List Text) (old_node : Text)
      → All (λ k. str_eq k h ≡ false) hs
      → str_eq old_node h ≡ false
      → All (λ t. str_eq t.host h ≡ false) (rest_threads hs old_node)
  rest-apart h [] old_node a o = (o, tt)
  rest-apart h (k ∷ hs) old_node a o = (a.0, rest-apart h hs old_node a.1 o)

  pub rest-DistinctHosts :
      (hs : List Text) (old_node : Text)
      → NoRepeat hs
      → All (λ k. str_eq old_node k ≡ false) hs
      → DistinctHosts (rest_threads hs old_node)
  rest-DistinctHosts [] old_node n o = (tt, tt)
  rest-DistinctHosts (h ∷ hs) old_node n o =
      (rest-apart h hs old_node n.0 o.0, rest-DistinctHosts hs old_node n.1 o.1)

  pub rest-writes :
      (P : Entry → Type 0) (hs : List Text) (old_node : Text)
      → All (λ h. (st : MetaStatus) → P (note_status h st)) hs
      → ((st : MetaStatus) → P (note_status old_node st))
      → All (λ t. All P t.writes) (rest_threads hs old_node)
  rest-writes P [] old_node p o =
      ((delete_remote-Writes {P = P} old_node (answers old_node) o).at, tt)
  rest-writes P (h ∷ hs) old_node p o =
      ((replace_portal_remote-Writes h (answers h) {P = P} p.0).at, rest-writes P hs old_node p.1 o)

-- The hosts that stay are among the nodes, distinct, and none is the old one.
module _ (old_node : Text) where
  staying-All :
      (P : Text → Type 0) (ns : List NodeInfo)
      → All (λ (n : NodeInfo). is_staying old_node n ≡ true → P n.addr) ns
      → All P (staying old_node ns)
  staying-All P [] p = tt
  staying-All P (n ∷ ns) p = elim (Bool-cases (is_staying old_node n)) [
    | inl e ↦ rw e (p.0 e, staying-All P ns p.1)
    | inr e ↦ rw e (staying-All P ns p.1)
  ]

  not-old : (n : NodeInfo) → is_staying old_node n ≡ true → str_eq old_node n.addr ≡ false
  unfolding is_staying
  not-old n e = ground (arith, str_eq_iff old_node n.addr, str_eq_iff n.addr old_node)

  all-not-old :
      (ns : List NodeInfo)
      → All (λ (n : NodeInfo). is_staying old_node n ≡ true → str_eq old_node n.addr ≡ false) ns
  all-not-old [] = tt
  all-not-old (n ∷ ns) = (not-old n, all-not-old ns)

  pub staying-not_old :
      (ns : List NodeInfo) → All (λ k. str_eq old_node k ≡ false) (staying old_node ns)
  staying-not_old ns = staying-All (λ k. str_eq old_node k ≡ false) ns (all-not-old ns)

  pub staying-every :
      (P : Text → Type 0) (ns : List NodeInfo)
      → All (λ (n : NodeInfo). P n.addr) ns
      → All P (staying old_node ns)
  staying-every P ns h = staying-All P ns (All-map (λ n p e. p) ns h)

  pub staying-NoRepeat : (ns : List NodeInfo) → Distinct ns → NoRepeat (staying old_node ns)
  staying-NoRepeat [] d = tt
  staying-NoRepeat (n ∷ ns) d = elim (Bool-cases (is_staying old_node n)) [
    | inl e ↦ rw e (staying-every (λ k. str_eq k n.addr ≡ false) ns d.0, staying-NoRepeat ns d.1)
    | inr e ↦ rw e (staying-NoRepeat ns d.1)
  ]
