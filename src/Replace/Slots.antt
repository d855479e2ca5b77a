-- ===== src/Replace/Slots.antt =====
-- The array of arguments of a replace (`glusterBlockReplaceNodeRemoteAsync`, rpc/block_replace.c).
use gluster_block.Prelude.{
  ℕ, zero, suc, ◌+◌, ◌-◌, ◌<◌, ◌≡◌, ◌∙◌, refl, ap, true, false, Option, none, some, List, [], ◌∷◌,
  ◌++◌, map, arith, length, length-append, take, select, Bool-cases, inl, inr,
}
use mathlib.Core.List.{append-nil, append_assoc}
use gluster_block.Text.{Text}
use gluster_block.Meta.{NodeInfo, MetaInfo}
use gluster_block.Replace.{
  ReplaceCli, Slots, put_slot, blank_slots, is_staying, fill_slots, replace_slots, portals,
}

-- The hosts that keep the block.
abbrev pub staying : Text → List NodeInfo → List Text
staying old_node ns = map (λ (n : NodeInfo). n.addr) (select (is_staying old_node) ns)

-- Each behind a comma.
abbrev pub commas : List Text → Text
commas [] = []
commas (h ∷ hs) = (b',' ∷ h) ++ commas hs

abbrev pub filled : List Text → Slots
filled hs = map some hs

put_slot-append :
    (pre ss : Slots) (s : Option Text) (a : Text)
    → put_slot (length pre) a (pre ++ s ∷ ss) ≡ some (pre ++ some a ∷ ss)
unfolding put_slot
put_slot-append [] ss s a = refl
put_slot-append (p ∷ pre) ss s a = rw (put_slot-append pre ss s a) refl

put_slot-end : (pre : Slots) (a : Text) → put_slot (length pre) a pre ≡ none
unfolding put_slot
put_slot-end [] a = refl
put_slot-end (p ∷ pre) a = rw (put_slot-end pre a) refl

module _ (old_node : Text) (n : NodeInfo) (ns : List NodeInfo) (pre : Slots)
    (block_hosts : Text) where
  fill_slots-leaves :
      (ss : Slots)
      → is_staying old_node n ≡ false
      → fill_slots old_node (n ∷ ns) (length pre) ss block_hosts
        ≡ fill_slots old_node ns (length pre) ss block_hosts
  unfolding fill_slots
  fill_slots-leaves ss e = rw (fill_slots, e) refl

  fill_slots-stays :
      (ss : Slots)
      → is_staying old_node n ≡ true
      → fill_slots old_node (n ∷ ns) (length pre) (pre ++ none ∷ ss) block_hosts
        ≡ fill_slots old_node ns
            (length (pre ++ some n.addr ∷ []))
            ((pre ++ some n.addr ∷ []) ++ ss)
            (block_hosts ++ (b',' ∷ n.addr))
  unfolding fill_slots
  fill_slots-stays ss e =
      rw (fill_slots, e, put_slot-append pre ss none n.addr)
        (rw (append_assoc pre (some n.addr ∷ []) ss, length-append pre (some n.addr ∷ [])) refl)

  fill_slots-full :
      is_staying old_node n ≡ true
      → fill_slots old_node (n ∷ ns) (length pre) (pre ++ []) block_hosts ≡ none
  unfolding fill_slots
  fill_slots-full e = rw (fill_slots, e, append-nil) (rw (put_slot-end pre n.addr) refl)

staying-cons :
    (old_node : Text) (n : NodeInfo) (ns : List NodeInfo)
    → is_staying old_node n ≡ true
    → staying old_node (n ∷ ns) ≡ n.addr ∷ staying old_node ns
staying-cons old_node n ns e = rw e refl

staying-skip :
    (old_node : Text) (n : NodeInfo) (ns : List NodeInfo)
    → is_staying old_node n ≡ false
    → staying old_node (n ∷ ns) ≡ staying old_node ns
staying-skip old_node n ns e = rw e refl

fill_slots-fits :
    (old_node : Text) (ns : List NodeInfo) (pre : Slots) (k : ℕ) (block_hosts : Text)
    → fill_slots old_node ns
        (length pre)
        (pre ++ (blank_slots (length (staying old_node ns) + k)))
        block_hosts
      ≡ some (
        pre ++ (filled (staying old_node ns) ++ blank_slots k),
        block_hosts ++ commas (staying old_node ns),
      )
unfolding fill_slots blank_slots
fill_slots-fits old_node [] pre k bh = let z : 0 + k ≡ k = omega arith in rw (z, append-nil) refl
fill_slots-fits old_node (n ∷ ns) pre k bh = elim (Bool-cases (is_staying old_node n)) [
  | inl e ↦
      let a = n.addr in
      let z : suc (length (staying old_node ns)) + k ≡ suc (length (staying old_node ns) + k) =
        omega arith in
      rw (staying-cons old_node n ns e, z)
        (fill_slots-stays old_node n ns pre bh (blank_slots (length (staying old_node ns) + k)) e
          ∙ fill_slots-fits old_node ns (pre ++ some n.addr ∷ []) k (bh ++ (b',' ∷ n.addr))
          ∙ (rw
              (
                append_assoc pre (some n.addr ∷ []) (filled (staying old_node ns) ++ blank_slots k),
                append_assoc bh (b',' ∷ n.addr) (commas (staying old_node ns)),
              )
              refl))
  | inr e ↦ rw (staying-skip old_node n ns e) (
      fill_slots-leaves old_node n ns pre bh (pre ++ blank_slots (length (staying old_node ns) + k))
        e
      ∙ fill_slots-fits old_node ns pre k bh)
]

fill_slots-overflow :
    (old_node : Text) (ns : List NodeInfo) (pre : Slots) (k : ℕ) (block_hosts : Text)
    → k < length (staying old_node ns)
    → fill_slots old_node ns (length pre) (pre ++ blank_slots k) block_hosts ≡ none
unfolding blank_slots
fill_slots-overflow old_node [] pre k bh h = absurd (omega (arith, h))
fill_slots-overflow old_node (n ∷ ns) pre zero bh h = elim (Bool-cases (is_staying old_node n)) [
  | inl e ↦ fill_slots-full old_node n ns pre bh e
  | inr e ↦
      fill_slots-leaves old_node n ns pre bh (pre ++ []) e
      ∙ fill_slots-overflow old_node ns pre zero bh (rw (staying-skip old_node n ns e) at h)
]
fill_slots-overflow old_node (n ∷ ns) pre (suc k) bh h = elim (Bool-cases (is_staying old_node n)) [
  | inl e ↦
      let h' : suc k < suc (length (staying old_node ns)) =
        rw (staying-cons old_node n ns e) at h in
      fill_slots-stays old_node n ns pre bh (blank_slots k) e
      ∙ fill_slots-overflow old_node ns (pre ++ some n.addr ∷ []) k (bh ++ (b',' ∷ n.addr))
          (omega (arith, h'))
  | inr e ↦
      fill_slots-leaves old_node n ns pre bh (pre ++ blank_slots (suc k)) e
      ∙ fill_slots-overflow old_node ns pre (suc k) bh (rw (staying-skip old_node n ns e) at h)
]

filled-append : (hs ks : List Text) → filled (hs ++ ks) ≡ filled hs ++ filled ks
filled-append [] ks = refl
filled-append (h ∷ hs) ks = ap (◌∷◌ (some h)) (filled-append hs ks)

pub length-filled : (hs : List Text) → length (filled hs) ≡ length hs
length-filled [] = refl
length-filled (h ∷ hs) = ap suc (length-filled hs)

take-filled :
    (hs : List Text) (s : Option Text) → take (length hs) (filled hs ++ s ∷ []) ≡ filled hs
take-filled [] s = refl
take-filled (h ∷ hs) s = ap (◌∷◌ (some h)) (take-filled hs s)

module _ (cli : ReplaceCli) (info : MetaInfo) where
  abbrev stay : List Text
  stay = staying cli.old_node info.nodes

  begun :
      (n : ℕ)
      → put_slot 0 cli.new_node (blank_slots (n + 1))
        ≡ some ((some cli.new_node ∷ []) ++ blank_slots n)
  unfolding put_slot blank_slots
  begun n = let e : n + 1 ≡ suc n = omega arith in rw e refl

  -- The hosts that stay leave `k` slots free.
  pub replace_slots-room :
      (k : ℕ)
      → info.mpath ≡ length stay + k
      → replace_slots cli info
        ≡ (elim (put_slot info.mpath cli.old_node
            ((some cli.new_node ∷ []) ++ (filled stay ++ blank_slots k))) [
              | none ↦ none
              | some ss ↦ some (ss, cli.new_node ++ commas stay)
            ])
  unfolding replace_slots
  replace_slots-room k e =
      let f = fill_slots-fits cli.old_node info.nodes (some cli.new_node ∷ []) k cli.new_node in
      let f' = rw (← e) at f in rw (replace_slots, begun info.mpath, f') refl

  -- One slot is left free for the old node.
  pub replace_slots-fits :
      info.mpath ≡ length stay + 1
      → replace_slots cli info
        ≡ some (
          (some cli.new_node ∷ filled stay) ++ some cli.old_node ∷ [],
          cli.new_node ++ commas stay,
        )
  unfolding blank_slots
  replace_slots-fits e =
      let n : info.mpath ≡ length (some cli.new_node ∷ filled stay) =
        omega (arith, e, length-filled stay) in
      let p =
        rw (← n) at (put_slot-append (some cli.new_node ∷ filled stay) [] none cli.old_node) in
      replace_slots-room 1 e ∙ (rw p refl)

  -- No slot is left free: the last host that stays loses its slot to the old node.
  pub replace_slots-full :
      (hs : List Text) (last : Text)
      → stay ≡ hs ++ last ∷ []
      → info.mpath ≡ length stay
      → replace_slots cli info
        ≡ some
            ((some cli.new_node ∷ filled hs) ++ some cli.old_node ∷ [], cli.new_node ++ commas stay)
  unfolding blank_slots
  replace_slots-full hs last s e =
      let n : info.mpath ≡ length (some cli.new_node ∷ filled hs) =
        omega (arith, e, ap length s, length-append {0} hs (last ∷ []), length-filled hs) in
      let p =
        rw (← n) at (put_slot-append (some cli.new_node ∷ filled hs) [] (some last) cli.old_node) in
      let z : info.mpath ≡ length stay + 0 = omega (arith, e) in
      let l : filled stay ++ [] ≡ filled hs ++ some last ∷ [] =
        append-nil (filled stay) ∙ ap filled s ∙ filled-append hs (last ∷ []) in
      replace_slots-room 0 z ∙ (rw l (rw p refl))

  -- More hosts that stay than slots.
  pub replace_slots-overflow : info.mpath < length stay → replace_slots cli info ≡ none
  unfolding replace_slots
  replace_slots-overflow h =
      rw
        (
          replace_slots,
          begun info.mpath,
          fill_slots-overflow cli.old_node info.nodes (some cli.new_node ∷ []) info.mpath
              cli.new_node h,
        )
        refl

-- The portals that the driver goes through are the hosts before the last slot.
pub portals-filled :
    (hs : List Text) (a b : Text) (mpath : ℕ)
    → mpath ≡ length hs + 1
    → portals mpath ((some a ∷ filled hs) ++ some b ∷ []) ≡ filled hs
portals-filled hs a b mpath e =
    let z : mpath - 1 ≡ length hs = omega (arith, e) in rw z (take-filled hs (some b))

-- If the hosts that stay and the old node are `mpath`, then each has its slot: the new node in front, the
-- hosts that stay in order, the old node last, and all but the last are named to the new node. If the hosts
-- that stay are more than `mpath`, then the fill writes past the array.
pub replace_slots_lem :
    (cli : ReplaceCli) (info : MetaInfo)
    → (info.mpath ≡ length (staying cli.old_node info.nodes) + 1
        → replace_slots cli info
          ≡ some (
            (some cli.new_node ∷ filled (staying cli.old_node info.nodes))
                ++ some cli.old_node ∷ [],
            cli.new_node ++ commas (staying cli.old_node info.nodes),
          ))
      × (info.mpath < length (staying cli.old_node info.nodes) → replace_slots cli info ≡ none)
replace_slots_lem cli info = (replace_slots-fits cli info, replace_slots-overflow cli info)
