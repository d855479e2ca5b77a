-- ===== src/Resize/Fill.antt =====
-- The nodes that a resize starts a thread for (`glusterBlockModifySizeArgsFill`,
-- rpc/block_modify.c).
use gluster_block.Prelude.{
  ℕ, ◌+◌, ◌≡◌, ◌∙◌, refl, ap, Bool, true, false, not, ◌&&◌, none, List, [], ◌∷◌, ◌++◌, map, pos,
  length, select, arith, Bool-cases, inl, inr,
}
use mathlib.Core.List.{append-nil, append_assoc}
use gluster_block.Text.{Text}
use gluster_block.Meta.{NodeInfo, MetaInfo}
use gluster_block.Meta.Servers.{blockhost_is_valid, is_valid_status}
use gluster_block.Remote.Collect.{Done, joined, behind, behind-joined, behind-listed, listed}
use gluster_block.Resize.{is_skipped, Filled, fill_loop, resize_args_fill}

-- A thread is started for the node.
abbrev pub is_resized : (skipping : Bool) (size info_size : ℕ) → Text → Bool
is_resized skipping size info_size status =
    not (is_skipped skipping size info_size status) && blockhost_is_valid status

-- The node as an entry of a list of addresses.
abbrev pub entry_of : NodeInfo → Done
entry_of n = record { addr = n.addr; exit = pos 0 }

module _ (skipping : Bool) (size info_size : ℕ) where
  fill_loop_lem :
      (ns : List NodeInfo) (f : Filled)
      → fill_loop skipping size info_size ns f ≡ record {
        args = f.args ++ select (λ (n : NodeInfo). is_resized skipping size info_size n.status) ns;
        skipped = behind f.skipped (
            map entry_of
              (select (λ (n : NodeInfo). is_skipped skipping size info_size n.status) ns));
      }
  unfolding fill_loop
  fill_loop_lem [] f = rw append-nil refl
  fill_loop_lem (n ∷ ns) f = elim (Bool-cases (is_skipped skipping size info_size n.status)) [
    | inl s ↦ rw s (
        fill_loop_lem ns (record f { skipped = joined f.skipped n.addr })
        ∙ ap
            (λ o. record {
              args =
                  f.args
                  ++ select (λ (n : NodeInfo). is_resized skipping size info_size n.status) ns;
              skipped = o;
            })
            (behind-joined f.skipped (entry_of n) (
              map entry_of
                (select (λ (n : NodeInfo). is_skipped skipping size info_size n.status) ns))))
    | inr s ↦ elim (Bool-cases (blockhost_is_valid n.status)) [
      | inl v ↦
          rw (s, v)
            (fill_loop_lem ns (record f { args = f.args ++ n ∷ [] })
              ∙ ap
                  (λ a. record {
                    args = a;
                    skipped = behind f.skipped (
                        map entry_of (
                          select (λ (n : NodeInfo). is_skipped skipping size info_size n.status)
                            ns));
                  })
                  (append_assoc f.args (n ∷ [])
                    (select (λ (n : NodeInfo). is_resized skipping size info_size n.status) ns)))
      | inr v ↦ rw (s, v) (fill_loop_lem ns f)
    ]
  ]

skipped-valid :
    (size info_size : ℕ) (status : Text)
    → is_skipped true size info_size status ≡ true
    → blockhost_is_valid status ≡ true
unfolding is_skipped blockhost_is_valid is_valid_status
skipped-valid size info_size status h = ground arith

-- The nodes that are not skipped are resized, and the two make up the nodes that are in order.
length-parts :
    (size info_size : ℕ) (ns : List NodeInfo)
    → length (select (λ (n : NodeInfo). is_resized true size info_size n.status) ns)
        + length (select (λ (n : NodeInfo). is_skipped true size info_size n.status) ns)
      ≡ length (select (λ (n : NodeInfo). blockhost_is_valid n.status) ns)
length-parts size info_size [] = refl
length-parts size info_size (n ∷ ns) =
    ground (arith, length-parts size info_size ns, skipped-valid size info_size n.status)

-- With a place for the skipped addresses, the fill gives a thread to each node that is in order and not
-- skipped, and lists the skipped ones, both in the order of the nodes; and these threads and the skipped
-- nodes together are as many as the fill counts without that place.
pub resize_args_fill_lem :
    (size : ℕ) (info : MetaInfo)
    → (resize_args_fill true size info none ≡ record {
      args = select (λ (n : NodeInfo). is_resized true size info.size n.status) info.nodes;
      skipped = listed (
          map entry_of
            (select (λ (n : NodeInfo). is_skipped true size info.size n.status) info.nodes));
    })
      × (length (resize_args_fill true size info none).args
            + length (select (λ (n : NodeInfo). is_skipped true size info.size n.status) info.nodes)
          ≡ length (resize_args_fill false size info none).args)
unfolding resize_args_fill is_skipped
resize_args_fill_lem size info =
    let skips = select (λ (n : NodeInfo). is_skipped true size info.size n.status) info.nodes in
    let f = fill_loop_lem true size info.size info.nodes (record { args = []; skipped = none }) in
    let g = fill_loop_lem false size info.size info.nodes (record { args = []; skipped = none }) in
    (
      rw (← behind-listed (map entry_of skips)) f,
      rw (f, g) (length-parts size info.size info.nodes),
    )
