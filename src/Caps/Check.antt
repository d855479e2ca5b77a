-- ===== src/Caps/Check.antt =====
-- What the check of the capabilities decides (`blockRemoteCapabilitiesRespParse`, rpc/block_version.c).
use gluster_block.Prelude.{
  ◌≡◌, ◌↔◌, ◌⊎◌, refl, ap, Bool, true, false, not, ◌&&◌, ◌||◌, Option, none, some, List, [], ◌∷◌,
  map, arith, if◌then◌else◌, All, Bool-cases, inl, inr, ℤ, pos, minus_one, int_eq, int_eq_iff,
}
use gluster_block.Enums.Cap.{Cap}
use gluster_block.Caps.{
  CapSet, mimic_old_caps, Peer, Host, CapsError, peer_caps, supports, everywhere, scan_hosts,
  all_caps, cap_loop, any_result, caps_resp_parse, caps_judge,
}

pub all_caps-at : (P : Cap → Type 0) → All P all_caps → (c : Cap) → P c
all_caps-at P h Cap.create = h.0
all_caps-at P h Cap.create_ha = h.1.0
all_caps-at P h Cap.create_prealloc = h.1.1.0
all_caps-at P h Cap.create_auth = h.1.1.1.0
all_caps-at P h Cap.delete = h.1.1.1.1.0
all_caps-at P h Cap.delete_force = h.1.1.1.1.1.0
all_caps-at P h Cap.modify = h.1.1.1.1.1.1.0
all_caps-at P h Cap.modify_auth = h.1.1.1.1.1.1.1.0
all_caps-at P h Cap.modify_size = h.1.1.1.1.1.1.1.1.0
all_caps-at P h Cap.replace = h.1.1.1.1.1.1.1.1.1.0
all_caps-at P h Cap.create_ring_buffer = h.1.1.1.1.1.1.1.1.1.1.0
all_caps-at P h Cap.create_load_balance = h.1.1.1.1.1.1.1.1.1.1.1.0
all_caps-at P h Cap.json = h.1.1.1.1.1.1.1.1.1.1.1.1.0
all_caps-at P h Cap.create_block_size = h.1.1.1.1.1.1.1.1.1.1.1.1.1.0
all_caps-at P h Cap.reload = h.1.1.1.1.1.1.1.1.1.1.1.1.1.1.0
all_caps-at P h Cap.create_io_timeout = h.1.1.1.1.1.1.1.1.1.1.1.1.1.1.1.0

pub all_caps-All : (P : Cap → Type 0) → ((c : Cap) → P c) → All P all_caps
all_caps-All P h = (
  h Cap.create,
  (
    h Cap.create_ha,
    (
      h Cap.create_prealloc,
      (
        h Cap.create_auth,
        (
          h Cap.delete,
          (
            h Cap.delete_force,
            (
              h Cap.modify,
              (
                h Cap.modify_auth,
                (
                  h Cap.modify_size,
                  (
                    h Cap.replace,
                    (
                      h Cap.create_ring_buffer,
                      (
                        h Cap.create_load_balance,
                        (
                          h Cap.json,
                          (h Cap.create_block_size, (h Cap.reload, (h Cap.create_io_timeout, tt))),
                        ),
                      ),
                    ),
                  ),
                ),
              ),
            ),
          ),
        ),
      ),
    ),
  ),
)

-- A host that the check goes on with: it answered, or it has no version call.
abbrev pub IsAnswer : ℤ → Peer → Type 0
IsAnswer old p = (p.exit ≡ old) ⊎ (p.exit ≡ pos 0)

-- A host's capabilities, as the check takes them.
abbrev pub host_of : ℤ → Peer → Host
host_of old p = record {
  addr = p.addr;
  caps = if int_eq p.exit old then some mimic_old_caps else p.reply;
}

abbrev pub has_cap : Cap → Host → Bool
has_cap c h = elim h.caps [ none ↦ false | some os ↦ supports c os ]

-- Every host has the capability.
unfoldable pub all_have : Cap → List Host → Bool
all_have c [] = true
all_have c (h ∷ hs) = has_cap c h && all_have c hs

pub peer_caps-answered :
    (old : ℤ) (ps : List Peer)
    → All (IsAnswer old) ps
    → peer_caps old ps ≡ (none, map (host_of old) ps)
unfolding peer_caps
peer_caps-answered old [] h = refl
peer_caps-answered old (p ∷ ps) h =
    let ih = peer_caps-answered old ps h.1 in
    elim (Bool-cases (int_eq p.exit old)) [
      | inl e ↦ rw (ih, e) refl
      | inr e ↦
          let z : int_eq p.exit (pos 0) ≡ true = ground (arith, h.0, e, int_eq_iff p.exit old) in
          rw (ih, e, z) refl
    ]

peer_caps-failed :
    (old : ℤ) (ps : List Peer)
    → All (IsAnswer old) ps
      ⊎ ((p : Peer) × ((peer_caps old ps).0 ≡ some p) × (int_eq p.exit (pos 0) ≡ false))
unfolding peer_caps
peer_caps-failed old [] = inl tt
peer_caps-failed old (p ∷ ps) = elim (Bool-cases (int_eq p.exit old)) [
  | inl e ↦ rw e (elim (peer_caps-failed old ps) [
    | inl h ↦ inl (inl ((int_eq_iff p.exit old).0 e), h)
    | inr h ↦ inr h
  ])
  | inr e ↦ rw e (elim (Bool-cases (int_eq p.exit (pos 0))) [
    | inl z ↦ rw z (elim (peer_caps-failed old ps) [
      | inl h ↦ inl (inr ((int_eq_iff p.exit (pos 0)).0 z), h)
      | inr h ↦ inr h
    ])
    | inr z ↦ rw z (inr (p, refl, z))
  ])
]

scan_hosts-all_have :
    (c : Cap) (hs : List Host) → (scan_hosts c hs ≡ everywhere) ↔ (all_have c hs ≡ true)
unfolding scan_hosts all_have
scan_hosts-all_have c [] = (λ h. refl, λ h. refl)
scan_hosts-all_have c (h ∷ hs) =
    (λ e. ground (arith, scan_hosts-all_have c hs), λ e. ground (arith, scan_hosts-all_have c hs))

-- The loop that stops at the first missing capability.
cap_loop-strict :
    (min : CapSet) (hs : List Host) (cs : List Cap) (err : Option CapsError)
    → ((cap_loop min hs cs none err).stopped ≡ false)
      ↔ All (λ c. not (min c) || all_have c hs ≡ true) cs
unfolding cap_loop
cap_loop-strict min hs [] err = (λ h. tt, λ h. refl)
cap_loop-strict min hs (c ∷ cs) err = (
  λ e. ground (arith, cap_loop-strict min hs cs err, scan_hosts-all_have c hs),
  λ e. ground (arith, cap_loop-strict min hs cs err, scan_hosts-all_have c hs),
)

cap_loop-strict-result :
    (min : CapSet) (hs : List Host) (cs : List Cap) (err : Option CapsError)
    → (cap_loop min hs cs none err).result ≡ none
unfolding cap_loop
cap_loop-strict-result min hs [] err = refl
cap_loop-strict-result min hs (c ∷ cs) err = ground (arith, cap_loop-strict-result min hs cs err)

module _ (old : ℤ) (ps : List Peer) (min : CapSet) (result : Option CapSet) where
  failed-ret :
      (p : Peer) → (peer_caps old ps).0 ≡ some p → (caps_resp_parse old ps min result).ret ≡ p.exit
  unfolding caps_resp_parse caps_judge
  failed-ret p q = ap (λ b. (caps_judge min result b (peer_caps old ps).1).ret) q

  pub answered-ret :
      All (IsAnswer old) ps
      → (caps_resp_parse old ps min result).ret ≡ (
          let l = cap_loop min (map (host_of old) ps) all_caps result none in
          if l.stopped || any_result l.result then minus_one else pos 0)
  unfolding caps_resp_parse caps_judge
  answered-ret h =
      ap (λ (x : Option Peer × List Host). (caps_judge min result x.0 x.1).ret)
        (peer_caps-answered old ps h)

-- Without a result array, once every host has answered.
strict-ret :
    (old : ℤ) (ps : List Peer) (min : CapSet)
    → All (IsAnswer old) ps
    → ((caps_resp_parse old ps min none).ret ≡ pos 0)
      ↔ ((cap_loop min (map (host_of old) ps) all_caps none none).stopped ≡ false)
unfolding any_result
strict-ret old ps min h = rw (answered-ret old ps min none h) (
    rw (cap_loop-strict-result min (map (host_of old) ps) all_caps none)
      (λ e. ground arith, λ e. ground arith))

-- Without a result array the check returns 0 exactly if every host answered, or is an old daemon, and
-- every host has every capability that is asked for.
pub caps_strict :
    (old : ℤ) (ps : List Peer) (min : CapSet)
    → ((caps_resp_parse old ps min none).ret ≡ pos 0) ↔ (
        All (IsAnswer old) ps
        × ((c : Cap) → min c ≡ true → all_have c (map (host_of old) ps) ≡ true))
caps_strict old ps min =
    let hs = map (host_of old) ps in
    let P : Cap → Type 0 = λ c. not (min c) || all_have c hs ≡ true in
    (
      λ e. elim (peer_caps-failed old ps) [
        | inl h ↦
            let all = (cap_loop-strict min hs all_caps none).0 ((strict-ret old ps min h).0 e) in
            (h, λ c m. ground (arith, m, all_caps-at P all c))
        | inr (p, q, z) ↦
            absurd (ground (arith, z, failed-ret old ps min none p q, e, int_eq_iff p.exit (pos 0)))
      ],
      λ g.
          (strict-ret old ps min g.0).1 (
            (cap_loop-strict min hs all_caps none).1 (all_caps-All P (λ c. ground (arith, g.1 c)))),
    )
