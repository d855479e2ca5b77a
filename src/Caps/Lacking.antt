-- ===== src/Caps/Lacking.antt =====
-- Which capabilities the check finds lacking (`blockRemoteCapabilitiesRespParse`, rpc/block_version.c).
use gluster_block.Prelude.{
  ◌≡◌, ◌↔◌, ◌⊎◌, ◌∙◌, refl, ap, sym, Bool, true, false, not, ◌&&◌, ◌||◌, Option, none, some, List,
  [], ◌∷◌, map, arith, if◌then◌else◌, ◌==◌, All, Bool-cases, inl, inr, ℤ, pos, minus_one,
}
use gluster_block.Text.{Text}
use gluster_block.Enums.Cap.{Cap}
use gluster_block.Caps.{
  CapSet, CapObj, Peer, Host, CapsError, unsupported, supports, everywhere, missing_on, scan_hosts,
  cap_index, all_caps, set_cap, cap_loop, any_cap, any_result, caps_resp_parse, caps_judge,
}
use gluster_block.Caps.Check.{
  all_caps-at, all_caps-All, answered-ret, peer_caps-answered, all_have, host_of, IsAnswer,
}

-- With a result array: no host came without a reply.
abbrev pub HasReply : Host → Type 0
HasReply h = (os : List CapObj) × (h.caps ≡ some os)

scan_hosts-replied :
    (c : Cap) (hs : List Host)
    → All HasReply hs
    → (scan_hosts c hs ≡ everywhere) × (all_have c hs ≡ true)
      ⊎ ((a : Text) × (scan_hosts c hs ≡ missing_on a) × (all_have c hs ≡ false))
unfolding scan_hosts all_have
scan_hosts-replied c [] r = inl (refl, refl)
scan_hosts-replied c (h ∷ hs) r =
    let (os, e) = r.0 in
    rw e (elim (Bool-cases (supports c os)) [
      | inl s ↦ rw s (scan_hosts-replied c hs r.1)
      | inr s ↦ rw s (inr (h.addr, refl, refl))
    ])

cap_loop-result :
    (min : CapSet) (hs : List Host) (cs : List Cap) (r : CapSet) (err : Option CapsError)
    → All HasReply hs
    → ((cap_loop min hs cs (some r) err).stopped ≡ false)
      × ((s : CapSet) × ((cap_loop min hs cs (some r) err).result ≡ some s)
          × ((d : Cap)
              → s d
                ≡ any_cap (λ c. cap_index c == cap_index d && (min c && not (all_have c hs))) cs
                  || r d))
unfolding cap_loop any_cap set_cap
cap_loop-result min hs [] r err h = (refl, (r, refl, λ d. refl))
cap_loop-result min hs (c ∷ cs) r err h = elim (Bool-cases (min c)) [
  | inr m ↦
      let (u, (s, e, f)) = cap_loop-result min hs cs r err h in
      (rw (cap_loop, m) u, (s, rw (cap_loop, m) e, λ d. ground (arith, f d, m)))
  | inl m ↦ elim (scan_hosts-replied c hs h) [
    | inl (v, a) ↦
        let (u, (s, e, f)) = cap_loop-result min hs cs r err h in
        (rw (cap_loop, m, v) u, (s, rw (cap_loop, m, v) e, λ d. ground (arith, f d, a)))
    | inr (w, v, a) ↦
        let (u, (s, e, f)) = cap_loop-result min hs cs (set_cap r c) (some (unsupported c w)) h in
        (rw (cap_loop, m, v) u, (s, rw (cap_loop, m, v) e, λ d. ground (arith, f d, m, a)))
  ]
]

-- The capabilities that are asked for and that not every host has.
abbrev pub lacking : CapSet → List Host → CapSet
lacking min hs c = min c && not (all_have c hs)

any_cap-at :
    (q : CapSet) (d : Cap) → any_cap (λ c. cap_index c == cap_index d && q c) all_caps ≡ q d
unfolding any_cap cap_index
any_cap-at q Cap.create = ground arith
any_cap-at q _ = ground arith

any_cap_iff : (r : CapSet) (cs : List Cap) → (any_cap r cs ≡ false) ↔ All (λ c. r c ≡ false) cs
unfolding any_cap
any_cap_iff r [] = (λ h. tt, λ h. refl)
any_cap_iff r (c ∷ cs) =
    (λ e. ground (arith, any_cap_iff r cs), λ e. ground (arith, any_cap_iff r cs))

or_false : (b : Bool) → b || false ≡ b
or_false b = ground arith

zero_ret : (b : Bool) → (if b then minus_one else pos 0) ≡ pos 0 → b ≡ false
zero_ret b h = ground arith

-- With a result array of zeros, and hosts that all answered with a reply, the array holds afterwards exactly
-- the capabilities that are asked for and that some host lacks, and the check returns 0 exactly if
-- there are none.
pub caps_collected :
    (old : ℤ) (ps : List Peer) (min : CapSet)
    → All (IsAnswer old) ps
    → All HasReply (map (host_of old) ps)
    → (s : CapSet) × ((caps_resp_parse old ps min (some (λ c. false))).result ≡ some s)
      × ((c : Cap) → s c ≡ lacking min (map (host_of old) ps) c)
      × (((caps_resp_parse old ps min (some (λ c. false))).ret ≡ pos 0)
          ↔ ((c : Cap) → lacking min (map (host_of old) ps) c ≡ false))
unfolding caps_resp_parse caps_judge any_result
caps_collected old ps min h r =
    let hs = map (host_of old) ps in
    let (u, (s, e, f)) = cap_loop-result min hs all_caps (λ c. false) none r in
    let g : (c : Cap) → s c ≡ lacking min hs c =
      λ c. f c ∙ or_false _ ∙ any_cap-at (lacking min hs) c in
    let ret : (caps_resp_parse old ps min (some (λ c. false))).ret
        ≡ (if any_cap s all_caps then minus_one else pos 0) =
      answered-ret old ps min (some (λ c. false)) h ∙ rw (u, e) refl in
    (
      s,
      ap (λ (x : Option Peer × List Host). (caps_judge min (some (λ c. false)) x.0 x.1).result)
            (peer_caps-answered old ps h)
          ∙ e,
      g,
      (
        λ z. λ c.
            sym (g c)
            ∙ all_caps-at (λ d. s d ≡ false) ((any_cap_iff s all_caps).0 (zero_ret _ (sym ret ∙ z)))
                c,
        λ k.
            ret
            ∙ (let no =
                  (any_cap_iff s all_caps).1 (all_caps-All (λ d. s d ≡ false) (λ c. g c ∙ k c)) in
                rw no refl),
      ),
    )
