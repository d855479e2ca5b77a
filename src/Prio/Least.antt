-- ===== src/Prio/Least.antt =====
-- The host that a block is counted for (`blockGetPrioPath`, rpc/glfs-operations.c).
use gluster_block.Prelude.{
  ℕ, zero, suc, ◌-◌, ◌≢◌, sym, ◌+◌, ◌≤◌, ◌<◌, ◌≡◌, ◌∙◌, ◌⊎◌, refl, ap, true, false, some, List, [],
  ◌∷◌, All, All-map, arith, length, get_elem?, Bool-cases, inl, inr, ltb, ◌==◌,
}
use gluster_block.Text.{Text}
use gluster_block.Text.Laws.{str_cpy_of_fits}
use gluster_block.Text.Decimal.{scan_zu}
use gluster_block.Meta.{ok}
use gluster_block.Prio.{
  Xattr, absent, unreadable, value, Attrs, attr_name, Pick, pick_start, weigh, prio_loop,
  get_prio_path,
}
use gluster_block.Prio.Counters.{IsCount, balance}

-- What the loop has chosen when it ends: the host from before, or one of the rest.
abbrev Chosen : Attrs → ℕ → List Text → Pick → Pick → Type 0
Chosen attrs i hs p q =
    (q.index ≡ p.index) × (q.min ≡ p.min)
    ⊎ ((j : ℕ) × (h : Text) × (q.index ≡ i + j)
        × (get_elem? hs j ≡ some h)
        × (q.min ≡ balance attrs h))

-- It is no worse than the one from before and than each of the rest.
abbrev Best : Attrs → List Text → Pick → Pick → Type 0
Best attrs hs p q = (q.min ≤ p.min) × All (λ h. q.min ≤ balance attrs h) hs

pub All-get :
    (P : Text → Type 0) (xs : List Text) (i : ℕ) (x : Text)
    → All P xs
    → get_elem? xs i ≡ some x
    → P x
All-get P [] i x h e = absurd (ground arith)
All-get P (y ∷ xs) zero x h e = let k : y ≡ x = ground (arith, e) in rw (← k) h.0
All-get P (y ∷ xs) (suc i) x h e = All-get P xs i x h.1 e

module _ (attrs : Attrs) where
  none-All : (hs : List Text) → All (λ h. 0 ≤ balance attrs h) hs
  none-All [] = tt
  none-All (h ∷ hs) = (omega arith, none-All hs)

  count-cases :
      (x : Xattr)
      → IsCount x
      → (x ≡ absent) ⊎ ((t : Text) × (n : ℕ) × (x ≡ value t) × (scan_zu t ≡ some n))
  count-cases absent c = inl refl
  count-cases unreadable c = elim c [ ]
  count-cases (value t) (n, s) = inr (t, n, refl, s)

  -- The choice among the rest, seen from one host before.
  later :
      (i : ℕ) (h : Text) (hs : List Text) (p p' q : Pick)
      → (p'.index ≡ p.index) × (p'.min ≡ p.min) ⊎ (p'.index ≡ i) × (p'.min ≡ balance attrs h)
      → Chosen attrs (suc i) hs p' q
      → Chosen attrs i (h ∷ hs) p q
  later i h hs p p' q (inl (a, b)) (inl (c, d)) = inl (c ∙ a, d ∙ b)
  later i h hs p p' q (inr (a, b)) (inl (c, d)) = inr (0, h, omega (arith, a, c), refl, d ∙ b)
  later i h hs p p' q k (inr (j, x, c, g, d)) = inr (suc j, x, omega (arith, c), g, d)

  chosen :
      (h : Text) (hs : List Text) (p q : Pick)
      → p.index ≡ 0
      → p.min ≡ balance attrs h
      → Chosen attrs 1 hs p q
      → (k : Text) × (get_elem? (h ∷ hs) q.index ≡ some k) × (q.min ≡ balance attrs k)
  chosen h hs p q i m (inl (a, b)) = (h, rw (a, i) refl, b ∙ m)
  chosen h hs p q i m (inr (j, k, a, g, d)) =
      let e : q.index ≡ suc j = omega (arith, a) in (k, rw e g, d)

  loop-Best :
      (i : ℕ) (hs : List Text) (p : Pick)
      → All (λ h. IsCount (attrs (attr_name h))) hs
      → p.flag ≡ false
      → (q : Pick) × (prio_loop attrs i hs p ≡ some q) × Chosen attrs i hs p q × Best attrs hs p q
  unfolding prio_loop weigh
  loop-Best i [] p c f = (p, refl, inl (refl, refl), (omega arith, tt))
  loop-Best i (h ∷ hs) p c f = elim (count-cases (attrs (attr_name h)) c.0) [
    | inl e ↦ (
      record p { index = i; min = 0 },
      rw (prio_loop, e) refl,
      inr (0, h, omega arith, refl, rw e refl),
      (omega arith, none-All (h ∷ hs)),
    )
    | inr (t, n, e, s) ↦
        let b : balance attrs h ≡ n = rw e (ground (arith, s)) in
        elim (Bool-cases (ltb n p.min)) [
          | inl l ↦
              let p' : Pick = record { index = i; min = n; flag = false; count = n } in
              let w : weigh i t p ≡ p' = ground (arith, s, f, l) in
              let (q, r, k, (m, a)) = loop-Best (suc i) hs p' c.1 refl in
              (
                q,
                rw (prio_loop, e, w) r,
                later i h hs p p' q (inr (refl, sym b)) k,
                (ground (arith, m, l), (omega (arith, m, b), a)),
              )
          | inr l ↦
              let p' : Pick = record p { count = n } in
              let w : weigh i t p ≡ p' = ground (arith, s, f, l) in
              let (q, r, k, (m, a)) = loop-Best (suc i) hs p' c.1 f in
              (
                q,
                rw (prio_loop, e, w) r,
                later i h hs p p' q (inl (refl, refl)) k,
                (ground (arith, m, l), (ground (arith, m, b, l), a)),
              )
        ]
  ]

  -- The first host has nobody before it.
  first-Best :
      (h : Text) (hs : List Text)
      → All (λ h. IsCount (attrs (attr_name h))) (h ∷ hs)
      → (q : Pick) × (prio_loop attrs 0 (h ∷ hs) pick_start ≡ some q)
        × ((k : Text) × (get_elem? (h ∷ hs) q.index ≡ some k) × (q.min ≡ balance attrs k))
        × All (λ k. q.min ≤ balance attrs k) (h ∷ hs)
  unfolding prio_loop weigh
  first-Best h hs c = elim (count-cases (attrs (attr_name h)) c.0) [
    | inl e ↦ (
      record pick_start { index = 0; min = 0 },
      rw (prio_loop, e) refl,
      (h, refl, rw e refl),
      none-All (h ∷ hs),
    )
    | inr (t, n, e, s) ↦
        let b : balance attrs h ≡ n = rw e (ground (arith, s)) in
        let p' : Pick = record { index = 0; min = n; flag = false; count = n } in
        let w : weigh 0 t pick_start ≡ p' = ground (arith, s) in
        let (q, r, k, (m, a)) = loop-Best 1 hs p' c.1 refl in
        (q, rw (prio_loop, e, w) r, chosen h hs p' q refl (sym b) k, (omega (arith, m, b), a))
  ]

-- For at least one host, a file that can be made, attributes that hold numbers, and addresses that fit: the
-- path is an address of the list whose host has no more blocks than any other host of the list.
pub get_prio_path_least :
    (attrs : Attrs) (hosts : List Text) (prio_len : ℕ) (prio_path : Text)
    → hosts ≢ []
    → All (λ h. IsCount (attrs (attr_name h))) hosts
    → All (λ h. (length h < 246) × (length h ≤ prio_len - 1)) hosts
    → (i : ℕ) × (h : Text) × (get_prio_path true attrs hosts prio_len prio_path ≡ ok h)
      × (get_elem? hosts i ≡ some h)
      × All (λ k. balance attrs h ≤ balance attrs k) hosts
unfolding get_prio_path
get_prio_path_least attrs [] prio_len prio_path ne c f = absurd (ne refl)
get_prio_path_least attrs (h ∷ hs) prio_len prio_path ne c f =
    let (q, e, (k, g, b), a) = first-Best attrs h hs c in
    let (x, y) = All-get _ (h ∷ hs) q.index k f g in
    let n : length (h ∷ hs) == 0 ≡ false = ground arith in
    let l : ltb (length k) 246 ≡ true = ground (arith, x) in
    (
      q.index,
      k,
      rw (get_prio_path, n, e, g, l) (ap ok (str_cpy_of_fits prio_len k prio_path y)),
      g,
      All-map (λ m p. rw (← b) p) (h ∷ hs) a,
    )
