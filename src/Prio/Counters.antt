-- ===== src/Prio/Counters.antt =====
-- The attributes as numbers of blocks (`blockIncPrioAttr`, `blockDecPrioAttr`,
-- rpc/glfs-operations.c).
use mathlib.Core.Path.{fun_ext}
use gluster_block.Prelude.{
  ℕ, ◌+◌, ◌-◌, ◌%◌, ◌^◌, ◌≤◌, ◌<◌, ◌≡◌, ◌∙◌, refl, ap, true, none, some, List, [], ◌∷◌, arith,
  if◌then◌else◌, length, Bool-cases, inl, inr, ◌==◌,
}
use gluster_block.Text.{Text, str_eq}
use gluster_block.Text.Laws.{str_eq_iff}
use gluster_block.Text.Decimal.{size_max, scan_zu, scan_zu-format_zu}
use gluster_block.Meta.{Outcome, ok, ◌>>=◌}
use gluster_block.Prio.{
  Xattr, absent, unreadable, value, Attrs, attr_name, set_count, inc_prio_attr, dec_prio_attr,
}

-- The attribute of a host can be read and holds a number.
abbrev pub IsCount : Xattr → Type 0
IsCount absent = Unit
IsCount unreadable = ⊥
IsCount (value t) = (n : ℕ) × (scan_zu t ≡ some n)

abbrev pub count_of : Xattr → ℕ
count_of absent = 0
count_of unreadable = 0
count_of (value t) = elim (scan_zu t) [ none ↦ 0 | some n ↦ n ]

-- The number of blocks of a host.
abbrev pub balance : Attrs → Text → ℕ
balance attrs addr = count_of (attrs (attr_name addr))

-- Every attribute holds a number.
abbrev pub IsCounting : Attrs → Type 0
IsCounting attrs = (a : Text) → IsCount (attrs a)

pub data Call : Type 0 where
  inc dec : Text → Call

-- The calls in turn, with every attribute settable.
abbrev pub run_call : Call → Attrs → Outcome Attrs
run_call (inc addr) attrs = inc_prio_attr true addr attrs
run_call (dec addr) attrs = dec_prio_attr true addr attrs

unfoldable pub run_calls : List Call → Attrs → Outcome Attrs
run_calls [] attrs = ok attrs
run_calls (c ∷ cs) attrs = do attrs' ← run_call c attrs; run_calls cs attrs'

-- The same on a function from hosts to numbers. Hosts with the same attribute are one.
abbrev pub count_call : Call → (Text → ℕ) → Text → ℕ
count_call (inc addr) f a = if str_eq (attr_name a) (attr_name addr) then f a + 1 else f a
count_call (dec addr) f a = if str_eq (attr_name a) (attr_name addr) then f a - 1 else f a

pub count_calls : List Call → (Text → ℕ) → Text → ℕ
count_calls [] f = f
count_calls (c ∷ cs) f = count_calls cs (count_call c f)

-- What one call does.
abbrev pub Counts : Call → Attrs → Attrs → Type 0
Counts c attrs attrs' =
    IsCounting attrs' × ((a : Text) → balance attrs' a ≡ count_call c (balance attrs) a)

pub set_count-IsCounting :
    (addr : Text) (n : ℕ) (attrs : Attrs)
    → n ≤ size_max
    → IsCounting attrs
    → IsCounting (set_count true addr n attrs)
unfolding set_count
set_count-IsCounting addr n attrs l h a = elim (Bool-cases (str_eq a (attr_name addr))) [
  | inl e ↦ rw e (n, scan_zu-format_zu n l)
  | inr e ↦ rw e (h a)
]

pub balance-set_count :
    (addr : Text) (n : ℕ) (attrs : Attrs) (a : Text)
    → n ≤ size_max
    → balance (set_count true addr n attrs) a
      ≡ (if str_eq (attr_name a) (attr_name addr) then n else balance attrs a)
unfolding set_count
balance-set_count addr n attrs a l = elim (Bool-cases (str_eq (attr_name a) (attr_name addr))) [
  | inl e ↦ rw e (ground (arith, scan_zu-format_zu n l))
  | inr e ↦ rw e refl
]

-- A number is written to the attribute of the host.
put-Counts :
    (f : ℕ → ℕ) (addr : Text) (n : ℕ) (attrs : Attrs)
    → balance attrs addr ≡ n
    → f n ≤ size_max
    → IsCounting attrs
    → IsCounting (set_count true addr (f n) attrs)
      × ((a : Text)
          → balance (set_count true addr (f n) attrs) a ≡ (
              if str_eq (attr_name a) (attr_name addr)
              then f (balance attrs a)
              else balance attrs a))
put-Counts f addr n attrs b l h = (
  set_count-IsCounting addr (f n) attrs l h,
  λ a.
      balance-set_count addr (f n) attrs a l
      ∙ elim (Bool-cases (str_eq (attr_name a) (attr_name addr))) [
        | inl e ↦
            let k : attr_name a ≡ attr_name addr =
              (str_eq_iff (attr_name a) (attr_name addr)).0 e in
            rw e (rw (k, b) refl)
        | inr e ↦ rw e refl
      ],
)

pub inc-Counts :
    (addr : Text) (attrs : Attrs) (x : Xattr)
    → attrs (attr_name addr) ≡ x
    → IsCount x
    → IsCounting attrs
    → balance attrs addr < size_max
    → (attrs' : Attrs) × (inc_prio_attr true addr attrs ≡ ok attrs')
      × Counts (inc addr) attrs attrs'
unfolding inc_prio_attr
inc-Counts addr attrs absent e x h b = (
  set_count true addr 1 attrs,
  rw (inc_prio_attr, e) refl,
  put-Counts (λ n. n + 1) addr 0 attrs (rw e refl) (omega arith) h,
)
inc-Counts addr attrs unreadable e x h b = elim x [ ]
inc-Counts addr attrs (value t) e (n, s) h b =
    let k : balance attrs addr ≡ n = rw e (ground (arith, s)) in
    let w : (n + 1) % 2 ^ 64 ≡ n + 1 = omega (arith, k, b) in
    (
      set_count true addr (n + 1) attrs,
      rw (inc_prio_attr, e, s, w) refl,
      put-Counts (λ n. n + 1) addr n attrs k (omega (arith, k, b)) h,
    )

-- A call that leaves the attributes of a host with no block alone.
keep-Counts :
    (addr : Text) (attrs : Attrs)
    → balance attrs addr ≡ 0
    → IsCounting attrs
    → Counts (dec addr) attrs attrs
keep-Counts addr attrs b h = (
  h,
  λ a. elim (Bool-cases (str_eq (attr_name a) (attr_name addr))) [
    | inl e ↦
        let k : attr_name a ≡ attr_name addr = (str_eq_iff (attr_name a) (attr_name addr)).0 e in
        rw e (rw (k, b) refl)
    | inr e ↦ rw e refl
  ],
)

pub dec-Counts :
    (addr : Text) (attrs : Attrs) (x : Xattr)
    → attrs (attr_name addr) ≡ x
    → IsCount x
    → IsCounting attrs
    → balance attrs addr ≤ size_max
    → (attrs' : Attrs) × (dec_prio_attr true addr attrs ≡ ok attrs')
      × Counts (dec addr) attrs attrs'
unfolding dec_prio_attr
dec-Counts addr attrs absent e x h b =
    (attrs, rw (dec_prio_attr, e) refl, keep-Counts addr attrs (rw e refl) h)
dec-Counts addr attrs unreadable e x h b = elim x [ ]
dec-Counts addr attrs (value t) e (n, s) h b =
    let k : balance attrs addr ≡ n = rw e (ground (arith, s)) in
    elim (Bool-cases (n == 0)) [
      | inl z ↦
          (attrs, rw (dec_prio_attr, e, s, z) refl, keep-Counts addr attrs (ground (arith, k, z)) h)
      | inr z ↦ (
        set_count true addr (n - 1) attrs,
        rw (dec_prio_attr, e, s, z) refl,
        put-Counts (λ n. n - 1) addr n attrs k (omega (arith, k, b)) h,
      )
    ]

call-Counts :
    (c : Call) (attrs : Attrs)
    → IsCounting attrs
    → ((a : Text) → balance attrs a < size_max)
    → (attrs' : Attrs) × (run_call c attrs ≡ ok attrs') × Counts c attrs attrs'
call-Counts (inc addr) attrs h b =
    inc-Counts addr attrs (attrs (attr_name addr)) refl (h (attr_name addr)) h (b addr)
call-Counts (dec addr) attrs h b =
    dec-Counts addr attrs (attrs (attr_name addr)) refl (h (attr_name addr)) h
      (omega (arith, b addr))

count_call-le : (c : Call) (f : Text → ℕ) (a : Text) → count_call c f a ≤ f a + 1
count_call-le (inc addr) f a = ground arith
count_call-le (dec addr) f a = ground arith

-- Attributes that all hold numbers, none of which the increments can carry past 64 bits: the calls in turn
-- end without a fault, every attribute holds a number again, and the number of blocks of each host is the
-- one that the same increments and decrements, down to 0, make of the number before.
pub run_calls-count :
    (cs : List Call) (attrs : Attrs)
    → IsCounting attrs
    → ((a : Text) → balance attrs a + length cs ≤ size_max)
    → (attrs' : Attrs) × (run_calls cs attrs ≡ ok attrs')
      × IsCounting attrs'
      × ((a : Text) → balance attrs' a ≡ count_calls cs (balance attrs) a)
unfolding run_calls count_calls
run_calls-count [] attrs h b = (attrs, refl, h, λ a. refl)
run_calls-count (c ∷ cs) attrs h b =
    let (attrs1, e, (h1, k)) = call-Counts c attrs h (λ a. omega (arith, b a)) in
    let (attrs2, e', h2, k') =
      run_calls-count cs attrs1 h1
        (λ a. omega (arith, b a, k a, count_call-le c (balance attrs) a)) in
    (attrs2, rw e e', h2, λ a. k' a ∙ ap (λ f. count_calls cs f a) (fun_ext k))
