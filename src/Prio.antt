-- ===== src/Prio.antt =====
-- The counters of blocks per host, kept as attributes of the file prio.info, and the choice of the host
-- with the fewest: `blockGetPrioPath`, `blockIncPrioAttr` and `blockDecPrioAttr`
-- (rpc/glfs-operations.c).
pub mod Counters
pub mod Least
use gluster_block.Prelude.{
  ℕ, suc, ◌+◌, ◌-◌, ◌%◌, ◌^◌, Bool, true, false, not, ◌||◌, Option, none, some, List, [], ◌∷◌, ◌++◌,
  if◌then◌else◌, ltb, ◌==◌, length, get_elem?, take,
}
use gluster_block.Text.{Text, codes, str_eq, str_cpy}
use gluster_block.Text.Decimal.{format_zu, scan_zu}
use gluster_block.Meta.{Outcome, ok, crash}

-- What glfs_getxattr finds: ENODATA, another error, or a text.
pub data Xattr : Type 0 where
  absent unreadable : Xattr
  value : Text → Xattr

-- The attributes of the file by their names.
abbrev pub Attrs : Type 0
Attrs = Text → Xattr

-- snprintf(attr, 256, "user.block.%s", addr)
unfoldable pub attr_name : Text → Text
attr_name addr = take 255 (codes "user.block." ++ addr)

-- glfs_setxattr with "%zu"; `settable` is false if it fails.
unfoldable pub set_count : (settable : Bool) → Text → ℕ → Attrs → Attrs
unfolding attr_name
set_count settable addr n attrs =
    if settable
    then (λ a. if str_eq a (attr_name addr) then value (format_zu n) else attrs a)
    else attrs

-- blockIncPrioAttr: a text with no number leaves `count` without a value, which is read all the same.
unfoldable pub inc_prio_attr : (settable : Bool) → Text → Attrs → Outcome Attrs
inc_prio_attr settable addr attrs = elim (attrs (attr_name addr)) [
  | unreadable ↦ ok attrs
  | absent ↦ ok (set_count settable addr 1 attrs)
  | value t ↦ elim (scan_zu t) [
    | none ↦ crash
    | some n ↦ ok (set_count settable addr ((n + 1) % 2 ^ 64) attrs)
  ]
]

-- blockDecPrioAttr
unfoldable pub dec_prio_attr : (settable : Bool) → Text → Attrs → Outcome Attrs
dec_prio_attr settable addr attrs = elim (attrs (attr_name addr)) [
  | unreadable ↦ ok attrs
  | absent ↦ ok attrs
  | value t ↦ elim (scan_zu t) [
    | none ↦ crash
    | some n ↦ ok (if n == 0 then attrs else set_count settable addr (n - 1) attrs)
  ]
]

-- The variables of the loop of blockGetPrioPath.
pub record Pick : Type 0 where
  pub index : ℕ
  pub min : ℕ
  pub flag : Bool
  pub count : ℕ

abbrev pub pick_start : Pick
pick_start = record { index = 0; min = 0; flag = true; count = 0 }

-- One host with a counter.
unfoldable pub weigh : ℕ → Text → Pick → Pick
weigh i t p =
    let c : ℕ = elim (scan_zu t) [ none ↦ p.count | some n ↦ n ] in
    if p.flag || ltb c p.min
    then record { index = i; min = c; flag = false; count = c }
    else record p { count = c }

-- The loop; none for `goto out`.
unfoldable pub prio_loop : Attrs → ℕ → List Text → Pick → Option Pick
prio_loop attrs i [] p = some p
prio_loop attrs i (h ∷ hs) p = elim (attrs (attr_name h)) [
  | unreadable ↦ none
  | absent ↦ some (record p { index = i; min = 0 })
  | value t ↦ prio_loop attrs (suc i) hs (weigh i t p)
]

-- blockGetPrioPath; `opened` is false if the file cannot be made. The result is `prio_path`, an array of
-- `prio_len` bytes, and a read past the hosts is a fault.
unfoldable pub get_prio_path :
    (opened : Bool) → Attrs → List Text → (prio_len : ℕ) → Text → Outcome Text
get_prio_path opened attrs hosts prio_len prio_path =
    if not opened || (length hosts == 0)
    then ok prio_path
    else elim (prio_loop attrs 0 hosts pick_start) [
      | none ↦ ok prio_path
      | some p ↦ elim (get_elem? hosts p.index) [
        | none ↦ crash
        | some h ↦
            ok (if ltb (length h) (256 - 10) then str_cpy prio_len h prio_path else prio_path)
      ]
    ]
