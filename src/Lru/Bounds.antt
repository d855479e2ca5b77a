-- ===== src/Lru/Bounds.antt =====
-- How many volumes the cache of utils/lru.c holds, and which handles it closes.
use gluster_block.Prelude.{
  ℕ, suc, ◌+◌, ◌≤◌, ◌<◌, ◌≡◌, refl, Bool, true, false, none, some, List, [], ◌∷◌, if◌then◌else◌,
  ◌==◌, ==_iff, length, count_if, get_elem?, arith, All, Bool-cases, inl, inr,
}
use gluster_block.Text.{Text}
use gluster_block.Text.Laws.{str_eq_refl, str_cpy_of_fits}
use gluster_block.Lru.{
  Entry, Cache, set_lru_count, split_last, release_cold_entry, append_new_entry, take_entry,
  boost_entry_warmness, find_entry, query_cache, Call, query, append, set_limit, call, calls,
}

-- The counter is the length of the list, and the list is no longer than the limit.
pub record IsBounded (c : Cache) : Type 0 where
  pub counted : c.lru_count ≡ length c.entries
  pub limited : length c.entries ≤ c.glfs_lru_count
  pub some_room : 1 ≤ c.glfs_lru_count

length-split_last :
    (es : List Entry)
    → (elim (split_last es) [ none ↦ 0 | some (init, x) ↦ suc (length init) ]) ≡ length es
unfolding split_last
length-split_last [] = refl
length-split_last (e ∷ es) = ground (arith, length-split_last es)

count-split_last :
    (p : Entry → Bool) (es : List Entry)
    → (elim (split_last es) [
      | none ↦ 0
      | some (init, x) ↦ count_if p init + (if p x then 1 else 0)
    ])
      ≡ count_if p es
unfolding split_last
count-split_last p [] = refl
count-split_last p (e ∷ es) = ground (arith, count-split_last p es)

count-boost :
    (p : Entry → Bool) (v : Text) (es : List Entry)
    → count_if p (boost_entry_warmness v es) ≡ count_if p es
unfolding boost_entry_warmness take_entry
count-boost p v [] = refl
count-boost p v (e ∷ es) = ground (arith, count-boost p v es)

length-boost : (v : Text) (es : List Entry) → length (boost_entry_warmness v es) ≡ length es
unfolding boost_entry_warmness take_entry
length-boost v [] = refl
length-boost v (e ∷ es) = ground (arith, length-boost v es)

head-take_entry :
    (v : Text) (es : List Entry)
    → (elim (take_entry v es) [ none ↦ none | some (x, o) ↦ some x ]) ≡ find_entry v es
unfolding take_entry find_entry
head-take_entry v [] = refl
head-take_entry v (e ∷ es) = ground (arith, head-take_entry v es)

release-IsBounded :
    (c : Cache)
    → IsBounded c
    → (release_cold_entry c).lru_count ≡ length (release_cold_entry c).entries
unfolding release_cold_entry
release-IsBounded c b = ground (arith, length-split_last c.entries, b.counted)

length-release :
    (c : Cache)
    → 1 ≤ length c.entries
    → suc (length (release_cold_entry c).entries) ≡ length c.entries
unfolding release_cold_entry
length-release c h = ground (arith, length-split_last c.entries)

limit-release : (c : Cache) → (release_cold_entry c).glfs_lru_count ≡ c.glfs_lru_count
unfolding release_cold_entry
limit-release c = ground arith

append-IsBounded :
    (alloc : Bool) (v : Text) (fs : ℕ) (c : Cache)
    → IsBounded c
    → IsBounded (append_new_entry alloc v fs c).1
unfolding append_new_entry
append-IsBounded alloc v fs c b = elim (Bool-cases (c.lru_count == c.glfs_lru_count)) [
  | inl e ↦
      let full : c.lru_count ≡ c.glfs_lru_count = (==_iff c.lru_count c.glfs_lru_count).0 e in
      let one : 1 ≤ length c.entries = omega (arith, b.counted, b.some_room) in
      let shorter = length-release c one in
      let still = release-IsBounded c b in
      let limit = limit-release c in
      record {
        counted = ground (arith, e, still);
        limited = ground (arith, e, shorter, limit, b.limited);
        some_room = ground (arith, e, limit, b.some_room);
      }
  | inr e ↦
      let room : suc (length c.entries) ≤ c.glfs_lru_count =
        ground (arith, b.counted, b.limited, ==_iff c.lru_count c.glfs_lru_count) in
      record {
        counted = ground (arith, e, b.counted);
        limited = ground (arith, e, room, b.limited);
        some_room = ground (arith, e, b.some_room);
      }
]

query-IsBounded : (v : Text) (c : Cache) → IsBounded c → IsBounded (query_cache v c).1
unfolding query_cache
query-IsBounded v c b = record {
  counted = ground (arith, length-boost v c.entries, b.counted);
  limited = ground (arith, length-boost v c.entries, b.limited);
  some_room = ground (arith, b.some_room);
}

-- The limit is not set below what it is.
abbrev pub KeepsLimit : Call → Cache → Type 0
KeepsLimit (set_limit n) c = c.glfs_lru_count ≤ n
KeepsLimit _ c = Unit

abbrev pub KeepLimit : List Call → Cache → Type 0
KeepLimit [] c = Unit
KeepLimit (x ∷ xs) c = KeepsLimit x c × KeepLimit xs (call x c)

set_limit-IsBounded :
    (n : ℕ) (c : Cache) → IsBounded c → c.glfs_lru_count ≤ n → IsBounded (set_lru_count n c).1
unfolding set_lru_count
set_limit-IsBounded n c b h = record {
  counted = ground (arith, b.counted);
  limited = ground (arith, b.limited, h);
  some_room = ground (arith, b.some_room, h);
}

-- As long as the limit is never lowered, the cache holds no more volumes than the limit allows, and
-- the counter counts them, whatever the calls are.
pub calls-IsBounded :
    (xs : List Call) (c : Cache) → KeepLimit xs c → IsBounded c → IsBounded (calls xs c)
unfolding calls call
calls-IsBounded [] c k b = b
calls-IsBounded (query v ∷ xs) c k b =
    calls-IsBounded xs (call (query v) c) k.1 (query-IsBounded v c b)
calls-IsBounded (append alloc v fs ∷ xs) c k b =
    calls-IsBounded xs (call (append alloc v fs) c) k.1 (append-IsBounded alloc v fs c b)
calls-IsBounded (set_limit n ∷ xs) c k b =
    calls-IsBounded xs (call (set_limit n) c) k.1 (set_limit-IsBounded n c b k.0)

-- How often a handle is known: in the cache or among the closed ones.
abbrev pub known : ℕ → Cache → ℕ
known g c = count_if (λ e. e.glfs == g) c.entries + count_if (λ h. h == g) c.closed

-- What a call hands over.
abbrev pub given : ℕ → Call → ℕ
given g (append true v fs) = if fs == g then 1 else 0
given g _ = 0

known-release : (g : ℕ) (c : Cache) → known g (release_cold_entry c) ≡ known g c
unfolding release_cold_entry
known-release g c = ground (arith, count-split_last (λ e. e.glfs == g) c.entries)

-- Each call changes the number of times that a handle is in the cache or closed only by the handle that
-- the call hands over, so that a handle is neither lost nor closed twice.
pub call-known : (g : ℕ) (x : Call) (c : Cache) → known g (call x c) ≡ known g c + given g x
unfolding call query_cache append_new_entry set_lru_count
call-known g (query v) c = ground (arith, count-boost (λ e. e.glfs == g) v c.entries)
call-known g (append true v fs) c = ground (arith, known-release g c)
call-known g (append false v fs) c = ground (arith, known-release g c)
call-known g (set_limit n) c = ground arith

-- Calls that only look up and add.
abbrev pub IsUse : Call → Type 0
IsUse (set_limit n) = ⊥
IsUse _ = Unit

-- Once the limit is below the counter, looking up and adding never closes a handle again: the
-- comparison in `appendNewEntry` is for equality.
pub over_limit-closed :
    (xs : List Call) (c : Cache)
    → All IsUse xs
    → c.glfs_lru_count < c.lru_count
    → ((calls xs c).closed ≡ c.closed) × (c.lru_count ≤ (calls xs c).lru_count)
unfolding calls call query_cache append_new_entry
over_limit-closed [] c u h = (refl, omega arith)
over_limit-closed (query v ∷ xs) c u h =
    let (a, b) = over_limit-closed xs (query_cache v c).1 u.1 (ground (arith, h)) in
    (ground (arith, a), ground (arith, b))
over_limit-closed (append alloc v fs ∷ xs) c u h =
    let (a, b) =
      over_limit-closed xs (append_new_entry alloc v fs c).1 u.1
        (ground (arith, h, ==_iff c.lru_count c.glfs_lru_count)) in
    (
      ground (arith, a, h, ==_iff c.lru_count c.glfs_lru_count),
      ground (arith, b, h, ==_iff c.lru_count c.glfs_lru_count),
    )
over_limit-closed (set_limit n ∷ xs) c u h = elim u.0 [ ]

-- After a volume is added it is found, and it stands at the head of the list.
pub query-append :
    (v : Text) (fs : ℕ) (c : Cache)
    → length v ≤ 254
    → query_cache v (append_new_entry true v fs c).1 ≡ (some fs, (append_new_entry true v fs c).1)
unfolding query_cache append_new_entry find_entry boost_entry_warmness take_entry
query-append v fs c h = ground (arith, str_eq_refl v, str_cpy_of_fits 255 v [] (omega arith))

-- A volume that is found is answered with its handle, stands at the head of the list afterwards, and the
-- list holds the same entries as before.
pub query_lem :
    (v : Text) (c : Cache) (e : Entry)
    → find_entry v c.entries ≡ some e
    → ((query_cache v c).0 ≡ some e.glfs)
      × (get_elem? (query_cache v c).1.entries 0 ≡ some e)
      × ((p : Entry → Bool) → count_if p (query_cache v c).1.entries ≡ count_if p c.entries)
unfolding query_cache boost_entry_warmness
query_lem v c e h = (
  ground (arith, h),
  ground (arith, h, head-take_entry v c.entries),
  λ p. ground (arith, h, count-boost p v c.entries),
)
