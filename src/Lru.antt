-- ===== src/Lru.antt =====
-- The cache of open volumes: `Cache`, `lruCount` and `glfsLruCount` with the functions of utils/lru.c
-- that change them. Under the locks one call ends before the next begins.
pub mod Bounds
use gluster_block.Prelude.{
  ℕ, ◌+◌, ◌-◌, Bool, true, false, not, ◌||◌, Option, none, some, List, [], ◌∷◌, ◌++◌, if◌then◌else◌,
  ltb, ◌==◌, ℤ, pos, minus_one, length,
}
use gluster_block.Text.{Text, str_eq, str_cpy}

-- `Entry`; the handle of the volume is a number.
pub record Entry : Type 0 where
  pub volume : Text
  pub glfs : ℕ

-- The list from its head, the counter, the limit, and the handles that were closed, the last one first.
pub record Cache : Type 0 where
  pub entries : List Entry
  pub lru_count : ℕ
  pub glfs_lru_count : ℕ
  pub closed : List ℕ

abbrev pub lru_count_max : ℕ
lru_count_max = 512

-- glusterBlockSetLruCount
unfoldable pub set_lru_count : ℕ → Cache → ℤ × Cache
set_lru_count n c =
    if n == 0 || ltb lru_count_max n
    then (minus_one, c)
    else if c.glfs_lru_count == n
    then (pos 0, c)
    else (pos 0, record c { glfs_lru_count = n })

-- The last entry and the list without it; none for the empty list.
unfoldable pub split_last : List Entry → Option (List Entry × Entry)
split_last [] = none
split_last (e ∷ es) = elim (split_last es) [
  | none ↦ some ([], e)
  | some (init, x) ↦ some (e ∷ init, x)
]

-- releaseColdEntry: the loop runs once, from the tail of the list.
unfoldable pub release_cold_entry : Cache → Cache
unfolding split_last
release_cold_entry c = elim (split_last c.entries) [
  | none ↦ c
  | some (init, e) ↦ record c {
    entries = init;
    lru_count = c.lru_count - 1;
    closed = e.glfs ∷ c.closed;
  }
]

-- appendNewEntry; `alloc` is false if there is no memory.
unfoldable pub append_new_entry : (alloc : Bool) → Text → ℕ → Cache → ℤ × Cache
unfolding release_cold_entry
append_new_entry alloc volname fs c =
    let c' = if c.lru_count == c.glfs_lru_count then release_cold_entry c else c in
    if not alloc then (minus_one, c') else (
      pos 0,
      record c' {
        entries = record { volume = str_cpy 255 volname []; glfs = fs } ∷ c'.entries;
        lru_count = c'.lru_count + 1;
      },
    )

-- The first entry of the volume and the list without it.
unfoldable pub take_entry : Text → List Entry → Option (Entry × List Entry)
take_entry v [] = none
take_entry v (e ∷ es) =
    let rest = take_entry v es in
    if str_eq e.volume v
    then some (e, es)
    else elim rest [ none ↦ none | some (x, others) ↦ some (x, e ∷ others) ]

-- boostEntryWarmness
unfoldable pub boost_entry_warmness : Text → List Entry → List Entry
unfolding take_entry
boost_entry_warmness v es = elim (take_entry v es) [ none ↦ es | some (x, others) ↦ x ∷ others ]

-- The loop of queryCache: the first entry of the volume.
unfoldable pub find_entry : Text → List Entry → Option Entry
find_entry v [] = none
find_entry v (e ∷ es) = let rest = find_entry v es in if str_eq e.volume v then some e else rest

-- queryCache
unfoldable pub query_cache : Text → Cache → Option ℕ × Cache
unfolding find_entry boost_entry_warmness
query_cache v c = elim (find_entry v c.entries) [
  | none ↦ (none, c)
  | some e ↦ (some e.glfs, record c { entries = boost_entry_warmness v c.entries })
]

-- A call of one of the functions.
pub data Call : Type 0 where
  query : Text → Call
  append : (alloc : Bool) → Text → ℕ → Call
  set_limit : ℕ → Call

unfoldable pub call : Call → Cache → Cache
unfolding query_cache append_new_entry set_lru_count
call (query v) c = (query_cache v c).1
call (append alloc v fs) c = (append_new_entry alloc v fs c).1
call (set_limit n) c = (set_lru_count n c).1

unfoldable pub calls : List Call → Cache → Cache
unfolding call
calls [] c = c
calls (x ∷ xs) c = calls xs (call x c)
