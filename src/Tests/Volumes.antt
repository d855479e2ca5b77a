-- ===== src/Tests/Volumes.antt =====
-- The cache of volumes with a limit of two (utils/lru.c).
use gluster_block.Prelude.{◌≤◌, ◌≡◌, refl, true, some, List, [], ◌∷◌, arith}
use gluster_block.Text.{codes, str_eq}
use gluster_block.Lru.{Entry, Cache, Call, query, append, calls, find_entry}
use gluster_block.Lru.Bounds.{IsBounded, calls-IsBounded, over_limit-closed}

abbrev entry_a : Entry
entry_a = record { volume = codes "a"; glfs = 1 }

abbrev entry_b : Entry
entry_b = record { volume = codes "b"; glfs = 2 }

abbrev full : Cache
full = record { entries = entry_a ∷ entry_b ∷ []; lru_count = 2; glfs_lru_count = 2; closed = [] }

full-IsBounded : IsBounded full
full-IsBounded = record { counted = refl; limited = omega arith; some_room = omega arith }

abbrev uses : List Call
uses = query (codes "b") ∷ append true (codes "c") 3 ∷ append true (codes "d") 4 ∷ []

calls-IsBounded_example : IsBounded (calls uses full)
calls-IsBounded_example = calls-IsBounded uses full (tt, (tt, (tt, tt))) full-IsBounded

abbrev lowered : Cache
lowered = record full { glfs_lru_count = 1 }

over_limit-closed_example :
    ((calls uses lowered).closed ≡ []) × (2 ≤ (calls uses lowered).lru_count)
over_limit-closed_example = over_limit-closed uses lowered (tt, (tt, (tt, tt))) (omega arith)

found_b : find_entry (codes "b") full.entries ≡ some entry_b
unfolding find_entry str_eq
found_b = refl
