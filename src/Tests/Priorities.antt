-- ===== src/Tests/Priorities.antt =====
-- Two hosts and their numbers of blocks (rpc/glfs-operations.c).
use gluster_block.Prelude.{ℕ, ◌≤◌, ◌≡◌, refl, true, some, List, [], ◌∷◌, All, arith, get_elem?}
use gluster_block.Text.{Text, str_eq, str_cpy}
use gluster_block.Text.Decimal.{format_zu, scan_zu}
use gluster_block.Meta.{ok}
use gluster_block.Prio.{Attrs, absent, attr_name, set_count, prio_loop, get_prio_path}
use gluster_block.Prio.Counters.{
  IsCount, IsCounting, balance, inc, dec, Call, run_calls, count_calls, run_calls-count,
}
use gluster_block.Prio.Least.{get_prio_path_least}
use gluster_block.Tests.Sample.{h1, h2}

abbrev pub no_blocks : Attrs
no_blocks = λ a. absent

abbrev calls : List Call
calls = inc h1 ∷ inc h2 ∷ inc h1 ∷ dec h2 ∷ dec h2 ∷ []

run_calls-count_example :
    (attrs' : Attrs) × (run_calls calls no_blocks ≡ ok attrs')
    × IsCounting attrs'
    × ((a : Text) → balance attrs' a ≡ count_calls calls (balance no_blocks) a)
run_calls-count_example = run_calls-count calls no_blocks (λ a. tt) (λ a. omega arith)

-- Three blocks are counted for the first host.
abbrev pub three : Attrs
three = set_count true h1 3 no_blocks

three-IsCount : All (λ h. IsCount (three (attr_name h))) (h1 ∷ h2 ∷ [])
unfolding set_count attr_name str_eq scan_zu format_zu
three-IsCount = ((3, refl), (tt, tt))

get_prio_path_least_example :
    (i : ℕ) × (h : Text) × (get_prio_path true three (h1 ∷ h2 ∷ []) 255 [] ≡ ok h)
    × (get_elem? (h1 ∷ h2 ∷ []) i ≡ some h)
    × All (λ k. balance three h ≤ balance three k) (h1 ∷ h2 ∷ [])
get_prio_path_least_example =
    get_prio_path_least three (h1 ∷ h2 ∷ []) 255 [] (λ p. cc) three-IsCount
      ((omega arith, omega arith), ((omega arith, omega arith), tt))

second_host : get_prio_path true three (h1 ∷ h2 ∷ []) 255 [] ≡ ok h2
unfolding get_prio_path prio_loop set_count attr_name str_eq scan_zu format_zu str_cpy
second_host = refl
