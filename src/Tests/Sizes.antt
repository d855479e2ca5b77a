-- ===== src/Tests/Sizes.antt =====
-- Sizes of the command line (utils/common.c).
use gluster_block.Prelude.{◌<◌, ◌≡◌, ◌⊎◌, refl, true, some, arith, ℤ, pos, minus_one, length}
use gluster_block.Text.{Text, codes, str_eq}
use gluster_block.Size.{
  parse_size, format_loop, Format, units, unit_of, suffix_fits, skip_one_space, scale, align_size,
}
use gluster_block.Size.Bounds.{IsSize, parse_size-IsSize, parse_size-exact, format_loop_lem}

-- "3000 KiB" and "17E", as strtod reads them.
abbrev three_thousand : Text → ℤ × Text
three_thousand v = (pos 3000, codes " KiB")

abbrev seventeen : Text → ℤ × Text
seventeen v = (pos 17, codes "E")

kib : unit_of (skip_one_space (codes " KiB")) ≡ some 1
unfolding unit_of skip_one_space
kib = refl

kib-fits : suffix_fits (skip_one_space (codes " KiB")) ≡ true
unfolding suffix_fits skip_one_space str_eq
kib-fits = refl

parse_size-exact_example : parse_size three_thousand (some (codes "3000 KiB")) 4096 ≡ pos 3072000
parse_size-exact_example =
    parse_size-exact three_thousand (codes "3000 KiB") 3000 1 4096 (codes " KiB") refl kib kib-fits
      (omega arith) (omega arith) (omega arith)

parse_size-IsSize_example :
    (parse_size seventeen (some (codes "17E")) 0 ≡ minus_one)
    ⊎ IsSize 512 (parse_size seventeen (some (codes "17E")) 0)
parse_size-IsSize_example = parse_size-IsSize seventeen (some (codes "17E")) 0

-- 17 EiB is taken for one EiB.
overflow_test : parse_size seventeen (some (codes "17E")) 0 ≡ pos 1152921504606846976
unfolding parse_size unit_of suffix_fits scale align_size
overflow_test = refl

format_loop_lem_example :
    (g : Format) × (format_loop 7 (record { bytes = 1048576; rem = 0; i = 0 }) ≡ some g)
    × (g.bytes < 1024)
    × (g.i < length units)
format_loop_lem_example = format_loop_lem 1048576 (omega arith)
