-- ===== src/Size.antt =====
-- Sizes on the command line: `glusterBlockParseSize` and the loop of `glusterBlockFormatSize`
-- (utils/common.c). What strtod of the C library reads is an argument.
pub mod Bounds
use gluster_block.Prelude.{
  ℕ, zero, suc, ◌+◌, ◌-◌, ◌*◌, ◌/◌, ◌%◌, ◌^◌, Bool, true, false, not, ◌&&◌, ◌||◌, Option, none,
  some, List, [], ◌∷◌, map, if◌then◌else◌, ltb, leb, ◌==◌, ℤ, pos, negsuc, minus_one,
}
use gluster_block.Text.{Text, codes, str_eq}

abbrev pub sector_size : ℕ
sector_size = 512

-- `tolower`, in the C locale
to_lower : ℕ → ℕ
to_lower c = if leb b'A' c && leb c b'Z' then c + 32 else c

-- `sizef *= 1024` as often as the case falls through; an ssize_t as its 64 bits.
unfoldable pub scale : ℕ → ℕ → ℕ
scale zero n = n
scale (suc k) n = scale k (n * 1024 % 2 ^ 64)

-- How often a unit falls through; none is the default case.
unit_steps : ℕ → Option ℕ
unit_steps c =
    if c == b'y'
    then some 8
    else if c == b'z'
    then some 7
    else if c == b'e'
    then some 6
    else if c == b'p'
    then some 5
    else if c == b't'
    then some 4
    else if c == b'g'
    then some 3
    else if c == b'm'
    then some 2
    else if c == b'k'
    then some 1
    else if c == b'b'
    then some 0
    else none

-- `switch (tolower(*tmp))`: the end of the text is a case of its own.
unfoldable pub unit_of : Text → Option ℕ
unfolding unit_steps to_lower
unit_of [] = some 0
unit_of (c ∷ s) = unit_steps (to_lower c)

-- Whether the text behind the number ends as it should: nothing behind a `b`, "i" or "iB" behind others.
unfoldable pub suffix_fits : Text → Bool
unfolding to_lower
suffix_fits [] = true
suffix_fits (c ∷ []) = true
suffix_fits (c ∷ d ∷ s) =
    not (c == b'b' || c == b'B')
    && (str_eq (map to_lower (d ∷ s)) (codes "i") || str_eq (map to_lower (d ∷ s)) (codes "ib"))

-- `if (*postfix == ' ') tmp = tmp + 1`
unfoldable pub skip_one_space : Text → Text
skip_one_space [] = []
skip_one_space (c ∷ s) = if c == b' ' then s else c ∷ s

-- The case of the bytes: the minimum, with the sign of the 64 bits, and the alignment.
unfoldable pub align_size : (blksize : ℕ) → ℕ → ℤ
align_size blksize n = if leb (2 ^ 63) n || ltb n blksize then minus_one else pos (n - n % blksize)

-- What follows once the number is read.
unfoldable pub size_of : (blksize n : ℕ) → Text → ℤ
size_of blksize n tmp = elim (unit_of tmp) [
  | none ↦ minus_one
  | some k ↦ if suffix_fits tmp then align_size blksize (scale k n) else minus_one
]

-- A number that is negative or zero is refused.
unfoldable pub parse_whole : (sector : ℕ) → ℤ → Text → ℤ
unfolding skip_one_space size_of
parse_whole sector (negsuc n) postfix = minus_one
parse_whole sector (pos n) postfix =
    if n == 0 then minus_one else size_of sector n (skip_one_space postfix)

-- glusterBlockParseSize; `strtod` is the number as an ssize_t, and what stands behind it.
unfoldable pub parse_size : (strtod : Text → ℤ × Text) → Option Text → (blksize : ℕ) → ℤ
unfolding parse_whole
parse_size strtod none blksize = minus_one
parse_size strtod (some value) blksize =
    let (sizef, postfix) = strtod value in
    parse_whole (if blksize == 0 then sector_size else blksize) sizef postfix

-- The units of glusterBlockFormatSize.
abbrev pub units : List Text
units =
    codes "B"
    ∷ codes "KiB"
    ∷ codes "MiB"
    ∷ codes "GiB"
    ∷ codes "TiB"
    ∷ codes "PiB"
    ∷ codes "EiB"
    ∷ codes "ZiB"
    ∷ codes "YiB"
    ∷ []

pub record Format : Type 0 where
  pub bytes : ℕ
  pub rem : ℕ
  pub i : ℕ

-- The loop of glusterBlockFormatSize; none is a loop that has not ended within the fuel.
unfoldable pub format_loop : (fuel : ℕ) → Format → Option Format
format_loop zero f = none
format_loop (suc fuel) f =
    let next =
      format_loop fuel (record { bytes = f.bytes / 1024; rem = f.bytes % 1024; i = f.i + 1 }) in
    if leb 1024 f.bytes then next else some f
