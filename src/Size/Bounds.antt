-- ===== src/Size/Bounds.antt =====
-- What the sizes of utils/common.c come to, with the width of ssize_t and the length of `units`.
use gluster_block.Prelude.{
  ℕ, zero, suc, ◌+◌, ◌-◌, ◌*◌, ◌/◌, ◌%◌, ◌^◌, ◌≤◌, ◌<◌, ◌≡◌, ◌∙◌, ◌⊎◌, inl, inr, refl, ap, true,
  false, ◌||◌, Option, none, some, if◌then◌else◌, arith, ltb, leb, ◌==◌, ℤ, pos, negsuc, minus_one,
  length, Bool-cases, Option-cases,
}
use native.Mathlib.Nat as Nat
use gluster_block.Text.{Text}
use gluster_block.Size.{
  sector_size, scale, unit_of, suffix_fits, skip_one_space, align_size, size_of, parse_size,
  parse_whole, units, Format, format_loop,
}

-- A size that a file can have: positive, aligned and of 63 bits.
abbrev pub IsSize : ℕ → ℤ → Type 0
IsSize sector x = (s : ℕ) × (x ≡ pos s) × (sector ≤ s) × (s < 2 ^ 63) × (s % sector ≡ 0)

le-mul : (s q : ℕ) → 1 ≤ q → s ≤ s * q
le-mul s zero h = absurd (omega arith)
le-mul s (suc q) h = ground (arith, Nat.mul-suc s q)

one_part : (s q r : ℕ) → s ≤ s * q + r → r < s → s ≤ s * q
one_part s zero r h l = absurd (ground arith)
one_part s (suc q) r h l = le-mul s (suc q) (omega arith)

align-IsSize :
    (sector n : ℕ)
    → 1 ≤ sector
    → (align_size sector n ≡ minus_one) ⊎ IsSize sector (align_size sector n)
unfolding align_size
align-IsSize sector n p = elim (Bool-cases (leb (2 ^ 63) n || ltb n sector)) [
  | inl e ↦ inl (rw e refl)
  | inr e ↦
      let whole = Nat.div-add-mod n sector in
      let rest = Nat.mod-lt n p in
      let le : sector ≤ n = ground (arith, e) in
      let lt : n < 2 ^ 63 = ground (arith, e) in
      let aligned : n - n % sector ≡ sector * (n / sector) = omega (arith, whole) in
      inr (
        sector * (n / sector),
        rw (e, aligned) refl,
        one_part sector (n / sector) (n % sector) (omega (arith, whole)) rest,
        omega (arith, whole),
        Nat.mul-mod_right sector (n / sector),
      )
]

-- 1024 to the power.
abbrev pub factor : ℕ → ℕ
factor zero = 1
factor (suc k) = 1024 * factor k

factor_pos : (k : ℕ) → 1 ≤ factor k
factor_pos zero = omega arith
factor_pos (suc k) = omega (arith, factor_pos k)

scale-factor : (k n : ℕ) → n * factor k < 2 ^ 63 → scale k n ≡ n * factor k
unfolding scale
scale-factor zero n h = omega arith
scale-factor (suc k) n h =
    let again : n * 1024 * factor k ≡ n * (1024 * factor k) = Nat.mul_assoc n 1024 (factor k) in
    let small : n * 1024 ≤ n * 1024 * factor k = le-mul (n * 1024) (factor k) (factor_pos k) in
    let kept : n * 1024 % 2 ^ 64 ≡ n * 1024 = omega (arith, small, again, h) in
    rw kept (scale-factor k (n * 1024) (omega (arith, again, h)) ∙ again)

format-ends :
    (fuel : ℕ) (f : Format)
    → f.bytes < factor (suc fuel)
    → (g : Format) × (format_loop (suc fuel) f ≡ some g) × (g.bytes < 1024) × (g.i ≤ f.i + fuel)
unfolding format_loop
format-ends zero f h = (f, ground (arith, h), omega (arith, h), omega arith)
format-ends (suc fuel) f h = elim (Bool-cases (leb 1024 f.bytes)) [
  | inl e ↦
      let next : Format = record { bytes = f.bytes / 1024; rem = f.bytes % 1024; i = f.i + 1 } in
      let (g, q, b, i) = format-ends fuel next (omega (arith, h)) in
      (g, rw (format_loop, e) q, b, omega (arith, i))
  | inr e ↦ (f, rw (format_loop, e) refl, ground (arith, e), omega arith)
]

-- For a size of 64 bits the loop of the format ends after at most six rounds, with less than 1024 left,
-- at a unit that the table has.
pub format_loop_lem :
    (n : ℕ)
    → n < 2 ^ 64
    → (g : Format) × (format_loop 7 (record { bytes = n; rem = 0; i = 0 }) ≡ some g)
      × (g.bytes < 1024)
      × (g.i < length units)
format_loop_lem n h =
    let (g, q, b, i) = format-ends 6 (record { bytes = n; rem = 0; i = 0 }) (omega (arith, h)) in
    (g, q, b, omega (arith, i))

size_of-IsSize :
    (sector n : ℕ) (tmp : Text)
    → 1 ≤ sector
    → (size_of sector n tmp ≡ minus_one) ⊎ IsSize sector (size_of sector n tmp)
unfolding size_of
size_of-IsSize sector n tmp p = elim (Option-cases (unit_of tmp)) [
  | inl e ↦ inl (rw (size_of, e) refl)
  | inr (k, e) ↦ elim (Bool-cases (suffix_fits tmp)) [
    | inl t ↦ rw (size_of, e, t) (align-IsSize sector (scale k n) p)
    | inr t ↦ inl (rw (size_of, e, t) refl)
  ]
]

parse_whole-IsSize :
    (sizef : ℤ) (postfix : Text) (sector : ℕ)
    → 1 ≤ sector
    → (parse_whole sector sizef postfix ≡ minus_one)
      ⊎ IsSize sector (parse_whole sector sizef postfix)
unfolding parse_whole
parse_whole-IsSize (negsuc n) postfix sector p = inl refl
parse_whole-IsSize (pos n) postfix sector p = elim (Bool-cases (n == 0)) [
  | inl e ↦ inl (rw (parse_whole, e) refl)
  | inr e ↦ rw (parse_whole, e) (size_of-IsSize sector n (skip_one_space postfix) p)
]

parse_whole-exact :
    (n k sector : ℕ) (postfix : Text)
    → unit_of (skip_one_space postfix) ≡ some k
    → suffix_fits (skip_one_space postfix) ≡ true
    → 1 ≤ sector
    → sector ≤ n * factor k
    → n * factor k < 2 ^ 63
    → parse_whole sector (pos n) postfix ≡ pos (n * factor k - n * factor k % sector)
unfolding parse_whole size_of align_size
parse_whole-exact zero k sector postfix u f p l h = absurd (ground (arith, l, p))
parse_whole-exact (suc n) k sector postfix u f p l h =
    let low : leb (2 ^ 63) (suc n * factor k) ≡ false = ground (arith, h) in
    let high : ltb (suc n * factor k) sector ≡ false = ground (arith, l) in
    let nonzero : suc n == 0 ≡ false = ground arith in
    rw (parse_whole, size_of, align_size, nonzero, u, f, scale-factor k (suc n) h, low, high) refl

-- Whatever the text is and whatever the multiplications overflow to, the parser returns -1 or a
-- multiple of the block size that is no smaller than it and fits an ssize_t.
pub parse_size-IsSize :
    (strtod : Text → ℤ × Text) (value : Option Text) (blksize : ℕ)
    → (parse_size strtod value blksize ≡ minus_one)
      ⊎ IsSize (if blksize == 0 then sector_size else blksize) (parse_size strtod value blksize)
unfolding parse_size
parse_size-IsSize strtod none blksize = inl refl
parse_size-IsSize strtod (some value) blksize =
    parse_whole-IsSize (strtod value).0 (strtod value).1
      (if blksize == 0 then sector_size else blksize) (ground arith)

-- If the unit and the text behind it are accepted, and the number times the unit is at least the block size
-- and fits an ssize_t, then the result is that product, rounded down to a multiple of the block size.
pub parse_size-exact :
    (strtod : Text → ℤ × Text) (value : Text) (n k sector : ℕ) (postfix : Text)
    → strtod value ≡ (pos n, postfix)
    → unit_of (skip_one_space postfix) ≡ some k
    → suffix_fits (skip_one_space postfix) ≡ true
    → 1 ≤ sector
    → sector ≤ n * factor k
    → n * factor k < 2 ^ 63
    → parse_size strtod (some value) sector ≡ pos (n * factor k - n * factor k % sector)
unfolding parse_size
parse_size-exact strtod value n k sector postfix r u f p l h =
    let other : sector == 0 ≡ false = ground (arith, p) in
    rw other (
      ap (λ (x : ℤ × Text). parse_whole sector x.0 x.1) r
      ∙ parse_whole-exact n k sector postfix u f p l h)
