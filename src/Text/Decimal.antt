-- ===== src/Text/Decimal.antt =====
-- Decimal numbers: `%zu`, `%u` and `%d` of printf and of sscanf (C library), as far as the sources use them.
use gluster_block.Prelude.{
  ℕ, zero, suc, ◌+◌, ◌-◌, ◌*◌, ◌/◌, ◌%◌, ◌^◌, ◌≤◌, ◌<◌, ◌≡◌, refl, true, false, Option, none, some,
  [], ◌∷◌, arith, ltb, ◌==◌, if◌then◌else◌, Bool-cases, inl, inr, length,
}
use gluster_block.Text.{Text, is_digit, is_space, codes}
use gluster_block.Text.Laws.{Lacks}

abbrev pub size_max : ℕ
size_max = 2 ^ 64 - 1

-- The digits of `n` in front of `out`; one unit of fuel for each digit.
emit : ℕ → ℕ → Text → Text
emit zero n out = out
emit (suc fuel) n out =
    let rest = emit fuel (n / 10) ((b'0' + n % 10) ∷ out) in
    if ltb n 10 then (b'0' + n) ∷ out else rest

-- printf("%zu", n)
unfoldable pub format_zu : ℕ → Text
unfolding emit
format_zu n = emit (suc n) n []

-- printf("%u", n) of a 32-bit word
abbrev pub format_u : ℕ → Text
format_u n = format_zu (n % 2 ^ 32)

-- printf("%d", n) of a 32-bit word
abbrev pub format_d : ℕ → Text
format_d n =
    let w = n % 2 ^ 32 in if ltb w (2 ^ 31) then format_zu w else b'-' ∷ format_zu (2 ^ 32 - w)

read_digits : ℕ → Text → ℕ
read_digits acc [] = acc
read_digits acc (c ∷ s) =
    let rest = read_digits (acc * 10 + (c - b'0')) s in if is_digit c then rest else acc

skip_space : Text → Text
skip_space [] = []
skip_space (c ∷ s) = let rest = skip_space s in if is_space c then rest else c ∷ s

saturate : ℕ → ℕ
saturate n = if ltb size_max n then size_max else n

-- A digit has to follow the sign; otherwise sscanf assigns nothing.
unsigned : Text → Option ℕ
unfolding read_digits saturate
unsigned [] = none
unsigned (c ∷ s) = if is_digit c then some (saturate (read_digits 0 (c ∷ s))) else none

negate : ℕ → ℕ
negate n = (2 ^ 64 - n) % 2 ^ 64

signed : Text → Option ℕ
unfolding unsigned negate
signed [] = none
signed (c ∷ s) =
    if c == b'-'
    then elim (unsigned s) [ none ↦ none | some n ↦ some (if n == size_max then n else negate n) ]
    else if c == b'+'
    then unsigned s
    else unsigned (c ∷ s)

-- sscanf(s, "%zu", &n): none leaves `n` as it was.
unfoldable pub scan_zu : Text → Option ℕ
unfolding skip_space signed
scan_zu s = signed (skip_space s)

read_digits-emit :
    (fuel n : ℕ) (out : Text) → n < fuel → read_digits 0 (emit fuel n out) ≡ read_digits n out
unfolding emit read_digits
read_digits-emit zero n out h = elim h [ ]
read_digits-emit (suc fuel) n out h =
    ground (arith, read_digits-emit fuel (n / 10) ((b'0' + n % 10) ∷ out))

Lacks-emit :
    (c fuel n : ℕ) (out : Text) → is_digit c ≡ false → Lacks c out → Lacks c (emit fuel n out)
unfolding emit
Lacks-emit c zero n out d h = h
Lacks-emit c (suc fuel) n out d h = elim (Bool-cases (ltb n 10)) [
  | inl last ↦ rw last (ground arith, h)
  | inr more ↦
      rw more
        (Lacks-emit c fuel (n / 10) ((b'0' + n % 10) ∷ out) d ((λ e. absurd (ground arith)), h))
]

-- A printed number has digits only.
pub Lacks-format_zu : (c n : ℕ) → is_digit c ≡ false → Lacks c (format_zu n)
unfolding format_zu
Lacks-format_zu c n d = Lacks-emit c (suc n) n [] d tt

-- The power of ten, by recursion.
abbrev pub pow10 : ℕ → ℕ
pow10 zero = 1
pow10 (suc k) = 10 * pow10 k

length-emit :
    (fuel n k : ℕ) (out : Text)
    → n < fuel
    → n < pow10 (suc k)
    → length (emit fuel n out) ≤ suc k + length out
unfolding emit
length-emit zero n k out f h = elim f [ ]
length-emit (suc fuel) n zero out f h = ground arith
length-emit (suc fuel) n (suc k) out f h =
    let rest = length-emit fuel (n / 10) k ((b'0' + n % 10) ∷ out) in ground (arith, rest)

-- A number below a power of ten has no more digits than the exponent.
pub length-format_zu : (n k : ℕ) → n < pow10 (suc k) → length (format_zu n) ≤ suc k
unfolding format_zu
length-format_zu n k h = omega (arith, length-emit (suc n) n k [] (omega arith) h)

-- The first byte of what is printed in front of `out` is a digit.
StartsWithDigit : Text → Type 0
StartsWithDigit s = (c : ℕ) × (r : Text) × (s ≡ c ∷ r) × (is_digit c ≡ true)

emit-StartsWithDigit : (fuel n : ℕ) (out : Text) → n < fuel → StartsWithDigit (emit fuel n out)
unfolding emit StartsWithDigit
emit-StartsWithDigit zero n out h = elim h [ ]
emit-StartsWithDigit (suc fuel) n out h = elim (Bool-cases (ltb n 10)) [
  | inl last ↦ (b'0' + n, out, rw last, ground arith)
  | inr more ↦ rw more (emit-StartsWithDigit fuel (n / 10) ((b'0' + n % 10) ∷ out) (ground arith))
]

unsigned-digits :
    (s : Text) (n : ℕ) → StartsWithDigit s → read_digits 0 s ≡ n → n ≤ size_max → scan_zu s ≡ some n
unfolding scan_zu StartsWithDigit
unsigned-digits s n (c, r, e, d) v m = rw e (ground (arith, v))

-- What "%zu" prints, "%zu" reads back, with or without a space in front.
pub scan_zu-format_zu : (n : ℕ) → n ≤ size_max → scan_zu (format_zu n) ≡ some n
unfolding format_zu read_digits
scan_zu-format_zu n h =
    unsigned-digits (emit (suc n) n []) n (emit-StartsWithDigit (suc n) n [] (omega arith))
      (read_digits-emit (suc n) n [] (omega arith)) h

pub scan_zu-space : (s : Text) → scan_zu (b' ' ∷ s) ≡ scan_zu s
unfolding scan_zu
scan_zu-space s = refl

format_zu_test : format_zu 4096 ≡ codes "4096"
unfolding format_zu
format_zu_test = refl

scan_zu_test : scan_zu (codes " 4096\n") ≡ some 4096
unfolding scan_zu
scan_zu_test = refl

pub format_u-small : (n : ℕ) → n < 2 ^ 32 → format_u n ≡ format_zu n
format_u-small n h = let e : n % 2 ^ 32 ≡ n = omega (arith, h) in rw e refl

pub format_d-small : (n : ℕ) → n < 2 ^ 31 → format_d n ≡ format_zu n
format_d-small n h =
    let e : n % 2 ^ 32 ≡ n = omega (arith, h) in
    let l : ltb n (2 ^ 31) ≡ true = ground (arith, h) in rw e (rw l refl)
