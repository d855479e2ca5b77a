-- ===== src/Text.antt =====
-- C strings as lists of bytes without the final NUL, and the functions of string.h, ctype.h and
-- stdio.h that the sources call on them.
pub mod Laws
pub mod Decimal
use Prim.Native.Char.{code}
use gluster_block.Prelude.{
  ℕ, ◌+◌, ◌-◌, zero, suc, String, Bool, true, false, ◌&&◌, ◌||◌, Option, none, some, List, [], ◌∷◌,
  leb, ltb, ◌==◌, if◌then◌else◌, length,
}

abbrev pub Text : Type 0
Text = List ℕ

-- The bytes of a literal.
abbrev pub codes : String → Text
codes String.[] = []
codes (String.◌∷◌ c s) = code c ∷ codes s

-- `!strcmp(a, b)`
unfoldable pub str_eq : Text → Text → Bool
str_eq [] [] = true
str_eq [] (d ∷ t) = false
str_eq (c ∷ s) [] = false
str_eq (c ∷ s) (d ∷ t) = c == d && str_eq s t

-- `strchr(s, c)` and what follows the byte that it finds; none is a null pointer.
unfoldable pub after_char : ℕ → Text → Option Text
after_char c [] = none
after_char c (d ∷ s) = if d == c then some s else after_char c s

-- The bytes in front of the first `c`, all of them if there is none.
unfoldable pub before_char : ℕ → Text → Text
before_char c [] = []
before_char c (d ∷ s) = let rest = before_char c s in if d == c then [] else d ∷ rest

-- The string without its leading bytes `c`.
unfoldable pub skip_char : ℕ → Text → Text
skip_char c [] = []
skip_char c (d ∷ s) = let rest = skip_char c s in if d == c then rest else d ∷ s

-- `strtok(s, "c")`, the first call: none if the string has no other byte.
unfoldable pub first_token : ℕ → Text → Option Text
unfolding skip_char before_char
first_token c s = elim (skip_char c s) [ [] ↦ none | d ∷ r ↦ some (before_char c (d ∷ r)) ]

abbrev pub is_digit : ℕ → Bool
is_digit c = leb b'0' c && leb c b'9'

-- `isspace`, in the C locale
abbrev pub is_space : ℕ → Bool
is_space c = c == b' ' || (leb 9 c && leb c 13)

-- `gbStrcpy` into an array of `size` bytes that holds `old`: a source that does not fit is not
-- copied, and the array keeps what it held.
unfoldable pub str_cpy : ℕ → Text → Text → Text
str_cpy size src old = if ltb (size - 1) (length src) then old else src
