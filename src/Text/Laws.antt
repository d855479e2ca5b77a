-- ===== src/Text/Laws.antt =====
-- Laws of the string functions.
use gluster_block.Prelude.{
  ℕ, ◌-◌, ◌≤◌, ◌≡◌, refl, ◌↔◌, ◌≢◌, true, some, [], ◌∷◌, ◌++◌, All, arith, length,
}
use gluster_block.Text.{Text, str_eq, after_char, before_char, first_token, str_cpy}

abbrev pub Lacks : ℕ → Text → Type 0
Lacks c s = All (λ d. d ≢ c) s

eq_of_str_eq : (s t : Text) → str_eq s t ≡ true → s ≡ t
unfolding str_eq
eq_of_str_eq [] [] h = refl
eq_of_str_eq [] (d ∷ t) h = ground arith
eq_of_str_eq (c ∷ s) [] h = ground arith
eq_of_str_eq (c ∷ s) (d ∷ t) h = ground (arith, eq_of_str_eq s t)

pub str_eq_refl : (s : Text) → str_eq s s ≡ true
unfolding str_eq
str_eq_refl [] = refl
str_eq_refl (c ∷ s) = ground (arith, str_eq_refl s)

str_eq_of_eq : (s t : Text) → s ≡ t → str_eq s t ≡ true
str_eq_of_eq s t e = ground (arith, str_eq_refl s)

pub str_eq_iff : (s t : Text) → (str_eq s t ≡ true) ↔ (s ≡ t)
str_eq_iff s t = (eq_of_str_eq s t, str_eq_of_eq s t)

pub before_char-append : (c : ℕ) (s r : Text) → Lacks c s → before_char c (s ++ c ∷ r) ≡ s
unfolding before_char
before_char-append c [] r h = ground arith
before_char-append c (d ∷ s) r h = ground (arith, before_char-append c s r h.1, h.0)

pub after_char-append : (c : ℕ) (s r : Text) → Lacks c s → after_char c (s ++ c ∷ r) ≡ some r
unfolding after_char
after_char-append c [] r h = ground arith
after_char-append c (d ∷ s) r h = ground (arith, after_char-append c s r h.1, h.0)

-- The first token of a string that begins with a nonempty run without the delimiter.
pub first_token-append :
    (c : ℕ) (s r : Text) → s ≢ [] → Lacks c s → first_token c (s ++ c ∷ r) ≡ some s
unfolding first_token
first_token-append c [] r n h = absurd (n refl)
first_token-append c (d ∷ s) r n h = ground (arith, before_char-append c s r h.1, h.0)

-- A source that fits is copied.
pub str_cpy_of_fits : (size : ℕ) (s old : Text) → length s ≤ size - 1 → str_cpy size s old ≡ s
unfolding str_cpy
str_cpy_of_fits size s old h = ground arith

pub Lacks-append : (c : ℕ) (s t : Text) → Lacks c s → Lacks c t → Lacks c (s ++ t)
Lacks-append c [] t hs ht = ht
Lacks-append c (d ∷ s) t hs ht = (hs.0, Lacks-append c s t hs.1 ht)
