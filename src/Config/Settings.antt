-- ===== src/Config/Settings.antt =====
-- A configuration file of settings in quotes, `KEY = "text"` (utils/dyn-config.c).
use gluster_block.Prelude.{
  ℕ, suc, ◌+◌, ◌≡◌, ◌≢◌, ◌∙◌, refl, ap, Bool, true, false, Option, none, some, List, [], ◌∷◌, ◌++◌,
  arith, All, All-append, All-map, if◌then◌else◌, length, ◌⊎◌, inl, inr, ℤ, Bool-cases,
}
use gluster_block.Text.{Text, str_eq, before_char, after_char}
use gluster_block.Text.Laws.{str_eq_iff}
use gluster_block.Meta.{ok}
use gluster_block.Meta.Valid.{cut}
use gluster_block.Config.{
  is_blank, is_eol, is_quote, Value, str, ConfOption, get_option, set_option, line_of, skip_blanks,
  strip_end, close_quote, str_value, set_value, starts_with_digit, parse_option, parse_options,
  word, bool_value, low_one,
}

-- One line, with its quote.
pub record Setting : Type 0 where
  pub key : Text
  pub quote : ℕ
  pub text : Text

abbrev pub IsKeyByte : ℕ → Type 0
IsKeyByte c = (is_blank c ≡ false) × (is_eol c ≡ false) × (c ≢ 0) × (c ≢ b'=')

abbrev pub IsTextByte : ℕ → Type 0
IsTextByte c = (is_eol c ≡ false) × (c ≢ 0)

pub record IsSetting (s : Setting) : Type 0 where
  pub key_nonempty : s.key ≢ []
  pub key : All IsKeyByte s.key
  pub quote : is_quote s.quote ≡ true
  pub text : All IsTextByte s.text

abbrev pub value_part : Setting → Text
value_part s = b' ' ∷ s.quote ∷ (s.text ++ s.quote ∷ [])

abbrev pub body : Setting → Text
body s = (s.key ++ b' ' ∷ []) ++ b'=' ∷ value_part s

line_of-append : (l rest : Text) → All IsTextByte l → line_of (l ++ 10 ∷ rest) ≡ (l, rest)
unfolding line_of
line_of-append [] rest a = refl
line_of-append (c ∷ l) rest a = rw (line_of-append l rest a.1, a.0.0) refl

before_null : (l : Text) → All IsTextByte l → before_char 0 l ≡ l
unfolding before_char
before_null [] a = refl
before_null (c ∷ l) a = ground (arith, before_null l a.1, a.0.1)

after_null : (l : Text) → All IsTextByte l → after_char 0 l ≡ none
unfolding after_char
after_null [] a = refl
after_null (c ∷ l) a = ground (arith, after_null l a.1, a.0.1)

cut-append :
    (k v : Text) → All (λ c. (c ≢ 0) × (c ≢ b'=')) k → cut b'=' (k ++ b'=' ∷ v) ≡ some (k, v)
unfolding cut
cut-append [] v a = refl
cut-append (c ∷ k) v a = ground (arith, cut-append k v a.1, a.0.0, a.0.1)

strip_end-blank : (k : Text) → All IsKeyByte k → strip_end (k ++ b' ' ∷ []) ≡ k
unfolding strip_end
strip_end-blank [] a = refl
strip_end-blank (c ∷ []) a = rw (a.0.0) refl
strip_end-blank (c ∷ d ∷ k) a = let e = strip_end-blank (d ∷ k) a.1 in rw (strip_end, e) refl

strip_end-quote :
    (t : Text) (q : ℕ)
    → is_quote q ≡ true
    → (c : ℕ) × (r : Text) × (strip_end (t ++ q ∷ []) ≡ c ∷ r)
unfolding strip_end
strip_end-quote [] q h = (q, [], ground arith)
strip_end-quote (c ∷ t) q h =
    let (d, r, e) = strip_end-quote t q h in (c, d ∷ r, rw (strip_end, e) refl)

close_quote-quote : (t : Text) (q : ℕ) → is_quote q ≡ true → close_quote (t ++ q ∷ []) ≡ some t
unfolding close_quote strip_end
close_quote-quote [] q h = rw h refl
close_quote-quote (c ∷ t) q h =
    let (d, r, e) = strip_end-quote t q h in rw (close_quote, e) (rw (close_quote-quote t q h) refl)

str_value-part : (s : Setting) → is_quote s.quote ≡ true → str_value true (value_part s) ≡ s.text
unfolding str_value skip_blanks
str_value-part s h =
    let b : is_blank s.quote ≡ false = ground arith in
    rw (skip_blanks, b) (rw h (rw (close_quote-quote s.text s.quote h) refl))

-- Every option is a string.
abbrev pub AreStrings : List ConfOption → Type 0
AreStrings os = All (λ (o : ConfOption). (t : Text) × (o.value ≡ str t)) os

get_option-AreStrings :
    (key : Text) (os : List ConfOption)
    → AreStrings os
    → (get_option key os ≡ none) ⊎ ((t : Text) × (get_option key os ≡ some (str t)))
unfolding get_option
get_option-AreStrings key [] a = inl refl
get_option-AreStrings key (o ∷ os) a = elim (Bool-cases (str_eq o.key key)) [
  | inl e ↦ let (t, v) = a.0 in inr (t, rw (e, v) refl)
  | inr e ↦ rw e (get_option-AreStrings key os a.1)
]

set_option-AreStrings :
    (key t : Text) (os : List ConfOption) → AreStrings os → AreStrings (set_option key (str t) os)
unfolding set_option
set_option-AreStrings key t [] a = ((t, refl), tt)
set_option-AreStrings key t (o ∷ os) a = elim (Bool-cases (str_eq o.key key)) [
  | inl e ↦ rw e ((t, refl), a.1)
  | inr e ↦ rw e (a.0, set_option-AreStrings key t os a.1)
]

-- What is set is found, and nothing else has changed.
get_option-set_option :
    (k key : Text) (v : Value) (os : List ConfOption)
    → get_option k (set_option key v os) ≡ (if str_eq key k then some v else get_option k os)
unfolding get_option set_option
get_option-set_option k key v [] = refl
get_option-set_option k key v (o ∷ os) = ground (
  arith,
  get_option-set_option k key v os,
  str_eq_iff o.key key,
  str_eq_iff o.key k,
  str_eq_iff key k,
)

body-IsTextByte : (s : Setting) → IsSetting s → All IsTextByte (body s)
body-IsTextByte s i =
    let q : IsTextByte s.quote = ground (arith, i.quote) in
    All-append IsTextByte (s.key ++ b' ' ∷ []) (b'=' ∷ value_part s)
      (All-append IsTextByte s.key (b' ' ∷ []) (All-map (λ c h. (h.1, h.2)) s.key i.key)
        ((refl, omega arith), tt))
      (
        (refl, omega arith),
        ((refl, omega arith), (q, All-append IsTextByte s.text (s.quote ∷ []) i.text (q, tt))),
      )

split_lem :
    (s : Setting) → IsSetting s → cut b'=' (body s) ≡ some (s.key ++ b' ' ∷ [], value_part s)
split_lem s i = cut-append (s.key ++ b' ' ∷ []) (value_part s) (
    All-append (λ c. (c ≢ 0) × (c ≢ b'=')) s.key (b' ' ∷ [])
      (All-map (λ c h. (h.2, h.3)) s.key i.key) ((omega arith, omega arith), tt))

no_digit :
    (s : Setting) → is_quote s.quote ≡ true → starts_with_digit (skip_blanks (value_part s)) ≡ false
unfolding skip_blanks
no_digit s h = let b : is_blank s.quote ≡ false = ground arith in rw (skip_blanks, b) (ground arith)

module _ (atoi : Text → ℤ) where
  set_value-text :
      (s : Setting) (after : Text) (os : List ConfOption)
      → IsSetting s
      → AreStrings os
      → set_value atoi s.key (get_option s.key os) (value_part s) true [] after os
        ≡ ok (set_option s.key (str s.text) os, after)
  unfolding set_value
  set_value-text s after os i a = elim (get_option-AreStrings s.key os a) [
    | inl e ↦ rw (e, set_value) (rw (no_digit s i.quote) (rw (str_value-part s i.quote) refl))
    | inr (t, e) ↦ rw (e, set_value) (rw (str_value-part s i.quote) refl)
  ]

  option_lem :
      (first : Bool) (c : ℕ) (k q t rest : _) (os : List ConfOption)
      → IsSetting (record { key = c ∷ k; quote = q; text = t })
      → AreStrings os
      → parse_option atoi first (body (record { key = c ∷ k; quote = q; text = t }) ++ 10 ∷ rest) os
        ≡ ok (set_option (c ∷ k) (str t) os, rest)
  unfolding parse_option skip_blanks
  option_lem first c k q t rest os i a =
      let s : Setting = record { key = c ∷ k; quote = q; text = t } in
      let b = body-IsTextByte s i in
      rw
        (
          parse_option,
          line_of-append (body s) rest b,
          i.key.0.0,
          before_null (body s) b,
          split_lem s i,
        )
        (rw (line_of-append (body s) rest b, i.key.0.0, after_null (body s) b)
          (rw (strip_end-blank (c ∷ k) i.key) (set_value-text s rest os i a)))

  setting_lem :
      (first : Bool) (key : Text) (q : ℕ) (t rest : Text) (os : List ConfOption) (n : ℕ)
      → IsSetting (record { key = key; quote = q; text = t })
      → AreStrings os
      → parse_options atoi
          (suc n)
          first
          (body (record { key = key; quote = q; text = t }) ++ 10 ∷ rest)
          os
        ≡ parse_options atoi n false rest (set_option key (str t) os)
  unfolding parse_options
  setting_lem first [] q t rest os n i a = absurd (i.key_nonempty refl)
  setting_lem first (c ∷ k) q t rest os n i a =
      rw (parse_options, option_lem first c k q t rest os i a) refl

-- The settings in turn.
abbrev pub apply_settings : List Setting → List ConfOption → List ConfOption
apply_settings [] os = os
apply_settings (s ∷ ss) os = apply_settings ss (set_option s.key (str s.text) os)

-- The text that the last setting of a key gives, or what was there.
abbrev pub last_setting : Text → List Setting → Option Value → Option Value
last_setting k [] old = old
last_setting k (s ∷ ss) old = last_setting k ss (if str_eq s.key k then some (str s.text) else old)

get_option-apply :
    (k : Text) (ss : List Setting) (os : List ConfOption)
    → get_option k (apply_settings ss os) ≡ last_setting k ss (get_option k os)
get_option-apply k [] os = refl
get_option-apply k (s ∷ ss) os =
    get_option-apply k ss (set_option s.key (str s.text) os)
    ∙ ap (last_setting k ss) (get_option-set_option k s.key (str s.text) os)

-- The file, and the NUL that the reader of the file puts behind it.
abbrev pub file_of : List Setting → Text
file_of [] = 0 ∷ []
file_of (s ∷ ss) = body s ++ 10 ∷ file_of ss

-- The NUL is one more line: it sets an option without a name.
abbrev named_nothing : List ConfOption → List ConfOption
named_nothing os = set_option [] (bool_value (get_option [] os) low_one) os

parse-null :
    (atoi : Text → ℤ) (first : Bool) (os : List ConfOption)
    → parse_options atoi 1 first (0 ∷ []) os ≡ ok (named_nothing os)
unfolding parse_options skip_blanks before_char cut word
parse-null atoi first os = refl

parse_options-settings :
    (atoi : Text → ℤ) (ss : List Setting) (first : Bool) (os : List ConfOption)
    → All IsSetting ss
    → AreStrings os
    → parse_options atoi (length ss + 1) first (file_of ss) os
      ≡ ok (named_nothing (apply_settings ss os))
parse_options-settings atoi [] first os i a =
    let z : 0 + 1 ≡ 1 = omega arith in rw z (parse-null atoi first os)
parse_options-settings atoi (s ∷ ss) first os i a =
    let z : suc (length ss) + 1 ≡ suc (length ss + 1) = omega arith in
    rw z (
      setting_lem atoi first s.key s.quote s.text (file_of ss) os (length ss + 1) i.0 a
      ∙ parse_options-settings atoi ss false (set_option s.key (str s.text) os) i.1
          (set_option-AreStrings s.key s.text os a))

nothing_else :
    (k : Text) (os : List ConfOption) → k ≢ [] → get_option k (named_nothing os) ≡ get_option k os
unfolding str_eq
nothing_else [] os n = absurd (n refl)
nothing_else (c ∷ k) os n =
    get_option-set_option (c ∷ k) [] (bool_value (get_option [] os) low_one) os

named_null :
    (os : List ConfOption)
    → get_option [] (named_nothing os) ≡ some (bool_value (get_option [] os) low_one)
unfolding str_eq
named_null os = get_option-set_option [] [] (bool_value (get_option [] os) low_one) os

-- No setting has the empty name.
unnamed_lem :
    (ss : List Setting) (os : List ConfOption)
    → All IsSetting ss
    → get_option [] (apply_settings ss os) ≡ get_option [] os
unnamed_lem [] os i = refl
unnamed_lem (s ∷ ss) os i = elim (Bool-cases (str_eq s.key [])) [
  | inl e ↦ absurd (i.0.key_nonempty ((str_eq_iff s.key []).0 e))
  | inr e ↦
      unnamed_lem ss (set_option s.key (str s.text) os) i.1
      ∙ get_option-set_option [] s.key (str s.text) os
      ∙ (rw e refl)
]

-- A file of lines KEY = "text" or KEY = 'text', where no key is empty or has a blank, an '=', a line end or a
-- NUL and no text a line end or a NUL, is parsed over options that are strings with one round for each line
-- and one for the NUL: each key then has the text of its last line, quotes inside included. The NUL sets
-- the option with the empty name: to true, or, if it was there, to a pointer with its first byte overwritten.
-- Every other option is what it was.
pub parse_options_lem :
    (atoi : Text → ℤ) (ss : List Setting) (os : List ConfOption)
    → All IsSetting ss
    → AreStrings os
    → (os' : List ConfOption) × (parse_options atoi (length ss + 1) true (file_of ss) os ≡ ok os')
      × ((k : Text) → k ≢ [] → get_option k os' ≡ last_setting k ss (get_option k os))
      × (get_option [] os' ≡ some (bool_value (get_option [] os) low_one))
parse_options_lem atoi ss os i a = (
  named_nothing (apply_settings ss os),
  parse_options-settings atoi ss true os i a,
  λ k n. nothing_else k (apply_settings ss os) n ∙ get_option-apply k ss os,
  named_null (apply_settings ss os) ∙ ap (λ o. some (bool_value o low_one)) (unnamed_lem ss os i),
)
