-- ===== src/Config.antt =====
-- The parser of the configuration file: `glusterBlockParseOption` and `glusterBlockParseOptions`
-- (utils/dyn-config.c) over the bytes of the buffer. `atoi` of the C library is an argument.

pub mod Settings
pub mod Buffer
use gluster_block.Prelude.{
  ℕ, zero, suc, ◌+◌, ◌-◌, ◌*◌, ◌/◌, Bool, true, false, ◌||◌, Option, none, some, List, [], ◌∷◌,
  ◌++◌, if◌then◌else◌, ◌==◌, ℤ, pos, negsuc,
}
use gluster_block.Text.{Text, str_eq, before_char, after_char, is_digit}
use gluster_block.Meta.{Outcome, ok, fail, crash, ◌>>=◌}
use gluster_block.Meta.Valid.{cut}

abbrev pub is_blank : ℕ → Bool
is_blank c = c == b' ' || c == 9

-- `__EOL(c)`
abbrev pub is_eol : ℕ → Bool
is_eol c = c == 10 || c == 13

-- `gbConfOption`: the type is that of the value. `wild` is a pointer of which the first byte was overwritten.
pub data Value : Type 0 where
  int : ℤ → Value
  bool : Bool → Value
  str : Text → Value
  wild : Value

pub record ConfOption : Type 0 where
  pub key : Text
  pub value : Value

-- glusterBlockGetOption
unfoldable pub get_option : Text → List ConfOption → Option Value
get_option key [] = none
get_option key (o ∷ os) = if str_eq o.key key then some o.value else get_option key os

-- The option with the key takes the value, or one is registered at the end of the list.
unfoldable pub set_option : Text → Value → List ConfOption → List ConfOption
set_option key v [] = record { key = key; value = v } ∷ []
set_option key v (o ∷ os) =
    let rest = set_option key v os in
    if str_eq o.key key then record o { value = v } ∷ os else o ∷ rest

-- Up to the end of the line, and what is behind it.
unfoldable pub line_of : Text → Text × Text
line_of [] = ([], [])
line_of (c ∷ s) = let (l, r) = line_of s in if is_eol c then ([], s) else (c ∷ l, r)

unfoldable pub skip_blanks : Text → Text
skip_blanks [] = []
skip_blanks (c ∷ s) = let rest = skip_blanks s in if is_blank c then rest else c ∷ s

-- The bytes in front of the first blank.
unfoldable pub word : Text → Text
word [] = []
word (c ∷ s) = let rest = word s in if is_blank c then [] else c ∷ rest

-- Without the blanks at the end.
unfoldable pub strip_end : Text → Text
strip_end [] = []
strip_end (c ∷ s) = elim (strip_end s) [
  | [] ↦ if is_blank c then [] else c ∷ []
  | d ∷ r ↦ c ∷ d ∷ r
]

abbrev pub is_quote : ℕ → Bool
is_quote c = c == 34 || c == 39

abbrev pub drop_quote : Text → Text
drop_quote [] = []
drop_quote (c ∷ s) = if is_quote c then s else c ∷ s

-- The string up to its last byte that is no blank, if that is a quote; `none` if it is not.
unfoldable pub close_quote : Text → Option Text
close_quote [] = none
close_quote (c ∷ s) = elim (strip_end s) [
  | [] ↦ if is_quote c then some [] else none
  | d ∷ r ↦ elim (close_quote s) [ none ↦ none | some t ↦ some (c ∷ t) ]
]

-- The bytes up to the first digit, the digits, and the rest; none without a digit.
unfoldable pub digits : Text → Text × Text
digits [] = ([], [])
digits (c ∷ s) = let (d, r) = digits s in if is_digit c then (c ∷ d, r) else ([], c ∷ s)

unfoldable pub find_digits : Text → Option (Text × Text × Text)
unfolding digits
find_digits [] = none
find_digits (c ∷ s) =
    let rest = find_digits s in
    let (d, r) = digits (c ∷ s) in
    if is_digit c
    then some ([], d, r)
    else elim rest [ none ↦ none | some (p, d', r') ↦ some (c ∷ p, d', r') ]

-- The byte behind the digits becomes a NUL.
abbrev pub end_digits : Text → Text
end_digits [] = []
end_digits (c ∷ s) = 0 ∷ s

-- The state of the parser: the options and what is left of the buffer.
abbrev pub Parsed : Type 0
Parsed = List ConfOption × Text

-- A string: `v` is the text behind '=', which is the last of its line if `whole` says so.
unfoldable pub str_value : (whole : Bool) → Text → Text
unfolding skip_blanks close_quote
str_value whole v =
    let s = drop_quote (skip_blanks v) in
    if whole then elim (close_quote s) [ none ↦ s | some t ↦ t ] else s

-- A boolean option: the first byte of the union becomes 1, on a little-endian machine.
abbrev pub bool_value : Option Value → (ℤ → ℤ) → Value
bool_value none low_one = bool true
bool_value (some (bool b)) low_one = bool true
bool_value (some (int n)) low_one = int (low_one n)
bool_value (some (str t)) low_one = wild
bool_value (some wild) low_one = wild

abbrev pub starts_with_digit : Text → Bool
starts_with_digit [] = false
starts_with_digit (c ∷ s) = is_digit c

module _ (atoi : Text → ℤ) where
  -- The search for a digit does not stop at the end of the line: `tail` is what a NUL cuts off the line, and
  -- `after` the rest of the buffer.
  unfoldable pub set_int : Text → Text → (tail after : Text) → List ConfOption → Outcome Parsed
  unfolding find_digits
  set_int key v tail after os = elim (find_digits v) [
    | some (p, d, r) ↦ ok (set_option key (int (atoi d)) os, after)
    | none ↦ elim (find_digits tail) [
      | some (p, d, r) ↦ ok (set_option key (int (atoi d)) os, after)
      | none ↦ elim (find_digits after) [
        | some (p, d, r) ↦ ok (set_option key (int (atoi d)) os, p ++ (d ++ end_digits r))
        | none ↦ crash
      ]
    ]
  ]

  -- "parse the int/string type options"
  unfoldable pub set_value :
      Text
      → Option Value
      → Text
      → (whole : Bool) (tail after : Text) → List ConfOption
      → Outcome Parsed
  unfolding set_int str_value
  set_value key none v whole tail after os =
      if starts_with_digit (skip_blanks v)
      then set_int key v tail after os
      else ok (set_option key (str (str_value whole v)) os, after)
  set_value key (some (int n)) v whole tail after os = set_int key v tail after os
  set_value key (some (str t)) v whole tail after os =
      ok (set_option key (str (str_value whole v)) os, after)
  set_value key (some (bool b)) v whole tail after os = ok (os, after)
  set_value key (some wild) v whole tail after os = crash

-- The int whose lowest byte is made 1.
abbrev pub low_one : ℤ → ℤ
low_one (pos n) = pos (n / 256 * 256 + 1)
low_one (negsuc n) = negsuc ((n / 256 + 1) * 256 - 2)

abbrev pub or_empty : Option Text → Text
or_empty none = []
or_empty (some t) = t

abbrev pub is_none : Option Text → Bool
is_none none = true
is_none (some t) = false

abbrev pub is_indented : Text → Bool
is_indented [] = false
is_indented (c ∷ s) = is_blank c

module _ (atoi : Text → ℤ) where
  -- The branch with '=': `k` and `v` stand on its two sides in the string, `string`. In front of an empty key
  -- the search for its last byte leaves the line: it reads the NUL of the line before, if there is one.
  unfoldable pub parse_assignment :
      (first indented : Bool) (string k v : Text) (tail : Option Text) (after : Text)
      → List ConfOption
      → Outcome Parsed
  unfolding set_value
  parse_assignment first indented string k v tail after os =
      let key = elim (strip_end k) as (λ _. Text) [
        | [] ↦ if indented then string else []
        | c ∷ s ↦ c ∷ s
      ] in
      let outside = elim (strip_end k) as (λ _. Bool) [ [] ↦ first | c ∷ s ↦ false ] in
      if outside
      then crash
      else set_value atoi key (get_option key os) v (is_none tail) (or_empty tail) after os

  -- glusterBlockParseOption; `first` says that the line stands at the start of the buffer.
  unfoldable pub parse_option : (first : Bool) → Text → List ConfOption → Outcome Parsed
  unfolding parse_assignment line_of
  parse_option first buf os =
      let (line, after) = line_of buf in
      let p = skip_blanks line in
      let string = before_char 0 p in
      elim (cut b'=' string) [
        | none ↦
            ok (
              set_option (word string) (bool_value (get_option (word string) os) low_one) os,
              after,
            )
        | some (k, v) ↦
            parse_assignment first (is_indented line) string k v (after_char 0 p) after os
      ]

  -- The loop of glusterBlockParseOptions, by the rounds that are left.
  unfoldable pub parse_options :
      (rounds : ℕ) (first : Bool) → Text → List ConfOption → Outcome (List ConfOption)
  unfolding parse_option
  parse_options zero first [] os = ok os
  parse_options zero first (c ∷ s) os = fail
  parse_options (suc n) first [] os = ok os
  parse_options (suc n) first (c ∷ s) os = do
    (os', after) ← parse_option first (c ∷ s) os
    parse_options n false after os'
