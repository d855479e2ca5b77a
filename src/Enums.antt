-- ===== src/Enums.antt =====
-- The loop that the `...EnumParse` functions of utils/utils.c, utils/capabilities.c and
-- utils/common.c share: the first index whose name in the lookup table is the given text. The
-- enumerators are the constructors of a data type, `none` is the `..._MAX` that a miss returns.
pub mod Status
pub mod Key
pub mod Options
pub mod Cap
pub mod Daemon
pub mod Command
pub mod Level
use gluster_block.Prelude.{
  ◌≡◌, ◌↔◌, sym, Option, none, some, List, [], ◌∷◌, All, arith, if◌then◌else◌,
}
use gluster_block.Text.{Text, str_eq}
use gluster_block.Text.Laws.{str_eq_iff}

module _ {E : Type 0} where
  -- for (i = 0; i < MAX; i++) if (!strcmp(opt, lookup[i])) return i;
  unfoldable pub find_name : List (E × Text) → Text → Option E
  find_name [] opt = none
  find_name ((e, name) ∷ t) opt = if str_eq opt name then some e else find_name t opt

  -- The null pointer is no name.
  unfoldable pub enum_parse : List (E × Text) → Option Text → Option E
  unfolding find_name
  enum_parse t none = none
  enum_parse t (some opt) = find_name t opt

  find_name_sound :
      (name : E → Text) (t : List (E × Text)) (s : Text) (e : E)
      → All (λ p. p.1 ≡ name p.0) t
      → find_name t s ≡ some e
      → s ≡ name e
  unfolding find_name
  find_name_sound name [] s e h p = ground arith
  find_name_sound name ((e', n) ∷ t) s e h p =
      ground (arith, str_eq_iff s n, find_name_sound name t s e h.1, h.0)

  -- A table that lists every enumerator with its name, where a name finds its own enumerator,
  -- decides which enumerator a text names.
  pub enum_parse_iff :
      (name : E → Text) (t : List (E × Text)) (s : Text) (e : E)
      → All (λ p. p.1 ≡ name p.0) t
      → ((d : E) → enum_parse t (some (name d)) ≡ some d)
      → (enum_parse t (some s) ≡ some e) ↔ (s ≡ name e)
  unfolding enum_parse
  enum_parse_iff name t s e h back = (find_name_sound name t s e h, λ p. ground (arith, back e, p))
