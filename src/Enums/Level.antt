-- ===== src/Enums/Level.antt =====
-- `LogLevel`, `LogLevelLookup` (utils/utils.h) and `blockLogLevelEnumParse` (utils/utils.c).
use gluster_block.Prelude.{◌≡◌, ◌↔◌, refl, Option, some, List, [], ◌∷◌}
use gluster_block.Text.{Text, codes, str_eq}
use gluster_block.Enums.{enum_parse, enum_parse_iff}

pub data LogLevel : Type 0 where
  log_none crit error warning info debug trace : LogLevel

abbrev pub level_name : LogLevel → Text
level_name log_none = codes "NONE"
level_name crit = codes "CRIT"
level_name error = codes "ERROR"
level_name warning = codes "WARNING"
level_name info = codes "INFO"
level_name debug = codes "DEBUG"
level_name trace = codes "TRACE"

abbrev pub level_table : List (LogLevel × Text)
level_table =
    (log_none, level_name log_none)
    ∷ (crit, level_name crit)
    ∷ (error, level_name error)
    ∷ (warning, level_name warning)
    ∷ (info, level_name info)
    ∷ (debug, level_name debug)
    ∷ (trace, level_name trace)
    ∷ []

unfoldable pub level_parse : Option Text → Option LogLevel
unfolding enum_parse str_eq
level_parse = enum_parse level_table

pub level_parse-name : (e : LogLevel) → level_parse (some (level_name e)) ≡ some e
unfolding level_parse
level_parse-name log_none = refl
level_parse-name crit = refl
level_parse-name error = refl
level_parse-name warning = refl
level_parse-name info = refl
level_parse-name debug = refl
level_parse-name trace = refl

-- A word parses as a log level exactly if it is the name of that level.
pub level_parse_iff :
    (s : Text) (e : LogLevel) → (level_parse (some s) ≡ some e) ↔ (s ≡ level_name e)
unfolding level_parse
level_parse_iff s e =
    enum_parse_iff level_name level_table s e
      (refl, (refl, (refl, (refl, (refl, (refl, (refl, tt))))))) level_parse-name
