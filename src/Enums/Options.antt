-- ===== src/Enums/Options.antt =====
-- The option words of `create`: `gbCliCreateOptions` (utils/utils.h) and
-- `glusterBlockCLICreateOptEnumParse` (utils/utils.c).
use gluster_block.Prelude.{◌≡◌, ◌↔◌, refl, Option, some, List, [], ◌∷◌}
use gluster_block.Text.{Text, codes, str_eq}
use gluster_block.Enums.{enum_parse, enum_parse_iff}

pub data CreateOption : Type 0 where
  unknown ha auth prealloc storage rbsize blksize io_timeout : CreateOption

abbrev pub option_name : CreateOption → Text
option_name unknown = codes "NONE"
option_name ha = codes "ha"
option_name auth = codes "auth"
option_name prealloc = codes "prealloc"
option_name storage = codes "storage"
option_name rbsize = codes "ring-buffer"
option_name blksize = codes "block-size"
option_name io_timeout = codes "io-timeout"

abbrev pub option_table : List (CreateOption × Text)
option_table =
    (unknown, option_name unknown)
    ∷ (ha, option_name ha)
    ∷ (auth, option_name auth)
    ∷ (prealloc, option_name prealloc)
    ∷ (storage, option_name storage)
    ∷ (rbsize, option_name rbsize)
    ∷ (blksize, option_name blksize)
    ∷ (io_timeout, option_name io_timeout)
    ∷ []

unfoldable pub option_parse : Option Text → Option CreateOption
unfolding enum_parse str_eq
option_parse = enum_parse option_table

pub option_parse-name : (e : CreateOption) → option_parse (some (option_name e)) ≡ some e
unfolding option_parse
option_parse-name unknown = refl
option_parse-name ha = refl
option_parse-name auth = refl
option_parse-name prealloc = refl
option_parse-name storage = refl
option_parse-name rbsize = refl
option_parse-name blksize = refl
option_parse-name io_timeout = refl

-- A word parses as a create option exactly if it is the word of that option.
pub option_parse_iff :
    (s : Text) (e : CreateOption) → (option_parse (some s) ≡ some e) ↔ (s ≡ option_name e)
unfolding option_parse
option_parse_iff s e =
    enum_parse_iff option_name option_table s e
      (refl, (refl, (refl, (refl, (refl, (refl, (refl, (refl, tt)))))))) option_parse-name
