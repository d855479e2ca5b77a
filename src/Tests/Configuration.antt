-- ===== src/Tests/Configuration.antt =====
-- A small configuration file (utils/dyn-config.c).
use gluster_block.Prelude.{
  ◌+◌, ◌%◌, ◌==◌, ◌++◌, if◌then◌else◌, ◌≡◌, ◌≢◌, refl, true, List, some, [], ◌∷◌, arith, ℤ, pos,
  length,
}
use gluster_block.Text.{Text, codes, before_char, after_char, str_eq}
use gluster_block.Meta.{ok, crash}
use gluster_block.Config.Buffer.{read_config, kept, read_config_lem}
use gluster_block.Meta.Valid.{cut}
use gluster_block.Config.{
  ConfOption, int, bool_value, low_one, parse_options, skip_blanks, word, strip_end, get_option,
  set_option, find_digits,
}
use gluster_block.Config.Settings.{Setting, IsSetting, file_of, last_setting, parse_options_lem}

abbrev level : Setting
level = record { key = codes "A"; quote = 39; text = codes "a 'b'" }

level-IsSetting : IsSetting level
level-IsSetting = record {
  key_nonempty = λ p. cc;
  key = ground arith;
  quote = refl;
  text = ground arith;
}

-- Any reader of digits will do.
abbrev five : Text → ℤ
five t = pos 5

parse_options_lem_example :
    (os' : List ConfOption) × (parse_options five
        (length (level ∷ level ∷ []) + 1)
        true
        (file_of (level ∷ level ∷ []))
        []
      ≡ ok os')
    × ((k : Text)
        → k ≢ []
        → get_option k os' ≡ last_setting k (level ∷ level ∷ []) (get_option k []))
    × (get_option [] os' ≡ some (bool_value (get_option [] []) low_one))
parse_options_lem_example =
    parse_options_lem five (level ∷ level ∷ []) [] (level-IsSetting, (level-IsSetting, tt)) tt

-- A number that is missing is taken from the next line.
missing_number :
    parse_options five 2 true
      (codes "A = x\nB = 5\n")
      (record { key = codes "A"; value = int (pos 3) } ∷ [])
    ≡ ok (
        record { key = codes "A"; value = int (pos 5) }
        ∷ record { key = codes "B"; value = int (pos 5) }
        ∷ [])
unfolding parse_options skip_blanks before_char cut word strip_end find_digits get_option str_eq
    after_char set_option
missing_number = refl

abbrev file_lines : List Text
file_lines = codes "# log\n" ∷ codes "A = 'x'\n" ∷ []

read_config_lem_example :
    read_config 1 (some file_lines ∷ [])
    ≡ (if (length (kept file_lines) + 1) % 1024 == 0 then crash else ok (kept file_lines ++ 0 ∷ []))
read_config_lem_example = read_config_lem 1 file_lines [] (λ p. cc) (omega arith, (omega arith, tt))
