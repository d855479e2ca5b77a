-- ===== src/Enums/Command.antt =====
-- The command words of the command line: `gbCliCmdlineOption` (utils/utils.h) and
-- `glusterBlockCLIOptEnumParse` (utils/utils.c).
use gluster_block.Prelude.{◌≡◌, ◌↔◌, refl, Option, some, List, [], ◌∷◌}
use gluster_block.Text.{Text, codes, str_eq}
use gluster_block.Enums.{enum_parse, enum_parse_iff}

pub data CliCommand : Type 0 where
  unknown timeout create list info delete modify replace reload genconfig help : CliCommand
  hyphen_help version hyphen_version usage hyphen_usage : CliCommand

abbrev pub command_name : CliCommand → Text
command_name unknown = codes "NONE"
command_name timeout = codes "timeout"
command_name create = codes "create"
command_name list = codes "list"
command_name info = codes "info"
command_name delete = codes "delete"
command_name modify = codes "modify"
command_name replace = codes "replace"
command_name reload = codes "reload"
command_name genconfig = codes "genconfig"
command_name help = codes "help"
command_name hyphen_help = codes "--help"
command_name version = codes "version"
command_name hyphen_version = codes "--version"
command_name usage = codes "usage"
command_name hyphen_usage = codes "--usage"

abbrev pub command_table : List (CliCommand × Text)
command_table =
    (unknown, command_name unknown)
    ∷ (timeout, command_name timeout)
    ∷ (create, command_name create)
    ∷ (list, command_name list)
    ∷ (info, command_name info)
    ∷ (delete, command_name delete)
    ∷ (modify, command_name modify)
    ∷ (replace, command_name replace)
    ∷ (reload, command_name reload)
    ∷ (genconfig, command_name genconfig)
    ∷ (help, command_name help)
    ∷ (hyphen_help, command_name hyphen_help)
    ∷ (version, command_name version)
    ∷ (hyphen_version, command_name hyphen_version)
    ∷ (usage, command_name usage)
    ∷ (hyphen_usage, command_name hyphen_usage)
    ∷ []

unfoldable pub command_parse : Option Text → Option CliCommand
unfolding enum_parse str_eq
command_parse = enum_parse command_table

pub command_parse-name : (e : CliCommand) → command_parse (some (command_name e)) ≡ some e
unfolding command_parse
command_parse-name unknown = refl
command_parse-name timeout = refl
command_parse-name create = refl
command_parse-name list = refl
command_parse-name info = refl
command_parse-name delete = refl
command_parse-name modify = refl
command_parse-name replace = refl
command_parse-name reload = refl
command_parse-name genconfig = refl
command_parse-name help = refl
command_parse-name hyphen_help = refl
command_parse-name version = refl
command_parse-name hyphen_version = refl
command_parse-name usage = refl
command_parse-name hyphen_usage = refl

-- A word parses as a command exactly if it is the word of that command in `gbCliCmdlineOptLookup`.
pub command_parse_iff :
    (s : Text) (e : CliCommand) → (command_parse (some s) ≡ some e) ↔ (s ≡ command_name e)
unfolding command_parse
command_parse_iff s e =
    enum_parse_iff command_name command_table s e
      (
        refl,
        (
          refl,
          (
            refl,
            (
              refl,
              (
                refl,
                (
                  refl,
                  (
                    refl,
                    (refl, (refl, (refl, (refl, (refl, (refl, (refl, (refl, (refl, tt))))))))),
                  ),
                ),
              ),
            ),
          ),
        ),
      )
      command_parse-name
