-- ===== src/Enums/Daemon.antt =====
-- The options of the daemon's command line: `gbDaemonCmdlineOption` (utils/utils.h) and
-- `glusterBlockDaemonOptEnumParse` (utils/utils.c).
use gluster_block.Prelude.{◌≡◌, ◌↔◌, refl, Option, none, some, List, [], ◌∷◌, arith, if◌then◌else◌}
use gluster_block.Text.{Text, codes, str_eq, skip_char}
use gluster_block.Enums.{find_name, enum_parse, enum_parse_iff}

pub data DaemonOption : Type 0 where
  unknown help version usage glfs_lru_count log_level no_remote_rpc : DaemonOption

abbrev pub daemon_name : DaemonOption → Text
daemon_name unknown = codes "NONE"
daemon_name help = codes "help"
daemon_name version = codes "version"
daemon_name usage = codes "usage"
daemon_name glfs_lru_count = codes "glfs-lru-count"
daemon_name log_level = codes "log-level"
daemon_name no_remote_rpc = codes "no-remote-rpc"

abbrev pub daemon_table : List (DaemonOption × Text)
daemon_table =
    (unknown, daemon_name unknown)
    ∷ (help, daemon_name help)
    ∷ (version, daemon_name version)
    ∷ (usage, daemon_name usage)
    ∷ (glfs_lru_count, daemon_name glfs_lru_count)
    ∷ (log_level, daemon_name log_level)
    ∷ (no_remote_rpc, daemon_name no_remote_rpc)
    ∷ []

-- Each round of the loop clips the dashes off `opt` before it compares.
clip_and_find : List (DaemonOption × Text) → Text → Option DaemonOption
clip_and_find [] opt = none
clip_and_find ((e, name) ∷ t) opt =
    let clipped = skip_char b'-' opt in
    let rest = clip_and_find t clipped in if str_eq clipped name then some e else rest

unfoldable pub daemon_parse : Option Text → Option DaemonOption
unfolding clip_and_find
daemon_parse none = none
daemon_parse (some opt) = clip_and_find daemon_table opt

skip_char_idem : (s : Text) → skip_char b'-' (skip_char b'-' s) ≡ skip_char b'-' s
unfolding skip_char
skip_char_idem [] = refl
skip_char_idem (c ∷ s) = ground (arith, skip_char_idem s)

clip_and_find-find_name :
    (t : List (DaemonOption × Text)) (s : Text) → clip_and_find t s ≡ find_name t (skip_char b'-' s)
unfolding clip_and_find find_name
clip_and_find-find_name [] s = refl
clip_and_find-find_name ((e, name) ∷ t) s =
    ground (arith, clip_and_find-find_name t (skip_char b'-' s), skip_char_idem s)

daemon_table-name : (e : DaemonOption) → enum_parse daemon_table (some (daemon_name e)) ≡ some e
unfolding enum_parse str_eq
daemon_table-name unknown = refl
daemon_table-name help = refl
daemon_table-name version = refl
daemon_table-name usage = refl
daemon_table-name glfs_lru_count = refl
daemon_table-name log_level = refl
daemon_table-name no_remote_rpc = refl

-- A word parses as an option exactly if it is the name of that option behind any number of dashes.
pub daemon_parse_iff :
    (s : Text) (e : DaemonOption)
    → (daemon_parse (some s) ≡ some e) ↔ (skip_char b'-' s ≡ daemon_name e)
unfolding daemon_parse enum_parse
daemon_parse_iff s e = rw clip_and_find-find_name (
    enum_parse_iff daemon_name daemon_table (skip_char b'-' s) e
      (refl, (refl, (refl, (refl, (refl, (refl, (refl, tt))))))) daemon_table-name)
