-- ===== src/Tests/Sample.antt =====
-- A small metadata file, read and written to (rpc/glfs-operations.c).
use gluster_block.Prelude.{pos, ◌≡◌, refl, List, [], ◌∷◌, All, arith}
use gluster_block.Text.{Text, codes, first_token, after_char, str_cpy, str_eq}
use gluster_block.Text.Decimal.{scan_zu}
use gluster_block.Enums.Key.{key_parse}
use gluster_block.Meta.{record_status, MetaInfo, ok, stuff_meta_info, blank_info}
use gluster_block.Meta.Nodes.{Distinct}
use gluster_block.Meta.Lines.{IsHost, stuff_lines}
use gluster_block.Meta.Read.{IsLine}
use gluster_block.Meta.File.{IsFile}

abbrev pub h1 : Text
h1 = codes "h1"

abbrev pub h2 : Text
h2 = codes "h2"

pub h1-IsHost : IsHost h1
unfolding key_parse
h1-IsHost = record {
  nonempty = λ p. cc;
  no_colon = omega arith;
  no_space = omega arith;
  no_key = refl;
  fits = omega arith;
  text = omega arith;
}

pub h2-IsHost : IsHost h2
unfolding key_parse
h2-IsHost = record {
  nonempty = λ p. cc;
  no_colon = omega arith;
  no_space = omega arith;
  no_key = refl;
  fits = omega arith;
  text = omega arith;
}

-- "HA: 2" and a line for each host.
abbrev pub lines : List Text
lines = codes "HA: 2" ∷ codes "h1: CONFIGSUCCESS" ∷ codes "h2: CONFIGINPROGRESS" ∷ []

abbrev pub raw : MetaInfo
raw = record blank_info {
  mpath = 2;
  nodes =
      record {
        addr = h1;
        st_journal = codes "CONFIGSUCCESS" ∷ [];
        status = codes "CONFIGSUCCESS";
        size = pos 0;
      }
      ∷ record {
        addr = h2;
        st_journal = codes "CONFIGINPROGRESS" ∷ [];
        status = codes "CONFIGINPROGRESS";
        size = pos 0;
      }
      ∷ [];
}

pub lines-IsLine : All IsLine lines
lines-IsLine = (
  record { nonempty = λ p. cc; text = omega arith; short = omega arith },
  (
    record { nonempty = λ p. cc; text = omega arith; short = omega arith },
    (record { nonempty = λ p. cc; text = omega arith; short = omega arith }, tt),
  ),
)

raw-parsed : stuff_lines lines blank_info ≡ ok raw
unfolding stuff_lines stuff_meta_info first_token after_char key_parse scan_zu record_status str_cpy
raw-parsed = refl

pub raw-Distinct : Distinct raw.nodes
unfolding str_eq
raw-Distinct = ((refl, tt), (tt, tt))

pub lines-IsFile : IsFile lines raw
lines-IsFile = record {
  lines = lines-IsLine;
  parsed = raw-parsed;
  distinct = raw-Distinct;
  hosts = (h1-IsHost, (h2-IsHost, tt));
}
