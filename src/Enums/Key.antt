-- ===== src/Enums/Key.antt =====
-- `Metakey`, `MetakeyLookup` (utils/utils.h) and `blockMetaKeyEnumParse` (utils/utils.c).
use gluster_block.Prelude.{◌≡◌, ◌↔◌, refl, Option, some, List, [], ◌∷◌}
use gluster_block.Text.{Text, codes, str_eq}
use gluster_block.Enums.{enum_parse, enum_parse_iff}

pub data MetaKey : Type 0 where
  volume gbid size ha entrycreate entrydelete passwd ringbuffer priopath blksize : MetaKey
  io_timeout : MetaKey

abbrev pub key_name : MetaKey → Text
key_name volume = codes "VOLUME"
key_name gbid = codes "GBID"
key_name size = codes "SIZE"
key_name ha = codes "HA"
key_name entrycreate = codes "ENTRYCREATE"
key_name entrydelete = codes "ENTRYDELETE"
key_name passwd = codes "PASSWORD"
key_name ringbuffer = codes "RINGBUFFER"
key_name priopath = codes "PRIOPATH"
key_name blksize = codes "BLKSIZE"
key_name io_timeout = codes "IOTIMEOUT"

abbrev pub key_table : List (MetaKey × Text)
key_table =
    (volume, key_name volume)
    ∷ (gbid, key_name gbid)
    ∷ (size, key_name size)
    ∷ (ha, key_name ha)
    ∷ (entrycreate, key_name entrycreate)
    ∷ (entrydelete, key_name entrydelete)
    ∷ (passwd, key_name passwd)
    ∷ (ringbuffer, key_name ringbuffer)
    ∷ (priopath, key_name priopath)
    ∷ (blksize, key_name blksize)
    ∷ (io_timeout, key_name io_timeout)
    ∷ []

unfoldable pub key_parse : Option Text → Option MetaKey
unfolding enum_parse str_eq
key_parse = enum_parse key_table

pub key_parse-name : (e : MetaKey) → key_parse (some (key_name e)) ≡ some e
unfolding key_parse
key_parse-name volume = refl
key_parse-name gbid = refl
key_parse-name size = refl
key_parse-name ha = refl
key_parse-name entrycreate = refl
key_parse-name entrydelete = refl
key_parse-name passwd = refl
key_parse-name ringbuffer = refl
key_parse-name priopath = refl
key_parse-name blksize = refl
key_parse-name io_timeout = refl

-- A text parses as a key exactly if it is the name of that key in `MetakeyLookup`.
pub key_parse_iff : (s : Text) (e : MetaKey) → (key_parse (some s) ≡ some e) ↔ (s ≡ key_name e)
unfolding key_parse
key_parse_iff s e =
    enum_parse_iff key_name key_table s e
      (refl, (refl, (refl, (refl, (refl, (refl, (refl, (refl, (refl, (refl, (refl, tt)))))))))))
      key_parse-name
