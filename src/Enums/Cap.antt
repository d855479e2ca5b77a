-- ===== src/Enums/Cap.antt =====
-- `gbCapabilities`, `gbCapabilitiesLookup` (utils/capabilities.h) and `gbCapabilitiesEnumParse`
-- (utils/capabilities.c).
use gluster_block.Prelude.{◌≡◌, ◌↔◌, refl, Option, some, List, [], ◌∷◌}
use gluster_block.Text.{Text, codes, str_eq}
use gluster_block.Enums.{enum_parse, enum_parse_iff}

pub data Cap : Type 0 where
  create create_ha create_prealloc create_auth delete delete_force modify : Cap
  modify_auth modify_size replace create_ring_buffer create_load_balance json : Cap
  create_block_size reload create_io_timeout : Cap

abbrev pub cap_name : Cap → Text
cap_name create = codes "create"
cap_name create_ha = codes "create_ha"
cap_name create_prealloc = codes "create_prealloc"
cap_name create_auth = codes "create_auth"
cap_name delete = codes "delete"
cap_name delete_force = codes "delete_force"
cap_name modify = codes "modify"
cap_name modify_auth = codes "modify_auth"
cap_name modify_size = codes "modify_size"
cap_name replace = codes "replace"
cap_name create_ring_buffer = codes "create_ring_buffer"
cap_name create_load_balance = codes "create_load_balance"
cap_name json = codes "json"
cap_name create_block_size = codes "create_block_size"
cap_name reload = codes "reload"
cap_name create_io_timeout = codes "create_io_timeout"

abbrev pub cap_table : List (Cap × Text)
cap_table =
    (create, cap_name create)
    ∷ (create_ha, cap_name create_ha)
    ∷ (create_prealloc, cap_name create_prealloc)
    ∷ (create_auth, cap_name create_auth)
    ∷ (delete, cap_name delete)
    ∷ (delete_force, cap_name delete_force)
    ∷ (modify, cap_name modify)
    ∷ (modify_auth, cap_name modify_auth)
    ∷ (modify_size, cap_name modify_size)
    ∷ (replace, cap_name replace)
    ∷ (create_ring_buffer, cap_name create_ring_buffer)
    ∷ (create_load_balance, cap_name create_load_balance)
    ∷ (json, cap_name json)
    ∷ (create_block_size, cap_name create_block_size)
    ∷ (reload, cap_name reload)
    ∷ (create_io_timeout, cap_name create_io_timeout)
    ∷ []

unfoldable pub cap_parse : Option Text → Option Cap
unfolding enum_parse str_eq
cap_parse = enum_parse cap_table

pub cap_parse-name : (e : Cap) → cap_parse (some (cap_name e)) ≡ some e
unfolding cap_parse
cap_parse-name create = refl
cap_parse-name create_ha = refl
cap_parse-name create_prealloc = refl
cap_parse-name create_auth = refl
cap_parse-name delete = refl
cap_parse-name delete_force = refl
cap_parse-name modify = refl
cap_parse-name modify_auth = refl
cap_parse-name modify_size = refl
cap_parse-name replace = refl
cap_parse-name create_ring_buffer = refl
cap_parse-name create_load_balance = refl
cap_parse-name json = refl
cap_parse-name create_block_size = refl
cap_parse-name reload = refl
cap_parse-name create_io_timeout = refl

-- A text parses as a capability exactly if it is the name of that capability.
pub cap_parse_iff : (s : Text) (e : Cap) → (cap_parse (some s) ≡ some e) ↔ (s ≡ cap_name e)
unfolding cap_parse
cap_parse_iff s e =
    enum_parse_iff cap_name cap_table s e
      (
        refl,
        (
          refl,
          (
            refl,
            (
              refl,
              (
                refl,
                (
                  refl,
                  (
                    refl,
                    (refl, (refl, (refl, (refl, (refl, (refl, (refl, (refl, (refl, tt))))))))),
                  ),
                ),
              ),
            ),
          ),
        ),
      )
      cap_parse-name
