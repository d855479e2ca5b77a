-- ===== src/Enums/Status.antt =====
-- `MetaStatus`, `MetaStatusLookup` (utils/utils.h) and `blockMetaStatusEnumParse` (utils/utils.c).
use gluster_block.Prelude.{◌≡◌, ◌↔◌, refl, Option, some, List, [], ◌∷◌}
use gluster_block.Text.{Text, codes, str_eq}
use gluster_block.Enums.{enum_parse, enum_parse_iff}

pub data MetaStatus : Type 0 where
  config_success config_fail config_inprogress auth_enforceing auth_enforced : MetaStatus
  auth_enforce_fail auth_clear_enforceing auth_clear_enforced : MetaStatus
  auth_clear_enforce_fail cleanup_success cleanup_fail cleanup_inprogress : MetaStatus
  rp_success rp_inprogress rp_fail rs_success rs_inprogress rs_fail : MetaStatus

abbrev pub status_name : MetaStatus → Text
status_name config_success = codes "CONFIGSUCCESS"
status_name config_fail = codes "CONFIGFAIL"
status_name config_inprogress = codes "CONFIGINPROGRESS"
status_name auth_enforceing = codes "AUTHENFORCEING"
status_name auth_enforced = codes "AUTHENFORCED"
status_name auth_enforce_fail = codes "AUTHENFORCEFAIL"
status_name auth_clear_enforceing = codes "AUTHCLEARENFORCEING"
status_name auth_clear_enforced = codes "AUTHCLEARENFORCED"
status_name auth_clear_enforce_fail = codes "AUTHCLEARENFORCEFAIL"
status_name cleanup_success = codes "CLEANUPSUCCESS"
status_name cleanup_fail = codes "CLEANUPFAIL"
status_name cleanup_inprogress = codes "CLEANUPINPROGRESS"
status_name rp_success = codes "RPSUCCESS"
status_name rp_inprogress = codes "RPINPROGRESS"
status_name rp_fail = codes "RPFAIL"
status_name rs_success = codes "RSSUCCESS"
status_name rs_inprogress = codes "RSINPROGRESS"
status_name rs_fail = codes "RSFAIL"

abbrev pub status_table : List (MetaStatus × Text)
status_table =
    (config_success, status_name config_success)
    ∷ (config_fail, status_name config_fail)
    ∷ (config_inprogress, status_name config_inprogress)
    ∷ (auth_enforceing, status_name auth_enforceing)
    ∷ (auth_enforced, status_name auth_enforced)
    ∷ (auth_enforce_fail, status_name auth_enforce_fail)
    ∷ (auth_clear_enforceing, status_name auth_clear_enforceing)
    ∷ (auth_clear_enforced, status_name auth_clear_enforced)
    ∷ (auth_clear_enforce_fail, status_name auth_clear_enforce_fail)
    ∷ (cleanup_success, status_name cleanup_success)
    ∷ (cleanup_fail, status_name cleanup_fail)
    ∷ (cleanup_inprogress, status_name cleanup_inprogress)
    ∷ (rp_success, status_name rp_success)
    ∷ (rp_inprogress, status_name rp_inprogress)
    ∷ (rp_fail, status_name rp_fail)
    ∷ (rs_success, status_name rs_success)
    ∷ (rs_inprogress, status_name rs_inprogress)
    ∷ (rs_fail, status_name rs_fail)
    ∷ []

unfoldable pub status_parse : Option Text → Option MetaStatus
unfolding enum_parse str_eq
status_parse = enum_parse status_table

pub status_parse-name : (e : MetaStatus) → status_parse (some (status_name e)) ≡ some e
unfolding status_parse
status_parse-name config_success = refl
status_parse-name config_fail = refl
status_parse-name config_inprogress = refl
status_parse-name auth_enforceing = refl
status_parse-name auth_enforced = refl
status_parse-name auth_enforce_fail = refl
status_parse-name auth_clear_enforceing = refl
status_parse-name auth_clear_enforced = refl
status_parse-name auth_clear_enforce_fail = refl
status_parse-name cleanup_success = refl
status_parse-name cleanup_fail = refl
status_parse-name cleanup_inprogress = refl
status_parse-name rp_success = refl
status_parse-name rp_inprogress = refl
status_parse-name rp_fail = refl
status_parse-name rs_success = refl
status_parse-name rs_inprogress = refl
status_parse-name rs_fail = refl

-- A text parses as a status exactly if it is the name of that status in `MetaStatusLookup`.
pub status_parse_iff :
    (s : Text) (e : MetaStatus) → (status_parse (some s) ≡ some e) ↔ (s ≡ status_name e)
unfolding status_parse
status_parse_iff s e =
    enum_parse_iff status_name status_table s e
      (
        refl,
        (
          refl,
          (
            refl,
            (
              refl,
              (
                refl,
                (
                  refl,
                  (
                    refl,
                    (
                      refl,
                      (
                        refl,
                        (refl, (refl, (refl, (refl, (refl, (refl, (refl, (refl, (refl, tt))))))))),
                      ),
                    ),
                  ),
                ),
              ),
            ),
          ),
        ),
      )
      status_parse-name
