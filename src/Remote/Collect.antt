-- ===== src/Remote/Collect.antt =====
-- The exit codes of the threads: `glusterBlockCollectAttemptSuccess` (rpc/block_svc_routines.c).
use gluster_block.Prelude.{
  ◌≡◌, refl, ap, Bool, true, false, not, ◌&&◌, Option, none, some, List, [], ◌∷◌, ◌++◌, arith,
  if◌then◌else◌, ℤ, pos, is_zero, int_eq, int_eq_iff, select, ◌||◌, ◌↔◌, All,
}
use mathlib.Core.List.{append-nil, append_assoc}
use gluster_block.Text.{Text}

-- What is left of `blockRemoteObj` when its thread has ended.
pub record Done : Type 0 where
  pub addr : Text
  pub exit : ℤ

pub data Operation : Type 0 where
  create_srv delete_srv modify_srv modify_tpgc_srv modify_size_srv replace_srv : Operation
  replace_get_portal_tpg_srv list_srv info_srv version_srv genconfig_srv reload_srv : Operation

abbrev pub block_not_found : ℤ
block_not_found = pos 226

abbrev pub is_delete : Operation → Bool
is_delete delete_srv = true
is_delete _ = false

-- A nonzero exit is a failed attempt, but for a delete of a block that the host does not have.
unfoldable pub is_attempt : Operation → Done → Bool
is_attempt opt a = not (is_zero a.exit) && not (int_eq a.exit block_not_found && is_delete opt)

-- `if (args[i].exit) { ret = -1; break; }`
unfoldable pub any_failed : List Done → Bool
any_failed [] = false
any_failed (a ∷ args) = not (is_zero a.exit) || any_failed args

-- It tells whether some thread failed.
pub any_failed_iff : (args : List Done) → (any_failed args ≡ false) ↔ All (λ a. a.exit ≡ pos 0) args
unfolding any_failed
any_failed_iff [] = (λ h. tt, λ h. refl)
any_failed_iff (a ∷ args) = (
  λ e. ground (arith, any_failed_iff args, int_eq_iff a.exit (pos 0)),
  λ e. ground (arith, any_failed_iff args, int_eq_iff a.exit (pos 0)),
)

pub record Collected : Type 0 where
  pub attempt : Option Text
  pub success : Option Text

abbrev pub or_nothing : Option Text → Text
or_nothing none = []
or_nothing (some t) = t

-- "%s %s"
abbrev pub joined : Option Text → Text → Option Text
joined old addr = some (or_nothing old ++ b' ' ∷ addr)

collect_loop : Operation → List Done → Collected → Collected
collect_loop opt [] c = c
collect_loop opt (a ∷ args) c = collect_loop opt args (
    if is_attempt opt a
    then record c { attempt = joined c.attempt a.addr }
    else record c { success = joined c.success a.addr })

unfoldable pub collect_attempt_success : Operation → List Done → Collected
unfolding collect_loop
collect_attempt_success opt args = collect_loop opt args (record { attempt = none; success = none })

-- The addresses, each behind a space; nothing at all for no address.
abbrev pub spaced : List Done → Text
spaced [] = []
spaced (a ∷ args) = b' ' ∷ (a.addr ++ spaced args)

abbrev pub listed : List Done → Option Text
listed [] = none
listed (a ∷ args) = some (spaced (a ∷ args))

-- A list of addresses behind the text that is there already.
abbrev pub behind : Option Text → List Done → Option Text
behind old [] = old
behind old (a ∷ args) = some (or_nothing old ++ spaced (a ∷ args))

pub behind-joined :
    (old : Option Text) (a : Done) (args : List Done)
    → behind (joined old a.addr) args ≡ behind old (a ∷ args)
behind-joined old a [] = rw append-nil
behind-joined old a (b ∷ args) =
    ap some (append_assoc (or_nothing old) (b' ' ∷ a.addr) (spaced (b ∷ args)))

collect_loop_lem :
    (opt : Operation) (args : List Done) (c : Collected)
    → collect_loop opt args c ≡ record {
      attempt = behind c.attempt (select (is_attempt opt) args);
      success = behind c.success (select (λ a. not (is_attempt opt a)) args);
    }
unfolding collect_loop
collect_loop_lem opt [] c = refl
collect_loop_lem opt (a ∷ args) c = ground (
  arith,
  collect_loop_lem opt args (record c { attempt = joined c.attempt a.addr }),
  collect_loop_lem opt args (record c { success = joined c.success a.addr }),
  behind-joined c.attempt a (select (is_attempt opt) args),
  behind-joined c.success a (select (λ b. not (is_attempt opt b)) args),
)

pub behind-listed : (args : List Done) → behind none args ≡ listed args
behind-listed [] = refl
behind-listed (a ∷ args) = refl

-- Every host is reported once, in the order of the threads: a host whose thread failed under
-- `attempt`, any other under `success`. A field stays null if no host belongs to it.
pub collect_attempt_success_lem :
    (opt : Operation) (args : List Done)
    → collect_attempt_success opt args ≡ record {
      attempt = listed (select (is_attempt opt) args);
      success = listed (select (λ a. not (is_attempt opt a)) args);
    }
unfolding collect_attempt_success
collect_attempt_success_lem opt args = rw (← behind-listed (select (is_attempt opt) args)) (
    rw (← behind-listed (select (λ a. not (is_attempt opt a)) args))
      (collect_loop_lem opt args (record { attempt = none; success = none })))
