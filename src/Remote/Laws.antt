-- ===== src/Remote/Laws.antt =====
-- What the `...Remote` threads write and return (rpc/block_create.c, rpc/block_delete.c,
-- rpc/block_modify.c, rpc/block_replace.c).
use gluster_block.Prelude.{
  ℕ, ◌≡◌, ◌↔◌, ◌⊎◌, Bool, true, false, not, Option, none, some, List, [], ◌∷◌, ◌++◌, arith, All, ℤ,
  pos, if◌then◌else◌, is_zero, int_eq, Bool-cases, inl, inr,
}
use gluster_block.Text.{Text}
use gluster_block.Text.Laws.{str_eq_refl}
use gluster_block.Enums.Status
use gluster_block.Enums.Status.{MetaStatus, status_name}
use gluster_block.Meta.Journal.{Entry, last_status}
use gluster_block.Remote.{
  Update, updated, lost, unclosed, Script, Worker, note_status, note_size, update_then, take_reply,
  call_then, finish, create_remote, delete_remote, modify_remote, modify_size_remote, start,
  replace_portal_remote, portal_then, op_skipped,
}

-- Every line that the thread has written has the property.
pub record Writes (P : Entry → Type 0) (w : Worker) : Type 0 where
  pub at : All P w.writes

writes-finish : (what addr end : Text) (w : Worker) → (finish what addr end w).writes ≡ w.writes
unfolding finish
writes-finish what addr end w = ground arith

writes-take_reply : (w : Worker) → (take_reply w).writes ≡ w.writes
unfolding take_reply
writes-take_reply w = ground arith

All-snoc :
    (P : Entry → Type 0) (es : List Entry) (e : Entry) → All P es → P e → All P (es ++ e ∷ [])
All-snoc P [] e h p = (p, tt)
All-snoc P (d ∷ es) e h p = (h.0, All-snoc P es e h.1 p)

module _ {P : Entry → Type 0} where
  update_then-Writes :
      (u : Update) (e : Entry) (w : Worker) (rest : Worker → Worker)
      → P e
      → Writes P w
      → ((w' : Worker) → Writes P w' → Writes P (rest w'))
      → Writes P (update_then u e w rest)
  unfolding update_then
  update_then-Writes updated e w rest p h k =
      k (record w { writes = w.writes ++ e ∷ []; exit = pos 0 })
        (record { at = All-snoc P w.writes e h.at p })
  update_then-Writes (lost none) e w rest p h k = record { at = h.at }
  update_then-Writes (lost (some m)) e w rest p h k = record { at = h.at }
  update_then-Writes (unclosed m) e w rest p h k = record { at = All-snoc P w.writes e h.at p }

  take_reply-Writes : (w : Worker) → Writes P w → Writes P (take_reply w)
  take_reply-Writes w h = record { at = rw writes-take_reply h.at }

  set_exit-Writes : (w : Worker) (r : ℤ) → Writes P w → Writes P (record w { exit = r })
  set_exit-Writes w r h = record { at = h.at }

  call_then-Writes :
      (s : Script) (e : Entry) (w : Worker) (rest : Worker → Worker)
      → P e
      → Writes P w
      → ((w' : Worker) → Writes P w' → Writes P (rest w'))
      → Writes P (call_then s e w rest)
  unfolding call_then
  call_then-Writes s e w rest p h k =
      let answered : Worker = record w { reply = s.rpc.reply; exit = s.rpc.ret } in
      let h' : Writes P answered = record { at = h.at } in
      elim (Bool-cases (is_zero s.rpc.ret)) [
        | inl z ↦ rw (z, call_then) (k answered h')
        | inr z ↦ elim (Bool-cases s.rpc.rpc_sent) [
          | inl t ↦
              rw (z, t, call_then)
                (update_then-Writes s.second e (take_reply answered)
                  (λ w'. record w' { exit = s.rpc.ret }) p (take_reply-Writes answered h')
                  (λ w' h''. set_exit-Writes w' s.rpc.ret h''))
          | inr t ↦ rw (z, t, call_then) (record { at = h.at })
        ]
      ]

  finish-Writes :
      (what addr end : Text) (w : Worker) → Writes P w → Writes P (finish what addr end w)
  finish-Writes what addr end w h = record { at = rw writes-finish h.at }

  start-Writes : Writes P start
  start-Writes = record { at = tt }

  if-Writes : (b : Bool) (v w : Worker) → Writes P v → Writes P w → Writes P (if b then v else w)
  if-Writes true v w hv hw = hv
  if-Writes false v w hv hw = hw

ruleset writes_rules =
    (update_then-Writes, call_then-Writes, finish-Writes, start-Writes, if-Writes)

-- Each line is about the host.
abbrev pub About : Text → Entry → Type 0
About addr e = e.host ≡ addr

module _ (addr : Text) (s : Script) where
  -- Each thread writes about its own host only.
  pub create_remote-About : (auth : Bool) → Writes (About addr) (create_remote auth addr s)
  unfolding create_remote
  create_remote-About auth = search writes_rules depth 12

  pub delete_remote-About : Writes (About addr) (delete_remote addr s)
  unfolding delete_remote
  delete_remote-About = search writes_rules depth 12

  portal_then-Writes :
      {P : Entry → Type 0} (w : Worker) (rest : Worker → Worker)
      → P (note_status addr Status.rp_fail)
      → Writes P w
      → ((w' : Worker) → Writes P w' → Writes P (rest w'))
      → Writes P (portal_then s addr w rest)
  unfolding portal_then
  portal_then-Writes w rest p h k = elim (Bool-cases (int_eq s.rpc.ret op_skipped)) [
    | inl z ↦
        rw (portal_then, z)
          (k (record w { reply = s.rpc.reply; exit = s.rpc.ret }) (record { at = h.at }))
    | inr z ↦
        rw (portal_then, z) (call_then-Writes s (note_status addr Status.rp_fail) w rest p h k)
  ]

  pub replace_portal_remote-Writes :
      {P : Entry → Type 0}
      → ((st : MetaStatus) → P (note_status addr st))
      → Writes P (replace_portal_remote addr s)
  unfolding replace_portal_remote
  replace_portal_remote-Writes h = search (writes_rules, portal_then-Writes) depth 12

  pub modify_remote-About : (auth : Bool) → Writes (About addr) (modify_remote auth addr s)
  unfolding modify_remote
  modify_remote-About auth = search writes_rules depth 12

  pub modify_size_remote-About : (size : ℕ) → Writes (About addr) (modify_size_remote size addr s)
  unfolding modify_size_remote
  modify_size_remote-About size = search writes_rules depth 12

-- A property of every line that a delete thread can write holds of the lines that it writes.
pub delete_remote-Writes :
    {P : Entry → Type 0} (addr : Text) (s : Script)
    → ((st : MetaStatus) → P (note_status addr st))
    → Writes P (delete_remote addr s)
unfolding delete_remote
delete_remote-Writes addr s h = search writes_rules depth 12

pub create_remote-Writes :
    {P : Entry → Type 0} (auth : Bool) (addr : Text) (s : Script)
    → ((st : MetaStatus) → P (note_status addr st))
    → Writes P (create_remote auth addr s)
unfolding create_remote
create_remote-Writes auth addr s h = search writes_rules depth 12

pub modify_remote-Writes :
    {P : Entry → Type 0} (auth : Bool) (addr : Text) (s : Script)
    → ((st : MetaStatus) → P (note_status addr st))
    → Writes P (modify_remote auth addr s)
unfolding modify_remote
modify_remote-Writes auth addr s h = search writes_rules depth 12

pub modify_size_remote-Writes :
    {P : Entry → Type 0} (size : ℕ) (addr : Text) (s : Script)
    → P (note_size addr Status.rs_inprogress size)
    → P (note_size addr Status.rs_fail size)
    → P (note_size addr Status.rs_success size)
    → Writes P (modify_size_remote size addr s)
unfolding modify_size_remote
modify_size_remote-Writes size addr s h k l = search writes_rules depth 12

-- A delete thread returns 0 exactly if both its lines were written and the remote delete returned 0.
pub delete_remote_exit :
    (addr : Text) (s : Script)
    → ((delete_remote addr s).exit ≡ pos 0)
      ↔ ((s.first ≡ updated) × (s.rpc.ret ≡ pos 0) × (s.second ≡ updated))
unfolding delete_remote
delete_remote_exit addr s = (λ h. ground arith, λ h. ground arith)

-- A create thread returns 0 exactly if the remote create returned 0 and all its lines were written, with
-- authentication one more.
pub create_remote_exit :
    (auth : Bool) (addr : Text) (s : Script)
    → ((create_remote auth addr s).exit ≡ pos 0) ↔ (
        (s.first ≡ updated)
        × (s.rpc.ret ≡ pos 0)
        × (s.second ≡ updated)
        × ((auth ≡ false) ⊎ (s.third ≡ updated)))
unfolding create_remote
create_remote_exit auth addr s = (λ h. ground arith, λ h. ground arith)

-- The status that a modify thread which returns 0 leaves its host with.
abbrev pub auth_status : Bool → MetaStatus
auth_status auth = if auth then Status.auth_enforced else Status.auth_clear_enforced

pub modify_remote-status :
    (auth : Bool) (addr : Text) (s : Script) (old : Option Text)
    → (modify_remote auth addr s).exit ≡ pos 0
    → last_status addr (modify_remote auth addr s).writes old
      ≡ some (status_name (auth_status auth))
unfolding modify_remote last_status
modify_remote-status auth addr s old h = ground (arith, str_eq_refl addr)

-- The status that a resize thread which returns 0 leaves its host with.
pub modify_size_remote-status :
    (size : ℕ) (addr : Text) (s : Script) (old : Option Text)
    → (modify_size_remote size addr s).exit ≡ pos 0
    → last_status addr (modify_size_remote size addr s).writes old
      ≡ some (note_size addr Status.rs_success size).status
unfolding modify_size_remote last_status
modify_size_remote-status size addr s old h = ground (arith, str_eq_refl addr)

-- The status that the journal of the host ends with, from the answers that the thread met.
abbrev pub delete_status : Script → Option Text → Option Text
delete_status s old = elim s.first [
  | lost _ ↦ old
  | unclosed _ ↦ some (status_name Status.cleanup_inprogress)
  | updated ↦
      if is_zero s.rpc.ret
      then elim s.second [
        | lost _ ↦ some (status_name Status.cleanup_inprogress)
        | _ ↦ some (status_name Status.cleanup_success)
      ]
      else if not s.rpc.rpc_sent
      then some (status_name Status.cleanup_inprogress)
      else elim s.second [
        | lost _ ↦ some (status_name Status.cleanup_inprogress)
        | _ ↦ some (status_name Status.cleanup_fail)
      ]
]

-- Reading the lines that a delete thread writes gives its host the status that `delete_status` makes
-- of the answers alone.
pub delete_remote-status :
    (addr : Text) (s : Script) (old : Option Text)
    → last_status addr (delete_remote addr s).writes old ≡ delete_status s old
unfolding delete_remote last_status
delete_remote-status addr s old = ground (arith, str_eq_refl addr)

-- Every update works and the call returns 0.
pub record IsGood (s : Script) : Type 0 where
  pub first : s.first ≡ updated
  pub ret : s.rpc.ret ≡ pos 0
  pub second : s.second ≡ updated
  pub third : s.third ≡ updated

pub replace_portal_remote_exit :
    (addr : Text) (s : Script) → IsGood s → (replace_portal_remote addr s).exit ≡ pos 0
unfolding replace_portal_remote
replace_portal_remote_exit addr s g = ground (arith, g.first, g.ret, g.second)

pub replace_portal_remote-status :
    (addr : Text) (s : Script) (old : Option Text)
    → IsGood s
    → last_status addr (replace_portal_remote addr s).writes old
      ≡ some (status_name Status.rp_success)
unfolding replace_portal_remote last_status
replace_portal_remote-status addr s old g =
    ground (arith, g.first, g.ret, g.second, str_eq_refl addr)
