-- ===== src/Modify/Exit.antt =====
-- What the exit code of a switch of authentication says (`block_modify_cli_1_svc_st`,
-- rpc/block_modify.c).
use gluster_block.Prelude.{
  ◌<◌, ◌≡◌, ◌∙◌, Bool, true, false, List, ◌++◌, All, pos, is_zero, int_eq_iff, Bool-cases, inl, inr,
  arith, length,
}
use gluster_block.Text.{Text, codes}
use gluster_block.Meta.{MetaInfo, Outcome, ok, parse_rs_status}
use gluster_block.Meta.Read.{render}
use gluster_block.Meta.File.{IsFile}
use gluster_block.Remote.{Update, updated, lost, unclosed}
use gluster_block.Modify.{
  modify_args_fill, modify_remote_async, ModifyRun, Modified, modify_lines, update_file,
  undo_threads, modify_undo, modify_threads, modify_cli, modify_exit,
}
use gluster_block.Modify.Reach.{password_lines, modify_locked-Reached, modify_cli-locked}
use gluster_block.Modify.Settled.{IsSwitched, modify_remote_async-Switched}

asyncret-undo_threads :
    (run : ModifyRun) (auth : Bool) (m0 m : Modified)
    → undo_threads run auth m0 ≡ ok m
    → m.asyncret ≡ m0.asyncret
unfolding undo_threads
asyncret-undo_threads run auth m0 m h = ground arith

asyncret-update_file :
    (u : Update) (t : Text) (m0 m : Modified) (rest : Modified → Outcome Modified)
    → ((m' : Modified) → rest m' ≡ ok m → m.asyncret ≡ m'.asyncret)
    → update_file u t m0 rest ≡ ok m
    → m.asyncret ≡ m0.asyncret
unfolding update_file
asyncret-update_file updated t m0 m rest k h =
    k (record m0 { err_code = pos 0; file = m0.file ++ t }) h
asyncret-update_file (lost e) t m0 m rest k h = ground arith
asyncret-update_file (unclosed e) t m0 m rest k h = ground arith

-- The undoing leaves the code of the first threads alone.
asyncret-modify_undo :
    (run : ModifyRun) (auth : Bool) (m0 m : Modified)
    → modify_undo run auth m0 ≡ ok m
    → m.asyncret ≡ m0.asyncret
unfolding modify_undo
asyncret-modify_undo run true m0 m h =
    asyncret-update_file run.clear_password (codes "PASSWORD: \n") m0 m (undo_threads run true)
      (λ m' h'. asyncret-undo_threads run true m' m h') h
asyncret-modify_undo run false m0 m h = asyncret-undo_threads run false m0 m h

-- What an exit code 0 says of the threads.
threads-Switched :
    (run : ModifyRun) (auth : Bool) (info : MetaInfo) (m0 m : Modified)
    → modify_threads run auth info m0 ≡ ok m
    → modify_exit m ≡ pos 0
    → All (IsSwitched auth run.answers) (modify_args_fill auth info.nodes)
      × (m.rollback ≡ m0.rollback)
      × (m.file ≡ m0.file ++ modify_lines auth run.answers run.schedule info.nodes)
unfolding modify_threads modify_exit
threads-Switched run auth info m0 m h z =
    let call = modify_remote_async auth run.answers info.nodes false m0.resp in
    elim (Bool-cases (is_zero call.0)) [
      | inl e ↦ (
        modify_remote_async-Switched auth run.answers info.nodes false m0.resp
            ((int_eq_iff call.0 (pos 0)).0 e),
        ground arith,
        ground arith,
      )
      | inr e ↦
          let h' = rw (modify_threads, e) at h in
          let k = asyncret-modify_undo run auth _ m h' in absurd (ground (arith, e, k, z))
    ]

-- The threads have returned 0, nothing was undone, and the file has gained their lines.
abbrev pub Switched : ModifyRun → Bool → MetaInfo → Text → Modified → Type 0
Switched run auth info file m =
    All (IsSwitched auth run.answers) (modify_args_fill auth info.nodes)
    × (m.rollback ≡ false)
    × (m.file ≡ file ++ modify_lines auth run.answers run.schedule info.nodes)

-- A switch of a block whose file consists of short lines that are read to nodes with distinct addresses,
-- with enough reads, that does not crash and exits with 0: the volume gave access, all hosts have the
-- capability, each thread has returned 0, nothing was undone, and the file has gained the line about the
-- password and then those of the threads.
pub modify_cli-Switched :
    {ls : List Text} {raw : MetaInfo} (run : ModifyRun) (auth : Bool) (m : Modified)
    → IsFile ls raw
    → length ls < run.reads
    → modify_cli run auth (render ls) ≡ ok m
    → modify_exit m ≡ pos 0
    → (run.access ≡ pos 0)
      × (run.caps ≡ pos 0)
      × Switched run auth
          (parse_rs_status raw)
          (render ls ++ render (password_lines auth run.uuid raw.passwd))
          m
unfolding modify_exit
modify_cli-Switched {ls} {raw} run auth m f r h z =
    let q : m.err_code ≡ pos 0 = ground (arith, z) in
    elim (modify_locked-Reached run auth m f r (modify_cli-locked run auth (render ls) m h q)) [
      | inl (a, c, p) ↦
          let (s, b, g) = threads-Switched run auth (parse_rs_status raw) p.before m p.threads z in
          (
            (int_eq_iff run.access (pos 0)).0 a,
            (int_eq_iff run.caps (pos 0)).0 c,
            (s, b ∙ p.rollback, rw (← p.file) g),
          )
      | inr s ↦ absurd (ground (arith, s.asyncret, s.err_code, z))
    ]
