-- ===== src/Modify/Undone.antt =====
-- The unwinding of a failed switch of authentication (`block_modify_cli_1_svc_st`,
-- rpc/block_modify.c).
use gluster_block.Prelude.{
  ℕ, ◌+◌, ◌<◌, ◌≡◌, ◌∙◌, refl, ap, sym, Bool, true, false, not, List, [], ◌∷◌, ◌++◌, map, pos,
  is_zero, int_eq_iff, Bool-cases, inl, inr, arith, length, length-append,
}
use gluster_block.Text.{Text, codes}
use gluster_block.Meta.{NodeInfo, MetaInfo, ok, rs_nodes, parse_rs_status}
use gluster_block.Meta.Journal.{Entry, entry_line}
use gluster_block.Meta.Merge.{IsSchedule}
use gluster_block.Meta.Read.{render}
use gluster_block.Meta.File.{IsFile, get_meta_info-IsFile, render-append, length-map}
use gluster_block.Remote.{Update, updated, lost, unclosed}
use gluster_block.Remote.Reread.{ended}
use gluster_block.Modify.{
  modify_remote_async, ModifyRun, Modified, modify_cli, modify_lines, undo_threads, modify_undo,
  update_file, modify_threads,
}
use gluster_block.Modify.Settled.{modify_crew, switched-IsFile, modify_remote_async-Switched}
use gluster_block.Modify.Reach.{password_lines, modify_locked-Reached, modify_cli-locked}
use gluster_block.Modify.Password.{IsPassword, password-IsFile, line-IsFile, nil-IsPassword}
use gluster_block.Modify.Reread.{thread_entries, length-password_lines, IsQuiet, switched-IsQuiet}

-- The lines that the threads of the unwinding write, over nodes as they stand in the file.
abbrev pub undo_entries : ModifyRun → Bool → List NodeInfo → List Entry
undo_entries run auth ns = run.undo_schedule (modify_crew (not auth) run.undo_answers (rs_nodes ns))

undo_threads-IsQuiet :
    {ls : List Text} {raw : MetaInfo} (run : ModifyRun) (auth : Bool) (m0 m : Modified) (reads : ℕ)
    (buf : Text)
    → IsFile ls raw
    → IsSchedule run.undo_schedule
    → length ls < run.reads_again
    → length ls + length (undo_entries run auth raw.nodes) < reads
    → m0.file ≡ render ls
    → undo_threads run auth m0 ≡ ok m
    → m.err_code ≡ pos 0
    → IsQuiet (not auth) raw.passwd m.file reads buf
unfolding undo_threads parse_rs_status
undo_threads-IsQuiet {ls} {raw} run auth m0 m reads buf f s r r' e h z =
    let h' = rw (undo_threads, e, get_meta_info-IsFile run.reads_again run.buffer_again f r) at h in
    let call = modify_remote_async (not auth) run.undo_answers (rs_nodes raw.nodes) true m0.resp in
    let c : call.0 ≡ pos 0 = ground (arith, h', z, int_eq_iff call.0 (pos 0)) in
    let file : m.file
        ≡ render ls
          ++ modify_lines (not auth) run.undo_answers run.undo_schedule (rs_nodes raw.nodes) =
      ground (arith, h') in
    rw file (
      switched-IsQuiet (not auth) run.undo_answers reads buf f
        (s (modify_crew (not auth) run.undo_answers (rs_nodes raw.nodes)))
        (modify_remote_async-Switched (not auth) run.undo_answers (rs_nodes raw.nodes) true m0.resp
          c)
        r')

-- The unwinding of a switch that turns the authentication on.
modify_undo-IsQuiet :
    {ls : List Text} {raw : MetaInfo} (run : ModifyRun) (u : Update) (m0 m : Modified) (reads : ℕ)
    (buf : Text)
    → run.clear_password ≡ u
    → IsFile ls raw
    → IsSchedule run.undo_schedule
    → length ls + 1 < run.reads_again
    → length ls + length (undo_entries run true raw.nodes) + 1 < reads
    → m0.file ≡ render ls
    → m0.rollback ≡ false
    → modify_undo run true m0 ≡ ok m
    → m.rollback ≡ true
    → m.err_code ≡ pos 0
    → IsQuiet false [] m.file reads buf
unfolding modify_undo update_file render
modify_undo-IsQuiet {ls} {raw} run updated m0 m reads buf p f s r r' e b h t z =
    let h' = rw (modify_undo, p) at h in
    let l = length-append {0} ls (codes "PASSWORD: " ∷ []) in
    undo_threads-IsQuiet run true _ m reads buf (line-IsFile [] f nil-IsPassword) s
      (omega (arith, r, l)) (omega (arith, r', l))
      (ap (λ t. t ++ codes "PASSWORD: \n") e ∙ sym (render-append ls (codes "PASSWORD: " ∷ []))) h'
      z
modify_undo-IsQuiet run (lost x) m0 m reads buf p f s r r' e b h t z =
    let h' = rw (modify_undo, p) at h in absurd (ground (arith, h', b, t))
modify_undo-IsQuiet run (unclosed x) m0 m reads buf p f s r r' e b h t z =
    let h' = rw (modify_undo, p) at h in absurd (ground (arith, h', b, t))

threads-undone :
    (run : ModifyRun) (info : MetaInfo) (m0 m : Modified)
    → modify_threads run true info m0 ≡ ok m
    → m0.rollback ≡ false
    → m.rollback ≡ true
    → (m1 : Modified) × (modify_undo run true m1 ≡ ok m)
      × (m1.rollback ≡ false)
      × (m1.file ≡ m0.file ++ modify_lines true run.answers run.schedule info.nodes)
unfolding modify_threads
threads-undone run info m0 m h b t =
    let call = modify_remote_async true run.answers info.nodes false m0.resp in
    elim (Bool-cases (is_zero call.0)) [
      | inl e ↦ let h' = rw (modify_threads, e) at h in absurd (ground (arith, h', b, t))
      | inr e ↦ let h' = rw (modify_threads, e) at h in (_, h', b, refl)
    ]

-- For a file of short lines that are read to nodes with distinct addresses, a new password that fits, and
-- threads that take turns in any way: if turning the authentication on was unwound, without a crash, and
-- no error of the unwinding is left, then the file is read anew, given enough reads, to no password and to
-- nodes none of which asks for a thread that turns the authentication off.
pub modify_cli_undone :
    {ls : List Text} {raw : MetaInfo} (run : ModifyRun) (m : Modified) (reads : ℕ) (buf : Text)
    → IsFile ls raw
    → IsPassword run.uuid
    → IsSchedule run.schedule
    → IsSchedule run.undo_schedule
    → length ls < run.reads
    → length ls + length (thread_entries run true raw) + 2 < run.reads_again
    → length ls
        + length (thread_entries run true raw)
        + length (undo_entries run true (ended (thread_entries run true raw) raw).nodes)
        + 2
      < reads
    → modify_cli run true (render ls) ≡ ok m
    → m.rollback ≡ true
    → m.err_code ≡ pos 0
    → IsQuiet false [] m.file reads buf
unfolding parse_rs_status
modify_cli_undone {ls} {raw} run m reads buf f pw s s' r ra rb h t z =
    elim (modify_locked-Reached run true m f r (modify_cli-locked run true (render ls) m h z)) [
      | inl (a, c, p) ↦
          let es = thread_entries run true raw in
          let pl = password_lines true run.uuid raw.passwd in
          let g = password-IsFile true run.uuid f pw in
          let g' =
            switched-IsFile true run.answers g
              (s (modify_crew true run.answers (rs_nodes raw.nodes))) in
          let l = length-append {0} (ls ++ pl) (map entry_line es) in
          let l' = length-append {0} ls pl in
          let le = length-password_lines true run.uuid raw.passwd in
          let lm = length-map es in
          let (m1, hm, b, e) =
            threads-undone run (parse_rs_status raw) p.before m p.threads p.rollback t in
          modify_undo-IsQuiet run run.clear_password m1 m reads buf refl g' s'
            (omega (arith, l, l', le, lm, ra)) (omega (arith, l, l', le, lm, rb))
            (rw (render-append (ls ++ pl) (map entry_line es), render-append ls pl)
              (rw (← p.file) e))
            b hm t z
      | inr k ↦ absurd (ground (arith, k.rollback, t))
    ]
