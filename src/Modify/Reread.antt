-- ===== src/Modify/Reread.antt =====
-- The metadata file behind a switch of authentication (`block_modify_cli_1_svc_st`,
-- rpc/block_modify.c).
use gluster_block.Prelude.{
  ℕ, ◌+◌, ◌<◌, ◌≤◌, ◌≡◌, refl, Bool, true, false, some, List, [], ◌∷◌, ◌++◌, map, All, pos, arith,
  length, length-append,
}
use gluster_block.Text.{Text}
use gluster_block.Meta.{MetaInfo, ok, rs_nodes, parse_rs_status, blank_info}
use gluster_block.Meta.Journal.{Entry, entry_line}
use gluster_block.Meta.Merge.{IsSchedule, Merges}
use gluster_block.Meta.Read.{render, get_meta_info}
use gluster_block.Meta.File.{IsFile, get_meta_info-IsFile, render-append, length-map}
use gluster_block.Remote.{Script}
use gluster_block.Remote.Reread.{ended}
use gluster_block.Modify.{modify_args_fill, ModifyRun, Modified, modify_cli, modify_exit}
use gluster_block.Modify.Settled.{modify_crew, switched-IsFile, IsSwitched, switched-none}
use gluster_block.Modify.Reach.{password_lines}
use gluster_block.Modify.Exit.{modify_cli-Switched}
use gluster_block.Modify.Password.{IsPassword, new_passwd, password-IsFile}

-- The lines of the threads of a run.
abbrev pub thread_entries : ModifyRun → Bool → MetaInfo → List Entry
thread_entries run auth raw = run.schedule (modify_crew auth run.answers (rs_nodes raw.nodes))

pub length-password_lines :
    (auth : Bool) (uuid old : Text) → length (password_lines auth uuid old) ≤ 1
length-password_lines true uuid [] = omega arith
length-password_lines true uuid (c ∷ s) = omega arith
length-password_lines false uuid old = omega arith

-- A file that is read to metadata which asks for no thread.
abbrev pub IsQuiet : (auth : Bool) (passwd file : Text) (reads : ℕ) (buf : Text) → Type 0
IsQuiet auth passwd file reads buf =
    (info : MetaInfo) × (get_meta_info (some file) reads buf blank_info ≡ ok info)
    × (modify_args_fill auth info.nodes ≡ [])
    × (info.passwd ≡ passwd)

-- The file with the lines of threads that have all returned 0.
pub switched-IsQuiet :
    {ls : List Text} {raw : MetaInfo} {es : List Entry} (auth : Bool) (answers : Text → Script)
    (reads : ℕ) (buf : Text)
    → IsFile ls raw
    → Merges (modify_crew auth answers (rs_nodes raw.nodes)) es
    → All (IsSwitched auth answers) (modify_args_fill auth (rs_nodes raw.nodes))
    → length ls + length es < reads
    → IsQuiet auth raw.passwd (render ls ++ render (map entry_line es)) reads buf
unfolding parse_rs_status
switched-IsQuiet {ls} {raw} {es} auth answers reads buf f m s r =
    let short : length (ls ++ map entry_line es) < reads =
      omega (arith, length-append {0} ls (map entry_line es), length-map es) in
    (
      parse_rs_status (ended es raw),
      rw (← render-append ls (map entry_line es))
          (get_meta_info-IsFile reads buf (switched-IsFile auth answers f m) short),
      switched-none auth answers f m s,
      refl,
    )

-- For a file of short lines that are read to nodes with distinct addresses, a new password that fits, and
-- threads that take turns in any way: if the switch does not crash and exits with 0, then the file is read
-- anew, given enough reads, to the password, and to nodes such that the same switch starts no thread.
pub modify_cli_settles :
    {ls : List Text} {raw : MetaInfo} (run : ModifyRun) (auth : Bool) (m : Modified) (reads : ℕ)
    (buf : Text)
    → IsFile ls raw
    → IsPassword run.uuid
    → IsSchedule run.schedule
    → length ls < run.reads
    → length ls + length (thread_entries run auth raw) + 1 < reads
    → modify_cli run auth (render ls) ≡ ok m
    → modify_exit m ≡ pos 0
    → IsQuiet auth (new_passwd auth run.uuid raw.passwd) m.file reads buf
unfolding parse_rs_status
modify_cli_settles {ls} {raw} run auth m reads buf f pw s r r' h z =
    let (a, c, (t, b, e)) = modify_cli-Switched run auth m f r h z in
    let pl = password_lines auth run.uuid raw.passwd in
    let short : length (ls ++ pl) + length (thread_entries run auth raw) < reads =
      omega (arith, length-append {0} ls pl, length-password_lines auth run.uuid raw.passwd) in
    rw (e, ← render-append ls pl)
      (switched-IsQuiet auth run.answers reads buf (password-IsFile auth run.uuid f pw)
        (s (modify_crew auth run.answers (rs_nodes raw.nodes))) t short)
