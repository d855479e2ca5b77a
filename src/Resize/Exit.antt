-- ===== src/Resize/Exit.antt =====
-- What the exit code of a resize says (`block_modify_size_cli_1_svc_st`, rpc/block_modify.c).
use mathlib.Core.List.{append_assoc}
use gluster_block.Prelude.{
  some, none, Option, ℕ, ◌<◌, ◌≡◌, ◌≢◌, ◌∙◌, refl, ap, sym, Bool, false, List, [], ◌∷◌, ◌++◌, map,
  All, ℤ, pos, is_zero, int_eq_iff, Bool-cases, Option-cases, inl, inr, arith, length, ◌==◌,
}
use gluster_block.Text.{Text, codes}
use gluster_block.Text.Decimal.{format_zu}
use gluster_block.Lock.{unlock_code}
use gluster_block.Meta.{Outcome, fail, crash, ◌>>=◌, MetaInfo, ok, parse_rs_status}
use gluster_block.Meta.Journal.{Entry, entry_line}
use gluster_block.Meta.Read.{render}
use gluster_block.Meta.File.{IsFile, get_meta_info-IsFile}
use gluster_block.Meta.Servers.{get_list_from_info}
use gluster_block.Remote.{Update, updated, lost, unclosed}
use gluster_block.Remote.Collect.{any_failed}
use gluster_block.Resize.{
  ResizeRun, Resized, resize_start, resize_done, resize_entries, resize_threads, size_text,
  resize_update, resize_hosts, is_unaligned, is_refused, resize_checks, resize_locked, resize_cli,
  resize_exit,
}
use gluster_block.Resize.Fill.{resize_args_fill_lem}
use gluster_block.Resize.Settled.{
  resize_nodes, IsResized, resize_remote_async_lem, any_failed-Resized,
}

-- The lines that the threads of a resize write.
abbrev pub lines_of_resize : ResizeRun → ℕ → MetaInfo → List Entry
lines_of_resize run size info =
    resize_entries size run.answers run.schedule (resize_nodes size info)

-- The line with the size.
abbrev pub size_line_of : ℕ → Text
size_line_of size = codes "SIZE: " ++ format_zu size

-- The threads have returned 0, and the file has gained the size and their lines.
abbrev pub AllResized : ResizeRun → ℕ → MetaInfo → Text → Resized → Type 0
AllResized run size info file m =
    All (IsResized size run.answers) (resize_nodes size info)
    × (m.file
        ≡ (file ++ render (size_line_of size ∷ []))
          ++ render (map entry_line (lines_of_resize run size info)))

module _ (run : ResizeRun) (size : ℕ) (info : MetaInfo) (file : Text) (m : Resized) where
  stop :
      (k : ℤ) (t : Text)
      → ok (record (resize_start file) { err_code = k; file = t }) ≡ ok m
      → is_zero k ≡ false
      → resize_exit m ≢ pos 0
  unfolding resize_exit
  stop k t h z e = ground (arith, h, z, e)

  threads-Resized :
      (t : Text)
      → resize_threads run size info (record (resize_start file) { file = t }) ≡ ok m
      → resize_exit m ≡ pos 0
      → All (IsResized size run.answers) (resize_nodes size info)
        × (m.file ≡ t ++ render (map entry_line (lines_of_resize run size info)))
  unfolding resize_threads resize_exit
  threads-Resized t h z =
      let (f, c) = resize_args_fill_lem size info in
      let (resp, e) = resize_remote_async_lem size run.answers info (resize_start file).resp refl in
      elim (Bool-cases (any_failed (map (resize_done size run.answers) (resize_nodes size info)))) [
        | inl a ↦ let h' = rw (resize_threads, e, f, a) at h in absurd (ground (arith, h', z))
        | inr a ↦
            let h' = rw (resize_threads, e, f, a) at h in
            (any_failed-Resized size run.answers (resize_nodes size info) a, ground (arith, h'))
      ]

  update-Resized :
      (u : Update)
      → resize_update run u size info (resize_start file) ≡ ok m
      → resize_exit m ≡ pos 0
      → AllResized run size info file m
  unfolding resize_update render size_text
  update-Resized updated h z =
      let (r, e) = threads-Resized (file ++ size_text size) h z in
      (
        r,
        e
            ∙ ap (λ t. (file ++ t) ++ render (map entry_line (lines_of_resize run size info)))
                (sym (append_assoc (codes "SIZE: ") (format_zu size) (codes "\n"))),
      )
  update-Resized (lost e) h z = absurd (stop _ file h refl z)
  update-Resized (unclosed e) h z = absurd (stop _ (file ++ size_text size) h refl z)

  hosts-Resized :
      resize_hosts run size info (resize_start file) ≡ ok m
      → resize_exit m ≡ pos 0
      → (run.caps ≡ pos 0) × (run.resized ≡ pos 0) × AllResized run size info file m
  unfolding resize_hosts
  hosts-Resized h z = elim (Option-cases (get_list_from_info info)) [
    | inl e ↦ let h' = rw (resize_hosts, e) at h in absurd (ground (arith, h'))
    | inr (hosts, e) ↦ elim (Bool-cases (length hosts.written == info.mpath)) [
      | inl l ↦ elim (Bool-cases (is_zero run.caps)) [
        | inl c ↦ elim (Bool-cases (is_zero run.resized)) [
          | inl d ↦
              let h' = rw (resize_hosts, e, l, c, d) at h in
              (
                (int_eq_iff run.caps (pos 0)).0 c,
                (int_eq_iff run.resized (pos 0)).0 d,
                update-Resized run.size_line h' z,
              )
          | inr d ↦
              let h' = rw (resize_hosts, e, l, c, d) at h in absurd (stop run.resized file h' d z)
        ]
        | inr c ↦ let h' = rw (resize_hosts, e, l, c) at h in absurd (stop run.caps file h' c z)
      ]
      | inr l ↦ let h' = rw (resize_hosts, e, l) at h in absurd (stop _ file h' refl z)
    ]
  ]

  checks-Resized :
      (force : Bool)
      → resize_checks run force size info (resize_start file) ≡ ok m
      → resize_exit m ≡ pos 0
      → (is_unaligned size info ≡ false)
        × (is_refused force size info ≡ false)
        × (run.caps ≡ pos 0)
        × (run.resized ≡ pos 0)
        × AllResized run size info file m
  unfolding resize_checks
  checks-Resized force h z = elim (Bool-cases (is_unaligned size info)) [
    | inl u ↦ let h' = rw (resize_checks, u) at h in absurd (stop _ file h' refl z)
    | inr u ↦ elim (Bool-cases (is_refused force size info)) [
      | inl r ↦ let h' = rw (resize_checks, u, r) at h in absurd (stop _ file h' refl z)
      | inr r ↦
          let h' = rw (resize_checks, u, r) at h in
          let (c, d, a) = hosts-Resized h' z in (u, r, c, d, a)
    ]
  ]

unlocked :
    (unlock : Option Text) (o : Outcome Resized) (m : Resized)
    → (o >>= λ r. ok (record r { err_code = unlock_code unlock r.err_code })) ≡ ok m
    → m.err_code ≡ pos 0
    → o ≡ ok m
unlocked none (ok r) m h z = h
unlocked (some e) (ok r) m h z = absurd (ground (arith, h, z))
unlocked unlock fail m h z = absurd (ground (arith, h))
unlocked unlock crash m h z = absurd (ground (arith, h))

-- Without an error, the lock was taken and released.
resize_cli-locked :
    (run : ResizeRun) (force : Bool) (size : ℕ) (file : Text) (m : Resized)
    → resize_cli run force size file ≡ ok m
    → m.err_code ≡ pos 0
    → resize_locked run force size file ≡ ok m
unfolding resize_cli
resize_cli-locked run force size file m h z = elim (Bool-cases (is_zero run.entered)) [
  | inl n ↦
      let h' = rw (resize_cli, n) at h in
      unlocked run.unlock (resize_locked run force size file) m h' z
  | inr n ↦ let h' = rw (resize_cli, n) at h in absurd (ground (arith, h', n, z))
]

-- A resize of a block whose file consists of short lines that are read to nodes with distinct addresses,
-- with enough reads, that does not crash and exits with 0: the volume gave access; the size is a multiple
-- of the block size, and it is larger, or smaller with force, or the same after a resize that failed; all
-- hosts have the capability; the file of the block was resized; each thread has returned 0; and the
-- metadata file has gained the line with the size and then those of the threads.
pub resize_cli-Resized :
    {ls : List Text} {raw : MetaInfo} (run : ResizeRun) (force : Bool) (size : ℕ) (m : Resized)
    → IsFile ls raw
    → length ls < run.reads
    → resize_cli run force size (render ls) ≡ ok m
    → resize_exit m ≡ pos 0
    → (run.access ≡ pos 0)
      × (is_unaligned size (parse_rs_status raw) ≡ false)
      × (is_refused force size (parse_rs_status raw) ≡ false)
      × (run.caps ≡ pos 0)
      × (run.resized ≡ pos 0)
      × AllResized run size (parse_rs_status raw) (render ls) m
unfolding resize_locked resize_exit
resize_cli-Resized {ls} {raw} run force size m f r h0 z =
    let q : m.err_code ≡ pos 0 = ground (arith, z) in
    let h = resize_cli-locked run force size (render ls) m h0 q in
    elim (Bool-cases (is_zero run.access)) [
      | inl a ↦
          let h' = rw (resize_locked, a, get_meta_info-IsFile run.reads run.buffer f r) at h in
          let (u, s, c, d, k) =
            checks-Resized run size (parse_rs_status raw) (render ls) m force h' z in
          ((int_eq_iff run.access (pos 0)).0 a, u, s, c, d, k)
      | inr a ↦
          let h' = rw (resize_locked, a) at h in
          absurd (stop run size (parse_rs_status raw) (render ls) m run.access (render ls) h' a z)
    ]
