-- ===== src/Resize/Reread.antt =====
-- The metadata file behind a resize, and a resize to the size that the block has
-- (`block_modify_size_cli_1_svc_st`, rpc/block_modify.c).
use gluster_block.Prelude.{
  ℕ, ◌+◌, ◌<◌, ◌≡◌, refl, Bool, false, some, List, [], ◌∷◌, ◌++◌, map, pos, minus_one, arith,
  length, length-append, ◌==◌, if◌then◌else◌,
}
use gluster_block.Text.{Text, codes, first_token, after_char}
use gluster_block.Text.Laws.{Lacks-append}
use gluster_block.Text.Decimal.{
  format_zu, pow10, length-format_zu, Lacks-format_zu, scan_zu-format_zu,
}
use gluster_block.Enums.Key.{key_parse}
use gluster_block.Meta.{MetaInfo, ok, parse_rs_status, blank_info, stuff_meta_info}
use gluster_block.Meta.Journal.{entry_line}
use gluster_block.Meta.Merge.{IsSchedule}
use gluster_block.Meta.Read.{render, get_meta_info, IsLine}
use gluster_block.Meta.File.{IsFile, IsFile-line, get_meta_info-IsFile, render-append, length-map}
use gluster_block.Remote.Reread.{ended}
use gluster_block.Lock.{unlock-minus_one}
use gluster_block.Resize.{
  ResizeRun, Resized, resize_start, resize_thread, is_resize_failed, is_unaligned, is_refused,
  resize_checks, resize_locked, resize_cli, resize_exit,
}
use gluster_block.Resize.Settled.{resize_nodes, resized-IsFile, resized-none}
use gluster_block.Resize.Exit.{lines_of_resize, size_line_of, resize_cli-Resized}

-- What the line with the size does to the metadata.
abbrev pub with_size : ℕ → MetaInfo → MetaInfo
with_size size raw = record raw {
  size = size;
  initial_size = if raw.initial_size == 0 then size else raw.initial_size;
}

module _ (size : ℕ) (fits : size < pow10 18) where
  stuff-size_line :
      (raw : MetaInfo) → stuff_meta_info raw (size_line_of size) ≡ ok (with_size size raw)
  unfolding stuff_meta_info first_token after_char key_parse
  stuff-size_line raw = ground (arith, scan_zu-format_zu size (omega (arith, fits)))

  size_line-IsLine : IsLine (size_line_of size)
  size_line-IsLine = record {
    nonempty = λ p. cc;
    text = record {
      no_newline =
          Lacks-append 10 (codes "SIZE: ") (format_zu size) (omega arith)
            (Lacks-format_zu 10 size refl);
      no_null =
          Lacks-append 0 (codes "SIZE: ") (format_zu size) (omega arith)
            (Lacks-format_zu 0 size refl);
    };
    short = omega (arith, length-format_zu size 17 fits);
  }

  sized-IsFile :
      {ls : List Text} {raw : MetaInfo}
      → IsFile ls raw
      → IsFile (ls ++ size_line_of size ∷ []) (with_size size raw)
  sized-IsFile {ls} {raw} f =
      IsFile-line (size_line_of size) f size_line-IsLine (stuff-size_line raw) refl

refused_lem :
    (run : ResizeRun) (force : Bool) (size : ℕ) (file : Text)
    → run.entered ≡ pos 0
    → resize_locked run force size file ≡ ok (record (resize_start file) { err_code = minus_one })
    → resize_cli run force size file ≡ ok (record (resize_start file) { err_code = minus_one })
unfolding resize_cli
refused_lem run force size file n e = rw e (rw n (rw (unlock-minus_one run.unlock) refl))

-- For a file of short lines that are read to nodes with distinct addresses, a size below 10^18, and threads
-- that take turns in any way: if the resize does not crash and exits with 0, then the file is read anew,
-- given enough reads, to the size and to nodes none of which is in a failed state; and a second resize to
-- the same size, if the lock is taken, the volume gives access and the reads are enough, is refused with -1 and writes nothing.
pub resize_cli_settles :
    {ls : List Text} {raw : MetaInfo} (run again : ResizeRun) (force : Bool) (size : ℕ)
    (m : Resized)
    → IsFile ls raw
    → size < pow10 18
    → IsSchedule run.schedule
    → length ls < run.reads
    → length ls + length (lines_of_resize run size (parse_rs_status raw)) + 1 < again.reads
    → again.entered ≡ pos 0
    → again.access ≡ pos 0
    → resize_cli run force size (render ls) ≡ ok m
    → resize_exit m ≡ pos 0
    → (info : MetaInfo) × (get_meta_info (some m.file) again.reads again.buffer blank_info
        ≡ ok info)
      × (info.size ≡ size)
      × (is_resize_failed info.nodes ≡ false)
      × (resize_cli again force size m.file
          ≡ ok (record (resize_start m.file) { err_code = minus_one }))
unfolding parse_rs_status resize_locked resize_checks is_refused is_unaligned
resize_cli_settles {ls} {raw} run again force size m f fits s r r' n0 a h z =
    let (x, u, k, c, d, (t, e)) = resize_cli-Resized run force size m f r h z in
    let es = lines_of_resize run size (parse_rs_status raw) in
    let g = sized-IsFile size fits f in
    let ms = s (map (resize_thread size run.answers) (resize_nodes size (parse_rs_status raw))) in
    let g' = resized-IsFile size run.answers fits raw.size g ms in
    let short : length ((ls ++ size_line_of size ∷ []) ++ map entry_line es) < again.reads = omega (
      arith,
      length-append {0} (ls ++ size_line_of size ∷ []) (map entry_line es),
      length-append {0} ls (size_line_of size ∷ []),
      length-map es,
    ) in
    let n = resized-none size run.answers fits raw.size g ms t in
    let read = get_meta_info-IsFile again.reads again.buffer g' short in
    let file : m.file ≡ render ((ls ++ size_line_of size ∷ []) ++ map entry_line es) =
      rw
        (
          render-append (ls ++ size_line_of size ∷ []) (map entry_line es),
          render-append ls (size_line_of size ∷ []),
        )
        e in
    rw file (
      parse_rs_status (ended es (with_size size raw)),
      read,
      refl,
      n,
      refused_lem again force size (render ((ls ++ size_line_of size ∷ []) ++ map entry_line es)) n0
          (rw (resize_locked, a, read, resize_checks, is_unaligned, is_refused, n)
            (ground (arith, u))),
    )
