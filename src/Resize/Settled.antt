-- ===== src/Resize/Settled.antt =====
-- The hosts of a block when the threads that resize it have ended
-- (`glusterBlockModifySizeRemoteAsync`, rpc/block_modify.c).
use gluster_block.Prelude.{
  ℕ, ◌<◌, ◌≤◌, ◌≡◌, refl, true, false, none, List, [], ◌∷◌, ◌++◌, map, All, All-map, pos, minus_one,
  arith, length, length-append, select, if◌then◌else◌, ltb,
}
use gluster_block.Text.{Text}
use gluster_block.Text.Laws.{before_char-append, after_char-append, Lacks-append}
use gluster_block.Text.Decimal.{format_zu, pow10, length-format_zu, Lacks-format_zu}
use gluster_block.Enums.Status
use gluster_block.Enums.Status.{MetaStatus, status_name, status_parse}
use gluster_block.Meta.{NodeInfo, MetaInfo, ok, rs_nodes, parse_rs_status}
use gluster_block.Meta.Shown.{shown}
use gluster_block.Meta.Lines.{IsHost, IsStatusText}
use gluster_block.Meta.Journal.{Entry, IsEntry, entry_line}
use gluster_block.Meta.Merge.{Merges}
use gluster_block.Meta.File.{IsFile, status_name-IsStatusText}
use gluster_block.Meta.Restamp.{touch_all}
use gluster_block.Meta.Servers.{blockhost_is_valid, is_valid_status}
use gluster_block.Remote.{Script, modify_size_remote, note_size}
use gluster_block.Remote.Laws.{
  modify_size_remote-About, modify_size_remote-Writes, modify_size_remote-status,
}
use gluster_block.Remote.Collect.{
  any_failed, any_failed_iff, collect_attempt_success, modify_size_srv,
}
use gluster_block.Remote.Reread.{ended, ended-IsFile, ended-none}
use gluster_block.Resize.{
  is_skipped, is_failed_status, is_resize_failed, resize_done, resize_thread, resize_remote_async,
  ResizeResp, resize_args_fill,
}
use gluster_block.Resize.Fill.{is_resized, resize_args_fill_lem}

abbrev resize_writes : ℕ → (Text → Script) → Text → List Entry
resize_writes size answers h = (modify_size_remote size h (answers h)).writes

-- The nodes of a resize.
abbrev pub resize_nodes : ℕ → MetaInfo → List NodeInfo
resize_nodes size info =
    select (λ (n : NodeInfo). is_resized true size info.size n.status) info.nodes

-- The thread for the node has returned 0.
abbrev pub IsResized : ℕ → (Text → Script) → NodeInfo → Type 0
IsResized size answers n = (modify_size_remote size n.addr (answers n.addr)).exit ≡ pos 0

exits :
    (size : ℕ) (answers : Text → Script) (ns : List NodeInfo)
    → All (λ d. d.exit ≡ pos 0) (map (resize_done size answers) ns)
    → All (IsResized size answers) ns
exits size answers [] h = tt
exits size answers (n ∷ ns) h = (h.0, exits size answers ns h.1)

-- The run of the threads stays within its arrays, and it returns 0 only if each of them has.
pub resize_remote_async_lem :
    (size : ℕ) (answers : Text → Script) (info : MetaInfo) (resp : ResizeResp)
    → resp.skipped ≡ none
    → (resp' : ResizeResp) × (resize_remote_async size answers info resp
        ≡ ok (
          if any_failed (map (resize_done size answers) (resize_nodes size info))
              then minus_one
              else pos 0,
          resp',
        ))
unfolding resize_remote_async
resize_remote_async_lem size answers info resp e =
    let (f, c) = resize_args_fill_lem size info in
    let b : ltb (length (resize_args_fill false size info none).args)
          (length (resize_args_fill true size info none).args)
        ≡ false =
      ground (arith, c) in
    let c =
      collect_attempt_success modify_size_srv
        (map (resize_done size answers) (resize_nodes size info)) in
    (
      record {
        attempt = c.attempt;
        success = c.success;
        skipped = (resize_args_fill true size info none).skipped;
      },
      rw (e, b, f) refl,
    )

pub any_failed-Resized :
    (size : ℕ) (answers : Text → Script) (ns : List NodeInfo)
    → any_failed (map (resize_done size answers) ns) ≡ false
    → All (IsResized size answers) ns
any_failed-Resized size answers ns h =
    exits size answers ns ((any_failed_iff (map (resize_done size answers) ns)).0 h)

not_failed :
    (ns : List NodeInfo)
    → select (λ (n : NodeInfo). is_failed_status n.status) ns ≡ []
    → is_resize_failed ns ≡ false
unfolding is_resize_failed
not_failed [] h = refl
not_failed (n ∷ ns) h = ground (arith, h, not_failed ns)

module _ (size : ℕ) (answers : Text → Script) (fits : size < pow10 18) where
  note_size-IsStatusText :
      (addr : Text) (st : MetaStatus)
      → length (status_name st) ≤ 12
      → IsStatusText (note_size addr st size).status
  note_size-IsStatusText addr st l =
      let t = status_name-IsStatusText st in
      record {
        fits = omega (
          arith,
          l,
          length-append {0} (status_name st) (b'-' ∷ format_zu size),
          length-format_zu size 17 fits,
        );
        text = record {
          no_newline =
              Lacks-append 10 (status_name st) (b'-' ∷ format_zu size) t.text.no_newline
                (omega arith, Lacks-format_zu 10 size refl);
          no_null =
              Lacks-append 0 (status_name st) (b'-' ∷ format_zu size) t.text.no_null
                (omega arith, Lacks-format_zu 0 size refl);
        };
      }

  own : (h : Text) → All (λ e. e.host ≡ h) (resize_writes size answers h)
  own h = (modify_size_remote-About h (answers h) size).at

  good : (h : Text) → IsHost h → All IsEntry (resize_writes size answers h)
  good h i =
      (modify_size_remote-Writes {P = IsEntry} size h (answers h)
        (record { host = i; status = note_size-IsStatusText h Status.rs_inprogress (omega arith) })
        (record { host = i; status = note_size-IsStatusText h Status.rs_fail (omega arith) })
        (record { host = i; status = note_size-IsStatusText h Status.rs_success (omega arith) })).at

  shown-success : shown (note_size [] Status.rs_success size).status ≡ status_name Status.rs_success
  unfolding shown
  shown-success = ground (
    arith,
    before_char-append b'-' (status_name Status.rs_success) (format_zu size) (omega arith),
    after_char-append b'-' (status_name Status.rs_success) (format_zu size) (omega arith),
  )

  success-not_failed : is_failed_status (shown (note_size [] Status.rs_success size).status) ≡ false
  unfolding is_failed_status status_parse
  success-not_failed = rw shown-success refl

  -- A node that a resize leaves alone is not in a failed state.
  others-not_failed :
      (info_size : ℕ) (status : Text)
      → is_resized true size info_size status ≡ false
      → is_failed_status status ≡ false
  unfolding is_failed_status is_skipped blockhost_is_valid is_valid_status
  others-not_failed info_size status h = ground (arith, h)

  -- The file with the lines of the threads is a file again.
  pub resized-IsFile :
      {ls : List Text} {raw : MetaInfo} {es : List Entry} (info_size : ℕ)
      → IsFile ls raw
      → Merges
          (map
            (resize_thread size answers)
            (resize_nodes size (record (parse_rs_status raw) { size = info_size })))
          es
      → IsFile (ls ++ map entry_line es) (ended es raw)
  unfolding parse_rs_status
  resized-IsFile info_size f m =
      ended-IsFile (is_resized true size info_size) (resize_writes size answers) own good f m

  -- If each thread has returned 0, then no node is in a failed state.
  pub resized-none :
      {ls : List Text} {raw : MetaInfo} {es : List Entry} (info_size : ℕ)
      → IsFile ls raw
      → Merges
          (map
            (resize_thread size answers)
            (resize_nodes size (record (parse_rs_status raw) { size = info_size })))
          es
      → All
          (IsResized size answers)
          (resize_nodes size (record (parse_rs_status raw) { size = info_size }))
      → is_resize_failed (rs_nodes (map (touch_all es) raw.nodes)) ≡ false
  unfolding parse_rs_status
  resized-none {raw} {es} info_size f m s = not_failed (rs_nodes (map (touch_all es) raw.nodes)) (
      ended-none (is_resized true size info_size) (resize_writes size answers) own good
        is_failed_status (note_size [] Status.rs_success size).status (others-not_failed info_size)
        success-not_failed f m
        (All-map (λ n e old. modify_size_remote-status size n.addr (answers n.addr) old e) _ s))
