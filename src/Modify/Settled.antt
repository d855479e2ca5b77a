-- ===== src/Modify/Settled.antt =====
-- The hosts of a block when the threads that switch its authentication have ended
-- (`glusterBlockModifyRemoteAsync`, rpc/block_modify.c).
use gluster_block.Prelude.{
  ◌≡◌, refl, Bool, true, false, List, [], ◌∷◌, map, All, pos, arith, ◌++◌, All-map,
}
use gluster_block.Text.{Text, after_char, before_char}
use gluster_block.Enums.Status.{status_name, status_parse}
use gluster_block.Meta.{NodeInfo, MetaInfo, rs_nodes}
use gluster_block.Meta.Shown.{shown}
use gluster_block.Meta.Lines.{IsHost}
use gluster_block.Meta.Journal.{Entry, IsEntry, entry_line}
use gluster_block.Meta.Merge.{Thread, Merges}
use gluster_block.Meta.File.{IsFile, status_name-IsStatusText}
use gluster_block.Meta.Restamp.{touch_all}
use gluster_block.Remote.{Script, modify_remote}
use gluster_block.Remote.Laws.{
  modify_remote-About, modify_remote-Writes, modify_remote-status, auth_status,
}
use gluster_block.Remote.Collect.{any_failed_iff}
use gluster_block.Remote.Reread.{ended, ended-IsFile, ended-none}
use gluster_block.Modify.{
  is_filled, modify_args_fill, modify_done, modify_thread, ModifyResp, modify_remote_async,
}

abbrev modify_writes : Bool → (Text → Script) → Text → List Entry
modify_writes auth answers h = (modify_remote auth h (answers h)).writes

-- The threads of one switch.
abbrev pub modify_crew : Bool → (Text → Script) → List NodeInfo → List Thread
modify_crew auth answers ns = map (modify_thread auth answers) (modify_args_fill auth ns)

-- The thread for the node has returned 0.
abbrev pub IsSwitched : Bool → (Text → Script) → NodeInfo → Type 0
IsSwitched auth answers n = (modify_remote auth n.addr (answers n.addr)).exit ≡ pos 0

done-filled : (auth : Bool) → is_filled auth (shown (status_name (auth_status auth))) ≡ false
unfolding is_filled shown after_char before_char status_parse
done-filled true = refl
done-filled false = refl

exits :
    (auth : Bool) (answers : Text → Script) (ns : List NodeInfo)
    → All (λ d. d.exit ≡ pos 0) (map (modify_done auth answers) ns)
    → All (IsSwitched auth answers) ns
exits auth answers [] h = tt
exits auth answers (n ∷ ns) h = (h.0, exits auth answers ns h.1)

-- The run of the threads returns 0 only if each of them has.
pub modify_remote_async-Switched :
    (auth : Bool) (answers : Text → Script) (ns : List NodeInfo) (rollback : Bool)
    (resp : ModifyResp)
    → (modify_remote_async auth answers ns rollback resp).0 ≡ pos 0
    → All (IsSwitched auth answers) (modify_args_fill auth ns)
unfolding modify_remote_async
modify_remote_async-Switched auth answers ns rollback resp h =
    let args = map (modify_done auth answers) (modify_args_fill auth ns) in
    exits auth answers (modify_args_fill auth ns) ((any_failed_iff args).0 (ground (arith, h)))

module _ (auth : Bool) (answers : Text → Script) where
  own : (h : Text) → All (λ e. e.host ≡ h) (modify_writes auth answers h)
  own h = (modify_remote-About h (answers h) auth).at

  good : (h : Text) → IsHost h → All IsEntry (modify_writes auth answers h)
  good h i =
      (modify_remote-Writes {P = IsEntry} auth h (answers h)
        (λ st. record { host = i; status = status_name-IsStatusText st })).at

  -- The file with the lines of the threads is a file again.
  pub switched-IsFile :
      {ls : List Text} {raw : MetaInfo} {es : List Entry}
      → IsFile ls raw
      → Merges (modify_crew auth answers (rs_nodes raw.nodes)) es
      → IsFile (ls ++ map entry_line es) (ended es raw)
  unfolding modify_args_fill
  switched-IsFile f m = ended-IsFile (is_filled auth) (modify_writes auth answers) own good f m

  -- If each thread has returned 0, then the same switch finds no host to start a thread for.
  pub switched-none :
      {ls : List Text} {raw : MetaInfo} {es : List Entry}
      → IsFile ls raw
      → Merges (modify_crew auth answers (rs_nodes raw.nodes)) es
      → All (IsSwitched auth answers) (modify_args_fill auth (rs_nodes raw.nodes))
      → modify_args_fill auth (rs_nodes (map (touch_all es) raw.nodes)) ≡ []
  unfolding modify_args_fill
  switched-none {raw} f m s =
      ended-none (is_filled auth) (modify_writes auth answers) own good (is_filled auth)
        (status_name (auth_status auth)) (λ s h. h) (done-filled auth) f m
        (All-map (λ n e old. modify_remote-status auth n.addr (answers n.addr) old e) _ s)
