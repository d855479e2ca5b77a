-- ===== src/Delete/Threads.antt =====
-- The threads of one delete as a fleet (`glusterBlockDeleteRemoteAsync`, rpc/block_delete.c).
use gluster_block.Prelude.{Bool, ◌≡◌, true, not, List, map, All}
use gluster_block.Text.{Text}
use gluster_block.Meta.{NodeInfo, rs_nodes}
use gluster_block.Meta.Nodes.{Distinct}
use gluster_block.Meta.Lines.{IsHost}
use gluster_block.Meta.Journal.{Entry, IsEntry}
use gluster_block.Meta.Merge.{Merges, Settles}
use gluster_block.Meta.Restamp.{has}
use gluster_block.Meta.File.{status_name-IsStatusText}
use gluster_block.Remote.{Script, delete_remote}
use gluster_block.Remote.Laws.{delete_remote-About, delete_remote-Writes}
use gluster_block.Remote.Fleet.{crew, fleet-Settles, fleet_lines}
use gluster_block.Delete.{is_clean, delete_fill_args, thread_of}

abbrev pub delete_writes : (Text → Script) → Text → List Entry
delete_writes answers h = (delete_remote h (answers h)).writes

abbrev pub is_dirty : Text → Bool
is_dirty st = not (is_clean st)

-- Each node ends as its own lines say.
pub settled :
    (answers : Text → Script) (ns : List NodeInfo) {es : List Entry}
    → Distinct ns
    → Merges (map (thread_of answers) (delete_fill_args (rs_nodes ns))) es
    → All (λ n. Settles es (crew is_dirty (delete_writes answers) n)) ns
unfolding delete_fill_args
settled answers ns d m =
    fleet-Settles is_dirty (delete_writes answers) (λ h. (delete_remote-About h (answers h)).at) ns
      d m

-- Every line of the threads is about a host of the file, and the reader accepts it.
pub lines-known :
    (answers : Text → Script) (ns : List NodeInfo) {es : List Entry}
    → All (λ n. IsHost n.addr) ns
    → Merges (map (thread_of answers) (delete_fill_args (rs_nodes ns))) es
    → All IsEntry es × All (λ e. has e.host ns ≡ true) es
unfolding delete_fill_args
lines-known answers ns h m =
    fleet_lines is_dirty (delete_writes answers) (λ h. (delete_remote-About h (answers h)).at) ns h
      (λ a i.
        (delete_remote-Writes {P = IsEntry} a (answers a)
          (λ st. record { host = i; status = status_name-IsStatusText st })).at)
      m
