-- ===== src/Remote/Sizes.antt =====
-- The size that a resize writes behind its status (`glusterBlockModifySizeRemote`, rpc/block_modify.c) and
-- that `blockParseRSstatus` (rpc/glfs-operations.c) takes off it again.
use gluster_block.Prelude.{◌^◌, ◌≤◌, ◌<◌, ◌≡◌, arith, length, pos, ℕ}
use gluster_block.Text.{Text, str_cpy}
use gluster_block.Text.Laws.{Lacks, before_char-append, after_char-append, str_cpy_of_fits}
use gluster_block.Text.Decimal.{format_zu, scan_zu-format_zu}
use gluster_block.Enums.Status.{MetaStatus, status_name}
use gluster_block.Meta.{NodeInfo, parse_rs_node, status_size}
use gluster_block.Remote.{note_size}

-- A node whose array of 32 bytes takes what a resize has written, over any older status, is shown with the
-- status alone and the size that was written, if the status has no dash, the text with its size has at most
-- 31 bytes, and the size is below 2^63, the bound of `ssize_t`.
pub parse_rs_node-note_size :
    (n : NodeInfo) (st : MetaStatus) (size : ℕ) (old : Text)
    → Lacks b'-' (status_name st)
    → length (note_size n.addr st size).status ≤ 31
    → size < 2 ^ 63
    → parse_rs_node
        (record n { status = str_cpy status_size (note_size n.addr st size).status old })
      ≡ record n { status = status_name st; size = pos size }
unfolding parse_rs_node
parse_rs_node-note_size n st size old l f h =
    rw (str_cpy_of_fits 32 (note_size n.addr st size).status old f) (
      ground (
        arith,
        before_char-append b'-' (status_name st) (format_zu size) l,
        after_char-append b'-' (status_name st) (format_zu size) l,
        scan_zu-format_zu size (omega (arith, h)),
      ))
