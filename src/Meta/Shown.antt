-- ===== src/Meta/Shown.antt =====
-- The nodes as a reader shows them, behind `blockParseRSstatus` (rpc/glfs-operations.c).
use gluster_block.Prelude.{◌≡◌, refl, ap, suc, none, some, List, [], ◌∷◌, map, arith, length}
use gluster_block.Text.{Text, after_char, before_char}
use gluster_block.Meta.{NodeInfo, parse_rs_node, rs_nodes}

-- The status that a reader shows: "RSSUCCESS-4096" is "RSSUCCESS".
unfoldable pub shown : Text → Text
shown st = elim (after_char b'-' st) [ none ↦ st | some _ ↦ before_char b'-' st ]

pub status-parse_rs_node : (n : NodeInfo) → (parse_rs_node n).status ≡ shown n.status
unfolding parse_rs_node shown
status-parse_rs_node n = ground arith

pub addr-parse_rs_node : (n : NodeInfo) → (parse_rs_node n).addr ≡ n.addr
unfolding parse_rs_node
addr-parse_rs_node n = ground arith

pub rs_nodes-map : (ns : List NodeInfo) → rs_nodes ns ≡ map parse_rs_node ns
unfolding rs_nodes
rs_nodes-map [] = refl
rs_nodes-map (n ∷ ns) = ap (◌∷◌ (parse_rs_node n)) (rs_nodes-map ns)

pub length-rs_nodes : (ns : List NodeInfo) → length (rs_nodes ns) ≡ length ns
unfolding rs_nodes
length-rs_nodes [] = refl
length-rs_nodes (n ∷ ns) = ap suc (length-rs_nodes ns)
