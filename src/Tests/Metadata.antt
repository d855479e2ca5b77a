-- ===== src/Tests/Metadata.antt =====
-- The reader and the journal at a small metadata file (rpc/glfs-operations.c).
use gluster_block.Prelude.{
  ◌<◌, ◌≤◌, ◌≡◌, ◌↔◌, none, some, List, [], ◌∷◌, ◌++◌, map, All, arith, length,
}
use gluster_block.Text.{codes}
use gluster_block.Enums.Status
use gluster_block.Enums.Status.{status_name, status_parse, status_parse_iff}
use gluster_block.Meta.{NodeInfo, ok, ◌>>=◌, parse_rs_status, blank_info}
use gluster_block.Meta.Nodes.{Distinct, status_of}
use gluster_block.Meta.Lines.{stuff_lines}
use gluster_block.Meta.Journal.{
  Entry, IsEntry, entry_line, last_status, journal, stuff_lines_statuses,
}
use gluster_block.Meta.Read.{render, get_meta_info, get_meta_info-render}
use gluster_block.Meta.File.{get_meta_info-appended, status_name-IsStatusText}
use gluster_block.Meta.Servers.{
  meta_info_to_servers, meta_info_to_servers_lem, get_list_from_info, get_list_from_info_lem,
  valid_addrs,
}
use gluster_block.Tests.Sample.{
  h1, h2, h1-IsHost, h2-IsHost, lines, raw, lines-IsLine, raw-Distinct, lines-IsFile,
}

abbrev trying : Entry
trying = record { host = h1; status = status_name Status.cleanup_inprogress }

abbrev cleaned : Entry
cleaned = record { host = h1; status = status_name Status.cleanup_success }

abbrev trying_h2 : Entry
trying_h2 = record { host = h2; status = status_name Status.config_inprogress }

abbrev writes : List Entry
writes = trying ∷ trying_h2 ∷ cleaned ∷ []

writes-IsEntry : All IsEntry writes
writes-IsEntry = (
  record { host = h1-IsHost; status = status_name-IsStatusText Status.cleanup_inprogress },
  (
    record { host = h2-IsHost; status = status_name-IsStatusText Status.config_inprogress },
    (record { host = h1-IsHost; status = status_name-IsStatusText Status.cleanup_success }, tt),
  ),
)

get_meta_info-render_example :
    get_meta_info (some (render lines)) 4 [] blank_info
    ≡ (stuff_lines lines blank_info >>= λ info. ok (parse_rs_status info))
get_meta_info-render_example = get_meta_info-render lines 4 [] blank_info lines-IsLine (omega arith)

stuff_lines_statuses_example :
    (ns : List NodeInfo) × (stuff_lines (map entry_line writes) raw
      ≡ ok (record raw { nodes = ns }))
    × Distinct ns
    × (status_of h1 ns ≡ last_status h1 writes (status_of h1 raw.nodes))
stuff_lines_statuses_example = stuff_lines_statuses writes raw h1 writes-IsEntry raw-Distinct

get_meta_info-appended_example :
    get_meta_info (some (render lines ++ render (map entry_line writes))) 7 [] blank_info
    ≡ ok (parse_rs_status (record raw { nodes = journal writes raw.nodes }))
get_meta_info-appended_example =
    get_meta_info-appended writes 7 [] lines-IsFile writes-IsEntry (omega arith)

meta_info_to_servers_example :
    meta_info_to_servers raw
    ≡ some (record { written = valid_addrs raw.nodes; slots = length (valid_addrs raw.nodes) })
meta_info_to_servers_example = meta_info_to_servers_lem raw

-- Two nodes, one of them valid, and an array for one.
get_list_from_info_example :
    (length (valid_addrs raw.nodes) ≤ 2
      → get_list_from_info raw ≡ some (record { written = valid_addrs raw.nodes; slots = 2 }))
    × (2 < length (valid_addrs raw.nodes) → get_list_from_info raw ≡ none)
get_list_from_info_example = get_list_from_info_lem raw

status_parse_iff_example :
    (status_parse (some (codes "RSSUCCESS")) ≡ some Status.rs_success)
    ↔ (codes "RSSUCCESS" ≡ status_name Status.rs_success)
status_parse_iff_example = status_parse_iff (codes "RSSUCCESS") Status.rs_success
