-- ===== src/Meta/Journal.antt =====
-- The journal of a block, as the lines about its hosts: what a reader of the file knows of each host
-- (`blockStuffMetaInfo`, rpc/glfs-operations.c), also when the threads of several hosts write to the
-- file at the same time (the `...Remote` functions of rpc/block_*.c under the lock of
-- `GB_METAUPDATE_OR_GOTO`, utils/utils.h).
use gluster_block.Prelude.{◌≡◌, ◌∙◌, refl, ap, Option, some, List, [], ◌∷◌, map, if◌then◌else◌, All}
use gluster_block.Text.{Text, str_eq}
use gluster_block.Meta.{NodeInfo, MetaInfo, ok, record_status}
use gluster_block.Meta.Nodes.{Distinct, status_of, status_of-record_status, record_status-Distinct}
use gluster_block.Meta.Lines.{
  host_line, IsHost, IsStatusText, IsHost-Fits, stuff_lines, stuff-host_line,
}

-- One line about a host.
pub record Entry : Type 0 where
  pub host : Text
  pub status : Text

pub record IsEntry (e : Entry) : Type 0 where
  pub host : IsHost e.host
  pub status : IsStatusText e.status

abbrev pub entry_line : Entry → Text
entry_line e = host_line e.host e.status

-- The status that the last line about a host gives, or else the one from before.
unfoldable pub last_status : Text → List Entry → Option Text → Option Text
last_status h [] old = old
last_status h (e ∷ es) old = last_status h es (if str_eq e.host h then some e.status else old)

-- The nodes after the lines.
unfoldable pub journal : List Entry → List NodeInfo → List NodeInfo
journal [] ns = ns
journal (e ∷ es) ns = journal es (record_status e.host e.status ns)

pub stuff_lines-journal :
    (es : List Entry) (info : MetaInfo)
    → All IsEntry es
    → stuff_lines (map entry_line es) info ≡ ok (record info { nodes = journal es info.nodes })
unfolding stuff_lines journal
stuff_lines-journal [] info h = refl
stuff_lines-journal (e ∷ es) info h =
    rw (stuff-host_line info e.host e.status h.0.host) (
      stuff_lines-journal es (record info { nodes = record_status e.host e.status info.nodes }) h.1)

pub status_of-journal :
    (h : Text) (es : List Entry) (ns : List NodeInfo)
    → All IsEntry es
    → status_of h (journal es ns) ≡ last_status h es (status_of h ns)
unfolding journal last_status
status_of-journal h [] ns v = refl
status_of-journal h (e ∷ es) ns v =
    status_of-journal h es (record_status e.host e.status ns) v.1
    ∙ ap (last_status h es)
        (status_of-record_status e.host e.status h ns (IsHost-Fits v.0.host v.0.status))

pub journal-Distinct :
    (es : List Entry) (ns : List NodeInfo) → All IsEntry es → Distinct ns → Distinct (journal es ns)
unfolding journal
journal-Distinct [] ns v d = d
journal-Distinct (e ∷ es) ns v d =
    journal-Distinct es (record_status e.host e.status ns) v.1
      (record_status-Distinct e.host e.status ns (IsHost-Fits v.0.host v.0.status) d)

-- A run of well-formed lines about hosts is read without a fault, leaves all other fields alone, keeps the
-- addresses distinct, and gives each host the status of its last line, and the status that it had
-- before if no line is about it.
pub stuff_lines_statuses :
    (es : List Entry) (info : MetaInfo) (h : Text)
    → All IsEntry es
    → Distinct info.nodes
    → (ns : List NodeInfo) × (stuff_lines (map entry_line es) info
        ≡ ok (record info { nodes = ns }))
      × Distinct ns
      × (status_of h ns ≡ last_status h es (status_of h info.nodes))
stuff_lines_statuses es info h v d = (
  journal es info.nodes,
  stuff_lines-journal es info v,
  journal-Distinct es info.nodes v d,
  status_of-journal h es info.nodes v,
)
