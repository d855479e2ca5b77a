-- ===== src/Meta.antt =====
-- The metadata of a block, `NodeInfo` and `MetaInfo` (rpc/glfs-operations.h), and what one line of
-- its journal does to them, `blockStuffMetaInfo` (rpc/glfs-operations.c). The laws of the journal,
-- the reader of the file and the server lists are in the modules below.
pub mod Nodes
pub mod Shown
pub mod Lines
pub mod Journal
pub mod Merge
pub mod Restamp
pub mod Known
pub mod Read
pub mod File
pub mod Servers
pub mod Valid
use gluster_block.Prelude.{
  ℕ, ◌+◌, Option, none, some, List, [], ◌∷◌, ◌++◌, ◌==◌, ◌-◌, ◌^◌, if◌then◌else◌, ltb, ℤ, pos,
  negsuc,
}
use gluster_block.Text.{Text, str_eq, after_char, before_char, first_token, str_cpy}
use gluster_block.Text.Decimal.{scan_zu}
use gluster_block.Enums.Key
use gluster_block.Enums.Key.{MetaKey, key_parse}

pub record NodeInfo : Type 0 where
  pub addr : Text
  pub st_journal : List Text
  pub status : Text
  pub size : ℤ

pub record MetaInfo : Type 0 where
  pub volume : Text
  pub gbid : Text
  pub size : ℕ
  pub initial_size : ℕ
  pub rb_size : ℕ
  pub blk_size : ℕ
  pub io_timeout : ℕ
  pub prio_path : Text
  pub mpath : ℕ
  pub entry : Text
  pub passwd : Text
  pub nodes : List NodeInfo

-- What calloc returns.
abbrev pub blank_info : MetaInfo
blank_info = record {
  volume = [];
  gbid = [];
  size = 0;
  initial_size = 0;
  rb_size = 0;
  blk_size = 0;
  io_timeout = 0;
  prio_path = [];
  mpath = 0;
  entry = [];
  passwd = [];
  nodes = [];
}

-- `fail` is a nonzero return value; `crash` is a read through a null pointer or past an array.
pub data Outcome {ℓ} (A : Type ℓ) : Type ℓ where
  ok : A → Outcome A
  fail : Outcome A
  crash : Outcome A

infixl 5 ◌>>=◌
abbrev pub ◌>>=◌ {ℓ κ} : {A : Type ℓ} {B : Type κ} → Outcome A → (A → Outcome B) → Outcome B
ok a >>= f = f a
fail >>= f = fail
crash >>= f = crash

abbrev pub addr_size : ℕ
addr_size = 255

abbrev pub status_size : ℕ
status_size = 32

-- The default case: the host's new status, in a node of its own if the host is new.
unfoldable pub record_status : Text → Text → List NodeInfo → List NodeInfo
record_status host st [] =
    record {
      addr = str_cpy addr_size host [];
      st_journal = st ∷ [];
      status = str_cpy status_size st [];
      size = pos 0;
    }
    ∷ []
record_status host st (n ∷ ns) =
    let rest = record_status host st ns in
    if str_eq n.addr host
    then record n { status = str_cpy status_size st n.status; st_journal = n.st_journal ++ st ∷ [] }
      ∷ ns
    else n ∷ rest

-- `sscanf(s, "%zu", &old)`: a text with no number leaves the field as it was.
abbrev assign_zu : Text → ℕ → ℕ
assign_zu s old = elim (scan_zu s) [ none ↦ old | some n ↦ n ]

-- The switch on the key. `arg` is what follows the first space of the line.
by_key : Option MetaKey → MetaInfo → Text → Text → MetaInfo
by_key (some Key.volume) info opt arg = record info { volume = str_cpy 255 arg info.volume }
by_key (some Key.gbid) info opt arg = record info { gbid = str_cpy 38 arg info.gbid }
by_key (some Key.size) info opt arg =
    let n = assign_zu arg info.size in
    record info { size = n; initial_size = if info.initial_size == 0 then n else info.initial_size }
by_key (some Key.ringbuffer) info opt arg = record info { rb_size = assign_zu arg info.rb_size }
by_key (some Key.io_timeout) info opt arg = record info {
  io_timeout = assign_zu arg info.io_timeout;
}
by_key (some Key.blksize) info opt arg = record info { blk_size = assign_zu arg info.blk_size }
by_key (some Key.ha) info opt arg = record info { mpath = assign_zu arg info.mpath }
by_key (some Key.entrycreate) info opt arg = record info { entry = str_cpy 16 arg info.entry }
by_key (some Key.passwd) info opt arg = record info { passwd = str_cpy 38 arg info.passwd }
by_key (some Key.priopath) info opt arg = record info { prio_path = str_cpy 255 arg info.prio_path }
by_key (some Key.entrydelete) info opt arg = record info {
  nodes = record_status opt arg info.nodes;
}
by_key none info opt arg = record info { nodes = record_status opt arg info.nodes }

-- `strchr(line, ' ') + 1` is read whatever the key is.
stuff_arg : MetaInfo → Text → Option Text → Outcome MetaInfo
unfolding by_key
stuff_arg info opt none = crash
stuff_arg info opt (some arg) = ok (by_key (key_parse (some opt)) info opt arg)

unfoldable pub stuff_meta_info : MetaInfo → Text → Outcome MetaInfo
unfolding stuff_arg
stuff_meta_info info line = elim (first_token b':' line) [
  | none ↦ fail
  | some opt ↦ stuff_arg info opt (after_char b' ' line)
]

-- A 64-bit pattern read as `ssize_t`.
abbrev pub ssize_of : ℕ → ℤ
ssize_of n = if ltb n (2 ^ 63) then pos n else negsuc (2 ^ 64 - 1 - n)

-- `sscanf(s, "%zu", &old)` into an `ssize_t`.
abbrev assign_ssize : Text → ℤ → ℤ
assign_ssize s old = elim (scan_zu s) [ none ↦ old | some n ↦ ssize_of n ]

-- `blockParseRSstatus`: a status "RSSUCCESS-4096" becomes the status "RSSUCCESS" and the size 4096.
unfoldable pub parse_rs_node : NodeInfo → NodeInfo
parse_rs_node n = elim (after_char b'-' n.status) [
  | none ↦ n
  | some s ↦ record n { status = before_char b'-' n.status; size = assign_ssize s n.size }
]

unfoldable pub rs_nodes : List NodeInfo → List NodeInfo
rs_nodes [] = []
rs_nodes (n ∷ ns) = parse_rs_node n ∷ rs_nodes ns

unfoldable pub parse_rs_status : MetaInfo → MetaInfo
unfolding rs_nodes parse_rs_node
parse_rs_status info = record info { nodes = rs_nodes info.nodes }
