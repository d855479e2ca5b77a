-- ===== src/Lib.antt =====
-- A model of the core of gluster-block, the daemon that keeps block devices as files on a
-- gluster volume and exports them from several hosts. For each block the volume holds a metadata
-- file, a journal of lines `KEY: value` and `host: STATUS`; every operation reads it, starts one
-- thread for each host, lets the threads append their lines and acts on the exit codes.
--
-- Prelude has the shared helpers over native numbers; Prelude/Int is a C int as far as return
-- values need it. Text has C strings as lists of bytes, `gbStrcpy` (utils/utils.c), and in
-- Text/Decimal `%zu` of printf and sscanf.
--
-- Enums and its modules are the lookup tables of utils/utils.h and utils/capabilities.h with
-- their parsers (utils/utils.c, utils/capabilities.c): Status, Key, Level, Daemon, Options,
-- Command and Cap. The parsers return an Option in place of the index behind the last one.
--
-- Meta is `NodeInfo`, `MetaInfo` (rpc/glfs-operations.h), `blockStuffMetaInfo` and
-- `blockParseRSstatus` (rpc/glfs-operations.c). A result is `ok`, `fail` for a nonzero return
-- value, or `crash` for a read through a null pointer or past an array. Meta/Nodes, Meta/Lines
-- and Meta/Journal have the laws of lines about hosts, Meta/Merge those of threads that write at
-- the same time, Meta/Restamp those of lines about known hosts, Meta/Shown the statuses as a
-- reader shows them. Meta/Read is `blockGetMetaInfo` over the bytes of the file and its array of
-- 1024 bytes; the number of reads that succeed is an argument and is the fuel of the loop: a
-- file of n short lines takes n + 1 reads, and each theorem about the reader asks for that many.
-- Meta/File is a file that the daemon has written. Meta/Servers is `blockhostIsValid`
-- (utils/common.c), `blockMetaInfoToServerParse`, `glusterBlockGetListFromInfo` and
-- `blockGetHostStatus` (rpc/block_svc_routines.c). Meta/Valid is `blockParseValidServers`
-- (rpc/glfs-operations.c), with the reads as its fuel like Meta/Read.
--
-- Remote is `GB_METAUPDATE_OR_GOTO` (utils/utils.h) and the threads `glusterBlockCreateRemote`,
-- `glusterBlockDeleteRemote`, `glusterBlockModifyRemote`, `glusterBlockModifySizeRemote` and
-- `glusterBlockReplacePortalRemote` (rpc/block_create.c, rpc/block_delete.c, rpc/block_modify.c,
-- rpc/block_replace.c). What gfapi and the remote call answer is a script, an argument. Lock is
-- `GB_METAUNLOCK` (utils/utils.h), with which the five handlers end; whether the volume is
-- opened and the lock taken is an argument of each. Remote/Laws has what they write and return,
-- Remote/Sizes the sizes in the statuses of a resize, Remote/Collect is
-- `glusterBlockCollectAttemptSuccess` (rpc/block_svc_routines.c).
--
-- Delete is `glusterBlockDeleteFillArgs`, `glusterBlockDeleteRemoteAsync` and
-- `glusterBlockCleanUp` (rpc/block_delete.c) with `glusterBlockDeleteEntry` and
-- `glusterBlockDeleteMetaFile` (rpc/glfs-operations.c), over the two files of a block.
-- Delete/Threads and Delete/Async follow the threads of one delete through the journal,
-- Delete/Count and Delete/Gone the counts behind them, Delete/Files the unlinks, Delete/Safety
-- puts them together; Delete/Cli is the handler `block_delete_cli_1_svc_st`, and Delete/Counted
-- says when it counts a block off. Prio has the counters of blocks per host, `blockGetPrioPath`,
-- `blockIncPrioAttr` and `blockDecPrioAttr` (rpc/glfs-operations.c), with the counters as
-- numbers in Prio/Counters and the choice of a host in Prio/Least. Create is
-- `glusterBlockCreateRemoteAsync` and `glusterBlockAuditRequest` (rpc/block_create.c) with the
-- roll-back of a create that fell short; Create/Audit has their laws, Create/Count and
-- Create/Success follow the threads of a create that succeeds. Create/Hosts is
-- `blockServerParse`, Create/Cli the handler `block_create_cli_1_svc_st`, which prints its
-- 32-bit fields as `%d` and `%u` do, and the size of the storage file if the request names one;
-- Create/Header and Create/Lines have what the lines that it writes are read to, Create/Steps
-- and Create/Whole a create for which everything goes well: its metadata has at most 11 lines
-- about the block and those of the threads, and the audit is given one read more.
--
-- Modify is `glusterBlockModifyArgsFill`, `glusterBlockModifyRemoteAsync` and
-- `block_modify_cli_1_svc_st` (rpc/block_modify.c); what the volume, the hosts and the
-- capability check answer is a record of arguments. Modify/Settled follows the threads,
-- Modify/Reach says how far the handler comes, Modify/Exit what its exit code means,
-- Modify/Password and Modify/Reread what the file holds afterwards, and Modify/Undone what the
-- unwinding leaves. Resize is `glusterBlockModifySizeArgsFill`,
-- `glusterBlockModifySizeRemoteAsync`, `glusterBlockIsResizeFailed` and
-- `block_modify_size_cli_1_svc_st` in the same way. Remote/Fleet and Remote/Reread have what the
-- threads of delete, create, Modify and Resize share: one thread for each node that is picked,
-- and the file that is read anew. A status takes 31 bytes, so that a size behind a status is
-- bounded by 10^18.
--
-- Replace is the driver `glusterBlockReplaceNodeRemoteAsync` (rpc/block_replace.c) with its
-- array of mpath + 1 slots, Replace/Response the answers of `blockReplaceNodeCliFormatResponse`,
-- and Replace/Cli the handler `block_replace_cli_1_svc_st`. Replace/Slots has what the fill
-- leaves in the array, Replace/Steps and Replace/Settled follow the threads through the journal,
-- Replace/First is the driver on a block that serves, Replace/Whole a replace for which
-- everything goes well, Replace/Refused the requests that are turned down, and Replace/Verdict
-- what is reported. Meta/Known says what a reader knows of a host, and Meta/Restamp/Grown what
-- lines about one new host do to the nodes.
--
-- Caps is the capability check of rpc/block_version.c; `RPC_PROCUNAVAIL` of the RPC library is
-- an argument. Caps/Ask asks the hosts and is `glusterBlockCheckCapabilities`; Caps/Check and
-- Caps/Lacking have what the comparison decides. An error message is a value that says which
-- host and which capability it names. Size is `glusterBlockParseSize` and the loop of
-- `glusterBlockFormatSize` (utils/common.c); strtod of the C library is an argument, and seven
-- rounds of fuel are enough for 64 bits. Config/Buffer is the reader of the configuration file,
-- `glusterBlockReadConfig` with its buffer, and Config its parser, `glusterBlockParseOption` and
-- `glusterBlockParseOptions` (utils/dyn-config.c), with atoi of the C library as an argument;
-- its loop has rounds for fuel, one for each line, and Config/Settings has what a file of quoted
-- settings is parsed to. Lru is the cache of open volumes (utils/lru.c); a handle is a number,
-- and closing one appends it to a list. Tests has the theorems at concrete inputs.
--
-- Not modelled: a failed allocation, the log, the text of the responses, time and signals;
-- threads interleave by whole lines, because a line is written under a lock. What the hosts run
-- for a create, a switch, a resize, a replace or a delete (calls of targetcli), the response
-- texts but for those of a replace, the reload and genconfig drivers, the command line, the
-- daemon, and the watcher of the configuration file are left out.
pub mod Prelude
pub mod Text
pub mod Enums
pub mod Meta
pub mod Remote
pub mod Caps
pub mod Lock
pub mod Lru
pub mod Size
pub mod Delete
pub mod Create
pub mod Modify
pub mod Resize
pub mod Replace
pub mod Config
pub mod Prio
pub mod Tests
