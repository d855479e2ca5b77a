-- ===== src/Delete/Files.antt =====
-- The last part of `glusterBlockCleanUp` (rpc/block_delete.c): the block file, then the metadata file.
use gluster_block.Prelude.{◌≡◌, ◌≢◌, ◌↔◌, Bool, true, false, none, arith, pos, ◌⊎◌}
use gluster_block.Remote.{updated}
use gluster_block.Delete.{
  Answers, Disk, unlinked, denied, write_meta, delete_entry, delete_meta_file, delete_files,
}

-- The removal of the files returns 0 exactly if both lines were written, the block file, where it is to be
-- removed, is gone, and the metadata file could be unlinked.
pub delete_files_iff :
    (a : Answers) (unlink : Bool) (d : Disk)
    → ((delete_files a unlink d).0 ≡ pos 0) ↔ (
        (a.doing ≡ updated)
        × ((unlink ≡ false) ⊎ (a.unlink_entry ≢ denied))
        × (a.succeeded ≡ updated)
        × (a.unlink_meta ≡ unlinked))
unfolding delete_files write_meta delete_entry delete_meta_file
delete_files_iff a unlink d = (λ h. ground arith, λ h. ground arith)

-- The metadata file is there as long as the removal has not returned 0, and is gone when it has.
delete_files-meta :
    (a : Answers) (unlink : Bool) (d : Disk)
    → (delete_files a unlink d).0 ≡ pos 0
    → (delete_files a unlink d).1.meta ≡ none
unfolding delete_files write_meta delete_entry delete_meta_file
delete_files-meta a unlink d h = ground arith

delete_files-entry :
    (a : Answers) (d : Disk)
    → (delete_files a true d).0 ≡ pos 0
    → a.unlink_entry ≡ unlinked
    → (delete_files a true d).1.block_file ≡ false
unfolding delete_files write_meta delete_entry delete_meta_file
delete_files-entry a d h u = ground arith
