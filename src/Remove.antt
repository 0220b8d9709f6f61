-- ===== src/Remove.antt =====
-- `fs_unlink` and `fs_rmdir` of homework.c.
pub mod Unlink
pub mod Gone
pub mod Rmdir
pub mod Emptied
use fuse_file_system.Prelude.{ℕ, ◌+◌, false, not, [], ◌∷◌, ◌++◌, ◌==◌, add_size, is_negative}
use fuse_file_system.Layout.{Directory, decode_dir, encode_dir}
use fuse_file_system.State.{
  FsState, enotdir, enotempty, Action, ◌>>=◌, ◌>>◌, pure, modify, fail_if, crash_if,
}
use fuse_file_system.Disk.{block_read, block_write}
use fuse_file_system.Bitmap.{modify_bitmap_and_writeback_to_disk}
use fuse_file_system.Paths.{CString, is_dir, path_to_inode}
use fuse_file_system.Content.{file_blocks, collect_ptrs}
use fuse_file_system.Directory.{
  find_free_dir_entry, find_index_in_dir, get_entry_name_from_path, set_entry,
}

abbrev pub invalidate : Directory → ℕ → Directory
invalidate dir i = set_entry dir i (record (dir i) { valid = 0 })

unfoldable pub unlink_directory_entry : CString → Action (Unit {0})
unlink_directory_entry path = do
  (dir_inum, dir_inode) ← path_to_inode path 1
  d ← block_read (dir_inode.ptrs 0)
  entryname ← get_entry_name_from_path path
  i ← find_index_in_dir entryname (decode_dir d)
  block_write (encode_dir (invalidate (decode_dir d) i)) (dir_inode.ptrs 0)

abbrev pub give_blocks : ℕ → FsState → FsState
give_blocks n s = record s {
  stat_vfs = record (s.stat_vfs) {
    bfree = add_size s.stat_vfs.bfree n;
    bavail = add_size s.stat_vfs.bavail n;
  };
}

-- A negative count makes the array of blocks too small for what is stored in it.
unfoldable pub fs_unlink : CString → Action (Unit {0})
fs_unlink path = do
  (inum, n) ← path_to_inode path 0
  let count = file_blocks n.size
  crash_if (is_negative count)
  ptrs ← collect_ptrs n count 0
  unlink_directory_entry path
  modify_bitmap_and_writeback_to_disk (ptrs ++ (inum ∷ [])) false
  modify (give_blocks (count + 1))

-- The inode and the block of entries of the directory at `path`.
unfoldable pub check_dir_empty : CString → Action (ℕ × ℕ)
check_dir_empty path = do
  (inum, n) ← path_to_inode path 0
  fail_if (not (is_dir n.mode)) enotdir
  d ← block_read (n.ptrs 0)
  free_entry ← find_free_dir_entry (decode_dir d) 0
  fail_if (not (free_entry == 0)) enotempty
  pure (inum, n.ptrs 0)

unfoldable pub fs_rmdir : CString → Action (Unit {0})
fs_rmdir path = do
  (inum, block) ← check_dir_empty path
  unlink_directory_entry path
  modify_bitmap_and_writeback_to_disk (inum ∷ block ∷ []) false
  modify (give_blocks 2)
