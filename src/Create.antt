-- ===== src/Create.antt =====
-- `fs_create` and `fs_mkdir` of homework.c, by `create_directory_entry`.
pub mod Inodes
pub mod Success
pub mod Entry
pub mod Lookup
pub mod Keeps
pub mod Exists
pub mod Directories
use fuse_file_system.Prelude.{
  ℕ, ◌+◌, ◌/◌, ◌%◌, ◌^◌, Bool, true, false, List, ◌==◌, if◌then◌else◌, get_or, sub_size,
}
use fuse_file_system.Layout.{Directory, Inode, Dirent, encode_inode, encode_dir, zeros}
use fuse_file_system.State.{FsState, Action, ◌>>=◌, ◌>>◌, pure, modify}
use fuse_file_system.Host.{Host}
use fuse_file_system.Disk.{block_write}
use fuse_file_system.Bitmap.{find_first_nfree_blocks, modify_bitmap_and_writeback_to_disk}
use fuse_file_system.Paths.{CString, path_to_inode}
use fuse_file_system.Directory.{
  validate_directory_and_entry, find_free_dir_entry, inode_from_mode, get_entry_name_from_path,
  copy_name, set_entry,
}

-- `mode | __S_IFDIR`, the bit 0o040000.
abbrev pub with_dir_bit : ℕ → ℕ
with_dir_bit mode = if mode / 2 ^ 14 % 2 == 1 then mode else mode + 2 ^ 14

abbrev pub take_blocks : ℕ → FsState → FsState
take_blocks n s = record s {
  stat_vfs = record (s.stat_vfs) {
    bfree = sub_size s.stat_vfs.bfree n;
    bavail = sub_size s.stat_vfs.bavail n;
  };
}

-- The inode that is written: a directory's first pointer is its block of entries.
unfoldable pub new_inode : Host → ℕ → Bool → ℕ → Inode
new_inode host mode dirflag block =
    record (inode_from_mode host (if dirflag then with_dir_bit mode else mode)) {
      ptrs = λ i. if i == 0 then (if dirflag then block else 0) else 0;
    }

-- The entry `old` after it is given the name and the inode.
unfoldable pub new_entry : Dirent → CString → ℕ → Dirent
new_entry old filename inum = record {
  valid = 1;
  inode = inum % 2 ^ 31;
  name = copy_name old.name filename;
}

-- What follows once the parent and the blocks are known.
unfoldable pub create_entry :
    Host
    → CString
    → ℕ
    → Bool
    → (dir_block_inum : ℕ) (dir : Directory) (free_entry : ℕ) (blocks : List ℕ) → Action (Unit {0})
create_entry host path mode dirflag dir_block_inum dir free_entry blocks = do
  let inum = get_or blocks 0 0
  let entries_inum = get_or blocks 1 0
  block_write (encode_inode (new_inode host mode dirflag entries_inum)) inum
  filename ← get_entry_name_from_path path
  block_write (encode_dir (set_entry dir free_entry (new_entry (dir free_entry) filename inum)))
      dir_block_inum
  if dirflag then block_write zeros entries_inum else pure tt
  modify (take_blocks (if dirflag then 2 else 1))
  modify_bitmap_and_writeback_to_disk blocks true

unfoldable pub create_directory_entry : Host → CString → ℕ → Bool → Action (Unit {0})
create_directory_entry host path mode dirflag = do
  (dir_inum, dir_inode) ← path_to_inode path 1
  dir ← validate_directory_and_entry path dir_inode
  free_entry ← find_free_dir_entry dir 0
  blocks ← find_first_nfree_blocks 0 (if dirflag then 2 else 1)
  create_entry host path mode dirflag (dir_inode.ptrs 0) dir free_entry blocks

unfoldable pub fs_create : Host → CString → ℕ → Action (Unit {0})
fs_create host path mode = create_directory_entry host path mode false

unfoldable pub fs_mkdir : Host → CString → ℕ → Action (Unit {0})
fs_mkdir host path mode = create_directory_entry host path mode true
