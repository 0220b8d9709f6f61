-- ===== src/Create/Inodes.antt =====
-- The inodes that `fs_create` and `fs_mkdir` of homework.c write.
use fuse_file_system.Prelude.{ℕ, ◌+◌, ◌%◌, ◌^◌, ◌<◌, ◌≡◌, refl, true, false, arith}
use fuse_file_system.Layout.{block_size}
use fuse_file_system.Layout.RoundTrip.{FitsInode}
use fuse_file_system.Host.{Host}
use fuse_file_system.Paths.{is_dir}
use fuse_file_system.Attributes.{Stat, inode_to_stat}
use fuse_file_system.Directory.{inode_from_mode}
use fuse_file_system.Create.{with_dir_bit, new_inode}

-- The attributes of what the caller makes: its ids cut to 16 bits, and the times of two calls of the
-- clock cut to 32 bits.
abbrev pub stat_made : Host → (mode size : ℕ) → Stat
stat_made host mode size = record {
  mode = mode;
  uid = host.uid % 2 ^ 16;
  gid = host.gid % 2 ^ 16;
  size = size;
  ctime = host.time 0 % 2 ^ 32;
  mtime = host.time 1 % 2 ^ 32;
  atime = host.time 1 % 2 ^ 32;
  nlink = 1;
}

module _ (host : Host) (mode : ℕ) (small : mode < 2 ^ 32) (file : is_dir mode ≡ false) where
  pub new_file-FitsInode : FitsInode (new_inode host mode false 0)
  unfolding new_inode inode_from_mode
  new_file-FitsInode = record {
    uid = omega arith;
    gid = omega arith;
    mode = small;
    ctime = omega arith;
    mtime = omega arith;
    size = ground arith;
    ptrs = λ i. ground arith;
  }

  pub new_file-stat : inode_to_stat (new_inode host mode false 0) ≡ stat_made host mode 0
  unfolding new_inode inode_from_mode inode_to_stat
  new_file-stat = rw file refl

module _ (host : Host) (mode m : ℕ) (small : mode < 2 ^ 12) where
  pub new_folder-FitsInode : m < 2 ^ 32 → FitsInode (new_inode host mode true m)
  unfolding new_inode inode_from_mode
  new_folder-FitsInode lt = record {
    uid = omega arith;
    gid = omega arith;
    mode = ground arith;
    ctime = omega arith;
    mtime = omega arith;
    size = ground arith;
    ptrs = λ i. ground arith;
  }

  pub new_folder-is_dir : is_dir (new_inode host mode true m).mode ≡ true
  unfolding new_inode inode_from_mode
  new_folder-is_dir = ground arith

  pub new_folder-size : (new_inode host mode true m).size ≡ block_size
  unfolding new_inode inode_from_mode
  new_folder-size = ground arith

  pub new_folder-ptr : (new_inode host mode true m).ptrs 0 ≡ m
  unfolding new_inode
  new_folder-ptr = refl

  pub new_folder-stat :
      inode_to_stat (new_inode host mode true m) ≡ stat_made host (2 ^ 14 + mode) 4096
  unfolding new_inode inode_from_mode inode_to_stat
  new_folder-stat =
      let with_bit : with_dir_bit mode ≡ 2 ^ 14 + mode = ground arith in
      let directory : is_dir (2 ^ 14 + mode) ≡ true = ground arith in rw (with_bit, directory) refl
