-- ===== src/Attributes.antt =====
-- `fs_getattr`, `fs_chmod` and `fs_utime` of homework.c.
pub mod Rewrite
pub mod Change
use fuse_file_system.Prelude.{ℕ, ◌+◌, ◌*◌, ◌/◌, ◌%◌, ◌^◌, not, extend}
use fuse_file_system.Layout.{Inode, encode_inode}
use fuse_file_system.State.{eisdir, Action, ◌>>=◌, ◌>>◌, pure, fail_if}
use fuse_file_system.Disk.{block_write}
use fuse_file_system.Paths.{CString, is_reg, path_to_inode}

-- The fields of `struct stat` that `inode_to_stat` sets.
pub record Stat : Type 0 where
  pub mode : ℕ
  pub uid : ℕ
  pub gid : ℕ
  pub size : ℕ
  pub ctime : ℕ
  pub mtime : ℕ
  pub atime : ℕ
  pub nlink : ℕ

unfoldable pub inode_to_stat : Inode → Stat
inode_to_stat n = record {
  mode = n.mode;
  uid = n.uid;
  gid = n.gid;
  size = extend n.size;
  ctime = n.ctime;
  mtime = n.mtime;
  atime = n.mtime;
  nlink = 1;
}

unfoldable pub fs_getattr : CString → Action Stat
fs_getattr path = do (inum, n) ← path_to_inode path 0; pure (inode_to_stat n)

-- `(finode->mode & ~0777) | (mode & 0777)`
abbrev pub with_permissions : (old mode : ℕ) → ℕ
with_permissions old mode = old / 2 ^ 9 * 2 ^ 9 + mode % 2 ^ 9

unfoldable pub fs_chmod : CString → ℕ → Action (Unit {0})
fs_chmod path mode = do
  (inum, n) ← path_to_inode path 0
  block_write (encode_inode (record n { mode = with_permissions n.mode mode })) inum

-- `modtime` is `ut->modtime`, a `time_t`, cut to 32 bits by the store.
unfoldable pub fs_utime : CString → ℕ → Action (Unit {0})
fs_utime path modtime = do
  (inum, n) ← path_to_inode path 0
  fail_if (not (is_reg n.mode)) eisdir
  block_write (encode_inode (record n { mtime = modtime % 2 ^ 32 })) inum
