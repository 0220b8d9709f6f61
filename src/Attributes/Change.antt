-- ===== src/Attributes/Change.antt =====
-- `fs_chmod` and `fs_utime` of homework.c, seen through `fs_getattr`.
use fuse_file_system.Prelude.{ℕ, ◌+◌, ◌-◌, ◌%◌, ◌^◌, ◌≡◌, refl, true, arith, extend}
use fuse_file_system.Layout.{Inode, encode_inode}
use fuse_file_system.Layout.RoundTrip.{FitsBlock, FitsInode, decode_inode-FitsInode}
use fuse_file_system.State.{FsState, ok}
use fuse_file_system.Disk.Laws.{block_write-ok}
use fuse_file_system.Paths.{CString, is_reg}
use fuse_file_system.Attributes.{inode_to_stat, with_permissions, fs_getattr, fs_chmod, fs_utime}
use fuse_file_system.Attributes.Rewrite.{IsTarget, path_to_target, getattr_rewritten}
use fuse_file_system.Volume.{IsVolume, inode_at}
use fuse_file_system.Volume.Keeps.{with_block-IsVolume}

pub with_permissions_lem :
    (old mode : ℕ) → with_permissions old mode ≡ old - old % 2 ^ 9 + mode % 2 ^ 9
with_permissions_lem old mode = omega arith

-- The inode with the permissions of `mode`.
abbrev pub chmod_inode : Inode → ℕ → Inode
chmod_inode n mode = record n { mode = n.mode - n.mode % 2 ^ 9 + mode % 2 ^ 9 }

abbrev pub utime_inode : Inode → ℕ → Inode
utime_inode n modtime = record n { mtime = modtime % 2 ^ 32 }

-- The new inode fits its block.
pub chmod_inode-FitsInode : (n : Inode) (mode : ℕ) → FitsInode n → FitsInode (chmod_inode n mode)
chmod_inode-FitsInode n mode f = record {
  uid = f.uid;
  gid = f.gid;
  mode = omega (arith, f.mode);
  ctime = f.ctime;
  mtime = f.mtime;
  size = f.size;
  ptrs = f.ptrs;
}

pub utime_inode-FitsInode :
    (n : Inode) (modtime : ℕ) → FitsInode n → FitsInode (utime_inode n modtime)
utime_inode-FitsInode n modtime f = record {
  uid = f.uid;
  gid = f.gid;
  mode = f.mode;
  ctime = f.ctime;
  mtime = omega arith;
  size = f.size;
  ptrs = f.ptrs;
}

module _ {s : FsState} {path : CString} {i : ℕ} (v : IsVolume s) (h : IsTarget s path i)
    (bytes : FitsBlock (s.image.block i)) where
  -- `fs_chmod` of a path that the walk resolves without reading the inode's block returns 0 and
  -- keeps the volume in order; `fs_getattr` then reports the low nine bits of the mode under the
  -- other bits of the old one, and the ids, the size and the times of the inode, its modification
  -- time also as access time.
  pub chmod_then_getattr :
      (mode : ℕ)
      → let (r, s') = fs_chmod path mode s in
        (r ≡ ok tt)
        × IsVolume s'
        × (fs_getattr path s' ≡ (
          ok (record {
            mode = (inode_at s i).mode - (inode_at s i).mode % 2 ^ 9 + mode % 2 ^ 9;
            uid = (inode_at s i).uid;
            gid = (inode_at s i).gid;
            size = extend (inode_at s i).size;
            ctime = (inode_at s i).ctime;
            mtime = (inode_at s i).mtime;
            atime = (inode_at s i).mtime;
            nlink = 1;
          }),
          s',
        ))
  unfolding fs_chmod inode_to_stat
  chmod_then_getattr mode =
      let n = chmod_inode (inode_at s i) mode in
      rw
        (
          path_to_target v h,
          with_permissions_lem (inode_at s i).mode mode,
          block_write-ok {s = s} (v.on_disk i h.below) (encode_inode n)
              (omega (arith, h.not_super)),
        )
        (
          refl,
          with_block-IsVolume i _ h.not_bitmap v,
          getattr_rewritten v h n (chmod_inode-FitsInode _ mode (decode_inode-FitsInode bytes)),
        )

  -- `fs_utime` of a regular file returns 0 and keeps the volume in order; `fs_getattr` then
  -- reports the low 32 bits of the new modification time, also as access time, and the mode, the
  -- ids, the size and the change time of the inode.
  pub utime_then_getattr :
      (modtime : ℕ)
      → is_reg (inode_at s i).mode ≡ true
      → let (r, s') = fs_utime path modtime s in
        (r ≡ ok tt)
        × IsVolume s'
        × (fs_getattr path s' ≡ (
          ok (record {
            mode = (inode_at s i).mode;
            uid = (inode_at s i).uid;
            gid = (inode_at s i).gid;
            size = extend (inode_at s i).size;
            ctime = (inode_at s i).ctime;
            mtime = modtime % 2 ^ 32;
            atime = modtime % 2 ^ 32;
            nlink = 1;
          }),
          s',
        ))
  unfolding fs_utime inode_to_stat
  utime_then_getattr modtime reg =
      let n = utime_inode (inode_at s i) modtime in
      rw
        (
          path_to_target v h,
          reg,
          block_write-ok {s = s} (v.on_disk i h.below) (encode_inode n)
              (omega (arith, h.not_super)),
        )
        (
          refl,
          with_block-IsVolume i _ h.not_bitmap v,
          getattr_rewritten v h n (utime_inode-FitsInode _ modtime (decode_inode-FitsInode bytes)),
        )
