-- ===== src/Mount.antt =====
-- `fs_init` and `fs_statfs` of homework.c.
pub mod Opens
use fuse_file_system.Prelude.{ℕ, ◌+◌, leb, sub_int}
use fuse_file_system.Layout.{Block, Super, decode_super, decode_inode, block_size}
use fuse_file_system.State.{
  FsState, Statvfs, Result, ok, err, fault, Action, ◌>>=◌, ◌>>◌, gets, modify, crash_if,
}
use fuse_file_system.Disk.{block_read}
use fuse_file_system.Bitmap.{bitmap_bits, count_free}
use fuse_file_system.Paths.{CString, max_name_len}

abbrev pub statvfs_of : Super → Block → Statvfs
statvfs_of sb map = record {
  bsize = block_size;
  blocks = sub_int sb.disk_size 2;
  bfree = count_free map sb.disk_size 0;
  bavail = count_free map sb.disk_size 0;
  namemax = max_name_len;
}

-- `status` is unsigned, so `status < 0` never holds and a failed read is not noticed: the global
-- keeps what it held.
abbrev pub loaded :
    (Block → FsState → FsState) → Result Block × FsState → Result (Unit {0}) × FsState
loaded store (ok b, s) = (ok tt, store b s)
loaded store (err e, s) = (ok tt, s)
loaded store (fault, s) = (fault, s)

abbrev pub load : ℕ → (Block → FsState → FsState) → Action (Unit {0})
load lba store s = loaded store (block_read lba s)

-- The bits of blocks behind the bitmap's end are read out of range.
unfoldable pub fs_init : Action (Unit {0})
fs_init = do
  load 0 (λ b s. record s { superblock = decode_super b })
  load 1 (λ b s. record s { bitmap = b })
  load 2 (λ b s. record s { root_inode = decode_inode b })
  crash_if (leb (bitmap_bits + 1) (← gets (λ s. s.superblock.disk_size)))
  modify (λ s. record s { stat_vfs = statvfs_of s.superblock s.bitmap })

unfoldable pub fs_statfs : CString → Action Statvfs
fs_statfs path = gets (λ s. s.stat_vfs)
