-- ===== src/Volume.antt =====
-- A mounted file system: what `fs_init` sets up, and what each operation that allocates or frees
-- blocks has to keep.
pub mod Keeps
use fuse_file_system.Prelude.{ℕ, ◌≤◌, ◌<◌, ◌≡◌, ◌≢◌, true}
use fuse_file_system.Layout.{Inode, Directory, decode_inode, decode_dir}
use fuse_file_system.Layout.RoundTrip.{FitsBlock}
use fuse_file_system.State.{FsState}
use fuse_file_system.Disk.Laws.{OnDisk}
use fuse_file_system.Bitmap.{bitmap_bits, count_free}
use fuse_file_system.Bitmap.Bits.{used}

-- The image holds every block that the superblock counts, the bitmap has a bit for each and bytes
-- in its bytes, the blocks of the format are in use, block 1 of the image holds the bitmap, and `statfs` reports the free blocks.
pub record IsVolume (s : FsState) : Type 0 where
  pub fits_bitmap : s.superblock.disk_size ≤ bitmap_bits
  pub has_root : 2 < s.superblock.disk_size
  pub on_disk : (lba : ℕ) → lba < s.superblock.disk_size → OnDisk s.image lba
  pub bytes : FitsBlock s.bitmap
  pub super_used : used s.bitmap 0 ≡ true
  pub bitmap_used : used s.bitmap 1 ≡ true
  pub root_used : used s.bitmap 2 ≡ true
  pub mirrored : s.image.block 1 ≡ s.bitmap
  pub bfree : s.stat_vfs.bfree ≡ count_free s.bitmap s.superblock.disk_size 0
  pub bavail : s.stat_vfs.bavail ≡ count_free s.bitmap s.superblock.disk_size 0

-- The image holds every block that the superblock counts.
abbrev pub HasBlocks : FsState → Type 0
HasBlocks s = (lba : ℕ) → lba < s.superblock.disk_size → OnDisk s.image lba

-- A block of the volume that is in use, and holds neither the bitmap nor the directory block `d`.
pub record Untouched (s : FsState) (d lba : ℕ) : Type 0 where
  pub below : lba < s.superblock.disk_size
  pub in_use : used s.bitmap lba ≡ true
  pub not_bitmap : lba ≢ 1
  pub not_entries : lba ≢ d

-- The inode and the directory in a block of the image.
abbrev pub inode_at : FsState → ℕ → Inode
inode_at s i = decode_inode (s.image.block i)

abbrev pub dir_at : FsState → ℕ → Directory
dir_at s d = decode_dir (s.image.block d)
