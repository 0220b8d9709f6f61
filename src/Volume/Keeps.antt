-- ===== src/Volume/Keeps.antt =====
-- The steps of the operations of homework.c that keep a volume in order.
use fuse_file_system.Prelude.{
  ℕ, ◌+◌, ◌≤◌, ◌<◌, ◌≡◌, ◌≢◌, sym, ◌∙◌, true, false, List, arith, length, has,
}
use fuse_file_system.Layout.{Block}
use fuse_file_system.State.{FsState}
use fuse_file_system.Disk.Laws.{
  with_block, OnDisk-put_block, block-put_block_ne, block-put_block_self,
}
use fuse_file_system.Bitmap.{count_free}
use fuse_file_system.Bitmap.Count.{
  Distinct, count_free-marked_set, count_free-marked_clear, count_free-le,
}
use fuse_file_system.Bitmap.Modify.{
  marked, with_bitmap, marked-FitsBlock, used-marked_set, used-marked_clear,
}
use fuse_file_system.Create.{take_blocks}
use fuse_file_system.Remove.{give_blocks}
use fuse_file_system.Volume.{IsVolume}

-- Writing a block other than the bitmap's keeps the volume in order.
pub with_block-IsVolume :
    {s : FsState} (n : ℕ) (b : Block) → n ≢ 1 → IsVolume s → IsVolume (with_block s n b)
with_block-IsVolume n b ne v = record {
  fits_bitmap = v.fits_bitmap;
  has_root = v.has_root;
  on_disk = λ lba lt. OnDisk-put_block n b (v.on_disk lba lt);
  bytes = v.bytes;
  super_used = v.super_used;
  bitmap_used = v.bitmap_used;
  root_used = v.root_used;
  mirrored =
      block-put_block_ne n b (v.on_disk 1 (omega (arith, v.has_root))) (λ e. ne (sym e))
      ∙ v.mirrored;
  bfree = v.bfree;
  bavail = v.bavail;
}

module _ {s : FsState} (v : IsVolume s) (is : List ℕ) where
  -- Blocks that are different and free are taken, and as many are counted off.
  pub take-IsVolume :
      Distinct false s.superblock.disk_size s.bitmap is
      → IsVolume (with_bitmap true is (take_blocks (length is) s))
  take-IsVolume d = record {
    fits_bitmap = v.fits_bitmap;
    has_root = v.has_root;
    on_disk = λ lba lt. OnDisk-put_block 1 (marked true is s.bitmap) (v.on_disk lba lt);
    bytes = marked-FitsBlock true is v.bytes;
    super_used = ground (arith, used-marked_set is 0 v.bytes, v.super_used);
    bitmap_used = ground (arith, used-marked_set is 1 v.bytes, v.bitmap_used);
    root_used = ground (arith, used-marked_set is 2 v.bytes, v.root_used);
    mirrored = block-put_block_self s.image 1 (marked true is s.bitmap);
    bfree = omega (arith, count, small, v.bfree, v.fits_bitmap);
    bavail = omega (arith, count, small, v.bavail, v.fits_bitmap);
  }
    where
      count :
          count_free (marked true is s.bitmap) s.superblock.disk_size 0 + length is
          ≡ count_free s.bitmap s.superblock.disk_size 0
      count = count_free-marked_set is s.superblock.disk_size v.bytes d

      small : count_free s.bitmap s.superblock.disk_size 0 ≤ s.superblock.disk_size
      small = count_free-le s.bitmap s.superblock.disk_size 0

  -- Blocks that are different and in use are given back, and as many are counted on.
  pub give-IsVolume :
      Distinct true s.superblock.disk_size s.bitmap is
      → ((b : ℕ) → b < 3 → has b is ≡ false)
      → IsVolume (give_blocks (length is) (with_bitmap false is s))
  give-IsVolume d safe = record {
    fits_bitmap = v.fits_bitmap;
    has_root = v.has_root;
    on_disk = λ lba lt. OnDisk-put_block 1 (marked false is s.bitmap) (v.on_disk lba lt);
    bytes = marked-FitsBlock false is v.bytes;
    super_used = ground (arith, used-marked_clear is 0 v.bytes, v.super_used, safe 0);
    bitmap_used = ground (arith, used-marked_clear is 1 v.bytes, v.bitmap_used, safe 1);
    root_used = ground (arith, used-marked_clear is 2 v.bytes, v.root_used, safe 2);
    mirrored = block-put_block_self s.image 1 (marked false is s.bitmap);
    bfree = omega (arith, count, small, v.bfree, v.fits_bitmap);
    bavail = omega (arith, count, small, v.bavail, v.fits_bitmap);
  }
    where
      count :
          count_free (marked false is s.bitmap) s.superblock.disk_size 0
          ≡ count_free s.bitmap s.superblock.disk_size 0 + length is
      count = count_free-marked_clear is s.superblock.disk_size v.bytes d

      small :
          count_free (marked false is s.bitmap) s.superblock.disk_size 0 ≤ s.superblock.disk_size
      small = count_free-le (marked false is s.bitmap) s.superblock.disk_size 0
