-- ===== src/Mount/Opens.antt =====
-- What `fs_init` of homework.c sets up.
use fuse_file_system.Prelude.{
  ℕ, zero, suc, ◌+◌, ◌-◌, ◌≤◌, ◌<◌, ◌≡◌, ◌≢◌, ◌∙◌, refl, sym, ap, subst, Bool, true, false, arith,
  leb, lt→leb, length, sub_int,
}
use fuse_file_system.Layout.{Block, Super, decode_super, decode_inode}
use fuse_file_system.Layout.RoundTrip.{FitsBlock}
use fuse_file_system.State.{FsState, Statvfs, Errno, Result, ok, err, fault, gets, crash_if}
use fuse_file_system.Disk.{block_read}
use fuse_file_system.Disk.Laws.{OnDisk, block_read-ok}
use fuse_file_system.Bitmap.{bitmap_bits, count_free}
use fuse_file_system.Bitmap.Search.{free_blocks}
use fuse_file_system.Bitmap.Bits.{used}
use fuse_file_system.Paths.{CString}
use fuse_file_system.Mount.{statvfs_of, loaded, load, fs_init, fs_statfs}
use fuse_file_system.Atomicity.{LateOnly, FailsLate, FailsLate-bind}
use fuse_file_system.Volume.{IsVolume}

-- The number of blocks that the superblock on the disk tells.
abbrev pub size_of : FsState → ℕ
size_of s = (decode_super (s.image.block 0)).disk_size

-- A disk with a file system on it.
pub record IsFormatted (s : FsState) : Type 0 where
  pub fits_bitmap : size_of s ≤ bitmap_bits
  pub has_root : 2 < size_of s
  pub on_disk : (lba : ℕ) → lba < size_of s → OnDisk s.image lba
  pub bytes : FitsBlock (s.image.block 1)
  pub super_used : used (s.image.block 1) 0 ≡ true
  pub bitmap_used : used (s.image.block 1) 1 ≡ true
  pub root_used : used (s.image.block 1) 2 ≡ true

-- The globals once they are read.
abbrev pub mounted : FsState → FsState
mounted s = record s {
  superblock = decode_super (s.image.block 0);
  bitmap = s.image.block 1;
  root_inode = decode_inode (s.image.block 2);
  stat_vfs = statvfs_of (decode_super (s.image.block 0)) (s.image.block 1);
}

mounted-IsVolume : {s : FsState} → IsFormatted s → IsVolume (mounted s)
mounted-IsVolume f = record {
  fits_bitmap = f.fits_bitmap;
  has_root = f.has_root;
  on_disk = f.on_disk;
  bytes = f.bytes;
  super_used = f.super_used;
  bitmap_used = f.bitmap_used;
  root_used = f.root_used;
  mirrored = refl;
  bfree = refl;
  bavail = refl;
}

fs_init-ok : {s : FsState} → IsFormatted s → fs_init s ≡ (ok tt, mounted s)
unfolding fs_init
fs_init-ok {s} f = rw (
  block_read-ok {s = s} (f.on_disk 0 (omega (arith, f.has_root))),
  block_read-ok {s = record s { superblock = decode_super (s.image.block 0) }}
      (f.on_disk 1 (omega (arith, f.has_root))),
  block_read-ok
      {s = record s { superblock = decode_super (s.image.block 0); bitmap = s.image.block 1 }}
      (f.on_disk 2 f.has_root),
  lt→leb (bitmap_bits + 1) (size_of s) (omega (arith, f.fits_bitmap)),
)

-- The loop counts the blocks that the bitmap has free.
count_free-free_blocks :
    (map : Block) (rounds i : ℕ) → count_free map rounds i ≡ length (free_blocks map rounds i)
unfolding count_free free_blocks
count_free-free_blocks map zero i = refl
count_free-free_blocks map (suc rounds) i =
    ground (arith, count_free-free_blocks map rounds (i + 1))

-- The statistics of a file system of `size` blocks, of which `free` are free.
abbrev pub statistics : (size free : ℕ) → Statvfs
statistics size free = record {
  bsize = 4096;
  blocks = size - 2;
  bfree = free;
  bavail = free;
  namemax = 27;
}

statvfs_of-statistics :
    (sb : Super) (map : Block)
    → 2 < sb.disk_size
    → sb.disk_size ≤ bitmap_bits
    → statvfs_of sb map ≡ statistics sb.disk_size (length (free_blocks map sb.disk_size 0))
statvfs_of-statistics sb map root fits =
    let blocks : sub_int sb.disk_size 2 ≡ sb.disk_size - 2 = omega arith in
    rw (count_free-free_blocks map sb.disk_size 0, blocks) refl

-- On a disk with a file system `fs_init` succeeds and sets up a volume in order, whatever the
-- globals held before; `fs_statfs` then reports blocks of 4096 bytes, two blocks less than the
-- disk has, as free and available the number of those that the bitmap on the disk does not mark,
-- and names of 27 bytes.
pub fs_init-IsVolume :
    {s : FsState} (path : CString)
    → IsFormatted s
    → let (r, s') = fs_init s in
      (r ≡ ok tt)
      × IsVolume s'
      × (fs_statfs path s' ≡ (
        ok (statistics (size_of s) (length (free_blocks (s.image.block 1) (size_of s) 0))),
        s',
      ))
unfolding fs_statfs
fs_init-IsVolume {s} path f = rw (fs_init-ok f) (
  refl,
  mounted-IsVolume f,
  ap (λ st. (ok st, mounted s))
      (statvfs_of-statistics (decode_super (s.image.block 0)) (s.image.block 1) f.has_root
        f.fits_bitmap),
)

-- What is on the disk of a volume in order.
pub IsVolume-IsFormatted :
    {s : FsState} → IsVolume s → decode_super (s.image.block 0) ≡ s.superblock → IsFormatted s
IsVolume-IsFormatted {s} v e = record {
  fits_bitmap = omega (arith, same_size, v.fits_bitmap);
  has_root = omega (arith, same_size, v.has_root);
  on_disk = λ lba lt. v.on_disk lba (omega (arith, same_size, lt));
  bytes = rw v.mirrored v.bytes;
  super_used = rw v.mirrored v.super_used;
  bitmap_used = rw v.mirrored v.bitmap_used;
  root_used = rw v.mirrored v.root_used;
}
  where
    same_size : size_of s ≡ s.superblock.disk_size
    same_size = ap (λ sb. sb.disk_size) e

-- A volume in order, whose superblock is the one on the disk, may be mounted again at any time:
-- `fs_init` succeeds and finds the same superblock, the same bitmap and the same free blocks.
pub fs_init-again :
    {s : FsState}
    → IsVolume s
    → decode_super (s.image.block 0) ≡ s.superblock
    → let (r, s') = fs_init s in
      (r ≡ ok tt)
      × (s'.image ≡ s.image)
      × (s'.superblock ≡ s.superblock)
      × (s'.bitmap ≡ s.bitmap)
      × (s'.stat_vfs.bfree ≡ s.stat_vfs.bfree)
      × (s'.stat_vfs.bavail ≡ s.stat_vfs.bavail)
fs_init-again v e =
    rw (fs_init-ok (IsVolume-IsFormatted v e))
      (refl, refl, e, v.mirrored, rw (e, v.mirrored, v.bfree), rw (e, v.mirrored, v.bavail))

-- All the statistics that it sets up.
pub fs_init-statistics :
    {s : FsState}
    → IsVolume s
    → decode_super (s.image.block 0) ≡ s.superblock
    → (fs_init s).1.stat_vfs ≡ statistics s.superblock.disk_size s.stat_vfs.bfree
fs_init-statistics {s} v e =
    rw (fs_init-ok (IsVolume-IsFormatted v e), e, v.mirrored)
      (statvfs_of-statistics s.superblock s.bitmap v.has_root v.fits_bitmap
        ∙ ap (statistics s.superblock.disk_size)
            (sym (v.bfree ∙ count_free-free_blocks s.bitmap s.superblock.disk_size 0)))

NeverErr : Errno → Type 0
NeverErr e = ⊥

loaded-LateOnly :
    (store : Block → FsState → FsState) (r : Result Block) (s : FsState)
    → LateOnly NeverErr (loaded store (r, s))
loaded-LateOnly store (ok b) s = tt
loaded-LateOnly store (err e) s = tt
loaded-LateOnly store fault s = tt

load-FailsLate : (lba : ℕ) (store : Block → FsState → FsState) → FailsLate NeverErr (load lba store)
load-FailsLate lba store = record {
  late = λ s. loaded-LateOnly store (block_read lba s).0 (block_read lba s).1;
}

crash_if-FailsLate : (b : Bool) → FailsLate NeverErr (crash_if b)
crash_if-FailsLate true = record { late = λ s. tt }
crash_if-FailsLate false = record { late = λ s. tt }

fs_init-FailsLate : FailsLate NeverErr fs_init
unfolding fs_init
fs_init-FailsLate = FailsLate-bind NeverErr _ _ (load-FailsLate 0 _) λ _.
    FailsLate-bind NeverErr _ _ (load-FailsLate 1 _) λ _.
      FailsLate-bind NeverErr _ _ (load-FailsLate 2 _) λ _.
        FailsLate-bind NeverErr (gets (λ s. s.superblock.disk_size)) _ (record { late = λ s. tt })
          λ size.
            FailsLate-bind NeverErr (crash_if (leb (bitmap_bits + 1) size)) _
              (crash_if-FailsLate (leb (bitmap_bits + 1) size)) λ _. record { late = λ s. tt }

-- `fs_init` returns no error, whatever cannot be read.
pub fs_init-ne_err : (s s' : FsState) (e : Errno) → fs_init s ≢ (err e, s')
unfolding NeverErr
fs_init-ne_err s s' e h = subst (LateOnly NeverErr) h (fs_init-FailsLate.late s)
