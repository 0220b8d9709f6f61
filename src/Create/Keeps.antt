-- ===== src/Create/Keeps.antt =====
-- `fs_create` keeps the volume in order.
use fuse_file_system.Prelude.{ℕ, ◌-◌, ◌≡◌, ◌≢◌, ◌<◌, false, List, [], ◌∷◌, arith, refl, ◌==◌, ◌||◌}
use fuse_file_system.State.{FsState, ok}
use fuse_file_system.Host.{Host}
use fuse_file_system.Bitmap.Bits.{used}
use fuse_file_system.Bitmap.Modify.{used-marked_set}
use fuse_file_system.Bitmap.Count.{Distinct}
use fuse_file_system.Bitmap.Fresh.{free_head}
use fuse_file_system.Bitmap.Search.{free_blocks}
use fuse_file_system.Paths.{CString}
use fuse_file_system.Create.{fs_create}
use fuse_file_system.Create.Success.{HasRoom, created, fs_create-ok}
use fuse_file_system.Volume.{IsVolume}
use fuse_file_system.Volume.Keeps.{with_block-IsVolume, take-IsVolume}

one-Distinct :
    (s : FsState) (n : ℕ)
    → n < s.superblock.disk_size
    → used s.bitmap n ≡ false
    → Distinct false s.superblock.disk_size s.bitmap (n ∷ [])
unfolding Distinct
one-Distinct s n lt free = (lt, free, refl, tt)

-- A free block is not the bitmap.
pub free-ne_bitmap : {s : FsState} {n : ℕ} → IsVolume s → used s.bitmap n ≡ false → n ≢ 1
free-ne_bitmap {s} v unused e =
    let h : used s.bitmap 1 ≡ false = rw e at unused in let h' = v.bitmap_used in cc

-- The state that it leaves is in order.
pub created-IsVolume :
    {s : FsState} {path : CString} {ts : List CString} {t : CString} {p d slot : ℕ}
    → IsVolume s
    → HasRoom s path ts t p d slot
    → (host : Host) (mode n : ℕ) → n < s.superblock.disk_size
    → used s.bitmap n ≡ false
    → IsVolume (created host mode s t d slot n)
created-IsVolume {s} {d = d} v h host mode n lt unused =
    take-IsVolume
      (with_block-IsVolume d _ h.not_bitmap (with_block-IsVolume n _ (free-ne_bitmap v unused) v))
      (n ∷ []) (one-Distinct s n lt unused)

-- Where there is room, `fs_create` returns 0 and leaves a volume in order, in which the blocks in
-- use are those of before and the first that was free, and the statistics count the free blocks.
pub fs_create-IsVolume :
    {s : FsState} {path : CString} {ts : List CString} {t : CString} {p d slot : ℕ}
    → IsVolume s
    → HasRoom s path ts t p d slot
    → (host : Host) (mode n : ℕ) (rest : List ℕ)
    → free_blocks s.bitmap (s.superblock.disk_size - 0) 0 ≡ n ∷ rest
    → let (r, s') = fs_create host path mode s in
      (r ≡ ok tt) × IsVolume s' × ((j : ℕ) → used s'.bitmap j ≡ ((n == j) || used s.bitmap j))
fs_create-IsVolume {s} {t} {d} {slot} v h host mode n rest free =
    let (lt, unused) = free_head s.bitmap s.superblock.disk_size n rest free in
    rw (fs_create-ok v h host mode n rest free) (
      refl,
      created-IsVolume v h host mode n lt unused,
      λ j. ground (arith, used-marked_set (n ∷ []) j v.bytes),
    )
