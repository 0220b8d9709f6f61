-- ===== src/Bitmap/Modify.antt =====
-- What `modify_bitmap_and_writeback_to_disk` leaves in memory and on the disk.
use fuse_file_system.Prelude.{
  ℕ, ◌<◌, ◌≡◌, refl, Bool, true, false, not, ◌&&◌, ◌||◌, List, [], ◌∷◌, arith, lt→leb,
  if◌then◌else◌, has, All,
}
use fuse_file_system.Layout.{Block}
use fuse_file_system.Layout.RoundTrip.{FitsBlock}
use fuse_file_system.State.{FsState, ok}
use fuse_file_system.Disk.Laws.{OnDisk, with_block, block_write-ok}
use fuse_file_system.Bitmap.{
  bitmap_bits, bit_set, bit_clear, set_bit, modify_loop, modify_bitmap_and_writeback_to_disk,
}
use fuse_file_system.Bitmap.Bits.{
  used, used-bit_set, used-bit_clear, bit_set-FitsBlock, bit_clear-FitsBlock,
}

abbrev pub InBitmap : ℕ → Type 0
InBitmap i = i < bitmap_bits

-- The bitmap after the blocks of a list are set or cleared.
unfoldable pub marked : Bool → List ℕ → Block → Block
marked flag [] map = map
marked flag (i ∷ is) map = marked flag is (if flag then bit_set map i else bit_clear map i)

pub modify_loop-marked :
    (flag : Bool) (is : List ℕ) (s : FsState)
    → All InBitmap is
    → modify_loop flag is s ≡ (ok tt, record s { bitmap = marked flag is s.bitmap })
unfolding modify_loop marked
modify_loop-marked flag [] s h = refl
modify_loop-marked flag (i ∷ is) s (hi, h) =
    rw (lt→leb bitmap_bits i hi) (modify_loop-marked flag is (set_bit flag i s) h)

pub marked-FitsBlock :
    (flag : Bool) (is : List ℕ) {map : Block} → FitsBlock map → FitsBlock (marked flag is map)
unfolding marked
marked-FitsBlock flag [] fits = fits
marked-FitsBlock true (i ∷ is) fits = marked-FitsBlock true is (bit_set-FitsBlock fits i)
marked-FitsBlock false (i ∷ is) fits = marked-FitsBlock false is (bit_clear-FitsBlock fits i)

pub used-marked_set :
    (is : List ℕ) {map : Block} (j : ℕ)
    → FitsBlock map
    → used (marked true is map) j ≡ (has j is || used map j)
unfolding marked
used-marked_set [] j fits = refl
used-marked_set (i ∷ is) {map} j fits =
    ground (arith, used-marked_set is j (bit_set-FitsBlock fits i), used-bit_set fits i j)

pub used-marked_clear :
    (is : List ℕ) {map : Block} (j : ℕ)
    → FitsBlock map
    → used (marked false is map) j ≡ (not (has j is) && used map j)
unfolding marked
used-marked_clear [] j fits = refl
used-marked_clear (i ∷ is) {map} j fits =
    ground (arith, used-marked_clear is j (bit_clear-FitsBlock fits i), used-bit_clear fits i j)

-- The state once the bitmap is changed in memory and on the disk.
abbrev pub with_bitmap : Bool → List ℕ → FsState → FsState
with_bitmap flag is s =
    with_block (record s { bitmap = marked flag is s.bitmap }) 1 (marked flag is s.bitmap)

pub modify_bitmap-ok :
    (flag : Bool) (is : List ℕ) (s : FsState)
    → All InBitmap is
    → OnDisk s.image 1
    → modify_bitmap_and_writeback_to_disk is flag s ≡ (ok tt, with_bitmap flag is s)
unfolding modify_bitmap_and_writeback_to_disk
modify_bitmap-ok flag is s h d = rw (
  modify_loop-marked flag is s h,
  block_write-ok {s = record s { bitmap = marked flag is s.bitmap }} d (marked flag is s.bitmap)
      (omega arith),
)
