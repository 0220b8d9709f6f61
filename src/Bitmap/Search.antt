-- ===== src/Bitmap/Search.antt =====
-- What `find_first_nfree_blocks` finds.
use fuse_file_system.Prelude.{
  ℕ, zero, suc, ◌+◌, ◌-◌, ◌≤◌, ◌≡◌, List, [], ◌∷◌, inl, inr, arith, ltb, ◌==◌, if◌then◌else◌,
  length, take, Bool-cases,
}
use fuse_file_system.Layout.{Block}
use fuse_file_system.State.{FsState, enospc, ok, err}
use fuse_file_system.Bitmap.{bitmap_bits, bit_test, find_loop, find_first_nfree_blocks}
use fuse_file_system.Bitmap.Bits.{used}

-- The free blocks from `i` on, among `rounds` blocks, in order.
unfoldable pub free_blocks : Block → (rounds i : ℕ) → List ℕ
free_blocks map zero i = []
free_blocks map (suc rounds) i =
    let rest = free_blocks map rounds (i + 1) in if used map i then rest else i ∷ rest

find_loop-free_blocks :
    (map : Block) (rounds i wanted : ℕ)
    → i + rounds ≤ bitmap_bits
    → find_loop map rounds i wanted
      ≡ ok (take wanted (free_blocks map rounds i), wanted - length (free_blocks map rounds i))
unfolding find_loop free_blocks
find_loop-free_blocks map zero i zero h = ground arith
find_loop-free_blocks map zero i (suc w) h = ground arith
find_loop-free_blocks map (suc rounds) i zero h = ground arith
find_loop-free_blocks map (suc rounds) i (suc w) h = elim (Bool-cases (bit_test map i == 0)) [
  | inl e ↦
      rw e (rw (find_loop-free_blocks map rounds (i + 1) (suc w - 1) (omega arith)) (ground arith))
  | inr e ↦
      rw e (rw (find_loop-free_blocks map rounds (i + 1) (suc w) (omega arith)) (ground arith))
]

-- Within the bitmap, `find_first_nfree_blocks` returns the first n free blocks from the start on,
-- in order, or ENOSPC with fewer free blocks, and changes nothing.
pub find_first_nfree_blocks_lem :
    (start n : ℕ) (s : FsState)
    → start ≤ s.superblock.disk_size
    → s.superblock.disk_size ≤ bitmap_bits
    → let all = free_blocks s.bitmap (s.superblock.disk_size - start) start in
      find_first_nfree_blocks start n s
      ≡ (if ltb (length all) n then err enospc else ok (take n all), s)
unfolding find_first_nfree_blocks
find_first_nfree_blocks_lem start n s h size =
    rw (find_loop-free_blocks s.bitmap (s.superblock.disk_size - start) start n (omega arith))
      (ground arith)
