-- ===== src/Bitmap.antt =====
-- The allocation bitmap of homework.c: one bit per block, set while the block is in use.
pub mod Bits
pub mod Search
pub mod Modify
pub mod Count
pub mod Fresh
use fuse_file_system.Prelude.{
  ℕ, zero, suc, ◌+◌, ◌-◌, ◌/◌, ◌%◌, ◌^◌, Bool, List, [], ◌∷◌, bit_and, bit_or, leb, ltb, ◌==◌,
  if◌then◌else◌,
}
use fuse_file_system.Layout.{Block}
use fuse_file_system.State.{
  FsState, enospc, Result, ok, err, fault, Action, ◌>>◌, pure, modify, crash_if,
}
use fuse_file_system.Disk.{block_write}

-- The bits of one block.
abbrev pub bitmap_bits : ℕ
bitmap_bits = 32768

unfoldable pub bit_set : Block → ℕ → Block
bit_set map i o = if o == i / 8 then bit_or (map o) (2 ^ (i % 8)) else map o

unfoldable pub bit_clear : Block → ℕ → Block
bit_clear map i o = if o == i / 8 then bit_and (map o) (2 ^ 32 - 1 - 2 ^ (i % 8)) else map o

unfoldable pub bit_test : Block → ℕ → ℕ
bit_test map i = bit_and (map (i / 8)) (2 ^ (i % 8))

-- What one round of the search adds to what the later rounds find.
abbrev pub prepend : Bool → ℕ → Result (List ℕ × ℕ) → Result (List ℕ × ℕ)
prepend b i (ok (is, left)) = ok (if b then i ∷ is else is, left)
prepend b i (err e) = err e
prepend b i fault = fault

-- The loop of `find_first_nfree_blocks` with `rounds` blocks to go: the blocks found from `i` on, and
-- how many are still wanted.
unfoldable pub find_loop : Block → (rounds i wanted : ℕ) → Result (List ℕ × ℕ)
find_loop map zero i wanted = ok ([], wanted)
find_loop map (suc rounds) i wanted =
    let free = bit_test map i == 0 in
    let rest = find_loop map rounds (i + 1) (if free then wanted - 1 else wanted) in
    if wanted == 0 then ok ([], 0) else if leb bitmap_bits i then fault else prepend free i rest

abbrev pub found : Result (List ℕ × ℕ) → Result (List ℕ)
found (ok (is, left)) = if ltb 0 left then err enospc else ok is
found (err e) = err e
found fault = fault

unfoldable pub find_first_nfree_blocks : (start n : ℕ) → Action (List ℕ)
find_first_nfree_blocks start n s =
    (found (find_loop s.bitmap (s.superblock.disk_size - start) start n), s)

abbrev pub set_bit : Bool → ℕ → FsState → FsState
set_bit flag i s = record s { bitmap = if flag then bit_set s.bitmap i else bit_clear s.bitmap i }

unfoldable pub modify_loop : Bool → List ℕ → Action (Unit {0})
modify_loop flag [] = pure tt
modify_loop flag (i ∷ is) = do
  crash_if (leb bitmap_bits i)
  modify (set_bit flag i)
  modify_loop flag is

unfoldable pub modify_bitmap_and_writeback_to_disk : List ℕ → Bool → Action (Unit {0})
modify_bitmap_and_writeback_to_disk is flag = do modify_loop flag is; λ s. block_write s.bitmap 1 s

-- The loop of `fs_init` that counts the free blocks from `i` on.
unfoldable pub count_free : Block → (rounds i : ℕ) → ℕ
count_free map zero i = 0
count_free map (suc rounds) i =
    (if bit_test map i == 0 then 1 else 0) + count_free map rounds (i + 1)
