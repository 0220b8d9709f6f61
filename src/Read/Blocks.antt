-- ===== src/Read/Blocks.antt =====
-- The blocks that `fs_read` of homework.c collects, and the block numbers it computes.
use fuse_file_system.Prelude.{
  ℕ, zero, suc, ◌+◌, ◌-◌, ◌*◌, ◌/◌, ◌%◌, ◌^◌, ◌≤◌, ◌<◌, ◌≡◌, refl, ap, ◌∙◌, List, [], ◌∷◌, arith,
  get_or, ltb, lt→leb, if◌then◌else◌, add_int, sub_int, extend,
}
use fuse_file_system.Layout.{Block, Inode, block_size, ptr_count}
use fuse_file_system.State.{FsState, ok, err, eio}
use fuse_file_system.Disk.{block_read}
use fuse_file_system.Disk.Laws.{block_read-ok}
use fuse_file_system.Content.{file_blocks}
use fuse_file_system.Read.{read_blocks, rounds_to, last_block, read_len}
use fuse_file_system.Volume.{HasBlocks}

-- The blocks of a file from block `i` on.
unfoldable pub blocks_from : FsState → Inode → (rounds i : ℕ) → List Block
blocks_from s n zero i = []
blocks_from s n (suc rounds) i = s.image.block (n.ptrs i) ∷ blocks_from s n rounds (i + 1)

pub read_blocks-ok :
    {s : FsState} (n : Inode) (rounds i : ℕ)
    → HasBlocks s
    → i + rounds ≤ ptr_count
    → ((k : ℕ) → i ≤ k → k < i + rounds → n.ptrs k < s.superblock.disk_size)
    → read_blocks n rounds i s ≡ (ok (blocks_from s n rounds i), s)
unfolding read_blocks blocks_from
read_blocks-ok n zero i v few below = refl
read_blocks-ok {s} n (suc rounds) i v few below = rw (
  lt→leb ptr_count i (omega arith),
  block_read-ok {s = s} (v (n.ptrs i) (below i (omega arith) (omega arith))),
  read_blocks-ok {s = s} n rounds (i + 1) v (omega arith)
      (λ k lo hi. below k (omega arith) (omega arith)),
)

pub get_or-blocks_from :
    (s : FsState) (n : Inode) (rounds i k : ℕ) (other : Block)
    → k < rounds
    → get_or (blocks_from s n rounds i) k other ≡ s.image.block (n.ptrs (i + k))
unfolding blocks_from
get_or-blocks_from s n zero i k other lt = absurd (omega arith)
get_or-blocks_from s n (suc rounds) i zero other lt =
    ap (λ m. s.image.block (n.ptrs m)) (omega arith)
get_or-blocks_from s n (suc rounds) i (suc k) other lt =
    get_or-blocks_from s n rounds (i + 1) k other (omega arith)
    ∙ ap (λ m. s.image.block (n.ptrs m)) (omega arith)

-- Between block numbers of a file the `int` arithmetic is exact.
pub rounds_to-exact :
    (start last : ℕ) → start ≤ last → last < ptr_count → rounds_to start last ≡ last - start + 1
rounds_to-exact start last le lt = ground arith

pub room-exact :
    (start last : ℕ)
    → start ≤ last
    → last < ptr_count
    → block_size * extend (add_int (sub_int last start) 1) % 2 ^ 64
      ≡ block_size * (last - start + 1)
room-exact start last le lt = ground arith

-- The last block is not before the first, and the bytes that are copied are in the blocks between.
pub last_block-covers :
    (n : Inode) (len offset : ℕ)
    → n.size < 2 ^ 31
    → offset < n.size
    → 0 < len
    → len < 2 ^ 32
    → (offset / block_size ≤ last_block n len offset)
      × (offset % block_size + read_len n len offset
          ≤ block_size * (last_block n len offset - offset / block_size + 1))
unfolding file_blocks
last_block-covers n len offset small in_file some short = (ground arith, ground arith)

pub read_len-exact :
    (n : Inode) (len offset : ℕ)
    → n.size < 2 ^ 31
    → offset < n.size
    → len < 2 ^ 32
    → read_len n len offset ≡ (if ltb (n.size - offset) len then n.size - offset else len)
read_len-exact n len offset small in_file short = ground arith

-- A block that cannot be read ends the collection.
pub read_blocks-fails :
    {s : FsState} (n : Inode) (rounds i : ℕ)
    → HasBlocks s
    → i + rounds < ptr_count
    → ((k : ℕ) → i ≤ k → k < i + rounds → n.ptrs k < s.superblock.disk_size)
    → block_read (n.ptrs (i + rounds)) s ≡ (err eio, s)
    → read_blocks n (suc rounds) i s ≡ (err eio, s)
unfolding read_blocks
read_blocks-fails n zero i v few below broken =
    let here : i ≡ i + 0 = omega arith in rw (lt→leb ptr_count i (omega arith), here, broken)
read_blocks-fails {s} n (suc rounds) i v few below broken =
    let moved : i + suc rounds ≡ (i + 1) + rounds = omega arith in
    rw (
      lt→leb ptr_count i (omega arith),
      block_read-ok {s = s} (v (n.ptrs i) (below i (omega arith) (omega arith))),
      read_blocks-fails {s = s} n rounds (i + 1) v (omega arith)
          (λ k lo hi. below k (omega arith) (omega arith)) (rw moved at broken),
    )
