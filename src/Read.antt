-- ===== src/Read.antt =====
-- `fs_read` of homework.c. `len` is a `size_t` and `offset` an `off_t` that is not negative.
pub mod Blocks
pub mod Range
pub mod PastEnd
use fuse_file_system.Prelude.{
  ℕ, zero, suc, ◌+◌, ◌-◌, ◌*◌, ◌/◌, ◌%◌, ◌^◌, not, ◌||◌, List, [], ◌∷◌, ltb, leb, if◌then◌else◌,
  get_or, to_int, add_int, sub_int, lt_int, add_size, sub_size, is_negative, extend,
}
use fuse_file_system.Layout.{Block, Inode, block_size, zeros}
use fuse_file_system.State.{eisdir, enomem, Action, ◌>>=◌, ◌>>◌, pure, fail_if, crash_if}
use fuse_file_system.Host.{Host}
use fuse_file_system.Disk.{block_read}
use fuse_file_system.Paths.{CString, is_reg, path_to_inode}
use fuse_file_system.Content.{file_blocks, get_ptr}

unfoldable pub read_blocks : Inode → (rounds i : ℕ) → Action (List Block)
read_blocks n zero i = pure []
read_blocks n (suc rounds) i = do
  p ← get_ptr n i
  b ← block_read p
  bs ← read_blocks n rounds (i + 1)
  pure (b ∷ bs)

-- The rounds of `for (i = start; i <= last; i++)`.
abbrev pub rounds_to : (start last : ℕ) → ℕ
rounds_to start last = if lt_int last start then 0 else add_int (sub_int last start) 1

-- The bytes of the blocks that are read one behind the other.
abbrev pub joined : List Block → Block
joined bs o = get_or bs (o / block_size) zeros (o % block_size)

-- The last block that is read, and the number of bytes that are copied.
abbrev pub last_block : Inode → (len offset : ℕ) → ℕ
last_block n len offset =
    if ltb n.size (add_size offset len)
    then file_blocks n.size
    else to_int (sub_size (add_size offset len) 1 / block_size)

abbrev pub read_len : Inode → (len offset : ℕ) → ℕ
read_len n len offset = if ltb n.size (add_size offset len) then n.size - offset else len

-- Behind the tests: a regular file whose size is beyond the offset.
unfoldable pub read_range : Host → Inode → (len offset : ℕ) → Action (ℕ × Block)
read_range host n len offset = do
  let start = offset / block_size
  let end = last_block n len offset
  let room = block_size * extend (add_int (sub_int end start) 1) % 2 ^ 64
  fail_if (not (host.calloc room)) enomem
  bs ← read_blocks n (rounds_to start end) start
  crash_if (ltb room (offset % block_size + read_len n len offset))
  pure (to_int (read_len n len offset), λ o. joined bs (offset % block_size + o))

-- The number of bytes, and the buffer.
unfoldable pub fs_read : Host → CString → (len offset : ℕ) → Action (ℕ × Block)
fs_read host path len offset = do
  (inum, n) ← path_to_inode path 0
  fail_if (not (is_reg n.mode)) eisdir
  if is_negative n.size || leb n.size offset then pure (0, zeros) else read_range host n len offset
