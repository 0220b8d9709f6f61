-- ===== src/Write.antt =====
-- `fs_write` of homework.c. `len` is a `size_t` and `offset` an `off_t` that is not negative.
pub mod Store
pub mod Buffer
pub mod InPlace
pub mod Bytes
use fuse_file_system.Prelude.{
  ℕ, zero, suc, ◌+◌, ◌-◌, ◌*◌, ◌/◌, ◌%◌, ◌^◌, Bool, true, not, ◌||◌, List, [], ◌∷◌, ltb, leb,
  if◌then◌else◌, to_int, add_int, sub_int, lt_int, add_size, sub_size, is_negative, extend,
}
use fuse_file_system.Layout.{Block, Inode, block_size, encode_inode, zeros, ptr_count}
use fuse_file_system.State.{
  FsState, eisdir, einval, enomem, Action, ◌>>=◌, ◌>>◌, pure, modify, fail_if, crash_if,
}
use fuse_file_system.Host.{Host}
use fuse_file_system.Disk.{block_read, block_write}
use fuse_file_system.Bitmap.{find_first_nfree_blocks, modify_bitmap_and_writeback_to_disk}
use fuse_file_system.Paths.{CString, is_reg, path_to_inode}
use fuse_file_system.Content.{file_blocks, get_ptr, set_ptr, copy_into}
use fuse_file_system.Read.{rounds_to}

-- `ptrs[i] = blocks[0]`, `ptrs[i + 1] = blocks[1]`, …
unfoldable pub assign_ptrs : Inode → ℕ → List ℕ → Action Inode
assign_ptrs n i [] = pure n
assign_ptrs n i (b ∷ bs) = do crash_if (leb ptr_count i); assign_ptrs (set_ptr n i b) (i + 1) bs

-- Blocks `start` to `last` of the file, from the buffer.
unfoldable pub write_loop : Inode → Block → (rounds i from : ℕ) → Action (Unit {0})
write_loop n buf zero i from = pure tt
write_loop n buf (suc rounds) i from = do
  p ← get_ptr n i
  block_write (λ o. buf (from + o)) p
  write_loop n buf rounds (i + 1) (from + block_size)

-- The last block that is written, an `int`, and how many blocks the file lacks.
abbrev pub write_end : (len offset : ℕ) → ℕ
write_end len offset = to_int (sub_size (add_size offset len) 1 / block_size)

abbrev pub blocks_needed : Inode → (len offset : ℕ) → ℕ
blocks_needed n len offset = add_int (sub_int (write_end len offset) (file_blocks n.size)) 1

unfoldable pub extend_file : Inode → (needed : ℕ) → Action Inode
extend_file n needed = if not (lt_int 0 needed) then pure n else do
  blocks ← find_first_nfree_blocks 0 needed
  modify_bitmap_and_writeback_to_disk blocks true
  assign_ptrs n (file_blocks n.size) blocks

-- The inode as it is written back.
abbrev pub written_inode : Host → Inode → (len offset : ℕ) → Inode
written_inode host n len offset = record n {
  size = if ltb (extend n.size) (add_size offset len) then to_int (offset + len) else n.size;
  mtime = host.time 0 % 2 ^ 32;
}

-- One block of the file into the buffer of `room` bytes, when the test says so.
abbrev pub load_block : Inode → Bool → (room i at : ℕ) → Block → Action Block
load_block n test room i at buf = if not test then pure buf else do
  p ← get_ptr n i
  b ← block_read p
  crash_if (ltb room (at + block_size))
  pure (copy_into buf at b block_size)

-- The buffer that is written: the file's first and last block, and the new bytes over them.
unfoldable pub fill_buffer :
    Inode → (old_blocks room start end : ℕ) → Block → (len at : ℕ) → Action Block
fill_buffer n old_blocks room start end src len at = do
  buf ← load_block n (ltb 0 old_blocks) room start 0 zeros
  buf' ← load_block n (ltb 1 old_blocks) room end (block_size * (end - start)) buf
  crash_if (ltb room (at + len))
  pure (copy_into buf' at src len)

abbrev pub charge : ℕ → FsState → FsState
charge needed s = record s {
  stat_vfs = record (s.stat_vfs) {
    bfree = sub_size s.stat_vfs.bfree (extend needed);
    bavail = sub_size s.stat_vfs.bavail (extend needed);
  };
}

-- Behind the tests: a regular file, whose size is at least the offset.
unfoldable pub write_range : Host → ℕ → Inode → Block → (len offset : ℕ) → Action ℕ
write_range host inum n src len offset = do
  let start = offset / block_size
  let end = write_end len offset
  let needed = blocks_needed n len offset
  n' ← extend_file n needed
  let n'' = written_inode host n' len offset
  block_write (encode_inode n'') inum
  let room = extend (to_int (block_size * add_int (sub_int end start) 1))
  fail_if (not (host.calloc room)) enomem
  buf ← fill_buffer n'' (file_blocks n.size) room start end src len (offset % block_size)
  write_loop n'' buf (rounds_to start end) start 0
  modify (charge needed)
  pure (to_int len)

unfoldable pub fs_write : Host → CString → Block → (len offset : ℕ) → Action ℕ
fs_write host path src len offset = do
  (inum, n) ← path_to_inode path 0
  fail_if (not (is_reg n.mode)) eisdir
  fail_if (is_negative n.size || ltb n.size offset) einval
  write_range host inum n src len offset
