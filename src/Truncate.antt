-- ===== src/Truncate.antt =====
-- `fs_truncate` of homework.c. `len` is an `off_t`, its pattern below `2 ^ 64`.
pub mod Drop
pub mod Success
use fuse_file_system.Prelude.{
  ℕ, zero, suc, ◌+◌, ◌-◌, ◌/◌, ◌%◌, ◌^◌, false, not, List, [], ◌∷◌, leb, ◌==◌, if◌then◌else◌,
  to_int, sub_int, lt_int,
}
use fuse_file_system.Layout.{Inode, block_size, encode_inode}
use fuse_file_system.State.{eisdir, einval, Action, ◌>>=◌, ◌>>◌, pure, modify, fail_if}
use fuse_file_system.Disk.{block_write}
use fuse_file_system.Bitmap.{modify_bitmap_and_writeback_to_disk}
use fuse_file_system.Paths.{CString, is_reg, path_to_inode}
use fuse_file_system.Content.{file_blocks, get_ptr, set_ptr}
use fuse_file_system.Remove.{give_blocks}

-- The pointers from `i` on are logged, and set to -1.
unfoldable pub drop_ptrs : Inode → (rounds i : ℕ) → Action (List ℕ × Inode)
drop_ptrs n zero i = pure ([], n)
drop_ptrs n (suc rounds) i = do
  p ← get_ptr n i
  (ps, n') ← drop_ptrs (set_ptr n i (2 ^ 32 - 1)) rounds (i + 1)
  pure (p ∷ ps, n')

-- `len / FS_BLOCK_SIZE` and one more for a rest, as an `int`.
abbrev pub target_blocks : ℕ → ℕ
target_blocks len = to_int (len / block_size + (if len % block_size == 0 then 0 else 1))

unfoldable pub fs_truncate : CString → ℕ → Action (Unit {0})
fs_truncate path len = do
  fail_if (leb (2 ^ 63) len) einval
  (inum, n) ← path_to_inode path 0
  fail_if (not (is_reg n.mode)) eisdir
  let old = file_blocks n.size
  let target = target_blocks len
  fail_if (lt_int old target) einval
  let count = sub_int old target
  (removed, n') ← drop_ptrs n (if lt_int target old then count else 0) target
  block_write (encode_inode (record n' { size = to_int len })) inum
  modify_bitmap_and_writeback_to_disk removed false
  modify (give_blocks count)
