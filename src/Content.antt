-- ===== src/Content.antt =====
-- What `fs_read`, `fs_write`, `fs_truncate` and `fs_unlink` of homework.c share: the size of a file
-- in blocks, and its block pointers.
pub mod Ptrs
use fuse_file_system.Prelude.{
  ℕ, zero, suc, ◌+◌, ◌-◌, ◌/◌, ◌%◌, ◌^◌, List, [], ◌∷◌, ◌&&◌, leb, ltb, ◌==◌, if◌then◌else◌,
  sub_int, is_negative,
}
use fuse_file_system.Layout.{Block, Inode, block_size, ptr_count}
use fuse_file_system.State.{Action, ◌>>=◌, ◌>>◌, pure, crash_if}

-- `size / FS_BLOCK_SIZE + (size % FS_BLOCK_SIZE > 0 ? 1 : 0)` of an `int32_t`: the quotient is cut
-- towards zero, and the rest of a negative number is not positive.
unfoldable pub file_blocks : ℕ → ℕ
file_blocks size =
    if is_negative size
    then sub_int 0 ((2 ^ 32 - size) / block_size)
    else size / block_size + (if size % block_size == 0 then 0 else 1)

-- `ptrs[i]`; `i` is an `int`, so a negative one is out of range too.
abbrev pub get_ptr : Inode → ℕ → Action ℕ
get_ptr n i = do crash_if (leb ptr_count i); pure (n.ptrs i)

-- `ptrs[i] = p`
abbrev pub set_ptr : Inode → ℕ → ℕ → Inode
set_ptr n i p = record n { ptrs = λ j. if j == i then p else n.ptrs j }

-- The pointers from `i` on, as many as there are rounds.
unfoldable pub collect_ptrs : Inode → (rounds i : ℕ) → Action (List ℕ)
collect_ptrs n zero i = pure []
collect_ptrs n (suc rounds) i = do
  p ← get_ptr n i
  ps ← collect_ptrs n rounds (i + 1)
  pure (p ∷ ps)

-- The buffer after `memcpy(buf + at, src, n)`.
abbrev pub copy_into : Block → (at : ℕ) → Block → (n : ℕ) → Block
copy_into buf at src n j = if leb at j && ltb j (at + n) then src (j - at) else buf j
