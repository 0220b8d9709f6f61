-- ===== src/Listing.antt =====
-- `fs_readdir` of homework.c. The calls of `filler` are listed in order.
pub mod Entries
use fuse_file_system.Prelude.{ℕ, zero, suc, ◌+◌, not, List, [], ◌∷◌, ◌==◌, if◌then◌else◌}
use fuse_file_system.Layout.{Block, Directory, decode_inode, decode_dir, max_dir_entries}
use fuse_file_system.State.{
  FsState, enotdir, Result, ok, err, fault, Action, ◌>>=◌, ◌>>◌, pure, fail_if,
}
use fuse_file_system.Disk.{block_read}
use fuse_file_system.Paths.{CString, is_dir, path_to_inode}
use fuse_file_system.Attributes.{Stat, inode_to_stat}

-- The arguments of one call of `filler`: the bytes at `name`, the attributes and the offset.
pub record Filled : Type 0 where
  pub name : ℕ → ℕ
  pub stat : Stat
  pub offset : ℕ

unfoldable pub fill_loop : Directory → ℕ → (rounds i : ℕ) → Action (List Filled)
fill_loop dir offset zero i = pure []
fill_loop dir offset (suc rounds) i =
    if (dir i).valid == 0 then fill_loop dir offset rounds (i + 1) else do
      b ← block_read (dir i).inode
      rest ← fill_loop dir offset rounds (i + 1)
      pure (
          record { name = (dir i).name; stat = inode_to_stat (decode_inode b); offset = offset }
          ∷ rest)

-- `status = block_read(...) < 0`: when the directory cannot be read, `status` is the truth value 1,
-- and that is returned.
abbrev pub list_block : ℕ → Result Block × FsState → Result (ℕ × List Filled) × FsState
list_block offset (ok d, s) =
    (do entries ← fill_loop (decode_dir d) offset max_dir_entries 0; pure (0, entries)) s
list_block offset (err e, s) = (ok (1, []), s)
list_block offset (fault, s) = (fault, s)

unfoldable pub fs_readdir : CString → ℕ → Action (ℕ × List Filled)
fs_readdir path offset = do
  (inum, n) ← path_to_inode path 0
  fail_if (not (is_dir n.mode)) enotdir
  λ s. list_block offset (block_read (n.ptrs 0) s)
