-- ===== src/Listing/Entries.antt =====
-- What `fs_readdir` of homework.c hands to `filler`.
use fuse_file_system.Prelude.{
  arith, ℕ, zero, suc, ◌+◌, ◌<◌, ◌≡◌, ◌≢◌, refl, true, List, [], ◌∷◌, map, ◌==◌, ==→ne,
  if◌then◌else◌, Bool-cases, inl, inr,
}
use fuse_file_system.Layout.{Block, Inode, Dirent, Directory, decode_dir, max_dir_entries}
use fuse_file_system.State.{FsState, ok}
use fuse_file_system.Disk.Laws.{block_read-ok}
use fuse_file_system.Paths.{CString, is_dir, path_to_inode}
use fuse_file_system.Paths.Resolve.{Reads}
use fuse_file_system.Attributes.{inode_to_stat}
use fuse_file_system.Listing.{Filled, fill_loop, fs_readdir}
use fuse_file_system.Volume.{IsVolume, inode_at}

-- The valid entries from `i` on, in order.
unfoldable pub valid_entries : Directory → (rounds i : ℕ) → List Dirent
valid_entries dir zero i = []
valid_entries dir (suc rounds) i =
    let rest = valid_entries dir rounds (i + 1) in if (dir i).valid == 0 then rest else dir i ∷ rest

-- An entry with the attributes of its inode.
abbrev pub filled : FsState → ℕ → Dirent → Filled
filled s offset e = record {
  name = e.name;
  stat = inode_to_stat (inode_at s e.inode);
  offset = offset;
}

module _ {s : FsState} (v : IsVolume s) (dir : Directory) (offset : ℕ) where
  fill_loop-valid :
      (rounds i : ℕ)
      → ((m : ℕ) → m < i + rounds → (dir m).valid ≢ 0 → (dir m).inode < s.superblock.disk_size)
      → fill_loop dir offset rounds i s
        ≡ (ok (map (filled s offset) (valid_entries dir rounds i)), s)
  unfolding fill_loop valid_entries
  fill_loop-valid zero i below = refl
  fill_loop-valid (suc rounds) i below = elim (Bool-cases ((dir i).valid == 0)) [
    | inl e ↦ rw e (fill_loop-valid rounds (i + 1) (λ m lt. below m (omega arith)))
    | inr e ↦ rw (
      e,
      block_read-ok {s = s}
          (v.on_disk (dir i).inode (below i (omega arith) (==→ne (dir i).valid 0 e))),
      fill_loop-valid rounds (i + 1) (λ m lt. below m (omega arith)),
    )
  ]

-- For a directory whose valid entries name blocks of the volume, `fs_readdir` returns 0 and fills
-- in exactly the valid entries, in order, each with the attributes of its inode.
pub fs_readdir_lem :
    {s : FsState} {i : ℕ} {n : Inode} {entries : Block} (path : CString) (offset : ℕ)
    → IsVolume s
    → path_to_inode path 0 s ≡ (ok (i, n), s)
    → is_dir n.mode ≡ true
    → Reads s (n.ptrs 0) entries
    → ((m : ℕ)
        → m < max_dir_entries
        → (decode_dir entries m).valid ≢ 0
        → (decode_dir entries m).inode < s.superblock.disk_size)
    → fs_readdir path offset s
      ≡ (ok (0, map (filled s offset) (valid_entries (decode_dir entries) max_dir_entries 0)), s)
unfolding fs_readdir
fs_readdir_lem {entries} path offset v h dir r below = rw (
  h,
  dir,
  r,
  fill_loop-valid v (decode_dir entries) offset max_dir_entries 0 (λ m lt. below m (omega arith)),
)
