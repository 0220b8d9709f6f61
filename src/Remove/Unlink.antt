-- ===== src/Remove/Unlink.antt =====
-- When `fs_unlink` succeeds, and the state that it leaves.
use fuse_file_system.Prelude.{
  ℕ, ◌+◌, ◌^◌, ◌≤◌, ◌<◌, ◌≡◌, true, false, List, [], ◌∷◌, ◌++◌, arith, lt→leb,
}
use fuse_file_system.Layout.{Block, encode_dir, ptr_count}
use fuse_file_system.State.{FsState, ok}
use fuse_file_system.Disk.Laws.{with_block, block_read-ok, block_write-ok, OnDisk-put_block}
use fuse_file_system.Bitmap.Count.{Distinct, Distinct-InBitmap}
use fuse_file_system.Bitmap.Modify.{with_bitmap, modify_bitmap-ok}
use fuse_file_system.Paths.{CString}
use fuse_file_system.Content.{file_blocks}
use fuse_file_system.Content.Ptrs.{ptr_list, collect_ptrs-ok}
use fuse_file_system.Directory.Place.{
  HasEntry, path_to_place, path_to_entry, get_entry_name-ok, find_index-ok,
}
use fuse_file_system.Remove.{invalidate, unlink_directory_entry, give_blocks, fs_unlink}
use fuse_file_system.Volume.{IsVolume, inode_at, dir_at}
use fuse_file_system.Prelude.{has}

-- The blocks of inode `i`: those that its pointers name, and its own.
abbrev pub blocks_of : FsState → ℕ → List ℕ
blocks_of s i = ptr_list (inode_at s i) (file_blocks (inode_at s i).size) 0 ++ i ∷ []

-- The directory once the entry is invalid.
abbrev pub without_entry : FsState → (d slot : ℕ) → Block
without_entry s d slot = encode_dir (invalidate (dir_at s d) slot)

-- The entry is invalid, the bits of the blocks are clear, and the count is up by `count`.
abbrev pub given_back : FsState → (d slot : ℕ) → (bs : List ℕ) → (count : ℕ) → FsState
given_back s d slot bs count =
    give_blocks count (with_bitmap false bs (with_block s d (without_entry s d slot)))

-- What `fs_unlink` leaves: the entry is invalid, the bits of the blocks are clear, the count is up.
abbrev pub removed : FsState → (d slot i : ℕ) → FsState
removed s d slot i = given_back s d slot (blocks_of s i) (file_blocks (inode_at s i).size + 1)

-- The blocks of the file are different blocks of the volume, all in use.
pub record OwnsBlocks (s : FsState) (i : ℕ) : Type 0 where
  pub few : file_blocks (inode_at s i).size ≤ ptr_count
  pub distinct : Distinct true s.superblock.disk_size s.bitmap (blocks_of s i)
  pub below : i < s.superblock.disk_size
  pub not_format : (b : ℕ) → b < 3 → has b (blocks_of s i) ≡ false

module _ {s : FsState} {path : CString} {ts : List CString} {t : CString} {p d slot i : ℕ}
    (v : IsVolume s) (h : HasEntry s path ts t p d slot i) where
  -- `unlink_directory_entry` invalidates the entry, and changes nothing else.
  pub unlink_directory_entry-ok :
      unlink_directory_entry path s ≡ (ok tt, with_block s d (without_entry s d slot))
  unfolding unlink_directory_entry
  unlink_directory_entry-ok =
      rw
        (
          path_to_place v h.place,
          h.pointer,
          block_read-ok {s = s} (v.on_disk d h.below),
          get_entry_name-ok h.place s,
          find_index-ok v h,
        )
        (block_write-ok {s = s} (v.on_disk d h.below) (without_entry s d slot)
          (omega (arith, h.not_super)))

  pub fs_unlink-ok : OwnsBlocks s i → fs_unlink path s ≡ (ok tt, removed s d slot i)
  unfolding fs_unlink
  fs_unlink-ok o = rw (
    path_to_entry v h o.below,
    lt→leb (2 ^ 31) (file_blocks (inode_at s i).size) (omega (arith, o.few)),
    collect_ptrs-ok (inode_at s i) (file_blocks (inode_at s i).size) 0 s (omega (arith, o.few)),
    unlink_directory_entry-ok,
    modify_bitmap-ok false (blocks_of s i) (with_block s d (without_entry s d slot))
        (Distinct-InBitmap true s.superblock.disk_size s.bitmap (blocks_of s i) v.fits_bitmap
          o.distinct)
        (OnDisk-put_block d (without_entry s d slot) (v.on_disk 1 (omega (arith, v.has_root)))),
  )
