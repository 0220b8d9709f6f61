-- ===== src/Remove/Rmdir.antt =====
-- `check_dir_empty` and `fs_rmdir` of homework.c: which directories they take for empty.
use fuse_file_system.Prelude.{
  ℕ, ◌<◌, ◌≡◌, true, false, none, some, List, [], ◌∷◌, inl, inr, arith, if◌then◌else◌, Bool-cases,
  Option-cases, ne→==, ◌≢◌, ◌∙◌,
}
use fuse_file_system.Layout.{Block, Inode, Directory, decode_dir, max_dir_entries}
use fuse_file_system.State.{FsState, ok, err, enotempty, enospc, Result}
use fuse_file_system.Disk.Laws.{with_block, block_read-ok, OnDisk-put_block}
use fuse_file_system.Bitmap.Modify.{modify_bitmap-ok}
use fuse_file_system.Paths.{CString, is_dir, find_entry, path_to_inode}
use fuse_file_system.Paths.Entries.{First-find_entry, find_entry-First}
use fuse_file_system.Paths.Resolve.{Reads}
use fuse_file_system.Directory.{is_some, is_free, find_free_dir_entry}
use fuse_file_system.Directory.Place.{HasEntry, path_to_entry}
use fuse_file_system.Remove.{check_dir_empty, fs_rmdir}
use fuse_file_system.Remove.Unlink.{without_entry, given_back, unlink_directory_entry-ok}
use fuse_file_system.Volume.{IsVolume, inode_at, dir_at}

-- What `check_dir_empty` answers about the entries of a directory.
abbrev pub verdict : Directory → Result (ℕ × ℕ) → Result (ℕ × ℕ)
verdict dir found =
    if is_free (dir 0)
    then found
    else if is_some (find_entry is_free dir max_dir_entries 0)
    then err enotempty
    else err enospc

module _ (dir : Directory) (s : FsState) where
  -- The search of a directory, by what it finds.
  pub find_free_some :
      (k : ℕ)
      → find_entry is_free dir max_dir_entries 0 ≡ some k
      → find_free_dir_entry dir 0 s ≡ (ok k, s)
  unfolding find_free_dir_entry
  find_free_some k e = rw (e, find_free_dir_entry)

  pub find_free_none :
      find_entry is_free dir max_dir_entries 0 ≡ none
      → find_free_dir_entry dir 0 s ≡ (err enospc, s)
  unfolding find_free_dir_entry
  find_free_none e = rw (e, find_free_dir_entry)

first_free :
    (dir : Directory) → is_free (dir 0) ≡ true → find_entry is_free dir max_dir_entries 0 ≡ some 0
first_free dir e = First-find_entry is_free dir max_dir_entries 0 0 (record {
  above = omega arith;
  below = omega arith;
  passes = e;
  before = λ m lo hi. absurd (omega arith);
})

not_first :
    (dir : Directory) (k : ℕ)
    → is_free (dir 0) ≡ false
    → find_entry is_free dir max_dir_entries 0 ≡ some k
    → k ≢ 0
not_first dir k used e zero_k =
    let passes : is_free (dir k) ≡ true =
      (find_entry-First is_free dir max_dir_entries 0 k e).passes in
    let here : is_free (dir 0) ≡ true = rw zero_k at passes in cc

-- `check_dir_empty` accepts a directory exactly when its first entry is free, whatever the others
-- are; with the first entry in use it returns ENOTEMPTY, or ENOSPC if no entry is free.
pub check_dir_empty_lem :
    {s : FsState} (path : CString) {i : ℕ} {n : Inode} {entries : Block}
    → path_to_inode path 0 s ≡ (ok (i, n), s)
    → is_dir n.mode ≡ true
    → Reads s (n.ptrs 0) entries
    → check_dir_empty path s ≡ (verdict (decode_dir entries) (ok (i, n.ptrs 0)), s)
unfolding check_dir_empty
check_dir_empty_lem {s} path {entries} h dir r =
    elim (Bool-cases (is_free (decode_dir entries 0))) [
      | inl e ↦ rw (
        h,
        dir,
        r,
        find_free_some (decode_dir entries) s 0 (first_free (decode_dir entries) e),
        e,
      )
      | inr e ↦ elim (Option-cases (find_entry is_free (decode_dir entries) max_dir_entries 0)) [
        | inl full ↦ rw (h, dir, r, find_free_none (decode_dir entries) s full, e, full)
        | inr (k, some_k) ↦ rw (
          h,
          dir,
          r,
          find_free_some (decode_dir entries) s k some_k,
          ne→== k 0 (not_first (decode_dir entries) k e some_k),
          e,
          some_k,
        )
      ]
    ]

module _ {s : FsState} {path : CString} {ts : List CString} {t : CString} {p d slot i : ℕ}
    (v : IsVolume s) (h : HasEntry s path ts t p d slot i) where
  -- The result of `fs_rmdir` when the first entry of the directory is free.
  pub fs_rmdir-ok :
      i < s.superblock.disk_size
      → let b = (inode_at s i).ptrs 0 in
        is_dir (inode_at s i).mode ≡ true
        → b < s.superblock.disk_size
        → is_free (dir_at s b 0) ≡ true
        → fs_rmdir path s ≡ (ok tt, given_back s d slot (i ∷ b ∷ []) 2)
  unfolding fs_rmdir
  fs_rmdir-ok below dir b_below free =
      let b : ℕ = (inode_at s i).ptrs 0 in
      let check : check_dir_empty path s ≡ (ok (i, b), s) =
        check_dir_empty_lem path (path_to_entry v h below) dir
          (block_read-ok {s = s} (v.on_disk b b_below))
        ∙ rw free in
      rw (
        check,
        unlink_directory_entry-ok v h,
        modify_bitmap-ok false (i ∷ b ∷ []) (with_block s d (without_entry s d slot))
            (omega (arith, v.fits_bitmap), (omega (arith, v.fits_bitmap), tt))
            (OnDisk-put_block d (without_entry s d slot) (v.on_disk 1 (omega (arith, v.has_root)))),
      )
