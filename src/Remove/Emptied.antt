-- ===== src/Remove/Emptied.antt =====
-- What later calls see of a directory that `fs_rmdir` of homework.c has removed.
use fuse_file_system.Prelude.{ℕ, ◌<◌, ◌≡◌, ◌≢◌, refl, true, false, not, ◌&&◌, List, [], ◌∷◌, has}
use fuse_file_system.Layout.{max_dir_entries}
use fuse_file_system.Layout.RoundTrip.{FitsBlock}
use fuse_file_system.State.{FsState, ok, err, enoent}
use fuse_file_system.Bitmap.Bits.{used}
use fuse_file_system.Bitmap.Count.{Distinct}
use fuse_file_system.Bitmap.Modify.{used-marked_clear}
use fuse_file_system.Paths.{CString, is_dir, is_named}
use fuse_file_system.Directory.{is_free}
use fuse_file_system.Directory.Place.{HasEntry}
use fuse_file_system.Attributes.{fs_getattr}
use fuse_file_system.Remove.{fs_rmdir}
use fuse_file_system.Remove.Unlink.{without_entry, given_back}
use fuse_file_system.Remove.Gone.{entry_gone}
use fuse_file_system.Remove.Rmdir.{fs_rmdir-ok}
use fuse_file_system.Volume.{IsVolume, inode_at, dir_at}
use fuse_file_system.Volume.Keeps.{with_block-IsVolume, give-IsVolume}

-- A directory with one block of entries, of which the first is free; both its blocks are its own.
pub record LooksEmpty (s : FsState) (i b : ℕ) : Type 0 where
  pub directory : is_dir (inode_at s i).mode ≡ true
  pub pointer : (inode_at s i).ptrs 0 ≡ b
  pub first_free : is_free (dir_at s b 0) ≡ true
  pub inode_below : i < s.superblock.disk_size
  pub entries_below : b < s.superblock.disk_size
  pub distinct : Distinct true s.superblock.disk_size s.bitmap (i ∷ b ∷ [])
  pub not_format : (k : ℕ) → k < 3 → has k (i ∷ b ∷ []) ≡ false

-- `fs_rmdir` of a directory whose first entry is free, whatever the other entries are, returns 0
-- and leaves a volume in order: the blocks in use are those of before without the directory's two,
-- which the statistics count as free, so that the blocks of what it still held stay in use; where
-- the name stood once in its directory, `fs_getattr` of the path then returns ENOENT.
pub rmdir_then_getattr :
    {s : FsState} {path : CString} {ts : List CString} {t : CString} {p d slot i b : ℕ}
    → IsVolume s
    → HasEntry s path ts t p d slot i
    → LooksEmpty s i b
    → FitsBlock (s.image.block d)
    → ((m : ℕ) → m < max_dir_entries → m ≢ slot → is_named t (dir_at s d m) ≡ false)
    → let (r, s') = fs_rmdir path s in
      (r ≡ ok tt)
      × IsVolume s'
      × ((j : ℕ) → used s'.bitmap j ≡ (not (has j (i ∷ b ∷ [])) && used s.bitmap j))
      × (fs_getattr path s' ≡ (err enoent, s'))
rmdir_then_getattr {s} {path} {d} {slot} {i} {b} v h e entries only =
    let removes : fs_rmdir path s ≡ (ok tt, given_back s d slot (i ∷ b ∷ []) 2) = rw e.pointer at (
      fs_rmdir-ok v h e.inode_below e.directory (rw e.pointer e.entries_below)
        (rw e.pointer e.first_free)) in
    rw removes (
      refl,
      give-IsVolume (with_block-IsVolume d (without_entry s d slot) h.not_bitmap v) (i ∷ b ∷ [])
          e.distinct e.not_format,
      λ j. used-marked_clear (i ∷ b ∷ []) j v.bytes,
      entry_gone v h entries only (i ∷ b ∷ []) 2,
    )
