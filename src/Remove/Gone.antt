-- ===== src/Remove/Gone.antt =====
-- What later calls see of a file that `fs_unlink` has removed, and that the volume stays in order.
use fuse_file_system.Prelude.{
  ℕ, ◌+◌, ◌<◌, ◌≡◌, ◌≢◌, refl, sym, ◌∙◌, ap, false, not, ◌&&◌, List, [], ◌∷◌, arith, ◌==◌, length,
  length-append, has, inl, inr, Bool-cases, ==→ne, eq→==,
}
use fuse_file_system.Layout.{Block, Dirent, Directory, decode_dir, encode_dir, max_dir_entries}
use fuse_file_system.Layout.RoundTrip.{
  FitsBlock, FitsDirectory, decode-encode_dir, decode_dir-FitsDirectory,
}
use fuse_file_system.State.{FsState, ok, err, enoent}
use fuse_file_system.Disk.Laws.{
  OnDisk, block_read-ok, OnDisk-put_block, block_of_read, block-put_block_ne, block-put_block_self,
}
use fuse_file_system.Bitmap.Bits.{used}
use fuse_file_system.Bitmap.Modify.{used-marked_clear}
use fuse_file_system.Paths.{CString, is_named}
use fuse_file_system.Paths.Entries.{is_named-SameDirent}
use fuse_file_system.Paths.Resolve.{Reads, Resolves-frame, path_to_inode_missing}
use fuse_file_system.Content.{file_blocks}
use fuse_file_system.Content.Ptrs.{ptr_list, length-ptr_list}
use fuse_file_system.Directory.Place.{HasEntry, short_name}
use fuse_file_system.Attributes.{fs_getattr}
use fuse_file_system.Remove.{invalidate, fs_unlink}
use fuse_file_system.Remove.Unlink.{
  blocks_of, without_entry, given_back, removed, OwnsBlocks, fs_unlink-ok,
}
use fuse_file_system.Volume.{IsVolume, Untouched, inode_at, dir_at}
use fuse_file_system.Volume.Keeps.{with_block-IsVolume, give-IsVolume}

is_named-invalid : (t : CString) (e : Dirent) → e.valid ≡ 0 → is_named t e ≡ false
unfolding is_named
is_named-invalid t e h = rw (eq→== e.valid 0 h)

-- How many blocks a file has.
pub length-blocks_of :
    (s : FsState) (i : ℕ) → length (blocks_of s i) ≡ file_blocks (inode_at s i).size + 1
length-blocks_of s i = omega (
  arith,
  length-append (ptr_list (inode_at s i) (file_blocks (inode_at s i).size) 0) (i ∷ []),
  length-ptr_list (inode_at s i) (file_blocks (inode_at s i).size) 0,
)

module _ {s : FsState} {path : CString} {ts : List CString} {t : CString} {p d slot i : ℕ}
    (v : IsVolume s) (h : HasEntry s path ts t p d slot i) (o : OwnsBlocks s i) where
  -- `fs_unlink` of a file whose blocks are its own returns 0 and leaves a volume in order: the
  -- blocks in use are those of before without the file's, which the statistics count as free.
  pub fs_unlink-IsVolume :
      let (r, s') = fs_unlink path s in
      (r ≡ ok tt)
      × IsVolume s'
      × ((j : ℕ) → used s'.bitmap j ≡ (not (has j (blocks_of s i)) && used s.bitmap j))
  fs_unlink-IsVolume = rw (fs_unlink-ok v h o) (
    refl,
    rw (← length-blocks_of s i) (
        give-IsVolume (with_block-IsVolume d (without_entry s d slot) h.not_bitmap v)
          (blocks_of s i) o.distinct o.not_format),
    λ j. used-marked_clear (blocks_of s i) j v.bytes,
  )

module _ {s : FsState} {path : CString} {ts : List CString} {t : CString} {p d slot i : ℕ}
    (v : IsVolume s) (h : HasEntry s path ts t p d slot i) (entries : FitsBlock (s.image.block d))
    (only : (m : ℕ) → m < max_dir_entries → m ≢ slot → is_named t (dir_at s d m) ≡ false)
    (bs : List ℕ) (count : ℕ) where
  after : FsState
  after = given_back s d slot bs count

  after-OnDisk : (lba : ℕ) → lba < s.superblock.disk_size → OnDisk after.image lba
  unfolding after
  after-OnDisk lba lt = OnDisk-put_block 1 _ (OnDisk-put_block d _ (v.on_disk lba lt))

  frame : (lba : ℕ) (b : Block) → Untouched s d lba → Reads s lba b → Reads after lba b
  unfolding after
  frame lba b u r =
      block_read-ok {s = after} (after-OnDisk lba u.below)
      ∙ ap (λ c. (ok c, after))
          (block-put_block_ne 1 _ (OnDisk-put_block d _ (v.on_disk lba u.below)) u.not_bitmap
            ∙ block-put_block_ne d _ (v.on_disk lba u.below) u.not_entries
            ∙ sym (block_of_read {s = s} (v.on_disk lba u.below) r))

  entries-Reads : Reads after d (without_entry s d slot)
  unfolding after
  entries-Reads =
      block_read-ok {s = after} (after-OnDisk d h.below)
      ∙ ap (λ c. (ok c, after))
          (block-put_block_ne 1 _ (OnDisk-put_block d _ (v.on_disk d h.below)) h.not_bitmap
            ∙ block-put_block_self s.image d _)

  left : Directory
  left = invalidate (dir_at s d) slot

  left-FitsDirectory : FitsDirectory left
  unfolding left
  left-FitsDirectory j = elim (Bool-cases (j == slot)) [
    | inl e ↦
        let old = decode_dir-FitsDirectory entries slot in
        rw e (record { valid = omega arith; inode = old.inode; name = old.name })
    | inr e ↦ rw e (decode_dir-FitsDirectory entries j)
  ]

  absent : (m : ℕ) → m < max_dir_entries → is_named t (decode_dir (encode_dir left) m) ≡ false
  unfolding left
  absent m lt =
      is_named-SameDirent t _ _ (short_name h.place) (decode-encode_dir left left-FitsDirectory m)
      ∙ elim (Bool-cases (m == slot)) [
        | inl e ↦ rw e (is_named-invalid t _ refl)
        | inr e ↦ rw e (only m lt (==→ne m slot e))
      ]

  -- The path leads nowhere once the entry is invalid, whichever blocks are given back.
  pub entry_gone :
      fs_getattr path (given_back s d slot bs count) ≡ (err enoent, given_back s d slot bs count)
  unfolding fs_getattr after left
  entry_gone =
      rw
        (path_to_inode_missing path ts t (s.image.block p) (without_entry s d slot) h.parsed
          (Resolves-frame s (Untouched s d) after frame h.resolves)
          (frame p (s.image.block p) h.parent (block_read-ok {s = s} (v.on_disk p h.parent.below)))
          h.directory (rw h.pointer entries-Reads) absent)
        refl

-- `fs_unlink` of a file whose blocks are its own, in a directory that has its name once, returns
-- 0, and `fs_getattr` of the path then returns ENOENT.
pub unlink_then_getattr :
    {s : FsState} {path : CString} {ts : List CString} {t : CString} {p d slot i : ℕ}
    → IsVolume s
    → HasEntry s path ts t p d slot i
    → OwnsBlocks s i
    → FitsBlock (s.image.block d)
    → ((m : ℕ) → m < max_dir_entries → m ≢ slot → is_named t (dir_at s d m) ≡ false)
    → let s' = removed s d slot i in
      (fs_unlink path s ≡ (ok tt, s')) × (fs_getattr path s' ≡ (err enoent, s'))
unlink_then_getattr {s} {i} v h o entries only = (
  fs_unlink-ok v h o,
  entry_gone v h entries only (blocks_of s i) (file_blocks (inode_at s i).size + 1),
)
