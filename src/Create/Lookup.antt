-- ===== src/Create/Lookup.antt =====
-- What a later call sees of a file that `fs_create` has made, and of everything else.
use fuse_file_system.Prelude.{ℕ, ◌-◌, ◌^◌, ◌<◌, ◌≡◌, ◌≢◌, sym, ◌∙◌, ap, true, false, List, ◌∷◌}
use fuse_file_system.Layout.{Block, encode_inode, encode_dir}
use fuse_file_system.Layout.RoundTrip.{decode-encode_inode}
use fuse_file_system.State.{FsState, ok}
use fuse_file_system.Host.{Host}
use fuse_file_system.Disk.{put_block}
use fuse_file_system.Disk.Laws.{
  OnDisk, block_read-ok, OnDisk-put_block, block_of_read, block-put_block_ne, block-put_block_self,
}
use fuse_file_system.Bitmap.Bits.{used}
use fuse_file_system.Bitmap.Search.{free_blocks}
use fuse_file_system.Paths.{CString, is_dir}
use fuse_file_system.Paths.Resolve.{Reads, path_to_inode_whole}
use fuse_file_system.Attributes.{fs_getattr}
use fuse_file_system.Create.{new_inode, fs_create}
use fuse_file_system.Bitmap.Fresh.{free_head}
use fuse_file_system.Create.Entry.{FitsEntry, with_entry, after-Resolves}
use fuse_file_system.Create.Inodes.{stat_made, new_file-FitsInode, new_file-stat}
use fuse_file_system.Create.Success.{HasRoom, created, fs_create-ok}
use fuse_file_system.Volume.{IsVolume, Untouched}

module _ {s : FsState} {path : CString} {ts : List CString} {t : CString} {p d slot : ℕ}
    (v : IsVolume s) (h : HasRoom s path ts t p d slot) (f : FitsEntry s t d slot) (host : Host)
    (mode n : ℕ) (rest : List ℕ)
    (free : free_blocks s.bitmap (s.superblock.disk_size - 0) 0 ≡ n ∷ rest) where
  after : FsState
  after = created host mode s t d slot n

  fresh : (n < s.superblock.disk_size) × (used s.bitmap n ≡ false)
  fresh = free_head s.bitmap s.superblock.disk_size n rest free

  ne_of_used : (lba : ℕ) → used s.bitmap lba ≡ true → lba ≢ n
  ne_of_used lba u e = cc (u, fresh.1, e)

  after-OnDisk : (lba : ℕ) → lba < s.superblock.disk_size → OnDisk after.image lba
  unfolding after
  after-OnDisk lba lt =
      OnDisk-put_block 1 _ (OnDisk-put_block d _ (OnDisk-put_block n _ (v.on_disk lba lt)))

  -- A block that is not written keeps what it holds.
  kept :
      (lba : ℕ)
      → lba < s.superblock.disk_size
      → lba ≢ n
      → lba ≢ d
      → lba ≢ 1
      → after.image.block lba ≡ s.image.block lba
  unfolding after
  kept lba lt ne_n ne_d ne_1 =
      let on = v.on_disk lba lt in
      block-put_block_ne 1 _ (OnDisk-put_block d _ (OnDisk-put_block n _ on)) ne_1
      ∙ block-put_block_ne d _ (OnDisk-put_block n _ on) ne_d
      ∙ block-put_block_ne n _ on ne_n

  -- Every block that the walk to the directory reads is read as before.
  frame : (lba : ℕ) (b : Block) → Untouched s d lba → Reads s lba b → Reads after lba b
  frame lba b u r =
      block_read-ok {s = after} (after-OnDisk lba u.below)
      ∙ ap (λ c. (ok c, after))
          (kept lba u.below (ne_of_used lba u.in_use) u.not_entries u.not_bitmap
            ∙ sym (block_of_read {s = s} (v.on_disk lba u.below) r))

  d_ne_n : d ≢ n
  d_ne_n = ne_of_used d h.in_use

  n_ne_1 : n ≢ 1
  n_ne_1 e = ne_of_used 1 v.bitmap_used (sym e)

  entries-Reads : Reads after d (encode_dir (with_entry s t d slot n))
  unfolding after
  entries-Reads =
      block_read-ok {s = after} (after-OnDisk d h.below)
      ∙ ap (λ c. (ok c, after))
          (block-put_block_ne 1 _
              (OnDisk-put_block d _ (OnDisk-put_block n _ (v.on_disk d h.below))) h.not_bitmap
            ∙ block-put_block_self
                (put_block s.image n (encode_inode (new_inode host mode false 0))) d _)

  new-Reads : Reads after n (encode_inode (new_inode host mode false 0))
  unfolding after
  new-Reads =
      let on = v.on_disk n fresh.0 in
      block_read-ok {s = after} (after-OnDisk n fresh.0)
      ∙ ap (λ c. (ok c, after))
          (block-put_block_ne 1 _ (OnDisk-put_block d _ (OnDisk-put_block n _ on)) n_ne_1
            ∙ block-put_block_ne d _ (OnDisk-put_block n _ on) (λ e. d_ne_n (sym e))
            ∙ block-put_block_self s.image n _)

  -- In a volume in order, where the path leads to a directory with a free entry and without the
  -- name, and a block is free, `fs_create` with a mode that is not a directory's returns 0 and
  -- makes the inode in the first free block; `fs_getattr` of the path then reports that mode, the
  -- ids of the caller, size 0 and the times of the clock, ids cut to 16 bits and times to 32.
  pub create_then_getattr :
      mode < 2 ^ 32
      → is_dir mode ≡ false
      → let s' = created host mode s t d slot n in
        (fs_create host path mode s ≡ (ok tt, s'))
        × (fs_getattr path s' ≡ (ok (stat_made host mode 0), s'))
  unfolding fs_getattr after
  create_then_getattr small file = (
    fs_create-ok v h host mode n rest free,
    rw (
      path_to_inode_whole path (after-Resolves v h f n fresh.0 after frame entries-Reads) new-Reads,
      decode-encode_inode _ (new_file-FitsInode host mode small file),
      new_file-stat host mode small file,
    ),
  )
