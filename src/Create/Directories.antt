-- ===== src/Create/Directories.antt =====
-- What `fs_mkdir` of homework.c leaves.
use fuse_file_system.Prelude.{
  ℕ, ◌+◌, ◌-◌, ◌^◌, ◌<◌, ◌≡◌, ◌≢◌, ◌∙◌, sym, ap, refl, true, false, ◌||◌, List, [], ◌∷◌, arith,
  take, has,
}
use fuse_file_system.Layout.{Block, decode_dir, encode_dir, encode_inode, max_dir_entries, zeros}
use fuse_file_system.Layout.RoundTrip.{decode-encode_inode}
use fuse_file_system.State.{FsState, ok}
use fuse_file_system.Host.{Host}
use fuse_file_system.Disk.Laws.{
  OnDisk, with_block, block_read-ok, block_write-ok, OnDisk-put_block, block_of_read,
  block-put_block_ne, block-put_block_self,
}
use fuse_file_system.Bitmap.{find_first_nfree_blocks}
use fuse_file_system.Bitmap.Bits.{used}
use fuse_file_system.Bitmap.Count.{Distinct}
use fuse_file_system.Bitmap.Fresh.{Distinct-free_blocks}
use fuse_file_system.Bitmap.Modify.{with_bitmap, modify_bitmap-ok, used-marked_set}
use fuse_file_system.Bitmap.Search.{free_blocks, find_first_nfree_blocks_lem}
use fuse_file_system.Paths.{CString, path_to_inode}
use fuse_file_system.Paths.Resolve.{Reads, path_to_inode_whole}
use fuse_file_system.Attributes.{fs_getattr}
use fuse_file_system.Listing.{fs_readdir}
use fuse_file_system.Listing.Entries.{valid_entries, fs_readdir_lem}
use fuse_file_system.Disk.{put_block}
use fuse_file_system.Directory.Place.{path_to_place, get_entry_name-ok}
use fuse_file_system.Create.{take_blocks, new_inode, create_entry, create_directory_entry, fs_mkdir}
use fuse_file_system.Create.Inodes.{
  stat_made, new_folder-FitsInode, new_folder-is_dir, new_folder-ptr, new_folder-stat,
}
use fuse_file_system.Create.Success.{HasRoom, validated, free_slot}
use fuse_file_system.Create.Entry.{FitsEntry, with_entry, after-Resolves}
use fuse_file_system.Volume.{IsVolume, Untouched, dir_at}
use fuse_file_system.Volume.Keeps.{with_block-IsVolume, take-IsVolume}

-- The inode in block `n`, the entry in the directory, no entries in block `m`, the bits and the count.
abbrev pub made : Host → ℕ → FsState → CString → (d slot n m : ℕ) → FsState
made host mode s t d slot n m = with_bitmap true (n ∷ m ∷ []) (
    take_blocks 2 (
      with_block
        (with_block (with_block s n (encode_inode (new_inode host mode true m))) d
          (encode_dir (with_entry s t d slot n)))
        m zeros))

module _ {s : FsState} {path : CString} {ts : List CString} {t : CString} {p d slot : ℕ}
    (v : IsVolume s) (h : HasRoom s path ts t p d slot) (host : Host) (mode n m : ℕ) (rest : List ℕ)
    (free : free_blocks s.bitmap (s.superblock.disk_size - 0) 0 ≡ n ∷ m ∷ rest) where
  pub fresh : Distinct false s.superblock.disk_size s.bitmap (n ∷ m ∷ [])
  fresh =
      let d : Distinct false s.superblock.disk_size s.bitmap (take 2 (n ∷ m ∷ rest)) = rw free at (
        Distinct-free_blocks s.bitmap s.superblock.disk_size (s.superblock.disk_size - 0) 0 2
          (omega arith)) in
      d

  first_below : n < s.superblock.disk_size
  unfolding Distinct
  first_below = fresh.0

  second_below : m < s.superblock.disk_size
  unfolding Distinct
  second_below = fresh.3.0

  first_unused : used s.bitmap n ≡ false
  unfolding Distinct
  first_unused = fresh.1

  second_unused : used s.bitmap m ≡ false
  unfolding Distinct
  second_unused = fresh.3.1

  different : n ≢ m
  unfolding Distinct
  different = ground (arith, fresh.2)

  ne_of_used : (lba k : ℕ) → used s.bitmap lba ≡ true → used s.bitmap k ≡ false → lba ≢ k
  ne_of_used lba k u w e = cc (u, w, e)

  two_blocks : find_first_nfree_blocks 0 2 s ≡ (ok (n ∷ m ∷ []), s)
  two_blocks =
      rw (find_first_nfree_blocks_lem 0 2 s (omega arith) v.fits_bitmap, free) (ground arith)

  entered :
      create_entry host path mode true d (dir_at s d) slot (n ∷ m ∷ []) s
      ≡ (ok tt, made host mode s t d slot n m)
  unfolding create_entry
  entered =
      let inode = encode_inode (new_inode host mode true m) in
      let entries = encode_dir (with_entry s t d slot n) in
      let s1 = with_block s n inode in
      let s2 = with_block s1 d entries in
      let s3 = with_block s2 m zeros in
      let zero_ne_n = ne_of_used 0 n v.super_used first_unused in
      let zero_ne_m = ne_of_used 0 m v.super_used second_unused in
      rw (
        block_write-ok {s = s} (v.on_disk n first_below) inode (omega (arith, zero_ne_n)),
        get_entry_name-ok h.place s1,
        block_write-ok {s = s1} (OnDisk-put_block n inode (v.on_disk d h.below)) entries
            (omega (arith, h.not_super)),
        block_write-ok {s = s2}
            (OnDisk-put_block d entries (OnDisk-put_block n inode (v.on_disk m second_below))) zeros
            (omega (arith, zero_ne_m)),
        modify_bitmap-ok true (n ∷ m ∷ []) (take_blocks 2 s3)
            (
              omega (arith, v.fits_bitmap, first_below),
              (omega (arith, v.fits_bitmap, second_below), tt),
            )
            (OnDisk-put_block m zeros (
              OnDisk-put_block d entries
                (OnDisk-put_block n inode (v.on_disk 1 (omega (arith, v.has_root)))))),
      )

  pub fs_mkdir-ok : fs_mkdir host path mode s ≡ (ok tt, made host mode s t d slot n m)
  unfolding fs_mkdir create_directory_entry
  fs_mkdir-ok =
      rw (path_to_place v h.place, validated v h, free_slot v h, two_blocks, h.pointer) entered

  pub made-IsVolume : IsVolume (made host mode s t d slot n m)
  made-IsVolume =
      let one_ne_n = ne_of_used 1 n v.bitmap_used first_unused in
      let one_ne_m = ne_of_used 1 m v.bitmap_used second_unused in
      take-IsVolume
        (with_block-IsVolume m zeros (λ e. one_ne_m (sym e))
          (with_block-IsVolume d _ h.not_bitmap
            (with_block-IsVolume n _ (λ e. one_ne_n (sym e)) v)))
        (n ∷ m ∷ []) fresh

  after : FsState
  after = made host mode s t d slot n m

  after-OnDisk : (lba : ℕ) → lba < s.superblock.disk_size → OnDisk after.image lba
  unfolding after
  after-OnDisk lba lt =
      OnDisk-put_block 1 _
        (OnDisk-put_block m _ (OnDisk-put_block d _ (OnDisk-put_block n _ (v.on_disk lba lt))))

  -- The last two writes, and the two before, seen from a block that they do not touch.
  behind_entries :
      (lba : ℕ)
      → lba < s.superblock.disk_size
      → lba ≢ m
      → lba ≢ 1
      → after.image.block lba
        ≡ (with_block
              (with_block s n (encode_inode (new_inode host mode true m)))
              d
              (encode_dir (with_entry s t d slot n))).image.block
            lba
  unfolding after
  behind_entries lba lt ne_m ne_1 =
      let on =
        OnDisk-put_block d (encode_dir (with_entry s t d slot n))
          (OnDisk-put_block n (encode_inode (new_inode host mode true m)) (v.on_disk lba lt)) in
      block-put_block_ne 1 _ (OnDisk-put_block m zeros on) ne_1 ∙ block-put_block_ne m zeros on ne_m

  frame : (lba : ℕ) (b : Block) → Untouched s d lba → Reads s lba b → Reads after lba b
  frame lba b u r =
      block_read-ok {s = after} (after-OnDisk lba u.below)
      ∙ ap (λ c. (ok c, after))
          (behind_entries lba u.below (ne_of_used lba m u.in_use second_unused) u.not_bitmap
            ∙ block-put_block_ne d _ (OnDisk-put_block n _ (v.on_disk lba u.below)) u.not_entries
            ∙ block-put_block_ne n _ (v.on_disk lba u.below)
                (ne_of_used lba n u.in_use first_unused)
            ∙ sym (block_of_read {s = s} (v.on_disk lba u.below) r))

  entries-Reads : Reads after d (encode_dir (with_entry s t d slot n))
  entries-Reads =
      block_read-ok {s = after} (after-OnDisk d h.below)
      ∙ ap (λ c. (ok c, after))
          (behind_entries d h.below (ne_of_used d m h.in_use second_unused) h.not_bitmap
            ∙ block-put_block_self (put_block s.image n (encode_inode (new_inode host mode true m)))
                d _)

  inode-Reads : Reads after n (encode_inode (new_inode host mode true m))
  inode-Reads =
      let one_ne_n = ne_of_used 1 n v.bitmap_used first_unused in
      let d_ne_n = ne_of_used d n h.in_use first_unused in
      block_read-ok {s = after} (after-OnDisk n first_below)
      ∙ ap (λ c. (ok c, after))
          (behind_entries n first_below different (λ e. one_ne_n (sym e))
            ∙ block-put_block_ne d _ (OnDisk-put_block n _ (v.on_disk n first_below))
                (λ e. d_ne_n (sym e))
            ∙ block-put_block_self s.image n _)

  new_entries-Reads : Reads after m zeros
  unfolding after
  new_entries-Reads =
      let one_ne_m = ne_of_used 1 m v.bitmap_used second_unused in
      block_read-ok {s = after} (after-OnDisk m second_below)
      ∙ ap (λ c. (ok c, after))
          (block-put_block_ne 1 _
              (OnDisk-put_block m zeros
                (OnDisk-put_block d _ (OnDisk-put_block n _ (v.on_disk m second_below))))
              (λ e. one_ne_m (sym e))
            ∙ block-put_block_self
                (put_block (put_block s.image n (encode_inode (new_inode host mode true m))) d
                  (encode_dir (with_entry s t d slot n)))
                m zeros)

  found :
      FitsEntry s t d slot
      → mode < 2 ^ 12
      → path_to_inode path 0 after ≡ (ok (n, new_inode host mode true m), after)
  found f small =
      path_to_inode_whole path (after-Resolves v h f n first_below after frame entries-Reads)
        inode-Reads
      ∙ ap (λ i. (ok (n, i), after))
          (decode-encode_inode (new_inode host mode true m)
            (new_folder-FitsInode host mode m small (omega (arith, second_below, v.fits_bitmap))))

  none_valid : (k : ℕ) → (decode_dir zeros k).valid ≡ 0
  unfolding decode_dir
  none_valid k = refl

  no_entries : valid_entries (decode_dir zeros) max_dir_entries 0 ≡ []
  unfolding valid_entries decode_dir
  no_entries = refl

  -- `fs_mkdir` of permission bits, where the directory has a free entry and not the name and two
  -- blocks are free, returns 0 and leaves a volume in order, in which the blocks in use are those
  -- of before and the first two that were free; `fs_getattr` then reports a directory with these
  -- permissions, the ids of the caller, size 4096 and the times of the clock, ids cut to 16 bits
  -- and times to 32, and `fs_readdir` lists nothing.
  pub mkdir_then_readdir :
      FitsEntry s t d slot
      → mode < 2 ^ 12
      → let s' = made host mode s t d slot n m in
        (fs_mkdir host path mode s ≡ (ok tt, s'))
        × IsVolume s'
        × ((j : ℕ) → used s'.bitmap j ≡ (has j (n ∷ m ∷ []) || used s.bitmap j))
        × (fs_getattr path s' ≡ (ok (stat_made host (2 ^ 14 + mode) 4096), s'))
        × ((offset : ℕ) → fs_readdir path offset s' ≡ (ok (0, []), s'))
  unfolding fs_getattr after
  mkdir_then_readdir f small = (
    fs_mkdir-ok,
    made-IsVolume,
    λ j. used-marked_set (n ∷ m ∷ []) j v.bytes,
    rw (found f small, new_folder-stat host mode m small),
    λ offset.
        fs_readdir_lem {entries = zeros} path offset made-IsVolume (found f small)
          (new_folder-is_dir host mode m small)
          (rw (new_folder-ptr host mode m small) new_entries-Reads)
          (λ k lt ne. absurd (ne (none_valid k)))
        ∙ rw no_entries,
  )
