-- ===== src/Write/InPlace.antt =====
-- `fs_write` of homework.c over bytes that the file has already.
use fuse_file_system.Prelude.{
  ℕ, zero, suc, ◌+◌, ◌-◌, ◌*◌, ◌/◌, ◌%◌, ◌^◌, ◌≤◌, ◌<◌, ◌≡◌, ◌≢◌, ◌∙◌, ap, refl, true, false, arith,
  lt→leb, le→ltb, to_int, lt_int, add_int, sub_int, sub_size, extend,
}
use fuse_file_system.Layout.{Block, Inode, block_size, encode_inode, ptr_count}
use fuse_file_system.State.{FsState, ok}
use fuse_file_system.Host.{Host}
use fuse_file_system.Disk.Laws.{OnDisk, with_block, block_write-ok, OnDisk-put_block}
use fuse_file_system.Bitmap.{bitmap_bits}
use fuse_file_system.Bitmap.Count.{count_free-le}
use fuse_file_system.Paths.{CString, is_reg, path_to_inode}
use fuse_file_system.Content.{file_blocks}
use fuse_file_system.Read.Blocks.{rounds_to-exact}
use fuse_file_system.Write.{write_end, extend_file, written_inode, charge, write_range, fs_write}
use fuse_file_system.Write.Store.{stored, AreBlocks, write_loop-ok}
use fuse_file_system.Write.Buffer.{filled_buffer, fill_buffer-ok}
use fuse_file_system.Volume.{IsVolume, inode_at}

-- The last block of the range, the buffer, and the state that is left.
abbrev pub end_of : (len offset : ℕ) → ℕ
end_of len offset = (offset + len - 1) / block_size

abbrev pub with_inode : Host → FsState → (i len offset : ℕ) → FsState
with_inode host s i len offset =
    with_block s i (encode_inode (written_inode host (inode_at s i) len offset))

abbrev pub write_buffer : Host → FsState → (i : ℕ) → Block → (len offset : ℕ) → Block
write_buffer host s i src len offset =
    filled_buffer (with_inode host s i len offset) (inode_at s i) (file_blocks (inode_at s i).size)
      (offset / block_size) (end_of len offset) src len (offset % block_size)

abbrev pub overwritten : Host → FsState → (i : ℕ) → Block → (len offset : ℕ) → FsState
overwritten host s i src len offset =
    charge (add_int (sub_int (end_of len offset) (file_blocks (inode_at s i).size)) 1) (
      stored (with_inode host s i len offset) (written_inode host (inode_at s i) len offset)
        (write_buffer host s i src len offset) (end_of len offset - offset / block_size + 1)
        (offset / block_size) 0)

-- A regular file that the path leads to, with different blocks, none of them its inode's; the bytes
-- that are written, at least one, are within its size.
pub record CanOverwrite (host : Host) (s : FsState) (path : CString) (i len offset : ℕ)
    : Type 0 where
  pub found : path_to_inode path 0 s ≡ (ok (i, inode_at s i), s)
  pub regular : is_reg (inode_at s i).mode ≡ true
  pub small : (inode_at s i).size < 2 ^ 31
  pub some_bytes : 0 < len
  pub inside : offset + len ≤ (inode_at s i).size
  pub few : file_blocks (inode_at s i).size ≤ ptr_count
  pub inode : i < s.superblock.disk_size
  pub not_super : 0 < i
  pub below :
      (k : ℕ) → k < file_blocks (inode_at s i).size → (inode_at s i).ptrs k < s.superblock.disk_size
  pub positive : (k : ℕ) → k < file_blocks (inode_at s i).size → 0 < (inode_at s i).ptrs k
  pub apart : (k : ℕ) → k < file_blocks (inode_at s i).size → (inode_at s i).ptrs k ≢ i
  pub distinct :
      (j k : ℕ)
      → j < k
      → k < file_blocks (inode_at s i).size
      → (inode_at s i).ptrs j ≢ (inode_at s i).ptrs k
  pub memory : (room : ℕ) → host.calloc room ≡ true

write_end-exact :
    (len offset size : ℕ)
    → size < 2 ^ 31
    → 0 < len
    → offset + len ≤ size
    → write_end len offset ≡ end_of len offset
write_end-exact len offset size small some inside = omega arith

end_in_file :
    (len offset size : ℕ)
    → size < 2 ^ 31
    → 0 < len
    → offset + len ≤ size
    → end_of len offset < file_blocks size
unfolding file_blocks
end_in_file len offset size small some inside = ground arith

no_blocks_needed :
    (end blocks : ℕ)
    → end < blocks
    → blocks ≤ ptr_count
    → lt_int 0 (add_int (sub_int end blocks) 1) ≡ false
no_blocks_needed end blocks lt few = ground arith

room-exact :
    (start end : ℕ)
    → start ≤ end
    → end < ptr_count
    → extend (to_int (block_size * add_int (sub_int end start) 1)) ≡ block_size * (end - start + 1)
room-exact start end le few = ground arith

module _ {host : Host} {s : FsState} {path : CString} {i len offset : ℕ} (v : IsVolume s)
    (h : CanOverwrite host s path i len offset) (src : Block) where
  -- The range is in the file, whose blocks are on the disk.
  pub ordered : (offset / block_size) ≤ (end_of len offset)
  ordered = omega (arith, h.some_bytes)

  pub in_file : (end_of len offset) < (file_blocks (inode_at s i).size)
  in_file = end_in_file len offset (inode_at s i).size h.small h.some_bytes h.inside

  pub on_disk :
      (k : ℕ)
      → k < (file_blocks (inode_at s i).size)
      → OnDisk (with_inode host s i len offset).image ((inode_at s i).ptrs k)
  on_disk k lt = OnDisk-put_block i _ (v.on_disk ((inode_at s i).ptrs k) (h.below k lt))

  pub are_blocks :
      AreBlocks
        (with_inode host s i len offset)
        (written_inode host (inode_at s i) len offset)
        ((end_of len offset) - (offset / block_size) + 1)
        (offset / block_size)
  are_blocks = record {
    few = omega (arith, ordered, in_file, h.few);
    on_disk = λ k lo hi. on_disk k (omega (arith, ordered, in_file));
    not_super = λ k lo hi. h.positive k (omega (arith, ordered, in_file));
    distinct = λ j k lo lt hi. h.distinct j k lt (omega (arith, ordered, in_file));
  }

  write_range-ok :
      write_range host i (inode_at s i) src len offset s
      ≡ (ok len, overwritten host s i src len offset)
  unfolding write_range extend_file
  write_range-ok =
      rw
        (
          write_end-exact len offset (inode_at s i).size h.small h.some_bytes h.inside,
          no_blocks_needed (end_of len offset) (file_blocks (inode_at s i).size) in_file h.few,
          block_write-ok {s = s} (v.on_disk i h.inode)
              (encode_inode (written_inode host (inode_at s i) len offset)) h.not_super,
          room-exact (offset / block_size) (end_of len offset) ordered
              (omega (arith, in_file, h.few)),
          h.memory _,
          fill_buffer-ok {s = with_inode host s i len offset}
              (written_inode host (inode_at s i) len offset) (file_blocks (inode_at s i).size)
              (offset / block_size) (end_of len offset) src len (offset % block_size)
              (on_disk (offset / block_size) (omega (arith, ordered, in_file)))
              (on_disk (end_of len offset) in_file) ordered (omega (arith, in_file, h.few))
              (omega (arith, in_file)) (omega (arith, h.some_bytes)),
          rounds_to-exact (offset / block_size) (end_of len offset) ordered
              (omega (arith, in_file, h.few)),
          write_loop-ok (with_inode host s i len offset)
              (written_inode host (inode_at s i) len offset) (write_buffer host s i src len offset)
              ((end_of len offset) - (offset / block_size) + 1) (offset / block_size) 0 are_blocks,
        )
        (ap (λ count. (ok count, overwritten host s i src len offset))
          (omega (arith, h.inside, h.small)))

  tests_pass :
      fs_write host path src len offset s ≡ write_range host i (inode_at s i) src len offset s
  unfolding fs_write
  tests_pass = rw (
    h.found,
    h.regular,
    lt→leb (2 ^ 31) (inode_at s i).size h.small,
    le→ltb (inode_at s i).size offset (omega (arith, h.inside)),
  )

  pub fs_write-ok :
      fs_write host path src len offset s ≡ (ok len, overwritten host s i src len offset)
  fs_write-ok = tests_pass ∙ write_range-ok

stored-stat_vfs :
    (s : FsState) (n : Inode) (buf : Block) (rounds i from : ℕ)
    → (stored s n buf rounds i from).stat_vfs ≡ s.stat_vfs
unfolding stored
stored-stat_vfs s n buf zero i from = refl
stored-stat_vfs s n buf (suc rounds) i from =
    stored-stat_vfs (with_block s (n.ptrs i) (λ o. buf (from + o))) n buf rounds (i + 1)
      (from + block_size)

stored-bitmap :
    (s : FsState) (n : Inode) (buf : Block) (rounds i from : ℕ)
    → (stored s n buf rounds i from).bitmap ≡ s.bitmap
unfolding stored
stored-bitmap s n buf zero i from = refl
stored-bitmap s n buf (suc rounds) i from =
    stored-bitmap (with_block s (n.ptrs i) (λ o. buf (from + o))) n buf rounds (i + 1)
      (from + block_size)

charged :
    (free end blocks : ℕ)
    → free ≤ bitmap_bits
    → end < blocks
    → blocks ≤ ptr_count
    → sub_size free (extend (add_int (sub_int end blocks) 1)) ≡ free + (blocks - (end + 1))
charged free end blocks small lt few = ground arith

-- `fs_write` of bytes that a file has already raises the count of free blocks by the number of
-- blocks of the file behind the last one written, though the bitmap stays as it was.
pub fs_write_miscounts :
    {host : Host} {s : FsState} {path : CString} {i len offset : ℕ}
    → IsVolume s
    → CanOverwrite host s path i len offset
    → (src : Block)
    → let s' = (fs_write host path src len offset s).1 in
      (s'.stat_vfs.bfree
        ≡ s.stat_vfs.bfree + (file_blocks (inode_at s i).size - (end_of len offset + 1)))
      × (s'.bitmap ≡ s.bitmap)
fs_write_miscounts {host} {s} {i} {len} {offset} v h src =
    let stays =
      stored-stat_vfs (with_inode host s i len offset)
        (written_inode host (inode_at s i) len offset) (write_buffer host s i src len offset)
        (end_of len offset - offset / block_size + 1) (offset / block_size) 0 in
    let small : s.stat_vfs.bfree ≤ bitmap_bits =
      omega (arith, v.bfree, v.fits_bitmap, count_free-le s.bitmap s.superblock.disk_size 0) in
    rw (fs_write-ok v h src, stays)
      (
        charged s.stat_vfs.bfree (end_of len offset) (file_blocks (inode_at s i).size) small
            (in_file v h src) h.few,
        stored-bitmap (with_inode host s i len offset)
            (written_inode host (inode_at s i) len offset) (write_buffer host s i src len offset)
            (end_of len offset - offset / block_size + 1) (offset / block_size) 0,
      )
