-- ===== src/Read/Range.antt =====
-- What `fs_read` of homework.c returns.
use fuse_file_system.Prelude.{
  ℕ, ◌+◌, ◌-◌, ◌*◌, ◌/◌, ◌%◌, ◌^◌, ◌≤◌, ◌<◌, ◌≡◌, ap, true, arith, ltb, lt→leb, le→ltb,
  if◌then◌else◌, to_int,
}
use fuse_file_system.Layout.{Block, Inode, block_size, zeros, ptr_count}
use fuse_file_system.State.{FsState, ok}
use fuse_file_system.Host.{Host}
use fuse_file_system.Paths.{CString, is_reg, path_to_inode}
use fuse_file_system.Read.{joined, last_block, read_len, read_range, fs_read}
use fuse_file_system.Read.Blocks.{
  blocks_from, read_blocks-ok, get_or-blocks_from, rounds_to-exact, room-exact, last_block-covers,
  read_len-exact,
}
use fuse_file_system.Volume.{HasBlocks, inode_at}

-- The byte of a file at a position.
abbrev pub file_byte : FsState → Inode → ℕ → ℕ
file_byte s n at = s.image.block (n.ptrs (at / block_size)) (at % block_size)

-- A regular file that the path leads to, whose bytes from `offset` on are asked for, at least one.
-- The blocks that are read, one more than the file has if the end is passed, are blocks of the volume.
pub record CanRead (host : Host) (s : FsState) (path : CString) (i len offset : ℕ) : Type 0 where
  pub found : path_to_inode path 0 s ≡ (ok (i, inode_at s i), s)
  pub regular : is_reg (inode_at s i).mode ≡ true
  pub small : (inode_at s i).size < 2 ^ 31
  pub in_file : offset < (inode_at s i).size
  pub some_bytes : 0 < len
  pub short : len < 2 ^ 31
  pub few : last_block (inode_at s i) len offset < ptr_count
  pub blocks :
      (k : ℕ)
      → offset / block_size ≤ k
      → k ≤ last_block (inode_at s i) len offset
      → (inode_at s i).ptrs k < s.superblock.disk_size
  pub memory : (room : ℕ) → host.calloc room ≡ true

-- How many bytes there are, and the bytes that are copied.
abbrev pub available : Inode → (len offset : ℕ) → ℕ
available n len offset = if ltb (n.size - offset) len then n.size - offset else len

abbrev pub read_buffer : FsState → Inode → (len offset : ℕ) → Block
read_buffer s n len offset o =
    joined
      (blocks_from s n (last_block n len offset - offset / block_size + 1) (offset / block_size))
      (offset % block_size + o)

module _ {host : Host} {s : FsState} {path : CString} {i len offset : ℕ} (v : HasBlocks s)
    (h : CanRead host s path i len offset) where
  start : ℕ
  start = offset / block_size

  last : ℕ
  last = last_block (inode_at s i) len offset

  ordered : start ≤ last
  unfolding start last
  ordered =
      (last_block-covers (inode_at s i) len offset h.small h.in_file h.some_bytes
        (omega (arith, h.short))).0

  exact : read_len (inode_at s i) len offset ≡ available (inode_at s i) len offset
  exact = read_len-exact (inode_at s i) len offset h.small h.in_file (omega (arith, h.short))

  covered :
      offset % block_size + available (inode_at s i) len offset ≤ block_size * (last - start + 1)
  unfolding start last
  covered = rw (← exact) (
      (last_block-covers (inode_at s i) len offset h.small h.in_file h.some_bytes
        (omega (arith, h.short))).1)

  is_int : to_int (available (inode_at s i) len offset) ≡ available (inode_at s i) len offset
  is_int = ground (arith, h.short)

  fs_read-ok :
      fs_read host path len offset s
      ≡ (ok (available (inode_at s i) len offset, read_buffer s (inode_at s i) len offset), s)
  unfolding fs_read read_range start last
  fs_read-ok =
      rw
        (
          h.found,
          h.regular,
          lt→leb (2 ^ 31) (inode_at s i).size h.small,
          lt→leb (inode_at s i).size offset h.in_file,
          room-exact (offset / block_size) (last_block (inode_at s i) len offset) ordered h.few,
          rounds_to-exact (offset / block_size) (last_block (inode_at s i) len offset) ordered
              h.few,
          h.memory _,
          read_blocks-ok {s = s} (inode_at s i) (last - start + 1) start v
              (omega (arith, ordered, h.few)) (λ k lo hi. h.blocks k lo (omega (arith, ordered))),
          exact,
          le→ltb _ _ covered,
        )
        (ap (λ count. (ok (count, read_buffer s (inode_at s i) len offset), s)) is_int)

  read_byte :
      (o : ℕ)
      → o < available (inode_at s i) len offset
      → read_buffer s (inode_at s i) len offset o ≡ file_byte s (inode_at s i) (offset + o)
  unfolding start last
  read_byte o lt =
      let k = (offset % block_size + o) / block_size in
      let inside : k < last - start + 1 = omega (arith, covered) in
      rw (get_or-blocks_from s (inode_at s i) (last - start + 1) start k zeros inside) (
        let same_block : start + k ≡ (offset + o) / block_size = omega arith in
        let same_place : (offset % block_size + o) % block_size ≡ (offset + o) % block_size =
          omega arith in
        rw (same_block, same_place))

  -- If calloc succeeds, `fs_read` of at least one byte of a regular file from an offset before its
  -- end returns the number of bytes asked for or, past the end, of those that are left; the buffer
  -- holds these bytes of the file, and nothing changes. The blocks read, one more than the file
  -- has if the end is passed, are to be blocks of the volume.
  pub fs_read_lem :
      let count = available (inode_at s i) len offset in
      let buffer = read_buffer s (inode_at s i) len offset in
      (fs_read host path len offset s ≡ (ok (count, buffer), s))
      × ((o : ℕ) → o < count → buffer o ≡ file_byte s (inode_at s i) (offset + o))
  fs_read_lem = (fs_read-ok, read_byte)
