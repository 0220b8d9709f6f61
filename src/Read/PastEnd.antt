-- ===== src/Read/PastEnd.antt =====
-- `fs_read` of homework.c, when the request passes the end of the file.
use fuse_file_system.Prelude.{
  ℕ, suc, ◌+◌, ◌-◌, ◌/◌, ◌^◌, ◌≤◌, ◌<◌, ◌≡◌, true, arith, lt→ltb, lt→leb, add_size,
}
use fuse_file_system.Layout.{block_size, ptr_count}
use fuse_file_system.State.{FsState, ok, err, eio}
use fuse_file_system.Host.{Host}
use fuse_file_system.Disk.{block_read}
use fuse_file_system.Paths.{CString, is_reg, path_to_inode}
use fuse_file_system.Content.{file_blocks}
use fuse_file_system.Read.{read_range, fs_read}
use fuse_file_system.Read.Blocks.{read_blocks-fails, rounds_to-exact}
use fuse_file_system.Volume.{HasBlocks, inode_at}

-- A request that passes the end of a regular file, all of whose blocks are blocks of the volume, while
-- the pointer behind the last one names a block that cannot be read.
pub record PassesEnd (host : Host) (s : FsState) (path : CString) (i len offset : ℕ) : Type 0 where
  pub found : path_to_inode path 0 s ≡ (ok (i, inode_at s i), s)
  pub regular : is_reg (inode_at s i).mode ≡ true
  pub small : (inode_at s i).size < 2 ^ 31
  pub in_file : offset < (inode_at s i).size
  pub short : len < 2 ^ 31
  pub passes : (inode_at s i).size < offset + len
  pub few : file_blocks (inode_at s i).size < ptr_count
  pub blocks :
      (k : ℕ)
      → offset / block_size ≤ k
      → k < file_blocks (inode_at s i).size
      → (inode_at s i).ptrs k < s.superblock.disk_size
  pub memory : (room : ℕ) → host.calloc room ≡ true
  pub stale : block_read ((inode_at s i).ptrs (file_blocks (inode_at s i).size)) s ≡ (err eio, s)

start_in_file :
    (size offset : ℕ) → size < 2 ^ 31 → offset < size → offset / block_size < file_blocks size
unfolding file_blocks
start_in_file size offset small lt = ground arith

-- `fs_read` reads the block behind the last one of the file when the request passes the end, and
-- returns EIO if that block cannot be read, though every block of the file can.
pub fs_read_past_end :
    {host : Host} {s : FsState} {path : CString} {i len offset : ℕ}
    → HasBlocks s
    → PassesEnd host s path i len offset
    → fs_read host path len offset s ≡ (err eio, s)
unfolding fs_read read_range
fs_read_past_end {s} {i} {len} {offset} v h =
    let start = offset / block_size in
    let blocks = file_blocks (inode_at s i).size in
    let in_file : start < blocks = start_in_file (inode_at s i).size offset h.small h.in_file in
    let rest : blocks - start + 1 ≡ suc (blocks - start) = omega arith in
    let end : start + (blocks - start) ≡ blocks = omega arith in
    rw (
      h.found,
      h.regular,
      lt→leb (2 ^ 31) (inode_at s i).size h.small,
      lt→leb (inode_at s i).size offset h.in_file,
      lt→ltb (inode_at s i).size (add_size offset len)
          (omega (arith, h.passes, h.small, h.in_file, h.short)),
      rounds_to-exact start blocks (omega arith) h.few,
      h.memory _,
      rest,
      read_blocks-fails {s = s} (inode_at s i) (blocks - start) start v (omega (arith, h.few))
          (λ k lo hi. h.blocks k lo (omega arith)) (rw end h.stale),
    )
