-- ===== src/Write/Store.antt =====
-- The blocks that the last loop of `fs_write` of homework.c stores.
use fuse_file_system.Prelude.{ℕ, zero, suc, ◌+◌, ◌*◌, ◌≤◌, ◌<◌, ◌≡◌, ◌≢◌, ◌∙◌, refl, arith, lt→leb}
use fuse_file_system.Layout.{Block, Inode, block_size, ptr_count}
use fuse_file_system.State.{FsState, ok}
use fuse_file_system.Disk.Laws.{
  OnDisk, with_block, block_write-ok, OnDisk-put_block, block-put_block_ne, block-put_block_self,
}
use fuse_file_system.Write.{write_loop}

-- Blocks `i` to `i + rounds - 1` of the file, from place `from` of the buffer on.
unfoldable pub stored : FsState → Inode → Block → (rounds i from : ℕ) → FsState
stored s n buf zero i from = s
stored s n buf (suc rounds) i from =
    stored (with_block s (n.ptrs i) (λ o. buf (from + o))) n buf rounds (i + 1) (from + block_size)

-- The blocks are different blocks of the image that may be written.
pub record AreBlocks (s : FsState) (n : Inode) (rounds i : ℕ) : Type 0 where
  pub few : i + rounds ≤ ptr_count
  pub on_disk : (k : ℕ) → i ≤ k → k < i + rounds → OnDisk s.image (n.ptrs k)
  pub not_super : (k : ℕ) → i ≤ k → k < i + rounds → 0 < n.ptrs k
  pub distinct : (j k : ℕ) → i ≤ j → j < k → k < i + rounds → n.ptrs j ≢ n.ptrs k

AreBlocks-later :
    (s : FsState) (n : Inode) (rounds i : ℕ) (lba : ℕ) (b : Block)
    → AreBlocks s n (suc rounds) i
    → AreBlocks (with_block s lba b) n rounds (i + 1)
AreBlocks-later s n rounds i lba b a = record {
  few = omega (arith, a.few);
  on_disk = λ k lo hi. OnDisk-put_block lba b (a.on_disk k (omega arith) (omega arith));
  not_super = λ k lo hi. a.not_super k (omega arith) (omega arith);
  distinct = λ j k lo lt hi. a.distinct j k (omega arith) lt (omega arith);
}

pub write_loop-ok :
    (s : FsState) (n : Inode) (buf : Block) (rounds i from : ℕ)
    → AreBlocks s n rounds i
    → write_loop n buf rounds i from s ≡ (ok tt, stored s n buf rounds i from)
unfolding write_loop stored
write_loop-ok s n buf zero i from a = refl
write_loop-ok s n buf (suc rounds) i from a =
    let b : Block = λ o. buf (from + o) in
    rw
      (
        lt→leb ptr_count i (omega (arith, a.few)),
        block_write-ok {s = s} (a.on_disk i (omega arith) (omega arith)) b
            (a.not_super i (omega arith) (omega arith)),
      )
      (write_loop-ok (with_block s (n.ptrs i) b) n buf rounds (i + 1) (from + block_size)
        (AreBlocks-later s n rounds i (n.ptrs i) b a))

-- A block of the image that is none of them stays.
pub stored-other :
    (s : FsState) (n : Inode) (buf : Block) (rounds i from lba : ℕ)
    → OnDisk s.image lba
    → ((k : ℕ) → i ≤ k → k < i + rounds → lba ≢ n.ptrs k)
    → (stored s n buf rounds i from).image.block lba ≡ s.image.block lba
unfolding stored
stored-other s n buf zero i from lba on ne = refl
stored-other s n buf (suc rounds) i from lba on ne =
    let b : Block = λ o. buf (from + o) in
    stored-other (with_block s (n.ptrs i) b) n buf rounds (i + 1) (from + block_size) lba
      (OnDisk-put_block (n.ptrs i) b on) (λ k lo hi. ne k (omega arith) (omega arith))
    ∙ block-put_block_ne (n.ptrs i) b on (ne i (omega arith) (omega arith))

-- Each of them holds its part of the buffer.
pub stored-block :
    (s : FsState) (n : Inode) (buf : Block) (rounds i from k : ℕ)
    → AreBlocks s n rounds i
    → k < rounds
    → (o : ℕ)
    → (stored s n buf rounds i from).image.block (n.ptrs (i + k)) o
      ≡ buf (from + block_size * k + o)
unfolding stored
stored-block s n buf zero i from k a lt o = absurd (omega arith)
stored-block s n buf (suc rounds) i from zero a lt o =
    let b : Block = λ o. buf (from + o) in
    let here : i + 0 ≡ i = omega arith in
    let place : from + block_size * 0 + o ≡ from + o = omega arith in
    rw (
      here,
      place,
      stored-other (with_block s (n.ptrs i) b) n buf rounds (i + 1) (from + block_size) (n.ptrs i)
          (OnDisk-put_block (n.ptrs i) b (a.on_disk i (omega arith) (omega arith)))
          (λ k lo hi. a.distinct i k (omega arith) (omega arith) (omega arith)),
      block-put_block_self s.image (n.ptrs i) b,
    )
stored-block s n buf (suc rounds) i from (suc k) a lt o =
    let b : Block = λ o. buf (from + o) in
    let here : i + suc k ≡ (i + 1) + k = omega arith in
    let place : from + block_size * suc k + o ≡ (from + block_size) + block_size * k + o =
      omega arith in
    rw (here, place)
      (stored-block (with_block s (n.ptrs i) b) n buf rounds (i + 1) (from + block_size) k
        (AreBlocks-later s n rounds i (n.ptrs i) b a) (omega arith) o)

-- What is stored leaves the size of the image and the superblock.
pub stored-OnDisk :
    (s : FsState) (n : Inode) (buf : Block) (rounds i from lba : ℕ)
    → OnDisk s.image lba
    → OnDisk (stored s n buf rounds i from).image lba
unfolding stored
stored-OnDisk s n buf zero i from lba on = on
stored-OnDisk s n buf (suc rounds) i from lba on =
    stored-OnDisk (with_block s (n.ptrs i) (λ o. buf (from + o))) n buf rounds (i + 1)
      (from + block_size) lba (OnDisk-put_block (n.ptrs i) (λ o. buf (from + o)) on)

pub stored-superblock :
    (s : FsState) (n : Inode) (buf : Block) (rounds i from : ℕ)
    → (stored s n buf rounds i from).superblock ≡ s.superblock
unfolding stored
stored-superblock s n buf zero i from = refl
stored-superblock s n buf (suc rounds) i from =
    stored-superblock (with_block s (n.ptrs i) (λ o. buf (from + o))) n buf rounds (i + 1)
      (from + block_size)
