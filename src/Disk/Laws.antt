-- ===== src/Disk/Laws.antt =====
-- What `block_read` and `block_write` of misc.c do on each branch.
use fuse_file_system.Prelude.{
  ℕ, ◌-◌, ◌/◌, ◌^◌, ◌<◌, ◌≡◌, ◌≢◌, false, arith, lt→ltb, lt→leb, add_int, ne→==,
}
use fuse_file_system.Layout.{Block, block_size}
use fuse_file_system.State.{Image, FsState, ok, fault}
use fuse_file_system.Disk.{start_of, put_block, block_read, block_write}

-- A block number that the image has, that the medium accepts, and whose position fits an `int`.
pub record OnDisk (im : Image) (lba : ℕ) : Type 0 where
  pub small : lba < 2 ^ 19 - 1
  pub present : lba < im.blocks
  pub sound : im.broken lba ≡ false

abbrev pub with_block : FsState → ℕ → Block → FsState
with_block s lba b = record s { image = put_block s.image lba b }

-- Reading changes nothing, whatever it returns.
pub block_read-state : (lba : ℕ) (s : FsState) → (block_read lba s).1 ≡ s
unfolding block_read
block_read-state lba s = ground arith

-- Reading never aborts.
pub block_read-ne_fault : (lba : ℕ) (s : FsState) → (block_read lba s).0 ≢ fault
unfolding block_read
block_read-ne_fault lba s = ground arith

pub start_block : (lba : ℕ) → lba < 2 ^ 19 → start_of lba / block_size ≡ lba
start_block lba h = omega arith

module _ {lba : ℕ} {s : FsState} (d : OnDisk s.image lba) where
  pub block_read-ok : block_read lba s ≡ (ok (s.image.block lba), s)
  unfolding block_read
  block_read-ok = rw (
    start_block lba (omega (arith, d.small)),
    lt→leb (2 ^ 31) (start_of lba) (omega (arith, d.small)),
    lt→ltb lba s.image.blocks d.present,
    d.sound,
  )

  pub block_write-ok : (b : Block) → 0 < lba → block_write b lba s ≡ (ok tt, with_block s lba b)
  unfolding block_write
  block_write-ok b pos = rw (
    start_block lba (omega (arith, d.small)),
    ne→== lba 0 (omega arith),
    lt→leb (2 ^ 31) lba (omega (arith, d.small)),
    lt→leb (2 ^ 31) (add_int (start_of lba) block_size) (omega (arith, d.small)),
    lt→leb (2 ^ 31) (start_of lba) (omega (arith, d.small)),
    d.sound,
  )

-- A block that `block_write` has written is what `block_read` reads there.
pub read-write :
    (b : Block) (lba : ℕ) (s s' : FsState)
    → block_write b lba s ≡ (ok tt, s')
    → block_read lba s' ≡ (ok b, s')
unfolding block_write block_read
read-write b lba s s' h = ground arith

-- A `block_write` leaves every block that was readable elsewhere in the image as it was.
pub read-write_ne :
    (b : Block) (lba m : ℕ) (s s' : FsState) {c : Block}
    → block_write b lba s ≡ (ok tt, s')
    → start_of m ≢ start_of lba
    → block_read m s ≡ (ok c, s)
    → block_read m s' ≡ (ok c, s')
unfolding block_write block_read
read-write_ne b lba m s s' h ne r = ground arith

-- A write keeps the blocks of the image that can be used, and all but one of their contents.
pub OnDisk-put_block :
    {im : Image} {lba : ℕ} (n : ℕ) (b : Block) → OnDisk im lba → OnDisk (put_block im n b) lba
OnDisk-put_block n b d = record {
  small = d.small;
  present = omega (arith, d.present);
  sound = d.sound;
}

pub block-put_block_ne :
    {im : Image} {lba : ℕ} (n : ℕ) (b : Block)
    → OnDisk im lba
    → lba ≢ n
    → (put_block im n b).block lba ≡ im.block lba
block-put_block_ne n b d ne = ground (arith, d.present)

pub block-put_block_self : (im : Image) (n : ℕ) (b : Block) → (put_block im n b).block n ≡ b
block-put_block_self im n b = ground arith

pub block_of_read :
    {lba : ℕ} {s : FsState} {b : Block}
    → OnDisk s.image lba
    → block_read lba s ≡ (ok b, s)
    → b ≡ s.image.block lba
block_of_read {s} d r = cc (block_read-ok {s = s} d)
