-- ===== src/Disk.antt =====
-- misc.c: transfers of one block between memory and the image. `lba` is an `int`; the products of
-- `block_read` and `block_write` wrap as compiled code does. `nblks` is 1 in every call.
pub mod Laws
use fuse_file_system.Prelude.{
  ℕ, ◌+◌, ◌*◌, ◌/◌, max, ◌&&◌, ◌||◌, not, ltb, leb, ◌==◌, if◌then◌else◌, to_int, add_int,
  is_negative,
}
use fuse_file_system.Layout.{Block, block_size, zeros}
use fuse_file_system.State.{Image, eio, ok, err, fault, Action}

-- `start` as a byte position in the image.
abbrev pub start_of : ℕ → ℕ
start_of lba = to_int (lba * block_size)

-- The file after 4096 bytes are written at block `n`: a gap behind the old end reads as zeros.
abbrev pub put_block : Image → ℕ → Block → Image
put_block im n b = record im {
  block = λ m. if m == n then b else if leb im.blocks m && ltb m n then zeros else im.block m;
  blocks = max im.blocks (n + 1);
}

unfoldable pub block_read : ℕ → Action Block
block_read lba s =
    let n = start_of lba / block_size in
    if is_negative (start_of lba)
    then (err eio, s)
    else if not (ltb n s.image.blocks) || s.image.broken n
    then (err eio, s)
    else (ok (s.image.block n), s)

unfoldable pub block_write : Block → ℕ → Action (Unit {0})
block_write b lba s =
    let n = start_of lba / block_size in
    if lba == 0 || is_negative lba
    then (fault, s)
    else if is_negative (add_int (start_of lba) block_size)
    then (err eio, s)
    else if is_negative (start_of lba)
    then (err eio, s)
    else if s.image.broken n
    then (err eio, s)
    else (ok tt, record s { image = put_block s.image n b })
