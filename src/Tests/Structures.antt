-- ===== src/Tests/Structures.antt =====
-- The bitmap, the structures on the disk, paths and block access, at concrete values.
use fuse_file_system.Prelude.{
  ◌-◌, ◌≡◌, refl, not, ◌&&◌, ◌||◌, List, [], ◌∷◌, All, arith, ◌==◌, ltb, length, take, map,
  if◌then◌else◌,
}
use fuse_file_system.Layout.{decode_inode, encode_inode, decode_dir, encode_dir, zeros}
use fuse_file_system.Layout.RoundTrip.{
  FitsInode, SameDirent, decode-encode_inode, decode-encode_dir,
}
use fuse_file_system.State.{ok, err, enospc}
use fuse_file_system.Disk.{block_read, block_write}
use fuse_file_system.Disk.Laws.{
  block_read-ok, block_write-ok, with_block, read-write, read-write_ne,
}
use fuse_file_system.Bitmap.{bit_set, bit_clear, find_first_nfree_blocks}
use fuse_file_system.Bitmap.Bits.{used, used-bit_set, used-bit_clear}
use fuse_file_system.Bitmap.Search.{free_blocks, find_first_nfree_blocks_lem}
use fuse_file_system.Paths.{CString, parse, max_name_len, max_path_len}
use fuse_file_system.Paths.Parse.{IsName, print_path, parse-print_path, parse-print_short}
use fuse_file_system.Tests.Fixture.{
  inode_of, file_mode, bitmap, volume, volume-OnDisk, root_entries, root_entries-FitsDirectory,
}

used-bit_set_example : used (bit_set bitmap 9) 9 ≡ ((9 == 9) || used bitmap 9)
used-bit_set_example = used-bit_set {map = bitmap} (λ o. ground arith) 9 9

used-bit_clear_example : used (bit_clear bitmap 3) 4 ≡ (not (3 == 4) && used bitmap 4)
used-bit_clear_example = used-bit_clear {map = bitmap} (λ o. ground arith) 3 4

find_first_nfree_blocks_lem_example :
    let all = free_blocks bitmap (16 - 2) 2 in
    find_first_nfree_blocks 2 3 volume
    ≡ (if ltb (length all) 3 then err enospc else ok (take 3 all), volume)
find_first_nfree_blocks_lem_example =
    find_first_nfree_blocks_lem 2 3 volume (omega arith) (omega arith)

a_FitsInode : FitsInode (inode_of file_mode 10 5)
a_FitsInode = record {
  uid = omega arith;
  gid = omega arith;
  mode = omega arith;
  ctime = omega arith;
  mtime = omega arith;
  size = omega arith;
  ptrs = λ i. ground arith;
}

decode-encode_inode_example :
    decode_inode (encode_inode (inode_of file_mode 10 5)) ≡ inode_of file_mode 10 5
decode-encode_inode_example = decode-encode_inode (inode_of file_mode 10 5) a_FitsInode

decode-encode_dir_example : SameDirent (decode_dir (encode_dir root_entries) 1) (root_entries 1)
decode-encode_dir_example = decode-encode_dir root_entries root_entries-FitsDirectory 1

abbrev names : List CString
names = (b'd' ∷ []) ∷ (b'x' ∷ b'y' ∷ []) ∷ []

names-IsName : All IsName names
names-IsName = (
  record { not_empty = omega arith; no_slash = refl },
  (record { not_empty = omega arith; no_slash = refl }, tt),
)

parse-print_path_example :
    parse (print_path names) ≡ map (take max_name_len) (take max_path_len names)
parse-print_path_example = parse-print_path names names-IsName

parse-print_short_example : parse (print_path names) ≡ names
parse-print_short_example =
    parse-print_short names names-IsName (omega arith, (omega arith, tt)) (omega arith)

wrote : block_write zeros 9 volume ≡ (ok tt, with_block volume 9 zeros)
wrote = block_write-ok {s = volume} (volume-OnDisk 9 (omega arith)) zeros (omega arith)

read-write_example :
    block_read 9 (with_block volume 9 zeros) ≡ (ok zeros, with_block volume 9 zeros)
read-write_example = read-write zeros 9 volume (with_block volume 9 zeros) wrote

read-write_ne_example :
    block_read 1 (with_block volume 9 zeros)
    ≡ (ok (volume.image.block 1), with_block volume 9 zeros)
read-write_ne_example =
    read-write_ne zeros 9 1 volume (with_block volume 9 zeros) wrote (omega arith)
      (block_read-ok {s = volume} (volume-OnDisk 1 (omega arith)))
