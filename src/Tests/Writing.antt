-- ===== src/Tests/Writing.antt =====
-- `fs_write` of three bytes of "/a", from its third byte on.
use fuse_file_system.Prelude.{
  ℕ, ◌+◌, ◌-◌, ◌/◌, ◌≡◌, ◌<◌, refl, ◌&&◌, [], ◌∷◌, arith, leb, ltb, if◌then◌else◌,
}
use fuse_file_system.Layout.{Block, decode_inode, encode_inode, byte_at, block_size}
use fuse_file_system.State.{ok}
use fuse_file_system.Paths.{CString}
use fuse_file_system.Content.{file_blocks}
use fuse_file_system.Read.Range.{file_byte}
use fuse_file_system.Write.{fs_write}
use fuse_file_system.Write.Bytes.{fs_write_lem}
use fuse_file_system.Write.InPlace.{CanOverwrite, overwritten}
use fuse_file_system.Volume.{inode_at}
use fuse_file_system.Read.{fs_read}
use fuse_file_system.Consistency.Overwrite.{IsInside, write_then_read}
use fuse_file_system.Tests.Sound.{volume-IsConsistent}
use fuse_file_system.Tests.Fixture.{host, volume, volume-IsVolume}
use fuse_file_system.Tests.Reading.{found_a}

abbrev path_a : CString
path_a = b'/' ∷ b'a' ∷ []

abbrev new_bytes : Block
new_bytes o = b'z'

three_bytes : CanOverwrite host volume path_a 4 3 2
unfolding decode_inode encode_inode byte_at file_blocks
three_bytes = record {
  found = found_a;
  regular = refl;
  small = omega arith;
  some_bytes = omega arith;
  inside = omega arith;
  few = omega arith;
  inode = omega arith;
  not_super = omega arith;
  below = λ k lt. let first : k ≡ 0 = omega arith in rw first (omega arith);
  positive = λ k lt. let first : k ≡ 0 = omega arith in rw first (omega arith);
  apart = λ k lt. let first : k ≡ 0 = omega arith in rw first (λ e. omega arith);
  distinct = λ j k lt hi. absurd (omega arith);
  memory = λ room. refl;
}

fs_write_lem_example :
    let s' = overwritten host volume 4 new_bytes 3 2 in
    (fs_write host path_a new_bytes 3 2 volume ≡ (ok 3, s'))
    × ((at : ℕ)
        → at / block_size < file_blocks (inode_at volume 4).size
        → file_byte s' (inode_at volume 4) at ≡ (
            if leb 2 at && ltb at (2 + 3)
            then new_bytes (at - 2)
            else file_byte volume (inode_at volume 4) at))
fs_write_lem_example = fs_write_lem volume-IsVolume three_bytes new_bytes

three_bytes-IsInside : IsInside host volume path_a 4 3 2
three_bytes-IsInside = record {
  found = found_a;
  regular = three_bytes.regular;
  some_bytes = omega arith;
  inside = three_bytes.inside;
  memory = λ room. refl;
}

write_then_read_example :
    let s' = overwritten host volume 4 new_bytes 3 2 in
    (fs_write host path_a new_bytes 3 2 volume ≡ (ok 3, s'))
    × (buffer : Block) × (fs_read host path_a 3 2 s' ≡ (ok (3, buffer), s'))
    × ((o : ℕ) → o < 3 → buffer o ≡ new_bytes o)
write_then_read_example = write_then_read volume-IsConsistent three_bytes-IsInside new_bytes
