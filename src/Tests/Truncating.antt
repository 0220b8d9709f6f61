-- ===== src/Tests/Truncating.antt =====
-- `fs_truncate` of "/a" to no bytes.
use fuse_file_system.Prelude.{ℕ, ◌≡◌, ◌<◌, refl, false, not, ◌&&◌, has, [], ◌∷◌, arith}
use fuse_file_system.Layout.{decode_inode, encode_inode, byte_at}
use fuse_file_system.State.{ok}
use fuse_file_system.Bitmap.{bit_test}
use fuse_file_system.Bitmap.Bits.{used}
use fuse_file_system.Bitmap.Count.{Distinct}
use fuse_file_system.Paths.{CString}
use fuse_file_system.Attributes.{fs_getattr}
use fuse_file_system.Content.{file_blocks}
use fuse_file_system.Content.Ptrs.{ptr_list}
use fuse_file_system.Truncate.{fs_truncate}
use fuse_file_system.Truncate.Success.{CanTruncate, cut_blocks, truncated, truncate_then_getattr}
use fuse_file_system.Volume.{IsVolume}
use fuse_file_system.Tests.Fixture.{volume, volume-IsVolume}
use fuse_file_system.Tests.Changing.{a-IsTarget, a_FitsBlock, a_regular}

abbrev path_a : CString
path_a = b'/' ∷ b'a' ∷ []

cut_blocks_a : cut_blocks volume 4 0 ≡ 5 ∷ []
unfolding decode_inode encode_inode byte_at file_blocks ptr_list
cut_blocks_a = refl

not_format : (b : ℕ) → b < 3 → has b (cut_blocks volume 4 0) ≡ false
not_format b lt = rw cut_blocks_a (ground arith)

a_to_zero : CanTruncate volume path_a 4 0
unfolding Distinct decode_inode encode_inode byte_at bit_test file_blocks ptr_list
a_to_zero = record {
  file = a-IsTarget;
  regular = a_regular;
  bytes = a_FitsBlock;
  short = omega arith;
  few = omega arith;
  room = omega arith;
  distinct = (omega arith, refl, refl, tt);
  not_format = not_format;
}

truncate_then_getattr_example :
    let s' = truncated volume 4 0 in
    (fs_truncate path_a 0 volume ≡ (ok tt, s'))
    × IsVolume s'
    × ((j : ℕ) → used s'.bitmap j ≡ (not (has j (cut_blocks volume 4 0)) && used volume.bitmap j))
    × (fs_getattr path_a s' ≡ (
      ok (record {
        mode = 0o100666;
        uid = 500;
        gid = 500;
        size = 0;
        ctime = 7;
        mtime = 8;
        atime = 8;
        nlink = 1;
      }),
      s',
    ))
unfolding decode_inode encode_inode byte_at
truncate_then_getattr_example = truncate_then_getattr volume-IsVolume a_to_zero
