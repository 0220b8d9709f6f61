-- ===== src/Tests/Changing.antt =====
-- `fs_chmod` and `fs_utime` of "/a".
use fuse_file_system.Prelude.{◌≡◌, refl, true, [], ◌∷◌, arith}
use fuse_file_system.Layout.{
  decode_inode, decode_dir, encode_inode, encode_dir, byte_at, max_dir_entries,
}
use fuse_file_system.Layout.RoundTrip.{FitsBlock, encode_inode-FitsBlock}
use fuse_file_system.State.{ok}
use fuse_file_system.Disk.Laws.{block_read-ok}
use fuse_file_system.Bitmap.{bit_test}
use fuse_file_system.Paths.{
  CString, parse, parse_loop, strtok, skip_slashes, until_slash, after_slash, find_entry, is_named,
  is_reg, same_string, walk,
}
use fuse_file_system.Paths.Entries.{find_entry-First}
use fuse_file_system.Paths.Resolve.{Lookup, walk-Resolves, here, next}
use fuse_file_system.Attributes.{fs_getattr, fs_chmod, fs_utime}
use fuse_file_system.Attributes.Rewrite.{IsTarget}
use fuse_file_system.Attributes.Change.{chmod_then_getattr, utime_then_getattr}
use fuse_file_system.Volume.{IsVolume, Untouched, inode_at}
use fuse_file_system.Tests.Fixture.{
  inode_of, file_mode, volume, volume-OnDisk, volume-IsVolume, contents,
}

abbrev a : CString
a = b'a' ∷ []

abbrev path_a : CString
path_a = b'/' ∷ b'a' ∷ []

root-Untouched : Untouched volume 4 2
unfolding bit_test
root-Untouched = record {
  below = omega arith;
  in_use = refl;
  not_bitmap = omega arith;
  not_entries = omega arith;
}

entries-Untouched : Untouched volume 4 3
unfolding bit_test
entries-Untouched = record {
  below = omega arith;
  in_use = refl;
  not_bitmap = omega arith;
  not_entries = omega arith;
}

a-Lookup : Lookup volume (Untouched volume 4) 2 a 4
unfolding find_entry is_named same_string decode_inode encode_inode decode_dir encode_dir byte_at
a-Lookup = record {
  inode_block = contents 2;
  entries = contents 3;
  place = 0;
  reads_inode = block_read-ok {s = volume} (volume-OnDisk 2 (omega arith));
  directory = refl;
  reads_entries = block_read-ok {s = volume} (volume-OnDisk 3 (omega arith));
  first = find_entry-First (is_named a) (decode_dir (contents 3)) max_dir_entries 0 0 refl;
  leads_to = refl;
  passes = (root-Untouched, entries-Untouched);
}

pub a-IsTarget : IsTarget volume path_a 4
unfolding parse parse_loop strtok skip_slashes until_slash after_slash
a-IsTarget = record {
  resolves = next a-Lookup here;
  below = omega arith;
  not_super = omega arith;
  not_bitmap = omega arith;
}

pub a_FitsBlock : FitsBlock (volume.image.block 4)
a_FitsBlock = encode_inode-FitsBlock (inode_of file_mode 10 5)

pub a_regular : is_reg (inode_at volume 4).mode ≡ true
unfolding decode_inode encode_inode byte_at
a_regular = refl

chmod_then_getattr_example :
    let (r, s') = fs_chmod path_a 0o600 volume in
    (r ≡ ok tt)
    × IsVolume s'
    × (fs_getattr path_a s' ≡ (
      ok (record {
        mode = 0o100600;
        uid = 500;
        gid = 500;
        size = 10;
        ctime = 7;
        mtime = 8;
        atime = 8;
        nlink = 1;
      }),
      s',
    ))
unfolding decode_inode encode_inode byte_at
chmod_then_getattr_example = chmod_then_getattr volume-IsVolume a-IsTarget a_FitsBlock 0o600

utime_then_getattr_example :
    let (r, s') = fs_utime path_a 99 volume in
    (r ≡ ok tt)
    × IsVolume s'
    × (fs_getattr path_a s' ≡ (
      ok (record {
        mode = 0o100666;
        uid = 500;
        gid = 500;
        size = 10;
        ctime = 7;
        mtime = 99;
        atime = 99;
        nlink = 1;
      }),
      s',
    ))
unfolding decode_inode encode_inode byte_at
utime_then_getattr_example = utime_then_getattr volume-IsVolume a-IsTarget a_FitsBlock 99 a_regular

walk-Resolves_example : walk (a ∷ []) 2 volume ≡ (ok 4, volume)
walk-Resolves_example = walk-Resolves volume (Untouched volume 4) (next a-Lookup here)
