-- ===== src/Tests/Creating.antt =====
-- `fs_create` of "/d/x".
use fuse_file_system.Prelude.{
  ℕ, zero, suc, ◌-◌, ◌≡◌, ◌<◌, refl, List, [], ◌∷◌, arith, get_or, ◌==◌, ◌||◌,
}
use fuse_file_system.Layout.{
  decode_inode, decode_dir, encode_inode, encode_dir, byte_at, max_dir_entries,
}
use fuse_file_system.State.{ok}
use fuse_file_system.Disk.Laws.{block_read-ok}
use fuse_file_system.Bitmap.{bit_test}
use fuse_file_system.Bitmap.Search.{free_blocks}
use fuse_file_system.Paths.{
  CString, parse, parse_loop, strtok, skip_slashes, until_slash, after_slash, find_entry, is_named,
  same_string,
}
use fuse_file_system.Paths.Entries.{find_entry-First}
use fuse_file_system.Paths.Resolve.{Lookup, next, here}
use fuse_file_system.Directory.{is_free}
use fuse_file_system.Attributes.{fs_getattr}
use fuse_file_system.Create.{fs_create}
use fuse_file_system.Create.Success.{HasRoom, created}
use fuse_file_system.Create.Entry.{FitsEntry}
use fuse_file_system.Create.Lookup.{create_then_getattr}
use fuse_file_system.Volume.{IsVolume, Untouched}
use fuse_file_system.Create.Keeps.{fs_create-IsVolume}
use fuse_file_system.Bitmap.Bits.{used}
use fuse_file_system.Tests.Fixture.{
  host, file_mode, path_d_x, volume, volume-OnDisk, volume-IsVolume, contents,
}

abbrev d : CString
d = b'd' ∷ []

abbrev pub x : CString
x = b'x' ∷ []

root-Untouched : Untouched volume 7 2
unfolding bit_test
root-Untouched = record {
  below = omega arith;
  in_use = refl;
  not_bitmap = omega arith;
  not_entries = omega arith;
}

entries-Untouched : Untouched volume 7 3
unfolding bit_test
entries-Untouched = record {
  below = omega arith;
  in_use = refl;
  not_bitmap = omega arith;
  not_entries = omega arith;
}

d-Untouched : Untouched volume 7 6
unfolding bit_test
d-Untouched = record {
  below = omega arith;
  in_use = refl;
  not_bitmap = omega arith;
  not_entries = omega arith;
}

d-Lookup : Lookup volume (Untouched volume 7) 2 d 6
unfolding find_entry is_named same_string decode_inode encode_inode decode_dir encode_dir byte_at
d-Lookup = record {
  inode_block = contents 2;
  entries = contents 3;
  place = 1;
  reads_inode = block_read-ok {s = volume} (volume-OnDisk 2 (omega arith));
  directory = refl;
  reads_entries = block_read-ok {s = volume} (volume-OnDisk 3 (omega arith));
  first = find_entry-First (is_named d) (decode_dir (contents 3)) max_dir_entries 0 1 refl;
  leads_to = refl;
  passes = (root-Untouched, entries-Untouched);
}

pub room_for_x : HasRoom volume path_d_x (d ∷ []) x 6 7 0
unfolding parse parse_loop strtok skip_slashes until_slash after_slash find_entry is_named
    same_string decode_inode encode_inode decode_dir encode_dir byte_at bit_test
room_for_x = record {
  place = record {
    parsed = refl;
    resolves = next d-Lookup here;
    parent = d-Untouched;
    directory = refl;
    pointer = refl;
    below = omega arith;
    in_use = refl;
    not_super = omega arith;
    not_bitmap = omega arith;
  };
  absent = λ m lt. refl;
  room = find_entry-First is_free (decode_dir (contents 7)) max_dir_entries 0 0 refl;
}

x_bytes : (i : ℕ) → get_or x i 0 < 256
x_bytes zero = omega arith
x_bytes (suc i) = omega arith

pub x_fits : FitsEntry volume x 7 0
unfolding decode_dir
x_fits = record { entries = λ o. omega arith; name = x_bytes; ends = refl }

abbrev pub blocks_left : List ℕ
blocks_left = 9 ∷ 10 ∷ 11 ∷ 12 ∷ 13 ∷ 14 ∷ 15 ∷ []

pub free_in_volume : free_blocks (volume.bitmap) (16 - 0) 0 ≡ 8 ∷ blocks_left
unfolding free_blocks bit_test
free_in_volume = refl

create_then_getattr_example :
    let s' = created host file_mode volume x 7 0 8 in
    (fs_create host path_d_x file_mode volume ≡ (ok tt, s'))
    × (fs_getattr path_d_x s' ≡ (
      ok (record {
        mode = 0o100666;
        uid = 500;
        gid = 500;
        size = 0;
        ctime = 1000;
        mtime = 1000;
        atime = 1000;
        nlink = 1;
      }),
      s',
    ))
create_then_getattr_example =
    create_then_getattr volume-IsVolume room_for_x x_fits host file_mode 8 blocks_left
      free_in_volume (omega arith) refl

fs_create-IsVolume_example :
    let (r, s') = fs_create host path_d_x file_mode volume in
    (r ≡ ok tt) × IsVolume s' × ((j : ℕ) → used s'.bitmap j ≡ ((8 == j) || used volume.bitmap j))
fs_create-IsVolume_example =
    fs_create-IsVolume volume-IsVolume room_for_x host file_mode 8 blocks_left free_in_volume
