-- ===== src/Tests/Removing.antt =====
-- `fs_unlink` of "/a", and `check_dir_empty` of "/d".
use fuse_file_system.Prelude.{
  ℕ, ◌≡◌, ◌≢◌, ◌∙◌, ◌<◌, refl, true, false, not, ◌&&◌, [], ◌∷◌, arith, has, Bool-cases, ne→==, inl,
  inr, ◌==◌,
}
use fuse_file_system.Layout.{
  decode_inode, decode_dir, encode_inode, encode_dir, byte_at, max_dir_entries,
}
use fuse_file_system.Layout.RoundTrip.{decode-encode_dir, encode_dir-FitsBlock}
use fuse_file_system.State.{ok, err, enoent}
use fuse_file_system.Disk.Laws.{block_read-ok}
use fuse_file_system.Bitmap.{bit_test}
use fuse_file_system.Bitmap.Bits.{used}
use fuse_file_system.Bitmap.Count.{Distinct}
use fuse_file_system.Paths.{
  CString, parse, parse_loop, strtok, skip_slashes, until_slash, after_slash, find_entry, is_dir,
  is_named, same_string,
}
use fuse_file_system.Paths.Entries.{find_entry-First, is_named-SameDirent}
use fuse_file_system.Paths.Resolve.{Reads, here}
use fuse_file_system.Attributes.{fs_getattr}
use fuse_file_system.Content.{file_blocks}
use fuse_file_system.Content.Ptrs.{ptr_list}
use fuse_file_system.Directory.Place.{HasEntry, path_to_entry}
use fuse_file_system.Remove.{check_dir_empty, fs_unlink}
use fuse_file_system.Remove.Unlink.{removed, OwnsBlocks, blocks_of}
use fuse_file_system.Remove.Gone.{fs_unlink-IsVolume, unlink_then_getattr}
use fuse_file_system.Remove.Rmdir.{verdict, check_dir_empty_lem}
use fuse_file_system.Volume.{IsVolume, Untouched}
use fuse_file_system.Tests.Fixture.{
  root_entries, root_entries-FitsDirectory, volume, volume-OnDisk, volume-IsVolume, contents,
}

abbrev a : CString
a = b'a' ∷ []

abbrev d : CString
d = b'd' ∷ []

abbrev path_a : CString
path_a = b'/' ∷ b'a' ∷ []

abbrev path_d : CString
path_d = b'/' ∷ b'd' ∷ []

root-Untouched : Untouched volume 3 2
unfolding bit_test
root-Untouched = record {
  below = omega arith;
  in_use = refl;
  not_bitmap = omega arith;
  not_entries = omega arith;
}

pub has_a : HasEntry volume path_a [] a 2 3 0 4
unfolding parse parse_loop strtok skip_slashes until_slash after_slash find_entry is_named
    same_string decode_inode encode_inode decode_dir encode_dir byte_at bit_test
has_a = record {
  place = record {
    parsed = refl;
    resolves = here;
    parent = root-Untouched;
    directory = refl;
    pointer = refl;
    below = omega arith;
    in_use = refl;
    not_super = omega arith;
    not_bitmap = omega arith;
  };
  first = find_entry-First (is_named a) (decode_dir (contents 3)) max_dir_entries 0 0 refl;
  leads_to = refl;
}

has_d : HasEntry volume path_d [] d 2 3 1 6
unfolding parse parse_loop strtok skip_slashes until_slash after_slash find_entry is_named
    same_string decode_inode encode_inode decode_dir encode_dir byte_at bit_test
has_d = record {
  place = record {
    parsed = refl;
    resolves = here;
    parent = root-Untouched;
    directory = refl;
    pointer = refl;
    below = omega arith;
    in_use = refl;
    not_super = omega arith;
    not_bitmap = omega arith;
  };
  first = find_entry-First (is_named d) (decode_dir (contents 3)) max_dir_entries 0 1 refl;
  leads_to = refl;
}

blocks_of_a : blocks_of volume 4 ≡ 5 ∷ 4 ∷ []
unfolding decode_inode encode_inode byte_at file_blocks ptr_list
blocks_of_a = refl

not_format : (b : ℕ) → b < 3 → has b (blocks_of volume 4) ≡ false
not_format b lt = rw blocks_of_a (ground arith)

owns_a : OwnsBlocks volume 4
unfolding Distinct decode_inode encode_inode byte_at bit_test file_blocks ptr_list
owns_a = record {
  few = omega arith;
  distinct = (omega arith, refl, refl, (omega arith, refl, refl, tt));
  below = omega arith;
  not_format = not_format;
}

other_entries : (m : ℕ) → m ≢ 0 → is_named a (root_entries m) ≡ false
unfolding is_named same_string
other_entries m ne = elim (Bool-cases (m == 1)) [
  | inl e ↦ rw (ne→== m 0 ne, e)
  | inr e ↦ rw (ne→== m 0 ne, e)
]

pub other_names :
    (m : ℕ) → m < max_dir_entries → m ≢ 0 → is_named a (decode_dir (contents 3) m) ≡ false
other_names m lt ne =
    is_named-SameDirent a _ _ (omega arith)
      (decode-encode_dir root_entries root_entries-FitsDirectory m)
    ∙ other_entries m ne

fs_unlink-IsVolume_example :
    let (r, s') = fs_unlink path_a volume in
    (r ≡ ok tt)
    × IsVolume s'
    × ((j : ℕ) → used s'.bitmap j ≡ (not (has j (blocks_of volume 4)) && used volume.bitmap j))
fs_unlink-IsVolume_example = fs_unlink-IsVolume volume-IsVolume has_a owns_a

unlink_then_getattr_example :
    let s' = removed volume 3 0 4 in
    (fs_unlink path_a volume ≡ (ok tt, s')) × (fs_getattr path_a s' ≡ (err enoent, s'))
unlink_then_getattr_example =
    unlink_then_getattr volume-IsVolume has_a owns_a
      (encode_dir-FitsBlock root_entries root_entries-FitsDirectory) other_names

d_directory : is_dir (decode_inode (contents 6)).mode ≡ true
unfolding decode_inode encode_inode byte_at
d_directory = refl

d-Reads : Reads volume ((decode_inode (contents 6)).ptrs 0) (contents 7)
unfolding decode_inode encode_inode byte_at
d-Reads = block_read-ok {s = volume} (volume-OnDisk 7 (omega arith))

check_dir_empty_lem_example :
    check_dir_empty path_d volume
    ≡ (verdict (decode_dir (contents 7)) (ok (6, (decode_inode (contents 6)).ptrs 0)), volume)
check_dir_empty_lem_example =
    check_dir_empty_lem path_d (path_to_entry volume-IsVolume has_d (omega arith)) d_directory
      d-Reads
