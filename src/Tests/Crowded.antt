-- ===== src/Tests/Crowded.antt =====
-- A volume like that of the other tests, but for two things: the file "a" has 5000 bytes in two
-- blocks, and the directory "d" has the file "x" in its second entry, the first being free.
use fuse_file_system.Prelude.{
  ℕ, ◌≡◌, ◌≢◌, ◌∙◌, ◌<◌, refl, false, not, ◌&&◌, [], ◌∷◌, arith, has, ◌==◌, if◌then◌else◌,
  Bool-cases, ne→==, ==→eq, ==→ne, ◌⊎◌, inl, inr,
}
use fuse_file_system.Layout.{
  Block, Directory, decode_inode, decode_dir, encode_inode, encode_dir, byte_at, max_dir_entries,
}
use fuse_file_system.Layout.RoundTrip.{encode_dir-FitsBlock, decode-encode_dir}
use fuse_file_system.State.{FsState, ok, err, enoent}
use fuse_file_system.Disk.{block_read}
use fuse_file_system.Disk.Laws.{OnDisk}
use fuse_file_system.Bitmap.{bit_test, count_free}
use fuse_file_system.Bitmap.Bits.{used}
use fuse_file_system.Bitmap.Count.{Distinct}
use fuse_file_system.Paths.{
  CString, parse, parse_loop, strtok, skip_slashes, until_slash, after_slash, find_entry, is_named,
  same_string, search_dir, walk, translate, path_to_inode,
}
use fuse_file_system.Paths.Entries.{find_entry-First, is_named-SameDirent}
use fuse_file_system.Paths.Resolve.{here}
use fuse_file_system.Attributes.{fs_getattr}
use fuse_file_system.Content.{file_blocks}
use fuse_file_system.Directory.Place.{HasEntry}
use fuse_file_system.Remove.{fs_rmdir}
use fuse_file_system.Remove.Emptied.{LooksEmpty, rmdir_then_getattr}
use fuse_file_system.Write.{fs_write}
use fuse_file_system.Write.InPlace.{CanOverwrite, fs_write_miscounts}
use fuse_file_system.Volume.{IsVolume, Untouched, inode_at}
use fuse_file_system.Tests.Fixture.{
  host, file_mode, inode_of, entry_of, no_entry, root_entries, root_entries-FitsDirectory, volume,
}

abbrev d : CString
d = b'd' ∷ []

abbrev path_d : CString
path_d = b'/' ∷ d

abbrev path_a : CString
path_a = b'/' ∷ b'a' ∷ []

abbrev d_entries : Directory
d_entries i = if i == 1 then entry_of 9 b'x' else no_entry

-- Blocks 0 to 9 are in use.
abbrev bitmap : Block
bitmap o = if o == 0 then 255 else if o == 1 then 3 else 0

abbrev contents : ℕ → Block
contents n =
    if n == 1
    then bitmap
    else if n == 4
    then encode_inode (record (inode_of file_mode 5000 5) {
      ptrs = λ i. if i == 0 then 5 else if i == 1 then 8 else 0;
    })
    else if n == 7
    then encode_dir d_entries
    else if n == 9
    then encode_inode (inode_of file_mode 0 0)
    else volume.image.block n

abbrev crowded : FsState
crowded = record volume {
  image = record { block = contents; blocks = 16; broken = λ n. false };
  bitmap = bitmap;
  stat_vfs = record { bsize = 4096; blocks = 14; bfree = 6; bavail = 6; namemax = 27 };
}

crowded-OnDisk : (lba : ℕ) → lba < 16 → OnDisk (crowded.image) lba
crowded-OnDisk lba lt = record { small = omega arith; present = lt; sound = refl }

crowded-IsVolume : IsVolume crowded
unfolding bit_test count_free
crowded-IsVolume = record {
  fits_bitmap = omega arith;
  has_root = omega arith;
  on_disk = crowded-OnDisk;
  bytes = λ o. ground arith;
  super_used = refl;
  bitmap_used = refl;
  root_used = refl;
  mirrored = refl;
  bfree = refl;
  bavail = refl;
}

root-Untouched : Untouched crowded 3 2
unfolding bit_test
root-Untouched = record {
  below = omega arith;
  in_use = refl;
  not_bitmap = omega arith;
  not_entries = omega arith;
}

has_d : HasEntry crowded path_d [] d 2 3 1 6
unfolding parse parse_loop strtok skip_slashes until_slash after_slash find_entry is_named
    same_string decode_inode encode_inode decode_dir encode_dir byte_at bit_test
has_d = record {
  place = record {
    parsed = refl;
    resolves = here;
    parent = root-Untouched;
    directory = refl;
    pointer = refl;
    below = omega arith;
    in_use = refl;
    not_super = omega arith;
    not_bitmap = omega arith;
  };
  first = find_entry-First (is_named d) (decode_dir (contents 3)) max_dir_entries 0 1 refl;
  leads_to = refl;
}

d-LooksEmpty : LooksEmpty crowded 6 7
unfolding Distinct decode_inode encode_inode decode_dir encode_dir byte_at bit_test
d-LooksEmpty = record {
  directory = refl;
  pointer = refl;
  first_free = refl;
  inode_below = omega arith;
  entries_below = omega arith;
  distinct = (omega arith, refl, refl, (omega arith, refl, refl, tt));
  not_format = λ k lt. ground arith;
}

other_entries : (m : ℕ) → m ≢ 1 → is_named d (root_entries m) ≡ false
unfolding is_named same_string
other_entries m ne = elim (Bool-cases (m == 0)) [ inl e ↦ rw e | inr e ↦ rw (e, ne→== m 1 ne) ]

other_names : (m : ℕ) → m < max_dir_entries → m ≢ 1 → is_named d (decode_dir (contents 3) m) ≡ false
other_names m lt ne =
    is_named-SameDirent d _ _ (omega arith)
      (decode-encode_dir root_entries root_entries-FitsDirectory m)
    ∙ other_entries m ne

rmdir_then_getattr_example :
    let (r, s') = fs_rmdir path_d crowded in
    (r ≡ ok tt)
    × IsVolume s'
    × ((j : ℕ) → used s'.bitmap j ≡ (not (has j (6 ∷ 7 ∷ [])) && used crowded.bitmap j))
    × (fs_getattr path_d s' ≡ (err enoent, s'))
rmdir_then_getattr_example =
    rmdir_then_getattr crowded-IsVolume has_d d-LooksEmpty
      (encode_dir-FitsBlock root_entries root_entries-FitsDirectory) other_names

abbrev new_bytes : Block
new_bytes o = b'z'

found_a : path_to_inode path_a 0 crowded ≡ (ok (4, inode_at crowded 4), crowded)
unfolding path_to_inode translate walk search_dir find_entry is_named same_string parse parse_loop
    strtok skip_slashes until_slash after_slash block_read decode_inode encode_inode decode_dir
    encode_dir byte_at
found_a = refl

pointer : (k : ℕ) → k < 2 → ((inode_at crowded 4).ptrs k ≡ 5) ⊎ ((inode_at crowded 4).ptrs k ≡ 8)
unfolding decode_inode encode_inode byte_at
pointer k lt = elim (Bool-cases (k == 0)) [
  | inl e ↦ let first : k ≡ 0 = ==→eq k 0 e in rw first (inl refl)
  | inr e ↦ let second : k ≡ 1 = omega (arith, ==→ne k 0 e) in rw second (inr refl)
]

three_bytes : CanOverwrite host crowded path_a 4 3 2
unfolding decode_inode encode_inode byte_at file_blocks
three_bytes = record {
  found = found_a;
  regular = refl;
  small = omega arith;
  some_bytes = omega arith;
  inside = omega arith;
  few = omega arith;
  inode = omega arith;
  not_super = omega arith;
  below = λ k lt. elim (pointer k lt) [ inl e ↦ rw e (omega arith) | inr e ↦ rw e (omega arith) ];
  positive =
      λ k lt. elim (pointer k lt) [ inl e ↦ rw e (omega arith) | inr e ↦ rw e (omega arith) ];
  apart = λ k lt. elim (pointer k lt) [
    | inl e ↦ rw e (λ e. omega arith)
    | inr e ↦ rw e (λ e. omega arith)
  ];
  distinct = λ j k lt hi.
      let first : j ≡ 0 = omega arith in
      let second : k ≡ 1 = omega arith in rw (first, second) (λ e. omega arith);
  memory = λ room. refl;
}

-- The count is raised by 1.
fs_write_miscounts_example :
    let s' = (fs_write host path_a new_bytes 3 2 crowded).1 in
    (s'.stat_vfs.bfree ≡ 7) × (s'.bitmap ≡ crowded.bitmap)
unfolding decode_inode encode_inode byte_at file_blocks
fs_write_miscounts_example = fs_write_miscounts crowded-IsVolume three_bytes new_bytes
