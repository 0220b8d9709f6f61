-- ===== src/Tests/Reading.antt =====
-- `fs_read` of "/a": the whole file, and past the end of one that was longer once.
use fuse_file_system.Prelude.{ℕ, ◌+◌, ◌-◌, ◌^◌, ◌≡◌, ◌<◌, refl, [], ◌∷◌, arith, ◌==◌, if◌then◌else◌}
use fuse_file_system.Layout.{Inode, decode_inode, encode_inode, decode_dir, encode_dir, byte_at}
use fuse_file_system.State.{FsState, ok, err, eio}
use fuse_file_system.Disk.{block_read}
use fuse_file_system.Disk.Laws.{with_block}
use fuse_file_system.Paths.{
  CString, parse, parse_loop, strtok, skip_slashes, until_slash, after_slash, find_entry, is_named,
  same_string, search_dir, walk, translate, path_to_inode,
}
use fuse_file_system.Content.{file_blocks}
use fuse_file_system.Read.{fs_read}
use fuse_file_system.Read.Range.{CanRead, available, read_buffer, file_byte, fs_read_lem}
use fuse_file_system.Read.PastEnd.{PassesEnd, fs_read_past_end}
use fuse_file_system.Volume.{IsVolume, inode_at}
use fuse_file_system.Volume.Keeps.{with_block-IsVolume}
use fuse_file_system.Tests.Fixture.{
  host, file_mode, inode_of, volume, volume-IsVolume, volume-OnDisk,
}

abbrev path_a : CString
path_a = b'/' ∷ b'a' ∷ []

-- The second pointer is the -1 that `fs_truncate` leaves.
abbrev stale_inode : Inode
stale_inode = record (inode_of file_mode 10 5) { ptrs = λ i. if i == 0 then 5 else 2 ^ 32 - 1 }

abbrev stale : FsState
stale = with_block volume 4 (encode_inode stale_inode)

pub found_a : path_to_inode path_a 0 volume ≡ (ok (4, inode_at volume 4), volume)
unfolding path_to_inode translate walk search_dir find_entry is_named same_string parse parse_loop
    strtok skip_slashes until_slash after_slash block_read decode_inode encode_inode decode_dir
    encode_dir byte_at
found_a = refl

found_stale : path_to_inode path_a 0 stale ≡ (ok (4, inode_at stale 4), stale)
unfolding path_to_inode translate walk search_dir find_entry is_named same_string parse parse_loop
    strtok skip_slashes until_slash after_slash block_read decode_inode encode_inode decode_dir
    encode_dir byte_at
found_stale = refl

whole_file : CanRead host volume path_a 4 10 0
unfolding decode_inode encode_inode byte_at
whole_file = record {
  found = found_a;
  regular = refl;
  small = omega arith;
  in_file = omega arith;
  some_bytes = omega arith;
  short = omega arith;
  few = omega arith;
  blocks = λ k lo hi. let first : k ≡ 0 = omega arith in rw first (omega arith);
  memory = λ room. refl;
}

fs_read_lem_example :
    let count = available (inode_at volume 4) 10 0 in
    let buffer = read_buffer volume (inode_at volume 4) 10 0 in
    (fs_read host path_a 10 0 volume ≡ (ok (count, buffer), volume))
    × ((o : ℕ) → o < count → buffer o ≡ file_byte volume (inode_at volume 4) (0 + o))
fs_read_lem_example = fs_read_lem volume-OnDisk whole_file

past_end : PassesEnd host stale path_a 4 11 0
unfolding decode_inode encode_inode byte_at file_blocks block_read
past_end = record {
  found = found_stale;
  regular = refl;
  small = omega arith;
  in_file = omega arith;
  short = omega arith;
  passes = omega arith;
  few = omega arith;
  blocks = λ k lo hi. let first : k ≡ 0 = omega arith in rw first (omega arith);
  memory = λ room. refl;
  stale = refl;
}

stale-IsVolume : IsVolume stale
stale-IsVolume = with_block-IsVolume 4 (encode_inode stale_inode) (λ e. omega arith) volume-IsVolume

fs_read_past_end_example : fs_read host path_a 11 0 stale ≡ (err eio, stale)
fs_read_past_end_example = fs_read_past_end stale-IsVolume.on_disk past_end
