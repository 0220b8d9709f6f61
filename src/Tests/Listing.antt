-- ===== src/Tests/Listing.antt =====
-- `fs_readdir` of "/".
use fuse_file_system.Prelude.{ℕ, ◌≡◌, ◌≢◌, ◌<◌, refl, true, [], ◌∷◌, map, arith}
use fuse_file_system.Layout.{decode_inode, decode_dir, encode_inode, byte_at, max_dir_entries}
use fuse_file_system.Layout.RoundTrip.{decode-encode_dir}
use fuse_file_system.State.{FsState, ok}
use fuse_file_system.Disk.Laws.{block_read-ok}
use fuse_file_system.Paths.{
  CString, path_to_inode, parse, parse_loop, strtok, skip_slashes, root_inum, is_dir,
}
use fuse_file_system.Paths.Resolve.{Reads, Resolves, here, Anything, path_to_inode_whole}
use fuse_file_system.Listing.{fs_readdir}
use fuse_file_system.Listing.Entries.{valid_entries, filled, fs_readdir_lem}
use fuse_file_system.Tests.Fixture.{
  volume, volume-OnDisk, volume-IsVolume, contents, root_entries, root_entries-FitsDirectory,
}

abbrev path_root : CString
path_root = b'/' ∷ []

root-Resolves : (s : FsState) → Resolves s Anything (parse path_root) root_inum 2
unfolding parse parse_loop strtok skip_slashes
root-Resolves s = here

root_inode : path_to_inode path_root 0 volume ≡ (ok (2, decode_inode (contents 2)), volume)
root_inode =
    path_to_inode_whole path_root (root-Resolves volume)
      (block_read-ok {s = volume} (volume-OnDisk 2 (omega arith)))

root_directory : is_dir (decode_inode (contents 2)).mode ≡ true
unfolding decode_inode encode_inode byte_at
root_directory = refl

root-Reads : Reads volume ((decode_inode (contents 2)).ptrs 0) (contents 3)
unfolding decode_inode encode_inode byte_at
root-Reads = block_read-ok {s = volume} (volume-OnDisk 3 (omega arith))

below : (m : ℕ) → (decode_dir (contents 3) m).valid ≢ 0 → (decode_dir (contents 3) m).inode < 16
below m v =
    let same = decode-encode_dir root_entries root_entries-FitsDirectory m in
    rw same.1 (ground arith)

fs_readdir_lem_example : fs_readdir path_root 0 volume ≡ (
  ok (0, map (filled volume 0) (valid_entries (decode_dir (contents 3)) max_dir_entries 0)),
  volume,
)
fs_readdir_lem_example =
    fs_readdir_lem path_root 0 volume-IsVolume root_inode root_directory root-Reads
      (λ m lt. below m)
