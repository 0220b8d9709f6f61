-- ===== src/Tests/Making.antt =====
-- `fs_mkdir` of "/d/x", and the two calls where "/a" exists.
use fuse_file_system.Prelude.{ℕ, ◌≡◌, ◌||◌, [], ◌∷◌, arith, has}
use fuse_file_system.State.{ok, err, eexist}
use fuse_file_system.Bitmap.Bits.{used}
use fuse_file_system.Paths.{CString}
use fuse_file_system.Attributes.{fs_getattr}
use fuse_file_system.Listing.{fs_readdir}
use fuse_file_system.Create.{fs_create, fs_mkdir}
use fuse_file_system.Create.Directories.{made, mkdir_then_readdir}
use fuse_file_system.Create.Exists.{create_existing}
use fuse_file_system.Volume.{IsVolume}
use fuse_file_system.Tests.Fixture.{host, path_d_x, file_mode, volume, volume-IsVolume}
use fuse_file_system.Tests.Creating.{x, room_for_x, x_fits, free_in_volume}
use fuse_file_system.Tests.Removing.{has_a}

abbrev path_a : CString
path_a = b'/' ∷ b'a' ∷ []

mkdir_then_readdir_example :
    let s' = made host 0o755 volume x 7 0 8 9 in
    (fs_mkdir host path_d_x 0o755 volume ≡ (ok tt, s'))
    × IsVolume s'
    × ((j : ℕ) → used s'.bitmap j ≡ (has j (8 ∷ 9 ∷ []) || used volume.bitmap j))
    × (fs_getattr path_d_x s' ≡ (
      ok (record {
        mode = 0o040755;
        uid = 500;
        gid = 500;
        size = 4096;
        ctime = 1000;
        mtime = 1000;
        atime = 1000;
        nlink = 1;
      }),
      s',
    ))
    × ((offset : ℕ) → fs_readdir path_d_x offset s' ≡ (ok (0, []), s'))
mkdir_then_readdir_example =
    mkdir_then_readdir volume-IsVolume room_for_x host 0o755 8 9 (10 ∷ 11 ∷ 12 ∷ 13 ∷ 14 ∷ 15 ∷ [])
      free_in_volume x_fits (omega arith)

create_existing_example :
    (fs_create host path_a file_mode volume ≡ (err eexist, volume))
    × (fs_mkdir host path_a file_mode volume ≡ (err eexist, volume))
create_existing_example = create_existing volume-IsVolume has_a host file_mode
