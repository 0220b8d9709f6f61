-- ===== src/Tests/Mounting.antt =====
-- Mounting the volume, again and from zeroed globals.
use fuse_file_system.Prelude.{◌≡◌, ◌≢◌, refl, true, [], arith}
use fuse_file_system.Layout.{decode_super, byte_at}
use fuse_file_system.State.{FsState, ok, err, eio}
use fuse_file_system.Bitmap.{bit_test}
use fuse_file_system.Bitmap.Search.{free_blocks}
use fuse_file_system.Mount.{fs_init, fs_statfs}
use fuse_file_system.Mount.Opens.{IsFormatted, fs_init-IsVolume, fs_init-again, fs_init-ne_err}
use fuse_file_system.Volume.{IsVolume}
use fuse_file_system.Tests.Fixture.{volume, volume-OnDisk, volume-IsVolume}

superblock_on_disk : decode_super (volume.image.block 0) ≡ volume.superblock
unfolding decode_super byte_at
superblock_on_disk = refl

volume-IsFormatted : IsFormatted volume
unfolding decode_super byte_at bit_test
volume-IsFormatted = record {
  fits_bitmap = omega arith;
  has_root = omega arith;
  on_disk = volume-OnDisk;
  bytes = λ o. ground arith;
  super_used = refl;
  bitmap_used = refl;
  root_used = refl;
}

fs_init-IsVolume_example :
    let (r, s') = fs_init volume in
    (r ≡ ok tt)
    × IsVolume s'
    × (fs_statfs [] s'
        ≡ (ok (record { bsize = 4096; blocks = 14; bfree = 8; bavail = 8; namemax = 27 }), s'))
unfolding decode_super byte_at free_blocks bit_test
fs_init-IsVolume_example = fs_init-IsVolume [] volume-IsFormatted

fs_init-again_example :
    let (r, s') = fs_init volume in
    (r ≡ ok tt)
    × (s'.image ≡ volume.image)
    × (s'.superblock ≡ volume.superblock)
    × (s'.bitmap ≡ volume.bitmap)
    × (s'.stat_vfs.bfree ≡ volume.stat_vfs.bfree)
    × (s'.stat_vfs.bavail ≡ volume.stat_vfs.bavail)
fs_init-again_example = fs_init-again volume-IsVolume superblock_on_disk

-- A disk of which no block can be read.
abbrev broken : FsState
broken = record volume { image = record (volume.image) { broken = λ n. true } }

fs_init-ne_err_example : fs_init broken ≢ (err eio, broken)
fs_init-ne_err_example = fs_init-ne_err broken broken eio
