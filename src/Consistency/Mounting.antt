-- ===== src/Consistency/Mounting.antt =====
-- `fs_init` of homework.c on the image of a consistent volume.
use fuse_file_system.Prelude.{ℕ, ◌≡◌, refl, []}
use fuse_file_system.State.{FsState}
use fuse_file_system.Mount.{fs_init}
use fuse_file_system.Mount.Opens.{fs_init-IsVolume, fs_init-again, IsVolume-IsFormatted}
use fuse_file_system.Volume.{IsVolume}
use fuse_file_system.Consistency.{Role, IsConsistent}
use fuse_file_system.Consistency.Frame.{IsFolder-frame, IsPlain-frame, IsListing-frame}
use fuse_file_system.Consistency.Outcome.{IsSound}

-- A state with the same image, superblock and bitmap, in order.
same_disk-IsConsistent :
    {s s' : FsState} {role : ℕ → Role}
    → IsConsistent s role
    → IsVolume s'
    → s'.image ≡ s.image
    → s'.superblock ≡ s.superblock
    → s'.bitmap ≡ s.bitmap
    → IsConsistent s' role
same_disk-IsConsistent c v image superblock bitmap = record {
  volume = v;
  label = rw (image, superblock) c.label;
  bytes = rw (image, superblock) c.bytes;
  super = c.super;
  bitmap = c.bitmap;
  root = c.root;
  in_range = rw superblock c.in_range;
  in_use = rw (superblock, bitmap) c.in_use;
  folders = λ i h. IsFolder-frame i (rw image refl) (λ b l. l) (c.folders i h);
  plains = λ i h. IsPlain-frame i (rw image refl) (λ b k l. l) (c.plains i h);
  listings = λ e h. IsListing-frame e (rw image refl) (λ b k kind valid l. l) (c.listings e h);
}

-- Mounting keeps a volume consistent.
pub fs_init-IsSound : {s : FsState} → IsSound s → IsSound (fs_init s).1
fs_init-IsSound (role, c) =
    let (ended, v, statvfs) = fs_init-IsVolume [] (IsVolume-IsFormatted c.volume c.label) in
    let (ended', image, superblock, bitmap, bfree, bavail) = fs_init-again c.volume c.label in
    (role, same_disk-IsConsistent c v image superblock bitmap)
