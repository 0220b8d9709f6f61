-- ===== src/Tests/Fixture.antt =====
-- A volume of sixteen blocks: the root directory with the file "a" of ten bytes and the empty
-- directory "d". Blocks 0 to 7 are in use.
use fuse_file_system.Prelude.{ℕ, ◌<◌, refl, false, true, [], ◌∷◌, arith, ◌==◌, if◌then◌else◌, ltb}
use fuse_file_system.Layout.{
  Block, Inode, Dirent, Directory, encode_inode, encode_dir, zeros, magic_number, byte_at,
}
use fuse_file_system.Layout.RoundTrip.{FitsDirectory}
use fuse_file_system.State.{FsState}
use fuse_file_system.Host.{Host}
use fuse_file_system.Disk.Laws.{OnDisk}
use fuse_file_system.Bitmap.{bit_test, count_free}
use fuse_file_system.Paths.{CString}
use fuse_file_system.Volume.{IsVolume}

abbrev pub host : Host
host = record { uid = 500; gid = 500; time = λ k. 1000; calloc = λ n. true }

abbrev pub dir_mode : ℕ
dir_mode = 0o040777

abbrev pub file_mode : ℕ
file_mode = 0o100666

abbrev pub inode_of : (mode size ptr : ℕ) → Inode
inode_of mode size ptr = record {
  uid = 500;
  gid = 500;
  mode = mode;
  ctime = 7;
  mtime = 8;
  size = size;
  ptrs = λ i. if i == 0 then ptr else 0;
}

abbrev pub entry_of : (inode letter : ℕ) → Dirent
entry_of inode letter = record {
  valid = 1;
  inode = inode;
  name = λ k. if k == 0 then letter else 0;
}

abbrev pub no_entry : Dirent
no_entry = record { valid = 0; inode = 0; name = λ k. 0 }

abbrev pub root_entries : Directory
root_entries i = if i == 0 then entry_of 4 b'a' else if i == 1 then entry_of 6 b'd' else no_entry

abbrev pub super_block : Block
super_block o = if ltb o 4 then byte_at magic_number o else if o == 4 then 16 else 0

abbrev pub bitmap : Block
bitmap o = if o == 0 then 255 else 0

abbrev pub contents : ℕ → Block
contents n =
    if n == 0
    then super_block
    else if n == 1
    then bitmap
    else if n == 2
    then encode_inode (inode_of dir_mode 4096 3)
    else if n == 3
    then encode_dir root_entries
    else if n == 4
    then encode_inode (inode_of file_mode 10 5)
    else if n == 6
    then encode_inode (inode_of dir_mode 4096 7)
    else zeros

abbrev pub volume : FsState
volume = record {
  image = record { block = contents; blocks = 16; broken = λ n. false };
  superblock = record { magic = magic_number; disk_size = 16 };
  root_inode = inode_of dir_mode 4096 3;
  bitmap = bitmap;
  stat_vfs = record { bsize = 4096; blocks = 14; bfree = 8; bavail = 8; namemax = 27 };
}

-- "/d/x"
abbrev pub path_d_x : CString
path_d_x = b'/' ∷ b'd' ∷ b'/' ∷ b'x' ∷ []

pub root_entries-FitsDirectory : FitsDirectory root_entries
root_entries-FitsDirectory i = record {
  valid = ground arith;
  inode = ground arith;
  name = λ k. ground arith;
}

pub volume-OnDisk : (lba : ℕ) → lba < 16 → OnDisk (volume.image) lba
volume-OnDisk lba lt = record { small = omega arith; present = lt; sound = refl }

pub volume-IsVolume : IsVolume volume
unfolding bit_test count_free
volume-IsVolume = record {
  fits_bitmap = omega arith;
  has_root = omega arith;
  on_disk = volume-OnDisk;
  bytes = λ o. ground arith;
  super_used = refl;
  bitmap_used = refl;
  root_used = refl;
  mirrored = refl;
  bfree = refl;
  bavail = refl;
}
