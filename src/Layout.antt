-- ===== src/Layout.antt =====
-- fs5600.h: how inodes, directories and the superblock lie in a block, as the casts of homework.c
-- read them on a little-endian machine with the bit fields of `struct fs_dirent` from the lowest bit.
-- A block is a function from the byte's offset; only the offsets below `block_size` mean anything.
pub mod RoundTrip
use fuse_file_system.Prelude.{ℕ, ◌+◌, ◌-◌, ◌*◌, ◌/◌, ◌%◌, ◌^◌, ltb, ◌==◌, if◌then◌else◌}

abbrev pub block_size : ℕ
block_size = 4096

abbrev pub magic_number : ℕ
magic_number = 0x30303635

-- `FS_BLOCK_SIZE / 4 - 5`
abbrev pub ptr_count : ℕ
ptr_count = 1019

abbrev pub max_dir_entries : ℕ
max_dir_entries = 128

abbrev pub name_size : ℕ
name_size = 28

abbrev pub Block : Type 0
Block = ℕ → ℕ

abbrev pub zeros : Block
zeros o = 0

pub record Dirent : Type 0 where
  pub valid : ℕ
  pub inode : ℕ
  pub name : ℕ → ℕ

abbrev pub Directory : Type 0
Directory = ℕ → Dirent

pub record Super : Type 0 where
  pub magic : ℕ
  pub disk_size : ℕ

pub record Inode : Type 0 where
  pub uid : ℕ
  pub gid : ℕ
  pub mode : ℕ
  pub ctime : ℕ
  pub mtime : ℕ
  pub size : ℕ
  pub ptrs : ℕ → ℕ

abbrev pub read16 : Block → ℕ → ℕ
read16 b o = b o + 256 * b (o + 1)

abbrev pub read32 : Block → ℕ → ℕ
read32 b o = b o + 256 * b (o + 1) + 65536 * b (o + 2) + 16777216 * b (o + 3)

-- Byte `k` of a word.
unfoldable pub byte_at : ℕ → ℕ → ℕ
byte_at w k =
    if k == 0
    then w % 256
    else if k == 1
    then w / 256 % 256
    else if k == 2
    then w / 65536 % 256
    else w / 16777216 % 256

unfoldable pub decode_super : Block → Super
decode_super b = record { magic = read32 b 0; disk_size = read32 b 4 }

unfoldable pub decode_inode : Block → Inode
decode_inode b = record {
  uid = read16 b 0;
  gid = read16 b 2;
  mode = read32 b 4;
  ctime = read32 b 8;
  mtime = read32 b 12;
  size = read32 b 16;
  ptrs = λ i. read32 b (20 + 4 * i);
}

unfoldable pub encode_inode : Inode → Block
encode_inode n o =
    if ltb o 2
    then byte_at n.uid o
    else if ltb o 4
    then byte_at n.gid (o - 2)
    else if ltb o 8
    then byte_at n.mode (o - 4)
    else if ltb o 12
    then byte_at n.ctime (o - 8)
    else if ltb o 16
    then byte_at n.mtime (o - 12)
    else if ltb o 20
    then byte_at n.size (o - 16)
    else byte_at (n.ptrs ((o - 20) / 4)) ((o - 20) % 4)

-- `valid : 1` and `inode : 31` share the entry's first word.
unfoldable pub decode_dir : Block → Directory
decode_dir b i = record {
  valid = read32 b (32 * i) % 2;
  inode = read32 b (32 * i) / 2;
  name = λ k. b (32 * i + 4 + k);
}

unfoldable pub encode_dir : Directory → Block
encode_dir d o =
    if ltb (o % 32) 4
    then byte_at ((d (o / 32)).valid + 2 * (d (o / 32)).inode) (o % 32)
    else (d (o / 32)).name (o % 32 - 4)
