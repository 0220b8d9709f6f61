-- ===== src/Layout/RoundTrip.antt =====
-- What is written through a structure is read back through it.
use fuse_file_system.Prelude.{ℕ, ◌+◌, ◌-◌, ◌*◌, ◌/◌, ◌%◌, ◌^◌, ◌<◌, ◌≡◌, arith, le→ltb}
use fuse_file_system.Layout.{
  Block, Dirent, Directory, Inode, read16, read32, byte_at, decode_inode, encode_inode, decode_dir,
  encode_dir, name_size,
}

pub record FitsInode (n : Inode) : Type 0 where
  pub uid : n.uid < 2 ^ 16
  pub gid : n.gid < 2 ^ 16
  pub mode : n.mode < 2 ^ 32
  pub ctime : n.ctime < 2 ^ 32
  pub mtime : n.mtime < 2 ^ 32
  pub size : n.size < 2 ^ 32
  pub ptrs : (i : ℕ) → n.ptrs i < 2 ^ 32

-- Every byte of the block is a byte.
abbrev pub FitsBlock : Block → Type 0
FitsBlock b = (o : ℕ) → b o < 256

-- The four bytes of a word make the word.
join32 :
    (w : ℕ)
    → w < 2 ^ 32
    → byte_at w 0 + 256 * byte_at w 1 + 65536 * byte_at w 2 + 16777216 * byte_at w 3 ≡ w
unfolding byte_at
join32 w h = omega arith

byte_at-lt : (w k : ℕ) → byte_at w k < 256
unfolding byte_at
byte_at-lt w k = ground arith

module _ (n : Inode) where
  encode-ptrs : (i k : ℕ) → k < 4 → encode_inode n (20 + 4 * i + k) ≡ byte_at (n.ptrs i) k
  unfolding encode_inode
  encode-ptrs i k h =
      let q : (20 + 4 * i + k - 20) / 4 ≡ i = omega arith in
      let r : (20 + 4 * i + k - 20) % 4 ≡ k = omega arith in rw (q, r) (ground arith)

  encode-ptrs_zero : (i : ℕ) → encode_inode n (20 + 4 * i) ≡ byte_at (n.ptrs i) 0
  unfolding encode_inode
  encode-ptrs_zero i =
      let q : (20 + 4 * i - 20) / 4 ≡ i = omega arith in
      let r : (20 + 4 * i - 20) % 4 ≡ 0 = omega arith in rw (q, r) (ground arith)

  read-ptrs : (i : ℕ) → n.ptrs i < 2 ^ 32 → read32 (encode_inode n) (20 + 4 * i) ≡ n.ptrs i
  read-ptrs i h =
      rw
        (
          encode-ptrs_zero i,
          encode-ptrs i 1 (omega arith),
          encode-ptrs i 2 (omega arith),
          encode-ptrs i 3 (omega arith),
        )
        (join32 (n.ptrs i) h)

  -- An inode whose fields fit their widths is read back whole from its block.
  pub decode-encode_inode : FitsInode n → decode_inode (encode_inode n) ≡ n
  unfolding decode_inode encode_inode byte_at
  decode-encode_inode f = λ i. record {
    uid = uid i;
    gid = gid i;
    mode = mode i;
    ctime = ctime i;
    mtime = mtime i;
    size = size i;
    ptrs = λ j. read-ptrs j (f.ptrs j) i;
  }
    where
      uid : read16 (encode_inode n) 0 ≡ n.uid
      uid = omega (arith, f.uid)

      gid : read16 (encode_inode n) 2 ≡ n.gid
      gid = omega (arith, f.gid)

      mode : read32 (encode_inode n) 4 ≡ n.mode
      mode = omega (arith, f.mode)

      ctime : read32 (encode_inode n) 8 ≡ n.ctime
      ctime = omega (arith, f.ctime)

      mtime : read32 (encode_inode n) 12 ≡ n.mtime
      mtime = omega (arith, f.mtime)

      size : read32 (encode_inode n) 16 ≡ n.size
      size = omega (arith, f.size)

  pub encode_inode-FitsBlock : FitsBlock (encode_inode n)
  unfolding encode_inode
  encode_inode-FitsBlock o = ground (
    arith,
    byte_at-lt n.uid o,
    byte_at-lt n.gid (o - 2),
    byte_at-lt n.mode (o - 4),
    byte_at-lt n.ctime (o - 8),
    byte_at-lt n.mtime (o - 12),
    byte_at-lt n.size (o - 16),
    byte_at-lt (n.ptrs ((o - 20) / 4)) ((o - 20) % 4),
  )

module _ {b : Block} (fits : FitsBlock b) where
  -- A block of bytes holds an inode whose fields are in range.
  pub decode_inode-FitsInode : FitsInode (decode_inode b)
  unfolding decode_inode
  decode_inode-FitsInode = record {
    uid = omega (arith, fits 0, fits 1);
    gid = omega (arith, fits 2, fits 3);
    mode = word 4;
    ctime = word 8;
    mtime = word 12;
    size = word 16;
    ptrs = λ i. word (20 + 4 * i);
  }
    where
      word : (o : ℕ) → read32 b o < 2 ^ 32
      word o = omega (arith, fits o, fits (o + 1), fits (o + 2), fits (o + 3))

-- The fields of an entry are in range.
pub record FitsDirent (e : Dirent) : Type 0 where
  pub valid : e.valid < 2
  pub inode : e.inode < 2 ^ 31
  pub name : (k : ℕ) → e.name k < 256

abbrev pub FitsDirectory : Directory → Type 0
FitsDirectory d = (i : ℕ) → FitsDirent (d i)

-- The name of an entry beyond its 28 bytes is nothing.
abbrev pub SameDirent : Dirent → Dirent → Type 0
SameDirent e f =
    (e.valid ≡ f.valid) × (e.inode ≡ f.inode) × ((k : ℕ) → k < name_size → e.name k ≡ f.name k)

module _ (d : Directory) where
  encode-word :
      (i k : ℕ) → k < 4 → encode_dir d (32 * i + k) ≡ byte_at ((d i).valid + 2 * (d i).inode) k
  unfolding encode_dir
  encode-word i k h =
      let q : (32 * i + k) / 32 ≡ i = omega arith in
      let r : (32 * i + k) % 32 ≡ k = omega arith in rw (q, r) (ground arith)

  encode-word_zero : (i : ℕ) → encode_dir d (32 * i) ≡ byte_at ((d i).valid + 2 * (d i).inode) 0
  unfolding encode_dir
  encode-word_zero i =
      let q : (32 * i) / 32 ≡ i = omega arith in
      let r : (32 * i) % 32 ≡ 0 = omega arith in rw (q, r) (ground arith)

  encode-name : (i k : ℕ) → k < name_size → encode_dir d (32 * i + 4 + k) ≡ (d i).name k
  unfolding encode_dir
  encode-name i k h =
      let q : (32 * i + 4 + k) / 32 ≡ i = omega arith in
      let r : (32 * i + 4 + k) % 32 ≡ k + 4 = omega arith in
      let t : k + 4 - 4 ≡ k = omega arith in rw (q, r, le→ltb (k + 4) 4 (omega arith), t)

  -- A directory whose entries fit their fields is read back entry by entry from its block, up to
  -- the 28 bytes of a name.
  pub decode-encode_dir : FitsDirectory d → (i : ℕ) → SameDirent (decode_dir (encode_dir d) i) (d i)
  unfolding decode_dir
  decode-encode_dir fits i =
      (omega (arith, word, (fits i).valid), omega (arith, word, (fits i).valid), encode-name i)
    where
      word : read32 (encode_dir d) (32 * i) ≡ (d i).valid + 2 * (d i).inode
      word =
          rw
            (
              encode-word_zero i,
              encode-word i 1 (omega arith),
              encode-word i 2 (omega arith),
              encode-word i 3 (omega arith),
            )
            (join32 ((d i).valid + 2 * (d i).inode) (omega (arith, (fits i).valid, (fits i).inode)))

  pub encode_dir-FitsBlock : FitsDirectory d → FitsBlock (encode_dir d)
  unfolding encode_dir
  encode_dir-FitsBlock fits o = ground (
    arith,
    byte_at-lt ((d (o / 32)).valid + 2 * (d (o / 32)).inode) (o % 32),
    (fits (o / 32)).name (o % 32 - 4),
  )

pub decode_dir-FitsDirectory : {b : Block} → FitsBlock b → FitsDirectory (decode_dir b)
unfolding decode_dir
decode_dir-FitsDirectory {b} fits i = record {
  valid = omega arith;
  inode = omega (arith, fits (32 * i), fits (32 * i + 1), fits (32 * i + 2), fits (32 * i + 3));
  name = λ k. fits (32 * i + 4 + k);
}
