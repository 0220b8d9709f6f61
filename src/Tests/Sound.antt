-- ===== src/Tests/Sound.antt =====
-- The volume of the tests is consistent.
use fuse_file_system.Prelude.{
  ℕ, ◌^◌, ◌≤◌, ◌<◌, ◌≡◌, ◌≢◌, ◌⊎◌, ◌∙◌, refl, sym, Bool, true, not, get_or, [], ◌∷◌, arith, ◌==◌,
  if◌then◌else◌, inl, inr, Bool-cases, ==→eq, length,
}
use fuse_file_system.Layout.{decode_super, decode_dir, byte_at}
use fuse_file_system.Layout.RoundTrip.{
  FitsBlock, FitsInode, SameDirent, decode-encode_inode, encode_inode-FitsBlock, decode-encode_dir,
  encode_dir-FitsBlock,
}
use fuse_file_system.Prelude.Table.{holds, entry_holds}
use fuse_file_system.Bitmap.{bit_test}
use fuse_file_system.Bitmap.Bits.{used}
use fuse_file_system.Content.{file_blocks}
use fuse_file_system.Paths.{CString, is_named, max_name_len}
use fuse_file_system.Paths.Entries.{Holds, named-Holds, is_named-SameDirent}
use fuse_file_system.Volume.{inode_at, dir_at}
use fuse_file_system.Consistency.{
  plain, folder, Place, top, under, Role, spare, reserved, node, listing, content, is_spare,
  IsFolder, IsPlain, IsListing, IsConsistent,
}
use fuse_file_system.Tests.Fixture.{
  volume, volume-IsVolume, contents, inode_of, dir_mode, file_mode, root_entries,
  root_entries-FitsDirectory,
}

abbrev pub roles : ℕ → Role
roles b =
    if b == 0
    then reserved
    else if b == 1
    then reserved
    else if b == 2
    then node folder top
    else if b == 3
    then listing 2
    else if b == 4
    then node plain (under 3 0)
    else if b == 5
    then content 4 0
    else if b == 6
    then node folder (under 3 1)
    else if b == 7
    then listing 6
    else spare

inode_of-FitsInode :
    (mode size ptr : ℕ)
    → mode < 2 ^ 32
    → size < 2 ^ 32
    → ptr < 2 ^ 32
    → FitsInode (inode_of mode size ptr)
inode_of-FitsInode mode size ptr m s p = record {
  uid = omega arith;
  gid = omega arith;
  mode = m;
  ctime = omega arith;
  mtime = omega arith;
  size = s;
  ptrs = λ i. ground arith;
}

root_inode : inode_at volume 2 ≡ inode_of dir_mode 4096 3
root_inode =
    decode-encode_inode (inode_of dir_mode 4096 3)
      (inode_of-FitsInode dir_mode 4096 3 (omega arith) (omega arith) (omega arith))

file_inode : inode_at volume 4 ≡ inode_of file_mode 10 5
file_inode =
    decode-encode_inode (inode_of file_mode 10 5)
      (inode_of-FitsInode file_mode 10 5 (omega arith) (omega arith) (omega arith))

folder_inode : inode_at volume 6 ≡ inode_of dir_mode 4096 7
folder_inode =
    decode-encode_inode (inode_of dir_mode 4096 7)
      (inode_of-FitsInode dir_mode 4096 7 (omega arith) (omega arith) (omega arith))

is_folder : (i : ℕ) (place : Place) → roles i ≡ node folder place → (i ≡ 2) ⊎ (i ≡ 6)
is_folder i place h = ground arith

is_plain : (i : ℕ) (place : Place) → roles i ≡ node plain place → i ≡ 4
is_plain i place h = ground arith

is_listing : (i inum : ℕ) → roles i ≡ listing inum → (i ≡ 3) ⊎ (i ≡ 7)
is_listing i inum h = ground arith

block-FitsBlock : (b : ℕ) → b < 16 → FitsBlock (contents b)
unfolding byte_at
block-FitsBlock b lt o = ground (
  arith,
  encode_inode-FitsBlock (inode_of dir_mode 4096 3) o,
  encode_inode-FitsBlock (inode_of file_mode 10 5) o,
  encode_inode-FitsBlock (inode_of dir_mode 4096 7) o,
  encode_dir-FitsBlock root_entries root_entries-FitsDirectory o,
)

agrees : ℕ → Bool
agrees b = if used volume.bitmap b then not (is_spare (roles b)) else is_spare (roles b)

all_agree : holds agrees 16 ≡ true
unfolding holds agrees bit_test
all_agree = refl

in_use : (b : ℕ) → b < 16 → used volume.bitmap b ≡ not (is_spare (roles b))
unfolding agrees
in_use b lt =
    let e = entry_holds agrees 16 b lt all_agree in
    elim (Bool-cases (used volume.bitmap b)) [
      | inl u ↦ let e' : not (is_spare (roles b)) ≡ true = rw u at e in u ∙ sym e'
      | inr u ↦ let e' : is_spare (roles b) ≡ true = rw u at e in rw (u, e')
    ]

root-IsFolder : IsFolder volume roles 2
root-IsFolder = record {
  directory = rw root_inode refl;
  one_block = rw root_inode refl;
  listed = rw root_inode refl;
}

folder-IsFolder : IsFolder volume roles 6
folder-IsFolder = record {
  directory = rw folder_inode refl;
  one_block = rw folder_inode refl;
  listed = rw folder_inode refl;
}

file_block : file_blocks (inode_at volume 4).size ≡ 1
unfolding file_blocks
file_block = rw file_inode refl

file-IsPlain : IsPlain volume roles 4
file-IsPlain = record {
  regular = rw file_inode refl;
  small = rw file_inode (omega arith);
  few = rw file_block (omega arith);
  owned = λ k lt. let first : k ≡ 0 = omega (arith, file_block) in rw (first, file_inode) refl;
}

root_entry : (k : ℕ) → SameDirent (dir_at volume 3 k) (root_entries k)
root_entry = decode-encode_dir root_entries root_entries-FitsDirectory

-- The first byte of a name tells the entry.
letter_of : ℕ → ℕ
letter_of k = if k == 0 then b'a' else if k == 1 then b'd' else 0

first_byte : (t : CString) (name : ℕ → ℕ) → Holds t name → get_or t 0 0 ≡ name 0
first_byte [] name h = sym h.ends
first_byte (c ∷ t) name h = sym (h.bytes 0 (omega arith))

named_letter :
    (k : ℕ) (t : CString)
    → length t ≤ max_name_len
    → is_named t (dir_at volume 3 k) ≡ true
    → (k < 2) × (get_or t 0 0 ≡ letter_of k)
unfolding letter_of
named_letter k t short named =
    let (valid, held) =
      named-Holds t (root_entries k)
        (sym (is_named-SameDirent t _ _ short (root_entry k)) ∙ named) in
    let byte = first_byte t (root_entries k).name held in (ground arith, ground arith)

root-IsListing : IsListing volume roles 3
unfolding letter_of
root-IsListing = record {
  entered = λ k lt valid.
      let v : (root_entries k).valid ≢ 0 = rw (root_entry k).0 at valid in
      elim (Bool-cases (k == 0)) [
        | inl e ↦ let first = ==→eq k 0 e in (plain, rw (root_entry k).1 (rw first refl))
        | inr e ↦
            let second : k ≡ 1 = ground arith in (folder, rw (root_entry k).1 (rw second refl))
      ];
  ends = λ k. (root_entry k).2 max_name_len (omega arith) ∙ ground arith;
  unique = λ j k lj lk ne t token short named. elim (Bool-cases (is_named t (dir_at volume 3 k))) [
    | inl both ↦
        let (a, x) = named_letter j t short named in
        let (b, y) = named_letter k t short both in absurd (ground arith)
    | inr other ↦ other
  ];
}

empty_entry :
    (k : ℕ) → ((dir_at volume 7 k).valid ≡ 0) × ((dir_at volume 7 k).name max_name_len ≡ 0)
unfolding decode_dir
empty_entry k = (refl, refl)

folder-IsListing : IsListing volume roles 7
unfolding is_named
folder-IsListing = record {
  entered = λ k lt valid. absurd (valid (empty_entry k).0);
  ends = λ k. (empty_entry k).1;
  unique = λ j k lj lk ne t token short named. rw (empty_entry k).0 refl;
}

label : decode_super (contents 0) ≡ volume.superblock
unfolding decode_super byte_at
label = refl

pub volume-IsConsistent : IsConsistent volume roles
volume-IsConsistent = record {
  volume = volume-IsVolume;
  label = label;
  bytes = block-FitsBlock;
  super = refl;
  bitmap = refl;
  root = refl;
  in_range = λ b h. ground arith;
  in_use = in_use;
  folders = λ i {place} h. elim (is_folder i place h) [
    | inl e ↦ rw e root-IsFolder
    | inr e ↦ rw e folder-IsFolder
  ];
  plains = λ i {place} h. rw (is_plain i place h) file-IsPlain;
  listings = λ e {inum} h. elim (is_listing e inum h) [
    | inl l ↦ rw l root-IsListing
    | inr l ↦ rw l folder-IsListing
  ];
}
