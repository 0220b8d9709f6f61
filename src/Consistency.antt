-- ===== src/Consistency.antt =====
-- What a volume of homework.c is for: each block that is in use has one role, and every pointer and
-- every directory entry leads to a block in the role that it stands for. So no block is shared and
-- none that is referred to is free.
pub mod Frame
pub mod Walk
pub mod Paths
pub mod Change
pub mod Tokens
pub mod Outcome
pub mod Attributes
pub mod Entries
pub mod NewEntry
pub mod Create
pub mod NewFolder
pub mod MakeDirectory
pub mod Adding
pub mod Removal
pub mod Blocks
pub mod Removing
pub mod Renamed
pub mod Renaming
pub mod Truncated
pub mod Truncating
pub mod Mounting
pub mod Overwrite
pub mod Requests
use fuse_file_system.Prelude.{ℕ, ◌<◌, ◌≤◌, ◌^◌, ◌≡◌, ◌≢◌, Bool, true, false, not, length}
use fuse_file_system.Layout.{decode_super, ptr_count, max_dir_entries, block_size}
use fuse_file_system.Layout.RoundTrip.{FitsBlock}
use fuse_file_system.State.{FsState}
use fuse_file_system.Bitmap.Bits.{used}
use fuse_file_system.Paths.{CString, is_dir, is_reg, is_named, max_name_len}
use fuse_file_system.Content.{file_blocks}
use fuse_file_system.Rename.Names.{IsToken}
use fuse_file_system.Volume.{IsVolume, inode_at, dir_at}

pub data Kind : Type 0 where
  plain folder : Kind

-- Where an inode is entered: nowhere, which is the root's place, or in an entry of a listing block.
pub data Place : Type 0 where
  top : Place
  under : (listing_block slot : ℕ) → Place

-- Not in use; superblock or bitmap; an inode; the block of entries of a directory inode; block `index`
-- of the file with an inode.
pub data Role : Type 0 where
  spare reserved : Role
  node : Kind → Place → Role
  listing : (inum : ℕ) → Role
  content : (inum index : ℕ) → Role

abbrev pub is_spare : Role → Bool
is_spare spare = true
is_spare reserved = false
is_spare (node kind place) = false
is_spare (listing inum) = false
is_spare (content inum index) = false

-- An inode of the volume.
abbrev pub IsNode : (ℕ → Role) → ℕ → Type 0
IsNode role i = (kind : Kind) × (place : Place) × (role i ≡ node kind place)

-- A directory inode, a file inode, and a block of entries.
pub record IsFolder (s : FsState) (role : ℕ → Role) (i : ℕ) : Type 0 where
  pub directory : is_dir (inode_at s i).mode ≡ true
  pub one_block : (inode_at s i).size ≡ block_size
  pub listed : role ((inode_at s i).ptrs 0) ≡ listing i

pub record IsPlain (s : FsState) (role : ℕ → Role) (i : ℕ) : Type 0 where
  pub regular : is_reg (inode_at s i).mode ≡ true
  pub small : (inode_at s i).size < 2 ^ 31
  pub few : file_blocks (inode_at s i).size ≤ ptr_count
  pub owned :
      (k : ℕ) → k < file_blocks (inode_at s i).size → role ((inode_at s i).ptrs k) ≡ content i k

pub record IsListing (s : FsState) (role : ℕ → Role) (e : ℕ) : Type 0 where
  pub entered :
      (k : ℕ)
      → k < max_dir_entries
      → (dir_at s e k).valid ≢ 0
      → (kind : Kind) × (role (dir_at s e k).inode ≡ node kind (under e k))
  pub ends : (k : ℕ) → (dir_at s e k).name max_name_len ≡ 0
  pub unique :
      (j k : ℕ)
      → j < max_dir_entries
      → k < max_dir_entries
      → j ≢ k
      → (t : CString) → IsToken t
      → length t ≤ max_name_len
      → is_named t (dir_at s e j) ≡ true
      → is_named t (dir_at s e k) ≡ false

pub record IsConsistent (s : FsState) (role : ℕ → Role) : Type 0 where
  pub volume : IsVolume s
  pub label : decode_super (s.image.block 0) ≡ s.superblock
  pub bytes : (b : ℕ) → b < s.superblock.disk_size → FitsBlock (s.image.block b)
  pub super : role 0 ≡ reserved
  pub bitmap : role 1 ≡ reserved
  pub root : role 2 ≡ node folder top
  pub in_range : (b : ℕ) → is_spare (role b) ≡ false → b < s.superblock.disk_size
  pub in_use : (b : ℕ) → b < s.superblock.disk_size → used s.bitmap b ≡ not (is_spare (role b))
  pub folders : (i : ℕ) {place : Place} → role i ≡ node folder place → IsFolder s role i
  pub plains : (i : ℕ) {place : Place} → role i ≡ node plain place → IsPlain s role i
  pub listings : (e : ℕ) {inum : ℕ} → role e ≡ listing inum → IsListing s role e
