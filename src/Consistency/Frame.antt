-- ===== src/Consistency/Frame.antt =====
-- Blocks of a consistent volume, and what stays so when a state changes elsewhere.
use fuse_file_system.Prelude.{ℕ, ◌<◌, ◌≡◌, ◌≢◌, ◌∙◌, ap, true, false, not, arith}
use fuse_file_system.State.{FsState}
use fuse_file_system.Disk.Laws.{block_read-ok}
use fuse_file_system.Bitmap.Bits.{used}
use fuse_file_system.Paths.Resolve.{Reads}
use fuse_file_system.Volume.{dir_at}
use fuse_file_system.Consistency.{
  Kind, under, Role, node, listing, content, is_spare, IsFolder, IsPlain, IsListing, IsConsistent,
}

module _ {s : FsState} {role : ℕ → Role} (c : IsConsistent s role) where
  -- A block with a role is a block of the volume that is in use.
  pub role-below : (b : ℕ) → is_spare (role b) ≡ false → b < s.superblock.disk_size
  role-below b h = c.in_range b h

  pub role-used : (b : ℕ) → is_spare (role b) ≡ false → used s.bitmap b ≡ true
  role-used b h = c.in_use b (c.in_range b h) ∙ ap not h

  pub role-Reads : (b : ℕ) → is_spare (role b) ≡ false → Reads s b (s.image.block b)
  role-Reads b h = block_read-ok {s = s} (c.volume.on_disk b (c.in_range b h))

  -- A block that is free has no role.
  pub unused-spare :
      (b : ℕ) → b < s.superblock.disk_size → used s.bitmap b ≡ false → is_spare (role b) ≡ true
  unused-spare b lt h = ground (arith, c.in_use b lt)

-- The parts of the invariant are about one block and the roles of those that it refers to.
module _ {s s' : FsState} {role role' : ℕ → Role} where
  pub IsFolder-frame :
      (i : ℕ)
      → s'.image.block i ≡ s.image.block i
      → ((b : ℕ) → role b ≡ listing i → role' b ≡ listing i)
      → IsFolder s role i
      → IsFolder s' role' i
  IsFolder-frame i same keeps f = record {
    directory = rw same f.directory;
    one_block = rw same f.one_block;
    listed = rw same (keeps _ f.listed);
  }

  pub IsPlain-frame :
      (i : ℕ)
      → s'.image.block i ≡ s.image.block i
      → ((b k : ℕ) → role b ≡ content i k → role' b ≡ content i k)
      → IsPlain s role i
      → IsPlain s' role' i
  IsPlain-frame i same keeps f = record {
    regular = rw same f.regular;
    small = rw same f.small;
    few = rw same f.few;
    owned = rw same (λ k lt. keeps _ k (f.owned k lt));
  }

  pub IsListing-frame :
      (e : ℕ)
      → s'.image.block e ≡ s.image.block e
      → ((b k : ℕ) (kind : Kind)
          → (dir_at s e k).valid ≢ 0
          → role b ≡ node kind (under e k)
          → role' b ≡ node kind (under e k))
      → IsListing s role e
      → IsListing s' role' e
  IsListing-frame e same keeps f = record {
    entered = rw same (λ k lt v. let (kind, h) = f.entered k lt v in (kind, keeps _ k kind v h));
    ends = rw same f.ends;
    unique = rw same f.unique;
  }
