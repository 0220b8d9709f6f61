-- ===== src/Consistency/Overwrite.antt =====
-- `fs_write` inside a file of a consistent volume, and `fs_read` of what it has written.
use fuse_file_system.Prelude.{
  ℕ, ◌+◌, ◌-◌, ◌/◌, ◌≤◌, ◌<◌, ◌≡◌, ◌≢◌, ◌∙◌, refl, sym, ap, subst, true, ◌&&◌, arith, ltb, leb,
}
use fuse_file_system.Layout.{Block, Inode, block_size, decode_inode, encode_inode}
use fuse_file_system.Layout.RoundTrip.{FitsInode, decode-encode_inode, decode_inode-FitsInode}
use fuse_file_system.State.{FsState, ok}
use fuse_file_system.Host.{Host}
use fuse_file_system.Disk.Laws.{
  OnDisk, block_read-ok, OnDisk-put_block, block-put_block_ne, block-put_block_self, block_of_read,
}
use fuse_file_system.Paths.{CString, is_reg, is_dir, path_to_inode}
use fuse_file_system.Paths.Resolve.{Reads, Resolves-frame, path_to_inode_whole}
use fuse_file_system.Attributes.Rewrite.{path_to_target}
use fuse_file_system.Content.{file_blocks}
use fuse_file_system.Read.{fs_read, last_block}
use fuse_file_system.Read.Range.{CanRead, available, read_buffer, file_byte, fs_read_lem}
use fuse_file_system.Write.{written_inode, fs_write}
use fuse_file_system.Write.Store.{stored-other, stored-OnDisk, stored-superblock}
use fuse_file_system.Write.Bytes.{fs_write_lem}
use fuse_file_system.Write.InPlace.{CanOverwrite, end_of, with_inode, write_buffer, overwritten}
use fuse_file_system.Volume.{HasBlocks, Untouched, inode_at}
use fuse_file_system.Consistency.{plain, folder, Place, Role, content, IsPlain, IsConsistent}
use fuse_file_system.Consistency.Frame.{role-below}
use fuse_file_system.Consistency.Paths.{
  Finds, finds, no_path, path-Whole, finds-IsTarget, finds-Resolves,
}

-- A regular file that the path leads to, and bytes that it has, at least one.
pub record IsInside (host : Host) (s : FsState) (path : CString) (i len offset : ℕ) : Type 0 where
  pub found : path_to_inode path 0 s ≡ (ok (i, inode_at s i), s)
  pub regular : is_reg (inode_at s i).mode ≡ true
  pub some_bytes : 0 < len
  pub inside : offset + len ≤ (inode_at s i).size
  pub memory : (room : ℕ) → host.calloc room ≡ true

module _ {host : Host} {s : FsState} {role : ℕ → Role} {path : CString} {i len offset : ℕ}
    {place : Place} (c : IsConsistent s role) (f : Finds s role path i plain place)
    (h : IsInside host s path i len offset) where
  p : IsPlain s role i
  p = c.plains i f.role_of

  can_overwrite : CanOverwrite host s path i len offset
  can_overwrite = record {
    found = h.found;
    regular = h.regular;
    small = p.small;
    some_bytes = h.some_bytes;
    inside = h.inside;
    few = p.few;
    inode = role-below c i (rw f.role_of refl);
    not_super = let ne : i ≢ 0 = λ e. cc (f.role_of, c.super, e) in omega arith;
    below = λ k lt. role-below c _ (rw (p.owned k lt) refl);
    positive = λ k lt.
        let own = p.owned k lt in
        let ne : (inode_at s i).ptrs k ≢ 0 = λ e. cc (own, c.super, e) in omega arith;
    apart = λ k lt e. let own = p.owned k lt in cc (own, f.role_of, e);
    distinct = λ j k lt hi e.
        let a = p.owned j (omega arith) in
        let b = p.owned k hi in let same : j ≡ k = cc in absurd (omega arith);
    memory = h.memory;
  }

  end_in_file : end_of len offset < file_blocks (inode_at s i).size
  unfolding file_blocks
  end_in_file = ground (arith, h.inside, h.some_bytes, p.small)

  module _ (src : Block) where
    after : FsState
    after = overwritten host s i src len offset

    new : Inode
    new = written_inode host (inode_at s i) len offset

    after-OnDisk : HasBlocks s → (lba : ℕ) → lba < s.superblock.disk_size → OnDisk after.image lba
    unfolding after
    after-OnDisk on lba lt =
        stored-OnDisk (with_inode host s i len offset)
          (written_inode host (inode_at s i) len offset) (write_buffer host s i src len offset)
          (end_of len offset - offset / block_size + 1) (offset / block_size) 0 lba
          (OnDisk-put_block i _ (on lba lt))

    same_size : after.superblock ≡ s.superblock
    unfolding after
    same_size =
        stored-superblock (with_inode host s i len offset)
          (written_inode host (inode_at s i) len offset) (write_buffer host s i src len offset)
          (end_of len offset - offset / block_size + 1) (offset / block_size) 0

    -- A block that is none of the file's.
    behind :
        (lba : ℕ)
        → lba < s.superblock.disk_size
        → ((k : ℕ) → role lba ≢ content i k)
        → after.image.block lba ≡ (with_inode host s i len offset).image.block lba
    unfolding after
    behind lba lt other =
        stored-other (with_inode host s i len offset) (written_inode host (inode_at s i) len offset)
          (write_buffer host s i src len offset) (end_of len offset - offset / block_size + 1)
          (offset / block_size) 0 lba (OnDisk-put_block i _ (c.volume.on_disk lba lt))
          (λ k lo hi e. other k (ap role e ∙ p.owned k (omega (arith, end_in_file, h.some_bytes))))

    at_i : after.image.block i ≡ encode_inode (written_inode host (inode_at s i) len offset)
    at_i =
        behind i (role-below c i (rw f.role_of refl)) (λ k e. cc (f.role_of, e))
        ∙ block-put_block_self s.image i _

    old_fits : FitsInode (inode_at s i)
    old_fits = decode_inode-FitsInode (c.bytes i (role-below c i (rw f.role_of refl)))

    same_length : (written_inode host (inode_at s i) len offset).size ≡ (inode_at s i).size
    same_length = ground (arith, h.inside, p.small)

    new_fits : FitsInode (written_inode host (inode_at s i) len offset)
    new_fits = record {
      uid = old_fits.uid;
      gid = old_fits.gid;
      mode = old_fits.mode;
      ctime = old_fits.ctime;
      mtime = omega arith;
      size = omega (arith, same_length, p.small);
      ptrs = old_fits.ptrs;
    }

    inode_after : inode_at after i ≡ written_inode host (inode_at s i) len offset
    inode_after =
        ap decode_inode at_i
        ∙ decode-encode_inode (written_inode host (inode_at s i) len offset) new_fits

    frame :
        (lba : ℕ) (b : Block)
        → Untouched s i lba × ((j k : ℕ) → role lba ≢ content j k)
        → Reads s lba b
        → Reads after lba b
    frame lba b (u, other) r =
        block_read-ok {s = after} (after-OnDisk c.volume.on_disk lba u.below)
        ∙ ap (λ x. (ok x, after))
            (behind lba u.below (other i)
              ∙ block-put_block_ne i _ (c.volume.on_disk lba u.below) u.not_entries
              ∙ sym (block_of_read {s = s} (c.volume.on_disk lba u.below) r))

    found_after : path_to_inode path 0 after ≡ (ok (i, inode_at after i), after)
    found_after =
        path_to_inode_whole path
          (Resolves-frame s (λ lba. Untouched s i lba × ((j k : ℕ) → role lba ≢ content j k)) after
            frame (finds-Resolves c f))
          (block_read-ok {s = after}
            (after-OnDisk c.volume.on_disk i (role-below c i (rw f.role_of refl))))

    -- The end of the range is the last block that is read.
    last_read : last_block (inode_at after i) len offset ≡ end_of len offset
    last_read = rw (inode_after, same_length) (ground (arith, h.inside, h.some_bytes, p.small))

    can_read : CanRead host after path i len offset
    can_read = record {
      found = found_after;
      regular = rw inode_after p.regular;
      small = rw (inode_after, same_length) p.small;
      in_file = rw (inode_after, same_length) (omega (arith, h.inside, h.some_bytes));
      some_bytes = h.some_bytes;
      short = omega (arith, h.inside, p.small);
      few = omega (arith, last_read, end_in_file, p.few);
      blocks = λ k lo hi.
          let lt : k < file_blocks (inode_at s i).size = omega (arith, last_read, end_in_file) in
          rw (inode_after, same_size)
            (role-below c ((inode_at s i).ptrs k) (rw (p.owned k lt) refl));
      memory = h.memory;
    }

    all_there : available (inode_at after i) len offset ≡ len
    all_there = rw (inode_after, same_length) (ground (arith, h.inside))

    same_byte : (at : ℕ) → file_byte after (inode_at after i) at ≡ file_byte after (inode_at s i) at
    same_byte at = rw inode_after refl

    block_in_file : (o : ℕ) → o < len → (offset + o) / block_size < file_blocks (inode_at s i).size
    block_in_file o lt = omega (arith, end_in_file, h.some_bytes)

    written_byte : (o : ℕ) → o < len → file_byte after (inode_at s i) (offset + o) ≡ src o
    unfolding after
    written_byte o lt =
        let place : offset + o - offset ≡ o = omega arith in
        let inside : (leb offset (offset + o) && ltb (offset + o) (offset + len)) ≡ true =
          ground arith in
        (fs_write_lem c.volume can_overwrite src).1 (offset + o) (block_in_file o lt)
        ∙ rw (inside, place) refl

    after-HasBlocks : HasBlocks after
    after-HasBlocks lba lt = after-OnDisk c.volume.on_disk lba (rw same_size at lt)

    pub written_then_read :
        (fs_write host path src len offset s ≡ (ok len, overwritten host s i src len offset))
        × (buffer : Block) × (fs_read host path len offset (overwritten host s i src len offset)
            ≡ (ok (len, buffer), overwritten host s i src len offset))
        × ((o : ℕ) → o < len → buffer o ≡ src o)
    unfolding after
    written_then_read =
        let (read, bytes) = fs_read_lem after-HasBlocks can_read in
        (
          (fs_write_lem c.volume can_overwrite src).0,
          read_buffer after (inode_at after i) len offset,
          rw all_there at read,
          λ o lt. bytes o (rw all_there lt) ∙ same_byte (offset + o) ∙ written_byte o lt,
        )

-- On a consistent volume, and if calloc succeeds, `fs_write` of at least one byte, all within a
-- regular file, returns their number, and `fs_read` of the same range then returns the bytes that
-- were written.
pub write_then_read :
    {host : Host} {s : FsState} {role : ℕ → Role} {path : CString} {i len offset : ℕ}
    → IsConsistent s role
    → IsInside host s path i len offset
    → (src : Block)
    → let s' = overwritten host s i src len offset in
      (fs_write host path src len offset s ≡ (ok len, s'))
      × (buffer : Block) × (fs_read host path len offset s' ≡ (ok (len, buffer), s'))
      × ((o : ℕ) → o < len → buffer o ≡ src o)
write_then_read {host} {s} {role} {path} {i} {len} {offset} c h src = elim (path-Whole c path) [
  | no_path e why gone nowhere ↦ cc (h.found, gone)
  | finds j plain place f ↦
      let there = path_to_target c.volume (finds-IsTarget c f) in
      let same : j ≡ i = cc (h.found, there) in
      written_then_read c (subst (λ k. Finds s role path k plain place) same f) h src
  | finds j folder place f ↦
      let there = path_to_target c.volume (finds-IsTarget c f) in
      let same : j ≡ i = cc (h.found, there) in
      let directory : is_dir (inode_at s i).mode ≡ true =
        rw same at ((c.folders j f.role_of).directory) in
      absurd (ground (arith, h.regular))
]
