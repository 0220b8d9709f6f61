-- ===== src/Rename/Lookup.antt =====
-- What later calls see of an entry that `fs_rename` of homework.c has renamed.
use fuse_file_system.Prelude.{
  ℕ, ◌≤◌, ◌<◌, ◌≡◌, ◌≢◌, refl, sym, ◌∙◌, ap, true, false, List, arith, ◌==◌, length, inl, inr,
  Bool-cases, ==→eq, ==→ne, eq→==, ne→==,
}
use fuse_file_system.Layout.{Block, Dirent, Directory, decode_dir, encode_dir, max_dir_entries}
use fuse_file_system.Layout.RoundTrip.{
  FitsBlock, FitsDirectory, SameDirent, decode-encode_dir, decode_dir-FitsDirectory,
}
use fuse_file_system.State.{FsState, ok, err, enoent}
use fuse_file_system.Disk.Laws.{
  block_read-ok, OnDisk-put_block, block_of_read, block-put_block_ne, block-put_block_self,
}
use fuse_file_system.Paths.{CString, parse, is_named, root_inum, max_name_len}
use fuse_file_system.Paths.Parse.{last-short}
use fuse_file_system.Paths.Entries.{
  Holds, First, named-Holds, is_named-SameDirent, is_named_of_Holds,
}
use fuse_file_system.Paths.Resolve.{
  Reads, Lookup, Anything, Resolves, Resolves-frame, Resolves-mono, Resolves-append,
  path_to_inode_missing, path_to_inode_whole, here, next,
}
use fuse_file_system.Directory.{copy_name}
use fuse_file_system.Directory.Place.{short_name}
use fuse_file_system.Attributes.{inode_to_stat, fs_getattr}
use fuse_file_system.Rename.{fs_rename}
use fuse_file_system.Rename.Names.{IsToken, copy_name-Holds, Holds-same}
use fuse_file_system.Rename.Success.{CanRename, with_name, renamed, fs_rename-ok}
use fuse_file_system.Volume.{IsVolume, Untouched, inode_at, dir_at}
use fuse_file_system.Volume.Keeps.{with_block-IsVolume}

-- What is asked of the names and of the directory: C strings, the old name only once, and the inode
-- not in the block of entries.
pub record Renamable (s : FsState) (t t' : CString) (d slot i : ℕ) : Type 0 where
  pub entries : FitsBlock (s.image.block d)
  pub old : IsToken t
  pub new : IsToken t'
  pub only : (m : ℕ) → m < max_dir_entries → m ≢ slot → is_named t (dir_at s d m) ≡ false
  pub apart : i ≢ d

module _ {s : FsState} {src dst : CString} {ts : List CString} {t t' : CString} {p d slot i : ℕ}
    (v : IsVolume s) (h : CanRename s src dst ts t t' p d slot i)
    (r : Renamable s t t' d slot i) where
  after : FsState
  after = renamed s d slot t'

  dir : Directory
  dir = with_name (dir_at s d) slot t'

  frame :
      (lba : ℕ) (b : Block)
      → lba < s.superblock.disk_size
      → lba ≢ d
      → Reads s lba b
      → Reads after lba b
  unfolding after
  frame lba b lt ne e =
      block_read-ok {s = after} (OnDisk-put_block d _ (v.on_disk lba lt))
      ∙ ap (λ c. (ok c, after))
          (block-put_block_ne d _ (v.on_disk lba lt) ne
            ∙ sym (block_of_read {s = s} (v.on_disk lba lt) e))

  entries-Reads : Reads after d (encode_dir dir)
  unfolding after dir
  entries-Reads =
      block_read-ok {s = after} (OnDisk-put_block d _ (v.on_disk d h.below))
      ∙ ap (λ c. (ok c, after)) (block-put_block_self s.image d _)

  parent-Reads : Reads after p (s.image.block p)
  parent-Reads =
      frame p _ h.parent.below h.parent.not_entries
        (block_read-ok {s = s} (v.on_disk p h.parent.below))

  directories : Resolves after (Untouched s d) ts root_inum p
  directories =
      Resolves-frame s (Untouched s d) after (λ lba b u. frame lba b u.below u.not_entries)
        h.resolves

  short : length t' ≤ max_name_len
  short = last-short dst ts t' h.dst_parsed

  new-Holds : Holds t' (copy_name (λ k. 0) t')
  new-Holds = copy_name-Holds t' short

  dir-FitsDirectory : FitsDirectory dir
  unfolding dir
  dir-FitsDirectory j = elim (Bool-cases (j == slot)) [
    | inl e ↦
        let old = decode_dir-FitsDirectory r.entries slot in
        rw e (record {
          valid = old.valid;
          inode = old.inode;
          name = λ k. ground (arith, r.new.bytes k);
        })
    | inr e ↦ rw e (decode_dir-FitsDirectory r.entries j)
  ]

  same : (m : ℕ) → SameDirent (decode_dir (encode_dir dir) m) (dir m)
  same = decode-encode_dir dir dir-FitsDirectory

  old_entry : ((dir_at s d slot).valid ≢ 0) × Holds t (dir_at s d slot).name
  old_entry = named-Holds t (dir_at s d slot) h.first.passes

  -- The entry has the new name, and is the only one.
  new_found : First (is_named t') (decode_dir (encode_dir dir)) max_dir_entries 0 slot
  unfolding dir
  new_found = record {
    above = omega arith;
    below = h.first.below;
    passes =
        is_named-SameDirent t' _ _ short (same slot)
        ∙ rw (eq→== slot slot refl) (is_named_of_Holds t' _ old_entry.0 new-Holds);
    before = λ m lo hi.
        is_named-SameDirent t' _ _ short (same m)
        ∙ rw (ne→== m slot (omega arith)) (h.absent m (omega (arith, h.first.below)));
  }

  -- The new name is not the old one.
  new_entry : Dirent
  new_entry = record (dir_at s d slot) { name = copy_name (λ k. 0) t' }

  not_old : is_named t new_entry ≡ true → ⊥
  unfolding new_entry
  not_old e =
      let held : Holds t' (dir_at s d slot).name =
        Holds-same t t' (copy_name (λ k. 0) t') (dir_at s d slot).name r.old r.new
          (named-Holds t new_entry e).1 new-Holds old_entry.1 in
      let named : is_named t' (dir_at s d slot) ≡ true =
        is_named_of_Holds t' (dir_at s d slot) old_entry.0 held in
      let missing = h.absent slot h.first.below in cc

  differ : is_named t (dir slot) ≡ false
  unfolding dir new_entry
  differ = elim (Bool-cases (is_named t new_entry)) [
    | inl e ↦ absurd (not_old e)
    | inr e ↦ rw (eq→== slot slot refl) e
  ]

  other_gone : (m : ℕ) → m < max_dir_entries → m ≢ slot → is_named t (dir m) ≡ false
  unfolding dir
  other_gone m lt ne = rw (ne→== m slot ne) (r.only m lt ne)

  old_gone : (m : ℕ) → m < max_dir_entries → is_named t (decode_dir (encode_dir dir) m) ≡ false
  old_gone m lt =
      is_named-SameDirent t _ _ (short_name h.place) (same m) ∙ elim (Bool-cases (m == slot)) [
        | inl e ↦ let eq = ==→eq m slot e in rw eq differ
        | inr e ↦ other_gone m lt (==→ne m slot e)
      ]

  last_step : Lookup after Anything p t' i
  unfolding dir
  last_step = record {
    inode_block = s.image.block p;
    entries = encode_dir dir;
    place = slot;
    reads_inode = parent-Reads;
    directory = h.directory;
    reads_entries = rw h.pointer entries-Reads;
    first = new_found;
    leads_to = (same slot).1 ∙ rw (eq→== slot slot refl) h.leads_to;
    passes = (tt, tt);
  }

  dst-Resolves : Resolves after Anything (parse dst) root_inum i
  dst-Resolves = rw h.dst_parsed (
      Resolves-append after Anything
        (Resolves-mono after (Untouched s d) Anything (λ lba u. tt) directories)
        (next last_step here))

  -- `fs_rename` within a directory, from a name that stands there once to one that does not,
  -- returns 0 and leaves a volume in order; `fs_getattr` of the new path then reports what the old
  -- one had, and of the old path returns ENOENT.
  pub rename_then_getattr :
      let s' = renamed s d slot t' in
      (fs_rename src dst s ≡ (ok tt, s'))
      × IsVolume s'
      × (fs_getattr dst s' ≡ (ok (inode_to_stat (inode_at s i)), s'))
      × (fs_getattr src s' ≡ (err enoent, s'))
  unfolding fs_getattr after dir
  rename_then_getattr = (
    fs_rename-ok v h,
    with_block-IsVolume d _ h.not_bitmap v,
    rw (
        path_to_inode_whole dst dst-Resolves
          (frame i _ h.file r.apart (block_read-ok {s = s} (v.on_disk i h.file)))),
    rw (
        path_to_inode_missing src ts t (s.image.block p) (encode_dir dir) h.parsed directories
          parent-Reads h.directory (rw h.pointer entries-Reads) old_gone),
  )
