-- ===== src/Rename/Success.antt =====
-- When `fs_rename` of homework.c succeeds, and the state that it leaves.
use fuse_file_system.Prelude.{
  ℕ, ◌^◌, ◌<◌, ◌≡◌, refl, true, false, List, [], ◌∷◌, ◌++◌, length, length-append, some, arith,
  eq→==, lt→leb,
}
use fuse_file_system.Layout.{Directory, encode_dir, max_dir_entries}
use fuse_file_system.State.{FsState, ok, err, enoent, pure}
use fuse_file_system.Disk.Laws.{with_block, block_read-ok, block_write-ok}
use fuse_file_system.Paths.{CString, parse, last_token, is_named, path_to_inode}
use fuse_file_system.Paths.Parse.{last_token-append}
use fuse_file_system.Paths.Entries.{First-find_entry}
use fuse_file_system.Paths.Resolve.{path_to_inode_missing}
use fuse_file_system.Directory.{copy_name, set_entry}
use fuse_file_system.Directory.Place.{HasEntry, path_to_place, path_to_entry}
use fuse_file_system.Rename.{same_parent, must_be_free, file_dir, rename_entry, fs_rename}
use fuse_file_system.Rename.Names.{same_parent-append}
use fuse_file_system.Volume.{IsVolume, dir_at}

-- The directory once the entry has the new name, and the state with it.
abbrev pub with_name : Directory → ℕ → CString → Directory
with_name dir slot t = set_entry dir slot (record (dir slot) { name = copy_name (λ k. 0) t })

abbrev pub renamed : FsState → (d slot : ℕ) → CString → FsState
renamed s d slot t = with_block s d (encode_dir (with_name (dir_at s d) slot t))

-- The paths differ in their last names only, and the directory has the first and not the second.
pub record CanRename (s : FsState) (src dst : CString) (ts : List CString) (t t' : CString)
    (p d slot i : ℕ) : Type 0 where
  pub entry : HasEntry s src ts t p d slot i
  pub open entry use *
  pub file : i < s.superblock.disk_size
  pub dst_parsed : parse dst ≡ ts ++ t' ∷ []
  pub absent : (m : ℕ) → m < max_dir_entries → is_named t' (dir_at s d m) ≡ false

module _ {s : FsState} {src dst : CString} {ts : List CString} {t t' : CString} {p d slot i : ℕ}
    (v : IsVolume s) (h : CanRename s src dst ts t t' p d slot i) where
  dst_missing : path_to_inode dst 0 s ≡ (err enoent, s)
  dst_missing =
      path_to_inode_missing dst ts t' (s.image.block p) (s.image.block d) h.dst_parsed h.resolves
        (block_read-ok {s = s} (v.on_disk p h.parent.below)) h.directory
        (rw h.pointer (block_read-ok {s = s} (v.on_disk d h.below))) h.absent

  dst_free : must_be_free dst s ≡ (ok tt, s)
  unfolding must_be_free
  dst_free = rw dst_missing refl

  file_dir-ok : file_dir src s ≡ (ok (dir_at s d, some slot, d), s)
  unfolding file_dir
  file_dir-ok = rw (
    path_to_place v h.entry.place,
    h.directory,
    h.pointer,
    block_read-ok {s = s} (v.on_disk d h.below),
    h.parsed,
    last_token-append ts t,
    First-find_entry (is_named t) (dir_at s d) max_dir_entries 0 slot h.first,
  )

  same_length : length (parse dst) ≡ length (parse src)
  same_length =
      rw (h.dst_parsed, h.parsed)
        (omega (arith, length-append ts (t ∷ []), length-append ts (t' ∷ [])))

  same_parents : same_parent (parse src) (parse dst) ≡ true
  same_parents = rw (h.dst_parsed, h.parsed) (same_parent-append ts t t')

  new_name : last_token (parse dst) ≡ pure t'
  new_name = rw h.dst_parsed (last_token-append ts t')

  pub fs_rename-ok : fs_rename src dst s ≡ (ok tt, renamed s d slot t')
  unfolding fs_rename rename_entry
  fs_rename-ok =
      rw
        (
          path_to_entry v h.entry h.file,
          dst_free,
          eq→== (length (parse dst)) (length (parse src)) same_length,
          same_parents,
          file_dir-ok,
          lt→leb (2 ^ 31) d (omega (arith, h.below, v.fits_bitmap)),
          new_name,
        )
        (block_write-ok {s = s} (v.on_disk d h.below) _ (omega (arith, h.not_super)))
