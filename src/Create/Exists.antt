-- ===== src/Create/Exists.antt =====
-- `fs_create` and `fs_mkdir` of homework.c, when the name is taken or cannot be found.
use fuse_file_system.Prelude.{ℕ, ◌≡◌, Bool, true, false, List}
use fuse_file_system.Layout.{max_dir_entries}
use fuse_file_system.State.{FsState, err, eexist}
use fuse_file_system.Host.{Host}
use fuse_file_system.Disk.Laws.{block_read-ok}
use fuse_file_system.Paths.{CString, is_named}
use fuse_file_system.Paths.Parse.{last_token-append}
use fuse_file_system.Paths.Entries.{First-find_entry}
use fuse_file_system.Directory.{validate_directory_and_entry}
use fuse_file_system.Directory.Place.{HasEntry, path_to_place}
use fuse_file_system.Create.{create_directory_entry, fs_create, fs_mkdir}
use fuse_file_system.Volume.{IsVolume, inode_at, dir_at}

module _ {s : FsState} {path : CString} {ts : List CString} {t : CString} {p d slot i : ℕ}
    (v : IsVolume s) (h : HasEntry s path ts t p d slot i) where
  taken : validate_directory_and_entry path (inode_at s p) s ≡ (err eexist, s)
  unfolding validate_directory_and_entry
  taken = rw (
    h.directory,
    h.pointer,
    block_read-ok {s = s} (v.on_disk d h.below),
    h.parsed,
    last_token-append ts t,
    First-find_entry (is_named t) (dir_at s d) max_dir_entries 0 slot h.first,
  )

  -- Neither kind of inode is made.
  pub refused :
      (host : Host) (mode : ℕ) (dirflag : Bool)
      → create_directory_entry host path mode dirflag s ≡ (err eexist, s)
  unfolding create_directory_entry
  refused host mode dirflag = rw (path_to_place v h.place, taken)

  -- Where the directory has an entry of the name, of whatever kind, `fs_create` and `fs_mkdir`
  -- return EEXIST and change nothing.
  pub create_existing :
      (host : Host) (mode : ℕ)
      → (fs_create host path mode s ≡ (err eexist, s))
        × (fs_mkdir host path mode s ≡ (err eexist, s))
  unfolding fs_create fs_mkdir
  create_existing host mode = (refused host mode false, refused host mode true)
