-- ===== src/Namespace/Resolution.antt =====
-- `path_to_inode` of homework.c on a consistent volume is the abstract walk over names.
use fuse_file_system.Prelude.{ℕ, ◌≡◌, Option, none, some}
use fuse_file_system.Layout.{Inode}
use fuse_file_system.State.{FsState, Errno, Result, ok, err}
use fuse_file_system.Paths.{CString, parse, root_inum, path_to_inode}
use fuse_file_system.Attributes.Rewrite.{path_to_target}
use fuse_file_system.Consistency.{Role, IsConsistent}
use fuse_file_system.Consistency.Paths.{IsPathError, finds, no_path, path-Whole, finds-IsTarget}
use fuse_file_system.Volume.{inode_at}
use fuse_file_system.Namespace.{follow, names_of}
use fuse_file_system.Namespace.Follow.{Resolves-follow}

-- The outcome of a call at state `s` that answers where the names lead: the inode with its number, or
-- ENOENT or ENOTDIR if they lead nowhere. The state stays.
abbrev pub Answers : FsState → Option ℕ → Result (ℕ × Inode) × FsState → Type 0
Answers s (some i) outcome = outcome ≡ (ok (i, inode_at s i), s)
Answers s none outcome = (e : Errno) × IsPathError e × (outcome ≡ (err e, s))

-- On a consistent volume path_to_inode returns the inode to which the names of the path lead, one
-- directory after the other, as the disk has it, and ENOENT or ENOTDIR where they lead nowhere; it
-- changes nothing.
pub path_to_inode-follow :
    {s : FsState} {role : ℕ → Role}
    → IsConsistent s role
    → (path : CString)
    → Answers s (follow (names_of s) (parse path) root_inum) (path_to_inode path 0 s)
path_to_inode-follow {s} c path = elim (path-Whole c path) [
  | no_path e why h gone ↦ rw gone (e, why, h)
  | finds i kind place f ↦
      let target = finds-IsTarget c f in
      rw (Resolves-follow c.volume i target.resolves) (path_to_target c.volume target)
]
