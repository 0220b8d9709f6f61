-- ===== src/Consistency/Requests.antt =====
-- The requests of homework.c's `fs_ops` on a consistent volume: how each ends, and what any sequence
-- of them leaves.
use fuse_file_system.Prelude.{
  ℕ, ◌^◌, ◌<◌, ◌≡◌, ◌≢◌, ◌⊎◌, ◌∙◌, sym, refl, true, false, [], arith, inl, inr,
}
use fuse_file_system.State.{FsState, Errno, Result, ok, err, fault, ◌>>=◌, pure}
use fuse_file_system.Host.{Host}
use fuse_file_system.Paths.{CString, parse, is_dir, is_reg}
use fuse_file_system.Attributes.{fs_getattr}
use fuse_file_system.Attributes.Rewrite.{path_to_target}
use fuse_file_system.Listing.{fs_readdir}
use fuse_file_system.Listing.Entries.{fs_readdir_lem}
use fuse_file_system.Mount.{fs_init, fs_statfs}
use fuse_file_system.Mount.Opens.{statistics, fs_init-again, fs_init-statistics}
use fuse_file_system.Requests.{
  Request, getattr, readdir, rename, chmod, read, statfs, create, mkdir, unlink, rmdir, utime,
  truncate, write, run,
}
use fuse_file_system.Atomicity.Requests.{IsQuery, query_keeps_state}
use fuse_file_system.Volume.{inode_at}
use fuse_file_system.Namespace.{Kept, Step, names_of}
use fuse_file_system.Consistency.{IsNode, Kind, plain, folder, Place, Role, IsConsistent}
use fuse_file_system.Consistency.Frame.{role-below, role-Reads}
use fuse_file_system.Consistency.Paths.{
  IsPathError, Finds, finds-IsTarget, finds, no_path, path-Whole,
}
use fuse_file_system.Consistency.Tokens.{IsBytes}
use fuse_file_system.Consistency.Mounting.{fs_init-IsSound}
use fuse_file_system.Consistency.Outcome.{IsSound, Ended, ok-Ended, err-Ended}
use fuse_file_system.Consistency.Attributes.{IsUtimeError, fs_chmod-Ended, fs_utime-Ended}
use fuse_file_system.Consistency.Adding.{IsCreateError, fs_create-Ended, fs_mkdir-Ended}
use fuse_file_system.Consistency.Removing.{IsRmdirError, fs_unlink-Ended, fs_rmdir-Ended}
use fuse_file_system.Consistency.Renaming.{IsRenameError, fs_rename-Ended}
use fuse_file_system.Consistency.Truncating.{IsTruncateError, IsLength, fs_truncate-Ended}

-- What is asked of a request: names below the root that are C strings, the mode of a regular file or
-- permission bits, and a length whose number of blocks is an `int`. Reading and writing are left out.
abbrev pub IsProper : Request → Type 0
IsProper (rename src dst) = IsBytes src × IsBytes dst
IsProper (create path mode) =
    IsBytes path × (parse path ≢ []) × (mode < 2 ^ 32) × (is_reg mode ≡ true)
IsProper (mkdir path mode) = IsBytes path × (parse path ≢ []) × (mode < 2 ^ 12)
IsProper (unlink path) = IsBytes path × (parse path ≢ [])
IsProper (rmdir path) = IsBytes path × (parse path ≢ [])
IsProper (truncate path len) = IsLength len
IsProper (read path len offset) = ⊥
IsProper (write path src len offset) = ⊥
IsProper request = Unit {0}

-- The errors that a request may return.
abbrev pub IsErrorOf : Request → Errno → Type 0
IsErrorOf (utime path modtime) e = IsUtimeError e
IsErrorOf (rename src dst) e = IsRenameError e
IsErrorOf (create path mode) e = IsCreateError e
IsErrorOf (mkdir path mode) e = IsCreateError e
IsErrorOf (rmdir path) e = IsRmdirError e
IsErrorOf (truncate path len) e = IsTruncateError e
IsErrorOf (statfs path) e = ⊥
IsErrorOf request e = IsPathError e

module _ {s : FsState} {role : ℕ → Role} (c : IsConsistent s role) where
  getattr_ends :
      (path : CString) → Ended IsPathError (Kept s role) s ((do _ ← fs_getattr path; pure tt) s)
  unfolding fs_getattr
  getattr_ends path = elim (path-Whole c path) [
    | no_path e why h gone ↦ err-Ended IsPathError (Kept s role) s (rw h) why
    | finds i kind place f ↦
        ok-Ended IsPathError (Kept s role) s (rw (path_to_target c.volume (finds-IsTarget c f)))
          ((role, c), λ i n t token short. refl)
  ]

  readdir_found :
      (path : CString) (offset i : ℕ) (kind : Kind) {place : Place}
      → Finds s role path i kind place
      → Ended IsPathError (Kept s role) s ((do _ ← fs_readdir path offset; pure tt) s)
  unfolding fs_readdir
  readdir_found path offset i plain f =
      let file : is_dir (inode_at s i).mode ≡ false =
        ground (arith, (c.plains i f.role_of).regular) in
      err-Ended IsPathError (Kept s role) s
        (rw (path_to_target c.volume (finds-IsTarget c f), file)) (inr refl)
  readdir_found path offset i folder f =
      let d = c.folders i f.role_of in
      ok-Ended IsPathError (Kept s role) s
        (rw (
          fs_readdir_lem path offset c.volume (path_to_target c.volume (finds-IsTarget c f))
            d.directory (role-Reads c _ (rw d.listed refl))
            (λ m lt valid.
              let (kind, h) = (c.listings _ d.listed).entered m lt valid in
              role-below c _ (rw h refl))))
        ((role, c), λ i n t token short. refl)

  readdir_ends :
      (path : CString) (offset : ℕ)
      → Ended IsPathError (Kept s role) s ((do _ ← fs_readdir path offset; pure tt) s)
  unfolding fs_readdir
  readdir_ends path offset = elim (path-Whole c path) [
    | no_path e why h gone ↦ err-Ended IsPathError (Kept s role) s (rw h) why
    | finds i kind place f ↦ readdir_found path offset i kind f
  ]

  -- A proper request on a consistent volume succeeds, leaves a consistent volume and does to the
  -- names what the abstract step says, or returns one of its errors and changes nothing; it never
  -- runs into undefined behaviour.
  pub request_ends :
      (host : Host) (r : Request)
      → IsProper r
      → Ended (IsErrorOf r) (λ s'. Step r (IsNode role) (names_of s) (names_of s')) s (run host r s)
  unfolding run fs_statfs
  request_ends host (getattr path) q = getattr_ends path
  request_ends host (readdir path offset) q = readdir_ends path offset
  request_ends host (rename src dst) (from, to) = fs_rename-Ended c src dst from to
  request_ends host (chmod path mode) q = fs_chmod-Ended c path mode
  request_ends host (read path len offset) q = elim q [ ]
  request_ends host (statfs path) q = ((role, c), λ i n t token short. refl)
  request_ends host (create path mode) (bytes, below_root, small, reg) =
      fs_create-Ended c host path bytes below_root mode small reg
  request_ends host (mkdir path mode) (bytes, below_root, small) =
      fs_mkdir-Ended c host path bytes below_root mode small
  request_ends host (unlink path) (bytes, below_root) = fs_unlink-Ended c path bytes below_root
  request_ends host (rmdir path) (bytes, below_root) = fs_rmdir-Ended c path bytes below_root
  request_ends host (utime path modtime) q = fs_utime-Ended c path modtime
  request_ends host (truncate path len) q = fs_truncate-Ended c path len q
  request_ends host (write path src len offset) q = elim q [ ]

Ended-IsSound :
    (allowed : Errno → Type 0) (spec : FsState → Type 0) {s : FsState}
    → IsSound s
    → (r : Result (Unit {0}) × FsState) → Ended allowed spec s r
    → IsSound r.1
Ended-IsSound allowed spec c (ok a, s') h = h.0
Ended-IsSound allowed spec c (err e, s') (a, same) = rw same c
Ended-IsSound allowed spec c (fault, s') h = elim h [ ]

-- The states that proper requests, queries and mounts lead to, in any order and number.
pub data Reaches : FsState → FsState → Type 0 where
  start : {s : FsState} → Reaches s s
  then_run :
      {s s' : FsState} (host : Host) (r : Request)
      → Reaches s s'
      → IsProper r ⊎ IsQuery r
      → Reaches s (run host r s').1
  then_mount : {s s' : FsState} → Reaches s s' → Reaches s (fs_init s').1

run-IsSound :
    {s : FsState} (host : Host) (r : Request)
    → IsProper r ⊎ IsQuery r
    → IsSound s
    → IsSound (run host r s).1
run-IsSound {s} host r (inl q) (role, c) =
    Ended-IsSound (IsErrorOf r) (λ s'. Step r (IsNode role) (names_of s) (names_of s')) (role, c)
      (run host r s) (request_ends c host r q)
run-IsSound {s} host r (inr q) c = rw (query_keeps_state host r s q) c

-- Every state that proper requests, queries and mounts lead to from a consistent volume is
-- consistent.
pub reachable_states_consistent : {s s' : FsState} → IsSound s → Reaches s s' → IsSound s'
reachable_states_consistent c start = c
reachable_states_consistent c (then_run host r path q) =
    run-IsSound host r q (reachable_states_consistent c path)
reachable_states_consistent c (then_mount path) =
    fs_init-IsSound (reachable_states_consistent c path)

-- A file system that is mounted again after any proper requests, queries and mounts finds the same
-- image, superblock and bitmap; its statistics tell 4096 bytes a block, two blocks less than the
-- disk has, as free and available what was the count of free blocks before, and names of 27 bytes.
pub reachable_states_mount :
    {s s' : FsState}
    → IsSound s
    → Reaches s s'
    → let (r, again) = fs_init s' in
      (r ≡ ok tt)
      × (again.image ≡ s'.image)
      × (again.superblock ≡ s'.superblock)
      × (again.bitmap ≡ s'.bitmap)
      × (again.stat_vfs ≡ statistics s'.superblock.disk_size s'.stat_vfs.bfree)
      × (s'.stat_vfs.bavail ≡ s'.stat_vfs.bfree)
reachable_states_mount c path =
    let (role, sound) = reachable_states_consistent c path in
    let (succeeds, same_image, same_superblock, same_bitmap, free, available) =
      fs_init-again sound.volume sound.label in
    (
      succeeds,
      same_image,
      same_superblock,
      same_bitmap,
      fs_init-statistics sound.volume sound.label,
      sound.volume.bavail ∙ sym sound.volume.bfree,
    )
