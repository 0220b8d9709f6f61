-- ===== src/Consistency/Truncating.antt =====
-- How `fs_truncate` of homework.c ends on a consistent volume.
use fuse_file_system.Prelude.{
  ℕ, ◌^◌, ◌≤◌, ◌<◌, ◌≡◌, ◌⊎◌, refl, false, arith, le→leb, lt→leb, lt_int, inl, inr, Bool-cases,
}
use fuse_file_system.Layout.{ptr_count}
use fuse_file_system.State.{FsState, Errno, eisdir, einval}
use fuse_file_system.Paths.{CString, is_reg}
use fuse_file_system.Attributes.Rewrite.{path_to_target}
use fuse_file_system.Content.{file_blocks}
use fuse_file_system.Truncate.{target_blocks, fs_truncate}
use fuse_file_system.Truncate.Success.{
  blocks_for, fs_truncate-ok, truncate_then_getattr, cut_inode-FitsInode,
}
use fuse_file_system.Volume.{inode_at}
use fuse_file_system.Namespace.{Kept}
use fuse_file_system.Consistency.{Kind, plain, folder, Place, Role, IsConsistent}
use fuse_file_system.Consistency.Paths.{
  IsPathError, Finds, finds-IsTarget, finds, no_path, path-Whole,
}
use fuse_file_system.Consistency.Outcome.{Ended, ok-Ended, err-Ended}
use fuse_file_system.Consistency.Truncated.{can_truncate, truncated_ends}

abbrev pub IsTruncateError : Errno → Type 0
IsTruncateError e = IsPathError e ⊎ ((e ≡ eisdir) ⊎ (e ≡ einval))

-- A length that does not overflow the number of blocks, or one below 0.
abbrev pub IsLength : ℕ → Type 0
IsLength len = (len < 2 ^ 42) ⊎ (2 ^ 63 ≤ len)

short_enough :
    (old len : ℕ)
    → old ≤ ptr_count
    → len < 2 ^ 42
    → lt_int old (target_blocks len) ≡ false
    → (len < 2 ^ 31) × (blocks_for len ≤ old)
short_enough old len few lt h = (ground arith, ground arith)

module _ {s : FsState} {role : ℕ → Role} (c : IsConsistent s role) (path : CString) (len : ℕ) where
  truncate_short :
      (i : ℕ) {place : Place}
      → Finds s role path i plain place
      → blocks_for len ≤ file_blocks (inode_at s i).size
      → len < 2 ^ 31
      → Ended IsTruncateError (Kept s role) s (fs_truncate path len s)
  truncate_short i f room short =
      let h = can_truncate c f.role_of len room path f short in
      ok-Ended IsTruncateError (Kept s role) s (fs_truncate-ok c.volume h) (
        truncated_ends c f.role_of len room short (truncate_then_getattr c.volume h).1
          (cut_inode-FitsInode c.volume h))

  truncate_file :
      (i : ℕ) {place : Place}
      → Finds s role path i plain place
      → len < 2 ^ 42
      → Ended IsTruncateError (Kept s role) s (fs_truncate path len s)
  unfolding fs_truncate
  truncate_file i f lt =
      let p = c.plains i f.role_of in
      elim (Bool-cases (lt_int (file_blocks (inode_at s i).size) (target_blocks len))) [
        | inl longer ↦
            err-Ended IsTruncateError (Kept s role) s
              (rw (
                lt→leb (2 ^ 63) len (omega arith),
                path_to_target c.volume (finds-IsTarget c f),
                p.regular,
                longer,
              ))
              (inr (inr refl))
        | inr fits ↦
            let (short, room) = short_enough (file_blocks (inode_at s i).size) len p.few lt fits in
            truncate_short i f room short
      ]

  truncate_found :
      (i : ℕ) (kind : Kind) {place : Place}
      → Finds s role path i kind place
      → len < 2 ^ 42
      → Ended IsTruncateError (Kept s role) s (fs_truncate path len s)
  unfolding fs_truncate
  truncate_found i plain f lt = truncate_file i f lt
  truncate_found i folder f lt =
      let directory = (c.folders i f.role_of).directory in
      let irregular : is_reg (inode_at s i).mode ≡ false = ground arith in
      err-Ended IsTruncateError (Kept s role) s
        (rw (
          lt→leb (2 ^ 63) len (omega arith),
          path_to_target c.volume (finds-IsTarget c f),
          irregular,
        ))
        (inr (inl refl))

  -- `fs_truncate` to a length whose number of blocks is an `int`, or to a negative one, keeps a
  -- volume consistent, or returns an error of the path, EISDIR or EINVAL.
  pub fs_truncate-Ended :
      IsLength len → Ended IsTruncateError (Kept s role) s (fs_truncate path len s)
  unfolding fs_truncate
  fs_truncate-Ended (inr negative) =
      err-Ended IsTruncateError (Kept s role) s (rw (le→leb (2 ^ 63) len negative)) (inr (inr refl))
  fs_truncate-Ended (inl lt) = elim (path-Whole c path) [
    | no_path e why h gone ↦
        err-Ended IsTruncateError (Kept s role) s (rw (lt→leb (2 ^ 63) len (omega arith), h))
          (inl why)
    | finds i kind place f ↦ truncate_found i kind f lt
  ]
