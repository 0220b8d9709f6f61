-- ===== src/Consistency/Removing.antt =====
-- How `fs_unlink` and `fs_rmdir` of homework.c end on a consistent volume.
use fuse_file_system.Prelude.{
  length, ℕ, ◌≤◌, ◌≡◌, ◌≢◌, ◌⊎◌, ◌∙◌, refl, sym, subst, true, false, ◌||◌, List, [], ◌∷◌, ◌++◌,
  arith, ◌==◌, ==→eq, eq→==, inl, inr, Bool-cases, has,
}
use fuse_file_system.Layout.{ptr_count, max_dir_entries}
use fuse_file_system.State.{FsState, Errno, ok, err, enotdir, enotempty, enospc}
use fuse_file_system.Bitmap.Count.{Distinct}
use fuse_file_system.Content.{file_blocks}
use fuse_file_system.Content.Ptrs.{ptr_list}
use fuse_file_system.Paths.{CString, parse, is_dir, find_entry}
use fuse_file_system.Directory.{is_free, is_some}
use fuse_file_system.Directory.Place.{HasEntry, path_to_entry}
use fuse_file_system.Remove.{fs_unlink, check_dir_empty, fs_rmdir}
use fuse_file_system.Remove.Unlink.{blocks_of, fs_unlink-ok}
use fuse_file_system.Remove.Gone.{length-blocks_of}
use fuse_file_system.Remove.Rmdir.{verdict, check_dir_empty_lem, fs_rmdir-ok}
use fuse_file_system.Volume.{inode_at, dir_at}
use fuse_file_system.Rename.Names.{IsToken}
use fuse_file_system.Namespace.{Removed}
use fuse_file_system.Consistency.Tokens.{IsBytes, last-IsToken}
use fuse_file_system.Consistency.{
  Kind, plain, folder, under, Role, node, listing, content, IsConsistent,
}
use fuse_file_system.Consistency.Frame.{role-below, role-Reads}
use fuse_file_system.Consistency.Walk.{below, Depth-unique}
use fuse_file_system.Consistency.Paths.{
  IsPathError, snoc_cases, InFolder, entered, missing, in_file, no_parent, path-Last, inode_role,
}
use fuse_file_system.Consistency.Outcome.{Ended, ok-Ended, err-Ended}
use fuse_file_system.Consistency.Removal.{IsRemoval, format_kept, cleared_ends}
use fuse_file_system.Consistency.Blocks.{has-ptr_list, has-append, file-Distinct, folder-Distinct}

abbrev pub IsRmdirError : Errno → Type 0
IsRmdirError e = IsPathError e ⊎ ((e ≡ enotempty) ⊎ (e ≡ enospc))

module _ {s : FsState} {role : ℕ → Role} (c : IsConsistent s role) {path : CString}
    {ts : List CString} {t : CString} {p d slot i : ℕ} (f : InFolder s role path ts t p d)
    (h : HasEntry s path ts t p d slot i) (token : IsToken t) where
  -- No directory stands in itself.
  parent-apart : {kind : Kind} → role i ≡ node kind (under d slot) → p ≢ i
  parent-apart hi e =
      let deeper = Depth-unique c.root f.depth (below refl f.depth f.listed hi) e in
      absurd (omega arith)

  removal :
      {kind : Kind} (is : List ℕ)
      → role i ≡ node kind (under d slot)
      → has i is ≡ true
      → ((b : ℕ)
          → has b is ≡ true
          → (b ≡ i) ⊎ ((role b ≡ listing i) ⊎ ((k : ℕ) × (role b ≡ content i k))))
      → Distinct true s.superblock.disk_size s.bitmap is
      → IsRemoval s role d slot i is
  removal {kind} is hi inode owned distinct = record {
    kind = kind;
    entered = hi;
    slot_below = omega (arith, h.first.below);
    parent = p;
    listed = f.listed;
    apart = parent-apart hi;
    inode = inode;
    owned = owned;
    distinct = distinct;
  }

  module _ (hi : role i ≡ node plain (under d slot)) where
    has_inode : has i (blocks_of s i) ≡ true
    has_inode =
        has-append i i (ptr_list (inode_at s i) (file_blocks (inode_at s i).size) 0)
        ∙ ground (arith, eq→== i i refl)

    file_owned :
        (b : ℕ)
        → has b (blocks_of s i) ≡ true
        → (b ≡ i) ⊎ ((role b ≡ listing i) ⊎ ((k : ℕ) × (role b ≡ content i k)))
    file_owned b in_list =
        let ptrs = ptr_list (inode_at s i) (file_blocks (inode_at s i).size) 0 in
        let either : (has b ptrs || i == b) ≡ true = rw (has-append b i ptrs) at in_list in
        elim (Bool-cases (i == b)) [
          | inl e ↦ inl (sym (==→eq i b e))
          | inr e ↦
              let in_ptrs : has b ptrs ≡ true = ground arith in
              let (k, lo, hi', same) =
                has-ptr_list (inode_at s i) (file_blocks (inode_at s i).size) 0 b in_ptrs in
              inr (inr (k, rw same at ((c.plains i hi).owned k (omega arith))))
        ]

    file-IsRemoval : IsRemoval s role d slot i (blocks_of s i)
    file-IsRemoval = removal (blocks_of s i) hi has_inode file_owned (file-Distinct c i hi)

  module _ (hi : role i ≡ node folder (under d slot)) where
    folder_blocks : blocks_of s i ≡ (inode_at s i).ptrs 0 ∷ i ∷ []
    unfolding file_blocks ptr_list
    folder_blocks = rw (c.folders i hi).one_block refl

    folder_owned :
        (b : ℕ)
        → (b ≡ i) ⊎ (b ≡ (inode_at s i).ptrs 0)
        → (b ≡ i) ⊎ ((role b ≡ listing i) ⊎ ((k : ℕ) × (role b ≡ content i k)))
    folder_owned b (inl e) = inl e
    folder_owned b (inr e) = inr (inl (rw e (c.folders i hi).listed))

    rmdir-IsRemoval : IsRemoval s role d slot i (i ∷ (inode_at s i).ptrs 0 ∷ [])
    rmdir-IsRemoval =
        removal (i ∷ (inode_at s i).ptrs 0 ∷ []) hi (rw (eq→== i i refl) refl)
          (λ b in_list. folder_owned b (ground arith)) (folder-Distinct c i hi).0

    unlink-IsRemoval : IsRemoval s role d slot i (blocks_of s i)
    unlink-IsRemoval = subst (IsRemoval s role d slot i) (sym folder_blocks) (
        removal ((inode_at s i).ptrs 0 ∷ i ∷ []) hi (ground (arith, eq→== i i refl))
          (λ b in_list. folder_owned b (ground arith)) (folder-Distinct c i hi).1)

    folder_few : file_blocks (inode_at s i).size ≤ ptr_count
    unfolding file_blocks
    folder_few = rw (c.folders i hi).one_block (omega arith)

  unlink_placed :
      IsRemoval s role d slot i (blocks_of s i)
      → file_blocks (inode_at s i).size ≤ ptr_count
      → Ended IsPathError (Removed s role path) s (fs_unlink path s)
  unlink_placed r few =
      ok-Ended IsPathError (Removed s role path) s
        (fs_unlink-ok c.volume h (record {
          few = few;
          distinct = r.distinct;
          below = role-below c i (rw r.entered refl);
          not_format = format_kept c r;
        }))
        (rw (← length-blocks_of s i) (
          cleared_ends c r h f.listed (inode_role c (length ts) p f.depth) (parent-apart r.entered)
            token))

  unlink_found :
      (kind : Kind)
      → role i ≡ node kind (under d slot)
      → Ended IsPathError (Removed s role path) s (fs_unlink path s)
  unlink_found plain hi = unlink_placed (file-IsRemoval hi) (c.plains i hi).few
  unlink_found folder hi = unlink_placed (unlink-IsRemoval hi) (folder_few hi)

  checked :
      (hi : role i ≡ node folder (under d slot))
      → check_dir_empty path s
        ≡ (verdict (dir_at s ((inode_at s i).ptrs 0)) (ok (i, (inode_at s i).ptrs 0)), s)
  checked hi =
      check_dir_empty_lem path (path_to_entry c.volume h (role-below c i (rw hi refl)))
        (c.folders i hi).directory (role-Reads c _ (rw (c.folders i hi).listed refl))

  rmdir_refused : (e : Errno) → check_dir_empty path s ≡ (err e, s) → fs_rmdir path s ≡ (err e, s)
  unfolding fs_rmdir
  rmdir_refused e refuse = rw refuse

  rmdir_full :
      (hi : role i ≡ node folder (under d slot))
      → is_free (dir_at s ((inode_at s i).ptrs 0) 0) ≡ false
      → Ended IsRmdirError (Removed s role path) s (fs_rmdir path s)
  rmdir_full hi full =
      elim (Bool-cases
        (is_some (find_entry is_free (dir_at s ((inode_at s i).ptrs 0)) max_dir_entries 0))) [
          | inl e ↦
              err-Ended IsRmdirError (Removed s role path) s
                (rmdir_refused enotempty (checked hi ∙ rw (full, e))) (inr (inl refl))
          | inr e ↦
              err-Ended IsRmdirError (Removed s role path) s
                (rmdir_refused enospc (checked hi ∙ rw (full, e))) (inr (inr refl))
        ]

  rmdir_found :
      (kind : Kind)
      → role i ≡ node kind (under d slot)
      → Ended IsRmdirError (Removed s role path) s (fs_rmdir path s)
  unfolding check_dir_empty
  rmdir_found plain hi =
      let file : is_dir (inode_at s i).mode ≡ false = ground (arith, (c.plains i hi).regular) in
      err-Ended IsRmdirError (Removed s role path) s
        (rmdir_refused enotdir (rw (path_to_entry c.volume h (role-below c i (rw hi refl)), file)))
        (inl (inr refl))
  rmdir_found folder hi = elim (Bool-cases (is_free (dir_at s ((inode_at s i).ptrs 0) 0))) [
    | inl first ↦
        ok-Ended IsRmdirError (Removed s role path) s
          (fs_rmdir-ok c.volume h (role-below c i (rw hi refl)) (c.folders i hi).directory
            (role-below c _ (rw (c.folders i hi).listed refl)) first)
          (cleared_ends c (rmdir-IsRemoval hi) h f.listed (inode_role c (length ts) p f.depth)
            (parent-apart hi) token)
    | inr full ↦ rmdir_full hi full
  ]

module _ {s : FsState} {role : ℕ → Role} (c : IsConsistent s role) (path : CString)
    (bytes : IsBytes path) (below_root : parse path ≢ []) where
  unlink_last :
      (ts : List CString) (t : CString)
      → parse path ≡ ts ++ t ∷ []
      → Ended IsPathError (Removed s role path) s (fs_unlink path s)
  unfolding fs_unlink
  unlink_last ts t e = elim (path-Last c path ts t e) [
    | entered p d slot i kind f h hi ↦ unlink_found c f h (last-IsToken path ts t bytes e) kind hi
    | missing p d f absent h ↦ err-Ended IsPathError (Removed s role path) s (rw h) (inl refl)
    | in_file p h file h' ↦ err-Ended IsPathError (Removed s role path) s (rw h') (inr refl)
    | no_parent x why h h' ↦ err-Ended IsPathError (Removed s role path) s (rw h') why
  ]

  -- `fs_unlink` of a path below the root keeps a volume consistent, or returns an error of the path.
  pub fs_unlink-Ended : Ended IsPathError (Removed s role path) s (fs_unlink path s)
  fs_unlink-Ended = elim (snoc_cases (parse path)) [
    | inl e ↦ absurd (below_root e)
    | inr (ts, t, e) ↦ unlink_last ts t e
  ]

  rmdir_last :
      (ts : List CString) (t : CString)
      → parse path ≡ ts ++ t ∷ []
      → Ended IsRmdirError (Removed s role path) s (fs_rmdir path s)
  unfolding fs_rmdir check_dir_empty
  rmdir_last ts t e = elim (path-Last c path ts t e) [
    | entered p d slot i kind f h hi ↦ rmdir_found c f h (last-IsToken path ts t bytes e) kind hi
    | missing p d f absent h ↦
        err-Ended IsRmdirError (Removed s role path) s (rw h) (inl (inl refl))
    | in_file p h file h' ↦ err-Ended IsRmdirError (Removed s role path) s (rw h') (inl (inr refl))
    | no_parent x why h h' ↦ err-Ended IsRmdirError (Removed s role path) s (rw h') (inl why)
  ]

  -- So does `fs_rmdir`, which may return ENOTEMPTY or ENOSPC as well.
  pub fs_rmdir-Ended : Ended IsRmdirError (Removed s role path) s (fs_rmdir path s)
  fs_rmdir-Ended = elim (snoc_cases (parse path)) [
    | inl e ↦ absurd (below_root e)
    | inr (ts, t, e) ↦ rmdir_last ts t e
  ]
