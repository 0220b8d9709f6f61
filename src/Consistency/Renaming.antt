-- ===== src/Consistency/Renaming.antt =====
-- How `fs_rename` of homework.c ends on a consistent volume.
use fuse_file_system.Prelude.{
  ℕ, ◌≡◌, ◌⊎◌, ◌∙◌, refl, sym, true, some, List, [], ◌∷◌, ◌++◌, arith, ◌==◌, ==→eq, inl, inr,
  Bool-cases, Option-cases, length,
}
use fuse_file_system.Layout.{max_dir_entries}
use fuse_file_system.State.{FsState, Errno, ok, err, eexist, einval}
use fuse_file_system.Paths.{CString, parse, is_named, find_entry, path_to_inode}
use fuse_file_system.Paths.Entries.{find_entry-First, none-find_entry, named-Holds}
use fuse_file_system.Paths.Resolve.{path_to_inode_same}
use fuse_file_system.Directory.Place.{IsPlace, HasEntry, path_to_entry}
use fuse_file_system.Attributes.Rewrite.{path_to_target}
use fuse_file_system.Rename.{same_parent, must_be_free, fs_rename}
use fuse_file_system.Rename.Names.{same_parent→append}
use fuse_file_system.Rename.Success.{CanRename, fs_rename-ok}
use fuse_file_system.Volume.{inode_at, dir_at}
use fuse_file_system.Namespace.{Renamed}
use fuse_file_system.Consistency.{Kind, under, Role, node, IsConsistent}
use fuse_file_system.Consistency.Frame.{role-below}
use fuse_file_system.Consistency.Paths.{
  IsPathError, snoc_cases, InFolder, finds-IsTarget, finds, no_path, path-Whole, entered, missing,
  in_file, no_parent, path-Last,
}
use fuse_file_system.Consistency.Tokens.{IsBytes, last-IsToken}
use fuse_file_system.Consistency.Outcome.{Ended, ok-Ended, err-Ended}
use fuse_file_system.Consistency.Renamed.{renamed_ends}

abbrev pub IsRenameError : Errno → Type 0
IsRenameError e = IsPathError e ⊎ ((e ≡ eexist) ⊎ (e ≡ einval))

module _ {s : FsState} {role : ℕ → Role} (c : IsConsistent s role) (src dst : CString)
    (src_bytes : IsBytes src) (bytes : IsBytes dst) (i : ℕ)
    (found : path_to_inode src 0 s ≡ (ok (i, inode_at s i), s)) (e : Errno)
    (not_found : path_to_inode dst 0 s ≡ (err e, s)) where
  dst_free : must_be_free dst s ≡ (ok tt, s)
  unfolding must_be_free
  dst_free = rw not_found refl

  -- Both names are in one directory.
  rename_beside :
      (ts : List CString) (t t' : CString) (p d slot j : ℕ) (kind : Kind)
      → parse dst ≡ ts ++ t' ∷ []
      → InFolder s role src ts t p d
      → HasEntry s src ts t p d slot j
      → role j ≡ node kind (under d slot)
      → Ended IsRenameError (Renamed s role src dst) s (fs_rename src dst s)
  rename_beside ts t t' p d slot j kind parsed f h hj =
      elim (Option-cases (find_entry (is_named t') (dir_at s d) max_dir_entries 0)) [
        | inl missing_name ↦
            let can : CanRename s src dst ts t t' p d slot j = record {
              entry = h;
              file = role-below c j (rw hj refl);
              dst_parsed = parsed;
              absent = λ m lt.
                  none-find_entry (is_named t') (dir_at s d) max_dir_entries 0 missing_name m
                    (omega arith) (omega arith);
            } in
            ok-Ended IsRenameError (Renamed s role src dst) s (fs_rename-ok c.volume can) (
              renamed_ends c can f.listed hj (last-IsToken dst ts t' bytes parsed)
                (last-IsToken src ts t src_bytes f.parsed))
        | inr (slot', there) ↦ absurd (taken slot' there)
      ]
    where
      taken : (slot' : ℕ) → find_entry (is_named t') (dir_at s d) max_dir_entries 0 ≡ some slot' → ⊥
      taken slot' there =
          let first = find_entry-First (is_named t') (dir_at s d) max_dir_entries 0 slot' there in
          let place : IsPlace s dst ts t' p d = record {
            parsed = parsed;
            resolves = f.resolves;
            parent = f.parent;
            directory = f.directory;
            pointer = f.pointer;
            below = f.below;
            in_use = f.in_use;
            not_super = f.not_super;
            not_bitmap = f.not_bitmap;
          } in
          let (kind', role_of) =
            (c.listings d f.listed).entered slot' (omega (arith, first.below))
              (named-Holds t' (dir_at s d slot') first.passes).0 in
          let here =
            path_to_entry c.volume (record { place = place; first = first; leads_to = refl })
              (role-below c _ (rw role_of refl)) in
          cc (not_found, here)

  rename_names :
      (ts : List CString) (t : CString)
      → parse src ≡ ts ++ t ∷ []
      → (t' : CString) × (parse dst ≡ ts ++ t' ∷ [])
      → Ended IsRenameError (Renamed s role src dst) s (fs_rename src dst s)
  rename_names ts t parsed (t', dst_parsed) = elim (path-Last c src ts t parsed) [
    | entered p d slot j kind f h hj ↦ rename_beside ts t t' p d slot j kind dst_parsed f h hj
    | missing p d f absent h ↦ absurd (cc (found, h))
    | in_file p h file h' ↦ absurd (cc (found, h'))
    | no_parent x why h h' ↦ absurd (cc (found, h'))
  ]

  rename_apart :
      (length (parse dst) == length (parse src)) ≡ true
      → same_parent (parse src) (parse dst) ≡ true
      → Ended IsRenameError (Renamed s role src dst) s (fs_rename src dst s)
  rename_apart same_length same_parents =
      let lengths = ==→eq _ _ same_length in
      elim (snoc_cases (parse src)) [
        | inl root ↦ absurd (both_root root lengths)
        | inr (ts, t, parsed) ↦
            rename_names ts t parsed (
              same_parent→append ts t (parse dst) (rw parsed at lengths)
                (rw parsed at same_parents))
      ]
    where
      empty : (xs : List CString) → length xs ≡ 0 → xs ≡ []
      empty [] h = refl
      empty (x ∷ xs) h = absurd (omega arith)

      both_root : parse src ≡ [] → length (parse dst) ≡ length (parse src) → ⊥
      both_root root lengths =
          let nil : parse dst ≡ [] = empty (parse dst) (rw root at lengths) in
          let same = path_to_inode_same src dst 0 s (root ∙ sym nil) in cc (found, not_found, same)

  rename_free : Ended IsRenameError (Renamed s role src dst) s (fs_rename src dst s)
  unfolding fs_rename
  rename_free = elim (Bool-cases (length (parse dst) == length (parse src))) [
    | inr differ ↦
        err-Ended IsRenameError (Renamed s role src dst) s (rw (found, dst_free, differ))
          (inr (inr refl))
    | inl same_length ↦ elim (Bool-cases (same_parent (parse src) (parse dst))) [
      | inr differ ↦
          err-Ended IsRenameError (Renamed s role src dst) s
            (rw (found, dst_free, same_length, differ)) (inr (inr refl))
      | inl same_parents ↦ rename_apart same_length same_parents
    ]
  ]

-- `fs_rename` keeps a volume consistent, or returns an error of the old path, EEXIST or EINVAL.
pub fs_rename-Ended :
    {s : FsState} {role : ℕ → Role}
    → IsConsistent s role
    → (src dst : CString) → IsBytes src
    → IsBytes dst
    → Ended IsRenameError (Renamed s role src dst) s (fs_rename src dst s)
unfolding fs_rename must_be_free
fs_rename-Ended {s} {role} c src dst src_bytes bytes = elim (path-Whole c src) [
  | no_path e why h gone ↦ err-Ended IsRenameError (Renamed s role src dst) s (rw h) (inl why)
  | finds i kind place f ↦
      let found = path_to_target c.volume (finds-IsTarget c f) in
      elim (path-Whole c dst) [
        | finds j kind' place' g ↦
            err-Ended IsRenameError (Renamed s role src dst) s
              (rw (found, path_to_target c.volume (finds-IsTarget c g))) (inr (inl refl))
        | no_path e why h gone ↦ rename_free c src dst src_bytes bytes i found e h
      ]
]
