-- ===== src/Consistency/Adding.antt =====
-- How `fs_create` and `fs_mkdir` of homework.c end on a consistent volume.
use fuse_file_system.Prelude.{
  ℕ, ◌-◌, ◌^◌, ◌<◌, ◌≡◌, ◌≢◌, ◌⊎◌, ◌∙◌, refl, Bool, true, false, none, List, [], ◌∷◌, ◌++◌, arith,
  ltb, if◌then◌else◌, length, inl, inr, Option-cases,
}
use fuse_file_system.Layout.{max_dir_entries}
use fuse_file_system.State.{FsState, Errno, ok, err, eexist, enotdir, enospc}
use fuse_file_system.Host.{Host}
use fuse_file_system.Bitmap.{find_first_nfree_blocks}
use fuse_file_system.Bitmap.Search.{free_blocks, find_first_nfree_blocks_lem}
use fuse_file_system.Bitmap.Fresh.{free_head}
use fuse_file_system.Paths.{CString, parse, is_dir, is_reg, is_named, find_entry, path_to_inode}
use fuse_file_system.Paths.Entries.{find_entry-First}
use fuse_file_system.Directory.{is_free, validate_directory_and_entry}
use fuse_file_system.Directory.Place.{path_to_place}
use fuse_file_system.Create.{create_directory_entry, fs_create, fs_mkdir}
use fuse_file_system.Create.Success.{HasRoom, validated, validated_absent, free_slot, fs_create-ok}
use fuse_file_system.Create.Exists.{refused}
use fuse_file_system.Create.Directories.{fs_mkdir-ok}
use fuse_file_system.Remove.Rmdir.{find_free_none}
use fuse_file_system.Volume.{inode_at, dir_at}
use fuse_file_system.Namespace.{Added}
use fuse_file_system.Consistency.{Role, IsConsistent}
use fuse_file_system.Consistency.Paths.{
  IsPathError, snoc_cases, InFolder, entered, missing, in_file, no_parent, path-Last,
}
use fuse_file_system.Consistency.Tokens.{IsBytes, last-IsToken}
use fuse_file_system.Consistency.Outcome.{Ended, ok-Ended, err-Ended}
use fuse_file_system.Consistency.Create.{created_ends}
use fuse_file_system.Consistency.MakeDirectory.{made_ends}

abbrev pub IsCreateError : Errno → Type 0
IsCreateError e = IsPathError e ⊎ ((e ≡ eexist) ⊎ (e ≡ enospc))

-- The free blocks of the volume.
abbrev all_free : FsState → List ℕ
all_free s = free_blocks s.bitmap (s.superblock.disk_size - 0) 0

-- Where a new inode cannot be put.
data NoRoom (s : FsState) (path : CString) (ts : List CString) (t : CString) : Type 0 where
  refuses :
      (e : Errno)
      → IsCreateError e
      → ((host : Host) (mode : ℕ) (dirflag : Bool)
          → create_directory_entry host path mode dirflag s ≡ (err e, s))
      → NoRoom s path ts t

module _ {s : FsState} {role : ℕ → Role} (c : IsConsistent s role) (path : CString)
    (ts : List CString) (t : CString) where
  no_slot :
      {p d : ℕ}
      → InFolder s role path ts t p d
      → ((m : ℕ) → m < max_dir_entries → is_named t (dir_at s d m) ≡ false)
      → find_entry is_free (dir_at s d) max_dir_entries 0 ≡ none
      → (host : Host) (mode : ℕ) (dirflag : Bool)
      → create_directory_entry host path mode dirflag s ≡ (err enospc, s)
  unfolding create_directory_entry
  no_slot {d = d} f absent full host mode dirflag = rw (
    path_to_place c.volume f.place,
    validated_absent c.volume f.place absent,
    find_free_none (dir_at s d) s full,
  )

  in_a_file :
      (p : ℕ)
      → path_to_inode path 1 s ≡ (ok (p, inode_at s p), s)
      → is_dir (inode_at s p).mode ≡ false
      → (host : Host) (mode : ℕ) (dirflag : Bool)
      → create_directory_entry host path mode dirflag s ≡ (err enotdir, s)
  unfolding create_directory_entry validate_directory_and_entry
  in_a_file p h file host mode dirflag = rw (h, file)

  -- The name is refused, or the directory has room for it.
  place_cases :
      parse path ≡ ts ++ t ∷ []
      → NoRoom s path ts t
        ⊎ ((p d slot : ℕ) × InFolder s role path ts t p d × HasRoom s path ts t p d slot)
  unfolding create_directory_entry
  place_cases e = elim (path-Last c path ts t e) [
    | entered p d slot i kind f h hi ↦ inl (refuses eexist (inr (inl refl)) (refused c.volume h))
    | missing p d f absent h ↦
        elim (Option-cases (find_entry is_free (dir_at s d) max_dir_entries 0)) [
          | inl full ↦ inl (refuses enospc (inr (inr refl)) (no_slot f absent full))
          | inr (slot, found) ↦ inr (
            p,
            d,
            slot,
            f,
            record {
              place = f.place;
              absent = absent;
              room = find_entry-First is_free (dir_at s d) max_dir_entries 0 slot found;
            },
          )
        ]
    | in_file p h file h' ↦ inl (refuses enotdir (inl (inr refl)) (in_a_file p h file))
    | no_parent x why h h' ↦ inl (refuses x (inl why) (λ host mode dirflag. rw h))
  ]

  no_blocks :
      (k : ℕ) → ltb (length (all_free s)) k ≡ true → find_first_nfree_blocks 0 k s ≡ (err enospc, s)
  no_blocks k few = find_first_nfree_blocks_lem 0 k s (omega arith) c.volume.fits_bitmap ∙ rw few

  full_volume :
      {p d slot : ℕ} (host : Host) (mode : ℕ) (dirflag : Bool)
      → HasRoom s path ts t p d slot
      → ltb (length (all_free s)) (if dirflag then 2 else 1) ≡ true
      → create_directory_entry host path mode dirflag s ≡ (err enospc, s)
  unfolding create_directory_entry
  full_volume host mode dirflag h few = rw (
    path_to_place c.volume h.place,
    validated c.volume h,
    free_slot c.volume h,
    no_blocks (if dirflag then 2 else 1) few,
  )

-- The first free blocks, or too few of them.
one_free :
    (xs : List ℕ) → (ltb (length xs) 1 ≡ true) ⊎ ((n : ℕ) × (rest : List ℕ) × (xs ≡ n ∷ rest))
one_free [] = inl refl
one_free (n ∷ rest) = inr (n, rest, refl)

two_free :
    (xs : List ℕ) → (ltb (length xs) 2 ≡ true) ⊎ ((n m : ℕ) × (rest : List ℕ) × (xs ≡ n ∷ m ∷ rest))
two_free [] = inl refl
two_free (n ∷ []) = inl refl
two_free (n ∷ m ∷ rest) = inr (n, m, rest, refl)

module _ {s : FsState} {role : ℕ → Role} (c : IsConsistent s role) (host : Host) (path : CString)
    (bytes : IsBytes path) (below_root : parse path ≢ []) where
  create_placed :
      (mode : ℕ)
      → mode < 2 ^ 32
      → is_reg mode ≡ true
      → (ts : List CString) (t : CString) → parse path ≡ ts ++ t ∷ []
      → Ended IsCreateError (Added s role path) s (fs_create host path mode s)
  unfolding fs_create
  create_placed mode small reg ts t e = elim (place_cases c path ts t e) [
    | inl (refuses x why h) ↦ err-Ended IsCreateError (Added s role path) s (h host mode false) why
    | inr (p, d, slot, f, h) ↦ elim (one_free (all_free s)) [
      | inl few ↦
          err-Ended IsCreateError (Added s role path) s
            (full_volume c path ts t host mode false h few) (inr (inr refl))
      | inr (n, rest, free) ↦
          let (below, unused) = free_head s.bitmap s.superblock.disk_size n rest free in
          ok-Ended IsCreateError (Added s role path) s
            (fs_create-ok c.volume h host mode n rest free)
            (created_ends c h f.listed (last-IsToken path ts t bytes e) host mode n below unused
              small reg)
    ]
  ]

  -- `fs_create` of a regular mode under a name keeps a volume consistent, or returns an error of
  -- the path, EEXIST or ENOSPC.
  pub fs_create-Ended :
      (mode : ℕ)
      → mode < 2 ^ 32
      → is_reg mode ≡ true
      → Ended IsCreateError (Added s role path) s (fs_create host path mode s)
  fs_create-Ended mode small reg = elim (snoc_cases (parse path)) [
    | inl e ↦ absurd (below_root e)
    | inr (ts, t, e) ↦ create_placed mode small reg ts t e
  ]

  mkdir_placed :
      (mode : ℕ)
      → mode < 2 ^ 12
      → (ts : List CString) (t : CString) → parse path ≡ ts ++ t ∷ []
      → Ended IsCreateError (Added s role path) s (fs_mkdir host path mode s)
  unfolding fs_mkdir
  mkdir_placed mode small ts t e = elim (place_cases c path ts t e) [
    | inl (refuses x why h) ↦ err-Ended IsCreateError (Added s role path) s (h host mode true) why
    | inr (p, d, slot, f, h) ↦ elim (two_free (all_free s)) [
      | inl few ↦
          err-Ended IsCreateError (Added s role path) s
            (full_volume c path ts t host mode true h few) (inr (inr refl))
      | inr (n, m, rest, free) ↦
          ok-Ended IsCreateError (Added s role path) s
            (fs_mkdir-ok c.volume h host mode n m rest free)
            (made_ends c h f.listed (last-IsToken path ts t bytes e) host mode n m rest free small)
    ]
  ]

  -- So does `fs_mkdir` of permission bits.
  pub fs_mkdir-Ended :
      (mode : ℕ)
      → mode < 2 ^ 12
      → Ended IsCreateError (Added s role path) s (fs_mkdir host path mode s)
  fs_mkdir-Ended mode small = elim (snoc_cases (parse path)) [
    | inl e ↦ absurd (below_root e)
    | inr (ts, t, e) ↦ mkdir_placed mode small ts t e
  ]
