-- ===== src/Consistency/Paths.antt =====
-- Paths on a consistent volume: what `path_to_inode` of homework.c returns for a path and for its
-- parent.
use fuse_file_system.Prelude.{
  ◌≢◌, none, ℕ, ◌<◌, ◌≡◌, ◌⊎◌, inl, inr, refl, false, List, [], ◌∷◌, ◌++◌, arith, length,
  Option-cases,
}
use fuse_file_system.Layout.{max_dir_entries}
use fuse_file_system.State.{FsState, Errno, ok, err, enoent, enotdir}
use fuse_file_system.Paths.{CString, parse, is_named, is_dir, find_entry, root_inum, path_to_inode}
use fuse_file_system.Paths.Entries.{find_entry-First, none-find_entry, named-Holds}
use fuse_file_system.Paths.Resolve.{
  Resolves, Resolves-mono, path_to_inode_missing, path_to_inode_beyond, path_to_inode_parent,
  path_to_inode_whole_err, path_to_inode_parent_err,
}
use fuse_file_system.Disk.Laws.{block_read-ok}
use mathlib.Core.List.{append-nil}
use fuse_file_system.Directory.Place.{IsPlace, HasEntry}
use fuse_file_system.Attributes.Rewrite.{IsTarget}
use fuse_file_system.Volume.{Untouched, inode_at, dir_at}
use fuse_file_system.Namespace.{follow, names_of}
use fuse_file_system.Consistency.{
  Kind, plain, folder, Place, top, under, Role, content, node, listing, is_spare, IsConsistent,
}
use fuse_file_system.Consistency.Frame.{role-below, role-used, role-Reads}
use fuse_file_system.Consistency.Walk.{
  Depth, origin, below, Depth-unique, OnWay, arrived, failed, walk_total, not_a_folder,
}

-- The errors of path resolution.
abbrev pub IsPathError : Errno → Type 0
IsPathError e = (e ≡ enoent) ⊎ (e ≡ enotdir)

pub snoc_cases :
    (xs : List CString) → (xs ≡ []) ⊎ ((ts : List CString) × (t : CString) × (xs ≡ ts ++ t ∷ []))
snoc_cases [] = inl refl
snoc_cases (x ∷ xs) = elim (snoc_cases xs) [
  | inl e ↦ inr ([], x, rw e)
  | inr (ts, t, e) ↦ inr (x ∷ ts, t, rw e)
]

-- The path leads to inode `i`.
pub record Finds (s : FsState) (role : ℕ → Role) (path : CString) (i : ℕ) (kind : Kind)
    (place : Place) : Type 0 where
  pub role_of : role i ≡ node kind place
  pub depth : Depth role (length (parse path)) i
  pub resolves : Resolves s (OnWay role (length (parse path))) (parse path) root_inum i

-- The path names `t` in the directory `p`, whose entries are in block `d`.
pub record InFolder (s : FsState) (role : ℕ → Role) (path : CString) (ts : List CString)
    (t : CString) (p d : ℕ) : Type 0 where
  pub place : IsPlace s path ts t p d
  pub open place use *
  pub listed : role d ≡ listing p
  pub depth : Depth role (length ts) p

-- What a path comes to.
pub data Whole (s : FsState) (role : ℕ → Role) (path : CString) : Type 0 where
  finds : (i : ℕ) (kind : Kind) (place : Place) → Finds s role path i kind place → Whole s role path
  no_path :
      (e : Errno)
      → IsPathError e
      → path_to_inode path 0 s ≡ (err e, s)
      → follow (names_of s) (parse path) root_inum ≡ none
      → Whole s role path

-- What a path that ends in the name `t` comes to: an entry, a directory without such an entry, a
-- file in the place of the directory, or an error before that.
pub data Last (s : FsState) (role : ℕ → Role) (path : CString) (ts : List CString) (t : CString)
    : Type 0 where
  entered :
      (p d slot i : ℕ) (kind : Kind)
      → InFolder s role path ts t p d
      → HasEntry s path ts t p d slot i
      → role i ≡ node kind (under d slot)
      → Last s role path ts t
  missing :
      (p d : ℕ)
      → InFolder s role path ts t p d
      → ((m : ℕ) → m < max_dir_entries → is_named t (dir_at s d m) ≡ false)
      → path_to_inode path 0 s ≡ (err enoent, s)
      → Last s role path ts t
  in_file :
      (p : ℕ)
      → path_to_inode path 1 s ≡ (ok (p, inode_at s p), s)
      → is_dir (inode_at s p).mode ≡ false
      → path_to_inode path 0 s ≡ (err enotdir, s)
      → Last s role path ts t
  no_parent :
      (e : Errno)
      → IsPathError e
      → path_to_inode path 1 s ≡ (err e, s)
      → path_to_inode path 0 s ≡ (err e, s)
      → Last s role path ts t

module _ {s : FsState} {role : ℕ → Role} (c : IsConsistent s role) where
  -- An inode below the root has a role.
  pub inode_role :
      (n i : ℕ) → Depth role n i → (kind : Kind) × (place : Place) × (role i ≡ node kind place)
  inode_role n i (origin n0 i2) = (folder, top, rw i2 c.root)
  inode_role n i (below {e = e} {k = k} {kind = kind} m d he hj) = (kind, under e k, hj)

  -- The blocks on the way to an inode are neither its block nor its entries.
  way_Untouched :
      (n p d lba : ℕ)
      → Depth role n p
      → (role d ≡ listing p) ⊎ ((d ≡ p) × (is_spare (role p) ≡ false))
      → OnWay role n lba
      → Untouched s d lba
  way_Untouched n p d lba dp hd w =
      let (kind, place, inode) = inode_role w.steps w.inum w.depth in
      let (kind', place', end) = inode_role n p dp in
      record {
        below = role-below c lba w.taken;
        in_use = role-used c lba w.taken;
        not_bitmap = λ e. elim w.block [
          | inl same ↦ cc (c.bitmap, inode, same, e)
          | inr list ↦ cc (c.bitmap, list, e)
        ];
        not_entries = λ e.
            let one : w.inum ≡ p = elim hd [
              | inl h ↦ elim w.block [
                | inl same ↦ cc (h, inode, same, e)
                | inr list ↦ cc (h, list, e)
              ]
              | inr (h, _) ↦ elim w.block [
                | inl same ↦ cc (h, same, e)
                | inr list ↦ cc (h, list, e, end)
              ]
            ] in
            let equal = Depth-unique c.root w.depth dp one in
            absurd (omega (arith, equal, w.above));
      }

  -- What `path_to_inode` returns for the whole path.
  pub path-Whole : (path : CString) → Whole s role path
  path-Whole path =
      elim (walk_total c (parse path) root_inum (length (parse path)) 0 folder top c.root
        (origin refl refl) (omega arith)) [
          | arrived j kind place h d r ↦
              finds j kind place (record { role_of = h; depth = d; resolves = r })
          | failed e w why gone ↦
              no_path e why (path_to_inode_whole_err path (rw (append-nil (parse path)) at (w [])))
                gone
        ]

  module _ {path : CString} {i : ℕ} {kind : Kind} {place : Place}
      (f : Finds s role path i kind place) where
    -- No block of a file is read on the way.
    pub finds-Resolves :
        Resolves s
          (λ lba. Untouched s i lba × ((j k : ℕ) → role lba ≢ content j k))
          (parse path)
          root_inum
          i
    finds-Resolves =
        Resolves-mono s (OnWay role (length (parse path)))
          (λ lba. Untouched s i lba × ((j k : ℕ) → role lba ≢ content j k))
          (λ lba w. (
            way_Untouched (length (parse path)) i i lba f.depth (inr (refl, rw f.role_of refl)) w,
            λ j k e.
                let (kind', place', inode) = inode_role w.steps w.inum w.depth in
                elim w.block [ inl same ↦ cc (inode, same, e) | inr list ↦ cc (list, e) ],
          ))
          f.resolves

    pub finds-IsTarget : IsTarget s path i
    finds-IsTarget = record {
      resolves =
          Resolves-mono s (OnWay role (length (parse path))) (Untouched s i)
            (λ lba.
              way_Untouched (length (parse path)) i i lba f.depth (inr (refl, rw f.role_of refl)))
            f.resolves;
      below = role-below c i (rw f.role_of refl);
      not_super = λ b. cc (c.super, f.role_of, b);
      not_bitmap = λ b. cc (c.bitmap, f.role_of, b);
    }

  folder-InFolder :
      (path : CString) (ts : List CString) (t : CString) (p : ℕ) (place : Place)
      → parse path ≡ ts ++ t ∷ []
      → role p ≡ node folder place
      → Depth role (length ts) p
      → Resolves s (OnWay role (length ts)) ts root_inum p
      → InFolder s role path ts t p ((inode_at s p).ptrs 0)
  folder-InFolder path ts t p place e h d r =
      let f = c.folders p h in
      record {
        place = record {
          parsed = e;
          resolves =
              Resolves-mono s (OnWay role (length ts)) (Untouched s ((inode_at s p).ptrs 0))
                (λ lba. way_Untouched (length ts) p _ lba d (inl f.listed)) r;
          parent = record {
            below = role-below c p (rw h refl);
            in_use = role-used c p (rw h refl);
            not_bitmap = λ b. cc (c.bitmap, h, b);
            not_entries = λ b. cc (f.listed, h, b);
          };
          directory = f.directory;
          pointer = refl;
          below = role-below c _ (rw f.listed refl);
          in_use = role-used c _ (rw f.listed refl);
          not_super = λ b. cc (c.super, f.listed, b);
          not_bitmap = λ b. cc (c.bitmap, f.listed, b);
        };
        listed = f.listed;
        depth = d;
      }

  InFolder-Last :
      (path : CString) (ts : List CString) (t : CString) (p d : ℕ)
      → InFolder s role path ts t p d
      → Last s role path ts t
  InFolder-Last path ts t p d f =
      elim (Option-cases (find_entry (is_named t) (dir_at s d) max_dir_entries 0)) [
        | inl none_found ↦
            let absent : (m : ℕ) → m < max_dir_entries → is_named t (dir_at s d m) ≡ false = λ m lt.
              none-find_entry (is_named t) (dir_at s d) max_dir_entries 0 none_found m (omega arith)
                (omega arith) in
            missing p d f absent (
              path_to_inode_missing path ts t (s.image.block p) (s.image.block d) f.parsed
                f.resolves (block_read-ok {s = s} (c.volume.on_disk p f.parent.below)) f.directory
                (rw f.pointer (block_read-ok {s = s} (c.volume.on_disk d f.below))) absent)
        | inr (slot, found) ↦
            let first = find_entry-First (is_named t) (dir_at s d) max_dir_entries 0 slot found in
            let (kind, h) =
              (c.listings d f.listed).entered slot (omega (arith, first.below))
                (named-Holds t (dir_at s d slot) first.passes).0 in
            entered p d slot (dir_at s d slot).inode kind f
              (record { place = f.place; first = first; leads_to = refl }) h
      ]

  -- What becomes of the last name of a path.
  pub path-Last :
      (path : CString) (ts : List CString) (t : CString)
      → parse path ≡ ts ++ t ∷ []
      → Last s role path ts t
  path-Last path ts t e =
      elim (walk_total c ts root_inum (length ts) 0 folder top c.root (origin refl refl)
        (omega arith)) [
          | arrived p plain place h d r ↦
              let f = c.plains p h in
              in_file p (path_to_inode_parent path ts t e r (role-Reads c p (rw h refl)))
                (ground (arith, f.regular))
                (path_to_inode_beyond path ts t e r (not_a_folder c t [] p place h))
          | arrived p folder place h d r ↦
              InFolder-Last path ts t p _ (folder-InFolder path ts t p place e h d r)
          | failed x w why gone ↦
              no_parent x why (path_to_inode_parent_err path ts t e (rw (append-nil ts) at (w [])))
                (path_to_inode_whole_err path (rw e (w (t ∷ []))))
        ]
