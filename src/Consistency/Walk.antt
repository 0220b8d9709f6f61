-- ===== src/Consistency/Walk.antt =====
-- `translate` of homework.c on a consistent volume: where a walk ends, and what it reads on its way.
use fuse_file_system.Prelude.{
  ℕ, suc, ◌+◌, ◌<◌, ◌≡◌, ◌⊎◌, inl, inr, refl, subst, false, none, some, List, [], ◌∷◌, ◌++◌, arith,
  length, Option-cases,
}
use fuse_file_system.Layout.{Directory, max_dir_entries}
use fuse_file_system.State.{FsState, Errno, ok, err, enoent, enotdir}
use fuse_file_system.Paths.{CString, is_named, is_dir, find_entry, search_dir, walk, root_inum}
use fuse_file_system.Paths.Entries.{find_entry-First, named-Holds}
use fuse_file_system.Paths.Resolve.{Lookup, Resolves, here, next}
use fuse_file_system.Volume.{inode_at, dir_at}
use fuse_file_system.Namespace.{follow, names_of}
use fuse_file_system.Namespace.Follow.{
  follow_stops, follow_step, names_of_file, names_found, names_missing,
}
use fuse_file_system.Consistency.{
  Kind, plain, folder, Place, top, under, Role, node, listing, is_spare, IsFolder, IsConsistent,
}
use fuse_file_system.Consistency.Frame.{role-Reads}

-- Inode `i` is `n` steps below the root.
pub data Depth (role : ℕ → Role) : ℕ → ℕ → Type 0 where
  origin : {n i : ℕ} → n ≡ 0 → i ≡ root_inum → Depth role n i
  below :
      {n m i j e k : ℕ} {kind : Kind}
      → m ≡ suc n
      → Depth role n i
      → role e ≡ listing i
      → role j ≡ node kind (under e k)
      → Depth role m j

-- Each inode has one depth: its role tells in which directory it stands.
pub Depth-unique :
    {role : ℕ → Role} {n m i j : ℕ}
    → role root_inum ≡ node folder top
    → Depth role n i
    → Depth role m j
    → i ≡ j
    → n ≡ m
Depth-unique root (origin n0 i2) (origin m0 j2) same = omega arith
Depth-unique root (origin n0 i2) (below ms d he hj) same = cc
Depth-unique root (below ns d he hi) (origin m0 j2) same = cc
Depth-unique root (below {i = p} {e = e} ns d he hi) (below {i = q} {e = f} ms d' hf hj) same =
    let parent : p ≡ q = cc in let ih = Depth-unique root d d' parent in omega arith

-- A block that is read on the way to depth `n`: a directory above, or its entries.
pub record OnWay (role : ℕ → Role) (n lba : ℕ) : Type 0 where
  pub steps : ℕ
  pub inum : ℕ
  pub depth : Depth role steps inum
  pub above : steps < n
  pub taken : is_spare (role lba) ≡ false
  pub block : (lba ≡ inum) ⊎ (role lba ≡ listing inum)

-- Where the walk of `tokens` from inode `i` ends.
pub data Walked (s : FsState) (role : ℕ → Role) (tokens : List CString) (i n : ℕ) : Type 0 where
  arrived :
      (j : ℕ) (kind : Kind) (place : Place)
      → role j ≡ node kind place
      → Depth role n j
      → Resolves s (OnWay role n) tokens i j
      → Walked s role tokens i n
  failed :
      (e : Errno)
      → ((more : List CString) → walk (tokens ++ more) i s ≡ (err e, s))
      → (e ≡ enoent) ⊎ (e ≡ enotdir)
      → follow (names_of s) tokens i ≡ none
      → Walked s role tokens i n

search_none :
    (token : CString) (dir : Directory) (s : FsState)
    → find_entry (is_named token) dir max_dir_entries 0 ≡ none
    → search_dir token dir s ≡ (err enoent, s)
unfolding search_dir
search_none token dir s e = rw (e, search_dir)

search_some :
    (token : CString) (dir : Directory) (s : FsState) (k : ℕ)
    → find_entry (is_named token) dir max_dir_entries 0 ≡ some k
    → search_dir token dir s ≡ (ok (dir k).inode, s)
unfolding search_dir
search_some token dir s k e = rw (e, search_dir)

module _ {s : FsState} {role : ℕ → Role} (c : IsConsistent s role) where
  -- No name leads on from a file.
  pub not_a_folder :
      (token : CString) (tokens : List CString) (i : ℕ) (place : Place)
      → role i ≡ node plain place
      → walk (token ∷ tokens) i s ≡ (err enotdir, s)
  unfolding walk
  not_a_folder token tokens i place h =
      let f = c.plains i h in
      let file : is_dir (inode_at s i).mode ≡ false = ground (arith, f.regular) in
      rw (role-Reads c i (rw h refl), file)

  module _ (token : CString) (tokens : List CString) (i : ℕ) (place : Place)
      (h : role i ≡ node folder place) where
    f : IsFolder s role i
    f = c.folders i h

    e : ℕ
    e = (inode_at s i).ptrs 0

    missing :
        find_entry (is_named token) (dir_at s e) max_dir_entries 0 ≡ none
        → walk (token ∷ tokens) i s ≡ (err enoent, s)
    unfolding walk e
    missing none_found = rw (
      role-Reads c i (rw h refl),
      f.directory,
      role-Reads c ((inode_at s i).ptrs 0) (rw f.listed refl),
      search_none token (dir_at s e) s none_found,
    )

    steps_on :
        (k : ℕ) (r : Errno)
        → find_entry (is_named token) (dir_at s e) max_dir_entries 0 ≡ some k
        → walk tokens (dir_at s e k).inode s ≡ (err r, s)
        → walk (token ∷ tokens) i s ≡ (err r, s)
    unfolding walk e
    steps_on k r found rest = rw (
      role-Reads c i (rw h refl),
      f.directory,
      role-Reads c ((inode_at s i).ptrs 0) (rw f.listed refl),
      search_some token (dir_at s e) s k found,
      rest,
    )

    step-Lookup :
        (k n m : ℕ)
        → find_entry (is_named token) (dir_at s e) max_dir_entries 0 ≡ some k
        → Depth role m i
        → m < n
        → Lookup s (OnWay role n) i token (dir_at s e k).inode
    unfolding e
    step-Lookup k n m found d above = record {
      inode_block = s.image.block i;
      entries = s.image.block ((inode_at s i).ptrs 0);
      place = k;
      reads_inode = role-Reads c i (rw h refl);
      directory = f.directory;
      reads_entries = role-Reads c ((inode_at s i).ptrs 0) (rw f.listed refl);
      first = find_entry-First (is_named token) (dir_at s e) max_dir_entries 0 k found;
      leads_to = refl;
      passes = (
        record {
          steps = m;
          inum = i;
          depth = d;
          above = above;
          taken = rw h refl;
          block = inl refl;
        },
        record {
          steps = m;
          inum = i;
          depth = d;
          above = above;
          taken = rw f.listed refl;
          block = inr f.listed;
        },
      );
    }

    entry_role :
        (k : ℕ)
        → find_entry (is_named token) (dir_at s e) max_dir_entries 0 ≡ some k
        → (kind : Kind) × (role (dir_at s e k).inode ≡ node kind (under e k))
    unfolding e
    entry_role k found =
        let first = find_entry-First (is_named token) (dir_at s e) max_dir_entries 0 k found in
        let l = c.listings ((inode_at s i).ptrs 0) f.listed in
        l.entered k (omega (arith, first.below)) (named-Holds token (dir_at s e k) first.passes).0

  -- The walk arrives at an inode, or returns ENOENT or ENOTDIR.
  pub walk_total :
      (tokens : List CString) (i n m : ℕ) (kind : Kind) (place : Place)
      → role i ≡ node kind place
      → Depth role m i
      → m + length tokens ≡ n
      → Walked s role tokens i n
  unfolding e
  walk_total [] i n m kind place h d sum =
      let here_now : m ≡ n = omega arith in
      arrived i kind place h (subst (λ k. Depth role k i) here_now d) here
  walk_total (t ∷ ts) i n m plain place h d sum =
      let file : is_dir (inode_at s i).mode ≡ false = ground (arith, (c.plains i h).regular) in
      failed enotdir (λ more. not_a_folder t (ts ++ more) i place h) (inr refl)
        (follow_stops (names_of s) t ts i (names_of_file s i t file))
  walk_total (t ∷ ts) i n m folder place h d sum =
      elim (Option-cases
        (find_entry (is_named t) (dir_at s (e t ts i place h)) max_dir_entries 0)) [
          | inl none_found ↦
              failed enoent (λ more. missing t (ts ++ more) i place h none_found) (inl refl)
                (follow_stops (names_of s) t ts i
                  (names_missing s i t (c.folders i h).directory none_found))
          | inr (k, found) ↦
              let (kind', entered) = entry_role t ts i place h k found in
              let d' : Depth role (suc m) (dir_at s (e t ts i place h) k).inode =
                below refl d (c.folders i h).listed entered in
              elim (walk_total ts (dir_at s (e t ts i place h) k).inode n (suc m) kind'
                (under (e t ts i place h) k) entered d' (omega arith)) [
                  | arrived j kind'' place'' hj dj r ↦
                      arrived j kind'' place'' hj dj
                        (next (step-Lookup t ts i place h k n m found d (omega arith)) r)
                  | failed x w why gone ↦
                      failed x (λ more. steps_on t (ts ++ more) i place h k x found (w more)) why
                        (follow_step (names_of s) t ts i _
                          (names_found s i t k (c.folders i h).directory found) gone)
                ]
        ]
