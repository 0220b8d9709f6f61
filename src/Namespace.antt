-- ===== src/Namespace.antt =====
-- What the operations of homework.c promise about names, without blocks and bits: a directory maps names
-- to inodes, and an operation sets or removes one name.
pub mod Follow
pub mod Resolution
pub mod Frame
use fuse_file_system.Prelude.{
  ℕ, ◌≤◌, ◌≡◌, ◌≢◌, ◌&&◌, Option, none, some, List, [], ◌∷◌, ◌++◌, ◌==◌, if◌then◌else◌, length,
}
use fuse_file_system.Layout.{Directory, max_dir_entries}
use fuse_file_system.State.{FsState}
use fuse_file_system.Paths.{CString, parse, is_named, is_dir, find_entry, root_inum, max_name_len}
use fuse_file_system.Rename.{same_token}
use fuse_file_system.Rename.Names.{IsToken}
use fuse_file_system.Requests.{
  Request, getattr, readdir, rename, chmod, read, statfs, create, mkdir, unlink, rmdir, utime,
  truncate, write,
}
use fuse_file_system.Consistency.{Role, IsNode}
use fuse_file_system.Volume.{inode_at, dir_at}

-- The inode that a name stands for in a directory.
abbrev pub Names : Type 0
Names = ℕ → CString → Option ℕ

-- What a path leads to.
unfoldable pub follow : Names → List CString → ℕ → Option ℕ
follow names [] i = some i
follow names (t ∷ ts) i = elim (names i t) [ none ↦ none | some j ↦ follow names ts j ]

-- The names with `t` in directory `p` standing for `n`, and without `t` there.
abbrev pub linked : Names → (p : ℕ) → CString → (n : ℕ) → Names
linked names p t n i u = if (i == p) && same_token u t then some n else names i u

abbrev pub unlinked : Names → (p : ℕ) → CString → Names
unlinked names p t i u = if (i == p) && same_token u t then none else names i u

-- The names agree in the inodes that `P` holds of, for every name that an entry can have.
abbrev pub Agree : (ℕ → Type 0) → Names → Names → Type 0
Agree P names names' =
    (i : ℕ) → P i → (t : CString) → IsToken t → length t ≤ max_name_len → names' i t ≡ names i t

-- `t` is the last name of the path, and `p` the directory in which it stands.
pub record IsParent (names : Names) (path t : CString) (p : ℕ) : Type 0 where
  pub directories : List CString
  pub parsed : parse path ≡ directories ++ t ∷ []
  pub leads : follow names directories root_inum ≡ some p

-- A new inode under a name that was free: it has no names in it.
pub record IsAdded (node : ℕ → Type 0) (names names' : Names) (path : CString) : Type 0 where
  pub name : CString
  pub parent : ℕ
  pub inum : ℕ
  pub place : IsParent names path name parent
  pub free : names parent name ≡ none
  pub new : node inum → ⊥
  pub agree : Agree node (linked names parent name inum) names'
  pub empty : (t : CString) → names' inum t ≡ none

-- The name of an inode is gone, and so is the inode.
pub record IsRemoved (node : ℕ → Type 0) (names names' : Names) (path : CString) : Type 0 where
  pub name : CString
  pub parent : ℕ
  pub inum : ℕ
  pub place : IsParent names path name parent
  pub stands : names parent name ≡ some inum
  pub agree : Agree (λ i. node i × (i ≢ inum)) (unlinked names parent name) names'

-- An inode has a new name, which was free, in the directory of the old one.
pub record IsRenamed (node : ℕ → Type 0) (names names' : Names) (src dst : CString) : Type 0 where
  pub old : CString
  pub new : CString
  pub parent : ℕ
  pub inum : ℕ
  pub src_place : IsParent names src old parent
  pub dst_place : IsParent names dst new parent
  pub stands : names parent old ≡ some inum
  pub free : names parent new ≡ none
  pub agree : Agree node (linked (unlinked names parent old) parent new inum) names'

-- What a request that succeeds does to the names of the inodes that `node` holds of.
abbrev pub Step : Request → (ℕ → Type 0) → Names → Names → Type 0
Step (create path mode) node names names' = IsAdded node names names' path
Step (mkdir path mode) node names names' = IsAdded node names names' path
Step (unlink path) node names names' = IsRemoved node names names' path
Step (rmdir path) node names names' = IsRemoved node names names' path
Step (rename src dst) node names names' = IsRenamed node names names' src dst
Step request node names names' = Agree node names names'

-- The names that a directory block holds, and those of a volume.
abbrev pub entry_inode : Directory → CString → Option ℕ → Option ℕ
entry_inode dir t none = none
entry_inode dir t (some k) = some (dir k).inode

unfoldable pub names_in : Directory → CString → Option ℕ
names_in dir t = entry_inode dir t (find_entry (is_named t) dir max_dir_entries 0)

unfoldable pub names_of : FsState → Names
names_of s i t =
    if is_dir (inode_at s i).mode then names_in (dir_at s ((inode_at s i).ptrs 0)) t else none

-- A step of a consistent volume with these roles keeps the names, or adds, removes or renames an inode.
abbrev pub Kept : FsState → (ℕ → Role) → FsState → Type 0
Kept s role s' = Agree (IsNode role) (names_of s) (names_of s')

abbrev pub Added : FsState → (ℕ → Role) → CString → FsState → Type 0
Added s role path s' = IsAdded (IsNode role) (names_of s) (names_of s') path

abbrev pub Removed : FsState → (ℕ → Role) → CString → FsState → Type 0
Removed s role path s' = IsRemoved (IsNode role) (names_of s) (names_of s') path

abbrev pub Renamed : FsState → (ℕ → Role) → (src dst : CString) → FsState → Type 0
Renamed s role src dst s' = IsRenamed (IsNode role) (names_of s) (names_of s') src dst
