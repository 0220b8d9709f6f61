-- ===== src/Consistency/Blocks.antt =====
-- The blocks of an inode of a consistent volume are different blocks that are in use.
use fuse_file_system.Prelude.{
  ℕ, zero, suc, ◌+◌, ◌≤◌, ◌<◌, ◌≡◌, ◌≢◌, refl, Bool, true, false, ◌||◌, List, [], ◌∷◌, ◌++◌, arith,
  ◌==◌, ==→eq, inl, inr, Bool-cases, has,
}
use fuse_file_system.Layout.{Block, Inode}
use fuse_file_system.State.{FsState}
use fuse_file_system.Bitmap.Bits.{used}
use fuse_file_system.Bitmap.Count.{Distinct}
use fuse_file_system.Content.{file_blocks}
use fuse_file_system.Content.Ptrs.{ptr_list}
use fuse_file_system.Volume.{inode_at}
use fuse_file_system.Consistency.{plain, folder, Place, Role, node, content, IsPlain, IsConsistent}
use fuse_file_system.Consistency.Frame.{role-below, role-used}

pub has-ptr_list :
    (n : Inode) (rounds j b : ℕ)
    → has b (ptr_list n rounds j) ≡ true
    → (k : ℕ) × (j ≤ k) × (k < j + rounds) × (n.ptrs k ≡ b)
unfolding ptr_list
has-ptr_list n zero j b h = cc
has-ptr_list n (suc rounds) j b h = elim (Bool-cases (n.ptrs j == b)) [
  | inl e ↦ (j, omega arith, omega arith, ==→eq _ _ e)
  | inr e ↦
      let later : has b (ptr_list n rounds (j + 1)) ≡ true = rw e at h in
      let (k, lo, hi, same) = has-ptr_list n rounds (j + 1) b later in
      (k, omega arith, omega arith, same)
]

pub has-append : (b i : ℕ) (xs : List ℕ) → has b (xs ++ i ∷ []) ≡ (has b xs || i == b)
has-append b i [] = ground arith
has-append b i (x ∷ xs) = ground (arith, has-append b i xs)

Distinct-append :
    (flag : Bool) (size : ℕ) (map : Block) (xs : List ℕ) (i : ℕ)
    → Distinct flag size map xs
    → i < size
    → used map i ≡ flag
    → has i xs ≡ false
    → Distinct flag size map (xs ++ i ∷ [])
unfolding Distinct
Distinct-append flag size map [] i d lt u out = (lt, u, refl, tt)
Distinct-append flag size map (x ∷ xs) i (hx, ux, out_x, d) lt u out = (
  hx,
  ux,
  ground (arith, has-append x i xs),
  Distinct-append flag size map xs i d lt u (ground arith),
)

module _ {s : FsState} {role : ℕ → Role} (c : IsConsistent s role) where
  pub ptrs-Distinct :
      (n : Inode) (i rounds j : ℕ)
      → ((k : ℕ) → j ≤ k → k < j + rounds → role (n.ptrs k) ≡ content i k)
      → Distinct true s.superblock.disk_size s.bitmap (ptr_list n rounds j)
  unfolding ptr_list Distinct
  ptrs-Distinct n i zero j owned = tt
  ptrs-Distinct n i (suc rounds) j owned =
      let here = owned j (omega arith) (omega arith) in
      (
        role-below c (n.ptrs j) (rw here refl),
        role-used c (n.ptrs j) (rw here refl),
        apart here,
        ptrs-Distinct n i rounds (j + 1) (λ k lo hi. owned k (omega arith) (omega arith)),
      )
    where
      apart : role (n.ptrs j) ≡ content i j → has (n.ptrs j) (ptr_list n rounds (j + 1)) ≡ false
      apart here = elim (Bool-cases (has (n.ptrs j) (ptr_list n rounds (j + 1)))) [
        | inl both ↦
            let (k, lo, hi, same) = has-ptr_list n rounds (j + 1) (n.ptrs j) both in
            let there = owned k (omega arith) (omega arith) in
            let one : j ≡ k = cc (here, there, same) in absurd (omega arith)
        | inr other ↦ other
      ]

  module _ (i : ℕ) {place : Place} (h : role i ≡ node plain place) where
    p : IsPlain s role i
    p = c.plains i h

    count : ℕ
    count = file_blocks (inode_at s i).size

    inode-apart : has i (ptr_list (inode_at s i) (file_blocks (inode_at s i).size) 0) ≡ false
    inode-apart =
        elim (Bool-cases (has i (ptr_list (inode_at s i) (file_blocks (inode_at s i).size) 0))) [
          | inl both ↦
              let (k, lo, hi, same) =
                has-ptr_list (inode_at s i) (file_blocks (inode_at s i).size) 0 i both in
              let there = p.owned k (omega arith) in cc (there, same, h)
          | inr other ↦ other
        ]

    -- The blocks that `fs_unlink` frees of a file.
    pub file-Distinct :
        Distinct true s.superblock.disk_size s.bitmap
          (ptr_list (inode_at s i) (file_blocks (inode_at s i).size) 0 ++ i ∷ [])
    file-Distinct =
        Distinct-append true s.superblock.disk_size s.bitmap
          (ptr_list (inode_at s i) (file_blocks (inode_at s i).size) 0) i
          (ptrs-Distinct (inode_at s i) i (file_blocks (inode_at s i).size) 0
            (λ k lo hi. p.owned k (omega arith)))
          (role-below c i (rw h refl)) (role-used c i (rw h refl)) inode-apart

  module _ (i : ℕ) {place : Place} (h : role i ≡ node folder place) where
    l : ℕ
    l = (inode_at s i).ptrs 0

    apart : i ≢ (inode_at s i).ptrs 0
    apart e = let there = (c.folders i h).listed in cc (there, h, e)

    -- The two blocks of a directory, in the order of `fs_rmdir` and in that of `fs_unlink`.
    pub folder-Distinct :
        Distinct true s.superblock.disk_size s.bitmap (i ∷ (inode_at s i).ptrs 0 ∷ [])
        × Distinct true s.superblock.disk_size s.bitmap ((inode_at s i).ptrs 0 ∷ i ∷ [])
    unfolding Distinct
    folder-Distinct =
        let there = (c.folders i h).listed in
        let inode : (i < s.superblock.disk_size) × (used s.bitmap i ≡ true) =
          (role-below c i (rw h refl), role-used c i (rw h refl)) in
        let entries : ((inode_at s i).ptrs 0 < s.superblock.disk_size)
            × (used s.bitmap ((inode_at s i).ptrs 0) ≡ true) =
          (role-below c _ (rw there refl), role-used c _ (rw there refl)) in
        (
          (inode.0, inode.1, ground (arith, apart), (entries.0, entries.1, refl, tt)),
          (entries.0, entries.1, ground (arith, apart), (inode.0, inode.1, refl, tt)),
        )
