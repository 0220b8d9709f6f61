-- ===== src/Truncate/Drop.antt =====
-- The pointers that `fs_truncate` of homework.c logs and sets to -1.
use fuse_file_system.Prelude.{
  ℕ, zero, suc, ◌+◌, ◌-◌, ◌^◌, ◌≤◌, ◌<◌, ◌≡◌, ◌∙◌, refl, arith, lt→leb, ne→==,
}
use fuse_file_system.Layout.{Inode, ptr_count}
use fuse_file_system.Layout.RoundTrip.{FitsInode}
use fuse_file_system.State.{FsState, ok}
use fuse_file_system.Attributes.{inode_to_stat}
use fuse_file_system.Content.{set_ptr}
use fuse_file_system.Content.Ptrs.{ptr_list}
use fuse_file_system.Truncate.{drop_ptrs}

-- The inode with the pointers from `i` on set to -1.
unfoldable pub dropped : Inode → (rounds i : ℕ) → Inode
dropped n zero i = n
dropped n (suc rounds) i = dropped (set_ptr n i (2 ^ 32 - 1)) rounds (i + 1)

ptr_list-set_ptr :
    (n : Inode) (i x rounds j : ℕ) → i < j → ptr_list (set_ptr n i x) rounds j ≡ ptr_list n rounds j
unfolding ptr_list
ptr_list-set_ptr n i x zero j lt = refl
ptr_list-set_ptr n i x (suc rounds) j lt =
    rw (ne→== j i (omega arith), ptr_list-set_ptr n i x rounds (j + 1) (omega arith))

pub drop_ptrs-ok :
    (n : Inode) (rounds i : ℕ) (s : FsState)
    → i + rounds ≤ ptr_count
    → drop_ptrs n rounds i s ≡ (ok (ptr_list n rounds i, dropped n rounds i), s)
unfolding drop_ptrs ptr_list dropped
drop_ptrs-ok n zero i s h = refl
drop_ptrs-ok n (suc rounds) i s h = rw (
  lt→leb ptr_count i (omega arith),
  drop_ptrs-ok (set_ptr n i (2 ^ 32 - 1)) rounds (i + 1) s (omega arith),
  ptr_list-set_ptr n i (2 ^ 32 - 1) rounds (i + 1) (omega arith),
)

-- Only pointers change.
pub dropped-stat :
    (n : Inode) (rounds i size : ℕ)
    → inode_to_stat (record (dropped n rounds i) { size = size })
      ≡ inode_to_stat (record n { size = size })
unfolding dropped inode_to_stat
dropped-stat n zero i size = refl
dropped-stat n (suc rounds) i size = dropped-stat (set_ptr n i (2 ^ 32 - 1)) rounds (i + 1) size

set_ptr-FitsInode : (n : Inode) (i x : ℕ) → x < 2 ^ 32 → FitsInode n → FitsInode (set_ptr n i x)
set_ptr-FitsInode n i x lt f = record {
  uid = f.uid;
  gid = f.gid;
  mode = f.mode;
  ctime = f.ctime;
  mtime = f.mtime;
  size = f.size;
  ptrs = λ j. ground (arith, f.ptrs j);
}

pub dropped-FitsInode : (n : Inode) (rounds i : ℕ) → FitsInode n → FitsInode (dropped n rounds i)
unfolding dropped
dropped-FitsInode n zero i f = f
dropped-FitsInode n (suc rounds) i f =
    dropped-FitsInode (set_ptr n i (2 ^ 32 - 1)) rounds (i + 1)
      (set_ptr-FitsInode n i (2 ^ 32 - 1) (omega arith) f)

pub dropped-mode : (n : Inode) (rounds i : ℕ) → (dropped n rounds i).mode ≡ n.mode
unfolding dropped
dropped-mode n zero i = refl
dropped-mode n (suc rounds) i = dropped-mode (set_ptr n i (2 ^ 32 - 1)) rounds (i + 1)

-- The pointers below stay.
pub dropped-ptrs_below :
    (n : Inode) (rounds i k : ℕ) → k < i → (dropped n rounds i).ptrs k ≡ n.ptrs k
unfolding dropped
dropped-ptrs_below n zero i k lt = refl
dropped-ptrs_below n (suc rounds) i k lt =
    dropped-ptrs_below (set_ptr n i (2 ^ 32 - 1)) rounds (i + 1) k (omega arith)
    ∙ rw (ne→== k i (omega arith)) refl
