-- ===== src/Content/Ptrs.antt =====
-- The block pointers of a file in homework.c, as a list.
use fuse_file_system.Prelude.{
  ℕ, zero, suc, ◌+◌, ◌≤◌, ◌≡◌, refl, List, [], ◌∷◌, arith, lt→leb, length,
}
use fuse_file_system.Layout.{Inode, ptr_count}
use fuse_file_system.State.{FsState, ok}
use fuse_file_system.Content.{collect_ptrs}

unfoldable pub ptr_list : Inode → (rounds i : ℕ) → List ℕ
ptr_list n zero i = []
ptr_list n (suc rounds) i = n.ptrs i ∷ ptr_list n rounds (i + 1)

pub collect_ptrs-ok :
    (n : Inode) (rounds i : ℕ) (s : FsState)
    → i + rounds ≤ ptr_count
    → collect_ptrs n rounds i s ≡ (ok (ptr_list n rounds i), s)
unfolding collect_ptrs ptr_list
collect_ptrs-ok n zero i s h = refl
collect_ptrs-ok n (suc rounds) i s h =
    rw (lt→leb ptr_count i (omega arith), collect_ptrs-ok n rounds (i + 1) s (omega arith))

pub length-ptr_list : (n : Inode) (rounds i : ℕ) → length (ptr_list n rounds i) ≡ rounds
unfolding ptr_list
length-ptr_list n zero i = refl
length-ptr_list n (suc rounds) i = omega (arith, length-ptr_list n rounds (i + 1))
