-- ===== src/Atomicity/Operations.antt =====
-- The operations of homework.c that write: an error that they return after the first write is EIO, or
-- in `fs_write` ENOMEM; any other has changed nothing.
use fuse_file_system.Prelude.{
  ℕ, ◌+◌, ◌%◌, ◌^◌, ◌≡◌, Bool, true, false, not, List, [], ◌∷◌, ◌++◌, ◌==◌, leb, if◌then◌else◌,
  get_or, is_negative, to_int, lt_int, sub_int, length, arith,
}
use fuse_file_system.Layout.{Block, Directory, encode_inode, encode_dir, zeros}
use fuse_file_system.State.{
  FsState, Errno, eio, eisdir, einval, other, Action, pure, modify, crash_if,
}
use fuse_file_system.Host.{Host}
use fuse_file_system.Disk.{block_write}
use fuse_file_system.Bitmap.{set_bit, modify_loop, modify_bitmap_and_writeback_to_disk}
use fuse_file_system.Paths.{CString, is_reg, parse, last_token}
use fuse_file_system.Content.{file_blocks}
use fuse_file_system.Directory.{get_entry_name_from_path}
use fuse_file_system.Create.{take_blocks, create_entry, create_directory_entry, fs_create, fs_mkdir}
use fuse_file_system.Remove.{give_blocks, unlink_directory_entry, fs_unlink, fs_rmdir}
use fuse_file_system.Rename.{same_parent, fs_rename}
use fuse_file_system.Attributes.{with_permissions, fs_chmod, fs_utime}
use fuse_file_system.Truncate.{target_blocks, fs_truncate}
use fuse_file_system.Atomicity.{
  Atomic, FailsLate, Atomic-bind, Atomic-bind_late, FailsLate-bind, FailsLate-Atomic,
  ReadOnly-fail_if, ReadOnly-crash_if,
}
use fuse_file_system.Atomicity.Reads.{
  block_read-ReadOnly, path_to_inode-ReadOnly, validate-ReadOnly, find_free_dir_entry-ReadOnly,
  find_index_in_dir-ReadOnly, find_first_nfree_blocks-ReadOnly, get_entry_name-ReadOnly,
  last_token_of-ReadOnly, collect_ptrs-ReadOnly, drop_ptrs-ReadOnly, check_dir_empty-ReadOnly,
  file_dir-ReadOnly, must_be_free-ReadOnly, rename_entry-ReadOnly,
}

abbrev pub IsEio : Errno → Type 0
IsEio e = e ≡ eio

pub FailsLate-pure : {A : Type 0} (a : A) → FailsLate IsEio (pure a)
FailsLate-pure a = record { late = λ s. tt }

pub FailsLate-modify : (f : FsState → FsState) → FailsLate IsEio (modify f)
FailsLate-modify f = record { late = λ s. tt }

pub FailsLate-crash_if : (b : Bool) → FailsLate IsEio (crash_if b)
FailsLate-crash_if true = record { late = λ s. tt }
FailsLate-crash_if false = record { late = λ s. tt }

FailsLate-if :
    {A : Type 0} (b : Bool) (m n : Action A)
    → FailsLate IsEio m
    → FailsLate IsEio n
    → FailsLate IsEio (if b then m else n)
FailsLate-if true m n hm hn = hm
FailsLate-if false m n hm hn = hn

pub block_write-FailsLate : (b : Block) (lba : ℕ) → FailsLate IsEio (block_write b lba)
unfolding block_write
block_write-FailsLate b lba = record { late = λ s. ground arith }

modify_loop-FailsLate : (flag : Bool) (is : List ℕ) → FailsLate IsEio (modify_loop flag is)
unfolding modify_loop
modify_loop-FailsLate flag [] = FailsLate-pure tt
modify_loop-FailsLate flag (i ∷ is) =
    FailsLate-bind _ _ _ (FailsLate-crash_if _) λ _.
      FailsLate-bind _ _ _ (FailsLate-modify (set_bit flag i)) λ _. modify_loop-FailsLate flag is

write_bitmap-FailsLate : FailsLate IsEio (λ s. block_write s.bitmap 1 s)
write_bitmap-FailsLate = record { late = λ s. (block_write-FailsLate s.bitmap 1).late s }

pub modify_bitmap-FailsLate :
    (is : List ℕ) (flag : Bool) → FailsLate IsEio (modify_bitmap_and_writeback_to_disk is flag)
unfolding modify_bitmap_and_writeback_to_disk
modify_bitmap-FailsLate is flag =
    FailsLate-bind _ _ _ (modify_loop-FailsLate flag is) λ _. write_bitmap-FailsLate

last_token-FailsLate : (ts : List CString) → FailsLate IsEio (last_token ts)
last_token-FailsLate [] = record { late = λ s. tt }
last_token-FailsLate (t ∷ []) = record { late = λ s. tt }
last_token-FailsLate (t ∷ u ∷ ts) = last_token-FailsLate (u ∷ ts)

-- The name of the new file is read between two writes, and never fails with an error.
get_entry_name-FailsLate : (path : CString) → FailsLate IsEio (get_entry_name_from_path path)
unfolding get_entry_name_from_path
get_entry_name-FailsLate path =
    FailsLate-bind _ _ _ (last_token-FailsLate (parse path))
      λ t. FailsLate-bind _ _ _ (FailsLate-crash_if _) λ _. FailsLate-pure _

create_entry-FailsLate :
    (host : Host) (path : CString) (mode : ℕ) (dirflag : Bool) (d : ℕ) (dir : Directory) (slot : ℕ)
    (blocks : List ℕ)
    → FailsLate IsEio (create_entry host path mode dirflag d dir slot blocks)
unfolding create_entry
create_entry-FailsLate host path mode dirflag d dir slot blocks =
    FailsLate-bind _ _ _ (block_write-FailsLate _ _) λ _.
      FailsLate-bind _ _ _ (get_entry_name-FailsLate path) λ t.
        FailsLate-bind _ _ _ (block_write-FailsLate _ _) λ _.
          FailsLate-bind _ _ _
            (FailsLate-if dirflag _ _ (block_write-FailsLate zeros (get_or blocks 1 0))
              (FailsLate-pure tt))
            λ _.
              FailsLate-bind _ _ _ (FailsLate-modify (take_blocks (if dirflag then 2 else 1)))
                λ _. modify_bitmap-FailsLate blocks true

create-Atomic :
    (host : Host) (path : CString) (mode : ℕ) (dirflag : Bool)
    → Atomic IsEio (create_directory_entry host path mode dirflag)
unfolding create_directory_entry
create-Atomic host path mode dirflag = Atomic-bind _ _ _ (path_to_inode-ReadOnly path 1) λ (p, n).
    Atomic-bind _ _ _ (validate-ReadOnly path n) λ dir.
      Atomic-bind _ _ _ (find_free_dir_entry-ReadOnly dir 0) λ slot.
        Atomic-bind _ _ _ (find_first_nfree_blocks-ReadOnly 0 (if dirflag then 2 else 1)) λ blocks.
          FailsLate-Atomic _ _
            (create_entry-FailsLate host path mode dirflag (n.ptrs 0) dir slot blocks)

pub fs_create-Atomic :
    (host : Host) (path : CString) (mode : ℕ) → Atomic IsEio (fs_create host path mode)
unfolding fs_create
fs_create-Atomic host path mode = create-Atomic host path mode false

pub fs_mkdir-Atomic :
    (host : Host) (path : CString) (mode : ℕ) → Atomic IsEio (fs_mkdir host path mode)
unfolding fs_mkdir
fs_mkdir-Atomic host path mode = create-Atomic host path mode true

pub fs_chmod-Atomic : (path : CString) (mode : ℕ) → Atomic IsEio (fs_chmod path mode)
unfolding fs_chmod
fs_chmod-Atomic path mode = Atomic-bind _ _ _ (path_to_inode-ReadOnly path 0) λ (i, n).
    FailsLate-Atomic _ _
      (block_write-FailsLate (encode_inode (record n { mode = with_permissions n.mode mode })) i)

pub fs_utime-Atomic : (path : CString) (modtime : ℕ) → Atomic IsEio (fs_utime path modtime)
unfolding fs_utime
fs_utime-Atomic path modtime = Atomic-bind _ _ _ (path_to_inode-ReadOnly path 0) λ (i, n).
    Atomic-bind _ _ _ (ReadOnly-fail_if (not (is_reg n.mode)) eisdir) λ _.
      FailsLate-Atomic _ _
        (block_write-FailsLate (encode_inode (record n { mtime = modtime % 2 ^ 32 })) i)

pub fs_rename-Atomic : (src dst : CString) → Atomic IsEio (fs_rename src dst)
unfolding fs_rename
fs_rename-Atomic src dst = Atomic-bind _ _ _ (path_to_inode-ReadOnly src 0) λ _.
    Atomic-bind _ _ _ (must_be_free-ReadOnly dst) λ _.
      Atomic-bind _ _ _ (ReadOnly-fail_if (not (length (parse dst) == length (parse src))) einval)
        λ _.
          Atomic-bind _ _ _ (ReadOnly-fail_if (not (same_parent (parse src) (parse dst))) einval)
            λ _. Atomic-bind _ _ _ (file_dir-ReadOnly src) λ (dir, entry, lba).
              Atomic-bind _ _ _ (ReadOnly-fail_if (is_negative lba) (other lba)) λ _.
                Atomic-bind _ _ _ (last_token_of-ReadOnly (parse dst)) λ name.
                  Atomic-bind _ _ _ (rename_entry-ReadOnly dir entry name)
                    λ dir'. FailsLate-Atomic _ _ (block_write-FailsLate (encode_dir dir') lba)

-- The reads of the second walk fail before anything is written.
unlink_entry-Atomic : (path : CString) → Atomic IsEio (unlink_directory_entry path)
unfolding unlink_directory_entry
unlink_entry-Atomic path = Atomic-bind _ _ _ (path_to_inode-ReadOnly path 1) λ (p, n).
    Atomic-bind _ _ _ (block_read-ReadOnly (n.ptrs 0)) λ d.
      Atomic-bind _ _ _ (get_entry_name-ReadOnly path) λ t.
        Atomic-bind _ _ _ (find_index_in_dir-ReadOnly t _)
          λ i. FailsLate-Atomic _ _ (block_write-FailsLate _ (n.ptrs 0))

pub fs_unlink-Atomic : (path : CString) → Atomic IsEio (fs_unlink path)
unfolding fs_unlink
fs_unlink-Atomic path = Atomic-bind _ _ _ (path_to_inode-ReadOnly path 0) λ (i, n).
    Atomic-bind _ _ _ (ReadOnly-crash_if (is_negative (file_blocks n.size))) λ _.
      Atomic-bind _ _ _ (collect_ptrs-ReadOnly n (file_blocks n.size) 0) λ ptrs.
        Atomic-bind_late _ _ _ (unlink_entry-Atomic path) λ _.
          FailsLate-bind _ _ _ (modify_bitmap-FailsLate (ptrs ++ i ∷ []) false)
            λ _. FailsLate-modify (give_blocks (file_blocks n.size + 1))

pub fs_rmdir-Atomic : (path : CString) → Atomic IsEio (fs_rmdir path)
unfolding fs_rmdir
fs_rmdir-Atomic path = Atomic-bind _ _ _ (check_dir_empty-ReadOnly path) λ (i, b).
    Atomic-bind_late _ _ _ (unlink_entry-Atomic path) λ _.
      FailsLate-bind _ _ _ (modify_bitmap-FailsLate (i ∷ b ∷ []) false)
        λ _. FailsLate-modify (give_blocks 2)

pub fs_truncate-Atomic : (path : CString) (len : ℕ) → Atomic IsEio (fs_truncate path len)
unfolding fs_truncate
fs_truncate-Atomic path len = Atomic-bind _ _ _ (ReadOnly-fail_if (leb (2 ^ 63) len) einval) λ _.
    Atomic-bind _ _ _ (path_to_inode-ReadOnly path 0) λ (i, n).
      Atomic-bind _ _ _ (ReadOnly-fail_if (not (is_reg n.mode)) eisdir) λ _.
        Atomic-bind _ _ _
          (ReadOnly-fail_if (lt_int (file_blocks n.size) (target_blocks len)) einval)
          λ _. Atomic-bind _ _ _ (drop_ptrs-ReadOnly _ n (target_blocks len)) λ (removed, n').
            FailsLate-Atomic _ _ (
              FailsLate-bind _ _ _
                (block_write-FailsLate (encode_inode (record n' { size = to_int len })) i)
                λ _. FailsLate-bind _ _ _ (modify_bitmap-FailsLate removed false) λ _.
                  FailsLate-modify (give_blocks (sub_int (file_blocks n.size) (target_blocks len))))
