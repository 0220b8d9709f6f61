-- ===== src/Atomicity/Reads.antt =====
-- The functions of homework.c that only read.
use fuse_file_system.Prelude.{
  ℕ, zero, suc, ◌+◌, ◌-◌, ◌/◌, ◌||◌, is_negative, ◌^◌, ◌≡◌, ◌∙◌, refl, not, Option, none, some,
  List, [], ◌∷◌, leb,
}
use fuse_file_system.Layout.{
  Block, Directory, Inode, decode_dir, max_dir_entries, block_size, zeros,
}
use fuse_file_system.State.{FsState, eisdir, enotdir, Result, ok, err, fault, Action, pure}
use native.Mathlib.Omega.{arith}
use fuse_file_system.Host.{Host}
use fuse_file_system.Disk.{block_read}
use fuse_file_system.Disk.Laws.{block_read-state}
use fuse_file_system.Paths.{
  CString, last_token, search_dir, is_dir, is_reg, walk, translate, parse, or_crash, path_to_inode,
}
use fuse_file_system.Bitmap.{find_first_nfree_blocks}
use fuse_file_system.Directory.{
  validate_directory_and_entry, find_free_dir_entry, find_index_in_dir, get_entry_name_from_path,
}
use fuse_file_system.Content.{get_ptr, set_ptr, collect_ptrs}
use fuse_file_system.Truncate.{drop_ptrs}
use fuse_file_system.Remove.{check_dir_empty}
use fuse_file_system.Rename.{file_dir, must_be_free, rename_entry}
use fuse_file_system.Attributes.{fs_getattr}
use fuse_file_system.Listing.{fill_loop, list_block, fs_readdir}
use fuse_file_system.Read.{read_blocks, rounds_to, last_block, read_range, fs_read}
use fuse_file_system.Mount.{fs_statfs}
use fuse_file_system.Atomicity.{
  ReadOnly, ReadOnly-bind, ReadOnly-pure, ReadOnly-fail_if, ReadOnly-crash_if, ReadOnly-if,
}

pub block_read-ReadOnly : (lba : ℕ) → ReadOnly (block_read lba)
block_read-ReadOnly lba = record { same = block_read-state lba }

last_token-ReadOnly : (ts : List CString) → ReadOnly (last_token ts)
last_token-ReadOnly [] = record { same = λ s. refl }
last_token-ReadOnly (t ∷ []) = record { same = λ s. refl }
last_token-ReadOnly (t ∷ u ∷ ts) = last_token-ReadOnly (u ∷ ts)

search_dir-ReadOnly : (token : CString) (dir : Directory) → ReadOnly (search_dir token dir)
unfolding search_dir
search_dir-ReadOnly token dir = record { same = λ s. ground arith }

walk-ReadOnly : (tokens : List CString) (inum : ℕ) → ReadOnly (walk tokens inum)
unfolding walk
walk-ReadOnly [] inum = record { same = λ s. refl }
walk-ReadOnly (t ∷ ts) inum = ReadOnly-bind _ _ (block_read-ReadOnly inum) λ b.
    ReadOnly-bind _ _ (ReadOnly-fail_if _ _) λ _.
      ReadOnly-bind _ _ (block_read-ReadOnly _)
        λ d. ReadOnly-bind _ _ (search_dir-ReadOnly t _) λ next. walk-ReadOnly ts next

or_crash-ReadOnly : {A : Type 0} (m : Action A) → ReadOnly m → ReadOnly (or_crash m)
or_crash-ReadOnly m h = record { same = λ s. h.same s }

pub path_to_inode-ReadOnly : (path : CString) (depth : ℕ) → ReadOnly (path_to_inode path depth)
unfolding path_to_inode translate
path_to_inode-ReadOnly path depth = ReadOnly-bind _ _ (walk-ReadOnly _ _) λ inum.
    ReadOnly-bind _ _ (or_crash-ReadOnly (block_read inum) (block_read-ReadOnly inum))
      λ b. ReadOnly-pure _

pub validate-ReadOnly :
    (path : CString) (n : Inode) → ReadOnly (validate_directory_and_entry path n)
unfolding validate_directory_and_entry
validate-ReadOnly path n = ReadOnly-bind _ _ (ReadOnly-fail_if _ _) λ _.
    ReadOnly-bind _ _ (block_read-ReadOnly _) λ d.
      ReadOnly-bind _ _ (last_token-ReadOnly (parse path))
        λ t. ReadOnly-bind _ _ (ReadOnly-fail_if _ _) λ _. ReadOnly-pure _

pub find_free_dir_entry-ReadOnly : (dir : Directory) (i : ℕ) → ReadOnly (find_free_dir_entry dir i)
unfolding find_free_dir_entry
find_free_dir_entry-ReadOnly dir i = record { same = λ s. ground arith }

pub find_index_in_dir-ReadOnly :
    (t : CString) (dir : Directory) → ReadOnly (find_index_in_dir t dir)
unfolding find_index_in_dir
find_index_in_dir-ReadOnly t dir = record { same = λ s. ground arith }

pub find_first_nfree_blocks-ReadOnly : (i n : ℕ) → ReadOnly (find_first_nfree_blocks i n)
unfolding find_first_nfree_blocks
find_first_nfree_blocks-ReadOnly i n = record { same = λ s. refl }

pub get_entry_name-ReadOnly : (path : CString) → ReadOnly (get_entry_name_from_path path)
unfolding get_entry_name_from_path
get_entry_name-ReadOnly path =
    ReadOnly-bind _ _ (last_token-ReadOnly (parse path))
      λ t. ReadOnly-bind _ _ (ReadOnly-crash_if _) λ _. ReadOnly-pure _

pub last_token_of-ReadOnly : (ts : List CString) → ReadOnly (last_token ts)
last_token_of-ReadOnly ts = last_token-ReadOnly ts

get_ptr-ReadOnly : (n : Inode) (i : ℕ) → ReadOnly (get_ptr n i)
get_ptr-ReadOnly n i = ReadOnly-bind _ _ (ReadOnly-crash_if _) λ _. ReadOnly-pure _

pub collect_ptrs-ReadOnly : (n : Inode) (rounds i : ℕ) → ReadOnly (collect_ptrs n rounds i)
unfolding collect_ptrs
collect_ptrs-ReadOnly n zero i = ReadOnly-pure _
collect_ptrs-ReadOnly n (suc rounds) i =
    ReadOnly-bind _ _ (get_ptr-ReadOnly n i)
      λ p. ReadOnly-bind _ _ (collect_ptrs-ReadOnly n rounds (i + 1)) λ ps. ReadOnly-pure _

pub drop_ptrs-ReadOnly : (rounds : ℕ) (n : Inode) (i : ℕ) → ReadOnly (drop_ptrs n rounds i)
unfolding drop_ptrs
drop_ptrs-ReadOnly zero n i = ReadOnly-pure _
drop_ptrs-ReadOnly (suc rounds) n i = ReadOnly-bind _ _ (get_ptr-ReadOnly n i) λ p.
    ReadOnly-bind _ _ (drop_ptrs-ReadOnly rounds (set_ptr n i (2 ^ 32 - 1)) (i + 1))
      λ ps. ReadOnly-pure _

pub check_dir_empty-ReadOnly : (path : CString) → ReadOnly (check_dir_empty path)
unfolding check_dir_empty
check_dir_empty-ReadOnly path = ReadOnly-bind _ _ (path_to_inode-ReadOnly path 0) λ found.
    ReadOnly-bind _ _ (ReadOnly-fail_if _ _) λ _. ReadOnly-bind _ _ (block_read-ReadOnly _) λ d.
      ReadOnly-bind _ _ (find_free_dir_entry-ReadOnly _ 0)
        λ i. ReadOnly-bind _ _ (ReadOnly-fail_if _ _) λ _. ReadOnly-pure _

pub file_dir-ReadOnly : (path : CString) → ReadOnly (file_dir path)
unfolding file_dir
file_dir-ReadOnly path = ReadOnly-bind _ _ (path_to_inode-ReadOnly path 1) λ found.
    ReadOnly-bind _ _ (ReadOnly-fail_if _ _) λ _.
      ReadOnly-bind _ _ (block_read-ReadOnly _)
        λ d. ReadOnly-bind _ _ (last_token-ReadOnly (parse path)) λ t. ReadOnly-pure _

pub must_be_free-ReadOnly : (path : CString) → ReadOnly (must_be_free path)
unfolding must_be_free
must_be_free-ReadOnly path = record {
  same = λ s. ground (arith, (path_to_inode-ReadOnly path 0).same s);
}

pub rename_entry-ReadOnly :
    (dir : Directory) (o : Option ℕ) (t : CString) → ReadOnly (rename_entry dir o t)
unfolding rename_entry
rename_entry-ReadOnly dir none t = record { same = λ s. refl }
rename_entry-ReadOnly dir (some i) t = ReadOnly-pure _

-- `fs_getattr` changes nothing.
pub fs_getattr-ReadOnly : (path : CString) → ReadOnly (fs_getattr path)
unfolding fs_getattr
fs_getattr-ReadOnly path =
    ReadOnly-bind _ _ (path_to_inode-ReadOnly path 0) λ found. ReadOnly-pure _

fill_loop-ReadOnly :
    (dir : Directory) (offset rounds i : ℕ) → ReadOnly (fill_loop dir offset rounds i)
unfolding fill_loop
fill_loop-ReadOnly dir offset zero i = ReadOnly-pure _
fill_loop-ReadOnly dir offset (suc rounds) i =
    ReadOnly-if _ _ _ (fill_loop-ReadOnly dir offset rounds (i + 1)) (
      ReadOnly-bind _ _ (block_read-ReadOnly _) λ b.
        ReadOnly-bind _ _ (fill_loop-ReadOnly dir offset rounds (i + 1)) λ rest. ReadOnly-pure _)

list_block-state :
    (offset : ℕ) (r : Result Block) (s1 s : FsState) → s1 ≡ s → (list_block offset (r, s1)).1 ≡ s
list_block-state offset (ok d) s1 s e =
    (ReadOnly-bind _ (λ entries. pure (0, entries))
        (fill_loop-ReadOnly (decode_dir d) offset max_dir_entries 0)
        λ entries. ReadOnly-pure _).same
      s1
    ∙ e
list_block-state offset (err x) s1 s e = e
list_block-state offset fault s1 s e = e

list_block-ReadOnly : (offset lba : ℕ) → ReadOnly (λ s. list_block offset (block_read lba s))
list_block-ReadOnly offset lba = record {
  same = λ s.
      list_block-state offset (block_read lba s).0 (block_read lba s).1 s (block_read-state lba s);
}

-- `fs_readdir` changes nothing.
pub fs_readdir-ReadOnly : (path : CString) (offset : ℕ) → ReadOnly (fs_readdir path offset)
unfolding fs_readdir
fs_readdir-ReadOnly path offset = ReadOnly-bind _ _ (path_to_inode-ReadOnly path 0) λ (inum, n).
    ReadOnly-bind _ _ (ReadOnly-fail_if (not (is_dir n.mode)) enotdir)
      λ _. list_block-ReadOnly offset (n.ptrs 0)

read_blocks-ReadOnly : (n : Inode) (rounds i : ℕ) → ReadOnly (read_blocks n rounds i)
unfolding read_blocks
read_blocks-ReadOnly n zero i = ReadOnly-pure _
read_blocks-ReadOnly n (suc rounds) i = ReadOnly-bind _ _ (get_ptr-ReadOnly n i) λ p.
    ReadOnly-bind _ _ (block_read-ReadOnly p)
      λ b. ReadOnly-bind _ _ (read_blocks-ReadOnly n rounds (i + 1)) λ bs. ReadOnly-pure _

read_range-ReadOnly :
    (host : Host) (n : Inode) (len offset : ℕ) → ReadOnly (read_range host n len offset)
unfolding read_range
read_range-ReadOnly host n len offset = ReadOnly-bind _ _ (ReadOnly-fail_if _ _) λ _.
    ReadOnly-bind _ _
      (read_blocks-ReadOnly n (rounds_to (offset / block_size) (last_block n len offset)) _)
      λ bs. ReadOnly-bind _ _ (ReadOnly-crash_if _) λ _. ReadOnly-pure _

-- `fs_read` changes nothing.
pub fs_read-ReadOnly :
    (host : Host) (path : CString) (len offset : ℕ) → ReadOnly (fs_read host path len offset)
unfolding fs_read
fs_read-ReadOnly host path len offset =
    ReadOnly-bind _ _ (path_to_inode-ReadOnly path 0) λ (inum, n).
      ReadOnly-bind _ _ (ReadOnly-fail_if (not (is_reg n.mode)) eisdir) λ _.
        ReadOnly-if (is_negative n.size || leb n.size offset) _ _ (ReadOnly-pure (0, zeros))
          (read_range-ReadOnly host n len offset)

pub fs_statfs-ReadOnly : (path : CString) → ReadOnly (fs_statfs path)
unfolding fs_statfs
fs_statfs-ReadOnly path = record { same = λ s. refl }
