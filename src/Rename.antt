-- ===== src/Rename.antt =====
-- `fs_rename` of homework.c.
pub mod Names
pub mod Success
pub mod Lookup
use fuse_file_system.Prelude.{
  ℕ, Bool, true, false, not, ◌&&◌, ◌==◌, Option, none, some, List, [], ◌∷◌, length, is_negative,
}
use fuse_file_system.Layout.{Inode, Directory, decode_dir, encode_dir, max_dir_entries}
use fuse_file_system.State.{
  FsState, Result, eexist, enotdir, einval, other, ok, err, fault, Action, ◌>>=◌, ◌>>◌, pure, crash,
  fail_if,
}
use fuse_file_system.Disk.{block_read, block_write}
use fuse_file_system.Paths.{CString, parse, last_token, find_entry, is_named, is_dir, path_to_inode}
use fuse_file_system.Directory.{copy_name, set_entry}

-- `strcmp(s, t) == 0`
abbrev pub same_token : CString → CString → Bool
same_token [] [] = true
same_token [] (d ∷ t) = false
same_token (c ∷ s) [] = false
same_token (c ∷ s) (d ∷ t) = (c == d) && same_token s t

-- The two paths agree in every token but the last.
unfoldable pub same_parent : List CString → List CString → Bool
same_parent (s ∷ s' ∷ ss) (t ∷ t' ∷ ts) = same_token s t && same_parent (s' ∷ ss) (t' ∷ ts)
same_parent _ _ = true

-- The block, its number and the index of the entry. The test for a missing entry looks at the
-- caller's pointer, which is never `NULL`, so a search that finds nothing is not an error here. A
-- block number from 2^31 on is a negative `int`, which the caller takes for an error.
unfoldable pub file_dir : CString → Action (Directory × Option ℕ × ℕ)
file_dir path = do
  (dir_inum, dir_inode) ← path_to_inode path 1
  fail_if (not (is_dir dir_inode.mode)) enotdir
  d ← block_read (dir_inode.ptrs 0)
  filename ← last_token (parse path)
  pure (
    decode_dir d,
    find_entry (is_named filename) (decode_dir d) max_dir_entries 0,
    dir_inode.ptrs 0,
  )

-- `path_to_inode(dst_path, …) >= 0` is refused; every error counts as a free name.
abbrev pub refuse_found : Result (ℕ × Inode) × FsState → Result (Unit {0}) × FsState
refuse_found (ok found, s) = (err eexist, s)
refuse_found (err e, s) = (ok tt, s)
refuse_found (fault, s) = (fault, s)

unfoldable pub must_be_free : CString → Action (Unit {0})
must_be_free path s = refuse_found (path_to_inode path 0 s)

-- `memset` and `strncpy` through the entry that was found, or through `NULL`.
unfoldable pub rename_entry : Directory → Option ℕ → CString → Action Directory
rename_entry dir none name = crash
rename_entry dir (some i) name =
    pure (set_entry dir i (record (dir i) { name = copy_name (λ k. 0) name }))

unfoldable pub fs_rename : (src dst : CString) → Action (Unit {0})
fs_rename src dst = do
  (src_inum, src_inode) ← path_to_inode src 0
  must_be_free dst
  fail_if (not (length (parse dst) == length (parse src))) einval
  fail_if (not (same_parent (parse src) (parse dst))) einval
  (dir, entry, lba) ← file_dir src
  fail_if (is_negative lba) (other lba)
  name ← last_token (parse dst)
  dir' ← rename_entry dir entry name
  block_write (encode_dir dir') lba
