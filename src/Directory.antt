-- ===== src/Directory.antt =====
-- Directory blocks and free space of homework.c: the helpers that the operations share.
pub mod Place
use fuse_file_system.Prelude.{
  ℕ, ◌-◌, ◌%◌, ◌^◌, Bool, true, false, not, Option, none, some, ◌==◌, ltb, if◌then◌else◌, length,
  get_or, take,
}
use fuse_file_system.Layout.{Dirent, Directory, Inode, decode_dir, max_dir_entries}
use fuse_file_system.State.{
  enoent, eexist, enotdir, enospc, Action, ◌>>=◌, ◌>>◌, pure, fail, fail_if, crash_if,
}
use fuse_file_system.Host.{Host}
use fuse_file_system.Disk.{block_read}
use fuse_file_system.Paths.{CString, max_name_len, parse, last_token, find_entry, is_named, is_dir}

abbrev pub is_some {ℓ} : {A : Type ℓ} → Option A → Bool
is_some none = false
is_some (some a) = true

abbrev pub is_free : Dirent → Bool
is_free e = e.valid == 0

unfoldable pub validate_directory_and_entry : CString → Inode → Action Directory
validate_directory_and_entry path dir_inode = do
  fail_if (not (is_dir dir_inode.mode)) enotdir
  d ← block_read (dir_inode.ptrs 0)
  filename ← last_token (parse path)
  fail_if (is_some (find_entry (is_named filename) (decode_dir d) max_dir_entries 0)) eexist
  pure (decode_dir d)

unfoldable pub find_free_dir_entry : Directory → ℕ → Action ℕ
find_free_dir_entry dir start = elim (find_entry is_free dir (max_dir_entries - start) start) [
  | none ↦ fail enospc
  | some i ↦ pure i
]

unfoldable pub find_index_in_dir : CString → Directory → Action ℕ
find_index_in_dir filename dir = elim (find_entry (is_named filename) dir max_dir_entries 0) [
  | none ↦ fail enoent
  | some i ↦ pure i
]

unfoldable pub inode_from_mode : Host → ℕ → Inode
inode_from_mode host mode = record {
  uid = host.uid % 2 ^ 16;
  gid = host.gid % 2 ^ 16;
  mode = mode;
  ctime = host.time 0 % 2 ^ 32;
  mtime = host.time 1 % 2 ^ 32;
  size = if is_dir mode then 4096 else 0;
  ptrs = λ i. 0;
}

-- A longer token makes it return `NULL`, which its callers read.
unfoldable pub get_entry_name_from_path : CString → Action CString
get_entry_name_from_path path = do
  token ← last_token (parse path)
  crash_if (ltb max_name_len (length token))
  pure (take max_name_len token)

-- `strncpy(name, token, MAX_NAME_LEN)`: the last byte of `name` stays.
abbrev pub copy_name : (ℕ → ℕ) → CString → ℕ → ℕ
copy_name name token k = if ltb k max_name_len then get_or token k 0 else name k

abbrev pub set_entry : Directory → ℕ → Dirent → Directory
set_entry dir i e j = if j == i then e else dir j
