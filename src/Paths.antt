-- ===== src/Paths.antt =====
-- Paths of homework.c: splitting a path into names, and walking the directories along it.
pub mod Parse
pub mod Entries
pub mod Resolve
use fuse_file_system.Prelude.{
  ℕ, zero, suc, ◌+◌, ◌-◌, ◌/◌, ◌%◌, Bool, not, ◌&&◌, Option, none, some, List, [], ◌∷◌, leb, ◌==◌,
  if◌then◌else◌, length, take,
}
use fuse_file_system.Layout.{Dirent, Directory, Inode, decode_inode, decode_dir, max_dir_entries}
use fuse_file_system.State.{
  enoent, enotdir, Result, ok, err, fault, Action, ◌>>=◌, ◌>>◌, pure, fail, crash, fail_if,
}
use fuse_file_system.Disk.{block_read}

-- A C string: its bytes before the NUL.
abbrev pub CString : Type 0
CString = List ℕ

abbrev pub slash : ℕ
slash = 47

abbrev pub max_path_len : ℕ
max_path_len = 10

abbrev pub max_name_len : ℕ
max_name_len = 27

unfoldable pub skip_slashes : CString → CString
skip_slashes [] = []
skip_slashes (c ∷ cs) = if c == slash then skip_slashes cs else c ∷ cs

unfoldable pub until_slash : CString → CString
until_slash [] = []
until_slash (c ∷ cs) = if c == slash then [] else c ∷ until_slash cs

-- What stands behind the first slash.
unfoldable pub after_slash : CString → CString
after_slash [] = []
after_slash (c ∷ cs) = if c == slash then cs else after_slash cs

-- `strtok(s, "/")`: the token, and where the next call goes on.
unfoldable pub strtok : CString → Option (CString × CString)
strtok s = elim (skip_slashes s) [
  | [] ↦ none
  | c ∷ cs ↦ some (until_slash (c ∷ cs), after_slash (c ∷ cs))
]

-- The loop of `parse` with `rounds` entries of `argv` to fill.
unfoldable pub parse_loop : ℕ → CString → List CString
parse_loop zero s = []
parse_loop (suc rounds) s = elim (strtok s) [
  | none ↦ []
  | some (token, rest) ↦ take max_name_len token ∷ parse_loop rounds rest
]

unfoldable pub parse : CString → List CString
parse path = parse_loop max_path_len path

-- `argv[pathc - 1]`; with no token it is `argv[-1]`.
abbrev pub last_token : List CString → Action CString
last_token [] = crash
last_token (t ∷ []) = pure t
last_token (t ∷ u ∷ ts) = last_token (u ∷ ts)

-- `strcmp(name, token) == 0`, for the bytes at `name`.
unfoldable pub same_string : CString → (ℕ → ℕ) → Bool
same_string [] name = name 0 == 0
same_string (c ∷ cs) name = (name 0 == c) && same_string cs (λ k. name (suc k))

-- The first index from `i` on whose entry passes the test, among `rounds` entries.
unfoldable pub find_entry : (Dirent → Bool) → Directory → (rounds i : ℕ) → Option ℕ
find_entry test dir zero i = none
find_entry test dir (suc rounds) i =
    let rest = find_entry test dir rounds (i + 1) in if test (dir i) then some i else rest

unfoldable pub is_named : CString → Dirent → Bool
is_named token e = not (e.valid == 0) && same_string token e.name

-- `S_ISDIR` and `S_ISREG`: the type bits are 0o040000 and 0o100000.
abbrev pub is_dir : ℕ → Bool
is_dir mode = mode / 4096 % 16 == 4

abbrev pub is_reg : ℕ → Bool
is_reg mode = mode / 4096 % 16 == 8

-- The search of one directory block in `translate`.
unfoldable pub search_dir : CString → Directory → Action ℕ
search_dir token dir = elim (find_entry (is_named token) dir max_dir_entries 0) [
  | none ↦ fail enoent
  | some i ↦ pure (dir i).inode
]

-- The loop of `translate` over the tokens left.
unfoldable pub walk : List CString → ℕ → Action ℕ
walk [] inum = pure inum
walk (token ∷ tokens) inum = do
  b ← block_read inum
  fail_if (not (is_dir (decode_inode b).mode)) enotdir
  d ← block_read ((decode_inode b).ptrs 0)
  next ← search_dir token (decode_dir d)
  walk tokens next

abbrev pub root_inum : ℕ
root_inum = 2

unfoldable pub translate : List CString → ℕ → Action ℕ
translate argv depth =
    let pathc = length argv in
    let depth' = if leb depth pathc then depth else pathc in
    walk (take (pathc - depth') argv) root_inum

-- `free(inode)` on the error path of `path_to_inode` is given the address of the caller's variable.
abbrev pub no_error : {A : Type 0} → Result A → Result A
no_error (ok a) = ok a
no_error (err e) = fault
no_error fault = fault

abbrev pub or_crash : {A : Type 0} → Action A → Action A
or_crash m s = let (r, s') = m s in (no_error r, s')

unfoldable pub path_to_inode : CString → ℕ → Action (ℕ × Inode)
path_to_inode path depth = do
  inum ← translate (parse path) depth
  b ← or_crash (block_read inum)
  pure (inum, decode_inode b)
