-- ===== src/Paths/Resolve.antt =====
-- What `translate` and `path_to_inode` find, against a relation on the disk.
use fuse_file_system.Prelude.{
  ℕ, ◌+◌, ◌-◌, ◌<◌, ◌≡◌, refl, ap, true, false, List, [], ◌∷◌, ◌++◌, arith, le→leb, length, take,
  length-append,
}
use fuse_file_system.Layout.{Block, decode_inode, decode_dir, max_dir_entries}
use fuse_file_system.State.{FsState, Errno, ok, err, enoent}
use fuse_file_system.Disk.{block_read}
use fuse_file_system.Paths.{
  CString, is_named, is_dir, search_dir, walk, root_inum, translate, parse, path_to_inode,
}
use fuse_file_system.Paths.Entries.{First, First-find_entry, find_entry-none}

-- A block that can be read, and what it holds.
abbrev pub Reads : FsState → ℕ → Block → Type 0
Reads s lba b = block_read lba s ≡ (ok b, s)

-- Directory `i` has a first entry of that name, entry `k`, in its block `d`. Both blocks that are
-- read pass `P`.
pub record Lookup (s : FsState) (P : ℕ → Type 0) (i : ℕ) (token : CString) (j : ℕ) : Type 0 where
  pub inode_block : Block
  pub entries : Block
  pub place : ℕ
  pub reads_inode : Reads s i inode_block
  pub directory : is_dir (decode_inode inode_block).mode ≡ true
  pub reads_entries : Reads s ((decode_inode inode_block).ptrs 0) entries
  pub first : First (is_named token) (decode_dir entries) max_dir_entries 0 place
  pub leads_to : (decode_dir entries place).inode ≡ j
  pub passes : P i × P ((decode_inode inode_block).ptrs 0)

-- No condition on the blocks that are read.
abbrev pub Anything : ℕ → Type 0
Anything lba = Unit {0}

-- From inode `i` the names lead to inode `j`.
pub data Resolves (s : FsState) (P : ℕ → Type 0) : List CString → ℕ → ℕ → Type 0 where
  here : {i : ℕ} → Resolves s P [] i i
  next :
      {token : CString} {tokens : List CString} {i j k : ℕ}
      → Lookup s P i token j
      → Resolves s P tokens j k
      → Resolves s P (token ∷ tokens) i k

module _ (s : FsState) (P : ℕ → Type 0) where
  search-Lookup :
      {i j : ℕ} {token : CString} (l : Lookup s P i token j)
      → search_dir token (decode_dir l.entries) s ≡ (ok j, s)
  unfolding search_dir
  search-Lookup {token} l = rw (
    First-find_entry (is_named token) (decode_dir l.entries) max_dir_entries 0 l.place l.first,
    l.leads_to,
    search_dir,
  )

  -- The walk of translate returns the inode to which the names lead, each by the first entry of
  -- that name in a directory, and changes nothing.
  pub walk-Resolves :
      {tokens : List CString} {i j : ℕ} → Resolves s P tokens i j → walk tokens i s ≡ (ok j, s)
  unfolding walk
  walk-Resolves here = refl
  walk-Resolves (next l r) =
      rw (l.reads_inode, l.directory, l.reads_entries, search-Lookup l) (walk-Resolves r)

  walk-append :
      {tokens : List CString} {i j : ℕ} (more : List CString)
      → Resolves s P tokens i j
      → walk (tokens ++ more) i s ≡ walk more j s
  unfolding walk
  walk-append more here = refl
  walk-append more (next l r) =
      rw (l.reads_inode, l.directory, l.reads_entries, search-Lookup l) (walk-append more r)

  -- The state after a write of blocks that the walk does not read.
  pub Resolves-frame :
      (s' : FsState) {tokens : List CString} {i j : ℕ}
      → ((lba : ℕ) (b : Block) → P lba → Reads s lba b → Reads s' lba b)
      → Resolves s P tokens i j
      → Resolves s' P tokens i j
  Resolves-frame s' same here = here
  Resolves-frame s' same (next l r) =
      next
        (record {
          inode_block = l.inode_block;
          entries = l.entries;
          place = l.place;
          reads_inode = same _ _ l.passes.0 l.reads_inode;
          directory = l.directory;
          reads_entries = same _ _ l.passes.1 l.reads_entries;
          first = l.first;
          leads_to = l.leads_to;
          passes = l.passes;
        })
        (Resolves-frame s' same r)

  pub Resolves-mono :
      (Q : ℕ → Type 0) {tokens : List CString} {i j : ℕ}
      → ((lba : ℕ) → P lba → Q lba)
      → Resolves s P tokens i j
      → Resolves s Q tokens i j
  Resolves-mono Q weaken here = here
  Resolves-mono Q weaken (next l r) =
      next
        (record {
          inode_block = l.inode_block;
          entries = l.entries;
          place = l.place;
          reads_inode = l.reads_inode;
          directory = l.directory;
          reads_entries = l.reads_entries;
          first = l.first;
          leads_to = l.leads_to;
          passes = (weaken _ l.passes.0, weaken _ l.passes.1);
        })
        (Resolves-mono Q weaken r)

  pub Resolves-append :
      {tokens more : List CString} {i j k : ℕ}
      → Resolves s P tokens i j
      → Resolves s P more j k
      → Resolves s P (tokens ++ more) i k
  Resolves-append here q = q
  Resolves-append (next l r) q = next l (Resolves-append r q)

take-length : (ts : List CString) → take (length ts) ts ≡ ts
take-length [] = refl
take-length (t ∷ ts) = ap (λ l. t ∷ l) (take-length ts)

take-length_append : (ts us : List CString) → take (length ts) (ts ++ us) ≡ ts
take-length_append [] us = refl
take-length_append (t ∷ ts) us = ap (λ l. t ∷ l) (take-length_append ts us)

translate_whole : (argv : List CString) → translate argv 0 ≡ walk argv root_inum
unfolding translate
translate_whole argv =
    let e : length argv - 0 ≡ length argv = omega arith in
    rw (le→leb 0 (length argv) (omega arith), e, take-length argv)

translate_parent :
    (ts : List CString) (t : CString) → translate (ts ++ t ∷ []) 1 ≡ walk ts root_inum
unfolding translate
translate_parent ts t =
    let e : length (ts ++ t ∷ []) ≡ length ts + 1 = omega (arith, length-append ts (t ∷ [])) in
    let e' : length ts + 1 - 1 ≡ length ts = omega arith in
    rw (e, le→leb 1 (length ts + 1) (omega arith), e', take-length_append ts (t ∷ []))

module _ {s : FsState} {P : ℕ → Type 0} {j : ℕ} {b : Block} where
  pub path_to_inode_whole :
      (path : CString)
      → Resolves s P (parse path) root_inum j
      → Reads s j b
      → path_to_inode path 0 s ≡ (ok (j, decode_inode b), s)
  unfolding path_to_inode
  path_to_inode_whole path r h = rw (translate_whole (parse path), walk-Resolves s P r, h)

  pub path_to_inode_parent :
      (path : CString) (ts : List CString) (t : CString)
      → parse path ≡ ts ++ t ∷ []
      → Resolves s P ts root_inum j
      → Reads s j b
      → path_to_inode path 1 s ≡ (ok (j, decode_inode b), s)
  unfolding path_to_inode
  path_to_inode_parent path ts t e r h = rw (e, translate_parent ts t, walk-Resolves s P r, h)

search_missing :
    (t : CString) (entries : Block) (s : FsState)
    → ((m : ℕ) → m < max_dir_entries → is_named t (decode_dir entries m) ≡ false)
    → search_dir t (decode_dir entries) s ≡ (err enoent, s)
unfolding search_dir
search_missing t entries s absent = rw (
  find_entry-none (is_named t) (decode_dir entries) max_dir_entries 0
      (λ m lo hi. absent m (omega arith)),
  search_dir,
)

walk_last :
    (s : FsState) (t : CString) (p : ℕ) (inode_block : Block) {entries : Block}
    → Reads s p inode_block
    → is_dir (decode_inode inode_block).mode ≡ true
    → Reads s ((decode_inode inode_block).ptrs 0) entries
    → ((m : ℕ) → m < max_dir_entries → is_named t (decode_dir entries m) ≡ false)
    → walk (t ∷ []) p s ≡ (err enoent, s)
unfolding walk
walk_last s t p inode_block {entries} reads_inode dir reads_entries absent =
    rw (reads_inode, dir, reads_entries, search_missing t entries s absent)

-- A directory that the names lead to, which has no entry of the last name.
pub path_to_inode_missing :
    {s : FsState} {P : ℕ → Type 0} {p : ℕ} (path : CString) (ts : List CString) (t : CString)
    (inode_block entries : Block)
    → parse path ≡ ts ++ t ∷ []
    → Resolves s P ts root_inum p
    → Reads s p inode_block
    → is_dir (decode_inode inode_block).mode ≡ true
    → Reads s ((decode_inode inode_block).ptrs 0) entries
    → ((m : ℕ) → m < max_dir_entries → is_named t (decode_dir entries m) ≡ false)
    → path_to_inode path 0 s ≡ (err enoent, s)
unfolding path_to_inode
path_to_inode_missing {s} {P} {p} path ts t inode_block entries e r reads_inode dir reads_entries
      absent =
    rw (
      e,
      translate_whole (ts ++ t ∷ []),
      walk-append s P (t ∷ []) r,
      walk_last s t p inode_block reads_inode dir reads_entries absent,
    )

-- An inode from which the last name leads nowhere.
pub path_to_inode_beyond :
    {s : FsState} {P : ℕ → Type 0} {p : ℕ} {e : Errno} (path : CString) (ts : List CString)
    (t : CString)
    → parse path ≡ ts ++ t ∷ []
    → Resolves s P ts root_inum p
    → walk (t ∷ []) p s ≡ (err e, s)
    → path_to_inode path 0 s ≡ (err e, s)
unfolding path_to_inode
path_to_inode_beyond {s} {P} path ts t e r h =
    rw (e, translate_whole (ts ++ t ∷ []), walk-append s P (t ∷ []) r, h)

-- A walk that fails is the answer.
pub path_to_inode_whole_err :
    {s : FsState} {e : Errno} (path : CString)
    → walk (parse path) root_inum s ≡ (err e, s)
    → path_to_inode path 0 s ≡ (err e, s)
unfolding path_to_inode
path_to_inode_whole_err path h = rw (translate_whole (parse path), h)

pub path_to_inode_parent_err :
    {s : FsState} {e : Errno} (path : CString) (ts : List CString) (t : CString)
    → parse path ≡ ts ++ t ∷ []
    → walk ts root_inum s ≡ (err e, s)
    → path_to_inode path 1 s ≡ (err e, s)
unfolding path_to_inode
path_to_inode_parent_err path ts t e h = rw (e, translate_parent ts t, h)

-- Only the tokens of a path matter.
pub path_to_inode_same :
    (a b : CString) (depth : ℕ) (s : FsState)
    → parse a ≡ parse b
    → path_to_inode a depth s ≡ path_to_inode b depth s
unfolding path_to_inode
path_to_inode_same a b depth s e = rw e refl
