-- ===== src/Directory/Place.antt =====
-- A name in a directory that the path leads to: what the helpers of homework.c find there.
use fuse_file_system.Prelude.{ℕ, ◌≤◌, ◌<◌, ◌≡◌, ◌≢◌, true, List, [], ◌∷◌, ◌++◌, length, le→ltb}
use fuse_file_system.Layout.{max_dir_entries}
use fuse_file_system.State.{FsState, ok}
use fuse_file_system.Disk.Laws.{block_read-ok}
use fuse_file_system.Bitmap.Bits.{used}
use fuse_file_system.Paths.{
  CString, parse, is_named, is_dir, root_inum, max_name_len, path_to_inode,
}
use fuse_file_system.Paths.Parse.{last_token-append, last-short, take_all}
use fuse_file_system.Paths.Entries.{First, First-find_entry}
use fuse_file_system.Paths.Resolve.{
  Anything, Lookup, Resolves, here, next, Resolves-mono, Resolves-append, path_to_inode_parent,
  path_to_inode_whole,
}
use fuse_file_system.Directory.{get_entry_name_from_path, find_index_in_dir}
use fuse_file_system.Volume.{IsVolume, Untouched, inode_at, dir_at}

-- The path names `t` in the directory with inode `p` and entries in block `d`; no block on the way
-- is `d`.
pub record IsPlace (s : FsState) (path : CString) (ts : List CString) (t : CString) (p d : ℕ)
    : Type 0 where
  pub parsed : parse path ≡ ts ++ t ∷ []
  pub resolves : Resolves s (Untouched s d) ts root_inum p
  pub parent : Untouched s d p
  pub directory : is_dir (inode_at s p).mode ≡ true
  pub pointer : (inode_at s p).ptrs 0 ≡ d
  pub below : d < s.superblock.disk_size
  pub in_use : used s.bitmap d ≡ true
  pub not_super : d ≢ 0
  pub not_bitmap : d ≢ 1

module _ {s : FsState} {path : CString} {ts : List CString} {t : CString} {p d : ℕ} where
  pub path_to_place :
      IsVolume s → IsPlace s path ts t p d → path_to_inode path 1 s ≡ (ok (p, inode_at s p), s)
  path_to_place v h =
      path_to_inode_parent path ts t h.parsed h.resolves
        (block_read-ok {s = s} (v.on_disk p h.parent.below))

  pub short_name : IsPlace s path ts t p d → length t ≤ max_name_len
  short_name h = last-short path ts t h.parsed

  pub get_entry_name-ok :
      IsPlace s path ts t p d → (s' : FsState) → get_entry_name_from_path path s' ≡ (ok t, s')
  unfolding get_entry_name_from_path
  get_entry_name-ok h s' = rw (
    h.parsed,
    last_token-append ts t,
    le→ltb max_name_len (length t) (short_name h),
    take_all max_name_len t (short_name h),
  )

-- The directory has an entry of the name `t`: the first is entry `slot`, with inode `i`.
pub record HasEntry (s : FsState) (path : CString) (ts : List CString) (t : CString)
    (p d slot i : ℕ) : Type 0 where
  pub place : IsPlace s path ts t p d
  pub open place use *
  pub first : First (is_named t) (dir_at s d) max_dir_entries 0 slot
  pub leads_to : (dir_at s d slot).inode ≡ i

module _ {s : FsState} {path : CString} {ts : List CString} {t : CString} {p d slot i : ℕ}
    (v : IsVolume s) (h : HasEntry s path ts t p d slot i) where
  entry_step : Lookup s Anything p t i
  entry_step = record {
    inode_block = s.image.block p;
    entries = s.image.block d;
    place = slot;
    reads_inode = block_read-ok {s = s} (v.on_disk p h.parent.below);
    directory = h.directory;
    reads_entries = rw h.pointer (block_read-ok {s = s} (v.on_disk d h.below));
    first = h.first;
    leads_to = h.leads_to;
    passes = (tt, tt);
  }

  pub path_to_entry :
      i < s.superblock.disk_size → path_to_inode path 0 s ≡ (ok (i, inode_at s i), s)
  path_to_entry lt = path_to_inode_whole path resolves (block_read-ok {s = s} (v.on_disk i lt))
    where
      resolves : Resolves s Anything (parse path) root_inum i
      resolves = rw h.parsed (
          Resolves-append s Anything
            (Resolves-mono s (Untouched s d) Anything (λ lba u. tt) h.resolves)
            (next entry_step here))

  pub find_index-ok : find_index_in_dir t (dir_at s d) s ≡ (ok slot, s)
  unfolding find_index_in_dir
  find_index-ok =
      rw (
        First-find_entry (is_named t) (dir_at s d) max_dir_entries 0 slot h.first,
        find_index_in_dir,
      )
