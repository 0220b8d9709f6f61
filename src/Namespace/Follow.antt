-- ===== src/Namespace/Follow.antt =====
-- `translate` of homework.c follows the names of the volume.
use fuse_file_system.Prelude.{ℕ, ◌≡◌, ◌∙◌, refl, ap, true, false, Option, none, some, List, ◌∷◌}
use fuse_file_system.Layout.{Directory, max_dir_entries, decode_inode, decode_dir}
use fuse_file_system.State.{FsState}
use fuse_file_system.Paths.{CString, is_named, is_dir, find_entry}
use fuse_file_system.Paths.Entries.{First-find_entry}
use fuse_file_system.Paths.Resolve.{Lookup, Resolves, here, next}
use fuse_file_system.Disk.Laws.{block_of_read}
use fuse_file_system.Directory.Place.{IsPlace}
use fuse_file_system.Volume.{IsVolume, Untouched, inode_at, dir_at}
use fuse_file_system.Namespace.{Names, IsParent, follow, names_in, names_of}

-- What the search of a block of entries says of its names.
pub names_in_found :
    (dir : Directory) (t : CString) (k : ℕ)
    → find_entry (is_named t) dir max_dir_entries 0 ≡ some k
    → names_in dir t ≡ some (dir k).inode
unfolding names_in
names_in_found dir t k h = rw (h)

pub names_in_missing :
    (dir : Directory) (t : CString)
    → find_entry (is_named t) dir max_dir_entries 0 ≡ none
    → names_in dir t ≡ none
unfolding names_in
names_in_missing dir t h = rw (h)

-- A directory has the names of its block of entries, and a file has none.
pub names_of_folder :
    (s : FsState) (i : ℕ) (t : CString)
    → is_dir (inode_at s i).mode ≡ true
    → names_of s i t ≡ names_in (dir_at s ((inode_at s i).ptrs 0)) t
unfolding names_of
names_of_folder s i t h = rw h

pub names_of_file :
    (s : FsState) (i : ℕ) (t : CString) → is_dir (inode_at s i).mode ≡ false → names_of s i t ≡ none
unfolding names_of
names_of_file s i t h = rw h

pub names_found :
    (s : FsState) (i : ℕ) (t : CString) (k : ℕ)
    → is_dir (inode_at s i).mode ≡ true
    → find_entry (is_named t) (dir_at s ((inode_at s i).ptrs 0)) max_dir_entries 0 ≡ some k
    → names_of s i t ≡ some (dir_at s ((inode_at s i).ptrs 0) k).inode
names_found s i t k dir h = names_of_folder s i t dir ∙ names_in_found _ t k h

pub names_missing :
    (s : FsState) (i : ℕ) (t : CString)
    → is_dir (inode_at s i).mode ≡ true
    → find_entry (is_named t) (dir_at s ((inode_at s i).ptrs 0)) max_dir_entries 0 ≡ none
    → names_of s i t ≡ none
names_missing s i t dir h = names_of_folder s i t dir ∙ names_in_missing _ t h

follow_on :
    (names : Names) (t : CString) (ts : List CString) (i j : ℕ)
    → names i t ≡ some j
    → follow names (t ∷ ts) i ≡ follow names ts j
unfolding follow
follow_on names t ts i j h = rw (h, follow)

pub follow_stops :
    (names : Names) (t : CString) (ts : List CString) (i : ℕ)
    → names i t ≡ none
    → follow names (t ∷ ts) i ≡ none
unfolding follow
follow_stops names t ts i h = rw (h, follow)

-- One name, and where the rest leads.
pub follow_step :
    (names : Names) (t : CString) (ts : List CString) (i j : ℕ) {end : Option ℕ}
    → names i t ≡ some j
    → follow names ts j ≡ end
    → follow names (t ∷ ts) i ≡ end
follow_step names t ts i j h rest = follow_on names t ts i j h ∙ rest

module _ {s : FsState} (v : IsVolume s) (d : ℕ) where
  Lookup-names_of :
      {i j : ℕ} {t : CString} → Lookup s (Untouched s d) i t j → names_of s i t ≡ some j
  Lookup-names_of {i} {j} {t} l =
      let inode : l.inode_block ≡ s.image.block i =
        block_of_read {s = s} (v.on_disk i l.passes.0.below) l.reads_inode in
      let pointer = (decode_inode l.inode_block).ptrs 0 in
      let entries : l.entries ≡ s.image.block pointer =
        block_of_read {s = s} (v.on_disk pointer l.passes.1.below) l.reads_entries in
      let directory : is_dir (inode_at s i).mode ≡ true = rw inode at l.directory in
      let same : pointer ≡ (inode_at s i).ptrs 0 = rw inode refl in
      let block : l.entries ≡ s.image.block ((inode_at s i).ptrs 0) = rw same at entries in
      let found : find_entry (is_named t) (dir_at s ((inode_at s i).ptrs 0)) max_dir_entries 0
          ≡ some l.place =
        rw block at (
          First-find_entry (is_named t) (decode_dir l.entries) max_dir_entries 0 l.place l.first) in
      let leads : (dir_at s ((inode_at s i).ptrs 0) l.place).inode ≡ j = rw block at l.leads_to in
      names_found s i t l.place directory found ∙ ap some leads

  -- Where names lead on the disk, they lead in the namespace.
  pub Resolves-follow :
      {ts : List CString} {i j : ℕ}
      → Resolves s (Untouched s d) ts i j
      → follow (names_of s) ts i ≡ some j
  unfolding follow
  Resolves-follow here = refl
  Resolves-follow (next {token = t} {tokens = ts} {i = i} {j = j} l r) =
      follow_step (names_of s) t ts i j (Lookup-names_of l) (Resolves-follow r)

-- The place of a name, in the namespace.
pub IsPlace-IsParent :
    {s : FsState} {path : CString} {ts : List CString} {t : CString} {p d : ℕ}
    → IsVolume s
    → IsPlace s path ts t p d
    → IsParent (names_of s) path t p
IsPlace-IsParent {ts = ts} {d = d} v h = record {
  directories = ts;
  parsed = h.parsed;
  leads = Resolves-follow v d h.resolves;
}
