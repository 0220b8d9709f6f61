-- ===== src/Create/Entry.antt =====
-- The entry that `create_directory_entry` of homework.c writes, as the walk finds it afterwards.
use fuse_file_system.Prelude.{
  ℕ, ◌%◌, ◌^◌, ◌≤◌, ◌<◌, ◌≡◌, ◌≢◌, refl, ◌∙◌, true, false, List, arith, ltb, ◌==◌, length, get_or,
  inl, inr, Bool-cases, ne→==, eq→==, lt→ltb, ltb→le,
}
use fuse_file_system.Layout.{Block, Dirent, Directory, decode_dir, encode_dir, max_dir_entries}
use fuse_file_system.Layout.RoundTrip.{
  FitsBlock, FitsDirent, FitsDirectory, SameDirent, decode-encode_dir, decode_dir-FitsDirectory,
}
use fuse_file_system.State.{FsState}
use fuse_file_system.Disk.Laws.{block_read-ok}
use fuse_file_system.Paths.{CString, parse, is_named, root_inum, max_name_len}
use fuse_file_system.Paths.Entries.{
  Holds, First, is_named-SameDirent, is_named_of_Holds, get_or_beyond,
}
use fuse_file_system.Paths.Resolve.{
  Anything, Reads, Lookup, Resolves, here, next, Resolves-mono, Resolves-frame, Resolves-append,
}
use fuse_file_system.Directory.{set_entry}
use fuse_file_system.Directory.Place.{short_name}
use fuse_file_system.Create.{new_entry}
use fuse_file_system.Create.Success.{HasRoom}
use fuse_file_system.Volume.{IsVolume, Untouched, dir_at}

-- What the new entry needs of the old directory block and of the name.
pub record FitsEntry (s : FsState) (t : CString) (d slot : ℕ) : Type 0 where
  pub entries : FitsBlock (s.image.block d)
  pub name : (i : ℕ) → get_or t i 0 < 256
  pub ends : (dir_at s d slot).name max_name_len ≡ 0

-- The directory block with the new entry.
abbrev pub with_entry : FsState → CString → (d slot n : ℕ) → Directory
with_entry s t d slot n = set_entry (dir_at s d) slot (new_entry (dir_at s d slot) t n)

-- The entry itself.
module _ {s : FsState} {path : CString} {ts : List CString} {t : CString} {p d slot : ℕ}
    (h : HasRoom s path ts t p d slot) (f : FitsEntry s t d slot) (n : ℕ) where
  pub new_entry-FitsDirent : FitsDirent (new_entry (dir_at s d slot) t n)
  unfolding new_entry
  new_entry-FitsDirent =
      let old = decode_dir-FitsDirectory f.entries slot in
      record {
        valid = omega arith;
        inode = omega arith;
        name = λ k. ground (arith, f.name k, old.name k);
      }

  pub new_entry-Holds : Holds t (new_entry (dir_at s d slot) t n).name
  unfolding new_entry
  new_entry-Holds = record {
    bytes = λ i lt. rw (lt→ltb i max_name_len (omega (arith, short_name h.place)));
    ends = elim (Bool-cases (ltb (length t) max_name_len)) [
      | inl e ↦ rw e (get_or_beyond t (length t) (omega arith))
      | inr e ↦
          let last : length t ≡ max_name_len = omega (arith, short_name h.place, ltb→le _ _ e) in
          rw (e, last) f.ends
    ];
  }

-- A state `after` in which the directory has the entry and the blocks of the walk are as before.
module _ {s : FsState} {path : CString} {ts : List CString} {t : CString} {p d slot : ℕ}
    (v : IsVolume s) (h : HasRoom s path ts t p d slot) (f : FitsEntry s t d slot) (n : ℕ)
    (below : n < s.superblock.disk_size) (after : FsState)
    (frame : (lba : ℕ) (b : Block) → Untouched s d lba → Reads s lba b → Reads after lba b)
    (entries-Reads : Reads after d (encode_dir (with_entry s t d slot n))) where
  entry : Dirent
  entry = new_entry (dir_at s d slot) t n

  entries : Directory
  entries = with_entry s t d slot n

  entry-FitsDirent : FitsDirent entry
  unfolding entry
  entry-FitsDirent = new_entry-FitsDirent h f n

  entries-FitsDirectory : FitsDirectory entries
  unfolding entries new_entry entry
  entries-FitsDirectory j = elim (Bool-cases (j == slot)) [
    | inl e ↦ rw e entry-FitsDirent
    | inr e ↦ rw e (decode_dir-FitsDirectory f.entries j)
  ]

  short : length t ≤ max_name_len
  short = short_name h.place

  entry-Holds : Holds t entry.name
  unfolding entry
  entry-Holds = new_entry-Holds h f n

  -- The directory block as it is read afterwards.
  same : (i : ℕ) → SameDirent (decode_dir (encode_dir entries) i) (entries i)
  same = decode-encode_dir entries entries-FitsDirectory

  named_slot : is_named t (decode_dir (encode_dir entries) slot) ≡ true
  unfolding entries entry new_entry
  named_slot =
      is_named-SameDirent t _ _ short (same slot)
      ∙ rw (eq→== slot slot refl) (is_named_of_Holds t entry (omega arith) entry-Holds)

  other_slot :
      (m : ℕ)
      → m < max_dir_entries
      → m ≢ slot
      → is_named t (decode_dir (encode_dir entries) m) ≡ false
  unfolding entries
  other_slot m lt ne =
      is_named-SameDirent t _ _ short (same m) ∙ rw (ne→== m slot ne) (h.absent m lt)

  found : First (is_named t) (decode_dir (encode_dir entries)) max_dir_entries 0 slot
  found = record {
    above = omega arith;
    below = h.room.below;
    passes = named_slot;
    before = λ m lo hi. other_slot m (omega (arith, h.room.below)) (omega arith);
  }

  n-small : n % 2 ^ 31 ≡ n
  n-small = omega (arith, below, v.fits_bitmap)

  leads_to : (decode_dir (encode_dir entries) slot).inode ≡ n
  unfolding entries entry new_entry
  leads_to = (same slot).1 ∙ rw (eq→== slot slot refl) n-small

  last_step : Lookup after Anything p t n
  unfolding entries
  last_step = record {
    inode_block = s.image.block p;
    entries = encode_dir entries;
    place = slot;
    reads_inode =
        frame p (s.image.block p) h.parent (block_read-ok {s = s} (v.on_disk p h.parent.below));
    directory = h.directory;
    reads_entries = rw h.pointer entries-Reads;
    first = found;
    leads_to = leads_to;
    passes = (tt, tt);
  }

  -- The path leads to the new inode.
  pub after-Resolves : Resolves after Anything (parse path) root_inum n
  after-Resolves = rw h.parsed (
      Resolves-append after Anything
        (Resolves-mono after (Untouched s d) Anything (λ lba u. tt)
          (Resolves-frame s (Untouched s d) after frame h.resolves))
        (next last_step here))
