-- ===== src/Consistency/NewEntry.antt =====
-- The entry that `create_directory_entry` of homework.c adds to a listing of a consistent volume.
use fuse_file_system.Prelude.{
  none, some, ◌≢◌, eq→==, if◌then◌else◌, ℕ, ◌<◌, ◌≡◌, ◌∙◌, refl, true, false, List, arith, inl, inr,
  Bool-cases,
}
use fuse_file_system.Layout.{Dirent, max_dir_entries}
use fuse_file_system.State.{FsState}
use fuse_file_system.Paths.{CString, max_name_len, is_named}
use fuse_file_system.Paths.Entries.{Holds, find_entry-none, named-Holds, is_named_of_Holds}
use fuse_file_system.Rename.Names.{IsToken, Holds-same, is_named-same_token}
use fuse_file_system.Create.{new_entry}
use fuse_file_system.Create.Success.{HasRoom}
use fuse_file_system.Create.Entry.{FitsEntry, new_entry-FitsDirent, new_entry-Holds}
use fuse_file_system.Volume.{dir_at}
use fuse_file_system.Rename.{same_token}
use fuse_file_system.Namespace.{linked, names_of}
use fuse_file_system.Namespace.Follow.{names_missing}
use fuse_file_system.Consistency.{Kind, under, Role, node, listing, is_spare, IsConsistent}
use fuse_file_system.Consistency.Entries.{IsEntry}

module _ {s : FsState} {role : ℕ → Role} (c : IsConsistent s role) {path : CString}
    {ts : List CString} {t : CString} {p d slot : ℕ} (h : HasRoom s path ts t p d slot)
    (listed : role d ≡ listing p) (token : IsToken t) where
  pub new-FitsEntry : FitsEntry s t d slot
  new-FitsEntry = record {
    entries = c.bytes d h.below;
    name = token.bytes;
    ends = (c.listings d listed).ends slot;
  }

  module _ (role' : ℕ → Role) (n : ℕ) where
    entry : Dirent
    entry = new_entry (dir_at s d slot) t n

    entry_valid : entry.valid ≡ 1
    unfolding entry new_entry
    entry_valid = refl

    entry_inode : n < s.superblock.disk_size → entry.inode ≡ n
    unfolding entry new_entry
    entry_inode below = omega (arith, below, c.volume.fits_bitmap)

    entry_ends : entry.name max_name_len ≡ 0
    unfolding entry new_entry
    entry_ends = (c.listings d listed).ends slot

    -- No other entry has a name that the new one has.
    entry_alone :
        (k : ℕ)
        → k < max_dir_entries
        → (u : CString) → IsToken u
        → is_named u entry ≡ true
        → is_named u (dir_at s d k) ≡ false
    unfolding entry
    entry_alone k lt u other named = elim (Bool-cases (is_named u (dir_at s d k))) [
      | inl both ↦
          let (valid, held) = named-Holds u (dir_at s d k) both in
          let same : Holds t (dir_at s d k).name =
            Holds-same u t entry.name (dir_at s d k).name other token (named-Holds u entry named).1
              (new_entry-Holds h new-FitsEntry n) held in
          let found = is_named_of_Holds t (dir_at s d k) valid same in
          let absent = h.absent k lt in cc
      | inr alone ↦ alone
    ]

    pub new-IsEntry :
        (kind : Kind)
        → n < s.superblock.disk_size
        → role' n ≡ node kind (under d slot)
        → ((b : ℕ) → is_spare (role b) ≡ false → role' b ≡ role b)
        → IsEntry s role role' d slot (new_entry (dir_at s d slot) t n)
    unfolding entry
    new-IsEntry kind below hn adds = record {
      fits = new_entry-FitsDirent h new-FitsEntry n;
      slot_below = omega (arith, h.room.below);
      target = λ v. (kind, rw (entry_inode below) hn);
      ends = entry_ends;
      alone = λ k lt ne u other short named. entry_alone k lt u other named;
      others = λ b k kind' ne v hb. adds b (rw hb refl) ∙ hb;
    }

  -- The directory's names with the new entry are the old ones and `t`.
  pub new_names :
      (n : ℕ) (u : CString)
      → IsToken u
      → n < s.superblock.disk_size
      → linked (names_of s) p t n p u ≡ (
          if is_named u (new_entry (dir_at s d slot) t n)
          then some (new_entry (dir_at s d slot) t n).inode
          else if is_named u (dir_at s d slot)
          then none
          else names_of s p u)
  new_names n u other below =
      let named : is_named u (new_entry (dir_at s d slot) t n) ≡ same_token u t =
        is_named-same_token t u (new_entry (dir_at s d slot) t n) token other valid_one
          (new_entry-Holds h new-FitsEntry n) in
      rw (named, unnamed, inode below, eq→== p p refl) refl
    where
      inode : n < s.superblock.disk_size → (new_entry (dir_at s d slot) t n).inode ≡ n
      inode below = unfold new_entry in (omega (arith, below, c.volume.fits_bitmap))

      valid_one : (new_entry (dir_at s d slot) t n).valid ≢ 0
      valid_one = unfold new_entry in (omega arith)

      unnamed : is_named u (dir_at s d slot) ≡ false
      unnamed = unfold is_named in (ground (arith, h.room.passes))

  pub not_named_yet : names_of s p t ≡ none
  not_named_yet = names_missing s p t h.directory (
      rw h.pointer (
        find_entry-none (is_named t) (dir_at s d) max_dir_entries 0
          (λ m lo hi. h.absent m (omega arith))))
