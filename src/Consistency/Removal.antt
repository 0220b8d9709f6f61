-- ===== src/Consistency/Removal.antt =====
-- The states that `fs_unlink` and `fs_rmdir` of homework.c leave: an entry is invalid, and blocks of its
-- inode are free.
use fuse_file_system.Prelude.{
  eq→==, ne→==, ap, some, ℕ, ◌<◌, ◌≡◌, ◌≢◌, ◌⊎◌, ◌∙◌, refl, true, false, not, List, arith,
  if◌then◌else◌, inl, inr, Bool-cases, has, length,
}
use fuse_file_system.Layout.{Dirent, encode_dir, max_dir_entries}
use fuse_file_system.Layout.RoundTrip.{FitsBlock, FitsDirent, decode_dir-FitsDirectory}
use fuse_file_system.State.{FsState}
use fuse_file_system.Disk.Laws.{
  with_block, OnDisk-put_block, block-put_block_ne, block-put_block_self,
}
use fuse_file_system.Bitmap.Bits.{used}
use fuse_file_system.Bitmap.Count.{Distinct}
use fuse_file_system.Bitmap.Modify.{with_bitmap, marked, marked-FitsBlock, used-marked_clear}
use fuse_file_system.Paths.{CString, is_named}
use fuse_file_system.Remove.{give_blocks, invalidate}
use fuse_file_system.Remove.Unlink.{without_entry}
use fuse_file_system.Volume.{IsVolume, dir_at}
use fuse_file_system.Volume.Keeps.{with_block-IsVolume, give-IsVolume}
use fuse_file_system.Paths.Entries.{First-find_entry, named-Holds}
use fuse_file_system.Rename.{same_token}
use fuse_file_system.Rename.Names.{IsToken, is_named-same_token}
use fuse_file_system.Directory.Place.{HasEntry}
use fuse_file_system.Namespace.{Removed, unlinked, names_of}
use fuse_file_system.Namespace.Follow.{IsPlace-IsParent, names_of_folder, names_in_found}
use fuse_file_system.Namespace.Frame.{set_names-Agree}
use fuse_file_system.Consistency.{
  Kind, under, Role, spare, node, listing, content, is_spare, IsNode, IsConsistent,
}
use fuse_file_system.Consistency.Frame.{role-below}
use fuse_file_system.Consistency.Change.{Anew, IsChange, IsChange-IsConsistent}
use fuse_file_system.Consistency.Outcome.{IsSound, put_block-FitsBlock}
use fuse_file_system.Consistency.Entries.{IsEntry, entries-FitsBlock, set-IsListing}

-- The state with the entry invalid and the blocks `is` given back.
abbrev pub cleared : FsState → (d slot : ℕ) → List ℕ → FsState
cleared s d slot is =
    give_blocks (length is) (with_bitmap false is (with_block s d (without_entry s d slot)))

-- Inode `i` stands in entry `slot` of block `d`, and the blocks `is` are its own, itself among them.
pub record IsRemoval (s : FsState) (role : ℕ → Role) (d slot i : ℕ) (is : List ℕ) : Type 0 where
  pub kind : Kind
  pub entered : role i ≡ node kind (under d slot)
  pub slot_below : slot < max_dir_entries
  pub parent : ℕ
  pub listed : role d ≡ listing parent
  pub apart : parent ≢ i
  pub inode : has i is ≡ true
  pub owned :
      (b : ℕ)
      → has b is ≡ true
      → (b ≡ i) ⊎ ((role b ≡ listing i) ⊎ ((k : ℕ) × (role b ≡ content i k)))
  pub distinct : Distinct true s.superblock.disk_size s.bitmap is

-- The roles once the blocks are free.
abbrev pub without : (ℕ → Role) → List ℕ → ℕ → Role
without role is b = if has b is then spare else role b

module _ {s : FsState} {role : ℕ → Role} {d slot i : ℕ} {is : List ℕ} (c : IsConsistent s role)
    (r : IsRemoval s role d slot i is) where
  v : IsVolume s
  v = c.volume

  after : FsState
  after = cleared s d slot is

  role' : ℕ → Role
  role' = without role is

  stays : (b : ℕ) → has b is ≡ false → role' b ≡ role b
  unfolding role'
  stays b h = rw h

  lives : (b : ℕ) → is_spare (role' b) ≡ false → (has b is ≡ false) × (role' b ≡ role b)
  unfolding role'
  lives b live = elim (Bool-cases (has b is)) [
    | inl gone ↦ let freed : true ≡ false = rw gone at live in cc
    | inr kept ↦ (kept, rw kept)
  ]

  gone_inode : is_spare (role' i) ≡ true
  unfolding role'
  gone_inode = rw r.inode refl

  -- A block that is not owned by the inode keeps its role.
  kept :
      (b : ℕ)
      → (b ≡ i → ⊥)
      → (role b ≡ listing i → ⊥)
      → ((k : ℕ) → role b ≡ content i k → ⊥)
      → role' b ≡ role b
  kept b not_inode not_listing not_content = elim (Bool-cases (has b is)) [
    | inl gone ↦ elim (r.owned b gone) [
      | inl e ↦ absurd (not_inode e)
      | inr (inl e) ↦ absurd (not_listing e)
      | inr (inr (k, e)) ↦ absurd (not_content k e)
    ]
    | inr stay ↦ stays b stay
  ]

  d-ne_one : d ≢ 1
  d-ne_one e = cc (r.listed, c.bitmap, e)

  d_below : d < s.superblock.disk_size
  d_below = role-below c d (rw r.listed refl)

  -- The blocks of the format have no owner.
  pub format_kept : (b : ℕ) → b < 3 → has b is ≡ false
  format_kept b lt = elim (Bool-cases (has b is)) [
    | inl gone ↦ elim (r.owned b gone) [
      | inl e ↦ ground (arith, c.super, c.bitmap, c.root, r.entered)
      | inr (inl e) ↦ ground (arith, c.super, c.bitmap, c.root)
      | inr (inr (k, e)) ↦ ground (arith, c.super, c.bitmap, c.root)
    ]
    | inr stay ↦ stay
  ]

  gone : Dirent
  gone = record (dir_at s d slot) { valid = 0 }

  gone_named : (t : CString) → is_named t gone ≡ true → ⊥
  unfolding gone is_named
  gone_named t h = cc

  gone-FitsDirent : FitsDirent gone
  unfolding gone
  gone-FitsDirent =
      let old = decode_dir-FitsDirectory (c.bytes d d_below) slot in
      record { valid = omega arith; inode = old.inode; name = old.name }

  gone-IsEntry : IsEntry s role role' d slot gone
  unfolding gone
  gone-IsEntry = record {
    fits = gone-FitsDirent;
    slot_below = r.slot_below;
    target = λ valid. absurd (valid refl);
    ends = (c.listings d r.listed).ends slot;
    alone = λ k lt ne t token short named. absurd (gone_named t named);
    others = λ b k kind ne valid hb.
        kept b (λ e. ne (cc (r.entered, hb, e))) (λ e. cc (hb, e)) (λ j e. cc (hb, e)) ∙ hb;
  }

  d_kept : role' d ≡ listing r.parent
  d_kept =
      kept d (λ e. cc (r.listed, r.entered, e)) (λ e. r.apart (cc (r.listed, e)))
        (λ k e. cc (r.listed, e))
      ∙ r.listed

  entries_block : after.image.block d ≡ encode_dir (invalidate (dir_at s d) slot)
  unfolding after
  entries_block =
      block-put_block_ne 1 _ (OnDisk-put_block d _ (v.on_disk d d_below)) d-ne_one
      ∙ block-put_block_self s.image d _

  old_block :
      (b : ℕ) → b < s.superblock.disk_size → b ≢ 1 → b ≢ d → after.image.block b ≡ s.image.block b
  unfolding after
  old_block b lt n1 nd =
      block-put_block_ne 1 _ (OnDisk-put_block d _ (v.on_disk b lt)) n1
      ∙ block-put_block_ne d _ (v.on_disk b lt) nd

  after-FitsBlock : (b : ℕ) → b < s.superblock.disk_size → FitsBlock (after.image.block b)
  unfolding after gone
  after-FitsBlock b lt =
      put_block-FitsBlock 1 (marked false is s.bitmap) b
        (OnDisk-put_block d (without_entry s d slot) (v.on_disk b lt))
        (marked-FitsBlock false is v.bytes)
        (put_block-FitsBlock d (without_entry s d slot) b (v.on_disk b lt)
          (entries-FitsBlock (c.bytes d d_below) gone-IsEntry) (c.bytes b lt))

  only_entries : (b : ℕ) → Anew role d b → is_spare (role' b) ≡ false → b ≡ d
  only_entries b (inl e) live = e
  only_entries b (inr free) live = let same = (lives b live).1 in cc

  used_after : (b : ℕ) → b < s.superblock.disk_size → used after.bitmap b ≡ not (is_spare (role' b))
  unfolding after role'
  used_after b lt = ground (arith, used-marked_clear is b v.bytes, c.in_use b lt)

  -- What an owner that lives on refers to is kept.
  owner_lives : (b j : ℕ) → is_spare (role' j) ≡ false → j ≢ i
  owner_lives b j live e =
      let freed = gone_inode in let freed' : is_spare (role' i) ≡ false = rw e at live in cc

  removal-IsChange : IsChange s after role role' d
  unfolding after gone
  removal-IsChange = record {
    volume =
        give-IsVolume (with_block-IsVolume d (without_entry s d slot) d-ne_one v) is r.distinct
          format_kept;
    superblock = refl;
    not_super = λ e. cc (r.listed, c.super, e);
    bytes = after-FitsBlock;
    format = λ b lt. stays b (format_kept b lt);
    in_range = λ b live. c.in_range b (rw (lives b live).1 at live);
    in_use = used_after;
    old = λ b a live. (lives b live).1;
    same = λ b a live n1 nd. old_block b (role-below c b a) n1 nd;
    keeps_listing = λ b j l live ne.
        let other = owner_lives b j live in
        kept b (λ e. cc (l, r.entered, e)) (λ e. other (cc (l, e))) (λ k e. cc (l, e)) ∙ l;
    keeps_content = λ b j k l live ne.
        let other = owner_lives b j live in
        kept b (λ e. cc (l, r.entered, e)) (λ e. cc (l, e)) (λ k' e. other (cc (l, e))) ∙ l;
    keeps_node = λ b e k kind l live ne.
        kept b (λ same. ne (cc (l, r.entered, same))) (λ q. cc (l, q)) (λ k' q. cc (l, q)) ∙ l;
    folders = λ b a hb. let e = only_entries b a (rw hb refl) in cc (d_kept, hb, e);
    plains = λ b a hb. let e = only_entries b a (rw hb refl) in cc (d_kept, hb, e);
    listings = λ b a hb.
        let e = only_entries b a (rw hb refl) in
        rw e (
          set-IsListing (c.bytes d d_below) gone-IsEntry after (c.listings d r.listed)
            entries_block);
  }

  module _ {path t : CString} {ts : List CString} {p : ℕ} (h : HasEntry s path ts t p d slot i)
      (listed : role d ≡ listing p) (parent : IsNode role p) (apart : p ≢ i)
      (token : IsToken t) where
    alive : (b : ℕ) → IsNode role b → b ≢ i → is_spare (role' b) ≡ false
    alive b q ne =
        let (kind, place, hb) = q in rw (kept b ne (λ e. cc (hb, e)) (λ k e. cc (hb, e)), hb) refl

    unnamed : (u : CString) → is_named u gone ≡ false
    unnamed u = elim (Bool-cases (is_named u gone)) [
      | inl named ↦ absurd (gone_named u named)
      | inr other ↦ other
    ]

    old_named : (u : CString) → IsToken u → is_named u (dir_at s d slot) ≡ same_token u t
    old_named u other =
        let (valid, held) = named-Holds t (dir_at s d slot) h.first.passes in
        is_named-same_token t u (dir_at s d slot) token other valid held

    cleared-Removed : Removed s role path after
    unfolding gone
    cleared-Removed = record {
      name = t;
      parent = p;
      inum = i;
      place = IsPlace-IsParent v h.place;
      stands =
          names_of_folder s p t h.directory
          ∙ rw h.pointer (
              names_in_found (dir_at s d) t slot
                (First-find_entry (is_named t) (dir_at s d) max_dir_entries 0 slot h.first))
          ∙ ap some h.leads_to;
      agree =
          set_names-Agree c removal-IsChange h.place listed (alive p parent apart) gone-IsEntry
            entries_block (λ j. IsNode role j × (j ≢ i)) (unlinked (names_of s) p t)
            (λ j q. (q.0, alive j q.0 q.1)) (λ j u ne. rw (ne→== j p ne) refl)
            (λ u other short. rw (unnamed u, old_named u other, eq→== p p refl) refl);
    }

    -- The volume is consistent, and the name is gone.
    pub cleared_ends : IsSound (cleared s d slot is) × Removed s role path (cleared s d slot is)
    unfolding after
    cleared_ends = ((role', IsChange-IsConsistent c removal-IsChange), cleared-Removed)
