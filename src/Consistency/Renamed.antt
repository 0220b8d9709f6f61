-- ===== src/Consistency/Renamed.antt =====
-- The state that `fs_rename` of homework.c leaves is consistent, and the inode has its new name.
use fuse_file_system.Prelude.{
  eq→==, ne→==, ap, ℕ, ◌<◌, ◌≡◌, ◌∙◌, refl, true, false, some, List, arith, inl, inr, Bool-cases,
}
use fuse_file_system.Layout.{Dirent, encode_dir, max_dir_entries}
use fuse_file_system.Layout.RoundTrip.{FitsDirent, decode_dir-FitsDirectory}
use fuse_file_system.State.{FsState}
use fuse_file_system.Disk.Laws.{block-put_block_ne, block-put_block_self}
use fuse_file_system.Paths.{CString, is_named, max_name_len}
use fuse_file_system.Paths.Parse.{last-short}
use fuse_file_system.Paths.Entries.{Holds, named-Holds, is_named_of_Holds}
use fuse_file_system.Directory.{copy_name}
use fuse_file_system.Rename.{same_token}
use fuse_file_system.Rename.Names.{is_named-same_token, IsToken, copy_name-Holds, Holds-same}
use fuse_file_system.Rename.Success.{CanRename, renamed, with_name}
use fuse_file_system.Volume.{dir_at}
use fuse_file_system.Volume.Keeps.{with_block-IsVolume}
use fuse_file_system.Namespace.{Renamed, linked, unlinked, names_of}
use fuse_file_system.Namespace.Follow.{
  IsPlace-IsParent, Resolves-follow, names_of_folder, names_in_found, names_missing,
}
use fuse_file_system.Namespace.Frame.{set_names-Agree}
use fuse_file_system.Paths.Entries.{First-find_entry, find_entry-none}
use fuse_file_system.Consistency.{Kind, under, Role, node, listing, is_spare, IsNode, IsConsistent}
use fuse_file_system.Consistency.Frame.{role-below}
use fuse_file_system.Consistency.Change.{Anew, IsChange, IsChange-IsConsistent}
use fuse_file_system.Consistency.Outcome.{IsSound, put_block-FitsBlock}
use fuse_file_system.Consistency.Entries.{IsEntry, entries-FitsBlock, set-IsListing}

module _ {s : FsState} {role : ℕ → Role} (c : IsConsistent s role) {src dst : CString}
    {ts : List CString} {t t' : CString} {p d slot i : ℕ} {kind : Kind}
    (h : CanRename s src dst ts t t' p d slot i) (listed : role d ≡ listing p)
    (hi : role i ≡ node kind (under d slot)) (token : IsToken t') where
  entry : Dirent
  entry = record (dir_at s d slot) { name = copy_name (λ k. 0) t' }

  entry-FitsDirent : FitsDirent entry
  unfolding entry
  entry-FitsDirent =
      let old = decode_dir-FitsDirectory (c.bytes d h.below) slot in
      record { valid = old.valid; inode = old.inode; name = λ k. ground (arith, token.bytes k) }

  entry_ends : entry.name max_name_len ≡ 0
  unfolding entry
  entry_ends = refl

  entry_alone :
      (k : ℕ)
      → k < max_dir_entries
      → (u : CString) → IsToken u
      → is_named u entry ≡ true
      → is_named u (dir_at s d k) ≡ false
  unfolding entry
  entry_alone k lt u other named = elim (Bool-cases (is_named u (dir_at s d k))) [
    | inl both ↦
        let (valid, held) = named-Holds u (dir_at s d k) both in
        let same : Holds t' (dir_at s d k).name =
          Holds-same u t' entry.name (dir_at s d k).name other token (named-Holds u entry named).1
            (copy_name-Holds t' (last-short dst ts t' h.dst_parsed)) held in
        let found = is_named_of_Holds t' (dir_at s d k) valid same in
        let absent = h.absent k lt in cc
    | inr alone ↦ alone
  ]

  renamed-IsEntry :
      IsEntry s role role d slot (record (dir_at s d slot) { name = copy_name (λ k. 0) t' })
  unfolding entry
  renamed-IsEntry = record {
    fits = entry-FitsDirent;
    slot_below = omega (arith, h.first.below);
    target = λ valid. (kind, rw h.leads_to hi);
    ends = entry_ends;
    alone = λ k lt ne u other short named. entry_alone k lt u other named;
    others = λ b k kind' ne valid hb. hb;
  }

  only_entries : (b : ℕ) → Anew role d b → is_spare (role b) ≡ false → b ≡ d
  only_entries b (inl e) live = e
  only_entries b (inr free) live = cc

  renamed-IsChange : IsChange s (renamed s d slot t') role role d
  renamed-IsChange = record {
    volume = with_block-IsVolume d _ h.not_bitmap c.volume;
    superblock = refl;
    not_super = h.not_super;
    bytes = λ b lt.
        put_block-FitsBlock d (encode_dir (with_name (dir_at s d) slot t')) b
          (c.volume.on_disk b lt) (entries-FitsBlock (c.bytes d h.below) renamed-IsEntry)
          (c.bytes b lt);
    format = λ b lt. refl;
    in_range = c.in_range;
    in_use = c.in_use;
    old = λ b a a'. refl;
    same = λ b a a' n1 ne. block-put_block_ne d _ (c.volume.on_disk b (role-below c b a)) ne;
    keeps_listing = λ b j l a ne. l;
    keeps_content = λ b j k l a ne. l;
    keeps_node = λ b e k kind l a ne. l;
    folders = λ b a hb. let e = only_entries b a (rw hb refl) in cc (listed, hb, e);
    plains = λ b a hb. let e = only_entries b a (rw hb refl) in cc (listed, hb, e);
    listings = λ b a hb.
        let e = only_entries b a (rw hb refl) in
        rw e (
          set-IsListing (c.bytes d h.below) renamed-IsEntry (renamed s d slot t')
            (c.listings d listed) (block-put_block_self s.image d _));
  }

  module _ (old : IsToken t) where
    old_named : (u : CString) → IsToken u → is_named u (dir_at s d slot) ≡ same_token u t
    old_named u other =
        let (valid, held) = named-Holds t (dir_at s d slot) h.first.passes in
        is_named-same_token t u (dir_at s d slot) old other valid held

    new_named : (u : CString) → IsToken u → is_named u entry ≡ same_token u t'
    unfolding entry
    new_named u other =
        let (valid, held) = named-Holds t (dir_at s d slot) h.first.passes in
        is_named-same_token t' u entry token other valid
          (copy_name-Holds t' (last-short dst ts t' h.dst_parsed))

    p_live : is_spare (role p) ≡ false
    p_live = ground (arith, c.in_use p h.parent.below, h.parent.in_use)

    renamed-Renamed : Renamed s role src dst (renamed s d slot t')
    unfolding entry
    renamed-Renamed = record {
      old = t;
      new = t';
      parent = p;
      inum = i;
      src_place = IsPlace-IsParent c.volume h.place;
      dst_place = record {
        directories = ts;
        parsed = h.dst_parsed;
        leads = Resolves-follow c.volume d h.resolves;
      };
      stands =
          names_of_folder s p t h.directory
          ∙ rw h.pointer (
              names_in_found (dir_at s d) t slot
                (First-find_entry (is_named t) (dir_at s d) max_dir_entries 0 slot h.first))
          ∙ ap some h.leads_to;
      free = names_missing s p t' h.directory (
          rw h.pointer (
            find_entry-none (is_named t') (dir_at s d) max_dir_entries 0
              (λ m lo hi'. h.absent m (omega arith))));
      agree =
          set_names-Agree c renamed-IsChange h.place listed p_live renamed-IsEntry
            (block-put_block_self s.image d _) (IsNode role)
            (linked (unlinked (names_of s) p t) p t' i)
            (λ j q. let (k, place, hj) = q in (q, rw hj refl)) (λ j u ne. rw (ne→== j p ne) refl)
            (λ u other short.
              rw (new_named u other, old_named u other, eq→== p p refl, h.leads_to) refl);
    }

    -- The volume is consistent, and the inode has its new name.
    pub renamed_ends : IsSound (renamed s d slot t') × Renamed s role src dst (renamed s d slot t')
    renamed_ends = ((role, IsChange-IsConsistent c renamed-IsChange), renamed-Renamed)
