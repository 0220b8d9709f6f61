-- ===== src/Consistency/MakeDirectory.antt =====
-- The state that `fs_mkdir` of homework.c leaves is consistent, with the new directory in its entry.
use fuse_file_system.Prelude.{
  none, ℕ, ◌-◌, ◌^◌, ◌<◌, ◌≡◌, ◌⊎◌, ◌∙◌, refl, ap, true, false, not, List, [], ◌∷◌, arith, ◌==◌,
  ne→==, ==→eq, inl, inr, Bool-cases,
}
use fuse_file_system.Layout.{max_dir_entries, decode_inode}
use fuse_file_system.Layout.RoundTrip.{decode-encode_inode}
use fuse_file_system.State.{FsState}
use fuse_file_system.Host.{Host}
use fuse_file_system.Bitmap.Bits.{used}
use fuse_file_system.Bitmap.Modify.{used-marked_set}
use fuse_file_system.Bitmap.Search.{free_blocks}
use fuse_file_system.Paths.{CString, is_named}
use fuse_file_system.Rename.Names.{IsToken}
use fuse_file_system.Create.{new_inode}
use fuse_file_system.Create.Success.{HasRoom}
use fuse_file_system.Create.Directories.{made, made-IsVolume}
use fuse_file_system.Volume.{inode_at, dir_at}
use fuse_file_system.Namespace.{Added, linked, names_of}
use fuse_file_system.Namespace.Follow.{IsPlace-IsParent, names_missing}
use fuse_file_system.Namespace.Frame.{set_names-Agree}
use fuse_file_system.Consistency.{folder, Role, listing, is_spare, IsNode, IsFolder, IsConsistent}
use fuse_file_system.Paths.Entries.{find_entry-none}
use fuse_file_system.Consistency.Frame.{role-below}
use fuse_file_system.Consistency.Change.{Anew, IsChange, IsChange-IsConsistent}
use fuse_file_system.Consistency.Outcome.{IsSound}
use fuse_file_system.Consistency.Entries.{set-IsListing}
use fuse_file_system.Consistency.NewEntry.{new-IsEntry, new_names, not_named_yet}
use fuse_file_system.Create.Inodes.{
  new_folder-FitsInode, new_folder-is_dir, new_folder-size, new_folder-ptr,
}
use fuse_file_system.Consistency.NewFolder.{with_folder, new_folder, IsNewFolder}

module _ {s : FsState} {role : ℕ → Role} (c : IsConsistent s role) {path : CString}
    {ts : List CString} {t : CString} {p d slot : ℕ} (h : HasRoom s path ts t p d slot)
    (listed : role d ≡ listing p) (token : IsToken t) (host : Host) (mode n m : ℕ) (rest : List ℕ)
    (found : free_blocks s.bitmap (s.superblock.disk_size - 0) 0 ≡ n ∷ m ∷ rest)
    (small : mode < 2 ^ 12) where
  abbrev after : FsState
  after = made host mode s t d slot n m

  abbrev role' : ℕ → Role
  role' = with_folder role d slot n m

  f : IsNewFolder host mode s after role role' t d slot n m
  f = new_folder c h listed token host mode n m rest found

  new_inode_at : inode_at after n ≡ new_inode host mode true m
  new_inode_at =
      ap decode_inode f.at_n
      ∙ decode-encode_inode (new_inode host mode true m)
          (new_folder-FitsInode host mode m small (omega (arith, f.m_below, c.volume.fits_bitmap)))

  n-IsFolder : IsFolder after role' n
  n-IsFolder = record {
    directory = rw new_inode_at (new_folder-is_dir host mode m small);
    one_block = rw new_inode_at (new_folder-size host mode m small);
    listed = rw (new_inode_at, new_folder-ptr host mode m small) f.m_role;
  }

  anew : (b : ℕ) → Anew role d b → is_spare (role' b) ≡ false → (b ≡ d) ⊎ ((b ≡ n) ⊎ (b ≡ m))
  anew b (inl e) live = inl e
  anew b (inr unused) live = elim (Bool-cases (b == n)) [
    | inl e ↦ inr (inl (==→eq b n e))
    | inr e ↦ elim (Bool-cases (b == m)) [
      | inl e' ↦ inr (inr (==→eq b m e'))
      | inr e' ↦ let stays : is_spare (role b) ≡ false = rw (e, e') at live in cc
    ]
  ]

  d_role : role' d ≡ listing p
  d_role = f.adds d f.d_taken ∙ listed

  used_after : (b : ℕ) → b < s.superblock.disk_size → used after.bitmap b ≡ not (is_spare (role' b))
  used_after b lt = ground (arith, used-marked_set (n ∷ m ∷ []) b c.volume.bytes, c.in_use b lt)

  made-IsChange : IsChange s after role role' d
  made-IsChange = record {
    volume = made-IsVolume c.volume h host mode n m rest found;
    superblock = refl;
    not_super = h.not_super;
    bytes = f.bytes;
    format = λ b lt. f.adds b (ground (arith, c.super, c.bitmap, c.root));
    in_range = λ b live. elim (Bool-cases (is_spare (role b))) [
      | inl unused ↦ elim (anew b (inr unused) live) [
        | inl e ↦ rw e h.below
        | inr (inl e) ↦ rw e f.n_below
        | inr (inr e) ↦ rw e f.m_below
      ]
      | inr taken ↦ c.in_range b taken
    ];
    in_use = λ b lt. used_after b lt;
    old = λ b a a'. f.adds b a;
    same = λ b a a' n1 nd.
        f.old_block b (role-below c b a) n1 nd (f.ne_fresh b n a f.n_spare)
          (f.ne_fresh b m a f.m_spare);
    keeps_listing = λ b i l a ne. f.adds b (rw l refl) ∙ l;
    keeps_content = λ b i k l a ne. f.adds b (rw l refl) ∙ l;
    keeps_node = λ b e k kind l a ne. f.adds b (rw l refl) ∙ l;
    folders = λ b a hb. elim (anew b a (rw hb refl)) [
      | inl e ↦ cc (e, d_role, hb)
      | inr (inl e) ↦ rw e n-IsFolder
      | inr (inr e) ↦ cc (e, f.m_role, hb)
    ];
    plains = λ b a hb. elim (anew b a (rw hb refl)) [
      | inl e ↦ cc (e, d_role, hb)
      | inr (inl e) ↦ cc (e, f.n_role, hb)
      | inr (inr e) ↦ cc (e, f.m_role, hb)
    ];
    listings = λ b a hb. elim (anew b a (rw hb refl)) [
      | inl e ↦ rw e (
          set-IsListing (c.bytes d h.below)
            (new-IsEntry c h listed token role' n folder f.n_below f.n_role f.adds) after
            (c.listings d listed) f.at_d)
      | inr (inl e) ↦ cc (e, f.n_role, hb)
      | inr (inr e) ↦ rw e f.empty
    ];
  }

  alive : (b : ℕ) → is_spare (role b) ≡ false → is_spare (role' b) ≡ false
  alive b live = rw (f.adds b live) live

  p_live : is_spare (role p) ≡ false
  p_live = ground (arith, c.in_use p h.parent.below, h.parent.in_use)

  no_names : (u : CString) → names_of after n u ≡ none
  no_names u = names_missing after n u n-IsFolder.directory (
      rw (new_inode_at, new_folder-ptr host mode m small)
        (find_entry-none (is_named u) (dir_at after m) max_dir_entries 0
          (λ k lo hi. f.not_named k u)))

  made-Added : Added s role path after
  made-Added = record {
    name = t;
    parent = p;
    inum = n;
    place = IsPlace-IsParent c.volume h.place;
    free = not_named_yet c h listed token;
    new = λ q. let (kind, place, hn) = q in cc (f.n_spare, hn);
    agree =
        set_names-Agree c made-IsChange h.place listed (alive p p_live)
          (new-IsEntry c h listed token role' n folder f.n_below f.n_role f.adds) f.at_d
          (IsNode role) (linked (names_of s) p t n)
          (λ i q. let (kind, place, hi) = q in (q, alive i (rw hi refl)))
          (λ i u ne. rw (ne→== i p ne) refl)
          (λ u other short. new_names c h listed token n u other f.n_below);
    empty = no_names;
  }

  -- The volume is consistent, and has the name.
  pub made_ends :
      IsSound (made host mode s t d slot n m) × Added s role path (made host mode s t d slot n m)
  made_ends = ((role', IsChange-IsConsistent c made-IsChange), made-Added)
