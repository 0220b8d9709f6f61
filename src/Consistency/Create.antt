-- ===== src/Consistency/Create.antt =====
-- The state that `fs_create` of homework.c leaves is consistent, with the new file in its entry.
use fuse_file_system.Prelude.{
  ℕ, ◌^◌, ◌<◌, ◌≡◌, ◌≢◌, ◌⊎◌, ◌∙◌, refl, sym, ap, true, false, not, List, [], ◌∷◌, arith, ◌==◌,
  if◌then◌else◌, eq→==, ne→==, ==→eq, inl, inr, Bool-cases,
}
use fuse_file_system.Layout.{decode_inode, encode_inode, encode_dir}
use fuse_file_system.Layout.RoundTrip.{
  FitsBlock, FitsInode, decode-encode_inode, encode_inode-FitsBlock,
}
use fuse_file_system.State.{FsState}
use fuse_file_system.Host.{Host}
use fuse_file_system.Disk.{put_block}
use fuse_file_system.Disk.Laws.{OnDisk-put_block, block-put_block_ne, block-put_block_self}
use fuse_file_system.Bitmap.Bits.{used}
use fuse_file_system.Bitmap.Modify.{marked, marked-FitsBlock, used-marked_set}
use fuse_file_system.Content.{file_blocks}
use fuse_file_system.Paths.{CString, is_reg}
use fuse_file_system.Rename.Names.{IsToken}
use fuse_file_system.Directory.{inode_from_mode}
use fuse_file_system.Create.{new_inode}
use fuse_file_system.Create.Success.{HasRoom, created}
use fuse_file_system.Create.Entry.{with_entry}
use fuse_file_system.Create.Keeps.{created-IsVolume, free-ne_bitmap}
use fuse_file_system.Volume.{IsVolume, inode_at}
use fuse_file_system.Namespace.{Added, linked, names_of}
use fuse_file_system.Namespace.Follow.{IsPlace-IsParent, names_of_file}
use fuse_file_system.Namespace.Frame.{set_names-Agree}
use fuse_file_system.Consistency.{
  plain, under, Role, node, listing, is_spare, IsNode, IsPlain, IsConsistent,
}
use fuse_file_system.Consistency.Frame.{role-below, unused-spare}
use fuse_file_system.Consistency.Change.{Anew, IsChange, IsChange-IsConsistent}
use fuse_file_system.Consistency.Outcome.{IsSound, put_block-FitsBlock}
use fuse_file_system.Consistency.Entries.{entries-FitsBlock, set-IsListing}
use fuse_file_system.Consistency.NewEntry.{new-IsEntry, new_names, not_named_yet}

new_file-FitsInode :
    (host : Host) (mode : ℕ)
    → mode < 2 ^ 32
    → is_reg mode ≡ true
    → FitsInode (new_inode host mode false 0)
unfolding new_inode inode_from_mode
new_file-FitsInode host mode lt reg = record {
  uid = omega arith;
  gid = omega arith;
  mode = lt;
  ctime = omega arith;
  mtime = omega arith;
  size = ground arith;
  ptrs = λ i. ground arith;
}

new_file-mode : (host : Host) (mode : ℕ) → (new_inode host mode false 0).mode ≡ mode
unfolding new_inode inode_from_mode
new_file-mode host mode = refl

new_file-size :
    (host : Host) (mode : ℕ) → is_reg mode ≡ true → (new_inode host mode false 0).size ≡ 0
unfolding new_inode inode_from_mode
new_file-size host mode reg = ground arith

-- The roles once block `n` is the inode of a file in the entry.
abbrev with_file : (ℕ → Role) → (d slot n : ℕ) → ℕ → Role
with_file role d slot n b = if b == n then node plain (under d slot) else role b

module _ {s : FsState} {role : ℕ → Role} (c : IsConsistent s role) {path : CString}
    {ts : List CString} {t : CString} {p d slot : ℕ} (h : HasRoom s path ts t p d slot)
    (listed : role d ≡ listing p) (token : IsToken t) (host : Host) (mode n : ℕ)
    (below : n < s.superblock.disk_size) (unused : used s.bitmap n ≡ false) where
  v : IsVolume s
  v = c.volume

  after : FsState
  after = created host mode s t d slot n

  role' : ℕ → Role
  role' = with_file role d slot n

  fresh : is_spare (role n) ≡ true
  fresh = unused-spare c n below unused

  d-ne_n : d ≢ n
  d-ne_n e = let live : is_spare (role d) ≡ false = rw listed refl in cc

  adds : (b : ℕ) → is_spare (role b) ≡ false → role' b ≡ role b
  unfolding role'
  adds b live = rw (ne→== b n (λ e. cc (live, fresh, e)))

  new_role : role' n ≡ node plain (under d slot)
  unfolding role'
  new_role = rw (eq→== n n refl)

  old_block :
      (b : ℕ)
      → b < s.superblock.disk_size
      → b ≢ 1
      → b ≢ d
      → b ≢ n
      → after.image.block b ≡ s.image.block b
  unfolding after
  old_block b lt n1 nd nn =
      block-put_block_ne 1 _ (OnDisk-put_block d _ (OnDisk-put_block n _ (v.on_disk b lt))) n1
      ∙ block-put_block_ne d _ (OnDisk-put_block n _ (v.on_disk b lt)) nd
      ∙ block-put_block_ne n _ (v.on_disk b lt) nn

  entries_block : after.image.block d ≡ encode_dir (with_entry s t d slot n)
  unfolding after
  entries_block =
      block-put_block_ne 1 _ (OnDisk-put_block d _ (OnDisk-put_block n _ (v.on_disk d h.below)))
        h.not_bitmap
      ∙ block-put_block_self (put_block s.image n (encode_inode (new_inode host mode false 0))) d _

  inode_block : after.image.block n ≡ encode_inode (new_inode host mode false 0)
  unfolding after
  inode_block =
      block-put_block_ne 1 _ (OnDisk-put_block d _ (OnDisk-put_block n _ (v.on_disk n below)))
        (free-ne_bitmap v unused)
      ∙ block-put_block_ne d _ (OnDisk-put_block n _ (v.on_disk n below)) (λ e. d-ne_n (sym e))
      ∙ block-put_block_self s.image n _

  after-FitsBlock : (b : ℕ) → b < s.superblock.disk_size → FitsBlock (after.image.block b)
  unfolding after
  after-FitsBlock b lt =
      let on = v.on_disk b lt in
      let on' = OnDisk-put_block n (encode_inode (new_inode host mode false 0)) on in
      put_block-FitsBlock 1 (marked true (n ∷ []) s.bitmap) b
        (OnDisk-put_block d (encode_dir (with_entry s t d slot n)) on')
        (marked-FitsBlock true (n ∷ []) v.bytes)
        (put_block-FitsBlock d (encode_dir (with_entry s t d slot n)) b on'
          (entries-FitsBlock (c.bytes d h.below)
            (new-IsEntry c h listed token role' n plain below new_role adds))
          (put_block-FitsBlock n (encode_inode (new_inode host mode false 0)) b on
            (encode_inode-FitsBlock (new_inode host mode false 0)) (c.bytes b lt)))

  module _ (small : mode < 2 ^ 32) (reg : is_reg mode ≡ true) where
    new_inode_at : inode_at after n ≡ new_inode host mode false 0
    new_inode_at =
        ap decode_inode inode_block
        ∙ decode-encode_inode (new_inode host mode false 0) (new_file-FitsInode host mode small reg)

    no_blocks : file_blocks (inode_at after n).size ≡ 0
    unfolding file_blocks
    no_blocks = rw (new_inode_at, new_file-size host mode reg) refl

    new-IsPlain : IsPlain after role' n
    new-IsPlain = record {
      regular = rw (new_inode_at, new_file-mode host mode) reg;
      small = rw (new_inode_at, new_file-size host mode reg) (omega arith);
      few = omega (arith, no_blocks);
      owned = λ k lt. absurd (omega (arith, no_blocks));
    }

    anew : (b : ℕ) → Anew role d b → is_spare (role' b) ≡ false → (b ≡ d) ⊎ (b ≡ n)
    unfolding role'
    anew b (inl e) live = inl e
    anew b (inr free) live = elim (Bool-cases (b == n)) [
      | inl e ↦ inr (==→eq b n e)
      | inr e ↦ let stays : is_spare (role b) ≡ false = rw e at live in cc
    ]

    used_after :
        (b : ℕ) → b < s.superblock.disk_size → used after.bitmap b ≡ not (is_spare (role' b))
    unfolding after role'
    used_after b lt = ground (arith, used-marked_set (n ∷ []) b v.bytes, c.in_use b lt)

    d_role : role' d ≡ listing p
    d_role = adds d (rw listed refl) ∙ listed

    created-IsChange : IsChange s after role role' d
    unfolding after
    created-IsChange = record {
      volume = created-IsVolume v h host mode n below unused;
      superblock = refl;
      not_super = h.not_super;
      bytes = after-FitsBlock;
      format = λ b lt. adds b (ground (arith, c.super, c.bitmap, c.root));
      in_range = λ b live. elim (Bool-cases (is_spare (role b))) [
        | inl free ↦ elim (anew b (inr free) live) [ inl e ↦ rw e h.below | inr e ↦ rw e below ]
        | inr taken ↦ c.in_range b taken
      ];
      in_use = λ b lt. used_after b lt;
      old = λ b a a'. adds b a;
      same = λ b a a' n1 nd. old_block b (role-below c b a) n1 nd (λ e. cc (a, fresh, e));
      keeps_listing = λ b i l a ne. adds b (rw l refl) ∙ l;
      keeps_content = λ b i k l a ne. adds b (rw l refl) ∙ l;
      keeps_node = λ b e k kind l a ne. adds b (rw l refl) ∙ l;
      folders = λ b a hb. elim (anew b a (rw hb refl)) [
        | inl e ↦ cc (e, d_role, hb)
        | inr e ↦ cc (e, new_role, hb)
      ];
      plains = λ b a hb. elim (anew b a (rw hb refl)) [
        | inl e ↦ cc (e, d_role, hb)
        | inr e ↦ rw e new-IsPlain
      ];
      listings = λ b a hb. elim (anew b a (rw hb refl)) [
        | inl e ↦ rw e (
            set-IsListing (c.bytes d h.below)
              (new-IsEntry c h listed token role' n plain below new_role adds) after
              (c.listings d listed) entries_block)
        | inr e ↦ cc (e, new_role, hb)
      ];
    }

    alive : (b : ℕ) → is_spare (role b) ≡ false → is_spare (role' b) ≡ false
    alive b live = rw (adds b live) live

    p_live : is_spare (role p) ≡ false
    p_live = ground (arith, c.in_use p h.parent.below, h.parent.in_use)

    created-Added : Added s role path after
    created-Added = record {
      name = t;
      parent = p;
      inum = n;
      place = IsPlace-IsParent v h.place;
      free = not_named_yet c h listed token;
      new = λ q. let (kind, place, hn) = q in cc (fresh, hn);
      agree =
          set_names-Agree c created-IsChange h.place listed (alive p p_live)
            (new-IsEntry c h listed token role' n plain below new_role adds) entries_block
            (IsNode role) (linked (names_of s) p t n)
            (λ i q. let (kind, place, hi) = q in (q, alive i (rw hi refl)))
            (λ i u ne. rw (ne→== i p ne) refl)
            (λ u other short. new_names c h listed token n u other below);
      empty = λ u. names_of_file after n u (ground (arith, new-IsPlain.regular));
    }

    -- The volume is consistent, and has the name.
    pub created_ends :
        IsSound (created host mode s t d slot n)
        × Added s role path (created host mode s t d slot n)
    unfolding after
    created_ends = ((role', IsChange-IsConsistent c created-IsChange), created-Added)
