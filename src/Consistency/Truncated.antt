-- ===== src/Consistency/Truncated.antt =====
-- The state that `fs_truncate` of homework.c leaves is consistent, with the same names.
use fuse_file_system.Prelude.{
  sym, ◌==◌, ==→eq, ==→ne, ℕ, ◌^◌, ◌≤◌, ◌<◌, ◌≡◌, ◌≢◌, ◌∙◌, refl, ap, true, false, not, arith,
  to_int, inl, inr, Bool-cases, has,
}
use fuse_file_system.Layout.{decode_inode, encode_inode}
use fuse_file_system.Layout.RoundTrip.{
  FitsBlock, FitsInode, decode-encode_inode, encode_inode-FitsBlock,
}
use fuse_file_system.State.{FsState}
use fuse_file_system.Disk.Laws.{OnDisk-put_block, block-put_block_ne, block-put_block_self}
use fuse_file_system.Bitmap.Bits.{used}
use fuse_file_system.Bitmap.Count.{Distinct}
use fuse_file_system.Bitmap.Modify.{marked, marked-FitsBlock, used-marked_clear}
use fuse_file_system.Paths.{CString}
use fuse_file_system.Content.{file_blocks}
use fuse_file_system.Truncate.Drop.{dropped-mode, dropped-ptrs_below}
use fuse_file_system.Truncate.Success.{
  blocks_for, CanTruncate, surplus, cut_blocks, cut_inode, truncated,
}
use fuse_file_system.Volume.{IsVolume, inode_at}
use fuse_file_system.Namespace.{Kept}
use fuse_file_system.Namespace.Follow.{names_of_file}
use fuse_file_system.Namespace.Frame.{names_kept}
use fuse_file_system.Consistency.{
  plain, folder, Place, Role, node, content, is_spare, IsPlain, IsConsistent,
}
use fuse_file_system.Consistency.Frame.{role-below}
use fuse_file_system.Consistency.Paths.{Finds, finds-IsTarget}
use fuse_file_system.Consistency.Change.{Anew, IsChange, IsChange-IsConsistent}
use fuse_file_system.Consistency.Outcome.{IsSound, put_block-FitsBlock}
use fuse_file_system.Consistency.Removal.{without}
use fuse_file_system.Consistency.Blocks.{has-ptr_list, ptrs-Distinct}

blocks_of_length : (len : ℕ) → len < 2 ^ 31 → file_blocks (to_int len) ≡ blocks_for len
unfolding file_blocks
blocks_of_length len lt = ground arith

module _ {s : FsState} {role : ℕ → Role} (c : IsConsistent s role) {i : ℕ} {place : Place}
    (hi : role i ≡ node plain place) where
  p : IsPlain s role i
  p = c.plains i hi

  module _ (len : ℕ) (room : blocks_for len ≤ file_blocks (inode_at s i).size) where
    -- What is cut off are blocks of the file behind the new end.
    cut_owned :
        (b : ℕ)
        → has b (cut_blocks s i len) ≡ true
        → (k : ℕ) × (blocks_for len ≤ k) × (role b ≡ content i k)
    cut_owned b in_list =
        let (k, lo, hi', same) =
          has-ptr_list (inode_at s i) (surplus s i len) (blocks_for len) b in_list in
        (k, lo, rw same at (p.owned k (omega arith)))

    cut-Distinct : Distinct true s.superblock.disk_size s.bitmap (cut_blocks s i len)
    cut-Distinct =
        ptrs-Distinct c (inode_at s i) i (surplus s i len) (blocks_for len)
          (λ k lo hi'. p.owned k (omega arith))

    not_cut :
        (b : ℕ)
        → ((k : ℕ) → blocks_for len ≤ k → role b ≡ content i k → ⊥)
        → has b (cut_blocks s i len) ≡ false
    not_cut b other = elim (Bool-cases (has b (cut_blocks s i len))) [
      | inl cut ↦ let (k, lo, h) = cut_owned b cut in absurd (other k lo h)
      | inr kept ↦ kept
    ]

    format_kept : (b : ℕ) → b < 3 → has b (cut_blocks s i len) ≡ false
    format_kept b lt = not_cut b (λ k lo h. ground (arith, c.super, c.bitmap, c.root))

    pub can_truncate :
        (path : CString) → Finds s role path i plain place → len < 2 ^ 31 → CanTruncate s path i len
    can_truncate path f short = record {
      file = finds-IsTarget c f;
      regular = p.regular;
      bytes = c.bytes i (role-below c i (rw hi refl));
      short = short;
      few = p.few;
      room = room;
      distinct = cut-Distinct;
      not_format = format_kept;
    }

    module _ (short : len < 2 ^ 31) (after_volume : IsVolume (truncated s i len))
        (fits : FitsInode (cut_inode s i len)) where
      after : FsState
      after = truncated s i len

      role' : ℕ → Role
      role' = without role (cut_blocks s i len)

      stays : (b : ℕ) → ((k : ℕ) → blocks_for len ≤ k → role b ≡ content i k → ⊥) → role' b ≡ role b
      unfolding role'
      stays b other = rw (not_cut b other)

      lives : (b : ℕ) → is_spare (role' b) ≡ false → role' b ≡ role b
      unfolding role'
      lives b live = elim (Bool-cases (has b (cut_blocks s i len))) [
        | inl cut ↦ let freed : true ≡ false = rw cut at live in cc
        | inr kept ↦ rw kept
      ]

      not_one : i ≢ 1
      not_one e = cc (c.bitmap, hi, e)

      at_i : after.image.block i ≡ encode_inode (cut_inode s i len)
      unfolding after
      at_i =
          block-put_block_ne 1 _
            (OnDisk-put_block i _ (c.volume.on_disk i (role-below c i (rw hi refl)))) not_one
          ∙ block-put_block_self s.image i _

      inode_after : inode_at after i ≡ cut_inode s i len
      inode_after = ap decode_inode at_i ∙ decode-encode_inode (cut_inode s i len) fits

      old_block :
          (b : ℕ)
          → b < s.superblock.disk_size
          → b ≢ 1
          → b ≢ i
          → after.image.block b ≡ s.image.block b
      unfolding after
      old_block b lt n1 ni =
          block-put_block_ne 1 _ (OnDisk-put_block i _ (c.volume.on_disk b lt)) n1
          ∙ block-put_block_ne i _ (c.volume.on_disk b lt) ni

      after-FitsBlock : (b : ℕ) → b < s.superblock.disk_size → FitsBlock (after.image.block b)
      unfolding after
      after-FitsBlock b lt =
          put_block-FitsBlock 1 (marked false (cut_blocks s i len) s.bitmap) b
            (OnDisk-put_block i (encode_inode (cut_inode s i len)) (c.volume.on_disk b lt))
            (marked-FitsBlock false (cut_blocks s i len) c.volume.bytes)
            (put_block-FitsBlock i (encode_inode (cut_inode s i len)) b (c.volume.on_disk b lt)
              (encode_inode-FitsBlock (cut_inode s i len)) (c.bytes b lt))

      size_after : (inode_at after i).size ≡ to_int len
      size_after = rw inode_after refl

      blocks_after : file_blocks (inode_at after i).size ≡ blocks_for len
      blocks_after = rw size_after (blocks_of_length len short)

      ptr_after : (k : ℕ) → k < blocks_for len → (inode_at after i).ptrs k ≡ (inode_at s i).ptrs k
      ptr_after k lt =
          rw inode_after (dropped-ptrs_below (inode_at s i) (surplus s i len) (blocks_for len) k lt)

      i-IsPlain : IsPlain after role' i
      i-IsPlain = record {
        regular =
            rw (inode_after, dropped-mode (inode_at s i) (surplus s i len) (blocks_for len))
              p.regular;
        small = rw size_after (omega arith);
        few = omega (arith, blocks_after, p.few);
        owned = λ k lt.
            let below : k < blocks_for len = omega (arith, blocks_after) in
            let before = p.owned k (omega arith) in
            rw (ptr_after k below) (
              stays ((inode_at s i).ptrs k)
                (λ j lo h. let same : k ≡ j = cc in absurd (omega arith))
              ∙ before);
      }

      only_inode : (b : ℕ) → Anew role i b → is_spare (role' b) ≡ false → b ≡ i
      only_inode b (inl e) live = e
      only_inode b (inr free) live = let same = lives b live in cc

      i_role : role' i ≡ node plain place
      i_role = stays i (λ k lo h. cc (h, hi)) ∙ hi

      used_after :
          (b : ℕ) → b < s.superblock.disk_size → used after.bitmap b ≡ not (is_spare (role' b))
      unfolding after role'
      used_after b lt =
          ground (arith, used-marked_clear (cut_blocks s i len) b c.volume.bytes, c.in_use b lt)

      cut-IsChange : IsChange s after role role' i
      unfolding after
      cut-IsChange = record {
        volume = after_volume;
        superblock = refl;
        not_super = λ e. cc (c.super, hi, e);
        bytes = after-FitsBlock;
        format = λ b lt. stays b (λ k lo h. ground (arith, c.super, c.bitmap, c.root));
        in_range = λ b live. c.in_range b (rw (lives b live) at live);
        in_use = used_after;
        old = λ b a live. lives b live;
        same = λ b a live n1 ni. old_block b (role-below c b a) n1 ni;
        keeps_listing = λ b j l live ne. stays b (λ k lo h. cc (l, h)) ∙ l;
        keeps_content = λ b j k l live ne. stays b (λ k' lo h. ne (cc (l, h))) ∙ l;
        keeps_node = λ b e k kind l live ne. stays b (λ k' lo h. cc (l, h)) ∙ l;
        folders = λ b a hb. let e = only_inode b a (rw hb refl) in cc (i_role, hb, e);
        plains = λ b a hb. let e = only_inode b a (rw hb refl) in rw e i-IsPlain;
        listings = λ b a hb. let e = only_inode b a (rw hb refl) in cc (i_role, hb, e);
      }

      truncated-Kept : Kept s role (truncated s i len)
      unfolding after
      truncated-Kept j (k, pl, hj) u token short' = elim (Bool-cases (j == i)) [
        | inl same ↦ rw (==→eq j i same) (
            names_of_file after i u (ground (arith, i-IsPlain.regular))
            ∙ sym (names_of_file s i u (ground (arith, p.regular))))
        | inr other ↦
            names_kept c cut-IsChange j k hj (rw (stays j (λ k' lo e. cc (hj, e)), hj) refl)
              (==→ne j i other)
              (λ is_folder e.
                let dir : role j ≡ node folder _ = rw is_folder at hj in
                let own = (c.folders j dir).listed in cc (own, hi, e))
              u
      ]

      -- The volume is consistent, with the same names.
      pub truncated_ends : IsSound (truncated s i len) × Kept s role (truncated s i len)
      unfolding after
      truncated_ends = ((role', IsChange-IsConsistent c cut-IsChange), truncated-Kept)
