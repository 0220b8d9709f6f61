-- ===== src/Truncate/Success.antt =====
-- When `fs_truncate` of homework.c succeeds, and what it leaves.
use fuse_file_system.Prelude.{
  ℕ, ◌+◌, ◌-◌, ◌/◌, ◌^◌, ◌≤◌, ◌<◌, ◌≡◌, ◌∙◌, sym, ap, subst, true, false, not, ◌&&◌, List, arith,
  lt→leb, lt_int, sub_int, extend, refl, to_int, has, if◌then◌else◌,
}
use fuse_file_system.Layout.{Block, Inode, encode_inode, ptr_count, block_size}
use fuse_file_system.Layout.RoundTrip.{
  FitsBlock, FitsInode, decode_inode-FitsInode, decode-encode_inode,
}
use fuse_file_system.State.{FsState, ok}
use fuse_file_system.Disk.Laws.{
  OnDisk, with_block, block_read-ok, block_write-ok, OnDisk-put_block, block_of_read,
  block-put_block_ne, block-put_block_self,
}
use fuse_file_system.Bitmap.Bits.{used}
use fuse_file_system.Bitmap.Count.{Distinct, Distinct-InBitmap}
use fuse_file_system.Bitmap.Modify.{with_bitmap, modify_bitmap-ok, used-marked_clear}
use fuse_file_system.Paths.{CString, is_reg}
use fuse_file_system.Paths.Resolve.{Reads, Resolves-frame, path_to_inode_whole}
use fuse_file_system.Attributes.{inode_to_stat, fs_getattr}
use fuse_file_system.Attributes.Rewrite.{IsTarget, path_to_target}
use fuse_file_system.Content.{file_blocks}
use fuse_file_system.Content.Ptrs.{ptr_list, length-ptr_list}
use fuse_file_system.Remove.{give_blocks}
use fuse_file_system.Truncate.{target_blocks, fs_truncate}
use fuse_file_system.Truncate.Drop.{dropped, drop_ptrs-ok, dropped-stat, dropped-FitsInode}
use fuse_file_system.Volume.{IsVolume, Untouched, inode_at}
use fuse_file_system.Volume.Keeps.{with_block-IsVolume, give-IsVolume}

-- The number of blocks that hold `len` bytes: the least whose size is not below it.
abbrev pub blocks_for : ℕ → ℕ
blocks_for len = (len + (block_size - 1)) / block_size

blocks_for-target_blocks : (len : ℕ) → len < 2 ^ 31 → target_blocks len ≡ blocks_for len
blocks_for-target_blocks len short = ground arith

-- How many blocks are given back, which, the inode that is written, and the state that is left.
abbrev pub surplus : FsState → (i len : ℕ) → ℕ
surplus s i len = file_blocks (inode_at s i).size - blocks_for len

abbrev pub cut_blocks : FsState → (i len : ℕ) → List ℕ
cut_blocks s i len = ptr_list (inode_at s i) (surplus s i len) (blocks_for len)

abbrev pub cut_inode : FsState → (i len : ℕ) → Inode
cut_inode s i len = record (dropped (inode_at s i) (surplus s i len) (blocks_for len)) {
  size = to_int len;
}

abbrev pub truncated : FsState → (i len : ℕ) → FsState
truncated s i len =
    give_blocks (surplus s i len)
      (with_bitmap false (cut_blocks s i len) (with_block s i (encode_inode (cut_inode s i len))))

-- A regular file, whose blocks behind the new end are its own, and that has as many as are to be kept.
pub record CanTruncate (s : FsState) (path : CString) (i len : ℕ) : Type 0 where
  pub file : IsTarget s path i
  pub open file use *
  pub regular : is_reg (inode_at s i).mode ≡ true
  pub bytes : FitsBlock (s.image.block i)
  pub short : len < 2 ^ 31
  pub few : file_blocks (inode_at s i).size ≤ ptr_count
  pub room : blocks_for len ≤ file_blocks (inode_at s i).size
  pub distinct : Distinct true s.superblock.disk_size s.bitmap (cut_blocks s i len)
  pub not_format : (b : ℕ) → b < 3 → has b (cut_blocks s i len) ≡ false

not_less : (a b : ℕ) → a ≤ ptr_count → b ≤ a → lt_int a b ≡ false
not_less a b small le = ground arith

count-surplus : (a b : ℕ) → a ≤ ptr_count → b ≤ a → (if lt_int b a then sub_int a b else 0) ≡ a - b
count-surplus a b small le = ground arith

sub_int-surplus : (a b : ℕ) → a ≤ ptr_count → b ≤ a → sub_int a b ≡ a - b
sub_int-surplus a b small le = omega arith

module _ {s : FsState} {path : CString} {i len : ℕ} (v : IsVolume s)
    (h : CanTruncate s path i len) where
  pub fs_truncate-ok : fs_truncate path len s ≡ (ok tt, truncated s i len)
  unfolding fs_truncate
  fs_truncate-ok =
      let old = file_blocks (inode_at s i).size in
      let target = blocks_for len in
      rw (
        lt→leb (2 ^ 63) len (omega (arith, h.short)),
        path_to_target v h.file,
        h.regular,
        blocks_for-target_blocks len h.short,
        not_less old target h.few h.room,
        count-surplus old target h.few h.room,
        sub_int-surplus old target h.few h.room,
        drop_ptrs-ok (inode_at s i) (surplus s i len) target s (omega (arith, h.few, h.room)),
        block_write-ok {s = s} (v.on_disk i h.below) (encode_inode (cut_inode s i len))
            (omega (arith, h.not_super)),
        modify_bitmap-ok false (cut_blocks s i len)
            (with_block s i (encode_inode (cut_inode s i len)))
            (Distinct-InBitmap true s.superblock.disk_size s.bitmap (cut_blocks s i len)
              v.fits_bitmap h.distinct)
            (OnDisk-put_block i (encode_inode (cut_inode s i len))
              (v.on_disk 1 (omega (arith, v.has_root)))),
      )

  after : FsState
  after = truncated s i len

  after-OnDisk : (lba : ℕ) → lba < s.superblock.disk_size → OnDisk after.image lba
  unfolding after
  after-OnDisk lba lt = OnDisk-put_block 1 _ (OnDisk-put_block i _ (v.on_disk lba lt))

  frame : (lba : ℕ) (b : Block) → Untouched s i lba → Reads s lba b → Reads after lba b
  unfolding after
  frame lba b u r =
      block_read-ok {s = after} (after-OnDisk lba u.below)
      ∙ ap (λ c. (ok c, after))
          (block-put_block_ne 1 _ (OnDisk-put_block i _ (v.on_disk lba u.below)) u.not_bitmap
            ∙ block-put_block_ne i _ (v.on_disk lba u.below) u.not_entries
            ∙ sym (block_of_read {s = s} (v.on_disk lba u.below) r))

  target-Reads : Reads after i (encode_inode (cut_inode s i len))
  unfolding after
  target-Reads =
      block_read-ok {s = after} (after-OnDisk i h.below)
      ∙ ap (λ c. (ok c, after))
          (block-put_block_ne 1 _ (OnDisk-put_block i _ (v.on_disk i h.below)) h.not_bitmap
            ∙ block-put_block_self s.image i _)

  pub cut_inode-FitsInode : FitsInode (cut_inode s i len)
  cut_inode-FitsInode =
      let f =
        dropped-FitsInode (inode_at s i) (surplus s i len) (blocks_for len)
          (decode_inode-FitsInode h.bytes) in
      record {
        uid = f.uid;
        gid = f.gid;
        mode = f.mode;
        ctime = f.ctime;
        mtime = f.mtime;
        size = omega arith;
        ptrs = f.ptrs;
      }

  new_stat :
      inode_to_stat (cut_inode s i len) ≡ inode_to_stat (record (inode_at s i) { size = len })
  new_stat =
      dropped-stat (inode_at s i) (surplus s i len) (blocks_for len) (to_int len)
      ∙ ap (λ size. inode_to_stat (record (inode_at s i) { size = size })) (omega (arith, h.short))

  stat_of_length :
      inode_to_stat (record (inode_at s i) { size = len })
      ≡ record (inode_to_stat (inode_at s i)) { size = len }
  unfolding inode_to_stat
  stat_of_length = let extended : extend len ≡ len = ground (arith, h.short) in rw extended refl

  -- `fs_truncate` of a regular file to a length that needs no more blocks than it has returns 0
  -- and leaves a volume in order, in which the blocks in use are those of before without those of
  -- the file behind the least number that holds the length; `fs_getattr` then reports the new
  -- length, and the mode, the ids and the times of the inode.
  pub truncate_then_getattr :
      let s' = truncated s i len in
      (fs_truncate path len s ≡ (ok tt, s'))
      × IsVolume s'
      × ((j : ℕ) → used s'.bitmap j ≡ (not (has j (cut_blocks s i len)) && used s.bitmap j))
      × (fs_getattr path s' ≡ (
        ok (record {
          mode = (inode_at s i).mode;
          uid = (inode_at s i).uid;
          gid = (inode_at s i).gid;
          size = len;
          ctime = (inode_at s i).ctime;
          mtime = (inode_at s i).mtime;
          atime = (inode_at s i).mtime;
          nlink = 1;
        }),
        s',
      ))
  unfolding fs_getattr inode_to_stat after
  truncate_then_getattr = (
    fs_truncate-ok,
    subst
        (λ k. IsVolume (
          give_blocks k (
            with_bitmap false (cut_blocks s i len)
              (with_block s i (encode_inode (cut_inode s i len))))))
        (length-ptr_list (inode_at s i) (surplus s i len) (blocks_for len))
        (give-IsVolume (with_block-IsVolume i (encode_inode (cut_inode s i len)) h.not_bitmap v)
          (cut_blocks s i len) h.distinct h.not_format),
    λ j. used-marked_clear (cut_blocks s i len) j v.bytes,
    rw
        (
          path_to_inode_whole path (Resolves-frame s (Untouched s i) after frame h.resolves)
              target-Reads,
          decode-encode_inode (cut_inode s i len) cut_inode-FitsInode,
        )
        (ap (λ st. (ok st, after)) (new_stat ∙ stat_of_length)),
  )
