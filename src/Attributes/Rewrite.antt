-- ===== src/Attributes/Rewrite.antt =====
-- An inode that an operation of homework.c writes back in its place, and what a later call sees.
use fuse_file_system.Prelude.{ℕ, ◌<◌, ◌≡◌, ◌≢◌, sym, ◌∙◌, ap}
use fuse_file_system.Layout.{Block, Inode, encode_inode}
use fuse_file_system.Layout.RoundTrip.{FitsInode, decode-encode_inode}
use fuse_file_system.State.{FsState, ok}
use fuse_file_system.Disk.Laws.{
  with_block, block_read-ok, OnDisk-put_block, block_of_read, block-put_block_ne,
  block-put_block_self,
}
use fuse_file_system.Paths.{CString, parse, root_inum, path_to_inode}
use fuse_file_system.Paths.Resolve.{Reads, Resolves, Resolves-frame, path_to_inode_whole}
use fuse_file_system.Attributes.{inode_to_stat, fs_getattr}
use fuse_file_system.Volume.{IsVolume, Untouched, inode_at}

-- The path leads to inode `i`, and the walk reads its block only at the end.
pub record IsTarget (s : FsState) (path : CString) (i : ℕ) : Type 0 where
  pub resolves : Resolves s (Untouched s i) (parse path) root_inum i
  pub below : i < s.superblock.disk_size
  pub not_super : i ≢ 0
  pub not_bitmap : i ≢ 1

module _ {s : FsState} {path : CString} {i : ℕ} (v : IsVolume s) (h : IsTarget s path i) where
  pub path_to_target : path_to_inode path 0 s ≡ (ok (i, inode_at s i), s)
  path_to_target = path_to_inode_whole path h.resolves (block_read-ok {s = s} (v.on_disk i h.below))

  module _ (n : Inode) (fits : FitsInode n) where
    after : FsState
    after = with_block s i (encode_inode n)

    frame : (lba : ℕ) (b : Block) → Untouched s i lba → Reads s lba b → Reads after lba b
    unfolding after
    frame lba b u r =
        block_read-ok {s = after} (OnDisk-put_block i _ (v.on_disk lba u.below))
        ∙ ap (λ c. (ok c, after))
            (block-put_block_ne i _ (v.on_disk lba u.below) u.not_entries
              ∙ sym (block_of_read {s = s} (v.on_disk lba u.below) r))

    target-Reads : Reads after i (encode_inode n)
    unfolding after
    target-Reads =
        block_read-ok {s = after} (OnDisk-put_block i _ (v.on_disk i h.below))
        ∙ ap (λ c. (ok c, after)) (block-put_block_self s.image i _)

    -- `fs_getattr` reports the inode that was written.
    pub getattr_rewritten :
        let s' = with_block s i (encode_inode n) in fs_getattr path s' ≡ (ok (inode_to_stat n), s')
    unfolding fs_getattr after
    getattr_rewritten = rw (
      path_to_inode_whole path (Resolves-frame s (Untouched s i) after frame h.resolves)
          target-Reads,
      decode-encode_inode n fits,
    )
