-- ===== src/Write/Bytes.antt =====
-- The bytes of a file after `fs_write` of homework.c over some of them.
use fuse_file_system.Prelude.{
  ℕ, ◌+◌, ◌-◌, ◌*◌, ◌/◌, ◌%◌, ◌≤◌, ◌<◌, ◌≡◌, ◌≢◌, ◌∙◌, sym, ap, false, ◌&&◌, arith, ltb, leb,
  ltb→lt, ltb→le, Bool-cases, inl, inr, ◌⊎◌, if◌then◌else◌,
}
use fuse_file_system.Layout.{Block, block_size}
use fuse_file_system.State.{FsState, ok}
use fuse_file_system.Host.{Host}
use fuse_file_system.Disk.Laws.{block-put_block_ne}
use fuse_file_system.Paths.{CString}
use fuse_file_system.Content.{file_blocks}
use fuse_file_system.Read.Range.{file_byte}
use fuse_file_system.Write.{written_inode, fs_write}
use fuse_file_system.Write.Store.{stored-other, stored-block}
use fuse_file_system.Write.Buffer.{filled_byte}
use fuse_file_system.Volume.{IsVolume, inode_at}
use fuse_file_system.Write.InPlace.{
  end_of, with_inode, write_buffer, overwritten, CanOverwrite, ordered, in_file, on_disk,
  are_blocks, fs_write-ok,
}

module _ {host : Host} {s : FsState} {path : CString} {i len offset : ℕ} (v : IsVolume s)
    (h : CanOverwrite host s path i len offset) (src : Block) where
  inode_apart :
      (k : ℕ)
      → k < (file_blocks (inode_at s i).size)
      → (with_inode host s i len offset).image.block ((inode_at s i).ptrs k)
        ≡ s.image.block ((inode_at s i).ptrs k)
  inode_apart k lt =
      block-put_block_ne i _ (v.on_disk ((inode_at s i).ptrs k) (h.below k lt)) (h.apart k lt)

  -- Each byte of the file afterwards.
  new_byte : ℕ → ℕ
  new_byte at =
      if leb offset at && ltb at (offset + len)
      then src (at - offset)
      else file_byte s (inode_at s i) at

  byte_inside :
      (at : ℕ)
      → (offset / block_size) ≤ at / block_size
      → at / block_size ≤ (end_of len offset)
      → file_byte (overwritten host s i src len offset) (inode_at s i) at ≡ new_byte at
  unfolding new_byte
  byte_inside at lo hi =
      let k = at / block_size in
      let place : (offset / block_size) + (k - (offset / block_size)) ≡ k = omega arith in
      let from : 0 + block_size * (k - (offset / block_size)) + at % block_size
          ≡ block_size * (k - (offset / block_size)) + at % block_size =
        omega arith in
      let held =
        stored-block (with_inode host s i len offset) (written_inode host (inode_at s i) len offset)
          (write_buffer host s i src len offset) ((end_of len offset) - (offset / block_size) + 1)
          (offset / block_size) 0 (k - (offset / block_size)) (are_blocks v h src) (omega arith)
          (at % block_size) in
      (rw (place, from) at held)
      ∙ filled_byte (with_inode host s i len offset) (inode_at s i) src
          (file_blocks (inode_at s i).size) offset len at h.some_bytes (in_file v h src) lo hi
      ∙ ap
          (λ b.
            if leb offset at && ltb at (offset + len)
            then src (at - offset)
            else b (at % block_size))
          (inode_apart k (omega (arith, (in_file v h src))))

  other_block :
      (j k : ℕ)
      → (offset / block_size) ≤ j
      → j ≤ (end_of len offset)
      → k < (file_blocks (inode_at s i).size)
      → (k < (offset / block_size)) ⊎ ((end_of len offset) < k)
      → (inode_at s i).ptrs k ≢ (inode_at s i).ptrs j
  other_block j k lo hi lt (inl before) =
      h.distinct k j (omega arith) (omega (arith, (in_file v h src)))
  other_block j k lo hi lt (inr behind) = λ e. h.distinct j k (omega arith) lt (sym e)

  byte_outside :
      (at : ℕ)
      → at / block_size < (file_blocks (inode_at s i).size)
      → (at / block_size < (offset / block_size)) ⊎ ((end_of len offset) < at / block_size)
      → file_byte (overwritten host s i src len offset) (inode_at s i) at ≡ new_byte at
  unfolding new_byte
  byte_outside at lt out =
      let k = at / block_size in
      let old : (leb offset at && ltb at (offset + len)) ≡ false =
        ground (arith, out, h.some_bytes) in
      rw old (
        ap (λ b. b (at % block_size))
          (stored-other (with_inode host s i len offset)
              (written_inode host (inode_at s i) len offset) (write_buffer host s i src len offset)
              ((end_of len offset) - (offset / block_size) + 1) (offset / block_size) 0
              ((inode_at s i).ptrs k) ((on_disk v h src) k lt)
              (λ j lo hi. other_block j k lo (omega (arith, (ordered v h src))) lt out)
            ∙ inode_apart k lt))

  file_bytes :
      (at : ℕ)
      → at / block_size < (file_blocks (inode_at s i).size)
      → file_byte (overwritten host s i src len offset) (inode_at s i) at ≡ new_byte at
  file_bytes at lt = elim (Bool-cases (ltb (at / block_size) (offset / block_size))) [
    | inl e ↦ byte_outside at lt (inl (ltb→lt _ _ e))
    | inr e ↦ elim (Bool-cases (ltb (end_of len offset) (at / block_size))) [
      | inl e' ↦ byte_outside at lt (inr (ltb→lt _ _ e'))
      | inr e' ↦ byte_inside at (ltb→le _ _ e) (ltb→le _ _ e')
    ]
  ]

-- If calloc succeeds, `fs_write` of at least one byte, all within a regular file whose blocks are
-- different blocks of the volume, returns their number; then each byte of the blocks of the file
-- is the one written, in the range, and that of before elsewhere.
pub fs_write_lem :
    {host : Host} {s : FsState} {path : CString} {i len offset : ℕ}
    → IsVolume s
    → CanOverwrite host s path i len offset
    → (src : Block)
    → let s' = overwritten host s i src len offset in
      (fs_write host path src len offset s ≡ (ok len, s'))
      × ((at : ℕ)
          → at / block_size < file_blocks (inode_at s i).size
          → file_byte s' (inode_at s i) at ≡ (
              if leb offset at && ltb at (offset + len)
              then src (at - offset)
              else file_byte s (inode_at s i) at))
unfolding new_byte
fs_write_lem v h src = (fs_write-ok v h src, file_bytes v h src)
