-- ===== src/Write/Buffer.antt =====
-- The buffer that `fs_write` of homework.c fills before it stores it.
use fuse_file_system.Prelude.{
  ℕ, ◌+◌, ◌-◌, ◌*◌, ◌/◌, ◌%◌, ◌≤◌, ◌<◌, ◌≡◌, ◌∙◌, sym, ap, refl, Bool, true, false, ◌&&◌, arith,
  ltb, leb, lt→leb, lt→ltb, le→ltb, ltb→le, if◌then◌else◌, Bool-cases, inl, inr, ◌⊎◌,
}
use fuse_file_system.Layout.{Block, Inode, block_size, zeros, ptr_count}
use fuse_file_system.State.{FsState, ok}
use fuse_file_system.Disk.Laws.{OnDisk, block_read-ok}
use fuse_file_system.Content.{copy_into}
use fuse_file_system.Write.{load_block, fill_buffer}

-- The first block of the range, the last one if the file has several, and the new bytes.
abbrev pub filled_buffer : FsState → Inode → (blocks start end : ℕ) → Block → (len at : ℕ) → Block
filled_buffer s n blocks start end src len at =
    let first = copy_into zeros 0 (s.image.block (n.ptrs start)) block_size in
    let last =
      copy_into first (block_size * (end - start)) (s.image.block (n.ptrs end)) block_size in
    copy_into (if ltb 1 blocks then last else first) at src len

load_block-ok :
    {s : FsState} (n : Inode) (test : Bool) (room i at : ℕ) (buf : Block)
    → OnDisk s.image (n.ptrs i)
    → i < ptr_count
    → at + block_size ≤ room
    → load_block n test room i at buf s
      ≡ (ok (if test then copy_into buf at (s.image.block (n.ptrs i)) block_size else buf), s)
load_block-ok {s} n true room i at buf on lt fits =
    rw (lt→leb ptr_count i lt, block_read-ok {s = s} on, le→ltb room (at + block_size) fits)
load_block-ok n false room i at buf on lt fits = refl

pub fill_buffer-ok :
    {s : FsState} (n : Inode) (blocks start end : ℕ) (src : Block) (len at : ℕ)
    → OnDisk s.image (n.ptrs start)
    → OnDisk s.image (n.ptrs end)
    → start ≤ end
    → end < ptr_count
    → 0 < blocks
    → at + len ≤ block_size * (end - start + 1)
    → fill_buffer n blocks (block_size * (end - start + 1)) start end src len at s
      ≡ (ok (filled_buffer s n blocks start end src len at), s)
unfolding fill_buffer
fill_buffer-ok {s} n blocks start end src len at on_start on_end le few some fits = rw (
  lt→ltb 0 blocks some,
  load_block-ok {s = s} n true (block_size * (end - start + 1)) start 0 zeros on_start (omega arith)
      (omega arith),
  load_block-ok {s = s} n (ltb 1 blocks) (block_size * (end - start + 1)) end
      (block_size * (end - start)) (copy_into zeros 0 (s.image.block (n.ptrs start)) block_size)
      on_end few (omega arith),
  le→ltb (block_size * (end - start + 1)) (at + len) fits,
)

-- A byte of the file's block `start`, and one of its block `end`, at place `q` of the buffer.
module _ (first last : Block) (start end : ℕ) where
  place_first :
      (several : Bool) (q : ℕ)
      → q < block_size
      → (several ≡ false) ⊎ (start < end)
      → (if several
            then copy_into
                (copy_into zeros 0 first block_size)
                (block_size * (end - start))
                last
                block_size
            else copy_into zeros 0 first block_size)
          q
        ≡ first q
  place_first false q lt h = ground arith
  place_first true q lt (inl h) = ground arith
  place_first true q lt (inr h) = ground arith

  place_last :
      (q : ℕ)
      → block_size * (end - start) ≤ q
      → q < block_size * (end - start) + block_size
      → copy_into
          (copy_into zeros 0 first block_size)
          (block_size * (end - start))
          last
          block_size
          q
        ≡ last (q - block_size * (end - start))
  place_last q lo hi = ground arith

-- The new bytes lie over the old ones.
overlay :
    (old src : Block) (offset len at : ℕ)
    → offset / block_size ≤ at / block_size
    → let q = block_size * (at / block_size - offset / block_size) + at % block_size in
      copy_into old (offset % block_size) src len q
      ≡ (if leb offset at && ltb at (offset + len) then src (at - offset) else old q)
overlay old src offset len at le =
    let q = block_size * (at / block_size - offset / block_size) + at % block_size in
    let below : leb (offset % block_size) q ≡ leb offset at = ground arith in
    let above : ltb q (offset % block_size + len) ≡ ltb at (offset + len) = ground arith in
    let place : q - offset % block_size ≡ at - offset = omega arith in rw (below, above, place)

-- A byte outside the range is in the first or in the last block.
old_byte :
    (s : FsState) (n : Inode) (blocks offset len at : ℕ)
    → 0 < len
    → (offset + len - 1) / block_size < blocks
    → offset / block_size ≤ at / block_size
    → at / block_size ≤ (offset + len - 1) / block_size
    → (leb offset at && ltb at (offset + len)) ≡ false
    → let start = offset / block_size in
      let end = (offset + len - 1) / block_size in
      let first = copy_into zeros 0 (s.image.block (n.ptrs start)) block_size in
      let last =
        copy_into first (block_size * (end - start)) (s.image.block (n.ptrs end)) block_size in
      (if ltb 1 blocks then last else first)
        (block_size * (at / block_size - start) + at % block_size)
      ≡ s.image.block (n.ptrs (at / block_size)) (at % block_size)
old_byte s n blocks offset len at some few lo hi out =
    let start = offset / block_size in
    let end = (offset + len - 1) / block_size in
    elim (Bool-cases (ltb (at / block_size) end)) [
      | inl e ↦
          let k : at / block_size ≡ start = ground (arith, e, out) in
          let q : block_size * (at / block_size - start) + at % block_size ≡ at % block_size =
            omega arith in
          let later : start < end = ground (arith, e, lo) in
          rw q (
            place_first (s.image.block (n.ptrs start)) (s.image.block (n.ptrs end)) start end
              (ltb 1 blocks) (at % block_size) (omega arith) (inr later)
            ∙ ap (λ m. s.image.block (n.ptrs m) (at % block_size)) (sym k))
      | inr e ↦
          let k : at / block_size ≡ end = ground (arith, e, hi) in
          elim (Bool-cases (ltb 1 blocks)) [
            | inl several ↦
                let q = block_size * (at / block_size - start) + at % block_size in
                let place : q - block_size * (end - start) ≡ at % block_size = omega arith in
                rw several (
                  place_last (s.image.block (n.ptrs start)) (s.image.block (n.ptrs end)) start end q
                    (omega arith) (omega arith)
                  ∙ rw (place, k))
            | inr one ↦
                let single : blocks ≤ 1 = ltb→le 1 blocks one in
                let q : block_size * (at / block_size - start) + at % block_size ≡ at % block_size =
                  omega arith in
                let same : at / block_size ≡ start = omega arith in
                rw (one, q)
                  (place_first (s.image.block (n.ptrs start)) (s.image.block (n.ptrs end)) start end
                      false (at % block_size) (omega arith) (inl refl)
                    ∙ ap (λ m. s.image.block (n.ptrs m) (at % block_size)) (sym same))
          ]
    ]

-- A byte of the buffer: the new one in the range, and the file's elsewhere.
pub filled_byte :
    (s : FsState) (n : Inode) (src : Block) (blocks offset len at : ℕ)
    → 0 < len
    → (offset + len - 1) / block_size < blocks
    → offset / block_size ≤ at / block_size
    → at / block_size ≤ (offset + len - 1) / block_size
    → filled_buffer s n blocks
        (offset / block_size)
        ((offset + len - 1) / block_size)
        src
        len
        (offset % block_size)
        (block_size * (at / block_size - offset / block_size) + at % block_size)
      ≡ (if leb offset at && ltb at (offset + len)
          then src (at - offset)
          else s.image.block (n.ptrs (at / block_size)) (at % block_size))
filled_byte s n src blocks offset len at some few lo hi =
    let start = offset / block_size in
    let end = (offset + len - 1) / block_size in
    let first : Block = copy_into zeros 0 (s.image.block (n.ptrs start)) block_size in
    let last : Block =
      copy_into first (block_size * (end - start)) (s.image.block (n.ptrs end)) block_size in
    overlay (if ltb 1 blocks then last else first) src offset len at lo
    ∙ elim (Bool-cases (leb offset at && ltb at (offset + len))) [
      | inl e ↦ rw e
      | inr e ↦ rw e (old_byte s n blocks offset len at some few lo hi e)
    ]
