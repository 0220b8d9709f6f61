-- ===== src/Atomicity/Writing.antt =====
-- `fs_write` of homework.c, when it fails.
use fuse_file_system.Prelude.{
  ℕ, zero, suc, ◌+◌, ◌-◌, ◌*◌, ◌/◌, ◌%◌, ◌≡◌, ◌⊎◌, inl, inr, refl, Bool, true, false, not, List, [],
  ◌∷◌, ltb, if◌then◌else◌, to_int, add_int, sub_int, lt_int, extend, is_negative, arith, ◌||◌,
}
use fuse_file_system.Layout.{Block, Inode, encode_inode, block_size, zeros}
use fuse_file_system.State.{
  Errno, eio, enomem, eisdir, einval, Action, ◌>>=◌, ◌>>◌, pure, modify, fail_if, crash_if,
}
use fuse_file_system.Host.{Host}
use fuse_file_system.Disk.{block_read, block_write}
use fuse_file_system.Paths.{CString, is_reg}
use fuse_file_system.Content.{file_blocks, get_ptr, set_ptr}
use fuse_file_system.Read.{rounds_to}
use fuse_file_system.Write.{
  assign_ptrs, write_loop, write_end, blocks_needed, extend_file, written_inode, load_block,
  fill_buffer, charge, write_range, fs_write,
}
use fuse_file_system.Atomicity.{
  Atomic, FailsLate, Atomic-bind, Atomic-bind_late, FailsLate-bind, FailsLate-Atomic,
  FailsLate-mono, ReadOnly-fail_if, ReadOnly-Atomic, ReadOnly-pure,
}
use fuse_file_system.Atomicity.Reads.{path_to_inode-ReadOnly, find_first_nfree_blocks-ReadOnly}
use fuse_file_system.Atomicity.Operations.{IsEio, block_write-FailsLate, modify_bitmap-FailsLate}

-- The errors that `fs_write` may return once it has written.
abbrev pub IsLate : Errno → Type 0
IsLate e = (e ≡ eio) ⊎ (e ≡ enomem)

relax : {A : Type 0} (m : Action A) → FailsLate IsEio m → FailsLate IsLate m
relax m h = FailsLate-mono IsEio IsLate m (λ e l. inl l) h

pure-FailsLate : {A : Type 0} (a : A) → FailsLate IsLate (pure a)
pure-FailsLate a = record { late = λ s. tt }

crash_if-FailsLate : (b : Bool) → FailsLate IsLate (crash_if b)
crash_if-FailsLate true = record { late = λ s. tt }
crash_if-FailsLate false = record { late = λ s. tt }

no_memory-FailsLate : (b : Bool) → FailsLate IsLate (fail_if b enomem)
no_memory-FailsLate true = record { late = λ s. inr refl }
no_memory-FailsLate false = record { late = λ s. tt }

if-FailsLate :
    {A : Type 0} (b : Bool) (m n : Action A)
    → FailsLate IsLate m
    → FailsLate IsLate n
    → FailsLate IsLate (if b then m else n)
if-FailsLate true m n hm hn = hm
if-FailsLate false m n hm hn = hn

block_read-FailsLate : (lba : ℕ) → FailsLate IsEio (block_read lba)
unfolding block_read
block_read-FailsLate lba = record { late = λ s. ground arith }

get_ptr-FailsLate : (n : Inode) (i : ℕ) → FailsLate IsLate (get_ptr n i)
get_ptr-FailsLate n i = FailsLate-bind _ _ _ (crash_if-FailsLate _) λ _. pure-FailsLate _

assign_ptrs-FailsLate :
    (blocks : List ℕ) (n : Inode) (i : ℕ) → FailsLate IsLate (assign_ptrs n i blocks)
unfolding assign_ptrs
assign_ptrs-FailsLate [] n i = pure-FailsLate _
assign_ptrs-FailsLate (b ∷ bs) n i =
    FailsLate-bind _ _ _ (crash_if-FailsLate _)
      λ _. assign_ptrs-FailsLate bs (set_ptr n i b) (i + 1)

load_block-FailsLate :
    (n : Inode) (test : Bool) (room i at : ℕ) (buf : Block)
    → FailsLate IsLate (load_block n test room i at buf)
load_block-FailsLate n test room i at buf = if-FailsLate (not test) _ _ (pure-FailsLate buf) (
    FailsLate-bind _ _ _ (get_ptr-FailsLate n i) λ p.
      FailsLate-bind _ _ _ (relax _ (block_read-FailsLate p)) λ b.
        FailsLate-bind _ _ _ (crash_if-FailsLate (ltb room (at + block_size)))
          λ _. pure-FailsLate _)

fill_buffer-FailsLate :
    (n : Inode) (old room start end : ℕ) (src : Block) (len at : ℕ)
    → FailsLate IsLate (fill_buffer n old room start end src len at)
unfolding fill_buffer
fill_buffer-FailsLate n old room start end src len at =
    FailsLate-bind _ _ _ (load_block-FailsLate n (ltb 0 old) room start 0 zeros) λ buf.
      FailsLate-bind _ _ _
        (load_block-FailsLate n (ltb 1 old) room end (block_size * (end - start)) buf)
        λ buf'.
          FailsLate-bind _ _ _ (crash_if-FailsLate (ltb room (at + len))) λ _. pure-FailsLate _

write_loop-FailsLate :
    (n : Inode) (buf : Block) (rounds i from : ℕ)
    → FailsLate IsLate (write_loop n buf rounds i from)
unfolding write_loop
write_loop-FailsLate n buf zero i from = pure-FailsLate tt
write_loop-FailsLate n buf (suc rounds) i from = FailsLate-bind _ _ _ (get_ptr-FailsLate n i) λ p.
    FailsLate-bind _ _ _ (relax _ (block_write-FailsLate _ p))
      λ _. write_loop-FailsLate n buf rounds (i + 1) (from + block_size)

Atomic-if :
    {A : Type 0} (b : Bool) (m n : Action A)
    → Atomic IsLate m
    → Atomic IsLate n
    → Atomic IsLate (if b then m else n)
Atomic-if true m n hm hn = hm
Atomic-if false m n hm hn = hn

extend_file-Atomic : (n : Inode) (needed : ℕ) → Atomic IsLate (extend_file n needed)
unfolding extend_file
extend_file-Atomic n needed =
    Atomic-if (not (lt_int 0 needed)) _ _ (ReadOnly-Atomic _ _ (ReadOnly-pure n)) (
      Atomic-bind _ _ _ (find_first_nfree_blocks-ReadOnly 0 needed) λ blocks. FailsLate-Atomic _ _ (
        FailsLate-bind _ _ _ (relax _ (modify_bitmap-FailsLate blocks true))
          λ _. assign_ptrs-FailsLate blocks n (file_blocks n.size)))

tail-FailsLate :
    (host : Host) (inum : ℕ) (n n' : Inode) (src : Block) (len offset : ℕ)
    → FailsLate IsLate (do
      let start = offset / block_size
      let end = write_end len offset
      let n'' = written_inode host n' len offset
      block_write (encode_inode n'') inum
      let room = extend (to_int (block_size * add_int (sub_int end start) 1))
      fail_if (not (host.calloc room)) enomem
      buf ← fill_buffer n'' (file_blocks n.size) room start end src len (offset % block_size)
      write_loop n'' buf (rounds_to start end) start 0
      modify (charge (blocks_needed n len offset))
      pure (to_int len))
tail-FailsLate host inum n n' src len offset =
    let start = offset / block_size in
    let end = write_end len offset in
    let n'' = written_inode host n' len offset in
    let room = extend (to_int (block_size * add_int (sub_int end start) 1)) in
    FailsLate-bind IsLate (block_write (encode_inode n'') inum) _
      (relax _ (block_write-FailsLate _ inum))
      λ _.
        FailsLate-bind IsLate (fail_if (not (host.calloc room)) enomem) _ (no_memory-FailsLate _)
          λ _.
            FailsLate-bind IsLate
              (fill_buffer n'' (file_blocks n.size) room start end src len (offset % block_size)) _
              (fill_buffer-FailsLate n'' (file_blocks n.size) room start end src len
                (offset % block_size))
              λ buf.
                FailsLate-bind IsLate (write_loop n'' buf (rounds_to start end) start 0) _
                  (write_loop-FailsLate n'' buf (rounds_to start end) start 0)
                  λ _.
                    FailsLate-bind IsLate (modify (charge (blocks_needed n len offset))) _
                      (record { late = λ s. tt }) λ _. pure-FailsLate (to_int len)

write_range-Atomic :
    (host : Host) (inum : ℕ) (n : Inode) (src : Block) (len offset : ℕ)
    → Atomic IsLate (write_range host inum n src len offset)
unfolding write_range
write_range-Atomic host inum n src len offset =
    Atomic-bind_late IsLate (extend_file n (blocks_needed n len offset)) _
      (extend_file-Atomic n (blocks_needed n len offset))
      λ n'. tail-FailsLate host inum n n' src len offset

-- A write that fails leaves the state as it was, or has returned `EIO` or `ENOMEM`.
pub fs_write-Atomic :
    (host : Host) (path : CString) (src : Block) (len offset : ℕ)
    → Atomic IsLate (fs_write host path src len offset)
unfolding fs_write
fs_write-Atomic host path src len offset =
    Atomic-bind IsLate _ _ (path_to_inode-ReadOnly path 0) λ (inum, n).
      Atomic-bind IsLate _ _ (ReadOnly-fail_if (not (is_reg n.mode)) eisdir) λ _.
        Atomic-bind IsLate _ _ (ReadOnly-fail_if (is_negative n.size || ltb n.size offset) einval)
          λ _. write_range-Atomic host inum n src len offset
