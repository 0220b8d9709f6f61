-- ===== src/Consistency/Outcome.antt =====
-- How a request of homework.c ends on a consistent volume: with a consistent volume, or with an
-- error of its own and nothing changed, and never in undefined behaviour.
use fuse_file_system.Prelude.{ℕ, ◌≡◌, refl, inl, inr, ◌==◌, ==→eq, ==→ne, Bool-cases, subst, sym}
use fuse_file_system.Layout.{Block}
use fuse_file_system.Layout.RoundTrip.{FitsBlock}
use fuse_file_system.State.{FsState, Image, Errno, Result, ok, err, fault}
use fuse_file_system.Disk.{put_block}
use fuse_file_system.Disk.Laws.{OnDisk, block-put_block_ne, block-put_block_self}
use fuse_file_system.Consistency.{Role, IsConsistent}

-- Some roles make the volume consistent.
abbrev pub IsSound : FsState → Type 0
IsSound s = (role : ℕ → Role) × IsConsistent s role

-- `spec` says what a success leaves besides.
abbrev pub Ended :
    (Errno → Type 0) → (FsState → Type 0) → FsState → Result (Unit {0}) × FsState → Type 0
Ended allowed spec s (ok a, s') = IsSound s' × spec s'
Ended allowed spec s (err e, s') = allowed e × (s' ≡ s)
Ended allowed spec s (fault, s') = ⊥

module _ (allowed : Errno → Type 0) (spec : FsState → Type 0) (s : FsState)
    {r : Result (Unit {0}) × FsState} where
  pub ok-Ended : {s' : FsState} → r ≡ (ok tt, s') → IsSound s' × spec s' → Ended allowed spec s r
  ok-Ended h c = subst (Ended allowed spec s) (sym h) c

  pub err-Ended : {e : Errno} → r ≡ (err e, s) → allowed e → Ended allowed spec s r
  err-Ended h a = subst (Ended allowed spec s) (sym h) (a, refl)

-- A block of bytes is written over one of the volume.
pub put_block-FitsBlock :
    {im : Image} (n : ℕ) (b : Block) (lba : ℕ)
    → OnDisk im lba
    → FitsBlock b
    → FitsBlock (im.block lba)
    → FitsBlock ((put_block im n b).block lba)
put_block-FitsBlock {im} n b lba d new old = elim (Bool-cases (lba == n)) [
  | inl e ↦ rw (==→eq lba n e, block-put_block_self im n b) new
  | inr e ↦ rw (block-put_block_ne n b d (==→ne lba n e)) old
]
