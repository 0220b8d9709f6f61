-- ===== src/Bitmap/Fresh.antt =====
-- The blocks that `find_first_nfree_blocks` returns are free, in range and different.
use fuse_file_system.Prelude.{
  ℕ, zero, suc, ◌+◌, ◌-◌, ◌≤◌, ◌<◌, ◌≡◌, refl, false, List, ◌∷◌, arith, take, has, inl, inr,
  Bool-cases,
}
use fuse_file_system.Layout.{Block}
use fuse_file_system.Bitmap.Bits.{used}
use fuse_file_system.Bitmap.Search.{free_blocks}
use fuse_file_system.Bitmap.Count.{Distinct}

has-free_blocks_below :
    (map : Block) (rounds i j n : ℕ) → j < i → has j (take n (free_blocks map rounds i)) ≡ false
unfolding free_blocks
has-free_blocks_below map zero i j zero h = refl
has-free_blocks_below map zero i j (suc n) h = refl
has-free_blocks_below map (suc rounds) i j zero h = refl
has-free_blocks_below map (suc rounds) i j (suc n) h = ground (
  arith,
  has-free_blocks_below map rounds (i + 1) j n,
  has-free_blocks_below map rounds (i + 1) j (suc n),
)

pub Distinct-free_blocks :
    (map : Block) (size rounds i n : ℕ)
    → i + rounds ≤ size
    → Distinct false size map (take n (free_blocks map rounds i))
unfolding free_blocks Distinct
Distinct-free_blocks map size zero i zero h = tt
Distinct-free_blocks map size zero i (suc n) h = tt
Distinct-free_blocks map size (suc rounds) i zero h = tt
Distinct-free_blocks map size (suc rounds) i (suc n) h = elim (Bool-cases (used map i)) [
  | inl e ↦ rw e (Distinct-free_blocks map size rounds (i + 1) (suc n) (omega arith))
  | inr e ↦ rw e (
    omega arith,
    e,
    has-free_blocks_below map rounds (i + 1) i n (omega arith),
    Distinct-free_blocks map size rounds (i + 1) n (omega arith),
  )
]

-- The first free block is a block of the volume that is not in use.
pub free_head :
    (map : Block) (size n : ℕ) (rest : List ℕ)
    → free_blocks map (size - 0) 0 ≡ n ∷ rest
    → (n < size) × (used map n ≡ false)
unfolding Distinct
free_head map size n rest e =
    let d : Distinct false size map (take 1 (n ∷ rest)) =
      rw e at (Distinct-free_blocks map size (size - 0) 0 1 (omega arith)) in
    (d.0, d.1)
