-- ===== src/Bitmap/Count.antt =====
-- How the number of free blocks changes with the bitmap.
use fuse_file_system.Prelude.{
  All, ℕ, zero, suc, ◌+◌, ◌≤◌, ◌<◌, ◌≡◌, Bool, true, false, ◌&&◌, List, [], ◌∷◌, arith, ltb, leb,
  if◌then◌else◌, length, has,
}
use fuse_file_system.Layout.{Block}
use fuse_file_system.Layout.RoundTrip.{FitsBlock}
use fuse_file_system.Bitmap.{bit_set, bit_clear, count_free, bitmap_bits}
use fuse_file_system.Bitmap.Bits.{
  used, used-bit_set, used-bit_clear, bit_set-FitsBlock, bit_clear-FitsBlock,
}
use fuse_file_system.Bitmap.Modify.{marked, InBitmap}

-- Block `b` is among the `rounds` blocks from `i` on.
abbrev within : (rounds i b : ℕ) → Bool
within rounds i b = leb i b && ltb b (i + rounds)

abbrev one_if : Bool → ℕ
one_if c = if c then 1 else 0

module _ {map : Block} (fits : FitsBlock map) (b : ℕ) where
  count_free-bit_set :
      (rounds i : ℕ)
      → used map b ≡ false
      → count_free (bit_set map b) rounds i + one_if (within rounds i b) ≡ count_free map rounds i
  unfolding count_free
  count_free-bit_set zero i h = ground arith
  count_free-bit_set (suc rounds) i h =
      ground (arith, count_free-bit_set rounds (i + 1) h, used-bit_set fits b i)

  count_free-bit_clear :
      (rounds i : ℕ)
      → used map b ≡ true
      → count_free (bit_clear map b) rounds i ≡ count_free map rounds i + one_if (within rounds i b)
  unfolding count_free
  count_free-bit_clear zero i h = ground arith
  count_free-bit_clear (suc rounds) i h =
      ground (arith, count_free-bit_clear rounds (i + 1) h, used-bit_clear fits b i)

-- The blocks of the list are different, below `size`, and all in use or all free.
unfoldable pub Distinct : Bool → ℕ → Block → List ℕ → Type 0
Distinct flag size map [] = Unit
Distinct flag size map (i ∷ is) =
    (i < size) × (used map i ≡ flag) × (has i is ≡ false) × Distinct flag size map is

Distinct-bit_set :
    {map : Block} (size b : ℕ) (is : List ℕ)
    → FitsBlock map
    → has b is ≡ false
    → Distinct false size map is
    → Distinct false size (bit_set map b) is
unfolding Distinct
Distinct-bit_set size b [] fits h d = tt
Distinct-bit_set size b (i ∷ is) fits h (lt, free, out, d) = (
  lt,
  ground (arith, used-bit_set fits b i),
  out,
  Distinct-bit_set size b is fits (ground arith) d,
)

Distinct-bit_clear :
    {map : Block} (size b : ℕ) (is : List ℕ)
    → FitsBlock map
    → has b is ≡ false
    → Distinct true size map is
    → Distinct true size (bit_clear map b) is
unfolding Distinct
Distinct-bit_clear size b [] fits h d = tt
Distinct-bit_clear size b (i ∷ is) fits h (lt, free, out, d) = (
  lt,
  ground (arith, used-bit_clear fits b i),
  out,
  Distinct-bit_clear size b is fits (ground arith) d,
)

-- Taking different free blocks lowers the count by their number.
pub count_free-marked_set :
    (is : List ℕ) {map : Block} (size : ℕ)
    → FitsBlock map
    → Distinct false size map is
    → count_free (marked true is map) size 0 + length is ≡ count_free map size 0
unfolding marked Distinct
count_free-marked_set [] size fits d = omega arith
count_free-marked_set (i ∷ is) {map} size fits (lt, free, out, d) = ground (
  arith,
  count_free-marked_set is size (bit_set-FitsBlock fits i) (Distinct-bit_set size i is fits out d),
  count_free-bit_set fits i size 0 free,
)

pub count_free-marked_clear :
    (is : List ℕ) {map : Block} (size : ℕ)
    → FitsBlock map
    → Distinct true size map is
    → count_free (marked false is map) size 0 ≡ count_free map size 0 + length is
unfolding marked Distinct
count_free-marked_clear [] size fits d = omega arith
count_free-marked_clear (i ∷ is) {map} size fits (lt, free, out, d) = ground (
  arith,
  count_free-marked_clear is size (bit_clear-FitsBlock fits i)
      (Distinct-bit_clear size i is fits out d),
  count_free-bit_clear fits i size 0 free,
)

-- At most all of the blocks are free.
pub count_free-le : (map : Block) (rounds i : ℕ) → count_free map rounds i ≤ rounds
unfolding count_free
count_free-le map zero i = omega arith
count_free-le map (suc rounds) i = ground (arith, count_free-le map rounds (i + 1))

-- Blocks of a volume that fits the bitmap have bits in it.
pub Distinct-InBitmap :
    (flag : Bool) (size : ℕ) (map : Block) (is : List ℕ)
    → size ≤ bitmap_bits
    → Distinct flag size map is
    → All InBitmap is
unfolding Distinct
Distinct-InBitmap flag size map [] h d = tt
Distinct-InBitmap flag size map (i ∷ is) h (lt, u, out, d) =
    (omega arith, Distinct-InBitmap flag size map is h d)
