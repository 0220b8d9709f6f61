-- ===== src/Bitmap/Bits.antt =====
-- `bit_set`, `bit_clear` and `bit_test` of homework.c, bit by bit.
use fuse_file_system.Prelude.{
  ℕ, ◌-◌, ◌/◌, ◌%◌, ◌^◌, ◌<◌, ◌≡◌, refl, Bool, true, false, not, ◌&&◌, ◌||◌, bit_and, bit_or, inl,
  inr, arith, ltb, ◌==◌, if◌then◌else◌, Bool-cases,
}
use fuse_file_system.Prelude.Table.{holds, entry_holds}
use fuse_file_system.Layout.{Block}
use fuse_file_system.Layout.RoundTrip.{FitsBlock}
use fuse_file_system.Bitmap.{bit_set, bit_clear, bit_test}

-- Block `i` is marked as in use.
abbrev pub used : Block → ℕ → Bool
used map i = not (bit_test map i == 0)

abbrev same_bool : Bool → Bool → Bool
same_bool a b = if a then b else not b

same_bool→eq : (a b : Bool) → same_bool a b ≡ true → a ≡ b
same_bool→eq a b h = ground arith

abbrev bit : ℕ → ℕ → Bool
bit b j = not (bit_and b (2 ^ j) == 0)

abbrev set_row : ℕ → ℕ → ℕ → Bool
set_row b k j = same_bool (bit (bit_or b (2 ^ k)) j) ((k == j) || bit b j)

abbrev clear_row : ℕ → ℕ → ℕ → Bool
clear_row b k j = same_bool (bit (bit_and b (2 ^ 32 - 1 - 2 ^ k)) j) (not (k == j) && bit b j)

set_table : holds (λ b. holds (λ k. holds (λ j. set_row b k j) 8) 8) 256 ≡ true
unfolding holds
set_table = refl

clear_table : holds (λ b. holds (λ k. holds (λ j. clear_row b k j) 8) 8) 256 ≡ true
unfolding holds
clear_table = refl

module _ (row : ℕ → ℕ → ℕ → Bool)
    (table : holds (λ b. holds (λ k. holds (λ j. row b k j) 8) 8) 256 ≡ true) where
  row_holds : (b k j : ℕ) → b < 256 → k < 8 → j < 8 → row b k j ≡ true
  row_holds b k j hb hk hj =
      let of_byte = entry_holds (λ b. holds (λ k. holds (λ j. row b k j) 8) 8) 256 b hb table in
      let of_bit = entry_holds (λ k. holds (λ j. row b k j) 8) 8 k hk of_byte in
      entry_holds (λ j. row b k j) 8 j hj of_bit

bit-set : (b k j : ℕ) → b < 256 → k < 8 → j < 8 → bit (bit_or b (2 ^ k)) j ≡ ((k == j) || bit b j)
bit-set b k j hb hk hj = same_bool→eq _ _ (row_holds set_row set_table b k j hb hk hj)

bit-clear :
    (b k j : ℕ)
    → b < 256
    → k < 8
    → j < 8
    → bit (bit_and b (2 ^ 32 - 1 - 2 ^ k)) j ≡ (not (k == j) && bit b j)
bit-clear b k j hb hk hj = same_bool→eq _ _ (row_holds clear_row clear_table b k j hb hk hj)

-- Bits of one byte are told apart by their place in it.
same_place : (i j : ℕ) → (j / 8 == i / 8) ≡ true → (i % 8 == j % 8) ≡ (i == j)
same_place i j h = ground arith

other_byte : (i j : ℕ) → (j / 8 == i / 8) ≡ false → (i == j) ≡ false
other_byte i j h = ground arith

module _ {map : Block} (fits : FitsBlock map) (i j : ℕ) where
  -- In a bitmap of bytes, `bit_set` marks its block and no other.
  pub used-bit_set : used (bit_set map i) j ≡ ((i == j) || used map j)
  unfolding bit_set bit_test
  used-bit_set = elim (Bool-cases (j / 8 == i / 8)) [
    | inl e ↦
        rw (e, ← same_place i j e)
          (bit-set (map (j / 8)) (i % 8) (j % 8) (fits (j / 8)) (omega arith) (omega arith))
    | inr e ↦ rw (e, other_byte i j e)
  ]

  -- In a bitmap of bytes, `bit_clear` clears the mark of its block and of no other.
  pub used-bit_clear : used (bit_clear map i) j ≡ (not (i == j) && used map j)
  unfolding bit_clear bit_test
  used-bit_clear = elim (Bool-cases (j / 8 == i / 8)) [
    | inl e ↦
        rw (e, ← same_place i j e)
          (bit-clear (map (j / 8)) (i % 8) (j % 8) (fits (j / 8)) (omega arith) (omega arith))
    | inr e ↦ rw (e, other_byte i j e)
  ]

abbrev byte_row : ℕ → ℕ → Bool
byte_row b k = ltb (bit_or b (2 ^ k)) 256 && ltb (bit_and b (2 ^ 32 - 1 - 2 ^ k)) 256

byte_table : holds (λ b. holds (λ k. byte_row b k) 8) 256 ≡ true
unfolding holds
byte_table = refl

byte_row_holds : (b k : ℕ) → b < 256 → k < 8 → byte_row b k ≡ true
byte_row_holds b k hb hk =
    let of_byte = entry_holds (λ b. holds (λ k. byte_row b k) 8) 256 b hb byte_table in
    entry_holds (λ k. byte_row b k) 8 k hk of_byte

module _ {map : Block} (fits : FitsBlock map) (i : ℕ) where
  pub bit_set-FitsBlock : FitsBlock (bit_set map i)
  unfolding bit_set
  bit_set-FitsBlock o = ground (arith, fits o, byte_row_holds (map o) (i % 8))

  pub bit_clear-FitsBlock : FitsBlock (bit_clear map i)
  unfolding bit_clear
  bit_clear-FitsBlock o = ground (arith, fits o, byte_row_holds (map o) (i % 8))
