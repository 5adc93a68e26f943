-- ===== src/Ramdisk/Bitmap/Bits.antt =====
-- `set_bitmap` and `clear_bitmap` of kernelspace/discos.c, bit by bit.
use file_system_toy_os.Prelude.{
  ℕ, zero, suc, ◌/◌, ◌%◌, ◌^◌, ◌≤◌, ◌<◌, ◌≡◌, refl, ◌≢◌, Bool, true, ◌&&◌, ◌||◌, arith, ltb, leb,
  ◌==◌, if◌then◌else◌, pos,
}
use file_system_toy_os.Ramdisk.Bitmap.{
  Bitmap, clear_bit, set_bit, clear_bitmap, set_bitmap, first_clear_bit,
}

-- The bit of a byte, and that of block `k` in the map.
abbrev pub bit_at : ℕ → ℕ → ℕ
bit_at byte o = byte / 2 ^ o % 2

abbrev pub bit_of : Bitmap → ℕ → ℕ
bit_of map k = bit_at (map (k / 8)) (k % 8)

abbrev pub AreBytes : Bitmap → Type 0
AreBytes map = (i : ℕ) → map i < 256

-- A test of every number under a bound, run by evaluation.
passes_under : (ℕ → Bool) → ℕ → Bool
passes_under test zero = true
passes_under test (suc last) = passes_under test last && test last

passes_under-apply :
    (test : ℕ → Bool) (bound k : ℕ) → k < bound → passes_under test bound ≡ true → test k ≡ true
unfolding passes_under
passes_under-apply test zero k k_lt passed = absurd (omega arith)
passes_under-apply test (suc last) k k_lt passed = ground (arith, passes_under-apply test last k)

all_bits : (ℕ → ℕ → ℕ → Bool) → Bool
unfolding passes_under
all_bits p = passes_under (λ b. passes_under (λ o. passes_under (p b o) 8) 8) 256

all_bits-apply :
    (p : ℕ → ℕ → ℕ → Bool) (b o q : ℕ)
    → all_bits p ≡ true
    → b < 256
    → o < 8
    → q < 8
    → p b o q ≡ true
unfolding all_bits
all_bits-apply p b o q passed hb ho hq =
    let of_byte =
      passes_under-apply (λ b'. passes_under (λ o'. passes_under (p b' o') 8) 8) 256 b hb passed in
    let of_bit = passes_under-apply (λ o'. passes_under (p b o') 8) 8 o ho of_byte in
    passes_under-apply (p b o) 8 q hq of_bit

abbrev set_test : ℕ → ℕ → ℕ → Bool
set_test b o q =
    (bit_at (set_bit b o) q == (if o == q then 1 else bit_at b q)) && ltb (set_bit b o) 256

abbrev clear_test : ℕ → ℕ → ℕ → Bool
clear_test b o q =
    (bit_at (clear_bit b o) q == (if o == q then 0 else bit_at b q)) && ltb (clear_bit b o) 256

set_table : all_bits set_test ≡ true
unfolding all_bits set_bit
set_table = refl

clear_table : all_bits clear_test ≡ true
unfolding all_bits clear_bit
clear_table = refl

pub bit_at-set_bit :
    (b o q : ℕ)
    → b < 256
    → o < 8
    → q < 8
    → (bit_at (set_bit b o) q ≡ (if o == q then 1 else bit_at b q)) × (set_bit b o < 256)
bit_at-set_bit b o q hb ho hq = ground (arith, all_bits-apply set_test b o q set_table hb ho hq)

pub bit_at-clear_bit :
    (b o q : ℕ)
    → b < 256
    → o < 8
    → q < 8
    → (bit_at (clear_bit b o) q ≡ (if o == q then 0 else bit_at b q)) × (clear_bit b o < 256)
bit_at-clear_bit b o q hb ho hq =
    ground (arith, all_bits-apply clear_test b o q clear_table hb ho hq)

abbrev first_test : ℕ → ℕ → ℕ → Bool
first_test b o q =
    let k = first_clear_bit 8 b in
    if b == 255
    then bit_at b o == 1
    else (ltb k 8 && (bit_at b k == 0)) && (leb k o || (bit_at b o == 1))

first_table : all_bits first_test ≡ true
unfolding all_bits first_clear_bit
first_table = refl

-- In a byte that is not full the loop finds the lowest clear bit.
pub first_clear_bit_lem :
    (b o : ℕ)
    → b < 256
    → o < 8
    → b ≢ 255
    → (first_clear_bit 8 b < 8)
      × (bit_at b (first_clear_bit 8 b) ≡ 0)
      × (o < first_clear_bit 8 b → bit_at b o ≡ 1)
first_clear_bit_lem b o hb ho ne = ground (arith, all_bits-apply first_test b o 0 first_table hb ho)

pub bit_at_full : (o : ℕ) → o < 8 → bit_at 255 o ≡ 1
bit_at_full o ho = ground (arith, all_bits-apply first_test 255 o 0 first_table)

-- On a bitmap of bytes, for i ≤ 7931, set_bitmap sets the bit i and leaves every other bit as
-- it was.
pub bit_of-set_bitmap :
    (map : Bitmap) (i k : ℕ)
    → AreBytes map
    → i ≤ 7931
    → bit_of (set_bitmap map (pos i)).1 k ≡ (if i == k then 1 else bit_of map k)
unfolding set_bitmap
bit_of-set_bitmap map i k h hi =
    ground (arith, h (i / 8), bit_at-set_bit (map (i / 8)) (i % 8) (k % 8))

-- On a bitmap of bytes, for i ≤ 7931, clear_bitmap clears the bit i and leaves every other bit
-- as it was.
pub bit_of-clear_bitmap :
    (map : Bitmap) (i k : ℕ)
    → AreBytes map
    → i ≤ 7931
    → bit_of (clear_bitmap map (pos i)).1 k ≡ (if i == k then 0 else bit_of map k)
unfolding clear_bitmap
bit_of-clear_bitmap map i k h hi =
    ground (arith, h (i / 8), bit_at-clear_bit (map (i / 8)) (i % 8) (k % 8))

pub set_bitmap-AreBytes :
    (map : Bitmap) (i : ℕ) → AreBytes map → AreBytes (set_bitmap map (pos i)).1
unfolding set_bitmap
set_bitmap-AreBytes map i h j =
    ground (arith, h j, h (i / 8), bit_at-set_bit (map (i / 8)) (i % 8) 0)

pub clear_bitmap-AreBytes :
    (map : Bitmap) (i : ℕ) → AreBytes map → AreBytes (clear_bitmap map (pos i)).1
unfolding clear_bitmap
clear_bitmap-AreBytes map i h j =
    ground (arith, h j, h (i / 8), bit_at-clear_bit (map (i / 8)) (i % 8) 0)
