-- ===== src/Word.antt =====
-- The fixed-width integers of C: uint32_t, its single bits, and int32_t in two's complement.
pub mod Laws
pub mod Bits
use risc_v_computer_zybo.Base.{
  ℕ, suc, ◌+◌, ◌-◌, ◌*◌, ◌/◌, ◌%◌, ◌^◌, ◌<◌, Bool, ltb, ◌==◌, if◌then◌else◌,
}
use risc_v_computer_zybo.Base.Int.{ℤ, pos, negsuc, ◌≤ℤ◌}

abbrev pub word : ℕ
word = 2 ^ 32

-- `a + b`, `a - b` and `a * b` on uint32_t.
abbrev pub add32 : ℕ → ℕ → ℕ
add32 a b = (a + b) % word

abbrev pub sub32 : ℕ → ℕ → ℕ
sub32 a b = (a + word - b) % word

abbrev pub mul32 : ℕ → ℕ → ℕ
mul32 a b = a * b % word

-- `(v & (1 << k)) != 0`
abbrev pub test_bit : ℕ → ℕ → Bool
test_bit v k = v / 2 ^ k % 2 == 1

-- `v | (1 << k)`
abbrev pub set_bit : ℕ → ℕ → ℕ
set_bit v k = if test_bit v k then v else v + 2 ^ k

-- `(v >> k) & 0xff`
abbrev pub byte_of : ℕ → ℕ → ℕ
byte_of v k = v / 2 ^ k % 256

-- The cast of a uint32_t to int32_t, and back.
abbrev pub signed32 : ℕ → ℤ
signed32 v = if ltb v (2 ^ 31) then pos v else negsuc (word - v - 1)

abbrev pub unsigned32 : ℤ → ℕ
unsigned32 (pos n) = n % word
unsigned32 (negsuc n) = word - 1 - n % word

-- A value of int32_t.
pub record IsInt32 (z : ℤ) : Type 0 where
  pub low : negsuc (2 ^ 31 - 1) ≤ℤ z
  pub high : z ≤ℤ pos (2 ^ 31 - 1)
