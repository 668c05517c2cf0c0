-- ===== src/Emulator/Npu/Dot.antt =====
-- The dot product of signed bytes: its value and its range.
use risc_v_computer_zybo.Base.{ℕ, zero, suc, ◌+◌, ◌-◌, ◌*◌, ◌≤◌, ◌≡◌, arith, ltb, if◌then◌else◌}
use risc_v_computer_zybo.Base.Int.{ℤ, pos, negsuc, ◌+ℤ◌, ◌*ℤ◌, pos_part, neg_part, int_laws}
use risc_v_computer_zybo.Word.{byte_of}
use risc_v_computer_zybo.Emulator.Npu.{unpack_i8, dot4_loop, dot4_i8}

-- `z` is between -m and m.
abbrev pub Within : ℕ → ℤ → Type 0
Within m z = (pos_part z ≤ m) × (neg_part z ≤ m)

-- The number that a byte stands for in two's complement.
abbrev pub int8 : ℕ → ℤ
int8 b = if ltb b 128 then pos b else negsuc (255 - b)

-- `unpack_i8` at a byte of the word is that byte in two's complement.
pub unpack_i8_lem : (w shift : ℕ) → unpack_i8 w shift ≡ int8 (byte_of w shift)
unfolding unpack_i8
unpack_i8_lem w shift = ground arith

unpack_i8-Within : (w shift : ℕ) → Within 128 (unpack_i8 w shift)
unpack_i8-Within w shift = rw unpack_i8_lem (ground arith)

mul-le : (x y : ℕ) → x ≤ 128 → y ≤ 128 → x * y ≤ 16384
mul-le x y h k = omega (arith, bound)
  where
    bound : x * y ≤ 128 * y
    bound = grind arith

mul-Within : (a b : ℤ) → Within 128 a → Within 128 b → Within 16384 (a *ℤ b)
unfolding ◌*ℤ◌
mul-Within (pos x) (pos y) h k = ground (arith, mul-le x y h.0 k.0)
mul-Within (pos x) (negsuc y) h k = ground (arith, mul-le x (suc y) h.0 k.1)
mul-Within (negsuc x) (pos y) h k = ground (arith, mul-le (suc x) y h.1 k.0)
mul-Within (negsuc x) (negsuc y) h k = ground (arith, mul-le (suc x) (suc y) h.1 k.1)

pub add-Within : (m k : ℕ) (a b : ℤ) → Within m a → Within k b → Within (m + k) (a +ℤ b)
unfolding ◌+ℤ◌
add-Within m k a b h q = ground arith

zero-add : (a : ℤ) → pos 0 +ℤ a ≡ a
zero-add a = omega int_laws

dot4_loop-Within :
    (rounds shift lhs rhs m : ℕ) (sum : ℤ)
    → Within m sum
    → Within (m + rounds * 16384) (dot4_loop rounds shift lhs rhs sum)
unfolding dot4_loop
dot4_loop-Within zero shift lhs rhs m sum h = omega arith
dot4_loop-Within (suc rounds) shift lhs rhs m sum h = omega (
  arith,
  dot4_loop-Within rounds (shift + 8) lhs rhs (m + 16384) (sum +ℤ product)
      (add-Within m 16384 sum product h step),
)
  where
    product : ℤ
    product = unpack_i8 lhs shift *ℤ unpack_i8 rhs shift

    step : Within 16384 product
    step =
        mul-Within (unpack_i8 lhs shift) (unpack_i8 rhs shift) (unpack_i8-Within lhs shift)
          (unpack_i8-Within rhs shift)

-- `dot4_i8` is the sum of the four products of the signed bytes of its words, and lies between
-- -65536 and 65536: neither it nor a partial sum overflows.
pub dot4_i8_lem :
    (lhs rhs : ℕ)
    → (dot4_i8 lhs rhs
        ≡ int8 (byte_of lhs 0) *ℤ int8 (byte_of rhs 0)
          +ℤ int8 (byte_of lhs 8) *ℤ int8 (byte_of rhs 8)
          +ℤ int8 (byte_of lhs 16) *ℤ int8 (byte_of rhs 16)
          +ℤ int8 (byte_of lhs 24) *ℤ int8 (byte_of rhs 24))
      × Within 65536 (dot4_i8 lhs rhs)
unfolding dot4_i8 dot4_loop
dot4_i8_lem lhs rhs =
    (simp (unpack_i8_lem, zero-add), dot4_loop-Within 4 0 lhs rhs 0 (pos 0) (omega arith))
