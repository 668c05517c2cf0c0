-- ===== src/Bootrom/Npu/Dot.antt =====
-- The dot product of rtl/peripherals/npu_dot4_i8.v and that of the emulator in
-- linux/uio/accel_mmio_demo.c, and the two ways in which the boot firmware sums it.
use risc_v_computer_zybo.Base.{ℕ, ◌<◌, ◌≡◌, refl, arith, true, false, List, [], ◌∷◌}
use risc_v_computer_zybo.Base.Int.{ℤ, pos, ◌+ℤ◌, eq_of_parts, +ℤ_parts}
use risc_v_computer_zybo.Word.{word, byte_of, unsigned32}
use risc_v_computer_zybo.Word.Laws.{unsigned32-lt}
use risc_v_computer_zybo.Emulator.Npu.{unpack_i8, dot4_i8}
use risc_v_computer_zybo.Bootrom.Npu.{NpuMmio, signed8, dot4_packed_i8, write_ctrl}
use risc_v_computer_zybo.Bootrom.NpuTests.{vec16_loop}

unpack_i8-signed8 : (w k : ℕ) → unpack_i8 w k ≡ signed8 (byte_of w k)
unfolding unpack_i8 signed8
unpack_i8-signed8 w k = ground arith

zero_add : (z : ℤ) → pos 0 +ℤ z ≡ z
zero_add z = eq_of_parts (pos 0 +ℤ z) z (omega (arith, +ℤ_parts (pos 0) z))

-- The dot product of the hardware's unit is that of the emulator, for all words.
pub dot4_packed_i8-dot4_i8 : (lhs rhs : ℕ) → dot4_packed_i8 lhs rhs ≡ unsigned32 (dot4_i8 lhs rhs)
unfolding dot4_packed_i8 dot4_i8
dot4_packed_i8-dot4_i8 lhs rhs = simp (unpack_i8-signed8, zero_add)

dot4_packed_i8-lt : (lhs rhs : ℕ) → dot4_packed_i8 lhs rhs < word
unfolding dot4_packed_i8
dot4_packed_i8-lt lhs rhs = unsigned32-lt _

sums_agree :
    (ps : List (ℕ × ℕ)) (accum : ℕ) (n : NpuMmio)
    → n.result_reg ≡ accum
    → let (accum', n') = vec16_loop false ps (accum, n) in n'.result_reg ≡ accum'
unfolding vec16_loop write_ctrl
sums_agree [] accum n h = h
sums_agree ((a, b) ∷ ps) accum n h = sums_agree ps _ _ (rw h refl)

-- The loop of the vector test leaves the same sum in the unit and in the accumulator of the
-- instruction, for any vectors of the same length and in whatever state the unit was.
pub vec16_loop_lem :
    (p : ℕ × ℕ) (ps : List (ℕ × ℕ)) (n : NpuMmio)
    → let (accum, n') = vec16_loop true (p ∷ ps) (0, n) in n'.result_reg ≡ accum
unfolding vec16_loop write_ctrl
vec16_loop_lem (a, b) ps n = sums_agree ps _ _ (omega (arith, dot4_packed_i8-lt a b))
