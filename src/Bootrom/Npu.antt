-- ===== src/Bootrom/Npu.antt =====
-- The inference unit of the boot firmware's machine: rtl/peripherals/npu_dot4_i8.v, npu_mmio.v and
-- pcpi_npu.v, and the helpers of firmware/bootrom/platform.h that drive it.
-- A bus access takes effect once: rtl/soc/riscv_pc_soc.v holds `valid` back while `mem_ready` is
-- set. The firmware writes whole words, so all four strobes are set.
pub mod Dot
use risc_v_computer_zybo.Base.{
  ℕ, ◌+◌, ◌-◌, ◌*◌, ◌/◌, ◌%◌, ◌^◌, Bool, true, false, ◌||◌, if◌then◌else◌, ltb, ◌==◌,
}
use risc_v_computer_zybo.Base.Int.{ℤ, pos, negsuc, ◌+ℤ◌, ◌*ℤ◌}
use risc_v_computer_zybo.Word.{word, add32, byte_of, test_bit, unsigned32}

-- A `reg signed [7:0]`.
unfoldable pub signed8 : ℕ → ℤ
signed8 v = if ltb v 128 then pos v else negsuc (255 - v)

-- `dot4_packed_i8`; the sum of four products of bytes fits its 32 bits.
unfoldable pub dot4_packed_i8 : ℕ → ℕ → ℕ
unfolding signed8
dot4_packed_i8 lhs rhs =
    let product : ℕ → ℤ = λ k. signed8 (byte_of lhs k) *ℤ signed8 (byte_of rhs k) in
    unsigned32 (product 0 +ℤ product 8 +ℤ product 16 +ℤ product 24)

-- The registers of `npu_mmio`.
pub record NpuMmio : Type 0 where
  pub vec_a_reg : ℕ
  pub vec_b_reg : ℕ
  pub result_reg : ℕ
  pub mat_row1_reg : ℕ
  pub mat_row2_reg : ℕ
  pub mat_row3_reg : ℕ
  pub mat_res1_reg : ℕ
  pub mat_res2_reg : ℕ
  pub mat_res3_reg : ℕ
  pub done_reg : Bool

-- A write of NPU_CTRL. The registers on the right are those before the clock edge, and the last
-- assignment to a register counts.
unfoldable pub write_ctrl : ℕ → NpuMmio → NpuMmio
write_ctrl wdata n =
    let dot4_result = dot4_packed_i8 n.vec_a_reg n.vec_b_reg in
    let cleared : NpuMmio =
      if test_bit wdata 2
      then record n {
        result_reg = 0;
        mat_res1_reg = 0;
        mat_res2_reg = 0;
        mat_res3_reg = 0;
        done_reg = false;
      }
      else n in
    let undone : NpuMmio =
      if test_bit wdata 1 then record cleared { done_reg = false } else cleared in
    if test_bit wdata 4
    then record undone {
      result_reg = dot4_result;
      mat_res1_reg = dot4_packed_i8 n.vec_a_reg n.mat_row1_reg;
      mat_res2_reg = dot4_packed_i8 n.vec_a_reg n.mat_row2_reg;
      mat_res3_reg = dot4_packed_i8 n.vec_a_reg n.mat_row3_reg;
      done_reg = true;
    }
    else if test_bit wdata 0
    then record undone {
      result_reg = if test_bit wdata 3 then add32 n.result_reg dot4_result else dot4_result;
      done_reg = true;
    }
    else undone

-- The writes of the other registers that the firmware uses.
abbrev pub write_vec_a : ℕ → NpuMmio → NpuMmio
write_vec_a wdata n = record n { vec_a_reg = wdata }

abbrev pub write_vec_b : ℕ → NpuMmio → NpuMmio
write_vec_b wdata n = record n { vec_b_reg = wdata }

abbrev pub write_mat_rows : ℕ → ℕ → ℕ → NpuMmio → NpuMmio
write_mat_rows row1 row2 row3 n = record n {
  mat_row1_reg = row1;
  mat_row2_reg = row2;
  mat_row3_reg = row3;
}

-- `npu_start`, `npu_clear_accumulator`, `npu_start_accum` and `npu_start_matvec`.
abbrev pub npu_start : NpuMmio → NpuMmio
npu_start = write_ctrl 0x1

abbrev pub npu_clear_accumulator : NpuMmio → NpuMmio
npu_clear_accumulator = write_ctrl (0x4 + 0x2)

abbrev pub npu_start_accum : NpuMmio → NpuMmio
npu_start_accum = write_ctrl (0x1 + 0x8)

abbrev pub npu_start_matvec : NpuMmio → NpuMmio
npu_start_matvec = write_ctrl 0x10

-- `npu_status`: bit 1 is the done flag.
abbrev pub npu_status : NpuMmio → ℕ
npu_status n = if n.done_reg then 2 else 0

-- `npu_dot4_pcpi`: the instruction that `pcpi_npu` answers, as the bits of its int32_t result.
abbrev pub npu_dot4_pcpi : ℕ → ℕ → ℕ
npu_dot4_pcpi vec_a vec_b = dot4_packed_i8 vec_a vec_b
