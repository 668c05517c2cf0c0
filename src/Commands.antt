-- ===== src/Commands.antt =====
-- The commands of linux/include/accel_unified_queue.h, and the descriptors that the wrappers of
-- linux/uio/accel_cmdq_host.c build for them.
use risc_v_computer_zybo.Base.{ℕ}
use risc_v_computer_zybo.Memory.{Desc}

-- ACCEL_UMEM_CMD_*
abbrev pub cmd_nop : ℕ
cmd_nop = 0

abbrev pub cmd_npu_infer : ℕ
cmd_npu_infer = 1

abbrev pub cmd_gpu_clear : ℕ
cmd_gpu_clear = 2

abbrev pub cmd_gpu_draw_tri : ℕ
cmd_gpu_draw_tri = 3

-- `memset(&desc, 0, sizeof(desc))`
abbrev pub zero_desc : Desc
zero_desc = record {
  opcode = 0;
  flags = 0;
  src0 = 0;
  src1 = 0;
  src2 = 0;
  dst0 = 0;
  arg0 = 0;
  arg1 = 0;
}

abbrev pub gpu_clear_desc : ℕ → ℕ → Desc
gpu_clear_desc fb_offset clear_value = record zero_desc {
  opcode = cmd_gpu_clear;
  dst0 = fb_offset;
  arg0 = clear_value;
}

abbrev pub gpu_draw_tri_desc : ℕ → ℕ → ℕ → ℕ → Desc
gpu_draw_tri_desc vertex0_xy vertex1_xy vertex2_xy fb_offset = record zero_desc {
  opcode = cmd_gpu_draw_tri;
  src0 = vertex0_xy;
  src1 = vertex1_xy;
  src2 = vertex2_xy;
  dst0 = fb_offset;
}

abbrev pub npu_infer_desc : ℕ → ℕ → ℕ → ℕ → ℕ → Desc
npu_infer_desc model_id seq_length input_offset weight_offset output_offset = record zero_desc {
  opcode = cmd_npu_infer;
  flags = model_id;
  src0 = input_offset;
  src1 = weight_offset;
  dst0 = output_offset;
  arg0 = seq_length;
}
