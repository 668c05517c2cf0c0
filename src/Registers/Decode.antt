-- ===== src/Registers/Decode.antt =====
-- The offsets of linux/include/accel_mmio.h and the switch over them.
use risc_v_computer_zybo.Base.{◌%◌, ◌<◌, ◌≡◌, refl, some, arith}
use risc_v_computer_zybo.Registers.{Reg, offset, decode}

-- The `switch` sends the offset of each register to that register.
pub decode-offset : (r : Reg) → decode (offset r) ≡ some r
unfolding decode offset
decode-offset Reg.id_version = refl
decode-offset Reg.control = refl
decode-offset Reg.status = refl
decode-offset Reg.npu_cfg0 = refl
decode-offset Reg.npu_status_word = refl
decode-offset Reg.npu_input0 = refl
decode-offset Reg.npu_input1 = refl
decode-offset Reg.npu_logit0 = refl
decode-offset Reg.npu_logit1 = refl
decode-offset Reg.npu_class = refl
decode-offset Reg.gpu_cmd = refl
decode-offset Reg.gpu_triangles = refl
decode-offset Reg.legacy_boot = refl
decode-offset Reg.legacy_gpio = refl
decode-offset Reg.irq_enable = refl
decode-offset Reg.irq_status = refl
decode-offset Reg.gpu_vertex0 = refl
decode-offset Reg.gpu_vertex1 = refl
decode-offset Reg.gpu_vertex2 = refl
decode-offset Reg.gpu_clear_value = refl
decode-offset Reg.gpu_frame_count = refl
decode-offset Reg.gpu_raster_pixels = refl
decode-offset Reg.gpu_last_area2 = refl
decode-offset Reg.gpu_last_bbox = refl
decode-offset Reg.gpu_fb_rowsel = refl
decode-offset Reg.gpu_fb_rowdata = refl
decode-offset Reg.npu_weight0_a = refl
decode-offset Reg.npu_weight0_b = refl
decode-offset Reg.npu_weight1_a = refl
decode-offset Reg.npu_weight1_b = refl
decode-offset Reg.npu_bias0 = refl
decode-offset Reg.npu_bias1 = refl
decode-offset Reg.umem_ctrl = refl
decode-offset Reg.umem_base = refl
decode-offset Reg.umem_size = refl
decode-offset Reg.umem_npu_input = refl
decode-offset Reg.umem_npu_weight = refl
decode-offset Reg.umem_npu_output = refl
decode-offset Reg.umem_gpu_fb = refl
decode-offset Reg.umem_gpu_fb_pitch = refl
decode-offset Reg.umem_cmdq_base = refl
decode-offset Reg.umem_cmdq_size = refl
decode-offset Reg.umem_cmdq_head = refl
decode-offset Reg.umem_cmdq_tail = refl
decode-offset Reg.umem_cmdq_doorbell = refl
decode-offset Reg.umem_cmdq_status = refl
decode-offset Reg.cmdq_tail_shadow = refl
decode-offset Reg.cmdq_status_shadow = refl
decode-offset Reg.cmdq_fetch_offset = refl
decode-offset Reg.cmdq_fetch_sequence = refl
decode-offset Reg.cmdq_fetch_slot = refl
decode-offset Reg.umem_fetch_status = refl
decode-offset Reg.umem_fetch_last_araddr = refl
decode-offset Reg.umem_fetch_last_sequence = refl
decode-offset Reg.umem_fetch_beat_count = refl
decode-offset Reg.umem_fetch_desc_word0 = refl
decode-offset Reg.cmdq_dispatch_status = refl
decode-offset Reg.cmdq_dispatch_opcode = refl
decode-offset Reg.cmdq_dispatch_npu_count = refl
decode-offset Reg.cmdq_dispatch_gpu_count = refl
decode-offset Reg.cmdq_dispatch_error_count = refl
decode-offset Reg.npu_cmd_exec_status = refl
decode-offset Reg.npu_cmd_exec_input_offset = refl
decode-offset Reg.npu_cmd_exec_output_offset = refl

-- Every register is a word inside the mapped page (ACCEL_MAP_BYTES).
pub offset_bounds : (r : Reg) → (offset r % 4 ≡ 0) × (offset r < 0x1000)
unfolding offset
offset_bounds Reg.id_version = omega arith
offset_bounds Reg.control = omega arith
offset_bounds Reg.status = omega arith
offset_bounds Reg.npu_cfg0 = omega arith
offset_bounds Reg.npu_status_word = omega arith
offset_bounds Reg.npu_input0 = omega arith
offset_bounds Reg.npu_input1 = omega arith
offset_bounds Reg.npu_logit0 = omega arith
offset_bounds Reg.npu_logit1 = omega arith
offset_bounds Reg.npu_class = omega arith
offset_bounds Reg.gpu_cmd = omega arith
offset_bounds Reg.gpu_triangles = omega arith
offset_bounds Reg.legacy_boot = omega arith
offset_bounds Reg.legacy_gpio = omega arith
offset_bounds Reg.irq_enable = omega arith
offset_bounds Reg.irq_status = omega arith
offset_bounds Reg.gpu_vertex0 = omega arith
offset_bounds Reg.gpu_vertex1 = omega arith
offset_bounds Reg.gpu_vertex2 = omega arith
offset_bounds Reg.gpu_clear_value = omega arith
offset_bounds Reg.gpu_frame_count = omega arith
offset_bounds Reg.gpu_raster_pixels = omega arith
offset_bounds Reg.gpu_last_area2 = omega arith
offset_bounds Reg.gpu_last_bbox = omega arith
offset_bounds Reg.gpu_fb_rowsel = omega arith
offset_bounds Reg.gpu_fb_rowdata = omega arith
offset_bounds Reg.npu_weight0_a = omega arith
offset_bounds Reg.npu_weight0_b = omega arith
offset_bounds Reg.npu_weight1_a = omega arith
offset_bounds Reg.npu_weight1_b = omega arith
offset_bounds Reg.npu_bias0 = omega arith
offset_bounds Reg.npu_bias1 = omega arith
offset_bounds Reg.umem_ctrl = omega arith
offset_bounds Reg.umem_base = omega arith
offset_bounds Reg.umem_size = omega arith
offset_bounds Reg.umem_npu_input = omega arith
offset_bounds Reg.umem_npu_weight = omega arith
offset_bounds Reg.umem_npu_output = omega arith
offset_bounds Reg.umem_gpu_fb = omega arith
offset_bounds Reg.umem_gpu_fb_pitch = omega arith
offset_bounds Reg.umem_cmdq_base = omega arith
offset_bounds Reg.umem_cmdq_size = omega arith
offset_bounds Reg.umem_cmdq_head = omega arith
offset_bounds Reg.umem_cmdq_tail = omega arith
offset_bounds Reg.umem_cmdq_doorbell = omega arith
offset_bounds Reg.umem_cmdq_status = omega arith
offset_bounds Reg.cmdq_tail_shadow = omega arith
offset_bounds Reg.cmdq_status_shadow = omega arith
offset_bounds Reg.cmdq_fetch_offset = omega arith
offset_bounds Reg.cmdq_fetch_sequence = omega arith
offset_bounds Reg.cmdq_fetch_slot = omega arith
offset_bounds Reg.umem_fetch_status = omega arith
offset_bounds Reg.umem_fetch_last_araddr = omega arith
offset_bounds Reg.umem_fetch_last_sequence = omega arith
offset_bounds Reg.umem_fetch_beat_count = omega arith
offset_bounds Reg.umem_fetch_desc_word0 = omega arith
offset_bounds Reg.cmdq_dispatch_status = omega arith
offset_bounds Reg.cmdq_dispatch_opcode = omega arith
offset_bounds Reg.cmdq_dispatch_npu_count = omega arith
offset_bounds Reg.cmdq_dispatch_gpu_count = omega arith
offset_bounds Reg.cmdq_dispatch_error_count = omega arith
offset_bounds Reg.npu_cmd_exec_status = omega arith
offset_bounds Reg.npu_cmd_exec_input_offset = omega arith
offset_bounds Reg.npu_cmd_exec_output_offset = omega arith
