-- ===== src/Registers.antt =====
-- The register map of linux/include/accel_mmio.h: every REG_ macro and its byte offset.
pub mod Decode
use risc_v_computer_zybo.Base.{ℕ, Bool, Option, none, some, List, [], ◌∷◌, ◌==◌, if◌then◌else◌}

pub data Reg : Type 0 where
  id_version control status npu_cfg0 npu_status_word npu_input0 npu_input1 npu_logit0 : Reg
  npu_logit1 npu_class gpu_cmd gpu_triangles legacy_boot legacy_gpio irq_enable : Reg
  irq_status gpu_vertex0 gpu_vertex1 gpu_vertex2 gpu_clear_value gpu_frame_count : Reg
  gpu_raster_pixels gpu_last_area2 gpu_last_bbox gpu_fb_rowsel gpu_fb_rowdata : Reg
  npu_weight0_a npu_weight0_b npu_weight1_a npu_weight1_b npu_bias0 npu_bias1 umem_ctrl : Reg
  umem_base umem_size umem_npu_input umem_npu_weight umem_npu_output umem_gpu_fb : Reg
  umem_gpu_fb_pitch umem_cmdq_base umem_cmdq_size umem_cmdq_head umem_cmdq_tail : Reg
  umem_cmdq_doorbell umem_cmdq_status cmdq_tail_shadow cmdq_status_shadow : Reg
  cmdq_fetch_offset cmdq_fetch_sequence cmdq_fetch_slot umem_fetch_status : Reg
  umem_fetch_last_araddr umem_fetch_last_sequence umem_fetch_beat_count : Reg
  umem_fetch_desc_word0 cmdq_dispatch_status cmdq_dispatch_opcode : Reg
  cmdq_dispatch_npu_count cmdq_dispatch_gpu_count cmdq_dispatch_error_count : Reg
  npu_cmd_exec_status npu_cmd_exec_input_offset npu_cmd_exec_output_offset : Reg

unfoldable pub offset : Reg → ℕ
offset Reg.id_version = 0x00
offset Reg.control = 0x04
offset Reg.status = 0x08
offset Reg.npu_cfg0 = 0x0c
offset Reg.npu_status_word = 0x10
offset Reg.npu_input0 = 0x14
offset Reg.npu_input1 = 0x18
offset Reg.npu_logit0 = 0x1c
offset Reg.npu_logit1 = 0x20
offset Reg.npu_class = 0x24
offset Reg.gpu_cmd = 0x28
offset Reg.gpu_triangles = 0x2c
offset Reg.legacy_boot = 0x30
offset Reg.legacy_gpio = 0x34
offset Reg.irq_enable = 0x38
offset Reg.irq_status = 0x3c
offset Reg.gpu_vertex0 = 0x40
offset Reg.gpu_vertex1 = 0x44
offset Reg.gpu_vertex2 = 0x48
offset Reg.gpu_clear_value = 0x4c
offset Reg.gpu_frame_count = 0x50
offset Reg.gpu_raster_pixels = 0x54
offset Reg.gpu_last_area2 = 0x58
offset Reg.gpu_last_bbox = 0x5c
offset Reg.gpu_fb_rowsel = 0x60
offset Reg.gpu_fb_rowdata = 0x64
offset Reg.npu_weight0_a = 0x68
offset Reg.npu_weight0_b = 0x6c
offset Reg.npu_weight1_a = 0x70
offset Reg.npu_weight1_b = 0x74
offset Reg.npu_bias0 = 0x78
offset Reg.npu_bias1 = 0x7c
offset Reg.umem_ctrl = 0x80
offset Reg.umem_base = 0x84
offset Reg.umem_size = 0x88
offset Reg.umem_npu_input = 0x8c
offset Reg.umem_npu_weight = 0x90
offset Reg.umem_npu_output = 0x94
offset Reg.umem_gpu_fb = 0x98
offset Reg.umem_gpu_fb_pitch = 0x9c
offset Reg.umem_cmdq_base = 0xa0
offset Reg.umem_cmdq_size = 0xa4
offset Reg.umem_cmdq_head = 0xa8
offset Reg.umem_cmdq_tail = 0xac
offset Reg.umem_cmdq_doorbell = 0xb0
offset Reg.umem_cmdq_status = 0xb4
offset Reg.cmdq_tail_shadow = 0xb8
offset Reg.cmdq_status_shadow = 0xbc
offset Reg.cmdq_fetch_offset = 0xc0
offset Reg.cmdq_fetch_sequence = 0xc4
offset Reg.cmdq_fetch_slot = 0xc8
offset Reg.umem_fetch_status = 0xcc
offset Reg.umem_fetch_last_araddr = 0xd0
offset Reg.umem_fetch_last_sequence = 0xd4
offset Reg.umem_fetch_beat_count = 0xd8
offset Reg.umem_fetch_desc_word0 = 0xdc
offset Reg.cmdq_dispatch_status = 0xe0
offset Reg.cmdq_dispatch_opcode = 0xe4
offset Reg.cmdq_dispatch_npu_count = 0xe8
offset Reg.cmdq_dispatch_gpu_count = 0xec
offset Reg.cmdq_dispatch_error_count = 0xf0
offset Reg.npu_cmd_exec_status = 0xf4
offset Reg.npu_cmd_exec_input_offset = 0xf8
offset Reg.npu_cmd_exec_output_offset = 0xfc

-- The `case` labels of the `switch` statements over the offset, with the registers that they stand
-- for.
abbrev pub cases : List (ℕ × Reg)
cases =
    (0x00, Reg.id_version)
    ∷ (0x04, Reg.control)
    ∷ (0x08, Reg.status)
    ∷ (0x0c, Reg.npu_cfg0)
    ∷ (0x10, Reg.npu_status_word)
    ∷ (0x14, Reg.npu_input0)
    ∷ (0x18, Reg.npu_input1)
    ∷ (0x1c, Reg.npu_logit0)
    ∷ (0x20, Reg.npu_logit1)
    ∷ (0x24, Reg.npu_class)
    ∷ (0x28, Reg.gpu_cmd)
    ∷ (0x2c, Reg.gpu_triangles)
    ∷ (0x30, Reg.legacy_boot)
    ∷ (0x34, Reg.legacy_gpio)
    ∷ (0x38, Reg.irq_enable)
    ∷ (0x3c, Reg.irq_status)
    ∷ (0x40, Reg.gpu_vertex0)
    ∷ (0x44, Reg.gpu_vertex1)
    ∷ (0x48, Reg.gpu_vertex2)
    ∷ (0x4c, Reg.gpu_clear_value)
    ∷ (0x50, Reg.gpu_frame_count)
    ∷ (0x54, Reg.gpu_raster_pixels)
    ∷ (0x58, Reg.gpu_last_area2)
    ∷ (0x5c, Reg.gpu_last_bbox)
    ∷ (0x60, Reg.gpu_fb_rowsel)
    ∷ (0x64, Reg.gpu_fb_rowdata)
    ∷ (0x68, Reg.npu_weight0_a)
    ∷ (0x6c, Reg.npu_weight0_b)
    ∷ (0x70, Reg.npu_weight1_a)
    ∷ (0x74, Reg.npu_weight1_b)
    ∷ (0x78, Reg.npu_bias0)
    ∷ (0x7c, Reg.npu_bias1)
    ∷ (0x80, Reg.umem_ctrl)
    ∷ (0x84, Reg.umem_base)
    ∷ (0x88, Reg.umem_size)
    ∷ (0x8c, Reg.umem_npu_input)
    ∷ (0x90, Reg.umem_npu_weight)
    ∷ (0x94, Reg.umem_npu_output)
    ∷ (0x98, Reg.umem_gpu_fb)
    ∷ (0x9c, Reg.umem_gpu_fb_pitch)
    ∷ (0xa0, Reg.umem_cmdq_base)
    ∷ (0xa4, Reg.umem_cmdq_size)
    ∷ (0xa8, Reg.umem_cmdq_head)
    ∷ (0xac, Reg.umem_cmdq_tail)
    ∷ (0xb0, Reg.umem_cmdq_doorbell)
    ∷ (0xb4, Reg.umem_cmdq_status)
    ∷ (0xb8, Reg.cmdq_tail_shadow)
    ∷ (0xbc, Reg.cmdq_status_shadow)
    ∷ (0xc0, Reg.cmdq_fetch_offset)
    ∷ (0xc4, Reg.cmdq_fetch_sequence)
    ∷ (0xc8, Reg.cmdq_fetch_slot)
    ∷ (0xcc, Reg.umem_fetch_status)
    ∷ (0xd0, Reg.umem_fetch_last_araddr)
    ∷ (0xd4, Reg.umem_fetch_last_sequence)
    ∷ (0xd8, Reg.umem_fetch_beat_count)
    ∷ (0xdc, Reg.umem_fetch_desc_word0)
    ∷ (0xe0, Reg.cmdq_dispatch_status)
    ∷ (0xe4, Reg.cmdq_dispatch_opcode)
    ∷ (0xe8, Reg.cmdq_dispatch_npu_count)
    ∷ (0xec, Reg.cmdq_dispatch_gpu_count)
    ∷ (0xf0, Reg.cmdq_dispatch_error_count)
    ∷ (0xf4, Reg.npu_cmd_exec_status)
    ∷ (0xf8, Reg.npu_cmd_exec_input_offset)
    ∷ (0xfc, Reg.npu_cmd_exec_output_offset)
    ∷ []

unfoldable pub find_case : List (ℕ × Reg) → ℕ → Option Reg
find_case [] at = none
find_case ((label, r) ∷ rest) at = if label == at then some r else find_case rest at

-- The case that an offset selects; `none` is `default`.
unfoldable pub decode : ℕ → Option Reg
unfolding find_case
decode at = find_case cases at
