-- ===== src/Emulator/Regs.antt =====
-- The register interface of the emulator: `emu_reg_read` and `emu_reg_write` of
-- linux/uio/accel_mmio_demo.c.
pub mod Kept
use risc_v_computer_zybo.Base.{
  ℕ, ◌+◌, ◌*◌, ◌/◌, ◌%◌, ◌^◌, Bool, true, false, ◌&&◌, ◌||◌, none, some, Outcome, ok, undefined,
  ltb, ◌>>=◌, ◌==◌, if◌then◌else◌,
}
use risc_v_computer_zybo.Word.{test_bit, unsigned32}
use risc_v_computer_zybo.Registers.{Reg, decode}
use risc_v_computer_zybo.Emulator.{
  Emu, NpuState, UmemState, CmdqState, GpuState, gpu_cmd_clear, fb_rows,
}
use risc_v_computer_zybo.Emulator.Umem.{bit_cmdq_enable}
use risc_v_computer_zybo.Emulator.Npu.{run_npu}
use risc_v_computer_zybo.Emulator.Gpu.{run_gpu_clear, run_gpu_draw}
use risc_v_computer_zybo.Emulator.Cmdq.{refresh_status, process}

-- `(flag ? 1 << k : 0)`
abbrev pub flag_bit : Bool → ℕ → ℕ
flag_bit b k = if b then 2 ^ k else 0

-- case REG_STATUS: NPU busy and done, GPU busy and done, from bit 0 up.
unfoldable pub status_word : Emu → ℕ
status_word e =
    flag_bit e.npu.busy 0
    + flag_bit e.npu.done_sticky 1
    + flag_bit e.gpu.busy 2
    + flag_bit e.gpu.done_sticky 3

-- IRQ_STATUS_LINE: a pending source that is enabled.
abbrev pub irq_line : Emu → Bool
irq_line e =
    (e.npu.done_sticky && test_bit e.irq_enable 0) || (e.gpu.done_sticky && test_bit e.irq_enable 1)

-- case REG_IRQ_STATUS
unfoldable pub irq_status : Emu → ℕ
irq_status e = flag_bit e.npu.done_sticky 0 + flag_bit e.gpu.done_sticky 1 + flag_bit (irq_line e) 2

-- The value of each case; `emu_read` has the bounds of the framebuffer.
unfoldable pub read_reg : Emu → Reg → ℕ
read_reg e Reg.id_version = 0x5A37100A
read_reg e Reg.control = e.control_shadow
read_reg e Reg.status = status_word e
read_reg e Reg.npu_cfg0 = e.npu.seq_length * 2 ^ 16 + e.npu.model_id
read_reg e Reg.npu_status_word = e.npu.status_word
read_reg e Reg.npu_input0 = e.npu.input0
read_reg e Reg.npu_input1 = e.npu.input1
read_reg e Reg.npu_logit0 = unsigned32 e.npu.logit0
read_reg e Reg.npu_logit1 = unsigned32 e.npu.logit1
read_reg e Reg.npu_class = e.npu.class_id
read_reg e Reg.gpu_cmd = e.gpu.cmd_opcode
read_reg e Reg.gpu_triangles = e.gpu.triangles
read_reg e Reg.legacy_boot = 0x00000001
read_reg e Reg.legacy_gpio = 0xA5A50001
read_reg e Reg.irq_enable = e.irq_enable % 4
read_reg e Reg.irq_status = irq_status e
read_reg e Reg.gpu_vertex0 = e.gpu.vertex0
read_reg e Reg.gpu_vertex1 = e.gpu.vertex1
read_reg e Reg.gpu_vertex2 = e.gpu.vertex2
read_reg e Reg.gpu_clear_value = e.gpu.clear_value
read_reg e Reg.gpu_frame_count = e.gpu.frame_count
read_reg e Reg.gpu_raster_pixels = e.gpu.raster_pixels
read_reg e Reg.gpu_last_area2 = unsigned32 e.gpu.last_area2
read_reg e Reg.gpu_last_bbox = e.gpu.last_bbox
read_reg e Reg.gpu_fb_rowsel = e.gpu.fb_row_select
read_reg e Reg.gpu_fb_rowdata = e.gpu.framebuffer e.gpu.fb_row_select
read_reg e Reg.npu_weight0_a = e.npu.weight0_a
read_reg e Reg.npu_weight0_b = e.npu.weight0_b
read_reg e Reg.npu_weight1_a = e.npu.weight1_a
read_reg e Reg.npu_weight1_b = e.npu.weight1_b
read_reg e Reg.npu_bias0 = e.npu.bias0
read_reg e Reg.npu_bias1 = e.npu.bias1
read_reg e Reg.umem_ctrl = e.umem.ctrl
read_reg e Reg.umem_base = e.umem.base_addr
read_reg e Reg.umem_size = e.umem.size_bytes
read_reg e Reg.umem_npu_input = e.umem.npu_input_offset
read_reg e Reg.umem_npu_weight = e.umem.npu_weight_offset
read_reg e Reg.umem_npu_output = e.umem.npu_output_offset
read_reg e Reg.umem_gpu_fb = e.umem.gpu_fb_offset
read_reg e Reg.umem_gpu_fb_pitch = e.umem.gpu_fb_pitch
read_reg e Reg.umem_cmdq_base = e.cmdq.base_offset
read_reg e Reg.umem_cmdq_size = e.cmdq.size_bytes
read_reg e Reg.umem_cmdq_head = e.cmdq.head
read_reg e Reg.umem_cmdq_tail = e.cmdq.tail
read_reg e Reg.umem_cmdq_doorbell = e.cmdq.doorbell
read_reg e Reg.umem_cmdq_status = e.cmdq.status
read_reg e Reg.cmdq_tail_shadow = e.cmdq.tail
read_reg e Reg.cmdq_status_shadow = e.cmdq.status
read_reg e Reg.cmdq_fetch_offset = e.cmdq.last_offset
read_reg e Reg.cmdq_fetch_sequence = e.cmdq.last_sequence
read_reg e Reg.cmdq_fetch_slot = e.cmdq.last_slot
read_reg e Reg.umem_fetch_status = e.cmdq.fetch_status
read_reg e Reg.umem_fetch_last_araddr = e.cmdq.last_araddr
read_reg e Reg.umem_fetch_last_sequence = e.cmdq.last_sequence
read_reg e Reg.umem_fetch_beat_count = e.cmdq.last_beat_count
read_reg e Reg.umem_fetch_desc_word0 = e.cmdq.last_desc_word0
read_reg e Reg.cmdq_dispatch_status = e.cmdq.dispatch_status
read_reg e Reg.cmdq_dispatch_opcode = e.cmdq.dispatch_opcode
read_reg e Reg.cmdq_dispatch_npu_count = e.cmdq.dispatch_npu_count
read_reg e Reg.cmdq_dispatch_gpu_count = e.cmdq.dispatch_gpu_count
read_reg e Reg.cmdq_dispatch_error_count = e.cmdq.dispatch_error_count
read_reg e Reg.npu_cmd_exec_status = e.cmdq.npu_exec_status
read_reg e Reg.npu_cmd_exec_input_offset = e.cmdq.npu_exec_input_offset
read_reg e Reg.npu_cmd_exec_output_offset = e.cmdq.npu_exec_output_offset

unfoldable pub reg_read : Emu → ℕ → ℕ
reg_read e at = elim (decode at) [ some r ↦ read_reg e r | none ↦ 0 ]

-- `emu_reg_read` with the bounds of `emu->framebuffer`: a read of a row past its end is undefined.
unfoldable pub emu_read : Emu → Reg → Outcome ℕ
emu_read e Reg.gpu_fb_rowdata =
    if ltb e.gpu.fb_row_select fb_rows then ok (read_reg e Reg.gpu_fb_rowdata) else undefined
emu_read e r = ok (read_reg e r)

unfoldable pub emu_reg_read : Emu → ℕ → Outcome ℕ
emu_reg_read e at = elim (decode at) [ some r ↦ emu_read e r | none ↦ ok 0 ]

abbrev pub set_npu : Emu → NpuState → Emu
set_npu e n = record e { npu = n }

abbrev pub set_umem : Emu → UmemState → Emu
set_umem e u = record e { umem = u }

abbrev pub set_gpu : Emu → GpuState → Emu
set_gpu e g = record e { gpu = g }

-- A write to a queue register refreshes the status.
abbrev pub set_queue : Emu → CmdqState → Emu
set_queue e q = record e { cmdq = refresh_status false q }

-- case REG_CONTROL
unfoldable pub write_control : Emu → ℕ → Outcome Emu
write_control e v = do
  let shadowed = record e { control_shadow = v }
  ran ← if test_bit v 0 then run_npu shadowed else ok shadowed
  if test_bit v 1
      then (if ran.gpu.cmd_opcode == gpu_cmd_clear then run_gpu_clear ran else run_gpu_draw ran)
      else ok ran

-- case REG_STATUS: the two sticky bits are cleared by ones.
unfoldable pub write_status : Emu → ℕ → Emu
write_status e v = record e {
  npu = record (e.npu) { done_sticky = if test_bit v 0 then false else e.npu.done_sticky };
  gpu = record (e.gpu) { done_sticky = if test_bit v 1 then false else e.gpu.done_sticky };
}

-- case REG_UMEM_CMDQ_DOORBELL
unfoldable pub write_doorbell : Emu → ℕ → Outcome Emu
write_doorbell e v =
    let rung = record e { cmdq = record (e.cmdq) { doorbell = v } } in
    if test_bit e.umem.ctrl bit_cmdq_enable && (if v == 0 then false else true)
    then process rung
    else ok (set_queue rung rung.cmdq)

unfoldable pub write_reg : Emu → ℕ → Reg → Outcome Emu
write_reg e v Reg.control = write_control e v
write_reg e v Reg.status = ok (write_status e v)
write_reg e v Reg.npu_cfg0 =
    ok (set_npu e (record (e.npu) { model_id = v % 256; seq_length = v / 2 ^ 16 % 2 ^ 16 }))
write_reg e v Reg.npu_input0 = ok (set_npu e (record (e.npu) { input0 = v }))
write_reg e v Reg.npu_input1 = ok (set_npu e (record (e.npu) { input1 = v }))
write_reg e v Reg.gpu_cmd = ok (set_gpu e (record (e.gpu) { cmd_opcode = v % 256 }))
write_reg e v Reg.irq_enable = ok (record e { irq_enable = v % 4 })
write_reg e v Reg.gpu_vertex0 = ok (set_gpu e (record (e.gpu) { vertex0 = v % 2 ^ 16 }))
write_reg e v Reg.gpu_vertex1 = ok (set_gpu e (record (e.gpu) { vertex1 = v % 2 ^ 16 }))
write_reg e v Reg.gpu_vertex2 = ok (set_gpu e (record (e.gpu) { vertex2 = v % 2 ^ 16 }))
write_reg e v Reg.gpu_clear_value = ok (set_gpu e (record (e.gpu) { clear_value = v % 256 }))
write_reg e v Reg.gpu_fb_rowsel = ok (set_gpu e (record (e.gpu) { fb_row_select = v % 32 }))
write_reg e v Reg.npu_weight0_a = ok (set_npu e (record (e.npu) { weight0_a = v }))
write_reg e v Reg.npu_weight0_b = ok (set_npu e (record (e.npu) { weight0_b = v }))
write_reg e v Reg.npu_weight1_a = ok (set_npu e (record (e.npu) { weight1_a = v }))
write_reg e v Reg.npu_weight1_b = ok (set_npu e (record (e.npu) { weight1_b = v }))
write_reg e v Reg.npu_bias0 = ok (set_npu e (record (e.npu) { bias0 = v }))
write_reg e v Reg.npu_bias1 = ok (set_npu e (record (e.npu) { bias1 = v }))
write_reg e v Reg.umem_ctrl = ok (set_umem e (record (e.umem) { ctrl = v }))
write_reg e v Reg.umem_base = ok (set_umem e (record (e.umem) { base_addr = v }))
write_reg e v Reg.umem_size = ok (set_umem e (record (e.umem) { size_bytes = v }))
write_reg e v Reg.umem_npu_input = ok (set_umem e (record (e.umem) { npu_input_offset = v }))
write_reg e v Reg.umem_npu_weight = ok (set_umem e (record (e.umem) { npu_weight_offset = v }))
write_reg e v Reg.umem_npu_output = ok (set_umem e (record (e.umem) { npu_output_offset = v }))
write_reg e v Reg.umem_gpu_fb = ok (set_umem e (record (e.umem) { gpu_fb_offset = v }))
write_reg e v Reg.umem_gpu_fb_pitch = ok (set_umem e (record (e.umem) { gpu_fb_pitch = v }))
write_reg e v Reg.umem_cmdq_base = ok (set_queue e (record (e.cmdq) { base_offset = v }))
write_reg e v Reg.umem_cmdq_size = ok (set_queue e (record (e.cmdq) { size_bytes = v }))
write_reg e v Reg.umem_cmdq_head = ok (set_queue e (record (e.cmdq) { head = v }))
write_reg e v Reg.umem_cmdq_tail = ok (set_queue e (record (e.cmdq) { tail = v }))
write_reg e v Reg.umem_cmdq_doorbell = write_doorbell e v
write_reg e v _ = ok e

unfoldable pub reg_write : Emu → ℕ → ℕ → Outcome Emu
reg_write e at v = elim (decode at) [ some r ↦ write_reg e v r | none ↦ ok e ]
