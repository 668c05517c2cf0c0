-- ===== src/Emulator/Regs/Kept.antt =====
-- What a configuration register keeps of a write.
use mathlib.Core.Option.{some-injective}
use risc_v_computer_zybo.Base.{
  ℕ, ◌%◌, ◌^◌, ◌<◌, ◌≡◌, arith, Option, none, some, Returns, Returns-mono, ◌∙◌,
}
use risc_v_computer_zybo.Word.{word}
use risc_v_computer_zybo.Registers.{Reg, offset}
use risc_v_computer_zybo.Registers.Decode.{decode-offset}
use risc_v_computer_zybo.Emulator.{Emu}
use risc_v_computer_zybo.Emulator.Cmdq.{refresh_status}
use risc_v_computer_zybo.Emulator.Regs.{read_reg, reg_read, write_reg, reg_write}

-- The number of values of a register that keeps what is written and does nothing else.
abbrev pub kept_values : Reg → Option ℕ
kept_values Reg.npu_input0 = some (word)
kept_values Reg.npu_input1 = some (word)
kept_values Reg.gpu_cmd = some (2 ^ 8)
kept_values Reg.irq_enable = some (2 ^ 2)
kept_values Reg.gpu_vertex0 = some (2 ^ 16)
kept_values Reg.gpu_vertex1 = some (2 ^ 16)
kept_values Reg.gpu_vertex2 = some (2 ^ 16)
kept_values Reg.gpu_clear_value = some (2 ^ 8)
kept_values Reg.gpu_fb_rowsel = some (2 ^ 5)
kept_values Reg.npu_weight0_a = some (word)
kept_values Reg.npu_weight0_b = some (word)
kept_values Reg.npu_weight1_a = some (word)
kept_values Reg.npu_weight1_b = some (word)
kept_values Reg.npu_bias0 = some (word)
kept_values Reg.npu_bias1 = some (word)
kept_values Reg.umem_ctrl = some (word)
kept_values Reg.umem_base = some (word)
kept_values Reg.umem_size = some (word)
kept_values Reg.umem_npu_input = some (word)
kept_values Reg.umem_npu_weight = some (word)
kept_values Reg.umem_npu_output = some (word)
kept_values Reg.umem_gpu_fb = some (word)
kept_values Reg.umem_gpu_fb_pitch = some (word)
kept_values Reg.umem_cmdq_base = some (word)
kept_values Reg.umem_cmdq_size = some (word)
kept_values Reg.umem_cmdq_head = some (word)
kept_values Reg.umem_cmdq_tail = some (word)
kept_values _ = none

write-read_reg :
    (e : Emu) (v m : ℕ) (r : Reg)
    → v < word
    → kept_values r ≡ some m
    → Returns (λ e'. read_reg e' r ≡ v % m) (write_reg e v r)
unfolding read_reg write_reg refresh_status
write-read_reg e v m Reg.id_version small h = cc
write-read_reg e v m Reg.control small h = cc
write-read_reg e v m Reg.status small h = cc
write-read_reg e v m Reg.npu_cfg0 small h = cc
write-read_reg e v m Reg.npu_status_word small h = cc
write-read_reg e v m Reg.npu_input0 small h = ground (arith, some-injective _ _ h)
write-read_reg e v m Reg.npu_input1 small h = ground (arith, some-injective _ _ h)
write-read_reg e v m Reg.npu_logit0 small h = cc
write-read_reg e v m Reg.npu_logit1 small h = cc
write-read_reg e v m Reg.npu_class small h = cc
write-read_reg e v m Reg.gpu_cmd small h = ground (arith, some-injective _ _ h)
write-read_reg e v m Reg.gpu_triangles small h = cc
write-read_reg e v m Reg.legacy_boot small h = cc
write-read_reg e v m Reg.legacy_gpio small h = cc
write-read_reg e v m Reg.irq_enable small h = ground (arith, some-injective _ _ h)
write-read_reg e v m Reg.irq_status small h = cc
write-read_reg e v m Reg.gpu_vertex0 small h = ground (arith, some-injective _ _ h)
write-read_reg e v m Reg.gpu_vertex1 small h = ground (arith, some-injective _ _ h)
write-read_reg e v m Reg.gpu_vertex2 small h = ground (arith, some-injective _ _ h)
write-read_reg e v m Reg.gpu_clear_value small h = ground (arith, some-injective _ _ h)
write-read_reg e v m Reg.gpu_frame_count small h = cc
write-read_reg e v m Reg.gpu_raster_pixels small h = cc
write-read_reg e v m Reg.gpu_last_area2 small h = cc
write-read_reg e v m Reg.gpu_last_bbox small h = cc
write-read_reg e v m Reg.gpu_fb_rowsel small h = ground (arith, some-injective _ _ h)
write-read_reg e v m Reg.gpu_fb_rowdata small h = cc
write-read_reg e v m Reg.npu_weight0_a small h = ground (arith, some-injective _ _ h)
write-read_reg e v m Reg.npu_weight0_b small h = ground (arith, some-injective _ _ h)
write-read_reg e v m Reg.npu_weight1_a small h = ground (arith, some-injective _ _ h)
write-read_reg e v m Reg.npu_weight1_b small h = ground (arith, some-injective _ _ h)
write-read_reg e v m Reg.npu_bias0 small h = ground (arith, some-injective _ _ h)
write-read_reg e v m Reg.npu_bias1 small h = ground (arith, some-injective _ _ h)
write-read_reg e v m Reg.umem_ctrl small h = ground (arith, some-injective _ _ h)
write-read_reg e v m Reg.umem_base small h = ground (arith, some-injective _ _ h)
write-read_reg e v m Reg.umem_size small h = ground (arith, some-injective _ _ h)
write-read_reg e v m Reg.umem_npu_input small h = ground (arith, some-injective _ _ h)
write-read_reg e v m Reg.umem_npu_weight small h = ground (arith, some-injective _ _ h)
write-read_reg e v m Reg.umem_npu_output small h = ground (arith, some-injective _ _ h)
write-read_reg e v m Reg.umem_gpu_fb small h = ground (arith, some-injective _ _ h)
write-read_reg e v m Reg.umem_gpu_fb_pitch small h = ground (arith, some-injective _ _ h)
write-read_reg e v m Reg.umem_cmdq_base small h = ground (arith, some-injective _ _ h)
write-read_reg e v m Reg.umem_cmdq_size small h = ground (arith, some-injective _ _ h)
write-read_reg e v m Reg.umem_cmdq_head small h = ground (arith, some-injective _ _ h)
write-read_reg e v m Reg.umem_cmdq_tail small h = ground (arith, some-injective _ _ h)
write-read_reg e v m Reg.umem_cmdq_doorbell small h = cc
write-read_reg e v m Reg.umem_cmdq_status small h = cc
write-read_reg e v m Reg.cmdq_tail_shadow small h = cc
write-read_reg e v m Reg.cmdq_status_shadow small h = cc
write-read_reg e v m Reg.cmdq_fetch_offset small h = cc
write-read_reg e v m Reg.cmdq_fetch_sequence small h = cc
write-read_reg e v m Reg.cmdq_fetch_slot small h = cc
write-read_reg e v m Reg.umem_fetch_status small h = cc
write-read_reg e v m Reg.umem_fetch_last_araddr small h = cc
write-read_reg e v m Reg.umem_fetch_last_sequence small h = cc
write-read_reg e v m Reg.umem_fetch_beat_count small h = cc
write-read_reg e v m Reg.umem_fetch_desc_word0 small h = cc
write-read_reg e v m Reg.cmdq_dispatch_status small h = cc
write-read_reg e v m Reg.cmdq_dispatch_opcode small h = cc
write-read_reg e v m Reg.cmdq_dispatch_npu_count small h = cc
write-read_reg e v m Reg.cmdq_dispatch_gpu_count small h = cc
write-read_reg e v m Reg.cmdq_dispatch_error_count small h = cc
write-read_reg e v m Reg.npu_cmd_exec_status small h = cc
write-read_reg e v m Reg.npu_cmd_exec_input_offset small h = cc
write-read_reg e v m Reg.npu_cmd_exec_output_offset small h = cc

reg_read-offset : (e : Emu) (r : Reg) → reg_read e (offset r) ≡ read_reg e r
unfolding reg_read
reg_read-offset e r = rw (reg_read, decode-offset r)

-- A write at the offset of a configuration register returns, and a read there gives what was
-- written, cut to the register's width.
pub reg_write-reg_read :
    (e : Emu) (v m : ℕ) (r : Reg)
    → v < word
    → kept_values r ≡ some m
    → Returns (λ e'. reg_read e' (offset r) ≡ v % m) (reg_write e (offset r) v)
unfolding reg_write
reg_write-reg_read e v m r small h =
    rw (Returns, decode-offset r)
      (Returns-mono (λ e'. read_reg e' r ≡ v % m) (λ e'. reg_read e' (offset r) ≡ v % m)
        (write_reg e v r) (λ e' q. reg_read-offset e' r ∙ q) (write-read_reg e v m r small h))
