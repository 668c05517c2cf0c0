-- ===== src/Emulator/Typed/Regs.antt =====
-- Every register access keeps the integer fields of the emulator in their types.
use risc_v_computer_zybo.Base.{
  ℕ, ◌<◌, arith, true, false, ◌&&◌, none, some, ok, Returns, ◌≡◌, refl, Ensures, >>=-Ensures,
  if-both, ◌==◌, if◌then◌else◌,
}
use risc_v_computer_zybo.Word.{word, test_bit}
use risc_v_computer_zybo.Registers.{Reg, decode}
use risc_v_computer_zybo.Emulator.{Emu, CmdqState}
use risc_v_computer_zybo.Emulator.Umem.{bit_cmdq_enable}
use risc_v_computer_zybo.Emulator.Npu.{run_npu}
use risc_v_computer_zybo.Emulator.Regs.{
  read_reg, reg_read, emu_read, emu_reg_read, write_reg, reg_write, write_control, write_status,
  write_doorbell, set_queue, status_word, irq_status,
}
use risc_v_computer_zybo.Emulator.Typed.{Typed, CmdqTyped}
use risc_v_computer_zybo.Emulator.Typed.Npu.{run_npu-Typed}
use risc_v_computer_zybo.Emulator.Typed.Gpu.{run_gpu_clear-Typed, run_gpu_draw-Typed}
use risc_v_computer_zybo.Emulator.Typed.Cmdq.{refresh_status-CmdqTyped, process-Typed}

write_control-Typed : (e : Emu) (v : ℕ) → v < word → Typed e → Ensures Typed (write_control e v)
unfolding write_control
write_control-Typed e v h t = >>=-Ensures Typed Typed _ _ ran λ e' t'.
    if-both (Ensures Typed) (test_bit v 1) _ (ok e')
      (if-both (Ensures Typed) _ _ _ (run_gpu_clear-Typed e' t') (run_gpu_draw-Typed e' t')) t'
  where
    shadowed : Typed (record e { control_shadow = v })
    shadowed = ground arith

    ran : Ensures Typed (
        if test_bit v 0
        then run_npu (record e { control_shadow = v })
        else ok (record e { control_shadow = v }))
    ran = if-both (Ensures Typed) (test_bit v 0) _ _ (run_npu-Typed _ shadowed) shadowed

write_status-Typed : (e : Emu) (v : ℕ) → Typed e → Typed (write_status e v)
unfolding write_status
write_status-Typed e v t = ground arith

set_queue-Typed : (e : Emu) (q : CmdqState) → Typed e → CmdqTyped q → Typed (set_queue e q)
set_queue-Typed e q t c = record {
  control_shadow_word = t.control_shadow_word;
  irq_enable_bits = t.irq_enable_bits;
  npu = t.npu;
  umem = t.umem;
  cmdq = refresh_status-CmdqTyped false q c;
  gpu = t.gpu;
  bytes = t.bytes;
}

write_doorbell-Typed : (e : Emu) (v : ℕ) → v < word → Typed e → Ensures Typed (write_doorbell e v)
unfolding write_doorbell
write_doorbell-Typed e v h t =
    if-both (Ensures Typed)
      (test_bit e.umem.ctrl bit_cmdq_enable && (if v == 0 then false else true)) _
      (ok (set_queue rung rung.cmdq)) (process-Typed rung rung-Typed)
      (set_queue-Typed rung rung.cmdq rung-Typed rung-Typed.cmdq)
  where
    rung : Emu
    rung = record e { cmdq = record (e.cmdq) { doorbell = v } }

    rung-Typed : Typed rung
    rung-Typed = ground arith

write_reg-Typed : (e : Emu) (v : ℕ) (r : Reg) → v < word → Typed e → Ensures Typed (write_reg e v r)
unfolding write_reg
write_reg-Typed e v Reg.id_version h t = t
write_reg-Typed e v Reg.control h t = write_control-Typed e v h t
write_reg-Typed e v Reg.status h t = write_status-Typed e v t
write_reg-Typed e v Reg.npu_cfg0 h t = ground arith
write_reg-Typed e v Reg.npu_status_word h t = t
write_reg-Typed e v Reg.npu_input0 h t = ground arith
write_reg-Typed e v Reg.npu_input1 h t = ground arith
write_reg-Typed e v Reg.npu_logit0 h t = t
write_reg-Typed e v Reg.npu_logit1 h t = t
write_reg-Typed e v Reg.npu_class h t = t
write_reg-Typed e v Reg.gpu_cmd h t = ground arith
write_reg-Typed e v Reg.gpu_triangles h t = t
write_reg-Typed e v Reg.legacy_boot h t = t
write_reg-Typed e v Reg.legacy_gpio h t = t
write_reg-Typed e v Reg.irq_enable h t = ground arith
write_reg-Typed e v Reg.irq_status h t = t
write_reg-Typed e v Reg.gpu_vertex0 h t = ground arith
write_reg-Typed e v Reg.gpu_vertex1 h t = ground arith
write_reg-Typed e v Reg.gpu_vertex2 h t = ground arith
write_reg-Typed e v Reg.gpu_clear_value h t = ground arith
write_reg-Typed e v Reg.gpu_frame_count h t = t
write_reg-Typed e v Reg.gpu_raster_pixels h t = t
write_reg-Typed e v Reg.gpu_last_area2 h t = t
write_reg-Typed e v Reg.gpu_last_bbox h t = t
write_reg-Typed e v Reg.gpu_fb_rowsel h t = ground arith
write_reg-Typed e v Reg.gpu_fb_rowdata h t = t
write_reg-Typed e v Reg.npu_weight0_a h t = ground arith
write_reg-Typed e v Reg.npu_weight0_b h t = ground arith
write_reg-Typed e v Reg.npu_weight1_a h t = ground arith
write_reg-Typed e v Reg.npu_weight1_b h t = ground arith
write_reg-Typed e v Reg.npu_bias0 h t = ground arith
write_reg-Typed e v Reg.npu_bias1 h t = ground arith
write_reg-Typed e v Reg.umem_ctrl h t = ground arith
write_reg-Typed e v Reg.umem_base h t = ground arith
write_reg-Typed e v Reg.umem_size h t = ground arith
write_reg-Typed e v Reg.umem_npu_input h t = ground arith
write_reg-Typed e v Reg.umem_npu_weight h t = ground arith
write_reg-Typed e v Reg.umem_npu_output h t = ground arith
write_reg-Typed e v Reg.umem_gpu_fb h t = ground arith
write_reg-Typed e v Reg.umem_gpu_fb_pitch h t = ground arith
write_reg-Typed e v Reg.umem_cmdq_base h t = set_queue-Typed e _ t (ground arith)
write_reg-Typed e v Reg.umem_cmdq_size h t = set_queue-Typed e _ t (ground arith)
write_reg-Typed e v Reg.umem_cmdq_head h t = set_queue-Typed e _ t (ground arith)
write_reg-Typed e v Reg.umem_cmdq_tail h t = set_queue-Typed e _ t (ground arith)
write_reg-Typed e v Reg.umem_cmdq_doorbell h t = write_doorbell-Typed e v h t
write_reg-Typed e v Reg.umem_cmdq_status h t = t
write_reg-Typed e v Reg.cmdq_tail_shadow h t = t
write_reg-Typed e v Reg.cmdq_status_shadow h t = t
write_reg-Typed e v Reg.cmdq_fetch_offset h t = t
write_reg-Typed e v Reg.cmdq_fetch_sequence h t = t
write_reg-Typed e v Reg.cmdq_fetch_slot h t = t
write_reg-Typed e v Reg.umem_fetch_status h t = t
write_reg-Typed e v Reg.umem_fetch_last_araddr h t = t
write_reg-Typed e v Reg.umem_fetch_last_sequence h t = t
write_reg-Typed e v Reg.umem_fetch_beat_count h t = t
write_reg-Typed e v Reg.umem_fetch_desc_word0 h t = t
write_reg-Typed e v Reg.cmdq_dispatch_status h t = t
write_reg-Typed e v Reg.cmdq_dispatch_opcode h t = t
write_reg-Typed e v Reg.cmdq_dispatch_npu_count h t = t
write_reg-Typed e v Reg.cmdq_dispatch_gpu_count h t = t
write_reg-Typed e v Reg.cmdq_dispatch_error_count h t = t
write_reg-Typed e v Reg.npu_cmd_exec_status h t = t
write_reg-Typed e v Reg.npu_cmd_exec_input_offset h t = t
write_reg-Typed e v Reg.npu_cmd_exec_output_offset h t = t

pub reg_write-Typed : (e : Emu) (at v : ℕ) → v < word → Typed e → Ensures Typed (reg_write e at v)
unfolding reg_write
reg_write-Typed e at v h t =
    elim (decode at) as (λ d. Ensures Typed (elim d [ some r ↦ write_reg e v r | none ↦ ok e ])) [
      | some r ↦ write_reg-Typed e v r h t
      | none ↦ t
    ]

read_reg-lt : (e : Emu) (r : Reg) → Typed e → read_reg e r < word
unfolding read_reg status_word irq_status
read_reg-lt e r t = ground (arith, t.gpu.rows_word e.gpu.fb_row_select)

-- The value of a read that is defined, and a uint32_t.
abbrev pub IsRead : ℕ → ℕ → Type 0
IsRead v r = (r ≡ v) × (r < word)

emu_read-IsRead : (e : Emu) (r : Reg) → Typed e → Returns (IsRead (read_reg e r)) (emu_read e r)
unfolding emu_read read_reg
emu_read-IsRead e r t = ground (arith, read_reg-lt e r t)

pub emu_reg_read-IsRead :
    (e : Emu) (at : ℕ) → Typed e → Returns (IsRead (reg_read e at)) (emu_reg_read e at)
unfolding emu_reg_read reg_read
emu_reg_read-IsRead e at t =
    elim (decode at)
      as (λ d.
        Returns (IsRead (elim d [ some r ↦ read_reg e r | none ↦ 0 ]))
          (elim d [ some r ↦ emu_read e r | none ↦ ok 0 ])) [
            | some r ↦ emu_read-IsRead e r t
            | none ↦ (refl, omega arith)
          ]
