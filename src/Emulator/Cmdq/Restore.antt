-- ===== src/Emulator/Cmdq/Restore.antt =====
-- The settings that `emu_cmdq_execute_desc` borrows, and its error count.
use risc_v_computer_zybo.Base.{ℕ, ◌≡◌, arith, Bool, Ensures, >>=-Ensures, if◌then◌else◌, ltb}
use risc_v_computer_zybo.Word.{add32}
use risc_v_computer_zybo.Memory.{Desc, load_desc}
use risc_v_computer_zybo.Emulator.{Emu}
use risc_v_computer_zybo.Emulator.Npu.Frame.{SameUnits, SameModel, run_npu-SameUnits}
use risc_v_computer_zybo.Emulator.Gpu.Frame.{
  SameButGpu, SameCommand, run_gpu_clear-SameButGpu, run_gpu_draw-SameButGpu,
}
use risc_v_computer_zybo.Emulator.Cmdq.{
  dispatch, execute_npu_infer, execute_gpu_clear, execute_gpu_draw_tri, execute_desc, npu_prepared,
  clear_prepared, draw_prepared, dispatching,
}

-- What a command does to the ring and to the unified-memory registers that it does not borrow.
pub record SameQueue (e e' : Emu) : Type 0 where
  pub control_shadow : e'.control_shadow ≡ e.control_shadow
  pub irq_enable : e'.irq_enable ≡ e.irq_enable
  pub base_addr : e'.umem.base_addr ≡ e.umem.base_addr
  pub umem_size : e'.umem.size_bytes ≡ e.umem.size_bytes
  pub gpu_fb_pitch : e'.umem.gpu_fb_pitch ≡ e.umem.gpu_fb_pitch
  pub fb_row_select : e'.gpu.fb_row_select ≡ e.gpu.fb_row_select
  pub base_offset : e'.cmdq.base_offset ≡ e.cmdq.base_offset
  pub size_bytes : e'.cmdq.size_bytes ≡ e.cmdq.size_bytes
  pub head : e'.cmdq.head ≡ e.cmdq.head
  pub tail : e'.cmdq.tail ≡ e.cmdq.tail
  pub doorbell : e'.cmdq.doorbell ≡ e.cmdq.doorbell
  pub processed : e'.cmdq.processed ≡ e.cmdq.processed

execute_npu_infer-SameQueue : (d : Desc) (e : Emu) → Ensures (SameQueue e) (execute_npu_infer d e)
unfolding execute_npu_infer
execute_npu_infer-SameQueue d e =
    >>=-Ensures (SameUnits (npu_prepared d e)) (SameQueue e) _ _
      (run_npu-SameUnits (npu_prepared d e)) λ ran s. ground arith

execute_gpu_clear-SameQueue : (d : Desc) (e : Emu) → Ensures (SameQueue e) (execute_gpu_clear d e)
unfolding execute_gpu_clear
execute_gpu_clear-SameQueue d e =
    >>=-Ensures (SameButGpu (clear_prepared d e)) (SameQueue e) _ _
      (run_gpu_clear-SameButGpu (clear_prepared d e)) λ ran s. ground arith

execute_gpu_draw_tri-SameQueue :
    (d : Desc) (e : Emu) → Ensures (SameQueue e) (execute_gpu_draw_tri d e)
unfolding execute_gpu_draw_tri
execute_gpu_draw_tri-SameQueue d e =
    >>=-Ensures (SameButGpu (draw_prepared d e)) (SameQueue e) _ _
      (run_gpu_draw-SameButGpu (draw_prepared d e)) λ ran s. ground arith

dispatch-SameQueue : (d : Desc) (e : Emu) → Ensures (λ r. SameQueue e r.0) (dispatch d e)
unfolding dispatch
dispatch-SameQueue d e = ground (
  arith,
  execute_npu_infer-SameQueue d e,
  execute_gpu_clear-SameQueue d e,
  execute_gpu_draw_tri-SameQueue d e,
)

-- The settings that a command may change while it runs.
pub record SameSettings (e e' : Emu) : Type 0 where
  pub umem : e'.umem ≡ e.umem
  pub model : SameModel e.npu e'.npu
  pub command : SameCommand e.gpu e'.gpu

-- `emu_cmdq_execute_desc`, whatever the descriptor: if it returns, all unified-memory registers, the
-- NPU model and length, the GPU command registers, and the base, size, head, tail, doorbell and
-- processed count of the queue are what they were.
pub execute_desc-SameSettings :
    (e : Emu) (p : ℕ) → Ensures (λ r. SameSettings e r.0 × SameQueue e r.0) (execute_desc e p)
unfolding execute_desc
execute_desc-SameSettings e p =
    >>=-Ensures (λ r. SameQueue (dispatching (load_desc e.unified_mem p) e) r.0)
      (λ r. SameSettings e r.0 × SameQueue e r.0) _ _
      (dispatch-SameQueue (load_desc e.unified_mem p) (dispatching (load_desc e.unified_mem p) e))
      λ r s. ground arith

-- A command fails exactly when its opcode is none of the four, and each failure is counted.
pub record Counted (d : Desc) (e : Emu) (r : Emu × Bool) : Type 0 where
  pub good : r.1 ≡ ltb d.opcode 4
  pub errors :
      r.0.cmdq.dispatch_error_count
      ≡ (if r.1 then e.cmdq.dispatch_error_count else add32 e.cmdq.dispatch_error_count 1)

execute_npu_infer-errors :
    (d : Desc) (e : Emu)
    → Ensures
        (λ r. r.cmdq.dispatch_error_count ≡ e.cmdq.dispatch_error_count)
        (execute_npu_infer d e)
unfolding execute_npu_infer
execute_npu_infer-errors d e =
    >>=-Ensures (SameUnits (npu_prepared d e)) _ _ _ (run_npu-SameUnits (npu_prepared d e))
      λ ran s. ground arith

execute_gpu_clear-errors :
    (d : Desc) (e : Emu)
    → Ensures
        (λ r. r.cmdq.dispatch_error_count ≡ e.cmdq.dispatch_error_count)
        (execute_gpu_clear d e)
unfolding execute_gpu_clear
execute_gpu_clear-errors d e =
    >>=-Ensures (SameButGpu (clear_prepared d e)) _ _ _
      (run_gpu_clear-SameButGpu (clear_prepared d e)) λ ran s. ground arith

execute_gpu_draw_tri-errors :
    (d : Desc) (e : Emu)
    → Ensures
        (λ r. r.cmdq.dispatch_error_count ≡ e.cmdq.dispatch_error_count)
        (execute_gpu_draw_tri d e)
unfolding execute_gpu_draw_tri
execute_gpu_draw_tri-errors d e =
    >>=-Ensures (SameButGpu (draw_prepared d e)) _ _ _ (run_gpu_draw-SameButGpu (draw_prepared d e))
      λ ran s. ground arith

dispatch-Counted : (d : Desc) (e : Emu) → Ensures (Counted d e) (dispatch d e)
unfolding dispatch
dispatch-Counted d e = ground (
  arith,
  execute_npu_infer-errors d e,
  execute_gpu_clear-errors d e,
  execute_gpu_draw_tri-errors d e,
)

-- `emu_cmdq_execute_desc`: if it returns, its result is whether the opcode is one of the four that
-- are known, and the dispatch error count went up by one exactly when it is not.
pub execute_desc-Counted :
    (e : Emu) (p : ℕ) → Ensures (Counted (load_desc e.unified_mem p) e) (execute_desc e p)
unfolding execute_desc
execute_desc-Counted e p =
    >>=-Ensures (Counted (load_desc e.unified_mem p) (dispatching (load_desc e.unified_mem p) e)) _
      _ _ (dispatch-Counted (load_desc e.unified_mem p) (dispatching (load_desc e.unified_mem p) e))
      λ r s. ground arith
