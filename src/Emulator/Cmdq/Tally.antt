-- ===== src/Emulator/Cmdq/Tally.antt =====
-- Which commands an execution counts.
use risc_v_computer_zybo.Base.{
  ℕ, ◌+◌, ◌≡◌, arith, Bool, ◌||◌, Ensures, >>=-Ensures, if◌then◌else◌, ◌==◌, List, [], ◌∷◌,
}
use risc_v_computer_zybo.Word.{add32}
use risc_v_computer_zybo.Memory.{Desc, load_desc}
use risc_v_computer_zybo.Commands.{cmd_npu_infer, cmd_gpu_clear, cmd_gpu_draw_tri}
use risc_v_computer_zybo.Emulator.{Emu}
use risc_v_computer_zybo.Emulator.Npu.Frame.{SameUnits, run_npu-SameUnits}
use risc_v_computer_zybo.Emulator.Gpu.Frame.{
  SameButGpu, run_gpu_clear-SameButGpu, run_gpu_draw-SameButGpu,
}
use risc_v_computer_zybo.Emulator.Cmdq.{
  npu_prepared, clear_prepared, draw_prepared, execute_npu_infer, execute_gpu_clear,
  execute_gpu_draw_tri, dispatch, dispatching, execute_desc,
}

-- The opcodes of each unit.
abbrev pub is_npu : ℕ → Bool
is_npu o = o == cmd_npu_infer

abbrev pub is_gpu : ℕ → Bool
is_gpu o = o == cmd_gpu_clear || o == cmd_gpu_draw_tri

-- The two dispatch counters after the command `d`.
pub record Tallied (d : Desc) (e e' : Emu) : Type 0 where
  pub npu :
      e'.cmdq.dispatch_npu_count
      ≡ (if is_npu d.opcode then add32 e.cmdq.dispatch_npu_count 1 else e.cmdq.dispatch_npu_count)
  pub gpu :
      e'.cmdq.dispatch_gpu_count
      ≡ (if is_gpu d.opcode then add32 e.cmdq.dispatch_gpu_count 1 else e.cmdq.dispatch_gpu_count)

record Counts (npu gpu : ℕ) (e e' : Emu) : Type 0 where
  npu_counts :
      e'.cmdq.dispatch_npu_count
      ≡ (if npu == 0 then e.cmdq.dispatch_npu_count else add32 e.cmdq.dispatch_npu_count 1)
  gpu_counts :
      e'.cmdq.dispatch_gpu_count
      ≡ (if gpu == 0 then e.cmdq.dispatch_gpu_count else add32 e.cmdq.dispatch_gpu_count 1)

execute_npu_infer-Counts : (d : Desc) (e : Emu) → Ensures (Counts 1 0 e) (execute_npu_infer d e)
unfolding execute_npu_infer
execute_npu_infer-Counts d e =
    >>=-Ensures (SameUnits (npu_prepared d e)) _ _ _ (run_npu-SameUnits (npu_prepared d e))
      λ ran s. ground arith

execute_gpu_clear-Counts : (d : Desc) (e : Emu) → Ensures (Counts 0 1 e) (execute_gpu_clear d e)
unfolding execute_gpu_clear
execute_gpu_clear-Counts d e =
    >>=-Ensures (SameButGpu (clear_prepared d e)) _ _ _
      (run_gpu_clear-SameButGpu (clear_prepared d e)) λ ran s. ground arith

execute_gpu_draw_tri-Counts :
    (d : Desc) (e : Emu) → Ensures (Counts 0 1 e) (execute_gpu_draw_tri d e)
unfolding execute_gpu_draw_tri
execute_gpu_draw_tri-Counts d e =
    >>=-Ensures (SameButGpu (draw_prepared d e)) _ _ _ (run_gpu_draw-SameButGpu (draw_prepared d e))
      λ ran s. ground arith

dispatch-Tallied : (d : Desc) (e : Emu) → Ensures (λ r. Tallied d e r.0) (dispatch d e)
unfolding dispatch
dispatch-Tallied d e = ground (
  arith,
  execute_npu_infer-Counts d e,
  execute_gpu_clear-Counts d e,
  execute_gpu_draw_tri-Counts d e,
)

pub execute_desc-Tallied :
    (e : Emu) (p : ℕ) → Ensures (λ r. Tallied (load_desc e.unified_mem p) e r.0) (execute_desc e p)
unfolding execute_desc
execute_desc-Tallied e p =
    >>=-Ensures
      (λ r. Tallied (load_desc e.unified_mem p) (dispatching (load_desc e.unified_mem p) e) r.0) _ _
      _ (dispatch-Tallied (load_desc e.unified_mem p) (dispatching (load_desc e.unified_mem p) e))
      λ r s. ground arith

-- How many descriptors of a list have an opcode that passes a test.
unfoldable pub count_opcodes : (ℕ → Bool) → List Desc → ℕ
count_opcodes test [] = 0
count_opcodes test (d ∷ ds) = (if test d.opcode then 1 else 0) + count_opcodes test ds
