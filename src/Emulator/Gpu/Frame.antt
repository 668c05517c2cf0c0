-- ===== src/Emulator/Gpu/Frame.antt =====
-- What a GPU command leaves alone.
use risc_v_computer_zybo.Base.{
  ℕ, zero, suc, ◌+◌, ◌≡◌, refl, arith, Ensures, >>=-Ensures, Ensures-mono,
}
use risc_v_computer_zybo.Emulator.{Emu, GpuState, fb_rows}
use risc_v_computer_zybo.Emulator.Npu.Frame.{SameButMem, write32-SameButMem}
use risc_v_computer_zybo.Emulator.Gpu.{
  cleared, drawn, copy_rows, sync_framebuffer_to_umem, run_gpu_clear, run_gpu_draw,
}

SameButMem-trans : (e f g : Emu) → SameButMem e f → SameButMem f g → SameButMem e g
SameButMem-trans e f g p q = ground arith

pub copy_rows-SameButMem :
    (rounds row : ℕ) (e : Emu) → Ensures (SameButMem e) (copy_rows rounds row e)
unfolding copy_rows
copy_rows-SameButMem zero row e = refl
copy_rows-SameButMem (suc rounds) row e =
    >>=-Ensures (SameButMem e) (SameButMem e) _ _ (write32-SameButMem _ _ e) λ e' s.
      Ensures-mono (SameButMem e') (SameButMem e) _ (λ f. SameButMem-trans e e' f s)
        (copy_rows-SameButMem rounds (row + 1) e')

pub sync-SameButMem : (e : Emu) → Ensures (SameButMem e) (sync_framebuffer_to_umem e)
unfolding sync_framebuffer_to_umem
sync-SameButMem e = ground (arith, copy_rows-SameButMem fb_rows 0 e)

-- The registers of a command, which no command changes.
pub record SameCommand (g g' : GpuState) : Type 0 where
  pub cmd_opcode : g'.cmd_opcode ≡ g.cmd_opcode
  pub vertex0 : g'.vertex0 ≡ g.vertex0
  pub vertex1 : g'.vertex1 ≡ g.vertex1
  pub vertex2 : g'.vertex2 ≡ g.vertex2
  pub clear_value : g'.clear_value ≡ g.clear_value
  pub fb_row_select : g'.fb_row_select ≡ g.fb_row_select

pub record SameButGpu (e e' : Emu) : Type 0 where
  pub control_shadow : e'.control_shadow ≡ e.control_shadow
  pub irq_enable : e'.irq_enable ≡ e.irq_enable
  pub umem : e'.umem ≡ e.umem
  pub cmdq : e'.cmdq ≡ e.cmdq
  pub npu : e'.npu ≡ e.npu
  pub command : SameCommand e.gpu e'.gpu

-- `emu_run_gpu_clear` and `emu_run_gpu_draw` change results of their unit and the memory alone.
pub run_gpu_clear-SameButGpu : (e : Emu) → Ensures (SameButGpu e) (run_gpu_clear e)
unfolding run_gpu_clear
run_gpu_clear-SameButGpu e =
    >>=-Ensures (SameButMem (cleared e)) (SameButGpu e) _ _ (sync-SameButMem (cleared e))
      λ synced s. ground arith

pub run_gpu_draw-SameButGpu : (e : Emu) → Ensures (SameButGpu e) (run_gpu_draw e)
unfolding run_gpu_draw
run_gpu_draw-SameButGpu e =
    >>=-Ensures (SameButMem (drawn e)) (SameButGpu e) _ _ (sync-SameButMem (drawn e))
      λ synced s. ground arith
