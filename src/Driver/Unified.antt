-- ===== src/Driver/Unified.antt =====
-- The unified-memory demo of linux/uio/accel_mmio_demo.c: `configure_unified_memory`,
-- `write_umem_runtime_model`, `write_umem_npu_input` and `run_unified_memory_demo`.
use Prim.Native.String.{String}
use risc_v_computer_zybo.Base.{
  ℕ, zero, suc, ◌+◌, ◌*◌, ◌^◌, Bool, true, false, Option, none, some, List, [], ◌∷◌, ◌++◌, codes,
  Outcome, ok, ◌>>=◌, if◌then◌else◌,
}
use risc_v_computer_zybo.Word.{add32, signed32}
use risc_v_computer_zybo.Registers.{Reg, offset}
use risc_v_computer_zybo.Emulator.{
  Emu, umem_bytes, npu_model_runtime, gpu_cmd_clear, gpu_cmd_draw_tri,
}
use risc_v_computer_zybo.Emulator.Umem.{read32, write32}
use risc_v_computer_zybo.Emulator.Gpu.{pack_xy}
use risc_v_computer_zybo.Driver.{
  FilePath, Line, Platform, Session, backend_write, print, print_reg, in_order, write_all,
}
use risc_v_computer_zybo.Driver.Wait.{npu_busy, npu_done, gpu_busy, gpu_done, wait_until_done}
use risc_v_computer_zybo.Driver.Frame.{Rows, read_umem_framebuffer_rows, write_framebuffer_pbm}

-- `write_umem32` of several words at an offset, one after another.
unfoldable pub write_words : List (ℕ × ℕ) → ℕ → Emu → Outcome Emu
write_words [] at e = ok e
write_words ((o, v) ∷ ws) at e = do e' ← write32 e (add32 at o) v; write_words ws at e'

abbrev pub write_umem_runtime_model : ℕ → Emu → Outcome Emu
write_umem_runtime_model = write_words (
    (0, 0x00020002) ∷ (4, 0x00020002) ∷ (8, 0x02000200) ∷ (12, 0x02000200) ∷ (16, 0) ∷ (20, 0) ∷ [])

abbrev pub write_umem_npu_input : ℕ → ℕ → ℕ → Emu → Outcome Emu
write_umem_npu_input at input0 input1 = write_words ((0, input0) ∷ (4, input1) ∷ []) at

-- The first `n` bytes of a text.
unfoldable pub take : ℕ → List ℕ → List ℕ
take zero s = []
take (suc n) [] = []
take (suc n) (c ∷ s) = c ∷ take n s

-- `snprintf(path, 1024, "%s<suffix>", pbm_path)`
abbrev pub with_suffix : FilePath → String → FilePath
with_suffix path suffix = take 1023 (path ++ codes suffix)

-- The values that `configure_unified_memory` writes, in order.
abbrev pub umem_configuration : List (Reg × ℕ)
umem_configuration =
    (Reg.umem_base, 0x10000000)
    ∷ (Reg.umem_size, umem_bytes)
    ∷ (Reg.umem_npu_input, 0x0000)
    ∷ (Reg.umem_npu_weight, 0x0100)
    ∷ (Reg.umem_npu_output, 0x0200)
    ∷ (Reg.umem_gpu_fb, 0x1000)
    ∷ (Reg.umem_gpu_fb_pitch, 4)
    ∷ (Reg.umem_cmdq_base, 0x2000)
    ∷ (Reg.umem_cmdq_size, 0x0100)
    ∷ (Reg.umem_cmdq_head, 0)
    ∷ (Reg.umem_cmdq_tail, 0)
    ∷ (Reg.umem_cmdq_doorbell, 0)
    ∷ (Reg.umem_ctrl, 1 + 2 + 4)
    ∷ []

-- The triangle of the demos.
abbrev pub triangle_writes : List (Reg × ℕ)
triangle_writes =
    (Reg.gpu_vertex0, pack_xy 2 2)
    ∷ (Reg.gpu_vertex1, pack_xy 10 2)
    ∷ (Reg.gpu_vertex2, pack_xy 2 10)
    ∷ (Reg.gpu_cmd, gpu_cmd_draw_tri)
    ∷ []

abbrev pub signed_line : String → ℕ → Line
signed_line label v = Line.signed label (signed32 v)

module _ {D : Type 0} where
  -- `printf(format, emu_umem_read32(...))`, for `%08x`, `%u` and a cast to int32_t.
  unfoldable pub print_word : (ℕ → Line) → ℕ → Session D → Outcome (Session D)
  print_word line at s = do v ← read32 s.emu at; ok (print (line v) s)

  unfoldable pub print_words : List ((ℕ → Line) × ℕ) → ℕ → Session D → Outcome (Session D)
  print_words [] at s = ok s
  print_words ((line, o) ∷ ws) at s = do s' ← print_word line (add32 at o) s; print_words ws at s'

  -- `emu_umem_write32` on the emulator of the backend.
  abbrev pub on_emulator : (Emu → Outcome Emu) → Session D → Outcome (Session D)
  on_emulator f s = do e ← f s.emu; ok (record s { emu = e })

  -- `if (use_irq) printf("... irq_count = 1\n");`
  abbrev pub print_irq : Bool → String → Session D → Session D
  print_irq use_irq label s = if use_irq then print (Line.irq_count label 1) s else s

module _ {D : Type 0} (p : Platform D) where
  unfoldable pub configure_unified_memory : Session D → Outcome (Session D)
  configure_unified_memory = write_all p umem_configuration

  -- `if (pbm_path != NULL)`: the picture, and a line with its path.
  unfoldable pub save_picture :
      Option FilePath → String → String → Rows → Session D → Outcome (Session D)
  save_picture none suffix label rows s = ok s
  save_picture (some path) suffix label rows s = do
    s' ← write_framebuffer_pbm p (with_suffix path suffix) rows s
    ok (print (Line.string label (with_suffix path suffix)) s')

  unfoldable pub umem_inference : Bool → Session D → Outcome (Session D)
  umem_inference use_irq s0 = do
    s1 ← on_emulator (write_umem_npu_input s0.emu.umem.npu_input_offset 0x00020001 0x00040003) s0
    s2 ← on_emulator (write_umem_runtime_model s1.emu.umem.npu_weight_offset) s1
    s3 ←
        write_all p ((Reg.npu_cfg0, 8 * 2 ^ 16 + npu_model_runtime) ∷ (Reg.control, 1) ∷ [])
          (print_irq use_irq "umem_npu" s2)
    s4 ← wait_until_done p false npu_busy npu_done "umem_npu" s3
    s5 ←
        print_words
          ((Line.hex "umem_status_word", 0)
            ∷ (signed_line "umem_logit0", 4)
            ∷ (signed_line "umem_logit1", 8)
            ∷ (Line.unsigned "umem_class", 12)
            ∷ (signed_line "umem_hidden0", 16)
            ∷ (signed_line "umem_hidden1", 20)
            ∷ [])
          s4.emu.umem.npu_output_offset s4
    backend_write p (offset Reg.status) 1 s5

  unfoldable pub umem_clear : Bool → Session D → Outcome (Session D)
  umem_clear use_irq s0 = do
    s1 ← write_all p ((Reg.gpu_clear_value, 0) ∷ (Reg.gpu_cmd, gpu_cmd_clear) ∷ []) s0
    s2 ← backend_write p (offset Reg.control) 2 (print_irq use_irq "umem_gpu_clear" s1)
    s3 ← wait_until_done p false gpu_busy gpu_done "umem_gpu_clear" s2
    backend_write p (offset Reg.status) 2 s3

  unfoldable pub umem_draw : Bool → Option FilePath → Rows → Session D → Outcome (Session D)
  umem_draw use_irq pbm_path rows s0 = do
    s1 ← write_all p triangle_writes s0
    s2 ← backend_write p (offset Reg.control) 2 (print_irq use_irq "umem_gpu_draw" s1)
    s3 ← wait_until_done p false gpu_busy gpu_done "umem_gpu_draw" s2
    read ← read_umem_framebuffer_rows rows s3
    let s4 =
        in_order
          (print (Line.hex "umem_gpu_row02" (read 2))
            ∷ print (Line.hex "umem_gpu_row03" (read 3))
            ∷ print (Line.hex "umem_gpu_row10" (read 10))
            ∷ [])
          s3
    s5 ← save_picture pbm_path ".umem.pbm" "umem_gpu_pbm" read s4
    backend_write p (offset Reg.status) 2 s5

  -- `rows` is the local array, as the call finds it.
  unfoldable pub run_unified_memory_demo :
      Bool → Option FilePath → Rows → Session D → Outcome (Session D)
  run_unified_memory_demo use_irq pbm_path rows s0 = do
    let s1 =
        in_order
          (print_reg p Line.hex "umem_base" Reg.umem_base
            ∷ print_reg p Line.hex "umem_size" Reg.umem_size
            ∷ print_reg p Line.hex "umem_npu_in" Reg.umem_npu_input
            ∷ print_reg p Line.hex "umem_npu_weight" Reg.umem_npu_weight
            ∷ print_reg p Line.hex "umem_npu_out" Reg.umem_npu_output
            ∷ print_reg p Line.hex "umem_gpu_fb" Reg.umem_gpu_fb
            ∷ print_reg p Line.hex "umem_gpu_pitch" Reg.umem_gpu_fb_pitch
            ∷ print_reg p Line.hex "umem_ctrl" Reg.umem_ctrl
            ∷ [])
          s0
    elim s1.emulate [
      | false ↦ ok (
          print
            (Line.string "umem_note" (
              codes
                "functional unified-memory path is emulation-backed until AXI master/DMA lands"))
            s1)
      | true ↦ do
        s2 ← umem_inference use_irq s1
        s3 ← umem_clear use_irq s2
        umem_draw use_irq pbm_path rows s3
    ]
