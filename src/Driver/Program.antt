-- ===== src/Driver/Program.antt =====
-- The triangle demo and `main` of linux/uio/accel_mmio_demo.c. An argument is a list of bytes; what
-- `main` answers is its exit code, with the process as it ends, or `none` if it exits on the way.
pub mod Args
pub mod Emulated
use risc_v_computer_zybo.Base.{
  ℕ, ◌+◌, Bool, true, false, not, ◌&&◌, Option, none, some, List, [], ◌∷◌, ◌==◌, codes, Outcome, ok,
  ◌>>=◌, if◌then◌else◌,
}
use risc_v_computer_zybo.Registers.{Reg, offset}
use risc_v_computer_zybo.Emulator.{Emu, zeroed, init, npu_model_builtin_1, gpu_cmd_clear}
use risc_v_computer_zybo.Driver.{
  FilePath, Line, Platform, Session, backend_write, print, print_reg, print_signed, in_order,
  write_all,
}
use risc_v_computer_zybo.Driver.Wait.{gpu_busy, gpu_done, arm_irq, wait_until_done}
use risc_v_computer_zybo.Driver.Frame.{
  Rows, read_framebuffer_rows, dump_framebuffer_rows, write_framebuffer_pbm,
}
use risc_v_computer_zybo.Driver.Sample.{run_npu_sample, run_runtime_npu_demo}
use risc_v_computer_zybo.Driver.Unified.{
  triangle_writes, configure_unified_memory, run_unified_memory_demo,
}
use risc_v_computer_zybo.Driver.Queued.{run_unified_command_queue_demo}
use risc_v_computer_zybo.Driver.Program.Args.{Settings, parse_args, default_settings}

-- The backend: the emulator at `emu_init`, or the device that is opened and mapped. The state
-- of an emulator that is not used is what `memset` makes it.
abbrev pub session_for : {D : Type 0} → Bool → D → Session D
session_for emulate device = record {
  emulate = emulate;
  device = device;
  emu = if emulate then init else zeroed;
  out = [];
  files = [];
}

module _ {D : Type 0} (p : Platform D) where
  -- `if (pbm_path != NULL)`: the picture and its line.
  unfoldable pub save_frame : Option FilePath → Rows → Session D → Outcome (Session D)
  save_frame none rows s = ok s
  save_frame (some path) rows s = do
    s' ← write_framebuffer_pbm p path rows s
    ok (print (Line.string "gpu_pbm" path) s')

  -- `rows` is the local array, as the call finds it.
  unfoldable pub run_gpu_demo : Bool → Option FilePath → Rows → Session D → Outcome (Session D)
  run_gpu_demo use_irq pbm_path rows s0 = do
    s1 ← write_all p ((Reg.gpu_clear_value, 0) ∷ (Reg.gpu_cmd, gpu_cmd_clear) ∷ []) s0
    s2 ← arm_irq p use_irq s1
    s3 ← backend_write p (offset Reg.control) 2 s2
    s4 ← wait_until_done p use_irq gpu_busy gpu_done "gpu_clear" s3
    let s5 =
        in_order
          (print_reg p Line.unsigned "gpu_frame_count" Reg.gpu_frame_count
            ∷ print_reg p Line.hex "irq_status" Reg.irq_status
            ∷ [])
          s4
    s6 ← write_all p ((Reg.status, 2) ∷ triangle_writes) s5
    s7 ← arm_irq p use_irq s6
    s8 ← backend_write p (offset Reg.control) 2 s7
    s9 ← wait_until_done p use_irq gpu_busy gpu_done "gpu_draw" s8
    let s10 =
        in_order
          (print_reg p Line.unsigned "gpu_triangles" Reg.gpu_triangles
            ∷ print_reg p Line.unsigned "gpu_frame_count" Reg.gpu_frame_count
            ∷ print_reg p Line.unsigned "gpu_pixels" Reg.gpu_raster_pixels
            ∷ print_signed p "gpu_area2" Reg.gpu_last_area2
            ∷ print_reg p Line.hex "gpu_bbox" Reg.gpu_last_bbox
            ∷ print_reg p Line.hex "irq_status" Reg.irq_status
            ∷ [])
          s9
    (fb_rows, s11) ← read_framebuffer_rows p rows s10
    s12 ← save_frame pbm_path fb_rows (dump_framebuffer_rows fb_rows s11)
    backend_write p (offset Reg.status) 2 s12

  -- `main` from its first line of output on. Each demo finds some rows in its array.
  unfoldable pub run_demos : Settings → Rows → Rows → Rows → Session D → Outcome (Session D)
  run_demos o rows1 rows2 rows3 s0 = do
    let s1 =
        in_order
          (print (Line.string "backend" (codes (if o.emulate then "emulated-mmio" else "uio-mmio")))
            ∷ print_reg p Line.hex "id_version" Reg.id_version
            ∷ print_reg p Line.hex "legacy_boot" Reg.legacy_boot
            ∷ print_reg p Line.hex "legacy_gpio" Reg.legacy_gpio
            ∷ print
                (Line.string "irq_mode" (codes (if o.use_irq then "uio-interrupt" else "polling")))
            ∷ [])
          s0
    s2 ← backend_write p (offset Reg.irq_enable) (if o.use_irq then 1 + 2 else 0) s1
    let s3 =
        in_order
          (print_reg p Line.hex "irq_enable" Reg.irq_enable
            ∷ print (Line.heading "\n== NPU sample A ==\n")
            ∷ [])
          s2
    s4 ← run_npu_sample p o.use_irq "npu_sample_a" npu_model_builtin_1 0x04030201 0x00000000 s3
    let s5 = print (Line.heading "\n== NPU sample B ==\n") s4
    s6 ← run_npu_sample p o.use_irq "npu_sample_b" npu_model_builtin_1 0x00000000 0x04030201 s5
    s7 ←
        run_runtime_npu_demo p o.use_irq
          (print (Line.heading "\n== NPU runtime model demo ==\n") s6)
    s8 ← configure_unified_memory p (print (Line.heading "\n== Unified memory demo ==\n") s7)
    s9 ← run_unified_memory_demo p o.use_irq o.pbm_path rows1 s8
    s10 ←
        run_unified_command_queue_demo p o.pbm_path rows2
          (print (Line.heading "\n== Unified command queue demo ==\n") s9)
    run_gpu_demo o.use_irq o.pbm_path rows3 (print (Line.heading "\n== GPU triangle demo ==\n") s10)

  -- `main`: `none` is the exit code 1 of a bad argument or a device that cannot be opened. `idle` is
  -- the state of a device that the program does not open.
  unfoldable pub main : List FilePath → D → Rows → Rows → Rows → Option (Outcome (Session D))
  main argv idle rows1 rows2 rows3 = elim (parse_args argv default_settings) [
    | none ↦ none
    | some o ↦ elim o.emulate [
      | true ↦ some (run_demos o rows1 rows2 rows3 (session_for true idle))
      | false ↦ elim (p.open_device o.uio_path) [
        | some d ↦ some (run_demos o rows1 rows2 rows3 (session_for false d))
        | none ↦ none
      ]
    ]
  ]
