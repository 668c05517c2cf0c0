-- ===== src/Driver/Program/Emulated.antt =====
-- `main` of linux/uio/accel_mmio_demo.c with --emulate, on any command line.
use mathlib.Core.Path.{subst}
use risc_v_computer_zybo.Base.{
  ◌≡◌, refl, sym, ap, fun_ext, true, false, Bool, Option, none, some, List, Outcome, Returns,
}
use risc_v_computer_zybo.Base.Int.{◌+ℤ◌, ◌-ℤ◌, ◌*ℤ◌}
use risc_v_computer_zybo.Memory.{load32, store32, clear, load_desc}
use risc_v_computer_zybo.Registers.{offset, find_case, decode}
use risc_v_computer_zybo.Emulator.{Emu}
use risc_v_computer_zybo.Emulator.Umem.{limit_bytes, word_ptr, read32, write32}
use risc_v_computer_zybo.Emulator.Npu.{
  unpack_i8, dot4_loop, dot4_i8, select_weights, load_weights, load_inputs, linear, activate,
  classify, compute, store_outputs, run_npu,
}
use risc_v_computer_zybo.Emulator.Gpu.{
  edge_fn, pack_xy, unpack_xy, copy_rows, sync_framebuffer_to_umem, fill_rows, run_gpu_clear,
  is_inside, plot, draw_row, draw_rows, rasterise, run_gpu_draw,
}
use risc_v_computer_zybo.Emulator.Cmdq.{
  entry_count, desc_ptr, refresh_status, pack_npu_exec_status, execute_npu_infer, execute_gpu_clear,
  execute_gpu_draw_tri, dispatch, execute_desc, process_one, process_loop, finish_processing,
  process,
}
use risc_v_computer_zybo.Emulator.Regs.{
  status_word, irq_status, read_reg, reg_read, write_control, write_status, write_doorbell,
  write_reg, reg_write,
}
use risc_v_computer_zybo.Driver.{
  FilePath, Platform, Session, backend_read, backend_write, in_order, write_all,
}
use risc_v_computer_zybo.Driver.Wait.{poll_loop, wait_until_done}
use risc_v_computer_zybo.Driver.Frame.{
  Rows, write_framebuffer_pbm, umem_rows, read_umem_framebuffer_rows_at, read_rows, dump_rows,
  dump_row,
}
use risc_v_computer_zybo.Driver.Sample.{
  write_runtime_model, print_sample, run_npu_sample, run_runtime_npu_demo,
}
use risc_v_computer_zybo.Driver.Unified.{
  write_words, print_word, print_words, configure_unified_memory, save_picture, umem_inference,
  umem_clear, umem_draw, run_unified_memory_demo,
}
use risc_v_computer_zybo.Driver.Queued.{
  assign, fill_queue, print_flags, submit_queue, report_queue, run_unified_command_queue_demo,
}
use risc_v_computer_zybo.Driver.Program.{save_frame, run_gpu_demo, run_demos, session_for, main}
use risc_v_computer_zybo.Driver.Program.Args.{default_settings, parse_args, Settings}

-- What the run leaves: the three triangles and the three commands were processed, none failed, the
-- last triangle has its pixels, and the completion of the inference of the queue alone is pending.
pub record Demonstrated (s : Emu) : Type 0 where
  pub triangles : s.gpu.triangles ≡ 3
  pub pixels : s.gpu.raster_pixels ≡ 45
  pub processed : s.cmdq.processed ≡ 3
  pub emptied : s.cmdq.tail ≡ s.cmdq.head
  pub errors : s.cmdq.dispatch_error_count ≡ 0
  pub npu_pending : s.npu.done_sticky ≡ true
  pub gpu_cleared : s.gpu.done_sticky ≡ false

abbrev pub Completes : {D : Type 0} → Option (Outcome (Session D)) → Type 0
Completes none = ⊥
Completes (some m) = Returns (λ s. Demonstrated s.emu) m

-- A platform on which every file can be written.
abbrev writable : {D : Type 0} → Platform D → Platform D
writable p = record p { can_write = λ _. true }

module _ {D : Type 0} where
  run_demos-Completes :
      (p : Platform D) (irq : Bool) (pbm : Option FilePath) (uio : FilePath) (idle : D)
      (r1 r2 r3 : Rows)
      → Completes (
          some (
            run_demos
              (writable p)
              (record { uio_path = uio; pbm_path = pbm; use_irq = irq; emulate = true })
              r1
              r2
              r3
              (session_for true idle)))
  unfolding run_demos write_framebuffer_pbm run_gpu_demo save_frame run_unified_command_queue_demo
      report_queue submit_queue print_flags fill_queue assign run_unified_memory_demo umem_draw
      umem_clear umem_inference save_picture configure_unified_memory print_words print_word
      write_words run_runtime_npu_demo run_npu_sample print_sample write_runtime_model dump_row
      dump_rows read_rows read_umem_framebuffer_rows_at umem_rows wait_until_done poll_loop
      write_all in_order backend_write backend_read pack_xy reg_read read_reg status_word irq_status
      reg_write decode find_case offset write_reg write_control write_status write_doorbell process
      process_loop process_one entry_count desc_ptr refresh_status pack_npu_exec_status
      finish_processing execute_desc dispatch execute_npu_infer execute_gpu_clear
      execute_gpu_draw_tri run_npu load_inputs load_weights compute select_weights linear dot4_i8
      dot4_loop unpack_i8 activate classify store_outputs read32 write32 word_ptr limit_bytes
      run_gpu_clear fill_rows sync_framebuffer_to_umem copy_rows run_gpu_draw unpack_xy edge_fn
      is_inside plot draw_row draw_rows rasterise load_desc load32 store32 clear ◌+ℤ◌ ◌-ℤ◌ ◌*ℤ◌
  run_demos-Completes p true none uio idle r1 r2 r3 = record {
    triangles = refl;
    pixels = refl;
    processed = refl;
    emptied = refl;
    errors = refl;
    npu_pending = refl;
    gpu_cleared = refl;
  }
  run_demos-Completes p true (some path) uio idle r1 r2 r3 = record {
    triangles = refl;
    pixels = refl;
    processed = refl;
    emptied = refl;
    errors = refl;
    npu_pending = refl;
    gpu_cleared = refl;
  }
  run_demos-Completes p false none uio idle r1 r2 r3 = record {
    triangles = refl;
    pixels = refl;
    processed = refl;
    emptied = refl;
    errors = refl;
    npu_pending = refl;
    gpu_cleared = refl;
  }
  run_demos-Completes p false (some path) uio idle r1 r2 r3 = record {
    triangles = refl;
    pixels = refl;
    processed = refl;
    emptied = refl;
    errors = refl;
    npu_pending = refl;
    gpu_cleared = refl;
  }

  -- With --emulate the program runs all its demos to the end and returns 0, whatever else is on the
  -- command line and whatever the platform is on which files can be written: no wait runs out, no
  -- access leaves the memory, and the commands of the queue are processed without an error.
  pub main-Completes :
      (p : Platform D) (argv : List FilePath) (o : Settings) (idle : D) (r1 r2 r3 : Rows)
      → parse_args argv default_settings ≡ some o
      → o.emulate ≡ true
      → ((path : FilePath) → p.can_write path ≡ true)
      → Completes (main p argv idle r1 r2 r3)
  unfolding main
  main-Completes p argv o idle r1 r2 r3 parsed emulated disk =
      rw (parsed, emulated, main)
        (subst (λ q. Completes (some (run_demos q o r1 r2 r3 (session_for true idle)))) (sym same)
          (subst
            (λ b. Completes (
              some (
                run_demos (writable p) (record o { emulate = b }) r1 r2 r3
                  (session_for true idle))))
            (sym emulated) (run_demos-Completes p o.use_irq o.pbm_path o.uio_path idle r1 r2 r3)))
    where
      same : p ≡ writable p
      same = ap (λ f. record p { can_write = f }) (fun_ext disk)
