-- ===== src/Tests/Driver.antt =====
-- The demo program, run on its emulator.
use risc_v_computer_zybo.Base.{
  ℕ, ◌≡◌, refl, true, Option, none, some, List, [], ◌∷◌, codes, Outcome, ok,
}
use risc_v_computer_zybo.Base.Int.{◌+ℤ◌, ◌-ℤ◌, ◌*ℤ◌}
use risc_v_computer_zybo.Memory.{load32, store32, clear, load_desc}
use risc_v_computer_zybo.Registers.{offset, find_case, decode}
use risc_v_computer_zybo.Emulator.Umem.{limit_bytes, word_ptr, read32, write32}
use risc_v_computer_zybo.Emulator.Npu.{
  unpack_i8, dot4_loop, dot4_i8, select_weights, load_weights, load_inputs, linear, activate,
  classify, compute, store_outputs, run_npu,
}
use risc_v_computer_zybo.Emulator.Gpu.{
  edge_fn, pack_xy, unpack_xy, copy_rows, sync_framebuffer_to_umem, fill_rows, run_gpu_clear,
  is_inside, plot, draw_row, draw_rows, rasterise, run_gpu_draw,
}
use risc_v_computer_zybo.Emulator.Cmdq.{
  entry_count, desc_ptr, refresh_status, pack_npu_exec_status, execute_npu_infer, execute_gpu_clear,
  execute_gpu_draw_tri, dispatch, execute_desc, process_one, process_loop, finish_processing,
  process,
}
use risc_v_computer_zybo.Emulator.Regs.{
  status_word, irq_status, read_reg, reg_read, write_control, write_status, write_doorbell,
  write_reg, reg_write,
}
use risc_v_computer_zybo.Driver.{
  Platform, Session, backend_read, backend_write, in_order, write_all,
}
use risc_v_computer_zybo.Driver.Wait.{poll_loop, wait_until_done}
use risc_v_computer_zybo.Driver.Frame.{
  Rows, umem_rows, read_umem_framebuffer_rows_at, read_rows, dump_rows, dump_row,
}
use risc_v_computer_zybo.Driver.Sample.{
  write_runtime_model, print_sample, run_npu_sample, run_runtime_npu_demo,
}
use risc_v_computer_zybo.Driver.Unified.{
  write_words, print_word, print_words, configure_unified_memory, save_picture, umem_inference,
  umem_clear, umem_draw, run_unified_memory_demo,
}
use risc_v_computer_zybo.Driver.Queued.{
  assign, fill_queue, print_flags, submit_queue, report_queue, run_unified_command_queue_demo,
}
use risc_v_computer_zybo.Driver.Program.{save_frame, run_gpu_demo, run_demos, main}
use risc_v_computer_zybo.Driver.Program.Args.{str_eq, flag_of, parse_args}

-- A platform whose device answers nothing.
abbrev pub idle_platform : Platform Unit
idle_platform = record {
  mmio_read = λ at d. (0, d);
  mmio_write = λ at v d. d;
  pause = λ d. d;
  enable_irq = λ d. none;
  await_irq = λ d. none;
  open_device = λ path. none;
  can_write = λ path. true;
}

abbrev no_rows : Rows
no_rows y = 0

-- What is left of a run: the number of triangles, the pixels, the processed commands.
abbrev ends_with : Option (Outcome (Session Unit)) → List ℕ
ends_with none = []
ends_with (some (ok s)) =
    s.emu.gpu.triangles ∷ s.emu.gpu.raster_pixels ∷ s.emu.cmdq.processed ∷ s.emu.cmdq.tail ∷ []
ends_with (some _) = []

main_test :
    ends_with (main idle_platform (codes "--emulate" ∷ []) tt no_rows no_rows no_rows)
    ≡ 3 ∷ 45 ∷ 3 ∷ 3 ∷ []
unfolding main parse_args flag_of str_eq run_demos run_gpu_demo save_frame
    run_unified_command_queue_demo report_queue submit_queue print_flags fill_queue assign
    run_unified_memory_demo umem_draw umem_clear umem_inference save_picture
    configure_unified_memory print_words print_word write_words run_runtime_npu_demo run_npu_sample
    print_sample write_runtime_model dump_row dump_rows read_rows read_umem_framebuffer_rows_at
    umem_rows wait_until_done poll_loop write_all in_order backend_write backend_read pack_xy
    reg_read read_reg status_word irq_status reg_write decode find_case offset write_reg
    write_control write_status write_doorbell process process_loop process_one entry_count desc_ptr
    refresh_status pack_npu_exec_status finish_processing execute_desc dispatch execute_npu_infer
    execute_gpu_clear execute_gpu_draw_tri run_npu load_inputs load_weights compute select_weights
    linear dot4_i8 dot4_loop unpack_i8 activate classify store_outputs read32 write32 word_ptr
    limit_bytes run_gpu_clear fill_rows sync_framebuffer_to_umem copy_rows run_gpu_draw unpack_xy
    edge_fn is_inside plot draw_row draw_rows rasterise load_desc load32 store32 clear ◌+ℤ◌ ◌-ℤ◌
    ◌*ℤ◌
main_test = refl
