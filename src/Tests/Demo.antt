-- ===== src/Tests/Demo.antt =====
-- The run that linux/uio/accel_mmio_demo.c makes on its emulator: three commands in one queue.
use risc_v_computer_zybo.Base.{ℕ, ◌≡◌, refl, Outcome, ok, ◌>>=◌, List, [], ◌∷◌, Returns}
use risc_v_computer_zybo.Base.Int.{pos, ◌+ℤ◌, ◌-ℤ◌, ◌*ℤ◌}
use risc_v_computer_zybo.Memory.{Mem, load32, store32, store_desc, load_desc}
use risc_v_computer_zybo.Registers.{offset, find_case, decode}
use risc_v_computer_zybo.Commands.{gpu_clear_desc, gpu_draw_tri_desc, npu_infer_desc}
use risc_v_computer_zybo.Emulator.{Emu, init}
use risc_v_computer_zybo.Emulator.Umem.{limit_bytes, word_ptr, read32, write32}
use risc_v_computer_zybo.Emulator.Npu.{
  unpack_i8, dot4_loop, dot4_i8, select_weights, load_weights, load_inputs, linear, activate,
  classify, compute, store_outputs, run_npu,
}
use risc_v_computer_zybo.Emulator.Gpu.{
  edge_fn, pack_xy, unpack_xy, vertices, area2, copy_rows, sync_framebuffer_to_umem, fill_rows,
  run_gpu_clear, is_inside, plot, draw_row, draw_rows, rasterise, run_gpu_draw,
}
use risc_v_computer_zybo.Emulator.Cmdq.{
  entry_count, desc_ptr, refresh_status, pack_npu_exec_status, execute_npu_infer, execute_gpu_clear,
  execute_gpu_draw_tri, dispatch, execute_desc, process_one, process_loop, finish_processing,
  process,
}
use risc_v_computer_zybo.Emulator.Regs.{
  status_word, irq_status, read_reg, reg_read, write_control, write_status, write_doorbell,
  write_reg, reg_write,
}

-- The command queue as the producer leaves it in the memory, with the inputs of the inference.
abbrev pub demo_memory : Mem
demo_memory =
    let m1 = store_desc (λ _. 0) 0x2000 (gpu_clear_desc 0x1200 0) in
    let m2 =
      store_desc m1 0x2020 (gpu_draw_tri_desc (pack_xy 2 2) (pack_xy 10 2) (pack_xy 2 10) 0x1200) in
    let m3 = store_desc m2 0x2040 (npu_infer_desc 0x80 8 0x400 0x420 0x480) in
    let m4 = store32 m3 0x400 0x00020001 in
    let m5 = store32 m4 0x404 0x00040003 in
    let m6 = store32 m5 0x420 0x00020002 in
    let m7 = store32 m6 0x424 0x00020002 in
    let m8 = store32 m7 0x428 0x02000200 in store32 m8 0x42c 0x02000200

-- The device with that memory, the buffers and the queue enabled, and three commands submitted.
abbrev pub demo_device : Emu
demo_device = record init {
  unified_mem = demo_memory;
  umem = record (init.umem) { ctrl = 0xf };
  cmdq = record (init.cmdq) { head = 3; doorbell = 3 };
}

-- The same through the registers: UMEM_CTRL, CMDQ_HEAD, CMDQ_DOORBELL.
abbrev demo_run : Outcome Emu
demo_run = do
  e1 ← reg_write (record init { unified_mem = demo_memory }) 0x80 0xf
  e2 ← reg_write e1 0xa8 3
  reg_write e2 0xb0 3

-- CMDQ_TAIL, CMDQ_STATUS, GPU_RASTER_PIXELS, NPU_LOGIT0, NPU_LOGIT1, the third descriptor's flags.
abbrev demo_reads : Outcome (List ℕ)
demo_reads = do
  e ← demo_run
  ok (
      reg_read e 0xac
      ∷ reg_read e 0xb4
      ∷ reg_read e 0x54
      ∷ reg_read e 0x1c
      ∷ reg_read e 0x20
      ∷ (load_desc e.unified_mem 0x2040).flags
      ∷ [])

demo_reads_test : demo_reads ≡ ok (3 ∷ 0x30004 ∷ 45 ∷ 20 ∷ 0 ∷ 0x80000080 ∷ [])
unfolding pack_xy store_desc reg_read read_reg status_word irq_status reg_write decode find_case
    offset write_reg write_control write_status write_doorbell process process_loop process_one
    entry_count desc_ptr refresh_status pack_npu_exec_status finish_processing execute_desc dispatch
    execute_npu_infer execute_gpu_clear execute_gpu_draw_tri run_npu load_inputs load_weights
    compute select_weights linear dot4_i8 dot4_loop unpack_i8 activate classify store_outputs read32
    write32 word_ptr limit_bytes run_gpu_clear fill_rows sync_framebuffer_to_umem copy_rows
    run_gpu_draw unpack_xy edge_fn is_inside plot draw_row draw_rows rasterise load_desc load32
    store32 ◌+ℤ◌ ◌-ℤ◌ ◌*ℤ◌
demo_reads_test = refl

-- The triangle of the demo has 45 pixels, its doubled area is 64, and its vertices are unpacked.
demo_triangle_test :
    let t = vertices demo_device.gpu in
    ((rasterise t (λ _. 0)).pixels ≡ 45)
    × (area2 t ≡ pos 64)
    × (unpack_xy (pack_xy 2 10) ≡ record { x = 2; y = 10 })
unfolding rasterise draw_rows draw_row plot is_inside edge_fn unpack_xy pack_xy ◌-ℤ◌ ◌*ℤ◌
demo_triangle_test = (refl, refl, refl)

-- The inference of the demo: its dot products and its logits.
demo_infer_test :
    Returns
      (λ n. (n.logit0 ≡ pos 20) × (n.logit1 ≡ pos 0) × (n.class_id ≡ 0))
      (compute (record (demo_device.npu) {
        model_id = 0x80;
        input0 = 0x00020001;
        input1 = 0x00040003;
        weight0_a = 0x00020002;
        weight0_b = 0x00020002;
        weight1_a = 0x02000200;
        weight1_b = 0x02000200;
      }))
unfolding compute select_weights linear dot4_i8 dot4_loop unpack_i8 activate classify ◌+ℤ◌ ◌*ℤ◌
demo_infer_test = (refl, refl, refl)
