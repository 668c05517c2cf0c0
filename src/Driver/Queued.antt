-- ===== src/Driver/Queued.antt =====
-- The command-queue demo of linux/uio/accel_mmio_demo.c, `run_unified_command_queue_demo`.
use risc_v_computer_zybo.Base.{
  ℕ, ◌+◌, ◌*◌, true, false, ◌||◌, ltb, Option, List, [], ◌∷◌, codes, Outcome, ok, undefined, ◌>>=◌,
  if◌then◌else◌,
}
use risc_v_computer_zybo.Memory.{Mem, load32, store32, clear}
use risc_v_computer_zybo.Registers.{Reg}
use risc_v_computer_zybo.Emulator.{Emu, umem_bytes, npu_model_runtime}
use risc_v_computer_zybo.Emulator.Gpu.{pack_xy}
use risc_v_computer_zybo.Driver.{
  FilePath, Line, Platform, Session, print, print_reg, in_order, write_all,
}
use risc_v_computer_zybo.Driver.Frame.{Rows, read_umem_framebuffer_rows_at}
use risc_v_computer_zybo.Driver.Unified.{
  write_umem_npu_input, write_umem_runtime_model, signed_line, print_words, on_emulator,
  save_picture,
}

-- The buffers of the demo: q_input_offset and so on.
abbrev pub q_input_offset : ℕ
q_input_offset = 0x0400

abbrev pub q_weight_offset : ℕ
q_weight_offset = 0x0420

abbrev pub q_output_offset : ℕ
q_output_offset = 0x0480

abbrev pub q_fb_offset : ℕ
q_fb_offset = 0x1200

abbrev pub q_pitch : ℕ
q_pitch = 4

-- The fields that are assigned, by their offset from `queue`: those of entry 0, 1 and 2.
abbrev pub queue_fields : List (ℕ × ℕ)
queue_fields =
    (0, 2)
    ∷ (20, q_fb_offset)
    ∷ (24, 0)
    ∷ (32 + 0, 3)
    ∷ (32 + 8, pack_xy 2 2)
    ∷ (32 + 12, pack_xy 10 2)
    ∷ (32 + 16, pack_xy 2 10)
    ∷ (32 + 20, q_fb_offset)
    ∷ (64 + 0, 1)
    ∷ (64 + 4, npu_model_runtime)
    ∷ (64 + 8, q_input_offset)
    ∷ (64 + 12, q_weight_offset)
    ∷ (64 + 20, q_output_offset)
    ∷ (64 + 24, 8)
    ∷ []

unfoldable pub assign : List (ℕ × ℕ) → ℕ → Mem → Mem
assign [] at m = m
assign ((o, v) ∷ fs) at m = assign fs at (store32 m (at + o) v)

-- `queue` points into the array, without a test: `memset` or an entry past it is undefined.
unfoldable pub fill_queue : Emu → Outcome Emu
fill_queue e =
    let at = e.cmdq.base_offset in
    if ltb umem_bytes (at + e.cmdq.size_bytes) || ltb umem_bytes (at + 96)
    then undefined
    else ok (record e {
      unified_mem = assign queue_fields at (clear e.unified_mem at e.cmdq.size_bytes);
    })

module _ {D : Type 0} (p : Platform D) where
  -- `printf("...", queue[i].flags)` of the three entries.
  unfoldable pub print_flags : ℕ → Session D → Session D
  print_flags at s =
      let flags : ℕ → ℕ = λ i. load32 s.emu.unified_mem (at + 32 * i + 4) in
      in_order
        (print (Line.hex "cmdq_desc0" (flags 0))
          ∷ print (Line.hex "cmdq_desc1" (flags 1))
          ∷ print (Line.hex "cmdq_desc2" (flags 2))
          ∷ [])
        s

  -- The registers that are printed once the doorbell was rung.
  abbrev pub queue_report : List (Session D → Session D)
  queue_report =
      print_reg p Line.hex "cmdq_head" Reg.umem_cmdq_head
      ∷ print_reg p Line.hex "cmdq_tail" Reg.umem_cmdq_tail
      ∷ print_reg p Line.hex "cmdq_status" Reg.umem_cmdq_status
      ∷ print_reg p Line.hex "cmdq_tail_dbg" Reg.cmdq_tail_shadow
      ∷ print_reg p Line.hex "cmdq_status_dbg" Reg.cmdq_status_shadow
      ∷ print_reg p Line.hex "cmdq_fetch_off" Reg.cmdq_fetch_offset
      ∷ print_reg p Line.hex "cmdq_fetch_seq" Reg.cmdq_fetch_sequence
      ∷ print_reg p Line.hex "cmdq_fetch_slot" Reg.cmdq_fetch_slot
      ∷ print_reg p Line.hex "cmdq_axi_status" Reg.umem_fetch_status
      ∷ print_reg p Line.hex "cmdq_axi_araddr" Reg.umem_fetch_last_araddr
      ∷ print_reg p Line.hex "cmdq_axi_seq" Reg.umem_fetch_last_sequence
      ∷ print_reg p Line.unsigned "cmdq_axi_beats" Reg.umem_fetch_beat_count
      ∷ print_reg p Line.hex "cmdq_axi_desc0" Reg.umem_fetch_desc_word0
      ∷ print_reg p Line.hex "cmdq_dispatch_status" Reg.cmdq_dispatch_status
      ∷ print_reg p Line.hex "cmdq_dispatch_opcode" Reg.cmdq_dispatch_opcode
      ∷ print_reg p Line.unsigned "cmdq_dispatch_npu" Reg.cmdq_dispatch_npu_count
      ∷ print_reg p Line.unsigned "cmdq_dispatch_gpu" Reg.cmdq_dispatch_gpu_count
      ∷ print_reg p Line.unsigned "cmdq_dispatch_err" Reg.cmdq_dispatch_error_count
      ∷ print_reg p Line.hex "cmdq_npu_exec_status" Reg.npu_cmd_exec_status
      ∷ print_reg p Line.hex "cmdq_npu_exec_in" Reg.npu_cmd_exec_input_offset
      ∷ print_reg p Line.hex "cmdq_npu_exec_out" Reg.npu_cmd_exec_output_offset
      ∷ []

  -- The queue is set up, filled and submitted.
  unfoldable pub submit_queue : Session D → Outcome (Session D)
  submit_queue s0 = do
    s1 ←
        write_all p
          ((Reg.umem_ctrl, 1 + 2 + 4 + 8)
            ∷ (Reg.umem_cmdq_head, 0)
            ∷ (Reg.umem_cmdq_tail, 0)
            ∷ (Reg.umem_cmdq_doorbell, 0)
            ∷ [])
          s0
    s2 ← on_emulator (write_umem_npu_input q_input_offset 0x00020001 0x00040003) s1
    s3 ← on_emulator (write_umem_runtime_model q_weight_offset) s2
    s4 ← on_emulator fill_queue s3
    write_all p ((Reg.umem_cmdq_head, 3) ∷ (Reg.umem_cmdq_doorbell, 3) ∷ []) s4

  unfoldable pub report_queue : Option FilePath → Rows → ℕ → Session D → Outcome (Session D)
  report_queue pbm_path rows queue s0 = do
    let s1 = print_flags queue (in_order queue_report s0)
    s2 ←
        print_words
          ((Line.hex "cmdq_status_word", 0)
            ∷ (signed_line "cmdq_logit0", 4)
            ∷ (signed_line "cmdq_logit1", 8)
            ∷ (Line.unsigned "cmdq_class", 12)
            ∷ (signed_line "cmdq_hidden0", 16)
            ∷ (signed_line "cmdq_hidden1", 20)
            ∷ [])
          q_output_offset s1
    read ← read_umem_framebuffer_rows_at q_fb_offset q_pitch rows s2
    let s3 =
        in_order
          (print (Line.hex "cmdq_gpu_row02" (read 2))
            ∷ print (Line.hex "cmdq_gpu_row03" (read 3))
            ∷ print (Line.hex "cmdq_gpu_row10" (read 10))
            ∷ [])
          s2
    save_picture p pbm_path ".cmdq.pbm" "cmdq_gpu_pbm" read s3

  -- `rows` is the local array, as the call finds it.
  unfoldable pub run_unified_command_queue_demo :
      Option FilePath → Rows → Session D → Outcome (Session D)
  run_unified_command_queue_demo pbm_path rows s0 = do
    let s1 =
        in_order
          (print_reg p Line.hex "cmdq_base" Reg.umem_cmdq_base
            ∷ print_reg p Line.hex "cmdq_size" Reg.umem_cmdq_size
            ∷ print_reg p Line.hex "cmdq_status" Reg.umem_cmdq_status
            ∷ [])
          s0
    elim s1.emulate [
      | false ↦ ok (
          print
            (Line.string "cmdq_note"
              (codes "unified command queue executes in emulation until AXI master/DMA is wired"))
            s1)
      | true ↦ do s2 ← submit_queue s1; report_queue pbm_path rows s1.emu.cmdq.base_offset s2
    ]
