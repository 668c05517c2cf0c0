-- ===== src/Tests/Hardware.antt =====
-- The hardware of the accelerator at reset, against the emulator at its start.
use risc_v_computer_zybo.Base.{ℕ, ◌≡◌, ◌≢◌, ◌⊎◌, false, refl, arith, true, Ensures}
use risc_v_computer_zybo.Emulator.{Emu, init, npu_model_builtin_1}
use risc_v_computer_zybo.Emulator.Npu.{run_npu}
use risc_v_computer_zybo.Emulator.Gpu.{unpack_xy, vertices, run_gpu_clear, run_gpu_draw}
use risc_v_computer_zybo.Rtl.Gpu as Gpu
use risc_v_computer_zybo.Rtl.Gpu.Command.{Commands, draw_cycles}
use risc_v_computer_zybo.Rtl.Gpu.Emulated.{Shows, Done, draw-Done, clear-Done, draw_bbox_differs}
use risc_v_computer_zybo.Rtl.Queue as Queue
use risc_v_computer_zybo.Rtl.Queue.Doorbell.{IsIdle, one_command_per_doorbell}
use risc_v_computer_zybo.Rtl.Queue.Round as Round
use risc_v_computer_zybo.Rtl.Queue.Round.{Offers, doorbell-Retired}
use risc_v_computer_zybo.Emulator.Cmdq.{entry_count, retire}
use risc_v_computer_zybo.Rtl.Npu as Npu
use risc_v_computer_zybo.Rtl.Npu.Cycles.{Starts}
use risc_v_computer_zybo.Rtl.Npu.Emulated as Inference

at_reset-Shows : Shows Gpu.at_reset init.gpu
at_reset-Shows = record {
  triangles = refl;
  frames = refl;
  pixels = refl;
  area = refl;
  rows = refl;
  box_max_y = refl;
  box_max_x = refl;
  box_min_y = refl;
  box_min_x = refl;
}

-- The same command at each edge, on the triangle (2,2), (10,2), (2,10).
abbrev commanding : ℕ → ℕ → Gpu.Inputs
commanding opcode _ = record {
  cmd_valid = true;
  cmd_opcode = opcode;
  vertex0_xy = 0x0202;
  vertex1_xy = 0x020A;
  vertex2_xy = 0x0A02;
  clear_value = 0;
}

commanding-Commands : (opcode : ℕ) → Commands (commanding opcode 0) opcode init.gpu
commanding-Commands opcode = record {
  valid = refl;
  opcode_is = refl;
  vertex0 = refl;
  vertex1 = refl;
  vertex2 = refl;
  clear_value = refl;
}

draw-Done_example :
    Ensures
      (Done
        (Gpu.cycles (draw_cycles (vertices init.gpu)) (commanding Gpu.cmd_draw_tri) Gpu.at_reset))
      (run_gpu_draw init)
draw-Done_example =
    draw-Done Gpu.at_reset init (commanding Gpu.cmd_draw_tri) refl at_reset-Shows
      (commanding-Commands Gpu.cmd_draw_tri)

clear-Done_example :
    Ensures (Done (Gpu.cycles 33 (commanding Gpu.cmd_clear) Gpu.at_reset)) (run_gpu_clear init)
clear-Done_example =
    clear-Done Gpu.at_reset init (commanding Gpu.cmd_clear) refl at_reset-Shows
      (commanding-Commands Gpu.cmd_clear)

draw_bbox_differs_example :
    Ensures
      (λ e'.
        (Gpu.cycles
          (draw_cycles (vertices init.gpu))
          (commanding Gpu.cmd_draw_tri)
          Gpu.at_reset).last_bbox
        ≢ e'.gpu.last_bbox)
      (run_gpu_draw init)
unfolding unpack_xy
draw_bbox_differs_example =
    draw_bbox_differs Gpu.at_reset init (commanding Gpu.cmd_draw_tri) refl
      (commanding-Commands Gpu.cmd_draw_tri) (omega arith)

abbrev starting : ℕ → Npu.Inputs
starting _ = record {
  start = true;
  model_id = npu_model_builtin_1;
  seq_length = 8;
  input_vec0 = 0x04030201;
  input_vec1 = 0x00000000;
  runtime_weight0_a = 0x01010101;
  runtime_weight0_b = 0xFFFFFFFF;
  runtime_weight1_a = 0xFFFFFFFF;
  runtime_weight1_b = 0x01010101;
  runtime_bias0 = 0;
  runtime_bias1 = 0;
}

starting-Starts : Starts (starting 0) init.npu
starting-Starts = record {
  start = refl;
  model_id = refl;
  seq_length = refl;
  input0 = refl;
  input1 = refl;
}

starting-Carries : Inference.Carries (starting 5) init.npu
starting-Carries = record {
  weight0_a = refl;
  weight0_b = refl;
  weight1_a = refl;
  weight1_b = refl;
  bias0 = refl;
  bias1 = refl;
  bias0_word = omega arith;
  bias1_word = omega arith;
}

run_npu-Done_example :
    ((Npu.cycles 6 starting Npu.at_reset).busy ≡ false)
    × ((Npu.cycles 6 starting Npu.at_reset).done ≡ true)
    × Ensures (λ e'. Inference.Shows (Npu.cycles 6 starting Npu.at_reset) e'.npu) (run_npu init)
run_npu-Done_example =
    Inference.run_npu-Done Npu.at_reset init starting refl starting-Starts starting-Carries refl

-- The emulator's queue with three commands, and a doorbell that is written once; each command would
-- end as soon as it is taken.
abbrev three_waiting : Emu
three_waiting = record init { cmdq = record (init.cmdq) { head = 3 } }

abbrev doorbell_once : ℕ → Queue.Inputs
doorbell_once _ = record {
  enable = true;
  cmdq_base_offset = init.cmdq.base_offset;
  cmdq_size_bytes = init.cmdq.size_bytes;
  cmdq_head = 3;
  cmdq_tail_seed = 0;
  cmdq_doorbell = 3;
  fetch_ready = true;
  desc_done = true;
  desc_error = false;
}

at_reset-IsIdle : IsIdle Queue.at_reset
at_reset-IsIdle = record { valid = refl; inflight = refl }

one_command_per_doorbell_example :
    ((Queue.cycles 100 doorbell_once Queue.at_reset).processed_count ≡ 0)
    ⊎ ((Queue.cycles 100 doorbell_once Queue.at_reset).processed_count ≡ 1)
one_command_per_doorbell_example =
    one_command_per_doorbell 3 100 doorbell_once Queue.at_reset at_reset-IsIdle
      (λ k. record { on = refl; doorbell = refl })

doorbell-Retired_example :
    Offers (Queue.cycles 1 doorbell_once Queue.at_reset) three_waiting
    × Round.Shows
        (Queue.cycles 3 doorbell_once Queue.at_reset)
        (retire (entry_count three_waiting.cmdq) true three_waiting).cmdq
    × IsIdle (Queue.cycles 3 doorbell_once Queue.at_reset)
doorbell-Retired_example =
    doorbell-Retired three_waiting doorbell_once Queue.at_reset true
      (λ k. record { on = refl; base = refl; size = refl; head = refl })
      (record { tail = refl; processed = refl }) at_reset-IsIdle (λ e. omega arith)
      (λ e. omega arith) refl refl
