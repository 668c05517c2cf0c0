-- ===== src/Tests/Device.antt =====
-- The theorems on the emulated device at the demo's state.
use risc_v_computer_zybo.Base.{◌-◌, ◌%◌, ◌^◌, ◌≡◌, refl, arith, true, false, Returns, Ensures}
use risc_v_computer_zybo.Base.Int.{◌+ℤ◌, ◌*ℤ◌}
use risc_v_computer_zybo.Word.{byte_of}
use risc_v_computer_zybo.Emulator.{fb_rows}
use risc_v_computer_zybo.Emulator.Umem.{limit_bytes}
use risc_v_computer_zybo.Emulator.Npu.{dot4_i8, select_weights, compute, run_npu}
use risc_v_computer_zybo.Emulator.Npu.Dot.{int8, Within, dot4_i8_lem}
use risc_v_computer_zybo.Emulator.Npu.Infer.{Inferred, compute_lem}
use risc_v_computer_zybo.Emulator.Gpu.{Triangle, sync_framebuffer_to_umem, rasterise}
use risc_v_computer_zybo.Emulator.Gpu.Mirror.{FitsRows, Mirrors, sync_framebuffer_to_umem-Mirrors}
use risc_v_computer_zybo.Emulator.Gpu.Draws.{Draws, rasterise-Draws}
use risc_v_computer_zybo.Emulator.Cmdq.{entry_count, execute_desc}
use risc_v_computer_zybo.Emulator.Cmdq.Restore.{SameQueue, SameSettings, execute_desc-SameSettings}
use risc_v_computer_zybo.Emulator.Cmdq.Process.{InRing}
use risc_v_computer_zybo.Registers.{Reg, offset}
use risc_v_computer_zybo.Emulator.Regs.{reg_read, reg_write}
use risc_v_computer_zybo.Emulator.Regs.Kept.{reg_write-reg_read}
use risc_v_computer_zybo.Emulator.Npu.Total.{IsLoadable}
use risc_v_computer_zybo.Emulator.Npu.Output.{HoldsOutputs, run_npu-HoldsOutputs}
use risc_v_computer_zybo.Tests.Demo.{demo_device}

demo_device-InRing : InRing (entry_count demo_device.cmdq) demo_device.cmdq
unfolding entry_count
demo_device-InRing = record {
  count = refl;
  size_word = omega arith;
  tail_in = omega arith;
  head_in = omega arith;
}

execute_desc-SameSettings_example :
    Ensures
      (λ r. SameSettings demo_device r.0 × SameQueue demo_device r.0)
      (execute_desc demo_device 0x2040)
execute_desc-SameSettings_example = execute_desc-SameSettings demo_device 0x2040

no_bias :
    Within (2 ^ 31 - 1 - 131072) (select_weights demo_device.npu demo_device.npu.model_id).bias0
    × Within (2 ^ 31 - 1 - 131072) (select_weights demo_device.npu demo_device.npu.model_id).bias1
unfolding select_weights
no_bias = ((omega arith, omega arith), (omega arith, omega arith))

compute_lem_example : Returns (Inferred demo_device.npu) (compute demo_device.npu)
compute_lem_example = compute_lem demo_device.npu (omega arith) no_bias.0 no_bias.1

dot4_i8_lem_example :
    (dot4_i8 0x04030201 0xFF01FF01
      ≡ int8 (byte_of 0x04030201 0) *ℤ int8 (byte_of 0xFF01FF01 0)
        +ℤ int8 (byte_of 0x04030201 8) *ℤ int8 (byte_of 0xFF01FF01 8)
        +ℤ int8 (byte_of 0x04030201 16) *ℤ int8 (byte_of 0xFF01FF01 16)
        +ℤ int8 (byte_of 0x04030201 24) *ℤ int8 (byte_of 0xFF01FF01 24))
    × Within 65536 (dot4_i8 0x04030201 0xFF01FF01)
dot4_i8_lem_example = dot4_i8_lem 0x04030201 0xFF01FF01

abbrev demo_triangle : Triangle
demo_triangle = record {
  a = record { x = 2; y = 2 };
  b = record { x = 10; y = 2 };
  c = record { x = 2; y = 10 };
}

rasterise-Draws_example : Draws demo_triangle (λ _. 0) (rasterise demo_triangle (λ _. 0))
rasterise-Draws_example = rasterise-Draws demo_triangle (λ _. 0)

demo_device-FitsRows : FitsRows demo_device
unfolding limit_bytes
demo_device-FitsRows = record {
  last_in = omega arith;
  pitch_word = omega arith;
  row_word = λ k. omega arith;
}

sync_framebuffer_to_umem-Mirrors_example :
    Returns (Mirrors 0 fb_rows demo_device) (sync_framebuffer_to_umem demo_device)
sync_framebuffer_to_umem-Mirrors_example =
    sync_framebuffer_to_umem-Mirrors demo_device refl demo_device-FitsRows

reg_write-reg_read_example :
    Returns
      (λ e'. reg_read e' (offset Reg.gpu_vertex0) ≡ 0x12345 % 2 ^ 16)
      (reg_write demo_device (offset Reg.gpu_vertex0) 0x12345)
reg_write-reg_read_example =
    reg_write-reg_read demo_device 0x12345 (2 ^ 16) Reg.gpu_vertex0 (omega arith) refl

demo_device-IsLoadable : IsLoadable demo_device
unfolding limit_bytes
demo_device-IsLoadable = record {
  enabled = refl;
  model_byte = omega arith;
  input_in = omega arith;
  output_in = omega arith;
  weights = λ h. cc;
}

run_npu-HoldsOutputs_example :
    Returns
      (λ e'.
        HoldsOutputs e'.unified_mem demo_device.umem.npu_output_offset e'.npu
        × (e'.npu.done_sticky ≡ true)
        × (e'.npu.busy ≡ false))
      (run_npu demo_device)
run_npu-HoldsOutputs_example = run_npu-HoldsOutputs demo_device demo_device-IsLoadable
