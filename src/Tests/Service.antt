-- ===== src/Tests/Service.antt =====
-- The theorems on `emu_cmdq_process` at the demo's queue.
use risc_v_computer_zybo.Base.{
  undefined, ◌%◌, ◌≤◌, ℕ, zero, suc, ◌+◌, ◌*◌, ◌<◌, ◌≡◌, ◌≢◌, inl, refl, arith, Bool, ◌&&◌, ◌||◌,
  leb, ltb, Returns,
}
use risc_v_computer_zybo.Memory.{Desc, desc_bytes, load_desc, load32, store32, store_desc}
use risc_v_computer_zybo.Commands.{npu_infer_desc}
use risc_v_computer_zybo.Emulator.Umem.{limit_bytes}
use risc_v_computer_zybo.Emulator.Gpu.{pack_xy}
use risc_v_computer_zybo.Emulator.Cmdq.{entry_count, desc_ptr, process}
use risc_v_computer_zybo.Emulator.Cmdq.Process.{InRing, Processed}
use risc_v_computer_zybo.Emulator.Cmdq.Runnable.{FrameFits, IsRunnable}
use risc_v_computer_zybo.Emulator.Cmdq.Total.{IsServiceable, process-Returns}
use risc_v_computer_zybo.Emulator.Cmdq.Executes.{InOrder, pending_of, process-InOrder}
use risc_v_computer_zybo.Emulator.Cmdq.Bounds.{slot_of, desc_ptr_wraps}
use risc_v_computer_zybo.Word.{word}
use risc_v_computer_zybo.Emulator.{Emu}
use risc_v_computer_zybo.Tests.Demo.{demo_device, demo_memory}

-- The output buffer of the inference, and the framebuffer.
abbrev pub is_output : ℕ → Bool
is_output a = (leb 0x480 a && ltb a 0x498) || (leb 0x1200 a && ltb a 0x1280)

abbrev RunsHere : Desc → Type 0
RunsHere d = IsRunnable is_output 0x2000 0x2100 demo_device.umem 1 demo_memory d

frame-RunsHere : (d : Desc) → d.dst0 ≡ 0x1200 → (0 < d.opcode) → (d.opcode ≢ 1) → RunsHere d
frame-RunsHere d h p q = record { infer = λ e. absurd (q e); clear = λ _. fits; draw = λ _. fits }
  where
    fits : FrameFits is_output 0x2000 0x2100 demo_device.umem d
    fits = record { frame_in = rw h (omega arith); frame_at = rw h (λ a l u. ground arith) }

nop-RunsHere : (d : Desc) → d.opcode ≡ 0 → RunsHere d
nop-RunsHere d h = record {
  infer = λ e. absurd (omega arith);
  clear = λ e. absurd (omega arith);
  draw = λ e. absurd (omega arith);
}

no_bias : (load32 demo_memory 0x430 ≡ 0) × (load32 demo_memory 0x434 ≡ 0)
unfolding load32 store32 store_desc
no_bias = (refl, refl)

infer-RunsHere : RunsHere (npu_infer_desc 0x80 8 0x400 0x420 0x480)
infer-RunsHere = record {
  infer = λ _. record {
    input_in = omega arith;
    output_in = omega arith;
    output_at = λ a l u. ground arith;
    weights = λ _. record {
      weights_in = omega arith;
      bias0 = rw no_bias.0 (ground arith);
      bias1 = rw no_bias.1 (ground arith);
      no_output = λ a l u. ground arith;
      no_desc = λ a l u. inl (omega arith);
    };
  };
  clear = λ e. absurd (omega arith);
  draw = λ e. absurd (omega arith);
}

slot-RunsHere : (s : ℕ) → s < 8 → RunsHere (load_desc demo_memory (0x2000 + s * desc_bytes))
unfolding load_desc load32 store32 store_desc pack_xy
slot-RunsHere zero h = frame-RunsHere _ refl (omega arith) (λ e. omega arith)
slot-RunsHere (suc zero) h = frame-RunsHere _ refl (omega arith) (λ e. omega arith)
slot-RunsHere (suc (suc zero)) h = infer-RunsHere
slot-RunsHere (suc (suc (suc zero))) h = nop-RunsHere _ refl
slot-RunsHere (suc (suc (suc (suc zero)))) h = nop-RunsHere _ refl
slot-RunsHere (suc (suc (suc (suc (suc zero))))) h = nop-RunsHere _ refl
slot-RunsHere (suc (suc (suc (suc (suc (suc zero)))))) h = nop-RunsHere _ refl
slot-RunsHere (suc (suc (suc (suc (suc (suc (suc zero))))))) h = nop-RunsHere _ refl
slot-RunsHere (suc (suc (suc (suc (suc (suc (suc (suc s)))))))) h = absurd (omega arith)

pub demo_device-IsServiceable : IsServiceable is_output (entry_count demo_device.cmdq) demo_device
unfolding entry_count limit_bytes
demo_device-IsServiceable = record {
  count = refl;
  positive = omega arith;
  queue_in = omega arith;
  queue_kept = λ a l u. ground arith;
  model_byte = omega arith;
  slots = slot-RunsHere;
}

demo_device-InRing : InRing (entry_count demo_device.cmdq) demo_device.cmdq
unfolding entry_count
demo_device-InRing = record {
  count = refl;
  size_word = omega arith;
  tail_in = omega arith;
  head_in = omega arith;
}

process-Returns_example : Returns (Processed demo_device) (process demo_device)
process-Returns_example =
    process-Returns is_output demo_device demo_device-IsServiceable demo_device-InRing
      (record { processed_word = omega arith; errors_word = omega arith })

process-InOrder_example :
    Returns
      (InOrder
        (entry_count demo_device.cmdq)
        (pending_of (entry_count demo_device.cmdq) demo_device)
        demo_device)
      (process demo_device)
process-InOrder_example =
    process-InOrder is_output demo_device demo_device-IsServiceable demo_device-InRing
      (record { processed_word = omega arith; errors_word = omega arith })

-- The demo's device with its queue at the end of the 32-bit addresses.
abbrev wrapping_device : Emu
wrapping_device = record demo_device {
  cmdq = record (demo_device.cmdq) { base_offset = 0xFFFFFFE0; head = 1 };
}

wrapping_hypotheses :
    (slot_of wrapping_device 0 < word)
    × (word ≤ slot_of wrapping_device 0 + desc_bytes)
    × ((slot_of wrapping_device 0 + desc_bytes) % word ≤ limit_bytes wrapping_device)
unfolding entry_count limit_bytes
wrapping_hypotheses = (omega arith, omega arith, omega arith)

desc_ptr_wraps_example : desc_ptr wrapping_device 0 ≡ undefined
desc_ptr_wraps_example =
    desc_ptr_wraps wrapping_device 0 wrapping_hypotheses.0 wrapping_hypotheses.1
      wrapping_hypotheses.2
