-- ===== src/Driver/Sample.antt =====
-- The inference demos of linux/uio/accel_mmio_demo.c: `write_runtime_model`, `run_npu_sample` and
-- `run_runtime_npu_demo`.
use Prim.Native.String.{String}
use risc_v_computer_zybo.Base.{
  ℕ, ◌+◌, ◌*◌, ◌%◌, ◌^◌, Bool, List, [], ◌∷◌, Outcome, ◌>>=◌, if◌then◌else◌,
}
use risc_v_computer_zybo.Base.Int.{ℤ, pos}
use risc_v_computer_zybo.Registers.{Reg, offset}
use risc_v_computer_zybo.Emulator.{npu_model_runtime, npu_model_runtime_mlp}
use risc_v_computer_zybo.Driver.{
  Line, Platform, Session, backend_read, backend_write, print, print_reg, print_signed, in_order,
  write_all,
}
use risc_v_computer_zybo.Driver.Wait.{npu_busy, npu_done, arm_irq, wait_until_done}

-- The weights that both runtime models use, without their biases.
abbrev pub runtime_weights : List (Reg × ℕ)
runtime_weights =
    (Reg.npu_weight0_a, 0x00020002)
    ∷ (Reg.npu_weight0_b, 0x00020002)
    ∷ (Reg.npu_weight1_a, 0x02000200)
    ∷ (Reg.npu_weight1_b, 0x02000200)
    ∷ []

module _ {D : Type 0} (p : Platform D) where
  unfoldable pub write_runtime_model : Session D → Outcome (Session D)
  write_runtime_model s = do
    s1 ← write_all p runtime_weights s
    write_all p ((Reg.npu_bias0, 0) ∷ (Reg.npu_bias1, 0) ∷ []) s1

  -- `printf("...", backend->emulate ? backend->emu.npu_hidden0 : 0)`
  abbrev pub print_hidden : String → (Session D → ℤ) → Session D → Session D
  print_hidden label hidden s = print (Line.signed label (if s.emulate then hidden s else pos 0)) s

  abbrev pub print_class : Session D → Session D
  print_class s =
      let (v, s') = backend_read p (offset Reg.npu_class) s in
      print (Line.unsigned "npu_class" (v % 256)) s'

  -- What is printed once the inference is done.
  unfoldable pub print_sample : ℕ → Session D → Session D
  print_sample model_id = in_order (
      print (Line.byte "npu_model_id" model_id)
      ∷ print_reg p Line.hex "npu_status_word" Reg.npu_status_word
      ∷ print_hidden "npu_hidden0" (λ s. s.emu.npu.hidden0)
      ∷ print_hidden "npu_hidden1" (λ s. s.emu.npu.hidden1)
      ∷ print_signed p "npu_logit0" Reg.npu_logit0
      ∷ print_signed p "npu_logit1" Reg.npu_logit1
      ∷ print_class
      ∷ print_reg p Line.hex "irq_status" Reg.irq_status
      ∷ [])

  unfoldable pub run_npu_sample : Bool → String → ℕ → ℕ → ℕ → Session D → Outcome (Session D)
  run_npu_sample use_irq label model_id input0 input1 s = do
    armed ← arm_irq p use_irq s
    running ←
        write_all p
          ((Reg.npu_cfg0, 8 * 2 ^ 16 + model_id)
            ∷ (Reg.npu_input0, input0)
            ∷ (Reg.npu_input1, input1)
            ∷ (Reg.control, 1)
            ∷ [])
          armed
    finished ← wait_until_done p use_irq npu_busy npu_done label running
    backend_write p (offset Reg.status) 1 (print_sample model_id finished)

  unfoldable pub run_runtime_npu_demo : Bool → Session D → Outcome (Session D)
  run_runtime_npu_demo use_irq s = do
    s1 ← write_runtime_model s
    let s2 =
        in_order
          (print_reg p Line.hex "runtime_w0_a" Reg.npu_weight0_a
            ∷ print_reg p Line.hex "runtime_w0_b" Reg.npu_weight0_b
            ∷ print_reg p Line.hex "runtime_w1_a" Reg.npu_weight1_a
            ∷ print_reg p Line.hex "runtime_w1_b" Reg.npu_weight1_b
            ∷ print (Line.heading "\n-- runtime sample even-lanes --\n")
            ∷ [])
          s1
    s3 ← run_npu_sample use_irq "npu_runtime_even" npu_model_runtime 0x00020001 0x00040003 s2
    let s4 = print (Line.heading "\n-- runtime sample odd-lanes --\n") s3
    s5 ← run_npu_sample use_irq "npu_runtime_odd" npu_model_runtime 0x02000100 0x04000300 s4
    let s6 = print (Line.heading "\n-- runtime MLP sample --\n") s5
    s7 ← write_all p runtime_weights s6
    s8 ← write_all p ((Reg.npu_bias0, 0xFFFFFFF8) ∷ (Reg.npu_bias1, 0xFFFFFFF8) ∷ []) s7
    run_npu_sample use_irq "npu_runtime_mlp" npu_model_runtime_mlp 0x00020001 0x00040003 s8
