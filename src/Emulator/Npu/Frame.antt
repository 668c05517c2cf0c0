-- ===== src/Emulator/Npu/Frame.antt =====
-- What an inference leaves alone.
use risc_v_computer_zybo.Base.{ℕ, ◌≡◌, arith, Ensures, >>=-Ensures, Ensures-any, true, false}
use risc_v_computer_zybo.Base.Int.{ℤ}
use risc_v_computer_zybo.Emulator.{Emu, NpuState}
use risc_v_computer_zybo.Emulator.Umem.{read32, write32}
use risc_v_computer_zybo.Emulator.Npu.{
  load_weights, load_inputs, compute, store_outputs, run_npu, activate, linear, classify,
}

-- Only the memory may differ.
abbrev pub SameButMem : Emu → Emu → Type 0
SameButMem e e' = e' ≡ record e { unified_mem = e'.unified_mem }

pub write32-SameButMem : (at v : ℕ) (e : Emu) → Ensures (SameButMem e) (write32 e at v)
unfolding write32
write32-SameButMem at v e = ground arith

store_outputs-SameButMem : (e : Emu) → Ensures (SameButMem e) (store_outputs e)
unfolding store_outputs write32
store_outputs-SameButMem e = ground arith

-- The settings of a model, which no inference changes.
pub record SameModel (n n' : NpuState) : Type 0 where
  pub model_id : n'.model_id ≡ n.model_id
  pub seq_length : n'.seq_length ≡ n.seq_length

-- The other units, and the settings.
pub record SameUnits (e e' : Emu) : Type 0 where
  pub control_shadow : e'.control_shadow ≡ e.control_shadow
  pub irq_enable : e'.irq_enable ≡ e.irq_enable
  pub umem : e'.umem ≡ e.umem
  pub cmdq : e'.cmdq ≡ e.cmdq
  pub gpu : e'.gpu ≡ e.gpu
  pub model : SameModel e.npu e'.npu

load_inputs-SameUnits :
    (e : Emu) → Ensures (λ e'. SameUnits e e' × (e'.unified_mem ≡ e.unified_mem)) (load_inputs e)
unfolding load_inputs load_weights read32
load_inputs-SameUnits e = ground arith

activate-SameModel :
    (m : ℕ) (linear0 linear1 : ℤ) (n : NpuState)
    → Ensures (SameModel n) (activate m linear0 linear1 n)
unfolding activate
activate-SameModel m linear0 linear1 n = ground arith

classify-SameModel : (n n' : NpuState) → SameModel n n' → SameModel n (classify n')
unfolding classify
classify-SameModel n n' s = ground arith

compute-SameModel : (n : NpuState) → Ensures (SameModel n) (compute n)
unfolding compute
compute-SameModel n =
    >>=-Ensures (λ _. Unit {0}) (SameModel n) (linear n.input0 n.input1 _ _ _) _ (Ensures-any _)
      λ linear0 _.
        >>=-Ensures (λ _. Unit {0}) (SameModel n) (linear n.input0 n.input1 _ _ _) _ (Ensures-any _)
          λ linear1 _.
            >>=-Ensures (SameModel n) (SameModel n) _ _
              (activate-SameModel n.model_id linear0 linear1 n)
              λ done s. classify-SameModel n done s

-- `emu_run_npu` changes the results, inputs and weights of its unit, and the memory; the other units,
-- the model, and the unified-memory registers stay.
pub run_npu-SameUnits : (e : Emu) → Ensures (SameUnits e) (run_npu e)
unfolding run_npu
run_npu-SameUnits e =
    >>=-Ensures (λ e'. SameUnits started e' × (e'.unified_mem ≡ e.unified_mem)) (SameUnits e) _ _
      (load_inputs-SameUnits started)
      λ loaded s.
        >>=-Ensures (SameModel loaded.npu) (SameUnits e) _ _ (compute-SameModel loaded.npu) λ npu m.
          >>=-Ensures (SameButMem (record loaded { npu = npu })) (SameUnits e) _ _
            (store_outputs-SameButMem (record loaded { npu = npu }))
            λ stored b. finished loaded npu stored s.0 m b
  where
    started : Emu
    started = record e { npu = record (e.npu) { busy = true } }

    finished :
        (loaded : Emu) (npu : NpuState) (stored : Emu)
        → SameUnits started loaded
        → SameModel loaded.npu npu
        → SameButMem (record loaded { npu = npu }) stored
        → SameUnits e
            (record stored { npu = record (stored.npu) { busy = false; done_sticky = true } })
    finished loaded npu stored s m b = ground arith
