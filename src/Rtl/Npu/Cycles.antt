-- ===== src/Rtl/Npu/Cycles.antt =====
-- The cycles of rtl/accel/npu_v2_stub.v from a start to its results.
use risc_v_computer_zybo.Base.{ℕ, suc, ◌≡◌, ◌∙◌, ap, arith, true, false}
use risc_v_computer_zybo.Emulator.{NpuState}
use risc_v_computer_zybo.Rtl.Npu.{NpuV2, Inputs, finish, clock, cycles}

-- A start with the emulator's model, length and inputs.
pub record Starts (i : Inputs) (n : NpuState) : Type 0 where
  pub start : i.start ≡ true
  pub model_id : i.model_id ≡ n.model_id
  pub seq_length : i.seq_length ≡ n.seq_length
  pub input0 : i.input_vec0 ≡ n.input0
  pub input1 : i.input_vec1 ≡ n.input1

-- The unit between the start and the last cycle, with what it has taken of the emulator's registers.
abbrev pub counting : NpuV2 → NpuState → ℕ → NpuV2
counting h n k = record h {
  busy = true;
  done = false;
  countdown = k;
  model_id = n.model_id;
  seq_length = n.seq_length;
  input_vec0 = n.input0;
  input_vec1 = n.input1;
}

clock-start :
    (h : NpuV2) (n : NpuState) (i : Inputs)
    → h.busy ≡ false
    → Starts i n
    → clock i h ≡ counting h n 4
unfolding clock
clock-start h n i b s = ground arith

clock-count :
    (h : NpuV2) (n : NpuState) (i : Inputs) (k : ℕ)
    → clock i (counting h n (suc k)) ≡ counting h n k
unfolding clock
clock-count h n i k = ground arith

clock-finish :
    (h : NpuV2) (n : NpuState) (i : Inputs) → clock i (counting h n 0) ≡ finish i (counting h n 0)
unfolding clock
clock-finish h n i = ground arith

-- One cycle for the start, four for the count and one for the result.
pub six_cycles :
    (h : NpuV2) (n : NpuState) (i : ℕ → Inputs)
    → h.busy ≡ false
    → Starts (i 0) n
    → cycles 6 i h ≡ finish (i 5) (counting h n 0)
unfolding cycles
six_cycles h n i b s =
    ap (λ (g : NpuV2). clock (i 5) (clock (i 4) (clock (i 3) (clock (i 2) (clock (i 1) g)))))
      (clock-start h n (i 0) b s)
    ∙ ap (λ (g : NpuV2). clock (i 5) (clock (i 4) (clock (i 3) (clock (i 2) g))))
        (clock-count h n (i 1) 3)
    ∙ ap (λ (g : NpuV2). clock (i 5) (clock (i 4) (clock (i 3) g))) (clock-count h n (i 2) 2)
    ∙ ap (λ (g : NpuV2). clock (i 5) (clock (i 4) g)) (clock-count h n (i 3) 1)
    ∙ ap (clock (i 5)) (clock-count h n (i 4) 0)
    ∙ clock-finish h n (i 5)
