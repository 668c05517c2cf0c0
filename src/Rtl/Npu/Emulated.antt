-- ===== src/Rtl/Npu/Emulated.antt =====
-- The inference unit rtl/accel/npu_v2_stub.v against emu_run_npu of linux/uio/accel_mmio_demo.c.
use risc_v_computer_zybo.Base.{
  ℕ, ◌+◌, ◌*◌, ◌%◌, ◌^◌, ◌≡◌, ◌∙◌, ◌<◌, refl, sym, ap, ap₂, arith, true, false, if◌then◌else◌, ok,
  Ensures, >>=-Ensures,
}
use risc_v_computer_zybo.Base.Int.{ℤ, ◌+ℤ◌, ltb_ℤ}
use risc_v_computer_zybo.Word.{word, unsigned32, IsInt32}
use risc_v_computer_zybo.Word.Laws.{signed32-unsigned32, unsigned32-signed32}
use risc_v_computer_zybo.Emulator.{NpuState}
use risc_v_computer_zybo.Emulator.Npu.{Weights, select_weights, classify, compute, dot4_i8}
use risc_v_computer_zybo.Rtl.Npu.{
  NpuV2, Inputs, Selected, select, sum, hidden_next, logit_next, class_next, finish, cycles,
}
use risc_v_computer_zybo.Emulator.{Emu}
use risc_v_computer_zybo.Emulator.Umem.{enabled_with, bit_npu_use_buf}
use risc_v_computer_zybo.Emulator.Npu.{load_inputs, store_outputs, run_npu}
use risc_v_computer_zybo.Rtl.Npu.Cycles.{Starts, counting, six_cycles}
use risc_v_computer_zybo.Emulator.Npu.Int32.{linear-IsInt32}
use risc_v_computer_zybo.Rtl.Npu.Words.{sum_lem, Activated, activate-Activated}

-- What the unit shows of its results, as the emulator's registers have it.
pub record Shows (h : NpuV2) (n : NpuState) : Type 0 where
  pub status_word : h.status_word ≡ n.status_word
  pub logit0 : h.logit0 ≡ unsigned32 n.logit0
  pub logit1 : h.logit1 ≡ unsigned32 n.logit1
  pub hidden0 : h.hidden0 ≡ unsigned32 n.hidden0
  pub hidden1 : h.hidden1 ≡ unsigned32 n.hidden1
  pub class_id : h.class_id ≡ n.class_id

-- The runtime weights at the inputs, with the biases as words.
pub record Carries (i : Inputs) (n : NpuState) : Type 0 where
  pub weight0_a : i.runtime_weight0_a ≡ n.weight0_a
  pub weight0_b : i.runtime_weight0_b ≡ n.weight0_b
  pub weight1_a : i.runtime_weight1_a ≡ n.weight1_a
  pub weight1_b : i.runtime_weight1_b ≡ n.weight1_b
  pub bias0 : i.runtime_bias0 ≡ n.bias0
  pub bias1 : i.runtime_bias1 ≡ n.bias1
  pub bias0_word : n.bias0 < word
  pub bias1_word : n.bias1 < word

record SameWeights (w : Weights) (v : Selected) : Type 0 where
  weight0_a : v.weight0_a ≡ w.weight0_a
  weight0_b : v.weight0_b ≡ w.weight0_b
  weight1_a : v.weight1_a ≡ w.weight1_a
  weight1_b : v.weight1_b ≡ w.weight1_b
  bias0 : v.bias0 ≡ unsigned32 w.bias0
  bias1 : v.bias1 ≡ unsigned32 w.bias1

select-SameWeights :
    (m : ℕ) (i : Inputs) (n : NpuState)
    → Carries i n
    → SameWeights (select_weights n m) (select m i)
unfolding select_weights select
select-SameWeights m i n c =
    ground
      (arith, unsigned32-signed32 n.bias0 c.bias0_word, unsigned32-signed32 n.bias1 c.bias1_word)

-- The two sums of the last cycle.
last_sum0 : NpuState → Inputs → ℕ
last_sum0 n i = let v = select n.model_id i in sum n.input0 n.input1 v.weight0_a v.weight0_b v.bias0

last_sum1 : NpuState → Inputs → ℕ
last_sum1 n i = let v = select n.model_id i in sum n.input0 n.input1 v.weight1_a v.weight1_b v.bias1

-- A sum with other words for the same weights.
sum-congr :
    (i0 i1 wa wb b : ℕ) (va vb : ℕ) (z : ℤ)
    → wa ≡ va
    → wb ≡ vb
    → b ≡ unsigned32 z
    → sum i0 i1 wa wb b ≡ unsigned32 (dot4_i8 i0 va +ℤ dot4_i8 i1 vb +ℤ z)
sum-congr i0 i1 wa wb b va vb z p q r = rw (p, q, r) (sum_lem i0 i1 va vb z)

class_lem :
    (a b : ℕ) (x y : ℤ)
    → a ≡ unsigned32 x
    → b ≡ unsigned32 y
    → IsInt32 x
    → IsInt32 y
    → class_next a b ≡ (if ltb_ℤ x y then 1 else 0)
class_lem a b x y p q hx hy =
    rw (p, q, signed32-unsigned32 x hx.low hx.high, signed32-unsigned32 y hy.low hy.high) refl

finish-Activated :
    (h : NpuV2) (n n' : NpuState) (i : Inputs) (z0 z1 : ℤ)
    → last_sum0 n i ≡ unsigned32 z0
    → last_sum1 n i ≡ unsigned32 z1
    → Activated n.model_id z0 z1 n n'
    → Shows (finish i (counting h n 0)) (classify n')
unfolding finish last_sum0 last_sum1 classify
finish-Activated h n n' i z0 z1 s0 s1 a = record {
  status_word =
      ap (λ (c : ℕ). 0x4E * 2 ^ 24 + c * 2 ^ 16 + n.model_id * 2 ^ 8 + n.seq_length % 256) class
      ∙ rw (a.model_id, a.seq_length) refl;
  logit0 = l0;
  logit1 = l1;
  hidden0 = ap (hidden_next n.model_id) s0 ∙ a.hidden0;
  hidden1 = ap (hidden_next n.model_id) s1 ∙ a.hidden1;
  class_id = class;
}
  where
    m : ℕ
    m = n.model_id

    l0 :
        logit_next m (hidden_next m (last_sum0 n i)) (hidden_next m (last_sum1 n i)) (last_sum0 n i)
        ≡ unsigned32 n'.logit0
    l0 = ap₂ (λ (s t : ℕ). logit_next m (hidden_next m s) (hidden_next m t) s) s0 s1 ∙ a.logit0

    l1 :
        logit_next m (hidden_next m (last_sum1 n i)) (hidden_next m (last_sum0 n i)) (last_sum1 n i)
        ≡ unsigned32 n'.logit1
    l1 = ap₂ (λ (s t : ℕ). logit_next m (hidden_next m s) (hidden_next m t) s) s1 s0 ∙ a.logit1

    class : (finish i (counting h n 0)).class_id ≡ (if ltb_ℤ n'.logit0 n'.logit1 then 1 else 0)
    class = class_lem _ _ n'.logit0 n'.logit1 l0 l1 a.logit0_IsInt32 a.logit1_IsInt32

finish-Shows :
    (h : NpuV2) (n : NpuState) (i : Inputs)
    → Carries i n
    → Ensures (Shows (finish i (counting h n 0))) (compute n)
unfolding compute last_sum0 last_sum1
finish-Shows h n i c =
    let w = select_weights n n.model_id in
    let same = select-SameWeights n.model_id i n c in
    >>=-Ensures
      (λ z.
        (z ≡ dot4_i8 n.input0 w.weight0_a +ℤ dot4_i8 n.input1 w.weight0_b +ℤ w.bias0) × IsInt32 z)
      _ _ _ (linear-IsInt32 n.input0 n.input1 w.weight0_a w.weight0_b w.bias0)
      λ z0 k0.
        >>=-Ensures
          (λ z.
            (z ≡ dot4_i8 n.input0 w.weight1_a +ℤ dot4_i8 n.input1 w.weight1_b +ℤ w.bias1)
            × IsInt32 z)
          _ _ _ (linear-IsInt32 n.input0 n.input1 w.weight1_a w.weight1_b w.bias1)
          λ z1 k1.
            >>=-Ensures (Activated n.model_id z0 z1 n) _ _ _
              (activate-Activated n.model_id z0 z1 n k0.1 k1.1)
              λ n' a.
                finish-Activated h n n' i z0 z1
                  (sum-congr n.input0 n.input1 _ _ _ w.weight0_a w.weight0_b w.bias0 same.weight0_a
                      same.weight0_b same.bias0
                    ∙ ap (λ (q : ℤ). unsigned32 q) (sym k0.0))
                  (sum-congr n.input0 n.input1 _ _ _ w.weight1_a w.weight1_b w.bias1 same.weight1_a
                      same.weight1_b same.bias1
                    ∙ ap (λ (q : ℤ). unsigned32 q) (sym k1.0))
                  a

load_inputs_off :
    (e : Emu) → enabled_with e.umem.ctrl bit_npu_use_buf ≡ false → load_inputs e ≡ ok e
unfolding load_inputs
load_inputs_off e h = rw h refl

store_outputs_off :
    (e : Emu) → enabled_with e.umem.ctrl bit_npu_use_buf ≡ false → store_outputs e ≡ ok e
unfolding store_outputs
store_outputs_off e h = rw h refl

-- The flags at the end of `emu_run_npu` are no results.
ended :
    (h : NpuV2) (n : NpuState) → Shows h n → Shows h (record n { busy = false; done_sticky = true })
ended h n s = record {
  status_word = s.status_word;
  logit0 = s.logit0;
  logit1 = s.logit1;
  hidden0 = s.hidden0;
  hidden1 = s.hidden1;
  class_id = s.class_id;
}

shows_run :
    (h : NpuV2) (e : Emu) (i : Inputs)
    → Carries i e.npu
    → enabled_with e.umem.ctrl bit_npu_use_buf ≡ false
    → Ensures (λ e'. Shows (finish i (counting h e.npu 0)) e'.npu) (run_npu e)
unfolding run_npu
shows_run h e i c off = rw (load_inputs_off (record e { npu = started }) off) (
    >>=-Ensures (Shows last) (λ e'. Shows last e'.npu) _ _
      (finish-Shows h started i (record {
        weight0_a = c.weight0_a;
        weight0_b = c.weight0_b;
        weight1_a = c.weight1_a;
        weight1_b = c.weight1_b;
        bias0 = c.bias0;
        bias1 = c.bias1;
        bias0_word = c.bias0_word;
        bias1_word = c.bias1_word;
      }))
      λ n shows. rw (store_outputs_off (record e { npu = n }) off) (ended _ n shows))
  where
    started : NpuState
    started = record (e.npu) { busy = true }

    last : NpuV2
    last = finish i (counting h e.npu 0)

finish-Done : (h : NpuV2) (i : Inputs) → ((finish i h).busy ≡ false) × ((finish i h).done ≡ true)
unfolding finish
finish-Done h i = (refl, refl)

-- An inference in the unit: from any state in which it is not busy, after a start with the emulator's
-- model, length and inputs, and with the emulator's runtime weights and biases (uint32_t) at its
-- inputs in the sixth cycle, whatever the other inputs are and with the emulator's buffers off, the
-- unit is not busy and done after six cycles, also where the emulator's inference is undefined; and if
-- the emulator's inference returns, the unit shows its results.
pub run_npu-Done :
    (h : NpuV2) (e : Emu) (i : ℕ → Inputs)
    → h.busy ≡ false
    → Starts (i 0) e.npu
    → Carries (i 5) e.npu
    → enabled_with e.umem.ctrl bit_npu_use_buf ≡ false
    → ((cycles 6 i h).busy ≡ false)
      × ((cycles 6 i h).done ≡ true)
      × Ensures (λ e'. Shows (cycles 6 i h) e'.npu) (run_npu e)
run_npu-Done h e i b s c off =
    rw (six_cycles h e.npu i b s) (done.0, done.1, shows_run h e (i 5) c off)
  where
    done :
        ((finish (i 5) (counting h e.npu 0)).busy ≡ false)
        × ((finish (i 5) (counting h e.npu 0)).done ≡ true)
    done = finish-Done (counting h e.npu 0) (i 5)
