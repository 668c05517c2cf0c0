-- ===== src/Emulator/Npu.antt =====
-- The emulated inference unit: `unpack_i8`, `dot4_i8`, `emu_select_npu_weights` and `emu_run_npu` of
-- linux/uio/accel_mmio_demo.c. A signed sum that does not fit int32_t is undefined.
pub mod Frame
pub mod Dot
pub mod Infer
pub mod Int32
pub mod Total
pub mod Output
use risc_v_computer_zybo.Base.{
  ℕ, zero, suc, ◌+◌, ◌-◌, ◌*◌, ◌/◌, ◌%◌, ◌^◌, ◌<◌, Bool, true, false, ◌&&◌, ◌||◌, Outcome, ok,
  undefined, ◌>>=◌, ltb, ◌==◌, if◌then◌else◌,
}
use risc_v_computer_zybo.Base.Int.{ℤ, pos, negsuc, ◌+ℤ◌, ◌-ℤ◌, ◌*ℤ◌, ltb_ℤ, leb_ℤ}
use risc_v_computer_zybo.Word.{word, add32, sub32, byte_of, test_bit, signed32, unsigned32}
use risc_v_computer_zybo.Emulator.{
  Emu, NpuState, npu_model_builtin_1, npu_model_builtin_2, npu_model_runtime, npu_model_runtime_mlp,
}
use risc_v_computer_zybo.Emulator.Umem.{read32, write32, enabled_with, bit_npu_use_buf}

unfoldable pub unpack_i8 : ℕ → ℕ → ℤ
unpack_i8 w shift =
    let value = byte_of w shift in signed32 (if test_bit value 7 then sub32 value 0x100 else value)

-- `for (shift = ...; shift <= 24; shift += 8)` with the rounds left.
unfoldable pub dot4_loop : ℕ → ℕ → ℕ → ℕ → ℤ → ℤ
dot4_loop zero shift lhs rhs sum = sum
dot4_loop (suc rounds) shift lhs rhs sum =
    dot4_loop rounds (shift + 8) lhs rhs (sum +ℤ unpack_i8 lhs shift *ℤ unpack_i8 rhs shift)

unfoldable pub dot4_i8 : ℕ → ℕ → ℤ
unfolding dot4_loop
dot4_i8 lhs rhs = dot4_loop 4 0 lhs rhs (pos 0)

pub record Weights : Type 0 where
  pub weight0_a : ℕ
  pub weight0_b : ℕ
  pub weight1_a : ℕ
  pub weight1_b : ℕ
  pub bias0 : ℤ
  pub bias1 : ℤ

unfoldable pub select_weights : NpuState → ℕ → Weights
select_weights n model_id =
    if model_id == npu_model_builtin_2
    then record {
      weight0_a = 0xFFFFFFFF;
      weight0_b = 0x01010101;
      weight1_a = 0x01010101;
      weight1_b = 0xFFFFFFFF;
      bias0 = pos 2;
      bias1 = negsuc 1;
    }
    else if model_id == npu_model_runtime || model_id == npu_model_runtime_mlp
    then record {
      weight0_a = n.weight0_a;
      weight0_b = n.weight0_b;
      weight1_a = n.weight1_a;
      weight1_b = n.weight1_b;
      bias0 = signed32 n.bias0;
      bias1 = signed32 n.bias1;
    }
    else record {
      weight0_a = 0x01010101;
      weight0_b = 0xFFFFFFFF;
      weight1_a = 0xFFFFFFFF;
      weight1_b = 0x01010101;
      bias0 = pos 0;
      bias1 = pos 0;
    }

-- A signed result of C: undefined where it does not fit.
abbrev pub int32 : ℤ → Outcome ℤ
int32 z = if leb_ℤ (negsuc (2 ^ 31 - 1)) z && leb_ℤ z (pos (2 ^ 31 - 1)) then ok z else undefined

-- The start of `emu_run_npu`: the inputs and, for a runtime model, the weights, from the memory.
unfoldable pub load_weights : Emu → Outcome Emu
load_weights e =
    let at = e.umem.npu_weight_offset in
    if e.npu.model_id == npu_model_runtime || e.npu.model_id == npu_model_runtime_mlp
    then (do
      w0a ← read32 e (add32 at 0)
      w0b ← read32 e (add32 at 4)
      w1a ← read32 e (add32 at 8)
      w1b ← read32 e (add32 at 12)
      b0 ← read32 e (add32 at 16)
      b1 ← read32 e (add32 at 20)
      ok (record e {
        npu = record (e.npu) {
          weight0_a = w0a;
          weight0_b = w0b;
          weight1_a = w1a;
          weight1_b = w1b;
          bias0 = b0;
          bias1 = b1;
        };
      }))
    else ok e

unfoldable pub load_inputs : Emu → Outcome Emu
load_inputs e =
    let at = e.umem.npu_input_offset in
    if enabled_with e.umem.ctrl bit_npu_use_buf
    then (do
      i0 ← read32 e (add32 at 0)
      i1 ← read32 e (add32 at 4)
      load_weights (record e { npu = record (e.npu) { input0 = i0; input1 = i1 } }))
    else ok e

-- `dot4_i8(...) + dot4_i8(...) + bias`
unfoldable pub linear : ℕ → ℕ → ℕ → ℕ → ℤ → Outcome ℤ
linear input0 input1 weight_a weight_b bias = do
  dots ← int32 (dot4_i8 input0 weight_a +ℤ dot4_i8 input1 weight_b)
  int32 (dots +ℤ bias)

abbrev pub relu : ℤ → ℤ
relu z = if ltb_ℤ (pos 0) z then z else pos 0

-- The hidden values and logits of a model, from its two linear values.
unfoldable pub activate : ℕ → ℤ → ℤ → NpuState → Outcome NpuState
activate model_id linear0 linear1 n =
    if model_id == npu_model_runtime_mlp
    then (do
      l0 ← int32 (relu linear0 -ℤ relu linear1)
      l1 ← int32 (relu linear1 -ℤ relu linear0)
      ok (record n { hidden0 = relu linear0; hidden1 = relu linear1; logit0 = l0; logit1 = l1 }))
    else ok (record n { hidden0 = linear0; hidden1 = linear1; logit0 = linear0; logit1 = linear1 })

-- `class_id` and the packed `status_word`: the four bytes are disjoint, so `|` is a sum.
unfoldable pub classify : NpuState → NpuState
classify n =
    let class = if ltb_ℤ n.logit0 n.logit1 then 1 else 0 in
    record n {
      class_id = class;
      status_word = 0x4E * 2 ^ 24 + class * 2 ^ 16 + n.model_id * 2 ^ 8 + n.seq_length % 256;
    }

unfoldable pub compute : NpuState → Outcome NpuState
compute n = do
  let w = select_weights n n.model_id
  linear0 ← linear n.input0 n.input1 w.weight0_a w.weight0_b w.bias0
  linear1 ← linear n.input0 n.input1 w.weight1_a w.weight1_b w.bias1
  done ← activate n.model_id linear0 linear1 n
  ok (classify done)

unfoldable pub store_outputs : Emu → Outcome Emu
store_outputs e =
    let at = e.umem.npu_output_offset in
    if enabled_with e.umem.ctrl bit_npu_use_buf
    then (do
      e1 ← write32 e (add32 at 0) e.npu.status_word
      e2 ← write32 e1 (add32 at 4) (unsigned32 e.npu.logit0)
      e3 ← write32 e2 (add32 at 8) (unsigned32 e.npu.logit1)
      e4 ← write32 e3 (add32 at 12) e.npu.class_id
      e5 ← write32 e4 (add32 at 16) (unsigned32 e.npu.hidden0)
      write32 e5 (add32 at 20) (unsigned32 e.npu.hidden1))
    else ok e

-- `npu_busy = true` at the start and false at the end: no read of it lies between.
unfoldable pub run_npu : Emu → Outcome Emu
run_npu e = do
  loaded ← load_inputs (record e { npu = record (e.npu) { busy = true } })
  npu ← compute loaded.npu
  stored ← store_outputs (record loaded { npu = npu })
  ok (record stored { npu = record (stored.npu) { busy = false; done_sticky = true } })
