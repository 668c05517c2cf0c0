-- ===== src/Rtl/Npu.antt =====
-- The inference unit rtl/accel/npu_v2_stub.v, with four units of rtl/peripherals/npu_dot4_i8.v.
-- The inputs and the model are taken at the start; the runtime weights are read at the last cycle.
pub mod Words
pub mod Cycles
pub mod Emulated
use risc_v_computer_zybo.Base.{
  ℕ, zero, suc, ◌+◌, ◌-◌, ◌*◌, ◌%◌, ◌^◌, Bool, true, false, not, ◌&&◌, ◌||◌, ◌==◌, if◌then◌else◌,
}
use risc_v_computer_zybo.Base.Int.{ℤ, pos, ltb_ℤ}
use risc_v_computer_zybo.Word.{word, add32, sub32, signed32}
use risc_v_computer_zybo.Bootrom.Npu.{dot4_packed_i8}

pub record NpuV2 : Type 0 where
  pub busy : Bool
  pub done : Bool
  pub countdown : ℕ
  pub model_id : ℕ
  pub seq_length : ℕ
  pub input_vec0 : ℕ
  pub input_vec1 : ℕ
  pub status_word : ℕ
  pub logit0 : ℕ
  pub logit1 : ℕ
  pub class_id : ℕ
  pub hidden0 : ℕ
  pub hidden1 : ℕ

-- The inputs at a clock edge.
pub record Inputs : Type 0 where
  pub start : Bool
  pub model_id : ℕ
  pub seq_length : ℕ
  pub input_vec0 : ℕ
  pub input_vec1 : ℕ
  pub runtime_weight0_a : ℕ
  pub runtime_weight0_b : ℕ
  pub runtime_weight1_a : ℕ
  pub runtime_weight1_b : ℕ
  pub runtime_bias0 : ℕ
  pub runtime_bias1 : ℕ

pub record Selected : Type 0 where
  pub weight0_a : ℕ
  pub weight0_b : ℕ
  pub weight1_a : ℕ
  pub weight1_b : ℕ
  pub bias0 : ℕ
  pub bias1 : ℕ

-- `case (model_id_q)`; `-32'sd2` is the word `2 ^ 32 - 2`.
unfoldable pub select : ℕ → Inputs → Selected
select model_id i =
    if model_id == 0x02
    then record {
      weight0_a = 0xFFFFFFFF;
      weight0_b = 0x01010101;
      weight1_a = 0x01010101;
      weight1_b = 0xFFFFFFFF;
      bias0 = 2;
      bias1 = word - 2;
    }
    else if model_id == 0x80 || model_id == 0x81
    then record {
      weight0_a = i.runtime_weight0_a;
      weight0_b = i.runtime_weight0_b;
      weight1_a = i.runtime_weight1_a;
      weight1_b = i.runtime_weight1_b;
      bias0 = i.runtime_bias0;
      bias1 = i.runtime_bias1;
    }
    else record {
      weight0_a = 0x01010101;
      weight0_b = 0xFFFFFFFF;
      weight1_a = 0xFFFFFFFF;
      weight1_b = 0x01010101;
      bias0 = 0;
      bias1 = 0;
    }

-- `sum0` and `sum1`, of the two words of a vector.
unfoldable pub sum : ℕ → ℕ → ℕ → ℕ → ℕ → ℕ
sum vec0 vec1 weight_a weight_b bias =
    add32 (add32 (dot4_packed_i8 vec0 weight_a) (dot4_packed_i8 vec1 weight_b)) bias

-- `$signed(...) < 0`
abbrev pub is_negative : ℕ → Bool
is_negative v = ltb_ℤ (signed32 v) (pos 0)

unfoldable pub hidden_next : ℕ → ℕ → ℕ
hidden_next model_id sum = if model_id == 0x81 && is_negative sum then 0 else sum

-- `logit0_next`, of its hidden value, the other one and its sum.
unfoldable pub logit_next : ℕ → ℕ → ℕ → ℕ → ℕ
logit_next model_id hidden other sum = if model_id == 0x81 then sub32 hidden other else sum

abbrev pub class_next : ℕ → ℕ → ℕ
class_next logit0 logit1 = if ltb_ℤ (signed32 logit0) (signed32 logit1) then 0x01 else 0x00

-- The last cycle. The four bytes of the status word are disjoint.
unfoldable pub finish : Inputs → NpuV2 → NpuV2
finish i n =
    let w = select n.model_id i in
    let sum0 = sum n.input_vec0 n.input_vec1 w.weight0_a w.weight0_b w.bias0 in
    let sum1 = sum n.input_vec0 n.input_vec1 w.weight1_a w.weight1_b w.bias1 in
    let hidden0 = hidden_next n.model_id sum0 in
    let hidden1 = hidden_next n.model_id sum1 in
    let logit0 = logit_next n.model_id hidden0 hidden1 sum0 in
    let logit1 = logit_next n.model_id hidden1 hidden0 sum1 in
    let class = class_next logit0 logit1 in
    record n {
      busy = false;
      done = true;
      logit0 = logit0;
      logit1 = logit1;
      class_id = class;
      hidden0 = hidden0;
      hidden1 = hidden1;
      status_word = 0x4E * 2 ^ 24 + class * 2 ^ 16 + n.model_id * 2 ^ 8 + n.seq_length % 256;
    }

abbrev pub quiet : NpuV2 → NpuV2
quiet n = record n { done = false }

-- A clock edge out of reset.
unfoldable pub clock : Inputs → NpuV2 → NpuV2
clock i n =
    if i.start && not n.busy
    then record (quiet n) {
      busy = true;
      countdown = 4;
      model_id = i.model_id;
      seq_length = i.seq_length;
      input_vec0 = i.input_vec0;
      input_vec1 = i.input_vec1;
    }
    else if n.busy
    then (if n.countdown == 0
        then finish i (quiet n)
        else record (quiet n) { countdown = n.countdown - 1 })
    else quiet n

unfoldable pub cycles : ℕ → (ℕ → Inputs) → NpuV2 → NpuV2
cycles zero i n = n
cycles (suc k) i n = cycles k (λ j. i (suc j)) (clock (i 0) n)

-- The registers after `!resetn`.
abbrev pub at_reset : NpuV2
at_reset = record {
  busy = false;
  done = false;
  countdown = 0;
  model_id = 0x01;
  seq_length = 8;
  input_vec0 = 0;
  input_vec1 = 0;
  status_word = 0;
  logit0 = 0;
  logit1 = 0;
  class_id = 0;
  hidden0 = 0;
  hidden1 = 0;
}
