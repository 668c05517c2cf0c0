-- ===== src/Emulator/Npu/Infer.antt =====
-- The arithmetic of `emu_run_npu` and the values of a model over the integers.
use risc_v_computer_zybo.Base.{
  ℕ, ◌+◌, ◌-◌, ◌*◌, ◌%◌, ◌^◌, ◌≤◌, ◌<◌, ◌≡◌, refl, arith, ok, Returns, ◌==◌, if◌then◌else◌,
  Bool-cases, inl, inr,
}
use risc_v_computer_zybo.Base.Int.{ℤ, ◌+ℤ◌, ◌-ℤ◌, ltb_ℤ}
use risc_v_computer_zybo.Word.{word, byte_of}
use risc_v_computer_zybo.Emulator.{NpuState, npu_model_runtime_mlp}
use risc_v_computer_zybo.Emulator.Npu.{
  dot4_i8, Weights, select_weights, int32, linear, relu, activate, classify, compute,
}
use risc_v_computer_zybo.Emulator.Npu.Dot.{Within, add-Within, dot4_i8_lem}

-- The two dot products leave this much of an int32_t to the bias.
abbrev pub max_bias : ℕ
max_bias = 2 ^ 31 - 1 - 131072

int32-Within : (z : ℤ) → Within (2 ^ 31 - 1) z → int32 z ≡ ok z
int32-Within z h = ground arith

-- The linear value, in ℤ.
abbrev pub linear_value : ℕ → ℕ → ℕ → ℕ → ℤ → ℤ
linear_value input0 input1 weight_a weight_b bias =
    dot4_i8 input0 weight_a +ℤ dot4_i8 input1 weight_b +ℤ bias

linear_lem :
    (input0 input1 weight_a weight_b : ℕ) (bias : ℤ)
    → Within max_bias bias
    → (linear input0 input1 weight_a weight_b bias
        ≡ ok (linear_value input0 input1 weight_a weight_b bias))
      × Within (2 ^ 31 - 1) (linear_value input0 input1 weight_a weight_b bias)
unfolding linear
linear_lem input0 input1 weight_a weight_b bias h = (
  rw (int32-Within dots (omega (arith, dots_in)), int32-Within (dots +ℤ bias) total_in),
  total_in,
)
  where
    dots : ℤ
    dots = dot4_i8 input0 weight_a +ℤ dot4_i8 input1 weight_b

    dots_in : Within 131072 dots
    dots_in =
        add-Within 65536 65536 _ _ (dot4_i8_lem input0 weight_a).1 (dot4_i8_lem input1 weight_b).1

    total_in : Within (2 ^ 31 - 1) (dots +ℤ bias)
    total_in = omega (arith, add-Within 131072 max_bias dots bias dots_in h)

-- The linear values of a state, with the weights of its model.
abbrev pub linear0 : NpuState → ℤ
linear0 n =
    let w = select_weights n n.model_id in
    linear_value n.input0 n.input1 w.weight0_a w.weight0_b w.bias0

abbrev pub linear1 : NpuState → ℤ
linear1 n =
    let w = select_weights n n.model_id in
    linear_value n.input0 n.input1 w.weight1_a w.weight1_b w.bias1

-- The results of an inference on `n`.
pub record Inferred (n n' : NpuState) : Type 0 where
  pub hidden0 :
      n'.hidden0 ≡ (if n.model_id == npu_model_runtime_mlp then relu (linear0 n) else linear0 n)
  pub hidden1 :
      n'.hidden1 ≡ (if n.model_id == npu_model_runtime_mlp then relu (linear1 n) else linear1 n)
  pub logit0 : n'.logit0 ≡ (
      if n.model_id == npu_model_runtime_mlp
      then relu (linear0 n) -ℤ relu (linear1 n)
      else linear0 n)
  pub logit1 : n'.logit1 ≡ (
      if n.model_id == npu_model_runtime_mlp
      then relu (linear1 n) -ℤ relu (linear0 n)
      else linear1 n)
  pub class_id : n'.class_id ≡ (if ltb_ℤ n'.logit0 n'.logit1 then 1 else 0)
  pub tag_byte : byte_of n'.status_word 24 ≡ 0x4E
  pub class_byte : byte_of n'.status_word 16 ≡ n'.class_id
  pub model_byte : byte_of n'.status_word 8 ≡ n.model_id
  pub length_byte : byte_of n'.status_word 0 ≡ n.seq_length % 256
  pub status_word32 : n'.status_word < word
  pub class_small : n'.class_id ≤ 1

relu-sub-Within :
    (a b : ℤ)
    → Within (2 ^ 31 - 1) a
    → Within (2 ^ 31 - 1) b
    → Within (2 ^ 31 - 1) (relu a -ℤ relu b)
unfolding ◌-ℤ◌
relu-sub-Within a b h k = ground arith

activated : ℕ → ℤ → ℤ → NpuState → NpuState
activated m l0 l1 n =
    let mlp = m == npu_model_runtime_mlp in
    record n {
      hidden0 = if mlp then relu l0 else l0;
      hidden1 = if mlp then relu l1 else l1;
      logit0 = if mlp then relu l0 -ℤ relu l1 else l0;
      logit1 = if mlp then relu l1 -ℤ relu l0 else l1;
    }

activate-eq :
    (m : ℕ) (l0 l1 : ℤ) (n : NpuState)
    → Within (2 ^ 31 - 1) l0
    → Within (2 ^ 31 - 1) l1
    → activate m l0 l1 n ≡ ok (activated m l0 l1 n)
unfolding activate activated
activate-eq m l0 l1 n h k = elim (Bool-cases (m == npu_model_runtime_mlp)) [
  | inl mlp ↦ rw (
    mlp,
    int32-Within (relu l0 -ℤ relu l1) (relu-sub-Within l0 l1 h k),
    int32-Within (relu l1 -ℤ relu l0) (relu-sub-Within l1 l0 k h),
  )
  | inr plain ↦ rw plain
]

status_bytes :
    (class model len : ℕ)
    → class ≤ 1
    → model < 256
    → let w = 0x4E * 2 ^ 24 + class * 2 ^ 16 + model * 2 ^ 8 + len % 256 in
      (byte_of w 24 ≡ 0x4E)
      × (byte_of w 16 ≡ class)
      × (byte_of w 8 ≡ model)
      × (byte_of w 0 ≡ len % 256)
status_bytes class model len h k = omega arith

classify-Inferred :
    (n : NpuState)
    → n.model_id < 256
    → Inferred n (classify (activated n.model_id (linear0 n) (linear1 n) n))
unfolding classify activated
classify-Inferred n small =
    let done = activated n.model_id (linear0 n) (linear1 n) n in
    let class : ℕ = if ltb_ℤ done.logit0 done.logit1 then 1 else 0 in
    let class_le : class ≤ 1 = ground arith in
    let bytes = status_bytes class n.model_id n.seq_length (ground arith) small in
    record {
      hidden0 = refl;
      hidden1 = refl;
      logit0 = refl;
      logit1 = refl;
      class_id = refl;
      tag_byte = bytes.0;
      class_byte = bytes.1;
      model_byte = bytes.2;
      length_byte = bytes.3;
      status_word32 = omega (arith, class_le);
      class_small = class_le;
    }

-- With biases of at most `max_bias` the arithmetic of `emu_run_npu` is defined. The hidden values and
-- logits are those of the model, exactly; the class is 1 where the second logit is the greater; and
-- the status word carries the tag, the class, the model and the length.
pub compute_lem :
    (n : NpuState)
    → n.model_id < 256
    → Within max_bias (select_weights n n.model_id).bias0
    → Within max_bias (select_weights n n.model_id).bias1
    → Returns (Inferred n) (compute n)
unfolding compute
compute_lem n small h0 h1 =
    rw (first.0, second.0, activate-eq n.model_id (linear0 n) (linear1 n) n first.1 second.1)
      (classify-Inferred n small)
  where
    w : Weights
    w = select_weights n n.model_id

    first :
        (linear n.input0 n.input1 w.weight0_a w.weight0_b w.bias0 ≡ ok (linear0 n))
        × Within (2 ^ 31 - 1) (linear0 n)
    first = linear_lem n.input0 n.input1 w.weight0_a w.weight0_b w.bias0 h0

    second :
        (linear n.input0 n.input1 w.weight1_a w.weight1_b w.bias1 ≡ ok (linear1 n))
        × Within (2 ^ 31 - 1) (linear1 n)
    second = linear_lem n.input0 n.input1 w.weight1_a w.weight1_b w.bias1 h1
