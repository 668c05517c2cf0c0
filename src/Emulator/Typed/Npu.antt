-- ===== src/Emulator/Typed/Npu.antt =====
-- An inference keeps every integer field in its type.
use risc_v_computer_zybo.Base.{
  ℕ, ◌<◌, arith, Outcome, ok, Ensures, >>=-Ensures, if-both, ◌>>=◌, ◌≡◌, ◌==◌,
}
use risc_v_computer_zybo.Base.Int.{ℤ, ◌+ℤ◌, ◌-ℤ◌}
use risc_v_computer_zybo.Word.{word, IsInt32}
use risc_v_computer_zybo.Emulator.{Emu, NpuState, npu_model_runtime_mlp}
use risc_v_computer_zybo.Emulator.Umem.{read32, write32}
use risc_v_computer_zybo.Emulator.Npu.{
  load_weights, load_inputs, compute, store_outputs, run_npu, activate, classify, relu, dot4_i8,
  select_weights,
}
use risc_v_computer_zybo.Emulator.Npu.Int32.{int32-IsInt32, linear-IsInt32, relu-IsInt32}
use risc_v_computer_zybo.Emulator.Typed.{NpuTyped, Typed, read32-word, write32-Typed}

-- A word that is read, and what follows.
reading :
    {B : Type 0} (Q : B → Type 0) (e : Emu) (at : ℕ) (next : ℕ → Outcome B)
    → Typed e
    → ((v : ℕ) → v < word → Ensures Q (next v))
    → Ensures Q (read32 e at >>= next)
reading Q e at next t k = >>=-Ensures (λ v. v < word) Q (read32 e at) next (read32-word e at t) k

writing :
    (e : Emu) (at v : ℕ) (next : Emu → Outcome Emu)
    → Typed e
    → ((e' : Emu) → Typed e' → Ensures Typed (next e'))
    → Ensures Typed (write32 e at v >>= next)
writing e at v next t k = >>=-Ensures Typed Typed (write32 e at v) next (write32-Typed e at v t) k

load_weights-Typed : (e : Emu) → Typed e → Ensures Typed (load_weights e)
unfolding load_weights
load_weights-Typed e t =
    if-both (Ensures Typed) _ _ (ok e)
      (reading Typed e _ _ t λ w0a a. reading Typed e _ _ t λ w0b b. reading Typed e _ _ t λ w1a c.
        reading Typed e _ _ t
          λ w1b d. reading Typed e _ _ t λ b0 f. reading Typed e _ _ t λ b1 g. ground arith)
      t

load_inputs-Typed : (e : Emu) → Typed e → Ensures Typed (load_inputs e)
unfolding load_inputs
load_inputs-Typed e t =
    if-both (Ensures Typed) _ _ (ok e)
      (reading Typed e _ _ t
        λ i0 a. reading Typed e _ _ t λ i1 b. load_weights-Typed _ (ground arith))
      t

store_outputs-Typed : (e : Emu) → Typed e → Ensures Typed (store_outputs e)
unfolding store_outputs
store_outputs-Typed e t =
    if-both (Ensures Typed) _ _ (ok e)
      (writing e _ _ _ t λ e1 t1. writing e1 _ _ _ t1 λ e2 t2.
        writing e2 _ _ _ t2 λ e3 t3.
          writing e3 _ _ _ t3 λ e4 t4. writing e4 _ _ _ t4 λ e5 t5. write32-Typed e5 _ _ t5)
      t

classify-NpuTyped : (n : NpuState) → NpuTyped n → NpuTyped (classify n)
unfolding classify
classify-NpuTyped n t = ground arith

activate-NpuTyped :
    (m : ℕ) (linear0 linear1 : ℤ) (n : NpuState)
    → IsInt32 linear0
    → IsInt32 linear1
    → NpuTyped n
    → Ensures NpuTyped (activate m linear0 linear1 n)
unfolding activate
activate-NpuTyped m linear0 linear1 n h0 h1 t =
    if-both (Ensures NpuTyped) (m == npu_model_runtime_mlp) _ _
      (>>=-Ensures (λ y. (y ≡ relu linear0 -ℤ relu linear1) × IsInt32 y) NpuTyped _ _
        (int32-IsInt32 (relu linear0 -ℤ relu linear1))
        λ l0 a.
          >>=-Ensures (λ y. (y ≡ relu linear1 -ℤ relu linear0) × IsInt32 y) NpuTyped _ _
            (int32-IsInt32 (relu linear1 -ℤ relu linear0))
            λ l1 c.
              with_results n (relu linear0) (relu linear1) l0 l1 t (relu-IsInt32 linear0 h0)
                (relu-IsInt32 linear1 h1) a.1 c.1)
      (with_results n linear0 linear1 linear0 linear1 t h0 h1 h0 h1)
  where
    with_results :
        (n : NpuState) (hidden0 hidden1 logit0 logit1 : ℤ)
        → NpuTyped n
        → IsInt32 hidden0
        → IsInt32 hidden1
        → IsInt32 logit0
        → IsInt32 logit1
        → NpuTyped
            (record n { hidden0 = hidden0; hidden1 = hidden1; logit0 = logit0; logit1 = logit1 })
    with_results n hidden0 hidden1 logit0 logit1 t h0 h1 l0 l1 = ground arith

compute-NpuTyped : (n : NpuState) → NpuTyped n → Ensures NpuTyped (compute n)
unfolding compute
compute-NpuTyped n t =
    let w = select_weights n n.model_id in
    >>=-Ensures
      (λ z.
        (z ≡ dot4_i8 n.input0 w.weight0_a +ℤ dot4_i8 n.input1 w.weight0_b +ℤ w.bias0) × IsInt32 z)
      NpuTyped _ _ (linear-IsInt32 n.input0 n.input1 w.weight0_a w.weight0_b w.bias0)
      λ linear0 h0.
        >>=-Ensures
          (λ z.
            (z ≡ dot4_i8 n.input0 w.weight1_a +ℤ dot4_i8 n.input1 w.weight1_b +ℤ w.bias1)
            × IsInt32 z)
          NpuTyped _ _ (linear-IsInt32 n.input0 n.input1 w.weight1_a w.weight1_b w.bias1)
          λ linear1 h1.
            >>=-Ensures NpuTyped NpuTyped _ _
              (activate-NpuTyped n.model_id linear0 linear1 n h0.1 h1.1 t) classify-NpuTyped

pub run_npu-Typed : (e : Emu) → Typed e → Ensures Typed (run_npu e)
unfolding run_npu
run_npu-Typed e t = >>=-Ensures Typed Typed _ _ (load_inputs-Typed _ (ground arith)) λ loaded s.
    >>=-Ensures NpuTyped Typed _ _ (compute-NpuTyped loaded.npu s.npu) λ npu m.
      >>=-Ensures Typed Typed _ _ (store_outputs-Typed (record loaded { npu = npu }) (ground arith))
        λ stored b. ground arith
