-- ===== src/Rtl/Npu/Words.antt =====
-- The words of rtl/accel/npu_v2_stub.v and the integers of linux/uio/accel_mmio_demo.c: the two sums of
-- an inference, and what follows from them.
use risc_v_computer_zybo.Base.{
  ℕ, ◌≡◌, ◌∙◌, refl, sym, ap, arith, Bool-cases, inl, inr, true, false, ◌==◌, if◌then◌else◌,
  Ensures, >>=-Ensures,
}
use risc_v_computer_zybo.Base.Int.{ℤ, pos, negsuc, ◌+ℤ◌, ◌-ℤ◌, ltb_ℤ}
use risc_v_computer_zybo.Word.{add32, sub32, unsigned32, IsInt32}
use risc_v_computer_zybo.Word.Laws.{signed32-unsigned32}
use risc_v_computer_zybo.Emulator.{NpuState}
use risc_v_computer_zybo.Emulator.Npu.{relu, activate, dot4_i8}
use risc_v_computer_zybo.Emulator.Npu.Int32.{int32-IsInt32}
use risc_v_computer_zybo.Bootrom.Npu.Dot.{dot4_packed_i8-dot4_i8}
use risc_v_computer_zybo.Rtl.Npu.{sum, hidden_next, logit_next}

-- Sums and differences of words are those of the integers they stand for.
add32-unsigned32 : (a b : ℤ) → add32 (unsigned32 a) (unsigned32 b) ≡ unsigned32 (a +ℤ b)
unfolding ◌+ℤ◌
add32-unsigned32 (pos a) (pos b) = ground arith
add32-unsigned32 (pos a) (negsuc b) = ground arith
add32-unsigned32 (negsuc a) (pos b) = ground arith
add32-unsigned32 (negsuc a) (negsuc b) = ground arith

sub32-unsigned32 : (a b : ℤ) → sub32 (unsigned32 a) (unsigned32 b) ≡ unsigned32 (a -ℤ b)
unfolding ◌-ℤ◌
sub32-unsigned32 (pos a) (pos b) = ground arith
sub32-unsigned32 (pos a) (negsuc b) = ground arith
sub32-unsigned32 (negsuc a) (pos b) = ground arith
sub32-unsigned32 (negsuc a) (negsuc b) = ground arith

pub sum_lem :
    (i0 i1 wa wb : ℕ) (b : ℤ)
    → sum i0 i1 wa wb (unsigned32 b) ≡ unsigned32 (dot4_i8 i0 wa +ℤ dot4_i8 i1 wb +ℤ b)
unfolding sum
sum_lem i0 i1 wa wb b = rw (
  dot4_packed_i8-dot4_i8 i0 wa,
  dot4_packed_i8-dot4_i8 i1 wb,
  add32-unsigned32 (dot4_i8 i0 wa) (dot4_i8 i1 wb),
  add32-unsigned32 (dot4_i8 i0 wa +ℤ dot4_i8 i1 wb) b,
)

hidden_mlp :
    (m : ℕ) (z : ℤ)
    → (m == 0x81) ≡ true
    → IsInt32 z
    → hidden_next m (unsigned32 z) ≡ unsigned32 (relu z)
unfolding hidden_next
hidden_mlp m z e h = rw (e, signed32-unsigned32 z h.low h.high) (relu_word z)
  where
    relu_word : (z : ℤ) → (if ltb_ℤ z (pos 0) then 0 else unsigned32 z) ≡ unsigned32 (relu z)
    relu_word (pos n) = ground arith
    relu_word (negsuc n) = ground arith

hidden_plain : (m u : ℕ) → (m == 0x81) ≡ false → hidden_next m u ≡ u
unfolding hidden_next
hidden_plain m u e = rw e refl

logit_mlp :
    (m : ℕ) (z0 z1 : ℤ)
    → (m == 0x81) ≡ true
    → IsInt32 z0
    → IsInt32 z1
    → logit_next m (hidden_next m (unsigned32 z0)) (hidden_next m (unsigned32 z1)) (unsigned32 z0)
      ≡ unsigned32 (relu z0 -ℤ relu z1)
unfolding logit_next
logit_mlp m z0 z1 e h0 h1 =
    rw (hidden_mlp m z0 e h0, hidden_mlp m z1 e h1, e) (sub32-unsigned32 (relu z0) (relu z1))

logit_plain : (m a b u : ℕ) → (m == 0x81) ≡ false → logit_next m a b u ≡ u
unfolding logit_next
logit_plain m a b u e = rw e refl

-- What the last cycle computes from the two sums, as the emulator has it.
pub record Activated (m : ℕ) (z0 z1 : ℤ) (n n' : NpuState) : Type 0 where
  pub hidden0 : hidden_next m (unsigned32 z0) ≡ unsigned32 n'.hidden0
  pub hidden1 : hidden_next m (unsigned32 z1) ≡ unsigned32 n'.hidden1
  pub logit0 :
      logit_next m (hidden_next m (unsigned32 z0)) (hidden_next m (unsigned32 z1)) (unsigned32 z0)
      ≡ unsigned32 n'.logit0
  pub logit1 :
      logit_next m (hidden_next m (unsigned32 z1)) (hidden_next m (unsigned32 z0)) (unsigned32 z1)
      ≡ unsigned32 n'.logit1
  pub logit0_IsInt32 : IsInt32 n'.logit0
  pub logit1_IsInt32 : IsInt32 n'.logit1
  pub model_id : n'.model_id ≡ n.model_id
  pub seq_length : n'.seq_length ≡ n.seq_length

pub activate-Activated :
    (m : ℕ) (z0 z1 : ℤ) (n : NpuState)
    → IsInt32 z0
    → IsInt32 z1
    → Ensures (Activated m z0 z1 n) (activate m z0 z1 n)
unfolding activate
activate-Activated m z0 z1 n h0 h1 = elim (Bool-cases (m == 0x81)) [
  | inl mlp ↦ rw mlp (
      >>=-Ensures (λ y. (y ≡ relu z0 -ℤ relu z1) × IsInt32 y) _ _ _
        (int32-IsInt32 (relu z0 -ℤ relu z1))
        λ l0 a.
          >>=-Ensures (λ y. (y ≡ relu z1 -ℤ relu z0) × IsInt32 y) _ _ _
            (int32-IsInt32 (relu z1 -ℤ relu z0))
            λ l1 c. record {
              hidden0 = hidden_mlp m z0 mlp h0;
              hidden1 = hidden_mlp m z1 mlp h1;
              logit0 = logit_mlp m z0 z1 mlp h0 h1 ∙ ap (λ (q : ℤ). unsigned32 q) (sym a.0);
              logit1 = logit_mlp m z1 z0 mlp h1 h0 ∙ ap (λ (q : ℤ). unsigned32 q) (sym c.0);
              logit0_IsInt32 = a.1;
              logit1_IsInt32 = c.1;
              model_id = refl;
              seq_length = refl;
            })
  | inr plain ↦ rw plain (record {
    hidden0 = hidden_plain m (unsigned32 z0) plain;
    hidden1 = hidden_plain m (unsigned32 z1) plain;
    logit0 = logit_plain m _ _ (unsigned32 z0) plain;
    logit1 = logit_plain m _ _ (unsigned32 z1) plain;
    logit0_IsInt32 = h0;
    logit1_IsInt32 = h1;
    model_id = refl;
    seq_length = refl;
  })
]
