-- ===== src/Emulator/Npu/Int32.antt =====
-- The signed results of an inference in linux/uio/accel_mmio_demo.c: each is a value of int32_t, if the
-- inference is defined.
use risc_v_computer_zybo.Base.{ℕ, ◌≡◌, ◌∙◌, ap, arith, Ensures, Ensures-mono, >>=-Ensures}
use risc_v_computer_zybo.Base.Int.{ℤ, ◌+ℤ◌}
use risc_v_computer_zybo.Word.{IsInt32}
use risc_v_computer_zybo.Emulator.Npu.{int32, linear, relu, dot4_i8}

pub int32-IsInt32 : (z : ℤ) → Ensures (λ y. (y ≡ z) × IsInt32 y) (int32 z)
int32-IsInt32 z = ground arith

pub linear-IsInt32 :
    (i0 i1 wa wb : ℕ) (b : ℤ)
    → Ensures (λ z. (z ≡ dot4_i8 i0 wa +ℤ dot4_i8 i1 wb +ℤ b) × IsInt32 z) (linear i0 i1 wa wb b)
unfolding linear
linear-IsInt32 i0 i1 wa wb b =
    >>=-Ensures (λ y. (y ≡ dot4_i8 i0 wa +ℤ dot4_i8 i1 wb) × IsInt32 y) _ _ _
      (int32-IsInt32 (dot4_i8 i0 wa +ℤ dot4_i8 i1 wb))
      λ d h.
        Ensures-mono _ _ (int32 (d +ℤ b)) (λ z k. (k.0 ∙ ap (λ (q : ℤ). q +ℤ b) h.0, k.1))
          (int32-IsInt32 (d +ℤ b))

pub relu-IsInt32 : (z : ℤ) → IsInt32 z → IsInt32 (relu z)
relu-IsInt32 z h = ground arith
