-- ===== src/Emulator/Npu/Total.antt =====
-- `emu_run_npu` with buffers that fit the memory.
use risc_v_computer_zybo.Base.{
  ℕ, ◌+◌, ◌≤◌, ◌<◌, ◌≡◌, ◌∙◌, ◌⊎◌, refl, ap, arith, Bool, true, ◌||◌, ◌==◌, Returns, Returns-mono,
  >>=-Returns, Bool-cases, inl, inr,
}
use risc_v_computer_zybo.Word.{unsigned32, add32, signed32}
use risc_v_computer_zybo.Memory.{load32}
use risc_v_computer_zybo.Memory.Laws.{store32_other}
use risc_v_computer_zybo.Emulator.{Emu, NpuState, npu_model_runtime, npu_model_runtime_mlp}
use risc_v_computer_zybo.Emulator.Umem.{
  limit_bytes, limit_bytes-le, read32, word_ptr, write32, read32-add32, write32-add32, enabled_with,
  bit_npu_use_buf,
}
use risc_v_computer_zybo.Emulator.Npu.{
  load_weights, load_inputs, select_weights, compute, store_outputs, run_npu,
}
use risc_v_computer_zybo.Emulator.Npu.Dot.{Within}
use risc_v_computer_zybo.Emulator.Npu.Infer.{max_bias, Inferred, compute_lem}

abbrev pub is_runtime : ℕ → Bool
is_runtime model = model == npu_model_runtime || model == npu_model_runtime_mlp

-- The runtime weights at an offset: inside the limit, with biases that cannot overflow.
pub record WeightsFit (e : Emu) (at : ℕ) : Type 0 where
  pub weights_in : at + 24 ≤ limit_bytes e
  pub bias0 : Within max_bias (signed32 (load32 e.unified_mem (at + 16)))
  pub bias1 : Within max_bias (signed32 (load32 e.unified_mem (at + 20)))

-- The buffers are used, and fit.
pub record IsLoadable (e : Emu) : Type 0 where
  pub enabled : enabled_with e.umem.ctrl bit_npu_use_buf ≡ true
  pub model_byte : e.npu.model_id < 256
  pub input_in : e.umem.npu_input_offset + 8 ≤ limit_bytes e
  pub output_in : e.umem.npu_output_offset + 24 ≤ limit_bytes e
  pub weights : is_runtime e.npu.model_id ≡ true → WeightsFit e e.umem.npu_weight_offset

pub record Loaded (e e' : Emu) : Type 0 where
  pub umem : e'.umem ≡ e.umem
  pub memory : e'.unified_mem ≡ e.unified_mem
  pub model_id : e'.npu.model_id ≡ e.npu.model_id
  pub bias0 :
      is_runtime e.npu.model_id ≡ true
      → e'.npu.bias0 ≡ load32 e.unified_mem (e.umem.npu_weight_offset + 16)
  pub bias1 :
      is_runtime e.npu.model_id ≡ true
      → e'.npu.bias1 ≡ load32 e.unified_mem (e.umem.npu_weight_offset + 20)

load_weights-Loaded : (e : Emu) → IsLoadable e → Returns (Loaded e) (load_weights e)
unfolding load_weights read32 word_ptr
load_weights-Loaded e f = ground (arith, limit_bytes-le e)

pub load_inputs-Loaded : (e : Emu) → IsLoadable e → Returns (Loaded e) (load_inputs e)
unfolding load_inputs limit_bytes
load_inputs-Loaded e f =
    rw
      (
        f.enabled,
        read32-add32 e at 0 (omega (arith, f.input_in)),
        read32-add32 e at 4 (omega (arith, f.input_in)),
      )
      (Returns-mono (Loaded fed) (Loaded e) (load_weights fed)
        (λ e' l. record {
          umem = l.umem;
          memory = l.memory;
          model_id = l.model_id;
          bias0 = l.bias0;
          bias1 = l.bias1;
        })
        (load_weights-Loaded fed fed-IsLoadable))
  where
    at : ℕ
    at = e.umem.npu_input_offset

    fed : Emu
    fed = record e {
      npu = record (e.npu) {
        input0 = load32 e.unified_mem (at + 0);
        input1 = load32 e.unified_mem (at + 4);
      };
    }

    fed-IsLoadable : IsLoadable fed
    fed-IsLoadable = record {
      enabled = f.enabled;
      model_byte = f.model_byte;
      input_in = f.input_in;
      output_in = f.output_in;
      weights = λ h.
          let w = f.weights h in
          record { weights_in = w.weights_in; bias0 = w.bias0; bias1 = w.bias1 };
    }

pub compute-Returns :
    (e e' : Emu) → IsLoadable e → Loaded e e' → Returns (Inferred e'.npu) (compute e'.npu)
unfolding select_weights
compute-Returns e e' f l =
    compute_lem e'.npu (omega (arith, l.model_id, f.model_byte))
      (ground (arith, f.weights, l.bias0, l.model_id))
      (ground (arith, f.weights, l.bias1, l.model_id))

-- Nothing outside the 24 bytes at an offset has changed.
abbrev pub OnlyOutputs : ℕ → Emu → Emu → Type 0
OnlyOutputs at e e' = (a : ℕ) → (a < at) ⊎ (at + 24 ≤ a) → e'.unified_mem a ≡ e.unified_mem a

-- The state after some writes to the buffer at `at`, from `e0` on.
abbrev pub Written : ℕ → Emu → Emu → Type 0
Written at e0 e = (e.umem ≡ e0.umem) × OnlyOutputs at e0 e

write_output :
    (at : ℕ) (e0 : Emu) (k v : ℕ) (e : Emu)
    → at + 24 ≤ limit_bytes e0
    → k + 4 ≤ 24
    → Written at e0 e
    → Returns (Written at e0) (write32 e (add32 at k) v)
unfolding limit_bytes
write_output at e0 k v e fits small w =
    rw (write32-add32 e at k v (rw w.0 (omega arith)))
      (w.0, λ a h. store32_other e.unified_mem (at + k) v a (around a h) ∙ w.1 a h)
  where
    around : (a : ℕ) → (a < at) ⊎ (at + 24 ≤ a) → (a < at + k) ⊎ (at + k + 4 ≤ a)
    around a h = omega arith

store_outputs-Written :
    (e : Emu)
    → e.umem.npu_output_offset + 24 ≤ limit_bytes e
    → Returns (Written e.umem.npu_output_offset e) (store_outputs e)
unfolding store_outputs
store_outputs-Written e fits = elim (Bool-cases (enabled_with e.umem.ctrl bit_npu_use_buf)) [
  | inl on ↦ rw on (
      >>=-Returns W W _ _
        (write_output at e 0 e.npu.status_word e fits (omega arith) (refl, λ a q. refl))
        λ e1 w1.
          >>=-Returns W W _ _
            (write_output at e 4 (unsigned32 e.npu.logit0) e1 fits (omega arith) w1)
            λ e2 w2.
              >>=-Returns W W _ _
                (write_output at e 8 (unsigned32 e.npu.logit1) e2 fits (omega arith) w2)
                λ e3 w3.
                  >>=-Returns W W _ _ (write_output at e 12 e.npu.class_id e3 fits (omega arith) w3)
                    λ e4 w4.
                      >>=-Returns W W _ _
                        (write_output at e 16 (unsigned32 e.npu.hidden0) e4 fits (omega arith) w4)
                        λ e5 w5.
                          write_output at e 20 (unsigned32 e.npu.hidden1) e5 fits (omega arith) w5)
  | inr off ↦ rw off (refl, λ a q. refl)
]
  where
    at : ℕ
    at = e.umem.npu_output_offset

    W : Emu → Type 0
    W = Written at e

-- The state once the unit is busy.
abbrev pub started : Emu → Emu
started e = record e { npu = record (e.npu) { busy = true } }

pub started-IsLoadable : (e : Emu) → IsLoadable e → IsLoadable (started e)
unfolding limit_bytes
started-IsLoadable e f = record {
  enabled = f.enabled;
  model_byte = f.model_byte;
  input_in = f.input_in;
  output_in = f.output_in;
  weights = λ h.
      let w = f.weights h in record { weights_in = w.weights_in; bias0 = w.bias0; bias1 = w.bias1 };
}

-- An inference with its buffers in the memory returns, and writes the 24 bytes of its output alone.
pub run_npu-Written :
    (e : Emu) → IsLoadable e → Returns (Written e.umem.npu_output_offset e) (run_npu e)
unfolding run_npu limit_bytes
run_npu-Written e f =
    >>=-Returns (Loaded (started e)) (Written at e) _ _
      (load_inputs-Loaded (started e) (started-IsLoadable e f))
      λ loaded l.
        >>=-Returns (Inferred loaded.npu) (Written at e) _ _
          (compute-Returns (started e) loaded (started-IsLoadable e f) l)
          λ npu i.
            >>=-Returns (Written at e) (Written at e) _ _ (stored loaded npu l) λ s w. (w.0, w.1)
  where
    at : ℕ
    at = e.umem.npu_output_offset

    stored :
        (loaded : Emu) (npu : NpuState)
        → Loaded (started e) loaded
        → Returns (Written at e) (store_outputs (record loaded { npu = npu }))
    stored loaded npu l =
        Returns-mono (Written loaded.umem.npu_output_offset (record loaded { npu = npu }))
          (Written at e) _
          (λ s w. (w.0 ∙ l.umem, λ a h. w.1 a (rw l.umem h) ∙ ap (λ m. m a) l.memory))
          (store_outputs-Written (record loaded { npu = npu }) (rw l.umem f.output_in))
