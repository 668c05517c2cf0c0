-- ===== src/Emulator/Cmdq/Runnable.antt =====
-- The descriptors that run to their end, and what their execution may write.
use risc_v_computer_zybo.Base.{
  ℕ, ◌+◌, ◌%◌, ◌≤◌, ◌<◌, ◌≡◌, ◌∙◌, ◌⊎◌, arith, Bool, true, false, ◌==◌, Returns, >>=-Returns,
  if◌then◌else◌, ltb,
}
use risc_v_computer_zybo.Word.{signed32, set_bit}
use risc_v_computer_zybo.Word.Bits.{test_bit-set_bit}
use risc_v_computer_zybo.Memory.{Mem, Desc, load32, load_desc}
use risc_v_computer_zybo.Memory.Laws.{store32_other, load32-store32_self}
use risc_v_computer_zybo.Commands.{cmd_npu_infer, cmd_gpu_clear, cmd_gpu_draw_tri}
use risc_v_computer_zybo.Emulator.{Emu, UmemState, umem_bytes}
use risc_v_computer_zybo.Emulator.Umem.{limit_bytes}
use risc_v_computer_zybo.Emulator.Npu.Dot.{Within}
use risc_v_computer_zybo.Emulator.Npu.Infer.{max_bias}
use risc_v_computer_zybo.Emulator.Npu.Total.{is_runtime, IsLoadable, Written, run_npu-Written}
use risc_v_computer_zybo.Emulator.Gpu.Total.{
  frame_start, frame_end, Copied, run_gpu_clear-Copied, run_gpu_draw-Copied,
}
use risc_v_computer_zybo.Emulator.Cmdq.{
  gpu_target, npu_prepared, clear_prepared, draw_prepared, execute_npu_infer, execute_gpu_clear,
  execute_gpu_draw_tri, dispatch, dispatching, done_flags, execute_desc,
}

-- `limit_bytes` by the registers that it depends on.
abbrev pub limit_of : UmemState → ℕ
limit_of u = if ltb u.size_bytes umem_bytes then u.size_bytes else umem_bytes

-- The model that a command asks for, where `model` is the one that is set.
abbrev pub model_of : ℕ → Desc → ℕ
model_of model d = let asked = d.flags % 256 in if asked == 0 then model else asked

-- The memory is split into bytes that commands write and bytes that they do not; the queue is
-- between `lo` and `hi`.
module _ (is_output : ℕ → Bool) (lo hi : ℕ) where
  -- Runtime weights in the memory `m`, with biases that no command writes.
  pub record KeptWeights (u : UmemState) (m : Mem) (at : ℕ) : Type 0 where
    pub weights_in : at + 24 ≤ limit_of u
    pub bias0 : Within max_bias (signed32 (load32 m (at + 16)))
    pub bias1 : Within max_bias (signed32 (load32 m (at + 20)))
    pub no_output : (a : ℕ) → at + 16 ≤ a → a < at + 24 → is_output a ≡ false
    pub no_desc : (a : ℕ) → at + 16 ≤ a → a < at + 24 → (a < lo) ⊎ (hi ≤ a)

  pub record InferFits (u : UmemState) (model : ℕ) (m : Mem) (d : Desc) : Type 0 where
    pub input_in : d.src0 + 8 ≤ limit_of u
    pub output_in : d.dst0 + 24 ≤ limit_of u
    pub output_at : (a : ℕ) → d.dst0 ≤ a → a < d.dst0 + 24 → is_output a ≡ true
    pub weights : is_runtime (model_of model d) ≡ true → KeptWeights u m d.src1

  pub record FrameFits (u : UmemState) (d : Desc) : Type 0 where
    pub frame_in : frame_end (gpu_target d u) ≤ limit_of u
    pub frame_at :
        (a : ℕ)
        → frame_start (gpu_target d u) ≤ a
        → a < frame_end (gpu_target d u)
        → is_output a ≡ true

  -- A descriptor whose buffers fit, under the registers `u`, the set model and the memory `m`.
  pub record IsRunnable (u : UmemState) (model : ℕ) (m : Mem) (d : Desc) : Type 0 where
    pub infer : d.opcode ≡ cmd_npu_infer → InferFits u model m d
    pub clear : d.opcode ≡ cmd_gpu_clear → FrameFits u d
    pub draw : d.opcode ≡ cmd_gpu_draw_tri → FrameFits u d

  abbrev pub OutputsOnly : Mem → Mem → Type 0
  OutputsOnly m m' = (a : ℕ) → is_output a ≡ false → m' a ≡ m a

  execute_npu_infer-OutputsOnly :
      (d : Desc) (e : Emu)
      → e.npu.model_id < 256
      → InferFits e.umem e.npu.model_id e.unified_mem d
      → Returns (λ r. OutputsOnly e.unified_mem r.unified_mem) (execute_npu_infer d e)
  unfolding execute_npu_infer limit_bytes
  execute_npu_infer-OutputsOnly d e small f =
      >>=-Returns (Written d.dst0 (npu_prepared d e)) _ _ _
        (run_npu-Written (npu_prepared d e) loadable) λ ran w a h. w.1 a (outside a h)
    where
      loadable : IsLoadable (npu_prepared d e)
      loadable = record {
        enabled = ground (
          arith,
          test_bit-set_bit (set_bit e.umem.ctrl 0) 1 0,
          test_bit-set_bit (set_bit e.umem.ctrl 0) 1 1,
          test_bit-set_bit e.umem.ctrl 0 0,
        );
        model_byte = ground arith;
        input_in = f.input_in;
        output_in = f.output_in;
        weights = λ h.
            let w = f.weights h in
            record { weights_in = w.weights_in; bias0 = w.bias0; bias1 = w.bias1 };
      }

      outside : (a : ℕ) → is_output a ≡ false → (a < d.dst0) ⊎ (d.dst0 + 24 ≤ a)
      outside a h = ground (arith, f.output_at a)

  frame_outside :
      (u : UmemState) (d : Desc) (a : ℕ)
      → FrameFits u d
      → is_output a ≡ false
      → (a < frame_start (gpu_target d u)) ⊎ (frame_end (gpu_target d u) ≤ a)
  frame_outside u d a f h = ground (arith, f.frame_at a)

  execute_gpu_clear-OutputsOnly :
      (d : Desc) (e : Emu)
      → FrameFits e.umem d
      → Returns (λ r. OutputsOnly e.unified_mem r.unified_mem) (execute_gpu_clear d e)
  unfolding execute_gpu_clear limit_bytes
  execute_gpu_clear-OutputsOnly d e f =
      >>=-Returns (Copied (clear_prepared d e)) _ _ _
        (run_gpu_clear-Copied (clear_prepared d e) f.frame_in)
        λ ran c a h. c.1 a (frame_outside e.umem d a f h)

  execute_gpu_draw_tri-OutputsOnly :
      (d : Desc) (e : Emu)
      → FrameFits e.umem d
      → Returns (λ r. OutputsOnly e.unified_mem r.unified_mem) (execute_gpu_draw_tri d e)
  unfolding execute_gpu_draw_tri limit_bytes
  execute_gpu_draw_tri-OutputsOnly d e f =
      >>=-Returns (Copied (draw_prepared d e)) _ _ _
        (run_gpu_draw-Copied (draw_prepared d e) f.frame_in)
        λ ran c a h. c.1 a (frame_outside e.umem d a f h)

  dispatch-OutputsOnly :
      (d : Desc) (e : Emu)
      → e.npu.model_id < 256
      → IsRunnable e.umem e.npu.model_id e.unified_mem d
      → Returns (λ r. OutputsOnly e.unified_mem r.0.unified_mem) (dispatch d e)
  unfolding dispatch
  dispatch-OutputsOnly d e small r = ground (
    arith,
    λ (h : d.opcode ≡ cmd_npu_infer). execute_npu_infer-OutputsOnly d e small (r.infer h),
    λ (h : d.opcode ≡ cmd_gpu_clear). execute_gpu_clear-OutputsOnly d e (r.clear h),
    λ (h : d.opcode ≡ cmd_gpu_draw_tri). execute_gpu_draw_tri-OutputsOnly d e (r.draw h),
  )

  -- Besides outputs, an execution changes the upper bits of its descriptor's flags.
  pub record Kept (p : ℕ) (m m' : Mem) : Type 0 where
    pub others : (a : ℕ) → is_output a ≡ false → (a < p + 4) ⊎ (p + 8 ≤ a) → m' a ≡ m a
    pub model_bits : load32 m' (p + 4) % 256 ≡ load32 m (p + 4) % 256

  pub execute_desc-Kept :
      (e : Emu) (p : ℕ)
      → e.npu.model_id < 256
      → IsRunnable e.umem e.npu.model_id e.unified_mem (load_desc e.unified_mem p)
      → Returns (λ r. Kept p e.unified_mem r.0.unified_mem) (execute_desc e p)
  unfolding execute_desc load_desc
  execute_desc-Kept e p small r =
      >>=-Returns (λ s. OutputsOnly e.unified_mem s.0.unified_mem) _ _ _
        (dispatch-OutputsOnly (load_desc e.unified_mem p)
          (dispatching (load_desc e.unified_mem p) e) small r)
        λ s o. record {
          others = λ a h q. store32_other s.0.unified_mem (p + 4) _ a (omega arith) ∙ o a h;
          model_bits = grind (
            arith,
            load32-store32_self s.0.unified_mem (p + 4)
                (done_flags (load32 e.unified_mem (p + 4)) s.1),
          );
        }
