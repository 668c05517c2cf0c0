-- ===== src/Emulator/Npu/Output.antt =====
-- What an inference leaves in its output buffer.
use risc_v_computer_zybo.Base.{
  ℕ, ◌+◌, ◌≤◌, ◌<◌, ◌≡◌, refl, arith, true, false, ok, Returns, >>=-Returns,
}
use risc_v_computer_zybo.Base.Int.{ℤ}
use risc_v_computer_zybo.Word.{word, unsigned32}
use risc_v_computer_zybo.Memory.{Mem, load32, store32}
use risc_v_computer_zybo.Memory.Laws.{load32-store32_self, load32-store32_other}
use risc_v_computer_zybo.Emulator.{Emu, NpuState}
use risc_v_computer_zybo.Emulator.Umem.{limit_bytes, write32-add32, enabled_with, bit_npu_use_buf}
use risc_v_computer_zybo.Emulator.Npu.{store_outputs, run_npu}
use risc_v_computer_zybo.Emulator.Npu.Infer.{Inferred}
use risc_v_computer_zybo.Emulator.Npu.Total.{
  started, started-IsLoadable, IsLoadable, Loaded, load_inputs-Loaded, compute-Returns,
}

-- The six words of `accel_umem_npu_output_t` at an offset.
pub record HoldsOutputs (m : Mem) (at : ℕ) (n : NpuState) : Type 0 where
  pub status : load32 m at ≡ n.status_word
  pub logit0 : load32 m (at + 4) ≡ unsigned32 n.logit0
  pub logit1 : load32 m (at + 8) ≡ unsigned32 n.logit1
  pub class_id : load32 m (at + 12) ≡ n.class_id
  pub hidden0 : load32 m (at + 16) ≡ unsigned32 n.hidden0
  pub hidden1 : load32 m (at + 20) ≡ unsigned32 n.hidden1

unsigned32-lt : (z : ℤ) → unsigned32 z < word
unsigned32-lt z = ground arith

module _ (e : Emu) (fits : e.umem.npu_output_offset + 24 ≤ limit_bytes e) where
  outputs : Mem
  outputs =
      let n = e.npu in
      let m1 = store32 e.unified_mem (e.umem.npu_output_offset + 0) n.status_word in
      let m2 = store32 m1 (e.umem.npu_output_offset + 4) (unsigned32 n.logit0) in
      let m3 = store32 m2 (e.umem.npu_output_offset + 8) (unsigned32 n.logit1) in
      let m4 = store32 m3 (e.umem.npu_output_offset + 12) n.class_id in
      let m5 = store32 m4 (e.umem.npu_output_offset + 16) (unsigned32 n.hidden0) in
      store32 m5 (e.umem.npu_output_offset + 20) (unsigned32 n.hidden1)

  store_outputs-eq :
      enabled_with e.umem.ctrl bit_npu_use_buf ≡ true
      → store_outputs e ≡ ok (record e { unified_mem = outputs })
  unfolding store_outputs outputs limit_bytes
  store_outputs-eq on =
      let u = e.umem.npu_output_offset in
      let n = e.npu in
      let e1 : Emu = record e { unified_mem = store32 e.unified_mem (u + 0) n.status_word } in
      let e2 : Emu = record e1 {
        unified_mem = store32 e1.unified_mem (u + 4) (unsigned32 n.logit0);
      } in
      let e3 : Emu = record e2 {
        unified_mem = store32 e2.unified_mem (u + 8) (unsigned32 n.logit1);
      } in
      let e4 : Emu = record e3 { unified_mem = store32 e3.unified_mem (u + 12) n.class_id } in
      let e5 : Emu = record e4 {
        unified_mem = store32 e4.unified_mem (u + 16) (unsigned32 n.hidden0);
      } in
      rw
        (
          on,
          write32-add32 e u 0 n.status_word (omega arith),
          write32-add32 e1 u 4 (unsigned32 n.logit0) (omega arith),
          write32-add32 e2 u 8 (unsigned32 n.logit1) (omega arith),
          write32-add32 e3 u 12 n.class_id (omega arith),
          write32-add32 e4 u 16 (unsigned32 n.hidden0) (omega arith),
          write32-add32 e5 u 20 (unsigned32 n.hidden1) (omega arith),
        )
        refl

  outputs-HoldsOutputs :
      e.npu.status_word < word
      → e.npu.class_id < word
      → HoldsOutputs outputs e.umem.npu_output_offset e.npu
  unfolding outputs
  outputs-HoldsOutputs small class_small = record {
    status = grind (arith, load32-store32_self, load32-store32_other);
    logit0 = grind (arith, load32-store32_self, load32-store32_other, unsigned32-lt e.npu.logit0);
    logit1 = grind (arith, load32-store32_self, load32-store32_other, unsigned32-lt e.npu.logit1);
    class_id = grind (arith, load32-store32_self, load32-store32_other);
    hidden0 = grind (arith, load32-store32_self, load32-store32_other, unsigned32-lt e.npu.hidden0);
    hidden1 = grind (arith, load32-store32_self, load32-store32_other, unsigned32-lt e.npu.hidden1);
  }

-- An inference with its buffers enabled and in the memory and moderate biases returns, done and not
-- busy, and its six results are read back from the output buffer.
pub run_npu-HoldsOutputs :
    (e : Emu)
    → IsLoadable e
    → Returns
        (λ e'.
          HoldsOutputs e'.unified_mem e.umem.npu_output_offset e'.npu
          × (e'.npu.done_sticky ≡ true)
          × (e'.npu.busy ≡ false))
        (run_npu e)
unfolding run_npu limit_bytes
run_npu-HoldsOutputs e f =
    >>=-Returns (Loaded (started e)) _ _ _ (load_inputs-Loaded (started e) (started-IsLoadable e f))
      λ loaded l.
        >>=-Returns (Inferred loaded.npu) _ _ _
          (compute-Returns (started e) loaded (started-IsLoadable e f) l)
          λ npu i.
            rw
              (store_outputs-eq (record loaded { npu = npu }) (rw l.umem f.output_in)
                (rw l.umem f.enabled))
              (let o =
                  outputs-HoldsOutputs (record loaded { npu = npu }) (rw l.umem f.output_in)
                    i.status_word32 (omega (arith, i.class_small)) in
                (
                  rw⁻¹ l.umem (record {
                    status = o.status;
                    logit0 = o.logit0;
                    logit1 = o.logit1;
                    class_id = o.class_id;
                    hidden0 = o.hidden0;
                    hidden1 = o.hidden1;
                  }),
                  refl,
                  refl,
                ))
