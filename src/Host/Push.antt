-- ===== src/Host/Push.antt =====
-- The calls of linux/uio/accel_cmdq_host.c that fill the queue and hand it to the device.
pub mod Refine
pub mod Frame
use risc_v_computer_zybo.Base.{
  ℕ, ◌+◌, ◌%◌, Option, none, some, Outcome, ok, undefined, ◌>>=◌, ltb, ◌==◌, if◌then◌else◌,
}
use risc_v_computer_zybo.Word.{add32}
use risc_v_computer_zybo.Memory.{Desc, store_desc, desc_bytes}
use risc_v_computer_zybo.Registers.{Reg, offset}
use risc_v_computer_zybo.Commands.{gpu_clear_desc, gpu_draw_tri_desc, npu_infer_desc}
use risc_v_computer_zybo.Host.{
  World, Host, Code, success, einval, erange, enospc, Ret, entry_count, desc_mut, callbacks,
}

module _ {Ctx : Type 0} where
  -- `*slot = *desc` through the pointer at offset `at`: undefined past the memory.
  abbrev pub store_slot : Host Ctx → World Ctx → ℕ → Desc → Outcome (World Ctx)
  store_slot h w at d =
      if ltb h.umem_bytes (at + desc_bytes)
      then undefined
      else ok (record w { umem = store_desc w.umem at d })

  -- `push` past its NULL tests.
  unfoldable pub push_ready : Host Ctx → Desc → World Ctx → Outcome (Ret Ctx)
  push_ready h d w =
      let next_head = add32 h.cached_head 1 % entry_count h in
      if next_head == h.cached_tail
      then ok (enospc, some h, w)
      else elim (desc_mut h h.cached_head) [
        | none ↦ ok (erange, some h, w)
        | some at ↦ do
          w' ← store_slot h w at d
          ok (success, some (record h { cached_head = next_head }), w')
      ]

  unfoldable pub push : Option (Host Ctx) → Option Desc → World Ctx → Outcome (Ret Ctx)
  unfolding push_ready
  push none d w = ok (einval, none, w)
  push (some h) none w = ok (einval, some h, w)
  push (some h) (some d) w = elim (callbacks h) [
    | none ↦ ok (einval, some h, w)
    | some _ ↦ push_ready h d w
  ]

  unfoldable pub push_gpu_clear : Option (Host Ctx) → ℕ → ℕ → World Ctx → Outcome (Ret Ctx)
  push_gpu_clear host fb_offset clear_value w =
      push host (some (gpu_clear_desc fb_offset clear_value)) w

  unfoldable pub push_gpu_draw_tri :
      Option (Host Ctx) → ℕ → ℕ → ℕ → ℕ → World Ctx → Outcome (Ret Ctx)
  push_gpu_draw_tri host v0 v1 v2 fb_offset w =
      push host (some (gpu_draw_tri_desc v0 v1 v2 fb_offset)) w

  unfoldable pub push_npu_infer :
      Option (Host Ctx) → ℕ → ℕ → ℕ → ℕ → ℕ → World Ctx → Outcome (Ret Ctx)
  push_npu_infer host model_id seq_length input_offset weight_offset output_offset w =
      push host (some (npu_infer_desc model_id seq_length input_offset weight_offset output_offset))
        w

  unfoldable pub submit : Option (Host Ctx) → ℕ → World Ctx → Ret Ctx
  unfolding offset
  submit none doorbell w = (einval, none, w)
  submit (some h) doorbell w = elim h.reg_write [
    | none ↦ (einval, some h, w)
    | some reg_write ↦
        let w1 = reg_write w (offset Reg.umem_cmdq_head) h.cached_head in
        let w2 = reg_write w1 (offset Reg.umem_cmdq_doorbell) doorbell in (success, some h, w2)
  ]
