-- ===== src/Host/Reset.antt =====
-- `init`, `sync` and `reset` of the producer.
use risc_v_computer_zybo.Base.{
  ℕ, ◌+◌, ◌/◌, ◌%◌, ◌≤◌, ◌<◌, ◌≡◌, ◌≢◌, ◌⊎◌, inl, inr, refl, true, some, arith, ok, undefined,
  update,
}
use risc_v_computer_zybo.Word.{word}
use risc_v_computer_zybo.Memory.{clear, load_desc, desc_bytes}
use risc_v_computer_zybo.Commands.{zero_desc}
use risc_v_computer_zybo.Queue.{slot_at}
use risc_v_computer_zybo.Memory.Laws.{load_desc-clear, clear_outside}
use risc_v_computer_zybo.Host.Device.{attached, Regs, fake_reg_read, fake_reg_write}
use native.Mathlib.Decide.{dec_lt}
use risc_v_computer_zybo.Host.Push.Refine.{IsReady, entry_count_bounds}
use risc_v_computer_zybo.Host.{
  World, RegRead, RegWrite, Host, success, erange, entry_count, sync, init, reset,
}

module _ {Ctx : Type 0} where
  -- With all four pointers set, the result of `init` does not depend on what the struct held before.
  init_forgets :
      (h k : Host Ctx) (rd : RegRead Ctx) (wr : RegWrite Ctx) (n : ℕ) (w : World Ctx)
      → init (some h) (some rd) (some wr) true n w ≡ init (some k) (some rd) (some wr) true n w
  unfolding init
  init_forgets h k rd wr n w = refl

-- The host once `sync` has read the registers.
abbrev pub configured : Host Regs → World Regs → Host Regs
configured h w = record (attached h) {
  cmdq_base_offset = w.ctx (0xa0 / 4);
  cmdq_size_bytes = w.ctx (0xa4 / 4);
  cached_head = w.ctx (0xa8 / 4);
  cached_tail = w.ctx (0xac / 4);
}

sync_reads :
    (h : Host Regs) (w : World Regs)
    → sync (some (attached h)) w ≡ (success, some (configured h w), w)
unfolding sync fake_reg_read
sync_reads h w = refl

-- What a successful `reset` leaves of the world `w`.
pub record WasReset (h : Host Regs) (w w' : World Regs) : Type 0 where
  pub slots_nop :
      (s : ℕ) → s < entry_count h → load_desc w'.umem (slot_at h.cmdq_base_offset s) ≡ zero_desc
  pub others :
      (a : ℕ)
      → (a < h.cmdq_base_offset) ⊎ (h.cmdq_base_offset + h.cmdq_size_bytes ≤ a)
      → w'.umem a ≡ w.umem a
  pub head_zero : w'.ctx (0xa8 / 4) ≡ 0
  pub tail_zero : w'.ctx (0xac / 4) ≡ 0
  pub doorbell_zero : w'.ctx (0xb0 / 4) ≡ 0
  pub registers : (i : ℕ) → i ≢ 0xa8 / 4 → i ≢ 0xac / 4 → i ≢ 0xb0 / 4 → w'.ctx i ≡ w.ctx i

abbrev reset_world : Host Regs → World Regs → World Regs
reset_world h w = record {
  ctx = update (update (update w.ctx (0xa8 / 4) 0) (0xac / 4) 0) (0xb0 / 4) 0;
  umem = clear w.umem h.cmdq_base_offset h.cmdq_size_bytes;
}

reset-eq :
    (h : Host Regs) (w : World Regs)
    → let c = configured h w in
      (c.cmdq_base_offset + c.cmdq_size_bytes ≤ c.umem_bytes)
      → h.umem_bytes < word
      → reset (some (attached h)) w
        ≡ ok (
          success,
          some (record (configured h w) { cached_head = 0; cached_tail = 0 }),
          reset_world (configured h w) w,
        )
unfolding reset sync fake_reg_read fake_reg_write
reset-eq h w fits mw = ground arith

reset_world-WasReset :
    (h : Host Regs) (w : World Regs)
    → desc_bytes ≤ h.cmdq_size_bytes
    → WasReset h w (reset_world h w)
reset_world-WasReset h w one = record {
  slots_nop = λ s hs.
      load_desc-clear w.umem h.cmdq_base_offset h.cmdq_size_bytes _ (omega arith)
        (omega (arith, entry_count_bounds h one));
  others = λ a. clear_outside w.umem h.cmdq_base_offset h.cmdq_size_bytes a;
  head_zero = refl;
  tail_zero = refl;
  doorbell_zero = refl;
  registers = λ i p q r. ground arith;
}

abbrev pub emptied : Host Regs → World Regs → Host Regs
emptied h w = record (configured h w) { cached_head = 0; cached_tail = 0 }

-- `accel_cmdq_host_reset` over the register file, where the end of the queue is a uint32_t: it
-- returns; 0 if the queue lies in the memory, and then every slot is a NOP descriptor, HEAD, TAIL
-- and DOORBELL are 0, the host is ready, and no other byte or register has changed; else -ERANGE,
-- with the world unchanged.
pub reset_lem :
    (h : Host Regs) (w : World Regs)
    → let c = configured h w in
      desc_bytes ≤ c.cmdq_size_bytes
      → c.cmdq_base_offset + c.cmdq_size_bytes < word
      → c.umem_bytes < word
      → ((w' : World Regs) × (reset (some (attached h)) w ≡ ok (success, some (emptied h w), w'))
          × (c.cmdq_base_offset + c.cmdq_size_bytes ≤ c.umem_bytes)
          × WasReset c w w'
          × IsReady (emptied h w))
        ⊎ ((reset (some (attached h)) w ≡ ok (erange, some c, w))
            × (c.umem_bytes < c.cmdq_base_offset + c.cmdq_size_bytes))
unfolding reset sync fake_reg_read
reset_lem h w one end mw = elim (dec_lt h.umem_bytes (c.cmdq_base_offset + c.cmdq_size_bytes)) [
  | yes out ↦ inr (ground arith, out)
  | no fits ↦ inl (
    reset_world c w,
    reset-eq h w (omega arith) mw,
    omega arith,
    reset_world-WasReset c w one,
    record {
      has_callbacks = λ e. cc;
      in_memory = omega arith;
      memory_word = mw;
      one_entry = one;
      head_in = (entry_count_bounds (emptied h w) one).0;
      tail_in = (entry_count_bounds (emptied h w) one).0;
    },
  )
]
  where
    c : Host Regs
    c = configured h w

-- Where base + size wraps round 2 ^ 32 to an end inside the memory, the bound test of `reset` passes
-- and its `memset` leaves the memory.
pub reset_wraps :
    (h : Host Regs) (w : World Regs)
    → let c = configured h w in
      word ≤ c.cmdq_base_offset + c.cmdq_size_bytes
      → (c.cmdq_base_offset + c.cmdq_size_bytes) % word ≤ c.umem_bytes
      → c.umem_bytes < word
      → reset (some (attached h)) w ≡ undefined
unfolding reset sync fake_reg_read
reset_wraps h w big small mw = ground arith
