-- ===== src/Rtl/Queue/Round.antt =====
-- A command in rtl/accel/accel_cmdq_frontend_stub.v against a round of emu_cmdq_process of
-- linux/uio/accel_mmio_demo.c.
use risc_v_computer_zybo.Base.{ℕ, ◌%◌, ◌^◌, ◌≡◌, ◌≢◌, arith, Bool, true, false, Ensures}
use risc_v_computer_zybo.Emulator.{Emu, CmdqState}
use risc_v_computer_zybo.Emulator.Cmdq.{entry_count, desc_ptr, retire}
use risc_v_computer_zybo.Rtl.Queue.{
  Frontend, Inputs, slot_count, next_status, enabled, clock, cycles,
}
use risc_v_computer_zybo.Rtl.Queue.Doorbell.{IsIdle}

-- The unit and the emulator are at the same command.
pub record Shows (q : Frontend) (c : CmdqState) : Type 0 where
  pub tail : q.cmdq_tail_shadow ≡ c.tail
  pub processed : q.processed_count ≡ c.processed

-- The queue's registers at the inputs.
pub record Configured (i : Inputs) (c : CmdqState) : Type 0 where
  pub on : i.enable ≡ true
  pub base : i.cmdq_base_offset ≡ c.base_offset
  pub size : i.cmdq_size_bytes ≡ c.size_bytes
  pub head : i.cmdq_head ≡ c.head

slot_count-entry_count :
    (i : Inputs) (c : CmdqState) → i.cmdq_size_bytes ≡ c.size_bytes → slot_count i ≡ entry_count c
unfolding slot_count entry_count
slot_count-entry_count i c h = ground arith

-- The command at the tail is offered to the fetch unit.
pub record Offers (q : Frontend) (e : Emu) : Type 0 where
  pub valid : q.fetch_valid ≡ true
  pub sequence : q.fetch_sequence ≡ e.cmdq.processed
  pub slot : q.fetch_slot ≡ e.cmdq.tail % entry_count e.cmdq % 2 ^ 16
  pub offset : Ensures (λ p. q.fetch_offset ≡ p) (desc_ptr e e.cmdq.tail)

module _ (e : Emu) (i : Inputs) (q : Frontend) (c : Configured i e.cmdq) (s : Shows q e.cmdq) where
  rung-Offers :
      IsIdle q
      → e.cmdq.head ≢ e.cmdq.tail
      → i.cmdq_doorbell ≢ q.last_doorbell
      → Offers (clock i q) e × Shows (clock i q) e.cmdq × ((clock i q).fetch_inflight ≡ false)
  unfolding clock enabled next_status desc_ptr
  rung-Offers z ne bell = (
    record {
      valid = ground arith;
      sequence = ground arith;
      slot = ground (arith, n);
      offset = ground (arith, n);
    },
    record { tail = ground arith; processed = ground arith },
    ground arith,
  )
    where
      n : slot_count i ≡ entry_count e.cmdq
      n = slot_count-entry_count i e.cmdq c.size

  taken :
      q.fetch_valid ≡ true
      → q.fetch_inflight ≡ false
      → i.fetch_ready ≡ true
      → Shows (clock i q) e.cmdq
        × ((clock i q).fetch_valid ≡ false)
        × ((clock i q).fetch_inflight ≡ true)
  unfolding clock enabled next_status
  taken v f r =
      (record { tail = ground arith; processed = ground arith }, ground arith, ground arith)

  retired :
      (good : Bool)
      → q.fetch_valid ≡ false
      → q.fetch_inflight ≡ true
      → i.desc_done ≡ true
      → Shows (clock i q) (retire (entry_count e.cmdq) good e).cmdq × IsIdle (clock i q)
  unfolding clock enabled next_status
  retired good v f d = (
    record { tail = ground (arith, n); processed = ground arith },
    record { valid = ground arith; inflight = ground arith },
  )
    where
      n : slot_count i ≡ entry_count e.cmdq
      n = slot_count-entry_count i e.cmdq c.size

-- From a state between two commands that shows the emulator's tail and count, with the emulator's
-- queue registers at the inputs, the unit enabled and a command waiting, a doorbell with a new value
-- offers in one cycle the emulator's slot, at the address of the emulator's descriptor pointer if
-- that is defined, with the count as its sequence; and when the fetch unit takes it in the second
-- cycle and ends in the third, the unit has the tail and the count that a round of the emulator
-- leaves, and is between two commands again.
pub doorbell-Retired :
    (e : Emu) (i : ℕ → Inputs) (q : Frontend) (good : Bool)
    → ((k : ℕ) → Configured (i k) e.cmdq)
    → Shows q e.cmdq
    → IsIdle q
    → e.cmdq.head ≢ e.cmdq.tail
    → (i 0).cmdq_doorbell ≢ q.last_doorbell
    → (i 1).fetch_ready ≡ true
    → (i 2).desc_done ≡ true
    → Offers (cycles 1 i q) e
      × Shows (cycles 3 i q) (retire (entry_count e.cmdq) good e).cmdq
      × IsIdle (cycles 3 i q)
unfolding cycles
doorbell-Retired e i q good c s z ne bell ready done =
    let a = rung-Offers e (i 0) q (c 0) s z ne bell in
    let b = taken e (i 1) (clock (i 0) q) (c 1) a.1 a.0.valid a.2 ready in
    let d = retired e (i 2) (clock (i 1) (clock (i 0) q)) (c 2) b.0 good b.1 b.2 done in
    (a.0, d.0, d.1)
