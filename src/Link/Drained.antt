-- ===== src/Link/Drained.antt =====
-- What the device does with the commands that a producer submits.
use mathlib.Core.Path.{subst}
use risc_v_computer_zybo.Base.{
  ℕ, ◌+◌, ◌%◌, ◌<◌, ◌≡◌, ◌≢◌, refl, ap, sym, ◌∙◌, arith, Bool, true, false, some, ok, length,
  Returns, Returns-both, Returns-Ensures, Returns-mono,
}
use risc_v_computer_zybo.Word.{word, test_bit}
use risc_v_computer_zybo.Memory.{Mem}
use risc_v_computer_zybo.Registers.{Reg, offset}
use risc_v_computer_zybo.Registers.Decode.{decode-offset}
use risc_v_computer_zybo.Queue.{pending}
use risc_v_computer_zybo.Queue.Laws.{length-pending}
use risc_v_computer_zybo.Emulator.{Emu}
use risc_v_computer_zybo.Emulator.Umem.{limit_bytes, bit_cmdq_enable}
use risc_v_computer_zybo.Emulator.Cmdq.{refresh_status, process}
use risc_v_computer_zybo.Emulator.Cmdq as Device
use risc_v_computer_zybo.Emulator.Cmdq.Tally.{is_npu, is_gpu, count_opcodes}
use risc_v_computer_zybo.Emulator.Cmdq.Process.{InRing, IsCounting, Processed, process-Processed}
use risc_v_computer_zybo.Emulator.Cmdq.Total.{IsServiceable}
use risc_v_computer_zybo.Emulator.Cmdq.Executes.{InOrder, pending_of, process-InOrder}
use risc_v_computer_zybo.Emulator.Cmdq.Served.{Tallies, process-Tallies}
use risc_v_computer_zybo.Emulator.Regs.{set_queue, write_doorbell, write_reg, reg_write}
use risc_v_computer_zybo.Host.{World, Host, success, entry_count}
use risc_v_computer_zybo.Host.Push.{submit}
use risc_v_computer_zybo.Host.Push.Refine.{IsReady, contents}
use risc_v_computer_zybo.Link.{Device, memory_after, device_write, linked}

-- The device `e` holds the host's queue: the same ring and tail.
pub record Holds (h : Host Device) (w : World Device) (e : Emu) : Type 0 where
  pub device : w.ctx ≡ ok e
  pub base : e.cmdq.base_offset ≡ h.cmdq_base_offset
  pub size : e.cmdq.size_bytes ≡ h.cmdq_size_bytes
  pub tail : e.cmdq.tail ≡ h.cached_tail
  pub enabled : test_bit e.umem.ctrl bit_cmdq_enable ≡ true
  pub counting : IsCounting e.cmdq

-- The device when the doorbell rings.
abbrev pub rung : Mem → ℕ → ℕ → Emu → Emu
rung m head doorbell e = record e {
  unified_mem = m;
  cmdq = record (e.cmdq) {
    head = head;
    doorbell = doorbell;
    status = (refresh_status false (record (e.cmdq) { head = head })).status;
  };
}

-- What the device has done with the contents of the queue.
pub record Consumed (h : Host Device) (doorbell : ℕ) (w : World Device) (e e' : Emu) : Type 0 where
  pub in_order : InOrder (entry_count h) (contents h w) (rung w.umem h.cached_head doorbell e) e'
  pub emptied : e'.cmdq.tail ≡ h.cached_head
  pub processed : e'.cmdq.processed ≡ (e.cmdq.processed + length (contents h w)) % word
  pub npu :
      e'.cmdq.dispatch_npu_count % word
      ≡ (e.cmdq.dispatch_npu_count + count_opcodes is_npu (contents h w)) % word
  pub gpu :
      e'.cmdq.dispatch_gpu_count % word
      ≡ (e.cmdq.dispatch_gpu_count + count_opcodes is_gpu (contents h w)) % word

device_write-eq :
    (w : World Device) (e : Emu) (at v : ℕ)
    → w.ctx ≡ ok e
    → device_write w at v ≡ (
        let r = reg_write (record e { unified_mem = w.umem }) at v in
        record w { ctx = r; umem = memory_after r w.umem })
unfolding device_write
device_write-eq w e at v h = rw h refl

write_head :
    (e : Emu) (v : ℕ)
    → reg_write e (offset Reg.umem_cmdq_head) v ≡ ok (set_queue e (record (e.cmdq) { head = v }))
unfolding reg_write write_reg
write_head e v = rw (decode-offset Reg.umem_cmdq_head, reg_write) refl

write_bell :
    (e : Emu) (v : ℕ)
    → test_bit e.umem.ctrl bit_cmdq_enable ≡ true
    → v ≢ 0
    → reg_write e (offset Reg.umem_cmdq_doorbell) v
      ≡ process (record e { cmdq = record (e.cmdq) { doorbell = v } })
unfolding reg_write write_reg write_doorbell
write_bell e v h ne = rw (decode-offset Reg.umem_cmdq_doorbell, reg_write) (ground arith)

-- The two register writes of `submit`.
submit-process :
    (h : Host Device) (doorbell : ℕ) (w : World Device) (e : Emu)
    → Holds h w e
    → doorbell ≢ 0
    → let (code, _, w') = submit (some (linked h)) doorbell w in
      (code ≡ success) × (w'.ctx ≡ process (rung w.umem h.cached_head doorbell e))
unfolding submit refresh_status
submit-process h doorbell w e a ne = (
  refl,
  rw
      (
        device_write-eq w e (offset Reg.umem_cmdq_head) h.cached_head a.device,
        write_head (record e { unified_mem = w.umem }) h.cached_head,
      )
      (ap (λ x. x.ctx) (device_write-eq _ _ (offset Reg.umem_cmdq_doorbell) doorbell refl)
        ∙ write_bell _ doorbell a.enabled ne),
)

same_count :
    (h : Host Device) (w : World Device) (e : Emu)
    → Holds h w e
    → Device.entry_count e.cmdq ≡ entry_count h
unfolding Device.entry_count entry_count
same_count h w e a = rw a.size refl

module _ (is_output : ℕ → Bool) (h : Host Device) (doorbell : ℕ) (w : World Device) (e : Emu)
    (ready : IsReady h) (a : Holds h w e)
    (v : IsServiceable is_output
      (Device.entry_count e.cmdq)
      (record e { unified_mem = w.umem })) where
  rung-IsServiceable :
      IsServiceable is_output
        (Device.entry_count (rung w.umem h.cached_head doorbell e).cmdq)
        (rung w.umem h.cached_head doorbell e)
  unfolding limit_bytes Device.entry_count
  rung-IsServiceable = record {
    count = refl;
    positive = v.positive;
    queue_in = v.queue_in;
    queue_kept = v.queue_kept;
    model_byte = v.model_byte;
    slots = v.slots;
  }

  rung-InRing :
      InRing
        (Device.entry_count (rung w.umem h.cached_head doorbell e).cmdq)
        (rung w.umem h.cached_head doorbell e).cmdq
  unfolding Device.entry_count
  rung-InRing = record {
    count = refl;
    size_word = omega (arith, a.size, ready.in_memory, ready.memory_word);
    tail_in = subst (λ n. e.cmdq.tail < n) (sym (same_count h w e a)) (rw a.tail ready.tail_in);
    head_in = subst (λ n. h.cached_head < n) (sym (same_count h w e a)) ready.head_in;
  }

  rung-IsCounting : IsCounting (rung w.umem h.cached_head doorbell e).cmdq
  rung-IsCounting = record {
    processed_word = a.counting.processed_word;
    errors_word = a.counting.errors_word;
  }

  contents_held :
      contents h w
      ≡ pending w.umem e.cmdq.base_offset (Device.entry_count e.cmdq) e.cmdq.tail h.cached_head
  unfolding entry_count Device.entry_count
  contents_held = rw (a.base, a.tail, same_count h w e a) refl

  consumed :
      (e' : Emu)
      → Processed (rung w.umem h.cached_head doorbell e) e'
      → Tallies
          (Device.entry_count (rung w.umem h.cached_head doorbell e).cmdq)
          (rung w.umem h.cached_head doorbell e)
          e'
      → InOrder
          (Device.entry_count e.cmdq)
          (pending_of (Device.entry_count e.cmdq) (rung w.umem h.cached_head doorbell e))
          (rung w.umem h.cached_head doorbell e)
          e'
      → Consumed h doorbell w e e'
  unfolding Device.entry_count
  consumed e' q t o = record {
    in_order = rw (contents_held, sym (same_count h w e a)) o;
    emptied = q.empty;
    processed = rw (contents_held, length-pending) q.processed;
    npu = rw contents_held t.npu;
    gpu = rw contents_held t.gpu;
  }

  -- A ready producer whose callbacks reach a device with the same ring, its queue enabled and
  -- serviceable: `submit` with a doorbell other than 0 returns 0, and by then the device has returned
  -- and executed the descriptors that were pushed and not yet consumed, in the order of the pushes and
  -- no other. The tail has reached the producer's head, and modulo 2 ^ 32 the counts of processed, NPU
  -- and GPU commands went up by those of the contents.
  pub submit-Consumed :
      doorbell ≢ 0
      → let (code, _, w') = submit (some (linked h)) doorbell w in
        (code ≡ success) × Returns (Consumed h doorbell w e) w'.ctx
  unfolding Device.entry_count
  submit-Consumed ne =
      let (code, run) = submit-process h doorbell w e a ne in
      (
        code,
        rw run (
            Returns-mono (λ x. (O x × T x) × P x) (Consumed h doorbell w e) _
              (λ x b. consumed x b.1 b.0.1 b.0.0)
              (Returns-Ensures (λ x. O x × T x) P (process (rung w.umem h.cached_head doorbell e))
                (Returns-both O T (process (rung w.umem h.cached_head doorbell e))
                  (process-InOrder is_output (rung w.umem h.cached_head doorbell e)
                    rung-IsServiceable rung-InRing rung-IsCounting)
                  (process-Tallies is_output (rung w.umem h.cached_head doorbell e)
                    rung-IsServiceable rung-InRing rung-IsCounting))
                (process-Processed (rung w.umem h.cached_head doorbell e) rung-InRing
                  rung-IsCounting))),
      )
    where
      O : Emu → Type 0
      O =
          InOrder (Device.entry_count (rung w.umem h.cached_head doorbell e).cmdq)
            (pending_of (Device.entry_count (rung w.umem h.cached_head doorbell e).cmdq)
              (rung w.umem h.cached_head doorbell e))
            (rung w.umem h.cached_head doorbell e)

      T : Emu → Type 0
      T =
          Tallies (Device.entry_count (rung w.umem h.cached_head doorbell e).cmdq)
            (rung w.umem h.cached_head doorbell e)

      P : Emu → Type 0
      P = Processed (rung w.umem h.cached_head doorbell e)
