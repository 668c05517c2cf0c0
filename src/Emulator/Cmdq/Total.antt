-- ===== src/Emulator/Cmdq/Total.antt =====
-- `emu_cmdq_process` on a queue of runnable descriptors.
use risc_v_computer_zybo.Base.{
  ℕ, Outcome, zero, suc, ◌+◌, ◌*◌, ◌%◌, ◌≤◌, ◌<◌, ◌≡◌, ◌≢◌, inl, inr, arith, Bool, false, ◌==◌, ok,
  Returns, Returns-Ensures, Returns-mono, >>=-Returns, Bool-cases,
}
use risc_v_computer_zybo.Memory.{load_desc, desc_bytes}
use risc_v_computer_zybo.Queue.{slot_at}
use risc_v_computer_zybo.Emulator.{Emu}
use risc_v_computer_zybo.Emulator.Umem.{limit_bytes, limit_bytes-le}
use risc_v_computer_zybo.Emulator.Cmdq.{
  entry_count, desc_ptr, execute_desc, fetch, retire, process_one, process_loop, start_processing,
  process,
}
use risc_v_computer_zybo.Emulator.Cmdq.Restore.{SameSettings, SameQueue, execute_desc-SameSettings}
use risc_v_computer_zybo.Emulator.Cmdq.Process.{InRing, IsCounting, Processed, process-Processed}
use risc_v_computer_zybo.Emulator.Cmdq.Slots.{other_slot, slot-SameDesc, IsRunnable-Kept}
use risc_v_computer_zybo.Emulator.Cmdq.Tally.{Tallied, execute_desc-Tallied}
use risc_v_computer_zybo.Emulator.Cmdq.Runnable.{IsRunnable, Kept, execute_desc-Kept}

module _ (is_output : ℕ → Bool) where
  -- A ring of `n` slots inside the memory, apart from all outputs, that holds runnable descriptors.
  pub record IsServiceable (n : ℕ) (e : Emu) : Type 0 where
    pub count : entry_count e.cmdq ≡ n
    pub positive : 0 < n
    pub queue_in : e.cmdq.base_offset + n * desc_bytes ≤ limit_bytes e
    pub queue_kept :
        (a : ℕ)
        → e.cmdq.base_offset ≤ a
        → a < e.cmdq.base_offset + n * desc_bytes
        → is_output a ≡ false
    pub model_byte : e.npu.model_id < 256
    pub slots :
        (s : ℕ)
        → s < n
        → IsRunnable is_output e.cmdq.base_offset
            (e.cmdq.base_offset + n * desc_bytes)
            e.umem
            e.npu.model_id
            e.unified_mem
            (load_desc e.unified_mem (slot_at e.cmdq.base_offset s))

  -- The start of `emu_cmdq_process` touches nothing of it.
  pub start-IsServiceable :
      (n : ℕ) (e : Emu) → IsServiceable n e → IsServiceable n (start_processing e)
  unfolding entry_count limit_bytes
  start-IsServiceable n e v = record {
    count = v.count;
    positive = v.positive;
    queue_in = v.queue_in;
    queue_kept = v.queue_kept;
    model_byte = v.model_byte;
    slots = v.slots;
  }

  pub desc_ptr-eq :
      (n : ℕ) (e : Emu)
      → IsServiceable n e
      → desc_ptr e e.cmdq.tail ≡ ok (slot_at e.cmdq.base_offset (e.cmdq.tail % n))
  unfolding desc_ptr
  desc_ptr-eq n e v = rw v.count (ground (arith, v.queue_in, v.positive, limit_bytes-le e))

  retire-IsServiceable :
      (n : ℕ) (good : Bool) (e ran : Emu)
      → IsServiceable n e
      → Kept is_output e.cmdq.base_offset
          (e.cmdq.base_offset + n * desc_bytes)
          (slot_at e.cmdq.base_offset (e.cmdq.tail % n))
          e.unified_mem
          ran.unified_mem
      → ran.umem ≡ e.umem
      → ran.npu.model_id ≡ e.npu.model_id
      → ran.cmdq.base_offset ≡ e.cmdq.base_offset
      → ran.cmdq.size_bytes ≡ e.cmdq.size_bytes
      → IsServiceable n (retire n good ran)
  unfolding entry_count limit_bytes
  retire-IsServiceable n good e ran v k umem model base size = record {
    count = rw size v.count;
    positive = v.positive;
    queue_in = rw (base, umem) v.queue_in;
    queue_kept = rw base v.queue_kept;
    model_byte = rw model v.model_byte;
    slots =
        rw (base, umem, model)
          (λ i h.
            IsRunnable-Kept is_output e.cmdq.base_offset n (e.cmdq.tail % n) e.unified_mem
              ran.unified_mem (omega (arith, v.positive)) v.queue_kept k e.umem e.npu.model_id _ _
              (slot-SameDesc is_output e.cmdq.base_offset n (e.cmdq.tail % n) e.unified_mem
                ran.unified_mem (omega (arith, v.positive)) v.queue_kept k i h)
              (v.slots i h));
  }

  -- What one round leaves: a serviceable ring with the same opcodes, and the command counted.
  pub record Served (n : ℕ) (e e' : Emu) : Type 0 where
    pub serviceable : IsServiceable n e'
    pub base : e'.cmdq.base_offset ≡ e.cmdq.base_offset
    pub opcodes :
        (s : ℕ)
        → s < n
        → (load_desc e'.unified_mem (slot_at e.cmdq.base_offset s)).opcode
          ≡ (load_desc e.unified_mem (slot_at e.cmdq.base_offset s)).opcode
    pub others :
        (s : ℕ)
        → s < n
        → s ≢ e.cmdq.tail % n
        → load_desc e'.unified_mem (slot_at e.cmdq.base_offset s)
          ≡ load_desc e.unified_mem (slot_at e.cmdq.base_offset s)
    pub tallied :
        Tallied (load_desc e.unified_mem (slot_at e.cmdq.base_offset (e.cmdq.tail % n))) e e'

  module _ (n : ℕ) (seen : Bool) (e : Emu) (v : IsServiceable n e) where
    -- What the execution of the descriptor is known to leave.
    abbrev Executed : Emu × Bool → Type 0
    Executed r =
        (Kept is_output e.cmdq.base_offset (e.cmdq.base_offset + n * desc_bytes)
            (slot_at e.cmdq.base_offset (e.cmdq.tail % n)) e.unified_mem r.0.unified_mem
          × (SameSettings (fetch n (slot_at e.cmdq.base_offset (e.cmdq.tail % n)) e) r.0
              × SameQueue (fetch n (slot_at e.cmdq.base_offset (e.cmdq.tail % n)) e) r.0))
        × Tallied (load_desc e.unified_mem (slot_at e.cmdq.base_offset (e.cmdq.tail % n)))
            (fetch n (slot_at e.cmdq.base_offset (e.cmdq.tail % n)) e) r.0

    executed : Returns Executed (
        execute_desc
          (fetch n (slot_at e.cmdq.base_offset (e.cmdq.tail % n)) e)
          (slot_at e.cmdq.base_offset (e.cmdq.tail % n)))
    executed =
        Returns-Ensures (λ r. K r × Q r) T m
          (Returns-Ensures K Q m
            (execute_desc-Kept is_output e.cmdq.base_offset (e.cmdq.base_offset + n * desc_bytes)
              fetched p v.model_byte (v.slots (e.cmdq.tail % n) (omega (arith, v.positive))))
            (execute_desc-SameSettings fetched p))
          (execute_desc-Tallied fetched p)
      where
        p : ℕ
        p = slot_at e.cmdq.base_offset (e.cmdq.tail % n)

        fetched : Emu
        fetched = fetch n p e

        m : Outcome (Emu × Bool)
        m = execute_desc fetched p

        K : Emu × Bool → Type 0
        K r =
            Kept is_output e.cmdq.base_offset (e.cmdq.base_offset + n * desc_bytes) p e.unified_mem
              r.0.unified_mem

        Q : Emu × Bool → Type 0
        Q r = SameSettings fetched r.0 × SameQueue fetched r.0

        T : Emu × Bool → Type 0
        T r = Tallied (load_desc e.unified_mem p) fetched r.0

    retire-Served : (r : Emu × Bool) → Executed r → Served n e (retire n r.1 r.0)
    retire-Served r x =
        let ((k, (s, q)), t) = x in
        record {
          serviceable =
              retire-IsServiceable n r.1 e r.0 v k s.umem s.model.model_id q.base_offset
                q.size_bytes;
          base = q.base_offset;
          opcodes = λ i h.
              (slot-SameDesc is_output e.cmdq.base_offset n (e.cmdq.tail % n) e.unified_mem
                r.0.unified_mem (omega (arith, v.positive)) v.queue_kept k i h).opcode;
          others =
              other_slot is_output e.cmdq.base_offset n (e.cmdq.tail % n) e.unified_mem
                r.0.unified_mem (omega (arith, v.positive)) v.queue_kept k;
          tallied = record { npu = t.npu; gpu = t.gpu };
        }

    pub process_one-Served : Returns (λ r. Served n e r.0) (process_one n seen e)
    unfolding process_one
    process_one-Served =
        rw (desc_ptr-eq n e v)
          (>>=-Returns Executed (λ r. Served n e r.0) _ _ executed retire-Served)

  process_one-IsServiceable :
      (n : ℕ) (seen : Bool) (e : Emu)
      → IsServiceable n e
      → Returns (λ r. IsServiceable n r.0) (process_one n seen e)
  process_one-IsServiceable n seen e v =
      Returns-mono (λ r. Served n e r.0) (λ r. IsServiceable n r.0) _ (λ r s. s.serviceable)
        (process_one-Served n seen e v)

  process_loop-Returns :
      (safety n : ℕ) (seen : Bool) (e : Emu)
      → IsServiceable n e
      → Returns (λ r. IsServiceable n r.0) (process_loop safety n seen e)
  unfolding process_loop
  process_loop-Returns zero n seen e v = v
  process_loop-Returns (suc safety) n seen e v = elim (Bool-cases (e.cmdq.tail == e.cmdq.head)) [
    | inl done ↦ rw done v
    | inr more ↦ rw more (
        >>=-Returns (λ r. IsServiceable n r.0) (λ r. IsServiceable n r.0) _ _
          (process_one-IsServiceable n seen e v) λ r w. process_loop-Returns safety n r.1 r.0 w)
  ]

  -- `emu_cmdq_process` is total on a queue that lies in the memory, whose indices are slots, and all of
  -- whose slots hold descriptors with buffers inside the memory and moderate biases, where no output
  -- overlaps the queue or the biases of a runtime model: it returns, the tail has reached the head,
  -- every pending command is counted, and ERROR is set exactly when one failed.
  pub process-Returns :
      (e : Emu)
      → IsServiceable (entry_count e.cmdq) e
      → InRing (entry_count e.cmdq) e.cmdq
      → IsCounting e.cmdq
      → Returns (Processed e) (process e)
  unfolding process entry_count limit_bytes
  process-Returns e v r c =
      Returns-mono (λ e'. Unit {0} × Processed e e') (Processed e) (process e) (λ e' h. h.1)
        (Returns-Ensures (λ _. Unit {0}) (Processed e) (process e) returns
          (process-Processed e r c))
    where
      returns : Returns (λ _. Unit {0}) (process e)
      returns =
          >>=-Returns (λ r. IsServiceable (entry_count e.cmdq) r.0) (λ _. Unit {0}) _ _
            (process_loop-Returns (entry_count e.cmdq) (entry_count e.cmdq) false
              (start_processing e) (start-IsServiceable (entry_count e.cmdq) e v))
            λ r w. tt
