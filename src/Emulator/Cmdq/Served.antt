-- ===== src/Emulator/Cmdq/Served.antt =====
-- The dispatch counters of `emu_cmdq_process` and the commands that were pending.
use native.Mathlib.Nat.{mod-eq_of_lt}
use mathlib.Core.Path.{subst}
use risc_v_computer_zybo.Base.{
  ℕ, zero, suc, ◌+◌, ◌%◌, ◌≤◌, ◌<◌, ◌≡◌, ◌≢◌, inl, inr, refl, arith, Bool, false, ◌==◌, ==_iff,
  Bool-cases, Returns, Returns-Ensures, Returns-mono, >>=-Returns, if◌then◌else◌,
}
use risc_v_computer_zybo.Word.{word}
use risc_v_computer_zybo.Memory.{Mem, load_desc}
use risc_v_computer_zybo.Queue.{slot_at, distance, window, pending}
use risc_v_computer_zybo.Queue.Laws.{distance-lt}
use risc_v_computer_zybo.Emulator.{Emu}
use risc_v_computer_zybo.Emulator.Cmdq.{
  entry_count, process_one, process_loop, start_processing, finish_processing, refresh_status,
  process,
}
use risc_v_computer_zybo.Emulator.Cmdq.Tally.{is_npu, is_gpu, Tallied, count_opcodes}
use risc_v_computer_zybo.Emulator.Cmdq.Process.{
  Advanced, process_one-Advanced, start-InRing, start-IsCounting, next-InRing, next-IsCounting,
  distance_falls, entry_count-lt, InRing, IsCounting,
}
use risc_v_computer_zybo.Emulator.Cmdq.Total.{
  IsServiceable, start-IsServiceable, Served, process_one-Served,
}

-- The count depends on the opcodes of the slots alone.
count_opcodes-window :
    (test : ℕ → Bool) (m m' : Mem) (base n : ℕ)
    → ((s : ℕ)
        → s < n
        → (load_desc m' (slot_at base s)).opcode ≡ (load_desc m (slot_at base s)).opcode)
    → (k s : ℕ) → s < n
    → count_opcodes test (window m' base n s k) ≡ count_opcodes test (window m base n s k)
unfolding count_opcodes
count_opcodes-window test m m' base n same zero s h = refl
count_opcodes-window test m m' base n same (suc k) s h =
    rw (same s h, count_opcodes-window test m m' base n same k ((s + 1) % n) (omega arith)) refl

-- The pending commands of a device whose opcodes pass a test.
abbrev pub pending_count : (ℕ → Bool) → ℕ → Emu → ℕ
pending_count test n e =
    count_opcodes test (pending e.unified_mem e.cmdq.base_offset n e.cmdq.tail e.cmdq.head)

module _ (test : ℕ → Bool) (n : ℕ) (e : Emu) where
  pending_count-empty : e.cmdq.tail ≡ e.cmdq.head → pending_count test n e ≡ 0
  unfolding count_opcodes
  pending_count-empty h = rw (h, none_apart) refl
    where
      none_apart : distance n e.cmdq.head e.cmdq.head ≡ 0
      none_apart = ground arith

  pending_count-next :
      (e' : Emu)
      → e'.cmdq.base_offset ≡ e.cmdq.base_offset
      → e'.cmdq.tail ≡ (e.cmdq.tail + 1) % n
      → e.cmdq.tail < n
      → ((s : ℕ)
          → s < n
          → (load_desc e'.unified_mem (slot_at e.cmdq.base_offset s)).opcode
            ≡ (load_desc e.unified_mem (slot_at e.cmdq.base_offset s)).opcode)
      → distance n e.cmdq.tail e.cmdq.head ≡ suc (distance n e'.cmdq.tail e'.cmdq.head)
      → pending_count test n e
        ≡ (if test (load_desc e.unified_mem (slot_at e.cmdq.base_offset e.cmdq.tail)).opcode
            then 1
            else 0)
          + pending_count test n e'
  unfolding count_opcodes
  pending_count-next e' base tail small same falls =
      rw
        (
          falls,
          base,
          count_opcodes-window test e.unified_mem e'.unified_mem e.cmdq.base_offset n same
              (distance n e'.cmdq.tail e'.cmdq.head) e'.cmdq.tail (omega (arith, tail)),
          tail,
        )
        refl

-- What the loop adds to the counters.
pub record Tallies (n : ℕ) (e e' : Emu) : Type 0 where
  pub npu :
      e'.cmdq.dispatch_npu_count % word
      ≡ (e.cmdq.dispatch_npu_count + pending_count is_npu n e) % word
  pub gpu :
      e'.cmdq.dispatch_gpu_count % word
      ≡ (e.cmdq.dispatch_gpu_count + pending_count is_gpu n e) % word

ended : (n : ℕ) (e : Emu) → e.cmdq.tail ≡ e.cmdq.head → Tallies n e e
ended n e h = record {
  npu = omega (arith, pending_count-empty is_npu n e h);
  gpu = omega (arith, pending_count-empty is_gpu n e h);
}

module _ (is_output : ℕ → Bool) where
  -- One round, with what is known of it.
  abbrev pub Round : ℕ → Bool → Emu → Emu × Bool → Type 0
  Round n seen e r = Served is_output n e r.0 × Advanced n seen e r

  pub process_one-Round :
      (n : ℕ) (seen : Bool) (e : Emu)
      → IsServiceable is_output n e
      → InRing n e.cmdq
      → Returns (Round n seen e) (process_one n seen e)
  process_one-Round n seen e v r =
      Returns-Ensures (λ x. Served is_output n e x.0) (Advanced n seen e) (process_one n seen e)
        (process_one-Served is_output n seen e v)
        (process_one-Advanced n seen e
          (omega (arith, r.tail_in, entry_count-lt e.cmdq r.size_word, r.count)))

  Tallies-step :
      (n : ℕ) (seen : Bool) (e : Emu) (v : InRing n e.cmdq) (c : IsCounting e.cmdq)
      (ne : e.cmdq.tail ≢ e.cmdq.head) (r : Emu × Bool)
      → Round n seen e r
      → (e' : Emu) → Tallies n r.0 e'
      → Tallies n e e'
  Tallies-step n seen e v c ne r (s, a) e' t = record {
    npu = ground (arith, counted is_npu, t.npu, tallied.npu);
    gpu = ground (arith, counted is_gpu, t.gpu, tallied.gpu);
  }
    where
      counted :
          (test : ℕ → Bool)
          → pending_count test n e
            ≡ (if test (load_desc e.unified_mem (slot_at e.cmdq.base_offset e.cmdq.tail)).opcode
                then 1
                else 0)
              + pending_count test n r.0
      counted test =
          pending_count-next test n e r.0 s.base a.tail v.tail_in s.opcodes
            (distance_falls n seen e v c ne r a)

      tallied : Tallied (load_desc e.unified_mem (slot_at e.cmdq.base_offset e.cmdq.tail)) e r.0
      tallied =
          subst (λ k. Tallied (load_desc e.unified_mem (slot_at e.cmdq.base_offset k)) e r.0)
            (mod-eq_of_lt v.tail_in) s.tallied

  process_loop-Tallies :
      (safety n : ℕ) (seen : Bool) (e : Emu)
      → IsServiceable is_output n e
      → InRing n e.cmdq
      → IsCounting e.cmdq
      → distance n e.cmdq.tail e.cmdq.head ≤ safety
      → Returns (λ r. Tallies n e r.0) (process_loop safety n seen e)
  unfolding process_loop
  process_loop-Tallies zero n seen e v r c h = ended n e (ground arith)
  process_loop-Tallies (suc safety) n seen e v r c h =
      elim (Bool-cases (e.cmdq.tail == e.cmdq.head)) [
        | inl done ↦ rw done (ended n e ((==_iff _ _).0 done))
        | inr more ↦ rw more (
            let ne : e.cmdq.tail ≢ e.cmdq.head = λ q. ground arith in
            >>=-Returns (Round n seen e) (λ x. Tallies n e x.0) _ _ (process_one-Round n seen e v r)
              λ x q.
                Returns-mono (λ y. Tallies n x.0 y.0) (λ y. Tallies n e y.0) _
                  (λ y t. Tallies-step n seen e r c ne x q y.0 t)
                  (process_loop-Tallies safety n x.1 x.0 q.0.serviceable
                    (next-InRing n seen e r c ne x q.1) (next-IsCounting n seen e r c ne x q.1)
                    (omega (arith, h, distance_falls n seen e r c ne x q.1))))
      ]

  finish-Tallies :
      (n : ℕ) (e e' : Emu) (seen : Bool) → Tallies n e e' → Tallies n e (finish_processing e' seen)
  unfolding finish_processing refresh_status
  finish-Tallies n e e' seen t = record { npu = ground (arith, t.npu); gpu = ground (arith, t.gpu) }

  -- On a serviceable queue whose indices are slots and whose counters are words, `emu_cmdq_process`
  -- returns, and modulo 2 ^ 32 the NPU and the GPU dispatch counts went up by the numbers of NPU and
  -- GPU opcodes among the descriptors that were pending.
  pub process-Tallies :
      (e : Emu)
      → IsServiceable is_output (entry_count e.cmdq) e
      → InRing (entry_count e.cmdq) e.cmdq
      → IsCounting e.cmdq
      → Returns (Tallies (entry_count e.cmdq) e) (process e)
  unfolding process
  process-Tallies e v r c =
      >>=-Returns (λ x. Tallies (entry_count e.cmdq) (start_processing e) x.0)
        (Tallies (entry_count e.cmdq) e) _ _
        (process_loop-Tallies (entry_count e.cmdq) (entry_count e.cmdq) false (start_processing e)
          (start-IsServiceable is_output (entry_count e.cmdq) e v)
          (start-InRing (entry_count e.cmdq) e r) (start-IsCounting e c)
          (omega (arith, distance-lt r.tail_in r.head_in)))
        λ x t. finish-Tallies (entry_count e.cmdq) e x.0 x.1 (record { npu = t.npu; gpu = t.gpu })
