-- ===== src/Emulator/Cmdq/Process.antt =====
-- The loop of `emu_cmdq_process` and its safety counter.
use risc_v_computer_zybo.Base.{
  ℕ, zero, suc, ◌+◌, ◌*◌, ◌%◌, ◌^◌, ◌≤◌, ◌<◌, ◌≡◌, ◌≢◌, refl, arith, Bool, true, false, ◌||◌,
  Ensures, >>=-Ensures, Ensures-any, Ensures-mono, Ensures-both, ◌⊎◌, ◌∙◌, ltb, if◌then◌else◌, ◌==◌,
  ==_iff, Bool-cases, inl, inr,
}
use risc_v_computer_zybo.Word.{word, add32}
use risc_v_computer_zybo.Memory.{load_desc}
use risc_v_computer_zybo.Queue.{distance}
use risc_v_computer_zybo.Queue.Laws.{distance-lt, distance-next-tail}
use risc_v_computer_zybo.Emulator.{Emu, CmdqState, status_idle, status_error}
use risc_v_computer_zybo.Emulator.Cmdq.{
  entry_count, desc_ptr, execute_desc, fetch, process_one, process_loop, start_processing,
  finish_processing, refresh_status, process,
}
use risc_v_computer_zybo.Emulator.Cmdq.Restore.{
  Counted, execute_desc-Counted, SameSettings, SameQueue, execute_desc-SameSettings,
}

-- A queue of `n` slots with its indices in the ring.
pub record InRing (n : ℕ) (q : CmdqState) : Type 0 where
  pub count : entry_count q ≡ n
  pub size_word : q.size_bytes < word
  pub tail_in : q.tail < n
  pub head_in : q.head < n

pub entry_count-lt :
    (q : CmdqState) → q.size_bytes < word → (0 < entry_count q) × (entry_count q < word)
unfolding entry_count
entry_count-lt q h = ground arith

entry_count-size : (q r : CmdqState) → r.size_bytes ≡ q.size_bytes → entry_count r ≡ entry_count q
unfolding entry_count
entry_count-size q r e = rw e

-- One round moves the tail on, counts the command, and counts and remembers a failure.
pub record Advanced (n : ℕ) (seen : Bool) (e : Emu) (r : Emu × Bool) : Type 0 where
  pub tail : r.0.cmdq.tail ≡ (e.cmdq.tail + 1) % n
  pub head : r.0.cmdq.head ≡ e.cmdq.head
  pub size_bytes : r.0.cmdq.size_bytes ≡ e.cmdq.size_bytes
  pub processed : r.0.cmdq.processed ≡ add32 e.cmdq.processed 1
  pub errors :
      ((r.1 ≡ seen) × (r.0.cmdq.dispatch_error_count ≡ e.cmdq.dispatch_error_count))
      ⊎ ((r.1 ≡ true) × (r.0.cmdq.dispatch_error_count ≡ add32 e.cmdq.dispatch_error_count 1))

pub process_one-Advanced :
    (n : ℕ) (seen : Bool) (e : Emu)
    → e.cmdq.tail + 1 < word
    → Ensures (Advanced n seen e) (process_one n seen e)
unfolding process_one
process_one-Advanced n seen e h =
    >>=-Ensures (λ _. Unit {0}) (Advanced n seen e) (desc_ptr e e.cmdq.tail) _ (Ensures-any _)
      λ p _. >>=-Ensures (kept p) (Advanced n seen e) _ _ (execute_kept p) λ r s. ground arith
  where
    kept : ℕ → Emu × Bool → Type 0
    kept p r = SameQueue (fetch n p e) r.0 × Counted (load_desc e.unified_mem p) (fetch n p e) r

    execute_kept : (p : ℕ) → Ensures (kept p) (execute_desc (fetch n p e) p)
    execute_kept p =
        Ensures-both (λ r. SameQueue (fetch n p e) r.0)
          (Counted (load_desc e.unified_mem p) (fetch n p e)) (execute_desc (fetch n p e) p)
          (Ensures-mono (λ r. SameSettings (fetch n p e) r.0 × SameQueue (fetch n p e) r.0)
            (λ r. SameQueue (fetch n p e) r.0) (execute_desc (fetch n p e) p) (λ r s. s.1)
            (execute_desc-SameSettings (fetch n p e) p))
          (execute_desc-Counted (fetch n p e) p)

-- What the loop ends in: the queue is empty, all that was pending is counted, and an error is
-- reported if there was one before or a command failed.
pub record Drained (n : ℕ) (seen : Bool) (e : Emu) (r : Emu × Bool) : Type 0 where
  pub failed : ℕ
  pub empty : r.0.cmdq.tail ≡ e.cmdq.head
  pub head : r.0.cmdq.head ≡ e.cmdq.head
  pub processed :
      r.0.cmdq.processed ≡ (e.cmdq.processed + distance n e.cmdq.tail e.cmdq.head) % word
  pub failed-le : failed ≤ distance n e.cmdq.tail e.cmdq.head
  pub errors : r.0.cmdq.dispatch_error_count ≡ (e.cmdq.dispatch_error_count + failed) % word
  pub reported : r.1 ≡ (seen || ltb 0 failed)

-- The counters are words.
pub record IsCounting (q : CmdqState) : Type 0 where
  pub processed_word : q.processed < word
  pub errors_word : q.dispatch_error_count < word

pub start-InRing : (n : ℕ) (e : Emu) → InRing n e.cmdq → InRing n (start_processing e).cmdq
unfolding entry_count
start-InRing n e r = record {
  count = r.count;
  size_word = r.size_word;
  tail_in = r.tail_in;
  head_in = r.head_in;
}

pub start-IsCounting : (e : Emu) → IsCounting e.cmdq → IsCounting (start_processing e).cmdq
start-IsCounting e c = record { processed_word = c.processed_word; errors_word = c.errors_word }

module _ (n : ℕ) (seen : Bool) (e : Emu) (v : InRing n e.cmdq) (c : IsCounting e.cmdq) where
  loop_ended : e.cmdq.tail ≡ e.cmdq.head → Drained n seen e (e, seen)
  loop_ended h = record {
    failed = 0;
    empty = h;
    head = refl;
    processed = ground arith;
    failed-le = omega arith;
    errors = omega arith;
    reported = ground arith;
  }

  module _ (ne : e.cmdq.tail ≢ e.cmdq.head) (r : Emu × Bool) (a : Advanced n seen e r) where
    pub distance_falls :
        distance n e.cmdq.tail e.cmdq.head ≡ suc (distance n r.0.cmdq.tail r.0.cmdq.head)
    distance_falls = rw (a.tail, a.head) (distance-next-tail v.tail_in v.head_in ne)

    pub next-InRing : InRing n r.0.cmdq
    next-InRing = record {
      count = entry_count-size e.cmdq r.0.cmdq a.size_bytes ∙ v.count;
      size_word = rw a.size_bytes v.size_word;
      tail_in = rw a.tail (omega (arith, v.tail_in));
      head_in = rw a.head v.head_in;
    }

    pub next-IsCounting : IsCounting r.0.cmdq
    next-IsCounting = ground arith

    loop_went_on : (s : Emu × Bool) → Drained n r.1 r.0 s → Drained n seen e s
    loop_went_on s d = elim a.errors [
      | inl (same, count) ↦ record {
        failed = d.failed;
        empty = ground arith;
        head = ground arith;
        processed = omega (arith, distance_falls, a.processed, d.processed);
        failed-le = omega (arith, distance_falls, d.failed-le);
        errors = rw (d.errors, count);
        reported = rw (d.reported, same);
      }
      | inr (bad, count) ↦ record {
        failed = suc d.failed;
        empty = ground arith;
        head = ground arith;
        processed = omega (arith, distance_falls, a.processed, d.processed);
        failed-le = omega (arith, distance_falls, d.failed-le);
        errors = omega (arith, count, d.errors);
        reported = ground arith;
      }
    ]

process_loop-Drained :
    (safety n : ℕ) (seen : Bool) (e : Emu)
    → InRing n e.cmdq
    → IsCounting e.cmdq
    → distance n e.cmdq.tail e.cmdq.head ≤ safety
    → Ensures (Drained n seen e) (process_loop safety n seen e)
unfolding process_loop
process_loop-Drained zero n seen e v c h = loop_ended n seen e v c (ground arith)
process_loop-Drained (suc safety) n seen e v c h = elim (Bool-cases (e.cmdq.tail == e.cmdq.head)) [
  | inl done ↦ rw done (loop_ended n seen e v c ((==_iff _ _).0 done))
  | inr more ↦ rw more (
      let ne : e.cmdq.tail ≢ e.cmdq.head = λ q. ground arith in
      >>=-Ensures (Advanced n seen e) (Drained n seen e) _ _
        (process_one-Advanced n seen e
          (omega (arith, v.tail_in, entry_count-lt e.cmdq v.size_word, v.count)))
        λ r a.
          Ensures-mono (Drained n r.1 r.0) (Drained n seen e) _ (loop_went_on n seen e v c ne r a) (
            process_loop-Drained safety n r.1 r.0 (next-InRing n seen e v c ne r a)
              (next-IsCounting n seen e v c ne r a)
              (omega (arith, h, distance_falls n seen e v c ne r a))))
]

-- What `emu_cmdq_process` leaves, with `failed` of the commands unknown.
pub record Processed (e e' : Emu) : Type 0 where
  pub failed : ℕ
  pub empty : e'.cmdq.tail ≡ e.cmdq.head
  pub head : e'.cmdq.head ≡ e.cmdq.head
  pub processed :
      e'.cmdq.processed
      ≡ (e.cmdq.processed + distance (entry_count e.cmdq) e.cmdq.tail e.cmdq.head) % word
  pub failed-le : failed ≤ distance (entry_count e.cmdq) e.cmdq.tail e.cmdq.head
  pub errors : e'.cmdq.dispatch_error_count ≡ (e.cmdq.dispatch_error_count + failed) % word
  pub status :
      e'.cmdq.status
      ≡ (if ltb 0 failed then status_error else 0)
        + status_idle
        + e'.cmdq.processed % 2 ^ 16 * 2 ^ 16

finish-Processed :
    (e : Emu) (r : Emu × Bool)
    → Drained (entry_count e.cmdq) false (start_processing e) r
    → Processed e (finish_processing r.0 r.1)
unfolding finish_processing refresh_status
finish-Processed e r d = record {
  failed = d.failed;
  empty = ground (arith, d.empty, d.head);
  head = ground (arith, d.empty, d.head);
  processed = ground (arith, d.empty, d.head, d.processed);
  failed-le = d.failed-le;
  errors = ground (arith, d.empty, d.head, d.errors);
  status = ground (arith, d.empty, d.head, d.reported);
}

-- `emu_cmdq_process` on a queue whose head and tail are slots of the ring and whose counters are
-- words: if it returns (no access made it exit), the safety counter was enough. The tail has reached the head, every pending command is
-- counted, the status is EMPTY with that count, and ERROR is set exactly when a command failed;
-- failures are counted.
pub process-Processed :
    (e : Emu)
    → InRing (entry_count e.cmdq) e.cmdq
    → IsCounting e.cmdq
    → Ensures (Processed e) (process e)
unfolding process
process-Processed e v c =
    >>=-Ensures (Drained n false (start_processing e)) (Processed e) _ _
      (process_loop-Drained n n false (start_processing e) (start-InRing n e v) (ground arith)
        (omega (arith, distance-lt v.tail_in v.head_in)))
      λ r d. finish-Processed e r d
  where
    n : ℕ
    n = entry_count e.cmdq
