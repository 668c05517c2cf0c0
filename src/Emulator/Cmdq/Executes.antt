-- ===== src/Emulator/Cmdq/Executes.antt =====
-- The order in which `emu_cmdq_process` of linux/uio/accel_mmio_demo.c executes its commands.
use mathlib.Core.Path.{subst}
use native.Mathlib.Nat.{mod-eq_of_lt, mod-lt, mod-add-mod}
use risc_v_computer_zybo.Base.{
  ℕ, zero, suc, ◌+◌, ◌%◌, ◌≤◌, ◌<◌, ◌≡◌, ◌≢◌, ◌∙◌, inl, inr, refl, sym, ap, ap₂, arith, Bool, false,
  not, ◌||◌, ◌==◌, ==_iff, List, [], ◌∷◌, Bool-cases, ok, Ensures, Ensures-ok, Returns,
  Returns-Ensures, Returns-mono, >>=-Returns, >>=-Ensures,
}
use risc_v_computer_zybo.Memory.{Mem, Desc, load_desc}
use risc_v_computer_zybo.Queue.{slot_at, distance, window, pending}
use risc_v_computer_zybo.Queue.Laws.{distance-lt, add-mod-ne}
use risc_v_computer_zybo.Emulator.{Emu}
use risc_v_computer_zybo.Emulator.Cmdq.{
  entry_count, execute_desc, fetch, retire, process_one, process_loop, start_processing,
  finish_processing, process,
}
use risc_v_computer_zybo.Emulator.Cmdq.Process.{
  start-InRing, start-IsCounting, next-InRing, next-IsCounting, distance_falls, InRing, IsCounting,
}
use risc_v_computer_zybo.Emulator.Cmdq.Total.{IsServiceable, start-IsServiceable, desc_ptr-eq}
use risc_v_computer_zybo.Emulator.Cmdq.Served.{Round, process_one-Round}

-- The address of the command at the tail.
abbrev pub at_tail : ℕ → Emu → ℕ
at_tail n e = slot_at e.cmdq.base_offset (e.cmdq.tail % n)

-- Some commands, one round for each, in order: each stands at the tail when it is executed, and then
-- the tail moves on. A state comes with whether a command has failed.
pub data Executes (n : ℕ) : List Desc → Emu × Bool → Emu × Bool → Type 0 where
  no_more : (r : Emu × Bool) → Executes n [] r r
  next :
      (d : Desc) (ds : List Desc) (e : Emu) (seen : Bool) (ran : Emu) (good : Bool) (r : Emu × Bool)
      → load_desc e.unified_mem (at_tail n e) ≡ d
      → execute_desc (fetch n (at_tail n e) e) (at_tail n e) ≡ ok (ran, good)
      → Executes n ds (retire n good ran, seen || not good) r
      → Executes n (d ∷ ds) (e, seen) r

-- One round of the loop.
record Ran (n : ℕ) (seen : Bool) (e : Emu) (r : Emu × Bool) : Type 0 where
  ran : Emu
  good : Bool
  executed : execute_desc (fetch n (at_tail n e) e) (at_tail n e) ≡ ok (ran, good)
  result : r ≡ (retire n good ran, seen || not good)

-- Processing from `e` ended in `e'`, with these commands executed in this order.
pub record InOrder (n : ℕ) (ds : List Desc) (e e' : Emu) : Type 0 where
  pub last : Emu
  pub seen : Bool
  pub executes : Executes n ds (start_processing e, false) (last, seen)
  pub finished : e' ≡ finish_processing last seen

-- The descriptors after slot `s` are the same, if all but that in `s` are.
window-congr :
    (m m' : Mem) (base n s : ℕ)
    → s < n
    → ((t : ℕ) → t < n → t ≢ s → load_desc m' (slot_at base t) ≡ load_desc m (slot_at base t))
    → (k i : ℕ) → i + k < n
    → window m' base n ((s + suc i) % n) k ≡ window m base n ((s + suc i) % n) k
window-congr m m' base n s h same zero i l = refl
window-congr m m' base n s h same (suc k) i l =
    ap₂ (λ d ds. d ∷ ds)
      (same ((s + suc i) % n) (mod-lt (s + suc i) (omega arith)) (add-mod-ne h (omega arith)))
      (subst (λ t. window m' base n t k ≡ window m base n t k) (sym on)
        (window-congr m m' base n s h same k (suc i) (omega arith)))
  where
    on : ((s + suc i) % n + 1) % n ≡ (s + suc (suc i)) % n
    on = mod-add-mod (s + suc i) n 1 ∙ ap (λ t. t % n) (omega arith)

-- The commands that are pending.
abbrev pub pending_of : ℕ → Emu → List Desc
pending_of n e = pending e.unified_mem e.cmdq.base_offset n e.cmdq.tail e.cmdq.head

none_pending : (n : ℕ) (e : Emu) → e.cmdq.tail ≡ e.cmdq.head → pending_of n e ≡ []
none_pending n e h = rw (h, none_apart) refl
  where
    none_apart : distance n e.cmdq.head e.cmdq.head ≡ 0
    none_apart = ground arith

module _ (is_output : ℕ → Bool) where
  process_one-Ran :
      (n : ℕ) (seen : Bool) (e : Emu)
      → IsServiceable is_output n e
      → Ensures (Ran n seen e) (process_one n seen e)
  unfolding process_one
  process_one-Ran n seen e v = rw (desc_ptr-eq is_output n e v) (
      >>=-Ensures (λ a. execute_desc (fetch n (at_tail n e) e) (at_tail n e) ≡ ok a) (Ran n seen e)
        _ _ (Ensures-ok (execute_desc (fetch n (at_tail n e) e) (at_tail n e)))
        λ x q. record { ran = x.0; good = x.1; executed = q; result = refl })

  -- What is pending before a round is the command that it executes, and what is pending after it.
  pending_of-next :
      (n : ℕ) (seen : Bool) (e : Emu) (v : InRing n e.cmdq) (c : IsCounting e.cmdq)
      (ne : e.cmdq.tail ≢ e.cmdq.head) (r : Emu × Bool)
      → Round is_output n seen e r
      → pending_of n e ≡ load_desc e.unified_mem (at_tail n e) ∷ pending_of n r.0
  pending_of-next n seen e v c ne r (s, a) =
      ap (window e.unified_mem e.cmdq.base_offset n e.cmdq.tail)
        (distance_falls n seen e v c ne r a)
      ∙ ap₂ (λ d ds. d ∷ ds)
          (ap (λ t. load_desc e.unified_mem (slot_at e.cmdq.base_offset t))
            (sym (mod-eq_of_lt v.tail_in)))
          (sym rest)
    where
      after : InRing n r.0.cmdq
      after = next-InRing n seen e v c ne r a

      first : (k : ℕ) → k < n → 0 + k < n
      first k h = omega arith

      k : ℕ
      k = distance n r.0.cmdq.tail r.0.cmdq.head

      others :
          (t : ℕ)
          → t < n
          → t ≢ e.cmdq.tail
          → load_desc r.0.unified_mem (slot_at e.cmdq.base_offset t)
            ≡ load_desc e.unified_mem (slot_at e.cmdq.base_offset t)
      others t h q = s.others t h λ same. q (same ∙ mod-eq_of_lt v.tail_in)

      rest : pending_of n r.0 ≡ window e.unified_mem e.cmdq.base_offset n ((e.cmdq.tail + 1) % n) k
      rest =
          ap₂ (λ base t. window r.0.unified_mem base n t k) s.base a.tail
          ∙ window-congr e.unified_mem r.0.unified_mem e.cmdq.base_offset n e.cmdq.tail v.tail_in
              others k 0 (first k (distance-lt after.tail_in after.head_in))

  Executes-step :
      (n : ℕ) (seen : Bool) (e : Emu) (r : Emu × Bool) (ds : List Desc) (r' : Emu × Bool)
      → Ran n seen e r
      → Executes n ds r r'
      → Executes n (load_desc e.unified_mem (at_tail n e) ∷ ds) (e, seen) r'
  Executes-step n seen e r ds r' ran more =
      next _ ds e seen ran.ran ran.good r' refl ran.executed
        (subst (λ q. Executes n ds q r') ran.result more)

  process_loop-Executes :
      (safety n : ℕ) (seen : Bool) (e : Emu)
      → IsServiceable is_output n e
      → InRing n e.cmdq
      → IsCounting e.cmdq
      → distance n e.cmdq.tail e.cmdq.head ≤ safety
      → Returns (Executes n (pending_of n e) (e, seen)) (process_loop safety n seen e)
  unfolding process_loop
  process_loop-Executes zero n seen e v r c h =
      subst (λ ds. Executes n ds (e, seen) (e, seen)) (sym (none_pending n e (ground arith)))
        (no_more (e, seen))
  process_loop-Executes (suc safety) n seen e v r c h =
      elim (Bool-cases (e.cmdq.tail == e.cmdq.head)) [
        | inl done ↦ rw done (
            subst (λ ds. Executes n ds (e, seen) (e, seen))
              (sym (none_pending n e ((==_iff _ _).0 done))) (no_more (e, seen)))
        | inr more ↦ rw more (
            let ne : e.cmdq.tail ≢ e.cmdq.head = λ q. ground arith in
            >>=-Returns (λ x. Round is_output n seen e x × Ran n seen e x)
              (Executes n (pending_of n e) (e, seen)) _ _
              (Returns-Ensures (Round is_output n seen e) (Ran n seen e) _
                (process_one-Round is_output n seen e v r) (process_one-Ran n seen e v))
              λ x q.
                Returns-mono (Executes n (pending_of n x.0) x)
                  (Executes n (pending_of n e) (e, seen)) _
                  (λ y t.
                    subst (λ ds. Executes n ds (e, seen) y)
                      (sym (pending_of-next n seen e r c ne x q.0))
                      (Executes-step n seen e x (pending_of n x.0) y q.1 t))
                  (process_loop-Executes safety n x.1 x.0 q.0.0.serviceable
                    (next-InRing n seen e r c ne x q.0.1) (next-IsCounting n seen e r c ne x q.0.1)
                    (omega (arith, h, distance_falls n seen e r c ne x q.0.1))))
      ]

  -- On a queue that lies in the memory, whose indices are slots, whose counters are words, and all of
  -- whose slots hold descriptors with buffers inside the memory and moderate biases, where no output
  -- overlaps the queue or the biases of a runtime model, `emu_cmdq_process` returns, and it has
  -- executed the descriptors that were pending when it was called, each once, whole as it was then,
  -- oldest first, and no other.
  pub process-InOrder :
      (e : Emu)
      → IsServiceable is_output (entry_count e.cmdq) e
      → InRing (entry_count e.cmdq) e.cmdq
      → IsCounting e.cmdq
      → Returns (InOrder (entry_count e.cmdq) (pending_of (entry_count e.cmdq) e) e) (process e)
  unfolding process
  process-InOrder e v r c =
      >>=-Returns
        (Executes (entry_count e.cmdq) (pending_of (entry_count e.cmdq) e)
          (start_processing e, false))
        (InOrder (entry_count e.cmdq) (pending_of (entry_count e.cmdq) e) e) _ _
        (process_loop-Executes (entry_count e.cmdq) (entry_count e.cmdq) false (start_processing e)
          (start-IsServiceable is_output (entry_count e.cmdq) e v)
          (start-InRing (entry_count e.cmdq) e r) (start-IsCounting e c)
          (omega (arith, distance-lt r.tail_in r.head_in)))
        λ x t. record { last = x.0; seen = x.1; executes = t; finished = refl }
