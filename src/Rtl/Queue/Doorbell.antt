-- ===== src/Rtl/Queue/Doorbell.antt =====
-- One doorbell in rtl/accel/accel_cmdq_frontend_stub.v.
use risc_v_computer_zybo.Base.{
  ℕ, zero, suc, ◌≡◌, ◌⊎◌, inl, inr, refl, arith, true, false, Bool-cases, ◌&&◌,
}
use risc_v_computer_zybo.Word.{add32}
use risc_v_computer_zybo.Rtl.Queue.{Frontend, Inputs, next_status, enabled, clock, cycles}

-- The unit is between two commands.
pub record IsIdle (q : Frontend) : Type 0 where
  pub valid : q.fetch_valid ≡ false
  pub inflight : q.fetch_inflight ≡ false

-- One command at most: none so far, or one and the unit is idle.
data AtMostOne (p : ℕ) (q : Frontend) : Type 0 where
  none_done :
      q.processed_count ≡ p → ((q.fetch_valid ≡ false) ⊎ (q.fetch_inflight ≡ false)) → AtMostOne p q
  one_done : q.processed_count ≡ add32 p 1 → IsIdle q → AtMostOne p q

-- The doorbell stays as it is.
pub record Rings (d : ℕ) (i : Inputs) : Type 0 where
  pub on : i.enable ≡ true
  pub doorbell : i.cmdq_doorbell ≡ d

first-AtMostOne :
    (d : ℕ) (i : Inputs) (q : Frontend)
    → Rings d i
    → IsIdle q
    → AtMostOne q.processed_count (clock i q)
unfolding clock enabled next_status
first-AtMostOne d i q r z = none_done (ground arith) (inr (ground arith))

next-AtMostOne :
    (d p : ℕ) (i : Inputs) (q : Frontend)
    → Rings d i
    → q.last_doorbell ≡ d
    → AtMostOne p q
    → AtMostOne p (clock i q)
unfolding clock enabled next_status
next-AtMostOne d p i q r l (none_done e (inl v)) =
    elim (Bool-cases (q.fetch_inflight && i.desc_done)) [
      | inl done ↦
          one_done (ground arith) (record { valid = ground arith; inflight = ground arith })
      | inr more ↦ none_done (ground arith) (inl (ground arith))
    ]
next-AtMostOne d p i q r l (none_done e (inr v)) =
    elim (Bool-cases (q.fetch_valid && i.fetch_ready)) [
      | inl taken ↦ none_done (ground arith) (inl (ground arith))
      | inr waiting ↦ none_done (ground arith) (inr (ground arith))
    ]
next-AtMostOne d p i q r l (one_done e z) =
    one_done (ground arith) (record { valid = ground arith; inflight = ground arith })

clock-last_doorbell :
    (d : ℕ) (i : Inputs) (q : Frontend) → Rings d i → (clock i q).last_doorbell ≡ d
unfolding clock enabled
clock-last_doorbell d i q r = ground arith

cycles-AtMostOne :
    (d p n : ℕ) (i : ℕ → Inputs) (q : Frontend)
    → ((k : ℕ) → Rings d (i k))
    → q.last_doorbell ≡ d
    → AtMostOne p q
    → AtMostOne p (cycles n i q)
unfolding cycles
cycles-AtMostOne d p zero i q r l a = a
cycles-AtMostOne d p (suc n) i q r l a =
    cycles-AtMostOne d p n (λ k. i (suc k)) (clock (i 0) q) (λ k. r (suc k))
      (clock-last_doorbell d (i 0) q (r 0)) (next-AtMostOne d p (i 0) q (r 0) l a)

counted :
    (p : ℕ) (q : Frontend)
    → AtMostOne p q
    → (q.processed_count ≡ p) ⊎ (q.processed_count ≡ add32 p 1)
counted p q (none_done e _) = inl e
counted p q (one_done e _) = inr e

-- From a state between two commands, while the unit is enabled and the doorbell register holds one
-- value, whatever the other inputs are and however many cycles pass, the unit retires one command at
-- most: the count of processed commands is what it was, or one more.
pub one_command_per_doorbell :
    (d n : ℕ) (i : ℕ → Inputs) (q : Frontend)
    → IsIdle q
    → ((k : ℕ) → Rings d (i k))
    → ((cycles n i q).processed_count ≡ q.processed_count)
      ⊎ ((cycles n i q).processed_count ≡ add32 q.processed_count 1)
unfolding cycles
one_command_per_doorbell d zero i q z r = inl refl
one_command_per_doorbell d (suc n) i q z r = counted q.processed_count _ (
    cycles-AtMostOne d q.processed_count n (λ k. i (suc k)) (clock (i 0) q) (λ k. r (suc k))
      (clock-last_doorbell d (i 0) q (r 0)) (first-AtMostOne d (i 0) q (r 0) z))
