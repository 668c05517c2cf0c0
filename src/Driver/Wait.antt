-- ===== src/Driver/Wait.antt =====
-- Waiting for the accelerator in linux/uio/accel_mmio_demo.c: `wait_until_done_poll`,
-- `uio_enable_irq` and `wait_until_done`. The masks are single bits, given by their numbers.
use Prim.Native.String.{String}
use risc_v_computer_zybo.Base.{
  ℕ, zero, suc, ◌<◌, ◌≡◌, refl, arith, Bool, true, false, not, ◌&&◌, none, some, Outcome, ok,
  exited, ◌>>=◌,
}
use risc_v_computer_zybo.Word.{test_bit}
use risc_v_computer_zybo.Registers.{Reg, offset}
use risc_v_computer_zybo.Driver.{Line, Platform, Session, backend_read, print}

-- STATUS_NPU_BUSY, STATUS_NPU_DONE, STATUS_GPU_BUSY and STATUS_GPU_DONE, by bit.
abbrev pub npu_busy : ℕ
npu_busy = 0

abbrev pub npu_done : ℕ
npu_done = 1

abbrev pub gpu_busy : ℕ
gpu_busy = 2

abbrev pub gpu_done : ℕ
gpu_done = 3

abbrev pub is_finished : ℕ → ℕ → ℕ → Bool
is_finished busy done status = not (test_bit status busy) && test_bit status done

-- The bound of the loop.
abbrev pub max_polls : ℕ
max_polls = 1000000

module _ {D : Type 0} (p : Platform D) where
  -- `usleep(100)`: time passes for the device.
  abbrev pub paused : Session D → Session D
  paused s = record s { device = p.pause s.device }

  -- `for (i = ...; i < 1000000; ++i)`, on the rounds left; after the last the program exits.
  unfoldable pub poll_loop : ℕ → ℕ → ℕ → Session D → Outcome (Session D)
  poll_loop zero busy done s = exited
  poll_loop (suc rounds) busy done s =
      let (status, s') = backend_read p (offset Reg.status) s in
      elim (is_finished busy done status) [
        | true ↦ ok s'
        | false ↦ poll_loop rounds busy done (paused s')
      ]

  abbrev pub wait_until_done_poll : ℕ → ℕ → Session D → Outcome (Session D)
  wait_until_done_poll = poll_loop max_polls

  unfoldable pub uio_enable_irq : Session D → Outcome (Session D)
  uio_enable_irq s = elim (p.enable_irq s.device) [
    | some d ↦ ok (record s { device = d })
    | none ↦ exited
  ]

  -- `if (use_irq && !backend->emulate) uio_enable_irq(uio_fd);`
  abbrev pub arm_irq : Bool → Session D → Outcome (Session D)
  arm_irq use_irq s = elim (use_irq && not s.emulate) [ true ↦ uio_enable_irq s | false ↦ ok s ]

  -- The wait for an interrupt, and its line.
  unfoldable pub await_irq : String → Session D → Outcome (Session D)
  await_irq label s = elim (p.await_irq s.device) [
    | some (count, d) ↦ ok (print (Line.irq_count label count) (record s { device = d }))
    | none ↦ exited
  ]

  unfoldable pub wait_until_done : Bool → ℕ → ℕ → String → Session D → Outcome (Session D)
  wait_until_done use_irq busy done label s = elim use_irq [
    | false ↦ wait_until_done_poll busy done s
    | true ↦ elim s.emulate [
      | true ↦ wait_until_done_poll busy done (print (Line.irq_count label 1) s)
      | false ↦ do s' ← await_irq label s; wait_until_done_poll busy done s'
    ]
  ]

  -- The device as the poll number `i` finds it, when no poll before has ended the wait.
  unfoldable pub at_poll : ℕ → Session D → Session D
  at_poll zero s = s
  at_poll (suc i) s = at_poll i (paused (backend_read p (offset Reg.status) s).1)

  abbrev pub status_read : Session D → ℕ
  status_read s = (backend_read p (offset Reg.status) s).0

  -- Poll `i` is the first that sees the unit done and not busy.
  pub record FirstDone (busy done i : ℕ) (s : Session D) : Type 0 where
    pub sees : is_finished busy done (status_read (at_poll i s)) ≡ true
    pub none_before : (j : ℕ) → j < i → is_finished busy done (status_read (at_poll j s)) ≡ false

  -- The poll returns at the first status that shows the unit done and not busy, if it is within the
  -- bound, with the state that this read left.
  pub poll_loop-FirstDone :
      (rounds busy done i : ℕ) (s : Session D)
      → i < rounds
      → FirstDone busy done i s
      → poll_loop rounds busy done s ≡ ok (backend_read p (offset Reg.status) (at_poll i s)).1
  unfolding poll_loop at_poll
  poll_loop-FirstDone zero busy done i s h f = absurd (omega arith)
  poll_loop-FirstDone (suc rounds) busy done zero s h f = rw (f.sees, poll_loop) refl
  poll_loop-FirstDone (suc rounds) busy done (suc i) s h f =
      rw (f.none_before 0 (omega arith), poll_loop)
        (poll_loop-FirstDone rounds busy done i _ (omega arith)
          (record { sees = f.sees; none_before = λ j l. f.none_before (suc j) (omega arith) }))

  -- The poll exits if no status within the bound shows that.
  pub poll_loop_exits :
      (rounds busy done : ℕ) (s : Session D)
      → ((j : ℕ) → j < rounds → is_finished busy done (status_read (at_poll j s)) ≡ false)
      → poll_loop rounds busy done s ≡ exited
  unfolding poll_loop at_poll
  poll_loop_exits zero busy done s h = refl
  poll_loop_exits (suc rounds) busy done s h =
      rw (h 0 (omega arith), poll_loop)
        (poll_loop_exits rounds busy done _ λ j l. h (suc j) (omega arith))
