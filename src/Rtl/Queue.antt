-- ===== src/Rtl/Queue.antt =====
-- The front end of the command queue in hardware, rtl/accel/accel_cmdq_frontend_stub.v.
pub mod Doorbell
pub mod Round
use risc_v_computer_zybo.Base.{
  ℕ, zero, suc, ◌+◌, ◌*◌, ◌/◌, ◌%◌, ◌^◌, Bool, true, false, not, ◌&&◌, ◌||◌, ◌==◌, if◌then◌else◌,
}
use risc_v_computer_zybo.Word.{word, add32, mul32}

pub record Frontend : Type 0 where
  pub cmdq_tail_shadow : ℕ
  pub cmdq_status : ℕ
  pub fetch_valid : Bool
  pub fetch_slot : ℕ
  pub fetch_offset : ℕ
  pub fetch_sequence : ℕ
  pub processed_count : ℕ
  pub last_doorbell : ℕ
  pub fetch_inflight : Bool
  pub error_sticky : ℕ

-- The inputs at a clock edge.
pub record Inputs : Type 0 where
  pub enable : Bool
  pub cmdq_base_offset : ℕ
  pub cmdq_size_bytes : ℕ
  pub cmdq_head : ℕ
  pub cmdq_tail_seed : ℕ
  pub cmdq_doorbell : ℕ
  pub fetch_ready : Bool
  pub desc_done : Bool
  pub desc_error : Bool

-- CMDQ_STATUS_*
abbrev pub cmdq_status_busy : ℕ
cmdq_status_busy = 1

abbrev pub cmdq_status_error : ℕ
cmdq_status_error = 2

abbrev pub cmdq_status_empty : ℕ
cmdq_status_empty = 4

unfoldable pub slot_count : Inputs → ℕ
slot_count i = let raw = i.cmdq_size_bytes / 32 in if raw == 0 then 1 else raw

-- The three events of an enabled cycle.
abbrev pub is_starting : Inputs → Frontend → Bool
is_starting i q =
    not q.fetch_valid
    && not q.fetch_inflight
    && not (i.cmdq_head == q.cmdq_tail_shadow)
    && not (i.cmdq_doorbell == q.last_doorbell)

abbrev pub is_taken : Inputs → Frontend → Bool
is_taken i q = q.fetch_valid && i.fetch_ready

abbrev pub is_done : Inputs → Frontend → Bool
is_done i q = q.fetch_inflight && i.desc_done

abbrev pub next_tail : Inputs → Frontend → ℕ
next_tail i q =
    if is_done i q then add32 q.cmdq_tail_shadow 1 % slot_count i else q.cmdq_tail_shadow

abbrev pub next_count : Inputs → Frontend → ℕ
next_count i q = if is_done i q then add32 q.processed_count 1 else q.processed_count

-- The bits are disjoint, so `|` is a sum.
unfoldable pub next_status : Inputs → Frontend → ℕ
next_status i q =
    next_count i q % 2 ^ 16 * 2 ^ 16
    + (if not (q.error_sticky == 0) || i.desc_error then cmdq_status_error else 0)
    + (if not q.fetch_valid && not q.fetch_inflight && i.cmdq_head == next_tail i q
        then cmdq_status_empty
        else 0)
    + (if q.fetch_valid || q.fetch_inflight then cmdq_status_busy else 0)

-- `if (!enable)`
unfoldable pub disabled : Inputs → Frontend
disabled i = record {
  cmdq_tail_shadow = i.cmdq_tail_seed;
  cmdq_status = if i.cmdq_head == i.cmdq_tail_seed then cmdq_status_empty else 0;
  fetch_valid = false;
  fetch_slot = 0;
  fetch_offset = 0;
  fetch_sequence = 0;
  processed_count = 0;
  last_doorbell = i.cmdq_doorbell;
  fetch_inflight = false;
  error_sticky = 0;
}

-- Its `else`.
unfoldable pub enabled : Inputs → Frontend → Frontend
enabled i q =
    let tail_slot = q.cmdq_tail_shadow % slot_count i in
    record {
      cmdq_tail_shadow = next_tail i q;
      cmdq_status = next_status i q;
      fetch_valid = if is_taken i q then false else if is_starting i q then true else q.fetch_valid;
      fetch_slot = if is_starting i q then tail_slot % 2 ^ 16 else q.fetch_slot;
      fetch_offset =
          if is_starting i q then add32 i.cmdq_base_offset (mul32 tail_slot 32) else q.fetch_offset;
      fetch_sequence = if is_starting i q then q.processed_count else q.fetch_sequence;
      processed_count = next_count i q;
      last_doorbell = i.cmdq_doorbell;
      fetch_inflight =
          if is_done i q then false else if is_taken i q then true else q.fetch_inflight;
      error_sticky = if is_done i q && i.desc_error then 1 else q.error_sticky;
    }

-- A clock edge out of reset, and some with the inputs at each.
unfoldable pub clock : Inputs → Frontend → Frontend
clock i q = if i.enable then enabled i q else disabled i

unfoldable pub cycles : ℕ → (ℕ → Inputs) → Frontend → Frontend
cycles zero i q = q
cycles (suc n) i q = cycles n (λ k. i (suc k)) (clock (i 0) q)

-- The registers after `!resetn`.
abbrev pub at_reset : Frontend
at_reset = record {
  cmdq_tail_shadow = 0;
  cmdq_status = cmdq_status_empty;
  fetch_valid = false;
  fetch_slot = 0;
  fetch_offset = 0;
  fetch_sequence = 0;
  processed_count = 0;
  last_doorbell = 0;
  fetch_inflight = false;
  error_sticky = 0;
}
