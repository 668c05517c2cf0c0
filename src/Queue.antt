-- ===== src/Queue.antt =====
-- The ring of command descriptors in shared memory: the view of it that the producer
-- (linux/uio/accel_cmdq_host.c) and the emulated consumer (linux/uio/accel_mmio_demo.c) share.
pub mod Laws
use risc_v_computer_zybo.Base.{
  Bool, true, false, ℕ, zero, suc, ◌+◌, ◌-◌, ◌*◌, ◌%◌, List, [], ◌∷◌, ◌++◌, length, ltb,
  if◌then◌else◌,
}
use risc_v_computer_zybo.Memory.{Mem, Desc, load_desc, desc_bytes}

-- The address of a slot of a queue at `base`.
abbrev pub slot_at : ℕ → ℕ → ℕ
slot_at base s = base + s * desc_bytes

-- The steps from `tail` round to `head` in a ring of `n` slots.
abbrev pub distance : ℕ → ℕ → ℕ → ℕ
distance n tail head = if ltb head tail then head + n - tail else head - tail

module _ (m : Mem) (base n : ℕ) where
  -- The `k` descriptors from slot `s` on, going round at `n`: oldest first.
  abbrev pub window : ℕ → ℕ → List Desc
  window s zero = []
  window s (suc k) = load_desc m (slot_at base s) ∷ window ((s + 1) % n) k

  abbrev pub pending : ℕ → ℕ → List Desc
  pending tail head = window tail (distance n tail head)

-- The queue that a producer and a consumer agree on: a FIFO of at most `cap` descriptors. A push
-- says whether it was accepted.
unfoldable pub enqueue : ℕ → Desc → List Desc → Bool × List Desc
enqueue cap d q = if ltb (length q) cap then (true, q ++ (d ∷ [])) else (false, q)
