-- ===== src/Host.antt =====
-- The command-queue producer: linux/uio/accel_cmdq_host.c and linux/include/accel_cmdq_host.h.
-- A C function that updates `*host` and the device returns its code with both. The callbacks are
-- whatever the caller passes: functions on the world, which is their context and the shared memory.
pub mod Push
pub mod Reset
pub mod Device
pub mod Submit
pub mod Regression
use risc_v_computer_zybo.Base.{
  ℕ, ◌+◌, ◌-◌, ◌*◌, ◌/◌, ◌%◌, ◌^◌, ◌<◌, Bool, true, false, Option, none, some, Outcome, ok,
  undefined, ltb, ◌==◌, if◌then◌else◌,
}
use risc_v_computer_zybo.Word.{word, add32, mul32}
use risc_v_computer_zybo.Memory.{Mem, clear, Desc, load_desc, store_desc, desc_bytes}
use risc_v_computer_zybo.Registers.{Reg, offset}

pub record World (Ctx : Type 0) : Type 0 where
  pub ctx : Ctx
  pub umem : Mem

-- `accel_cmdq_reg_read_fn` and `accel_cmdq_reg_write_fn`.
abbrev pub RegRead : Type 0 → Type 0
RegRead Ctx = World Ctx → ℕ → ℕ × World Ctx

abbrev pub RegWrite : Type 0 → Type 0
RegWrite Ctx = World Ctx → ℕ → ℕ → World Ctx

-- `accel_cmdq_host_t`. A pointer that is NULL is `none`; `umem` keeps only whether it is set, since
-- the bytes behind it are `World.umem`.
pub record Host (Ctx : Type 0) : Type 0 where
  pub reg_read : Option (RegRead Ctx)
  pub reg_write : Option (RegWrite Ctx)
  pub umem : Bool
  pub umem_bytes : ℕ
  pub cmdq_base_offset : ℕ
  pub cmdq_size_bytes : ℕ
  pub cached_head : ℕ
  pub cached_tail : ℕ

-- 0, -EINVAL, -ERANGE, -ENOSPC.
pub data Code : Type 0 where
  success einval erange enospc : Code

-- What a call leaves behind; `none` for `*host` stands for the NULL that was passed.
abbrev pub Ret : Type 0 → Type 0
Ret Ctx = Code × Option (Host Ctx) × World Ctx

module _ {Ctx : Type 0} where
  unfoldable pub limit_bytes : Host Ctx → ℕ
  limit_bytes h =
      if ltb h.umem_bytes (add32 h.cmdq_base_offset h.cmdq_size_bytes)
      then h.umem_bytes
      else add32 h.cmdq_base_offset h.cmdq_size_bytes

  unfoldable pub entry_count : Host Ctx → ℕ
  entry_count h =
      let bytes = if ltb h.cmdq_size_bytes desc_bytes then desc_bytes else h.cmdq_size_bytes in
      let whole = bytes - bytes % desc_bytes in
      let used = if whole == 0 then desc_bytes else whole in used / desc_bytes

  -- The offset of the pointer that `host_desc_mut` returns, `none` for NULL.
  unfoldable pub desc_mut : Host Ctx → ℕ → Option ℕ
  desc_mut h slot =
      let at = add32 h.cmdq_base_offset (mul32 (slot % entry_count h) desc_bytes) in
      if ltb (limit_bytes h) (add32 at desc_bytes) then none else some at

  -- `accel_cmdq_host_desc`: the same pointer, for reading.
  unfoldable pub desc : Host Ctx → ℕ → Option ℕ
  unfolding desc_mut
  desc h slot = desc_mut h slot

  -- The reads of `accel_cmdq_host_sync`, in order.
  abbrev pub read_registers : RegRead Ctx → Host Ctx → World Ctx → Host Ctx × World Ctx
  read_registers reg_read h w0 =
      let (base, w1) = reg_read w0 (offset Reg.umem_cmdq_base) in
      let (size, w2) = reg_read w1 (offset Reg.umem_cmdq_size) in
      let (head, w3) = reg_read w2 (offset Reg.umem_cmdq_head) in
      let (tail, w4) = reg_read w3 (offset Reg.umem_cmdq_tail) in
      (
        record h {
          cmdq_base_offset = base;
          cmdq_size_bytes = size;
          cached_head = head;
          cached_tail = tail;
        },
        w4,
      )

  -- The guard of every call: both callbacks, if they and the memory are set.
  abbrev pub callbacks : Host Ctx → Option (RegRead Ctx × RegWrite Ctx)
  callbacks h = elim h.reg_read [
    | none ↦ none
    | some reg_read ↦ elim h.reg_write [
      | none ↦ none
      | some reg_write ↦ if h.umem then some (reg_read, reg_write) else none
    ]
  ]

  unfoldable pub sync : Option (Host Ctx) → World Ctx → Ret Ctx
  unfolding offset
  sync none w = (einval, none, w)
  sync (some h) w = elim (callbacks h) [
    | none ↦ (einval, some h, w)
    | some (reg_read, reg_write) ↦
        let (h', w') = read_registers reg_read h w in (success, some h', w')
  ]

  unfoldable pub init :
      Option (Host Ctx)
      → Option (RegRead Ctx)
      → Option (RegWrite Ctx)
      → Bool
      → ℕ
      → World Ctx
      → Ret Ctx
  unfolding sync
  init none reg_read reg_write umem umem_bytes w = (einval, none, w)
  init (some h) reg_read reg_write umem umem_bytes w =
      let fresh = record h {
        reg_read = reg_read;
        reg_write = reg_write;
        umem = umem;
        umem_bytes = umem_bytes;
        cmdq_base_offset = 0;
        cmdq_size_bytes = 0;
        cached_head = 0;
        cached_tail = 0;
      } in
      elim (callbacks fresh) [ none ↦ (einval, some h, w) | some _ ↦ sync (some fresh) w ]

  -- What `accel_cmdq_host_reset` does after its `sync`. The `memset` is undefined past the memory.
  abbrev pub reset_synced : RegWrite Ctx → Host Ctx → World Ctx → Outcome (Ret Ctx)
  reset_synced reg_write h w =
      if ltb h.umem_bytes (add32 h.cmdq_base_offset h.cmdq_size_bytes)
      then ok (erange, some h, w)
      else if ltb h.umem_bytes (h.cmdq_base_offset + h.cmdq_size_bytes)
      then undefined
      else let w1 = record w { umem = clear w.umem h.cmdq_base_offset h.cmdq_size_bytes } in
        let w2 = reg_write w1 (offset Reg.umem_cmdq_head) 0 in
        let w3 = reg_write w2 (offset Reg.umem_cmdq_tail) 0 in
        let w4 = reg_write w3 (offset Reg.umem_cmdq_doorbell) 0 in
        ok (success, some (record h { cached_head = 0; cached_tail = 0 }), w4)

  -- `reset` by the code that its `sync` returned. A successful `sync` has checked the callbacks.
  abbrev pub reset_after : Ret Ctx → Outcome (Ret Ctx)
  reset_after (success, some h, w) = elim h.reg_write [
    | none ↦ undefined
    | some reg_write ↦ reset_synced reg_write h w
  ]
  reset_after (code, host, w) = ok (einval, host, w)

  unfoldable pub reset : Option (Host Ctx) → World Ctx → Outcome (Ret Ctx)
  unfolding sync
  reset host w = reset_after (sync host w)
