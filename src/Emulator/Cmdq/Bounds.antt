-- ===== src/Emulator/Cmdq/Bounds.antt =====
-- The bound test of `emu_cmdq_desc_ptr`.
use risc_v_computer_zybo.Base.{
  ℕ, ◌+◌, ◌%◌, ◌≤◌, ◌<◌, ◌≡◌, arith, ok, exited, undefined, ltb, if◌then◌else◌,
}
use risc_v_computer_zybo.Word.{word}
use risc_v_computer_zybo.Memory.{desc_bytes}
use risc_v_computer_zybo.Queue.{slot_at}
use risc_v_computer_zybo.Emulator.{Emu}
use risc_v_computer_zybo.Emulator.Umem.{limit_bytes, limit_bytes-le}
use risc_v_computer_zybo.Emulator.Cmdq.{entry_count, desc_ptr}

-- The address of the slot that an index stands for.
abbrev pub slot_of : Emu → ℕ → ℕ
slot_of e slot = slot_at e.cmdq.base_offset (slot % entry_count e.cmdq)

-- Where the end of a slot is a uint32_t, `emu_cmdq_desc_ptr` gives the slot's address if the slot ends
-- inside the limit of the memory, and exits if not.
pub desc_ptr_lem :
    (e : Emu) (slot : ℕ)
    → slot_of e slot + desc_bytes < word
    → desc_ptr e slot
      ≡ (if ltb (limit_bytes e) (slot_of e slot + desc_bytes) then exited else ok (slot_of e slot))
unfolding desc_ptr
desc_ptr_lem e slot small = ground (arith, limit_bytes-le e)

-- Where a slot below 2 ^ 32 ends at or past it, and the rest of the end is inside the limit, the test
-- passes and the pointer is outside the memory.
pub desc_ptr_wraps :
    (e : Emu) (slot : ℕ)
    → slot_of e slot < word
    → word ≤ slot_of e slot + desc_bytes
    → (slot_of e slot + desc_bytes) % word ≤ limit_bytes e
    → desc_ptr e slot ≡ undefined
unfolding desc_ptr
desc_ptr_wraps e slot lo hi small = ground arith
