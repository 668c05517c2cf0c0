-- ===== src/Emulator/Umem.antt =====
-- Access to the emulator's unified memory: `emu_umem_limit_bytes`, `emu_umem_word_ptr`,
-- `emu_umem_read32` and `emu_umem_write32` of linux/uio/accel_mmio_demo.c.
-- `offset + sizeof(uint32_t)` is a sum of 64-bit size_t, as on the hosts that the emulation is for.
use risc_v_computer_zybo.Base.{
  ℕ, ◌+◌, ◌≤◌, ◌≡◌, arith, Bool, ◌&&◌, Outcome, ok, exited, undefined, ◌>>=◌, ltb, if◌then◌else◌,
}
use risc_v_computer_zybo.Word.{test_bit, add32}
use risc_v_computer_zybo.Memory.{load32, store32}
use risc_v_computer_zybo.Emulator.{Emu, umem_bytes}

unfoldable pub limit_bytes : Emu → ℕ
limit_bytes e = if ltb e.umem.size_bytes umem_bytes then e.umem.size_bytes else umem_bytes

-- The offset of the pointer, once its bound is tested; a pointer past the array is undefined.
unfoldable pub word_ptr : Emu → ℕ → Outcome ℕ
unfolding limit_bytes
word_ptr e at =
    if ltb (limit_bytes e) (at + 4)
    then exited
    else if ltb umem_bytes (at + 4)
    then undefined
    else ok at

unfoldable pub read32 : Emu → ℕ → Outcome ℕ
unfolding word_ptr
read32 e at = do p ← word_ptr e at; ok (load32 e.unified_mem p)

unfoldable pub write32 : Emu → ℕ → ℕ → Outcome Emu
unfolding word_ptr
write32 e at v = do p ← word_ptr e at; ok (record e { unified_mem = store32 e.unified_mem p v })

-- `ACCEL_UMEM_CTRL_ENABLE` with another bit of `umem_ctrl`: both are set.
abbrev pub enabled_with : ℕ → ℕ → Bool
enabled_with ctrl k = test_bit ctrl 0 && test_bit ctrl k

-- The bit numbers of ACCEL_UMEM_CTRL_*.
abbrev pub bit_enable : ℕ
bit_enable = 0

abbrev pub bit_npu_use_buf : ℕ
bit_npu_use_buf = 1

abbrev pub bit_gpu_use_buf : ℕ
bit_gpu_use_buf = 2

abbrev pub bit_cmdq_enable : ℕ
bit_cmdq_enable = 3

-- The words inside the limit.
abbrev pub InLimit : Emu → ℕ → Type 0
InLimit e at = at + 4 ≤ limit_bytes e

pub limit_bytes-le : (e : Emu) → limit_bytes e ≤ umem_bytes
unfolding limit_bytes
limit_bytes-le e = ground arith

-- A read or write inside the limit returns; outside it the program exits; neither leaves the array.
pub read32_lem :
    (e : Emu) (at : ℕ)
    → read32 e at ≡ (if ltb (limit_bytes e) (at + 4) then exited else ok (load32 e.unified_mem at))
unfolding read32
read32_lem e at = ground arith

pub write32_lem :
    (e : Emu) (at v : ℕ)
    → write32 e at v ≡ (
        if ltb (limit_bytes e) (at + 4)
        then exited
        else ok (record e { unified_mem = store32 e.unified_mem at v }))
unfolding write32
write32_lem e at v = ground arith

pub write32-ok :
    (e : Emu) (at v : ℕ)
    → InLimit e at
    → write32 e at v ≡ ok (record e { unified_mem = store32 e.unified_mem at v })
write32-ok e at v h = ground (arith, write32_lem e at v)

pub read32-ok : (e : Emu) (at : ℕ) → InLimit e at → read32 e at ≡ ok (load32 e.unified_mem at)
read32-ok e at h = ground (arith, read32_lem e at)

-- The same at a word of a buffer that lies inside the limit.
pub read32-add32 :
    (e : Emu) (at k : ℕ)
    → at + k + 4 ≤ limit_bytes e
    → read32 e (add32 at k) ≡ ok (load32 e.unified_mem (at + k))
unfolding read32
read32-add32 e at k h = ground (arith, limit_bytes-le e)

pub write32-add32 :
    (e : Emu) (at k v : ℕ)
    → at + k + 4 ≤ limit_bytes e
    → write32 e (add32 at k) v ≡ ok (record e { unified_mem = store32 e.unified_mem (at + k) v })
unfolding write32
write32-add32 e at k v h = ground (arith, limit_bytes-le e)
