-- ===== src/Emulator/Typed/Reached.antt =====
-- The states of the emulator of linux/uio/accel_mmio_demo.c that a program reaches from `emu_init`.
use mathlib.Core.Path.{subst}
use risc_v_computer_zybo.Base.{ℕ, ◌<◌, ◌≡◌, arith, ok, Returns, Ensures}
use risc_v_computer_zybo.Word.{word}
use risc_v_computer_zybo.Memory.{Mem}
use risc_v_computer_zybo.Emulator.{Emu, init}
use risc_v_computer_zybo.Emulator.Regs.{reg_read, reg_write, emu_reg_read}
use risc_v_computer_zybo.Emulator.Typed.{Typed, Bytes, init-Typed}
use risc_v_computer_zybo.Emulator.Typed.Regs.{reg_write-Typed, emu_reg_read-IsRead}

-- Writes of registers with uint32_t values, and bytes that the program puts in the unified memory
-- itself, as it does with its buffers and its descriptors.
pub data Reached : Emu → Type 0 where
  start : Reached init
  wrote : (e e' : Emu) (at v : ℕ) → Reached e → v < word → reg_write e at v ≡ ok e' → Reached e'
  filled : (e : Emu) (m : Mem) → Reached e → Bytes m → Reached (record e { unified_mem = m })

Reached-Typed : (e : Emu) → Reached e → Typed e
Reached-Typed _ start = init-Typed
Reached-Typed _ (wrote e e' at v r h w) =
    subst (Ensures Typed) w (reg_write-Typed e at v h (Reached-Typed e r))
Reached-Typed _ (filled e m r b) = kept (Reached-Typed e r)
  where
    kept : Typed e → Typed (record e { unified_mem = m })
    kept t = ground arith

-- In every state that a program reaches from `emu_init` by writes of uint32_t values to registers and
-- of bytes to the unified memory, each integer field of the emulator is in the range of its C type, the
-- selected row is one of the 32 rows, the class is 0 or 1 and the interrupt enables are two bits; so a
-- read of any register offset is defined (its row is inside the framebuffer) and gives a uint32_t, the
-- value of its case.
pub reached_reads-Typed :
    (e : Emu) (at : ℕ)
    → Reached e
    → Typed e × Returns (λ v. (v ≡ reg_read e at) × (v < word)) (emu_reg_read e at)
reached_reads-Typed e at r = (Reached-Typed e r, emu_reg_read-IsRead e at (Reached-Typed e r))
