-- ===== src/Driver/Emulated.antt =====
-- Register accesses of the demo program in linux/uio/accel_mmio_demo.c when it emulates.
use risc_v_computer_zybo.Base.{ℕ, ◌≡◌, refl, true, ok, ◌>>=◌}
use risc_v_computer_zybo.Registers.{Reg, offset}
use risc_v_computer_zybo.Registers.Decode.{decode-offset}
use risc_v_computer_zybo.Emulator.Regs.{read_reg, reg_read, write_reg, reg_write}
use risc_v_computer_zybo.Driver.{Platform, Session, backend_read, backend_write}

abbrev pub on_emu : {D : Type 0} → Session D → Session D
on_emu s = record s { emulate = true }

module _ {D : Type 0} (p : Platform D) where
  pub emulated_read :
      (r : Reg) (s : Session D)
      → backend_read p (offset r) (on_emu s) ≡ (read_reg s.emu r, on_emu s)
  unfolding backend_read reg_read
  emulated_read r s = rw (decode-offset r, reg_read) refl

  pub emulated_write :
      (r : Reg) (v : ℕ) (s : Session D)
      → backend_write p (offset r) v (on_emu s)
        ≡ (write_reg s.emu v r >>= λ e. ok (on_emu (record s { emu = e })))
  unfolding backend_write reg_write
  emulated_write r v s = rw (decode-offset r, reg_write) refl
