-- ===== src/Driver/Frame/Rows.antt =====
-- `read_framebuffer_rows` of linux/uio/accel_mmio_demo.c on the emulator.
use risc_v_computer_zybo.Base.{
  ℕ, zero, suc, ◌+◌, ◌%◌, ◌<◌, ◌≤◌, ◌≡◌, refl, ap, arith, update, Returns, Returns-mono,
}
use risc_v_computer_zybo.Registers.{Reg}
use risc_v_computer_zybo.Emulator.{fb_rows}
use risc_v_computer_zybo.Emulator.Regs.{read_reg, write_reg}
use risc_v_computer_zybo.Driver.{Platform, Session}
use risc_v_computer_zybo.Driver.Emulated.{on_emu, emulated_read, emulated_write}
use risc_v_computer_zybo.Driver.Frame.{Rows, read_rows, read_framebuffer_rows}

abbrev pub selecting : {D : Type 0} → ℕ → Session D → Session D
selecting k s = record s { emu = record (s.emu) { gpu = record (s.emu.gpu) { fb_row_select = k } } }

-- Rows `row` to `row + left` were read; nothing of the process changed but the row that is selected.
pub record RowsRead {D : Type 0} (row left : ℕ) (rows : Rows) (s : Session D) (r : Rows × Session D)
    : Type 0 where
  pub read : (y : ℕ) → row ≤ y → y < row + left → r.0 y ≡ s.emu.gpu.framebuffer y
  pub kept : (y : ℕ) → y < row → r.0 y ≡ rows y
  pub session : (k : ℕ) × (r.1 ≡ selecting k s)

module _ {D : Type 0} (p : Platform D) where
  read_rows-RowsRead :
      (left row : ℕ) (rows : Rows) (s : Session D)
      → row + left ≤ fb_rows
      → Returns (RowsRead row left rows (on_emu s)) (read_rows p left row rows (on_emu s))
  unfolding read_rows write_reg read_reg
  read_rows-RowsRead zero row rows s l = record {
    read = λ y a b. absurd (omega arith);
    kept = λ y a. refl;
    session = (s.emu.gpu.fb_row_select, refl);
  }
  read_rows-RowsRead (suc left) row rows s l =
      rw
        (
          emulated_write p Reg.gpu_fb_rowsel row s,
          emulated_read p Reg.gpu_fb_rowdata (selecting (row % 32) s),
          read_rows,
        )
        (Returns-mono
          (RowsRead (row + 1) left (update rows row v) (on_emu (selecting (row % 32) s)))
          (RowsRead row (suc left) rows (on_emu s)) _
          (λ r h. record {
            read = λ y a b. ground (arith, h.read y, h.kept y, here);
            kept = λ y a. ground (arith, h.kept y);
            session = h.session;
          })
          (read_rows-RowsRead left (row + 1) (update rows row v) (selecting (row % 32) s)
            (omega arith)))
    where
      v : ℕ
      v = read_reg (selecting (row % 32) s).emu Reg.gpu_fb_rowdata

      here : v ≡ s.emu.gpu.framebuffer row
      here = ap s.emu.gpu.framebuffer (omega arith)

  -- On the emulator `read_framebuffer_rows` returns the 32 rows of the framebuffer, and changes
  -- nothing but the row that is selected.
  pub read_framebuffer_rows-RowsRead :
      (rows : Rows) (s : Session D)
      → Returns (RowsRead 0 fb_rows rows (on_emu s)) (read_framebuffer_rows p rows (on_emu s))
  read_framebuffer_rows-RowsRead rows s = read_rows-RowsRead fb_rows 0 rows s (omega arith)
