-- ===== src/Driver/Frame.antt =====
-- The framebuffer as linux/uio/accel_mmio_demo.c reads and writes it out: `read_framebuffer_rows`,
-- `write_framebuffer_pbm`, `dump_framebuffer_rows` and `read_umem_framebuffer_rows_at`.
pub mod Pbm
pub mod Rows
use risc_v_computer_zybo.Base.{
  ℕ, zero, suc, ◌+◌, ◌*◌, ◌≡◌, Bool, true, false, List, [], ◌∷◌, ◌++◌, update, codes, Outcome, ok,
  exited, ◌>>=◌, if◌then◌else◌, ◌==◌,
}
use risc_v_computer_zybo.Word.{test_bit, add32, mul32}
use risc_v_computer_zybo.Registers.{Reg, offset}
use risc_v_computer_zybo.Emulator.{fb_rows, fb_cols}
use risc_v_computer_zybo.Emulator.Umem.{read32}
use risc_v_computer_zybo.Driver.{
  FilePath, Line, Platform, Session, backend_read, backend_write, print,
}

-- `rows[GPU_FB_ROWS]`, by index. A local of a caller is not initialised: it starts as any rows.
abbrev pub Rows : Type 0
Rows = ℕ → ℕ

-- `(rows[y] & (1u << x)) ? '1' : '0'`, with a space between two and a new line after the last: the
-- columns left, from `x` on.
unfoldable pub pbm_row : ℕ → ℕ → ℕ → List ℕ
pbm_row zero x row = b'\n' ∷ []
pbm_row (suc left) x row =
    let rest = pbm_row left (x + 1) row in
    (if test_bit row x then b'1' else b'0') ∷ (if left == 0 then rest else b' ' ∷ rest)

unfoldable pub pbm_rows : ℕ → ℕ → Rows → List ℕ
pbm_rows zero y rows = []
pbm_rows (suc left) y rows = pbm_row fb_cols 0 (rows y) ++ pbm_rows left (y + 1) rows

-- The text of the file.
abbrev pub pbm_text : Rows → List ℕ
pbm_text rows = codes "P1\n32 32\n" ++ pbm_rows fb_rows 0 rows

-- A row of the printed picture.
unfoldable pub dump_row : ℕ → ℕ → ℕ → List ℕ
dump_row zero x row = []
dump_row (suc left) x row = (if test_bit row x then b'#' else b'.') ∷ dump_row left (x + 1) row

module _ {D : Type 0} where
  unfoldable pub dump_rows : ℕ → ℕ → Rows → Session D → Session D
  dump_rows zero y rows s = s
  dump_rows (suc left) y rows s =
      dump_rows left (y + 1) rows (print (Line.picture y (dump_row fb_cols 0 (rows y))) s)

  abbrev pub dump_framebuffer_rows : Rows → Session D → Session D
  dump_framebuffer_rows rows s =
      dump_rows fb_rows 0 rows
        (print (Line.heading "\nframebuffer 32x32 ('.' empty, '#' filled)\n") s)

  -- The rows are not read if the program does not emulate.
  unfoldable pub umem_rows : ℕ → ℕ → ℕ → ℕ → Rows → Session D → Outcome Rows
  umem_rows zero row fb_offset pitch rows s = ok rows
  umem_rows (suc left) row fb_offset pitch rows s = do
    v ← read32 s.emu (add32 fb_offset (mul32 row pitch))
    umem_rows left (row + 1) fb_offset pitch (update rows row v) s

  unfoldable pub read_umem_framebuffer_rows_at : ℕ → ℕ → Rows → Session D → Outcome Rows
  read_umem_framebuffer_rows_at fb_offset pitch rows s = elim s.emulate [
    | true ↦ umem_rows fb_rows 0 fb_offset pitch rows s
    | false ↦ ok (λ _. 0)
  ]

  abbrev pub read_umem_framebuffer_rows : Rows → Session D → Outcome Rows
  read_umem_framebuffer_rows rows s =
      read_umem_framebuffer_rows_at s.emu.umem.gpu_fb_offset s.emu.umem.gpu_fb_pitch rows s

module _ {D : Type 0} (p : Platform D) where
  unfoldable pub write_framebuffer_pbm : FilePath → Rows → Session D → Outcome (Session D)
  write_framebuffer_pbm path rows s = elim (p.can_write path) [
    | true ↦ ok (record s { files = s.files ++ ((path, pbm_text rows) ∷ []) })
    | false ↦ exited
  ]

  -- The loop of `read_framebuffer_rows`, on the rounds left.
  unfoldable pub read_rows : ℕ → ℕ → Rows → Session D → Outcome (Rows × Session D)
  read_rows zero row rows s = ok (rows, s)
  read_rows (suc left) row rows s = do
    s' ← backend_write p (offset Reg.gpu_fb_rowsel) row s
    let (v, s'') = backend_read p (offset Reg.gpu_fb_rowdata) s'
    read_rows left (row + 1) (update rows row v) s''

  abbrev pub read_framebuffer_rows : Rows → Session D → Outcome (Rows × Session D)
  read_framebuffer_rows = read_rows fb_rows 0
