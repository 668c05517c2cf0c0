-- ===== src/Driver.antt =====
-- The demo program of linux/uio/accel_mmio_demo.c around its emulator: the process that runs it, its
-- backend, and the register accesses that it makes.
-- The kernel, the device behind the UIO file and the file system are parameters: a `Platform`. What
-- is printed is a list of lines, each a label with a value; the text of a heading ends its line.
pub mod Wait
pub mod Emulated
pub mod Frame
pub mod Sample
pub mod Unified
pub mod Queued
pub mod Program
use Prim.Native.String.{String}
use risc_v_computer_zybo.Base.{
  ℕ, Bool, true, false, Option, List, [], ◌∷◌, ◌++◌, Outcome, ok, ◌>>=◌, if◌then◌else◌,
}
use risc_v_computer_zybo.Base.Int.{ℤ}
use risc_v_computer_zybo.Word.{signed32}
use risc_v_computer_zybo.Registers.{Reg, offset}
use risc_v_computer_zybo.Emulator.{Emu}
use risc_v_computer_zybo.Emulator.Regs.{reg_read, reg_write}

-- The bytes of a path or an argument.
abbrev pub FilePath : Type 0
FilePath = List ℕ

-- `printf` of a line, by its format: `%08x`, `%02x`, `%u`, `%d`, `%s`, a text, a row of a picture.
-- The line of an interrupt count has the label of the unit before it.
pub data Line : Type 0 where
  hex byte unsigned irq_count : String → ℕ → Line
  signed : String → ℤ → Line
  string : String → FilePath → Line
  heading : String → Line
  picture : ℕ → List ℕ → Line

-- What the program relies on, over the states `D` of the device: a read and a write of a register
-- of the mapping, the pause of `usleep(100)`, the write that enables the interrupt and the read that
-- waits for one (`none` if the call fails), opening and mapping a device, and whether a file can be
-- opened for writing.
pub record Platform (D : Type 0) : Type 0 where
  pub mmio_read : ℕ → D → ℕ × D
  pub mmio_write : ℕ → ℕ → D → D
  pub pause : D → D
  pub enable_irq : D → Option D
  pub await_irq : D → Option (ℕ × D)
  pub open_device : FilePath → Option D
  pub can_write : FilePath → Bool

-- The process: `accel_backend_t`, with what was printed and the files that were written.
pub record Session (D : Type 0) : Type 0 where
  pub emulate : Bool
  pub device : D
  pub emu : Emu
  pub out : List Line
  pub files : List (FilePath × List ℕ)

module _ {D : Type 0} where
  abbrev pub print : Line → Session D → Session D
  print l s = record s { out = s.out ++ (l ∷ []) }

  -- Calls one after another.
  unfoldable pub in_order : List (Session D → Session D) → Session D → Session D
  in_order [] s = s
  in_order (f ∷ fs) s = in_order fs (f s)

module _ {D : Type 0} (p : Platform D) where
  -- `reg_read` and `reg_write`
  unfoldable pub backend_read : ℕ → Session D → ℕ × Session D
  backend_read at s = elim s.emulate [
    | true ↦ (reg_read s.emu at, s)
    | false ↦ let (v, d) = p.mmio_read at s.device in (v, record s { device = d })
  ]

  unfoldable pub backend_write : ℕ → ℕ → Session D → Outcome (Session D)
  backend_write at v s = elim s.emulate [
    | true ↦ do e ← reg_write s.emu at v; ok (record s { emu = e })
    | false ↦ ok (record s { device = p.mmio_write at v s.device })
  ]

  -- `printf(format, reg_read(...))`, the last also for the cast to int32_t.
  abbrev pub print_reg : (String → ℕ → Line) → String → Reg → Session D → Session D
  print_reg format label r s = let (v, s') = backend_read (offset r) s in print (format label v) s'

  abbrev pub print_signed : String → Reg → Session D → Session D
  print_signed label r s =
      let (v, s') = backend_read (offset r) s in print (Line.signed label (signed32 v)) s'

  -- `reg_write`s one after another.
  unfoldable pub write_all : List (Reg × ℕ) → Session D → Outcome (Session D)
  write_all [] s = ok s
  write_all ((r, v) ∷ ws) s = do s' ← backend_write (offset r) v s; write_all ws s'
