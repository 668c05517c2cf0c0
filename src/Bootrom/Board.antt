-- ===== src/Bootrom/Board.antt =====
-- The whole board that the monitor of firmware/bootrom/bootrom.c drives: the machine of the boot
-- loader with the inference unit, the LED, and what the devices answer in one round of its loop.
use Prim.Native.String.{String}
use risc_v_computer_zybo.Base.{codes, ℕ, ◌%◌, Option, none, some, if◌then◌else◌, ◌==◌}
use risc_v_computer_zybo.Bootrom.{Machine, uart_puts}
use risc_v_computer_zybo.Bootrom.Npu.{NpuMmio}

-- `led_value` is a local of `main`.
pub record Board : Type 0 where
  pub machine : Machine
  pub npu : NpuMmio
  pub uart_divider : ℕ
  pub gpio : ℕ
  pub led_value : ℕ

-- What UART_DATA, the keyboard and TIMER_COUNT_LO answer.
pub record Input : Type 0 where
  pub uart_data : ℕ
  pub ps2 : Option ℕ
  pub timer : ℕ

-- `uart_try_getc`; `none` is the result -1.
unfoldable pub uart_try_getc : ℕ → Option ℕ
uart_try_getc value = if value == 0xFFFFFFFF then none else some (value % 256)

abbrev pub on_machine : (Machine → Machine) → Board → Board
on_machine f b = record b { machine = f b.machine }

abbrev pub say : String → Board → Board
say s = on_machine (uart_puts (codes s))
