-- ===== src/Bootrom/Monitor.antt =====
-- The monitor of firmware/bootrom/bootrom.c: its printers, `run_loaded_program`, and `main` as its
-- start and one round of its loop. A loaded program is code that is not the firmware's: it is a
-- function of its entry address and the board, and `none` when it never returns.
pub mod Prompt
pub mod Tells
pub mod Polls
pub mod Sound
pub mod Ram
use Prim.Native.String.{String}
use risc_v_computer_zybo.Base.{
  codes, ℕ, ◌+◌, ◌-◌, ◌/◌, ◌%◌, ◌||◌, Option, none, some, ◌≡◌, if◌then◌else◌, ◌==◌,
}
use risc_v_computer_zybo.Memory.{load32}
use risc_v_computer_zybo.Bootrom.{
  Machine, uart_putc, uart_puts, boot_info, boot_loaded, boot_entry_addr,
}
use risc_v_computer_zybo.Bootrom.Loader.{retry_sd_boot}
use risc_v_computer_zybo.Bootrom.Keyboard.{poll_ps2_command}
use risc_v_computer_zybo.Bootrom.Hex.{hex_digit, uart_put_hex32}
use risc_v_computer_zybo.Bootrom.RamTest.{run_ram_test}
use risc_v_computer_zybo.Bootrom.Board.{Board, Input, uart_try_getc, on_machine, say}
use risc_v_computer_zybo.Bootrom.NpuTests.{
  run_npu_mmio_test, run_npu_pcpi_test, run_npu_vec16_test, run_npu_matvec_test,
}

abbrev pub puts : String → Machine → Machine
puts s = uart_puts (codes s)

unfoldable pub banner : Machine → Machine
banner m =
    puts
      "h=help c=clear l=led b=boot k=ps2 i=info m=mem t=time r=ram n=npu p=pcpi v=vec16 x=mat g=go\n> "
      (puts "RV32 PC\n" m)

unfoldable pub show_help : Machine → Machine
show_help = puts "CMDS:h c l b k i m t r n p v x g\n> "

unfoldable pub show_ps2_status : Machine → Machine
show_ps2_status m =
    let raw = boot_info m 6 % 256 in
    let ascii = boot_info m 7 % 256 in
    if raw == 0
    then puts "PS2=ER\n> " m
    else let high = uart_putc (hex_digit (raw / 16 % 16)) (puts "PS2=OK RAW=" m) in
      let low = uart_putc (hex_digit (raw % 16)) high in
      puts "\n> " (uart_putc (if ascii == 0 then b'?' else ascii) (puts " ASCII=" low))

unfoldable pub show_boot_info : Machine → Machine
show_boot_info m =
    let m1 = uart_putc (if boot_loaded m == 0 then b'0' else b'1') (puts "BOOTLD=" m) in
    let m2 = uart_put_hex32 (boot_entry_addr m1) (puts " ENTRY=" m1) in
    puts "\n> " (uart_put_hex32 (boot_info m 5) (puts " STATUS=" m2))

-- `REG32(boot_info[1])` reads the memory at whatever address that word is.
unfoldable pub dump_memory_snapshot : Machine → Machine
dump_memory_snapshot m =
    let m1 = uart_put_hex32 (boot_info m 0) (puts "BI0=" m) in
    puts "\n> " (uart_put_hex32 (load32 m.sram (boot_info m 1)) (puts " APP0=" m1))

unfoldable pub show_time_snapshot : ℕ → Machine → Machine
show_time_snapshot timer m = puts "\n> " (uart_put_hex32 timer (puts "TIME=" m))

-- case 'c'
abbrev pub clear_screen : Machine → Machine
clear_screen m = puts "> " (uart_putc 0x0c m)

-- `led_value ^= 1u; gpio_write(led_value);` and the message.
unfoldable pub toggle_led : Board → Board
toggle_led b =
    let led = if b.led_value % 2 == 0 then b.led_value + 1 else b.led_value - 1 in
    say (if led == 0 then "LED=0\n> " else "LED=1\n> ") (record b { led_value = led; gpio = led })

-- `main` up to its loop.
abbrev pub start : Board → Board
start b =
    let lit = record b { uart_divider = 868; led_value = 1; gpio = 1 } in
    on_machine (λ m. retry_sd_boot (banner m)) lit

-- The echo of a character, with a new line.
abbrev pub echoed : ℕ → Machine → Machine
echoed ch m = uart_putc b'\n' (uart_putc b'\r' (uart_putc ch m))

-- The character of a round: that of the UART, or else the key's.
unfoldable pub next_char : Input → Board → Option ℕ × Board
next_char i b = elim (uart_try_getc i.uart_data) [
  | some ch ↦ (some ch, b)
  | none ↦ let (key, m) = poll_ps2_command i.ps2 b.machine in (key, record b { machine = m })
]

module _ (program : ℕ → Board → Option Board) where
  abbrev pub returned : Option Board → Option Board
  returned none = none
  returned (some b) = some (say "GO=RET\n> " b)

  unfoldable pub run_loaded_program : Board → Option Board
  run_loaded_program b =
      if boot_loaded b.machine == 0
      then some (say "GO=ER\n> " b)
      else returned (program (boot_entry_addr b.machine) b)

  -- `switch ((char)ch)`
  unfoldable pub command : ℕ → Input → Board → Option Board
  command ch i b =
      if ch == b'h' || ch == b'?'
      then some (on_machine show_help b)
      else if ch == b'c'
      then some (on_machine clear_screen b)
      else if ch == b'b'
      then some (on_machine retry_sd_boot b)
      else if ch == b'k'
      then some (on_machine show_ps2_status b)
      else if ch == b'i'
      then some (on_machine show_boot_info b)
      else if ch == b'm'
      then some (on_machine dump_memory_snapshot b)
      else if ch == b't'
      then some (on_machine (show_time_snapshot i.timer) b)
      else if ch == b'r'
      then some (on_machine run_ram_test b)
      else if ch == b'n'
      then some (run_npu_mmio_test b)
      else if ch == b'p'
      then some (run_npu_pcpi_test b)
      else if ch == b'v'
      then some (run_npu_vec16_test b)
      else if ch == b'x'
      then some (run_npu_matvec_test b)
      else if ch == b'g'
      then run_loaded_program b
      else if ch == b'l'
      then some (toggle_led b)
      else some (say "?\n> " b)

  unfoldable pub serve : Input → Option ℕ × Board → Option Board
  serve i (none, b) = some b
  serve i (some ch, b) = command ch i (on_machine (echoed ch) b)

  -- One round of `for (;;)`; `none` when the program that it called never returns.
  unfoldable pub round : Input → Board → Option Board
  round i b = serve i (next_char i b)

  -- The states at the head of the loop.
  pub data Reaches (power_on : Board) : Board → Type 0 where
    started : Reaches power_on (start power_on)
    next :
        {b b' : Board} (i : Input) → Reaches power_on b → round i b ≡ some b' → Reaches power_on b'
