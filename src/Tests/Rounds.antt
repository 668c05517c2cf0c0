-- ===== src/Tests/Rounds.antt =====
-- The monitor of the boot firmware at concrete inputs.
use risc_v_computer_zybo.Base.{ℕ, ◌≡◌, refl, sym, ap, false, Option, none, some}
use mathlib.Core.Path.{subst}
use mathlib.Core.Option.{some-injective}
use risc_v_computer_zybo.Memory.{load32, store32}
use risc_v_computer_zybo.Bootrom.{uart_puts, boot_loaded}
use risc_v_computer_zybo.Bootrom.Statics.{KeepsLoader}
use risc_v_computer_zybo.Bootrom.Loader.{
  check_header, copy_loop, copy_image, clear_boot_info, write_boot_info, boot_header, retry_sd_boot,
}
use risc_v_computer_zybo.Bootrom.Npu.{NpuMmio}
use risc_v_computer_zybo.Bootrom.Board.{Board, Input, uart_try_getc}
use risc_v_computer_zybo.Bootrom.Monitor.{
  banner, start, command, next_char, serve, round, started, next,
}
use risc_v_computer_zybo.Bootrom.Monitor.Sound.{Sound, KeepsFirmware, Reaches-Sound}
use risc_v_computer_zybo.Tests.Boot.{machine_for}

abbrev reset_npu : NpuMmio
reset_npu = record {
  vec_a_reg = 0;
  vec_b_reg = 0;
  result_reg = 0;
  mat_row1_reg = 0;
  mat_row2_reg = 0;
  mat_row3_reg = 0;
  mat_res1_reg = 0;
  mat_res2_reg = 0;
  mat_res3_reg = 0;
  done_reg = false;
}

-- A board at power-on, with a card that holds an image.
abbrev power_on : Board
power_on = record {
  machine = machine_for 0x20;
  npu = reset_npu;
  uart_divider = 0;
  gpio = 0;
  led_value = 0;
}

-- A program that clears the LED and returns.
abbrev program : ℕ → Board → Option Board
program a b = some (record b { gpio = 0 })

program-KeepsFirmware : KeepsFirmware program
program-KeepsFirmware = record {
  loader = λ a b b' e.
      subst (λ x. KeepsLoader b.machine x.machine) (some-injective _ _ e)
        (record { loaded = refl; entry = refl; status = refl });
  led = λ a b b' e. ap (λ x. x.led_value) (sym (some-injective _ _ e));
}

abbrev typed : ℕ → Input
typed ch = record { uart_data = ch; ps2 = none; timer = 0 }

-- The board after 'l' at the prompt.
after_l : (b : Board) × (round program (typed b'l') (start power_on) ≡ some b)
unfolding round serve next_char uart_try_getc command
after_l = (_, refl)

Reaches-Sound_example : Sound after_l.0
Reaches-Sound_example =
    Reaches-Sound program program-KeepsFirmware power_on after_l.0
      (next (typed b'l') started after_l.1)

-- The card's image is loaded before the first prompt.
loaded_test : boot_loaded (start power_on).machine ≡ 1
unfolding retry_sd_boot boot_header check_header copy_image copy_loop clear_boot_info
    write_boot_info uart_puts banner store32 load32
loaded_test = refl
