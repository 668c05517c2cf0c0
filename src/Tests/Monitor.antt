-- ===== src/Tests/Monitor.antt =====
-- The theorems on the keyboard, the printing of words and the RAM test at concrete inputs.
use risc_v_computer_zybo.Base.{
  ℕ, ◌+◌, ◌<◌, ◌==◌, if◌then◌else◌, ◌≡◌, ◌++◌, refl, arith, List, [], ◌∷◌, length,
}
use risc_v_computer_zybo.Word.{word}
use risc_v_computer_zybo.Memory.{load32}
use risc_v_computer_zybo.Bootrom.{Machine}
use risc_v_computer_zybo.Bootrom.Keyboard.{
  KeyEvent, press, release, extended_press, extended_release, AllKeys, no_keys, more_keys, IsClear,
  decode_ps2_ascii, poll_all, all_codes, commands, poll_all-commands,
}
use risc_v_computer_zybo.Bootrom.Hex.{uart_put_hex32, hex_value, uart_put_hex32_lem}
use risc_v_computer_zybo.Bootrom.RamTest.{RamTested, run_ram_test, run_ram_test-RamTested}
use risc_v_computer_zybo.Tests.Boot.{machine_for}

-- 'h' is pressed and released, an arrow key is pressed and released, 'b' is pressed.
abbrev keys : List KeyEvent
keys = press 0x33 ∷ release 0x33 ∷ extended_press 0x75 ∷ extended_release 0x75 ∷ press 0x32 ∷ []

keys-AllKeys : AllKeys keys
keys-AllKeys =
    more_keys (omega arith, (λ e. omega arith), (λ e. omega arith))
      (more_keys (omega arith, (λ e. omega arith), (λ e. omega arith))
        (more_keys (omega arith, (λ e. omega arith), (λ e. omega arith))
          (more_keys (omega arith, (λ e. omega arith), (λ e. omega arith))
            (more_keys (omega arith, (λ e. omega arith), (λ e. omega arith)) no_keys))))

keys_test : commands keys ≡ 0x68 ∷ 0x62 ∷ []
unfolding commands decode_ps2_ascii
keys_test = refl

-- A machine with a cleared RAM, and so with clear prefixes.
abbrev cleared : Machine
cleared = record (machine_for 0x20) { sram = λ _. 0 }

cleared-IsClear : IsClear cleared
unfolding load32
cleared-IsClear = (refl, refl)

poll_all-commands_example :
    let (cs, m') = poll_all (all_codes keys) cleared in (cs ≡ commands keys) × IsClear m'
poll_all-commands_example = poll_all-commands keys cleared keys-AllKeys cleared-IsClear

uart_put_hex32_lem_example :
    (s : List ℕ) × (uart_put_hex32 0x1000BEEF (machine_for 0x20)
      ≡ record (machine_for 0x20) { uart = [] ++ s })
    × (length s ≡ 8)
    × (hex_value 0 s ≡ 0x1000BEEF)
uart_put_hex32_lem_example = uart_put_hex32_lem 0x1000BEEF (machine_for 0x20) (omega arith)

-- A machine whose boot info tells of an image of five bytes at 0x10000020, and whose loaded flag, the
-- fourth word of .bss, is set.
abbrev booted : Machine
booted = record (machine_for 0x20) {
  sram = λ a.
      if a == 0x10000004
      then 0x20
      else if a == 0x10000007
      then 0x10
      else if a == 0x10000008
      then 5
      else if a == 0x1000000C
      then 1
      else 0;
}

booted_end : load32 booted.sram 0x10000004 + load32 booted.sram 0x10000008 + 47 < word
unfolding load32
booted_end = omega arith

run_ram_test-RamTested_example : RamTested booted (run_ram_test booted)
run_ram_test-RamTested_example = run_ram_test-RamTested booted booted_end
