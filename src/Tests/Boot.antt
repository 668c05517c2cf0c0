-- ===== src/Tests/Boot.antt =====
-- The boot loader on two cards: an image above the boot-info block, and one on top of it.
use risc_v_computer_zybo.Base.{ℕ, ◌+◌, ◌%◌, arith, zero, suc, ◌≡◌, refl, true, List, [], ◌∷◌}
use risc_v_computer_zybo.Word.{word}
use risc_v_computer_zybo.Memory.{load32, store32}
use risc_v_computer_zybo.Bootrom.{Bss, Machine, uart_puts, boot_info, boot_loaded, boot_entry_addr}
use risc_v_computer_zybo.Bootrom.Loader.{
  Header, check_header, copy_loop, copy_image, clear_boot_info, write_boot_info, boot_header,
  retry_sd_boot, boot_info_magic, status_ok, status_bad_checksum,
}
use risc_v_computer_zybo.Bootrom.Loader.Copy.{coming, weighted, Copied, copy_image_lem}
use risc_v_computer_zybo.Bootrom.Loader.Left.{is_booted}
use risc_v_computer_zybo.Bootrom.Loader.Booted.{
  Booted, header_read, retry_sd_boot-Booted, retry_sd_boot_overwrites,
}
use risc_v_computer_zybo.Bootrom.RamTest.{ram_er, run_ram_test}
use risc_v_computer_zybo.Bootrom.RamTest.Refused.{run_ram_test-retry_sd_boot}

-- What a card sends: these bytes, then 0xFF.
abbrev sent : List ℕ → ℕ → ℕ
sent [] i = 0xff
sent (x ∷ xs) zero = x
sent (x ∷ xs) (suc i) = sent xs i

-- An image of five bytes that is loaded and entered at 0x100000xx, with its checksum.
abbrev card_for : ℕ → List ℕ
card_for low =
    0x52 ∷ 0x56 ∷ 0x50 ∷ 0x43 ∷ low ∷ 0x00 ∷ 0x00 ∷ 0x10 ∷ 0x05 ∷ 0x00 ∷ 0x00 ∷ 0x00 ∷ low ∷ 0x00
    ∷ 0x00 ∷ 0x10 ∷ 0x1a ∷ 0x00 ∷ 0x00 ∷ 0x00 ∷ 0x01 ∷ 0x00 ∷ 0x00 ∷ 0x00 ∷ 0x00 ∷ 0x00 ∷ 0x00
    ∷ 0x00 ∷ 0x00 ∷ 0x00 ∷ 0x00 ∷ 0x00 ∷ 0x13 ∷ 0x00 ∷ 0x00 ∷ 0x00 ∷ 0x07 ∷ []

-- The order of the statics that gcc chooses.
abbrev pub gcc_bss : Bss
gcc_bss = record {
  extended_word = 0;
  break_word = 1;
  entry_word = 2;
  loaded_word = 3;
  extended_inside = omega arith;
  break_inside = omega arith;
  entry_inside = omega arith;
  loaded_inside = omega arith;
  loaded_entry = λ q. omega arith;
  loaded_break = λ q. omega arith;
  loaded_extended = λ q. omega arith;
  entry_break = λ q. omega arith;
  entry_extended = λ q. omega arith;
  break_extended = λ q. omega arith;
}

-- A machine with these bytes on its card. The statics start as the RAM has them.
abbrev pub machine_with : List ℕ → Machine
machine_with bytes = record {
  bss = gcc_bss;
  sram = λ _. 0xa5;
  card = sent bytes;
  transfers = 0;
  spi_divider = 0;
  uart = [];
}

abbrev pub machine_for : ℕ → Machine
machine_for low = machine_with (card_for low)

-- The image above the block boots, with its message and its bytes in place.
booted_test :
    let m = retry_sd_boot (machine_for 0x20) in
    (boot_loaded m ≡ 1)
    × (boot_entry_addr m ≡ 0x10000020)
    × (m.sram 0x10000024 ≡ 0x07)
    × (m.uart ≡ 0x42 ∷ 0x4f ∷ 0x4f ∷ 0x54 ∷ 0x3d ∷ 0x4f ∷ 0x4b ∷ 0x0d ∷ 0x0a ∷ 0x3e ∷ 0x20 ∷ [])
unfolding retry_sd_boot boot_header check_header copy_image copy_loop clear_boot_info
    write_boot_info uart_puts store32 load32
booted_test = (refl, refl, refl, refl)

retry_sd_boot-Booted_example :
    Booted
      (header_read (machine_for 0x20)).0
      (coming (header_read (machine_for 0x20)).1)
      (machine_for 0x20)
      (retry_sd_boot (machine_for 0x20))
retry_sd_boot-Booted_example = retry_sd_boot-Booted (machine_for 0x20)

boots_above :
    is_booted (header_read (machine_for 0x20)).0 (coming (header_read (machine_for 0x20)).1) ≡ true
unfolding check_header weighted clear_boot_info store32
boots_above = refl

run_ram_test-retry_sd_boot_example :
    run_ram_test (retry_sd_boot (machine_for 0x20))
    ≡ uart_puts ram_er (retry_sd_boot (machine_for 0x20))
run_ram_test-retry_sd_boot_example =
    run_ram_test-retry_sd_boot (machine_for 0x20) refl refl boots_above

boots_at_start :
    is_booted (header_read (machine_for 0x00)).0 (coming (header_read (machine_for 0x00)).1) ≡ true
unfolding check_header weighted clear_boot_info store32
boots_at_start = refl

loads_at_start : (header_read (machine_for 0x00)).0.load_addr ≡ 0x10000000
unfolding clear_boot_info store32
loads_at_start = refl

retry_sd_boot_overwrites_example :
    (load32 (retry_sd_boot (machine_for 0x00)).sram (header_read (machine_for 0x00)).0.load_addr
      ≡ boot_info_magic)
    × (load32
          (retry_sd_boot (machine_for 0x00)).sram
          ((header_read (machine_for 0x00)).0.load_addr + 20)
        ≡ status_ok)
retry_sd_boot_overwrites_example =
    retry_sd_boot_overwrites (machine_for 0x00) (λ q. omega arith) (λ q. omega arith) boots_at_start
      loads_at_start

-- An image of sixteen bytes at SRAM_BASE with a wrong checksum.
abbrev damaged : List ℕ
damaged =
    0x52 ∷ 0x56 ∷ 0x50 ∷ 0x43 ∷ 0x00 ∷ 0x00 ∷ 0x00 ∷ 0x10 ∷ 0x10 ∷ 0x00 ∷ 0x00 ∷ 0x00 ∷ 0x00 ∷ 0x00
    ∷ 0x00 ∷ 0x10 ∷ 0x77 ∷ 0x00 ∷ 0x00 ∷ 0x00 ∷ 0x01 ∷ 0x00 ∷ 0x00 ∷ 0x00 ∷ 0x00 ∷ 0x00 ∷ 0x00
    ∷ 0x00 ∷ 0x00 ∷ 0x00 ∷ 0x00 ∷ 0x00 ∷ 0x01 ∷ 0x02 ∷ 0x03 ∷ 0x04 ∷ 0x05 ∷ 0x06 ∷ 0x07 ∷ 0x08
    ∷ 0x09 ∷ 0x0a ∷ 0x0b ∷ 0x0c ∷ 0x0d ∷ 0x0e ∷ 0x0f ∷ 0x10 ∷ []

-- It is refused, and its words are the loaded flag and the entry address.
damaged_test :
    let m = retry_sd_boot (machine_with damaged) in
    (boot_info m 5 ≡ status_bad_checksum)
    × (boot_loaded m ≡ 0x100f0e0d)
    × (boot_entry_addr m ≡ 0x0c0b0a09)
unfolding retry_sd_boot boot_header check_header copy_image copy_loop clear_boot_info
    write_boot_info uart_puts store32 load32
damaged_test = (refl, refl, refl)

abbrev five_bytes : Header
five_bytes = record {
  magic = 0x43505652;
  load_addr = 0x10000020;
  size_bytes = 5;
  entry_addr = 0x10000020;
  expected_checksum = 0x1a;
  version = 1;
  reserved0 = 0;
  reserved1 = 0;
}

copy_image_lem_example :
    Copied 0x10000020 (machine_for 0x20) 5 (copy_image five_bytes (machine_for 0x20)).1
    × ((copy_image five_bytes (machine_for 0x20)).0 ≡ weighted (coming (machine_for 0x20)) 5 % word)
copy_image_lem_example = copy_image_lem five_bytes (machine_for 0x20)
