-- ===== src/Tests/Spi.antt =====
-- The SPI transfer from the reset state, with a card that sends 0xA5 over and over.
use risc_v_computer_zybo.Base.{ℕ, ◌*◌, ◌%◌, ◌≡◌, refl, arith, Bool, ◌||◌, ◌==◌, []}
use risc_v_computer_zybo.Bootrom.{Machine, transfer_byte}
use risc_v_computer_zybo.Bootrom.Spi.{Wire, at_reset, spi_transfer_byte}
use risc_v_computer_zybo.Bootrom.Spi.Shift.{bits_read}
use risc_v_computer_zybo.Bootrom.Spi.Transfer.{Gives, Represents, transfer_byte_refines}
use risc_v_computer_zybo.Tests.Boot.{gcc_bss}

-- The bits 1, 0, 1, 0, 0, 1, 0, 1.
abbrev demo_card : ℕ → Bool
demo_card n = n % 8 == 0 || n % 8 == 2 || n % 8 == 5 || n % 8 == 7

abbrev reset_machine : Machine
reset_machine = record {
  bss = gcc_bss;
  sram = λ _. 0;
  card = λ n. bits_read demo_card 8 (8 * n) 0;
  transfers = 0;
  spi_divider = 250;
  uart = [];
}

abbrev reset_wire : Wire
reset_wire = record { spi = at_reset; shifted = 0 }

reset_machine-Represents : Represents demo_card reset_machine reset_wire
reset_machine-Represents = record {
  sends = λ n. refl;
  last = 0;
  idle = record { busy = refl; sclk = refl; div = refl; value = refl; shifted = refl };
}

reset_byte : (transfer_byte reset_machine).0 ≡ 0xA5
unfolding bits_read
reset_byte = refl

transfer_byte_refines_example :
    Gives demo_card
      (λ r.
        (r.0 ≡ (transfer_byte reset_machine).0)
        × Represents demo_card (transfer_byte reset_machine).1 r.1)
      (spi_transfer_byte demo_card 5000 3 0xFF reset_wire)
transfer_byte_refines_example =
    transfer_byte_refines demo_card 5000 3 0xFF reset_machine reset_wire reset_machine-Represents
      (omega arith)
