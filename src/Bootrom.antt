-- ===== src/Bootrom.antt =====
-- The boot firmware, firmware/bootrom/bootrom.c and firmware/bootrom/platform.h: the machine that it
-- drives. Below: the image loader, the keyboard, the printing of words and the RAM test.
-- A transfer over SPI gives the next byte of what the card sends; Bootrom/Spi has its clock cycles. The
-- RAM is bytes by absolute address; the UART is what was sent, in order.
pub mod Statics
pub mod Loader
pub mod Keyboard
pub mod Hex
pub mod RamTest
pub mod Npu
pub mod Board
pub mod NpuTests
pub mod Monitor
pub mod Spi
use risc_v_computer_zybo.Base.{
  ℕ, ◌<◌, ◌≢◌, ◌+◌, ◌*◌, ◌/◌, ◌%◌, ◌^◌, List, [], ◌∷◌, ◌++◌, if◌then◌else◌, ◌==◌,
}
use risc_v_computer_zybo.Memory.{Mem, load32, store32}

-- SRAM_BASE and SRAM_SIZE_BYTES
abbrev pub sram_base : ℕ
sram_base = 0x10000000

abbrev pub sram_size_bytes : ℕ
sram_size_bytes = 0x10000

-- Where the four statics of bootrom.c lie. linker.ld puts .bss, which has nothing else, at the start
-- of the RAM; the order of the four words in it is the compiler's.
pub record Bss : Type 0 where
  pub loaded_word : ℕ
  pub entry_word : ℕ
  pub break_word : ℕ
  pub extended_word : ℕ
  pub loaded_inside : loaded_word < 4
  pub entry_inside : entry_word < 4
  pub break_inside : break_word < 4
  pub extended_inside : extended_word < 4
  pub loaded_entry : loaded_word ≢ entry_word
  pub loaded_break : loaded_word ≢ break_word
  pub loaded_extended : loaded_word ≢ extended_word
  pub entry_break : entry_word ≢ break_word
  pub entry_extended : entry_word ≢ extended_word
  pub break_extended : break_word ≢ extended_word

pub record Machine : Type 0 where
  pub bss : Bss
  pub sram : Mem
  pub card : ℕ → ℕ
  pub transfers : ℕ
  pub spi_divider : ℕ
  pub uart : List ℕ

-- `uart_putc` of one byte, and `uart_puts`, which sends '\r' before each '\n'.
abbrev pub uart_putc : ℕ → Machine → Machine
uart_putc ch m = record m { uart = m.uart ++ (ch % 256 ∷ []) }

unfoldable pub uart_puts : List ℕ → Machine → Machine
uart_puts [] m = m
uart_puts (ch ∷ s) m = uart_puts s (uart_putc ch (if ch == 0x0a then uart_putc 0x0d m else m))

-- `spi_transfer_byte(0xFF)`
abbrev pub transfer_byte : Machine → ℕ × Machine
transfer_byte m = (m.card m.transfers % 256, record m { transfers = m.transfers + 1 })

-- The four bytes are disjoint, so `|=` is a sum.
abbrev pub spi_read_u32_le : Machine → ℕ × Machine
spi_read_u32_le m0 =
    let (b0, m1) = transfer_byte m0 in
    let (b1, m2) = transfer_byte m1 in
    let (b2, m3) = transfer_byte m2 in
    let (b3, m4) = transfer_byte m3 in (b0 + b1 * 2 ^ 8 + b2 * 2 ^ 16 + b3 * 2 ^ 24, m4)

-- `boot_info[i]` and `boot_info[i] = v`: words at the start of the RAM.
abbrev pub info_at : ℕ → ℕ
info_at i = sram_base + 4 * i

abbrev pub boot_info : Machine → ℕ → ℕ
boot_info m i = load32 m.sram (info_at i)

abbrev pub set_boot_info : ℕ → ℕ → Machine → Machine
set_boot_info i v m = record m { sram = store32 m.sram (info_at i) v }

-- The statics: words of .bss, and so words of the RAM.
abbrev pub bss_at : ℕ → ℕ
bss_at i = sram_base + 4 * i

abbrev pub static : ℕ → Machine → ℕ
static i m = load32 m.sram (bss_at i)

abbrev pub set_static : ℕ → ℕ → Machine → Machine
set_static i v m = record m { sram = store32 m.sram (bss_at i) v }

abbrev pub boot_loaded : Machine → ℕ
boot_loaded m = static m.bss.loaded_word m

abbrev pub set_boot_loaded : ℕ → Machine → Machine
set_boot_loaded v m = set_static m.bss.loaded_word v m

abbrev pub boot_entry_addr : Machine → ℕ
boot_entry_addr m = static m.bss.entry_word m

abbrev pub set_boot_entry_addr : ℕ → Machine → Machine
set_boot_entry_addr v m = set_static m.bss.entry_word v m

abbrev pub ps2_break_prefix : Machine → ℕ
ps2_break_prefix m = static m.bss.break_word m

abbrev pub set_ps2_break_prefix : ℕ → Machine → Machine
set_ps2_break_prefix v m = set_static m.bss.break_word v m

abbrev pub ps2_extended_prefix : Machine → ℕ
ps2_extended_prefix m = static m.bss.extended_word m

abbrev pub set_ps2_extended_prefix : ℕ → Machine → Machine
set_ps2_extended_prefix v m = set_static m.bss.extended_word v m
