-- ===== src/Bootrom/Loader.antt =====
-- `retry_sd_boot` of firmware/bootrom/bootrom.c.
pub mod Copy
pub mod Info
pub mod Left
pub mod Booted
use risc_v_computer_zybo.Base.{
  ℕ, zero, suc, ◌+◌, ◌-◌, ◌*◌, ◌/◌, ◌%◌, ◌^◌, Bool, true, false, not, ◌||◌, Option, none, some,
  List, [], ◌∷◌, update, if◌then◌else◌, ◌==◌, ltb, leb,
}
use risc_v_computer_zybo.Word.{add32}
use risc_v_computer_zybo.Bootrom.{
  Machine, sram_base, sram_size_bytes, uart_puts, transfer_byte, spi_read_u32_le, set_boot_info,
  set_boot_loaded, set_boot_entry_addr,
}

-- BOOT_INFO_MAGIC and BOOT_STATUS_*
abbrev pub boot_info_magic : ℕ
boot_info_magic = 0x49425652

abbrev pub status_ok : ℕ
status_ok = 0x01

abbrev pub status_bad_magic : ℕ
status_bad_magic = 0xE1

abbrev pub status_bad_range : ℕ
status_bad_range = 0xE2

abbrev pub status_bad_size : ℕ
status_bad_size = 0xE3

abbrev pub status_bad_entry : ℕ
status_bad_entry = 0xE4

abbrev pub status_bad_checksum : ℕ
status_bad_checksum = 0xE5

-- The eight words at the start of the card.
pub record Header : Type 0 where
  pub magic : ℕ
  pub load_addr : ℕ
  pub size_bytes : ℕ
  pub entry_addr : ℕ
  pub expected_checksum : ℕ
  pub version : ℕ
  pub reserved0 : ℕ
  pub reserved1 : ℕ

abbrev pub read_header : Machine → Header × Machine
read_header m0 =
    let (magic, m1) = spi_read_u32_le m0 in
    let (load_addr, m2) = spi_read_u32_le m1 in
    let (size_bytes, m3) = spi_read_u32_le m2 in
    let (entry_addr, m4) = spi_read_u32_le m3 in
    let (expected_checksum, m5) = spi_read_u32_le m4 in
    let (version, m6) = spi_read_u32_le m5 in
    let (reserved0, m7) = spi_read_u32_le m6 in
    let (reserved1, m8) = spi_read_u32_le m7 in
    (
      record {
        magic = magic;
        load_addr = load_addr;
        size_bytes = size_bytes;
        entry_addr = entry_addr;
        expected_checksum = expected_checksum;
        version = version;
        reserved0 = reserved0;
        reserved1 = reserved1;
      },
      m8,
    )

-- The tests of the header in their order: the status of the first that fails.
unfoldable pub check_header : Header → Option ℕ
check_header h =
    if not (h.magic == 0x43505652)
    then some status_bad_magic
    else if not (h.version == 1) || not (h.reserved0 == 0) || not (h.reserved1 == 0)
    then some status_bad_magic
    else if ltb h.load_addr sram_base || h.size_bytes == 0
    then some (if h.size_bytes == 0 then status_bad_size else status_bad_range)
    else let load_offset = h.load_addr - sram_base in
      if ltb sram_size_bytes load_offset || ltb (sram_size_bytes - load_offset) h.size_bytes
      then some status_bad_range
      else if ltb h.entry_addr h.load_addr || leb (add32 h.load_addr h.size_bytes) h.entry_addr
      then some status_bad_entry
      else none

-- The locals of the copy loop, with the machine.
pub record CopyState : Type 0 where
  pub checksum : ℕ
  pub checksum_word : ℕ
  pub machine : Machine

-- One round, for byte `i` of the image. The bytes of the word are disjoint, so `|=` is a sum.
abbrev pub copy_byte : ℕ → ℕ → CopyState → CopyState
copy_byte load_addr i c =
    let (byte, m) = transfer_byte c.machine in
    let stored = record m { sram = update m.sram (load_addr + i) byte } in
    let word = c.checksum_word + byte * 2 ^ (i % 4 * 8) in
    if i % 4 == 3
    then record { checksum = add32 c.checksum word; checksum_word = 0; machine = stored }
    else record { checksum = c.checksum; checksum_word = word; machine = stored }

-- `for (i = ...; i < size_bytes; ++i)`, on the rounds left.
unfoldable pub copy_loop : ℕ → ℕ → ℕ → CopyState → CopyState
copy_loop zero load_addr i c = c
copy_loop (suc rounds) load_addr i c = copy_loop rounds load_addr (i + 1) (copy_byte load_addr i c)

-- The loop from its start, and the last, partial word.
unfoldable pub copy_image : Header → Machine → ℕ × Machine
copy_image h m =
    let c =
      copy_loop h.size_bytes h.load_addr 0
        (record { checksum = 0; checksum_word = 0; machine = m }) in
    (if h.size_bytes % 4 == 0 then c.checksum else add32 c.checksum c.checksum_word, c.machine)

-- "BOOT=ER\n> " and "BOOT=OK\n> "
abbrev pub boot_er : List ℕ
boot_er = 0x42 ∷ 0x4f ∷ 0x4f ∷ 0x54 ∷ 0x3d ∷ 0x45 ∷ 0x52 ∷ 0x0a ∷ 0x3e ∷ 0x20 ∷ []

abbrev pub boot_ok : List ℕ
boot_ok = 0x42 ∷ 0x4f ∷ 0x4f ∷ 0x54 ∷ 0x3d ∷ 0x4f ∷ 0x4b ∷ 0x0a ∷ 0x3e ∷ 0x20 ∷ []

-- `boot_info[5] = code`, the message, and the return.
abbrev pub refuse : ℕ → Machine → Machine
refuse code m = uart_puts boot_er (set_boot_info 5 code m)

unfoldable pub clear_boot_info : ℕ → ℕ → Machine → Machine
clear_boot_info zero i m = m
clear_boot_info (suc rounds) i m = clear_boot_info rounds (i + 1) (set_boot_info i 0 m)

unfoldable pub write_boot_info : ℕ → ℕ → ℕ → ℕ → Machine → Machine
write_boot_info load_addr size_bytes entry_addr checksum m0 =
    let m1 = set_boot_info 0 boot_info_magic m0 in
    let m2 = set_boot_info 1 load_addr m1 in
    let m3 = set_boot_info 2 size_bytes m2 in
    let m4 = set_boot_info 3 entry_addr m3 in
    let m5 = set_boot_info 4 checksum m4 in
    let m6 = set_boot_info 5 status_ok m5 in let m7 = set_boot_info 6 0 m6 in set_boot_info 7 0 m7

-- `retry_sd_boot` from the first transfer on.
abbrev pub boot_begun : Machine → Machine
boot_begun m =
    let m1 = set_boot_loaded 0 (record m { spi_divider = 250 }) in
    clear_boot_info 8 0 (set_boot_entry_addr 0 m1)

abbrev pub accept : Header → Machine → Machine
accept h m =
    let told = write_boot_info h.load_addr h.size_bytes h.entry_addr h.expected_checksum m in
    uart_puts boot_ok (set_boot_loaded 1 (set_boot_entry_addr h.entry_addr told))

-- After the header was read.
unfoldable pub boot_header : Header → Machine → Machine
boot_header h m = elim (check_header h) [
  | some code ↦ refuse code m
  | none ↦
      let (checksum, copied) = copy_image h m in
      if checksum == h.expected_checksum then accept h copied else refuse status_bad_checksum copied
]

unfoldable pub retry_sd_boot : Machine → Machine
retry_sd_boot m = let (h, read) = read_header (boot_begun m) in boot_header h read
