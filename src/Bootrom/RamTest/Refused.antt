-- ===== src/Bootrom/RamTest/Refused.antt =====
-- `run_ram_test` after `retry_sd_boot` (firmware/bootrom/bootrom.c), in the program that gcc links.
use risc_v_computer_zybo.Base.{ℕ, ◌+◌, ◌≤◌, ◌<◌, ◌≡◌, ◌∙◌, ap, sym, arith, true}
use risc_v_computer_zybo.Word.{word}
use risc_v_computer_zybo.Memory.{load32}
use risc_v_computer_zybo.Memory.Laws.{load32-store32_self, load32-store32_other}
use risc_v_computer_zybo.Bootrom.{
  Bss, Machine, sram_base, sram_size_bytes, uart_puts, boot_info, bss_at, boot_loaded,
}
use risc_v_computer_zybo.Bootrom.Loader.{
  Header, accept, write_boot_info, clear_boot_info, retry_sd_boot,
}
use risc_v_computer_zybo.Bootrom.Loader.Copy.{coming}
use risc_v_computer_zybo.Bootrom.Loader.Info.{accept_word, accept_bss, accept_loaded, accept_entry}
use risc_v_computer_zybo.Bootrom.Loader.Left.{
  is_booted, check_header-none, check_header-entry, copied, copied-bss,
}
use risc_v_computer_zybo.Bootrom.Loader.Booted.{header_read, booted-accept}
use risc_v_computer_zybo.Bootrom.RamTest.{ram_er, test_base, run_ram_test}

-- The end of the image lies past the limit of the test.
far_end :
    (m : Machine)
    → boot_loaded m ≡ 1
    → sram_base ≤ boot_info m 1
    → boot_info m 1 < sram_base + sram_size_bytes
    → sram_base ≤ boot_info m 2
    → boot_info m 2 < sram_base + sram_size_bytes
    → run_ram_test m ≡ uart_puts ram_er m
unfolding run_ram_test test_base
far_end m l lo hi lo' hi' = ground arith

accept_load_addr :
    (h : Header) (m : Machine)
    → m.bss.loaded_word ≡ 3
    → m.bss.entry_word ≡ 2
    → h.load_addr < word
    → boot_info (accept h m) 1 ≡ h.load_addr
unfolding write_boot_info
accept_load_addr h m l e small =
    accept_word h m 1 (λ q. omega arith) (λ q. omega arith)
    ∙ grind (arith, load32-store32_self, load32-store32_other)

-- The third word of the boot info is the entry address.
accept_third :
    (h : Header) (m : Machine)
    → m.bss.entry_word ≡ 2
    → h.entry_addr < word
    → boot_info (accept h m) 2 ≡ h.entry_addr
accept_third h m e small =
    ap (λ (i : ℕ). load32 (accept h m).sram (bss_at i))
      (sym (ap (λ (b : Bss). b.entry_word) (accept_bss h m) ∙ e))
    ∙ accept_entry h m small

-- Where boot_entry_addr is the third word of .bss and boot_loaded the fourth, as gcc orders them, the
-- RAM test answers RAM=ER after every successful boot and leaves the memory as it is.
pub run_ram_test-retry_sd_boot :
    (m : Machine)
    → m.bss.entry_word ≡ 2
    → m.bss.loaded_word ≡ 3
    → (let (h, read) = header_read m in is_booted h (coming read) ≡ true)
    → run_ram_test (retry_sd_boot m) ≡ uart_puts ram_er (retry_sd_boot m)
unfolding retry_sd_boot clear_boot_info
run_ram_test-retry_sd_boot m e l booted =
    let (h, read) = header_read m in
    let (passed, same) = booted-accept h read booted in
    let c = copied h read in
    let b : c.bss ≡ m.bss = copied-bss h read in
    let bounds = check_header-none h passed in
    let first : boot_info (accept h c) 1 ≡ h.load_addr =
      accept_load_addr h c (ap (λ (s : Bss). s.loaded_word) b ∙ l)
        (ap (λ (s : Bss). s.entry_word) b ∙ e) (omega (arith, bounds)) in
    let third : boot_info (accept h c) 2 ≡ h.entry_addr =
      accept_third h c (ap (λ (s : Bss). s.entry_word) b ∙ e) (check_header-entry h passed) in
    rw same (
      far_end (accept h c) (accept_loaded h c) (omega (arith, first, bounds))
        (omega (arith, first, bounds)) (omega (arith, third, bounds))
        (omega (arith, third, bounds)))
