-- ===== src/Bootrom/Monitor/Prompt.antt =====
-- The prompt of the monitor of firmware/bootrom/bootrom.c.
use risc_v_computer_zybo.Base.{
  ℕ, ◌%◌, ◌≡◌, ltb, List, [], ◌∷◌, ◌++◌, append_assoc, if◌then◌else◌, ◌==◌, inl, inr, Option-cases,
  Bool-cases,
}
use risc_v_computer_zybo.Word.{add32}
use risc_v_computer_zybo.Bootrom.{Machine, uart_putc, uart_puts, boot_info}
use risc_v_computer_zybo.Bootrom.Loader.{
  Header, accept, refuse, copy_image, check_header, boot_header, write_boot_info, retry_sd_boot,
}
use risc_v_computer_zybo.Bootrom.RamTest.{
  run_ram_test, test_base, filled, check_patterns, ramtest_patterns, ramtest_limit,
}
use risc_v_computer_zybo.Bootrom.Monitor.{show_ps2_status}

-- The last that was sent is "> ".
abbrev pub EndsWithPrompt : Machine → Type 0
EndsWithPrompt m = (s : List ℕ) × (m.uart ≡ s ++ (b'>' ∷ b' ' ∷ []))

prompted :
    (u : List ℕ) → (s : List ℕ) × ((u ++ (b'>' ∷ [])) ++ (b' ' ∷ []) ≡ s ++ (b'>' ∷ b' ' ∷ []))
prompted u = (u, append_assoc u (b'>' ∷ []) (b' ' ∷ []))

-- A text that ends with the prompt.
pub puts_end : (s : List ℕ) (m : Machine) → EndsWithPrompt (uart_puts (s ++ (b'>' ∷ b' ' ∷ [])) m)
unfolding uart_puts
puts_end [] m = prompted m.uart
puts_end (ch ∷ s) m = puts_end s (uart_putc ch (if ch == 0x0a then uart_putc 0x0d m else m))

accept-EndsWithPrompt : (h : Header) (m : Machine) → EndsWithPrompt (accept h m)
unfolding uart_puts write_boot_info
accept-EndsWithPrompt h m = prompted _

refuse-EndsWithPrompt : (code : ℕ) (m : Machine) → EndsWithPrompt (refuse code m)
unfolding uart_puts
refuse-EndsWithPrompt code m = prompted _

boot_header-EndsWithPrompt : (h : Header) (m : Machine) → EndsWithPrompt (boot_header h m)
unfolding boot_header
boot_header-EndsWithPrompt h m = elim (Option-cases (check_header h)) [
  | inl e ↦ elim (Bool-cases ((copy_image h m).0 == h.expected_checksum)) [
    | inl q ↦ rw (e, q, boot_header) (accept-EndsWithPrompt h _)
    | inr q ↦ rw (e, q, boot_header) (refuse-EndsWithPrompt _ _)
  ]
  | inr (code, e) ↦ rw (e, boot_header) (refuse-EndsWithPrompt code m)
]

pub retry_sd_boot-EndsWithPrompt : (m : Machine) → EndsWithPrompt (retry_sd_boot m)
unfolding retry_sd_boot
retry_sd_boot-EndsWithPrompt m = boot_header-EndsWithPrompt _ _

pub run_ram_test-EndsWithPrompt : (m : Machine) → EndsWithPrompt (run_ram_test m)
unfolding run_ram_test uart_puts
run_ram_test-EndsWithPrompt m = elim (Bool-cases (ltb ramtest_limit (add32 (test_base m) 16))) [
  | inl e ↦ rw (e, run_ram_test) (prompted _)
  | inr e ↦ elim (Bool-cases (check_patterns ramtest_patterns (test_base m) (filled m).sram)) [
    | inl q ↦ rw (e, q, run_ram_test) (prompted _)
    | inr q ↦ rw (e, q, run_ram_test) (prompted _)
  ]
]

pub show_ps2_status-EndsWithPrompt : (m : Machine) → EndsWithPrompt (show_ps2_status m)
unfolding show_ps2_status uart_puts
show_ps2_status-EndsWithPrompt m = elim (Bool-cases (boot_info m 6 % 256 == 0)) [
  | inl e ↦ rw (e, show_ps2_status) (prompted _)
  | inr e ↦ rw (e, show_ps2_status) (prompted _)
]
