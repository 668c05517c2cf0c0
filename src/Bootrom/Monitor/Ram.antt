-- ===== src/Bootrom/Monitor/Ram.antt =====
-- Which commands of the monitor in firmware/bootrom/bootrom.c write the RAM.
use risc_v_computer_zybo.Base.{
  ℕ, ◌%◌, ◌≡◌, ◌≢◌, refl, arith, Bool, true, false, Option, none, some, if◌then◌else◌, ◌==◌, ◌||◌,
  inl, inr, Bool-cases, ==_iff,
}
use risc_v_computer_zybo.Bootrom.{Machine, uart_puts, boot_info}
use risc_v_computer_zybo.Bootrom.Loader.Info.{SameRam, uart_puts-SameRam}
use risc_v_computer_zybo.Bootrom.Hex.{put_nibbles, uart_put_hex32}
use risc_v_computer_zybo.Bootrom.Board.{Board, Input, uart_try_getc, on_machine}
use risc_v_computer_zybo.Bootrom.NpuTests.{run_npu_tests_pass}
use risc_v_computer_zybo.Bootrom.Monitor.{
  show_help, show_ps2_status, show_boot_info, dump_memory_snapshot, show_time_snapshot, toggle_led,
  clear_screen, command, echoed, next_char, serve, round,
}

-- The RAM is as it was, and so are the statics, which are words of it.
abbrev pub KeepsRam : Board → Board → Type 0
KeepsRam b b' = SameRam b.machine b'.machine

-- The answer is given, and keeps them.
abbrev pub AnswersKeeping : Board → Option Board → Type 0
AnswersKeeping b none = ⊥
AnswersKeeping b (some b') = KeepsRam b b'

help-KeepsRam : (m : Machine) → SameRam m (show_help m)
unfolding show_help
help-KeepsRam = uart_puts-SameRam _

clear-KeepsRam : (m : Machine) → SameRam m (clear_screen m)
unfolding uart_puts
clear-KeepsRam m = record { sram = refl; bss = refl }

ps2-KeepsRam : (m : Machine) → SameRam m (show_ps2_status m)
unfolding show_ps2_status uart_puts
ps2-KeepsRam m = elim (Bool-cases (boot_info m 6 % 256 == 0)) [
  | inl e ↦ rw (e, show_ps2_status) (record { sram = refl; bss = refl })
  | inr e ↦ rw (e, show_ps2_status) (record { sram = refl; bss = refl })
]

boot_info-KeepsRam : (m : Machine) → SameRam m (show_boot_info m)
unfolding show_boot_info uart_puts uart_put_hex32 put_nibbles
boot_info-KeepsRam m = record { sram = refl; bss = refl }

memory-KeepsRam : (m : Machine) → SameRam m (dump_memory_snapshot m)
unfolding dump_memory_snapshot uart_puts uart_put_hex32 put_nibbles
memory-KeepsRam m = record { sram = refl; bss = refl }

time-KeepsRam : (timer : ℕ) (m : Machine) → SameRam m (show_time_snapshot timer m)
unfolding show_time_snapshot uart_puts uart_put_hex32 put_nibbles
time-KeepsRam timer m = record { sram = refl; bss = refl }

led-KeepsRam : (b : Board) → KeepsRam b (toggle_led b)
unfolding toggle_led
led-KeepsRam b = uart_puts-SameRam _ b.machine

next_char_uart :
    (i : Input) (b : Board)
    → i.uart_data ≢ 0xFFFFFFFF
    → next_char i b ≡ (some (i.uart_data % 256), b)
unfolding next_char uart_try_getc
next_char_uart i b h = ground arith

module _ (program : ℕ → Board → Option Board) where
  other_char :
      (ch k : ℕ) (b : Board) (x y : Option Board)
      → ch ≢ k
      → AnswersKeeping b y
      → AnswersKeeping b (if ch == k then x else y)
  other_char ch k b x y h a = elim (Bool-cases (ch == k)) [
    | inl e ↦ absurd (h ((==_iff ch k).0 e))
    | inr e ↦ rw e a
  ]

  either :
      (c : Bool) (b : Board) (x y : Option Board)
      → AnswersKeeping b x
      → AnswersKeeping b y
      → AnswersKeeping b (if c then x else y)
  either true b x y p q = p
  either false b x y p q = q

  AnswersKeeping-echoed :
      (b : Board) (ch : ℕ) (r : Option Board)
      → AnswersKeeping (on_machine (echoed ch) b) r
      → AnswersKeeping b r
  AnswersKeeping-echoed b ch none a = a
  AnswersKeeping-echoed b ch (some b') a = record { sram = a.sram; bss = a.bss }

  command-Keeps :
      (ch : ℕ) (i : Input) (b : Board)
      → ch ≢ b'b'
      → ch ≢ b'r'
      → ch ≢ b'g'
      → AnswersKeeping b (command program ch i b)
  unfolding command
  command-Keeps ch i b not_b not_r not_g =
      let m : Machine = b.machine in
      let (mmio, pcpi, vec16, matvec) = run_npu_tests_pass in
      either (ch == b'h' || ch == b'?') b _ _ (help-KeepsRam m) (
        either (ch == b'c') b _ _ (clear-KeepsRam m) (
          other_char ch b'b' b _ _ not_b (
            either (ch == b'k') b _ _ (ps2-KeepsRam m) (
              either (ch == b'i') b _ _ (boot_info-KeepsRam m) (
                either (ch == b'm') b _ _ (memory-KeepsRam m) (
                  either (ch == b't') b _ _ (time-KeepsRam i.timer m) (
                    other_char ch b'r' b _ _ not_r (
                      either (ch == b'n') b _ _ (rw (mmio b) (uart_puts-SameRam _ m)) (
                        either (ch == b'p') b _ _ (rw (pcpi b) (uart_puts-SameRam _ m)) (
                          either (ch == b'v') b _ _ (rw (vec16 b) (uart_puts-SameRam _ m)) (
                            either (ch == b'x') b _ _ (rw (matvec b) (uart_puts-SameRam _ m)) (
                              other_char ch b'g' b _ _ not_g (
                                either (ch == b'l') b _ _ (led-KeepsRam b)
                                  (uart_puts-SameRam _ m))))))))))))))

  -- A round with a character from the UART other than b, r and g is answered, and leaves every byte of
  -- the RAM as it was, and with it the boot info, the loaded flag, the entry address and the keyboard's
  -- prefixes.
  round_other :
      (i : Input) (b : Board)
      → i.uart_data ≢ 0xFFFFFFFF
      → i.uart_data % 256 ≢ b'b'
      → i.uart_data % 256 ≢ b'r'
      → i.uart_data % 256 ≢ b'g'
      → AnswersKeeping b (round program i b)
  unfolding round serve
  round_other i b here not_b not_r not_g = rw (next_char_uart i b here) (
      AnswersKeeping-echoed b (i.uart_data % 256) _ (
        command-Keeps (i.uart_data % 256) i (on_machine (echoed (i.uart_data % 256)) b) not_b not_r
          not_g))
