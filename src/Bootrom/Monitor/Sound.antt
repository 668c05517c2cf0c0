-- ===== src/Bootrom/Monitor/Sound.antt =====
-- The invariant of the monitor loop of firmware/bootrom/bootrom.c.
use mathlib.Core.Path.{subst}
use risc_v_computer_zybo.Base.{
  codes, ℕ, ◌+◌, ◌-◌, ◌%◌, ◌≤◌, ◌<◌, ◌≡◌, refl, sym, ◌∙◌, ==_iff, arith, Bool, true, false, Option,
  none, some, List, [], ◌∷◌, ◌++◌, if◌then◌else◌, if-both, ◌==◌, ◌||◌, inl, inr, Bool-cases,
  Option-cases,
}
use risc_v_computer_zybo.Bootrom.{
  Machine, sram_base, sram_size_bytes, uart_puts, boot_info, boot_loaded, boot_entry_addr,
}
use risc_v_computer_zybo.Bootrom.Statics.{KeepsLoader}
use risc_v_computer_zybo.Bootrom.Loader.{retry_sd_boot, status_ok}
use risc_v_computer_zybo.Bootrom.Loader.Copy.{coming}
use risc_v_computer_zybo.Bootrom.Loader.Left.{is_booted, booted_static}
use risc_v_computer_zybo.Bootrom.Loader.Booted.{header_read, retry_sd_boot-Booted}
use risc_v_computer_zybo.Bootrom.RamTest.{run_ram_test}
use risc_v_computer_zybo.Bootrom.Board.{Board, Input, uart_try_getc, say, on_machine}
use risc_v_computer_zybo.Bootrom.NpuTests.{
  run_npu_mmio_test, run_npu_pcpi_test, run_npu_vec16_test, run_npu_matvec_test,
}
use risc_v_computer_zybo.Bootrom.Monitor.{
  banner, show_help, show_ps2_status, show_boot_info, dump_memory_snapshot, show_time_snapshot,
  toggle_led, clear_screen, start, run_loaded_program, command, echoed, serve, next_char, round,
  Reaches, started, next,
}
use risc_v_computer_zybo.Bootrom.Monitor.Polls.{poll_ps2_command-Keeps}
use risc_v_computer_zybo.Bootrom.Monitor.Tells.{
  Tells, text-Tells, help-Tells, clear-Tells, boot_info-Tells, memory-Tells, time-Tells, ps2-Tells,
  ram-Tells, mmio-Tells, pcpi-Tells, vec16-Tells, matvec-Tells,
}
use risc_v_computer_zybo.Bootrom.Monitor.Prompt.{EndsWithPrompt, retry_sd_boot-EndsWithPrompt}

-- Where the status word says OK, an image is loaded and its entry lies in the RAM.
pub record LoaderSound (m : Machine) : Type 0 where
  pub flag : boot_info m 5 ≡ status_ok → boot_loaded m ≡ 1
  pub entry :
      boot_info m 5 ≡ status_ok
      → (sram_base ≤ boot_entry_addr m) × (boot_entry_addr m < sram_base + sram_size_bytes)

pub record Sound (b : Board) : Type 0 where
  pub prompt : EndsWithPrompt b.machine
  pub loader : LoaderSound b.machine
  pub led : b.led_value < 2

-- A status of OK is that of a boot.
boots :
    (m : Machine)
    → boot_info (retry_sd_boot m) 5 ≡ status_ok
    → is_booted (header_read m).0 (coming (header_read m).1) ≡ true
boots m e =
    let (h, read) = header_read m in
    let b = retry_sd_boot-Booted m in (==_iff _ _).1 (sym b.status ∙ e)

retry_sd_boot-LoaderSound : (m : Machine) → LoaderSound (retry_sd_boot m)
retry_sd_boot-LoaderSound m =
    let (h, read) = header_read m in
    let b = retry_sd_boot-Booted m in
    record {
      flag = λ e. b.loaded ∙ booted_static h (coming read) (boots m e) _ 1;
      entry = λ e.
          let at : boot_entry_addr (retry_sd_boot m) ≡ h.entry_addr =
            b.entry ∙ booted_static h (coming read) (boots m e) _ h.entry_addr in
          rw at (omega (arith, b.in_sram (boots m e)));
    }

-- Another machine with the same statics and the same status.
LoaderSound-same : (m m' : Machine) → KeepsLoader m m' → LoaderSound m → LoaderSound m'
LoaderSound-same m m' k s = record {
  flag = λ e. k.loaded ∙ s.flag (sym k.status ∙ e);
  entry = λ e. rw k.entry (s.entry (sym k.status ∙ e));
}

-- An answer that keeps the statics, the status and the LED, and ends with the prompt, keeps the
-- invariant.
Tells-Sound :
    (b : Board) (f : Board → Board)
    → Tells f
    → LoaderSound b.machine
    → b.led_value < 2
    → Sound (f b)
Tells-Sound b f t s l =
    let (prompt, kept, led) = t b in
    record {
      prompt = prompt;
      loader = LoaderSound-same b.machine (f b).machine kept s;
      led = rw led l;
    }

led_text : Bool → List ℕ
led_text off = if off then codes "LED=0\n" else codes "LED=1\n"

led_text_lem :
    (off : Bool)
    → codes (if off then "LED=0\n> " else "LED=1\n> ") ≡ led_text off ++ (b'>' ∷ b' ' ∷ [])
unfolding led_text
led_text_lem true = refl
led_text_lem false = refl

toggle_led-Sound : (b : Board) → LoaderSound b.machine → b.led_value < 2 → Sound (toggle_led b)
unfolding toggle_led
toggle_led-Sound b s l =
    let led : ℕ = if b.led_value % 2 == 0 then b.led_value + 1 else b.led_value - 1 in
    let lit : Board = record b { led_value = led; gpio = led } in
    subst (λ t. Sound (on_machine (uart_puts t) lit)) (sym (led_text_lem (led == 0)))
      (Tells-Sound lit (on_machine (uart_puts (led_text (led == 0) ++ (b'>' ∷ b' ' ∷ []))))
        (text-Tells (led_text (led == 0))) s (ground arith))

abbrev AnswersSound : Option Board → Type 0
AnswersSound none = Unit
AnswersSound (some b) = Sound b

-- A program that returns leaves the loader's statics, the status word and the local of `main` alone.
pub record KeepsFirmware (program : ℕ → Board → Option Board) : Type 0 where
  pub loader : (a : ℕ) (b b' : Board) → program a b ≡ some b' → KeepsLoader b.machine b'.machine
  pub led : (a : ℕ) (b b' : Board) → program a b ≡ some b' → b'.led_value ≡ b.led_value

module _ (program : ℕ → Board → Option Board) (keeps : KeepsFirmware program) where
  run_loaded_program-Sound :
      (b : Board)
      → LoaderSound b.machine
      → b.led_value < 2
      → AnswersSound (run_loaded_program program b)
  unfolding run_loaded_program
  run_loaded_program-Sound b s l = elim (Bool-cases (boot_loaded b.machine == 0)) [
    | inl e ↦
        rw (e, run_loaded_program)
          (Tells-Sound b (say "GO=ER\n> ") (text-Tells (codes "GO=ER\n")) s l)
    | inr e ↦ elim (Option-cases (program (boot_entry_addr b.machine) b)) [
      | inl q ↦ rw (e, q, run_loaded_program) tt
      | inr (b', q) ↦
          rw (e, q, run_loaded_program)
            (Tells-Sound b' (say "GO=RET\n> ") (text-Tells (codes "GO=RET\n"))
              (LoaderSound-same b.machine b'.machine (keeps.loader _ b b' q) s)
              (rw (keeps.led _ b b' q) l))
    ]
  ]

  command-Sound :
      (ch : ℕ) (i : Input) (b : Board)
      → LoaderSound b.machine
      → b.led_value < 2
      → AnswersSound (command program ch i b)
  unfolding command
  command-Sound ch i b s l =
      let shown : (f : Board → Board) → Tells f → Sound (f b) = λ f t. Tells-Sound b f t s l in
      let booted : Sound (on_machine retry_sd_boot b) = record {
        prompt = retry_sd_boot-EndsWithPrompt b.machine;
        loader = retry_sd_boot-LoaderSound b.machine;
        led = l;
      } in
      if-both AnswersSound (ch == b'h' || ch == b'?') _ _ (shown (on_machine show_help) help-Tells)
        (if-both AnswersSound (ch == b'c') _ _ (shown (on_machine clear_screen) clear-Tells) (
          if-both AnswersSound (ch == b'b') _ _ booted (
            if-both AnswersSound (ch == b'k') _ _ (shown (on_machine show_ps2_status) ps2-Tells) (
              if-both AnswersSound (ch == b'i') _ _
                (shown (on_machine show_boot_info) boot_info-Tells)
                (if-both AnswersSound (ch == b'm') _ _
                  (shown (on_machine dump_memory_snapshot) memory-Tells)
                  (if-both AnswersSound (ch == b't') _ _
                    (shown (on_machine (show_time_snapshot i.timer)) (time-Tells i.timer))
                    (if-both AnswersSound (ch == b'r') _ _
                      (shown (on_machine run_ram_test) ram-Tells)
                      (if-both AnswersSound (ch == b'n') _ _ (shown run_npu_mmio_test mmio-Tells) (
                        if-both AnswersSound (ch == b'p') _ _ (shown run_npu_pcpi_test pcpi-Tells) (
                          if-both AnswersSound (ch == b'v') _ _
                            (shown run_npu_vec16_test vec16-Tells)
                            (if-both AnswersSound (ch == b'x') _ _
                              (shown run_npu_matvec_test matvec-Tells)
                              (if-both AnswersSound (ch == b'g') _ _
                                (run_loaded_program-Sound b s l)
                                (if-both AnswersSound (ch == b'l') _ _ (toggle_led-Sound b s l)
                                  (shown (say "?\n> ") (text-Tells (codes "?\n"))))))))))))))))

  next_char-Sound : (i : Input) (b : Board) → Sound b → Sound (next_char i b).1
  unfolding next_char
  next_char-Sound i b s = elim (Option-cases (uart_try_getc i.uart_data)) [
    | inl e ↦
        let k = poll_ps2_command-Keeps i.ps2 b.machine in
        rw (e, next_char)
          (record {
            prompt = (s.prompt.0, rw k.0 s.prompt.1);
            loader = LoaderSound-same b.machine _ k.1 s.loader;
            led = s.led;
          })
    | inr (ch, e) ↦ rw (e, next_char) s
  ]

  serve-Sound :
      (i : Input) (c : Option ℕ) (b : Board) → Sound b → AnswersSound (serve program i (c, b))
  unfolding serve
  serve-Sound i none b s = s
  serve-Sound i (some ch) b s =
      command-Sound ch i (on_machine (echoed ch) b)
        (record { flag = s.loader.flag; entry = s.loader.entry }) s.led

  start-Sound : (b : Board) → Sound (start b)
  start-Sound b = record {
    prompt = retry_sd_boot-EndsWithPrompt (banner b.machine);
    loader = retry_sd_boot-LoaderSound (banner b.machine);
    led = omega arith;
  }

  -- From any state of the board at power-on and any order of the statics in .bss, with any input and
  -- any loaded program that leaves the loader's statics, the status word and the local of `main` alone
  -- when it returns, at the head of the monitor's loop the last that was sent is the prompt, the LED's
  -- value is 0 or 1, and where the status word of the boot info says OK the loaded flag is 1 and the
  -- entry address lies in the RAM.
  pub Reaches-Sound : (power_on b : Board) → Reaches program power_on b → Sound b
  unfolding round
  Reaches-Sound power_on b started = start-Sound power_on
  Reaches-Sound power_on b (next {b = b₀} i r e) = subst AnswersSound e (
      serve-Sound i (next_char i b₀).0 (next_char i b₀).1
        (next_char-Sound i b₀ (Reaches-Sound power_on b₀ r)))
