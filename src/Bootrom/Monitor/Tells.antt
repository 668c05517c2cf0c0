-- ===== src/Bootrom/Monitor/Tells.antt =====
-- The answers of the monitor's commands in firmware/bootrom/bootrom.c that print and do no more.
use risc_v_computer_zybo.Base.{
  codes, ap, ℕ, ◌%◌, ◌≡◌, refl, List, [], ◌∷◌, ◌++◌, ◌==◌, inl, inr, Bool-cases,
}
use risc_v_computer_zybo.Memory.{Mem}
use risc_v_computer_zybo.Bootrom.{Machine, uart_putc, uart_puts, boot_info}
use risc_v_computer_zybo.Bootrom.Loader.Info.{SameRam, uart_puts-SameRam}
use risc_v_computer_zybo.Bootrom.Statics.{KeepsLoader, below-KeepsLoader}
use risc_v_computer_zybo.Bootrom.Hex.{put_nibbles, uart_put_hex32}
use risc_v_computer_zybo.Bootrom.RamTest.{run_ram_test, run_ram_test-KeepsLoader}
use risc_v_computer_zybo.Bootrom.Board.{Board, on_machine}
use risc_v_computer_zybo.Bootrom.NpuTests.{
  run_npu_mmio_test, run_npu_pcpi_test, run_npu_vec16_test, run_npu_matvec_test, run_npu_tests_pass,
}
use risc_v_computer_zybo.Bootrom.Monitor.{
  show_help, show_ps2_status, show_boot_info, dump_memory_snapshot, show_time_snapshot,
  clear_screen,
}
use risc_v_computer_zybo.Bootrom.Monitor.Prompt.{
  EndsWithPrompt, puts_end, run_ram_test-EndsWithPrompt, show_ps2_status-EndsWithPrompt,
}

-- What a printer does: it keeps the statics and the LED, and ends with the prompt.
abbrev pub Tells : (Board → Board) → Type 0
Tells f =
    (b : Board)
    → EndsWithPrompt (f b).machine
      × KeepsLoader b.machine (f b).machine
      × ((f b).led_value ≡ b.led_value)

SameRam-KeepsLoader : (m m' : Machine) → SameRam m m' → KeepsLoader m m'
SameRam-KeepsLoader m m' k = below-KeepsLoader m m' k.bss (λ a lo hi. ap (λ (s : Mem). s a) k.sram)

-- One text before the prompt.
pub text-Tells : (s : List ℕ) → Tells (on_machine (uart_puts (s ++ (b'>' ∷ b' ' ∷ []))))
text-Tells s b =
    let k = uart_puts-SameRam (s ++ (b'>' ∷ b' ' ∷ [])) b.machine in
    (puts_end s b.machine, SameRam-KeepsLoader b.machine _ k, refl)

pub help-Tells : Tells (on_machine show_help)
unfolding show_help
help-Tells = text-Tells (codes "CMDS:h c l b k i m t r n p v x g\n")

pub clear-Tells : Tells (on_machine clear_screen)
unfolding uart_puts
clear-Tells b = (
  puts_end [] (uart_putc 0x0c b.machine),
  record { loaded = refl; entry = refl; status = refl },
  refl,
)

boot_info_end : (m : Machine) → EndsWithPrompt (show_boot_info m)
unfolding show_boot_info
boot_info_end m = puts_end (codes "\n") _

pub boot_info-Tells : Tells (on_machine show_boot_info)
unfolding show_boot_info uart_puts uart_put_hex32 put_nibbles
boot_info-Tells b =
    (boot_info_end b.machine, record { loaded = refl; entry = refl; status = refl }, refl)

memory_end : (m : Machine) → EndsWithPrompt (dump_memory_snapshot m)
unfolding dump_memory_snapshot
memory_end m = puts_end (codes "\n") _

pub memory-Tells : Tells (on_machine dump_memory_snapshot)
unfolding dump_memory_snapshot uart_puts uart_put_hex32 put_nibbles
memory-Tells b = (memory_end b.machine, record { loaded = refl; entry = refl; status = refl }, refl)

time_end : (timer : ℕ) (m : Machine) → EndsWithPrompt (show_time_snapshot timer m)
unfolding show_time_snapshot
time_end timer m = puts_end (codes "\n") _

pub time-Tells : (timer : ℕ) → Tells (on_machine (show_time_snapshot timer))
unfolding show_time_snapshot uart_puts uart_put_hex32 put_nibbles
time-Tells timer b =
    (time_end timer b.machine, record { loaded = refl; entry = refl; status = refl }, refl)

show_ps2_status-KeepsLoader : (m : Machine) → KeepsLoader m (show_ps2_status m)
unfolding show_ps2_status uart_puts
show_ps2_status-KeepsLoader m = elim (Bool-cases (boot_info m 6 % 256 == 0)) [
  | inl e ↦ rw (e, show_ps2_status) (record { loaded = refl; entry = refl; status = refl })
  | inr e ↦ rw (e, show_ps2_status) (record { loaded = refl; entry = refl; status = refl })
]

pub ps2-Tells : Tells (on_machine show_ps2_status)
ps2-Tells b =
    (show_ps2_status-EndsWithPrompt b.machine, show_ps2_status-KeepsLoader b.machine, refl)

pub ram-Tells : Tells (on_machine run_ram_test)
ram-Tells b = (run_ram_test-EndsWithPrompt b.machine, run_ram_test-KeepsLoader b.machine, refl)

-- A command whose machine is left as one text leaves it.
printed-Tells :
    (s : List ℕ) (run : Board → Board)
    → ((b : Board) → (run b).machine ≡ uart_puts (s ++ (b'>' ∷ b' ' ∷ [])) b.machine)
    → ((b : Board) → (run b).led_value ≡ b.led_value)
    → Tells run
printed-Tells s run h led b = let t = text-Tells s b in rw (h b) (t.0, t.1, led b)

pub mmio-Tells : Tells run_npu_mmio_test
unfolding run_npu_mmio_test
mmio-Tells =
    printed-Tells (codes "NPU=OK RES=00000032\n") run_npu_mmio_test run_npu_tests_pass.0 λ b. refl

pub pcpi-Tells : Tells run_npu_pcpi_test
unfolding run_npu_pcpi_test
pcpi-Tells =
    printed-Tells (codes "PCPI=OK RES=00000032\n") run_npu_pcpi_test run_npu_tests_pass.1 λ b. refl

pub vec16-Tells : Tells run_npu_vec16_test
unfolding run_npu_vec16_test
vec16-Tells =
    printed-Tells (codes "V16=OK MMIO=FFFFFF5C PCPI=FFFFFF5C\n") run_npu_vec16_test
      run_npu_tests_pass.2 λ b. refl

pub matvec-Tells : Tells run_npu_matvec_test
unfolding run_npu_matvec_test
matvec-Tells =
    printed-Tells (codes "MAT=OK R0=00000032 R1=FFFFFFFC R2=FFFFFFCE R3=000000E2\n")
      run_npu_matvec_test run_npu_tests_pass.3 λ b. refl
