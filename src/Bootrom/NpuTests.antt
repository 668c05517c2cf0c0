-- ===== src/Bootrom/NpuTests.antt =====
-- The four tests of the inference unit in firmware/bootrom/bootrom.c.
use Prim.Native.String.{String}
use risc_v_computer_zybo.Base.{ℕ, ◌≡◌, refl, Bool, true, ◌&&◌, List, [], ◌∷◌, if◌then◌else◌, ◌==◌}
use risc_v_computer_zybo.Base.Int.{◌+ℤ◌, ◌*ℤ◌}
use risc_v_computer_zybo.Word.{add32, test_bit}
use risc_v_computer_zybo.Bootrom.{uart_puts}
use risc_v_computer_zybo.Bootrom.Hex.{hex_digit, put_nibbles, uart_put_hex32}
use risc_v_computer_zybo.Bootrom.Npu.{
  NpuMmio, signed8, dot4_packed_i8, write_ctrl, write_vec_a, write_vec_b, write_mat_rows, npu_start,
  npu_clear_accumulator, npu_start_accum, npu_start_matvec, npu_status, npu_dot4_pcpi,
}
use risc_v_computer_zybo.Bootrom.Board.{Board, say, on_machine}

-- NPU_DEMO_*, NPU_VEC16_EXPECT and NPU_MAT4_EXPECT*
abbrev pub demo_vec_a : ℕ
demo_vec_a = 0xFC03FE01

abbrev pub demo_vec_b : ℕ
demo_vec_b = 0xFC05FA07

abbrev pub demo_expect : ℕ
demo_expect = 0x00000032

abbrev pub vec16_expect : ℕ
vec16_expect = 0xFFFFFF5C

abbrev pub mat4_expect1 : ℕ
mat4_expect1 = 0xFFFFFFFC

abbrev pub mat4_expect2 : ℕ
mat4_expect2 = 0xFFFFFFCE

abbrev pub mat4_expect3 : ℕ
mat4_expect3 = 0x000000E2

-- `npu_vec16_a` and `npu_vec16_b`, in pairs.
abbrev pub vec16_pairs : List (ℕ × ℕ)
vec16_pairs =
    (0xFC03FE01, 0xFC05FA07)
    ∷ (0xF8F90605, 0xFF0102FD)
    ∷ (0x04FD02FF, 0xF906FB04)
    ∷ (0xF40BF609, 0x05FC03FE)
    ∷ []

abbrev pub put_hex : ℕ → Board → Board
put_hex value = on_machine (uart_put_hex32 value)

abbrev pub with_npu : NpuMmio → Board → Board
with_npu n b = record b { npu = n }

unfoldable pub run_npu_mmio_test : Board → Board
run_npu_mmio_test b =
    let n = npu_start (write_vec_b demo_vec_b (write_vec_a demo_vec_a b.npu)) in
    let passed = test_bit (npu_status n) 1 && n.result_reg == demo_expect in
    say "\n> "
      (put_hex n.result_reg (say (if passed then "NPU=OK RES=" else "NPU=ER RES=") (with_npu n b)))

unfoldable pub run_npu_pcpi_test : Board → Board
run_npu_pcpi_test b =
    let result = npu_dot4_pcpi demo_vec_a demo_vec_b in
    say "\n> "
      (put_hex result (say (if result == demo_expect then "PCPI=OK RES=" else "PCPI=ER RES=") b))

-- The rounds of the loop on the pairs left, with the accumulator of the instruction: `i == 0` holds
-- in the first. The results of four rounds fit int32_t, so the sum of their bits is the sum.
unfoldable pub vec16_loop : Bool → List (ℕ × ℕ) → ℕ × NpuMmio → ℕ × NpuMmio
vec16_loop first [] s = s
vec16_loop first ((a, b) ∷ ps) (accum, n) =
    let loaded = write_vec_b b (write_vec_a a n) in
    vec16_loop Bool.false ps
      (add32 accum (npu_dot4_pcpi a b), if first then npu_start loaded else npu_start_accum loaded)

unfoldable pub run_npu_vec16_test : Board → Board
run_npu_vec16_test b =
    let (pcpi_result, n) = vec16_loop true vec16_pairs (0, npu_clear_accumulator b.npu) in
    let mmio_result = n.result_reg in
    let passed =
      test_bit (npu_status n) 1 && mmio_result == vec16_expect && pcpi_result == vec16_expect in
    say "\n> " (
      put_hex pcpi_result (
        say " PCPI=" (
          put_hex mmio_result
            (say (if passed then "V16=OK MMIO=" else "V16=ER MMIO=") (with_npu n b)))))

unfoldable pub run_npu_matvec_test : Board → Board
run_npu_matvec_test b =
    let rows = write_mat_rows 0xF8F90605 0x04FD02FF 0xF40BF609 in
    let n = npu_start_matvec (rows (write_vec_b 0xFC03FE01 (write_vec_a demo_vec_b b.npu))) in
    let passed =
      test_bit (npu_status n) 1
      && n.result_reg == demo_expect
      && n.mat_res1_reg == mat4_expect1
      && n.mat_res2_reg == mat4_expect2
      && n.mat_res3_reg == mat4_expect3 in
    let r0 =
      put_hex n.result_reg (say (if passed then "MAT=OK R0=" else "MAT=ER R0=") (with_npu n b)) in
    let r1 = put_hex n.mat_res1_reg (say " R1=" r0) in
    let r2 = put_hex n.mat_res2_reg (say " R2=" r1) in
    say "\n> " (put_hex n.mat_res3_reg (say " R3=" r2))

-- What the four tests print on a board whose unit is sound.
abbrev pub Prints : String → (Board → Board) → Type 0
Prints s run = (b : Board) → (run b).machine ≡ (say s b).machine

-- Whatever state the unit was left in, its four tests pass on it: the constants that the firmware
-- expects are the products of its vectors, from the registers and from the instruction.
pub run_npu_tests_pass :
    Prints "NPU=OK RES=00000032\n> " run_npu_mmio_test
    × Prints "PCPI=OK RES=00000032\n> " run_npu_pcpi_test
    × Prints "V16=OK MMIO=FFFFFF5C PCPI=FFFFFF5C\n> " run_npu_vec16_test
    × Prints "MAT=OK R0=00000032 R1=FFFFFFFC R2=FFFFFFCE R3=000000E2\n> " run_npu_matvec_test
unfolding run_npu_mmio_test run_npu_pcpi_test run_npu_vec16_test run_npu_matvec_test vec16_loop
    dot4_packed_i8 signed8 write_ctrl uart_puts uart_put_hex32 put_nibbles hex_digit ◌+ℤ◌ ◌*ℤ◌
run_npu_tests_pass = ((λ b. refl), (λ b. refl), (λ b. refl), (λ b. refl))
