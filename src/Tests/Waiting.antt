-- ===== src/Tests/Waiting.antt =====
-- The theorems on the demo program's waits, pictures and arguments at concrete inputs.
use risc_v_computer_zybo.Base.{
  ℕ, zero, suc, ◌-◌, ◌<◌, ◌≡◌, refl, arith, true, false, none, some, List, [], ◌∷◌, ◌==◌,
  if◌then◌else◌, codes, ok, exited, Returns,
}
use risc_v_computer_zybo.Registers.{offset, Reg}
use risc_v_computer_zybo.Emulator.{fb_rows}
use risc_v_computer_zybo.Driver.{Platform, Session, backend_read}
use risc_v_computer_zybo.Driver.Wait.{
  npu_busy, npu_done, max_polls, poll_loop, is_finished, at_poll, status_read, FirstDone,
  poll_loop-FirstDone, poll_loop_exits,
}
use risc_v_computer_zybo.Driver.Frame.{Rows, pbm_text, read_framebuffer_rows}
use risc_v_computer_zybo.Driver.Frame.Rows.{RowsRead, read_framebuffer_rows-RowsRead}
use risc_v_computer_zybo.Driver.Frame.Pbm.{row_list, read_pbm, read_pbm-pbm_text}
use risc_v_computer_zybo.Driver.Emulated.{on_emu}
use risc_v_computer_zybo.Driver.Program.{session_for, main}
use risc_v_computer_zybo.Driver.Program.Emulated.{Completes, main-Completes}
use risc_v_computer_zybo.Driver.Program.Args.{
  Choice, with_irq, with_pbm, with_device, AllMeant, no_choices, more_choices, str_eq, flag_of,
  command_line, parse_args, default_settings, parse_args-command_line,
}
use risc_v_computer_zybo.Tests.Driver.{idle_platform}

-- A device that is busy for as many pauses as its state says.
abbrev counting_down : Platform ℕ
counting_down = record {
  mmio_read = λ at d. (if d == 0 then 2 else 1, d);
  mmio_write = λ at v d. d;
  pause = λ d. d - 1;
  enable_irq = λ d. some d;
  await_irq = λ d. some (1, d);
  open_device = λ path. some 2;
  can_write = λ path. true;
}

abbrev busy_session : Session ℕ
busy_session = session_for false 2

busy_session-FirstDone : FirstDone counting_down npu_busy npu_done 2 busy_session
unfolding at_poll backend_read
busy_session-FirstDone = record { sees = refl; none_before = λ j h. before j h }
  where
    before :
        (j : ℕ)
        → j < 2
        → is_finished npu_busy npu_done
            (status_read counting_down (at_poll counting_down j busy_session))
          ≡ false
    before zero h = refl
    before (suc zero) h = refl
    before (suc (suc j)) h = absurd (omega arith)

poll_loop-FirstDone_example :
    poll_loop counting_down max_polls npu_busy npu_done busy_session
    ≡ ok (backend_read counting_down (offset Reg.status) (at_poll counting_down 2 busy_session)).1
poll_loop-FirstDone_example =
    poll_loop-FirstDone counting_down max_polls npu_busy npu_done 2 busy_session (omega arith)
      busy_session-FirstDone

not_yet :
    (j : ℕ)
    → j < 2
    → is_finished npu_busy npu_done
        (status_read counting_down (at_poll counting_down j busy_session))
      ≡ false
not_yet j h = busy_session-FirstDone.none_before j h

poll_loop_exits_example : poll_loop counting_down 2 npu_busy npu_done busy_session ≡ exited
poll_loop_exits_example = poll_loop_exits counting_down 2 npu_busy npu_done busy_session not_yet

abbrev any_rows : Rows
any_rows y = y

abbrev emulated_session : Session Unit
emulated_session = session_for true tt

read_framebuffer_rows-RowsRead_example :
    Returns
      (RowsRead 0 fb_rows any_rows (on_emu emulated_session))
      (read_framebuffer_rows idle_platform any_rows (on_emu emulated_session))
read_framebuffer_rows-RowsRead_example =
    read_framebuffer_rows-RowsRead idle_platform any_rows emulated_session

abbrev diagonal : Rows
diagonal y = if y == 3 then 0x80000001 else 5

read_pbm-pbm_text_example : read_pbm (pbm_text diagonal) ≡ some (row_list fb_rows 0 diagonal)
read_pbm-pbm_text_example = read_pbm-pbm_text diagonal λ y. ground arith

-- --irq /dev/uio1 --pbm out
abbrev choices : List Choice
choices = with_irq ∷ with_device (codes "/dev/uio1") ∷ with_pbm (codes "out") ∷ []

choices-AllMeant : AllMeant choices
unfolding flag_of str_eq
choices-AllMeant = more_choices tt (more_choices refl (more_choices tt no_choices))

parse_args-command_line_example :
    parse_args (command_line choices (codes "--pbm" ∷ [])) default_settings ≡ none
parse_args-command_line_example =
    parse_args-command_line choices true default_settings choices-AllMeant

emulating :
    parse_args (codes "--emulate" ∷ codes "--irq" ∷ []) default_settings
    ≡ some (record default_settings { emulate = true; use_irq = true })
unfolding parse_args flag_of str_eq
emulating = refl

main-Completes_example :
    Completes
      (main idle_platform (codes "--emulate" ∷ codes "--irq" ∷ []) tt any_rows any_rows any_rows)
main-Completes_example =
    main-Completes idle_platform (codes "--emulate" ∷ codes "--irq" ∷ [])
      (record default_settings { emulate = true; use_irq = true }) tt any_rows any_rows any_rows
      emulating refl (λ path. refl)
