-- ===== src/Bootrom/Monitor/Polls.antt =====
-- What a poll of the keyboard in firmware/bootrom/bootrom.c leaves alone.
use risc_v_computer_zybo.Base.{ℕ, ◌%◌, ◌≡◌, refl, arith, Option, none, some, ◌==◌, if-both}
use risc_v_computer_zybo.Bootrom.{
  Machine, set_boot_info, set_ps2_break_prefix, set_ps2_extended_prefix,
}
use risc_v_computer_zybo.Bootrom.Statics.{
  KeepsLoader, KeepsLoader-trans, set_static-KeepsLoader, set_boot_info-KeepsLoader,
}
use risc_v_computer_zybo.Bootrom.Keyboard.{
  has_prefix, decode_ps2_ascii, take_scan_code, poll_ps2_command,
}

-- A poll of the keyboard sends nothing and leaves what the loader has left.
take_scan_code-Keeps :
    (c : ℕ) (m : Machine)
    → ((take_scan_code c m).1.uart ≡ m.uart) × KeepsLoader m (take_scan_code c m).1
unfolding take_scan_code
take_scan_code-Keeps c m =
    if-both Kept (c == 0xF0) _ _ (refl, broken m 1)
      (if-both Kept (c == 0xE0) _ _ (refl, extended m 1)
        (if-both Kept (has_prefix m) _ _
          (refl, KeepsLoader-trans m _ _ (broken m 0) (extended (set_ps2_break_prefix 0 m) 0))
          (if-both Kept (decode_ps2_ascii c == 0) _ _ (refl, same)
            (
              refl,
              KeepsLoader-trans m _ _ (set_boot_info-KeepsLoader 6 c m (omega arith)) (
                  set_boot_info-KeepsLoader 7 (decode_ps2_ascii c % 256) (set_boot_info 6 c m)
                    (omega arith)),
            ))))
  where
    Kept : Option ℕ × Machine → Type 0
    Kept r = (r.1.uart ≡ m.uart) × KeepsLoader m r.1

    same : KeepsLoader m m
    same = record { loaded = refl; entry = refl; status = refl }

    broken : (n : Machine) (v : ℕ) → KeepsLoader n (set_ps2_break_prefix v n)
    broken n v =
        set_static-KeepsLoader n.bss.break_word v n n.bss.break_inside n.bss.loaded_break
          n.bss.entry_break

    extended : (n : Machine) (v : ℕ) → KeepsLoader n (set_ps2_extended_prefix v n)
    extended n v =
        set_static-KeepsLoader n.bss.extended_word v n n.bss.extended_inside n.bss.loaded_extended
          n.bss.entry_extended

pub poll_ps2_command-Keeps :
    (waiting : Option ℕ) (m : Machine)
    → ((poll_ps2_command waiting m).1.uart ≡ m.uart) × KeepsLoader m (poll_ps2_command waiting m).1
unfolding poll_ps2_command
poll_ps2_command-Keeps none m = (refl, record { loaded = refl; entry = refl; status = refl })
poll_ps2_command-Keeps (some c) m = take_scan_code-Keeps (c % 256) m
