-- ===== src/Bootrom/Keyboard.antt =====
-- `decode_ps2_ascii` and `poll_ps2_command` of firmware/bootrom/bootrom.c.
-- The PS/2 controller is hardware: its state at a poll is the scan code that waits, or `none`.
use risc_v_computer_zybo.Base.{
  ℕ, ◌%◌, ◌<◌, ◌≡◌, ◌≢◌, refl, arith, Bool, true, ap, inl, inr, Bool-cases, ◌∙◌, not, ◌||◌, Option,
  none, some, List, [], ◌∷◌, ◌++◌, if◌then◌else◌, ◌==◌,
}
use risc_v_computer_zybo.Bootrom.{
  Machine, static, set_boot_info, ps2_break_prefix, ps2_extended_prefix, set_ps2_break_prefix,
  set_ps2_extended_prefix,
}
use risc_v_computer_zybo.Bootrom.Statics.{static-set_static_self, static-set_static_other}

-- The letter of a scan code, 0 if it is none of them.
unfoldable pub decode_ps2_ascii : ℕ → ℕ
decode_ps2_ascii c =
    if c == 0x1C
    then 0x61
    else if c == 0x21
    then 0x63
    else if c == 0x22
    then 0x78
    else if c == 0x32
    then 0x62
    else if c == 0x34
    then 0x67
    else if c == 0x33
    then 0x68
    else if c == 0x43
    then 0x69
    else if c == 0x42
    then 0x6b
    else if c == 0x4B
    then 0x6c
    else if c == 0x3A
    then 0x6d
    else if c == 0x31
    then 0x6e
    else if c == 0x4D
    then 0x70
    else if c == 0x2D
    then 0x72
    else if c == 0x2C
    then 0x74
    else if c == 0x2A
    then 0x76
    else 0

-- `boot_info[6] = raw; boot_info[7] = ascii;`
abbrev pub remember_ps2_key : ℕ → ℕ → Machine → Machine
remember_ps2_key raw ascii m = set_boot_info 7 (ascii % 256) (set_boot_info 6 raw m)

abbrev pub has_prefix : Machine → Bool
has_prefix m = not (ps2_break_prefix m == 0) || not (ps2_extended_prefix m == 0)

abbrev pub clear_prefixes : Machine → Machine
clear_prefixes m = set_ps2_extended_prefix 0 (set_ps2_break_prefix 0 m)

-- One scan code; `none` is the result -1.
unfoldable pub take_scan_code : ℕ → Machine → Option ℕ × Machine
take_scan_code scan_code m =
    if scan_code == 0xF0
    then (none, set_ps2_break_prefix 1 m)
    else if scan_code == 0xE0
    then (none, set_ps2_extended_prefix 1 m)
    else if has_prefix m
    then (none, clear_prefixes m)
    else if decode_ps2_ascii scan_code == 0
    then (none, m)
    else (
      some (decode_ps2_ascii scan_code),
      remember_ps2_key scan_code (decode_ps2_ascii scan_code) m,
    )

unfoldable pub poll_ps2_command : Option ℕ → Machine → Option ℕ × Machine
poll_ps2_command none m = (none, m)
poll_ps2_command (some code) m = take_scan_code (code % 256) m

-- What the keyboard reports.
pub data KeyEvent : Type 0 where
  press release extended_press extended_release : ℕ → KeyEvent

-- The scan codes of an event.
abbrev pub codes : KeyEvent → List ℕ
codes (press c) = c ∷ []
codes (release c) = 0xF0 ∷ c ∷ []
codes (extended_press c) = 0xE0 ∷ c ∷ []
codes (extended_release c) = 0xE0 ∷ 0xF0 ∷ c ∷ []

abbrev pub key_of : KeyEvent → ℕ
key_of (press c) = c
key_of (release c) = c
key_of (extended_press c) = c
key_of (extended_release c) = c

-- A byte that is not a prefix.
abbrev pub IsKey : KeyEvent → Type 0
IsKey e = (key_of e < 256) × (key_of e ≢ 0xF0) × (key_of e ≢ 0xE0)

pub data AllKeys : List KeyEvent → Type 0 where
  no_keys : AllKeys []
  more_keys : {e : KeyEvent} {es : List KeyEvent} → IsKey e → AllKeys es → AllKeys (e ∷ es)

-- The commands of a run of polls, one for each waiting code, and the machine after it.
abbrev pub noted : Option ℕ → List ℕ → List ℕ
noted none cs = cs
noted (some c) cs = c ∷ cs

unfoldable pub poll_all : List ℕ → Machine → List ℕ × Machine
poll_all [] m = ([], m)
poll_all (d ∷ ds) m =
    let (r, m') = poll_ps2_command (some d) m in let (cs, m'') = poll_all ds m' in (noted r cs, m'')

-- The commands that the events call for: the letters of the plain presses.
unfoldable pub commands : List KeyEvent → List ℕ
commands [] = []
commands (press c ∷ es) =
    if decode_ps2_ascii c == 0 then commands es else decode_ps2_ascii c ∷ commands es
commands (_ ∷ es) = commands es

unfoldable pub all_codes : List KeyEvent → List ℕ
all_codes [] = []
all_codes (e ∷ es) = codes e ++ all_codes es

abbrev pub IsClear : Machine → Type 0
IsClear m = (ps2_break_prefix m ≡ 0) × (ps2_extended_prefix m ≡ 0)

clear_prefixes-IsClear : (m : Machine) → IsClear (clear_prefixes m)
clear_prefixes-IsClear m = (
  static-set_static_other m.bss.extended_word m.bss.break_word 0 (set_ps2_break_prefix 0 m)
        m.bss.break_extended
      ∙ static-set_static_self m.bss.break_word 0 m (omega arith),
  static-set_static_self m.bss.extended_word 0 (set_ps2_break_prefix 0 m) (omega arith),
)

break-has_prefix : (m : Machine) → has_prefix (set_ps2_break_prefix 1 m) ≡ true
break-has_prefix m = ground (arith, static-set_static_self m.bss.break_word 1 m (omega arith))

extended-has_prefix : (m : Machine) → has_prefix (set_ps2_extended_prefix 1 m) ≡ true
extended-has_prefix m = ground (arith, static-set_static_self m.bss.extended_word 1 m (omega arith))

-- The boot info is stored beside the statics.
remember_ps2_key-IsClear :
    (raw ascii : ℕ) (m : Machine) → IsClear m → IsClear (remember_ps2_key raw ascii m)
remember_ps2_key-IsClear raw ascii m c = (
  kept m.bss.break_word m.bss.break_inside ∙ c.0,
  kept m.bss.extended_word m.bss.extended_inside ∙ c.1,
)
  where
    kept : (i : ℕ) → i < 4 → static i (remember_ps2_key raw ascii m) ≡ static i m
    kept i small =
        static-set_static_other 7 i (ascii % 256) (set_boot_info 6 raw m) (λ q. omega arith)
        ∙ static-set_static_other 6 i raw m (λ q. omega arith)

-- A poll that finds a prefix, a key after one, and a key alone.
poll_break : (m : Machine) → poll_ps2_command (some 0xF0) m ≡ (none, set_ps2_break_prefix 1 m)
unfolding poll_ps2_command take_scan_code
poll_break m = refl

poll_extended : (m : Machine) → poll_ps2_command (some 0xE0) m ≡ (none, set_ps2_extended_prefix 1 m)
unfolding poll_ps2_command take_scan_code
poll_extended m = refl

-- A byte that is not a prefix.
abbrev IsKeyCode : ℕ → Type 0
IsKeyCode c = (c < 256) × (c ≢ 0xF0) × (c ≢ 0xE0)

take_prefixed :
    (c : ℕ) (m : Machine)
    → IsKeyCode c
    → has_prefix m ≡ true
    → take_scan_code (c % 256) m ≡ (none, clear_prefixes m)
unfolding take_scan_code
take_prefixed c m k h = ground arith

poll_prefixed :
    (c : ℕ) (m : Machine)
    → IsKeyCode c
    → has_prefix m ≡ true
    → poll_ps2_command (some c) m ≡ (none, clear_prefixes m)
unfolding poll_ps2_command
poll_prefixed c m k h = take_prefixed c m k h

pressed : ℕ → Machine → Option ℕ × Machine
pressed c m =
    if decode_ps2_ascii c == 0
    then (none, m)
    else (some (decode_ps2_ascii c), remember_ps2_key c (decode_ps2_ascii c) m)

take_pressed :
    (c : ℕ) (m : Machine) → IsKeyCode c → IsClear m → take_scan_code (c % 256) m ≡ pressed c m
unfolding take_scan_code pressed
take_pressed c m k h = ground arith

poll_pressed :
    (c : ℕ) (m : Machine) → IsKeyCode c → IsClear m → poll_ps2_command (some c) m ≡ pressed c m
unfolding poll_ps2_command
poll_pressed c m k h = take_pressed c m k h

-- Polling the scan codes of any events, from clear prefixes on, gives the letters of the plain
-- presses, in order and nothing else, and leaves the prefixes clear.
pub poll_all-commands :
    (es : List KeyEvent) (m : Machine)
    → AllKeys es
    → IsClear m
    → let (cs, m') = poll_all (all_codes es) m in (cs ≡ commands es) × IsClear m'
unfolding poll_all commands all_codes pressed
poll_all-commands [] m no_keys c = (refl, c)
poll_all-commands (press k ∷ es) m (more_keys v vs) c =
    rw (poll_pressed k m v c) (elim (Bool-cases (decode_ps2_ascii k == 0)) [
      | inl e ↦ rw e (poll_all-commands es m vs c)
      | inr e ↦
          let rest =
            poll_all-commands es (remember_ps2_key k (decode_ps2_ascii k) m) vs
              (remember_ps2_key-IsClear k (decode_ps2_ascii k) m c) in
          rw e (ap (λ (cs : List ℕ). decode_ps2_ascii k ∷ cs) rest.0, rest.1)
    ])
poll_all-commands (release k ∷ es) m (more_keys v vs) c =
    rw (poll_break m, poll_prefixed k (set_ps2_break_prefix 1 m) v (break-has_prefix m))
      (poll_all-commands es _ vs (clear_prefixes-IsClear (set_ps2_break_prefix 1 m)))
poll_all-commands (extended_press k ∷ es) m (more_keys v vs) c =
    rw (poll_extended m, poll_prefixed k (set_ps2_extended_prefix 1 m) v (extended-has_prefix m))
      (poll_all-commands es _ vs (clear_prefixes-IsClear (set_ps2_extended_prefix 1 m)))
poll_all-commands (extended_release k ∷ es) m (more_keys v vs) c =
    rw
      (
        poll_extended m,
        poll_break (set_ps2_extended_prefix 1 m),
        poll_prefixed k (set_ps2_break_prefix 1 (set_ps2_extended_prefix 1 m)) v
            (break-has_prefix (set_ps2_extended_prefix 1 m)),
      )
      (poll_all-commands es _ vs
        (clear_prefixes-IsClear (set_ps2_break_prefix 1 (set_ps2_extended_prefix 1 m))))
