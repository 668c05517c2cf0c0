-- ===== src/Bootrom/RamTest.antt =====
-- `run_ram_test` of firmware/bootrom/bootrom.c.
pub mod Refused
use risc_v_computer_zybo.Base.{
  ℕ, ◌+◌, ◌-◌, ◌%◌, ◌<◌, ◌≤◌, ◌≡◌, ◌≢◌, ◌⊎◌, ◌∙◌, ap, inl, inr, refl, arith, Bool, true, false, not,
  ◌&&◌, List, [], ◌∷◌, if◌then◌else◌, ◌==◌, ltb, Bool-cases,
}
use risc_v_computer_zybo.Word.{word, add32}
use risc_v_computer_zybo.Memory.{Mem, load32, store32}
use risc_v_computer_zybo.Memory.Laws.{store32_other, load32-store32_self, load32-store32_other}
use risc_v_computer_zybo.Bootrom.{
  Machine, sram_base, sram_size_bytes, uart_puts, boot_info, boot_loaded, boot_entry_addr,
}
use risc_v_computer_zybo.Bootrom.Statics.{KeepsLoader, below-KeepsLoader}
use risc_v_computer_zybo.Bootrom.Loader.Info.{uart_puts-SameRam}

-- RAMTEST_MIN_BASE and RAMTEST_LIMIT
abbrev pub ramtest_min_base : ℕ
ramtest_min_base = sram_base + 0x200

abbrev pub ramtest_limit : ℕ
ramtest_limit = sram_base + sram_size_bytes - 0x200

abbrev pub ramtest_patterns : List ℕ
ramtest_patterns = 0x13579BDF ∷ 0x2468ACE0 ∷ 0x0F0F55AA ∷ 0xA5A5F00F ∷ []

-- "RAM=ER\n> " and "RAM=OK\n> "
abbrev pub ram_er : List ℕ
ram_er = 0x52 ∷ 0x41 ∷ 0x4d ∷ 0x3d ∷ 0x45 ∷ 0x52 ∷ 0x0a ∷ 0x3e ∷ 0x20 ∷ []

abbrev pub ram_ok : List ℕ
ram_ok = 0x52 ∷ 0x41 ∷ 0x4d ∷ 0x3d ∷ 0x4f ∷ 0x4b ∷ 0x0a ∷ 0x3e ∷ 0x20 ∷ []

-- `(image_end + 31u) & ~31u`
abbrev pub aligned_end : Machine → ℕ
aligned_end m = let up = add32 (add32 (boot_info m 1) (boot_info m 2)) 31 in up - up % 32

unfoldable pub test_base : Machine → ℕ
test_base m =
    if not (boot_loaded m == 0) && ltb ramtest_min_base (aligned_end m)
    then aligned_end m
    else ramtest_min_base

-- The two loops, on the patterns left.
unfoldable pub write_patterns : List ℕ → ℕ → Mem → Mem
write_patterns [] at s = s
write_patterns (p ∷ ps) at s = write_patterns ps (at + 4) (store32 s at p)

unfoldable pub check_patterns : List ℕ → ℕ → Mem → Bool
check_patterns [] at s = true
check_patterns (p ∷ ps) at s = if load32 s at == p then check_patterns ps (at + 4) s else false

abbrev pub filled : Machine → Machine
filled m = record m { sram = write_patterns ramtest_patterns (test_base m) m.sram }

unfoldable pub run_ram_test : Machine → Machine
run_ram_test m =
    if ltb ramtest_limit (add32 (test_base m) 16)
    then uart_puts ram_er m
    else if check_patterns ramtest_patterns (test_base m) (filled m).sram
    then uart_puts ram_ok (filled m)
    else uart_puts ram_er (filled m)

-- The four words fit below the limit.
abbrev pub has_room : Machine → Bool
has_room m = not (ltb ramtest_limit (test_base m + 16))

-- What the RAM test leaves.
pub record RamTested (m m' : Machine) : Type 0 where
  pub told : m' ≡ (if has_room m then uart_puts ram_ok (filled m) else uart_puts ram_er m)
  pub kept : (a : ℕ) → (a < test_base m) ⊎ (ramtest_limit ≤ a) → m'.sram a ≡ m.sram a
  pub loader : (boot_loaded m' ≡ boot_loaded m) × (boot_entry_addr m' ≡ boot_entry_addr m)
  pub image : boot_loaded m ≢ 0 → (a : ℕ) → a < boot_info m 1 + boot_info m 2 → m'.sram a ≡ m.sram a

patterns_checked :
    (at : ℕ) (s : Mem)
    → check_patterns ramtest_patterns at (write_patterns ramtest_patterns at s) ≡ true
unfolding check_patterns write_patterns
patterns_checked at s = grind (arith, load32-store32_self, load32-store32_other)

patterns_outside :
    (at : ℕ) (s : Mem) (a : ℕ)
    → (a < at) ⊎ (at + 16 ≤ a)
    → write_patterns ramtest_patterns at s a ≡ s a
unfolding write_patterns
patterns_outside at s a h = grind (arith, store32_other)

test_base-le : (m : Machine) → (ramtest_min_base ≤ test_base m) × (test_base m < word)
unfolding test_base
test_base-le m = ground arith

run_ram_test_told :
    (m : Machine)
    → test_base m + 16 < word
    → run_ram_test m ≡ (if has_room m then uart_puts ram_ok (filled m) else uart_puts ram_er m)
unfolding run_ram_test
run_ram_test_told m small = ground (arith, patterns_checked (test_base m) m.sram)

test_base_small :
    (m : Machine) → boot_info m 1 + boot_info m 2 + 47 < word → test_base m + 16 < word
unfolding test_base
test_base_small m small = ground arith

image-le-test_base :
    (m : Machine)
    → boot_info m 1 + boot_info m 2 + 47 < word
    → boot_loaded m ≢ 0
    → boot_info m 1 + boot_info m 2 ≤ test_base m
unfolding test_base
image-le-test_base m small loaded = ground arith

ram_test_kept :
    (m : Machine) (a : ℕ)
    → boot_info m 1 + boot_info m 2 + 47 < word
    → (a < test_base m) ⊎ (ramtest_limit ≤ a)
    → (run_ram_test m).sram a ≡ m.sram a
ram_test_kept m a small o = elim (Bool-cases (has_room m)) [
  | inl room ↦
      rw
        (
          run_ram_test_told m (test_base_small m small),
          room,
          (uart_puts-SameRam ram_ok (filled m)).sram,
        )
        (patterns_outside (test_base m) m.sram a (ground arith))
  | inr full ↦
      rw (run_ram_test_told m (test_base_small m small), full, (uart_puts-SameRam ram_er m).sram)
        refl
]

-- The three ends of the test.
run_ram_test-cases :
    (m : Machine)
    → (run_ram_test m ≡ uart_puts ram_er m)
      ⊎ (run_ram_test m ≡ uart_puts ram_ok (filled m))
      ⊎ (run_ram_test m ≡ uart_puts ram_er (filled m))
unfolding run_ram_test
run_ram_test-cases m = ground arith

filled-below : (m : Machine) (a : ℕ) → a < ramtest_min_base → (filled m).sram a ≡ m.sram a
filled-below m a h =
    patterns_outside (test_base m) m.sram a (inl (omega (arith, (test_base-le m).0)))

told-KeepsLoader :
    (s : List ℕ) (m m1 : Machine)
    → m1.bss ≡ m.bss
    → ((a : ℕ) → a < ramtest_min_base → m1.sram a ≡ m.sram a)
    → KeepsLoader m (uart_puts s m1)
told-KeepsLoader s m m1 b h =
    let k = uart_puts-SameRam s m1 in
    below-KeepsLoader m (uart_puts s m1) (k.bss ∙ b)
      (λ a lo hi. ap (λ (x : Mem). x a) k.sram ∙ h a (omega arith))

-- Whatever the boot info says, the loader's statics and the status word are below the test.
pub run_ram_test-KeepsLoader : (m : Machine) → KeepsLoader m (run_ram_test m)
run_ram_test-KeepsLoader m = elim (run_ram_test-cases m) [
  | inl e ↦ rw e (told-KeepsLoader ram_er m m refl (λ a h. refl))
  | inr (inl e) ↦ rw e (told-KeepsLoader ram_ok m (filled m) refl (filled-below m))
  | inr (inr e) ↦ rw e (told-KeepsLoader ram_er m (filled m) refl (filled-below m))
]

-- `run_ram_test`, where the end of the image that the boot info tells of does not wrap: it says OK
-- exactly when four words fit between the test's base and its limit. It writes nothing below the
-- base or from the limit on, and no byte below the end of a loaded image.
pub run_ram_test-RamTested :
    (m : Machine) → boot_info m 1 + boot_info m 2 + 47 < word → RamTested m (run_ram_test m)
run_ram_test-RamTested m small = record {
  told = run_ram_test_told m (test_base_small m small);
  kept = λ a o. ram_test_kept m a small o;
  loader = (kept.loaded, kept.entry);
  image = λ loaded a h.
      ram_test_kept m a small (inl (omega (arith, image-le-test_base m small loaded)));
}
  where
    kept : KeepsLoader m (run_ram_test m)
    kept = run_ram_test-KeepsLoader m
