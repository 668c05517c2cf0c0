-- ===== src/Bootrom/Loader/Info.antt =====
-- What the loader's messages and its boot-info words leave alone.
use risc_v_computer_zybo.Base.{
  ℕ, ◌+◌, ◌≤◌, ◌<◌, ◌≡◌, ◌≢◌, ◌∙◌, sym, ap, ◌⊎◌, refl, arith, List, [], ◌∷◌, if◌then◌else◌, ◌==◌,
}
use risc_v_computer_zybo.Word.{word}
use risc_v_computer_zybo.Memory.{Mem, load32, store32}
use risc_v_computer_zybo.Memory.Laws.{store32_other, load32-store32_self, load32-store32_other}
use risc_v_computer_zybo.Bootrom.{
  Machine, sram_base, sram_size_bytes, uart_putc, uart_puts, info_at, boot_info, set_boot_info,
  bss_at, boot_loaded, boot_entry_addr, set_boot_loaded, set_boot_entry_addr,
}
use risc_v_computer_zybo.Bootrom.Statics.{bss_far}
use risc_v_computer_zybo.Bootrom.Loader.{
  Header, refuse, accept, boot_er, boot_ok, clear_boot_info, write_boot_info, boot_begun,
  boot_info_magic, status_ok,
}

-- A message leaves the memory, and the statics in it.
pub record SameRam (m m' : Machine) : Type 0 where
  pub sram : m'.sram ≡ m.sram
  pub bss : m'.bss ≡ m.bss

pub uart_puts-SameRam : (s : List ℕ) (m : Machine) → SameRam m (uart_puts s m)
unfolding uart_puts
uart_puts-SameRam [] m = record { sram = refl; bss = refl }
uart_puts-SameRam (ch ∷ s) m =
    let told = uart_puts-SameRam s (uart_putc ch (if ch == 0x0a then uart_putc 0x0d m else m)) in
    record { sram = ground (arith, told.sram); bss = ground (arith, told.bss) }

-- The boot-info words are the only ones that a status or an acceptance writes.
abbrev pub OutsideInfo : ℕ → Type 0
OutsideInfo a = (a < sram_base) ⊎ (info_at 8 ≤ a)

pub refuse_status : (code : ℕ) (m : Machine) → code < word → boot_info (refuse code m) 5 ≡ code
refuse_status code m small =
    rw ((uart_puts-SameRam boot_er (set_boot_info 5 code m)).sram)
      (load32-store32_self m.sram (info_at 5) code small)

pub refuse_outside :
    (code : ℕ) (m : Machine) (a : ℕ) → OutsideInfo a → (refuse code m).sram a ≡ m.sram a
refuse_outside code m a h =
    rw ((uart_puts-SameRam boot_er (set_boot_info 5 code m)).sram)
      (store32_other m.sram (info_at 5) code a (omega arith))

-- A refusal writes the status word alone.
pub refuse_other :
    (code : ℕ) (m : Machine) (a : ℕ)
    → (a < info_at 5) ⊎ (info_at 6 ≤ a)
    → (refuse code m).sram a ≡ m.sram a
refuse_other code m a h =
    rw ((uart_puts-SameRam boot_er (set_boot_info 5 code m)).sram)
      (store32_other m.sram (info_at 5) code a (omega arith))

pub refuse_bss : (code : ℕ) (m : Machine) → (refuse code m).bss ≡ m.bss
refuse_bss code m = (uart_puts-SameRam boot_er (set_boot_info 5 code m)).bss

-- The machine of `accept` before its message.
abbrev accepted : Header → Machine → Machine
accepted h m =
    let told = write_boot_info h.load_addr h.size_bytes h.entry_addr h.expected_checksum m in
    set_boot_loaded 1 (set_boot_entry_addr h.entry_addr told)

accept_sram : (h : Header) (m : Machine) → (accept h m).sram ≡ (accepted h m).sram
accept_sram h m = (uart_puts-SameRam boot_ok (accepted h m)).sram

-- A word of the boot info that is none of the loader's statics.
pub accept_word :
    (h : Header) (m : Machine) (i : ℕ)
    → i ≢ m.bss.loaded_word
    → i ≢ m.bss.entry_word
    → boot_info (accept h m) i
      ≡ boot_info (write_boot_info h.load_addr h.size_bytes h.entry_addr h.expected_checksum m) i
unfolding write_boot_info
accept_word h m i l e =
    ap (λ (s : Mem). load32 s (info_at i)) (accept_sram h m)
    ∙ load32-store32_other _ (bss_at m.bss.loaded_word) 1 (info_at i) (bss_far i _ l)
    ∙ load32-store32_other _ (bss_at m.bss.entry_word) h.entry_addr (info_at i) (bss_far i _ e)

pub accept_status : (h : Header) (m : Machine) → boot_info (accept h m) 5 ≡ status_ok
unfolding write_boot_info
accept_status h m =
    accept_word h m 5 (omega (arith, m.bss.loaded_inside)) (omega (arith, m.bss.entry_inside))
    ∙ grind (arith, load32-store32_self, load32-store32_other)

pub accept_magic :
    (h : Header) (m : Machine)
    → 0 ≢ m.bss.loaded_word
    → 0 ≢ m.bss.entry_word
    → boot_info (accept h m) 0 ≡ boot_info_magic
unfolding write_boot_info
accept_magic h m l e =
    accept_word h m 0 l e ∙ grind (arith, load32-store32_self, load32-store32_other)

pub accept_bss : (h : Header) (m : Machine) → (accept h m).bss ≡ m.bss
unfolding write_boot_info
accept_bss h m = (uart_puts-SameRam boot_ok (accepted h m)).bss

pub accept_loaded : (h : Header) (m : Machine) → boot_loaded (accept h m) ≡ 1
unfolding write_boot_info
accept_loaded h m =
    rw (accept_bss h m, accept_sram h m)
      (load32-store32_self _ (bss_at m.bss.loaded_word) 1 (omega arith))

pub accept_entry :
    (h : Header) (m : Machine) → h.entry_addr < word → boot_entry_addr (accept h m) ≡ h.entry_addr
unfolding write_boot_info
accept_entry h m small =
    rw (accept_bss h m, accept_sram h m)
      (load32-store32_other _ (bss_at m.bss.loaded_word) 1 (bss_at m.bss.entry_word)
          (bss_far m.bss.entry_word m.bss.loaded_word (λ q. m.bss.loaded_entry (sym q)))
        ∙ load32-store32_self _ (bss_at m.bss.entry_word) h.entry_addr small)

pub accept_outside :
    (h : Header) (m : Machine) (a : ℕ) → OutsideInfo a → (accept h m).sram a ≡ m.sram a
unfolding write_boot_info
accept_outside h m a o = rw (accept_sram h m) (
    store32_other _ (bss_at m.bss.loaded_word) 1 a (omega (arith, m.bss.loaded_inside))
    ∙ store32_other _ (bss_at m.bss.entry_word) h.entry_addr a (omega (arith, m.bss.entry_inside))
    ∙ grind (arith, store32_other))

pub boot_begun-outside : (m : Machine) (a : ℕ) → OutsideInfo a → (boot_begun m).sram a ≡ m.sram a
unfolding clear_boot_info
boot_begun-outside m a o = grind (arith, store32_other, m.bss.loaded_inside, m.bss.entry_inside)

-- The boot info, and with it .bss, is cleared.
pub boot_begun-zero :
    (m : Machine) (a : ℕ) → sram_base ≤ a → a < info_at 8 → (boot_begun m).sram a ≡ 0
unfolding clear_boot_info store32
boot_begun-zero m a lo hi = ground arith

pub boot_begun-bss : (m : Machine) → (boot_begun m).bss ≡ m.bss
unfolding clear_boot_info
boot_begun-bss m = refl

abbrev pub OutsideSram : ℕ → Type 0
OutsideSram a = (a < sram_base) ⊎ (sram_base + sram_size_bytes ≤ a)
