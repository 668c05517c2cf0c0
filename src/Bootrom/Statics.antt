-- ===== src/Bootrom/Statics.antt =====
-- The four statics of firmware/bootrom/bootrom.c in the RAM: what a store to one leaves of the others.
use risc_v_computer_zybo.Base.{ℕ, ◌+◌, ◌≤◌, ◌<◌, ◌≡◌, ◌≢◌, ◌∙◌, ◌⊎◌, ap, arith}
use risc_v_computer_zybo.Word.{word}
use risc_v_computer_zybo.Memory.{load32}
use risc_v_computer_zybo.Memory.Laws.{load32-congr, load32-store32_self, load32-store32_other}
use risc_v_computer_zybo.Bootrom.{
  Bss, Machine, sram_base, info_at, boot_info, set_boot_info, bss_at, static, set_static,
  boot_loaded, boot_entry_addr,
}

-- Two words of the block at the start of the RAM.
pub bss_far : (i j : ℕ) → i ≢ j → (bss_at i + 4 ≤ bss_at j) ⊎ (bss_at j + 4 ≤ bss_at i)
bss_far i j h = ground arith

pub static-set_static_self : (i v : ℕ) (m : Machine) → v < word → static i (set_static i v m) ≡ v
static-set_static_self i v m small = load32-store32_self m.sram (bss_at i) v small

pub static-set_static_other :
    (i j v : ℕ) (m : Machine) → j ≢ i → static j (set_static i v m) ≡ static j m
static-set_static_other i j v m apart =
    load32-store32_other m.sram (bss_at i) v (bss_at j) (bss_far j i apart)

-- What the loader has left is as it was: its two statics and the status word.
pub record KeepsLoader (m m' : Machine) : Type 0 where
  pub loaded : boot_loaded m' ≡ boot_loaded m
  pub entry : boot_entry_addr m' ≡ boot_entry_addr m
  pub status : boot_info m' 5 ≡ boot_info m 5

pub KeepsLoader-trans :
    (m m' m'' : Machine) → KeepsLoader m m' → KeepsLoader m' m'' → KeepsLoader m m''
KeepsLoader-trans m m' m'' k l = record {
  loaded = l.loaded ∙ k.loaded;
  entry = l.entry ∙ k.entry;
  status = l.status ∙ k.status;
}

-- A machine whose RAM is the same up to the status word.
pub below-KeepsLoader :
    (m m' : Machine)
    → m'.bss ≡ m.bss
    → ((a : ℕ) → sram_base ≤ a → a < info_at 6 → m'.sram a ≡ m.sram a)
    → KeepsLoader m m'
below-KeepsLoader m m' b h = record {
  loaded =
      ap (λ (s : Bss). load32 m'.sram (bss_at s.loaded_word)) b
      ∙ word_same m.bss.loaded_word (omega (arith, m.bss.loaded_inside));
  entry =
      ap (λ (s : Bss). load32 m'.sram (bss_at s.entry_word)) b
      ∙ word_same m.bss.entry_word (omega (arith, m.bss.entry_inside));
  status = word_same 5 (omega arith);
}
  where
    word_same : (i : ℕ) → i < 6 → load32 m'.sram (bss_at i) ≡ load32 m.sram (bss_at i)
    word_same i small =
        load32-congr m.sram m'.sram (bss_at i) (λ a lo hi. h a (omega arith) (omega arith))

-- A store to another static, and one to a word of the boot info after the status.
pub set_static-KeepsLoader :
    (i v : ℕ) (m : Machine)
    → i < 4
    → m.bss.loaded_word ≢ i
    → m.bss.entry_word ≢ i
    → KeepsLoader m (set_static i v m)
set_static-KeepsLoader i v m small l e = record {
  loaded = static-set_static_other i m.bss.loaded_word v m l;
  entry = static-set_static_other i m.bss.entry_word v m e;
  status = static-set_static_other i 5 v m (λ q. omega arith);
}

pub set_boot_info-KeepsLoader :
    (i v : ℕ) (m : Machine) → 6 ≤ i → KeepsLoader m (set_boot_info i v m)
set_boot_info-KeepsLoader i v m far = record {
  loaded = static-set_static_other i _ v m (λ q. omega (arith, m.bss.loaded_inside));
  entry = static-set_static_other i _ v m (λ q. omega (arith, m.bss.entry_inside));
  status = static-set_static_other i 5 v m (λ q. omega arith);
}
