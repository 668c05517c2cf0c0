-- ===== src/Bootrom/Loader/Left.antt =====
-- What `retry_sd_boot` of firmware/bootrom/bootrom.c has to leave for a header and the bytes after it,
-- and the RAM after its copy.
use risc_v_computer_zybo.Base.{
  ℕ, ◌+◌, ◌-◌, ◌%◌, ◌≤◌, ◌<◌, ◌≡◌, ◌≢◌, ◌∙◌, inl, inr, ap, arith, Bool, true, none, some,
  if◌then◌else◌, ◌==◌, ◌&&◌, ltb, leb, Bool-cases, Option-cases,
}
use risc_v_computer_zybo.Word.{word}
use risc_v_computer_zybo.Memory.{Mem, load32}
use risc_v_computer_zybo.Memory.Laws.{load32-congr}
use risc_v_computer_zybo.Bootrom.{Machine, sram_base, sram_size_bytes, info_at, bss_at}
use risc_v_computer_zybo.Bootrom.Loader.{
  Header, check_header, copy_image, refuse, status_ok, status_bad_checksum,
}
use risc_v_computer_zybo.Bootrom.Loader.Copy.{coming, weighted, copy_image_lem}
use risc_v_computer_zybo.Bootrom.Loader.Info.{OutsideSram, refuse_other}

-- The status that the loader reports for a header and the bytes `b` after it.
abbrev pub boot_status : Header → (ℕ → ℕ) → ℕ
boot_status h b = elim (check_header h) [
  | some code ↦ code
  | none ↦
      if weighted b h.size_bytes % word == h.expected_checksum
      then status_ok
      else status_bad_checksum
]

abbrev pub is_booted : Header → (ℕ → ℕ) → Bool
is_booted h b = boot_status h b == status_ok

-- The RAM from the statics on when the image has been copied over a cleared boot info.
abbrev pub cleared_and_copied : Header → (ℕ → ℕ) → Mem
cleared_and_copied h b a =
    if leb h.load_addr a && ltb a (h.load_addr + h.size_bytes) then b (a - h.load_addr) else 0

-- A static at `at` that an accepted image sets to `v`: it is 0 where the header is refused, and what
-- the image has put there where the checksum is.
abbrev pub static_left : Header → (ℕ → ℕ) → ℕ → ℕ → ℕ
static_left h b at v = elim (check_header h) [
  | some code ↦ 0
  | none ↦
      if weighted b h.size_bytes % word == h.expected_checksum
      then v
      else load32 (cleared_and_copied h b) at
]

-- A header that passes is that of an image inside the RAM, and a status that refuses is not OK.
pub check_header-none :
    (h : Header)
    → check_header h ≡ none
    → (sram_base ≤ h.load_addr)
      × (h.load_addr ≤ h.entry_addr)
      × (h.entry_addr < h.load_addr + h.size_bytes)
      × (h.load_addr + h.size_bytes ≤ sram_base + sram_size_bytes)
unfolding check_header
check_header-none h e = ground arith

pub check_header-some :
    (h : Header) (code : ℕ) → check_header h ≡ some code → (code ≢ status_ok) × (code < word)
unfolding check_header
check_header-some h code e = ground arith

-- The machine after the copy of the image.
abbrev pub copied : Header → Machine → Machine
copied h m = (copy_image h m).1

-- The boot info and the statics are cleared in the RAM.
abbrev pub Cleared : Machine → Type 0
Cleared m = (a : ℕ) → sram_base ≤ a → a < info_at 8 → m.sram a ≡ 0

-- A static after a success.
pub booted_static :
    (h : Header) (b : ℕ → ℕ) → is_booted h b ≡ true → (at v : ℕ) → static_left h b at v ≡ v
booted_static h b booted at v = elim (Option-cases (check_header h)) [
  | inr (code, e) ↦ absurd ((check_header-some h code e).0 (ground (arith, booted, e)))
  | inl e ↦ ground (arith, booted, e)
]

pub check_header-entry : (h : Header) → check_header h ≡ none → h.entry_addr < word
unfolding check_header
check_header-entry h e = ground arith

module _ (h : Header) (m : Machine) where
  pub copied-confined :
      check_header h ≡ none → (a : ℕ) → OutsideSram a → (copied h m).sram a ≡ m.sram a
  copied-confined e a o = (copy_image_lem h m).0.outside a (omega (arith, check_header-none h e))

  pub copied-bss : (copied h m).bss ≡ m.bss
  copied-bss = (copy_image_lem h m).0.bss

module _ (h : Header) (m : Machine) (zero : Cleared m) where
  -- The bytes of the boot info after the copy.
  copied-info :
      (a : ℕ)
      → sram_base ≤ a
      → a < info_at 8
      → (copied h m).sram a ≡ cleared_and_copied h (coming m) a
  copied-info a lo hi =
      elim (Bool-cases (leb h.load_addr a && ltb a (h.load_addr + h.size_bytes))) [
        | inl e ↦ rw e (
            ap (copied h m).sram (inside e)
            ∙ (copy_image_lem h m).0.image (a - h.load_addr) (ground arith))
        | inr e ↦ rw e ((copy_image_lem h m).0.outside a (ground arith) ∙ zero a lo hi)
      ]
    where
      inside :
          (leb h.load_addr a && ltb a (h.load_addr + h.size_bytes)) ≡ true
          → a ≡ h.load_addr + (a - h.load_addr)
      inside e = ground arith

  -- A word of .bss where the header is refused, and where the checksum is.
  pub refused_static : (code at : ℕ) → at < 4 → load32 (refuse code m).sram (bss_at at) ≡ 0
  unfolding load32
  refused_static code at small =
      load32-congr (λ _. 0) (refuse code m).sram (bss_at at)
        (λ a lo hi. refuse_other code m a (inl (omega arith)) ∙ zero a (omega arith) (omega arith))

  pub copied_static :
      (code at : ℕ)
      → at < 4
      → load32 (refuse code (copied h m)).sram (bss_at at)
        ≡ load32 (cleared_and_copied h (coming m)) (bss_at at)
  copied_static code at small =
      load32-congr (cleared_and_copied h (coming m)) (refuse code (copied h m)).sram (bss_at at)
        (λ a lo hi.
          refuse_other code (copied h m) a (inl (omega arith))
          ∙ copied-info a (omega arith) (omega arith))
