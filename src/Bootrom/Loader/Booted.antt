-- ===== src/Bootrom/Loader/Booted.antt =====
-- What `retry_sd_boot` leaves, on every branch.
use risc_v_computer_zybo.Base.{
  ℕ, ◌+◌, ◌%◌, ◌≤◌, ◌<◌, ◌≡◌, ◌≢◌, ◌∙◌, ◌⊎◌, inl, inr, refl, ap, sym, arith, true, false, none,
  some, if◌then◌else◌, ◌==◌, Bool-cases, Option-cases,
}
use risc_v_computer_zybo.Word.{word}
use risc_v_computer_zybo.Memory.{load32}
use risc_v_computer_zybo.Bootrom.{
  Bss, Machine, sram_base, sram_size_bytes, info_at, boot_info, bss_at, static, boot_loaded,
  boot_entry_addr,
}
use risc_v_computer_zybo.Bootrom.Loader.{
  Header, read_header, check_header, refuse, accept, clear_boot_info, boot_begun, boot_header,
  retry_sd_boot, boot_info_magic, status_ok, status_bad_checksum,
}
use risc_v_computer_zybo.Bootrom.Loader.Copy.{coming, weighted, copy_image_lem}
use risc_v_computer_zybo.Bootrom.Loader.Info.{
  OutsideSram, refuse_status, refuse_outside, refuse_bss, accept_status, accept_magic,
  accept_loaded, accept_entry, accept_outside, boot_begun-outside, boot_begun-zero, boot_begun-bss,
}
use risc_v_computer_zybo.Bootrom.Loader.Left.{
  boot_status, is_booted, static_left, cleared_and_copied, check_header-none, check_header-some,
  check_header-entry, Cleared, copied, copied-confined, copied-bss, refused_static, copied_static,
}

-- What the loader leaves of `m` when the header `h` was read and the bytes `b` follow.
pub record Booted (h : Header) (b : ℕ → ℕ) (m m' : Machine) : Type 0 where
  pub status : boot_info m' 5 ≡ boot_status h b
  pub loaded : boot_loaded m' ≡ static_left h b (bss_at m.bss.loaded_word) 1
  pub entry : boot_entry_addr m' ≡ static_left h b (bss_at m.bss.entry_word) h.entry_addr
  pub confined :
      (a : ℕ) → (a < sram_base) ⊎ (sram_base + sram_size_bytes ≤ a) → m'.sram a ≡ m.sram a
  pub image :
      is_booted h b ≡ true
      → (j : ℕ) → j < h.size_bytes
      → info_at 8 ≤ h.load_addr + j
      → m'.sram (h.load_addr + j) ≡ b j
  pub in_sram :
      is_booted h b ≡ true
      → (sram_base ≤ h.load_addr)
        × (h.load_addr ≤ h.entry_addr)
        × (h.entry_addr < h.load_addr + h.size_bytes)
        × (h.load_addr + h.size_bytes ≤ sram_base + sram_size_bytes)

module _ (h : Header) (m : Machine) where
  refused_eq : (code : ℕ) → check_header h ≡ some code → boot_header h m ≡ refuse code m
  unfolding boot_header
  refused_eq code e = rw (boot_header, e) refl

  checked_eq :
      check_header h ≡ none
      → boot_header h m ≡ (
          if weighted (coming m) h.size_bytes % word == h.expected_checksum
          then accept h (copied h m)
          else refuse status_bad_checksum (copied h m))
  unfolding boot_header
  checked_eq e = rw (boot_header, e, (copy_image_lem h m).1) refl

module _ (h : Header) (m : Machine) (zero : Cleared m) where
  refuse-Booted :
      (code : ℕ) (m1 : Machine)
      → (code ≢ status_ok) × (code < word)
      → boot_status h (coming m) ≡ code
      → static_left h (coming m) (bss_at m.bss.loaded_word) 1 ≡ boot_loaded (refuse code m1)
      → static_left h (coming m) (bss_at m.bss.entry_word) h.entry_addr
        ≡ boot_entry_addr (refuse code m1)
      → ((a : ℕ) → OutsideSram a → m1.sram a ≡ m.sram a)
      → Booted h (coming m) m (refuse code m1)
  refuse-Booted code m1 c st loaded entry sram = record {
    status = refuse_status code m1 c.1 ∙ sym st;
    loaded = sym loaded;
    entry = sym entry;
    confined = λ a o. refuse_outside code m1 a (omega arith) ∙ sram a o;
    image = λ g. absurd (no_boot g);
    in_sram = λ g. absurd (no_boot g);
  }
    where
      not_ok : is_booted h (coming m) ≡ false
      not_ok = rw st (ground (arith, c.0))

      no_boot : is_booted h (coming m) ≡ true → ⊥
      no_boot g = ground (arith, not_ok)

  accept-Booted :
      check_header h ≡ none
      → (weighted (coming m) h.size_bytes % word == h.expected_checksum) ≡ true
      → Booted h (coming m) m (accept h (copied h m))
  accept-Booted e good = record {
    status = accept_status h (copied h m) ∙ sym st;
    loaded = accept_loaded h (copied h m) ∙ sym (kept 1 _);
    entry = accept_entry h (copied h m) (check_header-entry h e) ∙ sym (kept h.entry_addr _);
    confined = λ a o. accept_outside h (copied h m) a (omega arith) ∙ copied-confined h m e a o;
    image = λ g j q i.
        accept_outside h (copied h m) (h.load_addr + j) (inr i) ∙ (copy_image_lem h m).0.image j q;
    in_sram = λ g. check_header-none h e;
  }
    where
      st : boot_status h (coming m) ≡ status_ok
      st = ground (arith, e, good)

      kept : (v at : ℕ) → static_left h (coming m) at v ≡ v
      kept v at = ground (arith, e, good)

  code_static :
      (code : ℕ) → check_header h ≡ some code → (at v : ℕ) → static_left h (coming m) at v ≡ 0
  code_static code e at v = ground (arith, e)

  bad_static :
      check_header h ≡ none
      → (weighted (coming m) h.size_bytes % word == h.expected_checksum) ≡ false
      → (at v : ℕ) → static_left h (coming m) at v ≡ load32 (cleared_and_copied h (coming m)) at
  bad_static e bad at v = ground (arith, e, bad)

  -- A static of a refused image, read at the place that the machine itself has for it.
  static_at :
      (code : ℕ) (m1 : Machine) (word_of : Bss → ℕ)
      → m1.bss ≡ m.bss
      → load32 (refuse code m1).sram (bss_at (word_of m.bss))
        ≡ static (word_of (refuse code m1).bss) (refuse code m1)
  static_at code m1 word_of b =
      ap (λ (s : Bss). load32 (refuse code m1).sram (bss_at (word_of s)))
        (sym (refuse_bss code m1 ∙ b))

  code-Booted : (code : ℕ) → check_header h ≡ some code → Booted h (coming m) m (refuse code m)
  code-Booted code e =
      refuse-Booted code m (check_header-some h code e) (ground (arith, e))
        (code_static code e _ 1
          ∙ sym (refused_static h m zero code _ m.bss.loaded_inside)
          ∙ static_at code m (λ s. s.loaded_word) refl)
        (code_static code e _ h.entry_addr
          ∙ sym (refused_static h m zero code _ m.bss.entry_inside)
          ∙ static_at code m (λ s. s.entry_word) refl)
        (λ a o. refl)

  bad-Booted :
      check_header h ≡ none
      → (weighted (coming m) h.size_bytes % word == h.expected_checksum) ≡ false
      → Booted h (coming m) m (refuse status_bad_checksum (copied h m))
  bad-Booted e bad =
      refuse-Booted status_bad_checksum (copied h m) ((λ q. omega arith), omega arith)
        (ground (arith, e, bad))
        (bad_static e bad _ 1
          ∙ sym (copied_static h m zero status_bad_checksum _ m.bss.loaded_inside)
          ∙ static_at status_bad_checksum (copied h m) (λ s. s.loaded_word) (copied-bss h m))
        (bad_static e bad _ h.entry_addr
          ∙ sym (copied_static h m zero status_bad_checksum _ m.bss.entry_inside)
          ∙ static_at status_bad_checksum (copied h m) (λ s. s.entry_word) (copied-bss h m))
        (copied-confined h m e)

  boot_header-Booted : Booted h (coming m) m (boot_header h m)
  boot_header-Booted = elim (Option-cases (check_header h)) [
    | inr (code, e) ↦ rw (refused_eq h m code e) (code-Booted code e)
    | inl e ↦ elim (Bool-cases (weighted (coming m) h.size_bytes % word == h.expected_checksum)) [
      | inl good ↦ rw (checked_eq h m e, good) (accept-Booted e good)
      | inr bad ↦ rw (checked_eq h m e, bad) (bad-Booted e bad)
    ]
  ]

-- A success is an acceptance.
pub booted-accept :
    (h : Header) (m : Machine)
    → is_booted h (coming m) ≡ true
    → (check_header h ≡ none) × (boot_header h m ≡ accept h (copied h m))
booted-accept h m booted = elim (Option-cases (check_header h)) [
  | inr (code, e) ↦ absurd ((check_header-some h code e).0 (ground (arith, booted, e)))
  | inl e ↦ elim (Bool-cases (weighted (coming m) h.size_bytes % word == h.expected_checksum)) [
    | inl good ↦ (e, rw (checked_eq h m e, good) refl)
    | inr bad ↦ absurd (ground (arith, booted, e, bad))
  ]
]

-- After a success the first and the sixth word of the boot info, whatever was copied.
boot_header_told :
    (h : Header) (m : Machine)
    → is_booted h (coming m) ≡ true
    → 0 ≢ m.bss.loaded_word
    → 0 ≢ m.bss.entry_word
    → (boot_info (boot_header h m) 0 ≡ boot_info_magic)
      × (boot_info (boot_header h m) 5 ≡ status_ok)
boot_header_told h m booted l n = rw (booted-accept h m booted).1 (
  accept_magic h (copied h m) (rw (copied-bss h m) l) (rw (copied-bss h m) n),
  accept_status h (copied h m),
)

-- The header that the loader reads, and the machine after it.
abbrev pub header_read : Machine → Header × Machine
header_read m = read_header (boot_begun m)

read-Cleared : (m : Machine) → Cleared (header_read m).1
read-Cleared m a lo hi = boot_begun-zero m a lo hi

-- `retry_sd_boot`, for any machine, card and order of the statics in .bss: the status word is the one
-- that the header and the bytes after it call for. The loaded flag and the entry address are 1 and the
-- header's entry on success, 0 where the header is refused, and where the checksum is refused the bytes
-- that the image has put over the cleared words. No byte outside the RAM is written. On success the
-- image has been copied, but for what lies in the boot-info block, and it and its entry lie in the RAM.
pub retry_sd_boot-Booted :
    (m : Machine) → let (h, read) = header_read m in Booted h (coming read) m (retry_sd_boot m)
unfolding retry_sd_boot clear_boot_info
retry_sd_boot-Booted m =
    let (h, read) = header_read m in
    let b = boot_header-Booted h read (read-Cleared m) in
    record {
      status = b.status;
      loaded = rw (sym (boot_begun-bss m)) b.loaded;
      entry = rw (sym (boot_begun-bss m)) b.entry;
      confined = λ a o. b.confined a o ∙ boot_begun-outside m a (omega arith);
      image = b.image;
      in_sram = b.in_sram;
    }

-- After a successful boot of an image that is loaded at SRAM_BASE its first word in the memory is the
-- magic of the boot info, unless one of the loader's statics is the first word of .bss, and its sixth
-- word is the status, whatever the image holds.
pub retry_sd_boot_overwrites :
    (m : Machine)
    → 0 ≢ m.bss.loaded_word
    → 0 ≢ m.bss.entry_word
    → let (h, read) = header_read m in
      is_booted h (coming read) ≡ true
      → h.load_addr ≡ sram_base
      → (load32 (retry_sd_boot m).sram h.load_addr ≡ boot_info_magic)
        × (load32 (retry_sd_boot m).sram (h.load_addr + 20) ≡ status_ok)
unfolding retry_sd_boot clear_boot_info
retry_sd_boot_overwrites m l n booted at =
    let (h, read) = header_read m in
    let told = boot_header_told h read booted l n in
    (
      ap (load32 (retry_sd_boot m).sram) at ∙ told.0,
      ap (λ (a : ℕ). load32 (retry_sd_boot m).sram (a + 20)) at ∙ told.1,
    )
