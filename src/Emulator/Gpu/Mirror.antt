-- ===== src/Emulator/Gpu/Mirror.antt =====
-- The copy of the framebuffer into the unified memory.
use risc_v_computer_zybo.Base.{
  ℕ, zero, suc, ◌+◌, ◌*◌, ◌≤◌, ◌<◌, ◌≡◌, ◌⊎◌, inl, inr, refl, arith, true, ok, Returns,
  Returns-mono, ◌∙◌,
}
use native.Mathlib.Decide.{dec_lt}
use risc_v_computer_zybo.Word.{word, add32, mul32}
use risc_v_computer_zybo.Memory.{load32, store32}
use risc_v_computer_zybo.Memory.Laws.{load32-store32_self, load32-congr, store32_other}
use risc_v_computer_zybo.Emulator.{Emu, fb_rows}
use risc_v_computer_zybo.Emulator.Umem.{
  limit_bytes, limit_bytes-le, write32, write32-ok, enabled_with, bit_gpu_use_buf,
}
use risc_v_computer_zybo.Emulator.Gpu.{copy_rows, sync_framebuffer_to_umem}

-- The address of a row in the unified memory.
abbrev pub row_at : Emu → ℕ → ℕ
row_at e k = e.umem.gpu_fb_offset + k * e.umem.gpu_fb_pitch

-- All rows fit the memory and do not overlap, and each is a word.
pub record FitsRows (e : Emu) : Type 0 where
  pub last_in : row_at e 31 + 4 ≤ limit_bytes e
  pub pitch_word : 4 ≤ e.umem.gpu_fb_pitch
  pub row_word : (k : ℕ) → e.gpu.framebuffer k < word

-- The rows from `row` on hold the framebuffer, and nothing outside them has changed.
pub record Mirrors (row rounds : ℕ) (e e' : Emu) : Type 0 where
  pub others : e' ≡ record e { unified_mem = e'.unified_mem }
  pub rows :
      (k : ℕ)
      → row ≤ k
      → k < row + rounds
      → load32 e'.unified_mem (row_at e k) ≡ e.gpu.framebuffer k
  pub outside :
      (a : ℕ) → (a < row_at e row) ⊎ (row_at e 31 + 4 ≤ a) → e'.unified_mem a ≡ e.unified_mem a

module _ (e : Emu) (row : ℕ) (small : row < fb_rows) (f : FitsRows e) where
  row_at-le : row_at e row ≤ row_at e 31
  row_at-le = grind (arith, f.last_in)

  row_at-eq : add32 e.umem.gpu_fb_offset (mul32 row e.umem.gpu_fb_pitch) ≡ row_at e row
  row_at-eq = omega (arith, row_at-le, f.last_in, limit_bytes-le e)

  abbrev pub written : Emu
  written = record e { unified_mem = store32 e.unified_mem (row_at e row) (e.gpu.framebuffer row) }

  write_row :
      write32 e (add32 e.umem.gpu_fb_offset (mul32 row e.umem.gpu_fb_pitch)) (e.gpu.framebuffer row)
      ≡ ok written
  write_row =
      rw row_at-eq
        (write32-ok e (row_at e row) (e.gpu.framebuffer row) (omega (arith, row_at-le, f.last_in)))

  written-FitsRows : FitsRows written
  unfolding limit_bytes
  written-FitsRows = record {
    last_in = f.last_in;
    pitch_word = f.pitch_word;
    row_word = f.row_word;
  }

  mirror_step :
      (rounds : ℕ) (e' : Emu) → Mirrors (row + 1) rounds written e' → Mirrors row (suc rounds) e e'
  mirror_step rounds e' m = record {
    others = m.others;
    rows = λ k lo hi. elim (dec_lt row k) [
      | yes later ↦ m.rows k (omega arith) (omega arith)
      | no here ↦ let same : k ≡ row = omega arith in rw same (kept m)
    ];
    outside = λ a h. m.outside a (before a h) ∙ store32_other _ _ _ a (around a h);
  }
    where
      kept :
          Mirrors (row + 1) rounds written e'
          → load32 e'.unified_mem (row_at e row) ≡ e.gpu.framebuffer row
      kept m =
          load32-congr written.unified_mem e'.unified_mem (row_at e row)
            (λ a lo hi. m.outside a (inl (omega (arith, f.pitch_word))))
          ∙ load32-store32_self e.unified_mem (row_at e row) _ (f.row_word row)

      before :
          (a : ℕ)
          → (a < row_at e row) ⊎ (row_at e 31 + 4 ≤ a)
          → (a < row_at e (row + 1)) ⊎ (row_at e 31 + 4 ≤ a)
      before a (inl h) = inl (omega arith)
      before a (inr h) = inr h

      around :
          (a : ℕ)
          → (a < row_at e row) ⊎ (row_at e 31 + 4 ≤ a)
          → (a < row_at e row) ⊎ (row_at e row + 4 ≤ a)
      around a (inl h) = inl h
      around a (inr h) = inr (omega (arith, row_at-le))

copy_rows-Mirrors :
    (rounds row : ℕ) (e : Emu)
    → row + rounds ≤ fb_rows
    → FitsRows e
    → Returns (Mirrors row rounds e) (copy_rows rounds row e)
unfolding copy_rows
copy_rows-Mirrors zero row e h f = record {
  others = refl;
  rows = λ k lo hi. absurd (omega arith);
  outside = λ a q. refl;
}
copy_rows-Mirrors (suc rounds) row e h f = rw (write_row e row (omega arith) f) (
    Returns-mono (Mirrors (row + 1) rounds (written e row (omega arith) f))
      (Mirrors row (suc rounds) e) _ (mirror_step e row (omega arith) f rounds)
      (copy_rows-Mirrors rounds (row + 1) (written e row (omega arith) f) (omega arith)
        (written-FitsRows e row (omega arith) f)))

-- `emu_sync_gpu_framebuffer_to_umem`, with the mirror enabled and the rows fitting the memory:
-- it returns; each of the 32 rows is read back from its place, only the memory has changed, and of
-- it only what lies between the first row and the end of the last.
pub sync_framebuffer_to_umem-Mirrors :
    (e : Emu)
    → enabled_with e.umem.ctrl bit_gpu_use_buf ≡ true
    → FitsRows e
    → Returns (Mirrors 0 fb_rows e) (sync_framebuffer_to_umem e)
unfolding sync_framebuffer_to_umem
sync_framebuffer_to_umem-Mirrors e on f = rw on (copy_rows-Mirrors fb_rows 0 e (omega arith) f)
