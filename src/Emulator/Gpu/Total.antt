-- ===== src/Emulator/Gpu/Total.antt =====
-- `emu_run_gpu_clear` and `emu_run_gpu_draw` with a framebuffer that fits the memory.
use risc_v_computer_zybo.Base.{
  ℕ, zero, suc, ◌+◌, ◌*◌, ◌≤◌, ◌<◌, ◌≡◌, ◌∙◌, ◌⊎◌, refl, ap, arith, Returns, >>=-Returns,
  Bool-cases, inl, inr,
}
use risc_v_computer_zybo.Word.{add32, mul32}
use risc_v_computer_zybo.Memory.Laws.{store32_other}
use risc_v_computer_zybo.Emulator.{Emu, UmemState, fb_rows}
use risc_v_computer_zybo.Emulator.Umem.{
  limit_bytes, limit_bytes-le, write32, write32-ok, enabled_with, bit_gpu_use_buf,
}
use risc_v_computer_zybo.Emulator.Gpu.{
  copy_rows, sync_framebuffer_to_umem, cleared, drawn, run_gpu_clear, run_gpu_draw,
}

-- The first byte of the framebuffer in the memory, and the byte after its last row.
abbrev pub frame_start : UmemState → ℕ
frame_start u = u.gpu_fb_offset

abbrev pub frame_end : UmemState → ℕ
frame_end u = u.gpu_fb_offset + 31 * u.gpu_fb_pitch + 4

-- Only bytes of the framebuffer differ from `e0`.
abbrev pub Copied : Emu → Emu → Type 0
Copied e0 e =
    (e.umem ≡ e0.umem)
    × ((a : ℕ)
        → (a < frame_start e0.umem) ⊎ (frame_end e0.umem ≤ a)
        → e.unified_mem a ≡ e0.unified_mem a)

copy_row :
    (e0 : Emu) (row v : ℕ) (e : Emu)
    → frame_end e0.umem ≤ limit_bytes e0
    → row < fb_rows
    → Copied e0 e
    → Returns (Copied e0) (write32 e (add32 e.umem.gpu_fb_offset (mul32 row e.umem.gpu_fb_pitch)) v)
unfolding limit_bytes
copy_row e0 row v e fits small c =
    rw
      (
        ap (λ u. add32 u.gpu_fb_offset (mul32 row u.gpu_fb_pitch)) c.0 ∙ same,
        write32-ok e at v (rw c.0 (omega (arith, le))),
      )
      (c.0, λ a h. store32_other e.unified_mem at v a (around a h) ∙ c.1 a h)
  where
    at : ℕ
    at = e0.umem.gpu_fb_offset + row * e0.umem.gpu_fb_pitch

    le : at ≤ e0.umem.gpu_fb_offset + 31 * e0.umem.gpu_fb_pitch
    le = grind arith

    same : add32 e0.umem.gpu_fb_offset (mul32 row e0.umem.gpu_fb_pitch) ≡ at
    same = omega (arith, le, limit_bytes-le e0)

    around : (a : ℕ) → (a < frame_start e0.umem) ⊎ (frame_end e0.umem ≤ a) → (a < at) ⊎ (at + 4 ≤ a)
    around a h = omega (arith, le)

copy_rows-Copied :
    (e0 : Emu) (rounds row : ℕ) (e : Emu)
    → frame_end e0.umem ≤ limit_bytes e0
    → row + rounds ≤ fb_rows
    → Copied e0 e
    → Returns (Copied e0) (copy_rows rounds row e)
unfolding copy_rows
copy_rows-Copied e0 zero row e fits h c = c
copy_rows-Copied e0 (suc rounds) row e fits h c =
    >>=-Returns (Copied e0) (Copied e0) _ _
      (copy_row e0 row (e.gpu.framebuffer row) e fits (omega arith) c)
      λ e' c'. copy_rows-Copied e0 rounds (row + 1) e' fits (omega arith) c'

sync-Copied :
    (e : Emu) → frame_end e.umem ≤ limit_bytes e → Returns (Copied e) (sync_framebuffer_to_umem e)
unfolding sync_framebuffer_to_umem
sync-Copied e fits = elim (Bool-cases (enabled_with e.umem.ctrl bit_gpu_use_buf)) [
  | inl on ↦ rw on (copy_rows-Copied e fb_rows 0 e fits (omega arith) (refl, λ a q. refl))
  | inr off ↦ rw off (refl, λ a q. refl)
]

pub run_gpu_clear-Copied :
    (e : Emu) → frame_end e.umem ≤ limit_bytes e → Returns (Copied e) (run_gpu_clear e)
unfolding run_gpu_clear limit_bytes
run_gpu_clear-Copied e fits =
    >>=-Returns (Copied (cleared e)) (Copied e) _ _ (sync-Copied (cleared e) fits) λ s c. (c.0, c.1)

pub run_gpu_draw-Copied :
    (e : Emu) → frame_end e.umem ≤ limit_bytes e → Returns (Copied e) (run_gpu_draw e)
unfolding run_gpu_draw limit_bytes
run_gpu_draw-Copied e fits =
    >>=-Returns (Copied (drawn e)) (Copied e) _ _ (sync-Copied (drawn e) fits) λ s c. (c.0, c.1)
