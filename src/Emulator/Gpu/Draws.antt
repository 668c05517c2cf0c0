-- ===== src/Emulator/Gpu/Draws.antt =====
-- What the raster loops of emu_run_gpu_draw draw and count.
use risc_v_computer_zybo.Base.{
  ℕ, ◌+◌, ◌%◌, ◌≡◌, ◌∙◌, ◌≤◌, ◌<◌, refl, ap, arith, Bool, true, false, ◌&&◌, ◌||◌, leb,
  if◌then◌else◌,
}
use risc_v_computer_zybo.Base.Loops.{loop, loop_related, loop_bound}
use risc_v_computer_zybo.Word.{word, add32}
use risc_v_computer_zybo.Emulator.Gpu.{
  Triangle, Raster, plot, rasterise, max3, clip, min_x, max_x, min_y, max_y,
}
use risc_v_computer_zybo.Emulator.Gpu.Geometry.{
  Beside, left_of, right_of, above, below, is_inside-Beside,
}
use risc_v_computer_zybo.Emulator.Gpu.Whole.{
  nothing_drawn, scan_whole, rasterise-scan_whole, below_min3, above_max3,
}
use risc_v_computer_zybo.Emulator.Gpu.Pixels.{pixel, inside_at, rasterise_lem}

-- The number of pixels of a row, and of the framebuffer, inside the triangle, after `n` others.
abbrev pub count_in_row : Triangle → ℕ → ℕ → ℕ
count_in_row t y n = loop (λ x m. if inside_at t y x then m + 1 else m) 32 0 n

abbrev pub count_inside : Triangle → ℕ
count_inside t = loop (count_in_row t) 32 0 0

-- The pixels that are set on the framebuffer, the rest of the rows, and the number of pixels.
pub record Draws (t : Triangle) (fb : ℕ → ℕ) (r : Raster) : Type 0 where
  pub on : (y x : ℕ) → y < 32 → x < 32 → pixel r.framebuffer y x ≡ (pixel fb y x || inside_at t y x)
  pub off : (y x : ℕ) → 32 ≤ y → pixel r.framebuffer y x ≡ pixel fb y x
  pub counted : r.pixels ≡ count_inside t

-- A counter of the loops, as a word.
abbrev Counts : Raster → ℕ → Type 0
Counts r n = r.pixels ≡ n % word

one_more : (n : ℕ) → add32 (n % word) 1 ≡ (n + 1) % word
one_more n = omega arith

-- A test of a coordinate that the last test implies.
in_range :
    (p v : Bool) (k least greatest : ℕ)
    → k < 32
    → (k < least → v ≡ false)
    → (greatest < k → v ≡ false)
    → (p && leb least k && leb k (clip greatest 32) && v) ≡ (p && v)
in_range p v k least greatest h l g = ground arith

module _ (t : Triangle) where
  plot-Counts :
      (y x : ℕ) (r : Raster) (n : ℕ)
      → Counts r n
      → Counts (plot t y x r) (if inside_at t y x then n + 1 else n)
  unfolding plot
  plot-Counts y x r n h = ground (arith, one_more n)

  count_in_row-le : (y n : ℕ) → count_in_row t y n ≤ n + 32
  count_in_row-le y n = loop_bound _ 1 (λ k m. ground arith) 32 0 n

  scan_whole-Counts : (fb : ℕ → ℕ) → Counts (scan_whole t fb) (count_inside t)
  scan_whole-Counts fb =
      loop_related Counts _ _ (λ y r n h. loop_related Counts _ _ (plot-Counts y) 32 0 r n h) 32 0
        (nothing_drawn fb) 0 refl

  in_word : count_inside t % word ≡ count_inside t
  in_word = omega (arith, loop_bound (count_in_row t) 32 count_in_row-le 32 0 0)

  outside : (y x : ℕ) → Beside t (record { x = x; y = y }) → inside_at t y x ≡ false
  outside y x b = is_inside-Beside t (record { x = x; y = y }) b

  above_box : (y x : ℕ) → y < min_y t → inside_at t y x ≡ false
  above_box y x h = let u = below_min3 y t.a.y t.b.y t.c.y h in outside y x (above u.0 u.1 u.2)

  left_of_box : (y x : ℕ) → x < min_x t → inside_at t y x ≡ false
  left_of_box y x h = let u = below_min3 x t.a.x t.b.x t.c.x h in outside y x (left_of u.0 u.1 u.2)

  below_box : (y x : ℕ) → max3 t.a.y t.b.y t.c.y < y → inside_at t y x ≡ false
  below_box y x h = let u = above_max3 y t.a.y t.b.y t.c.y h in outside y x (below u.0 u.1 u.2)

  right_of_box : (y x : ℕ) → max3 t.a.x t.b.x t.c.x < x → inside_at t y x ≡ false
  right_of_box y x h =
      let u = above_max3 x t.a.x t.b.x t.c.x h in outside y x (right_of u.0 u.1 u.2)

  -- What is inside the triangle and on the framebuffer is in the clipped box.
  in_box :
      (y x : ℕ)
      → y < 32
      → x < 32
      → (leb (min_y t) y
          && leb y (max_y t)
          && leb (min_x t) x
          && leb x (max_x t)
          && inside_at t y x)
        ≡ inside_at t y x
  in_box y x hy hx =
      in_range (leb (min_y t) y && leb y (max_y t)) (inside_at t y x) x (min_x t)
        (max3 t.a.x t.b.x t.c.x) hx (left_of_box y x) (right_of_box y x)
      ∙ in_range true (inside_at t y x) y (min_y t) (max3 t.a.y t.b.y t.c.y) hy (above_box y x)
          (below_box y x)

  below_frame :
      (fb : ℕ → ℕ) (y x : ℕ) → 32 ≤ y → pixel (rasterise t fb).framebuffer y x ≡ pixel fb y x
  below_frame fb y x h = rasterise_lem t fb y x ∙ ground arith

  -- After the loops of `emu_run_gpu_draw` over the clipped box, a pixel of the framebuffer is set
  -- exactly where it was set before or lies on the inner side of the three edges, wherever the box
  -- is; no other row has changed a bit, and the counter is the number of the pixels of the
  -- framebuffer on the inner side.
  pub rasterise-Draws : (fb : ℕ → ℕ) → Draws t fb (rasterise t fb)
  rasterise-Draws fb = record {
    on = λ y x hy hx.
        rasterise_lem t fb y x ∙ ap (λ (b : Bool). pixel fb y x || b) (in_box y x hy hx);
    off = below_frame fb;
    counted =
        ap (λ (r : Raster). r.pixels) (rasterise-scan_whole t fb) ∙ scan_whole-Counts fb ∙ in_word;
  }
