-- ===== src/Emulator/Gpu/Pixels.antt =====
-- Which pixels a triangle sets.
use risc_v_computer_zybo.Base.{
  ℕ, zero, suc, ◌+◌, ◌-◌, ◌≡◌, ◌∙◌, arith, Bool, ◌&&◌, ◌||◌, ltb, leb, ◌==◌,
}
use risc_v_computer_zybo.Word.{test_bit}
use risc_v_computer_zybo.Word.Bits.{test_bit-set_bit}
use risc_v_computer_zybo.Emulator.Gpu.{
  Triangle, Raster, is_inside, plot, draw_row, draw_rows, rasterise, min_x, min_y, max_x, max_y,
}

-- The pixel at column `x` of row `y`.
abbrev pub pixel : (ℕ → ℕ) → ℕ → ℕ → Bool
pixel fb y x = test_bit (fb y) x

abbrev pub inside_at : Triangle → ℕ → ℕ → Bool
inside_at t y x = is_inside t (record { x = x; y = y })

-- A box by its number of rounds is a box by its last row and column.
box_lem :
    (p inside : Bool) (y0 y1 y x0 x1 x : ℕ)
    → (p
        || (leb y0 y
            && ltb y (y0 + (y1 + 1 - y0))
            && leb x0 x
            && ltb x (x0 + (x1 + 1 - x0))
            && inside))
      ≡ (p || (leb y0 y && leb y y1 && leb x0 x && leb x x1 && inside))
box_lem p inside y0 y1 y x0 x1 x = ground arith

module _ (t : Triangle) where
  plot-pixel :
      (y x : ℕ) (r : Raster) (y' x' : ℕ)
      → pixel (plot t y x r).framebuffer y' x'
        ≡ (pixel r.framebuffer y' x' || (y' == y && x' == x && inside_at t y' x'))
  unfolding plot
  plot-pixel y x r y' x' = ground (arith, test_bit-set_bit (r.framebuffer y) x x')

  draw_row-pixel :
      (y rounds x : ℕ) (r : Raster) (y' x' : ℕ)
      → pixel (draw_row t y rounds x r).framebuffer y' x' ≡ (
          pixel r.framebuffer y' x'
          || (y' == y && leb x x' && ltb x' (x + rounds) && inside_at t y' x'))
  unfolding draw_row
  draw_row-pixel y zero x r y' x' = ground arith
  draw_row-pixel y (suc rounds) x r y' x' =
      ground (arith, draw_row-pixel y rounds (x + 1) (plot t y x r) y' x', plot-pixel y x r y' x')

  draw_rows-pixel :
      (rounds y : ℕ) (r : Raster) (y' x' : ℕ)
      → pixel (draw_rows t rounds y r).framebuffer y' x' ≡ (
          pixel r.framebuffer y' x'
          || (leb y y'
              && ltb y' (y + rounds)
              && leb (min_x t) x'
              && ltb x' (min_x t + (max_x t + 1 - min_x t))
              && inside_at t y' x'))
  unfolding draw_rows
  draw_rows-pixel zero y r y' x' = ground arith
  draw_rows-pixel (suc rounds) y r y' x' = ground (
    arith,
    draw_rows-pixel rounds (y + 1) (draw_row t y (max_x t + 1 - min_x t) (min_x t) r) y' x',
    draw_row-pixel y (max_x t + 1 - min_x t) (min_x t) r y' x',
  )

  -- After the loops of `emu_run_gpu_draw` a pixel is set exactly where it was set before, or where it
  -- lies in the clipped bounding box and on the inner side of the three edges. No pixel is cleared.
  pub rasterise_lem :
      (fb : ℕ → ℕ) (y x : ℕ)
      → pixel (rasterise t fb).framebuffer y x ≡ (
          pixel fb y x
          || (leb (min_y t) y
              && leb y (max_y t)
              && leb (min_x t) x
              && leb x (max_x t)
              && inside_at t y x))
  unfolding rasterise
  rasterise_lem fb y x =
      draw_rows-pixel (max_y t + 1 - min_y t) (min_y t) (record { framebuffer = fb; pixels = 0 }) y
        x
      ∙ box_lem (pixel fb y x) (inside_at t y x) (min_y t) (max_y t) y (min_x t) (max_x t) x
