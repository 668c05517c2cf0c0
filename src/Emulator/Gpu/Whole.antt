-- ===== src/Emulator/Gpu/Whole.antt =====
-- The loops of emu_run_gpu_draw over a box of pixels, against loops over the whole framebuffer.
use risc_v_computer_zybo.Base.{ℕ, zero, suc, ◌+◌, ◌-◌, ◌≡◌, ◌≤◌, ◌<◌, ◌∙◌, refl, sym, ap, arith}
use risc_v_computer_zybo.Base.Loops.{loop, loop_covered, loop-congr, Covers}
use risc_v_computer_zybo.Emulator.Gpu.{
  Triangle, Raster, plot, draw_row, draw_rows, rasterise, min3, max3, clip, min_x, min_y, max_x,
  max_y,
}
use risc_v_computer_zybo.Emulator.Gpu.Geometry.{
  Beside, left_of, right_of, above, below, is_inside-Beside,
}

-- The pixels of some rows and columns, from the first of each with their number.
abbrev pub scan_box : Triangle → ℕ → ℕ → ℕ → ℕ → Raster → Raster
scan_box t columns x rows y r = loop (λ row r'. loop (plot t row) columns x r') rows y r

abbrev pub nothing_drawn : (ℕ → ℕ) → Raster
nothing_drawn fb = record { framebuffer = fb; pixels = 0 }

-- Each of the 32 by 32 pixels, without a box.
abbrev pub scan_whole : Triangle → (ℕ → ℕ) → Raster
scan_whole t fb = scan_box t 32 0 32 0 (nothing_drawn fb)

-- A range of coordinates, from the first with their number, that leaves out only what is less than
-- the least of three, or more than the greatest.
pub record Spans (first size least greatest : ℕ) : Type 0 where
  pub before : (k : ℕ) → k < first → k < 32 → k < least
  pub after : (k : ℕ) → first + size ≤ k → k < 32 → greatest < k
  pub ends : 0 < size → first + size ≤ 32

pub below_min3 : (k a b c : ℕ) → k < min3 a b c → (k < a) × (k < b) × (k < c)
below_min3 k a b c h = (ground arith, ground arith, ground arith)

pub above_max3 : (k a b c : ℕ) → max3 a b c < k → (a < k) × (b < k) × (c < k)
above_max3 k a b c h = (ground arith, ground arith, ground arith)

pub min3-max3 : (a b c : ℕ) → min3 a b c ≤ max3 a b c
min3-max3 a b c = ground arith

-- The box of the emulator, of which no column or row is left if it lies beyond the framebuffer.
clip-Spans :
    (least greatest : ℕ)
    → least ≤ greatest
    → Spans least (clip greatest 32 + 1 - least) least greatest
clip-Spans least greatest h = record {
  before = λ k l g. l;
  after = λ k l g. ground arith;
  ends = λ p. ground arith;
}

module _ (t : Triangle) where
  plot-Beside : (y x : ℕ) (r : Raster) → Beside t (record { x = x; y = y }) → plot t y x r ≡ r
  unfolding plot
  plot-Beside y x r b = ground (arith, is_inside-Beside t (record { x = x; y = y }) b)

  columns-Covers :
      (y first size : ℕ)
      → Spans first size (min3 t.a.x t.b.x t.c.x) (max3 t.a.x t.b.x t.c.x)
      → Covers (plot t y) 32 first size
  columns-Covers y first size s = record {
    before = λ k r l g.
        (let u = below_min3 k t.a.x t.b.x t.c.x (s.before k l g) in
          plot-Beside y k r (left_of u.0 u.1 u.2));
    after = λ k r l g.
        (let u = above_max3 k t.a.x t.b.x t.c.x (s.after k l g) in
          plot-Beside y k r (right_of u.0 u.1 u.2));
    ends = s.ends;
  }

  -- A row of the whole framebuffer that is above or below the triangle.
  row-Beside :
      (y : ℕ) (r : Raster)
      → ((x : ℕ) → Beside t (record { x = x; y = y }))
      → loop (plot t y) 32 0 r ≡ r
  unfolding loop
  row-Beside y r h = loop_covered (plot t y) 32 0 0 r (record {
    before = λ k r l g. plot-Beside y k r (h k);
    after = λ k r l g. plot-Beside y k r (h k);
    ends = λ p. omega arith;
  })

  rows-Covers :
      (first size : ℕ)
      → Spans first size (min3 t.a.y t.b.y t.c.y) (max3 t.a.y t.b.y t.c.y)
      → Covers (λ row r. loop (plot t row) 32 0 r) 32 first size
  rows-Covers first size s = record {
    before = λ k r l g.
        (let u = below_min3 k t.a.y t.b.y t.c.y (s.before k l g) in
          row-Beside k r λ x. above u.0 u.1 u.2);
    after = λ k r l g.
        (let u = above_max3 k t.a.y t.b.y t.c.y (s.after k l g) in
          row-Beside k r λ x. below u.0 u.1 u.2);
    ends = s.ends;
  }

  -- A box that leaves out only what is beside the triangle draws what the whole scan draws.
  pub scan_box_lem :
      (columns x rows y : ℕ) (fb : ℕ → ℕ)
      → Spans x columns (min3 t.a.x t.b.x t.c.x) (max3 t.a.x t.b.x t.c.x)
      → Spans y rows (min3 t.a.y t.b.y t.c.y) (max3 t.a.y t.b.y t.c.y)
      → scan_box t columns x rows y (nothing_drawn fb) ≡ scan_whole t fb
  scan_box_lem columns x rows y fb sx sy =
      loop-congr _ _ rows y (nothing_drawn fb)
        (λ row r. sym (loop_covered (plot t row) 32 x columns r (columns-Covers row x columns sx)))
      ∙ sym (loop_covered _ 32 y rows (nothing_drawn fb) (rows-Covers y rows sy))

  pub draw_row-loop : (y n x : ℕ) (r : Raster) → draw_row t y n x r ≡ loop (plot t y) n x r
  unfolding draw_row loop
  draw_row-loop y zero x r = refl
  draw_row-loop y (suc n) x r = draw_row-loop y n (x + 1) (plot t y x r)

  pub draw_rows-scan_box :
      (n y : ℕ) (r : Raster)
      → draw_rows t n y r ≡ scan_box t (max_x t + 1 - min_x t) (min_x t) n y r
  unfolding draw_rows loop
  draw_rows-scan_box zero y r = refl
  draw_rows-scan_box (suc n) y r =
      draw_rows-scan_box n (y + 1) _
      ∙ ap (scan_box t (max_x t + 1 - min_x t) (min_x t) n (y + 1))
          (draw_row-loop y (max_x t + 1 - min_x t) (min_x t) r)

  -- The clipped box loses no pixel: its loops draw and count what loops over all pixels do.
  pub rasterise-scan_whole : (fb : ℕ → ℕ) → rasterise t fb ≡ scan_whole t fb
  unfolding rasterise
  rasterise-scan_whole fb =
      draw_rows-scan_box (max_y t + 1 - min_y t) (min_y t) (nothing_drawn fb)
      ∙ scan_box_lem (max_x t + 1 - min_x t) (min_x t) (max_y t + 1 - min_y t) (min_y t) fb
          (clip-Spans _ _ (min3-max3 t.a.x t.b.x t.c.x))
          (clip-Spans _ _ (min3-max3 t.a.y t.b.y t.c.y))
