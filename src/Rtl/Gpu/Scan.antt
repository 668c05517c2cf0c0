-- ===== src/Rtl/Gpu/Scan.antt =====
-- The cycles of the rasteriser of rtl/accel/gpu3d_lite_stub.v: its scan of a box is the loops of the
-- emulator, one pixel in each cycle, and its clear is their row loop.
use mathlib.Core.Path.{subst}
use risc_v_computer_zybo.Base.{
  ℕ, zero, suc, ◌+◌, ◌-◌, ◌≡◌, ◌∙◌, ◌≤◌, ◌<◌, refl, sym, ap, arith, true, false, ◌==◌,
  if◌then◌else◌, update, fun_ext,
}
use risc_v_computer_zybo.Base.Loops.{loop}
use risc_v_computer_zybo.Word.{add32}
use risc_v_computer_zybo.Emulator.Gpu.{Point, Raster, edge_fn, is_inside, plot, fill_rows}
use risc_v_computer_zybo.Emulator.Gpu.Whole.{scan_box}
use risc_v_computer_zybo.Rtl.Gpu.{
  GpuLite, Inputs, Mode, edge_function, draw_inside, clear_step, plot_step, scan_step, work, clock,
  cycles,
}

pub edge_function-edge_fn : (a b p : Point) → edge_function a b p ≡ edge_fn a b p
unfolding edge_function edge_fn
edge_function-edge_fn a b p = refl

-- The state in a draw, at a pixel, with what is drawn so far.
abbrev pub scanning : GpuLite → ℕ → ℕ → Raster → GpuLite
scanning g x y r = record g {
  busy = true;
  frame_done = false;
  mode = Mode.draw;
  scan_x = x;
  scan_y = y;
  framebuffer = r.framebuffer;
  raster_pixels = r.pixels;
  last_area2 = edge_fn g.triangle.a g.triangle.b g.triangle.c;
}

-- The state after the last pixel.
abbrev pub scanned : GpuLite → Raster → GpuLite
scanned g r = record g {
  busy = false;
  frame_done = true;
  mode = Mode.idle;
  scan_x = g.max_x;
  scan_y = g.max_y;
  framebuffer = r.framebuffer;
  raster_pixels = r.pixels;
  last_area2 = edge_fn g.triangle.a g.triangle.b g.triangle.c;
  frame_counter = add32 g.frame_counter 1;
  triangles_drawn = add32 g.triangles_drawn 1;
}

-- The next state after the last pixel of a row.
abbrev pub next_row : GpuLite → ℕ → Raster → GpuLite
next_row g y r = if y == g.max_y then scanned g r else scanning g g.min_x (y + 1) r

draw_inside_lem :
    (g : GpuLite) (x y : ℕ) (r : Raster)
    → draw_inside (scanning g x y r) ≡ is_inside g.triangle (record { x = x; y = y })
unfolding draw_inside is_inside edge_function edge_fn
draw_inside_lem g x y r = refl

plot_step_lem :
    (g : GpuLite) (x y : ℕ) (r : Raster)
    → plot_step (scanning g x y r) ≡ scanning g x y (plot g.triangle y x r)
unfolding plot_step plot
plot_step_lem g x y r = ground (arith, draw_inside_lem g x y r)

clock-pixel :
    (i : Inputs) (g : GpuLite) (x y : ℕ) (r : Raster)
    → g.max_x < 32
    → x < g.max_x
    → clock i (scanning g x y r) ≡ scanning g (x + 1) y (plot g.triangle y x r)
unfolding clock work scan_step
clock-pixel i g x y r h l = rw (plot_step_lem g x y r) (ground arith)

clock-last_pixel :
    (i : Inputs) (g : GpuLite) (y : ℕ) (r : Raster)
    → g.max_y < 32
    → y ≤ g.max_y
    → clock i (scanning g g.max_x y r) ≡ next_row g y (plot g.triangle y g.max_x r)
unfolding clock work scan_step
clock-last_pixel i g y r h l = rw (plot_step_lem g g.max_x y r) (ground arith)

-- The cycles from a pixel to the end of its row, and of whole rows.
row_cycles-next_row :
    (k : ℕ) (i : ℕ → Inputs) (g : GpuLite) (x y : ℕ) (r : Raster)
    → g.max_x < 32
    → g.max_y < 32
    → y ≤ g.max_y
    → x + k ≡ g.max_x
    → cycles (suc k) i (scanning g x y r) ≡ next_row g y (loop (plot g.triangle y) (suc k) x r)
unfolding cycles loop
row_cycles-next_row zero i g x y r hx hy l e =
    subst (λ (v : ℕ). clock (i 0) (scanning g v y r) ≡ next_row g y (plot g.triangle y v r))
      (x_is_last x g.max_x e) (clock-last_pixel (i 0) g y r hy l)
  where
    x_is_last : (x m : ℕ) → x + 0 ≡ m → m ≡ x
    x_is_last x m e = omega arith
row_cycles-next_row (suc k) i g x y r hx hy l e =
    ap (cycles (suc k) (λ n. i (suc n))) (clock-pixel (i 0) g x y r hx (omega arith))
    ∙ row_cycles-next_row k (λ n. i (suc n)) g (x + 1) y (plot g.triangle y x r) hx hy l
        (omega arith)

zero_add : (n : ℕ) → zero + n ≡ n
zero_add n = omega arith

suc_add : (m n : ℕ) → suc m + n ≡ suc (m + n)
suc_add m n = omega arith

-- Two runs after one another.
pub cycles-add :
    (m n : ℕ) (i : ℕ → Inputs) (g : GpuLite)
    → cycles (m + n) i g ≡ cycles n (λ k. i (m + k)) (cycles m i g)
unfolding cycles
cycles-add zero n i g =
    ap (λ (k : ℕ). cycles k i g) (zero_add n)
    ∙ ap (λ (j : ℕ → Inputs). cycles n j g) (fun_ext λ k. ap i (sym (zero_add k)))
cycles-add (suc m) n i g =
    ap (λ (k : ℕ). cycles k i g) (suc_add m n)
    ∙ cycles-add m n (λ k. i (suc k)) (clock (i 0) g)
    ∙ ap (λ (j : ℕ → Inputs). cycles n j (cycles m (λ k. i (suc k)) (clock (i 0) g)))
        (fun_ext λ k. ap i (sym (suc_add m k)))

-- The box of a state is in the framebuffer.
pub record InFrame (g : GpuLite) : Type 0 where
  pub wide : g.min_x ≤ g.max_x
  pub in_row : g.max_x < 32
  pub in_frame : g.max_y < 32

-- The number of columns of the box.
abbrev pub width : GpuLite → ℕ
width g = g.max_x + 1 - g.min_x

-- A row of the box, from its first pixel.
row-next_row :
    (i : ℕ → Inputs) (g : GpuLite) (y : ℕ) (r : Raster)
    → InFrame g
    → y ≤ g.max_y
    → cycles (width g) i (scanning g g.min_x y r)
      ≡ next_row g y (loop (plot g.triangle y) (width g) g.min_x r)
row-next_row i g y r b l =
    subst
      (λ (n : ℕ).
        cycles n i (scanning g g.min_x y r) ≡ next_row g y (loop (plot g.triangle y) n g.min_x r))
      (sym (some_columns g.min_x g.max_x b.wide))
      (row_cycles-next_row (g.max_x - g.min_x) i g g.min_x y r b.in_row b.in_frame l
        (omega (arith, b.wide)))
  where
    some_columns : (a c : ℕ) → a ≤ c → c + 1 - a ≡ suc (c - a)
    some_columns a c h = omega arith

next_row_last : (g : GpuLite) (y : ℕ) (r : Raster) → y ≡ g.max_y → next_row g y r ≡ scanned g r
next_row_last g y r e = ground arith

next_row_more :
    (g : GpuLite) (y : ℕ) (r : Raster) → y < g.max_y → next_row g y r ≡ scanning g g.min_x (y + 1) r
next_row_more g y r h = ground arith

-- The cycles of `j` rows of the box.
unfoldable pub box_cycles : GpuLite → ℕ → ℕ
box_cycles g zero = 0
box_cycles g (suc j) = width g + box_cycles g j

pub box_cycles-scanned :
    (j : ℕ) (i : ℕ → Inputs) (g : GpuLite) (y : ℕ) (r : Raster)
    → InFrame g
    → y + j ≡ g.max_y
    → cycles (box_cycles g (suc j)) i (scanning g g.min_x y r)
      ≡ scanned g (scan_box g.triangle (width g) g.min_x (suc j) y r)
unfolding box_cycles loop cycles
box_cycles-scanned zero i g y r b e =
    cycles-add (width g) 0 i (scanning g g.min_x y r)
    ∙ row-next_row i g y r b (omega arith)
    ∙ next_row_last g y _ (omega arith)
box_cycles-scanned (suc j) i g y r b e =
    cycles-add (width g) (box_cycles g (suc j)) i (scanning g g.min_x y r)
    ∙ ap (cycles (box_cycles g (suc j)) (λ k. i (width g + k)))
        (row-next_row i g y r b (omega arith) ∙ next_row_more g y _ (omega arith))
    ∙ box_cycles-scanned j (λ k. i (width g + k)) g (y + 1) _ b (omega arith)

-- The state in a clear, at a row.
abbrev pub clearing : GpuLite → ℕ → (ℕ → ℕ) → GpuLite
clearing g row fb = record g {
  busy = true;
  frame_done = false;
  mode = Mode.clear;
  clear_row = row;
  framebuffer = fb;
}

-- The state after the last row.
abbrev pub cleared : GpuLite → (ℕ → ℕ) → GpuLite
cleared g fb = record g {
  busy = false;
  frame_done = true;
  mode = Mode.idle;
  clear_row = 31;
  framebuffer = fb;
  frame_counter = add32 g.frame_counter 1;
}

abbrev pub fill_of : GpuLite → ℕ
fill_of g = if g.clear_fill then 0xFFFFFFFF else 0x00000000

clock-row :
    (i : Inputs) (g : GpuLite) (row : ℕ) (fb : ℕ → ℕ)
    → row < 31
    → clock i (clearing g row fb) ≡ clearing g (row + 1) (update fb row (fill_of g))
unfolding clock work clear_step
clock-row i g row fb h = ground arith

clock-last_row :
    (i : Inputs) (g : GpuLite) (row : ℕ) (fb : ℕ → ℕ)
    → row ≡ 31
    → clock i (clearing g row fb) ≡ cleared g (update fb row (fill_of g))
unfolding clock work clear_step
clock-last_row i g row fb h = ground arith

pub clear_cycles-cleared :
    (k : ℕ) (i : ℕ → Inputs) (g : GpuLite) (row : ℕ) (fb : ℕ → ℕ)
    → row + k ≡ 31
    → cycles (suc k) i (clearing g row fb) ≡ cleared g (fill_rows (suc k) row (fill_of g) fb)
unfolding cycles fill_rows
clear_cycles-cleared zero i g row fb e = clock-last_row (i 0) g row fb (omega arith)
clear_cycles-cleared (suc k) i g row fb e =
    ap (cycles (suc k) (λ n. i (suc n))) (clock-row (i 0) g row fb (omega arith))
    ∙ clear_cycles-cleared k (λ n. i (suc n)) g (row + 1) (update fb row (fill_of g)) (omega arith)
