-- ===== src/Emulator/Typed/Gpu.antt =====
-- A GPU command keeps every integer field in its type.
use risc_v_computer_zybo.Base.{
  ℕ, zero, suc, ◌+◌, ◌-◌, ◌*◌, ◌^◌, ◌≤◌, ◌<◌, arith, Ensures, >>=-Ensures, if-both, ok, update,
}
use risc_v_computer_zybo.Word.{word, test_bit, IsInt32}
use risc_v_computer_zybo.Word.Bits.{set_bit-lt}
use risc_v_computer_zybo.Emulator.{Emu, fb_rows, fb_cols}
use risc_v_computer_zybo.Emulator.Gpu.{
  Triangle, Raster, edge_fn, plot, draw_row, draw_rows, rasterise, fill_rows, min3, max3, is_inside,
  min_x, min_y, max_x, max_y, clip, vertices, unpack_xy, copy_rows, sync_framebuffer_to_umem,
  cleared, drawn, run_gpu_clear, run_gpu_draw,
}
use risc_v_computer_zybo.Emulator.Gpu.EdgeFn.{BytePoint, edge_fn-IsInt32}
use risc_v_computer_zybo.Emulator.Typed.{Typed, write32-Typed}

copy_rows-Typed : (rounds row : ℕ) (e : Emu) → Typed e → Ensures Typed (copy_rows rounds row e)
unfolding copy_rows
copy_rows-Typed zero row e t = t
copy_rows-Typed (suc rounds) row e t =
    >>=-Ensures Typed Typed _ _ (write32-Typed e _ _ t)
      λ e' t'. copy_rows-Typed rounds (row + 1) e' t'

sync-Typed : (e : Emu) → Typed e → Ensures Typed (sync_framebuffer_to_umem e)
unfolding sync_framebuffer_to_umem
sync-Typed e t = if-both (Ensures Typed) _ _ (ok e) (copy_rows-Typed fb_rows 0 e t) t

-- Rows of the framebuffer.
abbrev Words : (ℕ → ℕ) → Type 0
Words fb = (row : ℕ) → fb row < word

update-Words : (fb : ℕ → ℕ) (at v : ℕ) → Words fb → v < word → Words (update fb at v)
update-Words fb at v w h row = ground (arith, w row)

fill_rows-Words :
    (rounds row fill : ℕ) (fb : ℕ → ℕ)
    → Words fb
    → fill < word
    → Words (fill_rows rounds row fill fb)
unfolding fill_rows
fill_rows-Words zero row fill fb w h = w
fill_rows-Words (suc rounds) row fill fb w h =
    fill_rows-Words rounds (row + 1) fill _ (update-Words fb row fill w h) h

record RasterTyped (r : Raster) : Type 0 where
  rows : Words r.framebuffer
  pixels : r.pixels < word

clip-lt : (m size : ℕ) → 0 < size → clip m size < size
clip-lt m size h = ground arith

min3-lt : (a b c n : ℕ) → a < n → min3 a b c < n
min3-lt a b c n h = ground arith

module _ (t : Triangle) where
  plot-RasterTyped : (y x : ℕ) (r : Raster) → x < 32 → RasterTyped r → RasterTyped (plot t y x r)
  unfolding plot
  plot-RasterTyped y x r h w =
      if-both RasterTyped (is_inside t (record { x = x; y = y })) _ r
        (record {
          rows = update-Words _ y _ w.rows (set_bit-lt 32 (r.framebuffer y) x (w.rows y) h);
          pixels = omega arith;
        })
        w

  -- No column past the last is reached.
  draw_row-RasterTyped :
      (y rounds x : ℕ) (r : Raster)
      → rounds ≤ fb_cols - x
      → RasterTyped r
      → RasterTyped (draw_row t y rounds x r)
  unfolding draw_row
  draw_row-RasterTyped y zero x r h w = w
  draw_row-RasterTyped y (suc rounds) x r h w =
      draw_row-RasterTyped y rounds (x + 1) _ (omega arith) (plot-RasterTyped y x r (omega arith) w)

  max_x-lt : max_x t < fb_cols
  max_x-lt = clip-lt (max3 t.a.x t.b.x t.c.x) fb_cols (omega arith)

  max_y-lt : max_y t < fb_rows
  max_y-lt = clip-lt (max3 t.a.y t.b.y t.c.y) fb_rows (omega arith)

  draw_rows-RasterTyped :
      (rounds y : ℕ) (r : Raster) → RasterTyped r → RasterTyped (draw_rows t rounds y r)
  unfolding draw_rows
  draw_rows-RasterTyped zero y r w = w
  draw_rows-RasterTyped (suc rounds) y r w =
      draw_rows-RasterTyped rounds (y + 1) _
        (draw_row-RasterTyped y _ (min_x t) r (omega (arith, max_x-lt)) w)

  bbox_word :
      t.a.x < 256
      → t.a.y < 256
      → max_y t * 2 ^ 24 + max_x t * 2 ^ 16 + min_y t * 2 ^ 8 + min_x t < word
  bbox_word hx hy = omega (
    arith,
    max_x-lt,
    max_y-lt,
    min3-lt t.a.x t.b.x t.c.x 256 hx,
    min3-lt t.a.y t.b.y t.c.y 256 hy,
  )

cleared-Typed : (e : Emu) → Typed e → Typed (cleared e)
cleared-Typed e t = ground (
  arith,
  fill_rows-Words fb_rows 0 _ e.gpu.framebuffer t.gpu.rows_word (
      if-both (λ f. f < word) (test_bit e.gpu.clear_value 0) 0xFFFFFFFF 0 (omega arith)
        (omega arith)),
)

drawn-Typed : (e : Emu) → Typed e → Typed (drawn e)
unfolding rasterise unpack_xy
drawn-Typed e t = ground (
  arith,
  drawing.rows,
  drawing.pixels,
  area,
  bbox_word (vertices e.gpu) (omega arith) (omega arith),
)
  where
    vertex-BytePoint : (v : ℕ) → BytePoint (unpack_xy v)
    vertex-BytePoint v = record { x_byte = omega arith; y_byte = omega arith }

    area : IsInt32 (edge_fn (vertices e.gpu).a (vertices e.gpu).b (vertices e.gpu).c)
    area =
        edge_fn-IsInt32 (vertices e.gpu).a (vertices e.gpu).b (vertices e.gpu).c
          (vertex-BytePoint e.gpu.vertex0) (vertex-BytePoint e.gpu.vertex1)
          (vertex-BytePoint e.gpu.vertex2)

    drawing : RasterTyped (rasterise (vertices e.gpu) e.gpu.framebuffer)
    drawing =
        draw_rows-RasterTyped (vertices e.gpu) _ _ _
          (record { rows = t.gpu.rows_word; pixels = omega arith })

pub run_gpu_clear-Typed : (e : Emu) → Typed e → Ensures Typed (run_gpu_clear e)
unfolding run_gpu_clear
run_gpu_clear-Typed e t =
    >>=-Ensures Typed Typed _ _ (sync-Typed (cleared e) (cleared-Typed e t)) λ s h. ground arith

pub run_gpu_draw-Typed : (e : Emu) → Typed e → Ensures Typed (run_gpu_draw e)
unfolding run_gpu_draw
run_gpu_draw-Typed e t =
    >>=-Ensures Typed Typed _ _ (sync-Typed (drawn e) (drawn-Typed e t)) λ s h. ground arith
