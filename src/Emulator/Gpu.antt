-- ===== src/Emulator/Gpu.antt =====
-- The emulated rasteriser: `edge_fn`, `pack_xy`, `emu_sync_gpu_framebuffer_to_umem`,
-- `emu_run_gpu_clear` and `emu_run_gpu_draw` of linux/uio/accel_mmio_demo.c.
-- Vertex coordinates are bytes, so no `int` of the rasteriser is negative or overflows.
pub mod EdgeFn
pub mod Geometry
pub mod Whole
pub mod Draws
pub mod Frame
pub mod Mirror
pub mod Pixels
pub mod Total
use risc_v_computer_zybo.Base.{
  ℕ, zero, suc, ◌+◌, ◌-◌, ◌*◌, ◌/◌, ◌%◌, ◌^◌, ◌<◌, Bool, true, false, ◌&&◌, Outcome, ok, ◌>>=◌, ltb,
  leb, ◌==◌, if◌then◌else◌, update,
}
use risc_v_computer_zybo.Base.Int.{ℤ, pos, ◌-ℤ◌, ◌*ℤ◌, ltb_ℤ, leb_ℤ}
use risc_v_computer_zybo.Word.{word, add32, mul32, byte_of, test_bit, set_bit}
use risc_v_computer_zybo.Emulator.{Emu, GpuState, fb_rows, fb_cols}
use risc_v_computer_zybo.Emulator.Umem.{write32, enabled_with, bit_gpu_use_buf}

pub record Point : Type 0 where
  pub x : ℕ
  pub y : ℕ

-- `edge_fn(ax, ay, bx, by, px, py)`
unfoldable pub edge_fn : Point → Point → Point → ℤ
edge_fn a b p =
    (pos b.x -ℤ pos a.x) *ℤ (pos p.y -ℤ pos a.y) -ℤ (pos b.y -ℤ pos a.y) *ℤ (pos p.x -ℤ pos a.x)

-- `pack_xy`: two bytes, so `|` is a sum.
unfoldable pub pack_xy : ℕ → ℕ → ℕ
pack_xy x y = y * 2 ^ 8 + x

-- The two bytes of a vertex register.
unfoldable pub unpack_xy : ℕ → Point
unpack_xy v = record { x = byte_of v 0; y = byte_of v 8 }

-- `for (row = ...; row < GPU_FB_ROWS; ++row)` with the rounds left, writing each row out.
unfoldable pub copy_rows : ℕ → ℕ → Emu → Outcome Emu
copy_rows zero row e = ok e
copy_rows (suc rounds) row e = do
  e' ←
      write32 e (add32 e.umem.gpu_fb_offset (mul32 row e.umem.gpu_fb_pitch)) (e.gpu.framebuffer row)
  copy_rows rounds (row + 1) e'

unfoldable pub sync_framebuffer_to_umem : Emu → Outcome Emu
sync_framebuffer_to_umem e =
    if enabled_with e.umem.ctrl bit_gpu_use_buf then copy_rows fb_rows 0 e else ok e

unfoldable pub fill_rows : ℕ → ℕ → ℕ → (ℕ → ℕ) → ℕ → ℕ
fill_rows zero row fill fb = fb
fill_rows (suc rounds) row fill fb = fill_rows rounds (row + 1) fill (update fb row fill)

-- `emu_run_gpu_clear` up to the copy to the unified memory.
abbrev pub cleared : Emu → Emu
cleared e =
    let fill = if test_bit e.gpu.clear_value 0 then 0xFFFFFFFF else 0x00000000 in
    record e {
      gpu = record (e.gpu) {
        busy = true;
        framebuffer = fill_rows fb_rows 0 fill e.gpu.framebuffer;
        raster_pixels = 0;
        last_area2 = pos 0;
        last_bbox = 0;
        frame_count = add32 e.gpu.frame_count 1;
      };
    }

abbrev pub finished : Emu → Emu
finished e = record e { gpu = record (e.gpu) { busy = false; done_sticky = true } }

unfoldable pub run_gpu_clear : Emu → Outcome Emu
run_gpu_clear e = do synced ← sync_framebuffer_to_umem (cleared e); ok (finished synced)

-- `m = a; if (b < m) m = b; if (c < m) m = c;` and the same for the greatest.
abbrev pub min3 : ℕ → ℕ → ℕ → ℕ
min3 a b c = let m = if ltb b a then b else a in if ltb c m then c else m

abbrev pub max3 : ℕ → ℕ → ℕ → ℕ
max3 a b c = let m = if ltb a b then b else a in if ltb m c then c else m

-- `if (m >= size) m = size - 1;`
abbrev pub clip : ℕ → ℕ → ℕ
clip m size = if leb size m then size - 1 else m

pub record Triangle : Type 0 where
  pub a : Point
  pub b : Point
  pub c : Point

abbrev pub area2 : Triangle → ℤ
area2 t = edge_fn t.a t.b t.c

-- The bounding box, clipped to the framebuffer.
abbrev pub min_x : Triangle → ℕ
min_x t = min3 t.a.x t.b.x t.c.x

abbrev pub min_y : Triangle → ℕ
min_y t = min3 t.a.y t.b.y t.c.y

abbrev pub max_x : Triangle → ℕ
max_x t = clip (max3 t.a.x t.b.x t.c.x) fb_cols

abbrev pub max_y : Triangle → ℕ
max_y t = clip (max3 t.a.y t.b.y t.c.y) fb_rows

unfoldable pub is_inside : Triangle → Point → Bool
is_inside t p =
    let e0 = edge_fn t.a t.b p in
    let e1 = edge_fn t.b t.c p in
    let e2 = edge_fn t.c t.a p in
    if ltb_ℤ (pos 0) (area2 t)
    then leb_ℤ (pos 0) e0 && leb_ℤ (pos 0) e1 && leb_ℤ (pos 0) e2
    else if ltb_ℤ (area2 t) (pos 0)
    then leb_ℤ e0 (pos 0) && leb_ℤ e1 (pos 0) && leb_ℤ e2 (pos 0)
    else false

pub record Raster : Type 0 where
  pub framebuffer : ℕ → ℕ
  pub pixels : ℕ

unfoldable pub plot : Triangle → ℕ → ℕ → Raster → Raster
plot t y x r =
    if is_inside t (record { x = x; y = y })
    then record {
      framebuffer = update r.framebuffer y (set_bit (r.framebuffer y) x);
      pixels = add32 r.pixels 1;
    }
    else r

-- The two loops, with the rounds left.
unfoldable pub draw_row : Triangle → ℕ → ℕ → ℕ → Raster → Raster
draw_row t y zero x r = r
draw_row t y (suc rounds) x r = draw_row t y rounds (x + 1) (plot t y x r)

unfoldable pub draw_rows : Triangle → ℕ → ℕ → Raster → Raster
draw_rows t zero y r = r
draw_rows t (suc rounds) y r =
    draw_rows t rounds (y + 1) (draw_row t y (max_x t + 1 - min_x t) (min_x t) r)

unfoldable pub rasterise : Triangle → (ℕ → ℕ) → Raster
rasterise t fb =
    draw_rows t (max_y t + 1 - min_y t) (min_y t) (record { framebuffer = fb; pixels = 0 })

abbrev pub vertices : GpuState → Triangle
unfolding unpack_xy
vertices g = record { a = unpack_xy g.vertex0; b = unpack_xy g.vertex1; c = unpack_xy g.vertex2 }

-- `emu_run_gpu_draw` up to the copy to the unified memory. The bytes of the box are disjoint.
abbrev pub drawn : Emu → Emu
drawn e =
    let t = vertices e.gpu in
    let r = rasterise t e.gpu.framebuffer in
    record e {
      gpu = record (e.gpu) {
        busy = true;
        last_area2 = area2 t;
        last_bbox = max_y t * 2 ^ 24 + max_x t * 2 ^ 16 + min_y t * 2 ^ 8 + min_x t;
        framebuffer = r.framebuffer;
        raster_pixels = r.pixels;
        triangles = add32 e.gpu.triangles 1;
        frame_count = add32 e.gpu.frame_count 1;
      };
    }

unfoldable pub run_gpu_draw : Emu → Outcome Emu
run_gpu_draw e = do synced ← sync_framebuffer_to_umem (drawn e); ok (finished synced)
