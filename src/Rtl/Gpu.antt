-- ===== src/Rtl/Gpu.antt =====
-- The rasteriser rtl/accel/gpu3d_lite_stub.v. Vertex coordinates are bytes, so the 32 bits of the edge
-- functions hold their values, which are integers here; `last_area2` is the same register.
pub mod Scan
pub mod Command
pub mod Box
pub mod Emulated
use risc_v_computer_zybo.Base.{
  ℕ, zero, suc, ◌+◌, ◌*◌, ◌%◌, ◌^◌, Bool, true, false, not, ◌&&◌, ltb, ◌==◌, if◌then◌else◌, update,
}
use risc_v_computer_zybo.Base.Int.{ℤ, pos, ◌-ℤ◌, ◌*ℤ◌, ltb_ℤ, leb_ℤ}
use risc_v_computer_zybo.Word.{add32, byte_of, test_bit, set_bit}
use risc_v_computer_zybo.Emulator.Gpu.{Point, Triangle}

pub data Mode : Type 0 where
  idle clear draw : Mode

pub record GpuLite : Type 0 where
  pub busy : Bool
  pub frame_done : Bool
  pub triangles_drawn : ℕ
  pub frame_counter : ℕ
  pub raster_pixels : ℕ
  pub last_area2 : ℤ
  pub last_bbox : ℕ
  pub framebuffer : ℕ → ℕ
  pub mode : Mode
  pub clear_row : ℕ
  pub clear_fill : Bool
  pub scan_x : ℕ
  pub scan_y : ℕ
  pub min_x : ℕ
  pub max_x : ℕ
  pub min_y : ℕ
  pub max_y : ℕ
  pub triangle : Triangle

-- The inputs at a clock edge.
pub record Inputs : Type 0 where
  pub cmd_valid : Bool
  pub cmd_opcode : ℕ
  pub vertex0_xy : ℕ
  pub vertex1_xy : ℕ
  pub vertex2_xy : ℕ
  pub clear_value : ℕ

-- `CMD_CLEAR` and `CMD_DRAW_TRI`
abbrev pub cmd_clear : ℕ
cmd_clear = 0x01

abbrev pub cmd_draw_tri : ℕ
cmd_draw_tri = 0x02

unfoldable pub min3_u8 : ℕ → ℕ → ℕ → ℕ
min3_u8 a b c = if ltb a b then (if ltb a c then a else c) else if ltb b c then b else c

unfoldable pub max3_u8 : ℕ → ℕ → ℕ → ℕ
max3_u8 a b c = if ltb b a then (if ltb c a then a else c) else if ltb c b then b else c

unfoldable pub clamp_fb_coord : ℕ → ℕ
clamp_fb_coord value = if ltb 31 value then 31 else value % 32

-- `edge_function`, which is `triangle_area2` too.
unfoldable pub edge_function : Point → Point → Point → ℤ
edge_function a b p =
    let ap_x = pos p.x -ℤ pos a.x in
    let ap_y = pos p.y -ℤ pos a.y in
    let ab_x = pos b.x -ℤ pos a.x in let ab_y = pos b.y -ℤ pos a.y in ab_x *ℤ ap_y -ℤ ab_y *ℤ ap_x

abbrev pub vertices_of : Inputs → Triangle
vertices_of i = record {
  a = record { x = byte_of i.vertex0_xy 0; y = byte_of i.vertex0_xy 8 };
  b = record { x = byte_of i.vertex1_xy 0; y = byte_of i.vertex1_xy 8 };
  c = record { x = byte_of i.vertex2_xy 0; y = byte_of i.vertex2_xy 8 };
}

abbrev pub min_x_start : Triangle → ℕ
min_x_start t = clamp_fb_coord (min3_u8 t.a.x t.b.x t.c.x)

abbrev pub max_x_start : Triangle → ℕ
max_x_start t = clamp_fb_coord (max3_u8 t.a.x t.b.x t.c.x)

abbrev pub min_y_start : Triangle → ℕ
min_y_start t = clamp_fb_coord (min3_u8 t.a.y t.b.y t.c.y)

abbrev pub max_y_start : Triangle → ℕ
max_y_start t = clamp_fb_coord (max3_u8 t.a.y t.b.y t.c.y)

-- `{max_y_start, max_x_start, min_y_start, min_x_start}`: four fields of five bits.
abbrev pub bbox_start : Triangle → ℕ
bbox_start t =
    max_y_start t * 2 ^ 15 + max_x_start t * 2 ^ 10 + min_y_start t * 2 ^ 5 + min_x_start t

unfoldable pub draw_inside : GpuLite → Bool
draw_inside g =
    let p : Point = record { x = g.scan_x; y = g.scan_y } in
    let edge0 = edge_function g.triangle.a g.triangle.b p in
    let edge1 = edge_function g.triangle.b g.triangle.c p in
    let edge2 = edge_function g.triangle.c g.triangle.a p in
    if ltb_ℤ (pos 0) g.last_area2
    then leb_ℤ (pos 0) edge0 && leb_ℤ (pos 0) edge1 && leb_ℤ (pos 0) edge2
    else if ltb_ℤ g.last_area2 (pos 0)
    then leb_ℤ edge0 (pos 0) && leb_ℤ edge1 (pos 0) && leb_ℤ edge2 (pos 0)
    else false

-- `frame_done <= 1'b0`, which a later assignment overrides.
abbrev pub quiet : GpuLite → GpuLite
quiet g = record g { frame_done = false }

-- `if (!busy && cmd_valid)`
unfoldable pub accept : Inputs → GpuLite → GpuLite
accept i g =
    if i.cmd_opcode == cmd_clear
    then record g {
      busy = true;
      mode = Mode.clear;
      clear_row = 0;
      clear_fill = test_bit i.clear_value 0;
      raster_pixels = 0;
      last_area2 = pos 0;
      last_bbox = 0;
    }
    else if i.cmd_opcode == cmd_draw_tri
    then (let t = vertices_of i in
        record g {
          busy = true;
          mode = Mode.draw;
          triangle = t;
          min_x = min_x_start t;
          max_x = max_x_start t;
          min_y = min_y_start t;
          max_y = max_y_start t;
          scan_x = min_x_start t;
          scan_y = min_y_start t;
          raster_pixels = 0;
          last_area2 = edge_function t.a t.b t.c;
          last_bbox = bbox_start t;
        })
    else g

-- MODE_CLEAR
unfoldable pub clear_step : GpuLite → GpuLite
clear_step g =
    let filled = record g {
      framebuffer =
          update g.framebuffer g.clear_row (if g.clear_fill then 0xFFFFFFFF else 0x00000000);
    } in
    if g.clear_row == 31
    then record filled {
      busy = false;
      mode = Mode.idle;
      frame_done = true;
      frame_counter = add32 g.frame_counter 1;
    }
    else record filled { clear_row = (g.clear_row + 1) % 32 }

-- `if (draw_inside)`
unfoldable pub plot_step : GpuLite → GpuLite
unfolding draw_inside
plot_step g =
    if draw_inside g
    then record g {
      framebuffer = update g.framebuffer g.scan_y (set_bit (g.framebuffer g.scan_y) g.scan_x);
      raster_pixels = add32 g.raster_pixels 1;
    }
    else g

-- MODE_DRAW after it.
unfoldable pub scan_step : GpuLite → GpuLite
scan_step g =
    if g.scan_x == g.max_x
    then (if g.scan_y == g.max_y
        then record g {
          busy = false;
          mode = Mode.idle;
          frame_done = true;
          frame_counter = add32 g.frame_counter 1;
          triangles_drawn = add32 g.triangles_drawn 1;
        }
        else record g { scan_x = g.min_x; scan_y = (g.scan_y + 1) % 32 })
    else record g { scan_x = (g.scan_x + 1) % 32 }

-- `else if (busy)`, by the mode.
unfoldable pub work : Mode → GpuLite → GpuLite
work Mode.clear g = clear_step g
work Mode.draw g = scan_step (plot_step g)
work Mode.idle g = record g { busy = false; mode = Mode.idle }

-- A clock edge out of reset.
unfoldable pub clock : Inputs → GpuLite → GpuLite
clock i g =
    if not g.busy && i.cmd_valid
    then accept i (quiet g)
    else if g.busy
    then work g.mode (quiet g)
    else quiet g

-- Some clock edges, with the inputs at each.
unfoldable pub cycles : ℕ → (ℕ → Inputs) → GpuLite → GpuLite
cycles zero i g = g
cycles (suc n) i g = cycles n (λ k. i (suc k)) (clock (i 0) g)

-- The registers after `!resetn`.
abbrev pub at_reset : GpuLite
at_reset = record {
  busy = false;
  frame_done = false;
  triangles_drawn = 0;
  frame_counter = 0;
  raster_pixels = 0;
  last_area2 = pos 0;
  last_bbox = 0;
  framebuffer = λ _. 0;
  mode = Mode.idle;
  clear_row = 0;
  clear_fill = false;
  scan_x = 0;
  scan_y = 0;
  min_x = 0;
  max_x = 0;
  min_y = 0;
  max_y = 0;
  triangle = record {
    a = record { x = 0; y = 0 };
    b = record { x = 0; y = 0 };
    c = record { x = 0; y = 0 };
  };
}
