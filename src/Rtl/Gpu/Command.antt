-- ===== src/Rtl/Gpu/Command.antt =====
-- A command of rtl/accel/gpu3d_lite_stub.v from the edge that takes it to its last cycle.
use risc_v_computer_zybo.Base.{
  ℕ, zero, suc, ◌+◌, ◌-◌, ◌*◌, ◌≡◌, ◌∙◌, ◌≤◌, ◌<◌, refl, sym, ap, arith, true, false, if◌then◌else◌,
}
use risc_v_computer_zybo.Base.Int.{pos}
use risc_v_computer_zybo.Word.{test_bit}
use risc_v_computer_zybo.Emulator.{GpuState}
use risc_v_computer_zybo.Emulator.Gpu.{
  Triangle, edge_fn, min3, max3, unpack_xy, vertices, clip, fill_rows,
}
use risc_v_computer_zybo.Emulator.Gpu.Whole.{
  Spans, nothing_drawn, scan_box, scan_whole, scan_box_lem, min3-max3,
}
use risc_v_computer_zybo.Rtl.Gpu as Hw
use risc_v_computer_zybo.Rtl.Gpu.{
  GpuLite, Inputs, Mode, edge_function, min3_u8, max3_u8, clamp_fb_coord, min_x_start, max_x_start,
  min_y_start, max_y_start, accept, clock, cycles, cmd_clear, cmd_draw_tri, vertices_of,
}
use risc_v_computer_zybo.Rtl.Gpu.Scan.{
  InFrame, width, scanning, scanned, clearing, box_cycles, box_cycles-scanned, clear_cycles-cleared,
  edge_function-edge_fn,
}

min3_u8-min3 : (a b c : ℕ) → min3_u8 a b c ≡ min3 a b c
unfolding min3_u8
min3_u8-min3 a b c = ground arith

max3_u8-max3 : (a b c : ℕ) → max3_u8 a b c ≡ max3 a b c
unfolding max3_u8
max3_u8-max3 a b c = ground arith

pub clamp-clip : (n : ℕ) → clamp_fb_coord n ≡ clip n 32
unfolding clamp_fb_coord
clamp-clip n = ground arith

pub min_start : (a b c : ℕ) → clamp_fb_coord (min3_u8 a b c) ≡ clip (min3 a b c) 32
min_start a b c = ap clamp_fb_coord (min3_u8-min3 a b c) ∙ clamp-clip (min3 a b c)

pub max_start : (a b c : ℕ) → clamp_fb_coord (max3_u8 a b c) ≡ clip (max3 a b c) 32
max_start a b c = ap clamp_fb_coord (max3_u8-max3 a b c) ∙ clamp-clip (max3 a b c)

clip_mono : (m n : ℕ) → m ≤ n → clip m 32 ≤ clip n 32
clip_mono m n h = ground arith

pub clip-lt : (n : ℕ) → clip n 32 < 32
clip-lt n = ground arith

clipped-Spans : (m n : ℕ) → m ≤ n → Spans (clip m 32) (clip n 32 + 1 - clip m 32) m n
clipped-Spans m n h = record {
  before = λ k l g. ground arith;
  after = λ k l g. ground arith;
  ends = λ p. ground arith;
}

-- The columns, or the rows, of the unit's box.
start-Spans :
    (a b c : ℕ)
    → Spans
        (clamp_fb_coord (min3_u8 a b c))
        (clamp_fb_coord (max3_u8 a b c) + 1 - clamp_fb_coord (min3_u8 a b c))
        (min3 a b c)
        (max3 a b c)
start-Spans a b c =
    rw (min_start a b c, max_start a b c)
      (clipped-Spans (min3 a b c) (max3 a b c) (min3-max3 a b c))

-- The command at the inputs, with the operands of the emulator's registers.
pub record Commands (i : Inputs) (opcode : ℕ) (s : GpuState) : Type 0 where
  pub valid : i.cmd_valid ≡ true
  pub opcode_is : i.cmd_opcode ≡ opcode
  pub vertex0 : i.vertex0_xy ≡ s.vertex0
  pub vertex1 : i.vertex1_xy ≡ s.vertex1
  pub vertex2 : i.vertex2_xy ≡ s.vertex2
  pub clear_value : i.clear_value ≡ s.clear_value

-- The state in which a triangle is scanned.
unfoldable pub drawing : GpuLite → Triangle → GpuLite
drawing g t = record g {
  triangle = t;
  min_x = min_x_start t;
  max_x = max_x_start t;
  min_y = min_y_start t;
  max_y = max_y_start t;
  last_bbox = Hw.bbox_start t;
}

drawing-InFrame : (g : GpuLite) (t : Triangle) → InFrame (drawing g t)
unfolding drawing
drawing-InFrame g t = record {
  wide =
      rw (min_start t.a.x t.b.x t.c.x, max_start t.a.x t.b.x t.c.x)
        (clip_mono _ _ (min3-max3 t.a.x t.b.x t.c.x));
  in_row = rw (max_start t.a.x t.b.x t.c.x) (clip-lt (max3 t.a.x t.b.x t.c.x));
  in_frame = rw (max_start t.a.y t.b.y t.c.y) (clip-lt (max3 t.a.y t.b.y t.c.y));
}

vertices_of-vertices :
    (s : GpuState) (i : Inputs) (opcode : ℕ) → Commands i opcode s → vertices_of i ≡ vertices s
unfolding unpack_xy
vertices_of-vertices s i opcode c = ground arith

accept-draw :
    (g : GpuLite) (i : Inputs)
    → i.cmd_opcode ≡ cmd_draw_tri
    → accept i (Hw.quiet g)
      ≡ scanning
          (drawing g (vertices_of i))
          (min_x_start (vertices_of i))
          (min_y_start (vertices_of i))
          (nothing_drawn g.framebuffer)
unfolding accept drawing edge_function edge_fn
accept-draw g i h = simp h refl

clock-accept :
    (g : GpuLite) (i : Inputs)
    → g.busy ≡ false
    → i.cmd_valid ≡ true
    → clock i g ≡ accept i (Hw.quiet g)
unfolding clock
clock-accept g i b v = ground arith

clock-draw :
    (g : GpuLite) (s : GpuState) (i : Inputs)
    → g.busy ≡ false
    → Commands i cmd_draw_tri s
    → clock i g
      ≡ scanning
          (drawing g (vertices s))
          (min_x_start (vertices s))
          (min_y_start (vertices s))
          (nothing_drawn g.framebuffer)
clock-draw g s i b c =
    clock-accept g i b c.valid
    ∙ accept-draw g i c.opcode_is
    ∙ ap
        (λ (t : Triangle).
          scanning (drawing g t) (min_x_start t) (min_y_start t) (nothing_drawn g.framebuffer))
        (vertices_of-vertices s i cmd_draw_tri c)

-- The state in which the rows are cleared.
unfoldable pub wiped : GpuLite → ℕ → GpuLite
wiped g clear_value = record g {
  clear_fill = test_bit clear_value 0;
  raster_pixels = 0;
  last_area2 = pos 0;
  last_bbox = 0;
}

clock-clear :
    (g : GpuLite) (s : GpuState) (i : Inputs)
    → g.busy ≡ false
    → Commands i cmd_clear s
    → clock i g ≡ clearing (wiped g s.clear_value) 0 g.framebuffer
unfolding accept wiped
clock-clear g s i b c =
    clock-accept g i b c.valid
    ∙ simp (c.opcode_is) (ap (λ (v : ℕ). clearing (wiped g v) 0 g.framebuffer) c.clear_value)

-- The cycles of a draw: one to take the command, one for each pixel of its box.
abbrev pub draw_cycles : Triangle → ℕ
draw_cycles t = 1 + (max_y_start t + 1 - min_y_start t) * (max_x_start t + 1 - min_x_start t)

box_cycles_lem : (g : GpuLite) (j : ℕ) → box_cycles g j ≡ j * width g
unfolding box_cycles
box_cycles_lem g zero = omega arith
box_cycles_lem g (suc j) = grind (arith, box_cycles_lem g j)

some_rows : (a b : ℕ) → a ≤ b → b + 1 - a ≡ suc (b - a)
some_rows a b h = omega arith

pub drawn_state :
    (g : GpuLite) (s : GpuState) (i : ℕ → Inputs)
    → g.busy ≡ false
    → Commands (i 0) cmd_draw_tri s
    → cycles (draw_cycles (vertices s)) i g
      ≡ scanned (drawing g (vertices s)) (scan_whole (vertices s) g.framebuffer)
unfolding cycles drawing
drawn_state g s i b c =
    ap (λ (n : ℕ). cycles n i g) count
    ∙ ap (cycles (box_cycles d (suc j)) (λ k. i (suc k))) (clock-draw g s (i 0) b c)
    ∙ box_cycles-scanned j (λ k. i (suc k)) d d.min_y (nothing_drawn g.framebuffer)
        (drawing-InFrame g t) (omega (arith, tall))
    ∙ ap
        (λ (n : ℕ).
          scanned d (scan_box t (width d) d.min_x n d.min_y (nothing_drawn g.framebuffer)))
        (sym height)
    ∙ ap (scanned d) (
        scan_box_lem t (width d) d.min_x (d.max_y + 1 - d.min_y) d.min_y g.framebuffer
          (start-Spans t.a.x t.b.x t.c.x) (start-Spans t.a.y t.b.y t.c.y))
  where
    t : Triangle
    t = vertices s

    d : GpuLite
    d = drawing g t

    j : ℕ
    j = d.max_y - d.min_y

    tall : d.min_y ≤ d.max_y
    tall =
        rw (min_start t.a.y t.b.y t.c.y, max_start t.a.y t.b.y t.c.y)
          (clip_mono _ _ (min3-max3 t.a.y t.b.y t.c.y))

    height : d.max_y + 1 - d.min_y ≡ suc j
    height = some_rows d.min_y d.max_y tall

    count : draw_cycles t ≡ suc (box_cycles d (suc j))
    count = ap (λ (n : ℕ). 1 + n * width d) height ∙ omega (arith, box_cycles_lem d (suc j))

pub cleared_state :
    (g : GpuLite) (s : GpuState) (i : ℕ → Inputs)
    → g.busy ≡ false
    → Commands (i 0) cmd_clear s
    → cycles 33 i g
      ≡ Hw.Scan.cleared
          (wiped g s.clear_value)
          (fill_rows 32 0 (if test_bit s.clear_value 0 then 0xFFFFFFFF else 0) g.framebuffer)
unfolding cycles wiped
cleared_state g s i b c =
    ap (cycles 32 (λ k. i (suc k))) (clock-clear g s (i 0) b c)
    ∙ clear_cycles-cleared 31 (λ k. i (suc k)) (wiped g s.clear_value) 0 g.framebuffer (omega arith)
