-- ===== src/Rtl/Gpu/Emulated.antt =====
-- The rasteriser of rtl/accel/gpu3d_lite_stub.v against emu_run_gpu_clear and emu_run_gpu_draw of
-- linux/uio/accel_mmio_demo.c.
use mathlib.Core.Path.{subst}
use risc_v_computer_zybo.Base.{
  ℕ, ◌/◌, ◌%◌, ◌^◌, ◌≡◌, ◌≢◌, ◌∙◌, ◌<◌, refl, sym, ap, true, false, if◌then◌else◌, Ensures,
  >>=-Ensures,
}
use risc_v_computer_zybo.Word.{add32, byte_of, test_bit}
use risc_v_computer_zybo.Emulator.{Emu, GpuState}
use risc_v_computer_zybo.Emulator.Npu.Frame.{SameButMem}
use risc_v_computer_zybo.Emulator.Gpu.{
  Raster, clip, max_y, vertices, fill_rows, cleared, drawn, finished, run_gpu_clear, run_gpu_draw,
}
use risc_v_computer_zybo.Emulator.Gpu.Whole.{scan_whole, rasterise-scan_whole}
use risc_v_computer_zybo.Emulator.Gpu.Frame.{sync-SameButMem}
use risc_v_computer_zybo.Rtl.Gpu as Hw
use risc_v_computer_zybo.Rtl.Gpu.{
  GpuLite, Inputs, Mode, edge_function, min3_u8, max3_u8, clamp_fb_coord, min_x_start, max_x_start,
  min_y_start, max_y_start, accept, clock, cycles, cmd_clear, cmd_draw_tri, vertices_of,
}
use risc_v_computer_zybo.Rtl.Gpu.Scan.{
  scanning, scanned, clearing, box_cycles, box_cycles-scanned, clear_cycles-cleared,
  edge_function-edge_fn,
}
use risc_v_computer_zybo.Rtl.Gpu.Box.{box_shown, packings_differ}
use risc_v_computer_zybo.Rtl.Gpu.Command.{
  Commands, drawing, wiped, draw_cycles, drawn_state, cleared_state,
}

-- The unit and the emulator's state show the same through the registers, but for how a box is
-- packed: by five bits a corner in the unit, by eight in the emulator. A corner of the unit's box is on the
-- framebuffer, where the least coordinates of the emulator's box can lie beyond it.
pub record Shows (g : GpuLite) (s : GpuState) : Type 0 where
  pub triangles : g.triangles_drawn ≡ s.triangles
  pub frames : g.frame_counter ≡ s.frame_count
  pub pixels : g.raster_pixels ≡ s.raster_pixels
  pub area : g.last_area2 ≡ s.last_area2
  pub rows : g.framebuffer ≡ s.framebuffer
  pub box_max_y : g.last_bbox / 2 ^ 15 % 32 ≡ byte_of s.last_bbox 24
  pub box_max_x : g.last_bbox / 2 ^ 10 % 32 ≡ byte_of s.last_bbox 16
  pub box_min_y : g.last_bbox / 2 ^ 5 % 32 ≡ clip (byte_of s.last_bbox 8) 32
  pub box_min_x : g.last_bbox % 32 ≡ clip (byte_of s.last_bbox 0) 32

-- The command is done, with this result.
pub record Done (g : GpuLite) (e : Emu) : Type 0 where
  pub busy : g.busy ≡ false
  pub frame_done : g.frame_done ≡ true
  pub shows : Shows g e.gpu

-- The end of a command in the emulator's state.
abbrev ended : GpuState → GpuState
ended s = record s { busy = false; done_sticky = true }

drawn-Shows :
    (g : GpuLite) (e : Emu)
    → Shows g e.gpu
    → Shows
        (scanned (drawing g (vertices e.gpu)) (scan_whole (vertices e.gpu) g.framebuffer))
        (ended (drawn e).gpu)
unfolding drawing
drawn-Shows g e h =
    let box = box_shown e.gpu in
    let same =
      ap (scan_whole (vertices e.gpu)) h.rows
      ∙ sym (rasterise-scan_whole (vertices e.gpu) e.gpu.framebuffer) in
    record {
      triangles = ap (λ (n : ℕ). add32 n 1) h.triangles;
      frames = ap (λ (n : ℕ). add32 n 1) h.frames;
      pixels = ap (λ (r : Raster). r.pixels) same;
      area = refl;
      rows = ap (λ (r : Raster). r.framebuffer) same;
      box_max_y = box.0;
      box_max_x = box.1;
      box_min_y = box.2;
      box_min_x = box.3;
    }

cleared-Shows :
    (g : GpuLite) (e : Emu)
    → Shows g e.gpu
    → Shows
        (Hw.Scan.cleared
          (wiped g e.gpu.clear_value)
          (fill_rows 32 0 (if test_bit e.gpu.clear_value 0 then 0xFFFFFFFF else 0) g.framebuffer))
        (ended (cleared e).gpu)
unfolding wiped
cleared-Shows g e h = record {
  triangles = h.triangles;
  frames = ap (λ (n : ℕ). add32 n 1) h.frames;
  pixels = refl;
  area = refl;
  rows = ap (fill_rows 32 0 (if test_bit e.gpu.clear_value 0 then 0xFFFFFFFF else 0)) h.rows;
  box_max_y = refl;
  box_max_x = refl;
  box_min_y = refl;
  box_min_x = refl;
}

Done-synced :
    (g : GpuLite) (e synced : Emu)
    → g.busy ≡ false
    → g.frame_done ≡ true
    → Shows g (ended e.gpu)
    → SameButMem e synced
    → Done g (finished synced)
Done-synced g e synced b d h same = record {
  busy = b;
  frame_done = d;
  shows = subst (λ (q : GpuState). Shows g (ended q)) (sym (ap (λ (f : Emu). f.gpu) same)) h;
}

-- A draw in the unit: from any state in which it is not busy and shows the emulator's registers, a
-- draw command with their operands is done after one cycle and one for each pixel of the unit's box,
-- whatever the inputs are in the meantime; and if the emulator's draw returns, the unit shows what
-- the emulator shows.
pub draw-Done :
    (g : GpuLite) (e : Emu) (i : ℕ → Inputs)
    → g.busy ≡ false
    → Shows g e.gpu
    → Commands (i 0) cmd_draw_tri e.gpu
    → Ensures (Done (cycles (draw_cycles (vertices e.gpu)) i g)) (run_gpu_draw e)
unfolding run_gpu_draw
draw-Done g e i b h c =
    >>=-Ensures (SameButMem (drawn e)) (Done (cycles (draw_cycles (vertices e.gpu)) i g)) _ _
      (sync-SameButMem (drawn e))
      λ synced same.
        subst (λ (g' : GpuLite). Done g' (finished synced)) (sym (drawn_state g e.gpu i b c))
          (Done-synced _ (drawn e) synced refl refl (drawn-Shows g e h) same)

-- A clear in the unit: from any state in which it is not busy and shows the emulator's registers, a
-- clear command with their value is done after 33 cycles; and if the emulator's clear returns, the
-- unit shows what the emulator shows.
pub clear-Done :
    (g : GpuLite) (e : Emu) (i : ℕ → Inputs)
    → g.busy ≡ false
    → Shows g e.gpu
    → Commands (i 0) cmd_clear e.gpu
    → Ensures (Done (cycles 33 i g)) (run_gpu_clear e)
unfolding run_gpu_clear
clear-Done g e i b h c =
    >>=-Ensures (SameButMem (cleared e)) (Done (cycles 33 i g)) _ _ (sync-SameButMem (cleared e))
      λ synced same.
        subst (λ (g' : GpuLite). Done g' (finished synced)) (sym (cleared_state g e.gpu i b c))
          (Done-synced _ (cleared e) synced refl refl (cleared-Shows g e h) same)

-- The register of the box is packed by five bits a corner in the unit and by eight in the emulator:
-- after a draw command with the emulator's operands, in a unit that was not busy, whose box reaches
-- below the first row, the two registers differ, if the emulator's draw returns.
pub draw_bbox_differs :
    (g : GpuLite) (e : Emu) (i : ℕ → Inputs)
    → g.busy ≡ false
    → Commands (i 0) cmd_draw_tri e.gpu
    → 0 < max_y (vertices e.gpu)
    → Ensures
        (λ e'. (cycles (draw_cycles (vertices e.gpu)) i g).last_bbox ≢ e'.gpu.last_bbox)
        (run_gpu_draw e)
unfolding run_gpu_draw drawing
draw_bbox_differs g e i b c low =
    >>=-Ensures (SameButMem (drawn e)) _ _ _ (sync-SameButMem (drawn e)) λ synced same q.
      packings_differ (vertices e.gpu) low (
        sym (ap (λ (f : GpuLite). f.last_bbox) (drawn_state g e.gpu i b c))
        ∙ q
        ∙ ap (λ (f : Emu). f.gpu.last_bbox) same)
