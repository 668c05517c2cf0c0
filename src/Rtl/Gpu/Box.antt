-- ===== src/Rtl/Gpu/Box.antt =====
-- The registers of the box in rtl/accel/gpu3d_lite_stub.v and in emu_run_gpu_draw of
-- linux/uio/accel_mmio_demo.c: five bits a corner against eight.
use risc_v_computer_zybo.Base.{ℕ, ◌+◌, ◌*◌, ◌/◌, ◌%◌, ◌^◌, ◌≡◌, ◌≢◌, ◌∙◌, ◌<◌, sym, ap, arith}
use risc_v_computer_zybo.Word.{byte_of}
use risc_v_computer_zybo.Emulator.{GpuState}
use risc_v_computer_zybo.Emulator.Gpu.{
  Triangle, min3, max3, clip, min_x, max_x, min_y, max_y, unpack_xy, vertices,
}
use risc_v_computer_zybo.Rtl.Gpu as Hw
use risc_v_computer_zybo.Rtl.Gpu.{
  GpuLite, Inputs, Mode, edge_function, min3_u8, max3_u8, clamp_fb_coord, min_x_start, max_x_start,
  min_y_start, max_y_start, accept, clock, cycles, cmd_clear, cmd_draw_tri, vertices_of,
}
use risc_v_computer_zybo.Rtl.Gpu.Command.{min_start, max_start, clip-lt}

-- The four fields of both packings, where the least coordinates are bytes.
box_packed :
    (a b c d : ℕ)
    → a < 32
    → b < 32
    → c < 256
    → d < 256
    → let u = a * 2 ^ 15 + b * 2 ^ 10 + clip c 32 * 2 ^ 5 + clip d 32 in
      let v = a * 2 ^ 24 + b * 2 ^ 16 + c * 2 ^ 8 + d in
      (u / 2 ^ 15 % 32 ≡ byte_of v 24)
      × (u / 2 ^ 10 % 32 ≡ byte_of v 16)
      × (u / 2 ^ 5 % 32 ≡ clip (byte_of v 8) 32)
      × (u % 32 ≡ clip (byte_of v 0) 32)
box_packed a b c d ha hb hc hd =
    let u = unit_fields a b (clip c 32) (clip d 32) ha hb (clip-lt c) (clip-lt d) in
    let v = emulator_fields a b c d ha hb hc hd in
    (u.0 ∙ v.0, u.1 ∙ v.1, u.2 ∙ ap (λ (n : ℕ). clip n 32) v.2, u.3 ∙ ap (λ (n : ℕ). clip n 32) v.3)
  where
    unit_fields :
        (a b c d : ℕ)
        → a < 32
        → b < 32
        → c < 32
        → d < 32
        → let u = a * 2 ^ 15 + b * 2 ^ 10 + c * 2 ^ 5 + d in
          (u / 2 ^ 15 % 32 ≡ a) × (u / 2 ^ 10 % 32 ≡ b) × (u / 2 ^ 5 % 32 ≡ c) × (u % 32 ≡ d)
    unit_fields a b c d ha hb hc hd = (omega arith, omega arith, omega arith, omega arith)

    emulator_fields :
        (a b c d : ℕ)
        → a < 32
        → b < 32
        → c < 256
        → d < 256
        → let v = a * 2 ^ 24 + b * 2 ^ 16 + c * 2 ^ 8 + d in
          (a ≡ byte_of v 24) × (b ≡ byte_of v 16) × (c ≡ byte_of v 8) × (d ≡ byte_of v 0)
    emulator_fields a b c d ha hb hc hd = (omega arith, omega arith, omega arith, omega arith)

min3-lt : (a b c n : ℕ) → a < n → min3 a b c < n
min3-lt a b c n h = ground arith

byte_of-lt : (v i : ℕ) → byte_of v i < 256
byte_of-lt v i = omega arith

pub bbox_start_lem :
    (t : Triangle)
    → Hw.bbox_start t
      ≡ max_y t * 2 ^ 15 + max_x t * 2 ^ 10 + clip (min_y t) 32 * 2 ^ 5 + clip (min_x t) 32
bbox_start_lem t = rw (
  max_start t.a.y t.b.y t.c.y,
  max_start t.a.x t.b.x t.c.x,
  min_start t.a.y t.b.y t.c.y,
  min_start t.a.x t.b.x t.c.x,
)

pub box_shown :
    (s : GpuState)
    → let t = vertices s in
      let u = Hw.bbox_start t in
      let v = max_y t * 2 ^ 24 + max_x t * 2 ^ 16 + min_y t * 2 ^ 8 + min_x t in
      (u / 2 ^ 15 % 32 ≡ byte_of v 24)
      × (u / 2 ^ 10 % 32 ≡ byte_of v 16)
      × (u / 2 ^ 5 % 32 ≡ clip (byte_of v 8) 32)
      × (u % 32 ≡ clip (byte_of v 0) 32)
unfolding unpack_xy
box_shown s =
    let t = vertices s in
    rw (bbox_start_lem t) (
      box_packed (max_y t) (max_x t) (min_y t) (min_x t) (clip-lt (max3 t.a.y t.b.y t.c.y))
        (clip-lt (max3 t.a.x t.b.x t.c.x)) (min3-lt t.a.y t.b.y t.c.y 256 (byte_of-lt s.vertex0 8))
        (min3-lt t.a.x t.b.x t.c.x 256 (byte_of-lt s.vertex0 0)))

pub packings_differ :
    (t : Triangle)
    → 0 < max_y t
    → Hw.bbox_start t ≢ max_y t * 2 ^ 24 + max_x t * 2 ^ 16 + min_y t * 2 ^ 8 + min_x t
packings_differ t low q =
    smaller (max_y t) (max_x t) (clip (min_y t) 32) (clip (min_x t) 32) _ _ low
      (clip-lt (max3 t.a.y t.b.y t.c.y)) (clip-lt (max3 t.a.x t.b.x t.c.x)) (clip-lt (min_y t))
      (clip-lt (min_x t)) (sym (bbox_start_lem t) ∙ q)
  where
    smaller :
        (a b c d m n : ℕ)
        → 0 < a
        → a < 32
        → b < 32
        → c < 32
        → d < 32
        → a * 2 ^ 15 + b * 2 ^ 10 + c * 2 ^ 5 + d ≢ a * 2 ^ 24 + b * 2 ^ 16 + m * 2 ^ 8 + n
    smaller a b c d m n low ha hb hc hd q = omega arith
