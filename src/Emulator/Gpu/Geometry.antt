-- ===== src/Emulator/Gpu/Geometry.antt =====
-- The edge functions of linux/uio/accel_mmio_demo.c at points beside the box of a triangle.
use risc_v_computer_zybo.Base.{ℕ, zero, suc, ◌+◌, ◌-◌, ◌*◌, ◌≡◌, ◌≤◌, ◌<◌, arith, false}
use risc_v_computer_zybo.Base.Int.{ℤ, pos_part, neg_part}
use risc_v_computer_zybo.Emulator.Gpu.EdgeFn.{scale, edge_fn-Diff}
use risc_v_computer_zybo.Emulator.Gpu.{Point, Triangle, edge_fn, is_inside, area2}

-- The three edge functions have these values, none of which is negative.
record Edges (t : Triangle) (p : Point) (e0 e1 e2 : ℕ) : Type 0 where
  pub ab :
      e0 + (t.b.x * t.a.y + t.a.x * p.y + t.b.y * p.x) ≡ t.b.x * p.y + t.b.y * t.a.x + t.a.y * p.x
  pub bc :
      e1 + (t.c.x * t.b.y + t.b.x * p.y + t.c.y * p.x) ≡ t.c.x * p.y + t.c.y * t.b.x + t.b.y * p.x
  pub ca :
      e2 + (t.a.x * t.c.y + t.c.x * p.y + t.a.y * p.x) ≡ t.a.x * p.y + t.a.y * t.c.x + t.c.y * p.x

-- The point is the mean of the vertices by these weights: in its columns, and in its rows.
moment_x :
    (t : Triangle) (p : Point) (e0 e1 e2 : ℕ)
    → Edges t p e0 e1 e2
    → t.c.x * e0 + t.a.x * e1 + t.b.x * e2 ≡ p.x * e0 + p.x * e1 + p.x * e2
moment_x t p e0 e1 e2 h = omega (
  arith,
  scale t.c.x _ _ h.ab,
  scale t.a.x _ _ h.bc,
  scale t.b.x _ _ h.ca,
  scale p.x _ _ h.ab,
  scale p.x _ _ h.bc,
  scale p.x _ _ h.ca,
)

moment_y :
    (t : Triangle) (p : Point) (e0 e1 e2 : ℕ)
    → Edges t p e0 e1 e2
    → t.c.y * e0 + t.a.y * e1 + t.b.y * e2 ≡ p.y * e0 + p.y * e1 + p.y * e2
moment_y t p e0 e1 e2 h = omega (
  arith,
  scale t.c.y _ _ h.ab,
  scale t.a.y _ _ h.bc,
  scale t.b.y _ _ h.ca,
  scale p.y _ _ h.ab,
  scale p.y _ _ h.bc,
  scale p.y _ _ h.ca,
)

more : (a b e : ℕ) → a < b → a * e + e ≤ b * e
more a b zero h = omega arith
more a b (suc e) h = omega (arith, more a b e h)

-- The point lies beside the box of the triangle.
pub data Beside (t : Triangle) (p : Point) : Type 0 where
  left_of : p.x < t.a.x → p.x < t.b.x → p.x < t.c.x → Beside t p
  right_of : t.a.x < p.x → t.b.x < p.x → t.c.x < p.x → Beside t p
  above : p.y < t.a.y → p.y < t.b.y → p.y < t.c.y → Beside t p
  below : t.a.y < p.y → t.b.y < p.y → t.c.y < p.y → Beside t p

-- So beside the box all three are 0.
flat :
    (t : Triangle) (p : Point) (e0 e1 e2 : ℕ) → Beside t p → Edges t p e0 e1 e2 → e0 + e1 + e2 ≡ 0
flat t p e0 e1 e2 (left_of a b c) h =
    omega (
      arith,
      moment_x t p e0 e1 e2 h,
      more p.x t.c.x e0 c,
      more p.x t.a.x e1 a,
      more p.x t.b.x e2 b,
    )
flat t p e0 e1 e2 (right_of a b c) h =
    omega (
      arith,
      moment_x t p e0 e1 e2 h,
      more t.c.x p.x e0 c,
      more t.a.x p.x e1 a,
      more t.b.x p.x e2 b,
    )
flat t p e0 e1 e2 (above a b c) h =
    omega (
      arith,
      moment_y t p e0 e1 e2 h,
      more p.y t.c.y e0 c,
      more p.y t.a.y e1 a,
      more p.y t.b.y e2 b,
    )
flat t p e0 e1 e2 (below a b c) h =
    omega (
      arith,
      moment_y t p e0 e1 e2 h,
      more t.c.y p.y e0 c,
      more t.a.y p.y e1 a,
      more t.b.y p.y e2 b,
    )

-- With rows and columns exchanged the edge functions change their sign.
abbrev mirrored : Point → Point
mirrored p = record { x = p.y; y = p.x }

abbrev mirror : Triangle → Triangle
mirror t = record { a = mirrored t.a; b = mirrored t.b; c = mirrored t.c }

mirror-Beside : (t : Triangle) (p : Point) → Beside t p → Beside (mirror t) (mirrored p)
mirror-Beside t p (left_of a b c) = above a b c
mirror-Beside t p (right_of a b c) = below a b c
mirror-Beside t p (above a b c) = left_of a b c
mirror-Beside t p (below a b c) = right_of a b c

-- The edge functions at a point.
abbrev side_ab : Triangle → Point → ℤ
side_ab t p = edge_fn t.a t.b p

abbrev side_bc : Triangle → Point → ℤ
side_bc t p = edge_fn t.b t.c p

abbrev side_ca : Triangle → Point → ℤ
side_ca t p = edge_fn t.c t.a p

module _ (t : Triangle) (p : Point) where
  positive-Edges :
      neg_part (side_ab t p) ≤ pos_part (side_ab t p)
      → neg_part (side_bc t p) ≤ pos_part (side_bc t p)
      → neg_part (side_ca t p) ≤ pos_part (side_ca t p)
      → Edges t p
          (pos_part (side_ab t p) - neg_part (side_ab t p))
          (pos_part (side_bc t p) - neg_part (side_bc t p))
          (pos_part (side_ca t p) - neg_part (side_ca t p))
  positive-Edges h0 h1 h2 = record {
    ab = ground (arith, edge_fn-Diff t.a t.b p);
    bc = ground (arith, edge_fn-Diff t.b t.c p);
    ca = ground (arith, edge_fn-Diff t.c t.a p);
  }

  negative-Edges :
      pos_part (side_ab t p) ≤ neg_part (side_ab t p)
      → pos_part (side_bc t p) ≤ neg_part (side_bc t p)
      → pos_part (side_ca t p) ≤ neg_part (side_ca t p)
      → Edges
          (mirror t)
          (mirrored p)
          (neg_part (side_ab t p) - pos_part (side_ab t p))
          (neg_part (side_bc t p) - pos_part (side_bc t p))
          (neg_part (side_ca t p) - pos_part (side_ca t p))
  negative-Edges h0 h1 h2 = record {
    ab = ground (arith, edge_fn-Diff t.a t.b p);
    bc = ground (arith, edge_fn-Diff t.b t.c p);
    ca = ground (arith, edge_fn-Diff t.c t.a p);
  }

  -- The area is the sum of the three.
  area_sides :
      pos_part (area2 t) + neg_part (side_ab t p) + neg_part (side_bc t p) + neg_part (side_ca t p)
      ≡ neg_part (area2 t)
        + pos_part (side_ab t p)
        + pos_part (side_bc t p)
        + pos_part (side_ca t p)
  area_sides = omega (
    arith,
    edge_fn-Diff t.a t.b t.c,
    edge_fn-Diff t.a t.b p,
    edge_fn-Diff t.b t.c p,
    edge_fn-Diff t.c t.a p,
  )

  area_positive :
      Beside t p
      → neg_part (side_ab t p) ≤ pos_part (side_ab t p)
      → neg_part (side_bc t p) ≤ pos_part (side_bc t p)
      → neg_part (side_ca t p) ≤ pos_part (side_ca t p)
      → pos_part (area2 t) ≤ neg_part (area2 t)
  area_positive b h0 h1 h2 = omega (arith, flat t p _ _ _ b (positive-Edges h0 h1 h2), area_sides)

  area_negative :
      Beside t p
      → pos_part (side_ab t p) ≤ neg_part (side_ab t p)
      → pos_part (side_bc t p) ≤ neg_part (side_bc t p)
      → pos_part (side_ca t p) ≤ neg_part (side_ca t p)
      → neg_part (area2 t) ≤ pos_part (area2 t)
  area_negative b h0 h1 h2 = omega (
    arith,
    flat (mirror t) (mirrored p) _ _ _ (mirror-Beside t p b) (negative-Edges h0 h1 h2),
    area_sides,
  )

-- A point beside the box of a triangle is not inside it.
pub is_inside-Beside : (t : Triangle) (p : Point) → Beside t p → is_inside t p ≡ false
unfolding is_inside
is_inside-Beside t p b = ground (arith, area_positive t p b, area_negative t p b)
