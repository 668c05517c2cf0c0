-- ===== src/Emulator/Gpu/EdgeFn.antt =====
-- `edge_fn` of linux/uio/accel_mmio_demo.c as a polynomial, and its range.
use risc_v_computer_zybo.Base.{ℕ, zero, suc, ◌+◌, ◌*◌, ◌≡◌, ◌≤◌, ◌<◌, ap, arith}
use risc_v_computer_zybo.Base.Int.{ℤ, pos, pos_part, neg_part, ◌-ℤ◌, ◌*ℤ◌, -ℤ_parts}
use risc_v_computer_zybo.Word.{IsInt32}
use risc_v_computer_zybo.Emulator.Gpu.{Point, edge_fn}

-- `z` is `a - b`.
abbrev pub Diff : ℤ → ℕ → ℕ → Type 0
Diff z a b = pos_part z + b ≡ neg_part z + a

sub-Diff : (y z : ℤ) (a b c d : ℕ) → Diff y a b → Diff z c d → Diff (y -ℤ z) (a + d) (b + c)
sub-Diff y z a b c d h k = omega (arith, -ℤ_parts y z)

mul_parts :
    (y z : ℤ)
    → Diff
        (y *ℤ z)
        (pos_part y * pos_part z + neg_part y * neg_part z)
        (pos_part y * neg_part z + neg_part y * pos_part z)
unfolding ◌*ℤ◌
mul_parts y z = ground arith

pub scale : (k a b : ℕ) → a ≡ b → k * a ≡ k * b
scale k a b h = ap (λ (n : ℕ). k * n) h

cross :
    (p n x y q m u v : ℕ)
    → p + y ≡ n + x
    → q + v ≡ m + u
    → p * q + n * m + (x * v + y * u) ≡ p * m + n * q + (x * u + y * v)
cross p n x y q m u v h k =
    omega (arith, scale q _ _ h, scale m _ _ h, scale x _ _ k, scale y _ _ k)

mul-Diff :
    (y z : ℤ) (a b c d : ℕ)
    → Diff y a b
    → Diff z c d
    → Diff (y *ℤ z) (a * c + b * d) (a * d + b * c)
mul-Diff y z a b c d h k =
    omega
      (arith, mul_parts y z, cross (pos_part y) (neg_part y) a b (pos_part z) (neg_part z) c d h k)

-- `edge_fn` as a difference of polynomials.
pub edge_fn-Diff :
    (a b p : Point)
    → Diff (edge_fn a b p) (b.x * p.y + b.y * a.x + a.y * p.x) (b.x * a.y + a.x * p.y + b.y * p.x)
unfolding edge_fn
edge_fn-Diff a b p = omega (
  arith,
  sub-Diff _ _ _ _ _ _ (mul-Diff _ _ b.x a.x p.y a.y (side b.x a.x) (side p.y a.y))
      (mul-Diff _ _ b.y a.y p.x a.x (side b.y a.y) (side p.x a.x)),
)
  where
    side : (m n : ℕ) → Diff (pos m -ℤ pos n) m n
    side m n = omega (arith, -ℤ_parts (pos m) (pos n))

mul-le : (a b m n : ℕ) → a ≤ m → b ≤ n → a * b ≤ m * n
mul-le a b m n h k = omega (arith, at_most a m b h, at_most b n m k)
  where
    at_most : (a m k : ℕ) → a ≤ m → a * k ≤ m * k
    at_most a m zero h = omega arith
    at_most a m (suc k) h = omega (arith, at_most a m k h)

-- The coordinates of a vertex register are bytes.
pub record BytePoint (p : Point) : Type 0 where
  pub x_byte : p.x < 256
  pub y_byte : p.y < 256

-- Of such points the `int32_t` of `edge_fn` does not overflow.
pub edge_fn-IsInt32 :
    (a b p : Point) → BytePoint a → BytePoint b → BytePoint p → IsInt32 (edge_fn a b p)
edge_fn-IsInt32 a b p ha hb hp = record {
  low = omega (
    arith,
    edge_fn-Diff a b p,
    byte_mul b.x a.y hb.x_byte ha.y_byte,
    byte_mul a.x p.y ha.x_byte hp.y_byte,
    byte_mul b.y p.x hb.y_byte hp.x_byte,
    byte_mul b.x p.y hb.x_byte hp.y_byte,
    byte_mul b.y a.x hb.y_byte ha.x_byte,
    byte_mul a.y p.x ha.y_byte hp.x_byte,
  );
  high = omega (
    arith,
    edge_fn-Diff a b p,
    byte_mul b.x a.y hb.x_byte ha.y_byte,
    byte_mul a.x p.y ha.x_byte hp.y_byte,
    byte_mul b.y p.x hb.y_byte hp.x_byte,
    byte_mul b.x p.y hb.x_byte hp.y_byte,
    byte_mul b.y a.x hb.y_byte ha.x_byte,
    byte_mul a.y p.x ha.y_byte hp.x_byte,
  );
}
  where
    byte_mul : (a b : ℕ) → a < 256 → b < 256 → a * b ≤ 255 * 255
    byte_mul a b h k = mul-le a b 255 255 (omega arith) (omega arith)
