-- ===== src/Bootrom/Spi/Shift.antt =====
-- How many cycles the SPI controller takes for the bits of a byte, and what it receives in them.
use mathlib.Core.Path.{subst}
use native.Mathlib.Nat.{two-pow-succ, mul-div_cancel}
use risc_v_computer_zybo.Base.{
  ℕ, zero, suc, ◌+◌, ◌*◌, ◌/◌, ◌^◌, ◌≡◌, ◌∙◌, ◌≤◌, ◌<◌, refl, sym, ap, arith, Bool, true, false,
  if◌then◌else◌,
}
use risc_v_computer_zybo.Bootrom.Spi.{Wire, put_bit, shift, access, clock, quiet, cycles}

-- A bit below all that are set is appended.
put_bit_lem :
    (q k : ℕ) (b : Bool) → put_bit (q * 2 ^ suc k) k b ≡ (2 * q + (if b then 1 else 0)) * 2 ^ k
put_bit_lem q k b = ground (arith, expand q k, above_half q k, two_pow_pos k)
  where
    two_pow_pos : (k : ℕ) → 0 < 2 ^ k
    two_pow_pos zero = omega arith
    two_pow_pos (suc k) = omega (arith, two-pow-succ k, two_pow_pos k)

    expand : (q k : ℕ) → q * 2 ^ suc k ≡ 2 * q * 2 ^ k
    expand q k = rw two-pow-succ (nonlinear q (2 ^ k))
      where
        nonlinear : (q p : ℕ) → q * (p + p) ≡ 2 * q * p
        nonlinear q p = grind arith

    above_half : (q k : ℕ) → q * 2 ^ suc k / 2 ^ k ≡ 2 * q
    above_half q k = rw expand (mul-div_cancel (2 * q) (two_pow_pos k))

-- The number of `n` bits that the card shifts out from `at` on, the highest first, after `q`.
unfoldable pub bits_read : (ℕ → Bool) → ℕ → ℕ → ℕ → ℕ
bits_read card zero at q = q
bits_read card (suc n) at q = bits_read card n (at + 1) (2 * q + (if card at then 1 else 0))

-- The cycles of `n` bits.
unfoldable pub bit_cycles : ℕ → ℕ → ℕ
bit_cycles d zero = 0
bit_cycles d (suc n) = d + 1 + (d + 1 + bit_cycles d n)

zero_add : (n : ℕ) → zero + n ≡ n
zero_add n = omega arith

suc_add : (m n : ℕ) → suc m + n ≡ suc (m + n)
suc_add m n = omega arith

module _ (card : ℕ → Bool) where
  pub cycles-add : (m n : ℕ) (w : Wire) → cycles card (m + n) w ≡ cycles card n (cycles card m w)
  unfolding cycles
  cycles-add zero n w = ap (λ (k : ℕ). cycles card k w) (zero_add n)
  cycles-add (suc m) n w =
      ap (λ (k : ℕ). cycles card k w) (suc_add m n) ∙ cycles-add m n (clock card quiet w)

  -- An idle controller stays as it is.
  clock_idle : (w : Wire) → w.spi.busy ≡ false → clock card quiet w ≡ w
  unfolding clock access shift
  clock_idle w h = ground arith

  pub cycles_idle : (n : ℕ) (w : Wire) → w.spi.busy ≡ false → cycles card n w ≡ w
  unfolding cycles
  cycles_idle zero w h = refl
  cycles_idle (suc n) w h = ap (cycles card n) (clock_idle w h) ∙ cycles_idle n w h

  -- The divider counts.
  counted : Wire → ℕ → Wire
  counted w c = record w { spi = record (w.spi) { div_count = c } }

  clock_count :
      (w : Wire)
      → w.spi.busy ≡ true
      → w.spi.div_count < w.spi.clk_div
      → clock card quiet w ≡ counted w (w.spi.div_count + 1)
  unfolding clock access shift counted
  clock_count w b h = ground arith

  cycles_count :
      (k : ℕ) (w : Wire)
      → w.spi.busy ≡ true
      → w.spi.div_count + k ≤ w.spi.clk_div
      → cycles card k w ≡ counted w (w.spi.div_count + k)
  unfolding cycles counted
  cycles_count zero w b h = ap (counted w) (omega arith)
  cycles_count (suc k) w b h =
      ap (cycles card k) (clock_count w b (omega arith))
      ∙ cycles_count k (counted w (w.spi.div_count + 1)) b (omega arith)
      ∙ ap (counted w) (omega arith)

  -- The state before bit `k`, with the bits above it received as `q` and `at` bits shifted.
  pub record AtBit (d k q at : ℕ) (w : Wire) : Type 0 where
    pub busy : w.spi.busy ≡ true
    pub start : w.spi.div_count ≡ 0
    pub low : w.spi.half_phase ≡ false
    pub sclk : w.spi.spi_sclk ≡ false
    pub div : w.spi.clk_div ≡ d
    pub bit : w.spi.bit_index ≡ k
    pub value : w.spi.rx_shift ≡ q * 2 ^ suc k
    pub shifted : w.shifted ≡ at

  record Risen (d k q at : ℕ) (w : Wire) : Type 0 where
    busy : w.spi.busy ≡ true
    start : w.spi.div_count ≡ 0
    high : w.spi.half_phase ≡ true
    sclk : w.spi.spi_sclk ≡ true
    div : w.spi.clk_div ≡ d
    bit : w.spi.bit_index ≡ k
    value : w.spi.rx_shift ≡ q * 2 ^ k
    shifted : w.shifted ≡ at

  -- The byte `q` is received.
  pub record Idle (d q at : ℕ) (w : Wire) : Type 0 where
    pub busy : w.spi.busy ≡ false
    pub sclk : w.spi.spi_sclk ≡ false
    pub div : w.spi.clk_div ≡ d
    pub value : w.spi.rx_data ≡ q
    pub shifted : w.shifted ≡ at

  -- The edge at which the divider has counted to its end.
  half_cycles :
      (w : Wire)
      → w.spi.busy ≡ true
      → w.spi.div_count ≡ 0
      → cycles card (w.spi.clk_div + 1) w ≡ clock card quiet (counted w w.spi.clk_div)
  unfolding cycles
  half_cycles w b z =
      cycles-add w.spi.clk_div 1 w
      ∙ ap (λ (v : Wire). clock card quiet v)
          (cycles_count w.spi.clk_div w b (omega arith) ∙ ap (counted w) (omega arith))

  rise :
      (d k q at : ℕ) (w : Wire)
      → AtBit d k q at w
      → Risen d k
          (2 * q + (if card at then 1 else 0))
          at
          (clock card quiet (counted w w.spi.clk_div))
  unfolding clock access shift counted
  rise d k q at w a = ground (arith, put_bit_lem q k (card at))

  fall :
      (d k q at : ℕ) (w : Wire)
      → Risen d (suc k) q at w
      → AtBit d k q (at + 1) (clock card quiet (counted w w.spi.clk_div))
  unfolding clock access shift counted
  fall d k q at w a = ground arith

  last_fall :
      (d q at : ℕ) (w : Wire)
      → Risen d 0 q at w
      → Idle d q (at + 1) (clock card quiet (counted w w.spi.clk_div))
  unfolding clock access shift counted
  last_fall d q at w a = ground arith

  -- From the start of a half of the clock of `spi_sclk` to its end.
  after_half :
      (P : Wire → Type 0) (d : ℕ) (w : Wire)
      → w.spi.busy ≡ true
      → w.spi.div_count ≡ 0
      → w.spi.clk_div ≡ d
      → P (clock card quiet (counted w w.spi.clk_div))
      → P (cycles card (d + 1) w)
  after_half P d w b z e =
      subst P (sym (half_cycles w b z) ∙ ap (λ (n : ℕ). cycles card (n + 1) w) e)

  cycles_bit :
      (d n : ℕ) (w : Wire)
      → cycles card (bit_cycles d (suc n)) w
        ≡ cycles card (bit_cycles d n) (cycles card (d + 1) (cycles card (d + 1) w))
  unfolding bit_cycles
  cycles_bit d n w =
      cycles-add (d + 1) (d + 1 + bit_cycles d n) w
      ∙ cycles-add (d + 1) (bit_cycles d n) (cycles card (d + 1) w)

  Idle-shifted : (d q m n : ℕ) (w : Wire) → m ≡ n → Idle d q m w → Idle d q n w
  Idle-shifted d q m n w e i = ground arith

  -- The bits from `k` down are received in that time.
  pub bits_received :
      (d k q at : ℕ) (w : Wire)
      → AtBit d k q at w
      → Idle d (bits_read card (suc k) at q) (at + suc k) (cycles card (bit_cycles d (suc k)) w)
  unfolding bits_read cycles bit_cycles
  bits_received d zero q at w a =
      let risen = after_half (Risen d 0 _ at) d w a.busy a.start a.div (rise d 0 q at w a) in
      subst (Idle d _ (at + 1)) (sym (cycles_bit d 0 w)) (
        after_half (Idle d _ (at + 1)) d _ risen.busy risen.start risen.div
          (last_fall d _ at _ risen))
  bits_received d (suc k) q at w a =
      let risen =
        after_half (Risen d (suc k) _ at) d w a.busy a.start a.div (rise d (suc k) q at w a) in
      let next =
        after_half (AtBit d k _ (at + 1)) d _ risen.busy risen.start risen.div
          (fall d k _ at _ risen) in
      subst (Idle d _ (at + suc (suc k))) (sym (cycles_bit d (suc k) w)) (
        Idle-shifted d _ (at + 1 + suc k) (at + suc (suc k)) _ (omega arith)
          (bits_received d k _ (at + 1) _ next))
