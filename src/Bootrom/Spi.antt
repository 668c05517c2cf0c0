-- ===== src/Bootrom/Spi.antt =====
-- The SPI controller rtl/peripherals/spi_master_mmio.v by clock cycles, and the transfer of a byte in
-- firmware/bootrom/platform.h that drives it. `card` gives the level of `spi_miso` by the number of
-- bits that were clocked out before: the card shifts at the falling edge of `spi_sclk`.
-- A bus access takes effect once: rtl/soc/riscv_pc_soc.v holds `valid` back while `mem_ready` is set.
pub mod Shift
pub mod Transfer
use risc_v_computer_zybo.Base.{
  ℕ, zero, suc, ◌+◌, ◌-◌, ◌*◌, ◌/◌, ◌%◌, ◌^◌, Bool, true, false, not, ◌&&◌, Option, none, some, leb,
  ◌==◌, if◌then◌else◌,
}
use risc_v_computer_zybo.Word.{test_bit, set_bit}

pub record SpiMaster : Type 0 where
  pub clk_div : ℕ
  pub div_count : ℕ
  pub tx_data : ℕ
  pub rx_data : ℕ
  pub rx_shift : ℕ
  pub bit_index : ℕ
  pub busy : Bool
  pub done : Bool
  pub cs_hold_low : Bool
  pub half_phase : Bool
  pub spi_sclk : Bool
  pub spi_mosi : Bool

-- The registers after `!resetn`.
abbrev pub at_reset : SpiMaster
at_reset = record {
  clk_div = 250;
  div_count = 0;
  tx_data = 0xFF;
  rx_data = 0x00;
  rx_shift = 0x00;
  bit_index = 0;
  busy = false;
  done = false;
  cs_hold_low = false;
  half_phase = false;
  spi_sclk = false;
  spi_mosi = true;
}

-- `rx_shift[k] <= level`
abbrev pub put_bit : ℕ → ℕ → Bool → ℕ
put_bit v k level = if level then set_bit v k else if test_bit v k then v - 2 ^ k else v

-- The block `if (busy)` of a clock edge.
unfoldable pub shift : Bool → SpiMaster → SpiMaster
shift spi_miso s =
    if not s.busy
    then s
    else if not (leb s.clk_div s.div_count)
    then record s { div_count = s.div_count + 1 }
    else if not s.half_phase
    then record s {
      div_count = 0;
      half_phase = true;
      spi_sclk = true;
      rx_shift = put_bit s.rx_shift s.bit_index spi_miso;
    }
    else if s.bit_index == 0
    then record s {
      div_count = 0;
      half_phase = false;
      spi_sclk = false;
      busy = false;
      done = true;
      rx_data = s.rx_shift;
      spi_mosi = true;
    }
    else record s {
      div_count = 0;
      half_phase = false;
      spi_sclk = false;
      bit_index = s.bit_index - 1;
      spi_mosi = test_bit s.tx_data (s.bit_index - 1);
    }

-- The bytes that the firmware writes: SPI_CTRL8, the two bytes of the divider, and SPI_DATA8.
pub data Access : Type 0 where
  quiet : Access
  ctrl8 div_low div_high data8 : ℕ → Access

-- The block `if (valid)`: it reads the registers as they were before the edge, and its assignments
-- come after those of `shift`. A read changes no register but its own result.
unfoldable pub access : Access → SpiMaster → SpiMaster → SpiMaster
access quiet old s = s
access (div_low v) old s = record s { clk_div = old.clk_div / 2 ^ 8 * 2 ^ 8 + v % 256 }
access (div_high v) old s = record s { clk_div = v % 256 * 2 ^ 8 + old.clk_div % 256 }
access (data8 v) old s = record s { tx_data = v % 256 }
access (ctrl8 v) old s =
    let held = record s {
      cs_hold_low = test_bit v 1;
      done = if test_bit v 3 then false else s.done;
    } in
    if test_bit v 0 && not old.busy
    then record held {
      busy = true;
      done = false;
      bit_index = 7;
      half_phase = false;
      div_count = 0;
      spi_sclk = false;
      spi_mosi = test_bit old.tx_data 7;
      rx_shift = 0;
    }
    else held

-- The controller, and the number of bits that the card has shifted.
pub record Wire : Type 0 where
  pub spi : SpiMaster
  pub shifted : ℕ

module _ (card : ℕ → Bool) where
  -- A clock edge.
  unfoldable pub clock : Access → Wire → Wire
  clock a w =
      let spi = access a w.spi (shift (card w.shifted) w.spi) in
      record {
        spi = spi;
        shifted = if w.spi.spi_sclk && not spi.spi_sclk then w.shifted + 1 else w.shifted;
      }

  -- Cycles without a write.
  unfoldable pub cycles : ℕ → Wire → Wire
  cycles zero w = w
  cycles (suc n) w = cycles n (clock quiet w)

  -- `while (SPI_CTRL & (1u << 2))`, bit 2 being `busy`, on the rounds left; `gap` cycles lie between
  -- two reads, `none` where the rounds do not do.
  unfoldable pub wait_loop : ℕ → ℕ → Wire → Option Wire
  wait_loop zero gap w = none
  wait_loop (suc rounds) gap w = elim w.spi.busy [
    | true ↦ wait_loop rounds gap (cycles (gap + 1) w)
    | false ↦ some w
  ]

  abbrev pub spi_cs_assert : Wire → Wire
  spi_cs_assert = clock (ctrl8 0x0A)

  abbrev pub spi_cs_release : Wire → Wire
  spi_cs_release = clock (ctrl8 0x08)

  -- `spi_transfer_byte_hold`: the byte, and the controller after it. The writes follow one another
  -- at once: an idle controller stays as it is in the cycles between them.
  abbrev pub started : ℕ → Wire → Wire
  started tx w = clock (ctrl8 0x0B) (clock (data8 tx) w)

  unfoldable pub spi_transfer_byte_hold : ℕ → ℕ → ℕ → Wire → Option (ℕ × Wire)
  spi_transfer_byte_hold rounds gap tx w = elim (wait_loop rounds gap (started tx w)) [
    | none ↦ none
    | some w' ↦ some (w'.spi.rx_data, spi_cs_assert w')
  ]

  -- `spi_transfer_byte`
  unfoldable pub spi_transfer_byte : ℕ → ℕ → ℕ → Wire → Option (ℕ × Wire)
  spi_transfer_byte rounds gap tx w =
      elim (spi_transfer_byte_hold rounds gap tx (spi_cs_assert w)) [
        | none ↦ none
        | some r ↦ some (r.0, spi_cs_release r.1)
      ]

  -- `spi_set_divider`
  unfoldable pub spi_set_divider : ℕ → Wire → Wire
  spi_set_divider div w = clock (div_high (div / 2 ^ 8)) (clock (div_low (div % 2 ^ 8)) w)
