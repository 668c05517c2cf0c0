-- ===== src/Bootrom/Spi/Transfer.antt =====
-- The transfer of a byte over SPI: `spi_transfer_byte` of firmware/bootrom/platform.h on the controller,
-- and the machine of the boot firmware, which knows transfers and not cycles.
use risc_v_computer_zybo.Base.{
  ℕ, zero, suc, ◌+◌, ◌-◌, ◌*◌, ◌%◌, ◌^◌, ◌≡◌, ◌∙◌, ◌<◌, refl, sym, ap, arith, Bool, true, false,
  Bool-cases, inl, inr, Option, none, some,
}
use risc_v_computer_zybo.Word.{test_bit}
use risc_v_computer_zybo.Bootrom.Spi.{
  Wire, shift, access, clock, cycles, wait_loop, ctrl8, spi_cs_assert, spi_cs_release, data8,
  started, spi_transfer_byte, spi_transfer_byte_hold, spi_set_divider,
}
use risc_v_computer_zybo.Bootrom.{Machine, transfer_byte}
use risc_v_computer_zybo.Bootrom.Spi.Shift.{
  bits_read, AtBit, Idle, bit_cycles, cycles-add, cycles_idle, bits_received,
}

bits_read-lt : (card : ℕ → Bool) (at : ℕ) → bits_read card 8 at 0 < 256
unfolding bits_read
bits_read-lt card at = ground arith

module _ (card : ℕ → Bool) where
  -- Where the controller is idle after `n` cycles, it is in that state from then on.
  cycles_later :
      (m n : ℕ) (w : Wire)
      → (cycles card n w).spi.busy ≡ false
      → cycles card (n - m) (cycles card m w) ≡ cycles card n w
  cycles_later m n w h =
      sym (cycles-add card m (n - m) w)
      ∙ ap (λ (k : ℕ). cycles card k w) (the_longer m n)
      ∙ cycles-add card n (m - n) w
      ∙ cycles_idle card (m - n) (cycles card n w) h
    where
      the_longer : (m n : ℕ) → m + (n - m) ≡ n + (m - n)
      the_longer m n = omega arith

  wait_loop_idle :
      (rounds gap : ℕ) (w : Wire) → w.spi.busy ≡ false → wait_loop card (suc rounds) gap w ≡ some w
  unfolding wait_loop
  wait_loop_idle rounds gap w h = ground arith

  wait_loop_busy :
      (rounds gap : ℕ) (w : Wire)
      → w.spi.busy ≡ true
      → wait_loop card (suc rounds) gap w ≡ wait_loop card rounds gap (cycles card (gap + 1) w)
  unfolding wait_loop
  wait_loop_busy rounds gap w h = ground arith

  -- The wait ends in that state.
  wait_loop-cycles :
      (rounds gap n : ℕ) (w : Wire)
      → (cycles card n w).spi.busy ≡ false
      → n < rounds
      → wait_loop card rounds gap w ≡ some (cycles card n w)
  unfolding wait_loop cycles
  wait_loop-cycles zero gap n w h l = absurd (omega arith)
  wait_loop-cycles (suc rounds) gap zero w h l = wait_loop_idle rounds gap w h
  wait_loop-cycles (suc rounds) gap (suc n) w h l = elim (Bool-cases w.spi.busy) [
    | inl busy ↦
        wait_loop_busy rounds gap w busy
        ∙ wait_loop-cycles rounds gap (suc n - (gap + 1)) (cycles card (gap + 1) w)
            (ap (λ (v : Wire). v.spi.busy) (cycles_later (gap + 1) (suc n) w h) ∙ h) (omega arith)
        ∙ ap some (cycles_later (gap + 1) (suc n) w h)
    | inr idle ↦ wait_loop_idle rounds gap w idle ∙ ap some (sym (cycles_idle card (suc n) w idle))
  ]

  -- What a transfer returns.
  abbrev pub Gives : (ℕ × Wire → Type 0) → Option (ℕ × Wire) → Type 0
  Gives P none = ⊥
  Gives P (some r) = P r

  Gives-mono :
      (P Q : ℕ × Wire → Type 0) (o : Option (ℕ × Wire))
      → ((r : ℕ × Wire) → P r → Q r)
      → Gives P o
      → Gives Q o
  Gives-mono P Q (some r) k h = k r h
  Gives-mono P Q none k h = absurd h

  -- A write that does not start a transfer.
  ctrl8-Idle :
      (v d q at : ℕ) (w : Wire)
      → test_bit v 0 ≡ false
      → Idle card d q at w
      → Idle card d q at (clock card (ctrl8 v) w)
        × ((clock card (ctrl8 v) w).spi.cs_hold_low ≡ test_bit v 1)
  unfolding clock access shift
  ctrl8-Idle v d q at w h i = ground arith

  data8-Idle :
      (v d q at : ℕ) (w : Wire) → Idle card d q at w → Idle card d q at (clock card (data8 v) w)
  unfolding clock access shift
  data8-Idle v d q at w i = ground arith

  start-AtBit :
      (d q at : ℕ) (w : Wire) → Idle card d q at w → AtBit card d 7 0 at (clock card (ctrl8 0x0B) w)
  unfolding clock access shift
  start-AtBit d q at w i = ground arith

  bit_cycles-eight : (d : ℕ) → bit_cycles d 8 ≡ 16 * (d + 1)
  unfolding bit_cycles
  bit_cycles-eight d = omega arith

  -- What a transfer of a byte leaves: the byte, the controller idle, its select line released.
  pub record Transferred (d at : ℕ) (r : ℕ × Wire) : Type 0 where
    pub byte : r.0 ≡ bits_read card 8 at 0
    pub idle : Idle card d (bits_read card 8 at 0) (at + 8) r.1
    pub released : r.1.spi.cs_hold_low ≡ false

  -- `spi_set_divider` of a uint16_t.
  pub spi_set_divider-Idle :
      (div d q at : ℕ) (w : Wire)
      → div < 2 ^ 16
      → Idle card d q at w
      → Idle card div q at (spi_set_divider card div w)
  unfolding spi_set_divider clock access shift
  spi_set_divider-Idle div d q at w h i = ground arith

  -- From an idle controller whose divider is `d`, with more than `16 * (d + 1)` reads of its wait
  -- loop and any number of cycles between two reads, `spi_transfer_byte` returns; it gives the next
  -- eight bits of the card, the highest first, and leaves the controller idle, the select line
  -- released, and the divider as it was.
  pub spi_transfer_byte-Transferred :
      (rounds gap tx d q at : ℕ) (w : Wire)
      → Idle card d q at w
      → 16 * (d + 1) < rounds
      → Gives (Transferred d at) (spi_transfer_byte card rounds gap tx w)
  unfolding spi_transfer_byte spi_transfer_byte_hold
  spi_transfer_byte-Transferred rounds gap tx d q at w i l =
      rw
        (
          wait_loop-cycles rounds gap (bit_cycles d 8) (started card tx (spi_cs_assert card w))
              received.busy (omega (arith, bit_cycles-eight d)),
          spi_transfer_byte,
          spi_transfer_byte_hold,
          Gives,
        )
        (record { byte = received.value; idle = after.0; released = after.1 })
    where
      received :
          Idle card d
            (bits_read card 8 at 0)
            (at + 8)
            (cycles card (bit_cycles d 8) (started card tx (spi_cs_assert card w)))
      received =
          bits_received card d 7 0 at _
            (start-AtBit d q at _ (data8-Idle tx d q at _ (ctrl8-Idle 0x0A d q at w refl i).0))

      waited : Wire
      waited = cycles card (bit_cycles d 8) (started card tx (spi_cs_assert card w))

      after :
          Idle card d
            (bits_read card 8 at 0)
            (at + 8)
            (spi_cs_release card (spi_cs_assert card waited))
          × ((spi_cs_release card (spi_cs_assert card waited)).spi.cs_hold_low ≡ false)
      after = ctrl8-Idle 0x08 d _ (at + 8) _ refl (ctrl8-Idle 0x0A d _ (at + 8) _ refl received).0

  -- The controller stands for the machine's: what the card sends, and how much of it was taken.
  pub record Represents (m : Machine) (w : Wire) : Type 0 where
    pub sends : (n : ℕ) → m.card n ≡ bits_read card 8 (8 * n) 0
    pub last : ℕ
    pub idle : Idle card m.spi_divider last (8 * m.transfers) w

  -- Where the controller is idle with the machine's divider `d` and the card sends the machine's bytes,
  -- `spi_transfer_byte` on the clocked controller returns, within more than `16 * (d + 1)` reads of
  -- its wait loop and with any number of cycles between two reads; it gives the byte that the
  -- machine's transfer gives, and leaves the controller standing for the machine after it.
  pub transfer_byte_refines :
      (rounds gap tx : ℕ) (m : Machine) (w : Wire)
      → Represents m w
      → 16 * (m.spi_divider + 1) < rounds
      → Gives
          (λ r. (r.0 ≡ (transfer_byte m).0) × Represents (transfer_byte m).1 r.1)
          (spi_transfer_byte card rounds gap tx w)
  transfer_byte_refines rounds gap tx m w r l =
      Gives-mono _ _ (spi_transfer_byte card rounds gap tx w)
        (λ b t. (t.byte ∙ same, record { sends = r.sends; last = _; idle = moved b.1 t.idle }))
        (spi_transfer_byte-Transferred rounds gap tx m.spi_divider r.last (8 * m.transfers) w r.idle
          l)
    where
      same : bits_read card 8 (8 * m.transfers) 0 ≡ m.card m.transfers % 256
      same = ground (arith, r.sends m.transfers, bits_read-lt card (8 * m.transfers))

      moved :
          (v : Wire)
          → Idle card m.spi_divider (bits_read card 8 (8 * m.transfers) 0) (8 * m.transfers + 8) v
          → Idle card m.spi_divider (bits_read card 8 (8 * m.transfers) 0) (8 * (m.transfers + 1)) v
      moved v i = ground arith
