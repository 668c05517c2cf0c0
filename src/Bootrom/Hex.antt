-- ===== src/Bootrom/Hex.antt =====
-- `uart_put_hex32` of firmware/bootrom/bootrom.c.
use risc_v_computer_zybo.Base.{
  ℕ, zero, suc, ◌+◌, ◌-◌, ◌*◌, ◌/◌, ◌%◌, ◌^◌, ◌<◌, ◌≡◌, refl, arith, List, [], ◌∷◌, ◌++◌,
  append-nil, append_assoc, length, if◌then◌else◌, ltb,
}
use risc_v_computer_zybo.Word.{word}
use risc_v_computer_zybo.Bootrom.{Machine, uart_putc}

-- The letter of a nibble.
unfoldable pub hex_digit : ℕ → ℕ
hex_digit nibble = if ltb nibble 10 then 0x30 + nibble else 0x41 + (nibble - 10)

-- `for (shift = ...; shift >= 0; shift -= 4)`, with the rounds left: the shift of the last is 0.
unfoldable pub put_nibbles : ℕ → ℕ → Machine → Machine
put_nibbles zero value m = m
put_nibbles (suc rounds) value m =
    put_nibbles rounds value (uart_putc (hex_digit (value / 2 ^ (4 * rounds) % 16)) m)

unfoldable pub uart_put_hex32 : ℕ → Machine → Machine
unfolding put_nibbles
uart_put_hex32 value m = put_nibbles 8 value m

-- The value of a letter, and of a text of them, most significant first.
abbrev pub digit_value : ℕ → ℕ
digit_value ch = if ltb ch 0x3a then ch - 0x30 else ch - 0x41 + 10

unfoldable pub hex_value : ℕ → List ℕ → ℕ
hex_value v [] = v
hex_value v (ch ∷ s) = hex_value (v * 16 + digit_value ch) s

-- The text that is sent.
unfoldable pub hex_text : ℕ → ℕ → List ℕ
hex_text zero value = []
hex_text (suc rounds) value = hex_digit (value / 2 ^ (4 * rounds) % 16) ∷ hex_text rounds value

hex_digit_lem :
    (nibble : ℕ)
    → (hex_digit (nibble % 16) % 256 ≡ hex_digit (nibble % 16))
      × (digit_value (hex_digit (nibble % 16)) ≡ nibble % 16)
unfolding hex_digit
hex_digit_lem nibble = ground arith

put_nibbles-hex_text :
    (rounds value : ℕ) (m : Machine)
    → put_nibbles rounds value m ≡ record m { uart = m.uart ++ hex_text rounds value }
unfolding put_nibbles hex_text
put_nibbles-hex_text zero value m = rw append-nil refl
put_nibbles-hex_text (suc rounds) value m =
    let digit : ℕ = hex_digit (value / 2 ^ (4 * rounds) % 16) in
    rw
      (
        put_nibbles-hex_text rounds value (uart_putc digit m),
        append_assoc,
        (hex_digit_lem (value / 2 ^ (4 * rounds))).0,
      )
      refl

-- `uart_put_hex32` sends eight letters after what was sent before, whose value is the word, and
-- changes nothing else.
pub uart_put_hex32_lem :
    (value : ℕ) (m : Machine)
    → value < word
    → (s : List ℕ) × (uart_put_hex32 value m ≡ record m { uart = m.uart ++ s })
      × (length s ≡ 8)
      × (hex_value 0 s ≡ value)
unfolding uart_put_hex32 hex_text hex_value
uart_put_hex32_lem value m small = (
  hex_text 8 value,
  put_nibbles-hex_text 8 value m,
  refl,
  omega (
    arith,
    (hex_digit_lem (value / 2 ^ 28)).1,
    (hex_digit_lem (value / 2 ^ 24)).1,
    (hex_digit_lem (value / 2 ^ 20)).1,
    (hex_digit_lem (value / 2 ^ 16)).1,
    (hex_digit_lem (value / 2 ^ 12)).1,
    (hex_digit_lem (value / 2 ^ 8)).1,
    (hex_digit_lem (value / 2 ^ 4)).1,
    (hex_digit_lem (value / 2 ^ 0)).1,
  ),
)
