-- ===== src/Bootrom/Loader/Copy.antt =====
-- The copy loop and the checksum of `retry_sd_boot` (firmware/bootrom/bootrom.c).
use risc_v_computer_zybo.Base.{ℕ, zero, suc, ◌+◌, ◌*◌, ◌%◌, ◌^◌, ◌≤◌, ◌<◌, ◌≡◌, ◌⊎◌, refl, arith}
use mathlib.Core.Path.{subst}
use risc_v_computer_zybo.Word.{word}
use risc_v_computer_zybo.Bootrom.{Machine}
use risc_v_computer_zybo.Bootrom.Loader.{Header, CopyState, copy_byte, copy_loop, copy_image}

-- The bytes that the card sends next.
abbrev pub coming : Machine → ℕ → ℕ
coming m i = m.card (m.transfers + i) % 256

-- The first `k` bytes, each by its weight in a little-endian word.
unfoldable pub weighted : (ℕ → ℕ) → ℕ → ℕ
weighted b zero = 0
weighted b (suc k) = weighted b k + b k * 2 ^ (k % 4 * 8)

weighted-next : (b : ℕ → ℕ) (k : ℕ) → weighted b (k + 1) ≡ weighted b k + b k * 2 ^ (k % 4 * 8)
unfolding weighted
weighted-next b k = rw next
  where
    next : k + 1 ≡ suc k
    next = omega arith

-- A copy of `i` bytes to `load_addr`, from the machine `m` on.
pub record Copied (load_addr : ℕ) (m : Machine) (i : ℕ) (m' : Machine) : Type 0 where
  pub card : m'.card ≡ m.card
  pub transfers : m'.transfers ≡ m.transfers + i
  pub bss : m'.bss ≡ m.bss
  pub image : (j : ℕ) → j < i → m'.sram (load_addr + j) ≡ coming m j
  pub outside : (a : ℕ) → (a < load_addr) ⊎ (load_addr + i ≤ a) → m'.sram a ≡ m.sram a

-- The two sums after `i` bytes.
record Summed (b : ℕ → ℕ) (i : ℕ) (c : CopyState) : Type 0 where
  total : (c.checksum + c.checksum_word) % word ≡ weighted b i % word
  word_start : i % 4 ≡ 0 → c.checksum_word ≡ 0
  checksum_word32 : c.checksum < word

module _ (load_addr : ℕ) (m : Machine) where
  copy_byte-Copied :
      (i : ℕ) (c : CopyState)
      → Copied load_addr m i c.machine
      → Copied load_addr m (i + 1) (copy_byte load_addr i c).machine
  copy_byte-Copied i c h = record {
    card = ground (arith, h.card);
    transfers = ground (arith, h.transfers);
    bss = ground (arith, h.bss);
    image = λ j q. ground (arith, h.image j, h.card, h.transfers);
    outside = λ a q. ground (arith, h.outside a);
  }

  copy_byte-Summed :
      (i : ℕ) (c : CopyState)
      → Copied load_addr m i c.machine
      → Summed (coming m) i c
      → Summed (coming m) (i + 1) (copy_byte load_addr i c)
  copy_byte-Summed i c h s = record {
    total = ground (arith, s.total, weighted-next (coming m) i, same);
    word_start = λ q. ground arith;
    checksum_word32 = ground (arith, s.checksum_word32);
  }
    where
      same : c.machine.card c.machine.transfers % 256 ≡ coming m i
      same = rw (h.card, h.transfers)

  copy_loop-Copied :
      (rounds i : ℕ) (c : CopyState)
      → Copied load_addr m i c.machine
      → Summed (coming m) i c
      → Copied load_addr m (i + rounds) (copy_loop rounds load_addr i c).machine
        × Summed (coming m) (i + rounds) (copy_loop rounds load_addr i c)
  unfolding copy_loop
  copy_loop-Copied zero i c h s = rw none_left (h, s)
    where
      none_left : i + 0 ≡ i
      none_left = omega arith
  copy_loop-Copied (suc rounds) i c h s = rw (add-suc) (
      copy_loop-Copied rounds (i + 1) (copy_byte load_addr i c) (copy_byte-Copied i c h)
        (copy_byte-Summed i c h s))
    where
      add-suc : i + suc rounds ≡ i + 1 + rounds
      add-suc = omega arith

abbrev from_start : Machine → CopyState
from_start m = record { checksum = 0; checksum_word = 0; machine = m }

loop_from_start :
    (h : Header) (m : Machine)
    → Copied h.load_addr m h.size_bytes
        (copy_loop h.size_bytes h.load_addr 0 (from_start m)).machine
      × Summed (coming m) h.size_bytes (copy_loop h.size_bytes h.load_addr 0 (from_start m))
unfolding weighted
loop_from_start h m =
    subst (λ k. Copied h.load_addr m k c.machine × Summed (coming m) k c) zero_add
      (copy_loop-Copied h.load_addr m h.size_bytes 0 (from_start m)
        (record {
          card = refl;
          transfers = omega arith;
          bss = refl;
          image = λ j q. absurd (omega arith);
          outside = λ a q. refl;
        })
        (record { total = refl; word_start = λ q. refl; checksum_word32 = omega arith }))
  where
    c : CopyState
    c = copy_loop h.size_bytes h.load_addr 0 (from_start m)

    zero_add : 0 + h.size_bytes ≡ h.size_bytes
    zero_add = omega arith

-- `copy_image`: the machine has the image in its memory, and the checksum is the sum of its words.
pub copy_image_lem :
    (h : Header) (m : Machine)
    → Copied h.load_addr m h.size_bytes (copy_image h m).1
      × ((copy_image h m).0 ≡ weighted (coming m) h.size_bytes % word)
unfolding copy_image
copy_image_lem h m =
    let q = loop_from_start h m in
    (q.0, ground (arith, q.1.total, q.1.word_start, q.1.checksum_word32))
