-- ===== src/Word/Laws.antt =====
-- Laws of the fixed-width integers.
use risc_v_computer_zybo.Base.{ℕ, ◌-◌, ◌^◌, ◌<◌, ◌≡◌, arith}
use risc_v_computer_zybo.Base.Int.{ℤ, pos, negsuc, ◌≤ℤ◌}
use risc_v_computer_zybo.Word.{word, signed32, unsigned32}

pub unsigned32-signed32 : (v : ℕ) → v < word → unsigned32 (signed32 v) ≡ v
unsigned32-signed32 v h = ground arith

pub unsigned32-lt : (z : ℤ) → unsigned32 z < word
unsigned32-lt (pos n) = omega arith
unsigned32-lt (negsuc n) = omega arith

pub signed32-unsigned32 :
    (z : ℤ) → negsuc (2 ^ 31 - 1) ≤ℤ z → z ≤ℤ pos (2 ^ 31 - 1) → signed32 (unsigned32 z) ≡ z
signed32-unsigned32 (pos n) lo hi = ground arith
signed32-unsigned32 (negsuc n) lo hi = ground arith
