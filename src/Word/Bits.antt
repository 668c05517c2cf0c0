-- ===== src/Word/Bits.antt =====
-- Setting one bit of a word, at every position.
use native.Mathlib.Nat.{pow-succ', two-pow-succ, div-div-eq-div-mul}
use risc_v_computer_zybo.Base.{
  ℕ, zero, suc, ◌/◌, ◌%◌, ◌^◌, ◌<◌, ◌≡◌, ◌∙◌, sym, ap, arith, Bool, false, ◌||◌, ◌==◌,
}
use risc_v_computer_zybo.Word.{test_bit, set_bit}

div-pow-suc : (v j : ℕ) → v / 2 ^ suc j ≡ v / 2 / 2 ^ j
div-pow-suc v j = rw (pow-succ' 2 j) (sym (div-div-eq-div-mul v 2 (2 ^ j)))

test_bit-suc : (v j : ℕ) → test_bit v (suc j) ≡ test_bit (v / 2) j
test_bit-suc v j = ap (λ (q : ℕ). q % 2 == 1) (div-pow-suc v j)

set_bit-half : (v k : ℕ) → set_bit v (suc k) / 2 ≡ set_bit (v / 2) k
set_bit-half v k = rw (div-pow-suc v k) (ground (arith, two-pow-succ k))

set_bit-parity : (v k : ℕ) → set_bit v (suc k) % 2 ≡ v % 2
set_bit-parity v k = ground (arith, two-pow-succ k)

set_bit-zero : (v : ℕ) → (set_bit v 0 / 2 ≡ v / 2) × (set_bit v 0 % 2 ≡ 1)
set_bit-zero v = ground arith

test_bit-zero : (v : ℕ) → test_bit v 0 ≡ (v % 2 == 1)
test_bit-zero v = ground arith

-- A bit inside the width leaves the value inside it.
pub set_bit-lt : (n v k : ℕ) → v < 2 ^ n → k < n → set_bit v k < 2 ^ n
set_bit-lt zero v k h l = absurd (omega arith)
set_bit-lt (suc n) v zero h l = ground (arith, two-pow-succ n)
set_bit-lt (suc n) v (suc k) h l = ground (
  arith,
  two-pow-succ n,
  set_bit-half v k,
  set_bit-lt n (v / 2) k (omega (arith, two-pow-succ n)) (omega arith),
)

-- Bit `k` is set, and the others are as before.
pub test_bit-set_bit : (v k j : ℕ) → test_bit (set_bit v k) j ≡ (k == j || test_bit v j)
test_bit-set_bit v zero zero = ground (arith, set_bit-zero v)
test_bit-set_bit v zero (suc j) = rw other same
  where
    other : (0 == suc j) ≡ false
    other = ground arith

    same : test_bit (set_bit v 0) (suc j) ≡ test_bit v (suc j)
    same =
        test_bit-suc (set_bit v 0) j
        ∙ ap (λ (q : ℕ). test_bit q j) (set_bit-zero v).0
        ∙ sym (test_bit-suc v j)
test_bit-set_bit v (suc k) zero = rw other same
  where
    other : (suc k == 0) ≡ false
    other = ground arith

    same : test_bit (set_bit v (suc k)) 0 ≡ test_bit v 0
    same =
        test_bit-zero (set_bit v (suc k))
        ∙ ap (λ (q : ℕ). q == 1) (set_bit-parity v k)
        ∙ sym (test_bit-zero v)
test_bit-set_bit v (suc k) (suc j) = rw one_less (same (test_bit-set_bit (v / 2) k j))
  where
    one_less : (suc k == suc j) ≡ (k == j)
    one_less = ground arith

    same :
        test_bit (set_bit (v / 2) k) j ≡ (k == j || test_bit (v / 2) j)
        → test_bit (set_bit v (suc k)) (suc j) ≡ (k == j || test_bit v (suc j))
    same half =
        test_bit-suc (set_bit v (suc k)) j
        ∙ ap (λ (q : ℕ). test_bit q j) (set_bit-half v k)
        ∙ half
        ∙ ap (λ (q : Bool). k == j || q) (sym (test_bit-suc v j))
