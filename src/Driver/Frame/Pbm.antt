-- ===== src/Driver/Frame/Pbm.antt =====
-- The PBM text of `write_framebuffer_pbm` of linux/uio/accel_mmio_demo.c, read back by a reader of
-- the plain PBM format: white space between pixels is skipped, and a pixel is a letter 0 or 1.
use native.Mathlib.Nat.{pow-succ', div-div-eq-div-mul, mul_assoc, mul_comm}
use risc_v_computer_zybo.Base.{
  ℕ, zero, suc, ◌+◌, ◌*◌, ◌/◌, ◌%◌, ◌^◌, ◌<◌, ◌≡◌, refl, sym, ◌∙◌, ap, ap₂, arith, Bool, List, [],
  ◌∷◌, ◌++◌, Option, none, some, codes, if◌then◌else◌, ◌==◌,
}
use risc_v_computer_zybo.Word.{word, test_bit}
use risc_v_computer_zybo.Emulator.{fb_rows, fb_cols}
use risc_v_computer_zybo.Driver.Frame.{Rows, pbm_row, pbm_rows, pbm_text}

-- The pixels of a text.
unfoldable pub pixels : List ℕ → List ℕ
pixels [] = []
pixels (c ∷ s) =
    let rest = pixels s in if c == b'0' then 0 ∷ rest else if c == b'1' then 1 ∷ rest else rest

-- A row of `left` pixels, lowest bit first, and what follows it.
unfoldable pub take_row : ℕ → List ℕ → ℕ × List ℕ
take_row zero ps = (0, ps)
take_row (suc left) [] = (0, [])
take_row (suc left) (b ∷ ps) = let (v, rest) = take_row left ps in (b + 2 * v, rest)

unfoldable pub take_rows : ℕ → List ℕ → List ℕ
take_rows zero ps = []
take_rows (suc left) ps = let (v, rest) = take_row fb_cols ps in v ∷ take_rows left rest

unfoldable pub strip : List ℕ → List ℕ → Option (List ℕ)
strip [] s = some s
strip (c ∷ cs) [] = none
strip (c ∷ cs) (d ∷ s) = if c == d then strip cs s else none

-- The rows of a file of 32 rows of 32 pixels.
abbrev pub read_pbm : List ℕ → Option (List ℕ)
read_pbm s = elim (strip (codes "P1\n32 32\n") s) [
  | some body ↦ some (take_rows fb_rows (pixels body))
  | none ↦ none
]

abbrev pub bit : Bool → ℕ
bit b = if b then 1 else 0

abbrev bits : ℕ → ℕ → ℕ → List ℕ
bits zero x row = []
bits (suc left) x row = bit (test_bit row x) ∷ bits left (x + 1) row

all_bits : ℕ → ℕ → Rows → List ℕ
all_bits zero y rows = []
all_bits (suc left) y rows = bits fb_cols 0 (rows y) ++ all_bits left (y + 1) rows

pixels-pbm_row :
    (left x row : ℕ) (t : List ℕ) → pixels (pbm_row left x row ++ t) ≡ bits left x row ++ pixels t
unfolding pixels pbm_row
pixels-pbm_row zero x row t = refl
pixels-pbm_row (suc zero) x row t = ground arith
pixels-pbm_row (suc (suc left)) x row t = ground (arith, pixels-pbm_row (suc left) (x + 1) row t)

pixels-pbm_rows : (left y : ℕ) (rows : Rows) → pixels (pbm_rows left y rows) ≡ all_bits left y rows
unfolding pixels pbm_rows all_bits
pixels-pbm_rows zero y rows = refl
pixels-pbm_rows (suc left) y rows =
    pixels-pbm_row fb_cols 0 (rows y) (pbm_rows left (y + 1) rows)
    ∙ ap (λ t. bits fb_cols 0 (rows y) ++ t) (pixels-pbm_rows left (y + 1) rows)

take_row-rest : (left x row : ℕ) (t : List ℕ) → (take_row left (bits left x row ++ t)).1 ≡ t
unfolding take_row
take_row-rest zero x row t = refl
take_row-rest (suc left) x row t = take_row-rest left (x + 1) row t

add_one : (x : ℕ) → x + 1 ≡ suc x
add_one x = omega arith

add_zero : (x : ℕ) → x + 0 ≡ x
add_zero x = omega arith

add_succ_left : (x left : ℕ) → x + suc left ≡ x + 1 + left
add_succ_left x left = omega arith

half : (v j : ℕ) → v / 2 ^ (j + 1) ≡ v / 2 ^ j / 2
half v j = rw (add_one j, pow-succ' 2 j, mul_comm 2 (2 ^ j)) (sym (div-div-eq-div-mul v (2 ^ j) 2))

bit-test_bit : (v k : ℕ) → bit (test_bit v k) ≡ v / 2 ^ k % 2
bit-test_bit v k = ground arith

-- What was taken, with what lies above it.
take_row-value :
    (left x row : ℕ) (t : List ℕ)
    → (take_row left (bits left x row ++ t)).0 + 2 ^ left * (row / 2 ^ (x + left)) ≡ row / 2 ^ x
unfolding take_row
take_row-value zero x row t = rw (add_zero x) (omega arith)
take_row-value (suc left) x row t =
    omega (arith, take_row-value left (x + 1) row t, half row x, bit-test_bit row x, shift)
  where
    shift : 2 ^ suc left * (row / 2 ^ (x + suc left)) ≡ 2 * (2 ^ left * (row / 2 ^ (x + 1 + left)))
    shift = rw (add_succ_left x left, pow-succ' 2 left) (mul_assoc 2 (2 ^ left) _)

take_row-bits :
    (row : ℕ) (t : List ℕ) → row < word → take_row fb_cols (bits fb_cols 0 row ++ t) ≡ (row, t)
take_row-bits row t h =
    ap₂ (λ v r. (v, r)) (omega (arith, take_row-value fb_cols 0 row t))
      (take_row-rest fb_cols 0 row t)

-- The rows from `y` on.
abbrev pub row_list : ℕ → ℕ → Rows → List ℕ
row_list zero y rows = []
row_list (suc left) y rows = rows y ∷ row_list left (y + 1) rows

take_rows-all_bits :
    (left y : ℕ) (rows : Rows)
    → ((y : ℕ) → rows y < word)
    → take_rows left (all_bits left y rows) ≡ row_list left y rows
unfolding take_rows all_bits
take_rows-all_bits zero y rows h = refl
take_rows-all_bits (suc left) y rows h =
    rw
      (
        take_row-bits (rows y) (all_bits left (y + 1) rows) (h y),
        take_rows-all_bits left (y + 1) rows h,
      )
      refl

-- The file that is written for any 32 rows of 32 bits reads back as these rows.
pub read_pbm-pbm_text :
    (rows : Rows)
    → ((y : ℕ) → rows y < word)
    → read_pbm (pbm_text rows) ≡ some (row_list fb_rows 0 rows)
unfolding strip
read_pbm-pbm_text rows h =
    ap some (
      ap (take_rows fb_rows) (pixels-pbm_rows fb_rows 0 rows) ∙ take_rows-all_bits fb_rows 0 rows h)
