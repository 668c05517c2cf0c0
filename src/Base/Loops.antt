-- ===== src/Base/Loops.antt =====
-- Counted loops, and loops of which a part does nothing.
use Prim.Native.Nat.{ℕ, zero, suc, ◌+◌, ◌-◌, ◌*◌, ◌≤◌, ◌<◌}
use mathlib.Core.Path.{◌≡◌, ◌∙◌, refl, ap}
use native.Mathlib.Omega.{arith}
use native.Mathlib.Decide.{dec_lt}

-- `for (k = first; ...; ++k)` with the rounds left.
unfoldable pub loop {ℓ} : {A : Type ℓ} → (ℕ → A → A) → ℕ → ℕ → A → A
loop f zero k a = a
loop f (suc rounds) k a = loop f rounds (k + 1) (f k a)

-- A range of a loop over the numbers below `limit`, by its first number and its size, outside of
-- which the body does nothing.
pub record Covers {ℓ} {A : Type ℓ} (f : ℕ → A → A) (limit first size : ℕ) : Type ℓ where
  pub before : (k : ℕ) (a : A) → k < first → k < limit → f k a ≡ a
  pub after : (k : ℕ) (a : A) → first + size ≤ k → k < limit → f k a ≡ a
  pub ends : 0 < size → first + size ≤ limit

module _ {ℓ} {A : Type ℓ} (f : ℕ → A → A) where
  loop-add : (m n k : ℕ) (a : A) → loop f (m + n) k a ≡ loop f n (k + m) (loop f m k a)
  unfolding loop
  loop-add zero n k a =
      ap (λ (j : ℕ). loop f j k a) (left n) ∙ ap (λ (j : ℕ). loop f n j a) (right k)
    where
      left : (j : ℕ) → zero + j ≡ j
      left j = omega arith

      right : (j : ℕ) → j ≡ j + zero
      right j = omega arith
  loop-add (suc m) n k a =
      ap (λ (j : ℕ). loop f j k a) (suc_add m n)
      ∙ loop-add m n (k + 1) (f k a)
      ∙ ap (λ (j : ℕ). loop f n j (loop f m (k + 1) (f k a))) (shift k m)
    where
      suc_add : (i j : ℕ) → suc i + j ≡ suc (i + j)
      suc_add i j = omega arith

      shift : (i j : ℕ) → i + 1 + j ≡ i + suc j
      shift i j = omega arith

  loop_idle :
      (n k : ℕ) (a : A) → ((j : ℕ) (b : A) → k ≤ j → j < k + n → f j b ≡ b) → loop f n k a ≡ a
  unfolding loop
  loop_idle zero k a h = refl
  loop_idle (suc n) k a h =
      ap (loop f n (k + 1)) (h k a (omega arith) (omega arith))
      ∙ loop_idle n (k + 1) a λ j b l g. h j b (omega arith) (omega arith)

  parts :
      (limit first size : ℕ)
      → first + size ≤ limit
      → limit ≡ first + (size + (limit - (first + size)))
  parts limit first size h = omega arith

  -- The rest of the loop can be left out.
  pub loop_covered :
      (limit first size : ℕ) (a : A)
      → Covers f limit first size
      → loop f limit 0 a ≡ loop f size first a
  unfolding loop
  loop_covered limit first zero a h = loop_idle limit 0 a λ k b l g. elim (dec_lt k first) [
    | yes below ↦ h.before k b below (omega arith)
    | no above ↦ h.after k b (omega arith) (omega arith)
  ]
  loop_covered limit first (suc size) a h =
      ap (λ (n : ℕ). loop f n 0 a) (parts limit first (suc size) (h.ends (omega arith)))
      ∙ loop-add first (suc size + rest) 0 a
      ∙ ap (loop f (suc size + rest) (0 + first)) (
          loop_idle first 0 a
            λ k b l g. h.before k b (omega arith) (omega (arith, h.ends (omega arith))))
      ∙ loop-add (suc size) rest (0 + first) a
      ∙ loop_idle rest (0 + first + suc size) _ (λ k b l g. h.after k b (omega arith) (omega arith))
      ∙ ap (λ (k : ℕ). loop f (suc size) k a) (zero_add first)
    where
      rest : ℕ
      rest = limit - (first + suc size)

      zero_add : (n : ℕ) → 0 + n ≡ n
      zero_add n = omega arith

pub loop-congr {ℓ} :
    {A : Type ℓ} (f g : ℕ → A → A) (n k : ℕ) (a : A)
    → ((j : ℕ) (b : A) → f j b ≡ g j b)
    → loop f n k a ≡ loop g n k a
unfolding loop
loop-congr f g zero k a h = refl
loop-congr f g (suc n) k a h = ap (loop f n (k + 1)) (h k a) ∙ loop-congr f g n (k + 1) (g k a) h

-- Two loops whose bodies keep a relation.
pub loop_related {ℓ ℓ'} :
    {A B : Type ℓ} (R : A → B → Type ℓ') (f : ℕ → A → A) (g : ℕ → B → B)
    → ((k : ℕ) (a : A) (b : B) → R a b → R (f k a) (g k b))
    → (n k : ℕ) (a : A) (b : B) → R a b
    → R (loop f n k a) (loop g n k b)
unfolding loop
loop_related R f g h zero k a b r = r
loop_related R f g h (suc n) k a b r = loop_related R f g h n (k + 1) (f k a) (g k b) (h k a b r)

-- A loop that adds at most `c` in a round.
pub loop_bound :
    (f : ℕ → ℕ → ℕ) (c : ℕ) → ((k m : ℕ) → f k m ≤ m + c) → (n k m : ℕ) → loop f n k m ≤ m + n * c
unfolding loop
loop_bound f c h zero k m = omega arith
loop_bound f c h (suc n) k m = omega (arith, loop_bound f c h n (k + 1) (f k m), h k m)
