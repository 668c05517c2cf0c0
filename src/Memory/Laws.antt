-- ===== src/Memory/Laws.antt =====
-- A word or descriptor that was stored is read back, and disjoint stores do not meet.
use risc_v_computer_zybo.Base.{ℕ, ◌+◌, ◌≤◌, ◌<◌, ◌≡◌, ◌⊎◌, inl, inr, arith}
use risc_v_computer_zybo.Word.{word}
use risc_v_computer_zybo.Memory.{
  Mem, load32, store32, clear, Desc, load_desc, store_desc, IsDesc, desc_bytes,
}

pub load32-store32_self : (m : Mem) (p v : ℕ) → v < word → load32 (store32 m p v) p ≡ v
unfolding load32 store32
load32-store32_self m p v h = ground arith

pub store32_other : (m : Mem) (p v a : ℕ) → (a < p) ⊎ (p + 4 ≤ a) → store32 m p v a ≡ m a
unfolding store32
store32_other m p v a (inl h) = ground arith
store32_other m p v a (inr h) = ground arith

pub load32-congr :
    (m n : Mem) (p : ℕ) → ((a : ℕ) → p ≤ a → a < p + 4 → n a ≡ m a) → load32 n p ≡ load32 m p
unfolding load32
load32-congr m n p h = rw (
  h p (omega arith) (omega arith),
  h (p + 1) (omega arith) (omega arith),
  h (p + 2) (omega arith) (omega arith),
  h (p + 3) (omega arith) (omega arith),
)

pub load32-store32_other :
    (m : Mem) (p v q : ℕ) → (q + 4 ≤ p) ⊎ (p + 4 ≤ q) → load32 (store32 m p v) q ≡ load32 m q
load32-store32_other m p v q (inl h) =
    load32-congr m (store32 m p v) q (λ a lo hi. store32_other m p v a (inl (omega arith)))
load32-store32_other m p v q (inr h) =
    load32-congr m (store32 m p v) q (λ a lo hi. store32_other m p v a (inr (omega arith)))

pub store_desc_other :
    (m : Mem) (p : ℕ) (d : Desc) (a : ℕ) → (a < p) ⊎ (p + desc_bytes ≤ a) → store_desc m p d a ≡ m a
unfolding store_desc store32
store_desc_other m p d a (inl h) = ground arith
store_desc_other m p d a (inr h) = ground arith

-- What is loaded depends on the bytes of the descriptor alone.
pub load_desc-congr :
    (m n : Mem) (p : ℕ)
    → ((a : ℕ) → p ≤ a → a < p + desc_bytes → n a ≡ m a)
    → load_desc n p ≡ load_desc m p
unfolding load_desc
load_desc-congr m n p h = ground (
  arith,
  load32-congr m n p (λ a lo hi. h a (omega arith) (omega arith)),
  word_at 4 (omega arith),
  word_at 8 (omega arith),
  word_at 12 (omega arith),
  word_at 16 (omega arith),
  word_at 20 (omega arith),
  word_at 24 (omega arith),
  word_at 28 (omega arith),
)
  where
    word_at : (k : ℕ) → k + 4 ≤ 32 → load32 n (p + k) ≡ load32 m (p + k)
    word_at k hk = load32-congr m n (p + k) (λ a lo hi. h a (omega arith) (omega arith))

pub load_desc-store_desc_other :
    (m : Mem) (p : ℕ) (d : Desc) (q : ℕ)
    → (q + desc_bytes ≤ p) ⊎ (p + desc_bytes ≤ q)
    → load_desc (store_desc m p d) q ≡ load_desc m q
load_desc-store_desc_other m p d q (inl h) =
    load_desc-congr m _ q (λ a lo hi. store_desc_other m p d a (inl (omega arith)))
load_desc-store_desc_other m p d q (inr h) =
    load_desc-congr m _ q (λ a lo hi. store_desc_other m p d a (inr (omega arith)))

-- A descriptor of uint32_t fields is read back as it was stored.
pub load_desc-store_desc_self :
    (m : Mem) (p : ℕ) (d : Desc) → IsDesc d → load_desc (store_desc m p d) p ≡ d
unfolding load_desc store_desc
load_desc-store_desc_self m p d v = grind (arith, load32-store32_self, load32-store32_other)

pub clear_inside : (m : Mem) (p n a : ℕ) → p ≤ a → a < p + n → clear m p n a ≡ 0
unfolding clear
clear_inside m p n a lo hi = ground arith

pub clear_outside : (m : Mem) (p n a : ℕ) → (a < p) ⊎ (p + n ≤ a) → clear m p n a ≡ m a
unfolding clear
clear_outside m p n a (inl h) = ground arith
clear_outside m p n a (inr h) = ground arith

load32-clear : (m : Mem) (p n q : ℕ) → p ≤ q → q + 4 ≤ p + n → load32 (clear m p n) q ≡ 0
unfolding load32
load32-clear m p n q lo hi = omega (
  arith,
  clear_inside m p n q,
  clear_inside m p n (q + 1),
  clear_inside m p n (q + 2),
  clear_inside m p n (q + 3),
)

-- A descriptor inside cleared memory is all zeros.
pub load_desc-clear :
    (m : Mem) (p n q : ℕ)
    → p ≤ q
    → q + desc_bytes ≤ p + n
    → load_desc (clear m p n) q
      ≡ record { opcode = 0; flags = 0; src0 = 0; src1 = 0; src2 = 0; dst0 = 0; arg0 = 0; arg1 = 0 }
unfolding load_desc
load_desc-clear m p n q lo hi = ground (
  arith,
  load32-clear m p n q,
  load32-clear m p n (q + 4),
  load32-clear m p n (q + 8),
  load32-clear m p n (q + 12),
  load32-clear m p n (q + 16),
  load32-clear m p n (q + 20),
  load32-clear m p n (q + 24),
  load32-clear m p n (q + 28),
)
