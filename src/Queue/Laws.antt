-- ===== src/Queue/Laws.antt =====
-- A write just past the pending descriptors extends them by one; a write elsewhere leaves them.
use native.Mathlib.Nat.{mod-add-mod, mod-eq_of_lt, mod-eq-sub-mod, add-zero}
use native.Mathlib.Decide.{dec_lt}
use risc_v_computer_zybo.Base.{
  ℕ, zero, suc, ◌+◌, ◌-◌, ◌%◌, ◌≤◌, ◌<◌, ◌≡◌, ◌≢◌, ◌⊎◌, inl, inr, refl, sym, ap, ap₂, ◌∙◌, [], ◌∷◌,
  ◌++◌, arith, length,
}
use risc_v_computer_zybo.Memory.{Mem, Desc, IsDesc, store_desc, desc_bytes}
use risc_v_computer_zybo.Memory.Laws.{load_desc-store_desc_self, load_desc-store_desc_other}
use risc_v_computer_zybo.Queue.{slot_at, distance, window, pending}

pub length-window : (m : Mem) (base n s k : ℕ) → length (window m base n s k) ≡ k
length-window m base n s zero = refl
length-window m base n s (suc k) = ap suc (length-window m base n ((s + 1) % n) k)

pub length-pending :
    (m : Mem) (base n tail head : ℕ) → length (pending m base n tail head) ≡ distance n tail head
length-pending m base n tail head = length-window m base n tail (distance n tail head)

-- Different slots are at disjoint addresses.
slots_disjoint :
    (base s t : ℕ)
    → s ≢ t
    → (slot_at base s + desc_bytes ≤ slot_at base t)
      ⊎ (slot_at base t + desc_bytes ≤ slot_at base s)
slots_disjoint base s t h = elim (dec_lt s t) [
  | yes p ↦ inl (omega arith)
  | no p ↦ inr (omega arith)
]

-- Fewer than `n` steps round the ring do not come back to the start.
pub add-mod-ne : {n s k : ℕ} → s < n → suc k < n → (s + suc k) % n ≢ s
add-mod-ne {n} {s} {k} hs hk = elim (dec_lt (s + suc k) n) [
  | yes p ↦ omega (arith, mod-eq_of_lt p)
  | no p ↦ omega (
    arith,
    mod-eq-sub-mod {n = s + suc k} {m = n} (omega arith),
    mod-eq_of_lt {n = s + suc k - n} {m = n} (omega arith),
  )
]

-- The slot after `s`.
pub next_slot :
    {n : ℕ} (s : ℕ)
    → s < n
    → ((s + 1 < n) × ((s + 1) % n ≡ s + 1)) ⊎ ((s + 1 ≡ n) × ((s + 1) % n ≡ 0))
next_slot {n} s h = elim (dec_lt (s + 1) n) [
  | yes p ↦ inl (p, mod-eq_of_lt p)
  | no p ↦ inr (
    omega arith,
    omega (
      arith,
      mod-eq-sub-mod {n = s + 1} {m = n} (omega arith),
      mod-eq_of_lt {n = s + 1 - n} {m = n} (omega arith),
    ),
  )
]

module _ {n tail head : ℕ} (ht : tail < n) (hh : head < n) where
  pub distance-lt : distance n tail head < n
  distance-lt = ground arith

  pub add-distance : (tail + distance n tail head) % n ≡ head
  add-distance = elim (dec_lt head tail) [
    | yes p ↦ ground (arith, mod-eq-sub-mod {n = head + n} {m = n} (omega arith), mod-eq_of_lt hh)
    | no p ↦ ground (arith, mod-eq_of_lt hh)
  ]

  pub distance-next-head :
      (head + 1) % n ≢ tail → distance n tail ((head + 1) % n) ≡ suc (distance n tail head)
  distance-next-head ne = ground (arith, next_slot head hh)

  pub distance-next-tail :
      tail ≢ head → distance n tail head ≡ suc (distance n ((tail + 1) % n) head)
  distance-next-tail ne = ground (arith, next_slot tail ht)

module _ (m : Mem) (base n : ℕ) where
  window-store_desc :
      (d : Desc) (k s t : ℕ)
      → IsDesc d
      → s < n
      → k < n
      → t ≡ (s + k) % n
      → window (store_desc m (slot_at base t) d) base n s (suc k) ≡ window m base n s k ++ (d ∷ [])
  window-store_desc d zero s t v hs hk e =
      rw (e, add-zero, mod-eq_of_lt hs, load_desc-store_desc_self m (slot_at base s) d v)
  window-store_desc d (suc k) s t v hs hk e =
      ap₂ ◌∷◌
        (load_desc-store_desc_other m (slot_at base t) d (slot_at base s)
          (slots_disjoint base s t (rw e (λ q. add-mod-ne hs hk (sym q)))))
        (window-store_desc d k ((s + 1) % n) t v (omega arith) (omega arith) (e ∙ shift))
    where
      shift : (s + suc k) % n ≡ ((s + 1) % n + k) % n
      shift = rw mod-add-mod (ap (λ j. j % n) (omega arith))

  -- Storing a descriptor at the head slot of a ring that is not full appends it.
  pub pending-store_desc :
      (d : Desc) (tail head : ℕ)
      → IsDesc d
      → tail < n
      → head < n
      → (head + 1) % n ≢ tail
      → pending (store_desc m (slot_at base head) d) base n tail ((head + 1) % n)
        ≡ pending m base n tail head ++ (d ∷ [])
  pending-store_desc d tail head v ht hh ne = rw (distance-next-head ht hh ne) (
      window-store_desc d (distance n tail head) tail head v ht (distance-lt ht hh)
        (sym (add-distance ht hh)))
