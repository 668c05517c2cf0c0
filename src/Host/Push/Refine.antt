-- ===== src/Host/Push/Refine.antt =====
-- `push` of linux/uio/accel_cmdq_host.c and the FIFO of pending descriptors.
use native.Mathlib.Nat.{mod-eq_of_lt}
use risc_v_computer_zybo.Base.{
  ℕ, ◌+◌, ◌-◌, ◌*◌, ◌%◌, ◌≤◌, ◌<◌, ◌≡◌, ◌≢◌, ◌↔◌, inl, inr, refl, Bool, true, false, none, some,
  List, [], ◌∷◌, ◌++◌, length, arith, ok, ◌==◌, if◌then◌else◌, Bool-cases, Returns,
}
use risc_v_computer_zybo.Word.{word}
use risc_v_computer_zybo.Memory.{Desc, IsDesc, store_desc, desc_bytes}
use risc_v_computer_zybo.Queue.{enqueue, slot_at, distance, pending}
use risc_v_computer_zybo.Queue.Laws.{length-pending, pending-store_desc, next_slot}
use risc_v_computer_zybo.Host.{
  World, Host, Code, success, enospc, Ret, entry_count, limit_bytes, desc_mut, callbacks,
}
use risc_v_computer_zybo.Host.Push.{push}

-- The codes of the two outcomes of `enqueue`.
abbrev pub push_code : Bool → Code
push_code true = success
push_code false = enospc

module _ {Ctx : Type 0} where
  -- A host whose queue lies in its memory, with its indices inside the ring.
  pub record IsReady (h : Host Ctx) : Type 0 where
    pub has_callbacks : callbacks h ≢ none
    pub in_memory : h.cmdq_base_offset + h.cmdq_size_bytes ≤ h.umem_bytes
    pub memory_word : h.umem_bytes < word
    pub one_entry : desc_bytes ≤ h.cmdq_size_bytes
    pub head_in : h.cached_head < entry_count h
    pub tail_in : h.cached_tail < entry_count h

  -- The descriptors that were pushed and not yet consumed, oldest first.
  abbrev pub contents : Host Ctx → World Ctx → List Desc
  contents h w = pending w.umem h.cmdq_base_offset (entry_count h) h.cached_tail h.cached_head

  -- The slots fit the queue, and there is one.
  pub entry_count_bounds :
      (h : Host Ctx)
      → desc_bytes ≤ h.cmdq_size_bytes
      → (0 < entry_count h) × (entry_count h * desc_bytes ≤ h.cmdq_size_bytes)
  unfolding entry_count
  entry_count_bounds h e = ground arith

  -- The pointer to a slot of the ring is its address, inside the memory.
  pub desc_mut_lem :
      (h : Host Ctx) (slot : ℕ)
      → IsReady h
      → slot < entry_count h
      → (desc_mut h slot ≡ some (slot_at h.cmdq_base_offset slot))
        × (slot_at h.cmdq_base_offset slot + desc_bytes ≤ h.umem_bytes)
  unfolding desc_mut limit_bytes
  desc_mut_lem h slot v e = ground (arith, mod-eq_of_lt e, entry_count_bounds h v.one_entry)

  -- The host and the world that a push leaves.
  abbrev pushed : Host Ctx → Host Ctx
  pushed h = record h { cached_head = (h.cached_head + 1) % entry_count h }

  abbrev stored : Host Ctx → Desc → World Ctx → World Ctx
  stored h d w = record w { umem = store_desc w.umem (slot_at h.cmdq_base_offset h.cached_head) d }

  -- A ready host's `push` past the tests is the write of the next free slot.
  push-eq :
      (h : Host Ctx) (d : Desc) (w : World Ctx)
      → IsReady h
      → push (some h) (some d) w ≡ (
          if (h.cached_head + 1) % entry_count h == h.cached_tail
          then ok (enospc, some h, w)
          else ok (success, some (pushed h), stored h d w))
  unfolding push
  push-eq h d w v =
      ground (arith, desc_mut_lem h h.cached_head v v.head_in, entry_count_bounds h v.one_entry)

  entry_count-cached_head :
      (h : Host Ctx) (k : ℕ) → entry_count (record h { cached_head = k }) ≡ entry_count h
  unfolding entry_count
  entry_count-cached_head h k = refl

  contents-store :
      (h : Host Ctx) (d : Desc) (w : World Ctx)
      → IsReady h
      → IsDesc d
      → (h.cached_head + 1) % entry_count h ≢ h.cached_tail
      → contents (pushed h) (stored h d w) ≡ contents h w ++ (d ∷ [])
  contents-store h d w v vd ne = rw entry_count-cached_head (
      pending-store_desc w.umem h.cmdq_base_offset (entry_count h) d h.cached_tail h.cached_head vd
        v.tail_in v.head_in ne)

  pushed-IsReady : (h : Host Ctx) → IsReady h → IsReady (pushed h)
  pushed-IsReady h v = record {
    has_callbacks = v.has_callbacks;
    in_memory = v.in_memory;
    memory_word = v.memory_word;
    one_entry = v.one_entry;
    head_in =
        rw (entry_count-cached_head h ((h.cached_head + 1) % entry_count h))
          (omega (arith, entry_count_bounds h v.one_entry));
    tail_in = rw (entry_count-cached_head h ((h.cached_head + 1) % entry_count h)) v.tail_in;
  }

  -- The ring is full exactly when one slot is left.
  full_iff :
      (h : Host Ctx) (w : World Ctx)
      → IsReady h
      → ((h.cached_head + 1) % entry_count h ≡ h.cached_tail)
        ↔ (length (contents h w) ≡ entry_count h - 1)
  full_iff h w v = ground (arith, length-contents, next_slot h.cached_head v.head_in)
    where
      length-contents : length (contents h w) ≡ distance (entry_count h) h.cached_tail h.cached_head
      length-contents =
          length-pending w.umem h.cmdq_base_offset (entry_count h) h.cached_tail h.cached_head

  abbrev pub Enqueued : Host Ctx → Desc → World Ctx → Ret Ctx → Type 0
  Enqueued h d w (code, host, w') =
      (h' : Host Ctx) × (host ≡ some h')
      × (let (accepted, q) = enqueue (entry_count h - 1) d (contents h w) in
          (code ≡ push_code accepted) × (contents h' w' ≡ q))
      × IsReady h'

  -- `accel_cmdq_host_push` on a ready host returns, and is the enqueue of a FIFO of
  -- `entry_count - 1` descriptors on its contents: 0 if the descriptor was accepted and -ENOSPC if
  -- not. The host stays ready.
  pub push_refines :
      (h : Host Ctx) (d : Desc) (w : World Ctx)
      → IsReady h
      → IsDesc d
      → Returns (Enqueued h d w) (push (some h) (some d) w)
  unfolding enqueue
  push_refines h d w v vd =
      elim (Bool-cases ((h.cached_head + 1) % entry_count h == h.cached_tail)) [
        | inl full ↦ rw (push-eq h d w v, full) (h, refl, ground (arith, full_iff h w v), v)
        | inr room ↦
            rw (push-eq h d w v, room)
              (
                pushed h,
                refl,
                ground (arith, full_iff h w v, contents-store h d w v vd, length-contents),
                pushed-IsReady h v,
              )
      ]
    where
      length-contents : length (contents h w) ≡ distance (entry_count h) h.cached_tail h.cached_head
      length-contents =
          length-pending w.umem h.cmdq_base_offset (entry_count h) h.cached_tail h.cached_head
