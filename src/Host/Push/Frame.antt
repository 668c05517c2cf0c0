-- ===== src/Host/Push/Frame.antt =====
-- `push` of linux/uio/accel_cmdq_host.c: refused calls, and a bound test whose sum wraps.
use native.Mathlib.Nat.{mod-eq_of_lt}
use risc_v_computer_zybo.Base.{
  ◌+◌, ◌%◌, ◌≤◌, ◌<◌, ◌≡◌, ◌≢◌, Option, none, some, arith, ok, undefined,
}
use risc_v_computer_zybo.Word.{word}
use risc_v_computer_zybo.Memory.{Desc, desc_bytes}
use risc_v_computer_zybo.Queue.{slot_at}
use risc_v_computer_zybo.Host.{
  World, Host, Code, success, entry_count, limit_bytes, desc_mut, callbacks,
}
use risc_v_computer_zybo.Host.Push.{push}

module _ {Ctx : Type 0} where
  -- A call that is refused has changed nothing: neither the host nor the world.
  pub push_atomic :
      (host : Option (Host Ctx)) (d : Option Desc) (w : World Ctx) {code : Code}
      {host' : Option (Host Ctx)} {w' : World Ctx}
      → push host d w ≡ ok (code, host', w')
      → code ≢ success
      → (host' ≡ host) × (w' ≡ w)
  unfolding push
  push_atomic none d w e ne = ground arith
  push_atomic (some h) none w e ne = ground arith
  push_atomic (some h) (some d) w e ne = ground arith

  -- Where the bound test wraps round 2 ^ 32, the write is outside the memory.
  pub push_wraps :
      (h : Host Ctx) (d : Desc) (w : World Ctx)
      → callbacks h ≢ none
      → h.umem_bytes < word
      → h.cached_head < entry_count h
      → (h.cached_head + 1) % entry_count h ≢ h.cached_tail
      → slot_at h.cmdq_base_offset h.cached_head < word
      → word ≤ slot_at h.cmdq_base_offset h.cached_head + desc_bytes
      → desc_bytes ≤ limit_bytes h
      → h.cached_head + 1 < word
      → push (some h) (some d) w ≡ undefined
  unfolding push desc_mut
  push_wraps h d w cb mw hh ne lo hi lim hw = ground (arith, mod-eq_of_lt hh)
