-- ===== src/Host/Submit.antt =====
-- `submit` of linux/uio/accel_cmdq_host.c over the register file.
use risc_v_computer_zybo.Base.{ℕ, ◌/◌, ◌≡◌, ◌≢◌, refl, arith, some}
use risc_v_computer_zybo.Host.{World, Host, success, sync}
use risc_v_computer_zybo.Host.Device.{Regs, fake_reg_read, fake_reg_write, attached}
use risc_v_computer_zybo.Host.Push.{submit}

-- The device holds the host's view of the queue, but for the head that was not submitted.
pub record Agrees (h : Host Regs) (w : World Regs) : Type 0 where
  pub base : w.ctx (0xa0 / 4) ≡ h.cmdq_base_offset
  pub size : w.ctx (0xa4 / 4) ≡ h.cmdq_size_bytes
  pub tail : w.ctx (0xac / 4) ≡ h.cached_tail

-- `submit` writes HEAD, then DOORBELL, and touches neither the memory nor another register. After
-- it a `sync` gives the host back as it was: nothing that was pushed is lost.
pub sync-submit :
    (h : Host Regs) (doorbell : ℕ) (w : World Regs)
    → Agrees (attached h) w
    → let (code, host, w') = submit (some (attached h)) doorbell w in
      (code ≡ success)
      × (w'.ctx (0xa8 / 4) ≡ h.cached_head)
      × (w'.ctx (0xb0 / 4) ≡ doorbell)
      × (w'.umem ≡ w.umem)
      × ((i : ℕ) → i ≢ 0xa8 / 4 → i ≢ 0xb0 / 4 → w'.ctx i ≡ w.ctx i)
      × (sync host w' ≡ (success, some (attached h), w'))
unfolding submit sync fake_reg_read fake_reg_write
sync-submit h doorbell w a = (refl, refl, refl, refl, λ i p q. ground arith, ground arith)
