-- ===== src/Host/Device.antt =====
-- The register file that linux/uio/accel_cmdq_host_test.c gives the producer for a device.
use risc_v_computer_zybo.Base.{ℕ, ◌/◌, update, some, true}
use risc_v_computer_zybo.Host.{RegRead, RegWrite, Host}

-- `fake_platform_t`: the registers by index; its `umem` is the world's.
abbrev pub Regs : Type 0
Regs = ℕ → ℕ

unfoldable pub fake_reg_read : RegRead Regs
fake_reg_read plat o = (plat.ctx (o / 4), plat)

unfoldable pub fake_reg_write : RegWrite Regs
fake_reg_write plat o v = record plat { ctx = update plat.ctx (o / 4) v }

-- A host that was given the register file and a memory.
abbrev pub attached : Host Regs → Host Regs
attached h = record h {
  reg_read = some fake_reg_read;
  reg_write = some fake_reg_write;
  umem = true;
}
