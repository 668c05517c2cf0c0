-- ===== src/Link.antt =====
-- The two sides together: a producer of linux/uio/accel_cmdq_host.c whose callbacks reach the
-- emulator of linux/uio/accel_mmio_demo.c, with the unified memory that they share.
pub mod Drained
use risc_v_computer_zybo.Base.{ℕ, true, Option, some, Outcome, ok, exited, undefined, ◌>>=◌}
use risc_v_computer_zybo.Memory.{Mem}
use risc_v_computer_zybo.Emulator.{Emu}
use risc_v_computer_zybo.Emulator.Regs.{reg_read, reg_write}
use risc_v_computer_zybo.Host.{World, RegRead, RegWrite, Host}

-- The context of the callbacks: the device, or how the program ended.
abbrev pub Device : Type 0
Device = Outcome Emu

-- The device works on the memory that the producer writes, and what it writes is seen there.
abbrev pub memory_after : Device → Mem → Mem
memory_after (ok e) m = e.unified_mem
memory_after exited m = m
memory_after undefined m = m

unfoldable pub device_write : RegWrite Device
device_write w at v =
    let device : Device = w.ctx >>= λ e. reg_write (record e { unified_mem = w.umem }) at v in
    record w { ctx = device; umem = memory_after device w.umem }

abbrev pub value_of : Device → ℕ → ℕ
value_of (ok e) at = reg_read e at
value_of exited at = 0
value_of undefined at = 0

unfoldable pub device_read : RegRead Device
device_read w at = (value_of w.ctx at, w)

-- A host that was given these callbacks.
abbrev pub linked : Host Device → Host Device
linked h = record h { reg_read = some device_read; reg_write = some device_write; umem = true }
