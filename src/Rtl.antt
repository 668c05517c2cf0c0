-- ===== src/Rtl.antt =====
-- The accelerator's units in hardware, rtl/accel, by clock cycles, and the proofs that they compute
-- what the emulator of linux/uio/accel_mmio_demo.c computes.
pub mod Gpu
pub mod Npu
pub mod Queue
