-- ===== src/Lib.antt =====
-- Verification of the C code of the RISC-V computer: the accelerator's command queue in shared
-- memory, from the producer's library to the emulated device that consumes it; the demo program that
-- drives the accelerator; and the boot firmware.
--
-- The parts and how they interact. A host program fills a ring of 32-byte descriptors in a byte
-- memory that it shares with an accelerator, and talks to the accelerator through registers: base,
-- size, head and tail of the ring, and a doorbell. The device takes the descriptors between tail and
-- head, runs an NPU inference, a GPU clear or a GPU triangle for each, marks the descriptor and moves
-- the tail.
--   Base/       shared names; Base/Outcomes is how a C call ends: a value, exit(1), or undefined.
--   Word        uint32_t and int32_t; Word/Bits sets and tests single bits.
--   Memory      bytes, little-endian words and descriptors (linux/include/accel_unified_queue.h).
--   Registers   the REG_ macros (linux/include/accel_mmio.h), and the switch over them.
--   Queue       the ring of descriptors as a list, and the FIFO that it stands for.
--   Commands    the descriptors of the three push functions.
--   Host        linux/uio/accel_cmdq_host.c and linux/include/accel_cmdq_host.h. `Host` is
--               accel_cmdq_host_t; sync, init, reset are accel_cmdq_host_sync and so on, push and
--               submit stand in Host/Push. Host/Device is the register file of
--               linux/uio/accel_cmdq_host_test.c and Host/Regression its main. Proofs:
--               Host/Push/Refine, Host/Push/Frame, Host/Reset, Host/Submit.
--   Emulator    linux/uio/accel_mmio_demo.c: `Emu` is accel_emulator_t, grouped by unit.
--               Emulator/Umem, /Npu, /Gpu, /Cmdq and /Regs model the emu_ functions of each unit
--               (run_npu is emu_run_npu, process is emu_cmdq_process, reg_write is emu_reg_write);
--               the modules below them hold the proofs. Emulator/Typed gives the fields their C
--               types, and Emulator/Typed/Reached the states that register writes reach.
--               Emulator/Cmdq/Executes is about the commands that process runs and their order,
--               Emulator/Gpu/EdgeFn and /Geometry are about the edge functions, Emulator/Gpu/Whole and
--               Emulator/Gpu/Draws about the raster loops against a scan of all pixels.
--   Driver      the rest of linux/uio/accel_mmio_demo.c, from reg_read on: `Session` is the process
--               with its backend. Driver/Wait models the waits, Driver/Frame the pictures,
--               Driver/Sample, /Unified, /Queued and /Program the demos and main (run_npu_sample,
--               run_unified_memory_demo, run_unified_command_queue_demo, run_gpu_demo; parse_args is
--               the loop over argv). backend_read and backend_write are its reg_read and reg_write.
--   Link        a producer whose callbacks reach the emulator, and the proofs on the two together.
--   Bootrom     firmware/bootrom/bootrom.c and platform.h: the machine of the boot firmware, which
--               stands apart from the accelerator. Its four statics are words of the RAM, where
--               firmware/bootrom/linker.ld puts .bss, under the boot info; `Bss` is their order,
--               which is the compiler's, and Bootrom/Statics what a store to one leaves of the
--               others. Bootrom/Loader models retry_sd_boot (read_header,
--               check_header, copy_loop, write_boot_info); the modules below it hold the proofs.
--               Bootrom/Keyboard, /Hex and /RamTest model poll_ps2_command, uart_put_hex32 and
--               run_ram_test and hold the proofs on them. Bootrom/Npu is the inference unit of
--               rtl/peripherals (npu_dot4_i8.v, npu_mmio.v, pcpi_npu.v), Bootrom/NpuTests its four
--               tests, Bootrom/Spi its SPI controller (spi_master_mmio.v) with spi_transfer_byte,
--               and Bootrom/Monitor main: `start`, `round` for a round of its loop, `command` for the
--               switch, and `Reaches` for the states at the head of the loop.
--   Rtl         three units of the accelerator in hardware, by clock cycles: Rtl/Gpu is
--               rtl/accel/gpu3d_lite_stub.v, Rtl/Npu is rtl/accel/npu_v2_stub.v, Rtl/Queue is
--               rtl/accel/accel_cmdq_frontend_stub.v. Rtl/Gpu/Scan, Rtl/Gpu/Command and
--               Rtl/Npu/Cycles hold what their cycles do, Rtl/Gpu/Box and Rtl/Npu/Words what their
--               words hold; the modules Emulated and Rtl/Queue/Round hold the proofs against the
--               emulator, Rtl/Queue/Doorbell what one doorbell does.
--   Tests       the demo's run, and each theorem at a concrete input.
--
-- Modelling. A C function on a struct returns the struct; a call that may stop the program or leave
-- an array returns an Outcome. uint32_t arithmetic wraps, and sums in a bound test wrap where the C
-- types do. A signed result outside int32_t is undefined. An array of the emulator is a function of
-- the index; emu_read has the bounds of the row that a read selects. Callbacks of the producer are parameters: any functions on the world. `|` of disjoint
-- bits is a sum.
--
-- Loops. `for` loops with a fixed count recurse on the rounds left: 4 bytes of a dot product, 32 rows
-- of the framebuffer, the rows and columns of a clipped box, the bytes of an image. The loop of
-- process recurses on the code's own safety counter, which starts at the number of slots: a ring has
-- fewer pending descriptors than slots. The wait of an SPI transfer is on fuel; 16 half periods
-- of the SPI clock are enough. Above it a transfer gives the next byte that the card sends.
--
-- The polls of the demo program recurse on its own bound of 1000000. The monitor's loop is a step
-- relation, one step for a round, with what the devices answer in it; a program that is loaded is a
-- function that may not return.
--
-- The demo program runs on a `Platform`: the registers of a mapped device, the interrupt, the device
-- file and the file system are parameters, and so is the passing of time. What it prints is a list of
-- lines, each a label with its value; what it prints on stderr before it exits is left out.
--
-- Not modelled: munmap and close at the end of the demo program, the startup code of the boot
-- firmware and its stack at the end of the RAM (locals are values, so an image that is loaded over
-- the stack does not change them), the Verilog but for the inference unit and the SPI controller of the boot firmware and the three units of Rtl
-- (the accelerator's bus, fetch, decode and dispatch units, rtl/soc, rtl/video, tb), the vendored processor
-- (third_party/picorv32), scripts and generated images.
pub mod Base
pub mod Word
pub mod Memory
pub mod Registers
pub mod Queue
pub mod Host
pub mod Commands
pub mod Emulator
pub mod Driver
pub mod Link
pub mod Bootrom
pub mod Rtl
pub mod Tests
