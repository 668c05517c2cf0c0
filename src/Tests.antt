-- ===== src/Tests.antt =====
-- Examples: the demo's command queue, run, and each theorem at a concrete input.
pub mod Demo
pub mod Producer
pub mod Device
pub mod Service
pub mod Boot
pub mod Spi
pub mod Monitor
pub mod Rounds
pub mod Driver
pub mod Typed
pub mod Hardware
pub mod Waiting
pub mod Linked
