-- ===== src/Emulator.antt =====
-- The software module of python/hmtl/emulator: Outputs, Programs, Device, Handle, Ticks and Control
-- model the code, the other modules are about it.
pub mod Outputs
pub mod Programs
pub mod Device
pub mod Handle
pub mod Ticks
pub mod Control
pub mod Messages
pub mod Payloads
pub mod Fades
pub mod Blinks
pub mod Requests
mod Tests
pub mod Idle
pub mod Sharing
pub mod Faults
pub mod Sequences
pub mod Tickable
pub mod Effects
