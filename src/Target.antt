-- ===== src/Target.antt =====
-- The target description of the MSP430 (lib/Targets/MSP430).
pub mod Opcode
pub mod Latency
pub mod Check
pub mod Agreement
pub mod Shift
