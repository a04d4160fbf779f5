-- ===== src/Cache.antt =====
-- The modular cache analysis (include/Analysis/Cache, lib/Analysis/Cache).
pub mod Kind
pub mod Geometry
pub mod Age
pub mod Hardware
pub mod Lru
pub mod Fifo
pub mod Policy
pub mod Event
pub mod State
pub mod Engine
pub mod Machine
pub mod Must
pub mod Fixpoint
