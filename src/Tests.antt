-- ===== src/Tests.antt =====
-- The theorems at concrete inputs.
pub mod CacheTests
pub mod FlowTests
pub mod FramTests
pub mod CachedTests
pub mod GraphTests
pub mod ModuleTests
pub mod LoopTests
pub mod SolverTests
pub mod TargetTests
