-- ===== src/Fram.antt =====
-- What an instruction fetches and accesses in FRAM (lib/Utility/InstructionWords.cpp,
-- lib/Utility/DataMemoryAccess.cpp, lib/Analysis/Cache/FRAMAccessMapper.cpp).
pub mod Words
pub mod DataAccess
pub mod Mapper
pub mod Wait
pub mod Cached
pub mod Misses
