-- ===== src/Cache/Event.antt =====
-- The cache effects of an instruction (include/Analysis/Cache/CacheEvent.h). An access has no cost
-- and a barrier no line, so each constructor holds the one field that is read.
use llta.Prelude.{ℕ}

pub data CacheEvent : Type 0 where
  access : ℕ → CacheEvent
  barrier : ℕ → CacheEvent
