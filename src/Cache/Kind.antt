-- ===== src/Cache/Kind.antt =====
-- The direction of a cache analysis (include/Analysis/Cache/ReplacementPolicy.h).

-- `must` holds guaranteed lines, `may` holds possible lines.
pub data AnalysisKind : Type 0 where
  must may : AnalysisKind
