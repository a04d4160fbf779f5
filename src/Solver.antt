-- ===== src/Solver.antt =====
-- The abstract state graph and the worklist algorithm over it (include/Analysis/AbstractState.h,
-- include/Analysis/AbstractAnalysable.h, include/Analysis/AbstractStateGraph.h,
-- include/Analysis/WorklistSolver.h and their sources under lib/Analysis).
pub mod Analysable
pub mod Graph
pub mod Worklist
pub mod Pipeline
pub mod FromProgram
pub mod Adapter
