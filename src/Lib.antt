-- ===== src/Lib.antt =====
-- LLTA, a low-level timing analyser: it bounds the worst-case execution time of a program for the
-- MSP430 on LLVM's machine code. This library models its core in these parts.
--
--   Cache    (include/Analysis/Cache, lib/Analysis/Cache) the modular cache analysis. Geometry is
--            CacheGeometry; Age has AgeSetState and the updates, joins and tests of LRUPolicy and
--            FIFOPolicy; Policy has ReplacementPolicy as a record of operations with its three
--            instances, Policy/Unknown the UnknownPolicy; State is CacheState, Event CacheEvent, and
--            Engine is CacheAnalysis::process over the events of an instruction. Hardware and Machine
--            are no code: they are the caches that the analysis has to be right about. Must states
--            what a policy owes a machine (MustModel), and Must/Models gives it for LRU and for the
--            unknown policy. Fixpoint hands the analysis to the solver, with the order that its states
--            climb. Lru/Arrival follows LRU states through accesses and joins.
--   Solver   (lib/Analysis/AbstractStateGraph.cpp, lib/Analysis/WorklistSolver.cpp) Graph is the
--            abstract state graph, Analysable the interface AbstractAnalysable, Worklist the run over
--            a machine function: initializeGraph, addToWorklist, takeFromWorklist and one round of
--            the loop (visit). The loop runs on fuel; a result of none means that the fuel ran out.
--            For an analysis whose states have a bounded rank that grows with every change
--            (Worklist/Climb), the product of the number of blocks, the bound and one more than the
--            largest number of successors is enough, and one round more.
--            Pipeline is the composite of several analyses (lib/Analysis/PipelineAnalysis.cpp).
--            FromProgram is the run over a program graph, whose nodes stand for whole blocks: two
--            rounds for each node are enough. Adapter is GraphAdapter::convert, the way back.
--   Target   (lib/Targets/MSP430/MSP430Target.cpp) Opcode has the opcodes, factored by operation,
--            width and operand form, Latency the latency table, Check the accepted instructions, and
--            Shift the bound of a shift loop.
--   Ilp      (lib/ILP/AbstractHighsSolver.cpp) the rows and the objective of the integer program.
--            Coefficients are whole numbers with a sign; a count is a natural number. HiGHS is a
--            parameter: an optimal value is one that no solution of the rows exceeds.
--   Program  (lib/Graph/ProgramGraph.cpp) the program graph of the module. Built says which graphs
--            adding nodes and edges gives. Fill is fillGraphWithFunction and fillGraph: a machine
--            function is the list of its blocks, and what LLVM and the passes before know of them is
--            part of the input. Finalize is finalize: the call sites (Finalize), the bounds of
--            recursive functions (Finalize/Bound, with the functions in a cycle, their sets and the
--            search findSCCBackEdges in Cycles), the costs of external calls, the pruning and the
--            report. The pruning is the sweep of the nodes that are reachable (Prune) and the removal
--            of the others (Detach). The sweep runs on fuel; the number of nodes is enough. The search
--            for a chain of calls runs one round more than there are functions, the search for back
--            edges as deep as the set has functions. Function names are numbers; what
--            `NodeToFunctionMap` loses in the pruning is left out.
--   Address  (lib/MIRPasses/AdressResolverPass.cpp) the alignment of the instructions of a function
--            with the disassembled binary. The bytes of an instruction come from LLVM's encoder and
--            are part of the input.
--   Fram     (lib/Utility/InstructionWords.cpp, lib/Utility/DataMemoryAccess.cpp,
--            lib/Analysis/Cache/FRAMAccessMapper.cpp) Words has the words that an instruction fetches,
--            DataAccess the data accesses that may go to FRAM, and Mapper the events that the cache
--            analysis reads (mapEvents); Wait is FRAMWaitStatePass with computeDataAccessWords
--            (lib/Targets/MSP430/FRAMWaitStatePass.cpp), and Cached is FRAMCacheAnalysisPass
--            (lib/Targets/MSP430/FRAMCacheAnalysisPass.cpp) on the fuel of the worklist algorithm: the
--            blocks times the sets times one more than the edges, and one, is enough for the default
--            policy. Misses is its reportAlwaysMiss. What LLVM knows of a memory operand and the addresses of globals are part of the
--            input.
--   Loops    (lib/MIRPasses/MachineLoopBoundAgregatorPass.cpp) the blocks of a loop that LLVM does not
--            recognise (computeLoopBody) and the edges that close a loop (Back, findBackEdges). The
--            searches run on fuel. One round more than there are blocks is enough for the blocks of a
--            loop, and one round for each block and each edge for the edges that close one.
--   Tests    the theorems at concrete inputs.
--
-- The parts meet as in the program: the target gives an instruction its latency, the solver runs an
-- analysis such as the cache's over the blocks and puts a cost and a state on each node, and the
-- integer program takes the graph with the costs and the loop bounds. Numbers are natural numbers;
-- where the program's are 32 or 64 bits wide and can wrap, the remainder is written out. The counters of the
-- nodes are the exception: they have no bound, so both graphs have fewer than 2^32 nodes, for which
-- the program's assertion holds. The loop bounds that a new program node leaves uninitialised are
-- zero. Asserting
-- code gives an option, none where the assertion fails. States are values, so a clone is the identity.
--
-- Not modelled: text output and dumps, the passes that only move data between LLVM and these parts,
-- the choice of the loop bounds, the hardware pipeline, the copy of the call
-- sites from the program graph to the abstract one, the driver and the command line, LLVM and HiGHS.
pub mod Prelude
pub mod Cache
pub mod Solver
pub mod Target
pub mod Ilp
pub mod Address
pub mod Fram
pub mod Loops
pub mod Program
pub mod Tests
