-- ===== src/Cache/Fixpoint/Ascent.antt =====
-- The cache analysis ascends when its policy does (lib/Analysis/Cache/CacheAnalysis.cpp,
-- include/Analysis/AbstractAnalysable.h).
use llta.Cache.Engine.{CacheAnalysis, process_events}
use llta.Cache.Event.{CacheEvent}
use llta.Cache.Fixpoint.{cache_analysable}
use llta.Cache.Fixpoint.Events.{run_events-length, run_events-CacheLe}
use llta.Cache.Fixpoint.Order.{
  CacheLe, CacheLe-refl, CacheLe-trans, SetAscends, cache_rank, cache_rank_grows, cache_rank_height,
  initial-CacheLe, join_sets-CacheLe,
}
use llta.Cache.State.{CacheState, initial, length-join_sets}
use llta.Prelude.{List, [], length, length-replicate, subst, sym, ℕ, ◌*◌, ◌∙◌, ◌≡◌, ◌≤◌}
use llta.Solver.Worklist.Ascent.{Ascends}

module _ (analysis : CacheAnalysis) {Instr : Type 0} (mapper : Instr → List CacheEvent)
    (order : SetAscends analysis.policy analysis.kind) where
  open analysis use {geometry, policy, kind}

  abbrev pub HasAllSets : CacheState policy → Type 0
  HasAllSets sets = length sets ≡ geometry.num_sets

  pub initial-HasAllSets : HasAllSets (initial policy geometry)
  unfolding initial
  initial-HasAllSets = length-replicate geometry.num_sets policy.make_empty

  pub process-HasAllSets :
      (sets : CacheState policy) (i : Instr)
      → HasAllSets sets
      → HasAllSets (process_events analysis sets (mapper i)).state
  unfolding process_events
  process-HasAllSets sets i e =
      run_events-length analysis order (mapper i) (record { state = sets; cost = 0; reported = [] })
      ∙ e

  pub process-CacheLe :
      (xs ys : CacheState policy) (i : Instr)
      → CacheLe policy kind order xs ys
      → CacheLe policy kind order
          (process_events analysis xs (mapper i)).state
          (process_events analysis ys (mapper i)).state
  unfolding process_events
  process-CacheLe xs ys i h =
      run_events-CacheLe analysis order (mapper i) (record { state = xs; cost = 0; reported = [] })
        (record { state = ys; cost = 0; reported = [] }) h

  pub rank_within :
      (xs : CacheState policy)
      → HasAllSets xs
      → cache_rank policy kind order xs ≤ geometry.num_sets * order.set_height
  rank_within xs e =
      subst (λ (n : ℕ). cache_rank policy kind order xs ≤ n * order.set_height) e
        (cache_rank_height policy kind order xs)

  abbrev pub cache_ascends : Ascends (cache_analysable analysis mapper)
  cache_ascends = record {
    Valid = HasAllSets;
    Known = λ _. Unit;
    Le = CacheLe policy kind order;
    le_refl = CacheLe-refl policy kind order;
    le_trans = CacheLe-trans policy kind order;
    initial_least = λ xs e. initial-CacheLe policy kind order geometry xs e;
    initial_valid = initial-HasAllSets;
    process_valid = λ xs i known e. process-HasAllSets xs i e;
    join_valid = λ xs ys d e. length-join_sets policy kind xs ys ∙ d;
    process_mono = λ xs ys i d e h. process-CacheLe xs ys i h;
    join_mono =
        λ xs ys us vs a b c d h k. join_sets-CacheLe policy kind order xs ys us vs (a ∙ sym b) h k;
    height = geometry.num_sets * order.set_height;
    rank = cache_rank policy kind order;
    rank_height = rank_within;
    rank_grows = λ xs ys d e h apart. cache_rank_grows policy kind order xs ys h apart;
  }
