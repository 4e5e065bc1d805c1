-- ===== src/Aggregation/Grain.antt =====
-- src/core/aggregation/consolidation.py: signals are merged within one grain only.
use delta_quant.Prelude.{◌≡◌, refl, true, not, List, [], ◌∷◌, map, arith, All}
use delta_quant.Prelude.Real.{Real}
use delta_quant.Aggregation.{
  same_type, RegisteredStrategySignal, AggregatedCandidate, direction_of, candidate_of, same_grain,
  aggregate_strategy_signals,
}
use delta_quant.Aggregation.Groups.{Group, group_all, Alike, group_all-Alike}
use delta_quant.Aggregation.Evidence.{select-All}

module _ {R : Type 0} ⦃r : Real R⦄ where
  -- A signal is about the candidate's symbol, timeframe, horizon, candle and features.
  abbrev pub OfGrain : AggregatedCandidate R → RegisteredStrategySignal R → Type 0
  OfGrain c s =
      (s.signal.symbol ≡ c.symbol)
      × (s.signal.timeframe ≡ c.timeframe)
      × (s.signal.trade_horizon ≡ c.trade_horizon)
      × (s.settled_candle_timestamp ≡ c.settled_candle_timestamp)
      × (s.feature_snapshot_id ≡ c.feature_snapshot_id)

  abbrev pub OneGrain : AggregatedCandidate R → Type 0
  OneGrain c = All (OfGrain c) c.supporting_signals × All (OfGrain c) c.opposing_signals

  alike-OfGrain :
      (c : AggregatedCandidate R) (first : RegisteredStrategySignal R)
      (rest : List (RegisteredStrategySignal R))
      → OfGrain c first
      → All (λ item. same_grain item first ≡ true) rest
      → All (OfGrain c) rest
  alike-OfGrain c first [] h alike = tt
  alike-OfGrain c first (x ∷ xs) h alike = (ground arith, alike-OfGrain c first xs h alike.1)

  candidates-OneGrain :
      (groups : List (Group (RegisteredStrategySignal R)))
      → All (Alike same_grain) groups
      → All OneGrain (map candidate_of groups)
  unfolding candidate_of
  candidates-OneGrain [] h = tt
  candidates-OneGrain ((first, rest) ∷ groups) h =
      let c = candidate_of (first, rest) in
      let whole : All (OfGrain c) (first ∷ rest) = (
        (refl, refl, refl, refl, refl),
        alike-OfGrain c first rest (refl, refl, refl, refl, refl) h.0,
      ) in
      (
        (
          select-All (OfGrain c) (λ item. same_type (direction_of item) c.direction) (first ∷ rest)
              whole,
          select-All (OfGrain c) (λ item. not (same_type (direction_of item) c.direction))
              (first ∷ rest) whole,
        ),
        candidates-OneGrain groups h.1,
      )

  -- Signals are never merged across symbols, timeframes, horizons, candles or feature snapshots: all that
  -- supports or opposes a candidate agrees with it in each of these.
  pub aggregate-OneGrain :
      (signals : List (RegisteredStrategySignal R))
      → All OneGrain (aggregate_strategy_signals signals)
  unfolding aggregate_strategy_signals
  aggregate-OneGrain signals =
      candidates-OneGrain (group_all same_grain signals [])
        (group_all-Alike same_grain signals [] tt)
