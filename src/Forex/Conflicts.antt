-- ===== src/Forex/Conflicts.antt =====
-- src/markets/forex/runtime/lifecycle.py: the candidates of an instrument over its timeframes
-- (`classify_instrument_conflicts`), and the latest candidate of each timeframe (`update_candidate_state`).
-- The hash that identifies a candidate is the parameter `identity`. Symbols and timeframes are in one case
-- already, and texts that are put in order have codes in that order.
use delta_quant.Prelude.{
  Bool, true, false, ◌&&◌, Option, none, some, List, [], ◌∷◌, map, ltb, ◌==◌, if◌then◌else◌, select,
  Text,
}
use delta_quant.Prelude.Dict.{Dict, insert}
use delta_quant.Prelude.Real.{Real, real, ◌≺◌}
use delta_quant.Paper.{equal, or_real}
use delta_quant.Aggregation.{
  SignalType, buy, sell, same_type, AggregatedCandidate, profit_factor_of, RegisteredStrategySignal,
}
use delta_quant.Aggregation.Groups.{Group, group_all}

pub record InstrumentConflict : Type 0 where
  pub symbol : Text
  pub conflicted : Bool
  pub buy_timeframes : List Text
  pub sell_timeframes : List Text
  pub primary_candidate_id : Option Text

-- `sorted({...})`: without repetitions, in order.
abbrev pub put_in_order : Text → List Text → List Text
put_in_order t [] = t ∷ []
put_in_order t (x ∷ xs) =
    if t == x then x ∷ xs else if ltb t x then t ∷ x ∷ xs else x ∷ put_in_order t xs

abbrev pub sorted_set : List Text → List Text
sorted_set [] = []
sorted_set (t ∷ ts) = put_in_order t (sorted_set ts)

abbrev pub is_nonempty : List Text → Bool
is_nonempty [] = false
is_nonempty (t ∷ ts) = true

module _ {R : Type 0} ⦃r : Real R⦄ where
  abbrev pub factor_or_zero : Option R → R
  factor_or_zero none = real 0
  factor_or_zero (some factor) = or_real factor (real 0)

  abbrev pub validated_factor : Option (RegisteredStrategySignal R) → R
  validated_factor none = real 0
  validated_factor (some item) = factor_or_zero (profit_factor_of item)

  -- `_candidate_evidence(a) < _candidate_evidence(b)`, as tuples.
  abbrev pub less_evident : AggregatedCandidate R → AggregatedCandidate R → Bool
  less_evident a b =
      let factor_a = validated_factor a.strongest_validated_signal in
      let factor_b = validated_factor b.strongest_validated_signal in
      let quality_a = factor_or_zero a.technical_quality in
      let quality_b = factor_or_zero b.technical_quality in
      if equal factor_a factor_b
      then (if equal quality_a quality_b
          then (if a.settled_candle_timestamp == b.settled_candle_timestamp
              then ltb a.timeframe b.timeframe
              else ltb a.settled_candle_timestamp b.settled_candle_timestamp)
          else quality_a ≺ quality_b)
      else factor_a ≺ factor_b

  unfoldable pub most_evident :
      AggregatedCandidate R → List (AggregatedCandidate R) → AggregatedCandidate R
  most_evident best [] = best
  most_evident best (x ∷ xs) = most_evident (if less_evident best x then x else best) xs

  abbrev pub timeframes_of : SignalType → List (AggregatedCandidate R) → List Text
  timeframes_of d group =
      sorted_set (map (λ c. c.timeframe) (select (λ c. same_type c.direction d) group))

  abbrev pub executable_in : List (AggregatedCandidate R) → List (AggregatedCandidate R)
  executable_in = select (λ c. c.execution_allowed)

  module _ (identity : AggregatedCandidate R → Text) where
    abbrev pub primary_of : Bool → List (AggregatedCandidate R) → Option Text
    primary_of true executable = none
    primary_of false [] = none
    primary_of false (x ∷ xs) = some (identity (most_evident x xs))

    -- One round of the loop over the symbols.
    unfoldable pub classify : Group (AggregatedCandidate R) → InstrumentConflict
    classify (first, rest) =
        let group = first ∷ rest in
        let buys = timeframes_of buy group in
        let sells = timeframes_of sell group in
        let conflicted = is_nonempty buys && is_nonempty sells in
        record {
          symbol = first.symbol;
          conflicted = conflicted;
          buy_timeframes = buys;
          sell_timeframes = sells;
          primary_candidate_id = primary_of conflicted (executable_in group);
        }

    abbrev pub note_all :
        InstrumentConflict
        → List (AggregatedCandidate R)
        → Dict InstrumentConflict
        → Dict InstrumentConflict
    note_all resolution [] result = result
    note_all resolution (c ∷ cs) result =
        note_all resolution cs (insert (identity c) resolution result)

    unfoldable pub classify_all :
        List (Group (AggregatedCandidate R)) → Dict InstrumentConflict → Dict InstrumentConflict
    classify_all [] result = result
    classify_all ((first, rest) ∷ groups) result =
        classify_all groups (note_all (classify (first, rest)) (first ∷ rest) result)

    unfoldable pub classify_instrument_conflicts :
        List (AggregatedCandidate R) → Dict InstrumentConflict
    classify_instrument_conflicts candidates =
        classify_all (group_all (λ a b. a.symbol == b.symbol) candidates []) []

  -- The state by symbol and timeframe, in the order of insertion.
  abbrev pub same_slot : Text × Text → AggregatedCandidate R → Bool
  same_slot grain c = c.symbol == grain.0 && c.timeframe == grain.1

  abbrev pub pop : Text × Text → List (AggregatedCandidate R) → List (AggregatedCandidate R)
  pop grain [] = []
  pop grain (c ∷ cs) = if same_slot grain c then cs else c ∷ pop grain cs

  abbrev pub install :
      AggregatedCandidate R → List (AggregatedCandidate R) → List (AggregatedCandidate R)
  install candidate [] = candidate ∷ []
  install candidate (c ∷ cs) =
      if same_slot (candidate.symbol, candidate.timeframe) c
      then candidate ∷ cs
      else c ∷ install candidate cs

  unfoldable pub pop_all :
      List (Text × Text) → List (AggregatedCandidate R) → List (AggregatedCandidate R)
  pop_all [] state = state
  pop_all (grain ∷ grains) state = pop_all grains (pop grain state)

  unfoldable pub install_all :
      List (AggregatedCandidate R) → List (AggregatedCandidate R) → List (AggregatedCandidate R)
  install_all [] state = state
  install_all (c ∷ cs) state = install_all cs (install c state)

  unfoldable pub update_candidate_state :
      List (Text × Text)
      → List (AggregatedCandidate R)
      → List (AggregatedCandidate R)
      → List (AggregatedCandidate R)
  update_candidate_state changed_grains current_candidates state =
      install_all current_candidates (pop_all changed_grains state)
