-- ===== src/Aggregation.antt =====
-- src/core/aggregation/consolidation.py: the signals of several strategies become one candidate for each
-- symbol, timeframe and candle (`aggregate_strategy_signals`), or one opportunity for each direction
-- (`consolidate_signals`, in `Aggregation.Opportunity`). Of a signal the fields that these functions read are kept. Where the code goes
-- through a set of directions, whose order Python leaves open, the model takes the order of the signals.
pub mod Groups
pub mod Keyed
pub mod Evidence
pub mod Winner
pub mod Conflict
pub mod Lineage
pub mod Grain
pub mod Opportunity
pub mod Agreed
mod Samples
use delta_quant.Prelude.{
  ℕ, ◌+◌, ◌-◌, Bool, true, false, not, ◌&&◌, ◌||◌, Option, none, some, List, [], ◌∷◌, map, length,
  ltb, leb, ◌==◌, if◌then◌else◌, select, is_some, Text,
}
use delta_quant.Prelude.Real.{Real, real, ◌⊕◌, ◌⊗◌, ◌⊘◌, ◌≺◌, ◌≼◌, minimum, maximum}
use delta_quant.Paper.{equal}
use delta_quant.Aggregation.Groups.{Group, group_all}

pub data SignalType : Type 0 where
  buy sell hold : SignalType

abbrev pub same_type : SignalType → SignalType → Bool
same_type buy buy = true
same_type buy sell = false
same_type buy hold = false
same_type sell buy = false
same_type sell sell = true
same_type sell hold = false
same_type hold buy = false
same_type hold sell = false
same_type hold hold = true

pub record TradingSignal (R : Type 0) : Type 0 where
  pub symbol : Text
  pub timeframe : Text
  pub trade_horizon : Text
  pub signal_type : SignalType
  pub strategy : Text
  pub confidence : R

pub record StrategyEligibility (R : Type 0) : Type 0 where
  pub oos_profit_factor : Option R
  pub oos_trade_count : ℕ

pub record RegisteredStrategySignal (R : Type 0) : Type 0 where
  pub signal : TradingSignal R
  pub feature_snapshot_id : Text
  pub settled_candle_timestamp : Text
  pub eligibility : Option (StrategyEligibility R)
  pub pipeline_eligible : Bool
  pub executable : Bool

pub data Level : Type 0 where
  none_at_all low single medium high : Level

pub data Resolution : Type 0 where
  no_conflict oos_profit_factor unresolved_block : Resolution

pub record AggregatedCandidate (R : Type 0) : Type 0 where
  pub symbol : Text
  pub timeframe : Text
  pub trade_horizon : Text
  pub settled_candle_timestamp : Text
  pub feature_snapshot_id : Text
  pub direction : SignalType
  pub supporting_signals : List (RegisteredStrategySignal R)
  pub opposing_signals : List (RegisteredStrategySignal R)
  pub strongest_validated_signal : Option (RegisteredStrategySignal R)
  pub agreement_level : Level
  pub conflict_level : Level
  pub conflict_resolution : Resolution
  pub technical_quality : Option R
  pub pipeline_eligible : Bool
  pub execution_allowed : Bool
  pub shadow_only : Bool

-- The strongest signal that the conflict leaves, and how it was resolved.
pub record Resolved (R : Type 0) : Type 0 where
  pub strongest : Option (RegisteredStrategySignal R)
  pub resolution : Resolution

abbrev pub is_unresolved : Resolution → Bool
is_unresolved no_conflict = false
is_unresolved oos_profit_factor = false
is_unresolved unresolved_block = true

abbrev pub contains_type : SignalType → List SignalType → Bool
contains_type d [] = false
contains_type d (x ∷ xs) = same_type d x || contains_type d xs

-- A set, in the order in which its members were met.
abbrev pub distinct_types : List SignalType → List SignalType → List SignalType
distinct_types seen [] = []
distinct_types seen (d ∷ ds) =
    if contains_type d seen then distinct_types seen ds else d ∷ distinct_types (d ∷ seen) ds

abbrev pub rank : Bool → ℕ
rank b = if b then 1 else 0

abbrev pub agreement_of : ℕ → Level
agreement_of count = if leb 3 count then high else if count == 2 then medium else single

module _ {R : Type 0} ⦃r : Real R⦄ where
  abbrev pub direction_of : RegisteredStrategySignal R → SignalType
  direction_of item = item.signal.signal_type

  abbrev pub profit_factor_of : RegisteredStrategySignal R → Option R
  profit_factor_of item = elim item.eligibility [ none ↦ none | some e ↦ e.oos_profit_factor ]

  abbrev pub trade_count_of : RegisteredStrategySignal R → Option R
  trade_count_of item = elim item.eligibility [
    | none ↦ none
    | some e ↦ some (real e.oos_trade_count)
  ]

  -- The order of floats with `none` for minus infinity.
  abbrev pub lt_inf : Option R → Option R → Bool
  lt_inf none none = false
  lt_inf none (some b) = true
  lt_inf (some a) none = false
  lt_inf (some a) (some b) = a ≺ b

  abbrev pub eq_inf : Option R → Option R → Bool
  eq_inf none none = true
  eq_inf none (some b) = false
  eq_inf (some a) none = false
  eq_inf (some a) (some b) = equal a b

  -- `_evidence_key(a) < _evidence_key(b)`, as tuples.
  abbrev pub weaker : RegisteredStrategySignal R → RegisteredStrategySignal R → Bool
  weaker a b =
      if rank a.pipeline_eligible == rank b.pipeline_eligible
      then (if eq_inf (profit_factor_of a) (profit_factor_of b)
          then (if eq_inf (trade_count_of a) (trade_count_of b)
              then a.signal.confidence ≺ b.signal.confidence
              else lt_inf (trade_count_of a) (trade_count_of b))
          else lt_inf (profit_factor_of a) (profit_factor_of b))
      else ltb (rank a.pipeline_eligible) (rank b.pipeline_eligible)

  -- `max(..., key=_evidence_key)`: the first of the strongest.
  unfoldable pub strongest_of :
      RegisteredStrategySignal R → List (RegisteredStrategySignal R) → RegisteredStrategySignal R
  strongest_of best [] = best
  strongest_of best (x ∷ xs) = strongest_of (if weaker best x then x else best) xs

  abbrev pub strongest_in : List (RegisteredStrategySignal R) → Option (RegisteredStrategySignal R)
  strongest_in [] = none
  strongest_in (x ∷ xs) = some (strongest_of x xs)

  abbrev pub eligible_in : List (RegisteredStrategySignal R) → List (RegisteredStrategySignal R)
  eligible_in = select (λ item. item.pipeline_eligible)

  abbrev pub of_direction :
      SignalType → List (RegisteredStrategySignal R) → List (RegisteredStrategySignal R)
  of_direction d = select (λ item. same_type (direction_of item) d)

  abbrev pub directions_in : List (RegisteredStrategySignal R) → List SignalType
  directions_in items = distinct_types [] (map direction_of items)

  abbrev pub with_factor : SignalType → Option R → List (SignalType × R) → List (SignalType × R)
  with_factor d none rest = rest
  with_factor d (some factor) rest = (d, factor) ∷ rest

  abbrev pub factor_in : Option (RegisteredStrategySignal R) → Option R
  factor_in none = none
  factor_in (some item) = profit_factor_of item

  -- `finite`: the profit factor of the best signal of each direction that has one.
  unfoldable pub finite_factors :
      List (RegisteredStrategySignal R) → List SignalType → List (SignalType × R)
  finite_factors items [] = []
  finite_factors items (d ∷ ds) =
      with_factor d (factor_in (strongest_in (of_direction d items))) (finite_factors items ds)

  abbrev pub differs_from : R → List (SignalType × R) → Bool
  differs_from factor [] = false
  differs_from factor ((d, other) ∷ rest) = not (equal factor other) || differs_from factor rest

  -- `len(set(finite.values())) > 1`
  abbrev pub varied : List (SignalType × R) → Bool
  varied [] = false
  varied ((d, factor) ∷ rest) = differs_from factor rest

  abbrev pub top_from : SignalType × R → List (SignalType × R) → SignalType × R
  top_from best [] = best
  top_from best (x ∷ xs) = top_from (if best.1 ≺ x.1 then x else best) xs

  abbrev pub best_direction : List (SignalType × R) → Option SignalType
  best_direction [] = none
  best_direction (x ∷ xs) = some (top_from x xs).0

  abbrev pub chosen : Option SignalType → List (RegisteredStrategySignal R) → Resolved R
  chosen none items = record { strongest = none; resolution = oos_profit_factor }
  chosen (some d) items = record {
    strongest = strongest_in (of_direction d items);
    resolution = oos_profit_factor;
  }

  unfoldable pub resolve : List (RegisteredStrategySignal R) → Resolved R
  resolve eligible =
      let directions = directions_in eligible in
      let finite = finite_factors eligible directions in
      if ltb 1 (length directions)
      then (if length finite == length directions && varied finite
          then chosen (best_direction finite) eligible
          else record { strongest = strongest_in eligible; resolution = unresolved_block })
      else record { strongest = strongest_in eligible; resolution = no_conflict }

  abbrev pub any_eligible : List (RegisteredStrategySignal R) → Bool
  any_eligible [] = false
  any_eligible (x ∷ xs) = x.pipeline_eligible || any_eligible xs

  abbrev pub is_none_left : List (RegisteredStrategySignal R) → Bool
  is_none_left [] = true
  is_none_left (x ∷ xs) = false

  abbrev pub conflict_of : List (RegisteredStrategySignal R) → Level
  conflict_of opposing =
      if any_eligible opposing then high else if is_none_left opposing then none_at_all else low

  abbrev pub support_count : List (RegisteredStrategySignal R) → ℕ
  support_count supporting =
      let eligible = length (eligible_in supporting) in
      if eligible == 0 then length supporting else eligible

  abbrev pub most_confident : Option R → List (RegisteredStrategySignal R) → Option R
  most_confident best [] = best
  most_confident none (x ∷ xs) = most_confident (some x.signal.confidence) xs
  most_confident (some best) (x ∷ xs) = most_confident (some (maximum best x.signal.confidence)) xs

  abbrev pub or_anchor :
      Option (RegisteredStrategySignal R) → RegisteredStrategySignal R → RegisteredStrategySignal R
  or_anchor none other = other
  or_anchor (some item) other = item

  abbrev pub allows : Option (RegisteredStrategySignal R) → Bool → Bool
  allows none unresolved = false
  allows (some item) unresolved = item.executable && not unresolved

  -- One round of the loop over the groups.
  unfoldable pub candidate_of : Group (RegisteredStrategySignal R) → AggregatedCandidate R
  candidate_of (first, rest) =
      let group = first ∷ rest in
      let resolved = resolve (eligible_in group) in
      let unresolved = is_unresolved resolved.resolution in
      let direction = direction_of (or_anchor resolved.strongest (strongest_of first rest)) in
      let supporting = of_direction direction group in
      let opposing = select (λ item. not (same_type (direction_of item) direction)) group in
      record {
        symbol = first.signal.symbol;
        timeframe = first.signal.timeframe;
        trade_horizon = first.signal.trade_horizon;
        settled_candle_timestamp = first.settled_candle_timestamp;
        feature_snapshot_id = first.feature_snapshot_id;
        direction = direction;
        supporting_signals = supporting;
        opposing_signals = opposing;
        strongest_validated_signal = resolved.strongest;
        agreement_level = agreement_of (support_count supporting);
        conflict_level = conflict_of opposing;
        conflict_resolution = resolved.resolution;
        technical_quality = most_confident none supporting;
        pipeline_eligible = is_some resolved.strongest && not unresolved;
        execution_allowed = allows resolved.strongest unresolved;
        shadow_only = not (allows resolved.strongest unresolved);
      }

  -- The key of a group.
  abbrev pub same_grain : RegisteredStrategySignal R → RegisteredStrategySignal R → Bool
  same_grain a b =
      a.signal.symbol == b.signal.symbol
      && a.signal.timeframe == b.signal.timeframe
      && a.signal.trade_horizon == b.signal.trade_horizon
      && a.settled_candle_timestamp == b.settled_candle_timestamp
      && a.feature_snapshot_id == b.feature_snapshot_id

  unfoldable pub aggregate_strategy_signals :
      List (RegisteredStrategySignal R) → List (AggregatedCandidate R)
  aggregate_strategy_signals signals = map candidate_of (group_all same_grain signals [])
