-- ===== src/Aggregation/Samples.antt =====
-- Three strategies on one symbol, two for buying and one against, and a signal of another symbol.
use delta_quant.Prelude.{
  ℕ, ◌≡◌, refl, ◌⊎◌, true, false, some, List, [], ◌∷◌, length, select, All, Text, Bool, arith,
}
use delta_quant.Prelude.Int.{ℤ, pos}
use delta_quant.Prelude.Real.{Real, exact-IsOrdered}
use delta_quant.Prelude.Whole.{whole_units, truncated}
use delta_quant.Aggregation.{
  SignalType, buy, sell, hold, TradingSignal, RegisteredStrategySignal, AggregatedCandidate,
  aggregate_strategy_signals, candidate_of, resolve, strongest_of, finite_factors,
}
use delta_quant.Aggregation.Opportunity.{consolidate_signals, tradeable}
use delta_quant.Aggregation.Groups.{weigh, group_all, add_to}
use delta_quant.Aggregation.Lineage.{
  IsBacked, aggregate-IsBacked, weigh_candidates, aggregate-weigh,
}
use delta_quant.Aggregation.Winner.{IsLinear}
use delta_quant.Aggregation.Agreed.{
  IsRepresented, total_agreement, consolidate_signals-IsRepresented,
}

instance abbrev whole : Real ℤ
whole = whole_units

exact-IsLinear : IsLinear ℤ
exact-IsLinear = record {
  lt_irrefl = λ a. ground arith;
  lt_asym = λ a b h. ground arith;
  not_lt_trans = λ a b c h k. ground arith;
  equal-lt = λ a b h. (ground arith, ground arith);
}

abbrev signal_of : Text → SignalType → Text → ℕ → TradingSignal ℤ
signal_of symbol signal_type strategy confidence = record {
  symbol = symbol;
  timeframe = 15;
  trade_horizon = 1;
  signal_type = signal_type;
  strategy = strategy;
  confidence = pos confidence;
}

abbrev registered : TradingSignal ℤ → ℕ → Bool → RegisteredStrategySignal ℤ
registered signal factor passed = record {
  signal = signal;
  feature_snapshot_id = 5;
  settled_candle_timestamp = 900;
  eligibility = some (record { oos_profit_factor = some (pos factor); oos_trade_count = 40 });
  pipeline_eligible = passed;
  executable = passed;
}

abbrev scan : List (RegisteredStrategySignal ℤ)
scan =
    registered (signal_of 1 sell 21 60) 2 true
    ∷ registered (signal_of 1 buy 22 70) 3 true
    ∷ registered (signal_of 2 buy 22 90) 9 false
    ∷ registered (signal_of 1 buy 23 95) 9 false
    ∷ []

aggregate-IsBacked_example :
    All
      (λ (c : AggregatedCandidate ℤ). (c.execution_allowed ≡ false) ⊎ IsBacked c)
      (aggregate_strategy_signals scan)
aggregate-IsBacked_example = aggregate-IsBacked exact-IsLinear scan

-- Buying wins by its profit factor, with the signal that has passed, though another is more confident.
abbrev verdicts : List (AggregatedCandidate ℤ) → List (SignalType × Bool × ℕ × ℕ)
verdicts [] = []
verdicts (c ∷ cs) =
    (c.direction, c.execution_allowed, length c.supporting_signals, length c.opposing_signals)
    ∷ verdicts cs

scan_outcome :
    verdicts (aggregate_strategy_signals scan) ≡ (buy, true, 2, 1) ∷ (buy, false, 1, 0) ∷ []
unfolding aggregate_strategy_signals group_all add_to candidate_of resolve strongest_of
    finite_factors
scan_outcome = refl

abbrev passes : RegisteredStrategySignal ℤ → ℕ
passes s = 1

aggregate-weigh_example :
    weigh_candidates passes (aggregate_strategy_signals scan) ≡ weigh passes scan
aggregate-weigh_example = aggregate-weigh passes scan

abbrev plain : List (TradingSignal ℤ)
plain =
    signal_of 1 buy 21 60
    ∷ signal_of 1 hold 24 99
    ∷ signal_of 1 buy 22 70
    ∷ signal_of 1 sell 22 50
    ∷ []

consolidate_signals-IsRepresented_example :
    (total_agreement (consolidate_signals plain) ≡ length (select tradeable plain))
    × All IsRepresented (consolidate_signals plain)
consolidate_signals-IsRepresented_example =
    consolidate_signals-IsRepresented (exact-IsOrdered truncated) plain
