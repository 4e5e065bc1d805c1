-- ===== src/Forex/ConflictSamples.antt =====
-- Two instruments: one whose timeframes agree, one whose timeframes do not.
use delta_quant.Prelude.{
  is_some, ℕ, if◌then◌else◌, ◌+◌, ◌*◌, ◌≡◌, refl, true, false, none, some, List, [], ◌∷◌, All, Text,
}
use delta_quant.Prelude.Dict.{lookup}
use delta_quant.Prelude.Int.{ℤ, pos}
use delta_quant.Prelude.Real.{Real}
use delta_quant.Prelude.Whole.{whole_units}
use delta_quant.Aggregation.{
  SignalType, buy, sell, no_conflict, single, none_at_all, AggregatedCandidate,
}
use delta_quant.Aggregation.Groups.{group_all, add_to}
use delta_quant.Forex.Conflicts.{
  InstrumentConflict, classify, classify_all, most_evident, classify_instrument_conflicts,
  update_candidate_state,
}
use delta_quant.Forex.Grains.{
  AllApart, find, latest, is_changed, or_earlier, find-update_candidate_state,
}
use delta_quant.Forex.Primary.{IsVerdict, classify_instrument_conflicts-IsVerdict}

instance abbrev whole : Real ℤ
whole = whole_units

abbrev candidate : Text → Text → SignalType → ℕ → AggregatedCandidate ℤ
candidate symbol timeframe direction quality = record {
  symbol = symbol;
  timeframe = timeframe;
  trade_horizon = 1;
  settled_candle_timestamp = 900;
  feature_snapshot_id = 5;
  direction = direction;
  supporting_signals = [];
  opposing_signals = [];
  strongest_validated_signal = none;
  agreement_level = single;
  conflict_level = none_at_all;
  conflict_resolution = no_conflict;
  technical_quality = some (pos quality);
  pipeline_eligible = true;
  execution_allowed = true;
  shadow_only = false;
}

abbrev named : AggregatedCandidate ℤ → Text
named c = 100 * c.symbol + c.timeframe

abbrev scan : List (AggregatedCandidate ℤ)
scan =
    candidate 1 15 buy 60
    ∷ candidate 2 15 sell 80
    ∷ candidate 1 60 buy 70
    ∷ candidate 2 60 buy 90
    ∷ []

classify_instrument_conflicts-IsVerdict_example :
    All (λ c. is_some (lookup (named c) (classify_instrument_conflicts named scan)) ≡ true) scan
    × All
        (λ (entry : Text × InstrumentConflict). IsVerdict named scan entry.1)
        (classify_instrument_conflicts named scan)
classify_instrument_conflicts-IsVerdict_example = classify_instrument_conflicts-IsVerdict named scan

abbrev agreed : InstrumentConflict
agreed = record {
  symbol = 1;
  conflicted = false;
  buy_timeframes = 15 ∷ 60 ∷ [];
  sell_timeframes = [];
  primary_candidate_id = some 160;
}

abbrev torn : InstrumentConflict
torn = record {
  symbol = 2;
  conflicted = true;
  buy_timeframes = 60 ∷ [];
  sell_timeframes = 15 ∷ [];
  primary_candidate_id = none;
}

scan_verdicts :
    classify_instrument_conflicts named scan
    ≡ (115, agreed) ∷ (160, agreed) ∷ (215, torn) ∷ (260, torn) ∷ []
unfolding classify_instrument_conflicts classify_all classify most_evident group_all add_to
scan_verdicts = refl

abbrev latest_scan : List (AggregatedCandidate ℤ)
latest_scan = candidate 2 15 buy 75 ∷ []

find-update_candidate_state_example :
    (find (2, 15) (update_candidate_state ((2, 15) ∷ (1, 60) ∷ []) latest_scan scan)
      ≡ or_earlier
          (latest (2, 15) latest_scan)
          (if is_changed (2, 15) ((2, 15) ∷ (1, 60) ∷ []) then none else find (2, 15) scan))
    × AllApart (update_candidate_state ((2, 15) ∷ (1, 60) ∷ []) latest_scan scan)
find-update_candidate_state_example =
    find-update_candidate_state (2, 15) ((2, 15) ∷ (1, 60) ∷ []) latest_scan scan
      (refl, (refl, (refl, (refl, tt))))
