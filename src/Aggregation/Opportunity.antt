-- ===== src/Aggregation/Opportunity.antt =====
-- src/core/aggregation/consolidation.py: `consolidate_signals`, one opportunity for each symbol, timeframe and
-- direction that strategies agree on.
use delta_quant.Prelude.{
  ℕ, ◌-◌, Bool, false, not, ◌&&◌, ◌||◌, List, [], ◌∷◌, map, length, ◌==◌, if◌then◌else◌, select,
  Text,
}
use delta_quant.Prelude.Real.{Real, real, ◌⊕◌, ◌⊗◌, ◌⊘◌, ◌≺◌, minimum}
use delta_quant.Aggregation.{SignalType, hold, same_type, TradingSignal}
use delta_quant.Aggregation.Groups.{Group, group_all}

pub record ConsolidatedSignal (R : Type 0) : Type 0 where
  pub symbol : Text
  pub timeframe : Text
  pub signal_type : SignalType
  pub contributing_strategies : List Text
  pub agreement_count : ℕ
  pub representative_signal : TradingSignal R
  pub blended_confidence : R

abbrev pub contains_text : Text → List Text → Bool
contains_text t [] = false
contains_text t (x ∷ xs) = t == x || contains_text t xs

abbrev pub distinct_texts : List Text → List Text → List Text
distinct_texts seen [] = []
distinct_texts seen (t ∷ ts) =
    if contains_text t seen then distinct_texts seen ts else t ∷ distinct_texts (t ∷ seen) ts

module _ {R : Type 0} ⦃r : Real R⦄ where
  abbrev pub agreement_confidence_step : R
  agreement_confidence_step = real 5 ⊘ real 100

  abbrev pub agreement_confidence_cap : R
  agreement_confidence_cap = real 95 ⊘ real 100

  unfoldable pub blend_confidence : R → ℕ → R
  blend_confidence base_confidence agreement_count =
      minimum agreement_confidence_cap
        (base_confidence ⊕ agreement_confidence_step ⊗ real (agreement_count - 1))

  unfoldable pub representative : TradingSignal R → List (TradingSignal R) → TradingSignal R
  representative best [] = best
  representative best (x ∷ xs) =
      representative (if best.confidence ≺ x.confidence then x else best) xs

  unfoldable pub consolidate : Group (TradingSignal R) → ConsolidatedSignal R
  consolidate (first, rest) =
      let best = representative first rest in
      let count = length (first ∷ rest) in
      record {
        symbol = first.symbol;
        timeframe = first.timeframe;
        signal_type = first.signal_type;
        contributing_strategies = distinct_texts [] (map (λ s. s.strategy) (first ∷ rest));
        agreement_count = count;
        representative_signal = best;
        blended_confidence = blend_confidence best.confidence count;
      }

  abbrev pub same_opportunity : TradingSignal R → TradingSignal R → Bool
  same_opportunity a b =
      a.symbol == b.symbol && a.timeframe == b.timeframe && same_type a.signal_type b.signal_type

  abbrev pub tradeable : TradingSignal R → Bool
  tradeable s = not (same_type s.signal_type hold)

  unfoldable pub consolidate_signals : List (TradingSignal R) → List (ConsolidatedSignal R)
  consolidate_signals signals =
      map consolidate (group_all same_opportunity (select tradeable signals) [])
