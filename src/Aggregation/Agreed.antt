-- ===== src/Aggregation/Agreed.antt =====
-- src/core/aggregation/consolidation.py: what `consolidate_signals` makes of the signals.
use delta_quant.Prelude.{
  ℕ, ◌+◌, ◌-◌, ◌≡◌, refl, ◌∙◌, true, not, Bool-cases, inl, inr, List, [], ◌∷◌, map, length, select,
  arith, All,
}
use delta_quant.Prelude.Real.{Real, IsOrdered, real, ◌⊕◌, ◌⊗◌, ◌≺◌, ◌≼◌}
use delta_quant.Aggregation.{same_type, hold, TradingSignal}
use delta_quant.Aggregation.Opportunity.{
  ConsolidatedSignal, representative, consolidate, consolidate_signals, same_opportunity, tradeable,
  blend_confidence, agreement_confidence_cap, agreement_confidence_step,
}
use delta_quant.Aggregation.Groups.{
  Group, group_all, weigh, weigh_groups, weigh-group_all, Alike, group_all-Alike, Throughout,
  group_all-Throughout,
}
use delta_quant.Aggregation.Evidence.{same_type-eq, same_type_refl, select_holds}

module _ {R : Type 0} ⦃r : Real R⦄ where
  representative-All {κ} :
      (P : TradingSignal R → Type κ) (best : TradingSignal R) (xs : List (TradingSignal R))
      → P best
      → All P xs
      → P (representative best xs)
  unfolding representative
  representative-All P best [] h hs = h
  representative-All P best (x ∷ xs) h hs = elim (Bool-cases (best.confidence ≺ x.confidence)) [
    | inl e ↦ rw e (representative-All P x xs hs.0 hs.1)
    | inr e ↦ rw e (representative-All P best xs h hs.1)
  ]

  -- How many signals agree, over all opportunities.
  abbrev pub total_agreement : List (ConsolidatedSignal R) → ℕ
  total_agreement [] = 0
  total_agreement (c ∷ cs) = c.agreement_count + total_agreement cs

  weigh-length : (xs : List (TradingSignal R)) → weigh (λ s. 1) xs ≡ length xs
  unfolding weigh
  weigh-length [] = refl
  weigh-length (x ∷ xs) = omega (arith, weigh-length xs)

  total-weigh :
      (groups : List (Group (TradingSignal R)))
      → total_agreement (map consolidate groups) ≡ weigh_groups (λ s. 1) groups
  unfolding consolidate weigh_groups
  total-weigh [] = refl
  total-weigh ((first, rest) ∷ groups) =
      omega (arith, total-weigh groups, weigh-length (first ∷ rest))

  -- What an opportunity promises of the signal that represents it.
  abbrev pub IsRepresented : ConsolidatedSignal R → Type 0
  IsRepresented c =
      (c.representative_signal.symbol ≡ c.symbol)
      × (c.representative_signal.timeframe ≡ c.timeframe)
      × (c.representative_signal.signal_type ≡ c.signal_type)
      × (not (same_type c.signal_type hold) ≡ true)
      × ((c.blended_confidence ≼ agreement_confidence_cap) ≡ true)

  blend_confidence-le :
      IsOrdered R
      → (base : R) (count : ℕ) → (blend_confidence base count ≼ agreement_confidence_cap) ≡ true
  unfolding blend_confidence
  blend_confidence-le o base count =
      let boosted = base ⊕ agreement_confidence_step ⊗ real (count - 1) in
      elim (Bool-cases (boosted ≺ agreement_confidence_cap)) [
        | inl e ↦ rw e (o.le_of_lt _ _ e)
        | inr e ↦ rw e (o.le_refl agreement_confidence_cap)
      ]

  alike-represents :
      (first : TradingSignal R) (rest : List (TradingSignal R))
      → All (λ s. same_opportunity s first ≡ true) rest
      → same_opportunity (representative first rest) first ≡ true
  alike-represents first rest alike =
      representative-All (λ s. same_opportunity s first ≡ true) first rest
        (ground (arith, same_type_refl first.signal_type)) alike

  consolidate-IsRepresented :
      IsOrdered R
      → (groups : List (Group (TradingSignal R))) → All (Alike same_opportunity) groups
      → All (Throughout (λ s. tradeable s ≡ true)) groups
      → All IsRepresented (map consolidate groups)
  unfolding consolidate
  consolidate-IsRepresented o [] h ts = tt
  consolidate-IsRepresented o ((first, rest) ∷ groups) h ts =
      let best = representative first rest in
      let same = alike-represents first rest h.0 in
      let count = length (first ∷ rest) in
      (
        (
          ground (arith, same),
          ground (arith, same),
          same_type-eq best.signal_type first.signal_type (ground (arith, same)),
          ts.0.0,
          blend_confidence-le o best.confidence count,
        ),
        consolidate-IsRepresented o groups h.1 ts.1,
      )

  -- Every tradeable signal counts towards one opportunity. An opportunity is never for holding, its
  -- representative is about its symbol, timeframe and direction, and its confidence, whatever agreement
  -- adds to it, is within the cap.
  pub consolidate_signals-IsRepresented :
      IsOrdered R
      → (signals : List (TradingSignal R))
      → (total_agreement (consolidate_signals signals) ≡ length (select tradeable signals))
        × All IsRepresented (consolidate_signals signals)
  unfolding consolidate_signals weigh_groups
  consolidate_signals-IsRepresented o signals =
      let kept = select tradeable signals in
      let groups = group_all same_opportunity kept [] in
      (
        total-weigh groups
            ∙ weigh-group_all (λ (s : TradingSignal R). 1) same_opportunity kept []
            ∙ omega (arith, weigh-length kept),
        consolidate-IsRepresented o groups (group_all-Alike same_opportunity kept [] tt) (
            group_all-Throughout (λ (s : TradingSignal R). tradeable s ≡ true) same_opportunity kept
              [] (select_holds tradeable signals) tt),
      )
