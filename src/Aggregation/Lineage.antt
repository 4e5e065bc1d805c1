-- ===== src/Aggregation/Lineage.antt =====
-- src/core/aggregation/consolidation.py: what stands behind a candidate of `aggregate_strategy_signals`.
use delta_quant.Prelude.{
  ℕ, ◌+◌, ◌≡◌, refl, sym, subst, ◌∙◌, Bool, true, false, not, ◌&&◌, Bool-cases, Option-cases, some,
  inl, inr, ◌⊎◌, List, [], ◌∷◌, map, select, arith, All,
}
use delta_quant.Prelude.Real.{Real}
use delta_quant.Aggregation.{
  SignalType, same_type, RegisteredStrategySignal, AggregatedCandidate, Resolution, no_conflict,
  oos_profit_factor, unresolved_block, direction_of, eligible_in, profit_factor_of, resolve,
  is_unresolved, any_eligible, allows, candidate_of, same_grain, aggregate_strategy_signals,
}
use delta_quant.Aggregation.Groups.{Group, group_all, weigh, weigh_groups, weigh-group_all}
use delta_quant.Aggregation.Evidence.{All-select, select-All, select_holds}
use delta_quant.Aggregation.Winner.{IsLinear, AtLeast}
use delta_quant.Aggregation.Conflict.{IsResolved, resolve-IsResolved}

-- The sum of a weight over the parts of a list.
weigh-select {ℓ} :
    {A : Type ℓ} (weight : A → ℕ) (f : A → Bool) (xs : List A)
    → weigh weight (select f xs) + weigh weight (select (λ x. not (f x)) xs) ≡ weigh weight xs
unfolding weigh
weigh-select weight f [] = omega arith
weigh-select weight f (x ∷ xs) = elim (Bool-cases (f x)) [
  | inl e ↦ rw e (omega (arith, weigh-select weight f xs))
  | inr e ↦ rw e (omega (arith, weigh-select weight f xs))
]

pub map-All {ℓ κ} :
    {A B : Type ℓ} (P : B → Type κ) (f : A → B) (xs : List A)
    → ((x : A) → P (f x))
    → All P (map f xs)
map-All P f [] each = tt
map-All P f (x ∷ xs) each = (each x, map-All P f xs each)

module _ {R : Type 0} ⦃r : Real R⦄ where
  -- A signal has not passed, or its profit factor does not exceed the one that is given.
  abbrev pub Outdone : R → RegisteredStrategySignal R → Type 0
  Outdone factor x = (x.pipeline_eligible ≡ false) ⊎ AtLeast (some factor) (profit_factor_of x)

  -- An executable signal that has passed the pipeline and gives the candidate its direction; no signal that
  -- has passed points elsewhere, or this one has a profit factor out of sample that none of those that have
  -- passed and point elsewhere exceeds.
  pub record IsBacked (c : AggregatedCandidate R) : Type 0 where
    pub strongest : RegisteredStrategySignal R
    pub kept : c.strongest_validated_signal ≡ some strongest
    pub eligible : strongest.pipeline_eligible ≡ true
    pub executable : strongest.executable ≡ true
    pub direction : direction_of strongest ≡ c.direction
    pub resolved :
        (any_eligible c.opposing_signals ≡ false)
        ⊎ ((factor : R) × (profit_factor_of strongest ≡ some factor)
            × All (Outdone factor) c.opposing_signals)

  no_opposition :
      (s : RegisteredStrategySignal R) (group : List (RegisteredStrategySignal R))
      → All
          (λ (x : RegisteredStrategySignal R).
            (x.pipeline_eligible ≡ false) ⊎ (same_type (direction_of x) (direction_of s) ≡ true))
          group
      → any_eligible (select (λ item. not (same_type (direction_of item) (direction_of s))) group)
        ≡ false
  no_opposition s [] h = refl
  no_opposition s (x ∷ xs) h = elim (Bool-cases (same_type (direction_of x) (direction_of s))) [
    | inl e ↦ rw e (no_opposition s xs h.1)
    | inr e ↦ elim h.0 [ inl idle ↦ rw (e, idle) (no_opposition s xs h.1) | inr aligned ↦ cc ]
  ]

  abbrev Unopposed :
      SignalType → RegisteredStrategySignal R → List (RegisteredStrategySignal R) → Type 0
  Unopposed d s group =
      (any_eligible (select (λ item. not (same_type (direction_of item) d)) group) ≡ false)
      ⊎ ((factor : R) × (profit_factor_of s ≡ some factor)
          × All (Outdone factor) (select (λ item. not (same_type (direction_of item) d)) group))

  settled :
      (s : RegisteredStrategySignal R) (group : List (RegisteredStrategySignal R))
      (resolution : Resolution)
      → is_unresolved resolution ≡ false
      → IsResolved (eligible_in group) s resolution
      → Unopposed (direction_of s) s group
  unfolding IsResolved
  settled s group no_conflict open_ h = inl (
      no_opposition s group (
        All-select (λ item. same_type (direction_of item) (direction_of s) ≡ true)
          (λ item. item.pipeline_eligible) group h))
  settled s group oos_profit_factor open_ (factor, found, over) = inr (
    factor,
    found,
    select-All (Outdone factor) (λ item. not (same_type (direction_of item) (direction_of s))) group
        (All-select (λ x. AtLeast (some factor) (profit_factor_of x))
          (λ item. item.pipeline_eligible) group over),
  )
  settled s group unresolved_block open_ h = cc

  candidate_of-IsBacked :
      IsLinear R
      → (g : Group (RegisteredStrategySignal R))
      → ((candidate_of g).execution_allowed ≡ false) ⊎ IsBacked (candidate_of g)
  unfolding candidate_of
  candidate_of-IsBacked o (first, rest) =
      let group = first ∷ rest in
      let resolved = resolve (eligible_in group) in
      elim (Option-cases resolved.strongest) [
        | inl nothing ↦ inl (rw nothing refl)
        | inr (s, found) ↦
            let (passed, how) =
              resolve-IsResolved o (eligible_in group) s
                (select_holds (λ (item : RegisteredStrategySignal R). item.pipeline_eligible) group)
                found in
            let turned : (candidate_of (first, rest)).direction ≡ direction_of s = rw found refl in
            elim (Bool-cases (s.executable && not (is_unresolved resolved.resolution))) [
              | inr blocked ↦ inl (rw (found, allows, blocked) refl)
              | inl allowed ↦ inr (record {
                strongest = s;
                kept = found;
                eligible = passed;
                executable = ground arith;
                direction = sym turned;
                resolved =
                    subst (λ d. Unopposed d s group) (sym turned)
                      (settled s group resolved.resolution (ground arith) how);
              })
            ]
      ]

  -- When the floats are ordered as numbers are, a candidate that may be executed is backed by a signal of its
  -- direction that is executable itself and has passed the pipeline, so that shadow evidence neither becomes
  -- executable nor turns a candidate round; and either no signal that has passed opposes it, or the signal
  -- has a profit factor out of sample that no opposing signal that has passed exceeds.
  pub aggregate-IsBacked :
      IsLinear R
      → (signals : List (RegisteredStrategySignal R))
      → All
          (λ (c : AggregatedCandidate R). (c.execution_allowed ≡ false) ⊎ IsBacked c)
          (aggregate_strategy_signals signals)
  unfolding aggregate_strategy_signals
  aggregate-IsBacked o signals =
      map-All (λ (c : AggregatedCandidate R). (c.execution_allowed ≡ false) ⊎ IsBacked c)
        candidate_of (group_all same_grain signals []) (candidate_of-IsBacked o)

  abbrev pub weigh_candidates : (RegisteredStrategySignal R → ℕ) → List (AggregatedCandidate R) → ℕ
  weigh_candidates weight [] = 0
  weigh_candidates weight (c ∷ cs) =
      weigh weight c.supporting_signals
      + weigh weight c.opposing_signals
      + weigh_candidates weight cs

  weigh-map :
      (weight : RegisteredStrategySignal R → ℕ) (groups : List (Group (RegisteredStrategySignal R)))
      → weigh_candidates weight (map candidate_of groups) ≡ weigh_groups weight groups
  unfolding candidate_of weigh_groups
  weigh-map weight [] = refl
  weigh-map weight ((first, rest) ∷ groups) =
      let d = (candidate_of (first, rest)).direction in
      omega (
        arith,
        weigh-map weight groups,
        weigh-select weight (λ (item : RegisteredStrategySignal R). same_type (direction_of item) d)
            (first ∷ rest),
      )

  -- No signal is lost or doubled: every weight of the signals adds up to the same over what supports and
  -- what opposes the candidates as over the signals that were given.
  pub aggregate-weigh :
      (weight : RegisteredStrategySignal R → ℕ) (signals : List (RegisteredStrategySignal R))
      → weigh_candidates weight (aggregate_strategy_signals signals) ≡ weigh weight signals
  unfolding aggregate_strategy_signals weigh_groups
  aggregate-weigh weight signals =
      weigh-map weight (group_all same_grain signals [])
      ∙ weigh-group_all weight same_grain signals []
      ∙ omega arith
