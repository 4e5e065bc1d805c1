-- ===== src/Aggregation/Conflict.antt =====
-- src/core/aggregation/consolidation.py: a conflict that is resolved is won by the best profit factor.
use delta_quant.Prelude.{
  ◌≡◌, refl, sym, ap, ◌∙◌, subst, true, false, ◌&&◌, ◌||◌, Bool-cases, Option-cases, Option, some,
  inl, inr, ◌⊎◌, List, [], ◌∷◌, map, length, ltb, ◌==◌, arith, All,
}
use delta_quant.Prelude.Real.{Real, ◌≺◌}
use delta_quant.Aggregation.Evidence.{
  same_type-eq, same_type_refl, select-All, All-select, strongest_in-All, one_direction, IsFactor,
  finite_factors-All, top_from-All,
}
use delta_quant.Aggregation.{
  SignalType, same_type, RegisteredStrategySignal, profit_factor_of, strongest_in, of_direction,
  direction_of, directions_in, distinct_types, contains_type, finite_factors, factor_in, top_from,
  best_direction, chosen, resolve, varied, Resolution, no_conflict, oos_profit_factor,
  unresolved_block,
}
use delta_quant.Aggregation.Winner.{
  IsLinear, AtLeast, inf_trans, strongest_in-AtLeast, top_from-best,
}

-- A member of a set of directions has what all of them have.
of_contains {κ} :
    (Q : SignalType → Type κ) (d : SignalType) (ds : List SignalType)
    → contains_type d ds ≡ true
    → All Q ds
    → Q d
of_contains Q d [] h hs = cc
of_contains Q d (e ∷ es) h hs = elim (Bool-cases (same_type d e)) [
  | inl same ↦ subst Q (sym (same_type-eq d e same)) hs.0
  | inr other ↦ of_contains Q d es (rw other at h) hs.1
]

moved_in :
    (d : SignalType) (seen new_ ds : List SignalType)
    → All (λ x. (contains_type x new_ || contains_type x (d ∷ seen)) ≡ true) ds
    → All (λ x. (contains_type x (d ∷ new_) || contains_type x seen) ≡ true) ds
moved_in d seen new_ [] h = tt
moved_in d seen new_ (x ∷ xs) h = (ground arith, moved_in d seen new_ xs h.1)

-- Every direction that is met is in the set, if it was not seen before.
distinct_types-contains :
    (seen ds : List SignalType)
    → All (λ d. (contains_type d (distinct_types seen ds) || contains_type d seen) ≡ true) ds
distinct_types-contains seen [] = tt
distinct_types-contains seen (d ∷ ds) = elim (Bool-cases (contains_type d seen)) [
  | inl old ↦
      let e : distinct_types seen (d ∷ ds) ≡ distinct_types seen ds = rw old refl in
      subst (λ D. All (λ x. (contains_type x D || contains_type x seen) ≡ true) (d ∷ ds)) (sym e)
        (ground (arith, old), distinct_types-contains seen ds)
  | inr new_ ↦
      let later = distinct_types (d ∷ seen) ds in
      let e : distinct_types seen (d ∷ ds) ≡ d ∷ later = rw new_ refl in
      subst (λ D. All (λ x. (contains_type x D || contains_type x seen) ≡ true) (d ∷ ds)) (sym e)
        (
          ground (arith, same_type_refl d),
          moved_in d seen later ds (distinct_types-contains (d ∷ seen) ds),
        )
]

module _ {R : Type 0} ⦃r : Real R⦄ where
  -- The strongest signal is one of those given; and all share its direction, or it has a profit factor that
  -- is not below that of any, or the conflict is unresolved.
  unfoldable pub IsResolved :
      List (RegisteredStrategySignal R) → RegisteredStrategySignal R → Resolution → Type 0
  IsResolved items s no_conflict =
      All (λ item. same_type (direction_of item) (direction_of s) ≡ true) items
  IsResolved items s oos_profit_factor =
      (factor : R) × (profit_factor_of s ≡ some factor)
      × All (λ x. AtLeast (some factor) (profit_factor_of x)) items
  IsResolved items s unresolved_block = Unit

  -- Each signal finds its own direction among all.
  at_direction {κ} :
      (Q : SignalType → RegisteredStrategySignal R → Type κ)
      (xs : List (RegisteredStrategySignal R))
      → ((d : SignalType) → All (Q d) xs)
      → All (λ x. Q (direction_of x) x) xs
  at_direction Q [] h = tt
  at_direction Q (x ∷ xs) h = ((h (direction_of x)).0, at_direction Q xs (λ d. (h d).1))

module _ {R : Type 0} ⦃r : Real R⦄ (o : IsLinear R) where
  -- A factor that is not below any that is listed is not below that of the best of any direction.
  Beats : List (RegisteredStrategySignal R) → R → SignalType → Type 0
  Beats items factor d = AtLeast (some factor) (factor_in (strongest_in (of_direction d items)))

  finite_factors-Beats :
      (items : List (RegisteredStrategySignal R)) (factor : R) (ds : List SignalType)
      → All (λ (e : SignalType × R). (factor ≺ e.1) ≡ false) (finite_factors items ds)
      → All (Beats items factor) ds
  unfolding Beats finite_factors
  finite_factors-Beats items factor [] h = tt
  finite_factors-Beats items factor (d ∷ ds) h =
      elim (Option-cases (factor_in (strongest_in (of_direction d items)))) [
        | inl e ↦ let h' = rw e at h in (rw e refl, finite_factors-Beats items factor ds h')
        | inr (f, e) ↦ let h' = rw e at h in (rw e h'.0, finite_factors-Beats items factor ds h'.1)
      ]

  beaten :
      (items : List (RegisteredStrategySignal R)) (factor : R) (best : SignalType → Option R)
      (ds : List SignalType) (xs : List (RegisteredStrategySignal R))
      → All
          (λ x.
            (same_type (direction_of x) (direction_of x) ≡ false)
            ⊎ AtLeast (best (direction_of x)) (profit_factor_of x))
          xs
      → All (λ d. AtLeast (some factor) (best d)) ds
      → All (λ d. (contains_type d ds || contains_type d []) ≡ true) (map direction_of xs)
      → All (λ x. AtLeast (some factor) (profit_factor_of x)) xs
  beaten items factor best ds [] h beats known = tt
  beaten items factor best ds (x ∷ xs) h beats known =
      let d = direction_of x in
      let in_set : contains_type d ds ≡ true = ground (arith, known.0) in
      let over_d = of_contains (λ e. AtLeast (some factor) (best e)) d ds in_set beats in
      let rest = beaten items factor best ds xs h.1 beats known.1 in
      elim h.0 [
        | inl other ↦ absurd (cc (other, same_type_refl d))
        | inr over_x ↦ (inf_trans o (some factor) (best d) (profit_factor_of x) over_d over_x, rest)
      ]

  -- A factor that beats the best of each direction beats every signal.
  beats_all :
      (items : List (RegisteredStrategySignal R)) (factor : R)
      → All (λ x. x.pipeline_eligible ≡ true) items
      → All (Beats items factor) (directions_in items)
      → All (λ x. AtLeast (some factor) (profit_factor_of x)) items
  unfolding Beats
  beats_all items factor passed beats =
      let best = λ (d : SignalType). factor_in (strongest_in (of_direction d items)) in
      let among =
        at_direction
          (λ d x. (same_type (direction_of x) d ≡ false) ⊎ AtLeast (best d) (profit_factor_of x))
          items
          (λ d.
            All-select (λ x. AtLeast (best d) (profit_factor_of x))
              (λ x. same_type (direction_of x) d) items
              (strongest_in-AtLeast o (of_direction d items) (
                select-All (λ x. x.pipeline_eligible ≡ true) (λ x. same_type (direction_of x) d)
                  items passed))) in
      beaten items factor best (directions_in items) items among beats
        (distinct_types-contains [] (map direction_of items))

  chosen-IsResolved :
      (items : List (RegisteredStrategySignal R)) (finite : List (SignalType × R))
      (s : RegisteredStrategySignal R)
      → All (λ item. item.pipeline_eligible ≡ true) items
      → All (IsFactor items) finite
      → ((factor : R)
          → All (λ (e : SignalType × R). (factor ≺ e.1) ≡ false) finite
          → All (λ x. AtLeast (some factor) (profit_factor_of x)) items)
      → (chosen (best_direction finite) items).strongest ≡ some s
      → (s.pipeline_eligible ≡ true)
        × IsResolved items s (chosen (best_direction finite) items).resolution
  unfolding IsFactor IsResolved
  chosen-IsResolved items [] s h factors over e = cc
  chosen-IsResolved items (x ∷ xs) s h factors over e =
      let (s', e', found) = top_from-All items x xs factors.0 factors.1 in
      let same : s' ≡ s = cc in
      (
        strongest_in-All (λ item. item.pipeline_eligible ≡ true)
            (of_direction (top_from x xs).0 items) s e
            (select-All (λ item. item.pipeline_eligible ≡ true)
              (λ item. same_type (direction_of item) (top_from x xs).0) items h),
        (
          (top_from x xs).1,
          ap profit_factor_of (sym same) ∙ found,
          over (top_from x xs).1 (top_from-best o x xs),
        ),
      )

  pub resolve-IsResolved :
      (items : List (RegisteredStrategySignal R)) (s : RegisteredStrategySignal R)
      → All (λ item. item.pipeline_eligible ≡ true) items
      → (resolve items).strongest ≡ some s
      → (s.pipeline_eligible ≡ true) × IsResolved items s (resolve items).resolution
  unfolding resolve IsResolved
  resolve-IsResolved items s h e =
      let directions = directions_in items in
      let finite = finite_factors items directions in
      let passed =
        strongest_in-All (λ (item : RegisteredStrategySignal R). item.pipeline_eligible ≡ true) in
      elim (Bool-cases (ltb 1 (length directions))) [
        | inr few ↦
            let e' : strongest_in items ≡ some s = rw few at e in
            rw few (passed items s e' h, one_direction items s few e')
        | inl several ↦ elim (Bool-cases (length finite == length directions && varied finite)) [
          | inl won ↦
              rw (several, won)
                (chosen-IsResolved items finite s h (finite_factors-All items directions)
                  (λ factor over.
                    beats_all items factor h (finite_factors-Beats items factor directions over))
                  (rw (several, won) at e))
          | inr open_ ↦
              let e' : strongest_in items ≡ some s = rw (several, open_) at e in
              rw (several, open_) (passed items s e' h, tt)
        ]
      ]
