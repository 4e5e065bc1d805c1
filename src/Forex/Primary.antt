-- ===== src/Forex/Primary.antt =====
-- src/markets/forex/runtime/lifecycle.py: when an instrument has an executable setup.
use delta_quant.Prelude.{
  is_some, select, subst, ◌≡◌, refl, Bool, true, false, ◌&&◌, Bool-cases, none, some, inl, inr, ◌⊎◌,
  List, [], ◌∷◌, ◌==◌, arith, All, Text,
}
use delta_quant.Prelude.Dict.{Dict, lookup, insert}
use delta_quant.Prelude.Real.{Real}
use delta_quant.Aggregation.{SignalType, buy, sell, same_type, AggregatedCandidate}
use delta_quant.Aggregation.Groups.{Group, group_all, group_all-back}
use delta_quant.Aggregation.Keyed.{group_all-whole}
use delta_quant.Aggregation.Evidence.{select-All, select_holds}
use delta_quant.Forex.Answers.{All-weaken, classify_all-found}
use delta_quant.Forex.Conflicts.{
  InstrumentConflict, put_in_order, is_nonempty, less_evident, most_evident, timeframes_of,
  executable_in, primary_of, classify, note_all, classify_all, classify_instrument_conflicts,
}

put_in_order_nonempty : (t : Text) (ts : List Text) → is_nonempty (put_in_order t ts) ≡ true
put_in_order_nonempty t [] = refl
put_in_order_nonempty t (x ∷ xs) = ground arith

insert-All {ℓ κ} :
    {V : Type ℓ} (P : V → Type κ) (key : Text) (value : V) (d : Dict V)
    → P value
    → All (λ (entry : Text × V). P entry.1) d
    → All (λ (entry : Text × V). P entry.1) (insert key value d)
insert-All P key value [] h hs = (h, tt)
insert-All P key value (entry ∷ rest) h hs = elim (Bool-cases (key == entry.0)) [
  | inl e ↦ rw e (h, hs.1)
  | inr e ↦ rw e (hs.0, insert-All P key value rest h hs.1)
]

All-both {ℓ κ} :
    {A : Type ℓ} (P Q : A → Type κ) (xs : List A) → All P xs → All Q xs → All (λ x. P x × Q x) xs
All-both P Q [] h k = tt
All-both P Q (x ∷ xs) h k = ((h.0, k.0), All-both P Q xs h.1 k.1)

-- The items of a list.
abbrev pub Among : {A : Type 0} → A → List A → Type 0
Among a [] = ⊥
Among a (x ∷ xs) = (a ≡ x) ⊎ Among a xs

all-Among : {A : Type 0} (xs : List A) → All (λ x. Among x xs) xs
all-Among [] = tt
all-Among (x ∷ xs) = (
  inl refl,
  All-weaken (λ a. Among a xs) (λ a. Among a (x ∷ xs)) xs (λ a h. inr h) (all-Among xs),
)

module _ {R : Type 0} ⦃r : Real R⦄ where
  -- Without timeframes of a direction there is no candidate of it.
  timeframes_nil :
      (d : SignalType) (group : List (AggregatedCandidate R))
      → is_nonempty (timeframes_of d group) ≡ false
      → All (λ c. same_type c.direction d ≡ false) group
  timeframes_nil d [] h = tt
  timeframes_nil d (c ∷ cs) h = elim (Bool-cases (same_type c.direction d)) [
    | inl e ↦
        let empty = rw e at h in
        let full = put_in_order_nonempty c.timeframe (timeframes_of d cs) in
        absurd (cc (full, empty))
    | inr e ↦ (e, timeframes_nil d cs (rw e at h))
  ]

  most_evident-All {κ} :
      (P : AggregatedCandidate R → Type κ) (best : AggregatedCandidate R)
      (xs : List (AggregatedCandidate R))
      → P best
      → All P xs
      → P (most_evident best xs)
  unfolding most_evident
  most_evident-All P best [] h hs = h
  most_evident-All P best (x ∷ xs) h hs = elim (Bool-cases (less_evident best x)) [
    | inl e ↦ rw e (most_evident-All P x xs hs.0 hs.1)
    | inr e ↦ rw e (most_evident-All P best xs h hs.1)
  ]

  -- No candidate buys, or none sells.
  abbrev pub OneSided : List (AggregatedCandidate R) → Type 0
  OneSided group =
      All (λ x. same_type x.direction buy ≡ false) group
      ⊎ All (λ x. same_type x.direction sell ≡ false) group

  module _ (identity : AggregatedCandidate R → Text) where
    one_sided :
        (group : List (AggregatedCandidate R))
        → (is_nonempty (timeframes_of buy group) && is_nonempty (timeframes_of sell group)) ≡ false
        → OneSided group
    one_sided group h = elim (Bool-cases (is_nonempty (timeframes_of buy group))) [
      | inr none_bought ↦ inl (timeframes_nil buy group none_bought)
      | inl bought ↦ inr (timeframes_nil sell group (rw bought at h))
    ]

    primary_of-cases {κ} :
        (P : AggregatedCandidate R → Type κ) (torn : Bool)
        (executable : List (AggregatedCandidate R))
        → All P executable
        → (primary_of identity torn executable ≡ none)
          ⊎ ((c : AggregatedCandidate R) × (primary_of identity torn executable ≡ some (identity c))
              × P c
              × (torn ≡ false))
    primary_of-cases P true executable h = inl refl
    primary_of-cases P false [] h = inl refl
    primary_of-cases P false (x ∷ xs) h =
        inr (most_evident x xs, refl, most_evident-All P x xs h.0 h.1, refl)

    module _ (candidates : List (AggregatedCandidate R)) where
      -- All the candidates of an instrument.
      abbrev pub about : Text → List (AggregatedCandidate R)
      about symbol = select (λ c. c.symbol == symbol) candidates

      -- The verdict on an instrument. An order path is named only when no two of its candidates point in
      -- opposite directions, and then it is that of one of them that may be executed.
      abbrev pub IsVerdict : InstrumentConflict → Type 0
      IsVerdict v =
          (v.primary_candidate_id ≡ none)
          ⊎ ((c : AggregatedCandidate R) × (v.primary_candidate_id ≡ some (identity c))
              × Among c (about v.symbol)
              × (c.execution_allowed ≡ true)
              × OneSided (about v.symbol))

      note_all-IsVerdict :
          (v : InstrumentConflict) (cs : List (AggregatedCandidate R))
          (result : Dict InstrumentConflict)
          → IsVerdict v
          → All (λ (entry : Text × InstrumentConflict). IsVerdict entry.1) result
          → All
              (λ (entry : Text × InstrumentConflict). IsVerdict entry.1)
              (note_all identity v cs result)
      note_all-IsVerdict v [] result h hs = hs
      note_all-IsVerdict v (c ∷ cs) result h hs =
          note_all-IsVerdict v cs (insert (identity c) v result) h
            (insert-All IsVerdict (identity c) v result h hs)

      classify-IsVerdict :
          (first : AggregatedCandidate R) (rest : List (AggregatedCandidate R))
          → first ∷ rest ≡ about first.symbol
          → IsVerdict (classify identity (first, rest))
      unfolding classify
      classify-IsVerdict first rest whole =
          let group = first ∷ rest in
          let torn =
            is_nonempty (timeframes_of buy group) && is_nonempty (timeframes_of sell group) in
          let ready =
            All-both (λ c. Among c group) (λ c. c.execution_allowed ≡ true) (executable_in group)
              (select-All (λ (c : AggregatedCandidate R). Among c group) (λ c. c.execution_allowed)
                group (all-Among group))
              (select_holds (λ (c : AggregatedCandidate R). c.execution_allowed) group) in
          elim (primary_of-cases
            (λ (c : AggregatedCandidate R). Among c group × (c.execution_allowed ≡ true)) torn
            (executable_in group) ready) [
              | inl nothing ↦ inl nothing
              | inr (c, named, held, clear) ↦ inr (
                c,
                named,
                subst (Among c) whole held.0,
                held.1,
                subst OneSided whole (one_sided group clear),
              )
            ]

      classify_all-IsVerdict :
          (groups : List (Group (AggregatedCandidate R))) (result : Dict InstrumentConflict)
          → All (λ (g : Group (AggregatedCandidate R)). g.0 ∷ g.1 ≡ about g.0.symbol) groups
          → All (λ (entry : Text × InstrumentConflict). IsVerdict entry.1) result
          → All
              (λ (entry : Text × InstrumentConflict). IsVerdict entry.1)
              (classify_all identity groups result)
      unfolding classify_all
      classify_all-IsVerdict [] result h hs = hs
      classify_all-IsVerdict ((first, rest) ∷ groups) result h hs =
          classify_all-IsVerdict groups
            (note_all identity (classify identity (first, rest)) (first ∷ rest) result) h.1
            (note_all-IsVerdict (classify identity (first, rest)) (first ∷ rest) result
              (classify-IsVerdict first rest h.0) hs)

    -- Every candidate gets an answer. In the answers, an instrument's order path is named only when its
    -- candidates do not point in opposite directions over its timeframes, and then it is the path of one of
    -- them that may be executed.
    pub classify_instrument_conflicts-IsVerdict :
        (candidates : List (AggregatedCandidate R))
        → All
            (λ c.
              is_some (lookup (identity c) (classify_instrument_conflicts identity candidates))
              ≡ true)
            candidates
          × All
              (λ (entry : Text × InstrumentConflict). IsVerdict candidates entry.1)
              (classify_instrument_conflicts identity candidates)
    unfolding classify_instrument_conflicts
    classify_instrument_conflicts-IsVerdict candidates =
        let groups = group_all (λ a b. a.symbol == b.symbol) candidates [] in
        (
          (group_all-back
              (λ c. is_some (lookup (identity c) (classify_all identity groups [])) ≡ true)
              (λ a b. a.symbol == b.symbol) candidates []
              (classify_all-found identity groups [])).0,
          classify_all-IsVerdict candidates groups []
              (group_all-whole (λ (c : AggregatedCandidate R). c.symbol) candidates) tt,
        )
