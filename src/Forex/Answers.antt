-- ===== src/Forex/Answers.antt =====
-- src/markets/forex/runtime/lifecycle.py: `classify_instrument_conflicts` answers for every candidate.
use delta_quant.Prelude.{
  is_some, ==_refl, ◌≡◌, refl, true, Bool-cases, inl, inr, List, [], ◌∷◌, ◌==◌, All, Text,
}
use delta_quant.Prelude.Dict.{Dict, lookup, insert, lookup-insert}
use delta_quant.Prelude.Real.{Real}
use delta_quant.Aggregation.{AggregatedCandidate}
use delta_quant.Aggregation.Groups.{Group, Throughout}
use delta_quant.Forex.Conflicts.{InstrumentConflict, classify, note_all, classify_all}

pub All-weaken {ℓ κ} :
    {A : Type ℓ} (P Q : A → Type κ) (xs : List A) → ((x : A) → P x → Q x) → All P xs → All Q xs
All-weaken P Q [] f h = tt
All-weaken P Q (x ∷ xs) f h = (f x h.0, All-weaken P Q xs f h.1)

insert-found :
    {V : Type 0} (key at : Text) (value : V) (d : Dict V)
    → is_some (lookup key d) ≡ true
    → is_some (lookup key (insert at value d)) ≡ true
insert-found key at value d h = elim (Bool-cases (key == at)) [
  | inl e ↦ rw (lookup-insert key at value d, e) refl
  | inr e ↦ rw (lookup-insert key at value d, e) h
]

module _ {R : Type 0} ⦃r : Real R⦄ (identity : AggregatedCandidate R → Text) where
  abbrev pub HasAnswer : Dict InstrumentConflict → AggregatedCandidate R → Type 0
  HasAnswer result c = is_some (lookup (identity c) result) ≡ true

  note_all-keeps :
      (v : InstrumentConflict) (cs : List (AggregatedCandidate R))
      (result : Dict InstrumentConflict) (c : AggregatedCandidate R)
      → HasAnswer result c
      → HasAnswer (note_all identity v cs result) c
  note_all-keeps v [] result c h = h
  note_all-keeps v (x ∷ xs) result c h =
      note_all-keeps v xs (insert (identity x) v result) c
        (insert-found (identity c) (identity x) v result h)

  note_all-found :
      (v : InstrumentConflict) (cs : List (AggregatedCandidate R))
      (result : Dict InstrumentConflict)
      → All (HasAnswer (note_all identity v cs result)) cs
  note_all-found v [] result = tt
  note_all-found v (x ∷ xs) result = (
    note_all-keeps v xs (insert (identity x) v result) x
        (rw (lookup-insert (identity x) (identity x) v result, ==_refl (identity x)) refl),
    note_all-found v xs (insert (identity x) v result),
  )

  classify_all-keeps :
      (groups : List (Group (AggregatedCandidate R))) (result : Dict InstrumentConflict)
      (c : AggregatedCandidate R)
      → HasAnswer result c
      → HasAnswer (classify_all identity groups result) c
  unfolding classify_all
  classify_all-keeps [] result c h = h
  classify_all-keeps ((first, rest) ∷ groups) result c h =
      classify_all-keeps groups
        (note_all identity (classify identity (first, rest)) (first ∷ rest) result) c
        (note_all-keeps (classify identity (first, rest)) (first ∷ rest) result c h)

  pub classify_all-found :
      (groups : List (Group (AggregatedCandidate R))) (result : Dict InstrumentConflict)
      → All (Throughout (HasAnswer (classify_all identity groups result))) groups
  unfolding classify_all
  classify_all-found [] result = tt
  classify_all-found ((first, rest) ∷ groups) result =
      let noted = note_all identity (classify identity (first, rest)) (first ∷ rest) result in
      (
        All-weaken (HasAnswer noted) (HasAnswer (classify_all identity groups noted)) (first ∷ rest)
            (λ c. classify_all-keeps groups noted c)
            (note_all-found (classify identity (first, rest)) (first ∷ rest) result),
        classify_all-found groups noted,
      )
