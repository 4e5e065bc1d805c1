-- ===== src/Aggregation/Evidence.antt =====
-- src/core/aggregation/consolidation.py: which signal is chosen as the strongest.
use delta_quant.Prelude.{
  ◌≡◌, refl, sym, subst, Bool, true, false, Bool-cases, Option-cases, Option, none, some, inl, inr,
  ◌⊎◌, List, [], ◌∷◌, map, length, ltb, select, arith, All,
}
use delta_quant.Prelude.Real.{Real, ◌≺◌}
use delta_quant.Aggregation.{
  SignalType, buy, sell, hold, same_type, RegisteredStrategySignal, weaker, strongest_of,
  strongest_in, of_direction, direction_of, directions_in, distinct_types, contains_type,
  finite_factors, factor_in, with_factor, profit_factor_of, top_from,
}

pub same_type-eq : (a b : SignalType) → same_type a b ≡ true → a ≡ b
same_type-eq buy buy h = refl
same_type-eq sell sell h = refl
same_type-eq hold hold h = refl
same_type-eq buy sell h = cc
same_type-eq buy hold h = cc
same_type-eq sell buy h = cc
same_type-eq sell hold h = cc
same_type-eq hold buy h = cc
same_type-eq hold sell h = cc

pub same_type_refl : (a : SignalType) → same_type a a ≡ true
same_type_refl buy = refl
same_type_refl sell = refl
same_type_refl hold = refl

-- No new member was met: each one was seen before.
distinct_types_nil :
    (seen ds : List SignalType)
    → length (distinct_types seen ds) ≡ 0
    → All (λ d. contains_type d seen ≡ true) ds
distinct_types_nil seen [] h = tt
distinct_types_nil seen (d ∷ ds) h = elim (Bool-cases (contains_type d seen)) [
  | inl e ↦ (e, distinct_types_nil seen ds (rw e at h))
  | inr e ↦ absurd (omega (arith, rw e at h))
]

module _ {ℓ κ} {A : Type ℓ} (P : A → Type κ) where
  pub select-All : (f : A → Bool) (xs : List A) → All P xs → All P (select f xs)
  select-All f [] h = tt
  select-All f (x ∷ xs) h = elim (Bool-cases (f x)) [
    | inl e ↦ rw e (h.0, select-All f xs h.1)
    | inr e ↦ rw e (select-All f xs h.1)
  ]

  pub All-select :
      (f : A → Bool) (xs : List A) → All P (select f xs) → All (λ x. (f x ≡ false) ⊎ P x) xs
  All-select f [] h = tt
  All-select f (x ∷ xs) h = elim (Bool-cases (f x)) [
    | inl e ↦ let both = rw e at h in (inr both.0, All-select f xs both.1)
    | inr e ↦ let rest = rw e at h in (inl e, All-select f xs rest)
  ]

pub select_holds {ℓ} :
    {A : Type ℓ} (f : A → Bool) (xs : List A) → All (λ x. f x ≡ true) (select f xs)
select_holds f [] = tt
select_holds f (x ∷ xs) = elim (Bool-cases (f x)) [
  | inl e ↦ rw e (e, select_holds f xs)
  | inr e ↦ rw e (select_holds f xs)
]

module _ {R : Type 0} ⦃r : Real R⦄ where
  -- What holds of all holds of the strongest.
  pub strongest_of-All {κ} :
      (P : RegisteredStrategySignal R → Type κ) (best : RegisteredStrategySignal R)
      (xs : List (RegisteredStrategySignal R))
      → P best
      → All P xs
      → P (strongest_of best xs)
  unfolding strongest_of
  strongest_of-All P best [] h hs = h
  strongest_of-All P best (x ∷ xs) h hs = elim (Bool-cases (weaker best x)) [
    | inl e ↦ rw e (strongest_of-All P x xs hs.0 hs.1)
    | inr e ↦ rw e (strongest_of-All P best xs h hs.1)
  ]

  pub strongest_in-All {κ} :
      (P : RegisteredStrategySignal R → Type κ) (xs : List (RegisteredStrategySignal R))
      (s : RegisteredStrategySignal R)
      → strongest_in xs ≡ some s
      → All P xs
      → P s
  strongest_in-All P [] s e h = cc
  strongest_in-All P (x ∷ xs) s e h =
      let same : strongest_of x xs ≡ s = cc in subst P same (strongest_of-All P x xs h.0 h.1)

  alike :
      (x : RegisteredStrategySignal R) (xs : List (RegisteredStrategySignal R))
      → All (λ d. contains_type d (direction_of x ∷ []) ≡ true) (map direction_of xs)
      → All (λ item. same_type (direction_of item) (direction_of x) ≡ true) xs
  alike x [] h = tt
  alike x (y ∷ ys) h = (ground arith, alike x ys h.1)

  -- Of one direction only: all share it.
  pub one_direction :
      (items : List (RegisteredStrategySignal R)) (s : RegisteredStrategySignal R)
      → ltb 1 (length (directions_in items)) ≡ false
      → strongest_in items ≡ some s
      → All (λ item. same_type (direction_of item) (direction_of s) ≡ true) items
  one_direction [] s few e = cc
  one_direction (x ∷ xs) s few e =
      let alone : length (distinct_types (direction_of x ∷ []) (map direction_of xs)) ≡ 0 =
        ground arith in
      let seen =
        alike x xs (distinct_types_nil (direction_of x ∷ []) (map direction_of xs) alone) in
      let all_x : All (λ item. same_type (direction_of item) (direction_of x) ≡ true) (x ∷ xs) =
        (same_type_refl (direction_of x), seen) in
      let s_x =
        strongest_in-All (λ item. same_type (direction_of item) (direction_of x) ≡ true) (x ∷ xs) s
          e all_x in
      subst (λ d. All (λ item. same_type (direction_of item) d ≡ true) (x ∷ xs))
        (sym (same_type-eq (direction_of s) (direction_of x) s_x)) all_x

  -- Each factor that is listed is that of the strongest signal of its direction.
  unfoldable pub IsFactor : List (RegisteredStrategySignal R) → SignalType × R → Type 0
  IsFactor items (d, factor) =
      (s : RegisteredStrategySignal R) × (strongest_in (of_direction d items) ≡ some s)
      × (profit_factor_of s ≡ some factor)

  with_factor-All :
      (items : List (RegisteredStrategySignal R)) (d : SignalType)
      (best : Option (RegisteredStrategySignal R)) (rest : List (SignalType × R))
      → strongest_in (of_direction d items) ≡ best
      → All (IsFactor items) rest
      → All (IsFactor items) (with_factor d (factor_in best) rest)
  unfolding IsFactor
  with_factor-All items d none rest e h = h
  with_factor-All items d (some s) rest e h = elim (Option-cases (profit_factor_of s)) [
    | inl missing ↦ rw missing h
    | inr (factor, found) ↦ rw found ((s, e, found), h)
  ]

  pub finite_factors-All :
      (items : List (RegisteredStrategySignal R)) (ds : List SignalType)
      → All (IsFactor items) (finite_factors items ds)
  unfolding finite_factors
  finite_factors-All items [] = tt
  finite_factors-All items (d ∷ ds) =
      with_factor-All items d (strongest_in (of_direction d items)) (finite_factors items ds) refl
        (finite_factors-All items ds)

  pub top_from-All :
      (items : List (RegisteredStrategySignal R)) (best : SignalType × R)
      (xs : List (SignalType × R))
      → IsFactor items best
      → All (IsFactor items) xs
      → IsFactor items (top_from best xs)
  top_from-All items best [] h hs = h
  top_from-All items best (x ∷ xs) h hs = elim (Bool-cases (best.1 ≺ x.1)) [
    | inl e ↦ rw e (top_from-All items x xs hs.0 hs.1)
    | inr e ↦ rw e (top_from-All items best xs h hs.1)
  ]
