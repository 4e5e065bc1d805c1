-- ===== src/Aggregation/Winner.antt =====
-- src/core/aggregation/consolidation.py: the maximum of signals by their evidence, and of directions by their
-- profit factor.
use delta_quant.Prelude.{
  ◌≡◌, refl, true, false, Bool-cases, Option, none, some, inl, inr, List, [], ◌∷◌, if◌then◌else◌,
  All,
}
use delta_quant.Prelude.Real.{Real, ◌≺◌}
use delta_quant.Paper.{equal}
use delta_quant.Aggregation.{
  SignalType, RegisteredStrategySignal, weaker, lt_inf, eq_inf, profit_factor_of, strongest_of,
  strongest_in, factor_in, top_from,
}

-- The order of the doubles that are numbers.
pub record IsLinear (R : Type 0) ⦃r : Real R⦄ : Type 0 where
  pub lt_irrefl : (a : R) → (a ≺ a) ≡ false
  pub lt_asym : (a b : R) → (a ≺ b) ≡ true → (b ≺ a) ≡ false
  pub not_lt_trans : (a b c : R) → (b ≺ a) ≡ false → (c ≺ b) ≡ false → (c ≺ a) ≡ false
  pub equal-lt : (a b : R) → equal a b ≡ true → ((a ≺ b) ≡ false) × ((b ≺ a) ≡ false)

module _ {R : Type 0} ⦃r : Real R⦄ where
  -- The profit factor of the first is not below that of the second; without one it is below all.
  abbrev pub AtLeast : Option R → Option R → Type 0
  AtLeast a b = lt_inf a b ≡ false

module _ {R : Type 0} ⦃r : Real R⦄ (o : IsLinear R) where
  pub inf_trans : (c b a : Option R) → AtLeast c b → AtLeast b a → AtLeast c a
  inf_trans none b none k h = refl
  inf_trans (some c) b none k h = refl
  inf_trans c none (some a) k h = cc
  inf_trans none (some b) (some a) k h = cc
  inf_trans (some c) (some b) (some a) k h = o.not_lt_trans a b c h k

  pub inf_refl : (a : Option R) → AtLeast a a
  inf_refl none = refl
  inf_refl (some a) = o.lt_irrefl a

  inf_asym : (a b : Option R) → lt_inf a b ≡ true → AtLeast b a
  inf_asym none none h = refl
  inf_asym none (some b) h = refl
  inf_asym (some a) none h = cc
  inf_asym (some a) (some b) h = o.lt_asym a b h

  pub inf_equal : (a b : Option R) → eq_inf a b ≡ true → AtLeast a b × AtLeast b a
  inf_equal none none h = (refl, refl)
  inf_equal none (some b) h = cc
  inf_equal (some a) none h = cc
  inf_equal (some a) (some b) h = o.equal-lt a b h

  -- One comparison among signals that have passed.
  stronger :
      (best x : RegisteredStrategySignal R)
      → best.pipeline_eligible ≡ true
      → x.pipeline_eligible ≡ true
      → (let next = if weaker best x then x else best in
          AtLeast (profit_factor_of next) (profit_factor_of best)
          × AtLeast (profit_factor_of next) (profit_factor_of x)
          × (next.pipeline_eligible ≡ true))
  stronger best x hb hx =
      let b = profit_factor_of best in
      let f = profit_factor_of x in
      elim (Bool-cases (weaker best x)) [
        | inl e ↦ elim (Bool-cases (eq_inf b f)) [
          | inl same ↦ rw e ((inf_equal b f same).1, inf_refl f, hx)
          | inr apart ↦ rw e (inf_asym b f (rw (hb, hx, apart) at e), inf_refl f, hx)
        ]
        | inr e ↦ elim (Bool-cases (eq_inf b f)) [
          | inl same ↦ rw e (inf_refl b, (inf_equal b f same).0, hb)
          | inr apart ↦ rw e (inf_refl b, rw (hb, hx, apart) at e, hb)
        ]
      ]

  strongest_of-AtLeast :
      (best : RegisteredStrategySignal R) (xs : List (RegisteredStrategySignal R))
      → best.pipeline_eligible ≡ true
      → All (λ x. x.pipeline_eligible ≡ true) xs
      → AtLeast (profit_factor_of (strongest_of best xs)) (profit_factor_of best)
        × All (λ x. AtLeast (profit_factor_of (strongest_of best xs)) (profit_factor_of x)) xs
  unfolding strongest_of
  strongest_of-AtLeast best [] h hs = (inf_refl (profit_factor_of best), tt)
  strongest_of-AtLeast best (x ∷ xs) h hs =
      let next = if weaker best x then x else best in
      let (over_best, over_x, passed) = stronger best x h hs.0 in
      let (over_next, over_rest) = strongest_of-AtLeast next xs passed hs.1 in
      let final = profit_factor_of (strongest_of next xs) in
      (
        inf_trans final (profit_factor_of next) (profit_factor_of best) over_next over_best,
        (inf_trans final (profit_factor_of next) (profit_factor_of x) over_next over_x, over_rest),
      )

  pub strongest_in-AtLeast :
      (xs : List (RegisteredStrategySignal R))
      → All (λ x. x.pipeline_eligible ≡ true) xs
      → All (λ x. AtLeast (factor_in (strongest_in xs)) (profit_factor_of x)) xs
  strongest_in-AtLeast [] h = tt
  strongest_in-AtLeast (x ∷ xs) h = strongest_of-AtLeast x xs h.0 h.1

  greater :
      (best x : SignalType × R)
      → (let next = if best.1 ≺ x.1 then x else best in
          ((next.1 ≺ best.1) ≡ false) × ((next.1 ≺ x.1) ≡ false))
  greater best x = elim (Bool-cases (best.1 ≺ x.1)) [
    | inl e ↦ rw e (o.lt_asym best.1 x.1 e, o.lt_irrefl x.1)
    | inr e ↦ rw e (o.lt_irrefl best.1, e)
  ]

  pub top_from-best :
      (best : SignalType × R) (xs : List (SignalType × R))
      → (((top_from best xs).1 ≺ best.1) ≡ false)
        × All (λ (e : SignalType × R). ((top_from best xs).1 ≺ e.1) ≡ false) xs
  top_from-best best [] = (o.lt_irrefl best.1, tt)
  top_from-best best (x ∷ xs) =
      let next = if best.1 ≺ x.1 then x else best in
      let (over_best, over_x) = greater best x in
      let (over_next, over_rest) = top_from-best next xs in
      let top = (top_from next xs).1 in
      (
        o.not_lt_trans best.1 next.1 top over_best over_next,
        (o.not_lt_trans x.1 next.1 top over_x over_next, over_rest),
      )
