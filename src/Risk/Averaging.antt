-- ===== src/Risk/Averaging.antt =====
-- src/markets/nse/execution/averaging.py: the capped averaging of a position. `int` of a float is
-- given; the quantities are those of fills. `average` is the loop of src/markets/nse/runtime/live.py that
-- puts the adds into the ledger.
use delta_quant.Prelude.{
  ℕ, zero, suc, ◌+◌, ◌≤◌, ◌≡◌, refl, ap, ◌∙◌, ◌⊎◌, Option, none, some, Option-cases, inl, inr, Bool,
  true, false, not, ◌&&◌, ◌||◌, List, [], ◌∷◌, leb, ◌==◌, if◌then◌else◌, arith, Bool-cases,
}
use delta_quant.Lifecycle.{Trade, EntryFill}
use delta_quant.Lifecycle.Operations.{added}
use delta_quant.Prelude.Real.{Real, real, ◌⊖◌, ◌⊗◌, ◌⊘◌, ◌≺◌, ◌≼◌}

pub data Verdict : Type 0 where
  disabled max_adds_reached invalid out_of_range below_trigger rounds_to_zero add_shares : Verdict

pub record AveragingDecision : Type 0 where
  pub should_add : Bool
  pub quantity : ℕ
  pub reason : Verdict

pub record CappedAveragingPolicy (R : Type 0) : Type 0 where
  pub enabled : Bool
  pub max_adds : ℕ
  pub trigger_pct : R
  pub add_fraction : R

-- The other keyword arguments of `evaluate`.
pub record Quote (R : Type 0) : Type 0 where
  pub weighted_entry_price : R
  pub current_price : R
  pub stop_loss : R
  pub target_price : R

-- What a visit of the loop in src/markets/nse/runtime/live.py brings.
pub record Visit (R : Type 0) : Type 0 where
  pub current : R
  pub fill : Option (EntryFill R)

abbrev refused : Verdict → AveragingDecision
refused reason = record { should_add = false; quantity = 0; reason = reason }

module _ {R : Type 0} ⦃r : Real R⦄ (truncate : R → ℕ) where
  abbrev pub adverse_pct : Quote R → R
  adverse_pct q = (q.weighted_entry_price ⊖ q.current_price) ⊘ q.weighted_entry_price ⊗ real 100

  abbrev add_size : CappedAveragingPolicy R → ℕ → ℕ
  add_size policy original_quantity = truncate (real original_quantity ⊗ policy.add_fraction)

  -- `CappedAveragingPolicy.evaluate`
  unfoldable pub evaluate_add : CappedAveragingPolicy R → ℕ → ℕ → Quote R → AveragingDecision
  evaluate_add policy original_quantity add_count q =
      let size = add_size policy original_quantity in
      if not policy.enabled
      then refused disabled
      else if policy.max_adds == 0 || leb policy.max_adds add_count
      then refused max_adds_reached
      else if original_quantity == 0 || q.weighted_entry_price ≼ real 0 || q.current_price ≼ real 0
      then refused invalid
      else if not (
          q.stop_loss ≺ q.current_price
          && q.current_price ≺ q.weighted_entry_price
          && q.weighted_entry_price ≺ q.target_price)
      then refused out_of_range
      else if adverse_pct q ≺ policy.trigger_pct
      then refused below_trigger
      else if size == 0
      then refused rounds_to_zero
      else record { should_add = true; quantity = size; reason = add_shares }

  abbrev pub quote_of : Visit R → Trade R → Quote R
  quote_of v t = record {
    weighted_entry_price = t.weighted_entry_price;
    current_price = v.current;
    stop_loss = t.stop_loss;
    target_price = t.target_price;
  }

  -- One visit of an open trade's row: the price, and the fill if the add was let through and filled.
  unfoldable pub average : ℕ → CappedAveragingPolicy R → Visit R → Trade R → Trade R
  unfolding evaluate_add
  average now policy v t =
      let d = evaluate_add policy t.original_quantity t.add_count (quote_of v t) in
      elim v.fill [
        | none ↦ t
        | some f ↦ if d.should_add then added now (record f { quantity = d.quantity }) t else t
      ]

  unfoldable pub average_all : CappedAveragingPolicy R → List (ℕ × Visit R) → Trade R → Trade R
  unfolding average
  average_all policy [] t = t
  average_all policy ((now, v) ∷ visits) t = average_all policy visits (average now policy v t)

  -- A quantity after some adds, each a fraction of what it is then.
  abbrev pub grown : CappedAveragingPolicy R → ℕ → ℕ → ℕ
  grown policy zero quantity = quantity
  grown policy (suc adds) quantity = grown policy adds (quantity + add_size policy quantity)

  evaluate_add-bounds :
      (policy : CappedAveragingPolicy R) (original_quantity add_count : ℕ) (q : Quote R)
      → (evaluate_add policy original_quantity add_count q).should_add ≡ true
      → (suc add_count ≤ policy.max_adds)
        × ((evaluate_add policy original_quantity add_count q).quantity
            ≡ add_size policy original_quantity)
  unfolding evaluate_add
  evaluate_add-bounds policy original_quantity add_count q h = ground arith

  -- The row after its visits: the adds made, within the cap, and what they made of the quantity.
  abbrev pub IsGrown : CappedAveragingPolicy R → Trade R → Trade R → Type 0
  IsGrown policy t t' =
      (adds : ℕ) × (t'.add_count ≡ t.add_count + adds)
      × (t'.add_count ≤ policy.max_adds)
      × (t'.original_quantity ≡ grown policy adds t.original_quantity)
      × (t'.remaining_quantity + t.original_quantity ≡ t.remaining_quantity + t'.original_quantity)

  average-cases :
      (now : ℕ) (policy : CappedAveragingPolicy R) (v : Visit R) (t : Trade R)
      → (average now policy v t ≡ t)
        ⊎ ((f : EntryFill R) × (average now policy v t ≡ added now f t)
            × (suc t.add_count ≤ policy.max_adds)
            × (f.quantity ≡ add_size policy t.original_quantity))
  unfolding average
  average-cases now policy v t =
      let d = evaluate_add policy t.original_quantity t.add_count (quote_of v t) in
      elim (Option-cases v.fill) [
        | inl e ↦ inl (rw (average, e) refl)
        | inr (f, e) ↦ elim (Bool-cases d.should_add) [
          | inr refusing ↦ inl (rw (average, e, refusing) refl)
          | inl adding ↦
              let (room, size) =
                evaluate_add-bounds policy t.original_quantity t.add_count (quote_of v t) adding in
              inr (record f { quantity = d.quantity }, rw (average, e, adding) refl, room, size)
        ]
      ]

  -- Whatever the prices and the fills, a trade is averaged at most as often as the policy allows, and
  -- its quantity afterwards is given by the number of adds: each add is the policy's fraction of the
  -- quantity that the adds before it have left in the ledger, not of the quantity of the entry.
  pub average_all_grows :
      (policy : CappedAveragingPolicy R) (visits : List (ℕ × Visit R)) (t : Trade R)
      → t.add_count ≤ policy.max_adds
      → IsGrown policy t (average_all policy visits t)
  unfolding average_all
  average_all_grows policy [] t few = (0, omega arith, few, refl, refl)
  average_all_grows policy ((now, v) ∷ visits) t few = elim (average-cases now policy v t) [
    | inl same ↦ rw (same, average_all) (average_all_grows policy visits t few)
    | inr (f, e, room, size) ↦
        let t' = added now f t in
        let (adds, count, within, total, held) = average_all_grows policy visits t' (omega arith) in
        let base : t'.original_quantity
            ≡ t.original_quantity + add_size policy t.original_quantity =
          ap (λ n. t.original_quantity + n) size in
        rw (e, average_all)
          (
            suc adds,
            omega (arith, count),
            within,
            total ∙ ap (grown policy adds) base,
            omega (arith, held),
          )
  ]
