-- ===== src/Sizing/Guards.antt =====
-- src/markets/nse/risk/guards.py: the drawdown of a session, and the price band.
use delta_quant.Prelude.{
  ◌≡◌, refl, sym, ap, ◌∙◌, Bool, true, false, List, [], ◌∷◌, if◌then◌else◌, arith,
}
use delta_quant.Prelude.Int.{ℤ, pos, ◌-ℤ◌, ltb_ℤ, leb_ℤ, int_laws}
use delta_quant.Prelude.Real.{Real, real, ◌⊖◌, ◌⊗◌, ◌⊘◌, ◌≺◌, ◌≼◌, maximum, magnitude, exact}

pub record DrawdownTracker (R : Type 0) : Type 0 where
  pub peak_equity : R
  pub current_equity : R
  pub max_drawdown : R

module _ {R : Type 0} ⦃r : Real R⦄ where
  unfoldable pub new_tracker : DrawdownTracker R
  new_tracker = record { peak_equity = real 0; current_equity = real 0; max_drawdown = real 0 }

  unfoldable pub update : R → DrawdownTracker R → DrawdownTracker R
  update equity t =
      let peak = if t.peak_equity ≺ equity then equity else t.peak_equity in
      record {
        peak_equity = peak;
        current_equity = equity;
        max_drawdown = maximum t.max_drawdown (peak ⊖ equity);
      }

  unfoldable pub drawdown_pct : DrawdownTracker R → R
  drawdown_pct t =
      if real 0 ≺ t.peak_equity then t.max_drawdown ⊘ t.peak_equity ⊗ real 100 else real 0

  unfoldable pub is_circuit_locked : R → R → Bool
  is_circuit_locked change_percent band_pct =
      if band_pct ≼ real 0 then false else band_pct ≼ magnitude change_percent

  unfoldable pub update_all : List R → DrawdownTracker R → DrawdownTracker R
  update_all [] t = t
  update_all (equity ∷ equities) t = update_all equities (update equity t)

-- The larger of the running value and the falls from a peak to each of the later equities.
abbrev larger : ℤ → ℤ → ℤ
larger a b = if ltb_ℤ a b then b else a

falls_from : ℤ → List ℤ → ℤ → ℤ
falls_from peak [] worst = worst
falls_from peak (equity ∷ equities) worst = falls_from peak equities (larger worst (peak -ℤ equity))

-- The largest fall from any equity to a later one, looking at every pair of them.
unfoldable pub deepest : List ℤ → ℤ → ℤ
unfolding falls_from
deepest [] worst = worst
deepest (equity ∷ equities) worst = deepest equities (falls_from equity equities worst)

larger_swap : (a b c : ℤ) → larger (larger a b) c ≡ larger (larger a c) b
larger_swap a b c = grind int_laws

larger-fall :
    (low high equity worst : ℤ)
    → larger (larger worst (low -ℤ equity)) (high -ℤ equity)
      ≡ larger worst (larger low high -ℤ equity)
larger-fall low high equity worst = grind int_laws

larger-nonneg : (a b : ℤ) → leb_ℤ (pos 0) a ≡ true → leb_ℤ (pos 0) (larger a b) ≡ true
larger-nonneg a b h = ground arith

higher_peak :
    (peak equity worst : ℤ)
    → leb_ℤ (pos 0) worst ≡ true
    → larger worst (peak -ℤ equity) ≡ larger worst (larger peak equity -ℤ equity)
higher_peak peak equity worst h = grind int_laws

falls_from-larger :
    (peak : ℤ) (equities : List ℤ) (a b : ℤ)
    → falls_from peak equities (larger a b) ≡ larger (falls_from peak equities a) b
unfolding falls_from
falls_from-larger peak [] a b = refl
falls_from-larger peak (equity ∷ equities) a b =
    let fall = peak -ℤ equity in
    let swap : larger (larger a b) fall ≡ larger (larger a fall) b = larger_swap a b fall in
    ap (falls_from peak equities) swap ∙ falls_from-larger peak equities (larger a fall) b

-- Falling from two peaks is falling from the higher one.
falls_from-falls_from :
    (low high : ℤ) (equities : List ℤ) (worst : ℤ)
    → falls_from high equities (falls_from low equities worst)
      ≡ falls_from (larger low high) equities worst
unfolding falls_from
falls_from-falls_from low high [] worst = refl
falls_from-falls_from low high (equity ∷ equities) worst =
    let w = larger worst (low -ℤ equity) in
    ap (falls_from high equities) (sym (falls_from-larger low equities w (high -ℤ equity)))
    ∙ falls_from-falls_from low high equities (larger w (high -ℤ equity))
    ∙ ap (falls_from (larger low high) equities) (larger-fall low high equity worst)

module _ (quotient : ℤ → ℤ → ℤ) where
  instance abbrev pub amounts : Real ℤ
  amounts = exact quotient

  update_all-falls :
      (equities : List ℤ) (t : DrawdownTracker ℤ)
      → leb_ℤ (pos 0) t.max_drawdown ≡ true
      → (update_all equities t).max_drawdown
        ≡ deepest equities (falls_from t.peak_equity equities t.max_drawdown)
  unfolding update_all update deepest falls_from
  update_all-falls [] t nonneg = refl
  update_all-falls (equity ∷ equities) t nonneg =
      let t' = update equity t in
      update_all-falls equities t' (larger-nonneg t.max_drawdown (t'.peak_equity -ℤ equity) nonneg)
      ∙ ap (deepest equities) (
          sym (
            falls_from-falls_from t.peak_equity equity equities
              (larger t.max_drawdown (t.peak_equity -ℤ equity))
            ∙ ap (falls_from t'.peak_equity equities)
                (higher_peak t.peak_equity equity t.max_drawdown nonneg)))

  -- On exact amounts, the drawdown after a session is the largest fall from any equity of it to a later
  -- one, or from the zero that a new tracker starts at, comparing every pair.
  pub update_all-deepest :
      (equities : List ℤ)
      → (update_all equities new_tracker).max_drawdown ≡ deepest (pos 0 ∷ equities) (pos 0)
  unfolding new_tracker deepest
  update_all-deepest equities = update_all-falls equities new_tracker refl
