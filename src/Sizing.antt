-- ===== src/Sizing.antt =====
-- src/markets/nse/risk/sizing.py: how many shares a trade may have; and, in `Sizing.Guards`,
-- src/markets/nse/risk/guards.py. `int(x)` on a float is the parameter `whole`. The code raises on a
-- division by zero, where the model's division has some value: the theorems take the price as positive.
-- The texts of the rationale are left out.
pub mod Caps
pub mod Methods
pub mod Guards
pub mod Hundredths
mod Samples
use delta_quant.Prelude.{
  ℕ, Bool, true, false, ◌&&◌, not, Option, none, some, List, [], ◌∷◌, ◌++◌, if◌then◌else◌, length,
  Text,
}
use delta_quant.Prelude.Int.{ℤ, pos, ltb_ℤ}
use delta_quant.Prelude.Real.{Real, real, ◌⊕◌, ◌⊖◌, ◌⊗◌, ◌⊘◌, ◌≺◌, ◌≼◌, maximum, minimum, magnitude}
use delta_quant.Paper.{or_real, equal}
use delta_quant.Risk.{real_ℤ}

pub data Method : Type 0 where
  fixed_fractional kelly_criterion atr_based volatility_adjusted : Method

pub record PositionSizeResult (R : Type 0) : Type 0 where
  pub shares : ℤ
  pub position_value : R
  pub risk_amount : R
  pub risk_percent : R
  pub method : Method

-- `max_total_risk` is kept by the code and read by no method.
pub record PositionSizer (R : Type 0) : Type 0 where
  pub capital : R
  pub max_position_pct : R
  pub max_risk_per_trade : R
  pub max_total_risk : R

-- The data that `calculate_optimal` may be given.
pub record Evidence (R : Type 0) : Type 0 where
  pub target_price : Option R
  pub atr : Option R
  pub win_rate : Option R
  pub current_volatility : Option R
  pub avg_volatility : Option R

pub record HeldPosition (R : Type 0) : Type 0 where
  pub symbol : Text
  pub entry_price : R
  pub stop_loss : R
  pub quantity : ℤ

pub record PositionHeat (R : Type 0) : Type 0 where
  pub symbol : Text
  pub risk : R
  pub risk_pct : R

pub record PortfolioHeat (R : Type 0) : Type 0 where
  pub total_risk : R
  pub total_risk_pct : R
  pub position_count : ℕ
  pub positions : List (PositionHeat R)

-- `min(a, b)` and `max(a, b)` on integers.
abbrev pub min_ℤ : ℤ → ℤ → ℤ
min_ℤ a b = if ltb_ℤ b a then b else a

abbrev pub max_ℤ : ℤ → ℤ → ℤ
max_ℤ a b = if ltb_ℤ a b then b else a

module _ {R : Type 0} ⦃r : Real R⦄ where
  -- The truth of an optional float: given, and not zero.
  abbrev pub given : Option R → Bool
  given none = false
  given (some x) = not (equal x (real 0))

  -- `x or default`
  abbrev pub or_default : Option R → R → R
  or_default none default = default
  or_default (some x) default = or_real x default

  abbrev pub no_shares : Method → PositionSizeResult R
  no_shares method = record {
    shares = pos 0;
    position_value = real 0;
    risk_amount = real 0;
    risk_percent = real 0;
    method = method;
  }

  abbrev pub share_of : R → R → R
  share_of amount capital = if real 0 ≺ capital then amount ⊘ capital else real 0

  abbrev pub sized : Method → PositionSizer R → R → R → ℤ → PositionSizeResult R
  sized method s entry_price per_share shares =
      let actual_risk = real_ℤ shares ⊗ per_share in
      record {
        shares = shares;
        position_value = real_ℤ shares ⊗ entry_price;
        risk_amount = actual_risk;
        risk_percent = share_of actual_risk s.capital;
        method = method;
      }

  abbrev pub half : R
  half = real 1 ⊘ real 2

  -- f* = (bp - q) / b
  abbrev pub kelly_fraction : R → R → R → R
  kelly_fraction win_amount loss_amount win_rate =
      let b = win_amount ⊘ loss_amount in (b ⊗ win_rate ⊖ (real 1 ⊖ win_rate)) ⊘ b

  abbrev pub adjusted_risk : PositionSizer R → R → R → R → R
  adjusted_risk s base_risk current_volatility avg_volatility =
      let average =
        if avg_volatility ≼ real 0 then or_real current_volatility (real 1) else avg_volatility in
      let scaled = base_risk ⊘ maximum (current_volatility ⊘ average) half in
      minimum (minimum scaled (base_risk ⊗ (real 3 ⊘ real 2))) s.max_risk_per_trade

  abbrev pub with_method : Method → PositionSizeResult R → PositionSizeResult R
  with_method method result = record result { method = method }

  abbrev pub kelly_applies : Evidence R → Bool
  kelly_applies e =
      given e.target_price
      && given e.win_rate
      && (real 3 ⊘ real 10 ≺ or_default e.win_rate (real 0))

  module _ (whole : R → ℤ) where
    -- The shares that the risk allows, within those that the size of a position allows.
    abbrev pub capped_shares : PositionSizer R → R → R → R → ℤ
    capped_shares s entry_price per_share risk_percent =
        min_ℤ (whole (s.capital ⊗ risk_percent ⊘ per_share))
          (whole (s.capital ⊗ s.max_position_pct ⊘ entry_price))

    unfoldable pub fixed_fractional_at : PositionSizer R → R → R → R → PositionSizeResult R
    fixed_fractional_at s entry_price stop_loss risk_percent =
        let per_share = magnitude (entry_price ⊖ stop_loss) in
        if per_share ≼ real 0
        then no_shares fixed_fractional
        else sized fixed_fractional s entry_price per_share
            (max_ℤ (pos 0) (capped_shares s entry_price per_share risk_percent))

    unfoldable pub fixed_fractional_size : PositionSizer R → R → R → Option R → PositionSizeResult R
    fixed_fractional_size s entry_price stop_loss risk_percent =
        fixed_fractional_at s entry_price stop_loss (or_default risk_percent s.max_risk_per_trade)

    unfoldable pub kelly_size : PositionSizer R → R → R → R → R → R → PositionSizeResult R
    kelly_size s entry_price stop_loss target_price win_rate fraction =
        let win_amount = magnitude (target_price ⊖ entry_price) in
        let loss_amount = magnitude (entry_price ⊖ stop_loss) in
        let kelly = kelly_fraction win_amount loss_amount win_rate in
        if loss_amount ≼ real 0
        then no_shares kelly_criterion
        else if win_amount ≼ real 0
        then no_shares kelly_criterion
        else if kelly ≼ real 0
        then no_shares kelly_criterion
        else sized kelly_criterion s entry_price loss_amount
            (whole (s.capital ⊗ minimum (kelly ⊗ fraction) s.max_position_pct ⊘ entry_price))

    unfoldable pub atr_size : PositionSizer R → R → R → R → Option R → PositionSizeResult R
    atr_size s entry_price atr atr_multiplier risk_percent =
        let stop_distance = atr ⊗ atr_multiplier in
        if stop_distance ≼ real 0
        then no_shares atr_based
        else sized atr_based s entry_price stop_distance (
            capped_shares s entry_price stop_distance
              (or_default risk_percent s.max_risk_per_trade))

    unfoldable pub volatility_size :
        PositionSizer R → R → R → R → R → Option R → PositionSizeResult R
    volatility_size s entry_price stop_loss current_volatility avg_volatility base_risk_percent =
        let base_risk = or_default base_risk_percent s.max_risk_per_trade in
        with_method volatility_adjusted (
          fixed_fractional_size s entry_price stop_loss
            (some (adjusted_risk s base_risk current_volatility avg_volatility)))

    -- What follows when Kelly's criterion gives no answer.
    unfoldable pub by_volatility : PositionSizer R → R → R → Evidence R → PositionSizeResult R
    by_volatility s entry_price stop_loss e =
        if given e.current_volatility && given e.avg_volatility
        then volatility_size s entry_price stop_loss (or_default e.current_volatility (real 0))
            (or_default e.avg_volatility (real 0)) none
        else if real 0 ≺ or_default e.atr (real 0)
        then atr_size s entry_price (or_default e.atr (real 0)) (real 2) none
        else fixed_fractional_size s entry_price stop_loss none

    unfoldable pub calculate_optimal : PositionSizer R → R → R → Evidence R → PositionSizeResult R
    calculate_optimal s entry_price stop_loss e =
        let kelly =
          kelly_size s entry_price stop_loss (or_default e.target_price (real 0))
            (or_default e.win_rate (real 0)) half in
        if kelly_applies e && ltb_ℤ (pos 0) kelly.shares
        then kelly
        else by_volatility s entry_price stop_loss e

    unfoldable pub calculate_position_size : R → R → R → R → R → Evidence R → PositionSizeResult R
    calculate_position_size capital entry_price stop_loss risk_per_trade max_position_pct e =
        calculate_optimal
          (record {
            capital = capital;
            max_position_pct = max_position_pct;
            max_risk_per_trade = risk_per_trade;
            max_total_risk = real 1 ⊘ real 10;
          })
          entry_price stop_loss e

  abbrev pub risk_of : HeldPosition R → R
  risk_of p = magnitude (p.entry_price ⊖ p.stop_loss) ⊗ real_ℤ p.quantity

  abbrev pub add_heat : R → List (HeldPosition R) → R → List (PositionHeat R) → PortfolioHeat R
  add_heat capital [] total heats = record {
    total_risk = total;
    total_risk_pct = share_of total capital;
    position_count = length heats;
    positions = heats;
  }
  add_heat capital (p ∷ ps) total heats =
      let heat : PositionHeat R = record {
        symbol = p.symbol;
        risk = risk_of p;
        risk_pct = share_of (risk_of p) capital;
      } in
      add_heat capital ps (total ⊕ risk_of p) (heats ++ heat ∷ [])

  unfoldable pub calculate_portfolio_heat : List (HeldPosition R) → R → PortfolioHeat R
  calculate_portfolio_heat positions capital = add_heat capital positions (real 0) []
