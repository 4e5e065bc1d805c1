-- ===== src/Forex/Pretrade.antt =====
-- src/markets/forex/risk/model.py: the checks before a forex order. A quote's age and spread are those of
-- `CanonicalQuote` of src/core/models/market.py; the details for the report are left out.
use delta_quant.Prelude.{
  ℕ, ◌≡◌, refl, Bool, true, false, not, ◌&&◌, ◌||◌, Option, none, some, List, [], ◌∷◌, leb,
  if◌then◌else◌, All,
}
use delta_quant.Prelude.Real.{Real, real, ◌⊕◌, ◌⊖◌, ◌⊗◌, ◌⊘◌, ◌≺◌, ◌≼◌, maximum, minimum, magnitude}
use delta_quant.Costs.{Side, buy, sell}

pub record ForexRiskLimits (R : Type 0) : Type 0 where
  pub risk_per_trade : R
  pub max_positions : ℕ
  pub max_portfolio_exposure : R
  pub max_currency_exposure : R
  pub max_correlated_currency_positions : ℕ
  pub max_spread_pips : R
  pub max_spread_atr_ratio : R
  pub max_quote_age_seconds : R
  pub daily_loss_limit_fraction : R
  pub max_margin_utilization : R

-- The quote, with its age now.
pub record PricedQuote (R : Type 0) : Type 0 where
  pub bid : R
  pub ask : R
  pub tradeable : Bool
  pub age_seconds : R

-- The keyword arguments of `evaluate_forex_pretrade`.
pub record Pretrade (R : Type 0) : Type 0 where
  pub pip_size : R
  pub quote : PricedQuote R
  pub side : Side
  pub atr : R
  pub open_positions : ℕ
  pub portfolio_exposure_ratio : R
  pub currency_exposure_ratios : List R
  pub correlated_currency_positions : ℕ
  pub limits : ForexRiskLimits R
  pub global_kill_switch : Bool
  pub forex_kill_switch : Bool
  pub stop_price : Option R
  pub risk_amount_home : R
  pub account_equity_home : R
  pub daily_realized_pnl_home : R
  pub margin_used_home : R
  pub required_margin_home : R
  pub duplicate_position : Bool
  pub require_stop_loss : Bool

pub data ReasonCode : Type 0 where
  global_kill_switch forex_kill_switch stop_loss_required invalid_stop_loss : ReasonCode
  duplicate_position instrument_not_tradeable stale_price spread_pips_limit : ReasonCode
  spread_atr_limit forex_position_limit forex_portfolio_exposure : ReasonCode
  currency_exposure_limit correlated_currency_exposure monetary_risk_limit : ReasonCode
  daily_loss_limit margin_utilization_limit : ReasonCode

-- The ratio to the range is infinite, `none`, when there is no range.
pub record ForexRiskDecision (R : Type 0) : Type 0 where
  pub approved : Bool
  pub reason_codes : List ReasonCode
  pub executable_price : R
  pub spread_pips : R
  pub spread_atr_ratio : Option R

abbrev pub reasons_of : List (Bool × ReasonCode) → List ReasonCode
reasons_of [] = []
reasons_of ((test, code) ∷ rest) = if test then code ∷ reasons_of rest else reasons_of rest

abbrev no_reasons : List ReasonCode → Bool
no_reasons [] = true
no_reasons (x ∷ xs) = false

module _ {R : Type 0} ⦃r : Real R⦄ where
  -- `CanonicalQuote.executable_price` and `spread`
  abbrev pub executable_price : PricedQuote R → Side → R
  executable_price q buy = q.ask
  executable_price q sell = q.bid

  abbrev pub spread : PricedQuote R → R
  spread q = q.ask ⊖ q.bid

  -- A stop that is on the wrong side of the price.
  abbrev pub wrong_stop : Pretrade R → Bool
  wrong_stop p = elim p.stop_price [
    | none ↦ false
    | some stop ↦ elim p.side [
      | buy ↦ executable_price p.quote p.side ≼ stop
      | sell ↦ stop ≼ executable_price p.quote p.side
    ]
  ]

  abbrev pub lacks_stop : Pretrade R → Bool
  lacks_stop p = p.require_stop_loss && elim p.stop_price [ none ↦ true | some stop ↦ false ]

  abbrev pub atr_ratio : Pretrade R → Option R
  atr_ratio p = if real 0 ≺ p.atr then some (spread p.quote ⊘ p.atr) else none

  abbrev pub exceeds : R → Option R → Bool
  exceeds limit none = true
  exceeds limit (some ratio) = limit ≺ ratio

  abbrev pub any_exposed : R → List R → Bool
  any_exposed limit [] = false
  any_exposed limit (value ∷ values) = limit ≼ magnitude value || any_exposed limit values

  abbrev pub rounding_dust : R
  rounding_dust = real 1 ⊘ real 1_000_000_000

  -- The tests that need the equity of the account.
  abbrev pub account_tests : Pretrade R → List (Bool × ReasonCode)
  account_tests p =
      let equity = p.account_equity_home in
      let risk = p.risk_amount_home in
      (
        risk ≼ real 0 || equity ⊗ p.limits.risk_per_trade ⊕ rounding_dust ≺ risk,
        monetary_risk_limit,
      )
      ∷ (
        equity ⊗ p.limits.daily_loss_limit_fraction
            ≺ magnitude (minimum (real 0) p.daily_realized_pnl_home) ⊕ maximum (real 0) risk,
        daily_loss_limit,
      )
      ∷ (
        p.limits.max_margin_utilization
            ≺ (p.margin_used_home ⊕ maximum (real 0) p.required_margin_home) ⊘ equity,
        margin_utilization_limit,
      )
      ∷ []

  abbrev pub pretrade_tests : Pretrade R → List (Bool × ReasonCode)
  pretrade_tests p =
      (p.global_kill_switch, global_kill_switch)
      ∷ (p.forex_kill_switch, forex_kill_switch)
      ∷ (lacks_stop p, stop_loss_required)
      ∷ (wrong_stop p, invalid_stop_loss)
      ∷ (p.duplicate_position, duplicate_position)
      ∷ (not p.quote.tradeable, instrument_not_tradeable)
      ∷ (p.limits.max_quote_age_seconds ≺ p.quote.age_seconds, stale_price)
      ∷ (p.limits.max_spread_pips ≺ spread p.quote ⊘ p.pip_size, spread_pips_limit)
      ∷ (exceeds p.limits.max_spread_atr_ratio (atr_ratio p), spread_atr_limit)
      ∷ (leb p.limits.max_positions p.open_positions, forex_position_limit)
      ∷ (p.limits.max_portfolio_exposure ≼ p.portfolio_exposure_ratio, forex_portfolio_exposure)
      ∷ (
        any_exposed p.limits.max_currency_exposure p.currency_exposure_ratios,
        currency_exposure_limit,
      )
      ∷ (
        leb p.limits.max_correlated_currency_positions p.correlated_currency_positions,
        correlated_currency_exposure,
      )
      ∷ (if real 0 ≺ p.account_equity_home then account_tests p else [])

  unfoldable pub evaluate_forex_pretrade : Pretrade R → ForexRiskDecision R
  evaluate_forex_pretrade p =
      let reasons = reasons_of (pretrade_tests p) in
      record {
        approved = no_reasons reasons;
        reason_codes = reasons;
        executable_price = executable_price p.quote p.side;
        spread_pips = spread p.quote ⊘ p.pip_size;
        spread_atr_ratio = atr_ratio p;
      }

no_reasons-passed :
    (ts : List (Bool × ReasonCode))
    → no_reasons (reasons_of ts) ≡ true
    → All (λ (e : Bool × ReasonCode). e.0 ≡ false) ts
no_reasons-passed [] h = tt
no_reasons-passed ((true, code) ∷ ts) h = cc
no_reasons-passed ((false, code) ∷ ts) h = (refl, no_reasons-passed ts h)

module _ {R : Type 0} ⦃r : Real R⦄ where
  -- An order that is approved while the account's equity is positive passes no kill switch, stands on the
  -- right side of its stop, and its risk is positive and within that of one trade.
  evaluate_forex_pretrade-approved :
      (p : Pretrade R)
      → (evaluate_forex_pretrade p).approved ≡ true
      → (real 0 ≺ p.account_equity_home) ≡ true
      → (p.global_kill_switch ≡ false)
        × (p.forex_kill_switch ≡ false)
        × (wrong_stop p ≡ false)
        × ((p.risk_amount_home ≼ real 0
              || p.account_equity_home ⊗ p.limits.risk_per_trade ⊕ rounding_dust
                ≺ p.risk_amount_home)
            ≡ false)
  unfolding evaluate_forex_pretrade
  evaluate_forex_pretrade-approved p ok funded =
      let passed = no_reasons-passed (pretrade_tests p) ok in
      let account : All (λ (e : Bool × ReasonCode). e.0 ≡ false)
          (if real 0 ≺ p.account_equity_home then account_tests p else []) =
        passed.1.1.1.1.1.1.1.1.1.1.1.1.1 in
      (passed.0, passed.1.0, passed.1.1.1.0, (rw funded at account).0)
