-- ===== src/Costs.antt =====
-- src/markets/nse/risk/costs.py: slippage and charges of a paper fill.
use delta_quant.Prelude.{if◌then◌else◌}
use delta_quant.Prelude.Real.{Real, real, ◌⊕◌, ◌⊖◌, ◌⊗◌, ◌⊘◌, ◌≺◌, minimum, magnitude}

-- `"BUY"` and `"SELL"`: the values that callers pass, after `upper()`.
pub data Side : Type 0 where
  buy sell : Side

pub record CostModel (R : Type 0) : Type 0 where
  pub slippage_bps : R
  pub brokerage_bps : R
  pub brokerage_max : R
  pub statutory_bps : R
  pub gst_pct : R

module _ {R : Type 0} ⦃r : Real R⦄ where
  -- `CostModel.zero()`
  abbrev pub zero_cost : CostModel R
  zero_cost = record {
    slippage_bps = real 0;
    brokerage_bps = real 0;
    brokerage_max = real 0;
    statutory_bps = real 0;
    gst_pct = real 0;
  }

  abbrev slipped : Side → R → R → R
  slipped buy price adjustment = price ⊕ adjustment
  slipped sell price adjustment = price ⊖ adjustment

  unfoldable pub fill_price : CostModel R → R → Side → R
  fill_price c price side = slipped side price (price ⊗ c.slippage_bps ⊘ real 10_000)

  unfoldable pub charges : CostModel R → R → R
  charges c notional =
      let size = magnitude notional in
      let uncapped = size ⊗ c.brokerage_bps ⊘ real 10_000 in
      let brokerage =
        if real 0 ≺ c.brokerage_max then minimum uncapped c.brokerage_max else uncapped in
      let statutory = size ⊗ c.statutory_bps ⊘ real 10_000 in
      let gst = brokerage ⊗ c.gst_pct ⊘ real 100 in brokerage ⊕ statutory ⊕ gst
