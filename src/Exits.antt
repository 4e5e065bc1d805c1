-- ===== src/Exits.antt =====
-- src/markets/nse/execution/exit_manager.py: the positions that the exit manager tracks, and how it
-- registers and updates them. Saving to the state file is best effort and changes nothing here. Times
-- are in seconds, the time of day in minutes.
pub mod Rules
pub mod Cycle
pub mod Ratchet
pub mod Decisions
pub mod Cascade
mod Samples
use delta_quant.Prelude.{
  ℕ, ◌+◌, ◌-◌, Bool, true, false, Option, none, some, List, ◌||◌, ◌==◌, leb, if◌then◌else◌, Text,
}
use delta_quant.Prelude.Dict.{Dict, lookup, insert, erase}
use delta_quant.Prelude.Real.{Real, real, ◌⊕◌, ◌⊗◌, ◌⊘◌, ◌≼◌, maximum, minimum}
use delta_quant.Costs.{Side}
use delta_quant.Paper.{favourable, adverse, or_real}

pub record ManagedPosition (R : Type 0) : Type 0 where
  pub position_id : Text
  pub symbol : Text
  pub side : Side
  pub quantity : ℕ
  pub entry_price : R
  pub entry_time : ℕ
  pub stop_loss : R
  pub target_price : R
  pub strategy : Text
  pub timeframe : Text
  pub regime_at_entry : Text
  pub current_stop : R
  pub highest_price : R
  pub lowest_price : R
  pub breakeven_moved : Bool
  pub partial_taken : Bool
  pub mae : R
  pub mfe : R

-- The settings of an `ExitManager`.
pub record ExitSettings (R : Type 0) : Type 0 where
  pub trailing_atr_multiplier : R
  pub breakeven_r_threshold : R
  pub max_hold_minutes : R
  pub partial_profit_r : R
  pub partial_exit_pct : R
  pub stale_trade_minutes : R
  pub stale_trade_min_pnl_pct : R
  pub intraday_square_off_enabled : Bool
  pub intraday_square_off_time : ℕ
  pub intraday_timeframes : List Text

-- The arguments of `register_position`.
pub record Registration (R : Type 0) : Type 0 where
  pub position_id : Text
  pub symbol : Text
  pub side : Side
  pub quantity : ℕ
  pub entry_price : R
  pub stop_loss : R
  pub target_price : R
  pub strategy : Text
  pub regime : Text
  pub entry_time : ℕ
  pub timeframe : Text

-- `_positions`
abbrev pub Tracked : Type 0 → Type 0
Tracked R = Dict (ManagedPosition R)

module _ {R : Type 0} where
  unfoldable pub get_position : Text → Tracked R → Option (ManagedPosition R)
  get_position = lookup

  unfoldable pub unregister_position : Text → Tracked R → Tracked R
  unregister_position = erase

  -- `apply_exit_fill`: the position after the fill (with nothing left it is no longer tracked), and
  -- what is tracked.
  unfoldable pub reduce_by : ℕ → ManagedPosition R → ManagedPosition R
  reduce_by n p = record p { quantity = p.quantity - n }

  unfoldable pub apply_exit_fill : Text → ℕ → Tracked R → Tracked R × Option (ManagedPosition R)
  unfolding reduce_by
  apply_exit_fill id n ps = elim (lookup id ps) [
    | none ↦ (ps, none)
    | some p ↦
        let p' = reduce_by n p in
        let kept = record p' { partial_taken = true } in
        if n == 0
        then (ps, some p)
        else if p'.quantity == 0
        then (erase id ps, some p')
        else (insert id kept ps, some kept)
  ]

module _ {R : Type 0} ⦃r : Real R⦄ where
  -- `ManagedPosition.__post_init__`
  abbrev pub managed_init : ManagedPosition R → ManagedPosition R
  managed_init p = record p {
    current_stop = or_real p.current_stop p.stop_loss;
    highest_price = or_real p.highest_price p.entry_price;
    lowest_price = or_real p.lowest_price p.entry_price;
  }

  -- `ManagedPosition.update_price`
  unfoldable pub update_price : R → ManagedPosition R → ManagedPosition R
  update_price price p =
      let high = maximum p.highest_price price in
      let low = minimum p.lowest_price price in
      let size = real p.quantity in
      record p {
        highest_price = high;
        lowest_price = low;
        mfe = maximum p.mfe (favourable p.side p.entry_price high low ⊗ size);
        mae = maximum p.mae (adverse p.side p.entry_price high low ⊗ size);
      }

  abbrev pub managed : Registration R → ManagedPosition R
  managed a = managed_init (record {
    position_id = a.position_id;
    symbol = a.symbol;
    side = a.side;
    quantity = a.quantity;
    entry_price = a.entry_price;
    entry_time = a.entry_time;
    stop_loss = a.stop_loss;
    target_price = a.target_price;
    strategy = a.strategy;
    timeframe = a.timeframe;
    regime_at_entry = a.regime;
    current_stop = real 0;
    highest_price = real 0;
    lowest_price = real 0;
    breakeven_moved = false;
    partial_taken = false;
    mae = real 0;
    mfe = real 0;
  })

  unfoldable pub register_position : Registration R → Tracked R → Tracked R
  register_position a ps = insert a.position_id (managed a) ps

  -- `apply_add_fill`
  unfoldable pub apply_add_fill : Text → ℕ → R → Tracked R → Tracked R × Option (ManagedPosition R)
  apply_add_fill id n price ps = elim (lookup id ps) [
    | none ↦ (ps, none)
    | some p ↦
        let size = p.quantity + n in
        let p' = record p {
          entry_price = (p.entry_price ⊗ real p.quantity ⊕ price ⊗ real n) ⊘ real size;
          quantity = size;
        } in
        if n == 0 || price ≼ real 0 then (ps, some p) else (insert id p' ps, some p')
  ]
