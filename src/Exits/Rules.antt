-- ===== src/Exits/Rules.antt =====
-- The exit rules of `ExitManager`, and the movements of the stop. A rule that does not fire is `none`;
-- its text is left out.
use delta_quant.Prelude.{
  ℕ, ◌-◌, Bool, true, false, not, Option, none, some, List, [], ◌∷◌, ◌&&◌, ◌||◌, ◌==◌, leb,
  if◌then◌else◌, Text,
}
use delta_quant.Prelude.Real.{Real, real, ◌⊕◌, ◌⊖◌, ◌⊗◌, ◌⊘◌, ◌≺◌, ◌≼◌, maximum, minimum, magnitude}
use delta_quant.Costs.{Side, buy, sell}
use delta_quant.Exits.{ManagedPosition, ExitSettings}

pub data ExitType : Type 0 where
  stop_loss target_hit trailing_stop time_exit stale_exit regime_change partial : ExitType

pub record ExitRule (R : Type 0) : Type 0 where
  pub exit_type : ExitType
  pub partial_pct : R
  pub priority : ℕ

-- The regimes that `_check_regime` names.
abbrev pub trending_up : Text
trending_up = 1

abbrev pub trending_down : Text
trending_down = 2

abbrev pub volatile : Text
volatile = 3

abbrev pub is_adverse : Text → Text → Bool
is_adverse before now =
    (before == trending_up && (now == trending_down || now == volatile))
    || (before == trending_down && (now == trending_up || now == volatile))

abbrev pub contains : Text → List Text → Bool
contains t [] = false
contains t (x ∷ xs) = t == x || contains t xs

-- What a cycle reads from outside: the clock, the time of day, and the regime (empty if unknown).
pub record Moment : Type 0 where
  pub now : ℕ
  pub time_of_day : ℕ
  pub regime : Text

module _ {R : Type 0} ⦃r : Real R⦄ where
  abbrev pub full : ExitType → ℕ → ExitRule R
  full kind priority = record { exit_type = kind; partial_pct = real 1; priority = priority }

  -- `ExitRule(should_exit=test, ...)`
  abbrev when : Bool → ExitRule R → Option (ExitRule R)
  when test rule = if test then some rule else none

  -- The price is at the level or beyond it, against the position or for it.
  abbrev pub against : Side → R → R → Bool
  against buy price level = price ≼ level
  against sell price level = level ≼ price

  abbrev pub in_favour : Side → R → R → Bool
  in_favour buy price level = level ≼ price
  in_favour sell price level = price ≼ level

  -- `a` is strictly better than `b` as a stop.
  abbrev pub tighter : Side → R → R → Bool
  tighter buy a b = b ≺ a
  tighter sell a b = a ≺ b

  unfoldable pub check_stop : ManagedPosition R → R → Option (ExitRule R)
  check_stop p price = when (against p.side price p.current_stop) (full stop_loss 100)

  unfoldable pub check_target : ManagedPosition R → R → Option (ExitRule R)
  check_target p price = when (in_favour p.side price p.target_price) (full target_hit 90)

  abbrev pub trail_of : Side → R → R → R → R
  trail_of buy high low dist = high ⊖ dist
  trail_of sell high low dist = low ⊕ dist

  -- The level of the trailing stop.
  abbrev pub trail : ExitSettings R → R → ManagedPosition R → R
  trail c atr p = trail_of p.side p.highest_price p.lowest_price (atr ⊗ c.trailing_atr_multiplier)

  unfoldable pub check_trailing : ExitSettings R → ManagedPosition R → R → R → Option (ExitRule R)
  check_trailing c p price atr =
      let level = trail c atr p in
      if atr ≼ real 0
      then none
      else when
          (tighter p.side level p.current_stop
            && tighter p.side level p.entry_price
            && against p.side price level)
          (full trailing_stop 85)

  abbrev pub minutes_held : Moment → ManagedPosition R → R
  minutes_held m p = real (m.now - p.entry_time) ⊘ real 60

  unfoldable pub check_time : ExitSettings R → Moment → ManagedPosition R → Option (ExitRule R)
  check_time c m p = when (c.max_hold_minutes ≼ minutes_held m p) (full time_exit 70)

  unfoldable pub check_intraday_square_off :
      ExitSettings R → Moment → ManagedPosition R → Option (ExitRule R)
  check_intraday_square_off c m p =
      if not c.intraday_square_off_enabled || not (contains p.timeframe c.intraday_timeframes)
      then none
      else when (leb c.intraday_square_off_time m.time_of_day) (full time_exit 80)

  -- The move since entry, positive in the position's favour.
  abbrev pub move : ManagedPosition R → R → R
  move p price = gain p.side p.entry_price price
    where
      gain : Side → R → R → R
      gain buy entry now = now ⊖ entry
      gain sell entry now = entry ⊖ now

  unfoldable pub check_stale : ExitSettings R → Moment → ManagedPosition R → R → Option (ExitRule R)
  check_stale c m p price =
      let pnl_pct = move p price ⊘ p.entry_price ⊗ real 100 in
      if minutes_held m p ≺ c.stale_trade_minutes
      then none
      else when (magnitude pnl_pct ≺ c.stale_trade_min_pnl_pct) (full stale_exit 50)

  unfoldable pub check_regime : Moment → ManagedPosition R → Option (ExitRule R)
  check_regime m p =
      if m.regime == 0
      then none
      else when (is_adverse p.regime_at_entry m.regime) (full regime_change 60)

  -- The risk per share at entry, and the move in units of it.
  abbrev pub risk : ManagedPosition R → R
  risk p = magnitude (p.entry_price ⊖ p.stop_loss)

  unfoldable pub check_partial : ExitSettings R → ManagedPosition R → R → Option (ExitRule R)
  check_partial c p price =
      if p.partial_taken || risk p ≼ real 0
      then none
      else when (c.partial_profit_r ≼ move p price ⊘ risk p)
          (record { exit_type = partial; partial_pct = c.partial_exit_pct; priority = 40 })

  unfoldable pub update_trailing : ExitSettings R → R → ManagedPosition R → ManagedPosition R
  update_trailing c atr p =
      let level = trail c atr p in
      if tighter p.side level p.current_stop && tighter p.side level p.entry_price
      then record p { current_stop = level }
      else p

  abbrev pub best_stop : Side → R → R → R
  best_stop buy stop entry = maximum stop entry
  best_stop sell stop entry = minimum stop entry

  unfoldable pub check_breakeven : ExitSettings R → R → ManagedPosition R → ManagedPosition R
  check_breakeven c price p =
      let moved = record p {
        current_stop = best_stop p.side p.current_stop p.entry_price;
        breakeven_moved = true;
      } in
      if p.breakeven_moved || risk p ≼ real 0
      then p
      else if c.breakeven_r_threshold ≼ move p price ⊘ risk p
      then moved
      else p
