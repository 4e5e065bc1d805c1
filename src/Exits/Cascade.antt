-- ===== src/Exits/Cascade.antt =====
-- src/markets/nse/execution/exit_manager.py: which exit a cycle asks for, as a cascade of conditions.
use delta_quant.Prelude.{
  ◌≡◌, Bool, not, ◌&&◌, Option, none, some, [], ◌∷◌, leb, ◌==◌, arith, if◌then◌else◌,
}
use delta_quant.Prelude.Real.{Real, real, ◌⊗◌, ◌⊘◌, ◌≺◌, ◌≼◌, magnitude}
use delta_quant.Exits.{ManagedPosition, ExitSettings, update_price}
use delta_quant.Exits.Rules.{
  ExitRule, stop_loss, target_hit, trailing_stop, time_exit, stale_exit, regime_change, partial,
  Moment, full, check_stop, check_target, check_trailing, check_time, check_intraday_square_off,
  check_stale, check_regime, check_partial, contains, is_adverse, minutes_held, against, in_favour,
  tighter, trail, move, risk,
}
use delta_quant.Exits.Cycle.{fired, place_rule, sort_rules, first, rules_of, check_position}

module _ {R : Type 0} ⦃r : Real R⦄ where
  abbrev pub one : Bool → ExitRule R → Option (ExitRule R)
  one test rule = if test then some rule else none

  abbrev pub partly : R → ExitRule R
  partly pct = record { exit_type = partial; partial_pct = pct; priority = 40 }

  -- The first condition that holds, from the most urgent to the least.
  abbrev pub cascade :
      Bool → Bool → Bool → Bool → Bool → Bool → Bool → Bool → R → Option (ExitRule R)
  cascade stop target trailing square_off held adverse stale early pct =
      if stop
      then some (full stop_loss 100)
      else if target
      then some (full target_hit 90)
      else if trailing
      then some (full trailing_stop 85)
      else if square_off
      then some (full time_exit 80)
      else if held
      then some (full time_exit 70)
      else if adverse
      then some (full regime_change 60)
      else if stale
      then some (full stale_exit 50)
      else one early (partly pct)

  ranked :
      (stop target trailing held square_off stale adverse early : Bool) (pct : R)
      → first (
          sort_rules (
            fired (
              one stop (full stop_loss 100)
              ∷ one target (full target_hit 90)
              ∷ one trailing (full trailing_stop 85)
              ∷ one held (full time_exit 70)
              ∷ one square_off (full time_exit 80)
              ∷ one stale (full stale_exit 50)
              ∷ one adverse (full regime_change 60)
              ∷ one early (partly pct)
              ∷ [])))
        ≡ cascade stop target trailing square_off held adverse stale early pct
  unfolding fired place_rule sort_rules
  ranked stop target trailing held square_off stale adverse early pct = ground arith

module _ {R : Type 0} ⦃r : Real R⦄ (c : ExitSettings R) (m : Moment) (price atr : R)
    (p : ManagedPosition R) where
  -- The conditions, as the settings put them.
  abbrev pub trails : Bool
  trails =
      not (atr ≼ real 0)
      && tighter p.side (trail c atr p) p.current_stop
      && tighter p.side (trail c atr p) p.entry_price
      && against p.side price (trail c atr p)

  abbrev pub squares_off : Bool
  squares_off =
      c.intraday_square_off_enabled
      && contains p.timeframe c.intraday_timeframes
      && leb c.intraday_square_off_time m.time_of_day

  abbrev pub is_stale : Bool
  is_stale =
      not (minutes_held m p ≺ c.stale_trade_minutes)
      && magnitude (move p price ⊘ p.entry_price ⊗ real 100) ≺ c.stale_trade_min_pnl_pct

  abbrev pub turns : Bool
  turns = not (m.regime == 0) && is_adverse p.regime_at_entry m.regime

  abbrev pub pays : Bool
  pays = not p.partial_taken && not (risk p ≼ real 0) && c.partial_profit_r ≼ move p price ⊘ risk p

  -- The most urgent exit whose condition holds.
  abbrev pub due : Option (ExitRule R)
  due =
      cascade (against p.side price p.current_stop) (in_favour p.side price p.target_price) trails
        squares_off (c.max_hold_minutes ≼ minutes_held m p) turns is_stale pays c.partial_exit_pct

  trailing-one : check_trailing c p price atr ≡ one trails (full trailing_stop 85)
  unfolding check_trailing
  trailing-one = ground arith

  square_off-one : check_intraday_square_off c m p ≡ one squares_off (full time_exit 80)
  unfolding check_intraday_square_off
  square_off-one = ground arith

  stale-one : check_stale c m p price ≡ one is_stale (full stale_exit 50)
  unfolding check_stale
  stale-one = ground arith

  regime-one : check_regime m p ≡ one turns (full regime_change 60)
  unfolding check_regime
  regime-one = ground arith

  partial-one : check_partial c p price ≡ one pays (partly c.partial_exit_pct)
  unfolding check_partial
  partial-one = ground arith

  rules_of-due : first (sort_rules (rules_of c m price atr p)) ≡ due
  unfolding rules_of check_stop check_target check_time
  rules_of-due =
      rw (trailing-one, square_off-one, stale-one, regime-one, partial-one)
        (ranked (against p.side price p.current_stop) (in_favour p.side price p.target_price) trails
          (c.max_hold_minutes ≼ minutes_held m p) squares_off is_stale turns pays
          c.partial_exit_pct)

module _ {R : Type 0} ⦃r : Real R⦄ where
  -- When no check of it raises, a cycle asks for a position's exit by the most urgent condition that
  -- holds, and for none when none holds: the stop first, then the target, the trailing stop, the intraday
  -- square-off, the longest holding time, the turn of the regime, the stale trade and the partial profit.
  pub check_position-due :
      (c : ExitSettings R) (m : Moment) (price atr : R) (p : ManagedPosition R)
      → (check_position c m price atr p).1 ≡ due c m price atr (update_price price p)
  unfolding check_position
  check_position-due c m price atr p = rules_of-due c m price atr (update_price price p)
