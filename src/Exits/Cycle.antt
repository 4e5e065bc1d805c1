-- ===== src/Exits/Cycle.antt =====
-- `ExitManager.check_exits`: one cycle over the tracked positions.
use delta_quant.Prelude.{
  Bool, not, ◌&&◌, Option, none, some, List, [], ◌∷◌, ltb, if◌then◌else◌, Text,
}
use delta_quant.Prelude.Dict.{Dict, lookup}
use delta_quant.Prelude.Real.{Real, real, ◌≺◌}
use delta_quant.Paper.{equal}
use delta_quant.Exits.{ManagedPosition, ExitSettings, Tracked, update_price}
use delta_quant.Exits.Rules.{
  ExitRule, Moment, minutes_held, check_stop, check_target, check_trailing, check_time,
  check_intraday_square_off, check_stale, check_regime, check_partial, update_trailing,
  check_breakeven,
}

module _ {R : Type 0} where
  -- The rules that fire, in the order in which they are appended.
  unfoldable pub fired : List (Option (ExitRule R)) → List (ExitRule R)
  fired [] = []
  fired (none ∷ rs) = fired rs
  fired (some rule ∷ rs) = rule ∷ fired rs

  -- `rules.sort(key=priority, reverse=True)`: stable, so a rule stays ahead of later ones of
  -- its priority.
  unfoldable pub place_rule : ExitRule R → List (ExitRule R) → List (ExitRule R)
  place_rule rule [] = rule ∷ []
  place_rule rule (x ∷ xs) =
      if ltb rule.priority x.priority then x ∷ place_rule rule xs else rule ∷ x ∷ xs

  unfoldable pub sort_rules : List (ExitRule R) → List (ExitRule R)
  unfolding place_rule
  sort_rules [] = []
  sort_rules (rule ∷ rs) = place_rule rule (sort_rules rs)

  -- `rules[0]`
  abbrev pub first : List (ExitRule R) → Option (ExitRule R)
  first [] = none
  first (rule ∷ rs) = some rule

abbrev pub or_zero : {R : Type 0} ⦃r : Real R⦄ → Option R → R
or_zero none = real 0
or_zero (some atr) = atr

module _ {R : Type 0} ⦃r : Real R⦄ (c : ExitSettings R) (m : Moment) where
  -- The checks of one position, its price brought up to date.
  unfoldable pub rules_of : R → R → ManagedPosition R → List (ExitRule R)
  rules_of price atr p = fired (
      check_stop p price
      ∷ check_target p price
      ∷ check_trailing c p price atr
      ∷ check_time c m p
      ∷ check_intraday_square_off c m p
      ∷ check_stale c m p price
      ∷ check_regime m p
      ∷ check_partial c p price
      ∷ [])

  -- The stop movements that follow the checks.
  unfoldable pub manage_stop : R → R → ManagedPosition R → ManagedPosition R
  manage_stop price atr p =
      check_breakeven c price (if real 0 ≺ atr then update_trailing c atr p else p)

  -- The check of a stale trade divides by the entry price.
  abbrev pub divides_by_zero : ManagedPosition R → Bool
  divides_by_zero p = not (minutes_held m p ≺ c.stale_trade_minutes) && equal p.entry_price (real 0)

  -- One position at its price, when no check raises: as it is tracked afterwards, and its exit, if a rule
  -- fires.
  unfoldable pub check_position :
      R → R → ManagedPosition R → ManagedPosition R × Option (ExitRule R)
  check_position price atr p =
      let p' = update_price price p in
      (manage_stop price atr p', first (sort_rules (rules_of price atr p')))

  abbrev pub Exit : Type 0
  Exit = ManagedPosition R × ExitRule R

  -- The exits of a cycle; none at all when a check raises.
  abbrev with_exit :
      ManagedPosition R → Option (ExitRule R) → Option (List Exit) → Option (List Exit)
  with_exit p exit none = none
  with_exit p none (some exits) = some exits
  with_exit p (some rule) (some exits) = some ((p, rule) ∷ exits)

  -- The body of the loop, given the price of the position's symbol, the positions behind it and the cycle
  -- over these, which an error leaves out.
  unfoldable pub visit :
      Dict R
      → Text
      → ManagedPosition R
      → Option R
      → Tracked R
      → Tracked R × Option (List Exit)
      → Tracked R × Option (List Exit)
  visit atrs id p none behind (ps, exits) = ((id, p) ∷ ps, exits)
  visit atrs id p (some price) behind (ps, exits) =
      let (p', exit) = check_position price (or_zero (lookup p.symbol atrs)) p in
      if divides_by_zero p
      then ((id, update_price price p) ∷ behind, none)
      else ((id, p') ∷ ps, with_exit p' exit exits)

  unfoldable pub check_exits : Dict R → Dict R → Tracked R → Tracked R × Option (List Exit)
  unfolding visit
  check_exits prices atrs [] = ([], some [])
  check_exits prices atrs ((id, p) ∷ ps) =
      visit atrs id p (lookup p.symbol prices) ps (check_exits prices atrs ps)
