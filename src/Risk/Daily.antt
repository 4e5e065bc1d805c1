-- ===== src/Risk/Daily.antt =====
-- src/markets/nse/risk/daily_state.py: `DailyRiskStore`, one row for each day. A store is the rows of
-- its namespace; each operation reads the day from the clock, `record_trade` once for each of its two parts.
use delta_quant.Prelude.{
  Bool, true, false, ℕ, ◌+◌, ◌≡◌, length, arith, subst, refl, ap, sym, inl, inr, none, some, List,
  [], ◌∷◌, ◌==◌, if◌then◌else◌, Bool-cases, ==_iff,
}
use delta_quant.Prelude.Dict.{Dict, lookup, insert, lookup-insert}
use delta_quant.Prelude.Real.{Real, real, ◌⊕◌, ◌≺◌, maximum}

-- `DailyRiskRecord`
pub record Day (R : Type 0) : Type 0 where
  pub trades_count : ℕ
  pub exits_count : ℕ
  pub profit_loss : R
  pub max_drawdown : R

-- An operation of the store with its arguments; a trade has the day that its second part reads.
pub data DayOp (R : Type 0) : Type 0 where
  entry : DayOp R
  exit_pnl : R → DayOp R
  trade : R → ℕ → DayOp R
  drawdown : R → DayOp R

module _ {R : Type 0} ⦃r : Real R⦄ where
  abbrev pub new_day : Day R
  new_day = record {
    trades_count = 0;
    exits_count = 0;
    profit_loss = real 0;
    max_drawdown = real 0;
  }

  -- `_get_or_create`
  abbrev pub day_of : ℕ → Dict (Day R) → Day R
  day_of today rows = elim (lookup today rows) [ none ↦ new_day | some d ↦ d ]

  unfoldable pub get_today : ℕ → Dict (Day R) → Dict (Day R) × Day R
  get_today today rows = (insert today (day_of today rows) rows, day_of today rows)

  abbrev pub with_entry : Day R → Day R
  with_entry d = record d { trades_count = d.trades_count + 1 }

  abbrev pub with_exit : R → Day R → Day R
  with_exit pnl d = record d { exits_count = d.exits_count + 1; profit_loss = d.profit_loss ⊕ pnl }

  abbrev pub with_drawdown : R → Day R → Day R
  with_drawdown amount d = record d { max_drawdown = maximum d.max_drawdown amount }

  unfoldable pub record_entry : ℕ → Dict (Day R) → Dict (Day R)
  record_entry today rows = insert today (with_entry (day_of today rows)) rows

  unfoldable pub record_exit_pnl : R → ℕ → Dict (Day R) → Dict (Day R)
  record_exit_pnl pnl today rows = insert today (with_exit pnl (day_of today rows)) rows

  unfoldable pub record_trade : R → ℕ → ℕ → Dict (Day R) → Dict (Day R)
  unfolding record_entry record_exit_pnl
  record_trade pnl later today rows = record_exit_pnl pnl later (record_entry today rows)

  unfoldable pub update_drawdown : R → ℕ → Dict (Day R) → Dict (Day R)
  update_drawdown amount today rows = insert today (with_drawdown amount (day_of today rows)) rows

  abbrev apply_day : DayOp R → ℕ → Dict (Day R) → Dict (Day R)
  apply_day entry = record_entry
  apply_day (exit_pnl pnl) = record_exit_pnl pnl
  apply_day (trade pnl later) = record_trade pnl later
  apply_day (drawdown amount) = update_drawdown amount

  -- Operations at their days.
  unfoldable pub keep_days : List (ℕ × DayOp R) → Dict (Day R) → Dict (Day R)
  unfolding record_entry record_exit_pnl record_trade update_drawdown
  keep_days [] rows = rows
  keep_days ((today, op) ∷ ops) rows = keep_days ops (apply_day op today rows)

  -- What one day sees of the operations, told apart by their parts: entries, gains and drawdowns.
  abbrev pub entries_on : ℕ → List (ℕ × DayOp R) → ℕ
  entries_on day [] = 0
  entries_on day ((today, entry) ∷ ops) = (if day == today then 1 else 0) + entries_on day ops
  entries_on day ((today, trade pnl later) ∷ ops) =
      (if day == today then 1 else 0) + entries_on day ops
  entries_on day ((today, exit_pnl pnl) ∷ ops) = entries_on day ops
  entries_on day ((today, drawdown amount) ∷ ops) = entries_on day ops

  abbrev pub gains_on : ℕ → List (ℕ × DayOp R) → List R
  gains_on day [] = []
  gains_on day ((today, entry) ∷ ops) = gains_on day ops
  gains_on day ((today, trade pnl later) ∷ ops) =
      if day == later then pnl ∷ gains_on day ops else gains_on day ops
  gains_on day ((today, exit_pnl pnl) ∷ ops) =
      if day == today then pnl ∷ gains_on day ops else gains_on day ops
  gains_on day ((today, drawdown amount) ∷ ops) = gains_on day ops

  abbrev pub drawdowns_on : ℕ → List (ℕ × DayOp R) → List R
  drawdowns_on day [] = []
  drawdowns_on day ((today, entry) ∷ ops) = drawdowns_on day ops
  drawdowns_on day ((today, trade pnl later) ∷ ops) = drawdowns_on day ops
  drawdowns_on day ((today, exit_pnl pnl) ∷ ops) = drawdowns_on day ops
  drawdowns_on day ((today, drawdown amount) ∷ ops) =
      if day == today then amount ∷ drawdowns_on day ops else drawdowns_on day ops

  abbrev pub add_up : R → List R → R
  add_up total [] = total
  add_up total (x ∷ xs) = add_up (total ⊕ x) xs

  abbrev pub deepest : R → List R → R
  deepest worst [] = worst
  deepest worst (x ∷ xs) = deepest (if worst ≺ x then x else worst) xs

  -- A day that was `before`, after a number of entries, some gains and some drawdowns.
  abbrev pub IsSum : Day R → ℕ → List R → List R → Day R → Type 0
  IsSum before entries gains drawdowns after =
      (after.trades_count ≡ before.trades_count + entries)
      × (after.exits_count ≡ before.exits_count + length gains)
      × (after.profit_loss ≡ add_up before.profit_loss gains)
      × (after.max_drawdown ≡ deepest before.max_drawdown drawdowns)

  abbrev pub IsDayOf : ℕ → List (ℕ × DayOp R) → Day R → Day R → Type 0
  IsDayOf day ops before after =
      IsSum before (entries_on day ops) (gains_on day ops) (drawdowns_on day ops) after

  module _ (d after : Day R) (n : ℕ) (gains drawdowns : List R) where
    entry_first :
        (own : Bool)
        → IsSum (if own then with_entry d else d) n gains drawdowns after
        → IsSum d ((if own then 1 else 0) + n) gains drawdowns after
    entry_first true h = (omega (arith, h.0), h.1, h.2, h.3)
    entry_first false h = (omega (arith, h.0), h.1, h.2, h.3)

    exit_first :
        (pnl : R) (own : Bool)
        → IsSum (if own then with_exit pnl d else d) n gains drawdowns after
        → IsSum d n (if own then pnl ∷ gains else gains) drawdowns after
    exit_first pnl true h = (h.0, omega (arith, h.1), h.2, h.3)
    exit_first pnl false h = h

    drawdown_first :
        (amount : R) (own : Bool)
        → IsSum (if own then with_drawdown amount d else d) n gains drawdowns after
        → IsSum d n gains (if own then amount ∷ drawdowns else drawdowns) after
    drawdown_first amount true h = h
    drawdown_first amount false h = h

  day_of-change :
      (change : Day R → Day R) (day today : ℕ) (rows : Dict (Day R))
      → day_of day (insert today (change (day_of today rows)) rows)
        ≡ (if day == today then change (day_of day rows) else day_of day rows)
  day_of-change change day today rows =
      let d = change (day_of today rows) in
      elim (Bool-cases (day == today)) [
        | inl same ↦
            let one : day ≡ today = (==_iff day today).0 same in
            rw (day_of, lookup-insert day today d rows, same)
              (ap (λ t. change (day_of t rows)) (sym one))
        | inr other ↦ rw (day_of, lookup-insert day today d rows, other) refl
      ]

  -- However the operations of several days are mixed, and wherever the day changes inside of a trade, the
  -- row that a day is answered with has, on top of what stood before, the entries of that day, the number
  -- and the running sum of the gains booked on it, and the deepest of its drawdowns: nothing is lost at the
  -- change of the day, and nothing of another day is counted.
  pub get_today-keep_days :
      (day : ℕ) (ops : List (ℕ × DayOp R)) (rows : Dict (Day R))
      → IsDayOf day ops (day_of day rows) (get_today day (keep_days ops rows)).1
  unfolding get_today keep_days record_entry record_exit_pnl record_trade update_drawdown
  get_today-keep_days day [] rows = (omega arith, omega arith, refl, refl)
  get_today-keep_days day ((today, entry) ∷ ops) rows =
      let n = entries_on day ops in
      let gains = gains_on day ops in
      let falls = drawdowns_on day ops in
      let after = (get_today day (keep_days ops (record_entry today rows))).1 in
      let rest = get_today-keep_days day ops (record_entry today rows) in
      entry_first (day_of day rows) after n gains falls (day == today)
        (subst (λ d. IsSum d n gains falls after) (day_of-change with_entry day today rows) rest)
  get_today-keep_days day ((today, exit_pnl pnl) ∷ ops) rows =
      let n = entries_on day ops in
      let gains = gains_on day ops in
      let falls = drawdowns_on day ops in
      let after = (get_today day (keep_days ops (record_exit_pnl pnl today rows))).1 in
      let rest = get_today-keep_days day ops (record_exit_pnl pnl today rows) in
      exit_first (day_of day rows) after n gains falls pnl (day == today) (
        subst (λ d. IsSum d n gains falls after) (day_of-change (with_exit pnl) day today rows)
          rest)
  get_today-keep_days day ((today, drawdown amount) ∷ ops) rows =
      let n = entries_on day ops in
      let gains = gains_on day ops in
      let falls = drawdowns_on day ops in
      let after = (get_today day (keep_days ops (update_drawdown amount today rows))).1 in
      let rest = get_today-keep_days day ops (update_drawdown amount today rows) in
      drawdown_first (day_of day rows) after n gains falls amount (day == today) (
        subst (λ d. IsSum d n gains falls after)
          (day_of-change (with_drawdown amount) day today rows) rest)
  get_today-keep_days day ((today, trade pnl later) ∷ ops) rows =
      let n = entries_on day ops in
      let gains = gains_on day ops in
      let falls = drawdowns_on day ops in
      let rows' = record_entry today rows in
      let after = (get_today day (keep_days ops (record_exit_pnl pnl later rows'))).1 in
      let rest = get_today-keep_days day ops (record_exit_pnl pnl later rows') in
      let own = day == later in
      entry_first (day_of day rows) after n (if own then pnl ∷ gains else gains) falls
        (day == today)
        (subst (λ d. IsSum d n (if own then pnl ∷ gains else gains) falls after)
          (day_of-change with_entry day today rows)
          (exit_first (day_of day rows') after n gains falls pnl own (
            subst (λ d. IsSum d n gains falls after) (day_of-change (with_exit pnl) day later rows')
              rest)))
