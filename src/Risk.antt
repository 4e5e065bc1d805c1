-- ===== src/Risk.antt =====
-- src/markets/nse/risk/pretrade.py: the last gate before a paper entry, and the ledger of reservations
-- that lets a batch of candidates see the approvals before them. A percentage is computed as the code
-- computes it; the reasons are named by their test.
pub mod Batch
pub mod Daily
pub mod Averaging
mod Samples
use delta_quant.Prelude.{
  ℕ, ◌+◌, Bool, true, false, not, ◌&&◌, ◌||◌, Option, none, some, List, [], ◌∷◌, ◌++◌, length, leb,
  ltb, ◌==◌, if◌then◌else◌, select, suc, Text,
}
use delta_quant.Prelude.Int.{ℤ, pos, negsuc, leb_ℤ}
use delta_quant.Prelude.Real.{Real, real, ◌⊕◌, ◌⊖◌, ◌⊗◌, ◌⊘◌, ◌≺◌, ◌≼◌, maximum, minimum}
use delta_quant.Costs.{Side, buy, sell}
use delta_quant.Paper.{same_side, or_real}

-- Quantities of orders are whole numbers of either sign.
pub record FinalPaperOrder (R : Type 0) : Type 0 where
  pub symbol : Text
  pub side : Side
  pub quantity : ℤ
  pub entry_price : R
  pub stop_loss : R
  pub target_price : R
  pub strategy : Text

-- What the gate reads of an open position.
pub record OpenPosition (R : Type 0) : Type 0 where
  pub symbol : Text
  pub side : Side
  pub quantity : ℕ
  pub entry_price : R
  pub current_price : R
  pub stop_loss : R

pub data Reason : Type 0 where
  not_long zero_shares bad_levels bad_target no_equity entry_cap position_cap same_symbol : Reason
  position_size total_exposure trade_risk total_risk daily_loss : Reason

-- The keyword arguments of `evaluate`.
pub record Limits (R : Type 0) : Type 0 where
  pub equity : R
  pub entries_today : ℕ
  pub daily_entry_cap : ℕ
  pub max_positions : ℕ
  pub max_position_pct : R
  pub max_total_exposure_pct : R
  pub risk_per_trade : R
  pub max_total_risk : R
  pub realized_daily_pnl : R
  pub daily_loss_limit : Option R
  pub daily_loss_buffer : R

pub record FinalRiskDecision (R : Type 0) : Type 0 where
  pub approved : Bool
  pub reasons : List Reason
  pub projected_exposure_pct : R
  pub projected_risk_pct : R

-- The reasons whose test came out true, in their order.
abbrev pub collect : List (Bool × Reason) → List Reason
collect [] = []
collect ((test, reason) ∷ rest) = if test then reason ∷ collect rest else collect rest

abbrev pub is_empty {ℓ} : {A : Type ℓ} → List A → Bool
is_empty [] = true
is_empty (x ∷ xs) = false

module _ {R : Type 0} ⦃r : Real R⦄ where
  abbrev pub real_ℤ : ℤ → R
  real_ℤ (pos n) = real n
  real_ℤ (negsuc n) = real 0 ⊖ real (suc n)

  abbrev pub notional : FinalPaperOrder R → R
  notional o = real_ℤ o.quantity ⊗ o.entry_price

  abbrev pub loss_at_stop : FinalPaperOrder R → R
  loss_at_stop o = real_ℤ o.quantity ⊗ maximum (real 0) (o.entry_price ⊖ o.stop_loss)

  -- `sum(...)`, from the start 0.
  abbrev pub sum {ℓ} : {A : Type ℓ} → (A → R) → R → List A → R
  sum value total [] = total
  sum value total (x ∷ xs) = sum value (total ⊕ value x) xs

  abbrev pub position_value : OpenPosition R → R
  position_value p = real p.quantity ⊗ or_real p.current_price p.entry_price

  abbrev pub position_risk : OpenPosition R → R
  position_risk p = real p.quantity ⊗ maximum (real 0) (p.entry_price ⊖ p.stop_loss)

  abbrev pub long_positions : List (OpenPosition R) → List (OpenPosition R)
  long_positions = select (λ p. same_side p.side buy)

  abbrev pub current_exposure : List (OpenPosition R) → List (FinalPaperOrder R) → R
  current_exposure positions reserved =
      sum position_value (real 0) positions ⊕ sum notional (real 0) reserved

  abbrev pub current_risk : List (OpenPosition R) → List (FinalPaperOrder R) → R
  current_risk positions reserved =
      sum position_risk (real 0) (long_positions positions) ⊕ sum loss_at_stop (real 0) reserved

  abbrev pub has_symbol : Text → List (OpenPosition R) → List (FinalPaperOrder R) → Bool
  has_symbol symbol (p ∷ ps) reserved = p.symbol == symbol || has_symbol symbol ps reserved
  has_symbol symbol [] (o ∷ os) = o.symbol == symbol || has_symbol symbol [] os
  has_symbol symbol [] [] = false

  -- The percentages, with their values when there is no equity.
  abbrev pub exposure_pct : Limits R → R → R
  exposure_pct l exposure = if real 0 ≺ l.equity then exposure ⊘ l.equity ⊗ real 100 else real 100

  abbrev pub share_of_equity : Limits R → R → R
  share_of_equity l amount = if real 0 ≺ l.equity then amount ⊘ l.equity else real 1

  -- `buffered_remaining`
  abbrev pub buffered_remaining : Limits R → R → R
  buffered_remaining l limit =
      maximum (real 0) (limit ⊕ minimum (real 0) l.realized_daily_pnl)
      ⊗ minimum (real 1) (maximum (real 0) l.daily_loss_buffer)

  abbrev pub exceeds_daily_loss : Limits R → R → Bool
  exceeds_daily_loss l risk = elim l.daily_loss_limit [
    | none ↦ false
    | some limit ↦ buffered_remaining l limit ≺ risk
  ]

  -- The tests, in the order of the code.
  abbrev pub tests :
      Limits R
      → List (OpenPosition R)
      → List (FinalPaperOrder R)
      → FinalPaperOrder R
      → List (Bool × Reason)
  tests l positions reserved o =
      let exposure = current_exposure positions reserved ⊕ notional o in
      let risk = current_risk positions reserved ⊕ loss_at_stop o in
      (not (same_side o.side buy), not_long)
      ∷ (leb_ℤ o.quantity (pos 0), zero_shares)
      ∷ (
        o.entry_price ≼ real 0 || not (real 0 ≺ o.stop_loss && o.stop_loss ≺ o.entry_price),
        bad_levels,
      )
      ∷ (o.target_price ≼ o.entry_price, bad_target)
      ∷ (l.equity ≼ real 0, no_equity)
      ∷ (leb l.daily_entry_cap (l.entries_today + length reserved), entry_cap)
      ∷ (leb l.max_positions (length positions + length reserved), position_cap)
      ∷ (has_symbol o.symbol positions reserved, same_symbol)
      ∷ (l.max_position_pct ≺ share_of_equity l (notional o), position_size)
      ∷ (l.max_total_exposure_pct ≺ exposure_pct l exposure, total_exposure)
      ∷ (l.risk_per_trade ≺ share_of_equity l (loss_at_stop o), trade_risk)
      ∷ (l.max_total_risk ≺ share_of_equity l risk, total_risk)
      ∷ (exceeds_daily_loss l risk, daily_loss)
      ∷ []

  unfoldable pub evaluate :
      Limits R
      → List (OpenPosition R)
      → List (FinalPaperOrder R)
      → FinalPaperOrder R
      → FinalRiskDecision R
  evaluate l positions reserved o =
      let reasons = collect (tests l positions reserved o) in
      record {
        approved = is_empty reasons;
        reasons = reasons;
        projected_exposure_pct = exposure_pct l (current_exposure positions reserved ⊕ notional o);
        projected_risk_pct =
            share_of_equity l (current_risk positions reserved ⊕ loss_at_stop o) ⊗ real 100;
      }

  -- Equality of two orders, with that of the numbers.
  abbrev same_number : R → R → Bool
  same_number a b = a ≼ b && b ≼ a

  abbrev pub same_order : FinalPaperOrder R → FinalPaperOrder R → Bool
  same_order a b =
      a.symbol == b.symbol
      && same_side a.side b.side
      && (leb_ℤ a.quantity b.quantity && leb_ℤ b.quantity a.quantity)
      && same_number a.entry_price b.entry_price
      && same_number a.stop_loss b.stop_loss
      && same_number a.target_price b.target_price
      && a.strategy == b.strategy

  abbrev pub has_order : FinalPaperOrder R → List (FinalPaperOrder R) → Bool
  has_order o [] = false
  has_order o (x ∷ xs) = same_order x o || has_order o xs

  unfoldable pub reserve : FinalPaperOrder R → List (FinalPaperOrder R) → List (FinalPaperOrder R)
  reserve o reserved = reserved ++ o ∷ []

  unfoldable pub release : FinalPaperOrder R → List (FinalPaperOrder R) → List (FinalPaperOrder R)
  release o [] = []
  release o (x ∷ xs) = if same_order x o then xs else x ∷ release o xs

-- What one candidate's turn in the live loop brings: the account's equity and the gains of the day as they
-- are then, the order, and the shares and the price of its fill, if it is filled.
pub record Candidate (R : Type 0) : Type 0 where
  pub equity : R
  pub realized_daily_pnl : R
  pub order : FinalPaperOrder R
  pub fill : Option (ℕ × R)

-- What the loop reads again for each candidate; over the loop the positions keep the prices they have.
pub record Account (R : Type 0) : Type 0 where
  pub positions : List (OpenPosition R)
  pub entries_today : ℕ
  pub reserved : List (FinalPaperOrder R)

-- An order that was submitted, with what the gate read for it.
pub record Submission (R : Type 0) : Type 0 where
  pub limits : Limits R
  pub positions : List (OpenPosition R)
  pub order : FinalPaperOrder R

module _ {R : Type 0} ⦃r : Real R⦄ where
  abbrev pub limits_for : Limits R → Candidate R → Account R → Limits R
  limits_for l c a = record l {
    equity = c.equity;
    realized_daily_pnl = c.realized_daily_pnl;
    entries_today = a.entries_today;
  }

  -- A fill is a position, and counts as an entry of the day.
  abbrev pub with_fill : FinalPaperOrder R → Option (ℕ × R) → Account R → Account R
  with_fill o none a = a
  with_fill o (some (quantity, price)) a = record a {
    positions =
        a.positions
        ++ record {
          symbol = o.symbol;
          side = o.side;
          quantity = quantity;
          entry_price = price;
          current_price = price;
          stop_loss = o.stop_loss;
        }
          ∷ [];
    entries_today = a.entries_today + 1;
  }

  -- An approved candidate is reserved, submitted, and released again.
  unfoldable pub enter : Limits R → Candidate R → Account R → Account R × List (Submission R)
  unfolding evaluate reserve release
  enter l c a =
      let l' = limits_for l c a in
      let submitted = record a { reserved = release c.order (reserve c.order a.reserved) } in
      if (evaluate l' a.positions a.reserved c.order).approved
      then (
        with_fill c.order c.fill submitted,
        record { limits = l'; positions = a.positions; order = c.order } ∷ [],
      )
      else (a, [])

  -- The candidates of a cycle, one after the other.
  unfoldable pub enter_all :
      Limits R → List (Candidate R) → Account R → Account R × List (Submission R)
  unfolding enter
  enter_all l [] a = (a, [])
  enter_all l (c ∷ cs) a =
      let (a', now) = enter l c a in let (a'', later) = enter_all l cs a' in (a'', now ++ later)
