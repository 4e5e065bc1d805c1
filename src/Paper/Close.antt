-- ===== src/Paper/Close.antt =====
-- The closing loop of `LocalPaperEngine.place_order`: an order first closes positions of the other
-- side, oldest first.
use delta_quant.Prelude.{
  ℕ, zero, suc, ◌+◌, ◌-◌, min, Bool, true, Option, none, some, [], ◌∷◌, ◌&&◌, ◌||◌, leb, ◌==◌,
  if◌then◌else◌, Text, empty_text,
}
use delta_quant.Prelude.Dict.{Dict, insert, erase}
use delta_quant.Prelude.Real.{Real, real, ◌⊕◌, ◌⊖◌, ◌⊗◌, ◌⊘◌, ◌≺◌}
use delta_quant.Costs.{Side, buy, sell, CostModel, charges}
use delta_quant.Paper.{Position, Wallet, same_side}

-- The variables of the loop.
pub record Fill (R : Type 0) : Type 0 where
  pub wallet : Wallet R
  pub remaining : ℕ
  pub closed_any : Bool
  pub order_realized_pnl : R
  pub order_entry_charges : R
  pub order_exit_charges : R
  pub affected_position_id : Text

module _ {R : Type 0} where
  -- The condition of `next(...)`: the symbol, the side, and the position if one is named.
  abbrev pub concerns : Text → Side → Text → Position R → Bool
  concerns symbol side position_id p =
      p.symbol == symbol
      && same_side p.side side
      && (position_id == empty_text || p.position_id == position_id)

  unfoldable pub find : (Position R → Bool) → Dict (Position R) → Option (Position R)
  find test [] = none
  find test ((k, p) ∷ ps) = if test p then some p else find test ps

  -- `while remaining > 0`, and the `break` when nothing matches.
  unfoldable pub next_match : (Position R → Bool) → Fill R → Option (Position R)
  next_match test f = if f.remaining == 0 then none else find test f.wallet.positions

module _ {R : Type 0} ⦃r : Real R⦄ where
  -- The gain on a closed long, or on a covered short.
  abbrev pub gross_of : R → Side → R → ℕ → R
  gross_of price buy entry q = (price ⊖ entry) ⊗ real q
  gross_of price sell entry q = (entry ⊖ price) ⊗ real q

  -- The share of the entry charges that the closed part of a position carries.
  abbrev pub prorata_charges : ℕ → Position R → R
  prorata_charges q m = m.entry_charges ⊗ (real q ⊘ real m.quantity)

  -- The position that is left, if any.
  abbrev pub remainder : ℕ → Position R → Position R
  remainder q m = record m {
    quantity = m.quantity - q;
    entry_charges = m.entry_charges ⊖ prorata_charges q m;
  }

  unfoldable pub take_shares : ℕ → Position R → Dict (Position R) → Dict (Position R)
  take_shares q m ps =
      if leb m.quantity q then erase m.position_id ps else insert m.position_id (remainder q m) ps

module _ {R : Type 0} ⦃r : Real R⦄ (c : CostModel R) (side : Side) (price : R) where
  -- The loop's body, on the position that matched.
  unfoldable pub close_leg : Position R → Fill R → Fill R
  close_leg m f =
      let q = min f.remaining m.quantity in
      let exit = charges c (price ⊗ real q) in
      let gross = gross_of price m.side m.entry_price q in
      let prorata = prorata_charges q m in
      let net = gross ⊖ prorata ⊖ exit in
      let w = f.wallet in
      let won = real 0 ≺ net in
      record {
        wallet = record {
          balance = w.balance ⊕ (m.entry_price ⊗ real q ⊕ gross ⊖ exit);
          positions = take_shares q m w.positions;
          realized_pnl = w.realized_pnl ⊕ net;
          total_trades = w.total_trades + 1;
          winning_trades = if won then w.winning_trades + 1 else w.winning_trades;
          losing_trades = if won then w.losing_trades else w.losing_trades + 1;
        };
        remaining = f.remaining - q;
        closed_any = true;
        order_realized_pnl = f.order_realized_pnl ⊕ net;
        order_entry_charges = f.order_entry_charges ⊕ prorata;
        order_exit_charges = f.order_exit_charges ⊕ exit;
        affected_position_id = m.position_id;
      }

  -- The loop, with fuel: `close_loop_done` shows that one round more than positions is enough.
  unfoldable pub close_loop : (Position R → Bool) → ℕ → Fill R → Fill R
  unfolding close_leg
  close_loop test zero f = f
  close_loop test (suc fuel) f = elim (next_match test f) [
    | none ↦ f
    | some m ↦ close_loop test fuel (close_leg m f)
  ]
