-- ===== src/Paper/Portfolio.antt =====
-- What the engine reports of its wallet: `update_positions_pnl`, `get_total_value`,
-- `get_unrealized_pnl`, `get_win_rate`, `get_orders_for_trade` and `reset`.
use delta_quant.Prelude.{
  ◌≡◌, refl, Bool, Option, none, some, List, [], ◌∷◌, Text, ◌==◌, if◌then◌else◌,
}
use delta_quant.Prelude.Dict.{Dict, lookup}
use delta_quant.Prelude.Int.{ℤ, pos, ◌+ℤ◌, int_laws}
use delta_quant.Prelude.Real.{Real, real, exact, ◌⊕◌, ◌⊗◌, ◌⊘◌}
use delta_quant.Prelude.Sums.{sum_of}
use delta_quant.Paper.{Position, Order, Wallet, Engine, update_pnl}
use delta_quant.Paper.Accounts.{capital, committed, IsBalanced}

module _ {R : Type 0} ⦃r : Real R⦄ where
  -- The rows of a trade, which are in the order of their timestamps; charges are not in a row.
  abbrev of_trade : Text → List (Order R) → List (Order R)
  of_trade id [] = []
  of_trade id (o ∷ os) =
      if o.trade_id == id
      then record o { entry_charges = real 0; exit_charges = real 0 } ∷ of_trade id os
      else of_trade id os

  unfoldable pub get_orders_for_trade : Text → Engine R → List (Order R)
  get_orders_for_trade id e = if id == 0 then [] else of_trade id e.durable.rows

  abbrev marked : Option R → Position R → Position R
  marked none p = p
  marked (some price) p = update_pnl price p

  abbrev mark_all : Dict R → Dict (Position R) → Dict (Position R)
  mark_all prices [] = []
  mark_all prices ((k, p) ∷ ps) = (k, marked (lookup p.symbol prices) p) ∷ mark_all prices ps

  unfoldable pub update_positions_pnl : Dict R → Wallet R → Wallet R
  update_positions_pnl prices w = record w { positions = mark_all prices w.positions }

  -- `sum(...)` over the positions: from the left, from 0.
  abbrev pub sum_from : R → (Position R → R) → Dict (Position R) → R
  sum_from start f [] = start
  sum_from start f ((k, p) ∷ ps) = sum_from (start ⊕ f p) f ps

  unfoldable pub get_unrealized_pnl : Wallet R → R
  get_unrealized_pnl w = sum_from (real 0) (λ p. p.unrealized_pnl) w.positions

  unfoldable pub get_total_value : Wallet R → R
  get_total_value w =
      w.balance
      ⊕ sum_from (real 0)
          (λ p. p.entry_price ⊗ real p.quantity ⊕ p.entry_charges ⊕ p.unrealized_pnl) w.positions

  unfoldable pub get_win_rate : Wallet R → R
  get_win_rate w =
      if w.total_trades == 0 then real 0 else real w.winning_trades ⊘ real w.total_trades ⊗ real 100

  -- `reset`, with whether the rows could be deleted.
  unfoldable pub reset : Bool → Engine R → Engine R
  reset deleted e = record e {
    wallet = record {
      balance = e.initial_balance;
      positions = [];
      realized_pnl = real 0;
      total_trades = 0;
      winning_trades = 0;
      losing_trades = 0;
    };
    orders = [];
    durable = if deleted then record { saved = none; rows = [] } else e.durable;
  }

module _ (quotient : ℤ → ℤ → ℤ) where
  instance abbrev units : Real ℤ
  units = exact quotient

  sum_from-sum_of :
      (f : Position ℤ → ℤ) (start : ℤ) (ps : Dict (Position ℤ))
      → sum_from start f ps ≡ start +ℤ sum_of f ps
  sum_from-sum_of f start [] = grind (int_laws)
  sum_from-sum_of f start ((k, p) ∷ ps) =
      let rest = sum_from-sum_of f (start +ℤ f p) ps in grind (int_laws)

  sum_of-add :
      (f g : Position ℤ → ℤ) (ps : Dict (Position ℤ))
      → sum_of (λ p. f p +ℤ g p) ps ≡ sum_of f ps +ℤ sum_of g ps
  sum_of-add f g [] = grind (int_laws)
  sum_of-add f g ((k, p) ∷ ps) = let rest = sum_of-add f g ps in grind (int_laws)

  marked-capital : (price : Option ℤ) (p : Position ℤ) → capital (marked price p) ≡ capital p
  unfolding update_pnl
  marked-capital none p = refl
  marked-capital (some price) p = refl

  mark_all-committed :
      (prices : Dict ℤ) (ps : Dict (Position ℤ)) → committed (mark_all prices ps) ≡ committed ps
  mark_all-committed prices [] = refl
  mark_all-committed prices ((k, p) ∷ ps) =
      let rest = mark_all-committed prices ps in
      let here = marked-capital (lookup p.symbol prices) p in cc

  -- The portfolio value after the positions are marked to any prices is the starting balance plus the
  -- realised gains plus the unrealised gains, over exact whole units and a wallet whose cash and
  -- tied-up capital make up the starting balance and the realised gains.
  pub get_total_value-IsBalanced :
      (base : ℤ) (w : Wallet ℤ) (prices : Dict ℤ)
      → IsBalanced base w
      → let w' = update_positions_pnl prices w in
        get_total_value w' ≡ base +ℤ w.realized_pnl +ℤ get_unrealized_pnl w'
  unfolding update_positions_pnl get_total_value get_unrealized_pnl
  get_total_value-IsBalanced base w prices h =
      let ps = mark_all prices w.positions in
      let gain : Position ℤ → ℤ = λ p. p.unrealized_pnl in
      let whole = sum_from-sum_of (λ p. capital p +ℤ gain p) (pos 0) ps in
      let gains = sum_from-sum_of gain (pos 0) ps in
      let parts = sum_of-add capital gain ps in
      let kept = mark_all-committed prices w.positions in grind (int_laws)
