-- ===== src/Paper/Place.antt =====
-- `LocalPaperEngine.place_order` and `_open_position`.
use delta_quant.Prelude.{
  ℕ, suc, ◌+◌, ◌-◌, Bool, false, not, Option, none, some, [], ◌∷◌, ◌++◌, ◌&&◌, ◌||◌, ◌==◌,
  if◌then◌else◌, Text, or_else, length,
}
use delta_quant.Prelude.Dict.{lookup, insert}
use delta_quant.Prelude.Int.{pos_part}
use delta_quant.Prelude.Real.{Real, real, ◌⊕◌, ◌⊖◌, ◌⊗◌, ◌⊘◌, ◌≺◌}
use delta_quant.Costs.{buy, fill_price, charges}
use delta_quant.Paper.{
  same_side, opposite, filled, partially_filled, rejected, Position, Order, Wallet, Engine,
  persistence_error, or_real, post_init,
}
use delta_quant.Paper.Close.{Fill, concerns, close_loop}
use delta_quant.Paper.Screen.{Request, Context, blank, screen}

-- An order comes back, or the `ValueError` of `_open_position` does.
pub data Reply (R : Type 0) : Type 0 where
  placed : Order R → Reply R
  value_error : Reply R

pub data Opened (R : Type 0) : Type 0 where
  opened : Wallet R → Text → Opened R
  identity_error : Opened R

-- What is left after the opening leg: the fill, a rejection or the error, each with the wallet as it
-- then is in memory.
pub data Settled (R : Type 0) : Type 0 where
  settled : Fill R → Settled R
  turned_down : Wallet R → Settled R
  failed : Wallet R → Settled R

-- `position_id or f"POS-..."`
abbrev pub resolved_id : Context → Text → Text
resolved_id x position_id = or_else position_id x.fresh_position_id

module _ {R : Type 0} ⦃r : Real R⦄ where
  -- The two outcomes of `_open_position`: a new position, or more of the one that has the id.
  unfoldable pub new_position : Request R → Context → ℕ → R → R → Text → Position R
  new_position q x quantity price cost resolved_id = post_init (record {
    position_id = resolved_id;
    symbol = q.symbol;
    side = q.side;
    quantity = quantity;
    entry_price = price;
    entry_time = x.timestamp;
    current_price = price;
    unrealized_pnl = real 0;
    unrealized_pnl_pct = real 0;
    entry_charges = cost;
    mae = real 0;
    mfe = real 0;
    highest_price = real 0;
    lowest_price = real 0;
    stop_loss = q.stop_loss;
    target_price = q.target_price;
    strategy = q.strategy;
    entry_data_source = q.entry_data_source;
  })

  unfoldable pub enlarge : Request R → ℕ → R → R → Position R → Position R
  enlarge q quantity price cost old =
      let size = old.quantity + quantity in
      record old {
        entry_price = (old.entry_price ⊗ real old.quantity ⊕ price ⊗ real quantity) ⊘ real size;
        quantity = size;
        entry_charges = old.entry_charges ⊕ cost;
        current_price = price;
        stop_loss = or_real q.stop_loss old.stop_loss;
        target_price = or_real q.target_price old.target_price;
        strategy = or_else q.strategy old.strategy;
      }

  -- `_open_position`, given what stands under the resolved id.
  unfoldable pub open_at :
      Request R → Context → ℕ → R → R → Text → Wallet R → Option (Position R) → Opened R
  unfolding new_position enlarge
  open_at q x quantity price cost id w (some old) =
      if not (old.symbol == q.symbol) || not (same_side old.side q.side)
      then identity_error
      else opened
          (record w { positions = insert id (enlarge q quantity price cost old) w.positions }) id
  open_at q x quantity price cost id w none =
      let p = new_position q x quantity price cost id in
      opened (record w { positions = insert id p w.positions }) id

  unfoldable pub open_position : Request R → Context → ℕ → R → R → Text → Wallet R → Opened R
  unfolding open_at
  open_position q x quantity price cost position_id w =
      let id = resolved_id x position_id in
      open_at q x quantity price cost id w (lookup id w.positions)

  abbrev pub with_position : Fill R → Wallet R → R → Opened R → Settled R
  with_position f paid cost (opened w id) = settled (record f {
    wallet = w;
    remaining = 0;
    order_entry_charges = f.order_entry_charges ⊕ cost;
    affected_position_id = id;
  })
  with_position f paid cost identity_error = failed paid

  -- The opening leg, for what the closing loop left over. The money is taken before the position is
  -- opened.
  abbrev pub leg_cost : Engine R → R → Fill R → R
  leg_cost e price f = charges e.cost_model (price ⊗ real f.remaining)

  abbrev pub paid_for : Engine R → R → Fill R → Wallet R
  paid_for e price f =
      let w = f.wallet in
      record w { balance = w.balance ⊖ (price ⊗ real f.remaining ⊕ leg_cost e price f) }

  unfoldable pub open_leg : Engine R → Request R → Context → R → Text → Fill R → Settled R
  open_leg e q x price position_id f =
      let cost = leg_cost e price f in
      let paid = paid_for e price f in
      if f.remaining == 0
      then settled f
      else if e.long_only && not (same_side q.side buy)
      then turned_down f.wallet
      else if f.wallet.balance ≺ price ⊗ real f.remaining ⊕ cost
      then if f.closed_any then settled f else turned_down f.wallet
      else with_position f paid cost (open_position q x f.remaining price cost position_id paid)

  -- The executed order.
  abbrev pub filled_order : Request R → Context → ℕ → R → Fill R → Order R
  filled_order q x size price f =
      record (blank q x (size - f.remaining) price
        (if f.remaining == 0 then filled else partially_filled) q.reason f.affected_position_id) {
          realized_pnl = f.order_realized_pnl;
          entry_charges = f.order_entry_charges;
          exit_charges = f.order_exit_charges;
        }

  -- The order is kept if `_persist_after_trade` commits; otherwise the snapshot comes back.
  unfoldable pub finish :
      Engine R → Request R → Context → ℕ → R → Text → Settled R → Engine R × Reply R
  finish e q x size price position_id (settled f) =
      let o = filled_order q x size price f in
      if x.commits
      then (
        record e {
          wallet = f.wallet;
          orders = e.orders ++ o ∷ [];
          durable = record { saved = some f.wallet; rows = e.durable.rows ++ o ∷ [] };
        },
        placed o,
      )
      else (e, placed (record o { status = rejected; reason = persistence_error }))
  finish e q x size price position_id (turned_down w) =
      (record e { wallet = w }, placed (blank q x size price rejected q.reason position_id))
  finish e q x size price position_id (failed w) = (record e { wallet = w }, value_error)

  abbrev pub start : Wallet R → ℕ → Text → Fill R
  start w size position_id = record {
    wallet = w;
    remaining = size;
    closed_any = false;
    order_realized_pnl = real 0;
    order_entry_charges = real 0;
    order_exit_charges = real 0;
    affected_position_id = position_id;
  }

  -- The id that the order names, its size and its fill price.
  abbrev pub named_position : Request R → Text
  named_position q = or_else q.position_id q.trade_id

  abbrev pub order_size : Request R → ℕ
  order_size q = pos_part q.quantity

  abbrev pub order_price : Engine R → Request R → R
  order_price e q = fill_price e.cost_model q.current_price q.side

  -- The positions that the order closes: the same symbol on the other side.
  abbrev pub closes : Request R → Position R → Bool
  closes q = concerns q.symbol (opposite q.side) (named_position q)

  unfoldable pub closing : Engine R → Request R → Fill R
  closing e q =
      close_loop e.cost_model q.side (order_price e q) (closes q) (suc (length e.wallet.positions))
        (start e.wallet (order_size q) (named_position q))

  -- The two legs of an order that passed the screen.
  unfoldable pub execute : Engine R → Request R → Context → Engine R × Reply R
  execute e q x =
      finish e q x (order_size q) (order_price e q) (named_position q)
        (open_leg e q x (order_price e q) (named_position q) (closing e q))

  unfoldable pub place_order : Engine R → Request R → Context → Engine R × Reply R
  place_order e q x = elim (screen e q x) [ some o ↦ (e, placed o) | none ↦ execute e q x ]
