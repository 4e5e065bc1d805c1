-- ===== src/Lifecycle/Operations.antt =====
-- The operations of `PaperTradeLifecycleStore` that change the ledger.
use delta_quant.Prelude.{ℕ, ◌+◌, ◌-◌, Bool, true, false, none, some, ◌==◌, if◌then◌else◌, Text}
use delta_quant.Prelude.Real.{Real, real, ◌⊕◌, ◌⊗◌, ◌⊘◌, maximum}
use delta_quant.Lifecycle.{
  intent, opened, partial, closed, rejected, EventType, intended, entry_fill, add_fill, exit_fill,
  partial_exit_fill, turned_down, finalized, Trade, Event, Store, key_error, value_error,
  zero_division, integrity_error, Result, ok, err, Intent, EntryFill, ExitFill, same_status,
  is_open, get, with_key, commit,
}

module _ {R : Type 0} ⦃r : Real R⦄ (now : ℕ) where
  -- `_event`, with its defaults.
  abbrev pub event : Trade R → EventType → Event R
  event t kind = record {
    trade_id = t.trade_id;
    namespace = t.namespace;
    event_type = kind;
    order_id = 0;
    quantity = 0;
    price = real 0;
    realized_pnl = real 0;
    reason = 0;
    timestamp = now;
  }

  abbrev pub intended_trade : Intent R → Trade R
  intended_trade i = record {
    trade_id = i.trade_id;
    namespace = i.namespace;
    run_id = i.run_id;
    workflow_id = i.workflow_id;
    idempotency_key = i.idempotency_key;
    signal_id = i.signal_id;
    symbol = i.symbol;
    side = i.side;
    strategy = i.strategy;
    timeframe = i.timeframe;
    regime = i.regime;
    status = intent;
    entry_order_id = 0;
    position_id = 0;
    original_quantity = i.quantity;
    remaining_quantity = 0;
    add_count = 0;
    entry_price = i.entry_price;
    weighted_entry_price = i.entry_price;
    current_price = i.entry_price;
    stop_loss = i.stop_loss;
    target_price = i.target_price;
    entry_charges = real 0;
    exit_charges = real 0;
    cumulative_pnl = real 0;
    mae = real 0;
    mfe = real 0;
    created_at = now;
    updated_at = now;
    closed_at = none;
    finalized_at = none;
  }

  -- The ledger afterwards and the trade id that the caller gets.
  unfoldable pub create_intent : Intent R → Store R → Result (Store R × Text)
  create_intent i s =
      let t = intended_trade i in
      let e = record (event t intended) { quantity = i.quantity; price = i.entry_price } in
      if i.quantity == 0 then err value_error else elim (with_key i.idempotency_key s.trades) [
        | some existing ↦ ok (s, existing.trade_id)
        | none ↦ elim (get i.trade_id s) [
          | some taken ↦ err integrity_error
          | none ↦ ok (commit i.trade_id t e s, i.trade_id)
        ]
      ]

  abbrev pub entered : EntryFill R → Trade R → Trade R
  entered f t = record t {
    status = opened;
    entry_order_id = f.order_id;
    position_id = f.position_id;
    original_quantity = f.quantity;
    remaining_quantity = f.quantity;
    entry_price = f.fill_price;
    weighted_entry_price = f.fill_price;
    current_price = f.fill_price;
    entry_charges = f.entry_charges;
    updated_at = now;
  }

  abbrev pub entry_event : EntryFill R → Trade R → EventType → Event R
  entry_event f t kind = record (event t kind) {
    order_id = f.order_id;
    quantity = f.quantity;
    price = f.fill_price;
  }

  unfoldable pub mark_open : Text → EntryFill R → Store R → Result (Store R)
  mark_open id f s = elim (get id s) [
    | none ↦ err key_error
    | some t ↦
        if same_status t.status opened
        then ok s
        else ok (commit id (entered f t) (entry_event f t entry_fill) s)
  ]

  abbrev pub added : EntryFill R → Trade R → Trade R
  added f t =
      let size = t.remaining_quantity + f.quantity in
      record t {
        weighted_entry_price =
            (t.weighted_entry_price ⊗ real t.remaining_quantity ⊕ f.fill_price ⊗ real f.quantity)
            ⊘ real size;
        remaining_quantity = size;
        original_quantity = t.original_quantity + f.quantity;
        add_count = t.add_count + 1;
        entry_charges = t.entry_charges ⊕ f.entry_charges;
        current_price = f.fill_price;
        updated_at = now;
      }

  unfoldable pub record_add : Text → EntryFill R → Store R → Result (Store R)
  record_add id f s = elim (get id s) [
    | none ↦ err value_error
    | some t ↦
        if is_open t.status
        then if t.remaining_quantity + f.quantity == 0
          then err zero_division
          else ok (commit id (added f t) (entry_event f t add_fill) s)
        else err value_error
  ]

  abbrev pub exited : ExitFill R → Trade R → Trade R
  exited f t =
      let left = t.remaining_quantity - f.quantity in
      record t {
        remaining_quantity = left;
        current_price = f.exit_price;
        cumulative_pnl = t.cumulative_pnl ⊕ f.realized_pnl;
        exit_charges = t.exit_charges ⊕ f.exit_charges;
        mae = maximum t.mae f.mae;
        mfe = maximum t.mfe f.mfe;
        status = if left == 0 then closed else partial;
        updated_at = now;
        closed_at = if left == 0 then some now else t.closed_at;
      }

  abbrev pub exit_event : ExitFill R → Trade R → Event R
  exit_event f t =
      record (event t
        (if t.remaining_quantity - f.quantity == 0 then exit_fill else partial_exit_fill)) {
          order_id = f.order_id;
          quantity = f.quantity;
          price = f.exit_price;
          realized_pnl = f.realized_pnl;
          reason = f.reason;
        }

  -- The ledger afterwards, and whether the trade is closed.
  unfoldable pub record_exit : Text → ExitFill R → Store R → Result (Store R × Bool)
  record_exit id f s = elim (get id s) [
    | none ↦ err key_error
    | some t ↦
        if same_status t.status closed
        then ok (s, true)
        else ok (commit id (exited f t) (exit_event f t) s, t.remaining_quantity - f.quantity == 0)
  ]

  unfoldable pub mark_rejected : Text → Text → Store R → Store R
  mark_rejected id reason s = elim (get id s) [
    | none ↦ s
    | some t ↦
        commit id (record t { status = rejected; updated_at = now })
          (record (event t turned_down) { reason = reason }) s
  ]

  -- The ledger afterwards, and whether this call finalised the trade.
  unfoldable pub mark_finalized : Text → Store R → Result (Store R × Bool)
  mark_finalized id s = elim (get id s) [
    | none ↦ err key_error
    | some t ↦ elim t.finalized_at [
      | some time ↦ ok (s, false)
      | none ↦ ok (
        commit id (record t { finalized_at = some now; updated_at = now }) (event t finalized) s,
        true,
      )
    ]
  ]
