-- ===== src/Startup/Reconcile.antt =====
-- `PaperTradeLifecycleStore.reconcile`, with the exit manager that it restores. The wallet's positions
-- and what the order ledger holds of a trade are given.
use delta_quant.Prelude.{
  ℕ, ◌+◌, Bool, true, false, Option, none, some, List, [], ◌∷◌, ◌==◌, if◌then◌else◌, is_some, Text,
  or_else,
}
use delta_quant.Prelude.Dict.{Dict, lookup, insert}
use delta_quant.Prelude.Real.{Real}
use delta_quant.Paper.{Position, Order}
use delta_quant.Exits.{Tracked, get_position, register_position, unregister_position}
use delta_quant.Lifecycle.{
  intent, Trade, Store, Intent, EntryFill, get, get_open, get_by_status, same_status,
}
use delta_quant.Lifecycle.Operations.{create_intent, mark_open}
use delta_quant.Startup.{
  Progress, done, failed, and_then, settle, settle_with, Outcome, repair_from_orders,
}

-- `ReconciliationReport`
pub record Report : Type 0 where
  pub restored_managers : ℕ
  pub imported_wallet_positions : ℕ
  pub lifecycle_without_wallet : ℕ
  pub removed_ghost_managers : ℕ
  pub repaired_open_from_wallet : ℕ
  pub repaired_from_order_ledger : ℕ
  pub resolved_never_filled : ℕ
  pub ambiguous : ℕ

abbrev pub empty_report : Report
empty_report = record {
  restored_managers = 0;
  imported_wallet_positions = 0;
  lifecycle_without_wallet = 0;
  removed_ghost_managers = 0;
  repaired_open_from_wallet = 0;
  repaired_from_order_ledger = 0;
  resolved_never_filled = 0;
  ambiguous = 0;
}

-- The texts that the reconciliation writes.
abbrev pub startup_repair : Text
startup_repair = 9

abbrev pub startup_reconcile : Text
startup_reconcile = 10

abbrev pub counted_outcome : Outcome → Report → Report
counted_outcome Outcome.repaired_from_orders c = record c {
  repaired_from_order_ledger = c.repaired_from_order_ledger + 1;
}
counted_outcome Outcome.resolved_never_filled c = record c {
  resolved_never_filled = c.resolved_never_filled + 1;
}
counted_outcome Outcome.ambiguous c = record c { ambiguous = c.ambiguous + 1 }

abbrev pub count_repair : Report → Report
count_repair c = record c { repaired_open_from_wallet = c.repaired_open_from_wallet + 1 }

abbrev pub count_import : Report → Report
count_import c = record c { imported_wallet_positions = c.imported_wallet_positions + 1 }

-- The ledger, what the exit manager tracks, and the counts.
pub record Startup (R : Type 0) : Type 0 where
  pub ledger : Store R
  pub tracked : Tracked R
  pub report : Report

module _ {R : Type 0} where
  -- The ledger's progress within the whole.
  abbrev pub within : Startup R → Progress (Store R) → (Report → Report) → Progress (Startup R)
  within s (done ledger) counted = done (record s { ledger = ledger; report = counted s.report })
  within s (failed e ledger) counted = failed e (record s { ledger = ledger })

  -- `{str(p.position_id): p for p in wallet_positions}`
  abbrev pub as_wallet : List (Position R) → Dict (Position R) → Dict (Position R)
  as_wallet [] wallet = wallet
  as_wallet (p ∷ rest) wallet = as_wallet rest (insert p.position_id p wallet)

  -- `{str(record["position_id"]): record for record in open_records}`
  abbrev pub by_position : List (Trade R) → Dict (Trade R) → Dict (Trade R)
  by_position [] out = out
  by_position (t ∷ rest) out = by_position rest (insert t.position_id t out)

  abbrev pub wallet_fill : Text → Text → Position R → EntryFill R
  wallet_fill order_id id p = record {
    order_id = order_id;
    position_id = id;
    quantity = p.quantity;
    fill_price = p.entry_price;
    entry_charges = p.entry_charges;
  }

  abbrev pub count_missing : Dict (Position R) → List (Trade R) → ℕ
  count_missing wallet [] = 0
  count_missing wallet (t ∷ rest) =
      if is_some (lookup t.position_id wallet)
      then count_missing wallet rest
      else 1 + count_missing wallet rest

  abbrev pub has_trade : Text → List (Trade R) → Bool
  has_trade id [] = false
  has_trade id (t ∷ rest) = if t.trade_id == id then true else has_trade id rest

  -- The loop over `get_managed_positions()`: what is tracked, and the number of ghosts.
  abbrev pub drop_ghosts : List (Trade R) → Tracked R → Tracked R × ℕ → Tracked R × ℕ
  drop_ghosts valid [] out = out
  drop_ghosts valid ((id, p) ∷ rest) (tracked, ghosts) =
      if has_trade p.position_id valid
      then drop_ghosts valid rest (tracked, ghosts)
      else drop_ghosts valid rest (unregister_position p.position_id tracked, ghosts + 1)

module _ {R : Type 0} ⦃r : Real R⦄ (now : ℕ) (namespace : Text) (legacy_key : Text → Text)
    (fresh : Text) where
  abbrev pub imported_intent : Text → Position R → Intent R
  imported_intent id p = record {
    trade_id = id;
    namespace = namespace;
    run_id = startup_reconcile;
    workflow_id = startup_reconcile;
    idempotency_key = legacy_key id;
    signal_id = 0;
    symbol = p.symbol;
    side = p.side;
    strategy = p.strategy;
    timeframe = 0;
    regime = 0;
    quantity = p.quantity;
    entry_price = p.entry_price;
    stop_loss = p.stop_loss;
    target_price = p.target_price;
  }

  -- `exit_manager.register_position(...)`, unless the trade is tracked.
  abbrev pub restore : Position R → Option (Trade R) → Startup R → Progress (Startup R)
  restore p none s = done s
  restore p (some t) s = elim (get_position t.trade_id s.tracked) [
    | some managed ↦ done s
    | none ↦ done (record s {
      tracked =
          register_position
            (record {
              position_id = t.trade_id;
              symbol = p.symbol;
              side = p.side;
              quantity = p.quantity;
              entry_price = t.weighted_entry_price;
              stop_loss = t.stop_loss;
              target_price = t.target_price;
              strategy = t.strategy;
              regime = t.regime;
              entry_time = now;
              timeframe = 0;
            })
            s.tracked;
      report = record s.report { restored_managers = s.report.restored_managers + 1 };
    })
  ]

  -- The position's intent is marked open.
  abbrev pub marked : Text → Position R → Store R → Progress (Store R)
  marked id p l = settle l (mark_open now id (wallet_fill startup_repair id p) l)

  abbrev pub repair_open : Text → Position R → Startup R → Progress (Startup R)
  repair_open id p s =
      and_then (within s (marked id p s.ledger) count_repair)
        (λ s'. restore p (get id s'.ledger) s')

  -- The position is taken into the ledger.
  abbrev pub imported : Text → Text → Position R → Store R → Progress (Store R)
  imported trade_id id p l =
      and_then (settle_with l (create_intent now (imported_intent trade_id p) l))
        (λ l'. settle l' (mark_open now trade_id (wallet_fill startup_reconcile id p) l'))

  abbrev pub import_position : Text → Position R → Startup R → Progress (Startup R)
  import_position id p s =
      let trade_id = or_else id fresh in
      and_then (within s (imported trade_id id p s.ledger) count_import)
        (λ s'. restore p (get trade_id s'.ledger) s')

  -- One position of the wallet.
  unfoldable pub adopt : Dict (Trade R) → Text → Position R → Startup R → Progress (Startup R)
  adopt lifecycle_by_position id p s = elim (lookup id lifecycle_by_position) [
    | some t ↦ restore p (some t) s
    | none ↦ elim (get id s.ledger) [
      | none ↦ import_position id p s
      | some existing ↦
          if same_status existing.status intent
          then repair_open id p s
          else done (record s { report = record s.report { ambiguous = s.report.ambiguous + 1 } })
    ]
  ]

  unfoldable pub adopt_all : Dict (Trade R) → Dict (Position R) → Startup R → Progress (Startup R)
  unfolding adopt
  adopt_all lifecycle_by_position [] s = done s
  adopt_all lifecycle_by_position ((id, p) ∷ rest) s =
      and_then (adopt lifecycle_by_position id p s) (adopt_all lifecycle_by_position rest)

  -- One intent without a position.
  unfoldable pub resolve_orphan :
      Option (Text → List (Order R)) → Dict (Position R) → Text → Startup R → Progress (Startup R)
  unfolding repair_from_orders
  resolve_orphan order_lookup wallet id s =
      if is_some (lookup id wallet) then done s else elim order_lookup [
        | none ↦ done (record s { report = record s.report { ambiguous = s.report.ambiguous + 1 } })
        | some orders ↦
            let (progress, outcome) = repair_from_orders now id (orders id) s.ledger in
            within s progress (counted_outcome outcome)
      ]

  unfoldable pub resolve_orphans :
      Option (Text → List (Order R))
      → Dict (Position R)
      → List (Trade R)
      → Startup R
      → Progress (Startup R)
  unfolding resolve_orphan
  resolve_orphans order_lookup wallet [] s = done s
  resolve_orphans order_lookup wallet (t ∷ rest) s =
      and_then (resolve_orphan order_lookup wallet t.trade_id s)
        (resolve_orphans order_lookup wallet rest)

  unfoldable pub remove_ghosts : Startup R → Progress (Startup R)
  unfolding unregister_position get_open
  remove_ghosts s =
      let (tracked, ghosts) = drop_ghosts (get_open 0 s.ledger) s.tracked (s.tracked, 0) in
      done (record s {
        tracked = tracked;
        report = record s.report { removed_ghost_managers = ghosts };
      })

  abbrev pub with_missing : Dict (Position R) → List (Trade R) → Startup R → Startup R
  with_missing wallet open_records s = record s {
    report = record s.report { lifecycle_without_wallet = count_missing wallet open_records };
  }

  -- What follows the loop over the wallet.
  abbrev pub settle_rest :
      Option (Text → List (Order R))
      → Dict (Position R)
      → List (Trade R)
      → Startup R
      → Progress (Startup R)
  settle_rest order_lookup wallet open_records s =
      let s' = with_missing wallet open_records s in
      and_then (resolve_orphans order_lookup wallet (get_by_status intent 0 s'.ledger) s')
        remove_ghosts

  unfoldable pub reconcile :
      List (Position R) → Option (Text → List (Order R)) → Startup R → Progress (Startup R)
  unfolding adopt_all resolve_orphans remove_ghosts get_open get_by_status
  reconcile positions order_lookup start =
      let s = record start { report = empty_report } in
      let wallet = as_wallet positions [] in
      let open_records = get_open namespace s.ledger in
      and_then (adopt_all (by_position open_records []) wallet s)
        (settle_rest order_lookup wallet open_records)
