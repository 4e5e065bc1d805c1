-- ===== src/Startup.antt =====
-- src/markets/nse/execution/lifecycle.py: `_repair_from_orders`, which replays the fills of a trade from
-- the paper engine's order ledger. Each operation commits by itself, so one that raises leaves what
-- the operations before it did. `Startup.Reconcile` has `reconcile`.
pub mod Replay
pub mod Reconcile
pub mod Ghosts
pub mod Managers
mod Samples
use delta_quant.Prelude.{
  ℕ, Bool, true, false, Option, none, some, List, [], ◌∷◌, ◌==◌, if◌then◌else◌, select, Text,
  or_else,
}
use delta_quant.Prelude.Real.{Real, real}
use delta_quant.Paper.{OrderStatus, filled, partially_filled, Order}
use delta_quant.Lifecycle.{Store, Error, Result, ok, err, EntryFill, ExitFill}
use delta_quant.Lifecycle.Operations.{mark_open, record_add, record_exit, mark_rejected}

-- What steps that may raise have done.
pub data Progress (S : Type 0) : Type 0 where
  done : S → Progress S
  failed : Error → S → Progress S

abbrev pub and_then : {S : Type 0} → Progress S → (S → Progress S) → Progress S
and_then (done s) next = next s
and_then (failed e s) next = failed e s

pub data Outcome : Type 0 where
  repaired_from_orders resolved_never_filled ambiguous : Outcome

-- The texts of `Order.reason` that the replay tells apart, and those that it writes.
abbrev pub entry_reason : Text
entry_reason = 5

abbrev pub capped_average : Text
capped_average = 6

abbrev pub unknown_reason : Text
unknown_reason = 7

abbrev pub no_confirmed_fill : Text
no_confirmed_fill = 8

abbrev pub is_fill : OrderStatus → Bool
is_fill filled = true
is_fill partially_filled = true
is_fill _ = false

module _ {R : Type 0} where
  abbrev pub fills_of : List (Order R) → List (Order R)
  fills_of orders = select (λ o. is_fill o.status) orders

  -- `entries[0]`
  abbrev pub first_entry : List (Order R) → Option (Order R)
  first_entry [] = none
  first_entry (o ∷ rest) = if o.reason == entry_reason then some o else first_entry rest

  -- The fills but that entry.
  abbrev pub others : List (Order R) → List (Order R)
  others [] = []
  others (o ∷ rest) = if o.reason == entry_reason then rest else o ∷ others rest

  abbrev pub entry_fill : Text → Order R → EntryFill R
  entry_fill id o = record {
    order_id = o.order_id;
    position_id = or_else o.position_id id;
    quantity = o.quantity;
    fill_price = o.price;
    entry_charges = o.entry_charges;
  }

  -- What an operation that returns the ledger leaves.
  abbrev pub settle : Store R → Result (Store R) → Progress (Store R)
  settle s (ok s') = done s'
  settle s (err e) = failed e s

  abbrev pub settle_with : {A : Type 0} → Store R → Result (Store R × A) → Progress (Store R)
  settle_with s (ok (s', a)) = done s'
  settle_with s (err e) = failed e s

module _ {R : Type 0} ⦃r : Real R⦄ (now : ℕ) where
  abbrev pub exit_fill : Order R → ExitFill R
  exit_fill o = record {
    order_id = o.order_id;
    quantity = o.quantity;
    exit_price = o.price;
    realized_pnl = o.realized_pnl;
    exit_charges = o.exit_charges;
    reason = or_else o.reason unknown_reason;
    mae = real 0;
    mfe = real 0;
  }

  -- One fill after the entry.
  unfoldable pub replay_leg : Text → Order R → Store R → Progress (Store R)
  replay_leg id o s =
      if o.reason == capped_average
      then settle s (record_add now id (entry_fill id o) s)
      else settle_with s (record_exit now id (exit_fill o) s)

  unfoldable pub replay_legs : Text → List (Order R) → Store R → Progress (Store R)
  unfolding replay_leg
  replay_legs id [] s = done s
  replay_legs id (o ∷ rest) s = and_then (replay_leg id o s) (replay_legs id rest)

  -- `_repair_from_orders`: the ledger, and the outcome when nothing raised.
  unfoldable pub repair_from_orders : Text → List (Order R) → Store R → Progress (Store R) × Outcome
  unfolding replay_legs
  repair_from_orders id orders s = elim (fills_of orders) [
    | [] ↦ (done (mark_rejected now id no_confirmed_fill s), resolved_never_filled)
    | first ∷ rest ↦ elim (first_entry (first ∷ rest)) [
      | none ↦ (done s, ambiguous)
      | some entry ↦ (
        and_then (settle s (mark_open now id (entry_fill id entry) s))
            (replay_legs id (others (first ∷ rest))),
        repaired_from_orders,
      )
    ]
  ]
