-- ===== src/Paper/Delivery.antt =====
-- The reply of an order against the shares held.
use delta_quant.Prelude.{
  ℕ, ◌+◌, ◌-◌, ◌<◌, ◌≤◌, ◌≡◌, refl, inl, inr, some, ◌==◌, arith, Bool-cases, Option-cases, Text,
}
use delta_quant.Prelude.Int.{◌+ℤ◌, int_laws}
use delta_quant.Prelude.Real.{Real}
use delta_quant.Paper.{
  Engine, Order, OrderStatus, filled, partially_filled, rejected, pending, duplicate,
}
use delta_quant.Paper.Close.{Fill}
use delta_quant.Paper.Screen.{Request, Context, screen}
use delta_quant.Paper.Place.{
  Reply, placed, value_error, Settled, settled, turned_down, failed, open_leg, closing, finish,
  execute, place_order, order_price, order_size, named_position,
}
use delta_quant.Paper.Book.{IsKeyed}
use delta_quant.Paper.Shares.{holding, holding-add, net}
use delta_quant.Paper.Fills.{before_and_wanted, IsAccounted, open_leg-IsAccounted}

module _ {R : Type 0} ⦃r : Real R⦄ (e : Engine R) (q : Request R) where
  module _ (s : Text) where
    -- What a reply claims of the new engine, by the order's status.
    abbrev DeliversAs : OrderStatus → ℕ → Engine R → Type 0
    DeliversAs filled n e' =
        (net s e'.wallet.positions ≡ net s e.wallet.positions +ℤ holding s q.symbol q.side n)
        × (n ≡ order_size q)
    DeliversAs partially_filled n e' =
        (net s e'.wallet.positions ≡ net s e.wallet.positions +ℤ holding s q.symbol q.side n)
        × (n < order_size q)
    DeliversAs rejected n e' = e' ≡ e
    DeliversAs pending n e' = e' ≡ e
    DeliversAs duplicate n e' = e' ≡ e

    abbrev pub Delivers : Engine R × Reply R → Type 0
    Delivers (e', placed o) = DeliversAs o.status o.quantity e'
    Delivers (e', value_error) = Unit

    screen-Delivers :
        (x : Context) (o : Order R) → screen e q x ≡ some o → DeliversAs o.status o.quantity e
    unfolding screen
    screen-Delivers x o h = ground arith

    part_filled :
        (f : Fill R)
        → net s f.wallet.positions +ℤ holding s q.symbol q.side f.remaining
          ≡ before_and_wanted e q s
        → f.remaining ≤ order_size q
        → net s f.wallet.positions
          ≡ net s e.wallet.positions +ℤ holding s q.symbol q.side (order_size q - f.remaining)
    part_filled f h le =
        let whole : (order_size q - f.remaining) + f.remaining ≡ order_size q = omega arith in
        let split = holding-add s q.symbol q.side (order_size q - f.remaining) f.remaining in
        grind (int_laws, rw whole at split)

    finish-Delivers :
        (x : Context) (t : Settled R)
        → IsAccounted e q s t
        → Delivers (finish e q x (order_size q) (order_price e q) (named_position q) t)
    unfolding finish
    finish-Delivers x (settled f) (h, le) =
        let counted = part_filled f h le in
        elim (Bool-cases x.commits) [
          | inl commits ↦ rw commits (elim (Bool-cases (f.remaining == 0)) [
            | inl all ↦ rw all (counted, ground arith)
            | inr some_left ↦ rw some_left (counted, ground arith)
          ])
          | inr rolled_back ↦ rw rolled_back refl
        ]
    finish-Delivers x (turned_down w) h = rw h
    finish-Delivers x (failed w) h = tt

    -- The shares held change by what the order's reply says: by its quantity, in its symbol and on its
    -- side, if it is filled (then in whole) or filled in part, and a reply that is rejected, pending
    -- or a duplicate leaves the whole engine as it was; for every symbol and an engine whose positions
    -- stand under their ids.
    pub place_order-Delivers :
        (x : Context) → IsKeyed e.wallet.positions → Delivers (place_order e q x)
    unfolding place_order execute
    place_order-Delivers x keyed = elim (Option-cases (screen e q x)) [
      | inl passed ↦
          rw (passed, place_order)
            (finish-Delivers x (open_leg e q x (order_price e q) (named_position q) (closing e q))
              (open_leg-IsAccounted e q s x keyed passed))
      | inr (o, early) ↦ rw (early, place_order) (screen-Delivers x o early)
    ]
