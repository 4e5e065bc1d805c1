-- ===== src/Paper/Errors.antt =====
-- The `ValueError` of `_open_position`: it leaves the engine with the money already taken.
use delta_quant.Prelude.{ℕ, ◌<◌, ◌≡◌, refl, inl, inr, arith, Option-cases}
use delta_quant.Prelude.Int.{ℤ, pos, ◌+ℤ◌, ◌-ℤ◌, ◌*ℤ◌, int_laws}
use delta_quant.Prelude.Real.{Real}
use delta_quant.Paper.{Wallet, Engine}
use delta_quant.Paper.Screen.{Request, Context, screen}
use delta_quant.Paper.Place.{
  Settled, settled, turned_down, failed, placed, value_error, open_leg, paid_for, closing, finish,
  execute, place_order, order_price, order_size, named_position, leg_cost,
}
use delta_quant.Paper.Book.{IsKeyed}
use delta_quant.Paper.Accounts.{committed, IsBalanced}
use delta_quant.Paper.NetWorth.{units, closing-IsBalanced}

module _ {R : Type 0} ⦃r : Real R⦄ (e : Engine R) (q : Request R) (x : Context) where
  open_leg_error :
      {w : Wallet R}
      → open_leg e q x (order_price e q) (named_position q) (closing e q) ≡ failed w
      → w ≡ paid_for e (order_price e q) (closing e q)
  unfolding open_leg
  open_leg_error h = ground arith

  finish_error :
      (t : Settled R)
      → (finish e q x (order_size q) (order_price e q) (named_position q) t).1 ≡ value_error
      → t ≡ failed (finish e q x (order_size q) (order_price e q) (named_position q) t).0.wallet
  unfolding finish
  finish_error (settled f) h = ground arith
  finish_error (turned_down w) h = ground arith
  finish_error (failed w) h = refl

  -- An order that raises has closed what it closes and paid for the rest.
  pub place_order_error :
      (place_order e q x).1 ≡ value_error
      → (place_order e q x).0.wallet ≡ paid_for e (order_price e q) (closing e q)
  unfolding place_order execute
  place_order_error h = elim (Option-cases (screen e q x)) [
    | inl passed ↦
        let t = open_leg e q x (order_price e q) (named_position q) (closing e q) in
        rw (passed, place_order) (open_leg_error (finish_error t (rw (passed, place_order) at h)))
    | inr (o, early) ↦ let raised : placed o ≡ value_error = rw (early, place_order) at h in cc
  ]

loss_identity : (b required ca t : ℤ) → b +ℤ ca ≡ t → b -ℤ required +ℤ ca +ℤ required ≡ t
loss_identity b required ca t h = grind (int_laws)

module _ (quotient : ℤ → ℤ → ℤ) (unit : (n : ℕ) → 0 < n → quotient (pos n) (pos n) ≡ pos 1) where
  -- The money of an order that raises is gone: cash, tied-up capital and the price of the shares that
  -- were not opened together make up the starting balance and the gains, over whole units.
  pub place_order_error_loses :
      (e : Engine ℤ) (q : Request ℤ) (x : Context)
      → IsKeyed e.wallet.positions
      → IsBalanced e.initial_balance e.wallet
      → (place_order ⦃r = units quotient unit⦄ e q x).1 ≡ value_error
      → let w = (place_order ⦃r = units quotient unit⦄ e q x).0.wallet in
        let f = closing ⦃r = units quotient unit⦄ e q in
        let price = order_price ⦃r = units quotient unit⦄ e q in
        w.balance
          +ℤ committed w.positions
          +ℤ (price *ℤ pos f.remaining +ℤ leg_cost ⦃r = units quotient unit⦄ e price f)
        ≡ e.initial_balance +ℤ w.realized_pnl
  place_order_error_loses e q x keyed h raised =
      let instance u = units quotient unit in
      let f = closing e q in
      rw (place_order_error e q x raised) (
        loss_identity f.wallet.balance _ (committed f.wallet.positions) _
          (closing-IsBalanced quotient unit e q keyed h))
