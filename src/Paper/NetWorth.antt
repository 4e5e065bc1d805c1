-- ===== src/Paper/NetWorth.antt =====
-- No order creates or loses money: cash and tied-up capital stay equal to the starting balance and
-- the realised gains.
use delta_quant.Prelude.{
  ℕ, suc, ◌+◌, ◌<◌, ◌≡◌, ◌≢◌, refl, inl, inr, Option, none, some, ◌==◌, Bool-cases, Text, not, ◌||◌,
  length,
}
use delta_quant.Prelude.Dict.{Dict, lookup, insert}
use delta_quant.Prelude.Int.{ℤ, pos, ◌+ℤ◌, ◌-ℤ◌, ◌*ℤ◌, int_laws}
use delta_quant.Prelude.Sums.{sum_of-insert, sum_of-insert_new}
use delta_quant.Prelude.Real.{Real, exact}
use delta_quant.Paper.{Position, Wallet, Engine, same_side}
use delta_quant.Paper.Screen.{Request, Context}
use delta_quant.Paper.Place.{
  value_error, enlarge, new_position, open_at, open_position, closing, place_order, order_price,
  order_size, named_position, resolved_id, closes, start, leg_cost, paid_for,
}
use delta_quant.Paper.Book.{IsKeyed}
use delta_quant.Paper.Stages.{IfOpened, place_order_keeps}
use delta_quant.Paper.Accounts.{amounts, capital, committed, IsBalanced, close_loop-IsBalanced}

-- The weighted average price of an enlarged position is a whole number of units.
abbrev pub AveragesExactly : (ℤ → ℤ → ℤ) → Dict (Position ℤ) → Text → ℤ → ℕ → Type 0
AveragesExactly quotient ps id price n =
    (old : Position ℤ)
    → lookup id ps ≡ some old
    → let cost = old.entry_price *ℤ pos old.quantity +ℤ price *ℤ pos n in
      let size = old.quantity + n in quotient cost (pos size) *ℤ pos size ≡ cost

opened_identity :
    (b paid cost ca ca' old new base rp : ℤ)
    → b +ℤ (paid +ℤ cost) +ℤ ca ≡ base +ℤ rp
    → ca' +ℤ old ≡ ca +ℤ new
    → new ≡ old +ℤ (paid +ℤ cost)
    → b +ℤ ca' ≡ base +ℤ rp
opened_identity b paid cost ca ca' old new base rp h k e = grind (int_laws)

paid_identity : (b required ca t : ℤ) → b +ℤ ca ≡ t → b -ℤ required +ℤ required +ℤ ca ≡ t
paid_identity b required ca t h = grind (int_laws)

module _ (quotient : ℤ → ℤ → ℤ) (unit : (n : ℕ) → 0 < n → quotient (pos n) (pos n) ≡ pos 1) where
  instance abbrev pub units : Real ℤ
  units = exact quotient

  -- The wallet before the opening has paid what the position will tie up.
  abbrev HasPaid : ℤ → ℤ → ℕ → ℤ → Wallet ℤ → Type 0
  HasPaid base price n cost w =
      w.balance +ℤ (price *ℤ pos n +ℤ cost) +ℤ committed w.positions ≡ base +ℤ w.realized_pnl

  open_at-IsBalanced :
      (q : Request ℤ) (x : Context) (n : ℕ) (price cost : ℤ) (id : Text) (w : Wallet ℤ) (base : ℤ)
      → (found : Option (Position ℤ)) → lookup id w.positions ≡ found
      → AveragesExactly quotient w.positions id price n
      → HasPaid base price n cost w
      → IfOpened (IsBalanced base) (open_at q x n price cost id w found)
  unfolding open_at new_position enlarge
  open_at-IsBalanced q x n price cost id w base none e averages h =
      let p : Position ℤ = new_position q x n price cost id in
      opened_identity w.balance (price *ℤ pos n) cost (committed w.positions)
        (committed (insert id p w.positions)) (pos 0) (capital p) base w.realized_pnl h
        (rw (sum_of-insert_new capital id p w.positions e) (omega int_laws)) (omega int_laws)
  open_at-IsBalanced q x n price cost id w base (some old) e averages h =
      elim (Bool-cases (not (old.symbol == q.symbol) || not (same_side old.side q.side))) [
        | inl wrong ↦ rw wrong tt
        | inr same ↦
            let p : Position ℤ = enlarge q n price cost old in
            rw same (
              opened_identity w.balance (price *ℤ pos n) cost (committed w.positions)
                (committed (insert id p w.positions)) (capital old) (capital p) base w.realized_pnl
                h (sum_of-insert capital id p old w.positions e)
                (rw (averages old e) (omega int_laws)))
      ]

  open_position-IsBalanced :
      (q : Request ℤ) (x : Context) (n : ℕ) (price cost : ℤ) (id : Text) (w : Wallet ℤ) (base : ℤ)
      → AveragesExactly quotient w.positions (resolved_id x id) price n
      → HasPaid base price n cost w
      → IfOpened (IsBalanced base) (open_position q x n price cost id w)
  unfolding open_position
  open_position-IsBalanced q x n price cost id w base averages h =
      let id' = resolved_id x id in
      open_at-IsBalanced q x n price cost id' w base (lookup id' w.positions) refl averages h

  pub closing-IsBalanced :
      (e : Engine ℤ) (q : Request ℤ)
      → IsKeyed e.wallet.positions
      → IsBalanced e.initial_balance e.wallet
      → IsBalanced e.initial_balance (closing e q).wallet
  unfolding closing
  closing-IsBalanced e q keyed h =
      (close_loop-IsBalanced quotient unit e.cost_model q.side (order_price e q) e.initial_balance
        (closes q) (suc (length e.wallet.positions))
        (start e.wallet (order_size q) (named_position q)) keyed h).0

  -- Cash plus tied-up capital equals the starting balance plus the realised gains after any order
  -- that does not raise, if it did before, over amounts in whole units: `n / n` is 1, and where the
  -- order adds to a position that is there, the weighted average price is a whole number of units.
  pub place_order-IsBalanced :
      (e : Engine ℤ) (q : Request ℤ) (x : Context)
      → IsKeyed e.wallet.positions
      → AveragesExactly quotient
          (closing e q).wallet.positions
          (resolved_id x (named_position q))
          (order_price e q)
          (closing e q).remaining
      → IsBalanced e.initial_balance e.wallet
      → (place_order e q x).1 ≢ value_error
      → IsBalanced e.initial_balance (place_order e q x).0.wallet
  place_order-IsBalanced e q x keyed averages h fine =
      let f = closing e q in
      let closed : IsBalanced e.initial_balance f.wallet = closing-IsBalanced e q keyed h in
      place_order_keeps (IsBalanced e.initial_balance) e q x h closed
        (λ _.
          open_position-IsBalanced q x f.remaining (order_price e q)
            (leg_cost e (order_price e q) f) (named_position q) (paid_for e (order_price e q) f)
            e.initial_balance averages (paid_identity f.wallet.balance _ _ _ closed))
        fine
