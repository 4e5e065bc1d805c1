-- ===== src/Paper/Fills.antt =====
-- What the stages of an order do to the shares held.
use delta_quant.Prelude.{
  ℕ, suc, ◌≤◌, ◌≡◌, refl, inl, inr, true, false, not, Option, none, some, ◌||◌, ◌==◌, arith, length,
  Bool-cases, Text,
}
use delta_quant.Prelude.Dict.{lookup}
use delta_quant.Prelude.Int.{ℤ, ◌+ℤ◌, int_laws}
use delta_quant.Prelude.Sums.{sum_of-insert, sum_of-insert_new}
use delta_quant.Prelude.Real.{Real}
use delta_quant.Costs.{Side, buy, sell}
use delta_quant.Paper.{Position, Wallet, Engine, same_side}
use delta_quant.Paper.Close.{Fill, close_leg}
use delta_quant.Paper.Screen.{Request, Context, screen}
use delta_quant.Paper.Place.{
  Opened, opened, identity_error, Settled, settled, turned_down, failed, open_at, open_position,
  new_position, enlarge, open_leg, closing, closes, start, order_price, order_size, named_position,
  resolved_id, leg_cost, paid_for, with_position,
}
use delta_quant.Paper.Book.{IsKeyed}
use delta_quant.Paper.Loop.{close_loop_inv}
use delta_quant.Paper.Stages.{IfOpened}
use delta_quant.Paper.Shares.{holding, holding-add, held, net, close_loop-Counts}
use delta_quant.Paper.Sales.{closing_sale}

same_sides : (a b : Side) → same_side a b ≡ true → a ≡ b
same_sides buy buy h = refl
same_sides sell sell h = refl
same_sides buy sell h = cc
same_sides sell buy h = cc

holding-nil : (s symbol : Text) (side : Side) (t : ℤ) → t +ℤ holding s symbol side 0 ≡ t
holding-nil s symbol buy t = elim (Bool-cases (symbol == s)) [
  | inl e ↦ rw e (omega int_laws)
  | inr e ↦ rw e (omega int_laws)
]
holding-nil s symbol sell t = elim (Bool-cases (symbol == s)) [
  | inl e ↦ rw e (omega int_laws)
  | inr e ↦ rw e (omega int_laws)
]

module _ {R : Type 0} ⦃r : Real R⦄ (s : Text) where
  -- The opened position adds its shares to what is held.
  open_at-net :
      (q : Request R) (x : Context) (n : ℕ) (price cost : R) (id : Text) (w : Wallet R)
      (found : Option (Position R))
      → lookup id w.positions ≡ found
      → IfOpened
          (λ v. net s v.positions ≡ net s w.positions +ℤ holding s q.symbol q.side n)
          (open_at q x n price cost id w found)
  unfolding open_at new_position enlarge
  open_at-net q x n price cost id w none e =
      let p : Position R = new_position q x n price cost id in
      sum_of-insert_new (held s) id p w.positions e
  open_at-net q x n price cost id w (some old) e =
      elim (Bool-cases (not (old.symbol == q.symbol) || not (same_side old.side q.side))) [
        | inl wrong ↦ rw wrong tt
        | inr same ↦
            let p : Position R = enlarge q n price cost old in
            let symbol : old.symbol ≡ q.symbol = ground arith in
            let side : old.side ≡ q.side = same_sides old.side q.side (ground arith) in
            rw same (
              grind (
                int_laws,
                sum_of-insert (held s) id p old w.positions e,
                holding-add s old.symbol old.side old.quantity n,
                symbol,
                side,
              ))
      ]

  open_position-net :
      (q : Request R) (x : Context) (n : ℕ) (price cost : R) (id : Text) (w : Wallet R)
      → IfOpened
          (λ v. net s v.positions ≡ net s w.positions +ℤ holding s q.symbol q.side n)
          (open_position q x n price cost id w)
  unfolding open_position
  open_position-net q x n price cost id w =
      open_at-net q x n price cost (resolved_id x id) w (lookup (resolved_id x id) w.positions) refl

module _ {R : Type 0} ⦃r : Real R⦄ (e : Engine R) (q : Request R) where
  closing-remaining_le : IsKeyed e.wallet.positions → (closing e q).remaining ≤ order_size q
  unfolding closing
  closing-remaining_le keyed =
      (close_loop_inv e.cost_model q.side (order_price e q) (closes q)
        (λ f. f.remaining ≤ order_size q) (λ f m round h. unfold close_leg in omega arith)
        (suc (length e.wallet.positions)) (start e.wallet (order_size q) (named_position q)) keyed
        (omega arith)).0

  -- A loop that closed nothing changed nothing.
  closing_untouched :
      IsKeyed e.wallet.positions
      → (closing e q).closed_any ≡ false
      → (closing e q).wallet ≡ e.wallet
  unfolding closing
  closing_untouched keyed =
      (close_loop_inv e.cost_model q.side (order_price e q) (closes q)
        (λ f. f.closed_any ≡ false → f.wallet ≡ e.wallet)
        (λ f m round h never. unfold close_leg in cc) (suc (length e.wallet.positions))
        (start e.wallet (order_size q) (named_position q)) keyed (λ never. refl)).0

  module _ (s : Text) where
    -- The shares held before the order, and those that it asks for.
    abbrev pub before_and_wanted : ℤ
    before_and_wanted = net s e.wallet.positions +ℤ holding s q.symbol q.side (order_size q)

    closing-Counts :
        IsKeyed e.wallet.positions
        → net s (closing e q).wallet.positions +ℤ holding s q.symbol q.side (closing e q).remaining
          ≡ before_and_wanted
    unfolding closing
    closing-Counts keyed =
        close_loop-Counts s e.cost_model q.symbol (named_position q) q.side (order_price e q)
          before_and_wanted (suc (length e.wallet.positions))
          (start e.wallet (order_size q) (named_position q)) keyed refl

    abbrev pub IsAccounted : Settled R → Type 0
    IsAccounted (settled f) =
        (net s f.wallet.positions +ℤ holding s q.symbol q.side f.remaining ≡ before_and_wanted)
        × (f.remaining ≤ order_size q)
    IsAccounted (turned_down w) = w ≡ e.wallet
    IsAccounted (failed w) = Unit

    -- The leg that opens what is left over.
    with_position-IsAccounted :
        (f : Fill R) (paid : Wallet R) (cost : R) (o : Opened R)
        → IfOpened
            (λ v. net s v.positions ≡ net s paid.positions +ℤ holding s q.symbol q.side f.remaining)
            o
        → net s paid.positions +ℤ holding s q.symbol q.side f.remaining ≡ before_and_wanted
        → IsAccounted (with_position f paid cost o)
    with_position-IsAccounted f paid cost (opened w id) h k =
        (rw (h, k) (holding-nil s q.symbol q.side before_and_wanted), omega arith)
    with_position-IsAccounted f paid cost identity_error h k = tt

    module _ (x : Context) (keyed : IsKeyed e.wallet.positions) (passed : screen e q x ≡ none) where
      pub open_leg-IsAccounted :
          IsAccounted (open_leg e q x (order_price e q) (named_position q) (closing e q))
      unfolding open_leg
      open_leg-IsAccounted =
          let f = closing e q in
          let price = order_price e q in
          let counts = closing-Counts keyed in
          let le = closing-remaining_le keyed in
          let untouched = closing_untouched keyed in
          let sale = closing_sale e q x keyed in
          let paid = paid_for e price f in
          let position =
            open_position q x f.remaining price (leg_cost e price f) (named_position q) paid in
          let grown =
            with_position-IsAccounted f paid (leg_cost e price f) position
              (open_position-net s q x f.remaining price (leg_cost e price f) (named_position q)
                paid)
              counts in
          ground arith
