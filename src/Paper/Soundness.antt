-- ===== src/Paper/Soundness.antt =====
-- What every order keeps: the book in order, the trade counters, and no shorts in long-only mode.
use delta_quant.Prelude.{
  ℕ, suc, ◌+◌, ◌<◌, ◌≡◌, ◌⊎◌, refl, inl, inr, Bool, false, Option, none, some, [], ◌∷◌, ◌==◌, arith,
  length, Bool-cases, Text, not, ◌||◌, min,
}
use delta_quant.Prelude.Dict.{Dict, lookup, insert, erase}
use delta_quant.Prelude.Real.{Real}
use delta_quant.Costs.{Side, buy, CostModel}
use delta_quant.Paper.{Position, Wallet, Engine, same_side}
use delta_quant.Paper.Close.{Fill, take_shares, remainder, close_leg}
use delta_quant.Paper.Screen.{Request, Context}
use delta_quant.Paper.Place.{
  open_at, open_position, new_position, enlarge, closing, closes, start, order_price, order_size,
  named_position, place_order, resolved_id, leg_cost, paid_for,
}
use delta_quant.Paper.Book.{IsKeyed, insert-IsKeyed, lookup-IsKeyed}
use delta_quant.Paper.Loop.{Round, close_leg-IsKeyed, close_loop_inv}
use delta_quant.Paper.Stages.{IfOpened, place_order_reaches}

module _ {R : Type 0} where
  -- In long-only mode every position is a long.
  abbrev pub AllLong : Bool → Dict (Position R) → Type 0
  AllLong long_only [] = Unit
  AllLong long_only ((k, p) ∷ ps) = ((long_only ≡ false) ⊎ (p.side ≡ buy)) × AllLong long_only ps

  insert-AllLong :
      (l : Bool) (k : Text) (p : Position R) (ps : Dict (Position R))
      → AllLong l ps
      → (l ≡ false) ⊎ (p.side ≡ buy)
      → AllLong l (insert k p ps)
  insert-AllLong l k p [] h a = (a, tt)
  insert-AllLong l k p (x ∷ ps) h a = ground (arith, insert-AllLong l k p ps h.1 a)

  erase-AllLong :
      (l : Bool) (k : Text) (ps : Dict (Position R)) → AllLong l ps → AllLong l (erase k ps)
  erase-AllLong l k [] h = tt
  erase-AllLong l k (x ∷ ps) h = ground (arith, erase-AllLong l k ps h.1)

  lookup-AllLong :
      (l : Bool) (k : Text) (ps : Dict (Position R)) {p : Position R}
      → AllLong l ps
      → lookup k ps ≡ some p
      → (l ≡ false) ⊎ (p.side ≡ buy)
  lookup-AllLong l k [] h e = cc
  lookup-AllLong l k (x ∷ ps) {p} h e = ground (arith, lookup-AllLong l k ps {p = p} h.1)

  pub record IsSound (long_only : Bool) (w : Wallet R) : Type 0 where
    pub keyed : IsKeyed w.positions
    pub long : AllLong long_only w.positions
    pub counted : w.total_trades ≡ w.winning_trades + w.losing_trades

module _ {R : Type 0} ⦃r : Real R⦄ (l : Bool) where
  take_shares-AllLong :
      (q : ℕ) (m : Position R) (ps : Dict (Position R))
      → lookup m.position_id ps ≡ some m
      → AllLong l ps
      → AllLong l (take_shares q m ps)
  unfolding take_shares
  take_shares-AllLong q m ps there h = ground (
    arith,
    erase-AllLong l m.position_id ps h,
    insert-AllLong l m.position_id (remainder q m) ps h,
    lookup-AllLong l m.position_id ps {p = m} h there,
  )

  close_leg-IsSound :
      (c : CostModel R) (side : Side) (price : R) (test : Position R → Bool) (f : Fill R)
      (m : Position R)
      → Round test f m
      → IsSound l f.wallet
      → IsSound l (close_leg c side price m f).wallet
  close_leg-IsSound c side price test f m round h = record {
    keyed = close_leg-IsKeyed c side price m f h.keyed;
    long =
        unfold close_leg in
        take_shares-AllLong (min f.remaining m.quantity) m f.wallet.positions round.there h.long;
    counted = unfold close_leg in ground arith;
  }

  open_at-IsSound :
      (q : Request R) (x : Context) (n : ℕ) (price cost : R) (id : Text) (w : Wallet R)
      (found : Option (Position R))
      → lookup id w.positions ≡ found
      → 0 < n
      → (l ≡ false) ⊎ (q.side ≡ buy)
      → IsSound l w
      → IfOpened (IsSound l) (open_at q x n price cost id w found)
  unfolding open_at new_position enlarge
  open_at-IsSound q x n price cost id w none e many may h =
      let p : Position R = new_position q x n price cost id in
      record {
        keyed = insert-IsKeyed id p w.positions h.keyed refl many;
        long = insert-AllLong l id p w.positions h.long may;
        counted = h.counted;
      }
  open_at-IsSound q x n price cost id w (some old) e many may h =
      let p : Position R = enlarge q n price cost old in
      elim (Bool-cases (not (old.symbol == q.symbol) || not (same_side old.side q.side))) [
        | inl wrong ↦ rw wrong tt
        | inr same ↦ rw same (record {
          keyed =
              insert-IsKeyed id p w.positions h.keyed
                (lookup-IsKeyed id w.positions {p = old} h.keyed e).0 (omega arith);
          long =
              insert-AllLong l id p w.positions h.long
                (lookup-AllLong l id w.positions {p = old} h.long e);
          counted = h.counted;
        })
      ]

  open_position-IsSound :
      (q : Request R) (x : Context) (n : ℕ) (price cost : R) (id : Text) (w : Wallet R)
      → 0 < n
      → (l ≡ false) ⊎ (q.side ≡ buy)
      → IsSound l w
      → IfOpened (IsSound l) (open_position q x n price cost id w)
  unfolding open_position
  open_position-IsSound q x n price cost id w many may h =
      let id' = resolved_id x id in
      open_at-IsSound q x n price cost id' w (lookup id' w.positions) refl many may h

  closing-IsSound :
      (e : Engine R) (q : Request R) → IsSound l e.wallet → IsSound l (closing e q).wallet
  unfolding closing
  closing-IsSound e q h =
      let price = order_price e q in
      (close_loop_inv e.cost_model q.side price (closes q) (λ f. IsSound l f.wallet)
        (close_leg-IsSound e.cost_model q.side price (closes q)) (suc (length e.wallet.positions))
        (start e.wallet (order_size q) (named_position q)) h.keyed h).0

module _ {R : Type 0} ⦃r : Real R⦄ where
  -- Whatever an order does, also when it raises, every open position stands once under its own id
  -- with at least one share, wins and losses add up to the closed trades, and in long-only mode no
  -- position is a short.
  pub place_order-IsSound :
      (e : Engine R) (q : Request R) (x : Context)
      → IsSound e.long_only e.wallet
      → IsSound e.long_only (place_order e q x).0.wallet
  place_order-IsSound e q x h =
      let f = closing e q in
      let price = order_price e q in
      let closed = closing-IsSound e.long_only e q h in
      let paid : IsSound e.long_only (paid_for e price f) = record {
        keyed = closed.keyed;
        long = closed.long;
        counted = closed.counted;
      } in
      place_order_reaches (IsSound e.long_only) e q x h closed paid (λ may.
        open_position-IsSound e.long_only q x f.remaining price (leg_cost e price f)
          (named_position q) (paid_for e price f) may.0 may.1 paid)
