-- ===== src/Paper/Sales.antt =====
-- Long-only sales: the shares that the screen counts are the shares that the closing loop finds.
use delta_quant.Prelude.{
  ℕ, suc, ◌+◌, ◌<◌, ◌≤◌, ◌≡◌, refl, true, none, some, [], ◌∷◌, if◌then◌else◌, arith, length, Text,
  min,
}
use delta_quant.Prelude.Dict.{Dict, lookup, insert, erase}
use delta_quant.Prelude.Real.{Real}
use delta_quant.Costs.{Side, buy, sell, CostModel, fill_price}
use delta_quant.Paper.{Position, Engine}
use delta_quant.Paper.Close.{
  Fill, find, next_match, take_shares, remainder, close_leg, close_loop, concerns,
}
use delta_quant.Paper.Screen.{Request, Context, screen, available}
use delta_quant.Paper.Place.{closing, start, order_size, named_position}
use delta_quant.Paper.Book.{IsKeyed}
use delta_quant.Paper.Loop.{Round, close_loop_inv, close_loop_done}

module _ {R : Type 0} (symbol id : Text) where
  -- What a position adds to the shares on offer.
  abbrev offered : Position R → ℕ
  offered p = if concerns symbol buy id p then p.quantity else 0

  available-erase :
      (k : Text) (ps : Dict (Position R)) (m : Position R)
      → lookup k ps ≡ some m
      → available symbol id (erase k ps) + offered m ≡ available symbol id ps
  unfolding available
  available-erase k [] m e = cc
  available-erase k (x ∷ ps) m e = ground (arith, available-erase k ps m)

  available-insert :
      (k : Text) (v : Position R) (ps : Dict (Position R)) (m : Position R)
      → lookup k ps ≡ some m
      → available symbol id (insert k v ps) + offered m ≡ available symbol id ps + offered v
  unfolding available
  available-insert k v [] m e = cc
  available-insert k v (x ∷ ps) m e = ground (arith, available-insert k v ps m)

  available-find :
      (ps : Dict (Position R))
      → find (concerns symbol buy id) ps ≡ none
      → available symbol id ps ≡ 0
  unfolding available find
  available-find [] e = refl
  available-find ((k, p) ∷ ps) e = ground (arith, available-find ps)

module _ {R : Type 0} ⦃r : Real R⦄ (symbol id : Text) where
  available-take_shares :
      (q : ℕ) (m : Position R) (ps : Dict (Position R))
      → lookup m.position_id ps ≡ some m
      → concerns symbol buy id m ≡ true
      → q ≤ m.quantity
      → available symbol id (take_shares q m ps) + q ≡ available symbol id ps
  unfolding take_shares
  available-take_shares q m ps there c le = ground (
    arith,
    available-erase symbol id m.position_id ps m there,
    available-insert symbol id m.position_id (remainder q m) ps m there,
  )

  module _ (c : CostModel R) (side : Side) (price : R) where
    -- No more is wanted than is on offer.
    abbrev IsCovered : Fill R → Type 0
    IsCovered f = f.remaining ≤ available symbol id f.wallet.positions

    close_leg-IsCovered :
        (f : Fill R) (m : Position R)
        → Round (concerns symbol buy id) f m
        → IsCovered f
        → IsCovered (close_leg c side price m f)
    unfolding close_leg
    close_leg-IsCovered f m round h = omega (
      arith,
      available-take_shares (min f.remaining m.quantity) m f.wallet.positions round.there
          round.passes,
    )

    -- A covered sale is filled by the closing loop.
    close_loop_sale :
        (fuel : ℕ) (f : Fill R)
        → IsKeyed f.wallet.positions
        → length f.wallet.positions < fuel
        → IsCovered f
        → (close_loop c side price (concerns symbol buy id) fuel f).remaining ≡ 0
    unfolding next_match
    close_loop_sale fuel f keyed enough h =
        let test = concerns symbol buy id in
        let g = close_loop c side price test fuel f in
        let covered =
          (close_loop_inv c side price test IsCovered close_leg-IsCovered fuel f keyed h).0 in
        let done = close_loop_done c side price test fuel f keyed enough in
        ground (arith, available-find symbol id g.wallet.positions)

module _ {R : Type 0} ⦃r : Real R⦄ (e : Engine R) (q : Request R) (x : Context) where
  screen_sale :
      e.long_only ≡ true
      → q.side ≡ sell
      → screen e q x ≡ none
      → order_size q ≤ available q.symbol (named_position q) e.wallet.positions
  unfolding screen
  screen_sale l s h = ground arith

  -- The closing loop leaves nothing of a long-only sale that passes the screen.
  pub closing_sale :
      IsKeyed e.wallet.positions
      → e.long_only ≡ true
      → q.side ≡ sell
      → screen e q x ≡ none
      → (closing e q).remaining ≡ 0
  unfolding closing
  closing_sale keyed l s h =
      let covered = screen_sale l s h in
      rw s (
        close_loop_sale q.symbol (named_position q) e.cost_model sell
          (fill_price e.cost_model q.current_price sell) (suc (length e.wallet.positions))
          (start e.wallet (order_size q) (named_position q)) keyed (omega arith) covered)
