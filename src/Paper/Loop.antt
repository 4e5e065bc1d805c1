-- ===== src/Paper/Loop.antt =====
-- The closing loop: its invariant rule, and that its fuel is enough.
use delta_quant.Prelude.{
  ℕ, zero, suc, ◌<◌, min, ◌≡◌, refl, ◌⊎◌, inl, inr, Bool, true, none, some, arith, length,
  Option-cases,
}
use delta_quant.Prelude.Dict.{Dict, lookup}
use delta_quant.Prelude.Real.{Real}
use delta_quant.Costs.{Side, CostModel}
use delta_quant.Paper.{Position}
use delta_quant.Paper.Close.{Fill, find, next_match, close_leg, close_loop, take_shares, remainder}
use delta_quant.Paper.Book.{IsKeyed, find-lookup, insert-IsKeyed, erase-IsKeyed, length-erase}

module _ {R : Type 0} (test : Position R → Bool) where
  -- What a round of the loop may rely on: the position is there, passes the test and has shares.
  pub record Round (f : Fill R) (m : Position R) : Type 0 where
    pub keyed : IsKeyed f.wallet.positions
    pub there : lookup m.position_id f.wallet.positions ≡ some m
    pub passes : test m ≡ true
    pub many : 0 < m.quantity
    pub wanted : 0 < f.remaining

  next_match-find :
      (f : Fill R) {m : Position R}
      → next_match test f ≡ some m
      → (find test f.wallet.positions ≡ some m) × (0 < f.remaining)
  unfolding next_match
  next_match-find f e = ground arith

  pub next_match-Round :
      (f : Fill R) {m : Position R}
      → IsKeyed f.wallet.positions
      → next_match test f ≡ some m
      → Round f m
  next_match-Round f {m} h e =
      let (found, wanted) = next_match-find f {m = m} e in
      let (there, passes, many) = find-lookup test f.wallet.positions {m = m} h found in
      record { keyed = h; there = there; passes = passes; many = many; wanted = wanted }

module _ {R : Type 0} ⦃r : Real R⦄ (c : CostModel R) (side : Side) (price : R) where
  take_shares-IsKeyed :
      (q : ℕ) (m : Position R) (ps : Dict (Position R)) → IsKeyed ps → IsKeyed (take_shares q m ps)
  unfolding take_shares
  take_shares-IsKeyed q m ps h = ground (
    arith,
    erase-IsKeyed m.position_id ps h,
    insert-IsKeyed m.position_id (remainder q m) ps h refl,
  )

  -- A round keeps the book in order.
  pub close_leg-IsKeyed :
      (m : Position R) (f : Fill R)
      → IsKeyed f.wallet.positions
      → IsKeyed (close_leg c side price m f).wallet.positions
  unfolding close_leg
  close_leg-IsKeyed m f h = take_shares-IsKeyed (min f.remaining m.quantity) m f.wallet.positions h

  -- It fills the order or uses a position up.
  close_leg_progress :
      (m : Position R) (f : Fill R)
      → lookup m.position_id f.wallet.positions ≡ some m
      → let f' = close_leg c side price m f in
        (f'.remaining ≡ 0) ⊎ (suc (length f'.wallet.positions) ≡ length f.wallet.positions)
  unfolding close_leg take_shares
  close_leg_progress m f there =
      ground (arith, length-erase m.position_id f.wallet.positions {p = m} there)

  module _ (test : Position R → Bool) where
    -- What each round keeps, the loop keeps, as long as the book is in order.
    pub close_loop_inv :
        (P : Fill R → Type 0)
        → ((f : Fill R) (m : Position R) → Round test f m → P f → P (close_leg c side price m f))
        → (fuel : ℕ) (f : Fill R) → IsKeyed f.wallet.positions
        → P f
        → P (close_loop c side price test fuel f)
          × IsKeyed (close_loop c side price test fuel f).wallet.positions
    unfolding close_loop
    close_loop_inv P keep zero f h p = (p, h)
    close_loop_inv P keep (suc fuel) f h p = elim (Option-cases (next_match test f)) [
      | inl e ↦ rw (e, close_loop) (p, h)
      | inr (m, e) ↦
          let f' = close_leg c side price m f in
          rw (e, close_loop)
            (close_loop_inv P keep fuel f' (close_leg-IsKeyed m f h)
              (keep f m (next_match-Round test f {m = m} h e) p))
    ]

    next_match_done : (f : Fill R) → f.remaining ≡ 0 → next_match test f ≡ none
    unfolding next_match
    next_match_done f e = ground arith

    close_loop_filled :
        (fuel : ℕ) (f : Fill R) → f.remaining ≡ 0 → close_loop c side price test fuel f ≡ f
    unfolding close_loop
    close_loop_filled zero f e = refl
    close_loop_filled (suc fuel) f e = rw (next_match_done f e, close_loop)

    -- With one round more than there are positions the loop ends by its own test.
    pub close_loop_done :
        (fuel : ℕ) (f : Fill R)
        → IsKeyed f.wallet.positions
        → length f.wallet.positions < fuel
        → next_match test (close_loop c side price test fuel f) ≡ none
    unfolding close_loop
    close_loop_done zero f h enough = absurd (omega arith)
    close_loop_done (suc fuel) f h enough = elim (Option-cases (next_match test f)) [
      | inl e ↦ rw (e, close_loop) e
      | inr (m, e) ↦
          let f' = close_leg c side price m f in
          let round = next_match-Round test f {m = m} h e in
          rw (e, close_loop)
            (elim (close_leg_progress m f round.there) [
              | inl full ↦ rw (close_loop_filled fuel f' full) (next_match_done f' full)
              | inr fewer ↦ close_loop_done fuel f' (close_leg-IsKeyed m f h) (omega arith)
            ])
    ]
