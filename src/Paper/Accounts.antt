-- ===== src/Paper/Accounts.antt =====
-- The books of the paper engine over exact amounts: whole units, with a division of which only
-- `n / n = 1` is used.
use delta_quant.Prelude.{
  ℕ, ◌+◌, ◌-◌, ◌<◌, ◌≤◌, min, ◌≡◌, ap, ◌∙◌, inl, inr, Bool, some, leb, arith, Bool-cases,
}
use delta_quant.Prelude.Dict.{Dict, lookup}
use delta_quant.Prelude.Int.{ℤ, pos, ◌+ℤ◌, ◌-ℤ◌, ◌*ℤ◌, int_laws, *ℤ-add, *ℤ-one}
use delta_quant.Prelude.Sums.{sum_of, sum_of-erase, sum_of-insert}
use delta_quant.Prelude.Real.{Real, exact}
use delta_quant.Costs.{Side, CostModel, charges}
use delta_quant.Paper.{Position, Wallet}
use delta_quant.Paper.Close.{
  Fill, take_shares, remainder, prorata_charges, close_leg, close_loop, gross_of,
}
use delta_quant.Paper.Book.{IsKeyed}
use delta_quant.Paper.Loop.{Round, close_loop_inv}

-- The capital that a position ties up: its notional at entry and the charges paid on entry.
abbrev pub capital : Position ℤ → ℤ
capital p = p.entry_price *ℤ pos p.quantity +ℤ p.entry_charges

abbrev pub committed : Dict (Position ℤ) → ℤ
committed = sum_of capital

-- Cash and tied-up capital make up the starting balance and what was gained.
abbrev pub IsBalanced : ℤ → Wallet ℤ → Type 0
IsBalanced base w = w.balance +ℤ committed w.positions ≡ base +ℤ w.realized_pnl

close_identity :
    (b ca ca' e g x p base rp : ℤ)
    → ca' +ℤ (e +ℤ p) ≡ ca
    → b +ℤ ca ≡ base +ℤ rp
    → b +ℤ (e +ℤ g -ℤ x) +ℤ ca' ≡ base +ℤ (rp +ℤ (g -ℤ p -ℤ x))
close_identity b ca ca' e g x p base rp h k = grind (int_laws)

module _ (quotient : ℤ → ℤ → ℤ) (unit : (n : ℕ) → 0 < n → quotient (pos n) (pos n) ≡ pos 1) where
  instance abbrev pub amounts : Real ℤ
  amounts = exact quotient

  prorata-full : (m : Position ℤ) → 0 < m.quantity → prorata_charges m.quantity m ≡ m.entry_charges
  prorata-full m h = rw (unit m.quantity h) (*ℤ-one m.entry_charges)

  value-split :
      (q : ℕ) (m : Position ℤ)
      → q ≤ m.quantity
      → capital m ≡ capital (remainder q m) +ℤ (m.entry_price *ℤ pos q +ℤ prorata_charges q m)
  value-split q m le =
      let whole : m.quantity ≡ (m.quantity - q) + q = omega arith in
      let split : m.entry_price *ℤ pos m.quantity
          ≡ m.entry_price *ℤ pos (m.quantity - q) +ℤ m.entry_price *ℤ pos q =
        ap (λ n. m.entry_price *ℤ pos n) whole ∙ *ℤ-add m.entry_price (m.quantity - q) q in
      rw split (omega int_laws)

  -- What leaves the book with some shares is their cost and their part of the entry charges.
  committed-take_shares :
      (q : ℕ) (m : Position ℤ) (ps : Dict (Position ℤ))
      → lookup m.position_id ps ≡ some m
      → q ≤ m.quantity
      → 0 < m.quantity
      → committed (take_shares q m ps) +ℤ (m.entry_price *ℤ pos q +ℤ prorata_charges q m)
        ≡ committed ps
  unfolding take_shares
  committed-take_shares q m ps there le many = elim (Bool-cases (leb m.quantity q)) [
    | inl all ↦
        let e : q ≡ m.quantity = ground arith in
        rw all (rw e (rw (prorata-full m many) (sum_of-erase capital m.position_id m ps there)))
    | inr part ↦ rw part (
        grind (
          int_laws,
          sum_of-insert capital m.position_id (remainder q m) m ps there,
          value-split q m le,
        ))
  ]

  module _ (c : CostModel ℤ) (side : Side) (price base : ℤ) where
    close_leg-IsBalanced :
        (test : Position ℤ → Bool) (f : Fill ℤ) (m : Position ℤ)
        → Round test f m
        → IsBalanced base f.wallet
        → IsBalanced base (close_leg c side price m f).wallet
    unfolding close_leg
    close_leg-IsBalanced test f m round h =
        let q = min f.remaining m.quantity in
        let taken =
          committed-take_shares q m f.wallet.positions round.there (omega arith) round.many in
        close_identity f.wallet.balance (committed f.wallet.positions)
          (committed (take_shares q m f.wallet.positions)) (m.entry_price *ℤ pos q)
          (gross_of price m.side m.entry_price q) (charges c (price *ℤ pos q)) (prorata_charges q m)
          base f.wallet.realized_pnl taken h

    -- The closing loop moves money between cash, capital and gains, and loses none.
    pub close_loop-IsBalanced :
        (test : Position ℤ → Bool) (fuel : ℕ) (f : Fill ℤ)
        → IsKeyed f.wallet.positions
        → IsBalanced base f.wallet
        → IsBalanced base (close_loop c side price test fuel f).wallet
          × IsKeyed (close_loop c side price test fuel f).wallet.positions
    close_loop-IsBalanced test fuel f keyed h =
        close_loop_inv c side price test (λ g. IsBalanced base g.wallet)
          (λ g m. close_leg-IsBalanced test g m) fuel f keyed h
