-- ===== src/Paper/Shares.antt =====
-- Shares held, net of shorts, and how the closing loop changes them.
use delta_quant.Prelude.{
  ℕ, ◌+◌, ◌-◌, ◌≤◌, min, ◌≡◌, refl, inl, inr, true, some, leb, ◌==◌, if◌then◌else◌, arith,
  Bool-cases, Text,
}
use delta_quant.Prelude.Dict.{Dict, lookup}
use delta_quant.Prelude.Int.{ℤ, pos, ◌+ℤ◌, ◌-ℤ◌, int_laws}
use delta_quant.Prelude.Sums.{sum_of, sum_of-erase, sum_of-insert}
use delta_quant.Prelude.Real.{Real}
use delta_quant.Costs.{Side, buy, sell, CostModel}
use delta_quant.Paper.{Position, same_side, opposite}
use delta_quant.Paper.Close.{Fill, take_shares, remainder, close_leg, close_loop, concerns}
use delta_quant.Paper.Book.{IsKeyed}
use delta_quant.Paper.Loop.{Round, close_loop_inv}

-- `n` shares of a long count for, of a short against.
abbrev pub signed : Side → ℕ → ℤ
signed buy n = pos n
signed sell n = pos 0 -ℤ pos n

-- The part in the symbol `s` of `n` shares of `symbol`.
abbrev pub holding : Text → Text → Side → ℕ → ℤ
holding s symbol side n = if symbol == s then signed side n else pos 0

module _ {R : Type 0} where
  abbrev pub held : Text → Position R → ℤ
  held s p = holding s p.symbol p.side p.quantity

  -- The net number of shares of a symbol.
  abbrev pub net : Text → Dict (Position R) → ℤ
  net s = sum_of (held s)

signed-add : (side : Side) (m n : ℕ) → signed side (m + n) ≡ signed side m +ℤ signed side n
signed-add buy m n = omega int_laws
signed-add sell m n = omega int_laws

pub holding-add :
    (s symbol : Text) (side : Side) (m n : ℕ)
    → holding s symbol side (m + n) ≡ holding s symbol side m +ℤ holding s symbol side n
holding-add s symbol side m n = elim (Bool-cases (symbol == s)) [
  | inl e ↦ rw e (signed-add side m n)
  | inr e ↦ rw e (omega int_laws)
]

-- Closing counts as the order does: a long that is sold, a short that is covered.
signed-opposite :
    (side other : Side) (n : ℕ)
    → same_side other (opposite side) ≡ true
    → signed other n ≡ pos 0 -ℤ signed side n
signed-opposite buy sell n h = refl
signed-opposite sell buy n h = omega int_laws
signed-opposite buy buy n h = cc
signed-opposite sell sell n h = cc

module _ {R : Type 0} (symbol : Text) (side : Side) (id : Text) where
  pub concerns_parts :
      (m : Position R)
      → concerns symbol side id m ≡ true
      → (m.symbol ≡ symbol) × (same_side m.side side ≡ true)
  concerns_parts m h = ground arith

module _ {R : Type 0} (s symbol : Text) (side : Side) (id : Text) (n : ℕ) where
  holding-opposite :
      (m : Position R)
      → concerns symbol (opposite side) id m ≡ true
      → holding s m.symbol m.side n ≡ pos 0 -ℤ holding s symbol side n
  holding-opposite m h =
      let (same, other) = concerns_parts symbol (opposite side) id m h in
      rw same (elim (Bool-cases (symbol == s)) [
        | inl e ↦ rw e (signed-opposite side m.side n other)
        | inr e ↦ rw e (omega int_laws)
      ])

count_identity :
    (n n' part a b c t : ℤ)
    → n' +ℤ part ≡ n
    → n +ℤ c ≡ t
    → c ≡ a +ℤ b
    → part ≡ pos 0 -ℤ b
    → n' +ℤ a ≡ t
count_identity n n' part a b c t h k e d = grind (int_laws)

module _ {R : Type 0} ⦃r : Real R⦄ (s : Text) where
  net-take_shares :
      (q : ℕ) (m : Position R) (ps : Dict (Position R))
      → lookup m.position_id ps ≡ some m
      → q ≤ m.quantity
      → net s (take_shares q m ps) +ℤ holding s m.symbol m.side q ≡ net s ps
  unfolding take_shares
  net-take_shares q m ps there le = elim (Bool-cases (leb m.quantity q)) [
    | inl all ↦
        let e : q ≡ m.quantity = ground arith in
        rw all (rw e (sum_of-erase (held s) m.position_id m ps there))
    | inr part ↦
        let whole : (m.quantity - q) + q ≡ m.quantity = omega arith in
        let split = holding-add s m.symbol m.side (m.quantity - q) q in
        rw part (
          grind (
            int_laws,
            sum_of-insert (held s) m.position_id (remainder q m) m ps there,
            rw whole at split,
          ))
  ]

  module _ (c : CostModel R) (symbol id : Text) (side : Side) (price : R) where
    -- Shares held and shares still to be bought or sold.
    abbrev pub Counts : ℤ → Fill R → Type 0
    Counts total f = net s f.wallet.positions +ℤ holding s symbol side f.remaining ≡ total

    close_leg-Counts :
        (total : ℤ) (f : Fill R) (m : Position R)
        → Round (concerns symbol (opposite side) id) f m
        → Counts total f
        → Counts total (close_leg c side price m f)
    unfolding close_leg
    close_leg-Counts total f m round h =
        let q = min f.remaining m.quantity in
        let taken = net-take_shares q m f.wallet.positions round.there (omega arith) in
        let whole : (f.remaining - q) + q ≡ f.remaining = omega arith in
        let split = holding-add s symbol side (f.remaining - q) q in
        count_identity (net s f.wallet.positions) (net s (take_shares q m f.wallet.positions))
          (holding s m.symbol m.side q) (holding s symbol side (f.remaining - q))
          (holding s symbol side q) (holding s symbol side f.remaining) total taken h
          (rw whole at split) (holding-opposite s symbol side id q m round.passes)

    pub close_loop-Counts :
        (total : ℤ) (fuel : ℕ) (f : Fill R)
        → IsKeyed f.wallet.positions
        → Counts total f
        → Counts total (close_loop c side price (concerns symbol (opposite side) id) fuel f)
    close_loop-Counts total fuel f keyed h =
        (close_loop_inv c side price (concerns symbol (opposite side) id) (Counts total)
          (close_leg-Counts total) fuel f keyed h).0
