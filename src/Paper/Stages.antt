-- ===== src/Paper/Stages.antt =====
-- A rule for `place_order`: what holds of the wallet before, after the closing loop and after an
-- opening holds of it afterwards.
use delta_quant.Prelude.{◌<◌, ◌≡◌, ◌≢◌, ◌⊎◌, refl, inl, inr, false, arith, Option-cases}
use delta_quant.Prelude.Real.{Real}
use delta_quant.Costs.{buy}
use delta_quant.Paper.{Wallet, Engine}
use delta_quant.Paper.Screen.{Request, Context, screen}
use delta_quant.Paper.Place.{
  Opened, opened, identity_error, Settled, settled, turned_down, failed, value_error, open_position,
  open_leg, paid_for, leg_cost, closing, finish, execute, place_order, order_price, order_size,
  named_position,
}

module _ {R : Type 0} (P : Wallet R → Type 0) where
  abbrev pub IfOpened : Opened R → Type 0
  IfOpened (opened w id) = P w
  IfOpened identity_error = Unit

  abbrev pub IfSettled : Settled R → Type 0
  IfSettled (settled f) = P f.wallet
  IfSettled (turned_down w) = P w
  IfSettled (failed w) = Unit

module _ {R : Type 0} ⦃r : Real R⦄ (P : Wallet R → Type 0) (e : Engine R) (q : Request R)
    (x : Context) where
  -- What the opening leg does with the wallet that the closing loop leaves.
  abbrev pub opening : Opened R
  opening =
      let f = closing e q in
      let price = order_price e q in
      open_position q x f.remaining price (leg_cost e price f) (named_position q)
        (paid_for e price f)

  -- The opening leg runs only for shares that are left over, and never for a long-only sale.
  abbrev pub MayOpen : Type 0
  MayOpen = (0 < (closing e q).remaining) × ((e.long_only ≡ false) ⊎ (q.side ≡ buy))

  open_leg-IfSettled :
      P (closing e q).wallet
      → (MayOpen → IfOpened P opening)
      → IfSettled P (open_leg e q x (order_price e q) (named_position q) (closing e q))
  unfolding open_leg
  open_leg-IfSettled h k = ground arith

  finish-keeps :
      (s : Settled R)
      → P e.wallet
      → IfSettled P s
      → let (e', reply) = finish e q x (order_size q) (order_price e q) (named_position q) s in
        reply ≢ value_error → P e'.wallet
  unfolding finish
  finish-keeps (settled f) h k fine = ground arith
  finish-keeps (turned_down w) h k fine = k
  finish-keeps (failed w) h k fine = absurd (fine refl)

  pub place_order_keeps :
      P e.wallet
      → P (closing e q).wallet
      → (MayOpen → IfOpened P opening)
      → (place_order e q x).1 ≢ value_error
      → P (place_order e q x).0.wallet
  unfolding place_order execute
  place_order_keeps h k may fine = elim (Option-cases (screen e q x)) [
    | inl passed ↦
        rw (passed, place_order)
          (finish-keeps (open_leg e q x (order_price e q) (named_position q) (closing e q)) h
            (open_leg-IfSettled k may) (rw (passed, place_order) at fine))
    | inr (o, early) ↦ rw (early, place_order) h
  ]

  -- The same with the wallet that the error leaves behind, for any reply.
  abbrev IfReached : Settled R → Type 0
  IfReached (settled f) = P f.wallet
  IfReached (turned_down w) = P w
  IfReached (failed w) = P w

  open_leg-IfReached :
      P (closing e q).wallet
      → P (paid_for e (order_price e q) (closing e q))
      → (MayOpen → IfOpened P opening)
      → IfReached (open_leg e q x (order_price e q) (named_position q) (closing e q))
  unfolding open_leg
  open_leg-IfReached h p k = ground arith

  finish-reaches :
      (s : Settled R)
      → P e.wallet
      → IfReached s
      → P (finish e q x (order_size q) (order_price e q) (named_position q) s).0.wallet
  unfolding finish
  finish-reaches (settled f) h k = ground arith
  finish-reaches (turned_down w) h k = k
  finish-reaches (failed w) h k = k

  pub place_order_reaches :
      P e.wallet
      → P (closing e q).wallet
      → P (paid_for e (order_price e q) (closing e q))
      → (MayOpen → IfOpened P opening)
      → P (place_order e q x).0.wallet
  unfolding place_order execute
  place_order_reaches h k p may = elim (Option-cases (screen e q x)) [
    | inl passed ↦
        rw (passed, place_order)
          (finish-reaches (open_leg e q x (order_price e q) (named_position q) (closing e q)) h
            (open_leg-IfReached k p may))
    | inr (o, early) ↦ rw (early, place_order) h
  ]
