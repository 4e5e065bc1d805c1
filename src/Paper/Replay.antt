-- ===== src/Paper/Replay.antt =====
-- Submitting an order again under its idempotency key.
use delta_quant.Prelude.{
  ◌≡◌, ◌≢◌, ◌⊎◌, inl, inr, true, none, some, List, [], ◌∷◌, ◌++◌, arith, Option-cases, Bool-cases,
  ◌==◌, Text, ◌∙◌, empty_text,
}
use delta_quant.Prelude.Dict.{Dict}
use delta_quant.Prelude.Real.{Real, real}
use delta_quant.Paper.{
  Engine, Order, filled, partially_filled, duplicate, expected_quote_source, same_source,
}
use delta_quant.Paper.Screen.{Request, Context, screen, prior_order}
use delta_quant.Paper.Portfolio.{update_positions_pnl}
use delta_quant.Paper.Place.{
  placed, Settled, settled, turned_down, failed, open_leg, closing, finish, execute, place_order,
  order_price, order_size, named_position,
}

module _ {R : Type 0} where
  prior_order-append :
      (key : Text) (rows : List (Order R)) (o : Order R)
      → prior_order key rows ≡ none
      → o.idempotency_key ≡ key
      → prior_order key (rows ++ o ∷ []) ≡ some o
  unfolding prior_order
  prior_order-append key [] o h e = ground arith
  prior_order-append key (p ∷ rows) o h e = ground (arith, prior_order-append key rows o)

module _ {R : Type 0} ⦃r : Real R⦄ (e : Engine R) (q : Request R) (x : Context) where
  -- Where a filled order stands afterwards.
  abbrev IsLogged : Engine R → Order R → Type 0
  IsLogged e' o =
      (e'.durable.rows ≡ e.durable.rows ++ o ∷ [])
      × (o.idempotency_key ≡ q.idempotency_key)
      × (e'.mode ≡ e.mode)

  finish-IsLogged :
      (t : Settled R) {e' : Engine R} {o : Order R}
      → finish e q x (order_size q) (order_price e q) (named_position q) t ≡ (e', placed o)
      → (o.status ≡ filled) ⊎ (o.status ≡ partially_filled)
      → IsLogged e' o
  unfolding finish
  finish-IsLogged (settled f) h s = ground arith
  finish-IsLogged (turned_down w) h s = ground arith
  finish-IsLogged (failed w) h s = ground arith

  screen-not_filled :
      {o : Order R}
      → screen e q x ≡ some o
      → (o.status ≡ filled) ⊎ (o.status ≡ partially_filled)
      → ⊥
  unfolding screen
  screen-not_filled h s = ground arith

  place_order-IsLogged :
      {e' : Engine R} {o : Order R}
      → place_order e q x ≡ (e', placed o)
      → (o.status ≡ filled) ⊎ (o.status ≡ partially_filled)
      → IsLogged e' o × (screen e q x ≡ none)
  unfolding place_order execute
  place_order-IsLogged {e'} {o} h s = elim (Option-cases (screen e q x)) [
    | inl passed ↦ (
      finish-IsLogged (open_leg e q x (order_price e q) (named_position q) (closing e q)) {e' = e'}
          {o = o} (rw (passed, place_order) at h) s,
      passed,
    )
    | inr (p, early) ↦
        let found : (e, placed p) ≡ (e', placed o) = rw (early, place_order) at h in
        absurd (screen-not_filled {o = o} (early ∙ cc) s)
  ]

  screen-unseen :
      screen e q x ≡ none
      → q.idempotency_key ≢ empty_text
      → prior_order q.idempotency_key e.durable.rows ≡ none
  unfolding screen
  screen-unseen h k = ground arith

  -- A request whose key was seen is answered from the order ledger.
  screen-seen :
      (o : Order R)
      → same_source q.entry_data_source (expected_quote_source e.mode) ≡ true
      → q.idempotency_key ≢ empty_text
      → prior_order q.idempotency_key e.durable.rows ≡ some o
      → screen e q x
        ≡ some (record o {
          status = duplicate;
          idempotency_key = q.idempotency_key;
          entry_charges = real 0;
          exit_charges = real 0;
        })
  unfolding screen
  screen-seen o source k h = ground arith

module _ {R : Type 0} where
  prior_order-keeps :
      (key : Text) (rows more : List (Order R)) (o : Order R)
      → prior_order key rows ≡ some o
      → prior_order key (rows ++ more) ≡ some o
  unfolding prior_order
  prior_order-keeps key [] more o h = cc
  prior_order-keeps key (p ∷ rows) more o h = elim (Bool-cases (p.idempotency_key == key)) [
    | inl hit ↦ rw hit (rw hit at h)
    | inr miss ↦ rw miss (prior_order-keeps key rows more o (rw miss at h))
  ]

-- What may come between two orders: other orders, and new prices.
pub data Turn (R : Type 0) : Type 0 where
  ordering : Request R → Context → Turn R
  marking : Dict R → Turn R

module _ {R : Type 0} ⦃r : Real R⦄ where
  unfoldable pub take_turn : Turn R → Engine R → Engine R
  unfolding place_order update_positions_pnl
  take_turn (ordering q x) e = (place_order e q x).0
  take_turn (marking prices) e = record e { wallet = update_positions_pnl prices e.wallet }

  unfoldable pub take_turns : List (Turn R) → Engine R → Engine R
  unfolding take_turn
  take_turns [] e = e
  take_turns (t ∷ ts) e = take_turns ts (take_turn t e)

  -- The order ledger has its first row with the key, and the engine its mode.
  abbrev Remembers : Text → Order R → Engine R → Engine R → Type 0
  Remembers key o e e' = (prior_order key e'.durable.rows ≡ some o) × (e'.mode ≡ e.mode)

  finish-Remembers :
      (key : Text) (o : Order R) (origin e : Engine R) (q : Request R) (x : Context) (t : Settled R)
      → Remembers key o origin e
      → Remembers key o origin
          (finish e q x (order_size q) (order_price e q) (named_position q) t).0
  unfolding finish
  finish-Remembers key o origin e q x (turned_down w) h = h
  finish-Remembers key o origin e q x (failed w) h = h
  finish-Remembers key o origin e q x (settled f) (found, same) = elim (Bool-cases x.commits) [
    | inr lost ↦ rw lost (found, same)
    | inl kept ↦ rw kept (prior_order-keeps key e.durable.rows _ o found, same)
  ]

  take_turns-Remembers :
      (key : Text) (o : Order R) (origin : Engine R) (ts : List (Turn R)) (e : Engine R)
      → Remembers key o origin e
      → Remembers key o origin (take_turns ts e)
  unfolding take_turns take_turn place_order execute
  take_turns-Remembers key o origin [] e h = h
  take_turns-Remembers key o origin (marking prices ∷ ts) e h =
      take_turns-Remembers key o origin ts (take_turn (marking prices) e) h
  take_turns-Remembers key o origin (ordering q x ∷ ts) e h =
      take_turns-Remembers key o origin ts (place_order e q x).0
        (elim (Option-cases (screen e q x)) [
          | inl passed ↦
              rw (place_order, passed)
                (finish-Remembers key o origin e q x
                  (open_leg e q x (order_price e q) (named_position q) (closing e q)) h)
          | inr (p, early) ↦ rw (place_order, early) h
        ])

  -- Once an order with an idempotency key is filled, in whole or in part, every later order with that
  -- key, whatever else it asks for, gives back the first order as a duplicate and changes nothing,
  -- whatever other orders, with any outcome, and new prices come in between; the later order must come
  -- from the quote source of the engine's mode.
  pub place_order_once :
      (e : Engine R) (q q' : Request R) (x x' : Context) (ts : List (Turn R)) {e' : Engine R}
      {o : Order R}
      → place_order e q x ≡ (e', placed o)
      → (o.status ≡ filled) ⊎ (o.status ≡ partially_filled)
      → q.idempotency_key ≢ empty_text
      → q'.idempotency_key ≡ q.idempotency_key
      → same_source q'.entry_data_source (expected_quote_source e.mode) ≡ true
      → place_order (take_turns ts e') q' x' ≡ (
        take_turns ts e',
        placed (record o {
          status = duplicate;
          idempotency_key = q'.idempotency_key;
          entry_charges = real 0;
          exit_charges = real 0;
        }),
      )
  unfolding place_order
  place_order_once e q q' x x' ts {e'} {o} h s named same source =
      let ((rows, key, mode), passed) = place_order-IsLogged e q x {e' = e'} {o = o} h s in
      let fresh = screen-unseen e q x passed named in
      let logged : prior_order q.idempotency_key e'.durable.rows ≡ some o =
        rw rows (prior_order-append q.idempotency_key e.durable.rows o fresh key) in
      let (found, kept) = take_turns-Remembers q.idempotency_key o e ts e' (logged, mode) in
      rw (
        screen-seen (take_turns ts e') q' x' o (rw kept source) (rw same named) (rw same found),
        place_order,
      )
