-- ===== src/Lifecycle/Keys.antt =====
-- An idempotency key keeps its trade.
use delta_quant.Prelude.{
  ℕ, ◌≡◌, ◌<◌, refl, ◌∙◌, inl, inr, false, none, some, List, [], ◌∷◌, ◌==◌, arith, Text,
  Option-cases, Bool-cases,
}
use delta_quant.Prelude.Dict.{Dict, lookup, insert}
use delta_quant.Prelude.Real.{Real}
use delta_quant.Lifecycle.{Trade, Store, ok, Intent, get, with_key, commit}
use delta_quant.Lifecycle.Operations.{create_intent, intended_trade}
use delta_quant.Lifecycle.History.{Op, apply, run, Continues, Changes, apply-Changes}

module _ {R : Type 0} (key : Text) where
  -- The key leads to the trade.
  abbrev LeadsTo : Text → Dict (Trade R) → Type 0
  LeadsTo id ts = (t : Trade R) × (with_key key ts ≡ some t) × (t.trade_id ≡ id)

  insert-LeadsTo :
      (id at : Text) (u : Trade R) (ts : Dict (Trade R))
      → ((x : Trade R) → lookup at ts ≡ some x → Continues x u)
      → LeadsTo id ts
      → LeadsTo id (insert at u ts)
  unfolding with_key
  insert-LeadsTo id at u [] cont (t, found, same) = absurd (ground arith)
  insert-LeadsTo id at u ((k, x) ∷ ts) cont (t, found, same) = elim (Bool-cases (at == k)) [
    | inl hit ↦
        let c = cont x (rw hit refl) in
        elim (Bool-cases (x.idempotency_key == key)) [
          | inl here ↦ rw hit (
            u,
            ground (arith, c.same_key),
            c.same_trade ∙ (let one : x ≡ t = ground arith in rw one same),
          )
          | inr past ↦ rw hit (t, ground (arith, c.same_key), same)
        ]
    | inr other ↦ elim (Bool-cases (x.idempotency_key == key)) [
      | inl here ↦ rw (other, with_key, here) (x, refl, ground arith)
      | inr past ↦
          let (v, there, as_before) =
            insert-LeadsTo id at u ts (λ y e. cont y (rw other e)) (t, ground arith, same) in
          rw (other, with_key, past) (v, there, as_before)
    ]
  ]

  Changes-LeadsTo :
      (id : Text) (s s' : Store R) → Changes s s' → LeadsTo id s.trades → LeadsTo id s'.trades
  unfolding commit
  Changes-LeadsTo id s s' (inl same) h = rw same h
  Changes-LeadsTo id s s' (inr (at, u, e, new, cont, fresh)) h =
      rw new (insert-LeadsTo id at u s.trades cont h)

module _ {R : Type 0} ⦃r : Real R⦄ where
  run-LeadsTo :
      (key id : Text) (ops : List (ℕ × Op R)) (s : Store R)
      → LeadsTo key id s.trades
      → LeadsTo key id (run ops s).trades
  unfolding run
  run-LeadsTo key id [] s h = h
  run-LeadsTo key id ((now, op) ∷ ops) s h =
      run-LeadsTo key id ops (apply now op s)
        (Changes-LeadsTo key id s (apply now op s) (apply-Changes now op s) h)

  with_key-insert_new :
      (at : Text) (u : Trade R) (ts : Dict (Trade R))
      → with_key u.idempotency_key ts ≡ none
      → lookup at ts ≡ none
      → with_key u.idempotency_key (insert at u ts) ≡ some u
  unfolding with_key
  with_key-insert_new at u [] fresh gone = ground arith
  with_key-insert_new at u ((k, x) ∷ ts) fresh gone = elim (Bool-cases (at == k)) [
    | inl hit ↦ absurd (ground arith)
    | inr other ↦ elim (Bool-cases (x.idempotency_key == u.idempotency_key)) [
      | inl seen ↦ absurd (ground arith)
      | inr unseen ↦
          rw (other, with_key, unseen)
            (with_key-insert_new at u ts (rw unseen at fresh) (rw other at gone))
    ]
  ]

  create_intent-LeadsTo :
      (now : ℕ) (i : Intent R) (s s' : Store R) (id : Text)
      → create_intent now i s ≡ ok (s', id)
      → LeadsTo i.idempotency_key id s'.trades
  unfolding create_intent commit
  create_intent-LeadsTo now i s s' id h = elim (Bool-cases (i.quantity == 0)) [
    | inl empty ↦ absurd (ground arith)
    | inr many ↦ elim (Option-cases (with_key i.idempotency_key s.trades)) [
      | inr (x, known) ↦ (x, ground arith, ground arith)
      | inl fresh ↦ elim (Option-cases (get i.trade_id s)) [
        | inr (x, taken) ↦ absurd (ground arith)
        | inl free ↦ (
          intended_trade now i,
          ground (arith, with_key-insert_new i.trade_id (intended_trade now i) s.trades fresh free),
          ground arith,
        )
      ]
    ]
  ]

  -- An intent is created once: whatever happens to the ledger in between, creating an intent with the
  -- same idempotency key and a quantity again, whatever else it says, gives the same trade id and
  -- leaves the ledger as it is.
  pub create_intent_once :
      (now later : ℕ) (i j : Intent R) (ops : List (ℕ × Op R)) (s s' : Store R) (id : Text)
      → create_intent now i s ≡ ok (s', id)
      → j.idempotency_key ≡ i.idempotency_key
      → 0 < j.quantity
      → create_intent later j (run ops s') ≡ ok (run ops s', id)
  unfolding create_intent
  create_intent_once now later i j ops s s' id h same many =
      let (t, found, kept) =
        run-LeadsTo i.idempotency_key id ops s' (create_intent-LeadsTo now i s s' id h) in
      let some_quantity : j.quantity == 0 ≡ false = ground arith in
      rw (same, some_quantity, found, kept) refl
