-- ===== src/Lifecycle/Lives.antt =====
-- What a trade keeps through every sequence of operations on the ledger.
use delta_quant.Prelude.{
  ℕ, ◌≡◌, refl, inl, inr, true, false, some, List, [], ◌∷◌, ◌==◌, arith, Text, Option-cases,
  Bool-cases,
}
use delta_quant.Prelude.Dict.{lookup-insert}
use delta_quant.Prelude.Real.{Real}
use delta_quant.Lifecycle.{Trade, Store, ok, get, commit}
use delta_quant.Lifecycle.Operations.{mark_finalized}
use delta_quant.Lifecycle.History.{
  Op, apply, run, IsConsistent, Continues, Continues-refl, Continues-trans, Changes, apply-Changes,
}

module _ {R : Type 0} where
  -- The trade is in the ledger still, as itself.
  abbrev pub Lives : Text → Trade R → Store R → Type 0
  Lives id t s = (t' : Trade R) × (get id s ≡ some t') × Continues t t'

  Changes-Lives :
      (id : Text) (t : Trade R) (s s' : Store R) → get id s ≡ some t → Changes s s' → Lives id t s'
  unfolding commit
  Changes-Lives id t s s' here (inl same) = (t, rw same here, Continues-refl t)
  Changes-Lives id t s s' here (inr (at, u, e, new, cont, fresh)) = elim (Bool-cases (id == at)) [
    | inl hit ↦ (
      u,
      rw (new, lookup-insert id at u s.trades, hit) refl,
      cont t (let one : at ≡ id = ground arith in rw one here),
    )
    | inr other ↦ (t, rw (new, lookup-insert id at u s.trades, other) here, Continues-refl t)
  ]

module _ {R : Type 0} ⦃r : Real R⦄ (id : Text) where
  -- Through every sequence of operations, at any times and with errors among them, a trade of the
  -- ledger stays in it under its id, with its idempotency key, symbol and side, and once it is
  -- finalised it stays so, at the same time.
  pub run-Lives :
      (ops : List (ℕ × Op R)) (s : Store R) (t : Trade R)
      → get id s ≡ some t
      → Lives id t (run ops s)
  unfolding run
  run-Lives [] s t here = (t, here, Continues-refl t)
  run-Lives ((now, op) ∷ ops) s t here =
      let (u, there, first) = Changes-Lives id t s (apply now op s) here (apply-Changes now op s) in
      let (v, last, rest) = run-Lives ops (apply now op s) u there in
      (v, last, Continues-trans first rest)

  mark_finalized_sets :
      (now : ℕ) (s s' : Store R)
      → mark_finalized now id s ≡ ok (s', true)
      → (t : Trade R) × (get id s' ≡ some t) × (t.finalized_at ≡ some now)
  unfolding mark_finalized commit
  mark_finalized_sets now s s' h = elim (Option-cases (get id s)) [
    | inl miss ↦ absurd (ground arith)
    | inr (x, there) ↦ elim (Option-cases x.finalized_at) [
      | inr (time, final) ↦ absurd (ground arith)
      | inl fresh ↦ (
        record x { finalized_at = some now; updated_at = now },
        ground (
          arith,
          lookup-insert id id (record x { finalized_at = some now; updated_at = now }) s.trades,
        ),
        refl,
      )
    ]
  ]

  -- A trade is finalised once: after a call that finalised it, and any operations since, every
  -- further call says that it was not the one and leaves the ledger as it is.
  pub mark_finalized_once :
      (now later : ℕ) (ops : List (ℕ × Op R)) (s s' : Store R)
      → mark_finalized now id s ≡ ok (s', true)
      → mark_finalized later id (run ops s') ≡ ok (run ops s', false)
  unfolding mark_finalized
  mark_finalized_once now later ops s s' h =
      let (t, there, final) = mark_finalized_sets now s s' h in
      let (u, kept, same) = run-Lives ops s' t there in
      rw (kept, mark_finalized, same.stays_final now final) refl

module _ {R : Type 0} ⦃r : Real R⦄ where
  -- Every row of the ledger agrees with its status.
  abbrev pub AllConsistent : Store R → Type 0
  AllConsistent s = (id : Text) (t : Trade R) → get id s ≡ some t → IsConsistent t

  Changes-AllConsistent : (s s' : Store R) → Changes s s' → AllConsistent s → AllConsistent s'
  unfolding commit
  Changes-AllConsistent s s' (inl same) h = rw same h
  Changes-AllConsistent s s' (inr (at, u, e, new, cont, fresh)) h = λ id t here.
      elim (Bool-cases (id == at)) [
        | inl hit ↦
            let one : u ≡ t = ground (arith, rw new at here, lookup-insert id at u s.trades) in
            let good : IsConsistent u = elim (Option-cases (get at s)) [
              | inl gone ↦ fresh gone
              | inr (x, there) ↦ (cont x there).stays_consistent (h at x there)
            ] in
            rw one at good
        | inr other ↦ h id t (ground (arith, rw new at here, lookup-insert id at u s.trades))
      ]

  -- Every sequence of operations, at any times and with errors among them, keeps every row of the
  -- ledger in agreement with its status: a closed trade has nothing left and its closing time, one
  -- that is closed in part has something left, an intent holds nothing, and never is more left than
  -- was bought.
  pub run-AllConsistent :
      (ops : List (ℕ × Op R)) (s : Store R) → AllConsistent s → AllConsistent (run ops s)
  unfolding run
  run-AllConsistent [] s h = h
  run-AllConsistent ((now, op) ∷ ops) s h =
      run-AllConsistent ops (apply now op s)
        (Changes-AllConsistent s (apply now op s) (apply-Changes now op s) h)
