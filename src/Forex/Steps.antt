-- ===== src/Forex/Steps.antt =====
-- What one position's part of a round of exits does to the tables.
use delta_quant.Prelude.{
  Bool, ℕ, ◌≡◌, ◌≢◌, ◌⊎◌, refl, inl, inr, true, false, ◌||◌, some, ◌==◌, is_some, arith, Text,
  Option-cases, Bool-cases, ==_refl,
}
use delta_quant.Prelude.Dict.{Dict, lookup, insert, lookup-insert}
use delta_quant.Prelude.Real.{Real, real}
use delta_quant.Paper.{opposite}
use delta_quant.Forex.{
  PaperPosition, PaperOrder, Repository, ExitReason, persist_paper_close, ForexDecisionLifecycle,
  update_decision, record_stage, position_closed,
}
use delta_quant.Forex.Manage.{
  RecordIds, ForexQuote, ForexPositionManagementResult, exit_for_position, closed_position,
  close_at, after_close, manage_position, exit_filled,
}

pub is_some-insert :
    {V : Type 0} (key at : Text) (value : V) (d : Dict V)
    → is_some (lookup key d) ≡ true
    → is_some (lookup key (insert at value d)) ≡ true
is_some-insert key at value d h = elim (Bool-cases (key == at)) [
  | inl same ↦ rw (lookup-insert key at value d, same) refl
  | inr other ↦ rw (lookup-insert key at value d, other) h
]

pub lookup-insert-same :
    {V : Type 0} (key : Text) (value : V) (d : Dict V)
    → lookup key (insert key value d) ≡ some value
lookup-insert-same key value d = rw (lookup-insert key key value d, ==_refl key) refl

pub lookup-insert-other :
    {V : Type 0} (key at : Text) (value : V) (d : Dict V)
    → key ≢ at
    → lookup key (insert at value d) ≡ lookup key d
lookup-insert-other key at value d apart =
    let other : (key == at) ≡ false = ground arith in rw (lookup-insert key at value d, other) refl

module _ {R : Type 0} ⦃r : Real R⦄ (ids : RecordIds) (now : ℕ) (commits : Text → Bool)
    (quotes : Dict (ForexQuote R)) where
  -- One position's part of the round: nothing, or the three tables with its exit.
  unfoldable pub Steps : PaperPosition R → Repository R → Repository R → Type 0
  Steps p repo repo' =
      (repo' ≡ repo)
      ⊎ ((reason : ExitReason) × (time : ℕ) × (order : PaperOrder) × (shut : PaperPosition R)
          × (decision : ForexDecisionLifecycle R) × (repo'.orders
              ≡ insert (ids.paper_exit_intent p.position_id reason time) order repo.orders)
          × (repo'.positions ≡ insert p.position_id shut repo.positions)
          × (repo'.decisions ≡ update_decision p.decision_id decision repo.decisions))

  Steps-refl : (p : PaperPosition R) (repo : Repository R) → Steps p repo repo
  unfolding Steps
  Steps-refl p repo = inl refl

  close_at-Steps :
      (p : PaperPosition R) (q : ForexQuote R) (reason : ExitReason) (price : R)
      (decision : ForexDecisionLifecycle R) (repo : Repository R)
      (c : ForexPositionManagementResult)
      → commits p.position_id ≡ true
      → is_some (lookup p.position_id repo.positions) ≡ true
      → let (repo', c', going) =
          after_close ids now commits repo c reason
            (close_at ids now commits p q reason price decision repo) in
        Steps p repo repo' × (going ≡ true)
  unfolding Steps persist_paper_close
  close_at-Steps p q reason price decision repo c ok found =
      let intent = ids.paper_exit_intent p.position_id reason q.timestamp in
      elim (Bool-cases (is_some (lookup intent repo.orders))) [
        | inl there ↦ rw (persist_paper_close, ok, there) (inl refl, refl)
        | inr new ↦
            rw (persist_paper_close, ok, new, found)
              (
                inr (
                  reason,
                  q.timestamp,
                  record {
                    order_id = ids.paper_exit_order intent;
                    symbol = p.symbol;
                    side = opposite p.side;
                  },
                  record (closed_position ids now p reason price) { quantity = real 0 },
                  record_stage now position_closed (some (exit_filled reason)) decision,
                  refl,
                  refl,
                  refl,
                ),
                refl,
              )
      ]

  pub manage_position-Steps :
      (p : PaperPosition R) (repo : Repository R) (c : ForexPositionManagementResult)
      → commits p.position_id ≡ true
      → is_some (lookup p.position_id repo.positions) ≡ true
      → let (repo', c', going) = manage_position ids now commits quotes p repo c in
        Steps p repo repo' × (going ≡ true)
  unfolding manage_position
  manage_position-Steps p repo c ok found = elim (Option-cases (lookup p.symbol quotes)) [
    | inl e ↦ rw (manage_position, e) (Steps-refl p repo, refl)
    | inr (q, e) ↦ elim (Option-cases (exit_for_position p q)) [
      | inl stays ↦ rw (manage_position, e, stays) (Steps-refl p repo, refl)
      | inr ((reason, price), leaves) ↦
          elim (Bool-cases (p.decision_id == 0 || p.position_id == 0)) [
            | inl blank ↦ rw (manage_position, e, leaves, blank) (Steps-refl p repo, refl)
            | inr named ↦ elim (Option-cases (lookup p.decision_id repo.decisions)) [
              | inl lost ↦ rw (manage_position, e, leaves, named, lost) (Steps-refl p repo, refl)
              | inr (decision, d) ↦
                  rw (manage_position, e, leaves, named, d)
                    (close_at-Steps p q reason price decision repo c ok found)
            ]
          ]
    ]
  ]
