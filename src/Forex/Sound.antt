-- ===== src/Forex/Sound.antt =====
-- What a round of exits does to the positions.
use delta_quant.Prelude.{
  Bool, ℕ, ◌≡◌, ◌⊎◌, refl, ◌∙◌, inl, inr, true, ◌||◌, some, List, [], ◌∷◌, ◌==◌, is_some, Text, All,
  select, Option-cases, Bool-cases, ==_iff,
}
use delta_quant.Prelude.Dict.{Dict, lookup, insert, lookup-insert}
use delta_quant.Prelude.Real.{Real, real}
use delta_quant.Forex.{
  PaperPosition, Repository, ExitReason, is_open_position, rows, load_open_positions,
  persist_paper_close, ForexDecisionLifecycle,
}
use delta_quant.Forex.Manage.{
  RecordIds, ForexQuote, ForexPositionManagementResult, exit_for_position, closed_position,
  close_at, after_close, manage_position, manage_all, manage,
}

module _ {R : Type 0} where
  -- Each row stands under its own id, and is the one that a query by the id finds.
  abbrev pub IsTable : Dict (PaperPosition R) → Type 0
  IsTable positions =
      All (λ (e : ℕ × PaperPosition R). lookup e.1.position_id positions ≡ some e.1) positions

  -- An open row of the table.
  abbrev pub IsRow : Dict (PaperPosition R) → PaperPosition R → Type 0
  IsRow positions p = (lookup p.position_id positions ≡ some p) × (is_open_position p ≡ true)

  pub load-IsRow :
      (table left : Dict (PaperPosition R))
      → All (λ (e : ℕ × PaperPosition R). lookup e.1.position_id table ≡ some e.1) left
      → All (IsRow table) (select is_open_position (rows left))
  load-IsRow table [] all = tt
  load-IsRow table ((id, p) ∷ left) (found, all) = elim (Bool-cases (is_open_position p)) [
    | inl here ↦ rw here ((found, here), load-IsRow table left all)
    | inr closed ↦ rw closed (load-IsRow table left all)
  ]

module _ {R : Type 0} ⦃r : Real R⦄ (ids : RecordIds) (now : ℕ) (commits : Text → Bool)
    (quotes : Dict (ForexQuote R)) where
  -- The position was open, the quote of its symbol has reached its stop or its target, and the row is
  -- now closed at the side of the quote that the exit trades on.
  abbrev pub WasExited : Text → Dict (PaperPosition R) → Dict (PaperPosition R) → Type 0
  WasExited id before after =
      (p : PaperPosition R) × (q : ForexQuote R) × (reason : ExitReason) × (price : R) × (lookup id
          before
        ≡ some p)
      × (is_open_position p ≡ true)
      × (lookup p.symbol quotes ≡ some q)
      × (exit_for_position p q ≡ some (reason, price))
      × (lookup id after
          ≡ some (record (closed_position ids now p reason price) { quantity = real 0 }))

  abbrev pub StaysOrExits : Dict (PaperPosition R) → Dict (PaperPosition R) → Type 0
  StaysOrExits before after =
      (id : Text) → (lookup id after ≡ lookup id before) ⊎ WasExited id before after

  insert-StaysOrExits :
      (start : Dict (PaperPosition R)) (p : PaperPosition R) (q : ForexQuote R)
      (reason : ExitReason) (price : R) (current : Dict (PaperPosition R))
      → IsRow start p
      → lookup p.symbol quotes ≡ some q
      → exit_for_position p q ≡ some (reason, price)
      → StaysOrExits start current
      → StaysOrExits start (
          insert p.position_id
            (record (closed_position ids now p reason price) { quantity = real 0 })
            current)
  insert-StaysOrExits start p q reason price current (row, opened) quoted leaves before id =
      let shut : PaperPosition R = record (closed_position ids now p reason price) {
        quantity = real 0;
      } in
      let at = lookup-insert id p.position_id shut current in
      elim (Bool-cases (id == p.position_id)) [
        | inl same ↦
            let one : id ≡ p.position_id = (==_iff id p.position_id).0 same in
            inr (p, q, reason, price, rw one row, opened, quoted, leaves, rw same at at)
        | inr other ↦
            let kept = rw other at at in
            elim (before id) [
              | inl stays ↦ inl (kept ∙ stays)
              | inr (p', q', reason', price', was, opened', quoted', leaves', now_closed) ↦
                  inr (p', q', reason', price', was, opened', quoted', leaves', kept ∙ now_closed)
            ]
      ]

  close_at-StaysOrExits :
      (start : Dict (PaperPosition R)) (p : PaperPosition R) (q : ForexQuote R)
      (reason : ExitReason) (price : R) (decision : ForexDecisionLifecycle R) (repo : Repository R)
      (c : ForexPositionManagementResult)
      → IsRow start p
      → lookup p.symbol quotes ≡ some q
      → exit_for_position p q ≡ some (reason, price)
      → StaysOrExits start repo.positions
      → StaysOrExits start
          (after_close ids now commits repo c reason
            (close_at ids now commits p q reason price decision repo)).0.positions
  unfolding persist_paper_close
  close_at-StaysOrExits start p q reason price decision repo c row quoted leaves before =
      let intent = ids.paper_exit_intent p.position_id reason q.timestamp in
      elim (Bool-cases (commits p.position_id)) [
        | inr fails ↦ rw (persist_paper_close, fails) before
        | inl ok ↦ elim (Bool-cases (is_some (lookup intent repo.orders))) [
          | inl there ↦ rw (persist_paper_close, ok, there) before
          | inr new ↦ elim (Bool-cases (is_some (lookup p.position_id repo.positions))) [
            | inr gone ↦ rw (persist_paper_close, ok, new, gone) before
            | inl found ↦
                rw (persist_paper_close, ok, new, found)
                  (insert-StaysOrExits start p q reason price repo.positions row quoted leaves
                    before)
          ]
        ]
      ]

  manage_position-StaysOrExits :
      (start : Dict (PaperPosition R)) (p : PaperPosition R) (repo : Repository R)
      (c : ForexPositionManagementResult)
      → IsRow start p
      → StaysOrExits start repo.positions
      → StaysOrExits start (manage_position ids now commits quotes p repo c).0.positions
  unfolding manage_position
  manage_position-StaysOrExits start p repo c row before =
      elim (Option-cases (lookup p.symbol quotes)) [
        | inl e ↦ rw (manage_position, e) before
        | inr (q, e) ↦ elim (Option-cases (exit_for_position p q)) [
          | inl stays ↦ rw (manage_position, e, stays) before
          | inr ((reason, price), leaves) ↦
              elim (Bool-cases (p.decision_id == 0 || p.position_id == 0)) [
                | inl blank ↦ rw (manage_position, e, leaves, blank) before
                | inr named ↦ elim (Option-cases (lookup p.decision_id repo.decisions)) [
                  | inl lost ↦ rw (manage_position, e, leaves, named, lost) before
                  | inr (decision, found) ↦
                      rw (manage_position, e, leaves, named, found)
                        (close_at-StaysOrExits start p q reason price decision repo c row e leaves
                          before)
                ]
              ]
        ]
      ]

  manage_all-StaysOrExits :
      (start : Dict (PaperPosition R)) (ps : List (PaperPosition R)) (repo : Repository R)
      (c : ForexPositionManagementResult)
      → All (IsRow start) ps
      → StaysOrExits start repo.positions
      → StaysOrExits start (manage_all ids now commits quotes ps repo c).0.positions
  unfolding manage_all
  manage_all-StaysOrExits start [] repo c all before = before
  manage_all-StaysOrExits start (p ∷ ps) repo c (row, all) before =
      let out = manage_position ids now commits quotes p repo c in
      let next = manage_position-StaysOrExits start p repo c row before in
      elim (Bool-cases out.2) [
        | inl going ↦ rw (manage_all, going) (manage_all-StaysOrExits start ps out.0 out.1 all next)
        | inr raised ↦ rw (manage_all, raised) next
      ]

  -- A round of exits, whichever of its transactions fail, closes only what it should: a position of the table is afterwards the row it was,
  -- or it was open, the quote of its symbol had reached its stop or its target, and it is closed for
  -- that reason, at the bid for a long position and the ask for a short one, with nothing left of it. The
  -- rows stand under their own ids.
  pub manage-StaysOrExits :
      (repo : Repository R)
      → IsTable repo.positions
      → StaysOrExits repo.positions (manage ids now commits quotes repo).0.positions
  unfolding manage load_open_positions
  manage-StaysOrExits repo table =
      manage_all-StaysOrExits repo.positions (load_open_positions repo) repo _
        (load-IsRow repo.positions repo.positions table) (λ id. inl refl)
