-- ===== src/Forex/Once.antt =====
-- A candidate opens one position at most.
use delta_quant.Prelude.{
  Bool, ℕ, ◌≡◌, refl, inl, inr, true, false, ◌||◌, List, [], ◌∷◌, ◌==◌, is_some, Text, Option-cases,
  Bool-cases, ==_refl,
}
use delta_quant.Prelude.Dict.{Dict, lookup, lookup-insert}
use delta_quant.Prelude.Real.{Real}
use delta_quant.Forex.{
  ForexDecisionLifecycle, PaperPosition, Repository, ExitReason, persist_decision,
  persist_paper_fill, persist_paper_close, load_open_positions,
}
use delta_quant.Forex.Manage.{
  RecordIds, ForexQuote, ForexPositionManagementResult, create_local_paper_position,
  exit_for_position, close_at, after_close, manage_position, manage_all, manage,
}
use delta_quant.Forex.Steps.{is_some-insert}

-- What happens to the tables between two signals.
pub data Happening (R : Type 0) : Type 0 where
  creating : ForexDecisionLifecycle R → R → Happening R
  managing : (Text → Bool) → Dict (ForexQuote R) → Happening R

module _ {R : Type 0} ⦃r : Real R⦄ (ids : RecordIds) where
  unfoldable pub happen : ℕ → Happening R → Repository R → Repository R
  unfolding create_local_paper_position manage
  happen now (creating d quantity) repo = (create_local_paper_position ids now d quantity repo).0
  happen now (managing commits quotes) repo = (manage ids now commits quotes repo).0

  unfoldable pub happen_all : List (ℕ × Happening R) → Repository R → Repository R
  unfolding happen
  happen_all [] repo = repo
  happen_all ((now, h) ∷ hs) repo = happen_all hs (happen now h repo)

  module _ (intent : Text) where
    -- The intent has its order.
    abbrev Ordered : Repository R → Type 0
    Ordered repo = is_some (lookup intent repo.orders) ≡ true

    create-Ordered :
        (now : ℕ) (d : ForexDecisionLifecycle R) (quantity : R) (repo : Repository R)
        → Ordered repo
        → Ordered (create_local_paper_position ids now d quantity repo).0
    unfolding create_local_paper_position persist_decision persist_paper_fill
    create-Ordered now d quantity repo h =
        let own = ids.paper_intent d.candidate_id in
        elim (Bool-cases (is_some (lookup own repo.orders))) [
          | inl there ↦ rw (create_local_paper_position, persist_paper_fill, there) h
          | inr new ↦
              rw (create_local_paper_position, persist_paper_fill, new)
                (is_some-insert intent own _ repo.orders h)
        ]

    close_at-Ordered :
        (now : ℕ) (commits : Text → Bool) (p : PaperPosition R) (q : ForexQuote R)
        (reason : ExitReason) (price : R) (decision : ForexDecisionLifecycle R)
        (repo : Repository R) (c : ForexPositionManagementResult)
        → Ordered repo
        → Ordered
            (after_close ids now commits repo c reason
              (close_at ids now commits p q reason price decision repo)).0
    unfolding persist_paper_close
    close_at-Ordered now commits p q reason price decision repo c h =
        let own = ids.paper_exit_intent p.position_id reason q.timestamp in
        elim (Bool-cases (is_some (lookup own repo.orders))) [
          | inl there ↦ elim (Bool-cases (commits p.position_id)) [
            | inr fails ↦ rw (persist_paper_close, fails) h
            | inl ok ↦ rw (persist_paper_close, ok, there) h
          ]
          | inr new ↦ elim (Bool-cases (commits p.position_id)) [
            | inr fails ↦ rw (persist_paper_close, fails) h
            | inl ok ↦ elim (Bool-cases (is_some (lookup p.position_id repo.positions))) [
              | inr gone ↦ rw (persist_paper_close, ok, new, gone) h
              | inl found ↦
                  rw (persist_paper_close, ok, new, found)
                    (is_some-insert intent own _ repo.orders h)
            ]
          ]
        ]

    manage_position-Ordered :
        (now : ℕ) (commits : Text → Bool) (quotes : Dict (ForexQuote R)) (p : PaperPosition R)
        (repo : Repository R) (c : ForexPositionManagementResult)
        → Ordered repo
        → Ordered (manage_position ids now commits quotes p repo c).0
    unfolding manage_position
    manage_position-Ordered now commits quotes p repo c h =
        elim (Option-cases (lookup p.symbol quotes)) [
          | inl e ↦ rw (manage_position, e) h
          | inr (q, e) ↦ elim (Option-cases (exit_for_position p q)) [
            | inl stays ↦ rw (manage_position, e, stays) h
            | inr ((reason, price), leaves) ↦
                elim (Bool-cases (p.decision_id == 0 || p.position_id == 0)) [
                  | inl blank ↦ rw (manage_position, e, leaves, blank) h
                  | inr named ↦ elim (Option-cases (lookup p.decision_id repo.decisions)) [
                    | inl lost ↦ rw (manage_position, e, leaves, named, lost) h
                    | inr (decision, found) ↦
                        rw (manage_position, e, leaves, named, found)
                          (close_at-Ordered now commits p q reason price decision repo c h)
                  ]
                ]
          ]
        ]

    manage_all-Ordered :
        (now : ℕ) (commits : Text → Bool) (quotes : Dict (ForexQuote R))
        (ps : List (PaperPosition R)) (repo : Repository R) (c : ForexPositionManagementResult)
        → Ordered repo
        → Ordered (manage_all ids now commits quotes ps repo c).0
    unfolding manage_all
    manage_all-Ordered now commits quotes [] repo c h = h
    manage_all-Ordered now commits quotes (p ∷ ps) repo c h =
        let out = manage_position ids now commits quotes p repo c in
        let next = manage_position-Ordered now commits quotes p repo c h in
        elim (Bool-cases out.2) [
          | inl going ↦
              rw (manage_all, going) (manage_all-Ordered now commits quotes ps out.0 out.1 next)
          | inr raised ↦ rw (manage_all, raised) next
        ]

    happen_all-Ordered :
        (hs : List (ℕ × Happening R)) (repo : Repository R)
        → Ordered repo
        → Ordered (happen_all hs repo)
    unfolding happen_all happen manage
    happen_all-Ordered [] repo h = h
    happen_all-Ordered ((now, creating d quantity) ∷ hs) repo h =
        happen_all-Ordered hs (create_local_paper_position ids now d quantity repo).0
          (create-Ordered now d quantity repo h)
    happen_all-Ordered ((now, managing commits quotes) ∷ hs) repo h =
        happen_all-Ordered hs (manage ids now commits quotes repo).0
          (manage_all-Ordered now commits quotes (load_open_positions repo) repo _ h)

  create_local_paper_position-Ordered :
      (now : ℕ) (d : ForexDecisionLifecycle R) (quantity : R) (repo : Repository R)
      → Ordered
          (ids.paper_intent d.candidate_id)
          (create_local_paper_position ids now d quantity repo).0
  unfolding create_local_paper_position persist_decision persist_paper_fill
  create_local_paper_position-Ordered now d quantity repo =
      let own = ids.paper_intent d.candidate_id in
      elim (Bool-cases (is_some (lookup own repo.orders))) [
        | inl there ↦ rw (create_local_paper_position, persist_paper_fill, there) there
        | inr new ↦
            rw (create_local_paper_position, persist_paper_fill, new)
              (rw (lookup-insert own own _ repo.orders, ==_refl own) refl)
      ]

  -- A candidate is traded once: whatever rounds of exits and other candidates come after a position was
  -- asked for, asking for it again, with any size and at any time, even after the position was closed,
  -- answers that none was created and leaves the orders and the positions as they are.
  pub create_local_paper_position_once :
      (now later : ℕ) (d d' : ForexDecisionLifecycle R) (quantity quantity' : R)
      (repo : Repository R) (hs : List (ℕ × Happening R))
      → d'.candidate_id ≡ d.candidate_id
      → let before = happen_all hs (create_local_paper_position ids now d quantity repo).0 in
        let (after, created) = create_local_paper_position ids later d' quantity' before in
        (created ≡ false) × (after.orders ≡ before.orders) × (after.positions ≡ before.positions)
  unfolding create_local_paper_position persist_decision persist_paper_fill
  create_local_paper_position_once now later d d' quantity quantity' repo hs same =
      let first = (create_local_paper_position ids now d quantity repo).0 in
      let before = happen_all hs first in
      let there : is_some (lookup (ids.paper_intent d'.candidate_id) before.orders) ≡ true =
        rw same (
          happen_all-Ordered (ids.paper_intent d.candidate_id) hs first
            (create_local_paper_position-Ordered now d quantity repo)) in
      rw (create_local_paper_position, persist_paper_fill, there) (refl, refl, refl)
