-- ===== src/Forex/Exits.antt =====
-- A position whose quote has reached its stop or its target is closed in the round.
use delta_quant.Prelude.{
  ◌&&◌, ℕ, ◌≡◌, ◌≢◌, ◌⊎◌, refl, sym, subst, ◌∙◌, inl, inr, Bool, true, false, ◌||◌, none, some,
  List, [], ◌∷◌, ◌==◌, is_some, arith, Text, All, select, Option-cases, Bool-cases, ==_refl, ==_iff,
}
use delta_quant.Prelude.Dict.{Dict, lookup}
use delta_quant.Prelude.Real.{Real, real, ◌≺◌}
use delta_quant.Costs.{Side, buy, sell}
use delta_quant.Exits.Rules.{against, in_favour}
use delta_quant.Forex.{
  stop, target, PaperPosition, Repository, ExitReason, is_open_position, rows, load_open_positions,
  persist_paper_close,
}
use delta_quant.Forex.Manage.{
  RecordIds, ForexQuote, ForexPositionManagementResult, exit_for_position, closed_position,
  manage_position, manage_all, manage,
}
use delta_quant.Forex.Sound.{IsTable, IsRow, load-IsRow}
use delta_quant.Forex.Steps.{
  is_some-insert, lookup-insert-same, lookup-insert-other, Steps, manage_position-Steps,
}

module _ {R : Type 0} ⦃r : Real R⦄ (ids : RecordIds) (now : ℕ) (commits : Text → Bool)
    (quotes : Dict (ForexQuote R)) (start : Dict (PaperPosition R)) (p : PaperPosition R)
    (q : ForexQuote R) (reason : ExitReason) (price : R) where
  -- The position's exit can still be made, and is not made yet, or is.
  record Ready (repo : Repository R) : Type 0 where
    decided : is_some (lookup p.decision_id repo.decisions) ≡ true
    present :
        (id : Text) → is_some (lookup id start) ≡ true → is_some (lookup id repo.positions) ≡ true

  exit_intent : Text
  exit_intent = ids.paper_exit_intent p.position_id reason q.timestamp

  Waiting : Repository R → Type 0
  Waiting repo = lookup exit_intent repo.orders ≡ none

  Made : Repository R → Type 0
  Made repo =
      (is_some (lookup exit_intent repo.orders) ≡ true)
      × (lookup p.position_id repo.positions
          ≡ some (record (closed_position ids now p reason price) { quantity = real 0 }))

  Steps-Ready :
      (p' : PaperPosition R) (repo repo' : Repository R)
      → Steps ids now commits quotes p' repo repo'
      → Ready repo
      → Ready repo'
  unfolding Steps
  Steps-Ready p' repo repo' (inl same) h = subst Ready (sym same) h
  Steps-Ready p' repo repo' (inr (why, time, order, shut, decision, orders, positions, decisions))
        h =
      record {
        decided = rw decisions (elim (Bool-cases (is_some (lookup p'.decision_id repo.decisions))) [
          | inl known ↦
              rw known (is_some-insert p.decision_id p'.decision_id _ repo.decisions h.decided)
          | inr unknown ↦ rw unknown h.decided
        ]);
        present = λ id there.
            rw positions
              (is_some-insert id p'.position_id shut repo.positions (h.present id there));
      }

  -- Different positions have different exit intents.
  module _
      (apart_intents : (a b : Text) (s t : ExitReason) (m n : ℕ)
        → ids.paper_exit_intent a s m ≡ ids.paper_exit_intent b t n
        → a ≡ b)
      (safe : (id : Text) → commits id ≡ true) where
    Steps-Waiting :
        (p' : PaperPosition R) (repo repo' : Repository R)
        → p.position_id ≢ p'.position_id
        → Steps ids now commits quotes p' repo repo'
        → Waiting repo
        → Waiting repo'
    unfolding Steps Waiting exit_intent
    Steps-Waiting p' repo repo' other (inl same) h = subst Waiting (sym same) h
    Steps-Waiting p' repo repo' other
          (inr (why, time, order, shut, decision, orders, positions, decisions)) h =
        rw orders (
          lookup-insert-other exit_intent (ids.paper_exit_intent p'.position_id why time) order
            repo.orders
            (λ e. other (apart_intents p.position_id p'.position_id reason why q.timestamp time e))
          ∙ h)

    Steps-Made :
        (p' : PaperPosition R) (repo repo' : Repository R)
        → p.position_id ≢ p'.position_id
        → Steps ids now commits quotes p' repo repo'
        → Made repo
        → Made repo'
    unfolding Steps Made exit_intent
    Steps-Made p' repo repo' other (inl same) h = subst Made (sym same) h
    Steps-Made p' repo repo' other
          (inr (why, time, order, shut, decision, orders, positions, decisions)) (h, k) =
        (
          rw orders (
              is_some-insert exit_intent (ids.paper_exit_intent p'.position_id why time) order
                repo.orders h),
          rw positions
              (lookup-insert-other p.position_id p'.position_id shut repo.positions other ∙ k),
        )

    -- The position's own part of the round.
    own-Made :
        (repo : Repository R) (c : ForexPositionManagementResult)
        → lookup p.position_id start ≡ some p
        → lookup p.symbol quotes ≡ some q
        → exit_for_position p q ≡ some (reason, price)
        → (p.decision_id == 0 || p.position_id == 0) ≡ false
        → Ready repo
        → Waiting repo ⊎ Made repo
        → Made (manage_position ids now commits quotes p repo c).0
    unfolding Waiting Made exit_intent manage_position persist_paper_close
    own-Made repo c row e leaves named ready phase =
        let ok = safe p.position_id in
        elim (Option-cases (lookup p.decision_id repo.decisions)) [
          | inl lost ↦ let known = ready.decided in absurd (ground (arith, known))
          | inr (decision, d) ↦
              let found : is_some (lookup p.position_id repo.positions) ≡ true =
                ready.present p.position_id (rw row refl) in
              elim phase [
                | inl new ↦
                    rw (manage_position, e, leaves, named, d, persist_paper_close, ok, new, found)
                      (
                        rw (lookup-insert-same exit_intent _ repo.orders) refl,
                        lookup-insert-same p.position_id _ repo.positions,
                      )
                | inr (there, shut) ↦
                    rw (manage_position, e, leaves, named, d, persist_paper_close, ok, there)
                      (there, shut)
              ]
        ]

    -- A position of the list, by its id.
    abbrev among : List (PaperPosition R) → Bool
    among [] = false
    among (x ∷ xs) = x.position_id == p.position_id || among xs

    manage_position-Ready :
        (x : PaperPosition R) (repo : Repository R) (c : ForexPositionManagementResult)
        → IsRow start x
        → Ready repo
        → Ready (manage_position ids now commits quotes x repo c).0
          × ((manage_position ids now commits quotes x repo c).2 ≡ true)
    manage_position-Ready x repo c row ready =
        let found = ready.present x.position_id (rw (row.0) refl) in
        let (steps, going) =
          manage_position-Steps ids now commits quotes x repo c (safe x.position_id) found in
        (Steps-Ready x repo (manage_position ids now commits quotes x repo c).0 steps ready, going)

    -- Another position's part of the round keeps the phase of this one.
    other-Waiting :
        (x : PaperPosition R) (repo : Repository R) (c : ForexPositionManagementResult)
        → IsRow start x
        → p.position_id ≢ x.position_id
        → Ready repo
        → Waiting repo
        → Waiting (manage_position ids now commits quotes x repo c).0
    other-Waiting x repo c row other ready waiting =
        let found = ready.present x.position_id (rw (row.0) refl) in
        let (steps, going) =
          manage_position-Steps ids now commits quotes x repo c (safe x.position_id) found in
        Steps-Waiting x repo (manage_position ids now commits quotes x repo c).0 other steps waiting

    other-Made :
        (x : PaperPosition R) (repo : Repository R) (c : ForexPositionManagementResult)
        → IsRow start x
        → p.position_id ≢ x.position_id
        → Ready repo
        → Made repo
        → Made (manage_position ids now commits quotes x repo c).0
    other-Made x repo c row other ready made =
        let found = ready.present x.position_id (rw (row.0) refl) in
        let (steps, going) =
          manage_position-Steps ids now commits quotes x repo c (safe x.position_id) found in
        Steps-Made x repo (manage_position ids now commits quotes x repo c).0 other steps made

    module _ (row : lookup p.position_id start ≡ some p) (quoted : lookup p.symbol quotes ≡ some q)
        (leaves : exit_for_position p q ≡ some (reason, price))
        (named : (p.decision_id == 0 || p.position_id == 0) ≡ false) where
      same-Made :
          (x : PaperPosition R) (repo : Repository R) (c : ForexPositionManagementResult)
          → IsRow start x
          → x.position_id ≡ p.position_id
          → Ready repo
          → Waiting repo ⊎ Made repo
          → Made (manage_position ids now commits quotes x repo c).0
      same-Made x repo c (found, opened) same ready phase =
          let one : p ≡ x = ground (arith, row, found, same) in
          subst (λ y. Made (manage_position ids now commits quotes y repo c).0) one
            (own-Made repo c row quoted leaves named ready phase)

      -- The loop, by whether the position is still to come.
      manage_all-Made :
          (ps : List (PaperPosition R)) (repo : Repository R) (c : ForexPositionManagementResult)
          → All (IsRow start) ps
          → Ready repo
          → (Waiting repo × (among ps ≡ true)) ⊎ Made repo
          → Made (manage_all ids now commits quotes ps repo c).0
      unfolding manage_all
      manage_all-Made [] repo c rows ready (inl (waiting, here)) = cc
      manage_all-Made [] repo c rows ready (inr made) = made
      manage_all-Made (x ∷ ps) repo c (first, rows) ready phase =
          let out = manage_position ids now commits quotes x repo c in
          let (ready', going) = manage_position-Ready x repo c first ready in
          elim (Bool-cases (x.position_id == p.position_id)) [
            | inl same ↦
                let one : x.position_id ≡ p.position_id =
                  (==_iff x.position_id p.position_id).0 same in
                let phase' : Waiting repo ⊎ Made repo = elim phase [
                  | inl (w, here) ↦ inl w
                  | inr m ↦ inr m
                ] in
                rw (manage_all, going)
                  (manage_all-Made ps out.0 out.1 rows ready'
                    (inr (same-Made x repo c first one ready phase')))
            | inr other ↦
                let apart : p.position_id ≢ x.position_id = λ e. ground arith in
                rw (manage_all, going)
                  (manage_all-Made ps out.0 out.1 rows ready' (elim phase [
                    | inr made ↦ inr (other-Made x repo c first apart ready made)
                    | inl (waiting, here) ↦
                        inl (other-Waiting x repo c first apart ready waiting, rw other at here)
                  ]))
          ]

      among-load :
          (left : Dict (PaperPosition R)) (id : Text)
          → lookup id left ≡ some p
          → is_open_position p ≡ true
          → among (select is_open_position (rows left)) ≡ true
      among-load [] id h opened = cc
      among-load ((k, x) ∷ left) id h opened = elim (Bool-cases (id == k)) [
        | inl hit ↦ let one : x ≡ p = ground arith in rw (one, opened, ==_refl p.position_id) refl
        | inr past ↦
            let later = among-load left id (rw past at h) opened in
            elim (Bool-cases (is_open_position x)) [
              | inl here ↦ rw here (ground (arith, later))
              | inr closed ↦ rw closed later
            ]
      ]

-- The side of the quote that an exit of the position trades on.
abbrev pub exit_price : {R : Type 0} → Side → ForexQuote R → R
exit_price buy q = q.bid
exit_price sell q = q.ask

module _ {R : Type 0} ⦃r : Real R⦄ where
  abbrev pub at_stop : PaperPosition R → R → Bool
  at_stop p price = real 0 ≺ p.stop_price && against p.side price p.stop_price

  abbrev pub at_target : PaperPosition R → R → Bool
  at_target p price = real 0 ≺ p.target_price && in_favour p.side price p.target_price

  -- The quote has reached the stop, or the target and not the stop; a level of 0 is none.
  abbrev pub IsDue : PaperPosition R → ForexQuote R → ExitReason → Type 0
  IsDue p q stop = at_stop p (exit_price p.side q) ≡ true
  IsDue p q target =
      (at_stop p (exit_price p.side q) ≡ false) × (at_target p (exit_price p.side q) ≡ true)

  exit_for_position-IsDue :
      (p : PaperPosition R) (q : ForexQuote R) (reason : ExitReason)
      → IsDue p q reason
      → exit_for_position p q ≡ some (reason, exit_price p.side q)
  unfolding exit_for_position
  exit_for_position-IsDue p q stop due = ground arith
  exit_for_position-IsDue p q target due = ground arith

module _ {R : Type 0} ⦃r : Real R⦄ (ids : RecordIds)
    (apart_intents : (a b : Text) (s t : ExitReason) (m n : ℕ)
      → ids.paper_exit_intent a s m ≡ ids.paper_exit_intent b t n
      → a ≡ b) where
  -- A round of exits whose transactions all commit misses no exit: an open position whose quote has reached
  -- its stop or its target (for a long position the bid at or below the stop, or at or above the target; for
  -- a short one the ask, the other way round; a level of 0 is none, and the stop goes first) is closed after
  -- the round, at that price and for that reason, with nothing left of it, wherever it stands among the
  -- positions. Its ids are not empty, its decision is there, this exit was not ordered before, and different
  -- positions have different exit intents.
  pub manage_exits :
      (now : ℕ) (commits : Text → Bool) (quotes : Dict (ForexQuote R)) (repo : Repository R)
      (p : PaperPosition R) (q : ForexQuote R) (reason : ExitReason)
      → ((id : Text) → commits id ≡ true)
      → IsTable repo.positions
      → IsRow repo.positions p
      → lookup p.symbol quotes ≡ some q
      → IsDue p q reason
      → (p.decision_id == 0 || p.position_id == 0) ≡ false
      → is_some (lookup p.decision_id repo.decisions) ≡ true
      → lookup (ids.paper_exit_intent p.position_id reason q.timestamp) repo.orders ≡ none
      → lookup p.position_id (manage ids now commits quotes repo).0.positions
        ≡ some
            (record (closed_position ids now p reason (exit_price p.side q)) { quantity = real 0 })
  unfolding manage load_open_positions Waiting Made exit_intent
  manage_exits now commits quotes repo p q reason safe table (row, opened) quoted due named decided
        new =
      let start = repo.positions in
      let price = exit_price p.side q in
      let leaves = exit_for_position-IsDue p q reason due in
      (manage_all-Made ids now commits quotes start p q reason price apart_intents safe row quoted
        leaves named (load_open_positions repo) repo _ (load-IsRow start start table)
        (record { decided = decided; present = λ id h. h })
        (inl (
          new,
          among-load ids now commits quotes start p q reason price apart_intents safe row quoted
              leaves named start p.position_id row opened,
        ))).1
