-- ===== src/Lifecycle/History.antt =====
-- Sequences of operations on the ledger, and what one operation changes.
use delta_quant.Prelude.{
  ℕ, ◌+◌, ◌⊎◌, ◌≤◌, ◌<◌, ◌≡◌, refl, ◌∙◌, inl, inr, false, none, some, List, [], ◌∷◌, ◌==◌, arith,
  Text, Option-cases, Bool-cases,
}
use delta_quant.Prelude.Real.{Real}
use delta_quant.Lifecycle.{
  closed, partial, intent, pending, Trade, Event, Store, Result, ok, err, Intent, EntryFill,
  ExitFill, get, with_key, commit, opened, same_status, is_open,
}
use delta_quant.Lifecycle.Operations.{
  entered, added, exited, create_intent, mark_open, record_add, record_exit, mark_rejected,
  mark_finalized, intended_trade,
}

-- An operation with its arguments.
pub data Op (R : Type 0) : Type 0 where
  creating : Intent R → Op R
  opening : Text → EntryFill R → Op R
  adding : Text → EntryFill R → Op R
  exiting : Text → ExitFill R → Op R
  rejecting : Text → Text → Op R
  finalizing : Text → Op R

module _ {R : Type 0} where
  -- The ledger after an operation; one that raises is rolled back.
  abbrev after : {A : Type 0} → Store R → Result (Store R × A) → Store R
  after s (ok (s', a)) = s'
  after s (err e) = s

  abbrev after_unit : Store R → Result (Store R) → Store R
  after_unit s (ok s') = s'
  after_unit s (err e) = s

module _ {R : Type 0} ⦃r : Real R⦄ where
  unfoldable pub apply : ℕ → Op R → Store R → Store R
  unfolding create_intent mark_open record_add record_exit mark_rejected mark_finalized
  apply now (creating i) s = after s (create_intent now i s)
  apply now (opening id f) s = after_unit s (mark_open now id f s)
  apply now (adding id f) s = after_unit s (record_add now id f s)
  apply now (exiting id f) s = after s (record_exit now id f s)
  apply now (rejecting id reason) s = mark_rejected now id reason s
  apply now (finalizing id) s = after s (mark_finalized now id s)

  unfoldable pub run : List (ℕ × Op R) → Store R → Store R
  unfolding apply
  run [] s = s
  run ((now, op) ∷ ops) s = run ops (apply now op s)

module _ {R : Type 0} where
  -- A trade's row agrees with its status: nothing is left of a closed trade and its closing time is
  -- set, something is left of one that is closed in part, an intent holds nothing, and never is more
  -- left than was bought.
  pub record IsConsistent (t : Trade R) : Type 0 where
    pub within : t.remaining_quantity ≤ t.original_quantity
    pub nothing_left :
        t.status ≡ closed → (t.remaining_quantity ≡ 0) × (pending t.closed_at ≡ false)
    pub something_left : t.status ≡ partial → 0 < t.remaining_quantity
    pub not_entered : t.status ≡ intent → t.remaining_quantity ≡ 0

  -- What never changes of a trade: who it is, and that it is finalised once it is.
  pub record Continues (t t' : Trade R) : Type 0 where
    pub same_trade : t'.trade_id ≡ t.trade_id
    pub same_key : t'.idempotency_key ≡ t.idempotency_key
    pub same_symbol : t'.symbol ≡ t.symbol
    pub same_side : t'.side ≡ t.side
    pub stays_consistent : IsConsistent t → IsConsistent t'
    pub stays_final : (time : ℕ) → t.finalized_at ≡ some time → t'.finalized_at ≡ some time

  pub Continues-refl : (t : Trade R) → Continues t t
  Continues-refl t = record {
    same_trade = refl;
    same_key = refl;
    same_symbol = refl;
    same_side = refl;
    stays_consistent = λ h. h;
    stays_final = λ time e. e;
  }

  pub Continues-trans : {a b c : Trade R} → Continues a b → Continues b c → Continues a c
  Continues-trans h k = record {
    same_trade = k.same_trade ∙ h.same_trade;
    same_key = k.same_key ∙ h.same_key;
    same_symbol = k.same_symbol ∙ h.same_symbol;
    same_side = k.same_side ∙ h.same_side;
    stays_consistent = λ c. k.stays_consistent (h.stays_consistent c);
    stays_final = λ time e. k.stays_final time (h.stays_final time e);
  }

  -- How an operation changes the ledger: not at all, or one row, which it continues if it was there.
  abbrev pub Changes : Store R → Store R → Type 0
  Changes s s' =
      (s' ≡ s)
      ⊎ ((at : Text) × (u : Trade R) × (e : Event R) × (s' ≡ commit at u e s)
          × ((x : Trade R) → get at s ≡ some x → Continues x u)
          × (get at s ≡ none → IsConsistent u))

  commit-Changes :
      (at : Text) (x u : Trade R) (e : Event R) (s : Store R)
      → get at s ≡ some x
      → Continues x u
      → Changes s (commit at u e s)
  commit-Changes at x u e s there cont = inr (
    at,
    u,
    e,
    refl,
    λ y same. let one : x ≡ y = ground arith in rw one at cont,
    λ gone. absurd (ground arith),
  )

module _ {R : Type 0} ⦃r : Real R⦄ (now : ℕ) (s : Store R) where
  create_intent-Changes : (i : Intent R) → Changes s (apply now (creating i) s)
  unfolding apply create_intent
  create_intent-Changes i = elim (Bool-cases (i.quantity == 0)) [
    | inl empty ↦ rw empty (inl refl)
    | inr some_quantity ↦ elim (Option-cases (with_key i.idempotency_key s.trades)) [
      | inr (x, known) ↦ rw (some_quantity, known) (inl refl)
      | inl fresh ↦ elim (Option-cases (get i.trade_id s)) [
        | inr (x, taken) ↦ rw (some_quantity, fresh, taken) (inl refl)
        | inl free ↦
            rw (some_quantity, fresh, free)
              (inr (
                i.trade_id,
                intended_trade now i,
                _,
                refl,
                λ x taken. absurd (ground arith),
                λ gone. ground arith,
              ))
      ]
    ]
  ]

  mark_open-Changes : (at : Text) (f : EntryFill R) → Changes s (apply now (opening at f) s)
  unfolding apply mark_open
  mark_open-Changes at f = elim (Option-cases (get at s)) [
    | inl miss ↦ rw (miss, mark_open) (inl refl)
    | inr (x, there) ↦ elim (Bool-cases (same_status x.status opened)) [
      | inl done ↦ rw (there, mark_open, done) (inl refl)
      | inr fresh ↦
          rw (there, mark_open, fresh)
            (commit-Changes at x (entered now f x) _ s there (ground arith))
    ]
  ]

  record_add-Changes : (at : Text) (f : EntryFill R) → Changes s (apply now (adding at f) s)
  unfolding apply record_add
  record_add-Changes at f = elim (Option-cases (get at s)) [
    | inl miss ↦ rw (miss, record_add) (inl refl)
    | inr (x, there) ↦ elim (Bool-cases (is_open x.status)) [
      | inr over ↦ rw (there, record_add, over) (inl refl)
      | inl live ↦ elim (Bool-cases (x.remaining_quantity + f.quantity == 0)) [
        | inl empty ↦ rw (there, record_add, live, empty) (inl refl)
        | inr many ↦
            rw (there, record_add, live, many)
              (commit-Changes at x (added now f x) _ s there (ground arith))
      ]
    ]
  ]

  record_exit-Changes : (at : Text) (f : ExitFill R) → Changes s (apply now (exiting at f) s)
  unfolding apply record_exit
  record_exit-Changes at f = elim (Option-cases (get at s)) [
    | inl miss ↦ rw (miss, record_exit) (inl refl)
    | inr (x, there) ↦ elim (Bool-cases (same_status x.status closed)) [
      | inl done ↦ rw (there, record_exit, done) (inl refl)
      | inr live ↦
          rw (there, record_exit, live)
            (commit-Changes at x (exited now f x) _ s there (ground arith))
    ]
  ]

  mark_rejected-Changes : (at reason : Text) → Changes s (apply now (rejecting at reason) s)
  unfolding apply mark_rejected
  mark_rejected-Changes at reason = elim (Option-cases (get at s)) [
    | inl miss ↦ rw (miss, mark_rejected) (inl refl)
    | inr (x, there) ↦ rw (there, mark_rejected) (commit-Changes at x _ _ s there (ground arith))
  ]

  mark_finalized-Changes : (at : Text) → Changes s (apply now (finalizing at) s)
  unfolding apply mark_finalized
  mark_finalized-Changes at = elim (Option-cases (get at s)) [
    | inl miss ↦ rw (miss, mark_finalized) (inl refl)
    | inr (x, there) ↦ elim (Option-cases x.finalized_at) [
      | inr (time, final) ↦ rw (there, mark_finalized, final) (inl refl)
      | inl fresh ↦
          rw (there, mark_finalized, fresh) (commit-Changes at x _ _ s there (ground arith))
    ]
  ]

module _ {R : Type 0} ⦃r : Real R⦄ where
  pub apply-Changes : (now : ℕ) (op : Op R) (s : Store R) → Changes s (apply now op s)
  apply-Changes now (creating i) s = create_intent-Changes now s i
  apply-Changes now (opening at f) s = mark_open-Changes now s at f
  apply-Changes now (adding at f) s = record_add-Changes now s at f
  apply-Changes now (exiting at f) s = record_exit-Changes now s at f
  apply-Changes now (rejecting at reason) s = mark_rejected-Changes now s at reason
  apply-Changes now (finalizing at) s = mark_finalized-Changes now s at
