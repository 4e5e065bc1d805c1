-- ===== src/Service/Gate.antt =====
-- What it takes for an order to reach the broker.
use delta_quant.Prelude.{
  ℕ, ◌≡◌, ◌≢◌, refl, inl, inr, true, false, none, arith, Option-cases, Bool-cases, Text,
}
use delta_quant.Prelude.Real.{Real}
use delta_quant.Paper.{Engine}
use delta_quant.Paper.Screen.{Request}
use delta_quant.Paper.Place.{Reply, placed, value_error, place_order}
use delta_quant.Service.{
  ExecutionMode, local_paper, shadow, dhan_paper, live, is_paper_mode, Gates,
  resolve_effective_execution_mode, ExecutionResult,
}
use delta_quant.Service.Keys.{seen}
use delta_quant.Service.Submit.{
  Service, Outside, guard, fill_paper, submit_async, record_if_filled, settled_paper, paper_result,
}

live_needs_gates :
    (m : ExecutionMode) (g : Gates)
    → is_paper_mode (resolve_effective_execution_mode m g) ≡ false
    → (m ≡ live)
      × (g.allow_live_orders ≡ true)
      × (g.trading_mode_live ≡ true)
      × (g.has_dhan_credentials ≡ true)
unfolding resolve_effective_execution_mode
live_needs_gates local_paper g h = cc
live_needs_gates shadow g h = cc
live_needs_gates dhan_paper g h = cc
live_needs_gates live g h = ground arith

module _ {R : Type 0} ⦃r : Real R⦄ (client_id : Text → Text) (limit : ℕ) where
  record_if_filled-sent :
      (o : Outside R) (key : Text) (result : ExecutionResult R) (s : Service R)
      → (record_if_filled client_id limit o key result s).sent ≡ s.sent
  unfolding record_if_filled
  record_if_filled-sent o key result s = ground arith

  settled_paper-sent :
      (o : Outside R) (q : Request R) (s : Service R) (out : Engine R × Reply R)
      → (settled_paper client_id limit o q s out).0.sent ≡ s.sent
  settled_paper-sent o q s (e, placed order) =
      record_if_filled-sent o q.idempotency_key (paper_result client_id limit s q order)
        (record s { engine = e })
  settled_paper-sent o q s (e, value_error) = refl

  -- What a broker order goes through.
  pub record Passed (s : Service R) (q : Request R) (o : Outside R) : Type 0 where
    pub not_paper : is_paper_mode s.effective_mode ≡ false
    pub connected : s.has_executor ≡ true
    pub not_killed : o.kill ≡ false
    pub not_seen : seen o.reads q.idempotency_key s.keys ≡ none

  submit_async-Passed :
      (s : Service R) (q : Request R) (o : Outside R)
      → (submit_async client_id limit s q o).0.sent ≢ s.sent
      → Passed s q o
  unfolding submit_async guard fill_paper
  submit_async-Passed s q o h = elim (Option-cases (seen o.reads q.idempotency_key s.keys)) [
    | inr (prior, known) ↦ absurd (h (rw (known, submit_async, guard) refl))
    | inl fresh ↦ elim (Bool-cases o.kill) [
      | inl killed ↦ absurd (h (rw (fresh, killed, submit_async, guard) refl))
      | inr running ↦ elim (Bool-cases (is_paper_mode s.effective_mode)) [
        | inl paper ↦ absurd (
            h (
              rw (fresh, running, submit_async, guard, paper)
                (settled_paper-sent o q s (place_order s.engine q o.context))))
        | inr real_mode ↦ elim (Bool-cases s.has_executor) [
          | inr alone ↦ absurd (h (rw (fresh, running, submit_async, guard, real_mode, alone) refl))
          | inl there ↦ record {
            not_paper = real_mode;
            connected = there;
            not_killed = running;
            not_seen = fresh;
          }
        ]
      ]
    ]
  ]

  -- An order goes to the broker only if live was requested with all three gates (live orders allowed,
  -- the trading mode live, the credentials present), an executor is attached, the kill switch is off
  -- and the store does not show the key; for a service whose mode was resolved from that request.
  pub submit_async_gated :
      (m : ExecutionMode) (g : Gates) (s : Service R) (q : Request R) (o : Outside R)
      → s.effective_mode ≡ resolve_effective_execution_mode m g
      → (submit_async client_id limit s q o).0.sent ≢ s.sent
      → ((m ≡ live)
          × (g.allow_live_orders ≡ true)
          × (g.trading_mode_live ≡ true)
          × (g.has_dhan_credentials ≡ true))
        × Passed s q o
  submit_async_gated m g s q o resolved h =
      let passed = submit_async-Passed s q o h in
      (live_needs_gates m g (rw resolved at (passed.not_paper)), passed)
