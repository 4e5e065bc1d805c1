-- ===== src/Service/Unconfirmed.antt =====
-- A live order whose fill the broker does not confirm in time.
use mathlib.Core.Path.{ap₂}
use delta_quant.Prelude.{
  ℕ, zero, suc, ◌≡◌, refl, true, false, Option, none, some, List, [], ◌∷◌, ◌++◌, arith, Text,
}
use delta_quant.Prelude.Dict.{lookup}
use delta_quant.Prelude.Real.{Real}
use delta_quant.Paper.Screen.{Request}
use delta_quant.Service.{live, rejected, ExecutionResult, is_paper_mode}
use delta_quant.Service.Keys.{seen}
use delta_quant.Service.Broker.{
  placed, BrokerResult, is_terminal, poll_status, place_and_confirm, broker_request, live_result,
}
use delta_quant.Service.Submit.{
  Service, Outside, answered, guard, submit_live, submit_async, record_if_filled, routed,
}

module _ {R : Type 0} where
  -- No answer of the broker tells how the order ended.
  abbrev pub AllOpen : List (Option (BrokerResult R)) → Type 0
  AllOpen [] = Unit
  AllOpen (none ∷ answers) = AllOpen answers
  AllOpen (some answer ∷ answers) = (is_terminal answer.status ≡ false) × AllOpen answers

  poll_status-AllOpen :
      (attempts : ℕ) (answers : List (Option (BrokerResult R)))
      → AllOpen answers
      → poll_status attempts answers ≡ none
  unfolding poll_status
  poll_status-AllOpen zero answers h = refl
  poll_status-AllOpen (suc attempts) [] h = refl
  poll_status-AllOpen (suc attempts) (none ∷ answers) h = poll_status-AllOpen attempts answers h
  poll_status-AllOpen (suc attempts) (some answer ∷ answers) h =
      rw h.0 (poll_status-AllOpen attempts answers h.1)

  place_and_confirm-AllOpen :
      (attempts : ℕ) (first : BrokerResult R) (answers : List (Option (BrokerResult R)))
      → first.status ≡ placed
      → AllOpen answers
      → (place_and_confirm attempts first answers).status ≡ placed
  unfolding place_and_confirm
  place_and_confirm-AllOpen attempts first answers h open_still =
      ground (arith, poll_status-AllOpen attempts answers open_still)

module _ {R : Type 0} ⦃r : Real R⦄ (client_id : Text → Text) (limit : ℕ) where
  guard-passes :
      (s : Service R) (q : Request R) (o : Outside R)
      → lookup q.idempotency_key s.keys ≡ none
      → o.kill ≡ false
      → guard client_id limit s q o ≡ none
  unfolding guard seen
  guard-passes s q o fresh running = ground arith

  submit_async_live :
      (s : Service R) (q : Request R) (o : Outside R)
      → s.effective_mode ≡ live
      → s.has_executor ≡ true
      → lookup q.idempotency_key s.keys ≡ none
      → o.kill ≡ false
      → submit_async client_id limit s q o ≡ submit_live client_id limit s q o
  unfolding submit_async
  submit_async_live s q o mode there fresh running =
      rw (guard-passes s q o fresh running, submit_async)
        (ap₂ (λ a b. routed client_id limit (is_paper_mode a) b s q o) mode there)

  submit_live_unconfirmed :
      (s : Service R) (q : Request R) (o : Outside R)
      → o.first.status ≡ placed
      → AllOpen o.answers
      → let (s', answer) = submit_live client_id limit s q o in
        (s' ≡ record s { sent = s.sent ++ broker_request q ∷ [] })
        × ((result : ExecutionResult R) × (answer ≡ answered result) × (result.status ≡ rejected))
  unfolding submit_live record_if_filled live_result
  submit_live_unconfirmed s q o first open_still =
      let unknown = place_and_confirm-AllOpen s.poll_attempts o.first o.answers first open_still in
      (ground arith, (_, refl, ground arith))

  record_if_filled-sent :
      (o : Outside R) (key : Text) (result : ExecutionResult R) (s : Service R)
      → (record_if_filled client_id limit o key result s).sent ≡ s.sent
  unfolding record_if_filled
  record_if_filled-sent o key result s = ground arith

  -- A live order that the broker took and did not confirm within the polls is answered as rejected and
  -- leaves no key in the store, so that a repeat of the same key, with the kill switch off, sends a
  -- second order to the broker.
  pub unconfirmed_resubmits :
      (s : Service R) (q q' : Request R) (o o' : Outside R)
      → s.effective_mode ≡ live
      → s.has_executor ≡ true
      → lookup q.idempotency_key s.keys ≡ none
      → o.kill ≡ false
      → o'.kill ≡ false
      → o.first.status ≡ placed
      → AllOpen o.answers
      → q'.idempotency_key ≡ q.idempotency_key
      → let (s', answer) = submit_async client_id limit s q o in
        ((result : ExecutionResult R) × (answer ≡ answered result) × (result.status ≡ rejected))
        × ((submit_async client_id limit s' q' o').0.sent
            ≡ (s.sent ++ broker_request q ∷ []) ++ broker_request q' ∷ [])
  unfolding submit_live
  unconfirmed_resubmits s q q' o o' mode there fresh running running' first open_still same =
      let s' : Service R = record s { sent = s.sent ++ broker_request q ∷ [] } in
      let (left, refused) = submit_live_unconfirmed s q o first open_still in
      rw (submit_async_live s q o mode there fresh running) (
        refused,
        rw (left, submit_async_live s' q' o' mode there (rw same fresh) running')
            (record_if_filled-sent o' q'.idempotency_key _ _),
      )
