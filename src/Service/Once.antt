-- ===== src/Service/Once.antt =====
-- A key that was filled is answered from the store.
use delta_quant.Prelude.{
  ℕ, suc, ◌+◌, ◌<◌, ◌≡◌, ◌≢◌, ◌⊎◌, refl, inl, inr, Bool, true, false, none, some, List, [], ◌∷◌,
  arith, length, Option-cases, Bool-cases, Text,
}
use delta_quant.Prelude.Dict.{lookup}
use delta_quant.Prelude.Real.{Real}
use delta_quant.Paper.{Engine}
use delta_quant.Paper.Screen.{Request}
use delta_quant.Paper.Place.{Reply, placed, value_error, place_order}
use delta_quant.Service.{is_paper_mode, transacted, ExecutionResult}
use delta_quant.Service.Keys.{seen, record_key}
use delta_quant.Service.Recent.{
  Recent, Recent-lookup, Recent-suc, record_key-Recent, record_key_other-Recent,
}
use delta_quant.Service.Submit.{
  Service, Outside, Answer, answered, raised, guard, fill_paper, submit_live, submit_async,
  record_if_filled, settled_paper, paper_result, repeated, routed,
}

module _ {R : Type 0} ⦃r : Real R⦄ (client_id : Text → Text) (limit : ℕ) where
  -- The store's rows after a submission: as before, or with the answer's row.
  abbrev Keeps : Service R → Request R → Outside R → Service R → Type 0
  Keeps s q o s' =
      (s'.keys ≡ s.keys)
      ⊎ ((result : ExecutionResult R) × (s'.keys
            ≡ record_key limit o.writes o.trims q.idempotency_key result s.keys))

  record_if_filled-keys :
      (s s₀ : Service R) (q : Request R) (o : Outside R) (result : ExecutionResult R)
      → s₀.keys ≡ s.keys
      → Keeps s q o (record_if_filled client_id limit o q.idempotency_key result s₀)
  unfolding record_if_filled
  record_if_filled-keys s s₀ q o result same = elim (Bool-cases (transacted result.status)) [
    | inl done ↦ rw done (inr (result, rw same refl))
    | inr open_still ↦ rw open_still (inl same)
  ]

  settled_paper-keys :
      (s : Service R) (q : Request R) (o : Outside R) (out : Engine R × Reply R)
      → Keeps s q o (settled_paper client_id limit o q s out).0
  settled_paper-keys s q o (e, placed order) =
      record_if_filled-keys s (record s { engine = e }) q o (paper_result client_id limit s q order)
        refl
  settled_paper-keys s q o (e, value_error) = inl refl

  submit_live-keys :
      (s : Service R) (q : Request R) (o : Outside R)
      → Keeps s q o (submit_live client_id limit s q o).0
  unfolding submit_live
  submit_live-keys s q o = record_if_filled-keys s _ q o _ refl

  routed-keys :
      (paper there : Bool) (s : Service R) (q : Request R) (o : Outside R)
      → Keeps s q o (routed client_id limit paper there s q o).0
  unfolding fill_paper
  routed-keys true there s q o = settled_paper-keys s q o (place_order s.engine q o.context)
  routed-keys false true s q o = submit_live-keys s q o
  routed-keys false false s q o = inl refl

  submit_async-keys :
      (s : Service R) (q : Request R) (o : Outside R)
      → Keeps s q o (submit_async client_id limit s q o).0
  unfolding submit_async
  submit_async-keys s q o = elim (Option-cases (guard client_id limit s q o)) [
    | inr (stopped, e) ↦ rw (e, submit_async) (inl refl)
    | inl passed ↦
        rw (passed, submit_async)
          (routed-keys (is_paper_mode s.effective_mode) s.has_executor s q o)
  ]

  -- Submissions one after the other.
  unfoldable pub submit_all : List (Request R × Outside R) → Service R → Service R
  unfolding submit_async
  submit_all [] s = s
  submit_all ((q, o) ∷ rest) s = submit_all rest (submit_async client_id limit s q o).0

  -- None of the submissions carries the key.
  abbrev pub AllOther : Text → List (Request R × Outside R) → Type 0
  AllOther key [] = Unit
  AllOther key ((q, o) ∷ rest) = (q.idempotency_key ≢ key) × AllOther key rest

  submit_async-Recent :
      (n : ℕ) (key : Text) (v : ExecutionResult R) (s : Service R) (q : Request R) (o : Outside R)
      → suc n < limit
      → q.idempotency_key ≢ key
      → Recent n key v s.keys
      → Recent (suc n) key v (submit_async client_id limit s q o).0.keys
  submit_async-Recent n key v s q o room other recent = elim (submit_async-keys s q o) [
    | inl same ↦ rw same (Recent-suc limit n key v s.keys recent)
    | inr (w, row) ↦ rw row (
        record_key_other-Recent limit o.writes o.trims n key q.idempotency_key v w s.keys room other
          recent)
  ]

  submit_all-Recent :
      (n : ℕ) (key : Text) (v : ExecutionResult R) (s : Service R)
      (rest : List (Request R × Outside R))
      → n + length rest < limit
      → AllOther key rest
      → Recent n key v s.keys
      → lookup key (submit_all rest s).keys ≡ some v
  unfolding submit_all
  submit_all-Recent n key v s [] room others recent = Recent-lookup n key v s.keys recent
  submit_all-Recent n key v s ((q, o) ∷ rest) room others recent =
      submit_all-Recent (suc n) key v (submit_async client_id limit s q o).0 rest (omega arith)
        others.1 (submit_async-Recent n key v s q o (omega arith) others.0 recent)

  -- The submission went through and its result was recorded.
  record_if_filled-Recent :
      (s₀ : Service R) (q : Request R) (o : Outside R) (result : ExecutionResult R)
      → transacted result.status ≡ true
      → o.writes ≡ true
      → 0 < limit
      → lookup q.idempotency_key s₀.keys ≡ none
      → Recent 0 q.idempotency_key result
          (record_if_filled client_id limit o q.idempotency_key result s₀).keys
  unfolding record_if_filled
  record_if_filled-Recent s₀ q o result done written room fresh =
      rw (done, written)
        (record_key-Recent limit o.trims q.idempotency_key result s₀.keys room fresh)

  -- What an answer that was filled, in whole or in part, leaves in the store.
  abbrev IsRecorded : Text → Service R × Answer R → Type 0
  IsRecorded key (s', raised) = Unit
  IsRecorded key (s', answered result) =
      transacted result.status ≡ true → Recent 0 key result s'.keys

  settled_paper-IsRecorded :
      (s : Service R) (q : Request R) (o : Outside R) (out : Engine R × Reply R)
      → o.writes ≡ true
      → 0 < limit
      → lookup q.idempotency_key s.keys ≡ none
      → IsRecorded q.idempotency_key (settled_paper client_id limit o q s out)
  settled_paper-IsRecorded s q o (e, placed order) written room fresh = λ done.
      record_if_filled-Recent (record s { engine = e }) q o (paper_result client_id limit s q order)
        done written room fresh
  settled_paper-IsRecorded s q o (e, value_error) written room fresh = tt

  guard-IsRecorded :
      (s : Service R) (q : Request R) (o : Outside R) (stopped : ExecutionResult R)
      → guard client_id limit s q o ≡ some stopped
      → transacted stopped.status ≡ false
  unfolding guard
  guard-IsRecorded s q o stopped h = ground arith

  guard-none :
      (s : Service R) (q : Request R) (o : Outside R)
      → o.reads ≡ true
      → guard client_id limit s q o ≡ none
      → lookup q.idempotency_key s.keys ≡ none
  unfolding guard seen
  guard-none s q o up h = ground arith

  routed-IsRecorded :
      (paper there : Bool) (s : Service R) (q : Request R) (o : Outside R)
      → o.writes ≡ true
      → 0 < limit
      → lookup q.idempotency_key s.keys ≡ none
      → IsRecorded q.idempotency_key (routed client_id limit paper there s q o)
  unfolding fill_paper submit_live
  routed-IsRecorded true there s q o written room fresh =
      settled_paper-IsRecorded s q o (place_order s.engine q o.context) written room fresh
  routed-IsRecorded false true s q o written room fresh =
      λ done. record_if_filled-Recent _ q o _ done written room fresh
  routed-IsRecorded false false s q o written room fresh = λ done. absurd (ground arith)

  submit_async-IsRecorded :
      (s : Service R) (q : Request R) (o : Outside R)
      → o.reads ≡ true
      → o.writes ≡ true
      → 0 < limit
      → IsRecorded q.idempotency_key (submit_async client_id limit s q o)
  unfolding submit_async
  submit_async-IsRecorded s q o up written room =
      elim (Option-cases (guard client_id limit s q o)) [
        | inr (stopped, e) ↦
            let not_done = guard-IsRecorded s q o stopped e in
            rw (e, submit_async) (λ done. absurd (ground arith))
        | inl passed ↦
            rw (passed, submit_async)
              (routed-IsRecorded (is_paper_mode s.effective_mode) s.has_executor s q o written room
                (guard-none s q o up passed))
      ]

  -- A key that stands in the store is answered from it.
  submit_async-seen :
      (s : Service R) (q : Request R) (o : Outside R) (prior : ExecutionResult R)
      → o.reads ≡ true
      → lookup q.idempotency_key s.keys ≡ some prior
      → submit_async client_id limit s q o ≡ (s, answered (repeated client_id limit s q prior))
  unfolding submit_async guard seen
  submit_async-seen s q o prior up there = ground arith

  -- An order that was filled, in whole or in part, is not placed again: while the store keeps up, and
  -- after fewer other submissions than the store keeps keys, each with a key of its own, a submission
  -- with the same key is answered as a duplicate with the first order's id and price, and changes
  -- nothing, whichever the mode.
  pub submit_async_once :
      (s s' : Service R) (q q' : Request R) (o o' : Outside R) (result : ExecutionResult R)
      (rest : List (Request R × Outside R))
      → submit_async client_id limit s q o ≡ (s', answered result)
      → transacted result.status ≡ true
      → o.reads ≡ true
      → o.writes ≡ true
      → o'.reads ≡ true
      → length rest < limit
      → AllOther q.idempotency_key rest
      → q'.idempotency_key ≡ q.idempotency_key
      → let s'' = submit_all rest s' in
        submit_async client_id limit s'' q' o'
        ≡ (s'', answered (repeated client_id limit s'' q' result))
  submit_async_once s s' q q' o o' result rest h done up written up' room others same =
      let kept : IsRecorded q.idempotency_key (s', answered result) =
        rw h at (submit_async-IsRecorded s q o up written (omega arith)) in
      let found =
        submit_all-Recent 0 q.idempotency_key result s' rest (omega arith) others (kept done) in
      submit_async-seen (submit_all rest s') q' o' result up' (rw same found)
