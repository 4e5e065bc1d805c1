-- ===== src/Events/Delivery.antt =====
-- src/core/utils/events.py: which handlers an event reaches.
use delta_quant.Prelude.{
  ℕ, suc, ◌+◌, ◌-◌, ◌≡◌, refl, ap, ◌∙◌, Bool, Bool-cases, inl, inr, Option, none, some, List, [],
  ◌∷◌, ◌++◌, ◌==◌, ==_iff, if◌then◌else◌, ◌&&◌, arith, Text,
}
use delta_quant.Prelude.Dict.{Dict, lookup, insert, lookup-insert}
use delta_quant.Events.{
  TradingEvent, EventType, EventBus, Call, Use, subscribes, unsubscribes, publishes, publishes_sync,
  clears, remember, clear_history, subscribe, unsubscribe, publish, publish_sync, deliver, code,
  use_once, use_all, new_bus, listeners, or_empty, remove_from, add_listener, remove_listener,
  remove,
}

-- How often a handler stands in a list.
abbrev occurrences : Text → List Text → ℕ
occurrences handler [] = 0
occurrences handler (x ∷ xs) =
    if handler == x then suc (occurrences handler xs) else occurrences handler xs

-- How often a handler was called.
abbrev pub times_called : Text → List Call → ℕ
times_called handler [] = 0
times_called handler (call ∷ calls) =
    if handler == call.handler then suc (times_called handler calls) else times_called handler calls

occurrences-append :
    (handler : Text) (xs ys : List Text)
    → occurrences handler (xs ++ ys) ≡ occurrences handler xs + occurrences handler ys
occurrences-append handler [] ys = omega arith
occurrences-append handler (x ∷ xs) ys = ground (arith, occurrences-append handler xs ys)

occurrences-remove :
    (handler other : Text) (xs : List Text)
    → occurrences handler (remove other xs)
      ≡ (if handler == other then occurrences handler xs - 1 else occurrences handler xs)
occurrences-remove handler other [] = ground arith
occurrences-remove handler other (x ∷ xs) = ground (arith, occurrences-remove handler other xs)

times_called-append :
    (handler : Text) (xs ys : List Call)
    → times_called handler (xs ++ ys) ≡ times_called handler xs + times_called handler ys
times_called-append handler [] ys = omega arith
times_called-append handler (x ∷ xs) ys = ground (arith, times_called-append handler xs ys)

abbrev counted : Text → ℕ → Dict (List Text) → ℕ
counted handler key d = occurrences handler (listeners key d)

counted-add_listener :
    (handler other : Text) (key at : ℕ) (d : Dict (List Text))
    → counted handler key (add_listener at other d)
      ≡ (if key == at && handler == other then counted handler key d + 1 else counted handler key d)
counted-add_listener handler other key at d =
    let e = lookup-insert key at (listeners at d ++ other ∷ []) d in
    elim (Bool-cases (key == at)) [
      | inl same ↦
          let here : lookup key (add_listener at other d) ≡ some (listeners at d ++ other ∷ []) =
            rw same at e in
          let at_key : listeners key d ≡ listeners at d =
            ap (λ k. listeners k d) ((==_iff key at).0 same) in
          ap (λ o. occurrences handler (or_empty o)) here
          ∙ rw (at_key, same)
              (ground (arith, occurrences-append handler (listeners at d) (other ∷ [])))
      | inr differs ↦
          let there : lookup key (add_listener at other d) ≡ lookup key d = rw differs at e in
          rw (there, or_empty, differs) refl
    ]

counted-remove_from :
    (found : Option (List Text)) (handler other : Text) (key at : ℕ) (d : Dict (List Text))
    → lookup at d ≡ found
    → counted handler key (remove_from found at other d)
      ≡ (if key == at && handler == other then counted handler key d - 1 else counted handler key d)
counted-remove_from none handler other key at d e = elim (Bool-cases (key == at)) [
  | inl same ↦
      let at_key : lookup key d ≡ none = ap (λ k. lookup k d) ((==_iff key at).0 same) ∙ e in
      rw (at_key, or_empty, same) (ground arith)
  | inr differs ↦ rw differs refl
]
counted-remove_from (some handlers) handler other key at d e =
    let moved = lookup-insert key at (remove other handlers) d in
    elim (Bool-cases (key == at)) [
      | inl same ↦
          let at_key : lookup key d ≡ some handlers =
            ap (λ k. lookup k d) ((==_iff key at).0 same) ∙ e in
          let here : lookup key (insert at (remove other handlers) d)
              ≡ some (remove other handlers) =
            rw same at moved in
          rw (here, at_key, or_empty, same)
            (ground (arith, occurrences-remove handler other handlers))
      | inr differs ↦
          let there : lookup key (insert at (remove other handlers) d) ≡ lookup key d =
            rw differs at moved in
          rw (there, or_empty, differs) refl
    ]

counted-remove_listener :
    (handler other : Text) (key at : ℕ) (d : Dict (List Text))
    → counted handler key (remove_listener at other d)
      ≡ (if key == at && handler == other then counted handler key d - 1 else counted handler key d)
counted-remove_listener handler other key at d =
    counted-remove_from (lookup at d) handler other key at d refl

-- The subscriptions of a handler to a type that stand after some uses, counted one by one.
adjusted : EventType → Text → Use → ℕ → ℕ
adjusted event_type handler (subscribes type other) n =
    if code event_type == code type && handler == other then n + 1 else n
adjusted event_type handler (unsubscribes type other) n =
    if code event_type == code type && handler == other then n - 1 else n
adjusted event_type handler (publishes event) n = n
adjusted event_type handler (publishes_sync event) n = n
adjusted event_type handler clears n = n

unfoldable pub balance : EventType → Text → List Use → ℕ → ℕ
unfolding adjusted
balance event_type handler [] n = n
balance event_type handler (u ∷ us) n =
    balance event_type handler us (adjusted event_type handler u n)

module _ (is_async : Text → Bool) (raises : Text → TradingEvent → List Call → Bool) where
  -- A handler is called once for each place it has, whatever it and the others raise.
  deliver_times :
      (handler : Text) (handlers : List Text) (event : TradingEvent) (calls : List Call)
      → times_called handler (deliver is_async raises handlers event calls)
        ≡ times_called handler calls + occurrences handler handlers
  unfolding deliver
  deliver_times handler [] event calls = omega arith
  deliver_times handler (other ∷ handlers) event calls =
      let call : Call = record {
        handler = other;
        event = event;
        raised = raises other event calls;
      } in
      deliver_times handler handlers event (calls ++ call ∷ [])
      ∙ ground (arith, times_called-append handler calls (call ∷ []))

  -- A handler stands only in the table of its kind, as often as it is subscribed.
  record IsCounted (event_type : EventType) (handler : Text) (n : ℕ) (bus : EventBus) : Type 0 where
    on_async :
        counted handler (code event_type) bus.async_handlers ≡ (if is_async handler then n else 0)
    on_sync :
        counted handler (code event_type) bus.sync_handlers ≡ (if is_async handler then 0 else n)

  use_once-IsCounted :
      (event_type : EventType) (handler : Text) (n : ℕ) (u : Use) (s : EventBus × List Call)
      → IsCounted event_type handler n s.0
      → IsCounted event_type handler
          (adjusted event_type handler u n)
          (use_once is_async raises u s).0
  unfolding use_once adjusted subscribe unsubscribe publish publish_sync clear_history remember
  use_once-IsCounted event_type handler n (subscribes type other) (bus, calls) c =
      elim (Bool-cases (is_async other)) [
        | inl kind ↦ rw kind (record {
          on_async = ground (
            arith,
            counted-add_listener handler other (code event_type) (code type) bus.async_handlers,
          );
          on_sync = ground arith;
        })
        | inr kind ↦ rw kind (record {
          on_sync = ground (
            arith,
            counted-add_listener handler other (code event_type) (code type) bus.sync_handlers,
          );
          on_async = ground arith;
        })
      ]
  use_once-IsCounted event_type handler n (unsubscribes type other) (bus, calls) c =
      elim (Bool-cases (is_async other)) [
        | inl kind ↦ rw kind (record {
          on_async = ground (
            arith,
            counted-remove_listener handler other (code event_type) (code type) bus.async_handlers,
          );
          on_sync = ground arith;
        })
        | inr kind ↦ rw kind (record {
          on_sync = ground (
            arith,
            counted-remove_listener handler other (code event_type) (code type) bus.sync_handlers,
          );
          on_async = ground arith;
        })
      ]
  use_once-IsCounted event_type handler n (publishes event) (bus, calls) c = record {
    on_async = c.on_async;
    on_sync = c.on_sync;
  }
  use_once-IsCounted event_type handler n (publishes_sync event) (bus, calls) c = record {
    on_async = c.on_async;
    on_sync = c.on_sync;
  }
  use_once-IsCounted event_type handler n clears (bus, calls) c = record {
    on_async = c.on_async;
    on_sync = c.on_sync;
  }

  use_all-IsCounted :
      (event_type : EventType) (handler : Text) (n : ℕ) (us : List Use) (s : EventBus × List Call)
      → IsCounted event_type handler n s.0
      → IsCounted event_type handler
          (balance event_type handler us n)
          (use_all is_async raises us s).0
  unfolding use_all balance
  use_all-IsCounted event_type handler n [] s c = c
  use_all-IsCounted event_type handler n (u ∷ us) s c =
      use_all-IsCounted event_type handler (adjusted event_type handler u n) us
        (use_once is_async raises u s) (use_once-IsCounted event_type handler n u s c)

  -- After any use of a new bus, publishing an event calls each handler as often as it is subscribed to the
  -- event's type: once for each subscription that no later removal has taken back. What a handler raises
  -- keeps no other from its calls.
  pub publish_balance :
      (max_history : ℕ) (us : List Use) (event : TradingEvent) (handler : Text) (calls : List Call)
      → times_called handler
          (publish is_async raises event
            ((use_all is_async raises us (new_bus max_history, [])).0, calls)).1
        ≡ times_called handler calls + balance event.event_type handler us 0
  unfolding publish new_bus
  publish_balance max_history us event handler calls =
      let bus = (use_all is_async raises us (new_bus max_history, [])).0 in
      let key = code event.event_type in
      let sync = listeners key bus.sync_handlers in
      let tasks = listeners key bus.async_handlers in
      let c =
        use_all-IsCounted event.event_type handler 0 us (new_bus max_history, [])
          (record { on_async = ground arith; on_sync = ground arith }) in
      let on_sync = c.on_sync in
      let on_async = c.on_async in
      deliver_times handler tasks event (deliver is_async raises sync event calls)
      ∙ ground (arith, deliver_times handler sync event calls)
