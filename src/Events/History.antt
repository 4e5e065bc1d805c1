-- ===== src/Events/History.antt =====
-- src/core/utils/events.py: the history that the bus keeps, and what `get_history` answers.
use mathlib.Core.List.{reverse, reverse-append}
use delta_quant.Prelude.{
  ℕ, zero, suc, ◌+◌, ◌-◌, ◌≤◌, ◌<◌, ◌≡◌, refl, sym, ap, ◌∙◌, Bool, Bool-cases, inl, inr, none, List,
  [], ◌∷◌, ◌++◌, length, length-append, ltb, if◌then◌else◌, arith, Text,
}
use delta_quant.Events.{
  TradingEvent, EventBus, Call, Use, subscribes, unsubscribes, publishes, publishes_sync, clears,
  drop, slice_last, remember, get_history, clear_history, subscribe, unsubscribe, publish,
  publish_sync, use_once, use_all, new_bus,
}

module _ {ℓ} {A : Type ℓ} where
  abbrev pub take : ℕ → List A → List A
  take zero xs = []
  take (suc n) [] = []
  take (suc n) (x ∷ xs) = x ∷ take n xs

  drop-length : (k : ℕ) (xs : List A) → length (drop k xs) ≡ length xs - k
  drop-length zero xs = omega arith
  drop-length (suc k) [] = omega arith
  drop-length (suc k) (x ∷ xs) = omega (arith, drop-length k xs)

  drop-append : (k : ℕ) (xs ys : List A) → k ≤ length xs → drop k (xs ++ ys) ≡ drop k xs ++ ys
  drop-append zero xs ys h = refl
  drop-append (suc k) [] ys h = absurd (omega arith)
  drop-append (suc k) (x ∷ xs) ys h = drop-append k xs ys (omega arith)

  drop_nil : (n : ℕ) → drop {A = A} n [] ≡ []
  drop_nil zero = refl
  drop_nil (suc n) = refl

  slice_last_nil : (n : ℕ) → slice_last {A = A} n [] ≡ []
  slice_last_nil zero = refl
  slice_last_nil (suc n) = drop_nil (0 - suc n)

  drop-drop : (a b : ℕ) (xs : List A) → drop a (drop b xs) ≡ drop (b + a) xs
  drop-drop a zero xs = ap (λ n. drop n xs) (omega arith)
  drop-drop a (suc b) [] = drop_nil a ∙ sym (drop_nil (suc b + a))
  drop-drop a (suc b) (x ∷ xs) =
      let shift : suc (b + a) ≡ suc b + a = omega arith in
      drop-drop a b xs ∙ ap (λ n. drop n (x ∷ xs)) shift

  take-append : (n : ℕ) (xs ys : List A) → n ≡ length xs → take n (xs ++ ys) ≡ xs
  take-append zero [] ys e = refl
  take-append (suc n) (x ∷ xs) ys e = ap (λ t. x ∷ t) (take-append n xs ys (omega arith))
  take-append zero (x ∷ xs) ys e = absurd (omega arith)
  take-append (suc n) [] ys e = absurd (omega arith)

  length-reverse : (xs : List A) → length (reverse xs) ≡ length xs
  length-reverse [] = refl
  length-reverse (x ∷ xs) =
      ap length (reverse-append (x ∷ []) xs)
      ∙ omega (arith, length-append (reverse xs) (x ∷ []), length-reverse xs)

  take-all : (n : ℕ) (xs : List A) → length xs ≤ n → take n xs ≡ xs
  take-all zero [] h = refl
  take-all (suc n) [] h = refl
  take-all (suc n) (x ∷ xs) h = ap (λ t. x ∷ t) (take-all n xs (omega arith))
  take-all zero (x ∷ xs) h = absurd (omega arith)

  split_at : (k : ℕ) (xs : List A) → take k xs ++ drop k xs ≡ xs
  split_at zero xs = refl
  split_at (suc k) [] = refl
  split_at (suc k) (x ∷ xs) = ap (λ t. x ∷ t) (split_at k xs)

  -- The last entries, newest first, are the first entries of the reversed list.
  reverse-slice_last :
      (n : ℕ) (xs : List A) → 0 < n → reverse (slice_last n xs) ≡ take n (reverse xs)
  reverse-slice_last zero xs positive = absurd (omega arith)
  reverse-slice_last (suc n) xs positive = elim (Bool-cases (ltb (length xs) (suc n))) [
    | inl few ↦
        let none_dropped : length xs - suc n ≡ 0 = ground arith in
        ap (λ k. reverse (drop k xs)) none_dropped
        ∙ sym (take-all (suc n) (reverse xs) (ground (arith, length-reverse xs)))
    | inr many ↦
        let k = length xs - suc n in
        let back = drop k xs in
        let front = take k xs in
        let apart : reverse xs ≡ reverse back ++ reverse front =
          ap reverse (sym (split_at k xs)) ∙ reverse-append front back in
        let size : suc n ≡ length (reverse back) =
          ground (arith, length-reverse back, drop-length k xs) in
        sym (ap (take (suc n)) apart ∙ take-append (suc n) (reverse back) (reverse front) size)
  ]

  -- A slice of a longer slice is a slice.
  slice_last-slice_last :
      (l m : ℕ) (xs : List A)
      → l ≤ m
      → slice_last (suc l) (slice_last (suc m) xs) ≡ slice_last (suc l) xs
  slice_last-slice_last l m xs h =
      let k = length xs - suc m in
      drop-drop (length (drop k xs) - suc l) k xs
      ∙ ap (λ n. drop n xs) (omega (arith, drop-length k xs))

  -- A slice, extended by one entry and trimmed, is the slice of the extended list.
  slice_last-append :
      (m : ℕ) (x : A) (xs : List A)
      → (let events = slice_last m xs ++ x ∷ [] in
          if ltb m (length events) then slice_last m events else events)
        ≡ slice_last m (xs ++ x ∷ [])
  slice_last-append zero x xs = elim (Bool-cases (ltb 0 (length (xs ++ x ∷ [])))) [
    | inl over ↦ rw over refl
    | inr within ↦ rw within refl
  ]
  slice_last-append (suc m) x xs =
      let k = length xs - suc m in
      let events = slice_last (suc m) xs ++ x ∷ [] in
      let moved : drop k (xs ++ x ∷ []) ≡ events = drop-append k xs (x ∷ []) (omega arith) in
      let long : length events ≡ length xs - k + 1 =
        omega (arith, length-append (drop k xs) (x ∷ []), drop-length k xs) in
      let all_long : length (xs ++ x ∷ []) ≡ length xs + 1 =
        omega (arith, length-append xs (x ∷ [])) in
      elim (Bool-cases (ltb (suc m) (length events))) [
        | inl over ↦ rw over (
            ap (drop (length events - suc m)) (sym moved)
            ∙ drop-drop (length events - suc m) k (xs ++ x ∷ [])
            ∙ ap (λ n. drop n (xs ++ x ∷ [])) (ground arith))
        | inr within ↦ rw within (sym moved ∙ ap (λ n. drop n (xs ++ x ∷ [])) (ground arith))
      ]

-- What was published since the history was last cleared, newest first.
unfoldable pub newest : List Use → List TradingEvent → List TradingEvent
newest [] events = events
newest (subscribes event_type handler ∷ us) events = newest us events
newest (unsubscribes event_type handler ∷ us) events = newest us events
newest (publishes event ∷ us) events = newest us (event ∷ events)
newest (publishes_sync event ∷ us) events = newest us (event ∷ events)
newest (clears ∷ us) events = newest us []

-- The bus keeps the last events of a list.
record Keeps (m : ℕ) (bus : EventBus) (events : List TradingEvent) : Type 0 where
  bound : bus.max_history ≡ m
  kept : bus.history ≡ slice_last m events

remember-Keeps :
    (m : ℕ) (event : TradingEvent) (bus : EventBus) (events : List TradingEvent)
    → Keeps m bus events
    → Keeps m (remember event bus) (events ++ event ∷ [])
unfolding remember
remember-Keeps m event bus events k = record {
  bound = k.bound;
  kept = rw (k.bound, k.kept) (slice_last-append m event events);
}

module _ (is_async : Text → Bool) (raises : Text → TradingEvent → List Call → Bool) where
  use_once-Keeps :
      (m : ℕ) (u : Use) (s : EventBus × List Call) (events : List TradingEvent)
      → Keeps m s.0 events
      → (events' : List TradingEvent) × Keeps m (use_once is_async raises u s).0 events'
        × ((us : List Use) → newest (u ∷ us) (reverse events) ≡ newest us (reverse events'))
  unfolding use_once newest subscribe unsubscribe publish publish_sync clear_history
  use_once-Keeps m (subscribes event_type handler) (bus, calls) events k =
      elim (Bool-cases (is_async handler)) [
        | inl yes_ ↦ (events, rw yes_ (record { bound = k.bound; kept = k.kept }), λ us. refl)
        | inr no_ ↦ (events, rw no_ (record { bound = k.bound; kept = k.kept }), λ us. refl)
      ]
  use_once-Keeps m (unsubscribes event_type handler) (bus, calls) events k =
      elim (Bool-cases (is_async handler)) [
        | inl yes_ ↦ (events, rw yes_ (record { bound = k.bound; kept = k.kept }), λ us. refl)
        | inr no_ ↦ (events, rw no_ (record { bound = k.bound; kept = k.kept }), λ us. refl)
      ]
  use_once-Keeps m (publishes event) (bus, calls) events k = (
    events ++ event ∷ [],
    remember-Keeps m event bus events k,
    λ us. ap (newest us) (sym (reverse-append events (event ∷ []))),
  )
  use_once-Keeps m (publishes_sync event) (bus, calls) events k = (
    events ++ event ∷ [],
    remember-Keeps m event bus events k,
    λ us. ap (newest us) (sym (reverse-append events (event ∷ []))),
  )
  use_once-Keeps m clears (bus, calls) events k =
      ([], record { bound = k.bound; kept = sym (slice_last_nil m) }, λ us. refl)

  use_all-Keeps :
      (m : ℕ) (us : List Use) (s : EventBus × List Call) (events : List TradingEvent)
      → Keeps m s.0 events
      → (events' : List TradingEvent) × Keeps m (use_all is_async raises us s).0 events'
        × (newest us (reverse events) ≡ reverse events')
  unfolding use_all newest
  use_all-Keeps m [] s events k = (events, k, refl)
  use_all-Keeps m (u ∷ us) s events k =
      let (events', k', e) = use_once-Keeps m u s events k in
      let (events'', k'', e') = use_all-Keeps m us (use_once is_async raises u s) events' k' in
      (events'', k'', e us ∙ e')

  new_bus-Keeps :
      (m : ℕ) (us : List Use)
      → (events : List TradingEvent) × Keeps m (use_all is_async raises us (new_bus m, [])).0 events
        × (newest us [] ≡ reverse events)
  unfolding new_bus
  new_bus-Keeps m us =
      use_all-Keeps m us (new_bus m, []) [] (record { bound = refl; kept = sym (slice_last_nil m) })

  -- After any use of a new bus that keeps at least one event, `get_history` for all types answers, for a
  -- positive limit within the bound, the latest events published since the history was last cleared,
  -- newest first, as many as the limit allows.
  pub get_history-newest :
      (m l : ℕ) (us : List Use)
      → l ≤ m
      → get_history none (suc l) (use_all is_async raises us (new_bus (suc m), [])).0
        ≡ take (suc l) (newest us [])
  unfolding get_history
  get_history-newest m l us h =
      let (events, k, e) = new_bus-Keeps (suc m) us in
      ap (λ (t : List TradingEvent). reverse (slice_last (suc l) t)) k.kept
      ∙ ap reverse (slice_last-slice_last l m events h)
      ∙ reverse-slice_last (suc l) events (omega arith)
      ∙ ap (take (suc l)) (sym e)

  -- A bus with the bound 0 keeps everything: after any use of it, its history is as long as what was
  -- published since the history was last cleared.
  pub history_unbounded :
      (us : List Use)
      → length (use_all is_async raises us (new_bus 0, [])).0.history ≡ length (newest us [])
  history_unbounded us =
      let (events, k, e) = new_bus-Keeps 0 us in
      ap length k.kept ∙ sym (ap length e ∙ length-reverse events)
