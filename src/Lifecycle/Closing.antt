-- ===== src/Lifecycle/Closing.antt =====
-- Exits that take the whole of an open trade close it.
use delta_quant.Prelude.{
  ℕ, ◌+◌, ◌-◌, ◌<◌, ◌≡◌, refl, Bool, true, false, some, List, [], ◌∷◌, ◌==◌, arith, Text,
}
use delta_quant.Prelude.Dict.{lookup-insert}
use delta_quant.Prelude.Real.{Real, ◌⊕◌}
use delta_quant.Lifecycle.{
  Trade, Store, Result, ok, err, ExitFill, closed, get, commit, same_status, is_open,
}
use delta_quant.Lifecycle.Operations.{record_exit, exited, exit_event}

module _ {R : Type 0} where
  abbrev then_exits :
      Result (Store R × Bool)
      → (Store R → Result (Store R × List Bool))
      → Result (Store R × List Bool)
  then_exits (err e) rest = err e
  then_exits (ok (s, b)) rest = with_answer b (rest s)
    where
      with_answer : Bool → Result (Store R × List Bool) → Result (Store R × List Bool)
      with_answer b (err e) = err e
      with_answer b (ok (s, bs)) = ok (s, b ∷ bs)

  abbrev pub total : List (ℕ × ExitFill R) → ℕ
  total [] = 0
  total ((now, f) ∷ fs) = f.quantity + total fs

  abbrev pub AllPositive : List (ℕ × ExitFill R) → Type 0
  AllPositive [] = Unit
  AllPositive ((now, f) ∷ fs) = (0 < f.quantity) × AllPositive fs

  -- No for every exit but the last.
  abbrev pub last_only : List (ℕ × ExitFill R) → List Bool
  last_only [] = []
  last_only (f ∷ []) = true ∷ []
  last_only (f ∷ g ∷ fs) = false ∷ last_only (g ∷ fs)

module _ {R : Type 0} ⦃r : Real R⦄ where
  -- The gains of the exits, added up in their order.
  abbrev pub gained : R → List (ℕ × ExitFill R) → R
  gained pnl [] = pnl
  gained pnl ((now, f) ∷ fs) = gained (pnl ⊕ f.realized_pnl) fs

  -- Exits one after the other, and what each call says.
  unfoldable pub exit_all : Text → List (ℕ × ExitFill R) → Store R → Result (Store R × List Bool)
  unfolding record_exit
  exit_all id [] s = ok (s, [])
  exit_all id ((now, f) ∷ fs) s = then_exits (record_exit now id f s) (exit_all id fs)

  pub record_exit_open :
      (now : ℕ) (id : Text) (f : ExitFill R) (s : Store R) (t : Trade R)
      → get id s ≡ some t
      → is_open t.status ≡ true
      → (s' : Store R) × (record_exit now id f s ≡ ok (s', t.remaining_quantity - f.quantity == 0))
        × (get id s' ≡ some (exited now f t))
  unfolding record_exit commit
  record_exit_open now id f s t here live =
      let going : same_status t.status closed ≡ false = ground arith in
      (
        commit id (exited now f t) (exit_event now f t) s,
        rw (here, record_exit, going) refl,
        ground (arith, lookup-insert id id (exited now f t) s.trades),
      )

  -- The trade is closed with these gains.
  abbrev pub IsClosed : Text → R → Store R → Type 0
  IsClosed id pnl s =
      (t : Trade R) × (get id s ≡ some t)
      × (t.status ≡ closed)
      × (t.remaining_quantity ≡ 0)
      × (t.cumulative_pnl ≡ pnl)

  -- Exits of positive quantities that together take what is left of an open trade all succeed, only
  -- the last of them says that the trade is closed, and the trade ends closed with nothing left and
  -- all the gains on its account.
  pub exit_all_closes :
      (id : Text) (fs : List (ℕ × ExitFill R)) (s : Store R) (t : Trade R)
      → get id s ≡ some t
      → is_open t.status ≡ true
      → 0 < t.remaining_quantity
      → AllPositive fs
      → total fs ≡ t.remaining_quantity
      → (s' : Store R) × (exit_all id fs s ≡ ok (s', last_only fs))
        × IsClosed id (gained t.cumulative_pnl fs) s'
  unfolding exit_all
  exit_all_closes id [] s t here live some_left positive all = absurd (omega arith)
  exit_all_closes id ((now, f) ∷ []) s t here live some_left positive all =
      let (s', done, there) = record_exit_open now id f s t here live in
      let nothing : t.remaining_quantity - f.quantity == 0 ≡ true = ground arith in
      (s', rw (done, nothing) refl, (exited now f t, there, rw nothing refl, ground arith, refl))
  exit_all_closes id ((now, f) ∷ g ∷ fs) s t here live some_left positive all =
      let (s', done, there) = record_exit_open now id f s t here live in
      let more : t.remaining_quantity - f.quantity == 0 ≡ false = ground arith in
      let (s'', rest, end) =
        exit_all_closes id (g ∷ fs) s' (exited now f t) there (rw more refl) (ground arith)
          positive.1 (omega arith) in
      (s'', rw (done, more, rest) refl, end)
