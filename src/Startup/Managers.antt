-- ===== src/Startup/Managers.antt =====
-- After the reconciliation the exit manager tracks no trade that is not open.
use delta_quant.Prelude.{
  ℕ, ◌≡◌, subst, is_some, refl, ap, inl, inr, true, Option, none, some, List, [], ◌∷◌, Text,
  or_else, Option-cases, Bool-cases, All,
}
use delta_quant.Prelude.Dict.{Dict, lookup, keys_All}
use delta_quant.Prelude.Real.{Real}
use delta_quant.Paper.{Position, Order}
use delta_quant.Exits.{ManagedPosition, get_position, register_position}
use delta_quant.Lifecycle.{Trade, Store, get_open, get_by_status, get, intent, same_status}
use delta_quant.Startup.{Progress, done, failed, and_then, repair_from_orders}
use delta_quant.Startup.Reconcile.{
  Startup, Report, as_wallet, by_position, empty_report, with_missing, settle_rest, marked,
  imported, count_import, count_repair, has_trade, drop_ghosts, restore, adopt, adopt_all, within,
  resolve_orphan, resolve_orphans, remove_ghosts, reconcile, counted_outcome,
}
use delta_quant.Startup.Ghosts.{IsKeyed, insert-IsKeyed, drop_ghosts_lem}

module _ {R : Type 0} where
  -- What holds of the state where the steps ended.
  abbrev Ended : (Startup R → Type 0) → Progress (Startup R) → Type 0
  Ended P (done s) = P s
  Ended P (failed e s) = P s

  and_then-Ended :
      (P : Startup R → Type 0) (out : Progress (Startup R))
      (next : Startup R → Progress (Startup R))
      → Ended P out
      → ((s : Startup R) → P s → Ended P (next s))
      → Ended P (and_then out next)
  and_then-Ended P (done s) next h each = each s h
  and_then-Ended P (failed e s) next h each = h

  abbrev pub TracksKeyed : Startup R → Type 0
  TracksKeyed s = IsKeyed s.tracked

  within-TracksKeyed :
      (s : Startup R) (out : Progress (Store R)) (counted : Report → Report)
      → TracksKeyed s
      → Ended TracksKeyed (within s out counted)
  within-TracksKeyed s (done l) counted h = h
  within-TracksKeyed s (failed e l) counted h = h

module _ {R : Type 0} ⦃r : Real R⦄ (now : ℕ) (namespace : Text) (legacy_key : Text → Text)
    (fresh : Text) where
  restore-TracksKeyed :
      (p : Position R) (o : Option (Trade R)) (s : Startup R)
      → TracksKeyed s
      → Ended TracksKeyed (restore now namespace legacy_key fresh p o s)
  unfolding register_position
  restore-TracksKeyed p none s h = h
  restore-TracksKeyed p (some t) s h = elim (Option-cases (get_position t.trade_id s.tracked)) [
    | inr (m, e) ↦ rw (restore, e) h
    | inl e ↦ rw (restore, e) (insert-IsKeyed t.trade_id _ s.tracked refl h)
  ]

  -- A change of the ledger, then the restoring of the manager.
  then_restore-TracksKeyed :
      (s : Startup R) (out : Progress (Store R)) (counted : Report → Report) (p : Position R)
      (id : Text)
      → TracksKeyed s
      → Ended TracksKeyed (
          and_then
            (within s out counted)
            (λ s'. restore now namespace legacy_key fresh p (get id s'.ledger) s'))
  then_restore-TracksKeyed s (done l) counted p id h = restore-TracksKeyed p (get id l) _ h
  then_restore-TracksKeyed s (failed e l) counted p id h = h

  adopt-TracksKeyed :
      (open_rows : Dict (Trade R)) (id : Text) (p : Position R) (s : Startup R)
      → TracksKeyed s
      → Ended TracksKeyed (adopt now namespace legacy_key fresh open_rows id p s)
  unfolding adopt
  adopt-TracksKeyed open_rows id p s h = elim (Option-cases (lookup id open_rows)) [
    | inr (t, e) ↦ rw (e, adopt) (restore-TracksKeyed p (some t) s h)
    | inl e ↦ elim (Option-cases (get id s.ledger)) [
      | inl new ↦
          let trade_id = or_else id fresh in
          rw (e, adopt, new)
            (then_restore-TracksKeyed s
              (imported now namespace legacy_key fresh trade_id id p s.ledger) count_import p
              trade_id h)
      | inr (t, there) ↦ elim (Bool-cases (same_status t.status intent)) [
        | inl waiting ↦
            rw (e, adopt, there, waiting)
              (then_restore-TracksKeyed s (marked now namespace legacy_key fresh id p s.ledger)
                count_repair p id h)
        | inr other ↦ rw (e, adopt, there, other) h
      ]
    ]
  ]

  adopt_all-TracksKeyed :
      (open_rows : Dict (Trade R)) (wallet : Dict (Position R)) (s : Startup R)
      → TracksKeyed s
      → Ended TracksKeyed (adopt_all now namespace legacy_key fresh open_rows wallet s)
  unfolding adopt_all
  adopt_all-TracksKeyed open_rows [] s h = h
  adopt_all-TracksKeyed open_rows ((id, p) ∷ rest) s h =
      and_then-Ended TracksKeyed (adopt now namespace legacy_key fresh open_rows id p s)
        (adopt_all now namespace legacy_key fresh open_rows rest)
        (adopt-TracksKeyed open_rows id p s h) (adopt_all-TracksKeyed open_rows rest)

  resolve_orphan-TracksKeyed :
      (orders : Option (Text → List (Order R))) (wallet : Dict (Position R)) (id : Text)
      (s : Startup R)
      → TracksKeyed s
      → Ended TracksKeyed (resolve_orphan now namespace legacy_key fresh orders wallet id s)
  unfolding resolve_orphan
  resolve_orphan-TracksKeyed orders wallet id s h = elim (Bool-cases (is_some (lookup id wallet))) [
    | inl held ↦ rw (held, resolve_orphan) h
    | inr orphan ↦ elim (Option-cases orders) [
      | inl e ↦ rw (orphan, e, resolve_orphan) h
      | inr (find, e) ↦
          rw (orphan, e, resolve_orphan)
            (let out = repair_from_orders now id (find id) s.ledger in
              within-TracksKeyed s out.0 (counted_outcome out.1) h)
    ]
  ]

  resolve_orphans-TracksKeyed :
      (orders : Option (Text → List (Order R))) (wallet : Dict (Position R)) (ts : List (Trade R))
      (s : Startup R)
      → TracksKeyed s
      → Ended TracksKeyed (resolve_orphans now namespace legacy_key fresh orders wallet ts s)
  unfolding resolve_orphans
  resolve_orphans-TracksKeyed orders wallet [] s h = h
  resolve_orphans-TracksKeyed orders wallet (t ∷ ts) s h =
      and_then-Ended TracksKeyed
        (resolve_orphan now namespace legacy_key fresh orders wallet t.trade_id s)
        (resolve_orphans now namespace legacy_key fresh orders wallet ts)
        (resolve_orphan-TracksKeyed orders wallet t.trade_id s h)
        (resolve_orphans-TracksKeyed orders wallet ts)

module _ {R : Type 0} where
  abbrev state_of : Progress (Startup R) → Startup R
  state_of (done s) = s
  state_of (failed e s) = s

  and_then-done :
      (out : Progress (Startup R)) (next : Startup R → Progress (Startup R)) (s' : Startup R)
      → and_then out next ≡ done s'
      → (s : Startup R) × (out ≡ done s) × (next s ≡ done s')
  and_then-done (done s) next s' h = (s, refl, h)
  and_then-done (failed e s) next s' h = cc

  -- The exit manager tracks open trades only, each under its own id and once.
  abbrev pub NoGhosts : Startup R → Type 0
  NoGhosts s =
      IsKeyed s.tracked
      × All (λ (e : ℕ × ManagedPosition R). has_trade e.0 (get_open 0 s.ledger) ≡ true) s.tracked

module _ {R : Type 0} ⦃r : Real R⦄ (now : ℕ) (namespace : Text) (legacy_key : Text → Text)
    (fresh : Text) where
  remove_ghosts-NoGhosts :
      (s s' : Startup R)
      → TracksKeyed s
      → remove_ghosts now namespace legacy_key fresh s ≡ done s'
      → NoGhosts s'
  unfolding remove_ghosts
  remove_ghosts-NoGhosts s s' h e =
      let valid = get_open 0 s.ledger in
      let (keyed, each) = drop_ghosts_lem valid s.tracked s.tracked 0 h h (λ k found. inr found) in
      subst NoGhosts (ap state_of e)
        (keyed, keys_All (drop_ghosts valid s.tracked (s.tracked, 0)).0 each)

  -- A reconciliation that comes to its end leaves no ghost: whatever the wallet, the ledger and the
  -- orders hold, each position that the exit manager tracks is then an open trade of the ledger,
  -- tracked under its own id and once. It starts with positions under their own ids.
  pub reconcile-NoGhosts :
      (positions : List (Position R)) (orders : Option (Text → List (Order R))) (s s' : Startup R)
      → IsKeyed s.tracked
      → reconcile now namespace legacy_key fresh positions orders s ≡ done s'
      → NoGhosts s'
  unfolding reconcile
  reconcile-NoGhosts positions orders s s' h e =
      let wallet = as_wallet positions [] in
      let open_rows = get_open namespace s.ledger in
      let start : Startup R = record s { report = empty_report } in
      let held = by_position open_rows [] in
      let (s₁, adopted, rest) =
        and_then-done (adopt_all now namespace legacy_key fresh held wallet start)
          (settle_rest now namespace legacy_key fresh orders wallet open_rows) s' e in
      let h₁ =
        subst (Ended TracksKeyed) adopted
          (adopt_all-TracksKeyed now namespace legacy_key fresh held wallet start h) in
      let s₂ = with_missing now namespace legacy_key fresh wallet open_rows s₁ in
      let intents = get_by_status intent 0 s₂.ledger in
      let (s₃, resolved, last) =
        and_then-done (resolve_orphans now namespace legacy_key fresh orders wallet intents s₂)
          (remove_ghosts now namespace legacy_key fresh) s' rest in
      let h₃ =
        subst (Ended TracksKeyed) resolved (
          resolve_orphans-TracksKeyed now namespace legacy_key fresh orders wallet intents s₂ h₁) in
      remove_ghosts-NoGhosts s₃ s' h₃ last
