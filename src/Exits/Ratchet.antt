-- ===== src/Exits/Ratchet.antt =====
-- The stop of a tracked position only ever moves in its favour.
use delta_quant.Prelude.{
  ◌≡◌, refl, inl, inr, Bool, true, false, Option, none, some, List, [], ◌∷◌, ◌∙◌, ◌&&◌, ◌||◌, ◌==◌,
  if◌then◌else◌, arith, Text, Bool-cases,
}
use delta_quant.Prelude.Dict.{Dict, lookup}
use delta_quant.Prelude.Real.{Real, real, IsOrdered, ◌≺◌, ◌≼◌, ◌⊘◌}
use delta_quant.Costs.{Side, buy, sell}
use delta_quant.Exits.{ManagedPosition, ExitSettings, Tracked, update_price}
use delta_quant.Exits.Rules.{
  ExitRule, Moment, update_trailing, check_breakeven, tighter, best_stop, trail, risk, move,
}
use delta_quant.Exits.Cycle.{
  or_zero, visit, divides_by_zero, manage_stop, check_position, check_exits,
}

-- What a cycle reads: its moment, its prices and its ranges.
abbrev pub Readings : Type 0 → Type 0
Readings R = Moment × Dict R × Dict R

module _ {R : Type 0} ⦃r : Real R⦄ where
  -- `b` is at least as tight a stop as `a`.
  abbrev pub AsTight : Side → R → R → Type 0
  AsTight buy a b = r.le a b ≡ true
  AsTight sell a b = r.le b a ≡ true

  -- What a cycle leaves of a position: the same holding, with a stop no looser.
  pub record Follows (p p' : ManagedPosition R) : Type 0 where
    pub same_id : p'.position_id ≡ p.position_id
    pub same_symbol : p'.symbol ≡ p.symbol
    pub same_side : p'.side ≡ p.side
    pub same_quantity : p'.quantity ≡ p.quantity
    pub same_entry : p'.entry_price ≡ p.entry_price
    pub same_part : p'.partial_taken ≡ p.partial_taken
    pub as_tight : AsTight p.side p.current_stop p'.current_stop

  -- What is tracked under an id afterwards.
  abbrev pub Tracks : Text → ManagedPosition R → Tracked R → Type 0
  Tracks id p ps = (p' : ManagedPosition R) × (lookup id ps ≡ some p') × Follows p p'

  unfoldable pub cycles : ExitSettings R → List (Readings R) → Tracked R → Tracked R
  unfolding check_exits
  cycles c [] ps = ps
  cycles c ((m, prices, atrs) ∷ rest) ps = cycles c rest (check_exits c m prices atrs ps).0

module _ {R : Type 0} ⦃r : Real R⦄ (laws : IsOrdered R) where
  AsTight-refl : (s : Side) (a : R) → AsTight s a a
  AsTight-refl buy a = laws.le_refl a
  AsTight-refl sell a = laws.le_refl a

  AsTight-trans : (s : Side) (a b c : R) → AsTight s a b → AsTight s b c → AsTight s a c
  AsTight-trans buy a b c h k = laws.le_trans a b c h k
  AsTight-trans sell a b c h k = laws.le_trans c b a k h

  update_price-Follows : (price : R) (p : ManagedPosition R) → Follows p (update_price price p)
  unfolding update_price
  update_price-Follows price p = record {
    same_id = refl;
    same_symbol = refl;
    same_side = refl;
    same_quantity = refl;
    same_entry = refl;
    same_part = refl;
    as_tight = AsTight-refl p.side p.current_stop;
  }

  Follows-trans : {p q s : ManagedPosition R} → Follows p q → Follows q s → Follows p s
  Follows-trans {p} {q} {s} h k = record {
    same_id = k.same_id ∙ h.same_id;
    same_symbol = k.same_symbol ∙ h.same_symbol;
    same_side = k.same_side ∙ h.same_side;
    same_quantity = k.same_quantity ∙ h.same_quantity;
    same_entry = k.same_entry ∙ h.same_entry;
    same_part = k.same_part ∙ h.same_part;
    as_tight =
        AsTight-trans p.side p.current_stop q.current_stop s.current_stop h.as_tight
          (rw h.same_side at (k.as_tight));
  }

  AsTight-of_tighter : (s : Side) (a b : R) → tighter s b a ≡ true → AsTight s a b
  AsTight-of_tighter buy a b h = laws.le_of_lt a b h
  AsTight-of_tighter sell a b h = laws.le_of_lt b a h

  best_stop-AsTight : (s : Side) (a b : R) → AsTight s a (best_stop s a b)
  best_stop-AsTight buy a b = ground (arith, laws.le_refl a, laws.le_of_lt a b)
  best_stop-AsTight sell a b = ground (arith, laws.le_refl a, laws.le_of_lt b a)

  -- A position whose stop alone has moved.
  moved-Follows :
      (p : ManagedPosition R) (stop : R) (breakeven : Bool)
      → AsTight p.side p.current_stop stop
      → Follows p (record p { current_stop = stop; breakeven_moved = breakeven })
  moved-Follows p stop breakeven h = record {
    same_id = refl;
    same_symbol = refl;
    same_side = refl;
    same_quantity = refl;
    same_entry = refl;
    same_part = refl;
    as_tight = h;
  }

  Follows-refl : (p : ManagedPosition R) → Follows p p
  Follows-refl p =
      moved-Follows p p.current_stop p.breakeven_moved (AsTight-refl p.side p.current_stop)

  update_trailing-Follows :
      (c : ExitSettings R) (atr : R) (p : ManagedPosition R) → Follows p (update_trailing c atr p)
  unfolding update_trailing
  update_trailing-Follows c atr p =
      let level = trail c atr p in
      elim (Bool-cases
        (tighter p.side level p.current_stop && tighter p.side level p.entry_price)) [
          | inl up ↦ rw up (
              moved-Follows p level p.breakeven_moved
                (AsTight-of_tighter p.side p.current_stop level (ground arith)))
          | inr stay ↦ rw stay (Follows-refl p)
        ]

  check_breakeven-Follows :
      (c : ExitSettings R) (price : R) (p : ManagedPosition R)
      → Follows p (check_breakeven c price p)
  unfolding check_breakeven
  check_breakeven-Follows c price p = elim (Bool-cases (p.breakeven_moved || risk p ≼ real 0)) [
    | inl done ↦ rw done (Follows-refl p)
    | inr free ↦ rw free (elim (Bool-cases (c.breakeven_r_threshold ≼ move p price ⊘ risk p)) [
      | inl far ↦ rw far (
          moved-Follows p (best_stop p.side p.current_stop p.entry_price) true
            (best_stop-AsTight p.side p.current_stop p.entry_price))
      | inr near ↦ rw near (Follows-refl p)
    ])
  ]

  manage_stop-Follows :
      (c : ExitSettings R) (m : Moment) (price atr : R) (p : ManagedPosition R)
      → Follows p (manage_stop c m price atr p)
  unfolding manage_stop
  manage_stop-Follows c m price atr p = elim (Bool-cases (real 0 ≺ atr)) [
    | inl live ↦ rw live (
        Follows-trans (update_trailing-Follows c atr p)
          (check_breakeven-Follows c price (update_trailing c atr p)))
    | inr flat ↦ rw flat (check_breakeven-Follows c price p)
  ]

  check_position-Follows :
      (c : ExitSettings R) (m : Moment) (price atr : R) (p : ManagedPosition R)
      → Follows p (check_position c m price atr p).0
  unfolding check_position
  check_position-Follows c m price atr p =
      Follows-trans (update_price-Follows price p)
        (manage_stop-Follows c m price atr (update_price price p))

  -- The entry in front is found, or the lookup goes on behind it.
  in_front :
      (b : Bool) (x x' p : ManagedPosition R) (o o' : Option (ManagedPosition R))
      → Follows x x'
      → (if b then some x else o) ≡ some p
      → (o ≡ some p → (p' : ManagedPosition R) × (o' ≡ some p') × Follows p p')
      → (p' : ManagedPosition R) × ((if b then some x' else o') ≡ some p') × Follows p p'
  in_front true x x' p o o' f h later = (x', refl, let same : x ≡ p = ground arith in rw same at f)
  in_front false x x' p o o' f h later = later h

  visit-Tracks :
      (c : ExitSettings R) (m : Moment) (atrs : Dict R) (k id : Text) (x p : ManagedPosition R)
      (price : Option R) (ps : Tracked R)
      (rest : Tracked R × Option (List (ManagedPosition R × ExitRule R)))
      → lookup id ((k, x) ∷ ps) ≡ some p
      → (lookup id ps ≡ some p → Tracks id p rest.0)
      → Tracks id p (visit c m atrs k x price ps rest).0
  unfolding visit
  visit-Tracks c m atrs k id x p none ps rest h later =
      in_front (id == k) x x p (lookup id ps) (lookup id rest.0) (Follows-refl x) h later
  visit-Tracks c m atrs k id x p (some price) ps rest h later =
      let x' = (check_position c m price (or_zero (lookup x.symbol atrs)) x).0 in
      elim (Bool-cases (divides_by_zero c m x)) [
        | inl raises ↦ rw raises (
            in_front (id == k) x (update_price price x) p (lookup id ps) (lookup id ps)
              (update_price-Follows price x) h (λ found. (p, found, Follows-refl p)))
        | inr going ↦ rw going (
            in_front (id == k) x x' p (lookup id ps) (lookup id rest.0)
              (check_position-Follows c m price (or_zero (lookup x.symbol atrs)) x) h later)
      ]

  check_exits-Tracks :
      (c : ExitSettings R) (m : Moment) (prices atrs : Dict R) (ps : Tracked R) (id : Text)
      (p : ManagedPosition R)
      → lookup id ps ≡ some p
      → Tracks id p (check_exits c m prices atrs ps).0
  unfolding check_exits
  check_exits-Tracks c m prices atrs [] id p h = absurd (ground arith)
  check_exits-Tracks c m prices atrs ((k, x) ∷ ps) id p h =
      visit-Tracks c m atrs k id x p (lookup x.symbol prices) ps (check_exits c m prices atrs ps) h
        (check_exits-Tracks c m prices atrs ps id p)

  -- Over any number of cycles, at any prices and times, a tracked position keeps its id, symbol,
  -- side, quantity and entry price, and its stop never becomes looser.
  pub cycles-Tracks :
      (c : ExitSettings R) (ms : List (Readings R)) (ps : Tracked R) (id : Text)
      (p : ManagedPosition R)
      → lookup id ps ≡ some p
      → Tracks id p (cycles c ms ps)
  unfolding cycles
  cycles-Tracks c [] ps id p h = (p, h, Follows-refl p)
  cycles-Tracks c ((m, prices, atrs) ∷ ms) ps id p h =
      let (q, found, f) = check_exits-Tracks c m prices atrs ps id p h in
      let (s, kept, g) = cycles-Tracks c ms (check_exits c m prices atrs ps).0 id q found in
      (s, kept, Follows-trans f g)
