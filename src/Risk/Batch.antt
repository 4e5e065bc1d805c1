-- ===== src/Risk/Batch.antt =====
-- What the entries of a cycle never exceed: src/markets/nse/risk/pretrade.py as the loop of
-- src/markets/nse/runtime/live.py uses it.
use mathlib.Core.List.{append_assoc, append-nil}
use delta_quant.Prelude.{
  Option, none, some, Text, ◌==◌, ℕ, ◌+◌, ◌≤◌, ◌<◌, ◌≡◌, refl, ap, sym, subst, ◌∙◌, inl, inr, Bool,
  true, false, not, ◌&&◌, ◌||◌, List, [], ◌∷◌, ◌++◌, length, length-append, leb, arith, All,
  All-append, Bool-cases,
}
use delta_quant.Prelude.Int.{pos, leb_ℤ}
use delta_quant.Prelude.Real.{Real, real, ◌⊕◌, ◌≺◌, ◌≼◌, IsOrdered}
use delta_quant.Costs.{Side, buy, sell}
use delta_quant.Paper.{same_side}
use delta_quant.Risk.{
  FinalPaperOrder, OpenPosition, Limits, Reason, collect, is_empty, notional, loss_at_stop, sum,
  position_value, position_risk, long_positions, current_exposure, current_risk, has_symbol,
  exposure_pct, share_of_equity, exceeds_daily_loss, tests, evaluate, same_order, has_order,
  reserve, release, Candidate, Account, Submission, limits_for, with_fill, enter, enter_all,
}

-- No test of the list came out true.
abbrev Passed : List (Bool × Reason) → Type 0
Passed = All (λ (e : Bool × Reason). e.0 ≡ false)

is_empty-collect : (ts : List (Bool × Reason)) → is_empty (collect ts) ≡ true → Passed ts
is_empty-collect [] h = tt
is_empty-collect ((true, reason) ∷ ts) h = cc
is_empty-collect ((false, reason) ∷ ts) h = (refl, is_empty-collect ts h)

leb-false : (a b : ℕ) → leb a b ≡ false → b < a
leb-false a b h = ground arith

not-false : (a : Bool) → not a ≡ false → a ≡ true
not-false true h = refl
not-false false h = cc

or_not-false : (a b : Bool) → (a || not b) ≡ false → b ≡ true
or_not-false true b h = cc
or_not-false false b h = not-false b h

module _ {R : Type 0} ⦃r : Real R⦄ where
  -- What the gate asks of an order by itself.
  abbrev pub IsAdmissible : Limits R → FinalPaperOrder R → Type 0
  IsAdmissible l o =
      (same_side o.side buy ≡ true)
      × (leb_ℤ o.quantity (pos 0) ≡ false)
      × ((real 0 ≺ o.stop_loss && o.stop_loss ≺ o.entry_price) ≡ true)
      × ((o.target_price ≼ o.entry_price) ≡ false)
      × ((l.max_position_pct ≺ share_of_equity l (notional o)) ≡ false)
      × ((l.risk_per_trade ≺ share_of_equity l (loss_at_stop o)) ≡ false)

  -- No symbol stands twice: in the positions, the orders before and these.
  abbrev pub AllApart :
      List (OpenPosition R) → List (FinalPaperOrder R) → List (FinalPaperOrder R) → Type 0
  AllApart positions before [] = Unit
  AllApart positions before (o ∷ os) =
      (has_symbol o.symbol positions before ≡ false) × AllApart positions (before ++ o ∷ []) os

  -- The limits of the account, with everything reserved counted in.
  pub record IsWithin (l : Limits R) (positions : List (OpenPosition R))
      (reserved : List (FinalPaperOrder R)) : Type 0 where
    pub entries : l.entries_today + length reserved ≤ l.daily_entry_cap
    pub slots : length positions + length reserved ≤ l.max_positions
    pub apart : AllApart positions [] reserved
    pub admissible : All (IsAdmissible l) reserved
    pub exposure :
        (l.max_total_exposure_pct ≺ exposure_pct l (current_exposure positions reserved)) ≡ false
    pub risk : (l.max_total_risk ≺ share_of_equity l (current_risk positions reserved)) ≡ false
    pub capacity : exceeds_daily_loss l (current_risk positions reserved) ≡ false

  AllApart-append :
      (positions : List (OpenPosition R)) (before os : List (FinalPaperOrder R))
      (o : FinalPaperOrder R)
      → AllApart positions before os
      → has_symbol o.symbol positions (before ++ os) ≡ false
      → AllApart positions before (os ++ o ∷ [])
  AllApart-append positions before [] o h fresh =
      (subst (λ xs. has_symbol o.symbol positions xs ≡ false) (append-nil before) fresh, tt)
  AllApart-append positions before (x ∷ os) o (here, rest) fresh = (
    here,
    AllApart-append positions (before ++ x ∷ []) os o rest (
        subst (λ xs. has_symbol o.symbol positions xs ≡ false)
          (sym (append_assoc before (x ∷ []) os)) fresh),
  )

  sum-append :
      {A : Type 0} (value : A → R) (total : R) (xs : List A) (x : A)
      → sum value total (xs ++ x ∷ []) ≡ sum value total xs ⊕ value x
  sum-append value total [] x = refl
  sum-append value total (y ∷ xs) x = sum-append value (total ⊕ value y) xs x

module _ {R : Type 0} ⦃r : Real R⦄ (add_assoc : (a b c : R) → a ⊕ (b ⊕ c) ≡ a ⊕ b ⊕ c) where
  current_exposure-reserve :
      (positions : List (OpenPosition R)) (reserved : List (FinalPaperOrder R))
      (o : FinalPaperOrder R)
      → current_exposure positions (reserved ++ o ∷ [])
        ≡ current_exposure positions reserved ⊕ notional o
  current_exposure-reserve positions reserved o =
      ap (λ t. sum position_value (real 0) positions ⊕ t) (sum-append notional (real 0) reserved o)
      ∙ add_assoc (sum position_value (real 0) positions) (sum notional (real 0) reserved)
          (notional o)

  current_risk-reserve :
      (positions : List (OpenPosition R)) (reserved : List (FinalPaperOrder R))
      (o : FinalPaperOrder R)
      → current_risk positions (reserved ++ o ∷ [])
        ≡ current_risk positions reserved ⊕ loss_at_stop o
  current_risk-reserve positions reserved o =
      let open_risk = sum position_risk (real 0) (long_positions positions) in
      ap (λ t. open_risk ⊕ t) (sum-append loss_at_stop (real 0) reserved o)
      ∙ add_assoc open_risk (sum loss_at_stop (real 0) reserved) (loss_at_stop o)

  -- What the approval of an order says.
  approved-IsWithin :
      (l : Limits R) (positions : List (OpenPosition R)) (reserved : List (FinalPaperOrder R))
      (o : FinalPaperOrder R)
      → AllApart positions [] reserved
      → All (IsAdmissible l) reserved
      → (evaluate l positions reserved o).approved ≡ true
      → IsWithin l positions (reserve o reserved)
  unfolding evaluate reserve
  approved-IsWithin l positions reserved o apart admissible ok =
      let p = is_empty-collect (tests l positions reserved o) ok in
      let shares = p.1.0 in
      let target = p.1.1.1.0 in
      let p' = p.1.1.1.1.1 in
      let fresh = p'.1.1.0 in
      let size = p'.1.1.1.0 in
      let exposed = p'.1.1.1.1.0 in
      let at_risk = p'.1.1.1.1.1.0 in
      let total = p'.1.1.1.1.1.1.0 in
      let daily = p'.1.1.1.1.1.1.1.0 in
      let more = length-append reserved (o ∷ []) in
      record {
        entries =
            omega
              (arith, more, leb-false l.daily_entry_cap (l.entries_today + length reserved) p'.0);
        slots =
            omega
              (arith, more, leb-false l.max_positions (length positions + length reserved) p'.1.0);
        apart = AllApart-append positions [] reserved o apart fresh;
        admissible = All-append (IsAdmissible l) reserved (o ∷ []) admissible (
          (
            not-false (same_side o.side buy) p.0,
            shares,
            or_not-false (o.entry_price ≼ real 0)
                (real 0 ≺ o.stop_loss && o.stop_loss ≺ o.entry_price) p.1.1.0,
            target,
            size,
            at_risk,
          ),
          tt,
        );
        exposure = rw (current_exposure-reserve positions reserved o) exposed;
        risk = rw (current_risk-reserve positions reserved o) total;
        capacity = rw (current_risk-reserve positions reserved o) daily;
      }

same_side_refl : (side : Side) → same_side side side ≡ true
same_side_refl buy = refl
same_side_refl sell = refl

module _ {R : Type 0} ⦃r : Real R⦄ (ordered : IsOrdered R) where
  same_order_refl : (o : FinalPaperOrder R) → same_order o o ≡ true
  same_order_refl o =
      let entry = ordered.le_refl o.entry_price in
      let stop = ordered.le_refl o.stop_loss in
      let target = ordered.le_refl o.target_price in
      let side = same_side_refl o.side in ground (arith, entry, stop, target, side)

  -- Releasing an order that was just reserved gives back the reservations as they were, in their
  -- order, when no equal order is among them.
  release-reserve :
      (o : FinalPaperOrder R) (reserved : List (FinalPaperOrder R))
      → has_order o reserved ≡ false
      → release o (reserve o reserved) ≡ reserved
  unfolding release reserve
  release-reserve o [] h = rw (same_order_refl o) refl
  release-reserve o (x ∷ xs) h = elim (Bool-cases (same_order x o)) [
    | inl same ↦ absurd (ground (arith, same))
    | inr other ↦ rw other (ap (λ ys. x ∷ ys) (release-reserve o xs (rw other at h)))
  ]

module _ {R : Type 0} ⦃r : Real R⦄ where
  -- No two positions are of one symbol.
  abbrev pub AllDistinct : List (OpenPosition R) → Type 0
  AllDistinct [] = Unit
  AllDistinct (p ∷ ps) = (has_symbol p.symbol ps [] ≡ false) × AllDistinct ps

  -- What the account keeps to between two candidates.
  pub record IsKept (l : Limits R) (a : Account R) : Type 0 where
    pub entries : a.entries_today ≤ l.daily_entry_cap
    pub slots : length a.positions ≤ l.max_positions
    pub distinct : AllDistinct a.positions
    pub released : a.reserved ≡ []

  -- When an order was submitted, everything was within the limits with the order counted in.
  abbrev pub IsGated : Submission R → Type 0
  IsGated s = IsWithin s.limits s.positions (s.order ∷ [])

  has_symbol-append :
      (symbol : Text) (ps : List (OpenPosition R)) (p : OpenPosition R)
      → has_symbol symbol ps [] ≡ false
      → (p.symbol == symbol) ≡ false
      → has_symbol symbol (ps ++ p ∷ []) [] ≡ false
  has_symbol-append symbol [] p h other = ground arith
  has_symbol-append symbol (x ∷ ps) p h other =
      let rest = has_symbol-append symbol ps p (ground arith) other in ground (arith, rest)

  AllDistinct-append :
      (ps : List (OpenPosition R)) (p : OpenPosition R)
      → AllDistinct ps
      → has_symbol p.symbol ps [] ≡ false
      → AllDistinct (ps ++ p ∷ [])
  AllDistinct-append [] p h fresh = (refl, tt)
  AllDistinct-append (x ∷ ps) p h fresh = (
    has_symbol-append x.symbol ps p h.0 (ground arith),
    AllDistinct-append ps p h.1 (ground arith),
  )

  with_fill-IsKept :
      (l l' : Limits R) (o : FinalPaperOrder R) (fill : Option (ℕ × R)) (a : Account R)
      → l'.daily_entry_cap ≡ l.daily_entry_cap
      → l'.max_positions ≡ l.max_positions
      → l'.entries_today ≡ a.entries_today
      → IsWithin l' a.positions (o ∷ [])
      → IsKept l a
      → IsKept l (with_fill o fill a)
  with_fill-IsKept l l' o none a cap slots today w h = h
  with_fill-IsKept l l' o (some (quantity, price)) a cap slots today w h = record {
    entries = omega (arith, w.entries, cap, today);
    slots = omega (arith, w.slots, slots, length-append a.positions (_ ∷ []));
    distinct = AllDistinct-append a.positions _ h.distinct w.apart.0;
    released = h.released;
  }

module _ {R : Type 0} ⦃r : Real R⦄ (ordered : IsOrdered R)
    (add_assoc : (a b c : R) → a ⊕ (b ⊕ c) ≡ a ⊕ b ⊕ c) where
  enter-IsKept :
      (l : Limits R) (c : Candidate R) (a : Account R)
      → IsKept l a
      → IsKept l (enter l c a).0 × All IsGated (enter l c a).1
  unfolding enter
  enter-IsKept l c a h =
      let l' = limits_for l c a in
      let o = c.order in
      elim (Bool-cases (evaluate l' a.positions a.reserved o).approved) [
        | inr refused ↦ rw (enter, refused) (h, tt)
        | inl ok ↦
            let freed : release o (reserve o a.reserved) ≡ [] =
              rw h.released (release-reserve ordered o [] refl) in
            let ok' : (evaluate l' a.positions [] o).approved ≡ true = rw h.released at ok in
            let gated : IsWithin l' a.positions (o ∷ []) =
              approved-IsWithin add_assoc l' a.positions [] o tt tt ok' in
            let a' : Account R = record a { reserved = release o (reserve o a.reserved) } in
            let kept : IsKept l a' = record {
              entries = h.entries;
              slots = h.slots;
              distinct = h.distinct;
              released = freed;
            } in
            rw (enter, ok)
              (with_fill-IsKept l l' o c.fill a' refl refl refl gated kept, (gated, tt))
      ]

  -- The entries of a cycle never take the account over a limit, whatever the fills, and whatever equity and
  -- gains are read for each candidate: afterwards, if before, the entries of the day and the open positions
  -- are at most their caps, no two positions are of one symbol, and nothing is left reserved. Each order that
  -- was submitted was long, of a positive quantity, with its stop below and its target above the entry,
  -- within the limits of one trade, and of a symbol that was not held, and with it counted in the entries,
  -- the positions, the exposure, the risk at the stops and the remaining loss of the day were within the
  -- limits read for it. For exact sums and an ordering of the amounts.
  pub enter_all-IsKept :
      (l : Limits R) (cs : List (Candidate R)) (a : Account R)
      → IsKept l a
      → IsKept l (enter_all l cs a).0 × All IsGated (enter_all l cs a).1
  unfolding enter_all
  enter_all-IsKept l [] a h = (h, tt)
  enter_all-IsKept l (c ∷ cs) a h =
      let (kept, now) = enter-IsKept l c a h in
      let (end, later) = enter_all-IsKept l cs (enter l c a).0 kept in
      (end, All-append IsGated (enter l c a).1 (enter_all l cs (enter l c a).0).1 now later)
