-- ===== src/Startup/Replay.antt =====
-- A replayed trade has the quantity and the gains of its orders.
use delta_quant.Prelude.{
  ℕ, ◌+◌, ◌-◌, ◌<◌, ◌≤◌, ◌≡◌, refl, ap, ◌∙◌, inl, inr, Bool, true, false, not, ◌&&◌, some, List, [],
  ◌∷◌, ◌==◌, ltb, leb, if◌then◌else◌, arith, Text, Bool-cases, ltb→lt, ==_refl,
}
use delta_quant.Prelude.Dict.{lookup-insert}
use delta_quant.Prelude.Real.{Real, ◌⊕◌}
use delta_quant.Costs.{Side}
use delta_quant.Paper.{Order, same_side}
use delta_quant.Lifecycle.{
  Status, closed, intent, opened, partial, add_fill, Trade, Store, ok, get, commit, is_open,
  same_status,
}
use delta_quant.Lifecycle.Operations.{mark_open, record_add, entered, added, exited, entry_event}
use delta_quant.Lifecycle
use delta_quant.Lifecycle.Closing.{record_exit_open}
use delta_quant.Startup.{
  done, and_then, settle, settle_with, repaired_from_orders, capped_average, entry_reason, fills_of,
  others, entry_fill, exit_fill, replay_leg, replay_legs, repair_from_orders,
}

abbrev pub same_bool : Bool → Bool → Bool
same_bool a b = if a then b else not b

module _ {R : Type 0} where
  abbrev pub is_add : Order R → Bool
  is_add o = o.reason == capped_average

  -- The side that enlarges the trade.
  abbrev pub enlarges : Side → Order R → Bool
  enlarges side o = same_side o.side side

  -- The shares that fills after the entry put into the trade, and those that they take out of it.
  abbrev pub put_in : Side → List (Order R) → ℕ
  put_in side [] = 0
  put_in side (o ∷ rest) =
      if enlarges side o then o.quantity + put_in side rest else put_in side rest

  abbrev pub taken_out : Side → List (Order R) → ℕ
  taken_out side [] = 0
  taken_out side (o ∷ rest) =
      if enlarges side o then taken_out side rest else o.quantity + taken_out side rest

  -- Only the adds are on the side of the entry, no fill takes out more than is left, and none comes after
  -- the last share is taken out.
  abbrev pub covers : Side → ℕ → List (Order R) → Bool
  covers side left [] = true
  covers side left (o ∷ rest) =
      same_bool (is_add o) (enlarges side o)
      && ltb 0 left
      && (if enlarges side o
          then covers side (left + o.quantity) rest
          else leb o.quantity left && covers side (left - o.quantity) rest)

module _ {R : Type 0} ⦃r : Real R⦄ where
  -- The gains of the exits, on top of some.
  abbrev pub realized : Side → R → List (Order R) → R
  realized side pnl [] = pnl
  realized side pnl (o ∷ rest) =
      if enlarges side o then realized side pnl rest else realized side (pnl ⊕ o.realized_pnl) rest

module _ {R : Type 0} ⦃r : Real R⦄ (now : ℕ) (id : Text) where
  leg_row : Order R → Trade R → Trade R
  leg_row o t = if is_add o then added now (entry_fill id o) t else exited now (exit_fill now o) t

  -- The row is open while shares are left, and closed when none are.
  record Row (left : ℕ) (pnl : R) (s : Store R) : Type 0 where
    row : Trade R
    here : get id s ≡ some row
    remaining : row.remaining_quantity ≡ left
    gains : row.cumulative_pnl ≡ pnl
    shut : left ≡ 0 → row.status ≡ closed
    live : 0 < left → is_open row.status ≡ true

  record_add_open :
      (o : Order R) (s : Store R) (t : Trade R)
      → get id s ≡ some t
      → is_open t.status ≡ true
      → 0 < t.remaining_quantity
      → (s' : Store R) × (record_add now id (entry_fill id o) s ≡ ok s')
        × (get id s' ≡ some (added now (entry_fill id o) t))
  unfolding record_add commit
  record_add_open o s t here going some_left =
      let t' = added now (entry_fill id o) t in
      let bigger : (t.remaining_quantity + o.quantity == 0) ≡ false = ground arith in
      (
        commit id t' (entry_event now (entry_fill id o) t add_fill) s,
        rw (here, record_add, going, bigger) refl,
        rw (lookup-insert id id t' s.trades, ==_refl id) refl,
      )

  mark_open_intent :
      (o : Order R) (s : Store R) (t : Trade R)
      → get id s ≡ some t
      → t.status ≡ intent
      → (s' : Store R) × (mark_open now id (entry_fill id o) s ≡ ok s')
        × (get id s' ≡ some (entered now (entry_fill id o) t))
  unfolding mark_open commit
  mark_open_intent o s t here waiting =
      let t' = entered now (entry_fill id o) t in
      let not_open : same_status t.status opened ≡ false = ground (arith, waiting) in
      (
        commit id t' (entry_event now (entry_fill id o) t Lifecycle.entry_fill) s,
        rw (here, mark_open, not_open) refl,
        rw (lookup-insert id id t' s.trades, ==_refl id) refl,
      )

  replay_add :
      (o : Order R) (left : ℕ) (pnl : R) (s : Store R)
      → is_add o ≡ true
      → 0 < left
      → Row left pnl s
      → (s' : Store R) × (replay_leg now id o s ≡ done s') × Row (left + o.quantity) pnl s'
  unfolding replay_leg
  replay_add o left pnl s kind some_left h =
      let t = h.row in
      let (s', added_row, there) =
        record_add_open o s t h.here (h.live some_left) (omega (arith, h.remaining)) in
      (
        s',
        rw (kind, replay_leg) (ap (settle s) added_row),
        record {
          row = added now (entry_fill id o) t;
          here = there;
          remaining = ap (λ n. n + o.quantity) h.remaining;
          gains = h.gains;
          shut = λ z. absurd (omega arith);
          live = λ z. h.live some_left;
        },
      )

  replay_exit :
      (o : Order R) (left : ℕ) (pnl : R) (s : Store R)
      → is_add o ≡ false
      → 0 < left
      → o.quantity ≤ left
      → Row left pnl s
      → (s' : Store R) × (replay_leg now id o s ≡ done s')
        × Row (left - o.quantity) (pnl ⊕ o.realized_pnl) s'
  unfolding replay_leg
  replay_exit o left pnl s kind some_left fits h =
      let t = h.row in
      let (s', taken, there) =
        record_exit_open now id (exit_fill now o) s t h.here (h.live some_left) in
      (
        s',
        rw (kind, replay_leg) (ap (settle_with s) taken),
        record {
          row = exited now (exit_fill now o) t;
          here = there;
          remaining = ap (λ n. n - o.quantity) h.remaining;
          gains = ap (λ x. x ⊕ o.realized_pnl) h.gains;
          shut = λ z.
              let nothing : (t.remaining_quantity - o.quantity == 0) ≡ true =
                ground (arith, h.remaining) in
              rw nothing refl;
          live = λ z.
              let more : (t.remaining_quantity - o.quantity == 0) ≡ false =
                ground (arith, h.remaining) in
              rw more refl;
        },
      )

  replay_legs_lem :
      (side : Side) (rest : List (Order R)) (left : ℕ) (pnl : R) (s : Store R)
      → covers side left rest ≡ true
      → Row left pnl s
      → (s' : Store R) × (left' : ℕ) × (replay_legs now id rest s ≡ done s')
        × (left' + taken_out side rest ≡ left + put_in side rest)
        × Row left' (realized side pnl rest) s'
  unfolding replay_legs
  replay_legs_lem side [] left pnl s fits h = (s, left, refl, refl, h)
  replay_legs_lem side (o ∷ rest) left pnl s fits h = elim (Bool-cases (enlarges side o)) [
    | inl add ↦
        let (s', leg, h') = replay_add o left pnl s (ground (arith, add)) (ground arith) h in
        let (s'', left', legs, count, end) =
          replay_legs_lem side rest (left + o.quantity) pnl s' (ground (arith, add)) h' in
        (s'', left', rw (leg, legs) refl, rw add (omega arith), rw add end)
    | inr exit ↦
        let within : o.quantity ≤ left = ground (arith, exit) in
        let (s', leg, h') =
          replay_exit o left pnl s (ground (arith, exit)) (ground arith) within h in
        let (s'', left', legs, count, end) =
          replay_legs_lem side rest (left - o.quantity) (pnl ⊕ o.realized_pnl) s'
            (ground (arith, exit)) h' in
        (s'', left', rw (leg, legs) refl, rw exit (omega arith), rw exit end)
  ]

  -- What the row says of the fills: the shares, the gains, and whether the trade is closed or open.
  abbrev pub IsReplayed : Trade R → Order R → List (Order R) → Trade R → Type 0
  IsReplayed t entry rest t' =
      (t'.remaining_quantity + taken_out entry.side rest ≡ entry.quantity + put_in entry.side rest)
      × (t'.cumulative_pnl ≡ realized entry.side t.cumulative_pnl rest)
      × (same_status t'.status closed ≡ (t'.remaining_quantity == 0))
      × (is_open t'.status ≡ ltb 0 t'.remaining_quantity)

  Row-IsReplayed :
      (t : Trade R) (entry : Order R) (rest : List (Order R)) (left : ℕ) (s : Store R)
      → left + taken_out entry.side rest ≡ entry.quantity + put_in entry.side rest
      → Row left (realized entry.side t.cumulative_pnl rest) s
      → (t' : Trade R) × (get id s ≡ some t') × IsReplayed t entry rest t'
  Row-IsReplayed t entry rest left s count h =
      let t' = h.row in
      let size : t'.remaining_quantity ≡ left = h.remaining in
      elim (Bool-cases (ltb 0 left)) [
        | inl some_left ↦
            let live = h.live (ltb→lt 0 left some_left) in
            (
              t',
              h.here,
              (omega arith, h.gains, ground (arith, live, size), ground (arith, live, size)),
            )
        | inr none_left ↦
            let shut = h.shut (ground arith) in
            (
              t',
              h.here,
              (omega arith, h.gains, ground (arith, shut, size), ground (arith, shut, size)),
            )
      ]

  -- A trade that is still an intent while its orders were filled is repaired without an error, when the
  -- entry comes first with at least one share, only the averaging adds after it are on its side, no fill on
  -- the other side takes out more shares than are left, and no fill comes after the last share is taken out.
  -- Its row then has the shares of the entry and of the fills on its side, less those of the fills on the
  -- other side, and the gains of these, and is closed if nothing is left and open otherwise.
  pub repair_from_orders_replays :
      (orders : List (Order R)) (entry : Order R) (rest : List (Order R)) (s : Store R)
      (t : Trade R)
      → get id s ≡ some t
      → t.status ≡ intent
      → fills_of orders ≡ entry ∷ rest
      → entry.reason ≡ entry_reason
      → 0 < entry.quantity
      → covers entry.side entry.quantity rest ≡ true
      → (s' : Store R) × (t' : Trade R) × (repair_from_orders now id orders s
          ≡ (done s', repaired_from_orders))
        × (get id s' ≡ some t')
        × IsReplayed t entry rest t'
  unfolding repair_from_orders
  repair_from_orders_replays orders entry rest s t here waiting fills tagged some_bought fits =
      let (s', opened_row, there) = mark_open_intent entry s t here waiting in
      let start : Row entry.quantity t.cumulative_pnl s' = record {
        row = entered now (entry_fill id entry) t;
        here = there;
        remaining = refl;
        gains = refl;
        shut = λ z. absurd (omega arith);
        live = λ z. refl;
      } in
      let (s'', left, legs, count, end) =
        replay_legs_lem entry.side rest entry.quantity t.cumulative_pnl s' fits start in
      let (t', last, good) = Row-IsReplayed t entry rest left s'' count end in
      let first : (entry.reason == entry_reason) ≡ true = ground arith in
      let left_over : others (entry ∷ rest) ≡ rest = rw first refl in
      let both : and_then (settle s (mark_open now id (entry_fill id entry) s))
            (replay_legs now id (others (entry ∷ rest)))
          ≡ done s'' =
        ap (λ p. and_then p (replay_legs now id (others (entry ∷ rest)))) (ap (settle s) opened_row)
        ∙ ap (λ fs. replay_legs now id fs s') left_over
        ∙ legs in
      (
        s'',
        t',
        rw (fills, repair_from_orders, first) (ap (λ p. (p, repaired_from_orders)) both),
        last,
        good,
      )
