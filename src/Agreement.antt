-- ===== src/Agreement.antt =====
-- An executed exit goes to the exit manager (`apply_exit_fill`) and to the ledger (`record_exit`),
-- as in src/markets/nse/runtime/live.py: how the two stay in agreement.
mod Samples
use delta_quant.Prelude.{
  ℕ, ◌-◌, ◌<◌, ◌≡◌, ◌⊎◌, refl, Bool, true, false, Option, none, some, List, [], ◌∷◌, ◌==◌,
  if◌then◌else◌, arith, Text, Bool-cases, inl, inr,
}
use delta_quant.Prelude.Dict.{Dict, lookup, insert, erase, lookup-insert}
use delta_quant.Prelude.Real.{Real}
use delta_quant.Exits.{ManagedPosition, Tracked, apply_exit_fill, reduce_by}
use delta_quant.Lifecycle.{Trade, Store, Result, ok, ExitFill, closed, partial, get, is_open}
use delta_quant.Lifecycle.Operations.{record_exit, exited}
use delta_quant.Lifecycle.Closing.{record_exit_open}

module _ {R : Type 0} where
  -- A key of the tracked positions stands once.
  abbrev pub IsUnrepeated : Tracked R → Type 0
  IsUnrepeated [] = Unit
  IsUnrepeated ((k, p) ∷ ps) = (lookup k ps ≡ none) × IsUnrepeated ps

  lookup-erase_self :
      (id : Text) (ps : Tracked R) → IsUnrepeated ps → lookup id (erase id ps) ≡ none
  lookup-erase_self id [] h = refl
  lookup-erase_self id ((k, p) ∷ ps) h = ground (arith, lookup-erase_self id ps h.1)

  -- The trade is open, and the manager tracks as much as is left of it.
  abbrev pub IsHeld : Text → Tracked R → Store R → Type 0
  IsHeld id ps s =
      (p : ManagedPosition R) × (t : Trade R) × (lookup id ps ≡ some p)
      × (get id s ≡ some t)
      × (is_open t.status ≡ true)
      × (p.quantity ≡ t.remaining_quantity)

  -- The trade is closed with nothing left, and no longer tracked.
  abbrev pub IsGone : Text → Tracked R → Store R → Type 0
  IsGone id ps s =
      (lookup id ps ≡ none)
      × ((t : Trade R) × (get id s ≡ some t) × (t.status ≡ closed) × (t.remaining_quantity ≡ 0))

  apply_exit_fill_all :
      (id : Text) (n : ℕ) (ps : Tracked R) (p : ManagedPosition R)
      → IsUnrepeated ps
      → lookup id ps ≡ some p
      → n == 0 ≡ false
      → p.quantity - n == 0 ≡ true
      → lookup id (apply_exit_fill id n ps).0 ≡ none
  unfolding apply_exit_fill reduce_by
  apply_exit_fill_all id n ps p unrepeated tracked many all =
      rw (tracked, apply_exit_fill, many, all) (lookup-erase_self id ps unrepeated)

  apply_exit_fill_part :
      (id : Text) (n : ℕ) (ps : Tracked R) (p : ManagedPosition R)
      → lookup id ps ≡ some p
      → n == 0 ≡ false
      → p.quantity - n == 0 ≡ false
      → lookup id (apply_exit_fill id n ps).0
        ≡ some (record p { quantity = p.quantity - n; partial_taken = true })
  unfolding apply_exit_fill reduce_by
  apply_exit_fill_part id n ps p tracked many more =
      rw (tracked, apply_exit_fill, many, more)
        (ground (
          arith,
          lookup-insert id id (record p { quantity = p.quantity - n; partial_taken = true }) ps,
        ))

module _ {R : Type 0} ⦃r : Real R⦄ where
  -- An exit of a positive quantity, given to both the exit manager and the ledger while they agree on
  -- an open trade, is recorded; if the ledger says that it closed the trade then the trade is closed
  -- and no longer tracked, and otherwise they agree on what is left. Tracked ids stand once.
  pub exit_agrees :
      (now : ℕ) (id : Text) (f : ExitFill R) (ps : Tracked R) (s : Store R)
      → IsUnrepeated ps
      → IsHeld id ps s
      → 0 < f.quantity
      → let ps' = (apply_exit_fill id f.quantity ps).0 in
        (s' : Store R) × (b : Bool) × (record_exit now id f s ≡ ok (s', b))
        × (((b ≡ true) × IsGone id ps' s') ⊎ ((b ≡ false) × IsHeld id ps' s'))
  exit_agrees now id f ps s unrepeated (p, t, tracked, here, live, same) many =
      let (s', done, there) = record_exit_open now id f s t here live in
      let positive : f.quantity == 0 ≡ false = ground arith in
      let left = t.remaining_quantity - f.quantity in
      let equal : p.quantity - f.quantity ≡ left = omega arith in
      elim (Bool-cases (left == 0)) [
        | inl all ↦ (
          s',
          true,
          rw (done, all) refl,
          inl (
            refl,
            (
              apply_exit_fill_all id f.quantity ps p unrepeated tracked positive (rw equal all),
              (exited now f t, there, rw all refl, ground arith),
            ),
          ),
        )
        | inr more ↦ (
          s',
          false,
          rw (done, more) refl,
          inr (
            refl,
            (
              record p { quantity = p.quantity - f.quantity; partial_taken = true },
              exited now f t,
              apply_exit_fill_part id f.quantity ps p tracked positive (rw equal more),
              there,
              rw more refl,
              equal,
            ),
          ),
        )
      ]
