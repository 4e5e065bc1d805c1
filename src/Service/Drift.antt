-- ===== src/Service/Drift.antt =====
-- `_normalize` and `reconcile_positions` of src/markets/nse/execution/live_executor.py, on positions
-- already fetched. The report's lists keep the order of the dicts; the code sorts them by symbol.
pub mod Exact
use delta_quant.Prelude.{
  ℕ, ◌≡◌, ◌↔◌, refl, ap, sym, ◌∙◌, inl, inr, Bool, true, false, not, ◌&&◌, ◌||◌, Option, none, some,
  List, [], ◌∷◌, ◌==◌, if◌then◌else◌, arith, Text, is_some, Option-cases, Bool-cases, All, ==_iff,
  ==_refl,
}
use delta_quant.Prelude.Dict.{Dict, lookup, insert, lookup-insert}
use delta_quant.Prelude.Int.{ℤ, pos, negsuc, ◌+ℤ◌, ◌-ℤ◌, int_laws}
use delta_quant.Costs.{Side, buy, sell}

-- A position of either side as the code reads it: the side is `BUY` or anything else.
pub record Holding : Type 0 where
  pub symbol : Text
  pub quantity : ℤ
  pub side : Side

abbrev pub signed : Holding → ℤ
signed h = elim h.side [ buy ↦ h.quantity | sell ↦ pos 0 -ℤ h.quantity ]

abbrev pub or_zero : Option ℤ → ℤ
or_zero none = pos 0
or_zero (some n) = n

-- The loop of `_normalize`, from the dict so far.
abbrev pub normalize_into : List Holding → Dict ℤ → Dict ℤ
normalize_into [] out = out
normalize_into (h ∷ rest) out =
    normalize_into rest (
      if h.symbol == 0
      then out
      else insert h.symbol (or_zero (lookup h.symbol out) +ℤ signed h) out)

abbrev pub normalize : List Holding → Dict ℤ
normalize positions = normalize_into positions []

pub record Mismatch : Type 0 where
  pub symbol : Text
  pub local_qty : ℤ
  pub broker_qty : ℤ

pub record ReconciliationReport : Type 0 where
  pub in_sync : Bool
  pub broker_only : List Text
  pub local_only : List Text
  pub quantity_mismatches : List Mismatch

abbrev pub eqb_ℤ : ℤ → ℤ → Bool
eqb_ℤ (pos m) (pos n) = m == n
eqb_ℤ (negsuc m) (negsuc n) = m == n
eqb_ℤ _ _ = false

-- The symbols of the first dict that the second one lacks.
abbrev pub missing : Dict ℤ → Dict ℤ → List Text
missing [] other = []
missing ((symbol, n) ∷ rest) other =
    if is_some (lookup symbol other) then missing rest other else symbol ∷ missing rest other

abbrev pub mismatch : Text → Option ℤ → Option ℤ → List Mismatch → List Mismatch
mismatch symbol (some n) (some m) rest =
    if eqb_ℤ n m then rest else record { symbol = symbol; local_qty = n; broker_qty = m } ∷ rest
mismatch symbol _ _ rest = rest

-- The symbols that both dicts have, with different quantities.
abbrev pub mismatches : Dict ℤ → Dict ℤ → Dict ℤ → List Mismatch
mismatches [] local broker = []
mismatches ((symbol, n) ∷ rest) local broker =
    mismatch symbol (lookup symbol local) (lookup symbol broker) (mismatches rest local broker)

abbrev pub is_empty {ℓ} : {A : Type ℓ} → List A → Bool
is_empty [] = true
is_empty (x ∷ xs) = false

unfoldable pub reconcile_positions : List Holding → List Holding → ReconciliationReport
reconcile_positions local_positions broker_positions =
    let local = normalize local_positions in
    let broker = normalize broker_positions in
    let broker_only = missing broker local in
    let local_only = missing local broker in
    let differing = mismatches local local broker in
    record {
      in_sync = is_empty broker_only && is_empty local_only && is_empty differing;
      broker_only = broker_only;
      local_only = local_only;
      quantity_mismatches = differing;
    }

-- Whether a position is one of the symbol's; a blank symbol is passed over.
abbrev pub counts : Text → Holding → Bool
counts symbol h = if h.symbol == 0 then false else symbol == h.symbol

-- The net quantity of a symbol, and whether it is held at all.
abbrev pub net : Text → List Holding → ℤ
net symbol [] = pos 0
net symbol (h ∷ rest) = if counts symbol h then signed h +ℤ net symbol rest else net symbol rest

abbrev pub held : Text → List Holding → Bool
held symbol [] = false
held symbol (h ∷ rest) = counts symbol h || held symbol rest

-- The two lists agree on each symbol.
abbrev pub Agree : List Holding → List Holding → Type 0
Agree local broker = (s : Text) → (held s local ≡ held s broker) × (net s local ≡ net s broker)
