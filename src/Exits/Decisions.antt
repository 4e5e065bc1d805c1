-- ===== src/Exits/Decisions.antt =====
-- Which exit a cycle asks for.
use delta_quant.Prelude.{ℕ, ◌≡◌, Option, none, some, List, [], ◌∷◌, ◌≤◌, ltb, if◌then◌else◌, ◌⊎◌}
use delta_quant.Prelude.Real.{Real}
use delta_quant.Exits.Rules.{ExitRule}

module _ {R : Type 0} where
  -- No rule of the list is above the priority.
  abbrev pub AllBelow : ℕ → List (ExitRule R) → Type 0
  AllBelow n [] = Unit
  AllBelow n (x ∷ xs) = (x.priority ≤ n) × AllBelow n xs

  -- The rule is one of the list.
  abbrev pub IsIn : ExitRule R → List (ExitRule R) → Type 0
  IsIn x [] = ⊥
  IsIn x (y ∷ ys) = (x ≡ y) ⊎ IsIn x ys

  -- What leads a list: nothing leads only the empty one, a rule of the list does if none is above it.
  abbrev pub Leads : Option (ExitRule R) → List (ExitRule R) → Type 0
  Leads none xs = xs ≡ []
  Leads (some x) xs = IsIn x xs × AllBelow x.priority xs

  abbrev prefer : ExitRule R → Option (ExitRule R) → Option (ExitRule R)
  prefer x none = some x
  prefer x (some y) = if ltb x.priority y.priority then some y else some x
