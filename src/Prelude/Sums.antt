-- ===== src/Prelude/Sums.antt =====
-- Sums of integers over the values of a dict, under its updates.
use Prim.Native.Nat.{ℕ}
use mathlib.Core.Path.{◌≡◌}
use mathlib.Core.Option.{none, some}
use mathlib.Core.List.{[], ◌∷◌}
use delta_quant.Prelude.Int.{ℤ, pos, ◌+ℤ◌, int_laws}
use delta_quant.Prelude.Dict.{Dict, lookup, insert, erase}

module _ {V : Type 0} (g : V → ℤ) where
  abbrev pub sum_of : Dict V → ℤ
  sum_of [] = pos 0
  sum_of ((k, v) ∷ d) = g v +ℤ sum_of d

  pub sum_of-erase :
      (k : ℕ) (v : V) (d : Dict V) → lookup k d ≡ some v → sum_of (erase k d) +ℤ g v ≡ sum_of d
  sum_of-erase k v [] h = cc
  sum_of-erase k v (e ∷ d) h = grind (int_laws, sum_of-erase k v d)

  pub sum_of-insert :
      (k : ℕ) (v old : V) (d : Dict V)
      → lookup k d ≡ some old
      → sum_of (insert k v d) +ℤ g old ≡ sum_of d +ℤ g v
  sum_of-insert k v old [] h = cc
  sum_of-insert k v old (e ∷ d) h = grind (int_laws, sum_of-insert k v old d)

  pub sum_of-insert_new :
      (k : ℕ) (v : V) (d : Dict V) → lookup k d ≡ none → sum_of (insert k v d) ≡ sum_of d +ℤ g v
  sum_of-insert_new k v [] h = omega int_laws
  sum_of-insert_new k v (e ∷ d) h = grind (int_laws, sum_of-insert_new k v d)
