-- ===== src/Prelude/Dict.antt =====
-- A Python dict keyed by texts, in insertion order.
use Prim.Native.Nat.{ℕ}
use mathlib.Core.Path.{◌≡◌, refl}
use mathlib.Core.Logic.{◌≢◌, inl, inr}
use mathlib.Core.Bool.{true, false}
use mathlib.Core.Option.{Option, none, some}
use mathlib.Core.List.{List, [], ◌∷◌}
use native.Mathlib.Omega.{arith}
use delta_quant.Prelude.Bools.{Bool-cases, ==_iff, ◌==◌, ==_refl, is_some, if◌then◌else◌}
use delta_quant.Prelude.Lists.{All}

-- The entries, oldest first.
abbrev pub Dict {ℓ} : Type ℓ → Type ℓ
Dict V = List (ℕ × V)

module _ {ℓ} {V : Type ℓ} where
  -- `d.pop(key, None)`
  abbrev pub erase : ℕ → Dict V → Dict V
  erase key [] = []
  erase key (entry ∷ rest) = if key == entry.0 then rest else entry ∷ erase key rest

  -- `d.get(key)`
  abbrev pub lookup : ℕ → Dict V → Option V
  lookup key [] = none
  lookup key ((at, value) ∷ rest) = if key == at then some value else lookup key rest

  -- `d[key] = value` keeps the place of a key that is there.
  abbrev pub insert : ℕ → V → Dict V → Dict V
  insert key value [] = (key, value) ∷ []
  insert key value (entry ∷ rest) =
      if key == entry.0 then (key, value) ∷ rest else entry ∷ insert key value rest

  pub lookup-insert :
      (key at : ℕ) (value : V) (d : Dict V)
      → lookup key (insert at value d) ≡ (if key == at then some value else lookup key d)
  lookup-insert key at value [] = ground arith
  lookup-insert key at value (entry ∷ rest) = ground (arith, lookup-insert key at value rest)

  -- Erasing leaves the other keys as they are.
  pub lookup-erase_ne :
      (key other : ℕ) (d : Dict V) → key ≢ other → lookup key (erase other d) ≡ lookup key d
  lookup-erase_ne key other [] distinct = refl
  lookup-erase_ne key other (entry ∷ rest) distinct =
      ground (arith, lookup-erase_ne key other rest distinct)

  -- Erasing adds no key.
  pub lookup-erase-none :
      (key other : ℕ) (d : Dict V) → lookup key d ≡ none → lookup key (erase other d) ≡ none
  lookup-erase-none key other [] absent = refl
  lookup-erase-none key other (entry ∷ rest) absent =
      ground (arith, lookup-erase-none key other rest)

  -- What holds of every key that is found holds of every entry's key.
  pub keys_All {κ} :
      {P : ℕ → Type κ} (d : Dict V)
      → ((key : ℕ) → is_some (lookup key d) ≡ true → P key)
      → All (λ (entry : ℕ × V). P entry.0) d
  keys_All [] each = tt
  keys_All ((at, value) ∷ rest) each =
      (each at (rw (==_refl at) refl), keys_All rest (λ key found. each key (ground arith)))

  -- Each key once.
  abbrev pub Distinct : Dict V → Type ℓ
  Distinct [] = Unit
  Distinct ((key, value) ∷ rest) = (lookup key rest ≡ none) × Distinct rest

  lookup-insert-none :
      (key at : ℕ) (value : V) (d : Dict V)
      → key ≢ at
      → lookup key d ≡ none
      → lookup key (insert at value d) ≡ none
  lookup-insert-none key at value d apart absent =
      let other : (key == at) ≡ false = ground arith in
      rw (lookup-insert key at value d, other) absent

  pub insert-Distinct :
      (key : ℕ) (value : V) (d : Dict V) → Distinct d → Distinct (insert key value d)
  insert-Distinct key value [] h = (refl, tt)
  insert-Distinct key value ((at, old) ∷ rest) (once, h) = elim (Bool-cases (key == at)) [
    | inl hit ↦ let one : key ≡ at = (==_iff key at).0 hit in rw hit (rw one once, h)
    | inr past ↦
        let apart : at ≢ key = λ e. ground arith in
        rw past (lookup-insert-none at key value rest apart once, insert-Distinct key value rest h)
  ]

  pub erase-Distinct : (key : ℕ) (d : Dict V) → Distinct d → Distinct (erase key d)
  erase-Distinct key [] h = tt
  erase-Distinct key ((at, old) ∷ rest) (once, h) = elim (Bool-cases (key == at)) [
    | inl hit ↦ rw hit h
    | inr past ↦ rw past (lookup-erase-none at key rest once, erase-Distinct key rest h)
  ]

  pub lookup-erase-same : (key : ℕ) (d : Dict V) → Distinct d → lookup key (erase key d) ≡ none
  lookup-erase-same key [] h = refl
  lookup-erase-same key ((at, old) ∷ rest) (once, h) = elim (Bool-cases (key == at)) [
    | inl hit ↦ let one : key ≡ at = (==_iff key at).0 hit in rw hit (rw one once)
    | inr past ↦ rw (past, past) (lookup-erase-same key rest h)
  ]
