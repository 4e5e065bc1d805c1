-- ===== src/Aggregation/Groups.antt =====
-- src/core/aggregation/consolidation.py: a `defaultdict(list)` of items by a key. A group is its first item
-- and the later ones; two items have the same key when `same` says so.
use delta_quant.Prelude.{
  ℕ, ◌+◌, ◌≡◌, ◌∙◌, Bool, true, Bool-cases, inl, inr, List, [], ◌∷◌, ◌++◌, if◌then◌else◌, arith,
  All, All-append,
}

abbrev pub Group {ℓ} : Type ℓ → Type ℓ
Group A = A × List A

module _ {ℓ} {A : Type ℓ} where
  -- `groups[key].append(item)`
  unfoldable pub add_to : (A → A → Bool) → A → List (Group A) → List (Group A)
  add_to same item [] = (item, []) ∷ []
  add_to same item ((first, rest) ∷ groups) =
      if same item first
      then (first, rest ++ item ∷ []) ∷ groups
      else (first, rest) ∷ add_to same item groups

  unfoldable pub group_all : (A → A → Bool) → List A → List (Group A) → List (Group A)
  group_all same [] groups = groups
  group_all same (item ∷ items) groups = group_all same items (add_to same item groups)

  -- The sum of a weight over a list, and over all groups.
  unfoldable pub weigh : (A → ℕ) → List A → ℕ
  weigh weight [] = 0
  weigh weight (x ∷ xs) = weight x + weigh weight xs

  unfoldable pub weigh_groups : (A → ℕ) → List (Group A) → ℕ
  weigh_groups weight [] = 0
  weigh_groups weight ((first, rest) ∷ groups) =
      weigh weight (first ∷ rest) + weigh_groups weight groups

  pub weigh-append :
      (weight : A → ℕ) (xs ys : List A)
      → weigh weight (xs ++ ys) ≡ weigh weight xs + weigh weight ys
  unfolding weigh
  weigh-append weight [] ys = omega arith
  weigh-append weight (x ∷ xs) ys = omega (arith, weigh-append weight xs ys)

  weigh-add_to :
      (weight : A → ℕ) (same : A → A → Bool) (item : A) (groups : List (Group A))
      → weigh_groups weight (add_to same item groups) ≡ weigh_groups weight groups + weight item
  unfolding weigh_groups weigh add_to
  weigh-add_to weight same item [] = omega arith
  weigh-add_to weight same item ((first, rest) ∷ groups) = elim (Bool-cases (same item first)) [
    | inl e ↦ rw e (omega (arith, weigh-append weight rest (item ∷ [])))
    | inr e ↦ rw e (omega (arith, weigh-add_to weight same item groups))
  ]

  -- Grouping keeps every item, as often as it was given.
  pub weigh-group_all :
      (weight : A → ℕ) (same : A → A → Bool) (items : List A) (groups : List (Group A))
      → weigh_groups weight (group_all same items groups)
        ≡ weigh_groups weight groups + weigh weight items
  unfolding weigh group_all
  weigh-group_all weight same [] groups = omega arith
  weigh-group_all weight same (item ∷ items) groups =
      weigh-group_all weight same items (add_to same item groups)
      ∙ omega (arith, weigh-add_to weight same item groups)

  -- Every later item of a group has the key of its first one.
  abbrev pub Alike : (A → A → Bool) → Group A → Type 0
  Alike same (first, rest) = All (λ item. same item first ≡ true) rest

  add_to-Alike :
      (same : A → A → Bool) (item : A) (groups : List (Group A))
      → All (Alike same) groups
      → All (Alike same) (add_to same item groups)
  unfolding add_to
  add_to-Alike same item [] h = (tt, tt)
  add_to-Alike same item ((first, rest) ∷ groups) h = elim (Bool-cases (same item first)) [
    | inl e ↦ rw e (All-append (λ x. same x first ≡ true) rest (item ∷ []) h.0 (e, tt), h.1)
    | inr e ↦ rw e (h.0, add_to-Alike same item groups h.1)
  ]

  pub group_all-Alike :
      (same : A → A → Bool) (items : List A) (groups : List (Group A))
      → All (Alike same) groups
      → All (Alike same) (group_all same items groups)
  unfolding group_all
  group_all-Alike same [] groups h = h
  group_all-Alike same (item ∷ items) groups h =
      group_all-Alike same items (add_to same item groups) (add_to-Alike same item groups h)

module _ {ℓ κ} {A : Type ℓ} (P : A → Type κ) where
  -- What holds of every item holds in every group.
  abbrev pub Throughout : Group A → Type κ
  Throughout (first, rest) = P first × All P rest

  add_to-Throughout :
      (same : A → A → Bool) (item : A) (groups : List (Group A))
      → P item
      → All Throughout groups
      → All Throughout (add_to same item groups)
  unfolding add_to
  add_to-Throughout same item [] h hs = ((h, tt), tt)
  add_to-Throughout same item ((first, rest) ∷ groups) h hs = elim (Bool-cases (same item first)) [
    | inl e ↦ rw e ((hs.0.0, All-append P rest (item ∷ []) hs.0.1 (h, tt)), hs.1)
    | inr e ↦ rw e (hs.0, add_to-Throughout same item groups h hs.1)
  ]

  pub group_all-Throughout :
      (same : A → A → Bool) (items : List A) (groups : List (Group A))
      → All P items
      → All Throughout groups
      → All Throughout (group_all same items groups)
  unfolding group_all
  group_all-Throughout same [] groups h hs = hs
  group_all-Throughout same (item ∷ items) groups h hs =
      group_all-Throughout same items (add_to same item groups) h.1
        (add_to-Throughout same item groups h.0 hs)

  All-split : (xs ys : List A) → All P (xs ++ ys) → All P xs × All P ys
  All-split [] ys h = (tt, h)
  All-split (x ∷ xs) ys h = let (hx, hy) = All-split xs ys h.1 in ((h.0, hx), hy)

  add_to-back :
      (same : A → A → Bool) (item : A) (groups : List (Group A))
      → All Throughout (add_to same item groups)
      → P item × All Throughout groups
  unfolding add_to
  add_to-back same item [] h = (h.0.0, tt)
  add_to-back same item ((first, rest) ∷ groups) h = elim (Bool-cases (same item first)) [
    | inl e ↦
        let h' = rw e at h in
        let (kept, added) = All-split rest (item ∷ []) h'.0.1 in (added.0, ((h'.0.0, kept), h'.1))
    | inr e ↦
        let h' = rw e at h in
        let (added, kept) = add_to-back same item groups h'.1 in (added, (h'.0, kept))
  ]

  -- What holds in every group holds of every item.
  pub group_all-back :
      (same : A → A → Bool) (items : List A) (groups : List (Group A))
      → All Throughout (group_all same items groups)
      → All P items × All Throughout groups
  unfolding group_all
  group_all-back same [] groups h = (tt, h)
  group_all-back same (item ∷ items) groups h =
      let (rest, grown) = group_all-back same items (add_to same item groups) h in
      let (first, kept) = add_to-back same item groups grown in ((first, rest), kept)
