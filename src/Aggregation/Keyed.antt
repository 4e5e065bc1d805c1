-- ===== src/Aggregation/Keyed.antt =====
-- Grouping by a key that is a number: a group holds exactly the items of its key, in their order.
use mathlib.Core.List.{append_assoc, append-nil}
use delta_quant.Prelude.{
  ℕ, ◌≡◌, refl, sym, ◌∙◌, Bool, false, Bool-cases, inl, inr, List, [], ◌∷◌, ◌++◌, ◌==◌, ==_refl,
  if◌then◌else◌, select, arith, All,
}
use delta_quant.Aggregation.Groups.{Group, add_to, group_all}

module _ {ℓ} {A : Type ℓ} (key : A → ℕ) where
  abbrev pub same_key : A → A → Bool
  same_key a b = key a == key b

  -- The items of the first group of a key.
  find_group : ℕ → List (Group A) → List A
  find_group k [] = []
  find_group k ((first, rest) ∷ groups) =
      if key first == k then first ∷ rest else find_group k groups

  find_group-add_to :
      (k : ℕ) (item : A) (groups : List (Group A))
      → find_group k (add_to same_key item groups)
        ≡ (if key item == k then find_group k groups ++ item ∷ [] else find_group k groups)
  unfolding find_group add_to
  find_group-add_to k item [] = refl
  find_group-add_to k item ((first, rest) ∷ groups) =
      ground (arith, find_group-add_to k item groups)

  find_group-group_all :
      (k : ℕ) (items : List A) (groups : List (Group A))
      → find_group k (group_all same_key items groups)
        ≡ find_group k groups ++ select (λ x. key x == k) items
  unfolding group_all
  find_group-group_all k [] groups = sym (append-nil (find_group k groups))
  find_group-group_all k (item ∷ items) groups =
      find_group-group_all k items (add_to same_key item groups)
      ∙ elim (Bool-cases (key item == k)) [
        | inl e ↦
            let step = find_group-add_to k item groups in
            rw (step, e)
              (append_assoc (find_group k groups) (item ∷ []) (select (λ x. key x == k) items))
        | inr e ↦ let step = find_group-add_to k item groups in rw (step, e) refl
      ]

  -- No key has two groups.
  abbrev OneEach : List (Group A) → Type 0
  OneEach [] = Unit
  OneEach ((first, rest) ∷ groups) =
      All (λ (g : Group A). (key g.0 == key first) ≡ false) groups × OneEach groups

  add_to-differs :
      (k : ℕ) (item : A) (groups : List (Group A))
      → (key item == k) ≡ false
      → All (λ (g : Group A). (key g.0 == k) ≡ false) groups
      → All (λ (g : Group A). (key g.0 == k) ≡ false) (add_to same_key item groups)
  unfolding add_to
  add_to-differs k item [] h hs = (h, tt)
  add_to-differs k item ((first, rest) ∷ groups) h hs = elim (Bool-cases (key item == key first)) [
    | inl e ↦ rw e hs
    | inr e ↦ rw e (hs.0, add_to-differs k item groups h hs.1)
  ]

  add_to-OneEach :
      (item : A) (groups : List (Group A)) → OneEach groups → OneEach (add_to same_key item groups)
  unfolding add_to
  add_to-OneEach item [] h = (tt, tt)
  add_to-OneEach item ((first, rest) ∷ groups) h = elim (Bool-cases (key item == key first)) [
    | inl e ↦ rw e h
    | inr e ↦ rw e (add_to-differs (key first) item groups e h.0, add_to-OneEach item groups h.1)
  ]

  group_all-OneEach :
      (items : List A) (groups : List (Group A))
      → OneEach groups
      → OneEach (group_all same_key items groups)
  unfolding group_all
  group_all-OneEach [] groups h = h
  group_all-OneEach (item ∷ items) groups h =
      group_all-OneEach items (add_to same_key item groups) (add_to-OneEach item groups h)

  -- A group of other keys in front changes nothing.
  found_behind :
      (first : A) (rest : List A) (all groups : List (Group A))
      → All (λ (g : Group A). (key g.0 == key first) ≡ false) groups
      → All (λ (g : Group A). g.0 ∷ g.1 ≡ find_group (key g.0) all) groups
      → All (λ (g : Group A). g.0 ∷ g.1 ≡ find_group (key g.0) ((first, rest) ∷ all)) groups
  unfolding find_group
  found_behind first rest all [] differ h = tt
  found_behind first rest all (g ∷ groups) differ h =
      let apart : (key first == key g.0) ≡ false = ground (arith, differ.0) in
      (rw apart h.0, found_behind first rest all groups differ.1 h.1)

  found :
      (groups : List (Group A))
      → OneEach groups
      → All (λ (g : Group A). g.0 ∷ g.1 ≡ find_group (key g.0) groups) groups
  unfolding find_group
  found [] h = tt
  found ((first, rest) ∷ groups) h =
      (rw (==_refl (key first)) refl, found_behind first rest groups groups h.0 (found groups h.1))

  whole_all :
      (items : List A) (all groups : List (Group A))
      → ((k : ℕ) → find_group k all ≡ select (λ x. key x == k) items)
      → All (λ (g : Group A). g.0 ∷ g.1 ≡ find_group (key g.0) all) groups
      → All (λ (g : Group A). g.0 ∷ g.1 ≡ select (λ x. key x == key g.0) items) groups
  whole_all items all [] same h = tt
  whole_all items all (g ∷ groups) same h =
      (h.0 ∙ same (key g.0), whole_all items all groups same h.1)

  -- A group is exactly the items of its key, in their order.
  pub group_all-whole :
      (items : List A)
      → All
          (λ (g : Group A). g.0 ∷ g.1 ≡ select (λ x. key x == key g.0) items)
          (group_all same_key items [])
  unfolding find_group
  group_all-whole items =
      let groups = group_all same_key items [] in
      whole_all items groups groups (λ k. find_group-group_all k items [])
        (found groups (group_all-OneEach items [] tt))
