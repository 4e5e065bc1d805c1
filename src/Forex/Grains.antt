-- ===== src/Forex/Grains.antt =====
-- src/markets/forex/runtime/lifecycle.py: the latest candidate of each timeframe, as a map from symbols and
-- timeframes.
use delta_quant.Prelude.{
  ◌≡◌, refl, ap, ◌∙◌, Bool, true, false, ◌&&◌, ◌||◌, Bool-cases, Option, none, some, inl, inr, List,
  [], ◌∷◌, ◌==◌, if◌then◌else◌, arith, Text,
}
use delta_quant.Prelude.Real.{Real}
use delta_quant.Aggregation.{AggregatedCandidate}
use delta_quant.Forex.Conflicts.{
  same_slot, pop, install, pop_all, install_all, update_candidate_state,
}

abbrev pub same_grain : Text × Text → Text × Text → Bool
same_grain a b = b.0 == a.0 && b.1 == a.1

abbrev pub is_changed : Text × Text → List (Text × Text) → Bool
is_changed grain [] = false
is_changed grain (g ∷ gs) = same_grain grain g || is_changed grain gs

abbrev pub or_earlier {ℓ} : {A : Type ℓ} → Option A → Option A → Option A
or_earlier none earlier = earlier
or_earlier (some a) earlier = some a

module _ {R : Type 0} ⦃r : Real R⦄ where
  abbrev pub slot : AggregatedCandidate R → Text × Text
  slot c = (c.symbol, c.timeframe)

  -- The entry of a grain.
  abbrev pub find : Text × Text → List (AggregatedCandidate R) → Option (AggregatedCandidate R)
  find grain [] = none
  find grain (c ∷ cs) = if same_slot grain c then some c else find grain cs

  -- The last of the new candidates that is about a grain.
  abbrev pub latest : Text × Text → List (AggregatedCandidate R) → Option (AggregatedCandidate R)
  latest grain [] = none
  latest grain (c ∷ cs) = or_earlier (latest grain cs) (if same_slot grain c then some c else none)

  -- No grain has two entries.
  abbrev pub AllApart : List (AggregatedCandidate R) → Type 0
  AllApart [] = Unit
  AllApart (c ∷ cs) = (find (slot c) cs ≡ none) × AllApart cs

  -- Grains that are the same have the same entry.
  find_moved :
      (a b : Text × Text) (state : List (AggregatedCandidate R))
      → same_grain a b ≡ true
      → find a state ≡ find b state
  find_moved a b [] h = refl
  find_moved a b (x ∷ xs) h = ground (arith, find_moved a b xs)

  or_earlier_assoc :
      (late : Option (AggregatedCandidate R)) (test : Bool) (c : AggregatedCandidate R)
      (early : Option (AggregatedCandidate R))
      → or_earlier late (if test then some c else early)
        ≡ or_earlier (or_earlier late (if test then some c else none)) early
  or_earlier_assoc none true c early = refl
  or_earlier_assoc none false c early = refl
  or_earlier_assoc (some a) test c early = refl

  find-install :
      (grain : Text × Text) (c : AggregatedCandidate R) (state : List (AggregatedCandidate R))
      → find grain (install c state) ≡ (if same_slot grain c then some c else find grain state)
  find-install grain c [] = refl
  find-install grain c (x ∷ xs) = ground (arith, find-install grain c xs)

  find-pop_ne :
      (grain other : Text × Text) (state : List (AggregatedCandidate R))
      → same_grain grain other ≡ false
      → find grain (pop other state) ≡ find grain state
  find-pop_ne grain other [] h = refl
  find-pop_ne grain other (x ∷ xs) h = ground (arith, find-pop_ne grain other xs)

  find-pop_same :
      (grain other : Text × Text) (state : List (AggregatedCandidate R))
      → same_grain grain other ≡ true
      → AllApart state
      → find grain (pop other state) ≡ none
  find-pop_same grain other [] h apart = refl
  find-pop_same grain other (x ∷ xs) h apart =
      ground (arith, find-pop_same grain other xs, find_moved grain (slot x) xs)

  find-pop-none :
      (grain other : Text × Text) (state : List (AggregatedCandidate R))
      → find grain state ≡ none
      → find grain (pop other state) ≡ none
  find-pop-none grain other [] h = refl
  find-pop-none grain other (x ∷ xs) h = ground (arith, find-pop-none grain other xs)

  pop-AllApart :
      (grain : Text × Text) (state : List (AggregatedCandidate R))
      → AllApart state
      → AllApart (pop grain state)
  pop-AllApart grain [] apart = tt
  pop-AllApart grain (x ∷ xs) apart = elim (Bool-cases (same_slot grain x)) [
    | inl e ↦ rw e apart.1
    | inr e ↦ rw e (find-pop-none (slot x) grain xs apart.0, pop-AllApart grain xs apart.1)
  ]

  install-AllApart :
      (c : AggregatedCandidate R) (state : List (AggregatedCandidate R))
      → AllApart state
      → AllApart (install c state)
  install-AllApart c [] apart = (refl, tt)
  install-AllApart c (x ∷ xs) apart = elim (Bool-cases (same_slot (slot c) x)) [
    | inl e ↦ rw e (ground (arith, apart.0, find_moved (slot c) (slot x) xs), apart.1)
    | inr e ↦
        rw e (ground (arith, apart.0, find-install (slot x) c xs), install-AllApart c xs apart.1)
  ]

  find-pop_all :
      (grain : Text × Text) (grains : List (Text × Text)) (state : List (AggregatedCandidate R))
      → AllApart state
      → find grain (pop_all grains state)
        ≡ (if is_changed grain grains then none else find grain state)
  unfolding pop_all
  find-pop_all grain [] state apart = refl
  find-pop_all grain (g ∷ gs) state apart = elim (Bool-cases (same_grain grain g)) [
    | inl e ↦
        find-pop_all grain gs (pop g state) (pop-AllApart g state apart)
        ∙ rw (e, find-pop_same grain g state e apart) (ground arith)
    | inr e ↦
        find-pop_all grain gs (pop g state) (pop-AllApart g state apart)
        ∙ rw (e, find-pop_ne grain g state e) refl
  ]

  pop_all-AllApart :
      (grains : List (Text × Text)) (state : List (AggregatedCandidate R))
      → AllApart state
      → AllApart (pop_all grains state)
  unfolding pop_all
  pop_all-AllApart [] state apart = apart
  pop_all-AllApart (g ∷ gs) state apart =
      pop_all-AllApart gs (pop g state) (pop-AllApart g state apart)

  find-install_all :
      (grain : Text × Text) (cs state : List (AggregatedCandidate R))
      → find grain (install_all cs state) ≡ or_earlier (latest grain cs) (find grain state)
  unfolding install_all
  find-install_all grain [] state = refl
  find-install_all grain (c ∷ cs) state =
      find-install_all grain cs (install c state)
      ∙ rw (find-install grain c state)
          (or_earlier_assoc (latest grain cs) (same_slot grain c) c (find grain state))

  install_all-AllApart :
      (cs state : List (AggregatedCandidate R)) → AllApart state → AllApart (install_all cs state)
  unfolding install_all
  install_all-AllApart [] state apart = apart
  install_all-AllApart (c ∷ cs) state apart =
      install_all-AllApart cs (install c state) (install-AllApart c state apart)

  -- An update keeps one entry for each symbol and timeframe, and the entry of a grain is afterwards the last
  -- of the new candidates about it; without one it is gone if the grain has changed, and else as it was.
  pub find-update_candidate_state :
      (grain : Text × Text) (changed : List (Text × Text))
      (current state : List (AggregatedCandidate R))
      → AllApart state
      → (find grain (update_candidate_state changed current state)
          ≡ or_earlier
              (latest grain current)
              (if is_changed grain changed then none else find grain state))
        × AllApart (update_candidate_state changed current state)
  unfolding update_candidate_state
  find-update_candidate_state grain changed current state apart = (
    find-install_all grain current (pop_all changed state)
        ∙ ap (or_earlier (latest grain current)) (find-pop_all grain changed state apart),
    install_all-AllApart current (pop_all changed state) (pop_all-AllApart changed state apart),
  )
