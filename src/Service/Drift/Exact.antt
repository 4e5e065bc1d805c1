-- ===== src/Service/Drift/Exact.antt =====
-- `reconcile_positions` against the net quantities of the two lists.
use delta_quant.Prelude.{
  ℕ, ◌≡◌, ◌↔◌, refl, ap, sym, ◌∙◌, inl, inr, true, ◌&&◌, ◌||◌, Option, none, some, List, [], ◌∷◌,
  ◌==◌, if◌then◌else◌, arith, Text, is_some, Option-cases, Bool-cases, All, ==_iff,
}
use delta_quant.Prelude.Dict.{Dict, lookup, insert, lookup-insert, keys_All}
use delta_quant.Prelude.Int.{ℤ, pos, negsuc, ◌+ℤ◌, int_laws}
use delta_quant.Service.Drift.{
  signed, or_zero, normalize_into, normalize, Holding, Mismatch, missing, mismatch, mismatches,
  is_empty, net, held, Agree, reconcile_positions,
}

is_some-normalize_into :
    (s : Text) (ps : List Holding) (out : Dict ℤ)
    → is_some (lookup s (normalize_into ps out)) ≡ (is_some (lookup s out) || held s ps)
is_some-normalize_into s [] out = ground arith
is_some-normalize_into s (h ∷ ps) out =
    let n = or_zero (lookup h.symbol out) +ℤ signed h in
    let out' = insert h.symbol n out in
    let rest = is_some-normalize_into s ps in
    elim (Bool-cases (h.symbol == 0)) [
      | inl blank ↦ rw blank (rest out)
      | inr named ↦
          let at : lookup s out' ≡ (if s == h.symbol then some n else lookup s out) =
            lookup-insert s h.symbol n out in
          let after = rest out' in rw named (ground (arith, at, after))
    ]

+ℤ_assoc : (a b c : ℤ) → a +ℤ b +ℤ c ≡ a +ℤ (b +ℤ c)
+ℤ_assoc a b c = omega int_laws

or_zero-normalize_into :
    (s : Text) (ps : List Holding) (out : Dict ℤ)
    → or_zero (lookup s (normalize_into ps out)) ≡ or_zero (lookup s out) +ℤ net s ps
or_zero-normalize_into s [] out = omega int_laws
or_zero-normalize_into s (h ∷ ps) out =
    let n = or_zero (lookup h.symbol out) +ℤ signed h in
    let out' = insert h.symbol n out in
    let rest = or_zero-normalize_into s ps in
    elim (Bool-cases (h.symbol == 0)) [
      | inl blank ↦ rw blank (rest out)
      | inr named ↦
          let at : lookup s out' ≡ (if s == h.symbol then some n else lookup s out) =
            lookup-insert s h.symbol n out in
          elim (Bool-cases (s == h.symbol)) [
            | inr other ↦
                rw (named, other) (rest out' ∙ ap (λ o. or_zero o +ℤ net s ps) (rw other at at))
            | inl same ↦
                let key : s ≡ h.symbol = (==_iff s h.symbol).0 same in
                rw (named, same)
                  (rest out'
                    ∙ ap (λ o. or_zero o +ℤ net s ps) (rw same at at)
                    ∙ +ℤ_assoc (or_zero (lookup h.symbol out)) (signed h) (net s ps)
                    ∙ ap (λ t. or_zero (lookup t out) +ℤ (signed h +ℤ net s ps)) (sym key))
          ]
    ]

is_empty-missing :
    (s : Text) (xs other : Dict ℤ)
    → is_empty (missing xs other) ≡ true
    → is_some (lookup s xs) ≡ true
    → is_some (lookup s other) ≡ true
is_empty-missing s [] other h k = cc
is_empty-missing s ((at, n) ∷ xs) other h k = ground (arith, is_empty-missing s xs other)

missing-none :
    (xs other : Dict ℤ)
    → All (λ (e : ℕ × ℤ). is_some (lookup e.0 other) ≡ true) xs
    → is_empty (missing xs other) ≡ true
missing-none [] other all = refl
missing-none (e ∷ xs) other all = rw (all.0) (missing-none xs other all.1)

is_empty-mismatches :
    (s : Text) (xs local broker : Dict ℤ)
    → is_empty (mismatches xs local broker) ≡ true
    → is_some (lookup s xs) ≡ true
    → is_empty (mismatch s (lookup s local) (lookup s broker) []) ≡ true
is_empty-mismatches s [] local broker h k = cc
is_empty-mismatches s ((at, n) ∷ xs) local broker h k =
    ground (arith, is_empty-mismatches s xs local broker)

is_empty-mismatch :
    (s : Text) (o o' : Option ℤ)
    → is_some o ≡ is_some o'
    → is_empty (mismatch s o o' []) ≡ true
    → o ≡ o'
is_empty-mismatch s none none h k = refl
is_empty-mismatch s none (some m) h k = cc
is_empty-mismatch s (some n) none h k = cc
is_empty-mismatch s (some (pos n)) (some (pos m)) h k = ground arith
is_empty-mismatch s (some (pos n)) (some (negsuc m)) h k = ground arith
is_empty-mismatch s (some (negsuc n)) (some (pos m)) h k = ground arith
is_empty-mismatch s (some (negsuc n)) (some (negsuc m)) h k = ground arith

held-normalize : (s : Text) (ps : List Holding) → is_some (lookup s (normalize ps)) ≡ held s ps
held-normalize s ps = is_some-normalize_into s ps []

net-normalize : (s : Text) (ps : List Holding) → or_zero (lookup s (normalize ps)) ≡ net s ps
net-normalize s ps = or_zero-normalize_into s ps [] ∙ omega int_laws

Option-equal : (o o' : Option ℤ) → is_some o ≡ is_some o' → or_zero o ≡ or_zero o' → o ≡ o'
Option-equal none none h k = refl
Option-equal none (some m) h k = cc
Option-equal (some n) none h k = cc
Option-equal (some n) (some m) h k = ap some k

is_empty-mismatch_same : (s : Text) (o : Option ℤ) → is_empty (mismatch s o o []) ≡ true
is_empty-mismatch_same s none = refl
is_empty-mismatch_same s (some (pos n)) = ground arith
is_empty-mismatch_same s (some (negsuc n)) = ground arith

mismatch-rest :
    (s : Text) (o o' : Option ℤ) (rest : List Mismatch)
    → is_empty (mismatch s o o' []) ≡ true
    → is_empty rest ≡ true
    → is_empty (mismatch s o o' rest) ≡ true
mismatch-rest s none o' rest h k = k
mismatch-rest s (some n) none rest h k = k
mismatch-rest s (some n) (some m) rest h k = ground arith

mismatches-none :
    (xs local broker : Dict ℤ)
    → All
        (λ (e : ℕ × ℤ). is_empty (mismatch e.0 (lookup e.0 local) (lookup e.0 broker) []) ≡ true)
        xs
    → is_empty (mismatches xs local broker) ≡ true
mismatches-none [] local broker all = refl
mismatches-none ((at, n) ∷ xs) local broker all =
    mismatch-rest at (lookup at local) (lookup at broker) (mismatches xs local broker) all.0
      (mismatches-none xs local broker all.1)

synced-lookup :
    (local broker : Dict ℤ)
    → is_empty (missing broker local) ≡ true
    → is_empty (missing local broker) ≡ true
    → is_empty (mismatches local local broker) ≡ true
    → (s : Text) → lookup s local ≡ lookup s broker
synced-lookup local broker h k m s = elim (Option-cases (lookup s local)) [
  | inr (n, e) ↦
      let here : is_some (lookup s local) ≡ true = ap is_some e in
      is_empty-mismatch s (lookup s local) (lookup s broker)
        (here ∙ sym (is_empty-missing s local broker k here))
        (is_empty-mismatches s local local broker m here)
  | inl e ↦ elim (Option-cases (lookup s broker)) [
    | inl e' ↦ e ∙ sym e'
    | inr (n, e') ↦ absurd (ground (arith, is_empty-missing s broker local h (ap is_some e')))
  ]
]

same-lookup :
    (local broker : Dict ℤ)
    → ((s : Text) → lookup s local ≡ lookup s broker)
    → is_empty (missing broker local)
        && is_empty (missing local broker)
        && is_empty (mismatches local local broker)
      ≡ true
same-lookup local broker same =
    rw
      (
        missing-none broker local
            (keys_All {P = λ s. is_some (lookup s local) ≡ true} broker (λ s k. rw (same s) k)),
        missing-none local broker (
            keys_All {P = λ s. is_some (lookup s broker) ≡ true} local
              (λ s k. rw (sym (same s)) k)),
        mismatches-none local local broker (
            keys_All {P = λ s. is_empty (mismatch s (lookup s local) (lookup s broker) []) ≡ true}
              local (λ s k. rw (same s) (is_empty-mismatch_same s (lookup s broker)))),
      )
      refl

-- The report says that the positions are in sync exactly when, for each symbol, the broker and the
-- local book both hold it or both do not, and with the same net quantity: the shares of the buys less
-- the shares of the sells, over all of its positions.
pub reconcile_positions_exact :
    (local broker : List Holding)
    → ((reconcile_positions local broker).in_sync ≡ true) ↔ Agree local broker
unfolding reconcile_positions
reconcile_positions_exact local broker = (
  λ h s.
      let same =
        synced-lookup (normalize local) (normalize broker) (ground arith) (ground arith)
          (ground arith) s in
      (
        sym (held-normalize s local) ∙ ap is_some same ∙ held-normalize s broker,
        sym (net-normalize s local) ∙ ap or_zero same ∙ net-normalize s broker,
      ),
  λ agree. same-lookup (normalize local) (normalize broker) (λ s.
      Option-equal _ _ (held-normalize s local ∙ (agree s).0 ∙ sym (held-normalize s broker))
        (net-normalize s local ∙ (agree s).1 ∙ sym (net-normalize s broker))),
)
