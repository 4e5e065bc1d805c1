-- ===== src/Paper/Book.antt =====
-- The dict of open positions: each stands under its own id, once, with at least one share.
use delta_quant.Prelude.{
  ℕ, suc, ◌<◌, ◌≡◌, refl, Bool, true, none, some, [], ◌∷◌, inl, inr, arith, Bool-cases, length,
}
use delta_quant.Prelude.Dict.{Dict, lookup, insert, erase, lookup-insert, lookup-erase_ne}
use delta_quant.Paper.{Position}
use delta_quant.Paper.Close.{find}

module _ {R : Type 0} where
  abbrev pub IsKeyed : Dict (Position R) → Type 0
  IsKeyed [] = Unit
  IsKeyed ((k, p) ∷ ps) = (k ≡ p.position_id) × (0 < p.quantity) × (lookup k ps ≡ none) × IsKeyed ps

  -- A position that the scan finds stands under its id and passes the test.
  pub find-lookup :
      (test : Position R → Bool) (ps : Dict (Position R)) {m : Position R}
      → IsKeyed ps
      → find test ps ≡ some m
      → (lookup m.position_id ps ≡ some m) × (test m ≡ true) × (0 < m.quantity)
  unfolding find
  find-lookup test [] h e = cc
  find-lookup test ((k, p) ∷ ps) {m} h e = elim (Bool-cases (test p)) [
    | inl hit ↦ ground arith
    | inr miss ↦
        let (there, passes, many) = find-lookup test ps {m = m} h.3 (rw miss at e) in ground arith
  ]

  pub insert-IsKeyed :
      (k : ℕ) (p : Position R) (ps : Dict (Position R))
      → IsKeyed ps
      → k ≡ p.position_id
      → 0 < p.quantity
      → IsKeyed (insert k p ps)
  insert-IsKeyed k p [] h e q = (e, q, refl, tt)
  insert-IsKeyed k p (x ∷ ps) h e q =
      ground (arith, insert-IsKeyed k p ps h.3 e q, lookup-insert x.0 k p ps)

  pub erase-IsKeyed : (k : ℕ) (ps : Dict (Position R)) → IsKeyed ps → IsKeyed (erase k ps)
  erase-IsKeyed k [] h = tt
  erase-IsKeyed k (x ∷ ps) h = ground (arith, erase-IsKeyed k ps h.3, lookup-erase_ne x.0 k ps)

  pub length-erase :
      (k : ℕ) (ps : Dict (Position R)) {p : Position R}
      → lookup k ps ≡ some p
      → suc (length (erase k ps)) ≡ length ps
  length-erase k [] e = cc
  length-erase k (x ∷ ps) {p} e = ground (arith, length-erase k ps {p = p})

  pub lookup-IsKeyed :
      (k : ℕ) (ps : Dict (Position R)) {p : Position R}
      → IsKeyed ps
      → lookup k ps ≡ some p
      → (k ≡ p.position_id) × (0 < p.quantity)
  lookup-IsKeyed k [] h e = cc
  lookup-IsKeyed k (x ∷ ps) {p} h e = ground (arith, lookup-IsKeyed k ps {p = p} h.3)
