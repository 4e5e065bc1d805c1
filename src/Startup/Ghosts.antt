-- ===== src/Startup/Ghosts.antt =====
-- The loop that drops the positions of trades that are not open.
use delta_quant.Prelude.{
  ℕ, ◌+◌, ◌≡◌, ◌≢◌, ◌⊎◌, is_some, refl, inl, inr, true, none, List, [], ◌∷◌, ◌==◌, arith, Text,
  Bool-cases, ==_iff,
}
use delta_quant.Prelude.Dict.{lookup, insert, erase, lookup-erase-none, lookup-erase_ne}
use delta_quant.Exits.{Tracked, ManagedPosition, unregister_position}
use delta_quant.Lifecycle.{Trade}
use delta_quant.Startup.Reconcile.{has_trade, drop_ghosts}

module _ {R : Type 0} where
  -- A dict of positions under their own ids, each id once.
  abbrev pub IsKeyed : Tracked R → Type 0
  IsKeyed [] = Unit
  IsKeyed ((id, p) ∷ rest) = (p.position_id ≡ id) × (lookup id rest ≡ none) × IsKeyed rest

  lookup-insert-none :
      (k id : Text) (p : ManagedPosition R) (ps : Tracked R)
      → k ≢ id
      → lookup k ps ≡ none
      → lookup k (insert id p ps) ≡ none
  lookup-insert-none k id p [] ne h = ground arith
  lookup-insert-none k id p (e ∷ ps) ne h = ground (arith, lookup-insert-none k id p ps ne)

  pub insert-IsKeyed :
      (id : Text) (p : ManagedPosition R) (ps : Tracked R)
      → p.position_id ≡ id
      → IsKeyed ps
      → IsKeyed (insert id p ps)
  insert-IsKeyed id p [] own h = (own, refl, tt)
  insert-IsKeyed id p ((k, q) ∷ ps) own (named, once, rest) = elim (Bool-cases (id == k)) [
    | inl hit ↦ let one : id ≡ k = (==_iff id k).0 hit in rw hit (own, rw one once, rest)
    | inr past ↦
        let apart : k ≢ id = λ e. ground arith in
        rw past (named, lookup-insert-none k id p ps apart once, insert-IsKeyed id p ps own rest)
  ]

  erase-IsKeyed : (id : Text) (ps : Tracked R) → IsKeyed ps → IsKeyed (erase id ps)
  erase-IsKeyed id [] h = tt
  erase-IsKeyed id ((k, q) ∷ ps) (named, once, rest) = elim (Bool-cases (id == k)) [
    | inl hit ↦ rw hit rest
    | inr past ↦ rw past (named, lookup-erase-none k id ps once, erase-IsKeyed id ps rest)
  ]

  lookup-erase_same : (id : Text) (ps : Tracked R) → IsKeyed ps → lookup id (erase id ps) ≡ none
  lookup-erase_same id [] h = refl
  lookup-erase_same id ((k, q) ∷ ps) (named, once, rest) = elim (Bool-cases (id == k)) [
    | inl hit ↦ let one : id ≡ k = (==_iff id k).0 hit in rw hit (rw one once)
    | inr past ↦ rw (past, past) (lookup-erase_same id ps rest)
  ]

  pub drop_ghosts_lem :
      (valid : List (Trade R)) (left ps : Tracked R) (n : ℕ)
      → IsKeyed left
      → IsKeyed ps
      → ((k : Text)
          → is_some (lookup k ps) ≡ true
          → (has_trade k valid ≡ true) ⊎ (is_some (lookup k left) ≡ true))
      → IsKeyed (drop_ghosts valid left (ps, n)).0
        × ((k : Text)
            → is_some (lookup k (drop_ghosts valid left (ps, n)).0) ≡ true
            → has_trade k valid ≡ true)
  unfolding unregister_position
  drop_ghosts_lem valid [] ps n left_keyed keyed each =
      (keyed, λ k found. elim (each k found) [ inl good ↦ good | inr none_left ↦ cc ])
  drop_ghosts_lem valid ((id, p) ∷ left) ps n (named, once, rest) keyed each =
      elim (Bool-cases (has_trade id valid)) [
        | inl good ↦
            rw (named, good)
              (drop_ghosts_lem valid left ps n rest keyed (λ k found. elim (each k found) [
                | inl fine ↦ inl fine
                | inr there ↦ elim (Bool-cases (k == id)) [
                  | inl hit ↦ inl (let one : k ≡ id = (==_iff k id).0 hit in rw one good)
                  | inr past ↦ inr (rw past at there)
                ]
              ]))
        | inr ghost ↦
            rw (named, ghost)
              (drop_ghosts_lem valid left (erase id ps) (n + 1) rest (erase-IsKeyed id ps keyed)
                (λ k found. elim (Bool-cases (k == id)) [
                  | inl hit ↦
                      let one : k ≡ id = (==_iff k id).0 hit in
                      let gone = lookup-erase_same id ps keyed in absurd (ground (arith, gone, one))
                  | inr past ↦
                      let apart : k ≢ id = λ e. ground arith in
                      let kept = lookup-erase_ne k id ps apart in
                      elim (each k (rw kept at found)) [
                        | inl fine ↦ inl fine
                        | inr there ↦ inr (rw past at there)
                      ]
                ]))
      ]
