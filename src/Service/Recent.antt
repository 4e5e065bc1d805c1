-- ===== src/Service/Recent.antt =====
-- A key stays in the store while fewer other keys than the limit are recorded after it.
use mathlib.Core.List.{append_assoc}
use delta_quant.Prelude.{
  ℕ, zero, suc, ◌+◌, ◌-◌, ◌≤◌, ◌<◌, ◌≡◌, ◌≢◌, refl, ap, ◌∙◌, inl, inr, Bool, true, false, none,
  some, [], ◌∷◌, ◌++◌, ◌==◌, arith, length, length-append, Bool-cases, Text,
}
use delta_quant.Prelude.Dict.{Dict, lookup, erase, lookup-erase-none}
use delta_quant.Service.{ExecutionResult}
use delta_quant.Service.Keys.{drop, upsert, trim, record_key}

module _ {V : Type 0} where
  lookup-append :
      (k : Text) (xs ys : Dict V) → lookup k xs ≡ none → lookup k (xs ++ ys) ≡ lookup k ys
  lookup-append k [] ys h = refl
  lookup-append k (x ∷ xs) ys h = ground (arith, lookup-append k xs ys)

  length-erase : (j : Text) (xs : Dict V) → length (erase j xs) ≤ length xs
  length-erase j [] = omega arith
  length-erase j (x ∷ xs) = ground (arith, length-erase j xs)

  drop-append : (n : ℕ) (xs ys : Dict V) → n ≤ length xs → drop n (xs ++ ys) ≡ drop n xs ++ ys
  drop-append zero xs ys h = refl
  drop-append (suc n) [] ys h = absurd (omega arith)
  drop-append (suc n) (x ∷ xs) ys h = drop-append n xs ys (omega arith)

  lookup-drop : (k : Text) (n : ℕ) (xs : Dict V) → lookup k xs ≡ none → lookup k (drop n xs) ≡ none
  lookup-drop k zero xs h = h
  lookup-drop k (suc n) [] h = refl
  lookup-drop k (suc n) (x ∷ xs) h = lookup-drop k n xs (ground arith)

  -- The key's row stands once, with at most `n` rows after it.
  pub record Recent (n : ℕ) (k : Text) (v : V) (rows : Dict V) : Type 0 where
    pub older : Dict V
    pub newer : Dict V
    pub split : rows ≡ older ++ (k, v) ∷ newer
    pub not_older : lookup k older ≡ none
    pub few : length newer ≤ n

  pub Recent-lookup :
      (n : ℕ) (k : Text) (v : V) (rows : Dict V) → Recent n k v rows → lookup k rows ≡ some v
  Recent-lookup n k v rows h =
      rw (h.split, lookup-append k h.older ((k, v) ∷ h.newer) h.not_older) (ground arith)

  -- Another key's row goes, wherever it stands.
  erase-split :
      (k j : Text) (v : V) (older newer : Dict V)
      → j ≢ k
      → (older' : Dict V) × (newer' : Dict V) × (erase j (older ++ (k, v) ∷ newer)
          ≡ older' ++ (k, v) ∷ newer')
        × (lookup k older ≡ none → lookup k older' ≡ none)
        × (length newer' ≤ length newer)
  erase-split k j v [] newer ne =
      let other : (j == k) ≡ false = ground arith in
      ([], erase j newer, rw other refl, λ h. h, length-erase j newer)
  erase-split k j v ((i, w) ∷ older) newer ne = elim (Bool-cases (j == i)) [
    | inl hit ↦ (older, newer, rw hit refl, λ h. ground arith, omega arith)
    | inr past ↦
        let (older', newer', split, not_older, few) = erase-split k j v older newer ne in
        ((i, w) ∷ older', newer', rw (past, split) refl, λ h. ground (arith, not_older), few)
  ]

module _ {R : Type 0} (limit : ℕ) where
  trim-Recent :
      (n : ℕ) (k : Text) (v : ExecutionResult R) (rows : Dict (ExecutionResult R))
      → n < limit
      → Recent n k v rows
      → Recent n k v (trim limit rows)
  unfolding trim
  trim-Recent n k v rows h recent =
      let cut = length rows - limit in
      let size : length rows ≡ length recent.older + suc (length recent.newer) =
        ap length recent.split ∙ length-append recent.older ((k, v) ∷ recent.newer) in
      let fits : cut ≤ length recent.older = omega (arith, recent.few) in
      record {
        older = drop cut recent.older;
        newer = recent.newer;
        split =
            ap (drop cut) recent.split ∙ drop-append cut recent.older ((k, v) ∷ recent.newer) fits;
        not_older = lookup-drop k cut recent.older recent.not_older;
        few = recent.few;
      }

  upsert-Recent :
      (k : Text) (v : ExecutionResult R) (rows : Dict (ExecutionResult R))
      → lookup k (erase k rows) ≡ none
      → Recent 0 k v (upsert k v rows)
  unfolding upsert
  upsert-Recent k v rows once = record {
    older = erase k rows;
    newer = [];
    split = refl;
    not_older = once;
    few = omega arith;
  }

  upsert_other-Recent :
      (n : ℕ) (k j : Text) (v w : ExecutionResult R) (rows : Dict (ExecutionResult R))
      → j ≢ k
      → Recent n k v rows
      → Recent (suc n) k v (upsert j w rows)
  unfolding upsert
  upsert_other-Recent n k j v w rows ne recent =
      let (older', newer', split, keep, few) = erase-split k j v recent.older recent.newer ne in
      record {
        older = older';
        newer = newer' ++ (j, w) ∷ [];
        split =
            ap (λ xs. xs ++ (j, w) ∷ []) (ap (erase j) recent.split ∙ split)
            ∙ append_assoc older' ((k, v) ∷ newer') ((j, w) ∷ []);
        not_older = keep recent.not_older;
        few = omega (arith, length-append newer' ((j, w) ∷ []), recent.few, few);
      }

  Recent-weaken :
      (m n : ℕ) (k : Text) (v : ExecutionResult R) (rows : Dict (ExecutionResult R))
      → m ≤ n
      → Recent m k v rows
      → Recent n k v rows
  Recent-weaken m n k v rows le recent = record {
    older = recent.older;
    newer = recent.newer;
    split = recent.split;
    not_older = recent.not_older;
    few = omega (arith, recent.few);
  }

  -- Recording a key that does not stand puts it in front.
  pub record_key-Recent :
      (trims : Bool) (k : Text) (v : ExecutionResult R) (rows : Dict (ExecutionResult R))
      → 0 < limit
      → lookup k rows ≡ none
      → Recent 0 k v (record_key limit true trims k v rows)
  unfolding record_key
  record_key-Recent trims k v rows room fresh =
      let placed = upsert-Recent k v rows (lookup-erase-none k k rows fresh) in
      elim (Bool-cases trims) [
        | inl cut ↦ rw cut (trim-Recent 0 k v (upsert k v rows) room placed)
        | inr whole ↦ rw whole placed
      ]

  -- Recording another key moves it back by one at most.
  pub record_key_other-Recent :
      (writes trims : Bool) (n : ℕ) (k j : Text) (v w : ExecutionResult R)
      (rows : Dict (ExecutionResult R))
      → suc n < limit
      → j ≢ k
      → Recent n k v rows
      → Recent (suc n) k v (record_key limit writes trims j w rows)
  unfolding record_key
  record_key_other-Recent writes trims n k j v w rows room ne recent =
      let moved = upsert_other-Recent n k j v w rows ne recent in
      elim (Bool-cases writes) [
        | inr lost ↦ rw lost (Recent-weaken n (suc n) k v rows (omega arith) recent)
        | inl written ↦ elim (Bool-cases trims) [
          | inl cut ↦ rw (written, cut) (trim-Recent (suc n) k v (upsert j w rows) room moved)
          | inr whole ↦ rw (written, whole) moved
        ]
      ]

  -- The weakening that a submission without a record needs.
  pub Recent-suc :
      (n : ℕ) (k : Text) (v : ExecutionResult R) (rows : Dict (ExecutionResult R))
      → Recent n k v rows
      → Recent (suc n) k v rows
  Recent-suc n k v rows = Recent-weaken n (suc n) k v rows (omega arith)
