-- ===== src/Cache/Erase.antt =====
-- What erasing entries leaves of a cache.
use delta_quant.Prelude.{
  ℕ, ◌-◌, ◌/◌, ◌≡◌, ◌⊎◌, refl, ◌∙◌, inl, inr, none, List, [], ◌∷◌, ltb, max, length, ◌==◌, arith,
  Text, Bool-cases, ==_iff,
}
use delta_quant.Prelude.Dict.{
  Dict, lookup, erase, Distinct, erase-Distinct, lookup-erase-same, lookup-erase_ne,
}
use delta_quant.Cache.{
  CacheEntry, TtlCache, erase_all, expired_keys, cleanup, first_keys, sorted, evict_if_needed,
}

module _ {V : Type 0} where
  pub erase_all-Distinct :
      (ks : List Text) (d : Dict (CacheEntry V)) → Distinct d → Distinct (erase_all ks d)
  erase_all-Distinct [] d h = h
  erase_all-Distinct (k ∷ ks) d h = erase_all-Distinct ks (erase k d) (erase-Distinct k d h)

  -- A key is erased or as before.
  unfoldable pub Fewer : Dict (CacheEntry V) → Dict (CacheEntry V) → Type 0
  Fewer d d' = (key : Text) → (lookup key d' ≡ none) ⊎ (lookup key d' ≡ lookup key d)

  pub erase-Fewer : (k : Text) (d : Dict (CacheEntry V)) → Distinct d → Fewer d (erase k d)
  unfolding Fewer
  erase-Fewer k d h key = elim (Bool-cases (key == k)) [
    | inl hit ↦ let one : key ≡ k = (==_iff key k).0 hit in inl (rw one (lookup-erase-same k d h))
    | inr past ↦ inr (lookup-erase_ne key k d (λ e. ground arith))
  ]

  Fewer-trans : (a b c : Dict (CacheEntry V)) → Fewer a b → Fewer b c → Fewer a c
  unfolding Fewer
  Fewer-trans a b c ab bc key = elim (bc key) [
    | inl gone ↦ inl gone
    | inr same ↦ elim (ab key) [ inl gone ↦ inl (same ∙ gone) | inr kept ↦ inr (same ∙ kept) ]
  ]

  pub erase_all-Fewer :
      (ks : List Text) (d : Dict (CacheEntry V)) → Distinct d → Fewer d (erase_all ks d)
  unfolding Fewer
  erase_all-Fewer [] d h key = inr refl
  erase_all-Fewer (k ∷ ks) d h key =
      Fewer-trans d (erase k d) (erase_all ks (erase k d)) (erase-Fewer k d h)
        (erase_all-Fewer ks (erase k d) (erase-Distinct k d h)) key

  pub evict-Distinct : (c : TtlCache V) → Distinct c.entries → Distinct (evict_if_needed c).entries
  unfolding evict_if_needed
  evict-Distinct c h =
      let oldest = sorted c.entries in
      let keys = first_keys (max 1 (length oldest / 10)) oldest in
      elim (Bool-cases (ltb (length c.entries) c.max_size)) [
        | inl room ↦ rw (evict_if_needed, room) h
        | inr full ↦ rw (evict_if_needed, full) (erase_all-Distinct keys c.entries h)
      ]

  -- A key after a cleanup.
  pub cleanup-entry :
      (now : ℕ) (key : Text) (c : TtlCache V)
      → Distinct c.entries
      → (lookup key (cleanup now c).entries ≡ none)
        ⊎ (lookup key (cleanup now c).entries ≡ lookup key c.entries)
  unfolding Fewer cleanup
  cleanup-entry now key c h = elim (Bool-cases (ltb (now - c.last_cleanup) c.cleanup_interval)) [
    | inl early ↦ rw (cleanup, early) (inr refl)
    | inr due ↦ rw (cleanup, due) (erase_all-Fewer (expired_keys now c.entries) c.entries h key)
  ]
