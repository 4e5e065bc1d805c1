-- ===== src/Cache/Lookup.antt =====
-- What was set is found until it expires.
use delta_quant.Prelude.{
  ℕ, ◌+◌, ◌-◌, ◌≡◌, ◌≢◌, refl, ◌∙◌, inl, inr, false, Option, none, some, List, [], ◌∷◌, ltb, leb,
  ◌==◌, if◌then◌else◌, arith, All, Text, Bool-cases, ==_refl, ==_iff,
}
use delta_quant.Prelude.Dict.{
  Dict, lookup, insert, erase, Distinct, insert-Distinct, lookup-insert, lookup-erase_ne,
}
use delta_quant.Cache.{
  CacheEntry, TtlCache, is_expired, erase_all, expired_keys, cleanup, evict_if_needed, look, get,
  set, ttl_of,
}
use delta_quant.Cache.Erase.{evict-Distinct, cleanup-entry}

abbrev NotIn : Text → List Text → Type 0
NotIn key = All (λ (k : Text). key ≢ k)

module _ {V : Type 0} where
  lookup-erase_all :
      (key : Text) (ks : List Text) (d : Dict (CacheEntry V))
      → NotIn key ks
      → lookup key (erase_all ks d) ≡ lookup key d
  lookup-erase_all key [] d h = refl
  lookup-erase_all key (k ∷ ks) d (apart, h) =
      lookup-erase_all key ks (erase k d) h ∙ lookup-erase_ne key k d apart

  absent-NotIn :
      (now : ℕ) (key : Text) (d : Dict (CacheEntry V))
      → lookup key d ≡ none
      → NotIn key (expired_keys now d)
  absent-NotIn now key [] h = tt
  absent-NotIn now key ((k, e) ∷ d) h =
      let other : (key == k) ≡ false = ground arith in
      let rest = absent-NotIn now key d (rw other at h) in
      elim (Bool-cases (is_expired now e)) [
        | inl old ↦ rw old ((λ same. ground arith), rest)
        | inr fresh ↦ rw fresh rest
      ]

  fresh-NotIn :
      (now : ℕ) (key : Text) (e : CacheEntry V) (d : Dict (CacheEntry V))
      → Distinct d
      → lookup key d ≡ some e
      → is_expired now e ≡ false
      → NotIn key (expired_keys now d)
  fresh-NotIn now key e [] h found fresh = tt
  fresh-NotIn now key e ((k, x) ∷ d) (once, h) found fresh = elim (Bool-cases (key == k)) [
    | inl hit ↦
        let one : key ≡ k = (==_iff key k).0 hit in
        let same : x ≡ e = ground arith in rw (same, fresh) (absent-NotIn now key d (rw one once))
    | inr past ↦
        let rest = fresh-NotIn now key e d h (rw past at found) fresh in
        elim (Bool-cases (is_expired now x)) [
          | inl old ↦ rw old ((λ same. ground arith), rest)
          | inr young ↦ rw young rest
        ]
  ]

  cleanup-fresh :
      (now : ℕ) (key : Text) (e : CacheEntry V) (c : TtlCache V)
      → Distinct c.entries
      → lookup key c.entries ≡ some e
      → is_expired now e ≡ false
      → lookup key (cleanup now c).entries ≡ some e
  unfolding cleanup
  cleanup-fresh now key e c h found fresh =
      elim (Bool-cases (ltb (now - c.last_cleanup) c.cleanup_interval)) [
        | inl early ↦ rw (cleanup, early) found
        | inr due ↦
            rw (cleanup, due)
              (lookup-erase_all key (expired_keys now c.entries) c.entries
                  (fresh-NotIn now key e c.entries h found fresh)
                ∙ found)
      ]

  -- What a cleaned cache answers for a key that had an entry.
  cleanup-look :
      (now : ℕ) (key : Text) (e : CacheEntry V) (c : TtlCache V)
      → Distinct c.entries
      → lookup key c.entries ≡ some e
      → (look key now (cleanup now c)).1 ≡ (if is_expired now e then none else some e.value)
  cleanup-look now key e c h found = elim (Bool-cases (is_expired now e)) [
    | inr fresh ↦ rw (look, cleanup-fresh now key e c h found fresh, fresh) refl
    | inl old ↦ elim (cleanup-entry now key c h) [
      | inl gone ↦ rw (look, gone, old) refl
      | inr kept ↦ rw (look, kept ∙ found, old) refl
    ]
  ]

  -- What is set under a key is what the next lookup answers with while its time runs, and nothing is
  -- answered from then on, whatever was evicted for it and whether or not the lookup cleans up first. Each
  -- key stands once, as in every cache that is used from empty.
  pub get-set :
      (key : Text) (value : V) (ttl : Option ℕ) (now later : ℕ) (c : TtlCache V)
      → Distinct c.entries
      → (get key later (set key value ttl now c)).1
        ≡ (if leb later (now + ttl_of ttl c.default_ttl) then some value else none)
  unfolding get set
  get-set key value ttl now later c h =
      let kept = (evict_if_needed c).entries in
      let entry : CacheEntry V = record {
        value = value;
        expires_at = now + ttl_of ttl c.default_ttl;
      } in
      let at = lookup-insert key key entry kept in
      let found : lookup key (insert key entry kept) ≡ some entry = rw (at, ==_refl key) refl in
      cleanup-look later key entry (set key value ttl now c)
        (insert-Distinct key entry kept (evict-Distinct c h)) found
      ∙ ground arith
