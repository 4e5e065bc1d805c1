-- ===== src/Cache/Bounded.antt =====
-- The cache never holds more entries than its size.
use delta_quant.Prelude.{
  ℕ, suc, ◌+◌, ◌-◌, ◌/◌, ◌≤◌, ◌<◌, ◌≡◌, refl, ap, ◌∙◌, inl, inr, true, false, List, [], ◌∷◌, ltb,
  leb, max, length, ◌==◌, is_some, arith, All, Text, Option-cases, Bool-cases, ltb→lt,
}
use delta_quant.Prelude.Dict.{Dict, lookup, insert, erase, keys_All}
use delta_quant.Cache.{
  CacheEntry, TtlCache, is_expired, erase_all, expired_keys, cleanup, put_sorted, sorted,
  first_keys, evict_if_needed, look, get, set, delete, clear, CacheOp, getting, deleting, setting,
  clearing, apply, use_cache, ttl_of,
}

module _ {V : Type 0} where
  length-erase : (k : Text) (d : Dict (CacheEntry V)) → length (erase k d) ≤ length d
  length-erase k [] = omega arith
  length-erase k (e ∷ d) = ground (arith, length-erase k d)

  length-erase-some :
      (k : Text) (d : Dict (CacheEntry V))
      → is_some (lookup k d) ≡ true
      → suc (length (erase k d)) ≡ length d
  length-erase-some k [] h = cc
  length-erase-some k (e ∷ d) h = ground (arith, length-erase-some k d)

  length-erase_all : (ks : List Text) (d : Dict (CacheEntry V)) → length (erase_all ks d) ≤ length d
  length-erase_all [] d = omega arith
  length-erase_all (k ∷ ks) d = omega (arith, length-erase_all ks (erase k d), length-erase k d)

  length-insert :
      (k : Text) (e : CacheEntry V) (d : Dict (CacheEntry V))
      → length (insert k e d) ≤ suc (length d)
  length-insert k e [] = omega arith
  length-insert k e (x ∷ d) = ground (arith, length-insert k e d)

  -- Every entry of the list is found in the dict.
  abbrev Found : Dict (CacheEntry V) → Dict (CacheEntry V) → Type 0
  Found d = All (λ (e : ℕ × CacheEntry V). is_some (lookup e.0 d) ≡ true)

  put_sorted-Found :
      (d : Dict (CacheEntry V)) (e : ℕ × CacheEntry V) (xs : Dict (CacheEntry V))
      → is_some (lookup e.0 d) ≡ true
      → Found d xs
      → Found d (put_sorted e xs)
  put_sorted-Found d e [] here all = (here, tt)
  put_sorted-Found d e (x ∷ xs) here (first, all) =
      elim (Bool-cases (leb (e.1.expires_at) (x.1.expires_at))) [
        | inl before ↦ rw before (here, (first, all))
        | inr after ↦ rw after (first, put_sorted-Found d e xs here all)
      ]

  sorted-Found : (d xs : Dict (CacheEntry V)) → Found d xs → Found d (sorted xs)
  sorted-Found d [] all = tt
  sorted-Found d (e ∷ xs) (here, all) =
      put_sorted-Found d e (sorted xs) here (sorted-Found d xs all)

  length-put_sorted :
      (e : ℕ × CacheEntry V) (xs : Dict (CacheEntry V)) → length (put_sorted e xs) ≡ suc (length xs)
  length-put_sorted e [] = refl
  length-put_sorted e (x ∷ xs) = ground (arith, length-put_sorted e xs)

  length-sorted : (xs : Dict (CacheEntry V)) → length (sorted xs) ≡ length xs
  length-sorted [] = refl
  length-sorted (e ∷ xs) = length-put_sorted e (sorted xs) ∙ ap suc (length-sorted xs)

  -- Evicting some of the oldest entries of a cache that is not empty makes it smaller.
  length-evict :
      (n : ℕ) (d oldest : Dict (CacheEntry V))
      → 0 < n
      → 0 < length oldest
      → Found d oldest
      → length (erase_all (first_keys n oldest) d) < length d
  length-evict n d [] some_left many all = absurd (omega arith)
  length-evict n d (e ∷ rest) some_left many (here, all) =
      let positive : (n == 0) ≡ false = ground arith in
      rw positive (
        omega (
          arith,
          length-erase_all (first_keys (n - 1) rest) (erase (e.0) d),
          length-erase-some (e.0) d here,
        ))

  evict_if_needed-room :
      (c : TtlCache V)
      → 0 < c.max_size
      → length c.entries ≤ c.max_size
      → length (evict_if_needed c).entries < c.max_size
  unfolding evict_if_needed
  evict_if_needed-room c size within = elim (Bool-cases (ltb (length c.entries) c.max_size)) [
    | inl room ↦ rw (evict_if_needed, room) (ltb→lt (length c.entries) c.max_size room)
    | inr full ↦
        let oldest = sorted c.entries in
        let n = max 1 (length oldest / 10) in
        let count = length-sorted c.entries in
        let all =
          sorted-Found c.entries c.entries
            (keys_All {P = λ k. is_some (lookup k c.entries) ≡ true} c.entries (λ k h. h)) in
        let less =
          length-evict n c.entries oldest (omega arith) (ground (arith, count, within, size)) all in
        rw (evict_if_needed, full) (omega (arith, less))
  ]

  -- The size stays, and the entries are not more than before.
  Shrinks : TtlCache V → TtlCache V → Type 0
  Shrinks c c' = (c'.max_size ≡ c.max_size) × (length c'.entries ≤ length c.entries)

  cleanup-Shrinks : (now : ℕ) (c : TtlCache V) → Shrinks c (cleanup now c)
  unfolding Shrinks cleanup
  cleanup-Shrinks now c = elim (Bool-cases (ltb (now - c.last_cleanup) c.cleanup_interval)) [
    | inl early ↦ rw (cleanup, early) (refl, omega arith)
    | inr due ↦ rw (cleanup, due) (refl, length-erase_all (expired_keys now c.entries) c.entries)
  ]

  look-Shrinks : (key : Text) (now : ℕ) (c : TtlCache V) → Shrinks c (look key now c).0
  unfolding Shrinks
  look-Shrinks key now c = elim (Option-cases (lookup key c.entries)) [
    | inl e ↦ rw (look, e) (refl, omega arith)
    | inr (x, e) ↦ elim (Bool-cases (is_expired now x)) [
      | inl old ↦ rw (look, e, old) (refl, length-erase key c.entries)
      | inr fresh ↦ rw (look, e, fresh) (refl, omega arith)
    ]
  ]

  delete-Shrinks : (key : Text) (c : TtlCache V) → Shrinks c (delete key c).0
  unfolding Shrinks delete
  delete-Shrinks key c = elim (Bool-cases (is_some (lookup key c.entries))) [
    | inl there ↦ rw (delete, there) (refl, length-erase key c.entries)
    | inr absent ↦ rw (delete, absent) (refl, omega arith)
  ]

  evict_if_needed-max_size : (c : TtlCache V) → (evict_if_needed c).max_size ≡ c.max_size
  unfolding evict_if_needed
  evict_if_needed-max_size c = elim (Bool-cases (ltb (length c.entries) c.max_size)) [
    | inl room ↦ rw (evict_if_needed, room) refl
    | inr full ↦ rw (evict_if_needed, full) refl
  ]

  -- The size is the limit still, and the entries are within it.
  abbrev pub IsBounded : ℕ → TtlCache V → Type 0
  IsBounded limit c = (c.max_size ≡ limit) × (length c.entries ≤ limit)

  Shrinks-IsBounded :
      (limit : ℕ) (c c' : TtlCache V) → Shrinks c c' → IsBounded limit c → IsBounded limit c'
  unfolding Shrinks
  Shrinks-IsBounded limit c c' (same, fewer) (size, within) =
      (same ∙ size, omega (arith, fewer, within))

  apply-IsBounded :
      (limit now : ℕ) (op : CacheOp V) (c : TtlCache V)
      → 0 < limit
      → IsBounded limit c
      → IsBounded limit (apply now op c)
  unfolding apply get set clear
  apply-IsBounded limit now (getting key) c positive h =
      Shrinks-IsBounded limit (cleanup now c) (look key now (cleanup now c)).0
        (look-Shrinks key now (cleanup now c))
        (Shrinks-IsBounded limit c (cleanup now c) (cleanup-Shrinks now c) h)
  apply-IsBounded limit now (deleting key) c positive h =
      Shrinks-IsBounded limit c (delete key c).0 (delete-Shrinks key c) h
  apply-IsBounded limit now (setting key value ttl) c positive (size, within) =
      let room = evict_if_needed-room c (omega (arith, size)) (omega (arith, size)) in
      let entry : CacheEntry V = record {
        value = value;
        expires_at = now + ttl_of ttl c.default_ttl;
      } in
      let more = length-insert key entry (evict_if_needed c).entries in
      (evict_if_needed-max_size c ∙ size, omega (arith, room, more, size))
  apply-IsBounded limit now clearing c positive (size, within) = (size, omega arith)

  bounded :
      (limit : ℕ) (ops : List (ℕ × CacheOp V)) (c : TtlCache V)
      → 0 < limit
      → IsBounded limit c
      → IsBounded limit (use_cache ops c)
  unfolding use_cache
  bounded limit [] c positive h = h
  bounded limit ((now, op) ∷ ops) c positive h =
      bounded limit ops (apply now op c) positive (apply-IsBounded limit now op c positive h)

  -- However it is used, a cache of a positive size never holds more entries than that.
  pub use_cache-IsBounded :
      (ops : List (ℕ × CacheOp V)) (c : TtlCache V)
      → 0 < c.max_size
      → length c.entries ≤ c.max_size
      → IsBounded c.max_size (use_cache ops c)
  use_cache-IsBounded ops c positive within = bounded c.max_size ops c positive (refl, within)
