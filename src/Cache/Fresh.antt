-- ===== src/Cache/Fresh.antt =====
-- What a cache answers with.
use delta_quant.Prelude.{
  ℕ, ◌+◌, ◌-◌, ◌/◌, ◌≤◌, ◌≡◌, ◌⊎◌, refl, ap, sym, ◌∙◌, inl, inr, Option, none, some, List, [], ◌∷◌,
  ltb, max, length, ◌==◌, if◌then◌else◌, arith, Text, Option-cases, Bool-cases, ==_iff,
}
use delta_quant.Prelude.Dict.{
  lookup, erase, Distinct, insert-Distinct, erase-Distinct, lookup-erase-same, lookup-insert,
}
use delta_quant.Cache.{
  CacheEntry, TtlCache, is_expired, erase_all, expired_keys, cleanup, first_keys, sorted,
  evict_if_needed, look, get, set, delete, clear, CacheOp, getting, deleting, setting, clearing,
  apply, use_cache, ttl_of,
}
use delta_quant.Cache.Erase.{Fewer, erase_all-Distinct, erase-Fewer, erase_all-Fewer}

module _ {V : Type 0} where
  -- The entry of a key that was written last and not deleted since, without any limit of size or time.
  abbrev wrote : ℕ → Text → ℕ → CacheOp V → Option (CacheEntry V) → Option (CacheEntry V)
  wrote default_ttl key now (getting k) e = e
  wrote default_ttl key now (deleting k) e = if key == k then none else e
  wrote default_ttl key now (setting k value ttl) e =
      if key == k
      then some (record { value = value; expires_at = now + ttl_of ttl default_ttl })
      else e
  wrote default_ttl key now clearing e = none

  abbrev pub written :
      ℕ → Text → List (ℕ × CacheOp V) → Option (CacheEntry V) → Option (CacheEntry V)
  written default_ttl key [] e = e
  written default_ttl key ((now, op) ∷ ops) e =
      written default_ttl key ops (wrote default_ttl key now op e)

  -- The key has no entry, or that one.
  record Backed (default_ttl : ℕ) (key : Text) (e : Option (CacheEntry V)) (c : TtlCache V)
      : Type 0 where
    distinct : Distinct c.entries
    entry : (lookup key c.entries ≡ none) ⊎ (lookup key c.entries ≡ e)
    default : c.default_ttl ≡ default_ttl

  -- Erasing entries keeps it.
  Fewer-Backed :
      (default_ttl : ℕ) (key : Text) (e : Option (CacheEntry V)) (c c' : TtlCache V)
      → Fewer c.entries c'.entries
      → Distinct c'.entries
      → c'.default_ttl ≡ c.default_ttl
      → Backed default_ttl key e c
      → Backed default_ttl key e c'
  unfolding Fewer
  Fewer-Backed default_ttl key e c c' fewer distinct same h = record {
    distinct = distinct;
    entry = elim (fewer key) [
      | inl gone ↦ inl gone
      | inr kept ↦ elim h.entry [
        | inl none_there ↦ inl (kept ∙ none_there)
        | inr there ↦ inr (kept ∙ there)
      ]
    ];
    default = same ∙ h.default;
  }

  cleanup-Backed :
      (default_ttl : ℕ) (key : Text) (e : Option (CacheEntry V)) (now : ℕ) (c : TtlCache V)
      → Backed default_ttl key e c
      → Backed default_ttl key e (cleanup now c)
  unfolding cleanup
  cleanup-Backed default_ttl key e now c h =
      let keys = expired_keys now c.entries in
      elim (Bool-cases (ltb (now - c.last_cleanup) c.cleanup_interval)) [
        | inl early ↦ rw (cleanup, early) h
        | inr due ↦
            rw (cleanup, due)
              (Fewer-Backed default_ttl key e c
                (record c { entries = erase_all keys c.entries; last_cleanup = now })
                (erase_all-Fewer keys c.entries h.distinct)
                (erase_all-Distinct keys c.entries h.distinct) refl h)
      ]

  look-Backed :
      (default_ttl : ℕ) (key k : Text) (e : Option (CacheEntry V)) (now : ℕ) (c : TtlCache V)
      → Backed default_ttl key e c
      → Backed default_ttl key e (look k now c).0
  look-Backed default_ttl key k e now c h = elim (Option-cases (lookup k c.entries)) [
    | inl miss ↦
        rw (look, miss) (record { distinct = h.distinct; entry = h.entry; default = h.default })
    | inr (x, found) ↦ elim (Bool-cases (is_expired now x)) [
      | inl old ↦
          rw (look, found, old)
            (Fewer-Backed default_ttl key e c
              (record c { entries = erase k c.entries; misses = c.misses + 1 })
              (erase-Fewer k c.entries h.distinct) (erase-Distinct k c.entries h.distinct) refl h)
      | inr fresh ↦
          rw (look, found, fresh)
            (record { distinct = h.distinct; entry = h.entry; default = h.default })
    ]
  ]

  evict-Backed :
      (default_ttl : ℕ) (key : Text) (e : Option (CacheEntry V)) (c : TtlCache V)
      → Backed default_ttl key e c
      → Backed default_ttl key e (evict_if_needed c)
  unfolding evict_if_needed
  evict-Backed default_ttl key e c h =
      let oldest = sorted c.entries in
      let keys = first_keys (max 1 (length oldest / 10)) oldest in
      elim (Bool-cases (ltb (length c.entries) c.max_size)) [
        | inl room ↦ rw (evict_if_needed, room) h
        | inr full ↦
            rw (evict_if_needed, full)
              (Fewer-Backed default_ttl key e c (record c { entries = erase_all keys c.entries })
                (erase_all-Fewer keys c.entries h.distinct)
                (erase_all-Distinct keys c.entries h.distinct) refl h)
      ]

  delete-Backed :
      (default_ttl : ℕ) (key k : Text) (e : Option (CacheEntry V)) (now : ℕ) (c : TtlCache V)
      → Backed default_ttl key e c
      → Backed default_ttl key (wrote default_ttl key now (deleting k) e) (delete k c).0
  unfolding delete
  delete-Backed default_ttl key k e now c h = elim (Bool-cases (key == k)) [
    | inl hit ↦
        let one : key ≡ k = (==_iff key k).0 hit in
        elim (Option-cases (lookup k c.entries)) [
          | inl absent ↦
              rw (delete, absent)
                (record { distinct = h.distinct; entry = inl (rw one absent); default = h.default })
          | inr (x, there) ↦
              rw (delete, there)
                (record {
                  distinct = erase-Distinct k c.entries h.distinct;
                  entry = inl (rw one (lookup-erase-same k c.entries h.distinct));
                  default = h.default;
                })
        ]
    | inr past ↦ elim (Option-cases (lookup k c.entries)) [
      | inl absent ↦ rw (past, delete, absent) h
      | inr (x, there) ↦
          rw (past, delete, there)
            (Fewer-Backed default_ttl key e c (record c { entries = erase k c.entries })
              (erase-Fewer k c.entries h.distinct) (erase-Distinct k c.entries h.distinct) refl h)
    ]
  ]

  set-Backed :
      (default_ttl : ℕ) (key k : Text) (value : V) (ttl : Option ℕ) (e : Option (CacheEntry V))
      (now : ℕ) (c : TtlCache V)
      → Backed default_ttl key e c
      → Backed default_ttl key
          (wrote default_ttl key now (setting k value ttl) e)
          (set k value ttl now c)
  unfolding set
  set-Backed default_ttl key k value ttl e now c h =
      let h' = evict-Backed default_ttl key e c h in
      let kept = (evict_if_needed c).entries in
      let entry : CacheEntry V = record {
        value = value;
        expires_at = now + ttl_of ttl c.default_ttl;
      } in
      let at = lookup-insert key k entry kept in
      let distinct = insert-Distinct k entry kept h'.distinct in
      elim (Bool-cases (key == k)) [
        | inl hit ↦ rw hit (record {
          distinct = distinct;
          entry = inr (
              rw hit at at
              ∙ ap (λ d. some (record { value = value; expires_at = now + ttl_of ttl d }))
                  h.default);
          default = h'.default;
        })
        | inr past ↦ rw past (record {
          distinct = distinct;
          entry = elim h'.entry [
            | inl gone ↦ inl (rw past at at ∙ gone)
            | inr there ↦ inr (rw past at at ∙ there)
          ];
          default = h'.default;
        })
      ]

  apply-Backed :
      (default_ttl : ℕ) (key : Text) (e : Option (CacheEntry V)) (now : ℕ) (op : CacheOp V)
      (c : TtlCache V)
      → Backed default_ttl key e c
      → Backed default_ttl key (wrote default_ttl key now op e) (apply now op c)
  unfolding apply get set delete clear
  apply-Backed default_ttl key e now (getting k) c h =
      look-Backed default_ttl key k e now (cleanup now c) (cleanup-Backed default_ttl key e now c h)
  apply-Backed default_ttl key e now clearing c h = record {
    distinct = tt;
    entry = inl refl;
    default = h.default;
  }
  apply-Backed default_ttl key e now (deleting k) c h = delete-Backed default_ttl key k e now c h
  apply-Backed default_ttl key e now (setting k value ttl) c h =
      set-Backed default_ttl key k value ttl e now c h

  use_cache-Backed :
      (default_ttl : ℕ) (key : Text) (ops : List (ℕ × CacheOp V)) (e : Option (CacheEntry V))
      (c : TtlCache V)
      → Backed default_ttl key e c
      → Backed default_ttl key (written default_ttl key ops e) (use_cache ops c)
  unfolding use_cache
  use_cache-Backed default_ttl key [] e c h = h
  use_cache-Backed default_ttl key ((now, op) ∷ ops) e c h =
      use_cache-Backed default_ttl key ops (wrote default_ttl key now op e) (apply now op c)
        (apply-Backed default_ttl key e now op c h)

  -- What an answer says: the value is of that entry, which has not expired.
  abbrev pub Answers : Option (CacheEntry V) → ℕ → V → Type 0
  Answers e now value =
      (entry : CacheEntry V) × (e ≡ some entry) × (entry.value ≡ value) × (now ≤ entry.expires_at)

  look-Answers :
      (default_ttl : ℕ) (key : Text) (e : Option (CacheEntry V)) (now : ℕ) (c : TtlCache V)
      (value : V)
      → Backed default_ttl key e c
      → (look key now c).1 ≡ some value
      → Answers e now value
  look-Answers default_ttl key e now c value h answer = elim (Option-cases (lookup key c.entries)) [
    | inl miss ↦ absurd (ground (arith, miss))
    | inr (x, found) ↦ elim (Bool-cases (is_expired now x)) [
      | inl old ↦ absurd (ground (arith, found, old))
      | inr fresh ↦ elim h.entry [
        | inl gone ↦ absurd (ground (arith, found, gone))
        | inr there ↦ (x, sym there ∙ found, ground (arith, found, fresh), ground (arith, fresh))
      ]
    ]
  ]

  -- A cache never answers with anything stale: after any operations on an empty cache, an answer for a key
  -- is the value that was set for it last, not deleted or cleared since, and its time has not run out.
  pub get_fresh :
      (c : TtlCache V) (ops : List (ℕ × CacheOp V)) (key : Text) (now : ℕ) (value : V)
      → c.entries ≡ []
      → (get key now (use_cache ops c)).1 ≡ some value
      → Answers (written c.default_ttl key ops none) now value
  unfolding get
  get_fresh c ops key now value empty answer =
      let start : Backed c.default_ttl key none c = record {
        distinct = rw empty tt;
        entry = inl (rw empty refl);
        default = refl;
      } in
      let used = use_cache-Backed c.default_ttl key ops none c start in
      let e = written c.default_ttl key ops none in
      look-Answers c.default_ttl key e now (cleanup now (use_cache ops c)) value
        (cleanup-Backed c.default_ttl key e now (use_cache ops c) used) answer
