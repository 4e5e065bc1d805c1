-- ===== src/Cache.antt =====
-- src/core/utils/cache.py: `TTLCache`, and the registry of named caches. An operation reads the clock once,
-- in whole seconds of the monotonic clock.
pub mod Erase
pub mod Fresh
pub mod Lookup
pub mod Bounded
mod Samples
use delta_quant.Prelude.{
  ℕ, ◌+◌, ◌-◌, ◌/◌, Bool, true, false, not, Option, none, some, List, [], ◌∷◌, ltb, leb, max,
  length, ◌==◌, select, if◌then◌else◌, is_some, Text,
}
use delta_quant.Prelude.Dict.{Dict, lookup, insert, erase}

pub record CacheEntry (V : Type 0) : Type 0 where
  pub value : V
  pub expires_at : ℕ

pub record TtlCache (V : Type 0) : Type 0 where
  pub default_ttl : ℕ
  pub max_size : ℕ
  pub cleanup_interval : ℕ
  pub entries : Dict (CacheEntry V)
  pub last_cleanup : ℕ
  pub hits : ℕ
  pub misses : ℕ

-- `ttl or self.default_ttl`
abbrev pub ttl_of : Option ℕ → ℕ → ℕ
ttl_of none default_ttl = default_ttl
ttl_of (some ttl) default_ttl = if ttl == 0 then default_ttl else ttl

module _ {V : Type 0} where
  abbrev pub is_expired : ℕ → CacheEntry V → Bool
  is_expired now e = ltb e.expires_at now

  abbrev pub erase_all : List Text → Dict (CacheEntry V) → Dict (CacheEntry V)
  erase_all [] d = d
  erase_all (key ∷ keys) d = erase_all keys (erase key d)

  abbrev pub expired_keys : ℕ → Dict (CacheEntry V) → List Text
  expired_keys now [] = []
  expired_keys now ((key, e) ∷ rest) =
      if is_expired now e then key ∷ expired_keys now rest else expired_keys now rest

  -- `_cleanup`
  unfoldable pub cleanup : ℕ → TtlCache V → TtlCache V
  cleanup now c = if ltb (now - c.last_cleanup) c.cleanup_interval then c else record c {
    entries = erase_all (expired_keys now c.entries) c.entries;
    last_cleanup = now;
  }

  -- `sorted(..., key=expires_at)`, which is stable.
  abbrev pub put_sorted : ℕ × CacheEntry V → Dict (CacheEntry V) → Dict (CacheEntry V)
  put_sorted e [] = e ∷ []
  put_sorted e (x ∷ xs) =
      if leb (e.1.expires_at) (x.1.expires_at) then e ∷ x ∷ xs else x ∷ put_sorted e xs

  abbrev pub sorted : Dict (CacheEntry V) → Dict (CacheEntry V)
  sorted [] = []
  sorted (e ∷ rest) = put_sorted e (sorted rest)

  abbrev pub first_keys : ℕ → Dict (CacheEntry V) → List Text
  first_keys n [] = []
  first_keys n (e ∷ rest) = if n == 0 then [] else e.0 ∷ first_keys (n - 1) rest

  -- `_evict_if_needed`
  unfoldable pub evict_if_needed : TtlCache V → TtlCache V
  evict_if_needed c =
      let oldest = sorted c.entries in
      let to_remove = max 1 (length oldest / 10) in
      if ltb (length c.entries) c.max_size
      then c
      else record c { entries = erase_all (first_keys to_remove oldest) c.entries }

  -- `get`, from the cache after its cleanup.
  abbrev pub look : Text → ℕ → TtlCache V → TtlCache V × Option V
  look key now c = elim (lookup key c.entries) [
    | none ↦ (record c { misses = c.misses + 1 }, none)
    | some e ↦
        if is_expired now e
        then (record c { entries = erase key c.entries; misses = c.misses + 1 }, none)
        else (record c { hits = c.hits + 1 }, some e.value)
  ]

  unfoldable pub get : Text → ℕ → TtlCache V → TtlCache V × Option V
  unfolding cleanup
  get key now c = look key now (cleanup now c)

  unfoldable pub set : Text → V → Option ℕ → ℕ → TtlCache V → TtlCache V
  unfolding evict_if_needed
  set key value ttl now c =
      let c' = evict_if_needed c in
      let entry : CacheEntry V = record {
        value = value;
        expires_at = now + ttl_of ttl c.default_ttl;
      } in
      record c' { entries = insert key entry c'.entries }

  unfoldable pub delete : Text → TtlCache V → TtlCache V × Bool
  delete key c =
      if is_some (lookup key c.entries)
      then (record c { entries = erase key c.entries }, true)
      else (c, false)

  unfoldable pub clear : TtlCache V → TtlCache V
  clear c = record c { entries = [] }

  abbrev pub new_cache : ℕ → ℕ → TtlCache V
  new_cache now default_ttl = record {
    default_ttl = default_ttl;
    max_size = 1_000;
    cleanup_interval = 60;
    entries = [];
    last_cleanup = now;
    hits = 0;
    misses = 0;
  }

  -- `get_cache`: the caches afterwards, and the one of the name.
  unfoldable pub get_cache : Text → ℕ → ℕ → Dict (TtlCache V) → Dict (TtlCache V) × TtlCache V
  get_cache name default_ttl now caches = elim (lookup name caches) [
    | some c ↦ (caches, c)
    | none ↦ (insert name (new_cache now default_ttl) caches, new_cache now default_ttl)
  ]

module _ {V : Type 0} where
  -- `cached` on a call with this key: the result is that of the function, called when nothing is found,
  -- and read at the later time.
  unfoldable pub cached : Text → Option ℕ → ℕ → ℕ → V → TtlCache V → TtlCache V × V
  unfolding get set
  cached key ttl now later result c =
      let (c', found) = get key now c in
      elim found [ some value ↦ (c', value) | none ↦ (set key result ttl later c', result) ]

-- What is done with a cache.
pub data CacheOp (V : Type 0) : Type 0 where
  getting deleting : Text → CacheOp V
  setting : Text → V → Option ℕ → CacheOp V
  clearing : CacheOp V

module _ {V : Type 0} where
  unfoldable pub apply : ℕ → CacheOp V → TtlCache V → TtlCache V
  unfolding get set delete clear
  apply now (getting key) c = (get key now c).0
  apply now (deleting key) c = (delete key c).0
  apply now (setting key value ttl) c = set key value ttl now c
  apply now clearing c = clear c

  unfoldable pub use_cache : List (ℕ × CacheOp V) → TtlCache V → TtlCache V
  unfolding apply
  use_cache [] c = c
  use_cache ((now, op) ∷ ops) c = use_cache ops (apply now op c)
