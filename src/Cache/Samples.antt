-- ===== src/Cache/Samples.antt =====
-- A cache of two entries.
use delta_quant.Prelude.{ℕ, ◌+◌, ◌≡◌, refl, none, some, List, [], ◌∷◌, arith, leb, if◌then◌else◌}
use delta_quant.Cache.{
  TtlCache, get, set, delete, cleanup, evict_if_needed, apply, use_cache, CacheOp, getting,
  deleting, setting,
}
use delta_quant.Cache.Fresh.{Answers, written, get_fresh}
use delta_quant.Cache.Bounded.{IsBounded, use_cache-IsBounded}
use delta_quant.Cache.Lookup.{get-set}

abbrev empty_cache : TtlCache ℕ
empty_cache = record {
  default_ttl = 300;
  max_size = 2;
  cleanup_interval = 60;
  entries = [];
  last_cleanup = 0;
  hits = 0;
  misses = 0;
}

abbrev uses : List (ℕ × CacheOp ℕ)
uses =
    (1, setting 7 70 none)
    ∷ (2, setting 8 80 (some 20))
    ∷ (3, setting 7 71 (some 100))
    ∷ (4, setting 9 90 none)
    ∷ (5, getting 8)
    ∷ (6, deleting 8)
    ∷ []

abbrev used : TtlCache ℕ
used = use_cache uses empty_cache

use_cache-IsBounded_example : IsBounded 2 used
use_cache-IsBounded_example = use_cache-IsBounded uses empty_cache (omega arith) (omega arith)

answers_9 : (get 9 70 used).1 ≡ some 90
unfolding get use_cache apply set delete cleanup evict_if_needed
answers_9 = refl

get_fresh_example : Answers (written 300 9 uses none) 70 90
get_fresh_example = get_fresh empty_cache uses 9 70 90 refl answers_9

get-set_example :
    (get 7 80 (set 7 70 (some 20) 61 empty_cache)).1 ≡ (if leb 80 (61 + 20) then some 70 else none)
get-set_example = get-set 7 70 (some 20) 61 80 empty_cache tt
