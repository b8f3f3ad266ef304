-- ===== src/LruCache/Tests.antt =====
-- A run of the cache of include/ils_sp/lru_cache.hpp at capacity two.
use ils_sp.Prelude.{ℕ, ◌≡◌, refl, [], arith, ℕ_eq}
use ils_sp.Maps.{find, contains}
use ils_sp.LruCache.{LruCache, get, put}
use ils_sp.LruCache.Links.{entries}
use ils_sp.LruCache.Recency.{touched}
use ils_sp.LruCache.Refinement.{IsValid, put_entry, put-put_entry, get-find}

abbrev empty : LruCache ℕ ℕ
empty = record {
  capacity = 2;
  order = [];
  index = [];
  next = 0;
  hits = 0;
  misses = 0;
  evictions = 0;
}

empty-IsValid : IsValid empty
unfolding entries find contains
empty-IsValid = record {
  linked = record {
    handles = tt;
    keys = tt;
    distinct = tt;
    points = λ k h e. absurd cc;
    pointed = λ k h v e. absurd cc;
  };
  fresh = λ h e. absurd cc;
  sized = refl;
  bounded = omega arith;
}

-- Three entries in a cache of two: the first one leaves.
abbrev filled : LruCache ℕ ℕ
filled = put 5 50 (put 4 40 empty)

filled-IsValid : IsValid filled
filled-IsValid = (put-put_entry 5 50 (put 4 40 empty) (put-put_entry 4 40 empty empty-IsValid).1).1

put-put_entry_example :
    (entries (put 6 60 filled).order ≡ put_entry filled.capacity 6 60 (entries filled.order))
    × IsValid (put 6 60 filled)
put-put_entry_example = put-put_entry 6 60 filled filled-IsValid

get-find_example :
    ((get 4 filled).0 ≡ find 4 (entries filled.order))
    × (entries (get 4 filled).1.order ≡ touched 4 (entries filled.order))
    × IsValid (get 4 filled).1
get-find_example = get-find 4 filled filled-IsValid
