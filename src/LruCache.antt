-- ===== src/LruCache.antt =====
-- include/ils_sp/lru_cache.hpp: the cache that evicts the entry used least recently. The list's
-- nodes have handles, which stand for the iterators that the index holds.
pub mod Links
pub mod Recency
pub mod Updates
pub mod Refinement
mod Tests
use ils_sp.Prelude.{
  ℕ, ◌+◌, Bool, Option, none, some, List, [], ◌∷◌, ◌++◌, length, Eq, ℕ_eq, if◌then◌else◌, nat_eq,
  ltb, Result, ok, throw, invalid_argument,
}
use ils_sp.Maps.{find, contains, assign, erase}

-- `LruCache`. `next` is a handle that no node has had, as a new node has its own address.
pub record LruCache (K V : Type 0) : Type 0 where
  pub capacity : ℕ
  pub order : List (ℕ × (K × V))
  pub index : List (K × ℕ)
  pub next : ℕ
  pub hits : ℕ
  pub misses : ℕ
  pub evictions : ℕ

-- The constructor.
unfoldable pub new_cache : {K V : Type 0} → ℕ → Result (LruCache K V)
new_cache capacity =
    if nat_eq capacity 0
    then throw invalid_argument
    else ok (record {
      capacity = capacity;
      order = [];
      index = [];
      next = 0;
      hits = 0;
      misses = 0;
      evictions = 0;
    })

module _ {K V : Type 0} ⦃key : Eq K⦄ where
  -- `order_.splice(order_.end(), order_, found->second)`, for the node with that handle.
  unfoldable pub splice_end : ℕ → List (ℕ × (K × V)) → List (ℕ × (K × V))
  splice_end handle order = elim (find handle order) [
    | none ↦ order
    | some item ↦ erase handle order ++ (handle, item) ∷ []
  ]

  -- `get`.
  unfoldable pub get : K → LruCache K V → Option V × LruCache K V
  get k c = elim (find k c.index) [
    | none ↦ (none, record c { misses = c.misses + 1 })
    | some handle ↦ elim (find handle c.order) [
      | none ↦ (none, c)
      | some item ↦ (some item.1, record c { order = splice_end handle c.order; hits = c.hits + 1 })
    ]
  ]

  -- The part of `put` behind the insertion, and `discard_oldest`: the front node leaves.
  unfoldable pub drop_front : LruCache K V → LruCache K V
  drop_front c = elim c.order [
    | [] ↦ c
    | node ∷ rest ↦ record c {
      index = erase node.1.0 c.index;
      order = rest;
      evictions = c.evictions + 1;
    }
  ]

  -- `put`, with the new node, and the eviction where there are too many.
  unfoldable pub append_node : K → V → LruCache K V → LruCache K V
  append_node k v c = record c {
    order = c.order ++ (c.next, (k, v)) ∷ [];
    index = assign k c.next c.index;
    next = c.next + 1;
  }

  unfoldable pub evict : LruCache K V → LruCache K V
  evict c = if ltb c.capacity (length c.index) then drop_front c else c

  unfoldable pub put : K → V → LruCache K V → LruCache K V
  put k v c = elim (find k c.index) [
    | none ↦ evict (append_node k v c)
    | some handle ↦ elim (find handle c.order) [
      | none ↦ c
      | some item ↦ record c { order = splice_end handle (assign handle (item.0, v) c.order) }
    ]
  ]

  -- `contains`, `clear` and `size`.
  unfoldable pub has : K → LruCache K V → Bool
  has k c = contains k c.index

  unfoldable pub clear : LruCache K V → LruCache K V
  clear c = record c { order = []; index = [] }

  unfoldable pub size : LruCache K V → ℕ
  size c = length c.index

  -- `discard_oldest`.
  unfoldable pub discard_oldest : LruCache K V → Option V × LruCache K V
  discard_oldest c = elim c.order [ [] ↦ (none, c) | node ∷ rest ↦ (some node.1.1, drop_front c) ]
