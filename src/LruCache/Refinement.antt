-- ===== src/LruCache/Refinement.antt =====
-- include/ils_sp/lru_cache.hpp against a plain list of entries in the order of their use.
use ils_sp.Prelude.{
  ℕ, suc, ◌≤◌, ◌<◌, ◌≡◌, refl, sym, ap, ◌∙◌, ◌⊎◌, true, false, Bool-cases, Option-cases, inl, inr,
  none, some, List, [], ◌∷◌, ◌++◌, length, length-append, Eq, ℕ_eq, if◌then◌else◌, ltb, arith,
  nat_eq_iff,
}
use ils_sp.Maps.{
  find, contains, assign, erase, Distinct, find-assign, contains-find, contains-find-none,
  contains-assign, contains-erase, length-assign, length-erase,
}
use ils_sp.LruCache.{LruCache, splice_end, get, put, append_node, evict, drop_front}
use ils_sp.LruCache.Links.{entries, entries-append, IsLinked, find-entries}
use ils_sp.LruCache.Recency.{
  contains-snoc, splice_end-IsLinked, entries-splice_end, index-entries, splice_end-found, touched,
  get-touched,
}
use ils_sp.LruCache.Updates.{erase-replaced, replaced-IsLinked, grown-IsLinked, dropped-IsLinked}

List-cases : {A : Type 0} (l : List A) → (l ≡ []) ⊎ ((x : A) × ((rest : List A) × (l ≡ x ∷ rest)))
List-cases [] = inl refl
List-cases (x ∷ rest) = inr (x, (rest, refl))

module _ {K V : Type 0} ⦃key : Eq K⦄ where
  -- The invariant of the cache.
  pub record IsValid (c : LruCache K V) : Type 0 where
    pub linked : IsLinked c.order c.index
    pub fresh : (h : ℕ) → contains h c.order ≡ true → h < c.next
    pub sized : length c.index ≡ length c.order
    pub bounded : length c.order ≤ c.capacity

  -- The list's newest entries, one less where there are too many.
  unfoldable pub newest : ℕ → List (K × V) → List (K × V)
  newest capacity [] = []
  newest capacity (e ∷ l) = if ltb capacity (length (e ∷ l)) then l else e ∷ l

  -- What `put` does to a plain list.
  unfoldable pub put_entry : ℕ → K → V → List (K × V) → List (K × V)
  unfolding newest
  put_entry capacity k v l = elim (find k l) [
    | some old ↦ erase k l ++ (k, v) ∷ []
    | none ↦ newest capacity (l ++ (k, v) ∷ [])
  ]

  length-entries : (order : List (ℕ × (K × V))) → length (entries order) ≡ length order
  unfolding entries
  length-entries [] = refl
  length-entries (node ∷ order) = ap suc (length-entries order)

  length-splice_end :
      (h : ℕ) (item : K × V) (order : List (ℕ × (K × V)))
      → find h order ≡ some item
      → length (splice_end h order) ≡ length order
  length-splice_end h item order e = rw (splice_end-found h item order e) (
      omega (
        arith,
        length-append (erase h order) ((h, item) ∷ []),
        length-erase h order (contains-find h order item e),
      ))

  contains-splice_end :
      (h q : ℕ) (item : K × V) (order : List (ℕ × (K × V)))
      → Distinct order
      → find h order ≡ some item
      → contains q (splice_end h order) ≡ contains q order
  contains-splice_end h q item order d e = rw (splice_end-found h item order e) (
      ground (
        arith,
        contains-snoc q h item (erase h order),
        contains-erase h q order d,
        contains-find h order item e,
        nat_eq_iff h q,
      ))

  -- A key that the cache has.
  put_old :
      (h : ℕ) (k : K) (v u : V) (c : LruCache K V)
      → find h c.order ≡ some (k, u)
      → IsValid c
      → (entries (splice_end h (assign h (k, v) c.order))
          ≡ erase k (entries c.order) ++ (k, v) ∷ [])
        × IsValid (record c { order = splice_end h (assign h (k, v) c.order) })
  put_old h k v u c e i =
      let order = assign h (k, v) c.order in
      let linked = replaced-IsLinked h k u v c.order c.index e i.linked in
      let found : find h order ≡ some (k, v) =
        find-assign h h (k, v) c.order ∙ ground (arith, nat_eq_iff h h) in
      let held = contains-find h c.order (k, u) e in
      let size = length-assign h (k, v) c.order in
      let total = length-splice_end h (k, v) order found in
      (
        entries-splice_end h k v order linked.keys found
            ∙ ap (λ l. l ++ (k, v) ∷ []) (erase-replaced h k u v c.order e i.linked.keys),
        record {
          linked = splice_end-IsLinked h k v order c.index found linked;
          fresh = λ q there. ground (
            arith,
            contains-splice_end h q (k, v) order linked.handles found,
            contains-assign h q (k, v) c.order,
            nat_eq_iff h q,
            i.fresh q,
            i.fresh h held,
            there,
          );
          sized = ground (arith, size, total, held, i.sized);
          bounded = ground (arith, size, total, held, i.bounded);
        },
      )

  newest_fits :
      (capacity : ℕ) (l : List (K × V)) → ltb capacity (length l) ≡ false → newest capacity l ≡ l
  unfolding newest
  newest_fits capacity [] e = refl
  newest_fits capacity (x ∷ l) e = rw e refl

  newest_over :
      (capacity : ℕ) (node : ℕ × (K × V)) (rest : List (ℕ × (K × V)))
      → ltb capacity (length (node ∷ rest)) ≡ true
      → newest capacity (entries (node ∷ rest)) ≡ entries rest
  unfolding newest entries
  newest_over capacity node rest e =
      let long : ltb capacity (suc (length (entries rest))) ≡ true =
        ground (arith, length-entries rest, e) in
      rw long refl

  front_found :
      (node : ℕ × (K × V)) (rest : List (ℕ × (K × V))) → find node.0 (node ∷ rest) ≡ some node.1
  unfolding find
  front_found node rest = ground (arith, nat_eq_iff node.0 node.0)

  drop_front-IsValid :
      (node : ℕ × (K × V)) (rest : List (ℕ × (K × V))) (c : LruCache K V)
      → c.order ≡ node ∷ rest
      → IsLinked c.order c.index
      → ((h : ℕ) → contains h c.order ≡ true → h < c.next)
      → length c.index ≡ length c.order
      → length c.order ≤ suc c.capacity
      → (entries (drop_front c).order ≡ entries rest) × IsValid (drop_front c)
  unfolding drop_front contains
  drop_front-IsValid node rest c e l fresh sized bound =
      let m : IsLinked (node ∷ rest) c.index = rw e at l in
      let held = m.pointed node.1.0 node.0 node.1.1 (front_found node rest) in
      rw (e, drop_front)
        (
          refl,
          record {
            linked = dropped-IsLinked node rest c.index m;
            fresh = λ h there. fresh h (rw e (ground (arith, there)));
            sized = omega (
              arith,
              length-erase node.1.0 c.index (contains-find node.1.0 c.index node.0 held),
              sized,
              ap length e,
            );
            bounded = omega (arith, bound, ap length e);
          },
        )

  -- The eviction, on a cache that may have one entry too many.
  evict-newest :
      (c : LruCache K V)
      → IsLinked c.order c.index
      → ((h : ℕ) → contains h c.order ≡ true → h < c.next)
      → length c.index ≡ length c.order
      → length c.order ≤ suc c.capacity
      → (entries (evict c).order ≡ newest c.capacity (entries c.order)) × IsValid (evict c)
  unfolding evict
  evict-newest c l fresh sized bound = elim (Bool-cases (ltb c.capacity (length c.index))) [
    | inr fits ↦
        rw (fits, evict)
          (
            sym (
                newest_fits c.capacity (entries c.order)
                  (ground (arith, fits, length-entries c.order, sized))),
            record {
              linked = l;
              fresh = fresh;
              sized = sized;
              bounded = ground (arith, fits, sized);
            },
          )
    | inl over ↦ elim (List-cases c.order) [
      | inl empty ↦ absurd (ground (arith, ap length empty, over, sized))
      | inr (node, (rest, e)) ↦
          let (same, valid) = drop_front-IsValid node rest c e l fresh sized bound in
          rw (over, evict)
            (
              same
                  ∙ sym (
                      ap (λ o. newest c.capacity (entries o)) e
                      ∙ newest_over c.capacity node rest
                          (ground (arith, over, sized, ap length e))),
              valid,
            )
    ]
  ]

  -- On a valid cache, `put` does to the entries what it does to a plain list, the oldest entry being
  -- evicted where a new key exceeds the capacity, and leaves the cache valid.
  pub put-put_entry :
      (k : K) (v : V) (c : LruCache K V)
      → IsValid c
      → (entries (put k v c).order ≡ put_entry c.capacity k v (entries c.order))
        × IsValid (put k v c)
  unfolding put put_entry append_node entries
  put-put_entry k v c i = elim (Option-cases (find k c.index)) [
    | inr (h, present) ↦
        let (u, found) = i.linked.points k h present in
        let held = find-entries h k u c.order i.linked.keys found in
        rw (present, found, held, put, put_entry) (put_old h k v u c found i)
    | inl absent ↦
        let nothing = index-entries k c.order c.index i.linked absent in
        let unused : contains c.next c.order ≡ false = ground (arith, i.fresh c.next) in
        let done =
          evict-newest (append_node k v c)
            (grown-IsLinked c.next k v c.order c.index unused absent i.linked)
            (λ h there.
              ground (
                arith,
                contains-snoc h c.next (k, v) c.order,
                nat_eq_iff c.next h,
                i.fresh h,
                there,
              ))
            (ground (
              arith,
              length-assign k c.next c.index,
              contains-find-none k c.index absent,
              length-append c.order ((c.next, (k, v)) ∷ []),
              i.sized,
            ))
            (omega (arith, length-append c.order ((c.next, (k, v)) ∷ []), i.bounded)) in
        rw (absent, nothing, put, put_entry)
          (done.0 ∙ ap (newest c.capacity) (entries-append c.order ((c.next, (k, v)) ∷ [])), done.1)
  ]

  get-IsValid : (k : K) (c : LruCache K V) → IsValid c → IsValid (get k c).1
  unfolding get
  get-IsValid k c i = elim (Option-cases (find k c.index)) [
    | inl absent ↦
        rw (absent, get)
          (record { linked = i.linked; fresh = i.fresh; sized = i.sized; bounded = i.bounded })
    | inr (h, present) ↦
        let (v, found) = i.linked.points k h present in
        let total = length-splice_end h (k, v) c.order found in
        rw (present, found, get)
          (record {
            linked = splice_end-IsLinked h k v c.order c.index found i.linked;
            fresh = λ q there.
                i.fresh q
                  (sym (contains-splice_end h q (k, v) c.order i.linked.handles found) ∙ there);
            sized = i.sized ∙ sym total;
            bounded = omega (arith, total, i.bounded);
          })
  ]

  -- On a valid cache, `get` returns what the plain list of entries has under the key, moves that
  -- entry to the end of it and leaves the others in their order, and leaves the cache valid.
  pub get-find :
      (k : K) (c : LruCache K V)
      → IsValid c
      → ((get k c).0 ≡ find k (entries c.order))
        × (entries (get k c).1.order ≡ touched k (entries c.order))
        × IsValid (get k c).1
  get-find k c i =
      let (result, moved, _) = get-touched k c i.linked in (result, moved, get-IsValid k c i)
