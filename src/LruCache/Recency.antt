-- ===== src/LruCache/Recency.antt =====
-- `get` of include/ils_sp/lru_cache.hpp against a plain list of entries in the order of their use.
use ils_sp.Prelude.{
  ℕ, ◌≡◌, refl, sym, ap, ◌∙◌, true, false, Bool-cases, Option-cases, inl, inr, none, some, List, [],
  ◌∷◌, ◌++◌, Eq, ◌==◌, ℕ_eq, beq_refl, if◌then◌else◌, arith, nat_eq_iff,
}
use ils_sp.Maps.{
  find, contains, erase, Distinct, find-erase, contains-find, contains-erase, Distinct-erase,
}
use ils_sp.LruCache.{LruCache, splice_end, get}
use ils_sp.LruCache.Links.{entries, entries-append, IsLinked, find-entries, erase-entries}

-- A new last entry, in a list of keys that lacks it.
module _ {K V : Type 0} ⦃key : Eq K⦄ where
  pub contains-snoc :
      (q k : K) (v : V) (m : List (K × V))
      → contains q (m ++ (k, v) ∷ []) ≡ (if k == q then true else contains q m)
  unfolding contains
  contains-snoc q k v [] = refl
  contains-snoc q k v ((j, w) ∷ m) = ground (arith, contains-snoc q k v m)

  pub Distinct-snoc :
      (k : K) (v : V) (m : List (K × V))
      → Distinct m
      → contains k m ≡ false
      → Distinct (m ++ (k, v) ∷ [])
  unfolding contains
  Distinct-snoc k v [] d e = (refl, tt)
  Distinct-snoc k v ((j, w) ∷ m) d e = (
    ground (arith, contains-snoc j k v m, e, key.beq_iff j k, key.beq_iff k j, d.0),
    Distinct-snoc k v m d.1 (ground (arith, e)),
  )

  pub find-snoc :
      (q k : K) (v : V) (m : List (K × V))
      → contains k m ≡ false
      → find q (m ++ (k, v) ∷ []) ≡ (if k == q then some v else find q m)
  unfolding find contains
  find-snoc q k v [] e = refl
  find-snoc q k v ((j, w) ∷ m) e =
      ground (arith, find-snoc q k v m, e, key.beq_iff j k, key.beq_iff k q, key.beq_iff j q)

  contains-erased : (k : K) (m : List (K × V)) → Distinct m → contains k (erase k m) ≡ false
  contains-erased k m d = ground (arith, contains-erase k k m d, beq_refl k)

module _ {K V : Type 0} ⦃key : Eq K⦄ where
  -- The entry of a key moved to the end, where there is one.
  unfoldable pub touched : K → List (K × V) → List (K × V)
  touched k l = elim (find k l) [ none ↦ l | some v ↦ erase k l ++ (k, v) ∷ [] ]

  pub splice_end-found :
      (h : ℕ) (item : K × V) (order : List (ℕ × (K × V)))
      → find h order ≡ some item
      → splice_end h order ≡ erase h order ++ (h, item) ∷ []
  unfolding splice_end
  splice_end-found h item order e = rw (e, splice_end) refl

  -- A node moved to the end is still found under its handle.
  find-splice_end :
      (h q : ℕ) (k : K) (v : V) (order : List (ℕ × (K × V)))
      → Distinct order
      → find h order ≡ some (k, v)
      → find q (splice_end h order) ≡ find q order
  find-splice_end h q k v order d e = rw (splice_end-found h (k, v) order e) (
      find-snoc q h (k, v) (erase h order) (contains-erased h order d)
      ∙ elim (Bool-cases (h == q)) [
        | inl here ↦ let same : h ≡ q = (nat_eq_iff h q).0 here in rw here (rw same at (sym e))
        | inr there ↦ rw there (find-erase h q order d ∙ rw there refl)
      ])

  pub entries-splice_end :
      (h : ℕ) (k : K) (v : V) (order : List (ℕ × (K × V)))
      → Distinct (entries order)
      → find h order ≡ some (k, v)
      → entries (splice_end h order) ≡ erase k (entries order) ++ (k, v) ∷ []
  unfolding entries
  entries-splice_end h k v order ks e = rw (splice_end-found h (k, v) order e) (
      entries-append (erase h order) ((h, (k, v)) ∷ [])
      ∙ ap (λ l. l ++ (k, v) ∷ []) (erase-entries h k v order ks e))

  pub splice_end-IsLinked :
      (h : ℕ) (k : K) (v : V) (order : List (ℕ × (K × V))) (index : List (K × ℕ))
      → find h order ≡ some (k, v)
      → IsLinked order index
      → IsLinked (splice_end h order) index
  splice_end-IsLinked h k v order index e l = record {
    handles = rw (splice_end-found h (k, v) order e) (
        Distinct-snoc h (k, v) (erase h order) (Distinct-erase h order l.handles)
          (contains-erased h order l.handles));
    keys = rw (entries-splice_end h k v order l.keys e) (
        Distinct-snoc k v (erase k (entries order)) (Distinct-erase k (entries order) l.keys)
          (contains-erased k (entries order) l.keys));
    distinct = l.distinct;
    points = λ q g found.
        let (w, there) = l.points q g found in
        (w, find-splice_end h g k v order l.handles e ∙ there);
    pointed =
        λ q g w found. l.pointed q g w (sym (find-splice_end h g k v order l.handles e) ∙ found);
  }

  -- An entry has a node.
  entries-find :
      (k : K) (v : V) (order : List (ℕ × (K × V)))
      → Distinct order
      → find k (entries order) ≡ some v
      → (h : ℕ) × (find h order ≡ some (k, v))
  unfolding find entries
  entries-find k v [] d e = absurd cc
  entries-find k v ((j, x) ∷ order) d e = elim (Bool-cases (x.0 == k)) [
    | inl here ↦
        let same : x.0 ≡ k = (key.beq_iff x.0 k).0 here in
        let value : x.1 ≡ v = cc (rw here at e) in (j, rw (beq_refl j) cc)
    | inr there ↦
        let (h, found) = entries-find k v order d.1 (rw there at e) in
        (h, ground (arith, found, contains-find h order (k, v) found, nat_eq_iff j h, d.0))
  ]

  pub index-entries :
      (k : K) (order : List (ℕ × (K × V))) (index : List (K × ℕ))
      → IsLinked order index
      → find k index ≡ none
      → find k (entries order) ≡ none
  index-entries k order index l absent = elim (Option-cases (find k (entries order))) [
    | inl none_ ↦ none_
    | inr (v, there) ↦
        let (h, found) = entries-find k v order l.handles there in
        absurd (cc (l.pointed k h v found, absent))
  ]

  -- On a cache whose list and index agree, `get` returns what the plain list of entries has under
  -- the key, moves that entry to the end of it and leaves the others in their order, and list and
  -- index agree afterwards.
  pub get-touched :
      (k : K) (c : LruCache K V)
      → IsLinked c.order c.index
      → ((get k c).0 ≡ find k (entries c.order))
        × (entries (get k c).1.order ≡ touched k (entries c.order))
        × IsLinked (get k c).1.order (get k c).1.index
  unfolding get touched
  get-touched k c l = elim (Option-cases (find k c.index)) [
    | inl absent ↦
        let nothing = index-entries k c.order c.index l absent in
        rw (absent, nothing, get, touched) (refl, refl, l)
    | inr (h, present) ↦
        let (v, found) = l.points k h present in
        let held = find-entries h k v c.order l.keys found in
        rw (present, found, held, get, touched)
          (
            refl,
            entries-splice_end h k v c.order l.keys found,
            splice_end-IsLinked h k v c.order c.index found l,
          )
  ]
