-- ===== src/LruCache/Links.antt =====
-- The list and the index of include/ils_sp/lru_cache.hpp: when they agree, and the plain list of
-- entries that they stand for, the one used least recently first.
use ils_sp.Prelude.{
  ℕ, ◌≡◌, refl, ap, false, Bool-cases, inl, inr, some, List, [], ◌∷◌, ◌++◌, Eq, ◌==◌, ℕ_eq,
  beq_refl, arith,
}
use ils_sp.Maps.{find, contains, erase, Distinct, contains-find}

module _ {K V : Type 0} ⦃key : Eq K⦄ where
  -- The entries, without their handles.
  unfoldable pub entries : List (ℕ × (K × V)) → List (K × V)
  entries [] = []
  entries (node ∷ order) = node.1 ∷ entries order

  pub entries-append : (xs ys : List (ℕ × (K × V))) → entries (xs ++ ys) ≡ entries xs ++ entries ys
  unfolding entries
  entries-append [] ys = refl
  entries-append (x ∷ xs) ys = ap (λ l. x.1 ∷ l) (entries-append xs ys)

  -- What holds of the list and the index together.
  pub record IsLinked (order : List (ℕ × (K × V))) (index : List (K × ℕ)) : Type 0 where
    pub handles : Distinct order
    pub keys : Distinct (entries order)
    pub distinct : Distinct index
    pub points : (k : K) (h : ℕ) → find k index ≡ some h → (v : V) × (find h order ≡ some (k, v))
    pub pointed : (k : K) (h : ℕ) (v : V) → find h order ≡ some (k, v) → find k index ≡ some h

  -- A node's key is found among the entries.
  pub find-entries :
      (h : ℕ) (k : K) (v : V) (order : List (ℕ × (K × V)))
      → Distinct (entries order)
      → find h order ≡ some (k, v)
      → find k (entries order) ≡ some v
  unfolding find entries contains
  find-entries h k v [] ks e = absurd cc
  find-entries h k v ((j, x) ∷ order) ks e = elim (Bool-cases (j == h)) [
    | inl here ↦ let same : x ≡ (k, v) = cc (rw here at e) in rw same (rw (beq_refl k) refl)
    | inr there ↦
        let ih = find-entries h k v order ks.1 (rw there at e) in
        ground (arith, ih, contains-find k (entries order) v ih, key.beq_iff x.0 k, ks.0)
  ]

  -- Taking a node out takes its key's entry out.
  pub erase-entries :
      (h : ℕ) (k : K) (v : V) (order : List (ℕ × (K × V)))
      → Distinct (entries order)
      → find h order ≡ some (k, v)
      → entries (erase h order) ≡ erase k (entries order)
  unfolding find entries erase contains
  erase-entries h k v [] ks e = absurd cc
  erase-entries h k v ((j, x) ∷ order) ks e = elim (Bool-cases (j == h)) [
    | inl here ↦ let same : x ≡ (k, v) = cc (rw here at e) in rw (here, same) (rw (beq_refl k) refl)
    | inr there ↦
        let found = rw there at e in
        let held = contains-find k (entries order) v (find-entries h k v order ks.1 found) in
        let other : (x.0 == k) ≡ false = ground (arith, held, key.beq_iff x.0 k, ks.0) in
        rw (there, other) (ap (λ l. x ∷ l) (erase-entries h k v order ks.1 found))
  ]
