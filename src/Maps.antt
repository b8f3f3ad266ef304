-- ===== src/Maps.antt =====
-- `std::unordered_map` and `std::unordered_set` as the code uses them: association lists with one
-- entry for each key. The order of the list stands for the unspecified order of iteration.
use ils_sp.Prelude.{
  suc, ◌≡◌, refl, Bool, true, false, Bool-cases, inl, inr, Option, none, some, List, [], ◌∷◌,
  length, All, Eq, ◌==◌, if◌then◌else◌, arith,
}

module _ {K V : Type 0} ⦃key : Eq K⦄ where
  -- `find`, `contains` and `at`.
  unfoldable pub find : K → List (K × V) → Option V
  find k [] = none
  find k ((j, v) ∷ m) = if j == k then some v else find k m

  unfoldable pub contains : K → List (K × V) → Bool
  contains k [] = false
  contains k ((j, v) ∷ m) = if j == k then true else contains k m

  -- `insert_or_assign`.
  unfoldable pub assign : K → V → List (K × V) → List (K × V)
  assign k v [] = (k, v) ∷ []
  assign k v ((j, w) ∷ m) = if j == k then (k, v) ∷ m else (j, w) ∷ assign k v m

  -- `erase` by key.
  unfoldable pub erase : K → List (K × V) → List (K × V)
  erase k [] = []
  erase k ((j, w) ∷ m) = if j == k then m else (j, w) ∷ erase k m

  -- Each key has one entry.
  abbrev pub Distinct : List (K × V) → Type 0
  Distinct [] = Unit
  Distinct ((j, w) ∷ m) = (contains j m ≡ false) × Distinct m

  pub contains-find : (k : K) (m : List (K × V)) (v : V) → find k m ≡ some v → contains k m ≡ true
  unfolding contains find
  contains-find k [] v h = absurd (cc)
  contains-find k ((j, w) ∷ m) v h = ground (arith, contains-find k m v)

  pub contains-find-none : (k : K) (m : List (K × V)) → find k m ≡ none → contains k m ≡ false
  unfolding contains find
  contains-find-none k [] h = refl
  contains-find-none k ((j, w) ∷ m) h = ground (arith, contains-find-none k m)

  pub find-contains :
      (k : K) (m : List (K × V)) → contains k m ≡ true → (v : V) × (find k m ≡ some v)
  unfolding contains find
  find-contains k [] h = absurd (cc)
  find-contains k ((j, w) ∷ m) h = elim (Bool-cases (j == k)) [
    | inl e ↦ (w, rw e)
    | inr e ↦ rw e (find-contains k m (rw e at h))
  ]

  pub contains-assign :
      (k q : K) (v : V) (m : List (K × V))
      → contains q (assign k v m) ≡ (if k == q then true else contains q m)
  unfolding contains assign
  contains-assign k q v [] = refl
  contains-assign k q v ((j, w) ∷ m) =
      ground (arith, contains-assign k q v m, key.beq_iff j k, key.beq_iff j q, key.beq_iff k q)

  pub find-assign :
      (k q : K) (v : V) (m : List (K × V))
      → find q (assign k v m) ≡ (if k == q then some v else find q m)
  unfolding find assign
  find-assign k q v [] = refl
  find-assign k q v ((j, w) ∷ m) =
      ground (arith, find-assign k q v m, key.beq_iff j k, key.beq_iff j q, key.beq_iff k q)

  pub Distinct-assign : (k : K) (v : V) (m : List (K × V)) → Distinct m → Distinct (assign k v m)
  unfolding contains assign
  Distinct-assign k v [] h = (refl, tt)
  Distinct-assign k v ((j, w) ∷ m) h =
      ground (
        arith,
        key.beq_iff j k,
        key.beq_iff k j,
        contains-assign k j v m,
        Distinct-assign k v m h.1,
      )

  pub length-assign :
      (k : K) (v : V) (m : List (K × V))
      → length (assign k v m) ≡ (if contains k m then length m else suc (length m))
  unfolding contains assign
  length-assign k v [] = refl
  length-assign k v ((j, w) ∷ m) = ground (arith, length-assign k v m)

  pub erase-absent : (k : K) (m : List (K × V)) → contains k m ≡ false → erase k m ≡ m
  unfolding contains erase
  erase-absent k [] h = refl
  erase-absent k ((j, w) ∷ m) h = ground (arith, erase-absent k m)

  pub contains-erase :
      (k q : K) (m : List (K × V))
      → Distinct m
      → contains q (erase k m) ≡ (if k == q then false else contains q m)
  unfolding contains erase
  contains-erase k q [] h = ground arith
  contains-erase k q ((j, w) ∷ m) h =
      ground (arith, contains-erase k q m h.1, key.beq_iff j k, key.beq_iff j q, key.beq_iff k q)

  pub find_absent : (q : K) (m : List (K × V)) → contains q m ≡ false → find q m ≡ none
  unfolding contains find
  find_absent q [] e = refl
  find_absent q ((i, u) ∷ n) e = ground (arith, find_absent q n)

  pub find-erase :
      (k q : K) (m : List (K × V))
      → Distinct m
      → find q (erase k m) ≡ (if k == q then none else find q m)
  unfolding find erase
  find-erase k q [] h = ground arith
  find-erase k q ((j, w) ∷ m) h = ground (
    arith,
    find-erase k q m h.1,
    key.beq_iff j k,
    key.beq_iff j q,
    key.beq_iff k q,
    find_absent q m,
  )

  pub Distinct-erase : (k : K) (m : List (K × V)) → Distinct m → Distinct (erase k m)
  unfolding contains erase
  Distinct-erase k [] h = tt
  Distinct-erase k ((j, w) ∷ m) h = ground (arith, contains-erase k j m h.1, Distinct-erase k m h.1)

  pub length-erase :
      (k : K) (m : List (K × V)) → contains k m ≡ true → suc (length (erase k m)) ≡ length m
  unfolding contains erase
  length-erase k [] h = cc
  length-erase k ((j, w) ∷ m) h = ground (arith, length-erase k m)

  -- A predicate on the entries.
  pub All-assign {ℓ} :
      (P : K × V → Type ℓ) (k : K) (v : V) (m : List (K × V))
      → P (k, v)
      → All P m
      → All P (assign k v m)
  unfolding assign
  All-assign P k v [] p h = (p, tt)
  All-assign P k v ((j, w) ∷ m) p h = elim (Bool-cases (j == k)) [
    | inl e ↦ rw e (p, h.1)
    | inr e ↦ rw e (h.0, All-assign P k v m p h.1)
  ]

  pub All-erase {ℓ} : (P : K × V → Type ℓ) (k : K) (m : List (K × V)) → All P m → All P (erase k m)
  unfolding erase
  All-erase P k [] h = tt
  All-erase P k ((j, w) ∷ m) h = elim (Bool-cases (j == k)) [
    | inl e ↦ rw e h.1
    | inr e ↦ rw e (h.0, All-erase P k m h.1)
  ]

  pub All-find {ℓ} :
      (P : K × V → Type ℓ) (k : K) (v : V) (m : List (K × V))
      → All P m
      → find k m ≡ some v
      → P (k, v)
  unfolding find
  All-find P k v [] h e = absurd (cc)
  All-find P k v ((j, w) ∷ m) h e = elim (Bool-cases (j == k)) [
    | inl p ↦
        let same : (j ≡ k) × (w ≡ v) = ((key.beq_iff j k).0 p, cc (rw p at e)) in
        rw (← same.0, ← same.1) h.0
    | inr p ↦ All-find P k v m h.1 (rw p at e)
  ]
