-- ===== src/Pool/Index.antt =====
-- The coverage index of src/pool.cpp: for each customer set, the costs of the main columns with that
-- set. Costs are counted up to the equivalence by which the multiset compares them.
use mathlib.Core.Path.{subst}
use ils_sp.Prelude.{
  ℕ, ◌+◌, ◌<◌, ◌≡◌, ap, Bool, true, false, not, ◌&&◌, ◌||◌, Bool-cases, Option-cases, inl, inr,
  none, some, List, [], ◌∷◌, All, ◌==◌, List_eq, if◌then◌else◌, to_nat, arith,
}
use ils_sp.Prelude.Int.{ℤ_eq}
use ils_sp.Double.{Double, IsOrdered}
use ils_sp.Maps.{find, assign, erase, find-assign, find-erase, Distinct}
use ils_sp.Pool.{Key, RouteColumn, insert_cost, erase_cost, costs_of}

module _ {D : Type 0} ⦃d : Double D⦄ where
  -- Equal costs, to a multiset.
  unfoldable pub equivalent : D → D → Bool
  equivalent a b = not (d.lt a b || d.lt b a)

  unfoldable pub cost_count : D → List D → ℕ
  cost_count c [] = 0
  cost_count c (x ∷ xs) = to_nat (equivalent c x) + cost_count c xs

  -- Whether a column is counted under a customer set and a cost.
  unfoldable pub counts : Key → D → RouteColumn D → ℕ
  counts coverage c column =
      to_nat ((column.customer_set == coverage) && equivalent c column.cost_h)

  unfoldable pub main_count : Key → D → List (Key × RouteColumn D) → ℕ
  main_count coverage c [] = 0
  main_count coverage c ((_, column) ∷ m) = counts coverage c column + main_count coverage c m

  -- No NaN.
  abbrev pub Comparable : D → Type 0
  Comparable c = d.le c c ≡ true

  -- The index counts what the main pool holds.
  abbrev pub IsIndexed : List (Key × RouteColumn D) → List (Key × List D) → Type 0
  IsIndexed main index =
      (coverage : Key) (c : D)
      → Comparable c
      → cost_count c (costs_of coverage index) ≡ main_count coverage c main

  pub main_count-assign_new :
      (coverage : Key) (c : D) (k : Key) (column : RouteColumn D) (m : List (Key × RouteColumn D))
      → find k m ≡ none
      → main_count coverage c (assign k column m)
        ≡ main_count coverage c m + counts coverage c column
  unfolding main_count find assign
  main_count-assign_new coverage c k column [] h = omega arith
  main_count-assign_new coverage c k column ((j, w) ∷ m) h =
      ground (arith, main_count-assign_new coverage c k column m)

  pub main_count-assign_old :
      (coverage : Key) (c : D) (k : Key) (column old : RouteColumn D)
      (m : List (Key × RouteColumn D))
      → find k m ≡ some old
      → main_count coverage c (assign k column m) + counts coverage c old
        ≡ main_count coverage c m + counts coverage c column
  unfolding main_count find assign
  main_count-assign_old coverage c k column old [] h = absurd (cc)
  main_count-assign_old coverage c k column old ((j, w) ∷ m) h =
      ground (arith, main_count-assign_old coverage c k column old m)

  pub main_count-erase :
      (coverage : Key) (c : D) (k : Key) (old : RouteColumn D) (m : List (Key × RouteColumn D))
      → find k m ≡ some old
      → main_count coverage c (erase k m) + counts coverage c old ≡ main_count coverage c m
  unfolding main_count find erase
  main_count-erase coverage c k old [] h = absurd (cc)
  main_count-erase coverage c k old ((j, w) ∷ m) h =
      ground (arith, main_count-erase coverage c k old m)

  pub cost_count-insert :
      (c x : D) (xs : List D)
      → cost_count c (insert_cost x xs) ≡ cost_count c xs + to_nat (equivalent c x)
  unfolding cost_count insert_cost
  cost_count-insert c x [] = omega arith
  cost_count-insert c x (y ∷ xs) = ground (arith, cost_count-insert c x xs)

  module _ (ordered : IsOrdered D) where
    open ordered use {le_trans, lt-not-le, refl_of_le, le_of_lt}

    equivalent_congr :
        (a b c : D)
        → Comparable a
        → Comparable b
        → Comparable c
        → equivalent b c ≡ true
        → equivalent a b ≡ equivalent a c
    unfolding equivalent
    equivalent_congr a b c p q r h = ground (
      arith,
      lt-not-le a b p q,
      lt-not-le b a q p,
      lt-not-le a c p r,
      lt-not-le c a r p,
      lt-not-le b c q r,
      lt-not-le c b r q,
      le_trans a b c,
      le_trans a c b,
      le_trans b c a,
      le_trans c b a,
    )

    equivalent_of : (a b : D) → (d.lt b a || d.lt a b) ≡ false → equivalent a b ≡ true
    unfolding equivalent
    equivalent_of a b h = ground arith

    still_counted :
        (x y : D) (xs : List D)
        → (d.lt y x || d.lt x y) ≡ true
        → 0 < to_nat (equivalent x y) + cost_count x xs
        → 0 < cost_count x xs
    unfolding equivalent
    still_counted x y xs e h = ground arith

    -- Erasing a cost takes one off the count of its equals.
    pub cost_count-erase :
        (c x : D) (xs ys : List D)
        → Comparable c
        → Comparable x
        → All Comparable xs
        → erase_cost x xs ≡ some ys
        → (cost_count c ys + to_nat (equivalent c x) ≡ cost_count c xs) × All Comparable ys
    unfolding cost_count erase_cost
    cost_count-erase c x [] ys p q h e = absurd (cc)
    cost_count-erase c x (y ∷ xs) ys p q h e = elim (Bool-cases (d.lt y x || d.lt x y)) [
      | inl other ↦ elim (Option-cases (erase_cost x xs)) [
        | inl failed ↦ absurd (cc (rw (other, failed) at e))
        | inr (zs, ran) ↦
            let same : y ∷ zs ≡ ys = cc (rw (other, ran) at e) in
            let (counted, fine) = cost_count-erase c x xs zs p q h.1 ran in
            subst
              (λ l.
                (cost_count c l + to_nat (equivalent c x)
                  ≡ to_nat (equivalent c y) + cost_count c xs)
                × All Comparable l)
              same (omega (arith, counted), (h.0, fine))
      ]
      | inr hit ↦
          let same : xs ≡ ys = cc (rw hit at e) in
          let twin = equivalent_congr c x y p q h.0 (equivalent_of x y hit) in
          rw (← same) (omega (arith, ap to_nat twin), h.1)
    ]

    -- A cost that the list counts can be erased.
    pub erase_cost_total :
        (x : D) (xs : List D) → 0 < cost_count x xs → (ys : List D) × (erase_cost x xs ≡ some ys)
    unfolding cost_count erase_cost
    erase_cost_total x [] h = absurd (omega arith)
    erase_cost_total x (y ∷ xs) h = elim (Bool-cases (d.lt y x || d.lt x y)) [
      | inr hit ↦ (xs, rw hit)
      | inl other ↦
          let (ys, ran) = erase_cost_total x xs (still_counted x y xs other h) in
          (y ∷ ys, rw (other, ran))
    ]

    pub insert_cost-Comparable :
        (x : D) (xs : List D) → Comparable x → All Comparable xs → All Comparable (insert_cost x xs)
    unfolding insert_cost
    insert_cost-Comparable x [] p h = (p, tt)
    insert_cost-Comparable x (y ∷ xs) p h = elim (Bool-cases (d.lt x y)) [
      | inl e ↦ rw e (p, h)
      | inr e ↦ rw e (h.0, insert_cost-Comparable x xs p h.1)
    ]

    pub costs_of-assign :
        (k q : Key) (costs : List D) (index : List (Key × List D))
        → costs_of q (assign k costs index) ≡ (if k == q then costs else costs_of q index)
    unfolding costs_of
    costs_of-assign k q costs index = ground (arith, find-assign k q costs index)

    pub costs_of-erase :
        (k q : Key) (index : List (Key × List D))
        → Distinct index
        → costs_of q (erase k index) ≡ (if k == q then [] else costs_of q index)
    unfolding costs_of
    costs_of-erase k q index h = ground (arith, find-erase k q index h)
