-- ===== src/Pool/Indexed.antt =====
-- The coverage index of src/pool.cpp: `index_main_insert` and `index_main_erase` against the counts of
-- the main pool.
use ils_sp.Prelude.{
  ◌+◌, ◌<◌, ◌≡◌, refl, ap, Bool-cases, Option-cases, inl, inr, some, List, [], ◌∷◌, All, ◌==◌,
  List_eq, list_eq_iff, beq_refl, if◌then◌else◌, arith, ok,
}
use ils_sp.Prelude.Int.{ℤ_eq}
use ils_sp.Double.{Double, IsOrdered, lt_irrefl}
use ils_sp.Maps.{find, assign, erase, Distinct, Distinct-assign, Distinct-erase}
use ils_sp.Pool.{
  Key, RouteColumn, insert_cost, erase_cost, costs_of, index_main_insert, index_main_erase,
}
use ils_sp.Pool.Index.{
  equivalent, cost_count, counts, main_count, Comparable, IsIndexed, main_count-erase,
  cost_count-insert, cost_count-erase, erase_cost_total, insert_cost-Comparable, costs_of-assign,
  costs_of-erase,
}

module _ {D : Type 0} ⦃d : Double D⦄ (ordered : IsOrdered D) where
  -- What holds of the index beside a main pool.
  pub record IndexOf (main : List (Key × RouteColumn D)) (index : List (Key × List D))
      : Type 0 where
    pub distinct : Distinct index
    pub counted : IsIndexed main index
    pub comparable : (coverage : Key) → All Comparable (costs_of coverage index)

  -- The count of a customer set and a cost after a cost is entered.
  insert_count :
      (column : RouteColumn D) (index : List (Key × List D)) (coverage : Key) (c : D)
      → cost_count c (costs_of coverage (index_main_insert column index))
        ≡ cost_count c (costs_of coverage index) + counts coverage c column
  unfolding index_main_insert counts
  insert_count column index coverage c = ground (
    arith,
    costs_of-assign ordered column.customer_set coverage
        (insert_cost column.cost_h (costs_of column.customer_set index)) index,
    cost_count-insert c column.cost_h (costs_of column.customer_set index),
    list_eq_iff column.customer_set coverage,
  )

  insert-Comparable :
      (column : RouteColumn D) (index : List (Key × List D)) (coverage : Key)
      → Comparable column.cost_h
      → ((q : Key) → All Comparable (costs_of q index))
      → All Comparable (costs_of coverage (index_main_insert column index))
  unfolding index_main_insert
  insert-Comparable column index coverage p h =
      rw
        (costs_of-assign ordered column.customer_set coverage
          (insert_cost column.cost_h (costs_of column.customer_set index)) index)
        (elim (Bool-cases (column.customer_set == coverage)) [
          | inl e ↦ rw e (insert_cost-Comparable ordered column.cost_h _ p (h column.customer_set))
          | inr e ↦ rw e (h coverage)
        ])

  -- What one erasure does to the index.
  pub record Erased (old : RouteColumn D) (before after : List (Key × List D)) : Type 0 where
    pub distinct : Distinct after
    pub counted :
        (coverage : Key) (c : D)
        → Comparable c
        → cost_count c (costs_of coverage after) + counts coverage c old
          ≡ cost_count c (costs_of coverage before)
    pub comparable : (coverage : Key) → All Comparable (costs_of coverage after)

  self_count : (column : RouteColumn D) → counts column.customer_set column.cost_h column ≡ 1
  unfolding counts equivalent
  self_count column = rw (beq_refl column.customer_set, lt_irrefl ordered column.cost_h) refl

  module _ (main : List (Key × RouteColumn D)) (index : List (Key × List D)) (k : Key)
      (old : RouteColumn D) (ix : IndexOf main index) (found : find k main ≡ some old)
      (p : Comparable old.cost_h) where
    held : 0 < cost_count old.cost_h (costs_of old.customer_set index)
    held = omega (
      arith,
      ix.counted old.customer_set old.cost_h p,
      main_count-erase old.customer_set old.cost_h k old main found,
      self_count old,
    )

    bucket : (costs : List D) × (find old.customer_set index ≡ some costs)
    unfolding costs_of cost_count
    bucket = elim (Option-cases (find old.customer_set index)) [
      | inr found_bucket ↦ found_bucket
      | inl missing ↦ absurd (omega (arith, rw (missing, costs_of) at held))
    ]

    -- An index that differs in this one bucket, by one equal of the old cost.
    Erased-by :
        (costs ys : List D) (after : List (Key × List D))
        → find old.customer_set index ≡ some costs
        → erase_cost old.cost_h costs ≡ some ys
        → Distinct after
        → ((q : Key) → costs_of q after ≡ (if old.customer_set == q then ys else costs_of q index))
        → Erased old index after
    unfolding counts costs_of
    Erased-by costs ys after fb ran dist same =
        let bucket_same : costs_of old.customer_set index ≡ costs = rw (fb, costs_of) refl in
        let fine : All Comparable costs = rw bucket_same at (ix.comparable old.customer_set) in
        record {
          distinct = dist;
          counted = λ coverage c pc. elim (Bool-cases (old.customer_set == coverage)) [
            | inl e ↦
                let here : old.customer_set ≡ coverage =
                  (list_eq_iff old.customer_set coverage).0 e in
                let bucket_here : costs_of coverage index ≡ costs = rw (← here) bucket_same in
                let total = (cost_count-erase ordered c old.cost_h costs ys pc p fine ran).0 in
                rw (same coverage, e) (omega (arith, total, ap (cost_count c) bucket_here))
            | inr e ↦ rw (same coverage, e) (omega arith)
          ];
          comparable = λ coverage.
              rw (same coverage) (elim (Bool-cases (old.customer_set == coverage)) [
                | inl e ↦
                    rw e (cost_count-erase ordered old.cost_h old.cost_h costs ys p p fine ran).1
                | inr e ↦ rw e (ix.comparable coverage)
              ]);
        }

    held_in :
        (costs : List D)
        → find old.customer_set index ≡ some costs
        → 0 < cost_count old.cost_h costs
    unfolding costs_of
    held_in costs fb = rw (fb, costs_of) at held

    written_back :
        (costs ys : List D)
        → find old.customer_set index ≡ some costs
        → erase_cost old.cost_h costs ≡ some ys
        → (after : List (Key × List D)) × (index_main_erase old index ≡ ok after)
          × Erased old index after
    unfolding index_main_erase
    written_back costs [] fb ran = (
      erase old.customer_set index,
      rw (fb, ran, index_main_erase),
      Erased-by costs [] _ fb ran (Distinct-erase old.customer_set index ix.distinct)
          (λ q. costs_of-erase ordered old.customer_set q index ix.distinct),
    )
    written_back costs (c ∷ rest) fb ran = (
      assign old.customer_set (c ∷ rest) index,
      rw (fb, ran, index_main_erase),
      Erased-by costs (c ∷ rest) _ fb ran
          (Distinct-assign old.customer_set (c ∷ rest) index ix.distinct)
          (λ q. costs_of-assign ordered old.customer_set q (c ∷ rest) index),
    )

    -- Erasing the cost of a column that the main pool holds never throws, and takes one equal of
    -- that cost out of its bucket.
    pub index_main_erase_total :
        (after : List (Key × List D)) × (index_main_erase old index ≡ ok after)
        × Erased old index after
    index_main_erase_total =
        let (costs, fb) = bucket in
        let (ys, ran) = erase_cost_total ordered old.cost_h costs (held_in costs fb) in
        written_back costs ys fb ran

  -- Entering a column keeps the index in step, where the main pool's counts grow by that column.
  pub index_main_insert-IndexOf :
      (column : RouteColumn D) (main : List (Key × RouteColumn D)) (index : List (Key × List D))
      → Comparable column.cost_h
      → Distinct index
      → ((coverage : Key) → All Comparable (costs_of coverage index))
      → ((coverage : Key) (c : D)
          → Comparable c
          → cost_count c (costs_of coverage index) + counts coverage c column
            ≡ main_count coverage c main)
      → IndexOf main (index_main_insert column index)
  unfolding index_main_insert
  index_main_insert-IndexOf column main index p dist fine total = record {
    distinct = Distinct-assign column.customer_set _ index dist;
    counted =
        λ coverage c pc. omega (arith, insert_count column index coverage c, total coverage c pc);
    comparable = λ coverage. insert-Comparable column index coverage p fine;
  }
