-- ===== src/Pool/Ranking.antt =====
-- `column_rank_less` of src/pool.cpp as an order on columns whose costs are no NaN, and the scan of
-- `worst_main` along it.
use ils_sp.Prelude.{
  ◌≡◌, refl, Bool, true, false, not, List, [], ◌∷◌, ◌==◌, List_eq, list_eq_iff, if◌then◌else◌,
  arith,
}
use ils_sp.Prelude.Int.{ℤ, ℤ_eq}
use ils_sp.Double.{Double, IsOrdered, feq, lt_trans}
use ils_sp.Core.{list_less}
use ils_sp.Pool.{RouteColumn, reduced_cost, column_rank_less}
use ils_sp.Pool.Index.{Comparable}

-- A key of a lexicographic order on three columns: whether two of them tie, and which is less.
record Linked (tie12 tie23 tie13 less12 less23 less13 : Bool) : Type 0 where
  chain : less12 ≡ true → less23 ≡ true → (less13 ≡ true) × (tie13 ≡ false)
  left : tie12 ≡ true → (less13 ≡ less23) × (tie13 ≡ tie23)
  right : tie23 ≡ true → (less13 ≡ less12) × (tie13 ≡ tie12)

lexicographic_trans :
    (tie12 tie23 tie13 less12 less23 less13 rest12 rest23 rest13 : Bool)
    → Linked tie12 tie23 tie13 less12 less23 less13
    → (rest12 ≡ true → rest23 ≡ true → rest13 ≡ true)
    → (if not tie12 then less12 else rest12) ≡ true
    → (if not tie23 then less23 else rest23) ≡ true
    → (if not tie13 then less13 else rest13) ≡ true
lexicographic_trans tie12 tie23 tie13 less12 less23 less13 rest12 rest23 rest13 l h p q =
    ground (arith, l.chain, l.left, l.right, h, p, q)

list_less_trans :
    (xs ys zs : List ℤ) → list_less xs ys ≡ true → list_less ys zs ≡ true → list_less xs zs ≡ true
unfolding list_less
list_less_trans [] [] [] p q = absurd cc
list_less_trans [] (y ∷ ys) [] p q = absurd cc
list_less_trans [] ys (z ∷ zs) p q = refl
list_less_trans (x ∷ xs) [] zs p q = absurd cc
list_less_trans (x ∷ xs) (y ∷ ys) [] p q = absurd cc
list_less_trans (x ∷ xs) (y ∷ ys) (z ∷ zs) p q = ground (arith, list_less_trans xs ys zs, p, q)

pub list_less_irrefl : (xs : List ℤ) → list_less xs xs ≡ false
unfolding list_less
list_less_irrefl [] = refl
list_less_irrefl (x ∷ xs) = ground (arith, list_less_irrefl xs)

list_Linked :
    (xs ys zs : List ℤ)
    → Linked (xs == ys) (ys == zs) (xs == zs) (list_less xs ys) (list_less ys zs) (list_less xs zs)
list_Linked xs ys zs = record {
  chain = λ p q.
      let less = list_less_trans xs ys zs p q in
      (less, ground (arith, list_less_irrefl xs, list_eq_iff xs zs, less, list_less_irrefl zs));
  left = λ e. let same : xs ≡ ys = (list_eq_iff xs ys).0 e in rw same (refl, refl);
  right = λ e. let same : ys ≡ zs = (list_eq_iff ys zs).0 e in rw same (refl, refl);
}

module _ {D : Type 0} ⦃d : Double D⦄ where
  -- A column that can be ranked: neither its cost nor its reduced cost is NaN.
  abbrev pub Rankable : List (ℤ × D) → RouteColumn D → Type 0
  Rankable duals column = Comparable column.cost_h × Comparable (reduced_cost column duals)

module _ {D : Type 0} ⦃d : Double D⦄ (ordered : IsOrdered D) where
  open ordered use {le_trans, refl_of_le, le_total, lt-not-le, le_of_lt}

  double_Linked :
      (a b c : D)
      → Comparable a
      → Comparable b
      → Comparable c
      → Linked (feq a b) (feq b c) (feq a c) (d.lt a b) (d.lt b c) (d.lt a c)
  unfolding feq
  double_Linked a b c p q r = record {
    chain = ground (arith, lt_trans ordered a b c, lt-not-le a c p r);
    left = ground (
      arith,
      lt-not-le a c p r,
      lt-not-le b c q r,
      le_trans a b c,
      le_trans b a c,
      le_trans c a b,
      le_trans c b a,
    );
    right = ground (
      arith,
      lt-not-le a c p r,
      lt-not-le a b p q,
      le_trans a b c,
      le_trans a c b,
      le_trans c b a,
      le_trans b c a,
    );
  }

  pub column_rank_less_trans :
      (duals : List (ℤ × D)) (a b c : RouteColumn D)
      → Rankable duals a
      → Rankable duals b
      → Rankable duals c
      → column_rank_less a b duals ≡ true
      → column_rank_less b c duals ≡ true
      → column_rank_less a c duals ≡ true
  unfolding column_rank_less
  column_rank_less_trans duals a b c p q r =
      lexicographic_trans _ _ _ _ _ _ _ _ _
        (double_Linked (reduced_cost a duals) (reduced_cost b duals) (reduced_cost c duals) p.1 q.1
          r.1)
        (lexicographic_trans _ _ _ _ _ _ _ _ _
          (double_Linked a.cost_h b.cost_h c.cost_h p.0 q.0 r.0)
          (lexicographic_trans _ _ _ _ _ _ _ _ _
            (list_Linked a.customer_set b.customer_set c.customer_set)
            (list_less_trans a.signature b.signature c.signature)))
