-- ===== src/Pool/Eviction.antt =====
-- Which column `worst_main` of src/pool.cpp evicts.
use ils_sp.Prelude.{
  ◌≡◌, ◌<◌, false, Bool-cases, inl, inr, some, List, [], ◌∷◌, All, In, length, List_eq, arith, ok,
}
use ils_sp.Prelude.Int.{ℤ, ℤ_eq}
use ils_sp.Double.{Double, IsOrdered, lt_irrefl}
use ils_sp.Maps.{find, contains, Distinct}
use ils_sp.Pool.{
  Key, RouteColumn, RoutePool, reduced_cost, column_rank_less, worse_of, worst_from,
  first_evictable, worst_main,
}
use ils_sp.Pool.Ranking.{Rankable, column_rank_less_trans, list_less_irrefl}
use ils_sp.Pool.Demotion.{worst_main_total}

module _ {D : Type 0} ⦃d : Double D⦄ (ordered : IsOrdered D) where
  column_rank_less_irrefl :
      (duals : List (ℤ × D)) (a : RouteColumn D) → column_rank_less a a duals ≡ false
  unfolding column_rank_less
  column_rank_less_irrefl duals a = ground (
    arith,
    lt_irrefl ordered (reduced_cost a duals),
    lt_irrefl ordered a.cost_h,
    list_less_irrefl a.customer_set,
    list_less_irrefl a.signature,
  )

  module _ (p : RoutePool D) where
    abbrev Ranked : Key × RouteColumn D → Type 0
    Ranked e = Rankable p.duals e.1

    -- No column ranks behind another once the scan has passed it.
    worse_of-keeps :
        (worst e x : Key × RouteColumn D)
        → Ranked worst
        → Ranked e
        → Ranked x
        → column_rank_less worst.1 x.1 p.duals ≡ false
        → Ranked (worse_of p worst e)
          × (column_rank_less (worse_of p worst e).1 x.1 p.duals ≡ false)
    unfolding worse_of
    worse_of-keeps worst e x hw he hx behind =
        elim (Bool-cases (contains e.0 p.protected_sequences)) [
          | inl protected ↦ rw (protected, worse_of) (hw, behind)
          | inr evictable ↦ elim (Bool-cases (column_rank_less worst.1 e.1 p.duals)) [
            | inr ranked ↦ rw (evictable, ranked, worse_of) (hw, behind)
            | inl worse ↦
                rw (evictable, worse, worse_of)
                  (
                    he,
                    ground (
                      arith,
                      column_rank_less_trans ordered p.duals worst.1 e.1 x.1 hw he hx worse,
                      behind,
                    ),
                  )
          ]
        ]

    worse_of-passes :
        (worst e : Key × RouteColumn D)
        → contains e.0 p.protected_sequences ≡ false
        → column_rank_less (worse_of p worst e).1 e.1 p.duals ≡ false
    unfolding worse_of
    worse_of-passes worst e evictable = elim (Bool-cases (column_rank_less worst.1 e.1 p.duals)) [
      | inr ranked ↦ rw (evictable, ranked, worse_of) ranked
      | inl worse ↦ rw (evictable, worse, worse_of) (column_rank_less_irrefl p.duals e.1)
    ]

    worst_from-keeps :
        (worst : Key × RouteColumn D) (rest : List (Key × RouteColumn D)) (x : Key × RouteColumn D)
        → Ranked worst
        → All Ranked rest
        → Ranked x
        → column_rank_less worst.1 x.1 p.duals ≡ false
        → column_rank_less (worst_from p worst rest).1 x.1 p.duals ≡ false
    unfolding worst_from
    worst_from-keeps worst [] x hw hs hx behind = behind
    worst_from-keeps worst (e ∷ rest) x hw hs hx behind =
        let (hn, still) = worse_of-keeps worst e x hw hs.0 hx behind in
        worst_from-keeps (worse_of p worst e) rest x hn hs.1 hx still

    worst_from-passes :
        (worst : Key × RouteColumn D) (rest : List (Key × RouteColumn D)) (x : Key × RouteColumn D)
        → Ranked worst
        → All Ranked rest
        → In x rest
        → contains x.0 p.protected_sequences ≡ false
        → column_rank_less (worst_from p worst rest).1 x.1 p.duals ≡ false
    unfolding worst_from
    worst_from-passes worst [] x hw hs i free = absurd i
    worst_from-passes worst (e ∷ rest) x hw hs (inl here) free =
        let hn =
          worse_of-keeps worst e worst hw hs.0 hw (column_rank_less_irrefl p.duals worst.1) in
        worst_from-keeps (worse_of p worst e) rest x hn.0 hs.1 (rw here hs.0)
          (rw here (worse_of-passes worst e (rw here at free)))
    worst_from-passes worst (e ∷ rest) x hw hs (inr there) free =
        let hn =
          worse_of-keeps worst e worst hw hs.0 hw (column_rank_less_irrefl p.duals worst.1) in
        worst_from-passes (worse_of p worst e) rest x hn.0 hs.1 there free

    first_evictable-passes :
        (m : List (Key × RouteColumn D)) (w x : Key × RouteColumn D)
        → All Ranked m
        → first_evictable p m ≡ ok w
        → In x m
        → contains x.0 p.protected_sequences ≡ false
        → column_rank_less w.1 x.1 p.duals ≡ false
    unfolding first_evictable
    first_evictable-passes [] w x hs e i free = absurd i
    first_evictable-passes (y ∷ m) w x hs e i free =
        elim (Bool-cases (contains y.0 p.protected_sequences)) [
          | inl protected ↦ elim i [
            | inl here ↦ absurd (ground (arith, rw here at free))
            | inr there ↦ first_evictable-passes m w x hs.1 (rw protected at e) there free
          ]
          | inr evictable ↦
              let same : worst_from p y m ≡ w = cc (rw evictable at e) in
              rw (← same) (elim i [
                | inl here ↦
                    rw here
                      (worst_from-keeps y m y hs.0 hs.1 hs.0 (column_rank_less_irrefl p.duals y.1))
                | inr there ↦ worst_from-passes y m x hs.0 hs.1 there free
              ])
        ]

    -- In a main pool with more columns than there are protected sequences, and no NaN among the
    -- costs and reduced costs, `worst_main` returns a main column that is not protected, and no
    -- other column that is not protected ranks behind it.
    pub worst_main-worst :
        Distinct p.main
        → Distinct p.protected_sequences
        → length p.protected_sequences < length p.main
        → All Ranked p.main
        → (w : Key × RouteColumn D) × (worst_main p ≡ ok w)
          × (contains w.0 p.protected_sequences ≡ false)
          × (find w.0 p.main ≡ some w.1)
          × ((x : Key × RouteColumn D)
              → In x p.main
              → contains x.0 p.protected_sequences ≡ false
              → column_rank_less w.1 x.1 p.duals ≡ false)
    unfolding worst_main
    worst_main-worst dm dq more hs =
        let (w, ran, free, found) = worst_main_total p dm dq more in
        (
          w,
          ran,
          free,
          found,
          λ x i evictable. first_evictable-passes p.main w x hs (ground (arith, ran)) i evictable,
        )
