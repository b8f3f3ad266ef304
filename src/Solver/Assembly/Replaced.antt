-- ===== src/Solver/Assembly/Replaced.antt =====
-- The loop over the selected routes in `assemble_routes` of src/solver.cpp: which plans it replaces.
use ils_sp.Prelude.{
  ℕ, ◌+◌, ◌≤◌, ◌≡◌, refl, sym, ◌∙◌, ◌⊎◌, inl, inr, true, ◌&&◌, ◌||◌, Bool-cases, Option, none, some,
  List, [], ◌∷◌, get_elem?, get_elem?-set_same, get_elem?-set_other, set, nat_eq, nat_eq_iff,
  if◌then◌else◌, arith, ok, Returns, Returns->>=, Returns-if, Returns-ok, Returns-weaken,
}
use ils_sp.Prelude.Int.{ℤ}
use ils_sp.Double.{Double}
use ils_sp.Core.{Plan, plan_feasible}
use ils_sp.Pool.{RouteColumn}
use ils_sp.Solver.{SolverConfig}
use ils_sp.Solver.Budget.{exhausted}
use ils_sp.Solver.Members.{Services, Session, Members, deadline_expired}
use ils_sp.Solver.Assembly.{admit_plan}
use ils_sp.Solver.Assembly.Routes.{
  accepts, take_plan, plan_at, call_optimize, optimize_route, optimize_routes, reached,
}

module _ {D W : Type 0} ⦃d : Double D⦄ (config : SolverConfig D) (services : Services D W)
    (iteration : ℕ) (limit : Option ℤ) where
  -- A plan's successor: the plan itself or, from an index on, a feasible one that is accepted.
  abbrev pub Successor : ℕ → ℕ → Plan D → Plan D → Type 0
  Successor from j p q = (q ≡ p) ⊎ ((from ≤ j) × (plan_feasible q ≡ true) × (accepts q p ≡ true))

  abbrev pub Replaced : ℕ → List (Plan D) → List (Plan D) → Type 0
  Replaced from before after =
      (j : ℕ) (p : Plan D)
      → get_elem? before j ≡ some p
      → (q : Plan D) × (get_elem? after j ≡ some q) × Successor from j p q

  -- One step replaces the plan at its index at most.
  abbrev ReplacedAt : ℕ → List (Plan D) → List (Plan D) → Type 0
  ReplacedAt index before after =
      (j : ℕ) (p : Plan D)
      → get_elem? before j ≡ some p
      → (q : Plan D) × (get_elem? after j ≡ some q)
        × ((q ≡ p) ⊎ ((j ≡ index) × (plan_feasible q ≡ true) × (accepts q p ≡ true)))

  set-ReplacedAt :
      (candidate selected : Plan D) (index : ℕ) (plans : List (Plan D))
      → plan_feasible candidate ≡ true
      → accepts candidate (plan_at plans index selected) ≡ true
      → ReplacedAt index plans (set plans index candidate)
  set-ReplacedAt candidate selected index plans fine better j p e =
      elim (Bool-cases (nat_eq index j)) [
        | inl here ↦
            let same : index ≡ j = (nat_eq_iff index j).0 here in
            let there : get_elem? plans index ≡ some p = rw same e in
            (
              candidate,
              rw (← same) (get_elem?-set_same plans index p candidate there),
              inr (sym same, fine, rw (plan_at, there) at better),
            )
        | inr elsewhere ↦ (
          p,
          get_elem?-set_other plans index j candidate
                (λ same. ground (arith, elsewhere, nat_eq_iff index j))
              ∙ e,
          inl refl,
        )
      ]

  take_plan-ReplacedAt :
      (o : Option (Plan D)) (index : ℕ) (selected : RouteColumn D) (plans : List (Plan D))
      (m : Members D)
      → Returns
          (λ taken. ReplacedAt index plans taken.0)
          (take_plan config services iteration limit o index selected plans m)
  unfolding take_plan
  take_plan-ReplacedAt none index selected plans m = λ j p e. (p, e, inl refl)
  take_plan-ReplacedAt (some candidate) index selected plans m =
      Returns-if (λ taken. ReplacedAt index plans taken.0)
        (plan_feasible candidate && accepts candidate (plan_at plans index selected.plan)) _ _
        (λ good.
          Returns->>= (λ taken. ReplacedAt index plans taken.0) (admit_plan iteration candidate m) _
            (λ n _.
              set-ReplacedAt candidate selected.plan index plans (ground (arith, good))
                (ground (arith, good))))
        (λ _ j p e. (p, e, inl refl))

  optimize_route-ReplacedAt :
      (selected : RouteColumn D) (index : ℕ) (plans : List (Plan D)) (s : Session D W)
      → Returns
          (λ next. ReplacedAt index plans next.0)
          (optimize_route config services iteration limit selected index plans s)
  unfolding optimize_route
  optimize_route-ReplacedAt selected index plans s =
      Returns->>= (λ next. ReplacedAt index plans next.0)
        (call_optimize config services iteration limit selected s) _
        (λ answer _.
          Returns->>= (λ next. ReplacedAt index plans next.0)
            (take_plan config services iteration limit answer.0 index selected plans
              answer.1.members)
            _
            (λ taken e.
              Returns-ok (λ t. ReplacedAt index plans t.0) _ taken e
                (take_plan-ReplacedAt answer.0 index selected plans answer.1.members)))

  then_later :
      (index : ℕ) (before middle after : List (Plan D))
      → ReplacedAt index before middle
      → Replaced (index + 1) middle after
      → Replaced index before after
  then_later index before middle after first rest j p e =
      let (q, at_q, how) = first j p e in
      let (r, at_r, later) = rest j q at_q in
      (
        r,
        at_r,
        elim how [
          | inl kept ↦ elim later [
            | inl same ↦ inl (same ∙ kept)
            | inr (from, fine, better) ↦ inr (omega arith, fine, rw (← kept) better)
          ]
          | inr (here, fine, better) ↦ elim later [
            | inl same ↦ inr (omega arith, rw same fine, rw same better)
            | inr (from, _, _) ↦ absurd (omega arith)
          ]
        ],
      )

  step_on :
      (rest : List (RouteColumn D)) (index : ℕ) (plans : List (Plan D))
      (next : List (Plan D) × Session D W)
      → ReplacedAt index plans next.0
      → Returns
          (λ final. Replaced (index + 1) next.0 final.0)
          (optimize_routes config services iteration limit rest (index + 1) next.0 next.1)
      → Returns
          (λ final. Replaced index plans final.0)
          (if reached config services iteration limit next.0
            then ok next
            else optimize_routes config services iteration limit rest (index + 1) next.0 next.1)
  step_on rest index plans next one later =
      Returns-if (λ final. Replaced index plans final.0)
        (reached config services iteration limit next.0) _ _
        (λ _. then_later index plans next.0 next.0 one (λ j p e. (p, e, inl refl)))
        (λ _.
          Returns-weaken (λ final. Replaced (index + 1) next.0 final.0)
            (λ final. Replaced index plans final.0) _
            (λ final. then_later index plans next.0 final.0 one) later)

  optimize_routes-Replaced :
      (rest : List (RouteColumn D)) (index : ℕ) (plans : List (Plan D)) (s : Session D W)
      → Returns
          (λ final. Replaced index plans final.0)
          (optimize_routes config services iteration limit rest index plans s)
  unfolding optimize_routes
  optimize_routes-Replaced [] index plans s = λ j p e. (p, e, inl refl)
  optimize_routes-Replaced (selected ∷ rest) index plans s =
      let start = deadline_expired services limit s in
      Returns-if (λ final. Replaced index plans final.0)
        (start.0 || reached config services iteration limit plans) _ _ (λ _ j p e. (p, e, inl refl))
        (λ _.
          Returns-if (λ final. Replaced index plans final.0) (exhausted start.1.budget) _ _
            (λ _ j p e. (p, e, inl refl))
            (λ _.
              Returns->>= (λ final. Replaced index plans final.0)
                (optimize_route config services iteration limit selected index plans start.1) _
                (λ next e.
                  step_on rest index plans next
                    (Returns-ok (λ n. ReplacedAt index plans n.0) _ next e
                      (optimize_route-ReplacedAt selected index plans start.1))
                    (optimize_routes-Replaced rest (index + 1) next.0 next.1))))

  -- Whatever the clock and the fixed-route model answer: the loop over the selected routes keeps
  -- every plan in its place, or replaces it, if it is not before the starting index, by a feasible plan that is cheaper by more than
  -- the tolerance or exact, where the plan was not, and no dearer by more than the tolerance.
  pub optimize_routes_effect :
      (selected : List (RouteColumn D)) (index : ℕ) (plans final : List (Plan D))
      (s t : Session D W)
      → optimize_routes config services iteration limit selected index plans s ≡ ok (final, t)
      → (j : ℕ) (p : Plan D) → get_elem? plans j ≡ some p
      → (q : Plan D) × (get_elem? final j ≡ some q) × Successor index j p q
  optimize_routes_effect selected index plans final s t e =
      Returns-ok (λ f. Replaced index plans f.0) _ (final, t) e
        (optimize_routes-Replaced selected index plans s)
