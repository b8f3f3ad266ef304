-- ===== src/Solver/Loop/Sound.antt =====
-- `solve` of src/solver.cpp: where its solutions come from.
use ils_sp.Prelude.{
  ℕ, zero, suc, ◌+◌, ◌≤◌, ◌≡◌, refl, arith, All, ◌⊎◌, inl, inr, Bool, true, false, not, ◌&&◌,
  Option, none, some, if◌then◌else◌, Result, ok, Returns, Returns->>=, Returns-if, Returns-ok,
}
use ils_sp.Prelude.Int.{ℤ}
use mathlib.Core.Path.{subst}
use ils_sp.Double.{Double}
use ils_sp.Core.{Solution, solution_feasible}
use ils_sp.Core.Instance.{Instance}
use ils_sp.Core.Partition.{validate_partition}
use ils_sp.Core.Partition.Cover.{IsConsistent, plan_customers}
use ils_sp.Core.Sets.{count}
use ils_sp.Solver.{SolverConfig}
use ils_sp.Solver.Records.{update_best, beats}
use ils_sp.Solver.Members.{Members, Services, deadline_expired}
use ils_sp.Solver.Assembly.{target_met}
use ils_sp.Solver.Assembly.Routes.{assemble_routes}
use ils_sp.Solver.Assembly.Checked.{Assembled, assemble_routes-Assembled}
use ils_sp.Solver.Loop.{
  Search, Anchor, Run, continue_from_record, cooperative_mode, fixed_anchor_mode, follow_anchor,
  same_endpoint, protect_record, record_candidate,
}
use ils_sp.Solver.Loop.Rounds.{
  StopReason, lambda_reset, with_session, generate, settle, feed_back, record_run, take_assembled,
  skip_assembly, assemble, record_local, stops_after, play, round, after_round, rounds,
}

pub either :
    {A : Type 0} (P : A → Type 0) (b : Bool) (x y : A)
    → (b ≡ true → P x)
    → (b ≡ false → P y)
    → P (if b then x else y)
either P true x y p q = p refl
either P false x y p q = q refl

not-false : (b : Bool) → not b ≡ false → b ≡ true
not-false true e = refl
not-false false e = absurd cc

module _ {D : Type 0} ⦃d : Double D⦄ (i : Instance D) where
  abbrev pub IsValid : Solution D → Type 0
  IsValid solution = validate_partition i solution ≡ ok tt

  -- Consistent plans that serve every customer once, and nothing else.
  abbrev pub ServesAll : Solution D → Type 0
  ServesAll s =
      All IsConsistent s.plans
      × ((a : ℤ) → count a (plan_customers s.plans) ≡ count a i.customer_ids)

module _ {D W : Type 0} ⦃d : Double D⦄ (i : Instance D) (search : Search D W) where
  -- What the builder of the initial solution has returned.
  abbrev pub Built : Solution D → Type 0
  Built s = (lambda : D) × (w : W) × (v : W) × (search.build lambda w ≡ ok (s, v))

  -- The solutions that the search components lead to, from the initial solution and from solutions
  -- that serve every customer once.
  pub data Found : Solution D → Type 0 where
    builds : {s : Solution D} → Built s → Found s
    partitions : {s : Solution D} → ServesAll i s → Found s
    perturbs :
        {s t : Solution D} {w v : W} (lambda : D)
        → Found s
        → search.apply s lambda w ≡ ok (t, v)
        → Found t
    descends :
        {s t : Solution D} {w v : W} (lambda : D) (limit : Option ℤ) (removed : Option ℕ)
        → Found s
        → search.improve s lambda limit removed w ≡ ok (t, v)
        → Found t

  -- What the descent has returned from such a solution.
  abbrev pub Descended : Solution D → Type 0
  Descended t =
      (s : Solution D) × (lambda : D) × (limit : Option ℤ) × (removed : Option ℕ) × (w : W)
      × (v : W) × Found s
      × (search.improve s lambda limit removed w ≡ ok (t, v))

  -- A solution that may become the best one.
  abbrev pub IsCandidate : Solution D → Type 0
  IsCandidate s = ServesAll i s ⊎ Descended s

  candidate-Found : (s : Solution D) → IsCandidate s → Found s
  candidate-Found s (inl all) = partitions all
  candidate-Found s (inr (from, lambda, limit, removed, w, v, found, e)) =
      descends lambda limit removed found e

  -- No solution, or a feasible candidate.
  abbrev pub IsAnswer : Option (Solution D) → Type 0
  IsAnswer none = Unit
  IsAnswer (some solution) = (solution_feasible solution ≡ true) × IsCandidate solution

  abbrev pub IsTaken : Option (Solution D) → Type 0
  IsTaken none = Unit
  IsTaken (some solution) = IsCandidate solution

  update_best-IsAnswer :
      (candidate : Solution D) (best : Option (Solution D))
      → IsCandidate candidate
      → IsAnswer best
      → IsAnswer (update_best candidate best).1
  unfolding update_best
  update_best-IsAnswer candidate best valid h =
      either {A = Bool × Option (Solution D)} (λ u. IsAnswer u.1)
        (not (solution_feasible candidate)) _ _ (λ _. h)
        (λ e.
          either {A = Bool × Option (Solution D)} (λ u. IsAnswer u.1) (beats candidate best) _ _
            (λ _. (not-false _ e, valid)) (λ _. h))

  record_candidate-IsAnswer :
      (config : SolverConfig D) (candidate : Solution D) (iteration : ℕ)
      (best : Option (Solution D)) (m : Members D)
      → IsCandidate candidate
      → IsAnswer best
      → Returns (λ v. IsAnswer v.1) (record_candidate config candidate iteration best m)
  unfolding record_candidate
  record_candidate-IsAnswer config candidate iteration best m valid h =
      Returns-if (λ v. IsAnswer v.1) (not (update_best candidate best).0) _ _ (λ _. h)
        (λ _.
          Returns->>= (λ v. IsAnswer v.1) (protect_record config candidate iteration m) _
            (λ n _. update_best-IsAnswer candidate best valid h))

  follow_anchor-Found :
      (completed : Bool) (lambda : D) (perturbed local : Solution D) (a : Anchor D)
      → Found perturbed
      → Found local
      → Found (follow_anchor completed lambda perturbed local a).0
  unfolding follow_anchor
  follow_anchor-Found completed lambda perturbed local a p l =
      either {A = Solution D × Anchor D} (λ u. Found u.0) (not completed) _ _ (λ _. l)
        (λ _.
          either {A = Solution D × Anchor D} (λ u. Found u.0) (same_endpoint a lambda local) _ _
            (λ _. p) (λ _. l))

module _ {D W : Type 0} ⦃d : Double D⦄ (config : SolverConfig D) (services : Services D W)
    (search : Search D W) (iteration : ℕ) (limit : Option ℤ) (i : Instance D)
    (serves : (s : Solution D) → IsValid i s → ServesAll i s) where
  Assembled-IsTaken :
      (local : Solution D) (o : Option (Solution D))
      → IsCandidate i search local
      → Assembled config services iteration limit i local o
      → IsTaken i search o
  Assembled-IsTaken local none l a = tt
  Assembled-IsTaken local (some found) l (inl valid) = inl (serves found valid)
  Assembled-IsTaken local (some found) l (inr (same, policy)) =
      let e : local ≡ found = cc in subst (λ s. IsCandidate i search s) e l

module _ {D W : Type 0} ⦃d : Double D⦄ (config : SolverConfig D) (services : Services D W)
    (search : Search D W) (i : Instance D) (limit : Option ℤ) (bound : ℕ)
    (serves : (s : Solution D) → IsValid i s → ServesAll i s) where
  abbrev pub Sound : Run D W → Type 0
  Sound r = Found i search r.current × IsAnswer i search r.best × (r.iterations ≤ bound)

  found : {s : Solution D} → IsCandidate i search s → Found i search s
  found c = candidate-Found i search _ c

  settle-Sound :
      (perturbed local : Solution D) (r : Run D W)
      → Found i search perturbed
      → IsCandidate i search local
      → Sound r
      → Sound (settle config services search i limit perturbed local r)
  unfolding settle
  settle-Sound perturbed local r p l h =
      either Sound (fixed_anchor_mode config) _ _
        (λ _. (follow_anchor-Found i search _ _ perturbed local r.anchor p (found l), h.1, h.2))
        (λ _.
          either Sound (cooperative_mode config) _ _ (λ _. (found l, h.1, h.2))
            (λ _. either Sound (continue_from_record config) _ _ (λ _. (p, h.1, h.2)) (λ _. h)))

  feed_back-Sound :
      (local : Solution D) (r : Run D W)
      → IsCandidate i search local
      → Sound r
      → Sound (feed_back config services search i limit local r)
  unfolding feed_back lambda_reset
  feed_back-Sound local r l h = either Sound _ _ _ (λ _. (found l, h.1, h.2)) (λ _. h)

  record_run-Sound :
      (candidate : Solution D) (iteration : ℕ) (r : Run D W)
      → IsCandidate i search candidate
      → Sound r
      → Returns (λ v. Sound v.1) (record_run config services search i limit candidate iteration r)
  unfolding record_run
  record_run-Sound candidate iteration r c h =
      Returns->>= (λ v. Sound v.1)
        (record_candidate config candidate iteration r.best r.session.members) _
        (λ recorded e. (
          h.0,
          Returns-ok (λ v. IsAnswer i search v.1) _ recorded e
              (record_candidate-IsAnswer i search config candidate iteration r.best _ c h.1),
          h.2,
        ))

  record_local-Sound :
      (local : Solution D) (iteration : ℕ) (r : Run D W)
      → IsCandidate i search local
      → Sound r
      → Returns Sound (record_local config services search i limit local iteration r)
  unfolding record_local
  record_local-Sound local iteration r l h =
      Returns-if Sound (continue_from_record config) _ _ (λ _. h)
        (λ _.
          Returns->>= Sound (record_run config services search i limit local iteration r) _
            (λ recorded e.
              Returns-ok (λ v. Sound v.1) _ recorded e (record_run-Sound local iteration r l h)))

  take_assembled-Sound :
      (local : Solution D) (iteration : ℕ) (o : Option (Solution D)) (r : Run D W)
      → IsCandidate i search local
      → IsTaken i search o
      → Sound r
      → Returns Sound (take_assembled config services search i limit local iteration o r)
  unfolding take_assembled
  take_assembled-Sound local iteration none r l v h =
      either Sound (continue_from_record config) _ _ (λ _. h) (λ _. (found l, h.1, h.2))
  take_assembled-Sound local iteration (some assembled) r l v h =
      Returns-if Sound (continue_from_record config) _ _
        (λ _.
          Returns->>= Sound (record_run config services search i limit assembled iteration r) _
            (λ recorded e.
              let kept =
                Returns-ok (λ u. Sound u.1) _ recorded e
                  (record_run-Sound assembled iteration r v h) in
              either Sound recorded.0 _ _ (λ _. (found v, kept.1, kept.2)) (λ _. kept)))
        (λ _.
          Returns->>= Sound (record_run config services search i limit assembled iteration _) _
            (λ recorded e.
              Returns-ok (λ u. Sound u.1) _ recorded e
                (record_run-Sound assembled iteration _ v (found v, h.1, h.2))))

  skip_assembly-Sound :
      (local : Solution D) (iteration : ℕ) (target : Bool) (r : Run D W)
      → iteration ≤ bound
      → IsCandidate i search local
      → Sound r
      → Sound (skip_assembly config services search i limit local iteration target r)
  unfolding skip_assembly
  skip_assembly-Sound local iteration target r below l h = (
    either (Found i search) (continue_from_record config) _ _ (λ _. h.0) (λ _. found l),
    h.1,
    either (λ n. n ≤ bound) target _ _ (λ _. below) (λ _. h.2),
  )

  assemble-Sound :
      (local : Solution D) (iteration : ℕ) (r : Run D W)
      → iteration ≤ bound
      → IsCandidate i search local
      → Sound r
      → Returns Sound (assemble config services search i limit local iteration r)
  unfolding assemble
  assemble-Sound local iteration r below l h =
      let target = target_met config.rounded_target_objective_h r.best in
      let s = (deadline_expired services limit r.session).1 in
      Returns-if Sound (not (deadline_expired services limit r.session).0 && not target) _ _
        (λ _.
          Returns->>= Sound (assemble_routes config services iteration limit i local r.best s) _
            (λ outcome e.
              let v =
                Assembled-IsTaken config services search iteration limit i serves local outcome.0 l
                  (Returns-ok (λ u. Assembled config services iteration limit i local u.0) _ outcome
                    e
                    (assemble_routes-Assembled config services iteration limit i local r.best s)) in
              Returns->>= Sound
                (take_assembled config services search i limit local iteration outcome.0
                  (with_session outcome.1 r))
                _
                (λ taken e'.
                  let kept =
                    Returns-ok Sound _ taken e'
                      (take_assembled-Sound local iteration outcome.0 _ l v h) in
                  let counted : Sound (record taken { iterations = iteration }) =
                    (kept.0, kept.1, below) in
                  counted)))
        (λ _. skip_assembly-Sound local iteration target (with_session s r) below l h)

  generate-Sound :
      (r : Run D W)
      → Sound r
      → Returns
          (λ v. Found i search v.0 × IsCandidate i search v.1 × Sound v.2)
          (generate config services search i limit r)
  unfolding generate
  generate-Sound r h =
      let Made : Solution D × Solution D × Run D W → Type 0 =
        λ v. Found i search v.0 × IsCandidate i search v.1 × Sound v.2 in
      let lambda = r.session.members.penalty.penalty_lambda in
      Returns->>= Made (search.apply r.current lambda r.session.world) _ (λ p e.
        let reached : Found i search p.0 = perturbs lambda h.0 e in
        Returns->>= Made (search.improve p.0 lambda limit _ p.1) _
          (λ l e'. (reached, inr (p.0, lambda, limit, _, p.1, l.1, reached, e'), h)))

  play-Sound :
      (iteration : ℕ) (r : Run D W)
      → iteration ≤ bound
      → Sound r
      → Returns (λ v. Sound v.1) (play config services search i limit iteration r)
  unfolding play stops_after
  play-Sound iteration r below h =
      let Kept : Option StopReason × Run D W → Type 0 = λ v. Sound v.1 in
      Returns->>= Kept (generate config services search i limit _) _ (λ made e.
        let v = Returns-ok _ _ made e (generate-Sound _ h) in
        let fed = feed_back-Sound made.1 _ v.1 (settle-Sound made.0 made.1 made.2 v.0 v.1 v.2) in
        Returns->>= Kept (record_local config services search i limit made.1 iteration _) _
          (λ recorded e'.
            let k =
              Returns-ok Sound _ recorded e' (record_local-Sound made.1 iteration _ v.1 fed) in
            Returns->>= Kept (assemble config services search i limit made.1 iteration recorded) _
              (λ assembled e''.
                Returns-ok Sound _ assembled e''
                  (assemble-Sound made.1 iteration recorded below v.1 k))))

  round-Sound :
      (iteration : ℕ) (r : Run D W)
      → iteration ≤ bound
      → Sound r
      → Returns (λ v. Sound v.1) (round config services search i limit iteration r)
  unfolding round
  round-Sound iteration r below h =
      Returns-if (λ v. Sound v.1) (deadline_expired services limit r.session).0 _ _ (λ _. h)
        (λ _. play-Sound iteration _ below h)

  after_round-Sound :
      (rest : Run D W → Result (StopReason × Run D W)) (o : Option StopReason) (r : Run D W)
      → ((s : Run D W) → Sound s → Returns (λ v. Sound v.1) (rest s))
      → Sound r
      → Returns (λ v. Sound v.1) (after_round config services search i limit rest o r)
  after_round-Sound rest none r h k = h r k
  after_round-Sound rest (some reason) r h k = k

  pub rounds-Sound :
      (left iteration : ℕ) (r : Run D W)
      → left + iteration ≤ suc bound
      → Sound r
      → Returns (λ v. Sound v.1) (rounds config services search i limit left iteration r)
  unfolding rounds
  rounds-Sound zero iteration r below h = h
  rounds-Sound (suc left) iteration r below h =
      Returns->>= (λ v. Sound v.1) (round config services search i limit iteration r) _
        (λ next e.
          after_round-Sound _ next.0 next.1
            (λ s k. rounds-Sound left (suc iteration) s (omega arith) k)
            (Returns-ok (λ v. Sound v.1) _ next e (round-Sound iteration r (omega arith) h)))
