-- ===== src/Evaluator/Joining.antt =====
-- src/evaluator.cpp: `evaluate` on components that are not joined.
use ils_sp.Prelude.{
  ◌≡◌, refl, sym, ap, ◌∙◌, true, Bool-cases, inl, inr, some, List, [], ◌∷◌, ◌++◌, map, All, Result,
  ok, ◌>>=◌, ◌==◌,
}
use mathlib.Core.List.{append_assoc, append-nil}
use ils_sp.Prelude.Int.{ℤ_eq}
use ils_sp.Double.{Double, nought}
use ils_sp.Evaluator.{
  Leg, Label, join, join_legs, append, view_of, first_energy, gap, sum_times, gather_legs, evaluate,
  evaluate_components,
}

module _ {D : Type 0} ⦃d : Double D⦄ where
  -- The labels joined one by one.
  unfoldable pub append_all : Label D → List (Label D) → Result (Label D)
  append_all left [] = ok left
  append_all left (right ∷ labels) = do longer ← append left right; append_all longer labels

  abbrev pub IsInitialized : Label D → Type 0
  IsInitialized label = label.initialized ≡ true

  -- A value that a zero added to it does not change, which is any but a negative zero.
  abbrev pub IsPlain : D → Type 0
  IsPlain x = (d.add nought x ≡ x) × (d.add x nought ≡ x)

  append-join :
      (left right : Label D)
      → IsInitialized left
      → IsInitialized right
      → (left.target_id == right.origin_id) ≡ true
      → append left right ≡ ok (join left right)
  unfolding append
  append-join left right i j meet = simp (i, j, meet)

  join_legs-IsInitialized :
      (left : Label D) (legs : List (Leg D)) (right : Label D)
      → IsInitialized left
      → IsInitialized (join_legs left legs right)
  unfolding join_legs
  join_legs-IsInitialized left [] right i = i
  join_legs-IsInitialized left (front ∷ legs) right i = i

  join-IsInitialized : (left right : Label D) → IsInitialized left → IsInitialized (join left right)
  unfolding join
  join-IsInitialized left right i = join_legs-IsInitialized _ right.station_legs right i

  -- `evaluate` from the joined prefix on.
  module _ {Cost : Type 0} (evaluate_data : D → D → List (Leg D) → D → Result Cost) where
    abbrev resume : Label D → List (Label D) → Result Cost
    resume left labels =
        sum_times (some left.target_id) left.travel_time_h left.service_time_h (map view_of labels)
        >>= λ times.
            let gathered = gather_legs left.tail_energy_wh (map view_of labels) in
            evaluate_data times.0 times.1 (left.station_legs ++ gathered.0) gathered.1

    resume-join :
        (left right : Label D) (labels : List (Label D)) (legs : List (Leg D))
        → right.station_legs ≡ legs
        → right.initialized ≡ true
        → (left.target_id == right.origin_id) ≡ true
        → resume (join left right) labels ≡ resume left (right ∷ labels)
    unfolding join join_legs sum_times gather_legs view_of first_energy gap
    resume-join left right labels [] h i e = rw (h, i, e) refl
    resume-join left right labels (front ∷ legs) h i e =
        rw (h, i, e, append_assoc left.station_legs) refl

    append_all-resume :
        (left : Label D) (labels : List (Label D))
        → IsInitialized left
        → All IsInitialized labels
        → (append_all left labels >>= evaluate evaluate_data) ≡ resume left labels
    unfolding append_all append evaluate sum_times gather_legs view_of gap
    append_all-resume left [] i h = rw (i, append-nil left.station_legs) refl
    append_all-resume left (right ∷ labels) i (j, h) =
        elim (Bool-cases (left.target_id == right.origin_id)) [
          | inr apart ↦ simp (i, j, apart)
          | inl meet ↦
              ap (λ call. call >>= (λ longer. append_all longer labels) >>= evaluate evaluate_data)
                (append-join left right i j meet)
              ∙ (append_all-resume (join left right) labels (join-IsInitialized left right i) h
                  ∙ resume-join left right labels right.station_legs refl j meet)
        ]

    resume-evaluate :
        (first : Label D) (labels : List (Label D)) (legs : List (Leg D))
        → first.station_legs ≡ legs
        → IsInitialized first
        → IsPlain first.travel_time_h
        → IsPlain first.service_time_h
        → IsPlain first.tail_energy_wh
        → IsPlain (first_energy legs)
        → resume first labels ≡ evaluate_components evaluate_data (map view_of (first ∷ labels))
    unfolding evaluate_components sum_times gather_legs view_of first_energy gap
    resume-evaluate first labels [] h i t s e f = simp (h, i, t.0, s.0, e.0)
    resume-evaluate first labels (front ∷ legs) h i t s e f = simp (h, i, t.0, s.0, f.1)

    -- On components that are initialized, where no time and no energy of the first is a negative
    -- zero: evaluating the components without joining them gives the cost, or the exception, of
    -- appending them one by one and evaluating the label that results. The evaluation of the joined
    -- data is any function.
    pub evaluate_components-append_all :
        (first : Label D) (labels : List (Label D))
        → All IsInitialized (first ∷ labels)
        → IsPlain first.travel_time_h
        → IsPlain first.service_time_h
        → IsPlain first.tail_energy_wh
        → IsPlain (first_energy first.station_legs)
        → evaluate_components evaluate_data (map view_of (first ∷ labels))
          ≡ (append_all first labels >>= evaluate evaluate_data)
    evaluate_components-append_all first labels (i, h) t s e f = sym (
        append_all-resume first labels i h
        ∙ resume-evaluate first labels first.station_legs refl i t s e f)
