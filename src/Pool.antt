-- ===== src/Pool.antt =====
-- include/ils_sp/pool.hpp and src/pool.cpp: the bounded pool of route columns, with its backup, its
-- index of coverage costs, and the routes of the incumbent that it must keep.
pub mod Methods
pub mod Upkeep
pub mod Index
pub mod Indexed
pub mod Invariant
pub mod Demotion
pub mod Admission
pub mod Columns
pub mod Repricing
pub mod Ranking
pub mod Eviction
pub mod Protection
pub mod History
mod Tests
use ils_sp.Prelude.{
  ℕ, suc, ◌+◌, ◌%◌, ◌^◌, Bool, true, false, not, ◌&&◌, ◌||◌, Option, none, some, List, [], ◌∷◌,
  length, if◌then◌else◌, nat_eq, ◌==◌, List_eq, Result, ok, throw, invalid_argument, logic_error,
  ◌>>=◌, ◌>>◌, throw_if,
}
use ils_sp.Prelude.Int.{ℤ, ℤ_eq}
use ils_sp.Double.{Double, nought, fabs, feq}
use ils_sp.Core.{
  Plan, Solution, plan_feasible, plan_cost, solution_feasible, sorted_customer_set, list_less,
}
use ils_sp.Maps.{find, contains, assign, erase}

-- A customer sequence or a customer set, by which columns are looked up.
abbrev pub Key : Type 0
Key = List ℤ

pub data PoolIdentity : Type 0 where
  ordered_sequence customer_coverage : PoolIdentity

-- `RouteColumn`.
pub record RouteColumn (D : Type 0) : Type 0 where
  pub plan : Plan D
  pub customer_set : Key
  pub cost_h : D
  pub signature : List ℤ

-- `PoolUpdate`, `PoolRepriceUpdate` and `PoolStatistics`.
pub record PoolUpdate : Type 0 where
  pub main : Bool
  pub backup : Bool
  pub replaced_dominated : Bool
  pub effective_coverage_improvement : Bool
  pub evicted_customer_sequence : Option Key

pub record PoolRepriceUpdate : Type 0 where
  pub candidates : ℕ
  pub promoted : ℕ
  pub effective_coverage_improvements : ℕ

pub record PoolStatistics : Type 0 where
  pub admission_attempts : ℕ
  pub dominated_rejections : ℕ
  pub same_sequence_replacements : ℕ
  pub same_coverage_replacements : ℕ
  pub negative_reduced_cost_admissions : ℕ
  pub main_insertions : ℕ
  pub backup_insertions : ℕ
  pub main_demotions : ℕ
  pub repricing_candidates : ℕ
  pub repricing_promotions : ℕ
  pub effective_coverage_improvements : ℕ

-- `RoutePool`. A multiset of costs is the list of them in ascending order.
pub record RoutePool (D : Type 0) : Type 0 where
  pub capacity : ℕ
  pub tolerance : D
  pub identity : PoolIdentity
  pub keep_evicted_in_backup : Bool
  pub main : List (Key × RouteColumn D)
  pub coverage_costs : List (Key × List D)
  pub backup : List (Key × RouteColumn D)
  pub protected_sequences : List (Key × Unit {0})
  pub duals : List (ℤ × D)
  pub duals_valid : Bool
  pub effective_generation : ℕ
  pub statistics : PoolStatistics

-- `++` and `+=` on a `std::uint64_t` counter.
unfoldable pub counted_up : ℕ → ℕ → ℕ
counted_up n by = (n + by) % 2 ^ 64

abbrev pub no_statistics : PoolStatistics
no_statistics = record {
  admission_attempts = 0;
  dominated_rejections = 0;
  same_sequence_replacements = 0;
  same_coverage_replacements = 0;
  negative_reduced_cost_admissions = 0;
  main_insertions = 0;
  backup_insertions = 0;
  main_demotions = 0;
  repricing_candidates = 0;
  repricing_promotions = 0;
  effective_coverage_improvements = 0;
}

abbrev pub rejected : PoolUpdate
rejected = record {
  main = false;
  backup = false;
  replaced_dominated = false;
  effective_coverage_improvement = false;
  evicted_customer_sequence = none;
}

module _ {D : Type 0} ⦃d : Double D⦄ where
  -- `RouteColumn::reduced_cost`.
  unfoldable pub subtract_duals : List (ℤ × D) → D → Key → D
  subtract_duals duals result [] = result
  subtract_duals duals result (customer_id ∷ customers) =
      subtract_duals duals
        (elim (find customer_id duals) [ none ↦ result | some dual ↦ d.sub result dual ]) customers

  unfoldable pub reduced_cost : RouteColumn D → List (ℤ × D) → D
  unfolding subtract_duals
  reduced_cost column duals = subtract_duals duals column.cost_h column.customer_set

  -- `column_rank_less`.
  unfoldable pub column_rank_less : RouteColumn D → RouteColumn D → List (ℤ × D) → Bool
  column_rank_less left right duals =
      let left_reduced = reduced_cost left duals in
      let right_reduced = reduced_cost right duals in
      if not (feq left_reduced right_reduced)
      then d.lt left_reduced right_reduced
      else if not (feq left.cost_h right.cost_h)
      then d.lt left.cost_h right.cost_h
      else if not (left.customer_set == right.customer_set)
      then list_less left.customer_set right.customer_set
      else list_less left.signature right.signature

  -- `incumbent_dominates`.
  unfoldable pub incumbent_dominates : RouteColumn D → RouteColumn D → D → Bool
  incumbent_dominates incumbent candidate tolerance =
      if d.lt incumbent.cost_h (d.sub candidate.cost_h tolerance)
      then true
      else if d.lt tolerance (fabs (d.sub incumbent.cost_h candidate.cost_h))
      then false
      else incumbent.plan.exact_charging || not candidate.plan.exact_charging

  -- `RouteColumn::from_plan`.
  unfoldable pub from_plan : Plan D → Result (RouteColumn D)
  from_plan plan =
      let customer_set = sorted_customer_set plan.customer_ids in
      if not (plan_feasible plan) || nat_eq (length plan.customer_ids) 0
      then throw invalid_argument
      else if not (nat_eq (length customer_set) (length plan.customer_ids))
      then throw invalid_argument
      else ok (record {
        plan = plan;
        customer_set = customer_set;
        cost_h = plan_cost plan;
        signature = plan.route.visits;
      })

  -- The constructor.
  abbrev pub empty_pool : ℕ → D → PoolIdentity → Bool → RoutePool D
  empty_pool capacity tolerance identity keep_evicted_in_backup = record {
    capacity = capacity;
    tolerance = tolerance;
    identity = identity;
    keep_evicted_in_backup = keep_evicted_in_backup;
    main = [];
    coverage_costs = [];
    backup = [];
    protected_sequences = [];
    duals = [];
    duals_valid = false;
    effective_generation = 0;
    statistics = no_statistics;
  }

  unfoldable pub new_pool : ℕ → D → PoolIdentity → Bool → Result (RoutePool D)
  new_pool capacity tolerance identity keep_evicted_in_backup =
      if nat_eq capacity 0 || not (d.is_finite tolerance) || d.lt tolerance nought
      then throw invalid_argument
      else ok (empty_pool capacity tolerance identity keep_evicted_in_backup)

  -- `column_key`.
  unfoldable pub key_of : PoolIdentity → RouteColumn D → Key
  key_of customer_coverage column = column.customer_set
  key_of ordered_sequence column = column.plan.customer_ids

  abbrev pub column_key : RoutePool D → RouteColumn D → Key
  column_key p column = key_of p.identity column

  -- `std::multiset<double>`: `insert` puts a cost behind its equals, `find` and `erase` take the
  -- first equal one, and `*begin()` is the head.
  unfoldable pub insert_cost : D → List D → List D
  insert_cost c [] = c ∷ []
  insert_cost c (x ∷ xs) = let rest = insert_cost c xs in if d.lt c x then c ∷ x ∷ xs else x ∷ rest

  unfoldable pub erase_cost : D → List D → Option (List D)
  erase_cost c [] = none
  erase_cost c (x ∷ xs) =
      let rest = erase_cost c xs in
      if d.lt x c || d.lt c x then elim rest [ none ↦ none | some ys ↦ some (x ∷ ys) ] else some xs

  unfoldable pub costs_of : Key → List (Key × List D) → List D
  costs_of coverage index = elim (find coverage index) [ none ↦ [] | some costs ↦ costs ]

  -- `best_coverage_cost`.
  unfoldable pub best_coverage_cost : RoutePool D → Key → Option D
  best_coverage_cost p coverage = elim (costs_of coverage p.coverage_costs) [
    | [] ↦ none
    | c ∷ costs ↦ some c
  ]

  -- `coverage_improved`.
  unfoldable pub coverage_improved : RoutePool D → Option D → Option D → Bool
  coverage_improved p before none = false
  coverage_improved p none (some after) = true
  coverage_improved p (some before) (some after) = d.lt after (d.sub before p.tolerance)

  -- `index_main_insert` and `index_main_erase`.
  unfoldable pub index_main_insert : RouteColumn D → List (Key × List D) → List (Key × List D)
  index_main_insert column index =
      assign column.customer_set (insert_cost column.cost_h (costs_of column.customer_set index))
        index

  unfoldable pub index_main_erase :
      RouteColumn D → List (Key × List D) → Result (List (Key × List D))
  index_main_erase column index = elim (find column.customer_set index) [
    | none ↦ throw logic_error
    | some costs ↦ elim (erase_cost column.cost_h costs) [
      | none ↦ throw logic_error
      | some [] ↦ ok (erase column.customer_set index)
      | some (c ∷ rest) ↦ ok (assign column.customer_set (c ∷ rest) index)
    ]
  ]

  -- `put_main`: the pool with the column stored, once the index has lost the incumbent's cost.
  unfoldable pub stored : RouteColumn D → List (Key × List D) → RoutePool D → RoutePool D
  stored column index p = record p {
    backup = erase (column_key p column) p.backup;
    main = assign (column_key p column) column p.main;
    coverage_costs = index_main_insert column index;
    statistics = record p.statistics {
      main_insertions = counted_up p.statistics.main_insertions 1;
    };
  }

  unfoldable pub put_main : RouteColumn D → RoutePool D → Result (RoutePool D)
  put_main column p = do
    index ← elim (find (column_key p column) p.main) [
      | none ↦ ok p.coverage_costs
      | some incumbent ↦ index_main_erase incumbent p.coverage_costs
    ]
    ok (stored column index p)

  -- The test of `put_backup`.
  unfoldable pub improves_backup : RouteColumn D → Option (RouteColumn D) → D → Bool
  improves_backup column none tolerance = true
  improves_backup column (some found) tolerance =
      d.lt column.cost_h (d.sub found.cost_h tolerance)
      || (d.le (fabs (d.sub column.cost_h found.cost_h)) tolerance
          && column.plan.exact_charging
          && not found.plan.exact_charging)

  unfoldable pub put_backup : RouteColumn D → RoutePool D → RoutePool D
  put_backup column p =
      if improves_backup column (find (column_key p column) p.backup) p.tolerance
      then record p {
        backup = assign (column_key p column) column p.backup;
        statistics = record p.statistics {
          backup_insertions = counted_up p.statistics.backup_insertions 1;
        };
      }
      else p

  -- `demote_main`, on the entry that the iterator names: the pool without it, and then its copy
  -- in the backup.
  unfoldable pub removed : Key → List (Key × List D) → RoutePool D → RoutePool D
  removed key index p = record p { coverage_costs = index; main = erase key p.main }

  -- `erase_main`.
  unfoldable pub erase_main : Key × RouteColumn D → RoutePool D → Result (RoutePool D)
  erase_main entry p = do
    index ← index_main_erase entry.1 p.coverage_costs
    ok (removed entry.0 index p)

  unfoldable pub count_demotion : RoutePool D → RoutePool D
  count_demotion p = record p {
    statistics = record p.statistics { main_demotions = counted_up p.statistics.main_demotions 1 };
  }

  unfoldable pub demote_main : Key × RouteColumn D → RoutePool D → Result (RoutePool D)
  demote_main entry p = do
    index ← index_main_erase entry.1 p.coverage_costs
    let without = removed entry.0 index p
    ok (
        count_demotion
          (if without.keep_evicted_in_backup then put_backup entry.1 without else without))

  -- `record_effective_coverage_improvement`.
  unfoldable pub record_improvement : Bool → RoutePool D → RoutePool D
  record_improvement improved p = if not improved then p else record p {
    effective_generation = counted_up p.effective_generation 1;
    statistics = record p.statistics {
      effective_coverage_improvements = counted_up p.statistics.effective_coverage_improvements 1;
    };
  }

  -- `worst_main`: the first column that is not protected, and then the loop behind it.
  unfoldable pub worse_of :
      RoutePool D → Key × RouteColumn D → Key × RouteColumn D → Key × RouteColumn D
  worse_of p worst current =
      if contains current.0 p.protected_sequences
      then worst
      else if column_rank_less worst.1 current.1 p.duals
      then current
      else worst

  unfoldable pub worst_from :
      RoutePool D → Key × RouteColumn D → List (Key × RouteColumn D) → Key × RouteColumn D
  unfolding worse_of
  worst_from p worst [] = worst
  worst_from p worst (current ∷ rest) = worst_from p (worse_of p worst current) rest

  unfoldable pub first_evictable :
      RoutePool D → List (Key × RouteColumn D) → Result (Key × RouteColumn D)
  first_evictable p [] = throw logic_error
  first_evictable p (entry ∷ rest) =
      if contains entry.0 p.protected_sequences
      then first_evictable p rest
      else ok (worst_from p entry rest)

  unfoldable pub worst_main : RoutePool D → Result (Key × RouteColumn D)
  worst_main p = if nat_eq (length p.main) 0 then throw logic_error else first_evictable p p.main
