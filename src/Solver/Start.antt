-- ===== src/Solver/Start.antt =====
-- src/solver.cpp: the start that the set-partitioning model is given, and the test that the pool
-- covers all customers.
pub mod Cover
use ils_sp.Prelude.{
  ℕ, zero, suc, ◌+◌, Bool, true, false, not, ◌&&◌, ◌||◌, Option, none, some, List, [], ◌∷◌, ◌++◌,
  map, length, get_elem?, nat_eq, ◌==◌, List_eq, list_eq, if◌then◌else◌,
}
use ils_sp.Prelude.Int.{ℤ, ℤ_eq}
use ils_sp.Prelude.Options.{◌>>=◌}
use ils_sp.Double.{Double, nought, cost_tolerance}
use ils_sp.Maps.{contains, assign}
use ils_sp.Core.{Plan, Solution, sorted_customer_set, list_less}
use ils_sp.Core.Instance.{Instance}
use ils_sp.Core.Partition.{IdSet, all_seen}
use ils_sp.Pool.{Key, RouteColumn}

-- The text that `source` holds.
pub data StartSource : Type 0 where
  no_start previous_sp best_feasible local_feasible : StartSource

-- `SpMipStartChoice`.
pub record SpMipStartChoice (D : Type 0) : Type 0 where
  pub column_indices : List ℕ
  pub source : StartSource
  pub objective_h : Option D

abbrev pub is_nil {ℓ} : {A : Type ℓ} → List A → Bool
is_nil [] = true
is_nil (a ∷ l) = false

-- `covered.insert` of a range.
unfoldable pub insert_all : List ℤ → IdSet → IdSet
insert_all [] covered = covered
insert_all (customer ∷ customers) covered = insert_all customers (assign customer tt covered)

-- The loop over a requested set: its customers join the set, none of them twice.
unfoldable pub cover_set : Key → IdSet → Option IdSet
cover_set [] covered = some covered
cover_set (customer_id ∷ customers) covered =
    let rest = cover_set customers ((customer_id, tt) ∷ covered) in
    if contains customer_id covered then none else rest

module _ {D : Type 0} where
  -- `std::lower_bound`: the first column whose set is not below the key.
  unfoldable pub lower_bound : Key → List (RouteColumn D) → ℕ
  lower_bound key [] = 0
  lower_bound key (column ∷ columns) =
      let rest = lower_bound key columns in
      if list_less column.customer_set key then suc rest else 0

  -- The column found, if its set is the one requested.
  unfoldable pub matching : Key → Option (RouteColumn D) → Option (RouteColumn D)
  matching key none = none
  matching key (some column) = if column.customer_set == key then some column else none

  unfoldable pub column_for : Key → List (RouteColumn D) → Option (RouteColumn D)
  column_for key columns = matching key (get_elem? columns (lower_bound key columns))

-- The variables of the loop over the requested sets.
pub record Chosen (D : Type 0) : Type 0 where
  pub column_indices : List ℕ
  pub objective_h : D
  pub covered : IdSet

module _ {D : Type 0} ⦃d : Double D⦄ where
  unfoldable pub choose_column : List (RouteColumn D) → Key → Chosen D → Option (Chosen D)
  choose_column columns customer_set chosen = do
    column ← column_for customer_set columns
    covered ← cover_set customer_set chosen.covered
    some (record {
      column_indices = chosen.column_indices ++ lower_bound customer_set columns ∷ [];
      objective_h = d.add chosen.objective_h column.cost_h;
      covered = covered;
    })

  unfoldable pub choose_columns : List (RouteColumn D) → List Key → Chosen D → Option (Chosen D)
  choose_columns columns [] chosen = some chosen
  choose_columns columns (customer_set ∷ requested) chosen = do
    next ← choose_column columns customer_set chosen
    choose_columns columns requested next

  unfoldable pub covers_instance : Instance D → IdSet → Bool
  covers_instance instance_ covered =
      nat_eq (length covered) (length instance_.customer_ids)
      && all_seen covered instance_.customer_ids

  abbrev pub nothing_chosen : Chosen D
  nothing_chosen = record { column_indices = []; objective_h = nought; covered = [] }

  unfoldable pub finish_start : Instance D → StartSource → Chosen D → Option (SpMipStartChoice D)
  finish_start instance_ source chosen =
      if not (covers_instance instance_ chosen.covered)
      then none
      else some (record {
        column_indices = chosen.column_indices;
        source = source;
        objective_h = some chosen.objective_h;
      })

  -- `make_sp_mip_start`.
  unfoldable pub make_sp_mip_start :
      Instance D → List (RouteColumn D) → List Key → StartSource → Option (SpMipStartChoice D)
  make_sp_mip_start instance_ columns requested source = if is_nil requested then none else (do
    chosen ← choose_columns columns requested nothing_chosen
    finish_start instance_ source chosen)

  -- `solution_customer_sets`.
  unfoldable pub solution_customer_sets : Solution D → List Key
  solution_customer_sets solution =
      map (λ plan. sorted_customer_set plan.customer_ids) solution.plans

  -- `pool_covers_all_customers`.
  unfoldable pub cover_columns : List (RouteColumn D) → IdSet → IdSet
  cover_columns [] covered = covered
  cover_columns (column ∷ columns) covered =
      cover_columns columns (insert_all column.customer_set covered)

  unfoldable pub pool_covers_all_customers : Instance D → List (RouteColumn D) → Bool
  pool_covers_all_customers instance_ columns =
      all_seen (cover_columns columns []) instance_.customer_ids

  -- `consider_mip_start`.
  unfoldable pub cheaper_start : Option D → Option D → Bool
  cheaper_start none start = false
  cheaper_start (some choice) none = true
  cheaper_start (some choice) (some start) = d.lt choice (d.sub start cost_tolerance)

  unfoldable pub consider_mip_start :
      SpMipStartChoice D → Option (SpMipStartChoice D) → SpMipStartChoice D
  consider_mip_start start none = start
  consider_mip_start start (some choice) =
      if is_nil start.column_indices || cheaper_start choice.objective_h start.objective_h
      then choice
      else start

  abbrev pub empty_start : SpMipStartChoice D
  empty_start = record { column_indices = []; source = no_start; objective_h = none }
