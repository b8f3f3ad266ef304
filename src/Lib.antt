-- ===== src/Lib.antt =====
-- The ILS-SP solver for electric vehicle routing: an iterated local search produces routes, a
-- bounded pool keeps the useful ones, and a set-partitioning model over the pool is solved with a
-- start that a dual certificate may prove good enough.
--
-- Which file models what:
--   * Certificate and Certificate/: include/ils_sp/detail/sp_dual_certificate.hpp.
--     `certify_sp_start` is one function for each of its loops, and the flag `finite` that the
--     lambdas `down` and `up` capture is passed on. `sp_certificate_fp_supported`, which reads
--     the processor's control words, is the Boolean argument `fp_supported`. Exact and Directed
--     have the exact sums, Rows, Base, Lower, Fixing and Marks follow the loops, Opened the
--     control flow; Soundness and Feasible have what the certificate proves.
--   * Core and Core/: include/ils_sp/core.hpp and src/core.cpp. Core has routes, plans, solutions
--     and the functions on them, Core/Curve the charging curves, Core/Instance the instance with
--     its constructor and queries, Core/Partition `validate_partition` and `generalized_cost`.
--     Sets is about the sorted sets of customers, Scanned, Built and Queries about the instance,
--     Counts and Cover about partitions. Example has the small instance of the tests.
--   * Solver and Solver/: include/ils_sp/solver.hpp and src/solver.cpp. Config has the
--     constructor's checks, Penalty `observe_penalty`, Records `update_best` and
--     `rounded_target_reached`, Workstate `same_complete_workstate`, Epochs the epoch functions,
--     which this version of `solve` has switched off (`epoch_mode` is false), Start
--     `make_sp_mip_start`, Budget include/ils_sp/detail/frvcp_active_budget.hpp, Schedule the
--     decision to call the set-partitioning model, and Assembly the rest of `assemble_routes`,
--     one function for each phase. Members has the class's members and the record `Services`: the
--     clock, the two solves of the set-partitioning model and the fixed-route model, on one
--     shared state, all of which the theorems leave open. Loop is `solve`: its variables,
--     Loop/Rounds the rounds and the result; Loop/Sound and Loop/Answers are about where its
--     solutions come from, Loop/FullRun about a run that nothing stops early. The record `Search`
--     is the perturbation, the descent and the builder of the initial solution, whose code in
--     src/search.cpp is not modelled; the theorems hold whatever these three return.
--   * InputContract: include/ils_sp/detail/input_contract.hpp. `ClockType` is the platform's
--     clock.
--   * Pool and Pool/: include/ils_sp/pool.hpp and src/pool.cpp. The record `RoutePool` has the
--     class's fields. Pool has the private operations, Pool/Methods `admit` with a function for
--     each branch, Pool/Upkeep `reprice_backup`, `update_duals`, `protect_partition` and the
--     listings. Index and Indexed are about the coverage index, Invariant states what a valid
--     pool is, and Demotion, Columns, Ranking, Eviction, Admission, Repricing, Protection and
--     History follow the operations.
--   * LruCache: include/ils_sp/lru_cache.hpp. A node of the list has a handle, which stands for
--     the iterator that the index holds, and a new node takes a handle that no node has had.
--     Links says when list and index agree, Recency and Updates follow the operations, and
--     Refinement has the plain list of entries in the order of their use, which the cache
--     refines.
--   * Evaluator and Evaluator/: the labels of visit sequences in include/ils_sp/evaluator.hpp and
--     src/evaluator.cpp, built and joined; Joining is about `evaluate` on components that are not
--     joined, Stops about the stations of `route_label`. A component is never a null pointer, and
--     the evaluation of the joined data is open.
--   * Maps: `std::unordered_map` and `std::unordered_set`, as association lists. The order of the
--     list stands for the unspecified order of iteration; a lookup and an erasure compare keys.
--   * Double: the type `double`. It is an interface with the operations that the code calls;
--     `IsOrdered`, `IsRounded` and `IsScaled` are the IEEE 754 facts that theorems take as
--     hypotheses: the order on values that are no NaN, that `std::nextafter` of a rounded sum or
--     difference lies on its side of the exact one, and that rounding keeps the order of products
--     and quotients. Double/Femto is a fixed-point instance on which they hold.
--   * Prelude: native numbers, lists, the exceptions as a result type, and integers.
--
-- Conventions. An operation that throws returns a `Result`; a state change returns the new state.
-- The node ids (`int`) are only compared, so they are integers without a bound. The 64-bit counters
-- of the pool wrap around; sizes of containers and the cache's counters (`std::size_t`) are natural
-- numbers. A multiset of costs is its ascending list. `std::sort` is an insertion sort. The loop of
-- `protect_partition` that shrinks the main pool runs on as many rounds as the pool has columns,
-- which is enough since each round takes one column out. All other loops are structural recursions.
--
-- Not modelled: the local search in src/search.cpp; of the route evaluator everything but the labels
-- of visit sequences, so the simulation of a route, the plan factory and the caches; the COPT and
-- Gurobi models (third-party solvers), the XML parser, the disk cache and the command-line programs.
-- The calls that only report progress, the readings of the clock that only measure run times, and
-- the summary of the fixed-anchor mode on the error output are left out of `solve` and
-- `assemble_routes`. The iterations of `solve` are counted from 1 to a maximum that is below the
-- largest `std::size_t`.
pub mod Prelude
pub mod Double
pub mod Certificate
pub mod Maps
pub mod Core
pub mod Pool
pub mod InputContract
pub mod LruCache
pub mod Evaluator
pub mod Solver
