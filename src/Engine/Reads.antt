-- ===== src/Engine/Reads.antt =====
-- The reads of the project store, and the evidence queries of `NativeClient` and
-- `NativeQueryStore` over them. The store is a DuckDB database, so its reads are an interface.
use pulseon.Base.{
  ℕ, ◌≡◌, Bool, true, false, Option, none, some, List, [], ◌∷◌, map, Result, ok, err, ◌>>=◌,
  text_eq, ◌||◌,
}
use pulseon.Float.{F64}
use pulseon.Model.Run.{Run, RunId}
use pulseon.Model.Metric.{
  MetricKey, MetricAggregate, MetricQuery, MetricQueryResult, Step, ReductionPolicy, lttb,
}
use pulseon.Model.Comparison.{ObjectiveEvidence, ObjectiveMetric}
use pulseon.Engine.Error.{StorageError, EngineError, from_storage}
use pulseon.Evidence.Derive.{objective_evidence, objective_evidence_for_runs}

-- `ProjectConnection` and `ProjectMetricReader`: the rows that a read finds, or its failure.
pub record Reads (W : Type 0) : Type 0 where
  pub get_run : RunId → Result StorageError Run
  pub get_runs : List RunId → Result StorageError (List Run)
  pub query_metric_summaries :
      List RunId → MetricKey → Result StorageError (List (MetricAggregate W))
  pub query_metric : MetricQuery → Result StorageError (MetricQueryResult W)

-- What the SQL of `get_runs` promises: one run for each requested identifier, in request order.
pub record IsOrderedReads {W : Type 0} (r : Reads W) : Type 0 where
  pub get_runs-ids :
      (ids : List RunId) {runs : List Run}
      → r.get_runs ids ≡ ok runs
      → map (λ run. run.run_id) runs ≡ ids

-- `?` on a storage result.
abbrev pub lift : {A : Type 0} → Result StorageError A → Result EngineError A
lift (ok a) = ok a
lift (err e) = err (from_storage e)

unfoldable pub zip : {A B : Type 0} → List A → List B → List (A × B)
zip (a ∷ s) (b ∷ t) = (a, b) ∷ zip s t
zip _ _ = []

-- `Iterator::next` on a list.
abbrev pub first : {A : Type 0} → List A → Option A
first [] = none
first (a ∷ s) = some a

module _ {W : Type 0} ⦃d : F64 W⦄ (r : Reads W) where
  unfoldable pub client_objective_evidence :
      RunId → ObjectiveMetric → Result EngineError (ObjectiveEvidence W)
  client_objective_evidence run_id objective = do
    run ← lift (r.get_run run_id)
    summaries ← lift (r.query_metric_summaries (run_id ∷ []) objective.metric_key)
    ok (objective_evidence run_id run.status (first summaries))

  unfoldable pub ranking_evidence :
      List RunId → ObjectiveMetric → Result EngineError (List (Run × ObjectiveEvidence W))
  ranking_evidence run_ids objective = do
    runs ← lift (r.get_runs run_ids)
    summaries ← lift (r.query_metric_summaries (map (λ run. run.run_id) runs) objective.metric_key)
    ok (zip runs (objective_evidence_for_runs runs summaries))

-- The Python-facing query: an LTTB limit below two is refused before storage is read, and the
-- step range is passed on unchecked.
module _ {W : Type 0} (r : Reads W) where
  abbrev reduction_for : Option ℕ → Result EngineError ReductionPolicy
  reduction_for none = ok ReductionPolicy.full
  reduction_for (some max_points) = elim (lttb max_points) [
    | ok reduction ↦ ok reduction
    | err e ↦ err (EngineError.metric_query_max_points_too_small max_points)
  ]

  unfoldable pub query_metric_with_metadata :
      RunId
      → MetricKey
      → Option Step
      → Option Step
      → Option ℕ
      → Result EngineError (MetricQueryResult W)
  query_metric_with_metadata run_id metric_key start_step end_step max_points = do
    reduction ← reduction_for max_points
    lift (
        r.query_metric (record {
          run_id = run_id;
          metric_key = metric_key;
          start_step = start_step;
          end_step = end_step;
          reduction = reduction;
        }))

-- `HashSet::insert` on each identifier in turn: the first that was seen before is refused.
unfoldable pub contains : List RunId → RunId → Bool
contains [] k = false
contains (j ∷ js) k = text_eq j k || contains js k

unfoldable pub reject_seen : List RunId → List RunId → Result EngineError (Unit {0})
unfolding contains
reject_seen seen [] = ok tt
reject_seen seen (k ∷ ks) = elim (contains seen k) [
  | true ↦ err (EngineError.duplicate_run_identity k)
  | false ↦ reject_seen (k ∷ seen) ks
]

unfoldable pub reject_duplicate_run_ids : List RunId → Result EngineError (Unit {0})
unfolding reject_seen
reject_duplicate_run_ids run_ids = reject_seen [] run_ids
