-- ===== src/Evidence/Derive.antt =====
-- `aligned_metric_result`, `objective_evidence` and `qualify_lifecycle`.
use pulseon.Base.{
  Bool, true, false, ◌||◌, not, Option, none, some, List, [], ◌∷◌, ◌++◌, map, any, if◌then◌else◌,
  text_eq,
}
use pulseon.Float.{F64}
use pulseon.Model.Run.{Run, RunId, RunStatus, running, finished, failed}
use pulseon.Model.Metric.{MetricAggregate}
use pulseon.Model.Alignment.{
  AlignmentReason, AlignmentQueryResult, AlignedMetricResult, AlignedMetricPoint,
}
use pulseon.Model.Comparison.{
  EvidenceCompleteness, complete, partial, unavailable, invalid, EvidenceReason, ObjectiveEvidence,
  max_completeness,
}

abbrev pub evidence_reason : AlignmentReason → EvidenceReason
evidence_reason AlignmentReason.missing_run_start = EvidenceReason.missing_run_start
evidence_reason AlignmentReason.negative_axis = EvidenceReason.negative_axis
evidence_reason AlignmentReason.decreasing_axis = EvidenceReason.decreasing_axis

abbrev pub is_invalidating : EvidenceReason → Bool
is_invalidating EvidenceReason.negative_axis = true
is_invalidating EvidenceReason.decreasing_axis = true
is_invalidating EvidenceReason.non_finite_value = true
is_invalidating _ = false

abbrev pub is_missing_run_start : EvidenceReason → Bool
is_missing_run_start EvidenceReason.missing_run_start = true
is_missing_run_start _ = false

abbrev pub is_empty {ℓ} : {A : Type ℓ} → List A → Bool
is_empty [] = true
is_empty (x ∷ xs) = false

abbrev pub lifecycle_reason : RunStatus → Option EvidenceReason
lifecycle_reason running = some EvidenceReason.run_running
lifecycle_reason failed = some EvidenceReason.run_failed
lifecycle_reason finished = none

-- The two `&mut` arguments are passed and returned as a pair.
unfoldable pub qualify_lifecycle :
    RunStatus
    → EvidenceCompleteness
    → List EvidenceReason
    → EvidenceCompleteness × List EvidenceReason
qualify_lifecycle run_status completeness reasons = elim (lifecycle_reason run_status) [
  | none ↦ (completeness, reasons)
  | some reason ↦ (max_completeness completeness partial, reasons ++ reason ∷ [])
]

-- The completeness and the reasons before the lifecycle qualifies them.
unfoldable pub axis_completeness :
    List EvidenceReason → Bool → EvidenceCompleteness × List EvidenceReason
axis_completeness reasons no_points =
    if any is_invalidating reasons
    then (invalid, reasons)
    else if any is_missing_run_start reasons || no_points
    then (
      unavailable,
      if is_empty reasons then reasons ++ EvidenceReason.missing_metric ∷ [] else reasons,
    )
    else (complete, reasons)

module _ {W : Type 0} ⦃d : F64 W⦄ where
  unfoldable pub has_non_finite_value : List (AlignedMetricPoint W) → Bool
  has_non_finite_value = any λ p. not (d.is_finite p.point.value_f64)

  -- The storage reasons in order, and then the one for a non-finite point.
  unfoldable pub stored_reasons : AlignmentQueryResult W → List EvidenceReason
  stored_reasons result =
      let reasons = map evidence_reason result.reasons in
      if has_non_finite_value result.points
      then reasons ++ EvidenceReason.non_finite_value ∷ []
      else reasons

  unfoldable pub aligned_metric_result : AlignmentQueryResult W → RunStatus → AlignedMetricResult W
  unfolding stored_reasons
  aligned_metric_result result run_status =
      let (base, reasons) = axis_completeness (stored_reasons result) (is_empty result.points) in
      let (completeness, qualified) = qualify_lifecycle run_status base reasons in
      record {
        points = result.points;
        source_row_count = result.source_row_count;
        completeness = completeness;
        reasons = qualified;
      }

  unfoldable pub objective_evidence :
      RunId → RunStatus → Option (MetricAggregate W) → ObjectiveEvidence W
  unfolding qualify_lifecycle
  objective_evidence run_id run_status none =
      let (completeness, reasons) =
        qualify_lifecycle run_status unavailable (EvidenceReason.missing_metric ∷ []) in
      record {
        run_id = run_id;
        run_status = run_status;
        last_step = none;
        last_value_f64 = none;
        completeness = completeness;
        reasons = reasons;
      }
  objective_evidence run_id run_status (some aggregate) =
      let start : EvidenceCompleteness × List EvidenceReason =
        if d.is_finite aggregate.last_value_f64
        then (complete, [])
        else (invalid, EvidenceReason.non_finite_value ∷ []) in
      let (completeness, reasons) = qualify_lifecycle run_status start.0 start.1 in
      record {
        run_id = run_id;
        run_status = run_status;
        last_step = some aggregate.last_step;
        last_value_f64 = some aggregate.last_value_f64;
        completeness = completeness;
        reasons = reasons;
      }

-- `HashMap::remove` on the aggregates collected by run id; `collect` keeps the last of two rows
-- with one key, and `remove` takes it out.
module _ {W : Type 0} where
  unfoldable pub find_last : RunId → List (MetricAggregate W) → Option (MetricAggregate W)
  find_last run_id [] = none
  find_last run_id (a ∷ rest) = elim (find_last run_id rest) [
    | some found ↦ some found
    | none ↦ if text_eq a.run_id run_id then some a else none
  ]

  unfoldable pub remove_all : RunId → List (MetricAggregate W) → List (MetricAggregate W)
  remove_all run_id [] = []
  remove_all run_id (a ∷ rest) =
      if text_eq a.run_id run_id then remove_all run_id rest else a ∷ remove_all run_id rest

module _ {W : Type 0} ⦃d : F64 W⦄ where
  unfoldable pub objective_evidence_for_runs :
      List Run → List (MetricAggregate W) → List (ObjectiveEvidence W)
  unfolding find_last remove_all objective_evidence
  objective_evidence_for_runs [] aggregates = []
  objective_evidence_for_runs (run ∷ runs) aggregates =
      objective_evidence run.run_id run.status (find_last run.run_id aggregates)
      ∷ objective_evidence_for_runs runs (remove_all run.run_id aggregates)
