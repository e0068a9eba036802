-- ===== src/Tests/Evidence.antt =====
-- The evidence of concrete runs and queries.
use pulseon.Base.{
  ◌≡◌, ◌≢◌, ◌⊎◌, ◌↔◌, true, false, ◌||◌, none, some, List, [], ◌∷◌, map, any, pos, codes,
}
use pulseon.Sample.Whole.{Whole, whole_f64}
use pulseon.Model.Run.{Run, RunId, running, finished, failed}
use pulseon.Model.Metric.{MetricAggregate}
use pulseon.Model.Alignment.{AlignmentReason, AlignmentQueryResult}
use pulseon.Model.Comparison.{complete, partial, unavailable, invalid, usable_value}
use pulseon.Evidence.Derive.{
  is_empty, aligned_metric_result, objective_evidence, objective_evidence_for_runs,
}
use pulseon.Evidence.Laws.{
  is_missing_start, is_unusable, IsFiniteAggregate, finite_value, own_evidence, IsDistinct,
  aligned_completeness_iff, aligned_complete_iff, objective_evidence_iff,
  objective_evidence_for_runs-map,
}

abbrev aligned : AlignmentQueryResult Whole
aligned = record {
  points =
      record {
        point = record {
          run_id = codes "a";
          metric_key = codes "loss";
          step = pos 1;
          timestamp = pos 1;
          value_f64 = some (pos 2);
          ingested_at = pos 1;
        };
        axis_value = pos 1;
      }
      ∷ [];
  source_row_count = 1;
  reasons = AlignmentReason.missing_run_start ∷ [];
}

aligned_completeness_iff_example :
    ((aligned_metric_result aligned failed).completeness ≡ invalid ↔ (is_unusable aligned ≡ true))
    × ((aligned_metric_result aligned failed).completeness ≡ unavailable ↔ (
        (is_unusable aligned ≡ false)
        × ((any is_missing_start aligned.reasons || is_empty aligned.points) ≡ true)))
    × ((aligned_metric_result aligned failed).completeness ≡ partial ↔ (
        (is_unusable aligned ≡ false)
        × ((any is_missing_start aligned.reasons || is_empty aligned.points) ≡ false)
        × (failed ≢ finished)))
aligned_completeness_iff_example = aligned_completeness_iff aligned failed

aligned_complete_iff_example :
    ((aligned_metric_result aligned finished).completeness ≡ complete
      ↔ ((aligned_metric_result aligned finished).reasons ≡ []))
    × (((aligned_metric_result aligned finished).completeness ≢ complete)
        ⊎ ((finished ≡ finished)
            × (is_empty aligned.points ≡ false)
            × (is_unusable aligned ≡ false)))
aligned_complete_iff_example = aligned_complete_iff aligned finished

abbrev aggregate : RunId → MetricAggregate Whole
aggregate run_id = record {
  run_id = run_id;
  metric_key = codes "loss";
  effective_count = 1;
  last_step = pos 1;
  last_value_f64 = some (pos 4);
  min_value_f64 = some (pos 4);
  max_value_f64 = some (pos 4);
}

objective_evidence_iff_example :
    ((objective_evidence (codes "a") running (some (aggregate (codes "a")))).completeness ≡ complete
      ↔ ((running ≡ finished) × IsFiniteAggregate (some (aggregate (codes "a")))))
    × ((objective_evidence (codes "a") running (some (aggregate (codes "a")))).completeness
          ≡ complete
        ↔ ((objective_evidence (codes "a") running (some (aggregate (codes "a")))).reasons ≡ []))
    × (usable_value (objective_evidence (codes "a") running (some (aggregate (codes "a"))))
        ≡ finite_value (some (aggregate (codes "a"))))
objective_evidence_iff_example =
    objective_evidence_iff (codes "a") running (some (aggregate (codes "a")))

abbrev a_run : RunId → Run
a_run run_id = record {
  run_id = run_id;
  project_id = codes "p";
  name = run_id;
  status = finished;
  created_at = pos 0;
  started_at = pos 0;
  finished_at = none;
}

abbrev two_runs : List Run
two_runs = a_run [] ∷ a_run (codes "b") ∷ []

two_runs-IsDistinct : IsDistinct two_runs
two_runs-IsDistinct = ((λ e. cc e, tt), (tt, tt))

objective_evidence_for_runs-map_example :
    objective_evidence_for_runs two_runs (aggregate (codes "b") ∷ [])
    ≡ map (own_evidence (aggregate (codes "b") ∷ [])) two_runs
objective_evidence_for_runs-map_example =
    objective_evidence_for_runs-map two_runs (aggregate (codes "b") ∷ []) two_runs-IsDistinct
