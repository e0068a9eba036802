-- ===== src/Tests/Ranking.antt =====
-- Rankings and comparisons of three runs.
use mathlib.Core.List.{Perm}
use pulseon.Base.{
  ℕ, ◌≡◌, ◌↔◌, refl, true, false, Option, none, some, List, [], ◌∷◌, map, pos, codes, Result, ok,
  err, IsSortedBy, arith, text_eq,
}
use pulseon.Sample.Whole.{Whole, whole_f64, Whole-IsIeee}
use pulseon.Model.Run.{Run, RunId, finished}
use pulseon.Model.Metric.{MetricAggregate}
use pulseon.Model.Comparison.{
  ObjectiveMetric, minimize, ObjectiveEvidence, EvidenceCompleteness, complete, partial,
  ComparisonPreference, usable_value, ComparisonReport,
}
use pulseon.Engine.Error.{EngineError}
use pulseon.Engine.Reads.{Reads, IsOrderedReads, reject_duplicate_run_ids, ranking_evidence, zip}
use pulseon.Engine.Distinct.{IsDistinctIds, reject_duplicate_iff}
use pulseon.Ranking.Rank.{RankingCandidate, compare_candidates, rank_candidates, first_ranked}
use pulseon.Ranking.Competition.{competition_rank, rank_candidates-competition}
use pulseon.Ranking.Best.{IsBest, rank_candidates-sorted, first_ranked-IsBest}
use pulseon.Comparison.Evaluate.{compare_evidence, comparison_reports}
use pulseon.Comparison.Preference.{better, preference_iff}
use pulseon.Comparison.Reports.{IsAnswer, comparison_reports-total}
use pulseon.Evidence.Derive.{objective_evidence_for_runs}

abbrev loss : ObjectiveMetric
loss = record { metric_key = codes "loss"; direction = minimize }

abbrev evidence : RunId → EvidenceCompleteness → ℕ → ObjectiveEvidence Whole
evidence run_id completeness value = record {
  run_id = run_id;
  run_status = finished;
  last_step = some (pos 1);
  last_value_f64 = some (some (pos value));
  completeness = completeness;
  reasons = [];
}

abbrev entry : RunId → EvidenceCompleteness → ℕ → ℕ → RankingCandidate Whole
entry run_id completeness value ordinal = record {
  evidence = evidence run_id completeness value;
  created_at = pos 0;
  ordinal = ordinal;
}

abbrev entries : List (RankingCandidate Whole)
entries =
    entry (codes "a") complete 5 0
    ∷ entry (codes "b") complete 3 1
    ∷ entry (codes "c") partial 1 2
    ∷ entry (codes "d") complete 3 3
    ∷ []

rank_candidates-competition_example :
    map (λ e. e.rank) (rank_candidates loss entries).entries
    ≡ map (λ e. competition_rank minimize entries e.evidence) (rank_candidates loss entries).entries
rank_candidates-competition_example = rank_candidates-competition Whole-IsIeee loss entries

first_ranked-IsBest_example :
    IsBest Whole-IsIeee minimize entries (first_ranked (rank_candidates loss entries).entries)
first_ranked-IsBest_example = first_ranked-IsBest Whole-IsIeee loss entries

rank_candidates-sorted_example :
    (sorted : List (RankingCandidate Whole)) × Perm sorted entries
    × IsSortedBy (compare_candidates minimize) sorted
    × (map (λ e. e.evidence) (rank_candidates loss entries).entries ≡ map (λ c. c.evidence) sorted)
rank_candidates-sorted_example = rank_candidates-sorted Whole-IsIeee loss entries

abbrev left : ObjectiveEvidence Whole
left = evidence (codes "a") complete 5

abbrev right : ObjectiveEvidence Whole
right = evidence (codes "b") complete 3

preference_iff_example :
    ((compare_evidence loss left right).preference ≡ ComparisonPreference.candidate ↔ (
      (complete ≡ complete)
      × (complete ≡ complete)
      × (better minimize (some (pos 5)) (some (pos 3)) ≡ true)))
    × ((compare_evidence loss left right).preference ≡ ComparisonPreference.reference ↔ (
        (complete ≡ complete)
        × (complete ≡ complete)
        × (better minimize (some (pos 3)) (some (pos 5)) ≡ true)))
    × ((compare_evidence loss left right).preference ≡ ComparisonPreference.no_preference ↔ (
        (complete ≡ complete)
        × (complete ≡ complete)
        × (better minimize (some (pos 5)) (some (pos 3)) ≡ false)
        × (better minimize (some (pos 3)) (some (pos 5)) ≡ false)))
unfolding usable_value
preference_iff_example =
    preference_iff Whole-IsIeee loss left right (some (pos 5)) (some (pos 3)) refl refl

abbrev stored_run : RunId → Run
stored_run run_id = record {
  run_id = run_id;
  project_id = codes "p";
  name = run_id;
  status = finished;
  created_at = pos 0;
  started_at = pos 0;
  finished_at = none;
}

abbrev aggregate : RunId → MetricAggregate Whole
aggregate run_id = record {
  run_id = run_id;
  metric_key = codes "loss";
  effective_count = 1;
  last_step = pos 1;
  last_value_f64 = some (pos 4);
  min_value_f64 = some (pos 4);
  max_value_f64 = some (pos 4);
}

-- A store that has every run.
abbrev reads : Reads Whole
reads = record {
  get_run = λ run_id. ok (stored_run run_id);
  get_runs = λ ids. ok (map stored_run ids);
  query_metric_summaries = λ ids metric_key. ok (map aggregate ids);
  query_metric = λ query. ok (record { points = []; source_row_count = 0 });
}

stored-ids : (ids : List RunId) → map (λ (run : Run). run.run_id) (map stored_run ids) ≡ ids
stored-ids [] = refl
stored-ids (run_id ∷ ids) = cc (stored-ids ids)

reads-IsOrderedReads : IsOrderedReads reads
reads-IsOrderedReads = record { get_runs-ids = λ ids h. ground (arith, h, stored-ids ids) }

abbrev requested : Result EngineError (Option (List (ComparisonReport Whole)))
requested =
    comparison_reports reads (codes "a" ∷ codes "b" ∷ []) (codes "c") loss (codes "time" ∷ [])

abbrev out_of :
    Result EngineError (Option (List (ComparisonReport Whole)))
    → Option (List (ComparisonReport Whole))
out_of (ok out) = out
out_of (err e) = none

comparison_reports-total_example :
    IsAnswer reads reads-IsOrderedReads (codes "a" ∷ codes "b" ∷ []) (codes "c") (out_of requested)
unfolding comparison_reports reject_duplicate_run_ids text_eq ranking_evidence zip
    objective_evidence_for_runs
comparison_reports-total_example =
    comparison_reports-total reads reads-IsOrderedReads (codes "a" ∷ codes "b" ∷ []) (codes "c")
      loss (codes "time" ∷ []) refl

reject_duplicate_iff_example :
    (reject_duplicate_run_ids (codes "a" ∷ codes "b" ∷ []) ≡ ok tt)
    ↔ IsDistinctIds (codes "a" ∷ codes "b" ∷ [])
reject_duplicate_iff_example = reject_duplicate_iff (codes "a" ∷ codes "b" ∷ [])
