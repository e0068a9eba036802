-- ===== src/Comparison/Evaluate.antt =====
-- `compare_evidence`, `compare_metric_evidence`, `build_reports` and the client's two methods.
use pulseon.Base.{
  ℕ, suc, Option, none, some, List, [], ◌∷◌, map, Result, ok, err, ◌>>=◌, ◌>>◌, get_elem?,
  if◌then◌else◌, text_eq,
}
use pulseon.Float.{F64}
use pulseon.Model.Run.{Run, RunId}
use pulseon.Model.Metric.{MetricKey}
use pulseon.Model.Comparison.{
  ObjectiveDirection, normalize, ObjectiveMetric, EvidenceCompleteness, complete, max_completeness,
  ObjectiveEvidence, usable_value, ComparisonOutcome, improved, regressed, equal,
  from_normalized_improvement, ComparisonPreference, ComparisonResult, MetricComparisonResult,
  ComparisonReport,
}
use pulseon.Engine.Error.{EngineError}
use pulseon.Engine.Reads.{
  Reads, ranking_evidence, client_objective_evidence, reject_duplicate_run_ids,
}

-- What the numeric part of a comparison computes from two usable values.
pub record Numeric (W : Type 0) : Type 0 where
  pub raw : W
  pub relative : Option W
  pub normalized : W
  pub result : ComparisonOutcome

module _ {W : Type 0} ⦃d : F64 W⦄ where
  unfoldable pub relative_delta : W → W → Option W
  relative_delta raw reference =
      if d.feq reference d.zero_f64 then none else some (d.div raw (d.abs reference))

  unfoldable pub numeric : ObjectiveDirection → Option W → Option W → Option (Numeric W)
  unfolding relative_delta normalize from_normalized_improvement
  numeric direction (some candidate) (some reference) =
      let raw = d.sub candidate reference in
      let normalized = normalize direction raw in
      some (record {
        raw = raw;
        relative = relative_delta raw reference;
        normalized = normalized;
        result = from_normalized_improvement normalized;
      })
  numeric direction _ _ = none

-- The advice from complete evidence, and `Inconclusive` from any other.
abbrev pub preference_of : EvidenceCompleteness → Option ComparisonOutcome → ComparisonPreference
preference_of complete (some improved) = ComparisonPreference.candidate
preference_of complete (some regressed) = ComparisonPreference.reference
preference_of complete (some equal) = ComparisonPreference.no_preference
preference_of _ _ = ComparisonPreference.inconclusive

abbrev pub map_option {ℓ κ} : {A : Type ℓ} {B : Type κ} → (A → B) → Option A → Option B
map_option f none = none
map_option f (some a) = some (f a)

abbrev pub bind_option {ℓ κ} : {A : Type ℓ} {B : Type κ} → Option A → (A → Option B) → Option B
bind_option none f = none
bind_option (some a) f = f a

module _ {W : Type 0} ⦃d : F64 W⦄ where
  unfoldable pub compare_evidence :
      ObjectiveMetric → ObjectiveEvidence W → ObjectiveEvidence W → ComparisonResult W
  compare_evidence objective candidate reference =
      let completeness = max_completeness candidate.completeness reference.completeness in
      let n = numeric objective.direction (usable_value candidate) (usable_value reference) in
      let outcome = map_option (λ (r : Numeric W). r.result) n in
      record {
        objective = objective;
        candidate = candidate;
        reference = reference;
        completeness = completeness;
        raw_delta = map_option (λ r. r.raw) n;
        relative_delta = bind_option n (λ r. r.relative);
        normalized_improvement = map_option (λ r. r.normalized) n;
        outcome = outcome;
        preference = preference_of completeness outcome;
      }

  -- The deltas of a secondary metric, which has no direction.
  metric_deltas : Option W → Option W → Option W × Option W
  unfolding relative_delta
  metric_deltas (some candidate) (some reference) =
      let raw = d.sub candidate reference in (some raw, relative_delta raw reference)
  metric_deltas _ _ = (none, none)

  unfoldable pub compare_metric_evidence :
      MetricKey → ObjectiveEvidence W → ObjectiveEvidence W → MetricComparisonResult W
  unfolding metric_deltas
  compare_metric_evidence metric_key candidate reference =
      let (raw, relative) = metric_deltas (usable_value candidate) (usable_value reference) in
      record {
        metric_key = metric_key;
        candidate = candidate;
        reference = reference;
        completeness = max_completeness candidate.completeness reference.completeness;
        raw_delta = raw;
        relative_delta = relative;
      }

pub record SecondaryEvidenceSet (W : Type 0) : Type 0 where
  pub metric_key : MetricKey
  pub reference : ObjectiveEvidence W
  pub candidates : List (ObjectiveEvidence W)

module _ {W : Type 0} ⦃d : F64 W⦄ where
  -- One candidate's row of every secondary set; `none` is the panic of an index out of range.
  unfoldable pub secondary_at :
      List (SecondaryEvidenceSet W) → ℕ → Option (List (MetricComparisonResult W))
  secondary_at [] index = some []
  secondary_at (set ∷ sets) index = bind_option (get_elem? set.candidates index) λ candidate.
      bind_option (secondary_at sets index)
        λ rest. some (compare_metric_evidence set.metric_key candidate set.reference ∷ rest)

  unfoldable pub reports_from :
      ObjectiveMetric
      → ObjectiveEvidence W
      → List (SecondaryEvidenceSet W)
      → ℕ
      → List (ObjectiveEvidence W)
      → Option (List (ComparisonReport W))
  unfolding secondary_at
  reports_from objective reference secondary index [] = some []
  reports_from objective reference secondary index (candidate ∷ candidates) =
      bind_option (secondary_at secondary index) λ row.
        bind_option (reports_from objective reference secondary (suc index) candidates) λ rest.
          some (
            record { primary = compare_evidence objective candidate reference; secondary = row }
            ∷ rest)

  unfoldable pub build_reports :
      ObjectiveMetric
      → ObjectiveEvidence W
      → List (ObjectiveEvidence W)
      → List (SecondaryEvidenceSet W)
      → Option (List (ComparisonReport W))
  unfolding reports_from
  build_reports objective reference candidates secondary =
      reports_from objective reference secondary 0 candidates

module _ {W : Type 0} ⦃d : F64 W⦄ (r : Reads W) where
  -- One secondary metric: its first row is the reference's, and no row leaves the metric out.
  unfoldable pub add_secondary :
      MetricKey
      → List (Run × ObjectiveEvidence W)
      → List (SecondaryEvidenceSet W)
      → List (SecondaryEvidenceSet W)
  add_secondary metric_key [] sets = sets
  add_secondary metric_key (row ∷ rows) sets =
      record {
        metric_key = metric_key;
        reference = row.1;
        candidates = map (λ (p : Run × ObjectiveEvidence W). p.1) rows;
      }
      ∷ sets

  unfoldable pub secondary_sets :
      List RunId
      → ObjectiveMetric
      → List MetricKey
      → Result EngineError (List (SecondaryEvidenceSet W))
  unfolding add_secondary
  secondary_sets run_ids objective [] = ok []
  secondary_sets run_ids objective (metric_key ∷ keys) =
      ranking_evidence r run_ids (record objective { metric_key = metric_key }) >>= λ rows.
      secondary_sets run_ids objective keys >>= λ sets. ok (add_secondary metric_key rows sets)

  -- The part after the primary evidence; `none` is a panic.
  unfoldable pub reports_of_rows :
      List RunId
      → ObjectiveMetric
      → List MetricKey
      → List (Run × ObjectiveEvidence W)
      → Result EngineError (Option (List (ComparisonReport W)))
  unfolding secondary_sets
  reports_of_rows request objective keys [] = ok (some [])
  reports_of_rows request objective keys (row ∷ rows) =
      secondary_sets request objective keys >>= λ secondary.
      ok (
        build_reports objective row.1 (map (λ (p : Run × ObjectiveEvidence W). p.1) rows) secondary)

  unfoldable pub comparison_reports :
      List RunId
      → RunId
      → ObjectiveMetric
      → List MetricKey
      → Result EngineError (Option (List (ComparisonReport W)))
  unfolding reports_of_rows
  comparison_reports candidate_run_ids reference_run_id objective secondary_metric_keys =
      let request = reference_run_id ∷ candidate_run_ids in
      do
        reject_duplicate_run_ids request
        rows ← ranking_evidence r request objective
        reports_of_rows request objective secondary_metric_keys rows

  unfoldable pub compare_runs :
      RunId → RunId → ObjectiveMetric → Result EngineError (ComparisonResult W)
  compare_runs candidate_run_id reference_run_id objective =
      if text_eq candidate_run_id reference_run_id
      then err (EngineError.duplicate_run_identity candidate_run_id)
      else (do
        candidate ← client_objective_evidence r candidate_run_id objective
        reference ← client_objective_evidence r reference_run_id objective
        ok (compare_evidence objective candidate reference))
