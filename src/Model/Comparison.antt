-- ===== src/Model/Comparison.antt =====
-- crates/pulseon-model/src/comparison.rs: objectives, evidence and comparison results.
use pulseon.Base.{ℕ, Bool, true, false, Option, none, some, List, ltb, if◌then◌else◌}
use pulseon.Float.{F64}
use pulseon.Model.Run.{RunId, RunStatus}
use pulseon.Model.Metric.{MetricKey, Step}

pub data ObjectiveDirection : Type 0 where
  minimize maximize : ObjectiveDirection

unfoldable pub normalize : {W : Type 0} ⦃d : F64 W⦄ → ObjectiveDirection → W → W
normalize ⦃d⦄ minimize raw_delta = d.neg raw_delta
normalize maximize raw_delta = raw_delta

pub record ObjectiveMetric : Type 0 where
  pub metric_key : MetricKey
  pub direction : ObjectiveDirection

pub data EvidenceCompleteness : Type 0 where
  complete partial unavailable invalid : EvidenceCompleteness

-- The derived order: the declaration order of the variants.
abbrev pub severity : EvidenceCompleteness → ℕ
severity complete = 0
severity partial = 1
severity unavailable = 2
severity invalid = 3

-- `Ord::max`: the second where they are equal.
abbrev pub max_completeness : EvidenceCompleteness → EvidenceCompleteness → EvidenceCompleteness
max_completeness a b = if ltb (severity b) (severity a) then a else b

abbrev pub is_complete : EvidenceCompleteness → Bool
is_complete complete = true
is_complete _ = false

pub data EvidenceReason : Type 0 where
  missing_metric missing_run_start negative_axis decreasing_axis : EvidenceReason
  non_finite_value run_running run_failed : EvidenceReason

pub record ObjectiveEvidence (W : Type 0) : Type 0 where
  pub run_id : RunId
  pub run_status : RunStatus
  pub last_step : Option Step
  pub last_value_f64 : Option W
  pub completeness : EvidenceCompleteness
  pub reasons : List EvidenceReason

-- `Option::filter(is_finite)`.
abbrev pub filter_finite : {W : Type 0} ⦃d : F64 W⦄ → Option W → Option W
filter_finite none = none
filter_finite ⦃d⦄ (some v) = if d.is_finite v then some v else none

unfoldable pub usable_value : {W : Type 0} ⦃d : F64 W⦄ → ObjectiveEvidence W → Option W
usable_value e = filter_finite e.last_value_f64

pub data ComparisonOutcome : Type 0 where
  improved regressed equal : ComparisonOutcome

unfoldable pub from_normalized_improvement : {W : Type 0} ⦃d : F64 W⦄ → W → ComparisonOutcome
from_normalized_improvement ⦃d⦄ improvement =
    if d.flt d.zero_f64 improvement
    then improved
    else if d.flt improvement d.zero_f64
    then regressed
    else equal

pub data ComparisonPreference : Type 0 where
  candidate reference no_preference inconclusive : ComparisonPreference

pub record ComparisonResult (W : Type 0) : Type 0 where
  pub objective : ObjectiveMetric
  pub candidate : ObjectiveEvidence W
  pub reference : ObjectiveEvidence W
  pub completeness : EvidenceCompleteness
  pub raw_delta : Option W
  pub relative_delta : Option W
  pub normalized_improvement : Option W
  pub outcome : Option ComparisonOutcome
  pub preference : ComparisonPreference

pub record MetricComparisonResult (W : Type 0) : Type 0 where
  pub metric_key : MetricKey
  pub candidate : ObjectiveEvidence W
  pub reference : ObjectiveEvidence W
  pub completeness : EvidenceCompleteness
  pub raw_delta : Option W
  pub relative_delta : Option W

pub record ComparisonReport (W : Type 0) : Type 0 where
  pub primary : ComparisonResult W
  pub secondary : List (MetricComparisonResult W)

pub record RankingEntry (W : Type 0) : Type 0 where
  pub evidence : ObjectiveEvidence W
  pub rank : Option ℕ

pub record RankingResult (W : Type 0) : Type 0 where
  pub objective : ObjectiveMetric
  pub entries : List (RankingEntry W)
