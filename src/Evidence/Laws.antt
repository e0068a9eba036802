-- ===== src/Evidence/Laws.antt =====
-- Which completeness and which reasons the derived evidence has.
use pulseon.Base.{
  ◌≡◌, ◌≢◌, ◌⊎◌, ◌↔◌, refl, Bool, true, false, ◌||◌, if◌then◌else◌, Option, none, some, List, [],
  ◌∷◌, ◌++◌, map, any, All, arith, text_eq_iff,
}
use pulseon.Float.{F64}
use pulseon.Model.Run.{Run, RunId, RunStatus, finished}
use pulseon.Model.Metric.{MetricAggregate}
use pulseon.Model.Alignment.{AlignmentReason, AlignmentQueryResult}
use pulseon.Model.Comparison.{
  complete, partial, unavailable, invalid, EvidenceReason, ObjectiveEvidence, usable_value,
}
use pulseon.Evidence.Derive.{
  evidence_reason, is_invalidating, is_missing_run_start, is_empty, qualify_lifecycle,
  axis_completeness, has_non_finite_value, stored_reasons, aligned_metric_result,
  objective_evidence, objective_evidence_for_runs, find_last, remove_all,
}

-- The storage layer found the axis of the whole series faulty.
abbrev pub is_axis_fault : AlignmentReason → Bool
is_axis_fault AlignmentReason.missing_run_start = false
is_axis_fault _ = true

abbrev pub is_missing_start : AlignmentReason → Bool
is_missing_start AlignmentReason.missing_run_start = true
is_missing_start _ = false

any-append {ℓ} :
    {A : Type ℓ} (p : A → Bool) (xs ys : List A) → any p (xs ++ ys) ≡ (any p xs || any p ys)
any-append p [] ys = refl
any-append p (x ∷ xs) ys = ground (arith, any-append p xs ys)

any_invalidating :
    (rs : List AlignmentReason)
    → any is_invalidating (map evidence_reason rs) ≡ any is_axis_fault rs
any_invalidating [] = refl
any_invalidating (AlignmentReason.missing_run_start ∷ rs) = any_invalidating rs
any_invalidating (AlignmentReason.negative_axis ∷ rs) = refl
any_invalidating (AlignmentReason.decreasing_axis ∷ rs) = refl

any_missing :
    (rs : List AlignmentReason)
    → any is_missing_run_start (map evidence_reason rs) ≡ any is_missing_start rs
any_missing [] = refl
any_missing (AlignmentReason.missing_run_start ∷ rs) = refl
any_missing (AlignmentReason.negative_axis ∷ rs) = any_missing rs
any_missing (AlignmentReason.decreasing_axis ∷ rs) = any_missing rs

reasons_empty :
    (rs : List AlignmentReason)
    → any is_axis_fault rs ≡ false
    → any is_missing_start rs ≡ false
    → rs ≡ []
reasons_empty [] h k = refl
reasons_empty (AlignmentReason.missing_run_start ∷ rs) h k = cc
reasons_empty (AlignmentReason.negative_axis ∷ rs) h k = cc
reasons_empty (AlignmentReason.decreasing_axis ∷ rs) h k = cc

append-ne-nil {ℓ} : {A : Type ℓ} (xs : List A) (x : A) → xs ++ x ∷ [] ≢ []
append-ne-nil [] x e = cc
append-ne-nil (y ∷ xs) x e = cc

module _ {W : Type 0} ⦃d : F64 W⦄ where
  -- The stored value that a comparison may use.
  abbrev pub finite_value : Option (MetricAggregate W) → Option W
  finite_value none = none
  finite_value (some a) = if d.is_finite a.last_value_f64 then some a.last_value_f64 else none

  abbrev pub IsFiniteAggregate : Option (MetricAggregate W) → Type 0
  IsFiniteAggregate none = ⊥
  IsFiniteAggregate (some a) = d.is_finite a.last_value_f64 ≡ true

  -- A point of the selected series is not finite, or its axis is negative or decreasing.
  pub is_unusable : AlignmentQueryResult W → Bool
  is_unusable r = any is_axis_fault r.reasons || has_non_finite_value r.points

  stored_invalidating :
      (r : AlignmentQueryResult W) → any is_invalidating (stored_reasons r) ≡ is_unusable r
  unfolding stored_reasons is_unusable
  stored_invalidating r = ground (
    arith,
    any-append is_invalidating (map evidence_reason r.reasons)
        (EvidenceReason.non_finite_value ∷ []),
    any_invalidating r.reasons,
  )

  stored_missing :
      (r : AlignmentQueryResult W)
      → any is_missing_run_start (stored_reasons r) ≡ any is_missing_start r.reasons
  unfolding stored_reasons
  stored_missing r = ground (
    arith,
    any-append is_missing_run_start (map evidence_reason r.reasons)
        (EvidenceReason.non_finite_value ∷ []),
    any_missing r.reasons,
  )

  stored_none :
      (r : AlignmentQueryResult W)
      → is_unusable r ≡ false
      → any is_missing_start r.reasons ≡ false
      → stored_reasons r ≡ []
  unfolding stored_reasons is_unusable
  stored_none r h k = ground (arith, reasons_empty r.reasons)

  stored_missing_some :
      (r : AlignmentQueryResult W) → any is_missing_start r.reasons ≡ true → stored_reasons r ≢ []
  stored_missing_some r h e = ground (arith, stored_missing r)

  -- Aligned evidence is invalid exactly when the axis is at fault or a point is not finite;
  -- otherwise it is unavailable exactly when the run start is missing or no point was selected;
  -- otherwise it is complete for a finished run and partial for a running or a failed one.
  pub aligned_completeness_iff :
      (r : AlignmentQueryResult W) (s : RunStatus)
      → ((aligned_metric_result r s).completeness ≡ invalid ↔ (is_unusable r ≡ true))
        × ((aligned_metric_result r s).completeness ≡ unavailable ↔ (
            (is_unusable r ≡ false)
            × ((any is_missing_start r.reasons || is_empty r.points) ≡ true)))
        × ((aligned_metric_result r s).completeness ≡ partial ↔ (
            (is_unusable r ≡ false)
            × ((any is_missing_start r.reasons || is_empty r.points) ≡ false)
            × (s ≢ finished)))
  unfolding aligned_metric_result axis_completeness qualify_lifecycle
  aligned_completeness_iff r s = ground (arith, stored_invalidating r, stored_missing r)

  -- Aligned evidence is complete exactly when it carries no reason, and then the run is finished
  -- and at least one point was selected.
  pub aligned_complete_iff :
      (r : AlignmentQueryResult W) (s : RunStatus)
      → ((aligned_metric_result r s).completeness ≡ complete
          ↔ ((aligned_metric_result r s).reasons ≡ []))
        × (((aligned_metric_result r s).completeness ≢ complete)
            ⊎ ((s ≡ finished) × (is_empty r.points ≡ false) × (is_unusable r ≡ false)))
  unfolding aligned_metric_result axis_completeness qualify_lifecycle
  aligned_complete_iff r s = ground (
    arith,
    stored_invalidating r,
    stored_missing r,
    stored_none r,
    stored_missing_some r,
    append-ne-nil (stored_reasons r) EvidenceReason.run_running,
    append-ne-nil (stored_reasons r) EvidenceReason.run_failed,
  )

  -- Scalar evidence is complete exactly for a finished run whose stored value is finite, it is
  -- complete exactly when it carries no reason, and it has a value to compare exactly when the
  -- stored value is finite, whatever the lifecycle of the run.
  pub objective_evidence_iff :
      (run_id : RunId) (s : RunStatus) (a : Option (MetricAggregate W))
      → ((objective_evidence run_id s a).completeness ≡ complete
          ↔ ((s ≡ finished) × IsFiniteAggregate a))
        × ((objective_evidence run_id s a).completeness ≡ complete
            ↔ ((objective_evidence run_id s a).reasons ≡ []))
        × (usable_value (objective_evidence run_id s a) ≡ finite_value a)
  unfolding objective_evidence usable_value
  objective_evidence_iff run_id s none = ground arith
  objective_evidence_iff run_id s (some a) = ground arith

-- The aggregates of other runs are not touched by a removal.
module _ {W : Type 0} where
  find_last-remove_all :
      (k j : RunId) (rows : List (MetricAggregate W))
      → k ≢ j
      → find_last k (remove_all j rows) ≡ find_last k rows
  unfolding find_last remove_all
  find_last-remove_all k j [] ne = refl
  find_last-remove_all k j (a ∷ rows) ne =
      ground
        (arith, text_eq_iff a.run_id j, text_eq_iff a.run_id k, find_last-remove_all k j rows ne)

-- The runs of a request have distinct identifiers.
abbrev pub IsDistinct : List Run → Type 0
IsDistinct [] = Unit
IsDistinct (run ∷ runs) = All (λ r. r.run_id ≢ run.run_id) runs × IsDistinct runs

module _ {W : Type 0} ⦃d : F64 W⦄ where
  -- The evidence of one run, by the aggregate that its own lookup finds.
  abbrev pub own_evidence : List (MetricAggregate W) → Run → ObjectiveEvidence W
  own_evidence rows run = objective_evidence run.run_id run.status (find_last run.run_id rows)

  own_evidence-remove_all :
      (j : RunId) (rows : List (MetricAggregate W)) (runs : List Run)
      → All (λ r. r.run_id ≢ j) runs
      → map (own_evidence (remove_all j rows)) runs ≡ map (own_evidence rows) runs
  own_evidence-remove_all j rows [] h = refl
  own_evidence-remove_all j rows (run ∷ runs) h =
      rw (find_last-remove_all run.run_id j rows h.0) (rw (own_evidence-remove_all j rows runs h.1))

  -- Over distinct runs the shared map, from which each lookup removes its entry, gives every run
  -- the evidence of its own aggregate, in the order of the request.
  pub objective_evidence_for_runs-map :
      (runs : List Run) (rows : List (MetricAggregate W))
      → IsDistinct runs
      → objective_evidence_for_runs runs rows ≡ map (own_evidence rows) runs
  unfolding objective_evidence_for_runs
  objective_evidence_for_runs-map [] rows h = refl
  objective_evidence_for_runs-map (run ∷ runs) rows h =
      rw (objective_evidence_for_runs-map runs (remove_all run.run_id rows) h.1)
        (rw (own_evidence-remove_all run.run_id rows runs h.0))
