-- ===== src/Engine/Order.antt =====
-- The evidence of a request comes back in the order of the request.
use mathlib.Core.Path.{subst}
use pulseon.Base.{
  ◌≡◌, refl, ap₂, List, [], ◌∷◌, map, Result, ok, err, >>=-eq-ok, ◌∙◌, Option, none, some,
}
use pulseon.Float.{F64}
use pulseon.Model.Run.{Run, RunId, RunStatus}
use pulseon.Model.Metric.{MetricAggregate}
use pulseon.Model.Comparison.{ObjectiveMetric, ObjectiveEvidence}
use pulseon.Engine.Error.{StorageError}
use pulseon.Engine.Reads.{Reads, IsOrderedReads, lift, zip, ranking_evidence}
use pulseon.Evidence.Derive.{objective_evidence, objective_evidence_for_runs, find_last, remove_all}

module _ {W : Type 0} ⦃d : F64 W⦄ where
  objective_evidence-run_id :
      (run_id : RunId) (s : RunStatus) (a : Option (MetricAggregate W))
      → (objective_evidence run_id s a).run_id ≡ run_id
  unfolding objective_evidence
  objective_evidence-run_id run_id s none = refl
  objective_evidence-run_id run_id s (some a) = refl

  -- Each row pairs a run with evidence that names it.
  zip-ids :
      (runs : List Run) (rows : List (MetricAggregate W))
      → map
          (λ (p : Run × ObjectiveEvidence W). p.1.run_id)
          (zip runs (objective_evidence_for_runs runs rows))
        ≡ map (λ run. run.run_id) runs
  unfolding zip objective_evidence_for_runs
  zip-ids [] rows = refl
  zip-ids (run ∷ runs) rows =
      ap₂ ◌∷◌ (objective_evidence-run_id run.run_id run.status (find_last run.run_id rows))
        (zip-ids runs (remove_all run.run_id rows))

pub lift-eq-ok : {A : Type 0} (m : Result StorageError A) {a : A} → lift m ≡ ok a → m ≡ ok a
lift-eq-ok (ok a) h = cc
lift-eq-ok (err e) h = cc

module _ {W : Type 0} ⦃d : F64 W⦄ (r : Reads W) (ordered : IsOrderedReads r) where
  pub ranking_evidence-ids :
      (ids : List RunId) (o : ObjectiveMetric) {rows : List (Run × ObjectiveEvidence W)}
      → ranking_evidence r ids o ≡ ok rows
      → map (λ (p : Run × ObjectiveEvidence W). p.1.run_id) rows ≡ ids
  unfolding ranking_evidence
  ranking_evidence-ids ids o {rows} h =
      let (runs, got, rest) = >>=-eq-ok (lift (r.get_runs ids)) _ h in
      let (sums, read, last) =
        >>=-eq-ok (lift (r.query_metric_summaries (map (λ run. run.run_id) runs) o.metric_key)) _
          rest in
      let e : zip runs (objective_evidence_for_runs runs sums) ≡ rows = cc last in
      subst (λ (l : List (Run × ObjectiveEvidence W)). map (λ p. p.1.run_id) l ≡ ids) e
        (zip-ids runs sums ∙ ordered.get_runs-ids ids (lift-eq-ok (r.get_runs ids) got))
