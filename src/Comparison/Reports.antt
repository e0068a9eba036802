-- ===== src/Comparison/Reports.antt =====
-- The reports of a comparison request: order, totality and agreement with one-run queries.
use mathlib.Core.Path.{subst}
use pulseon.Base.{
  ℕ, zero, suc, ◌≡◌, ◌≤◌, ◌<◌, ◌+◌, refl, sym, ap, ap₂, ◌∙◌, Option, some, List, [], ◌∷◌, map,
  Result, ok, >>=-eq-ok, All, arith, length, length-map, get_elem?,
}
use pulseon.Float.{F64}
use pulseon.Model.Run.{Run, RunId}
use pulseon.Model.Metric.{MetricKey}
use pulseon.Model.Comparison.{
  ObjectiveMetric, ObjectiveEvidence, ComparisonReport, ComparisonResult, MetricComparisonResult,
}
use pulseon.Engine.Reads.{Reads, IsOrderedReads, ranking_evidence, reject_duplicate_run_ids}
use pulseon.Engine.Order.{ranking_evidence-ids}
use pulseon.Comparison.Evaluate.{
  SecondaryEvidenceSet, compare_evidence, compare_metric_evidence, secondary_at, reports_from,
  build_reports, add_secondary, secondary_sets, reports_of_rows, comparison_reports,
}

get_elem?-some {ℓ} :
    {A : Type ℓ} (xs : List A) (i : ℕ) → i < length xs → (a : A) × (get_elem? xs i ≡ some a)
get_elem?-some [] i h = elim h [ ]
get_elem?-some (x ∷ xs) zero h = (x, refl)
get_elem?-some (x ∷ xs) (suc i) h = get_elem?-some xs i (omega arith)

module _ {W : Type 0} ⦃d : F64 W⦄ where
  -- Every secondary set has a row for each of `n` candidates.
  abbrev pub IsFull : ℕ → List (SecondaryEvidenceSet W) → Type 0
  IsFull n sets = All (λ s. length s.candidates ≡ n) sets

  secondary_at-total :
      (sets : List (SecondaryEvidenceSet W)) (n i : ℕ)
      → IsFull n sets
      → i < n
      → (row : List (MetricComparisonResult W)) × (secondary_at sets i ≡ some row)
  unfolding secondary_at
  secondary_at-total [] n i h lt = ([], refl)
  secondary_at-total (set ∷ sets) n i h lt =
      let (c, got) = get_elem?-some set.candidates i (omega (arith, h.0)) in
      let (rest, found) = secondary_at-total sets n i h.1 lt in
      (compare_metric_evidence set.metric_key c set.reference ∷ rest, rw (got, found))

  reports_from-total :
      (o : ObjectiveMetric) (reference : ObjectiveEvidence W) (sets : List (SecondaryEvidenceSet W))
      (n i : ℕ) (cs : List (ObjectiveEvidence W))
      → IsFull n sets
      → i + length cs ≤ n
      → (reports : List (ComparisonReport W)) × (reports_from o reference sets i cs ≡ some reports)
        × (map (λ r. r.primary) reports ≡ map (λ c. compare_evidence o c reference) cs)
  unfolding reports_from
  reports_from-total o reference sets n i [] h le = ([], refl, refl)
  reports_from-total o reference sets n i (c ∷ cs) h le =
      let (row, got) = secondary_at-total sets n i h (omega arith) in
      let (rest, found, same) = reports_from-total o reference sets n (suc i) cs h (omega arith) in
      (
        record { primary = compare_evidence o c reference; secondary = row } ∷ rest,
        rw (got, found),
        ap (λ rs. compare_evidence o c reference ∷ rs) same,
      )

ok-injective {ℓ κ} :
    {E : Type ℓ} {A : Type κ} {a b : A} → ◌≡◌ {A = Result E A} (ok a) (ok b) → a ≡ b
ok-injective h = cc

module _ {W : Type 0} where
  abbrev row_ids : List (Run × ObjectiveEvidence W) → List RunId
  row_ids = map λ p. p.1.run_id

  abbrev evidence_of : List (Run × ObjectiveEvidence W) → List (ObjectiveEvidence W)
  evidence_of = map λ p. p.1

  length_of_ids :
      (rows : List (Run × ObjectiveEvidence W)) (ids : List RunId)
      → row_ids rows ≡ ids
      → length (evidence_of rows) ≡ length ids
  length_of_ids rows ids h =
      omega
        (arith, length-map rows (λ p. p.1), length-map rows (λ p. p.1.run_id), ap {B = ℕ} length h)

  evidence_of-ids :
      (rows : List (Run × ObjectiveEvidence W))
      → map (λ (c : ObjectiveEvidence W). c.run_id) (evidence_of rows) ≡ row_ids rows
  evidence_of-ids [] = refl
  evidence_of-ids (row ∷ rows) = ap (λ ids. row.1.run_id ∷ ids) (evidence_of-ids rows)

module _ {W : Type 0} ⦃d : F64 W⦄ (o : ObjectiveMetric) (reference : ObjectiveEvidence W) where
  -- What the primaries say, read off the evidence that they compare.
  primary-ids :
      (reports : List (ComparisonReport W)) (cs : List (ObjectiveEvidence W))
      → map (λ r. r.primary) reports ≡ map (λ c. compare_evidence o c reference) cs
      → (map (λ p. p.primary.candidate.run_id) reports ≡ map (λ c. c.run_id) cs)
        × All (λ p. p.primary.reference.run_id ≡ reference.run_id) reports
  unfolding compare_evidence
  primary-ids [] [] h = (refl, tt)
  primary-ids [] (c ∷ cs) h = cc
  primary-ids (p ∷ ps) [] h = cc
  primary-ids (p ∷ ps) (c ∷ cs) h =
      let (same, all) = primary-ids ps cs (cc h) in
      let e : p.primary ≡ compare_evidence o c reference = cc h in
      (
        ap₂ ◌∷◌ (ap (λ (x : ComparisonResult W). x.candidate.run_id) e) same,
        (ap (λ (x : ComparisonResult W). x.reference.run_id) e, all),
      )

module _ {W : Type 0} ⦃d : F64 W⦄ (r : Reads W) (ordered : IsOrderedReads r) where
  add_secondary-IsFull :
      (reference : RunId) (cs : List RunId) (key : MetricKey)
      (rows : List (Run × ObjectiveEvidence W)) (sets : List (SecondaryEvidenceSet W))
      → row_ids rows ≡ reference ∷ cs
      → IsFull (length cs) sets
      → IsFull (length cs) (add_secondary r key rows sets)
  unfolding add_secondary
  add_secondary-IsFull reference cs key [] sets e h = h
  add_secondary-IsFull reference cs key (row ∷ rows) sets e h = (length_of_ids rows cs (cc e), h)

  secondary_sets-IsFull :
      (reference : RunId) (cs : List RunId) (o : ObjectiveMetric) (keys : List MetricKey)
      {sets : List (SecondaryEvidenceSet W)}
      → secondary_sets r (reference ∷ cs) o keys ≡ ok sets
      → IsFull (length cs) sets
  unfolding secondary_sets
  secondary_sets-IsFull reference cs o [] h = subst (IsFull (length cs)) (ok-injective h) tt
  secondary_sets-IsFull reference cs o (key ∷ keys) h =
      let m = ranking_evidence r (reference ∷ cs) (record o { metric_key = key }) in
      let (rows, got, rest) = >>=-eq-ok m _ h in
      let (sets, found, last) = >>=-eq-ok (secondary_sets r (reference ∷ cs) o keys) _ rest in
      subst (IsFull (length cs)) (ok-injective last) (
        add_secondary-IsFull reference cs key rows sets
          (ranking_evidence-ids r ordered (reference ∷ cs) (record o { metric_key = key }) got)
          (secondary_sets-IsFull reference cs o keys found))

  -- What a successful answer holds.
  abbrev pub IsAnswer : List RunId → RunId → Option (List (ComparisonReport W)) → Type 0
  IsAnswer cs reference out =
      (reports : List (ComparisonReport W)) × (out ≡ some reports)
      × (map (λ p. p.primary.candidate.run_id) reports ≡ cs)
      × All (λ p. p.primary.reference.run_id ≡ reference) reports

  reports_of_rows-total :
      (cs : List RunId) (reference : RunId) (o : ObjectiveMetric) (keys : List MetricKey)
      (rows : List (Run × ObjectiveEvidence W)) {out : Option (List (ComparisonReport W))}
      → row_ids rows ≡ reference ∷ cs
      → reports_of_rows r (reference ∷ cs) o keys rows ≡ ok out
      → IsAnswer cs reference out
  unfolding reports_of_rows build_reports
  reports_of_rows-total cs reference o keys [] e h = cc
  reports_of_rows-total cs reference o keys (row ∷ rows) {out} e h =
      let (sets, found, last) = >>=-eq-ok (secondary_sets r (reference ∷ cs) o keys) _ h in
      let size : length (evidence_of rows) ≡ length cs = length_of_ids rows cs (cc e) in
      let (reports, built, same) =
        reports_from-total o row.1 sets (length cs) 0 (evidence_of rows)
          (secondary_sets-IsFull reference cs o keys found) (omega arith) in
      let (ids, refs) = primary-ids o row.1 reports (evidence_of rows) same in
      let named : row.1.run_id ≡ reference = cc e in
      let all = subst (λ k. All (λ p. p.primary.reference.run_id ≡ k) reports) named refs in
      (reports, ok-injective (sym last) ∙ built, ids ∙ (evidence_of-ids rows ∙ cc e), all)

  -- A successful request for reports never indexes out of range: it returns one report for each
  -- candidate, in the order of the request, each comparing that candidate with the reference run.
  pub comparison_reports-total :
      (cs : List RunId) (reference : RunId) (o : ObjectiveMetric) (keys : List MetricKey)
      {out : Option (List (ComparisonReport W))}
      → comparison_reports r cs reference o keys ≡ ok out
      → IsAnswer cs reference out
  unfolding comparison_reports
  comparison_reports-total cs reference o keys h =
      let (u, distinct, rest) = >>=-eq-ok (reject_duplicate_run_ids (reference ∷ cs)) _ h in
      let (rows, got, last) = >>=-eq-ok (ranking_evidence r (reference ∷ cs) o) _ rest in
      reports_of_rows-total cs reference o keys rows
        (ranking_evidence-ids r ordered (reference ∷ cs) o got) last
